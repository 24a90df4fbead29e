-- ===== src/Memory.antt =====
-- The memory helpers of hsm/src/utils/utils.c: hsm_secure_alloc, hsm_secure_zero, hsm_secure_free.
-- An allocation is the list of its bytes, a pointer to its start is an Option, `none` for NULL.
pub mod Wiped
use pst_boitier_pki.Common.{
  ℕ, zero, suc, Bool, true, false, Option, none, some, List, [], ◌∷◌, Bytes, replicate,
  if◌then◌else◌,
}
use mathlib.Core.Option.{map}

-- Whether calloc succeeds is given.
abbrev pub hsm_secure_alloc : (memory : Bool) (size : ℕ) → Option Bytes
hsm_secure_alloc memory size = if memory then some (replicate size 0) else none

-- The loop of hsm_secure_zero: `none` where it writes behind the end of the allocation.
unfoldable pub zero_bytes : (size : ℕ) → Bytes → Option Bytes
zero_bytes zero p = some p
zero_bytes (suc size) [] = none
zero_bytes (suc size) (_ ∷ p) = map (0 ∷◌) (zero_bytes size p)

-- The outer `none` is a write outside the allocation.
unfoldable pub hsm_secure_zero : (ptr : Option Bytes) (size : ℕ) → Option (Option Bytes)
hsm_secure_zero none size = some none
hsm_secure_zero (some p) size = map some (zero_bytes size p)

-- The bytes that `free` gives back to the heap.
unfoldable pub hsm_secure_free : (ptr : Option Bytes) (size : ℕ) → Option (Option Bytes)
hsm_secure_free none size = some none
hsm_secure_free (some p) size = hsm_secure_zero (some p) size
