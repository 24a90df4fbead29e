-- ===== src/Memory/Wiped.antt =====
-- What the memory helpers leave behind: zeros.
use pst_boitier_pki.Common.{
  ◌≡◌, refl, ℕ, zero, suc, ◌<◌, none, some, [], ◌∷◌, ◌++◌, Bytes, length, replicate, drop, arith,
  drop-all, append-nil, ◌≤◌,
}
use pst_boitier_pki.Memory.{zero_bytes, hsm_secure_zero, hsm_secure_free}

-- A size inside the allocation: the bytes before it become zeros, those behind it stay.
pub zero_bytes-inside :
    (size : ℕ) (p : Bytes)
    → size ≤ length p
    → zero_bytes size p ≡ some (replicate size 0 ++ drop size p)
unfolding zero_bytes
zero_bytes-inside zero p h = refl
zero_bytes-inside (suc size) [] h = absurd (omega arith)
zero_bytes-inside (suc size) (x ∷ p) h = rw (zero_bytes-inside size p (omega arith)) refl

-- A size behind the end of the allocation: the loop leaves it.
pub zero_bytes-outside : (size : ℕ) (p : Bytes) → length p < size → zero_bytes size p ≡ none
unfolding zero_bytes
zero_bytes-outside zero p h = absurd (omega arith)
zero_bytes-outside (suc size) [] h = refl
zero_bytes-outside (suc size) (x ∷ p) h = rw (zero_bytes-outside size p (omega arith)) refl

-- hsm_secure_free with the size of the allocation gives only zeros back to the heap.
pub secure_free-wipes :
    (p : Bytes) → hsm_secure_free (some p) (length p) ≡ some (some (replicate (length p) 0))
unfolding hsm_secure_free hsm_secure_zero
secure_free-wipes p =
    rw
      (
        zero_bytes-inside (length p) p (omega arith),
        drop-all p,
        append-nil {A = ℕ} (replicate (length p) 0),
      )
      refl
