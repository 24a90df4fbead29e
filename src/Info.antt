-- ===== src/Info.antt =====
-- The calls of hsm/src/pkcs11/pkcs11_impl.c that give information: C_GetInfo, C_GetSlotList,
-- C_GetSlotInfo, and the stubs at the end of the file. They change no state. A
-- structure is given back beside the return value, `none` where it is not written.
pub mod SlotList
use pst_boitier_pki.Common.{
  ℕ, zero, suc, ◌+◌, ◌-◌, ◌/◌, ◌%◌, Bool, true, false, Option, none, some, List, [], ◌∷◌, ◌++◌,
  Bytes, length, take, memcpy, replicate, ltb, leb, ◌==◌, if◌then◌else◌, not, ◌||◌,
}
use pst_boitier_pki.Cryptoki.{
  CkRv, ckr_ok, ckr_arguments_bad, ckr_cryptoki_not_initialized, ckr_slot_id_invalid,
  ckr_token_not_present, ckr_buffer_too_small, ckr_function_not_supported,
  ckr_function_not_parallel,
}
use pst_boitier_pki.Hsm.State.{
  HsmContext, HsmSlot, hsm_max_sessions, hsm_max_pin_len, hsm_min_pin_len,
}
use pst_boitier_pki.Hsm.State
use pst_boitier_pki.Hsm.Cmd.{Cmd, pure, ◌>>=◌, ◌>>◌, get, crash, read_slot}
use pst_boitier_pki.Storage.{of_bool, little_endian}
use pst_boitier_pki.Attributes.{strlen}

-- Flags of a slot, one bit each.
abbrev pub ckf_token_present : ℕ
ckf_token_present = 0x1

abbrev pub ckf_hw_slot : ℕ
ckf_hw_slot = 0x4

-- `CK_VERSION`
pub record CkVersion : Type 0 where
  pub major : ℕ
  pub minor : ℕ

-- `CK_INFO`
pub record CkInfo : Type 0 where
  pub cryptoki_version : CkVersion
  pub manufacturer_id : Bytes
  pub flags : ℕ
  pub library_description : Bytes
  pub library_version : CkVersion

-- `CK_SLOT_INFO`
pub record CkSlotInfo : Type 0 where
  pub slot_description : Bytes
  pub manufacturer_id : Bytes
  pub flags : ℕ
  pub hardware_version : CkVersion
  pub firmware_version : CkVersion

-- "PST Cryptographic Systems"
abbrev pub manufacturer : Bytes
manufacturer =
    b'P' ∷ b'S' ∷ b'T' ∷ b' ' ∷ b'C' ∷ b'r' ∷ b'y' ∷ b'p' ∷ b't' ∷ b'o' ∷ b'g' ∷ b'r' ∷ b'a' ∷ b'p'
    ∷ b'h' ∷ b'i' ∷ b'c' ∷ b' ' ∷ b'S' ∷ b'y' ∷ b's' ∷ b't' ∷ b'e' ∷ b'm' ∷ b's' ∷ []

-- "PST HSM PKCS#11 Library"
abbrev pub library_name : Bytes
library_name =
    b'P' ∷ b'S' ∷ b'T' ∷ b' ' ∷ b'H' ∷ b'S' ∷ b'M' ∷ b' ' ∷ b'P' ∷ b'K' ∷ b'C' ∷ b'S' ∷ b'#' ∷ b'1'
    ∷ b'1' ∷ b' ' ∷ b'L' ∷ b'i' ∷ b'b' ∷ b'r' ∷ b'a' ∷ b'r' ∷ b'y' ∷ []

-- "PST HSM Slot "
abbrev pub slot_name : Bytes
slot_name =
    b'P' ∷ b'S' ∷ b'T' ∷ b' ' ∷ b'H' ∷ b'S' ∷ b'M' ∷ b' ' ∷ b'S' ∷ b'l' ∷ b'o' ∷ b't' ∷ b' ' ∷ []

-- `memset(dst, ' ', n); memcpy(dst, text, strlen(text));`
abbrev pub padded : (n : ℕ) (text : Bytes) → Bytes
padded n text = memcpy (replicate n b' ') text

-- What `C_GetInfo` writes.
abbrev pub library_info : CkInfo
library_info = record {
  cryptoki_version = record { major = 2; minor = 40 };
  manufacturer_id = padded 32 manufacturer;
  flags = 0;
  library_description = padded 32 library_name;
  library_version = record { major = 1; minor = 0 };
}

unfoldable pub c_get_info : (p_info : Bool) → HsmContext → CkRv × Option CkInfo
c_get_info p_info g =
    if not p_info
    then (ckr_arguments_bad, none)
    else if not g.initialized
    then (ckr_cryptoki_not_initialized, none)
    else (ckr_ok, some library_info)

-- The loop that counts the slots with a token, from slot `i`, with `n` slots left.
unfoldable pub count_slots : (n i count : ℕ) → Cmd ℕ
count_slots zero i count = pure count
count_slots (suc n) i count = do
  s ← read_slot i
  count_slots n (suc i) (if s.token_present then count + 1 else count)

-- The loop that writes the list, with room for `count - idx` more.
unfoldable pub fill_slots : (token_present : Bool) (n i room : ℕ) → Cmd (List ℕ)
fill_slots token_present zero i room = pure []
fill_slots token_present (suc n) i zero = pure []
fill_slots false (suc n) i (suc room) = do rest ← fill_slots false n (suc i) room; pure (i ∷ rest)
fill_slots true (suc n) i (suc room) = do
  s ← read_slot i
  if s.token_present
      then (do rest ← fill_slots true n (suc i) room; pure (i ∷ rest))
      else fill_slots true n (suc i) (suc room)

-- The return value, the list if it is written, and `*pulCount`, whose value at the call is `count`;
-- `none` for `pulCount` is NULL, and gives 0 back.
unfoldable pub c_get_slot_list :
    (token_present list_given : Bool) (pul_count : Option ℕ) → Cmd (CkRv × Option (List ℕ) × ℕ)
c_get_slot_list token_present list_given none = pure (ckr_arguments_bad, none, 0)
c_get_slot_list token_present list_given (some given) = do
  g ← get
  if not g.initialized then pure (ckr_cryptoki_not_initialized, none, given) else do
    count ← (if token_present then count_slots g.slot_count 0 0 else pure g.slot_count)
    if not list_given
        then pure (ckr_ok, none, count)
        else if ltb given count
        then pure (ckr_buffer_too_small, none, count)
        else do
          slots ← fill_slots token_present g.slot_count 0 count
          pure (ckr_ok, some slots, count)

-- `%lu`, with at most `n` digits.
unfoldable pub decimal : (n x : ℕ) → Bytes
decimal zero x = []
decimal (suc n) x =
    let rest = decimal n (x / 10) in
    if ltb x 10 then (b'0' + x) ∷ [] else rest ++ ((b'0' + x % 10) ∷ [])

-- `snprintf(dst, n, ...)` of a text, over `n` spaces.
abbrev pub snprintf : (n : ℕ) (text : Bytes) → Bytes
snprintf n text = memcpy (replicate n b' ') (take (n - 1) text ++ (0 ∷ []))

-- Twenty digits are enough for 64 bits.
unfoldable pub c_get_slot_info : (p_info : Bool) (slot_id : ℕ) → Cmd (CkRv × Option CkSlotInfo)
c_get_slot_info p_info slot_id = if not p_info then pure (ckr_arguments_bad, none) else do
  g ← get
  if not g.initialized
      then pure (ckr_cryptoki_not_initialized, none)
      else if leb g.slot_count slot_id
      then pure (ckr_slot_id_invalid, none)
      else do
        s ← read_slot slot_id
        pure (
          ckr_ok,
          some (record {
            slot_description = snprintf 64 (slot_name ++ decimal 20 slot_id);
            manufacturer_id = padded 32 manufacturer;
            flags = ckf_hw_slot + (if s.token_present then ckf_token_present else 0);
            hardware_version = record { major = 1; minor = 0 };
            firmware_version = record { major = 1; minor = 0 };
          }),
        )

-- The stubs, with their arguments left out: from `C_GetOperationState` to `C_DeriveKey`, and
-- `C_WaitForSlotEvent`.
unfoldable pub not_supported : Cmd CkRv
not_supported = pure ckr_function_not_supported

unfoldable pub c_seed_random : Cmd CkRv
c_seed_random = pure ckr_ok

-- `C_GetFunctionStatus` and `C_CancelFunction`
unfoldable pub not_parallel : Cmd CkRv
not_parallel = pure ckr_function_not_parallel
