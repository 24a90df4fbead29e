-- ===== src/Pin.antt =====
-- PIN management of hsm/src/utils/utils.c: hsm_set_pin and hsm_verify_pin. The hash of hsm_hash_pin
-- is OpenSSL's SHA-256, a parameter. A PIN is the byte list that its pointer and length describe.
pub mod Lockout
pub mod Guard
pub mod Change
use pst_boitier_pki.Common.{
  ℕ, ◌-◌, Bool, true, Bytes, length, memeq, ltb, ◌==◌, if◌then◌else◌, ◌||◌, not,
}
use pst_boitier_pki.Cryptoki.{
  CkRv, ckr_ok, ckr_pin_len_range, ckr_user_pin_not_initialized, ckr_pin_locked, ckr_pin_incorrect,
  cku_so,
}
use pst_boitier_pki.Hsm.State.{Token, hsm_min_pin_len, hsm_max_pin_len, hsm_pin_retry_count}

-- The test that `C_InitToken`, `C_InitPIN`, `C_SetPIN` and `hsm_set_pin` make.
abbrev pub pin_len_bad : Bytes → Bool
pin_len_bad pin = ltb (length pin) hsm_min_pin_len || ltb hsm_max_pin_len (length pin)

-- What the pointers `stored_hash`, `retry_count` and `locked` of `hsm_verify_pin` lead to.
abbrev pub pin_initialized : ℕ → Token → Bool
pin_initialized user_type t =
    if user_type == cku_so then t.so_pin_initialized else t.user_pin_initialized

abbrev pub pin_hash : ℕ → Token → Bytes
pin_hash user_type t = if user_type == cku_so then t.so_pin_hash else t.user_pin_hash

abbrev pub retry_count : ℕ → Token → ℕ
retry_count user_type t =
    if user_type == cku_so then t.so_pin_retry_count else t.user_pin_retry_count

abbrev pub pin_locked : ℕ → Token → Bool
pin_locked user_type t = if user_type == cku_so then t.so_pin_locked else t.user_pin_locked

-- Writes through these pointers.
abbrev pub set_retry_count : ℕ → ℕ → Token → Token
set_retry_count user_type n t =
    if user_type == cku_so
    then record t { so_pin_retry_count = n }
    else record t { user_pin_retry_count = n }

abbrev pub set_pin_locked : ℕ → Token → Token
set_pin_locked user_type t =
    if user_type == cku_so
    then record t { so_pin_locked = true }
    else record t { user_pin_locked = true }

abbrev pub set_pin_hash : ℕ → Bytes → Token → Token
set_pin_hash user_type h t =
    if user_type == cku_so then record t { so_pin_hash = h } else record t { user_pin_hash = h }

module _ (sha256 : Bytes → Bytes) where
  unfoldable pub hsm_set_pin : ℕ → Bytes → Token → CkRv × Token
  hsm_set_pin user_type pin t =
      if pin_len_bad pin
      then (ckr_pin_len_range, t)
      else (ckr_ok, set_pin_hash user_type (sha256 pin) t)

  -- The branch of `hsm_verify_pin` for a wrong PIN.
  unfoldable pub wrong_pin : ℕ → Token → CkRv × Token
  wrong_pin user_type t =
      let count = retry_count user_type t in
      let left = if ltb 0 count then count - 1 else count in
      let t' = set_retry_count user_type left t in
      if left == 0 then (ckr_pin_locked, set_pin_locked user_type t') else (ckr_pin_incorrect, t')

  unfoldable pub hsm_verify_pin : ℕ → Bytes → Token → CkRv × Token
  unfolding wrong_pin
  hsm_verify_pin user_type pin t =
      if not (pin_initialized user_type t)
      then (ckr_user_pin_not_initialized, t)
      else if pin_locked user_type t
      then (ckr_pin_locked, t)
      else if memeq (sha256 pin) (pin_hash user_type t)
      then (ckr_ok, set_retry_count user_type hsm_pin_retry_count t)
      else wrong_pin user_type t
