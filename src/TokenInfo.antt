-- ===== src/TokenInfo.antt =====
-- C_GetTokenInfo of hsm/src/pkcs11/pkcs11_impl.c. A structure is given back beside the return value.
pub mod Label
use pst_boitier_pki.Common.{
  ℕ, zero, suc, ◌+◌, ◌-◌, ◌/◌, ◌%◌, Bool, true, false, Option, none, some, List, [], ◌∷◌, ◌++◌,
  Bytes, length, take, memcpy, replicate, ltb, leb, ◌==◌, if◌then◌else◌, not, ◌||◌,
}
use pst_boitier_pki.Cryptoki.{
  CkRv, ckr_ok, ckr_arguments_bad, ckr_cryptoki_not_initialized, ckr_slot_id_invalid,
  ckr_token_not_present, ckr_buffer_too_small, ckr_function_not_supported,
  ckr_function_not_parallel,
}
use pst_boitier_pki.Hsm.State.{
  HsmContext, HsmSlot, hsm_max_sessions, hsm_max_pin_len, hsm_min_pin_len,
}
use pst_boitier_pki.Hsm.State
use pst_boitier_pki.Hsm.Cmd.{Cmd, pure, ◌>>=◌, ◌>>◌, get, crash, read_slot}
use pst_boitier_pki.Storage.{of_bool, little_endian}
use pst_boitier_pki.Attributes.{strlen}
use pst_boitier_pki.Info.{CkVersion, manufacturer, padded, snprintf}

-- Flags of a token, one bit each.
abbrev pub ckf_rng : ℕ
ckf_rng = 0x1

abbrev pub ckf_login_required : ℕ
ckf_login_required = 0x4

abbrev pub ckf_user_pin_initialized : ℕ
ckf_user_pin_initialized = 0x8

abbrev pub ckf_token_initialized : ℕ
ckf_token_initialized = 0x400

abbrev pub ckf_user_pin_locked : ℕ
ckf_user_pin_locked = 0x40000

-- `CK_TOKEN_INFO`
pub record CkTokenInfo : Type 0 where
  pub label : Bytes
  pub manufacturer_id : Bytes
  pub model : Bytes
  pub serial_number : Bytes
  pub flags : ℕ
  pub ul_max_session_count : ℕ
  pub ul_session_count : ℕ
  pub ul_max_rw_session_count : ℕ
  pub ul_rw_session_count : ℕ
  pub ul_max_pin_len : ℕ
  pub ul_min_pin_len : ℕ
  pub ul_total_public_memory : ℕ
  pub ul_free_public_memory : ℕ
  pub ul_total_private_memory : ℕ
  pub ul_free_private_memory : ℕ
  pub hardware_version : CkVersion
  pub firmware_version : CkVersion
  pub utc_time : Bytes

-- "PST HSM Token"
abbrev pub token_name : Bytes
token_name =
    b'P' ∷ b'S' ∷ b'T' ∷ b' ' ∷ b'H' ∷ b'S' ∷ b'M' ∷ b' ' ∷ b'T' ∷ b'o' ∷ b'k' ∷ b'e' ∷ b'n' ∷ []

-- "PST-HSM-001"
abbrev pub model_name : Bytes
model_name = b'P' ∷ b'S' ∷ b'T' ∷ b'-' ∷ b'H' ∷ b'S' ∷ b'M' ∷ b'-' ∷ b'0' ∷ b'0' ∷ b'1' ∷ []

-- One digit of `%lX`.
abbrev pub hex_digit : ℕ → ℕ
hex_digit x = if ltb x 10 then b'0' + x else b'A' + (x - 10)

-- `%0nlX` of a number of at most `n` digits.
unfoldable pub hexadecimal : (n x : ℕ) → Bytes
hexadecimal zero x = []
hexadecimal (suc n) x = hexadecimal n (x / 16) ++ (hex_digit (x % 16) ∷ [])

-- The bytes of `hsm_slot_t` from `token_label` on, as far as the retry counters: what `strlen` of the
-- label may read, as the label need not end in a zero byte.
unfoldable pub label_memory : State.Token → Bytes
label_memory t =
    t.token_label
    ++ (of_bool t.token_initialized
        ∷ of_bool t.user_pin_initialized
        ∷ of_bool t.so_pin_initialized
        ∷ (t.user_pin_hash
            ++ (t.so_pin_hash
                ++ (little_endian 4 t.user_pin_retry_count
                    ++ little_endian 4 t.so_pin_retry_count))))

-- The label that `C_GetTokenInfo` gives, `n` being the `strlen`.
abbrev pub shown_label : (memory : Bytes) (n : ℕ) → Bytes
shown_label memory n =
    if ltb 0 n
    then memcpy (replicate 32 b' ') (take (if ltb n 32 then n else 32) memory)
    else padded 32 token_name

abbrev pub token_flags : State.Token → ℕ
token_flags t =
    ckf_rng
    + ckf_login_required
    + (if t.token_initialized then ckf_token_initialized else 0)
    + (if t.user_pin_initialized then ckf_user_pin_initialized else 0)
    + (if t.user_pin_locked then ckf_user_pin_locked else 0)

-- `CK_UNAVAILABLE_INFORMATION` is defined in no header of the repository.
unfoldable pub token_info : (unavailable now : ℕ) → HsmSlot → (n : ℕ) → CkTokenInfo
token_info unavailable now s n = record {
  label = shown_label (label_memory s.token) n;
  manufacturer_id = padded 32 manufacturer;
  model = padded 16 model_name;
  serial_number = snprintf 16 (hexadecimal 16 now);
  flags = token_flags s.token;
  ul_max_session_count = hsm_max_sessions;
  ul_session_count = s.session_count;
  ul_max_rw_session_count = hsm_max_sessions;
  ul_rw_session_count = s.session_count;
  ul_max_pin_len = hsm_max_pin_len;
  ul_min_pin_len = hsm_min_pin_len;
  ul_total_public_memory = unavailable;
  ul_free_public_memory = unavailable;
  ul_total_private_memory = unavailable;
  ul_free_private_memory = unavailable;
  hardware_version = record { major = 1; minor = 0 };
  firmware_version = record { major = 1; minor = 0 };
  utc_time = replicate 16 b' ';
}

unfoldable pub c_get_token_info :
    (unavailable now : ℕ) (p_info : Bool) (slot_id : ℕ) → Cmd (CkRv × Option CkTokenInfo)
c_get_token_info unavailable now p_info slot_id =
    if not p_info then pure (ckr_arguments_bad, none) else do
      g ← get
      if not g.initialized
          then pure (ckr_cryptoki_not_initialized, none)
          else if leb g.slot_count slot_id
          then pure (ckr_slot_id_invalid, none)
          else do
            s ← read_slot slot_id
            if not s.token_present
                then pure (ckr_token_not_present, none)
                else elim (strlen (label_memory s.token)) [
                  | none ↦ crash
                  | some n ↦ pure (ckr_ok, some (token_info unavailable now s n))
                ]
