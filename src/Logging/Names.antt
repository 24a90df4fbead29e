-- ===== src/Logging/Names.antt =====
-- The texts of numbers that hsm/src/utils/utils.c prints: hsm_mechanism_to_string and hsm_rv_to_string.
use Prim.Native.String.{String}
use pst_boitier_pki.Common.{◌≡◌, refl, ℕ, List, [], ◌∷◌, ◌==◌, if◌then◌else◌, replicate}
use mathlib.Core.List.{map}
use pst_boitier_pki.Cryptoki.{
  CkRv, ckr_cancel, ckr_host_memory, ckr_slot_id_invalid, ckr_general_error, ckr_function_failed,
  ckr_arguments_bad, ckr_pin_incorrect, ckr_pin_locked, ckr_session_handle_invalid,
  ckr_cryptoki_not_initialized, ckr_cryptoki_already_initialized, ckr_ok,
}
use pst_boitier_pki.Mechanisms.{
  ckm_rsa_pkcs_key_pair_gen, ckm_rsa_pkcs, ckm_rsa_pkcs_pss, ckm_sha256_rsa_pkcs,
  ckm_sha384_rsa_pkcs, ckm_sha512_rsa_pkcs, ckm_ec_key_pair_gen, ckm_ecdsa, ckm_ecdsa_sha256,
  ckm_ecdsa_sha384, ckm_ecdsa_sha512, ckm_sha256_rsa_pkcs_pss, ckm_sha384_rsa_pkcs_pss,
  ckm_sha512_rsa_pkcs_pss, ckm_sha256, ckm_sha384, ckm_sha512, hsm_check_mechanism_supported,
  is_one_of,
}

-- The cases of a switch, in order: a number and the text returned.
abbrev pub mechanism_cases : List (ℕ × String)
mechanism_cases =
    (ckm_rsa_pkcs_key_pair_gen, "CKM_RSA_PKCS_KEY_PAIR_GEN")
    ∷ (ckm_rsa_pkcs, "CKM_RSA_PKCS")
    ∷ (ckm_rsa_pkcs_pss, "CKM_RSA_PKCS_PSS")
    ∷ (ckm_sha256_rsa_pkcs, "CKM_SHA256_RSA_PKCS")
    ∷ (ckm_sha384_rsa_pkcs, "CKM_SHA384_RSA_PKCS")
    ∷ (ckm_sha512_rsa_pkcs, "CKM_SHA512_RSA_PKCS")
    ∷ (ckm_ec_key_pair_gen, "CKM_EC_KEY_PAIR_GEN")
    ∷ (ckm_ecdsa, "CKM_ECDSA")
    ∷ (ckm_ecdsa_sha256, "CKM_ECDSA_SHA256")
    ∷ (ckm_ecdsa_sha384, "CKM_ECDSA_SHA384")
    ∷ (ckm_ecdsa_sha512, "CKM_ECDSA_SHA512")
    ∷ []

-- A switch over such cases, with `default: return "UNKNOWN"`.
unfoldable pub switch : List (ℕ × String) → ℕ → String
switch [] m = "UNKNOWN"
switch ((k, text) ∷ cases) m = if k == m then text else switch cases m

unfoldable pub hsm_mechanism_to_string : ℕ → String
hsm_mechanism_to_string m = switch mechanism_cases m

unfoldable pub hsm_rv_to_string : CkRv → String
hsm_rv_to_string ckr_ok = "CKR_OK"
hsm_rv_to_string ckr_cancel = "CKR_CANCEL"
hsm_rv_to_string ckr_host_memory = "CKR_HOST_MEMORY"
hsm_rv_to_string ckr_slot_id_invalid = "CKR_SLOT_ID_INVALID"
hsm_rv_to_string ckr_general_error = "CKR_GENERAL_ERROR"
hsm_rv_to_string ckr_function_failed = "CKR_FUNCTION_FAILED"
hsm_rv_to_string ckr_arguments_bad = "CKR_ARGUMENTS_BAD"
hsm_rv_to_string ckr_pin_incorrect = "CKR_PIN_INCORRECT"
hsm_rv_to_string ckr_pin_locked = "CKR_PIN_LOCKED"
hsm_rv_to_string ckr_session_handle_invalid = "CKR_SESSION_HANDLE_INVALID"
hsm_rv_to_string ckr_cryptoki_not_initialized = "CKR_CRYPTOKI_NOT_INITIALIZED"
hsm_rv_to_string ckr_cryptoki_already_initialized = "CKR_CRYPTOKI_ALREADY_INITIALIZED"
hsm_rv_to_string _ = "UNKNOWN"

-- Mechanisms of the list of C_GetMechanismList that have no text.
abbrev pub unnamed : List ℕ
unnamed =
    ckm_sha256_rsa_pkcs_pss ∷ ckm_sha384_rsa_pkcs_pss ∷ ckm_sha512_rsa_pkcs_pss ∷ ckm_sha256
    ∷ ckm_sha384 ∷ ckm_sha512 ∷ []

-- Six mechanisms that hsm_check_mechanism_supported knows are printed as "UNKNOWN": PSS with the
-- three hashes, which C_SignInit takes and C_Sign carries out, and the hashes by themselves.
pub unnamed-supported : map hsm_check_mechanism_supported unnamed ≡ replicate 6 ckr_ok
unfolding hsm_check_mechanism_supported is_one_of
unnamed-supported = refl

pub unnamed-unknown : map hsm_mechanism_to_string unnamed ≡ replicate 6 "UNKNOWN"
unfolding hsm_mechanism_to_string switch
unnamed-unknown = refl

-- A text of its own for each of the mechanisms that have a case.
pub mechanism_to_string-cases :
    map (λ (c : ℕ × String). hsm_mechanism_to_string c.0) mechanism_cases
    ≡ map (λ (c : ℕ × String). c.1) mechanism_cases
unfolding hsm_mechanism_to_string switch
mechanism_to_string-cases = refl
