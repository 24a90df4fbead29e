-- ===== src/Mechanisms.antt =====
-- Mechanisms: hsm_check_mechanism_supported of hsm/src/utils/utils.c, C_GetMechanismList and
-- C_GetMechanismInfo of hsm/src/pkcs11/pkcs11_impl.c. These calls only read the state.
pub mod Agreement
use pst_boitier_pki.Common.{
  ℕ, ◌+◌, Bool, true, false, Option, none, some, List, [], ◌∷◌, length, ltb, leb, ◌==◌,
  if◌then◌else◌, not, ◌||◌,
}
use pst_boitier_pki.Cryptoki.{
  CkRv, ckr_ok, ckr_arguments_bad, ckr_cryptoki_not_initialized, ckr_slot_id_invalid,
  ckr_mechanism_invalid, ckr_buffer_too_small, is_ok,
}
use pst_boitier_pki.Hsm.State.{HsmContext}

-- The numbers of the mechanisms, and of the flags of a mechanism.
abbrev pub ckm_rsa_pkcs_key_pair_gen : ℕ
ckm_rsa_pkcs_key_pair_gen = 0x0

abbrev pub ckm_rsa_pkcs : ℕ
ckm_rsa_pkcs = 0x1

abbrev pub ckm_rsa_pkcs_pss : ℕ
ckm_rsa_pkcs_pss = 0xd

abbrev pub ckm_sha256_rsa_pkcs : ℕ
ckm_sha256_rsa_pkcs = 0x40

abbrev pub ckm_sha384_rsa_pkcs : ℕ
ckm_sha384_rsa_pkcs = 0x41

abbrev pub ckm_sha512_rsa_pkcs : ℕ
ckm_sha512_rsa_pkcs = 0x42

abbrev pub ckm_sha256_rsa_pkcs_pss : ℕ
ckm_sha256_rsa_pkcs_pss = 0x43

abbrev pub ckm_sha384_rsa_pkcs_pss : ℕ
ckm_sha384_rsa_pkcs_pss = 0x44

abbrev pub ckm_sha512_rsa_pkcs_pss : ℕ
ckm_sha512_rsa_pkcs_pss = 0x45

abbrev pub ckm_ec_key_pair_gen : ℕ
ckm_ec_key_pair_gen = 0x1040

abbrev pub ckm_ecdsa : ℕ
ckm_ecdsa = 0x1041

abbrev pub ckm_ecdsa_sha256 : ℕ
ckm_ecdsa_sha256 = 0x1044

abbrev pub ckm_ecdsa_sha384 : ℕ
ckm_ecdsa_sha384 = 0x1045

abbrev pub ckm_ecdsa_sha512 : ℕ
ckm_ecdsa_sha512 = 0x1046

abbrev pub ckm_sha256 : ℕ
ckm_sha256 = 0x250

abbrev pub ckm_sha384 : ℕ
ckm_sha384 = 0x260

abbrev pub ckm_sha512 : ℕ
ckm_sha512 = 0x270

abbrev pub ckf_hw : ℕ
ckf_hw = 0x1

abbrev pub ckf_digest : ℕ
ckf_digest = 0x400

abbrev pub ckf_sign : ℕ
ckf_sign = 0x800

abbrev pub ckf_verify : ℕ
ckf_verify = 0x2000

abbrev pub ckf_generate_key_pair : ℕ
ckf_generate_key_pair = 0x10000

abbrev pub ckf_ec_namedcurve : ℕ
ckf_ec_namedcurve = 0x800000

-- The list of `C_GetMechanismList`, and that of `hsm_check_mechanism_supported`.
abbrev pub mechanisms : List ℕ
mechanisms =
    ckm_rsa_pkcs_key_pair_gen ∷ ckm_rsa_pkcs ∷ ckm_rsa_pkcs_pss ∷ ckm_sha256_rsa_pkcs
    ∷ ckm_sha384_rsa_pkcs ∷ ckm_sha512_rsa_pkcs ∷ ckm_sha256_rsa_pkcs_pss ∷ ckm_sha384_rsa_pkcs_pss
    ∷ ckm_sha512_rsa_pkcs_pss ∷ ckm_ec_key_pair_gen ∷ ckm_ecdsa ∷ ckm_ecdsa_sha256
    ∷ ckm_ecdsa_sha384 ∷ ckm_ecdsa_sha512 ∷ ckm_sha256 ∷ ckm_sha384 ∷ ckm_sha512 ∷ []

abbrev pub supported : List ℕ
supported =
    ckm_rsa_pkcs_key_pair_gen ∷ ckm_rsa_pkcs ∷ ckm_rsa_pkcs_pss ∷ ckm_sha256_rsa_pkcs
    ∷ ckm_sha384_rsa_pkcs ∷ ckm_sha512_rsa_pkcs ∷ ckm_sha256_rsa_pkcs_pss ∷ ckm_sha384_rsa_pkcs_pss
    ∷ ckm_sha512_rsa_pkcs_pss ∷ ckm_ec_key_pair_gen ∷ ckm_ecdsa ∷ ckm_ecdsa_sha256
    ∷ ckm_ecdsa_sha384 ∷ ckm_ecdsa_sha512 ∷ ckm_sha256 ∷ ckm_sha384 ∷ ckm_sha512 ∷ []

-- The loop over a list.
unfoldable pub is_one_of : ℕ → List ℕ → Bool
is_one_of m [] = false
is_one_of m (x ∷ xs) = x == m || is_one_of m xs

unfoldable pub hsm_check_mechanism_supported : ℕ → CkRv
hsm_check_mechanism_supported m = if is_one_of m supported then ckr_ok else ckr_mechanism_invalid

-- `CK_MECHANISM_INFO`
pub record CkMechanismInfo : Type 0 where
  pub ul_min_key_size : ℕ
  pub ul_max_key_size : ℕ
  pub flags : ℕ

-- The return value, the list if it is written, and `*pulCount`, whose value at the call is `count`.
unfoldable pub c_get_mechanism_list :
    (list_given : Bool) (count slot_id : ℕ) → HsmContext → CkRv × Option (List ℕ) × ℕ
c_get_mechanism_list list_given count slot_id g =
    if not g.initialized
    then (ckr_cryptoki_not_initialized, none, count)
    else if leb g.slot_count slot_id
    then (ckr_slot_id_invalid, none, count)
    else if not list_given
    then (ckr_ok, none, length mechanisms)
    else if ltb count (length mechanisms)
    then (ckr_buffer_too_small, none, length mechanisms)
    else (ckr_ok, some mechanisms, length mechanisms)

-- The `switch` of `C_GetMechanismInfo`; `none` is its default.
unfoldable pub mechanism_info : ℕ → Option CkMechanismInfo
mechanism_info m =
    if m == ckm_rsa_pkcs_key_pair_gen
    then some (record {
      ul_min_key_size = 2048;
      ul_max_key_size = 4096;
      flags = ckf_hw + ckf_generate_key_pair;
    })
    else if m == ckm_rsa_pkcs
        || m == ckm_rsa_pkcs_pss
        || m == ckm_sha256_rsa_pkcs
        || m == ckm_sha384_rsa_pkcs
        || m == ckm_sha512_rsa_pkcs
        || m == ckm_sha256_rsa_pkcs_pss
        || m == ckm_sha384_rsa_pkcs_pss
        || m == ckm_sha512_rsa_pkcs_pss
    then some (record {
      ul_min_key_size = 2048;
      ul_max_key_size = 4096;
      flags = ckf_hw + ckf_sign + ckf_verify;
    })
    else if m == ckm_ec_key_pair_gen
    then some (record {
      ul_min_key_size = 256;
      ul_max_key_size = 521;
      flags = ckf_hw + ckf_generate_key_pair + ckf_ec_namedcurve;
    })
    else if m == ckm_ecdsa
        || m == ckm_ecdsa_sha256
        || m == ckm_ecdsa_sha384
        || m == ckm_ecdsa_sha512
    then some (record {
      ul_min_key_size = 256;
      ul_max_key_size = 521;
      flags = ckf_hw + ckf_sign + ckf_verify + ckf_ec_namedcurve;
    })
    else if m == ckm_sha256 || m == ckm_sha384 || m == ckm_sha512
    then some (record { ul_min_key_size = 0; ul_max_key_size = 0; flags = ckf_hw + ckf_digest })
    else none

unfoldable pub c_get_mechanism_info :
    (p_info : Bool) (slot_id type : ℕ) → HsmContext → CkRv × Option CkMechanismInfo
unfolding hsm_check_mechanism_supported
c_get_mechanism_info p_info slot_id type g =
    if not p_info
    then (ckr_arguments_bad, none)
    else if not g.initialized
    then (ckr_cryptoki_not_initialized, none)
    else if leb g.slot_count slot_id
    then (ckr_slot_id_invalid, none)
    else if not (is_ok (hsm_check_mechanism_supported type))
    then (hsm_check_mechanism_supported type, none)
    else elim (mechanism_info type) [
      | none ↦ (ckr_mechanism_invalid, none)
      | some info ↦ (ckr_ok, some info)
    ]
