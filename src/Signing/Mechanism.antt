-- ===== src/Signing/Mechanism.antt =====
-- The mechanisms that hsm_sign_data of hsm/src/crypto/crypto_ops.c signs with, against those that
-- hsm_check_mechanism_supported (hsm/src/utils/utils.c) lets C_SignInit take.
use pst_boitier_pki.Common.{
  ℕ, ◌≡◌, ◌≢◌, ◌↔◌, refl, Bool-cases, Bool, true, false, Option, none, some, List, [], ◌∷◌, Bytes,
  arith, inl, inr,
}
use pst_boitier_pki.Cryptoki.{CkRv, ckr_ok, ckr_mechanism_invalid}
use pst_boitier_pki.Hsm.State.{
  HsmObject, HsmKeyType, key_type_rsa, key_type_ec, obj_type_private_key,
}
use pst_boitier_pki.Storage.{as_ec}
use pst_boitier_pki.OpenSsl.{OpenSsl}
use pst_boitier_pki.Mechanisms.{
  is_one_of, hsm_check_mechanism_supported, ckm_rsa_pkcs, ckm_rsa_pkcs_pss, ckm_sha256_rsa_pkcs,
  ckm_sha384_rsa_pkcs, ckm_sha512_rsa_pkcs, ckm_sha256_rsa_pkcs_pss, ckm_sha384_rsa_pkcs_pss,
  ckm_sha512_rsa_pkcs_pss, ckm_ecdsa, ckm_ecdsa_sha256, ckm_ecdsa_sha384, ckm_ecdsa_sha512,
}
use pst_boitier_pki.Signing.{
  hsm_sign_data, sign_rsa, sign_ec, sign_rsa_with, sign_ec_with, rsa_md, ec_md, digest_sign,
  rsa_raw, ecdsa_raw,
}

-- The mechanisms that a key can sign with.
abbrev pub signing : HsmKeyType → List ℕ
signing key_type_rsa =
    ckm_rsa_pkcs ∷ ckm_sha256_rsa_pkcs ∷ ckm_sha384_rsa_pkcs ∷ ckm_sha512_rsa_pkcs
    ∷ ckm_sha256_rsa_pkcs_pss ∷ ckm_sha384_rsa_pkcs_pss ∷ ckm_sha512_rsa_pkcs_pss ∷ []
signing key_type_ec = ckm_ecdsa ∷ ckm_ecdsa_sha256 ∷ ckm_ecdsa_sha384 ∷ ckm_ecdsa_sha512 ∷ []

module _ (o : OpenSsl) (m : ℕ) (data' : Bytes) (given : Bool) (len : ℕ) where
  rsa_md-signing :
      (is_one_of m (signing key_type_rsa) ≡ false → rsa_md m ≡ none)
      × (is_one_of m (signing key_type_rsa) ≡ true → hsm_check_mechanism_supported m ≡ ckr_ok)
  unfolding rsa_md is_one_of hsm_check_mechanism_supported
  rsa_md-signing = (λ e. ground arith, λ e. ground arith)

  ec_md-signing :
      (is_one_of m (signing key_type_ec) ≡ false → ec_md m ≡ none)
      × (is_one_of m (signing key_type_ec) ≡ true → hsm_check_mechanism_supported m ≡ ckr_ok)
  unfolding ec_md is_one_of hsm_check_mechanism_supported
  ec_md-signing = (λ e. ground arith, λ e. ground arith)

  rsa_md-some : is_one_of m (signing key_type_rsa) ≡ true → rsa_md m ≢ none
  unfolding rsa_md is_one_of
  rsa_md-some e q = ground arith

  ec_md-some : is_one_of m (signing key_type_ec) ≡ true → ec_md m ≢ none
  unfolding ec_md is_one_of
  ec_md-some e q = ground arith

  not_refused :
      (x : HsmObject) (out : CkRv × ℕ × Option Bytes)
      → x.type ≡ obj_type_private_key
      → is_one_of m (signing x.key_type) ≡ true
      → hsm_sign_data o x m data' given len ≡ some out
      → out.0 ≢ ckr_mechanism_invalid
  unfolding hsm_sign_data sign_rsa sign_ec sign_rsa_with sign_ec_with digest_sign rsa_raw ecdsa_raw
  not_refused x out private' listed e q =
      ground (arith, private', listed, e, q, rsa_md-some, ec_md-some)

  refused :
      (x : HsmObject)
      → x.type ≡ obj_type_private_key
      → o.rsa_new ≡ true
      → o.ec_key_new ((as_ec x.key_data).curve_nid) ≡ true
      → is_one_of m (signing x.key_type) ≡ false
      → hsm_sign_data o x m data' given len ≡ some (ckr_mechanism_invalid, len, none)
  unfolding hsm_sign_data sign_rsa sign_ec sign_rsa_with sign_ec_with
  refused x private' rsa_ok ec_ok e =
      ground (arith, private', rsa_ok, ec_ok, e, rsa_md-signing.0, ec_md-signing.0)

  pss-signing : (t : HsmKeyType) → is_one_of ckm_rsa_pkcs_pss (signing t) ≡ false
  unfolding is_one_of
  pss-signing key_type_rsa = refl
  pss-signing key_type_ec = refl

  -- A private key object, and OpenSSL gives the key structure. A result of hsm_sign_data is
  -- CKR_MECHANISM_INVALID exactly where the mechanism is not in the list of the key's kind (RSA: PKCS #1
  -- raw, and PKCS #1 and PSS with the three digests; EC: ECDSA raw and with the three digests).
  -- CKM_RSA_PKCS_PSS is in neither list, but hsm_check_mechanism_supported lets C_SignInit take it.
  pub sign_data-signing :
      (x : HsmObject) (out : CkRv × ℕ × Option Bytes)
      → x.type ≡ obj_type_private_key
      → o.rsa_new ≡ true
      → o.ec_key_new ((as_ec x.key_data).curve_nid) ≡ true
      → hsm_sign_data o x m data' given len ≡ some out
      → ((out.0 ≡ ckr_mechanism_invalid) ↔ (is_one_of m (signing x.key_type) ≡ false))
        × (hsm_check_mechanism_supported ckm_rsa_pkcs_pss ≡ ckr_ok)
        × (is_one_of ckm_rsa_pkcs_pss (signing x.key_type) ≡ false)
  unfolding hsm_check_mechanism_supported is_one_of
  sign_data-signing x out private' rsa_ok ec_ok made = (
    (
      λ e. elim (Bool-cases (is_one_of m (signing x.key_type))) [
        | inl listed ↦ absurd (not_refused x out private' listed made e)
        | inr other ↦ other
      ],
      λ e. ground (arith, refused x private' rsa_ok ec_ok e, made),
    ),
    refl,
    pss-signing x.key_type,
  )
