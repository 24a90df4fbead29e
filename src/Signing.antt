-- ===== src/Signing.antt =====
-- Signing in hsm/src/crypto/crypto_ops.c: sign_rsa, sign_ec, hsm_sign_data, hsm_verify_signature. A
-- result is the return value, `*signature_len` and the bytes written to `signature`, or `none` where
-- OpenSSL writes through a NULL `signature`. The caller's buffer has the `*signature_len` bytes that it
-- claims; `given` says whether `signature` is not NULL. A key array of no bytes stands for NULL.
pub mod Generated
pub mod Mechanism
use pst_boitier_pki.Common.{
  ℕ, Bool, true, false, Option, none, some, [], ◌∷◌, Bytes, length, ltb, ◌==◌, if◌then◌else◌, not,
  ◌||◌,
}
use pst_boitier_pki.Cryptoki.{
  CkRv, ckr_ok, ckr_function_failed, ckr_mechanism_invalid, ckr_buffer_too_small,
  ckr_key_type_inconsistent, ckr_function_not_supported,
}
use pst_boitier_pki.Hsm.State.{
  HsmObject, HsmRsaKey, HsmEcKey, key_type_rsa, key_type_ec, obj_type_private_key,
}
use pst_boitier_pki.Storage.{as_rsa, as_ec}
use pst_boitier_pki.OpenSsl.{OpenSsl, EvpMd, EvpPkey, sha256, sha384, sha512, rsa_pkey, ec_pkey}
use pst_boitier_pki.Mechanisms.{
  ckm_rsa_pkcs, ckm_sha256_rsa_pkcs, ckm_sha384_rsa_pkcs, ckm_sha512_rsa_pkcs,
  ckm_sha256_rsa_pkcs_pss, ckm_sha384_rsa_pkcs_pss, ckm_sha512_rsa_pkcs_pss, ckm_ecdsa,
  ckm_ecdsa_sha256, ckm_ecdsa_sha384, ckm_ecdsa_sha512,
}

abbrev pub SignResult : Type 0
SignResult = Option (CkRv × ℕ × Option Bytes)

-- The `switch` of `sign_rsa`: `none` for its default, `some none` for a raw signature.
unfoldable pub rsa_md : ℕ → Option (Option EvpMd)
rsa_md m =
    if m == ckm_sha256_rsa_pkcs || m == ckm_sha256_rsa_pkcs_pss
    then some (some sha256)
    else if m == ckm_sha384_rsa_pkcs || m == ckm_sha384_rsa_pkcs_pss
    then some (some sha384)
    else if m == ckm_sha512_rsa_pkcs || m == ckm_sha512_rsa_pkcs_pss
    then some (some sha512)
    else if m == ckm_rsa_pkcs
    then some none
    else none

-- The `switch` of `sign_ec`.
unfoldable pub ec_md : ℕ → Option (Option EvpMd)
ec_md m =
    if m == ckm_ecdsa_sha256
    then some (some sha256)
    else if m == ckm_ecdsa_sha384
    then some (some sha384)
    else if m == ckm_ecdsa_sha512
    then some (some sha512)
    else if m == ckm_ecdsa
    then some none
    else none

-- The test for PSS padding.
unfoldable pub is_pss : ℕ → Bool
is_pss m =
    m == ckm_sha256_rsa_pkcs_pss || m == ckm_sha384_rsa_pkcs_pss || m == ckm_sha512_rsa_pkcs_pss

-- Bytes written to `signature`, if it is not NULL.
abbrev pub written : (given : Bool) → Bytes → Option Bytes
written given sig = if given then some sig else none

module _ (o : OpenSsl) where
  -- The `if (md)` branches of both functions. A second `EVP_DigestSignFinal` with a NULL `signature`
  -- gives the size once more.
  unfoldable pub digest_sign :
      EvpMd → EvpPkey → (pss : Bool) (data' : Bytes) (given : Bool) (len : ℕ) → SignResult
  digest_sign md key pss data' given len =
      if not (o.digest_sign_init md key)
      then some (ckr_function_failed, len, none)
      else if not (o.digest_sign_update data')
      then some (ckr_function_failed, len, none)
      else elim (o.digest_sign_size md key pss data') [
        | none ↦ some (ckr_function_failed, len, none)
        | some size ↦
            if ltb len size
            then some (ckr_buffer_too_small, size, none)
            else if not given
            then some (ckr_ok, size, none)
            else elim (o.digest_sign_final md key pss data') [
              | none ↦ some (ckr_function_failed, len, none)
              | some sig ↦ some (ckr_ok, length sig, some sig)
            ]
      ]

  -- The raw signature of `sign_rsa`.
  unfoldable pub rsa_raw : EvpPkey → (data' : Bytes) (given : Bool) (len : ℕ) → SignResult
  rsa_raw key data' given len =
      if ltb len (o.rsa_size key)
      then some (ckr_buffer_too_small, o.rsa_size key, none)
      else if not given
      then none
      else elim (o.rsa_private_encrypt key data') [
        | none ↦ some (ckr_function_failed, len, none)
        | some sig ↦ some (ckr_ok, length sig, some sig)
      ]

  -- The raw signature of `sign_ec`: `i2d_ECDSA_SIG` allocates where it is given NULL.
  unfoldable pub ecdsa_raw : EvpPkey → (data' : Bytes) (given : Bool) (len : ℕ) → SignResult
  ecdsa_raw key data' given len = elim (o.ecdsa_do_sign key data') [
    | none ↦ some (ckr_function_failed, len, none)
    | some sig ↦
        let der = o.i2d_ecdsa_sig sig in
        if ltb len (length der)
        then some (ckr_buffer_too_small, length der, none)
        else some (ckr_ok, length der, written given der)
  ]

  -- The factors that `sign_rsa` sets, if the first is there.
  unfoldable pub rsa_factors : (prime1 prime2 : Bytes) → Option (ℕ × ℕ)
  rsa_factors [] prime2 = none
  rsa_factors (x ∷ xs) prime2 = some (o.bn_bin2bn (x ∷ xs), o.bn_bin2bn prime2)

  -- The key that `sign_rsa` and `sign_ec` rebuild.
  abbrev pub rsa_key_of : HsmRsaKey → EvpPkey
  rsa_key_of k =
      rsa_pkey (o.bn_bin2bn k.modulus) (o.bn_bin2bn k.public_exponent)
        (o.bn_bin2bn k.private_exponent) (rsa_factors k.prime1 k.prime2)

  abbrev pub ec_key_of : HsmEcKey → EvpPkey
  ec_key_of k = ec_pkey k.curve_nid (o.oct2point k.curve_nid k.ec_point) (o.bn_bin2bn k.ec_private)

  -- `sign_rsa` and `sign_ec` from the choice of the digest on.
  unfoldable pub sign_rsa_with :
      EvpPkey → (mechanism : ℕ) (data' : Bytes) (given : Bool) (len : ℕ) → SignResult
  sign_rsa_with key mechanism data' given len = elim (rsa_md mechanism) [
    | none ↦ some (ckr_mechanism_invalid, len, none)
    | some md ↦ if not o.md_ctx_new then some (ckr_function_failed, len, none) else elim md [
      | none ↦ rsa_raw key data' given len
      | some h ↦ digest_sign h key (is_pss mechanism) data' given len
    ]
  ]

  unfoldable pub sign_ec_with :
      EvpPkey → (mechanism : ℕ) (data' : Bytes) (given : Bool) (len : ℕ) → SignResult
  sign_ec_with key mechanism data' given len = elim (ec_md mechanism) [
    | none ↦ some (ckr_mechanism_invalid, len, none)
    | some md ↦ if not o.md_ctx_new then some (ckr_function_failed, len, none) else elim md [
      | none ↦ ecdsa_raw key data' given len
      | some h ↦ digest_sign h key false data' given len
    ]
  ]

  unfoldable pub sign_rsa :
      HsmRsaKey → (mechanism : ℕ) (data' : Bytes) (given : Bool) (len : ℕ) → SignResult
  sign_rsa k mechanism data' given len =
      if not o.rsa_new
      then some (ckr_function_failed, len, none)
      else sign_rsa_with (rsa_key_of k) mechanism data' given len

  unfoldable pub sign_ec :
      HsmEcKey → (mechanism : ℕ) (data' : Bytes) (given : Bool) (len : ℕ) → SignResult
  sign_ec k mechanism data' given len =
      if not (o.ec_key_new k.curve_nid)
      then some (ckr_function_failed, len, none)
      else sign_ec_with (ec_key_of k) mechanism data' given len

  unfoldable pub hsm_sign_data :
      HsmObject → (mechanism : ℕ) (data' : Bytes) (given : Bool) (len : ℕ) → SignResult
  hsm_sign_data x mechanism data' given len =
      if not (x.type == obj_type_private_key)
      then some (ckr_key_type_inconsistent, len, none)
      else elim x.key_type [
        | key_type_rsa ↦ sign_rsa (as_rsa x.key_data) mechanism data' given len
        | key_type_ec ↦ sign_ec (as_ec x.key_data) mechanism data' given len
      ]

-- Verification is not implemented, whatever the key, the mechanism, the data and the signature.
unfoldable pub hsm_verify_signature : HsmObject → (mechanism : ℕ) (data' signature : Bytes) → CkRv
hsm_verify_signature x mechanism data' signature = ckr_function_not_supported
