-- ===== src/Keys.antt =====
-- Key generation in hsm/src/crypto/crypto_ops.c. A result is `none` where the code writes through a
-- NULL that `malloc` gave: `malloc_ok` says whether the arrays whose allocation it does not test can be
-- had, `params_ok` whether the one that it tests can.
pub mod Curves
use pst_boitier_pki.Common.{
  ℕ, Bool, true, false, Option, none, some, List, [], ◌∷◌, Bytes, length, memeq, ◌==◌,
  if◌then◌else◌, not, ◌&&◌, ◌||◌,
}
use pst_boitier_pki.Cryptoki.{
  CkRv, ckr_ok, is_ok, ckr_key_size_range, ckr_function_failed, ckr_domain_params_invalid,
  ckr_host_memory,
}
use pst_boitier_pki.Hsm.State.{HsmObject, HsmRsaKey, HsmEcKey, rsa, ec, key_type_rsa, key_type_ec}
use pst_boitier_pki.Storage.{as_rsa, as_ec}
use pst_boitier_pki.OpenSsl.{OpenSsl, RsaParts, EcParts}

-- The object identifiers of the curves.
abbrev pub p256_oid : Bytes
p256_oid = 0x06 ∷ 0x08 ∷ 0x2a ∷ 0x86 ∷ 0x48 ∷ 0xce ∷ 0x3d ∷ 0x03 ∷ 0x01 ∷ 0x07 ∷ []

abbrev pub p384_oid : Bytes
p384_oid = 0x06 ∷ 0x05 ∷ 0x2b ∷ 0x81 ∷ 0x04 ∷ 0x00 ∷ 0x22 ∷ []

abbrev pub p521_oid : Bytes
p521_oid = 0x06 ∷ 0x05 ∷ 0x2b ∷ 0x81 ∷ 0x04 ∷ 0x00 ∷ 0x23 ∷ []

-- `params_len == sizeof(oid) && memcmp(params, oid, sizeof(oid)) == 0`
abbrev pub is_oid : (oid params : Bytes) → Bool
is_oid oid params = length params == length oid && memeq params oid

module _ (o : OpenSsl) where
  unfoldable pub get_curve_nid_from_params : Bytes → ℕ
  get_curve_nid_from_params params =
      if is_oid p256_oid params
      then o.nid_p256
      else if is_oid p384_oid params
      then o.nid_p384
      else if is_oid p521_oid params
      then o.nid_p521
      else o.nid_undef

  -- The return value and the array.
  unfoldable pub get_ec_params_from_nid : (params_ok : Bool) → ℕ → CkRv × Bytes
  get_ec_params_from_nid params_ok nid =
      let found : Bytes → CkRv × Bytes =
        λ oid. if params_ok then (ckr_ok, oid) else (ckr_host_memory, []) in
      if nid == o.nid_p256
      then found p256_oid
      else if nid == o.nid_p384
      then found p384_oid
      else if nid == o.nid_p521
      then found p521_oid
      else (ckr_domain_params_invalid, [])

  -- The two objects that the extraction fills in.
  unfoldable pub rsa_public : (key_bits : ℕ) → RsaParts → HsmObject → HsmObject
  rsa_public key_bits k x = record x {
    key_type = key_type_rsa;
    key_data = rsa (record (as_rsa x.key_data) {
      bits = key_bits;
      modulus = o.bn_bn2bin k.n;
      public_exponent = o.bn_bn2bin k.e;
    });
  }

  unfoldable pub rsa_private : (key_bits : ℕ) → RsaParts → HsmObject → HsmObject
  rsa_private key_bits k x = record x {
    key_type = key_type_rsa;
    key_data = rsa (record {
      bits = key_bits;
      modulus = o.bn_bn2bin k.n;
      public_exponent = o.bn_bn2bin k.e;
      private_exponent = o.bn_bn2bin k.d;
      prime1 = o.bn_bn2bin k.p;
      prime2 = o.bn_bn2bin k.q;
      exponent1 = o.bn_bn2bin k.dmp1;
      exponent2 = o.bn_bn2bin k.dmq1;
      coefficient = o.bn_bn2bin k.iqmp;
    });
  }

  unfoldable pub hsm_generate_key_pair_rsa :
      (malloc_ok : Bool) (key_bits : ℕ) (pub_key priv_key : HsmObject)
      → Option (CkRv × HsmObject × HsmObject)
  hsm_generate_key_pair_rsa malloc_ok key_bits pub_key priv_key =
      let failed : CkRv → Option (CkRv × HsmObject × HsmObject) =
        λ rv. some (rv, pub_key, priv_key) in
      if not (key_bits == 2048) && not (key_bits == 4096)
      then failed ckr_key_size_range
      else if not o.pkey_ctx_new
      then failed ckr_function_failed
      else if not o.keygen_init
      then failed ckr_function_failed
      else if not (o.set_rsa_keygen_bits key_bits)
      then failed ckr_function_failed
      else elim (o.keygen_rsa key_bits) [
        | none ↦ failed ckr_function_failed
        | some k ↦
            if not o.get1_rsa
            then failed ckr_function_failed
            else if not malloc_ok
            then none
            else some (ckr_ok, rsa_public key_bits k pub_key, rsa_private key_bits k priv_key)
      ]

  unfoldable pub ec_public : (curve_nid : ℕ) (params : Bytes) → EcParts → HsmObject → HsmObject
  ec_public curve_nid params k x = record x {
    key_type = key_type_ec;
    key_data = ec (record {
      ec_params = params;
      ec_point = o.point2oct curve_nid k.point;
      ec_private = [];
      curve_nid = curve_nid;
    });
  }

  unfoldable pub ec_private : (curve_nid : ℕ) (params : Bytes) → EcParts → HsmObject → HsmObject
  ec_private curve_nid params k x = record x {
    key_type = key_type_ec;
    key_data = ec (record {
      ec_params = params;
      ec_point = o.point2oct curve_nid k.point;
      ec_private = o.bn_bn2bin k.scalar;
      curve_nid = curve_nid;
    });
  }

  unfoldable pub hsm_generate_key_pair_ec :
      (params_ok malloc_ok : Bool) (curve_nid : ℕ) (pub_key priv_key : HsmObject)
      → Option (CkRv × HsmObject × HsmObject)
  hsm_generate_key_pair_ec params_ok malloc_ok curve_nid pub_key priv_key =
      let failed : CkRv → Option (CkRv × HsmObject × HsmObject) =
        λ rv. some (rv, pub_key, priv_key) in
      if not (curve_nid == o.nid_p256)
        && not (curve_nid == o.nid_p384)
        && not (curve_nid == o.nid_p521)
      then failed ckr_domain_params_invalid
      else if not o.pkey_ctx_new
      then failed ckr_function_failed
      else if not o.keygen_init
      then failed ckr_function_failed
      else if not (o.set_curve_nid curve_nid)
      then failed ckr_function_failed
      else elim (o.keygen_ec curve_nid) [
        | none ↦ failed ckr_function_failed
        | some k ↦
            if not o.get1_ec_key
            then failed ckr_function_failed
            else let (rv, params) = get_ec_params_from_nid params_ok curve_nid in
              if not (is_ok rv)
              then failed rv
              else if not malloc_ok
              then none
              else some (
                ckr_ok,
                ec_public curve_nid params k pub_key,
                ec_private curve_nid params k priv_key,
              )
      ]
