-- ===== src/Signing/Generated.antt =====
-- A generated key pair, and the key that the signing functions rebuild from it.
use pst_boitier_pki.Common.{ℕ, ◌≡◌, ◌≢◌, refl, true, Bool, some, Bytes, [], ◌∷◌, arith, ◌∙◌, sym}
use pst_boitier_pki.Cryptoki.{ckr_ok}
use pst_boitier_pki.Hsm.State.{HsmObject, obj_type_private_key}
use pst_boitier_pki.OpenSsl.{OpenSsl, IsDocumented, RsaParts, EcParts, EvpPkey, rsa_pkey, ec_pkey}
use pst_boitier_pki.Keys.{
  rsa_private, ec_private, hsm_generate_key_pair_rsa, hsm_generate_key_pair_ec,
}
use pst_boitier_pki.Signing.{
  sign_rsa, sign_ec, sign_rsa_with, sign_ec_with, hsm_sign_data, rsa_factors,
}

-- The keys that OpenSSL generated.
abbrev pub generated_rsa : RsaParts → EvpPkey
generated_rsa k = rsa_pkey k.n k.e k.d (some (k.p, k.q))

abbrev pub generated_ec : ℕ → EcParts → EvpPkey
generated_ec nid k = ec_pkey nid k.point k.scalar

module _ (o : OpenSsl) (law : IsDocumented o) where
  rsa_factors_cons :
      (b prime2 : Bytes)
      → o.bn_bin2bn b ≢ 0
      → rsa_factors o b prime2 ≡ some (o.bn_bin2bn b, o.bn_bin2bn prime2)
  unfolding rsa_factors
  rsa_factors_cons [] prime2 ne = absurd (ne law.bin2bn-nil)
  rsa_factors_cons (x ∷ xs) prime2 ne = refl

  rsa_factors-bn2bin :
      (p q : ℕ) → p ≢ 0 → rsa_factors o (o.bn_bn2bin p) (o.bn_bn2bin q) ≡ some (p, q)
  rsa_factors-bn2bin p q ne =
      rsa_factors_cons (o.bn_bn2bin p) (o.bn_bn2bin q) (λ e. ne (sym (law.bin2bn-bn2bin p) ∙ e))
      ∙ rw (law.bin2bn-bn2bin p, law.bin2bn-bn2bin q) refl

  -- OpenSSL has generated an RSA key, whose first factor is not 0, and can make a key structure;
  -- and hsm_generate_key_pair_rsa has returned CKR_OK for a private key object. Then signing with
  -- the private object gives what signing with the generated key gives, with every mechanism, data
  -- and buffer.
  pub generate_rsa-sign :
      (malloc_ok : Bool) (bits : ℕ) (k : RsaParts) (x y x' y' : HsmObject) (mechanism : ℕ)
      (data' : Bytes) (given : Bool) (len : ℕ)
      → o.keygen_rsa bits ≡ some k
      → k.p ≢ 0
      → o.rsa_new ≡ true
      → y.type ≡ obj_type_private_key
      → hsm_generate_key_pair_rsa o malloc_ok bits x y ≡ some (ckr_ok, x', y')
      → hsm_sign_data o y' mechanism data' given len
        ≡ sign_rsa_with o (generated_rsa k) mechanism data' given len
  unfolding hsm_generate_key_pair_rsa hsm_sign_data rsa_private sign_rsa
  generate_rsa-sign malloc_ok bits k x y x' y' mechanism data' given len made ne new private' ok =
      ground (
        arith,
        made,
        law.bin2bn-bn2bin k.n,
        law.bin2bn-bn2bin k.e,
        law.bin2bn-bn2bin k.d,
        rsa_factors-bn2bin k.p k.q ne,
      )

  -- OpenSSL has generated a key on an elliptic curve, and can make a key structure for it; and
  -- hsm_generate_key_pair_ec has returned CKR_OK for a private key object. Then signing with the
  -- private object gives what signing with the generated key gives, with every mechanism, data and
  -- buffer.
  pub generate_ec-sign :
      (params_ok malloc_ok : Bool) (nid : ℕ) (k : EcParts) (x y x' y' : HsmObject) (mechanism : ℕ)
      (data' : Bytes) (given : Bool) (len : ℕ)
      → o.keygen_ec nid ≡ some k
      → o.ec_key_new nid ≡ true
      → y.type ≡ obj_type_private_key
      → hsm_generate_key_pair_ec o params_ok malloc_ok nid x y ≡ some (ckr_ok, x', y')
      → hsm_sign_data o y' mechanism data' given len
        ≡ sign_ec_with o (generated_ec nid k) mechanism data' given len
  unfolding hsm_generate_key_pair_ec hsm_sign_data ec_private sign_ec
  generate_ec-sign params_ok malloc_ok nid k x y x' y' mechanism data' given len made new private'
        ok =
      ground (arith, made, law.bin2bn-bn2bin k.scalar, law.oct2point-point2oct nid k.point)
