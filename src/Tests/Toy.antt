-- ===== src/Tests/Toy.antt =====
-- A concrete stand-in for OpenSSL: numbers of one byte, signatures of four.
use pst_boitier_pki.Common.{ℕ, ◌≢◌, true, some, [], ◌∷◌, Bytes, replicate, arith, refl}
use pst_boitier_pki.OpenSsl.{OpenSsl, IsDocumented, RsaParts, EcParts}

abbrev first_byte : Bytes → ℕ
first_byte [] = 0
first_byte (b ∷ bs) = b

abbrev two_bytes : Bytes → ℕ × ℕ
two_bytes [] = (0, 0)
two_bytes (x ∷ []) = (x, 0)
two_bytes (x ∷ y ∷ bs) = (x, y)

abbrev pub rsa_parts : RsaParts
rsa_parts = record { n = 15; e = 3; d = 3; p = 3; q = 5; dmp1 = 1; dmq1 = 3; iqmp = 2 }

abbrev pub ec_parts : EcParts
ec_parts = record { point = (11, 12); scalar = 7 }

abbrev pub toy : OpenSsl
toy = record {
  nid_undef = 0;
  nid_p256 = 415;
  nid_p384 = 715;
  nid_p521 = 716;
  pkey_ctx_new = true;
  keygen_init = true;
  set_rsa_keygen_bits = λ _. true;
  set_curve_nid = λ _. true;
  keygen_rsa = λ _. some rsa_parts;
  keygen_ec = λ _. some ec_parts;
  get1_rsa = true;
  get1_ec_key = true;
  bn_bn2bin = λ x. x ∷ [];
  bn_bin2bn = first_byte;
  point2oct = λ _ p. p.0 ∷ p.1 ∷ [];
  oct2point = λ _. two_bytes;
  rsa_new = true;
  ec_key_new = λ _. true;
  md_ctx_new = true;
  digest_sign_init = λ _ _. true;
  digest_sign_update = λ _. true;
  digest_sign_size = λ _ _ _ _. some 4;
  digest_sign_final = λ _ _ _ _. some (1 ∷ 2 ∷ 3 ∷ 4 ∷ []);
  rsa_size = λ _. 4;
  rsa_private_encrypt = λ _ _. some (4 ∷ 3 ∷ 2 ∷ 1 ∷ []);
  ecdsa_do_sign = λ _ _. some (8, 9);
  i2d_ecdsa_sig = λ s. s.0 ∷ s.1 ∷ [];
  rand_bytes = λ n. some (replicate n 7);
}

p256_p384 : ◌≢◌ {A = ℕ} 415 715
p256_p384 e = omega arith

p256_p521 : ◌≢◌ {A = ℕ} 415 716
p256_p521 e = omega arith

p384_p521 : ◌≢◌ {A = ℕ} 715 716
p384_p521 e = omega arith

pub toy-IsDocumented : IsDocumented toy
toy-IsDocumented = record {
  p256_p384 = p256_p384;
  p256_p521 = p256_p521;
  p384_p521 = p384_p521;
  bin2bn-bn2bin = λ x. refl;
  oct2point-point2oct = λ nid p. refl;
  bin2bn-nil = refl;
}
