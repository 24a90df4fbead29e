-- ===== src/KeyPair/Made.antt =====
-- The objects of C_GenerateKeyPair (hsm/src/pkcs11/crypto_ops.c), with memory to allocate: there is
-- always a result, and the arrays of both objects keep their shape.
use pst_boitier_pki.Common.{
  ℕ, ◌≡◌, refl, true, some, Option, List, [], ◌∷◌, take, arith, inl, inr, Bool, Bool-cases,
  Option-cases, ◌==◌,
}
use pst_boitier_pki.Cryptoki.{CkRv, cka_modulus_bits, cka_ec_params}
use pst_boitier_pki.Hsm.State.{HsmObject}
use pst_boitier_pki.Storage.{number}
use pst_boitier_pki.Attributes.{CkAttribute, strlen}
use pst_boitier_pki.Attributes.Safe.{
  AllRoomy, IsRoomy, IsShaped, reshaped, read_bytes-some, parse_template-some,
}
use pst_boitier_pki.Objects.{blank_object}
use pst_boitier_pki.OpenSsl.{OpenSsl}
use pst_boitier_pki.Keys.{
  hsm_generate_key_pair_rsa, hsm_generate_key_pair_ec, rsa_public, rsa_private, ec_public,
  ec_private, get_ec_params_from_nid,
}
use pst_boitier_pki.KeyPair.{
  key_bits_of, named_curve, curve_of, generate, make_pair, public_key_object, private_key_object,
}

pub blank_object-IsShaped : IsShaped blank_object
unfolding strlen
blank_object-IsShaped = record {
  sized = record { label = refl; id = refl; id_len = omega arith };
  label_len = 0;
  ends = refl;
}

key_bits_of-some :
    (template : List CkAttribute) → AllRoomy template → (n : ℕ) × (key_bits_of template ≡ some n)
unfolding key_bits_of
key_bits_of-some [] r = (2048, refl)
key_bits_of-some (a ∷ as') r = elim (Bool-cases (a.type == cka_modulus_bits)) [
  | inl e ↦ (number (take 8 r.0.buffer), ground (arith, e, read_bytes-some 8 a r.0 r.0.wide))
  | inr e ↦ let (n, q) = key_bits_of-some as' r.1 in (n, ground (arith, e, q))
]

-- Two objects of the shapes that the code declares.
abbrev pub Pair : Option (CkRv × HsmObject × HsmObject) → Type 0
Pair r = (rv : CkRv) × (x y : HsmObject) × (r ≡ some (rv, x, y)) × IsShaped x × IsShaped y

module _ (o : OpenSsl) where
  named_curve-some : (a : CkAttribute) → IsRoomy a → (n : ℕ) × (named_curve o a ≡ some n)
  unfolding named_curve
  named_curve-some a r = elim (Option-cases (named_curve o a)) [
    | inr found ↦ found
    | inl e ↦ absurd (ground (arith, e, read_bytes-some a.ul_value_len a r r.fits))
  ]

  curve_of-some :
      (template : List CkAttribute) → AllRoomy template → (n : ℕ) × (curve_of o template ≡ some n)
  unfolding curve_of
  curve_of-some [] r = (o.nid_p256, refl)
  curve_of-some (a ∷ as') r = elim (Bool-cases (a.type == cka_ec_params)) [
    | inl e ↦ let (n, q) = named_curve-some a r.0 in (n, ground (arith, e, q))
    | inr e ↦ let (n, q) = curve_of-some as' r.1 in (n, ground (arith, e, q))
  ]

  generate-some :
      (mechanism : ℕ) (template : List CkAttribute) (x y : HsmObject)
      → AllRoomy template
      → (rv : CkRv) × (a b : HsmObject) × (generate o true true mechanism template x y
          ≡ some (rv, a, b))
  unfolding generate hsm_generate_key_pair_rsa hsm_generate_key_pair_ec get_ec_params_from_nid
  generate-some mechanism template x y r =
      let (bits, q) = key_bits_of-some template r in
      let (nid, w) = curve_of-some template r in
      elim (Option-cases (generate o true true mechanism template x y)) [
        | inr ((rv, a, b), e) ↦ (rv, a, b, e)
        | inl e ↦ absurd (ground (arith, e, q, w))
      ]

  generate-same :
      (params_ok malloc_ok : Bool) (mechanism : ℕ) (template : List CkAttribute)
      (x y a b : HsmObject) (rv : CkRv)
      → generate o params_ok malloc_ok mechanism template x y ≡ some (rv, a, b)
      → (a.label ≡ x.label)
        × (a.id ≡ x.id)
        × (a.id_len ≡ x.id_len)
        × (b.label ≡ y.label)
        × (b.id ≡ y.id)
        × (b.id_len ≡ y.id_len)
  unfolding generate hsm_generate_key_pair_rsa hsm_generate_key_pair_ec rsa_public rsa_private
      ec_public ec_private
  generate-same params_ok malloc_ok mechanism template x y a b rv e =
      (ground arith, ground arith, ground arith, ground arith, ground arith, ground arith)

  -- The objects, where the templates have a buffer for every attribute.
  pub make_pair-some :
      (mechanism : ℕ) (pub_template priv_template : List CkAttribute)
      → AllRoomy pub_template
      → AllRoomy priv_template
      → Pair (make_pair o true true true mechanism pub_template priv_template)
  unfolding make_pair
  make_pair-some mechanism pub_template priv_template r1 r2 =
      let sx = reshaped blank_object public_key_object blank_object-IsShaped refl refl refl in
      let sy = reshaped blank_object private_key_object blank_object-IsShaped refl refl refl in
      let (x, q1, s1, h1) = parse_template-some pub_template public_key_object r1 sx in
      let (y, q2, s2, h2) = parse_template-some priv_template private_key_object r2 sy in
      let (rv, a, b, e) = generate-some mechanism pub_template x y r1 in
      let (la, ia, na, lb, ib, nb) = generate-same true true mechanism pub_template x y a b rv e in
      (rv, a, b, ground (arith, q1, q2, e), reshaped x a s1 la ia na, reshaped y b s2 lb ib nb)
