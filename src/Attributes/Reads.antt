-- ===== src/Attributes/Reads.antt =====
-- hsm_get_attribute_value of hsm/src/pkcs11/objects.c writes inside the caller's buffers.
use pst_boitier_pki.Common.{
  zero, suc, ◌/◌, ℕ, ◌≡◌, ◌≤◌, refl, some, List, [], ◌∷◌, Bytes, length, take, arith, inl, inr,
  Bool-cases, length-take, ◌==◌, leb, memcpy, if◌then◌else◌, Option,
}
use pst_boitier_pki.Cryptoki.{
  CkRv, ckr_ok, ckr_buffer_too_small, ckr_attribute_type_invalid, is_ok, cka_class, cka_token,
  cka_private, cka_label, cka_id, cka_key_type,
}
use pst_boitier_pki.Hsm.State.{HsmObject}
use pst_boitier_pki.Storage.{little_endian, of_bool}
use pst_boitier_pki.Attributes.{
  CkAttribute, hsm_parse_template, hsm_set_attribute_value, hsm_get_attribute_value, get_attributes,
  get_attribute, get_fixed, get_sized, write_bytes, ckk_number,
}
use pst_boitier_pki.Attributes.Safe.{
  Fills, parse_template-some, set_attribute_value-some, IsRoomy, AllRoomy, IsShaped, strlen-inside,
}

-- Written without a fault.
abbrev Written : Option (CkAttribute × CkRv) → Type 0
Written r = (a : CkAttribute) × (rv : CkRv) × (r ≡ some (a, rv))

get_fixed-some :
    (src : Bytes) (a : CkAttribute) → IsRoomy a → length src ≤ 8 → Written (get_fixed src a)
unfolding get_fixed write_bytes
get_fixed-some src a r le = (
  record a { p_value = some (memcpy r.buffer src); ul_value_len = length src },
  ckr_ok,
  ground (arith, r.given, r.wide),
)

get_sized-some :
    (array : Bytes) (n : ℕ) (a : CkAttribute)
    → IsRoomy a
    → n ≤ length array
    → Written (get_sized array n a)
unfolding get_sized write_bytes
get_sized-some array n a r inside = elim (Bool-cases (leb n a.ul_value_len)) [
  | inl e ↦ (
    record a { p_value = some (memcpy r.buffer (take n array)); ul_value_len = n },
    ckr_ok,
    ground (arith, e, r.given, r.fits, inside, length-take n array),
  )
  | inr e ↦ (
    record a { p_value = some r.buffer; ul_value_len = n },
    ckr_buffer_too_small,
    ground (arith, e, r.given),
  )
]

length-little_endian : (n : ℕ) (k : ℕ) → length (little_endian n k) ≡ n
unfolding little_endian
length-little_endian zero k = refl
length-little_endian (suc n) k = omega (arith, length-little_endian n (k / 256))

module _ (ck_unavailable_information : ℕ) where
  get_attribute-some :
      (o : HsmObject) (a : CkAttribute)
      → IsShaped o
      → IsRoomy a
      → Written (get_attribute ck_unavailable_information o a)
  unfolding get_attribute
  get_attribute-some o a s r =
      let number8 : (n : ℕ) → Written (get_fixed (little_endian 8 n) a) =
        λ n. get_fixed-some (little_endian 8 n) a r (omega (arith, length-little_endian 8 n)) in
      elim (Bool-cases (a.type == cka_class)) [
        | inl e ↦ let (a', rv, q) = number8 o.type in (a', rv, ground (arith, e, q))
        | inr e1 ↦ elim (Bool-cases (a.type == cka_token)) [
          | inl e ↦
              let (a', rv, q) = get_fixed-some (of_bool o.is_token ∷ []) a r (omega arith) in
              (a', rv, ground (arith, e1, e, q))
          | inr e2 ↦ elim (Bool-cases (a.type == cka_private)) [
            | inl e ↦
                let (a', rv, q) = get_fixed-some (of_bool o.is_private ∷ []) a r (omega arith) in
                (a', rv, ground (arith, e1, e2, e, q))
            | inr e3 ↦ elim (Bool-cases (a.type == cka_label)) [
              | inl e ↦
                  let (a', rv, q) =
                    get_sized-some o.label s.label_len a r
                      (strlen-inside o.label s.label_len s.ends) in
                  (a', rv, ground (arith, e1, e2, e3, e, s.ends, q))
              | inr e4 ↦ elim (Bool-cases (a.type == cka_id)) [
                | inl e ↦
                    let (a', rv, q) =
                      get_sized-some o.id o.id_len a r
                        (omega (arith, s.sized.id, s.sized.id_len)) in
                    (a', rv, ground (arith, e1, e2, e3, e4, e, q))
                | inr e5 ↦ elim (Bool-cases (a.type == cka_key_type)) [
                  | inl e ↦
                      let (a', rv, q) = number8 (ckk_number o.key_type) in
                      (a', rv, ground (arith, e1, e2, e3, e4, e5, e, q))
                  | inr e ↦ (
                    record a { ul_value_len = ck_unavailable_information },
                    ckr_attribute_type_invalid,
                    ground (arith, e1, e2, e3, e4, e5, e),
                  )
                ]
              ]
            ]
          ]
        ]
      ]

  get_attributes-some :
      (o : HsmObject) (template : List CkAttribute) (rv : CkRv)
      → IsShaped o
      → AllRoomy template
      → (rv' : CkRv) × (out : List CkAttribute) × (get_attributes ck_unavailable_information o
            template rv
          ≡ some (rv', out))
  unfolding get_attributes
  get_attributes-some o [] rv s r = (rv, [], refl)
  get_attributes-some o (a ∷ as') rv s r =
      let (a', e, q) = get_attribute-some o a s r.0 in
      let (rv', out, w) = get_attributes-some o as' (if is_ok e then rv else e) s r.1 in
      (rv', a' ∷ out, ground (arith, q, w))

  -- With a buffer for every attribute there is always a result.
  pub get_attribute_value-some :
      (o : HsmObject) (template : List CkAttribute)
      → IsShaped o
      → AllRoomy template
      → (rv : CkRv) × (out : List CkAttribute) × (hsm_get_attribute_value ck_unavailable_information
            o template
          ≡ some (rv, out))
  unfolding hsm_get_attribute_value
  get_attribute_value-some o template s r = get_attributes-some o template ckr_ok s r

  -- An object whose arrays have the sizes of their declarations, with a zero byte in its label; and a
  -- template with a buffer for every attribute, as long as its length says and of 8 bytes at least.
  -- Then hsm_parse_template, hsm_set_attribute_value and hsm_get_attribute_value return: they read and
  -- write inside the buffers and the arrays. The first two leave an object with its handle, and with
  -- arrays that are again such.
  pub attributes-Fills :
      (o : HsmObject) (template : List CkAttribute)
      → IsShaped o
      → AllRoomy template
      → Fills o (hsm_parse_template template o)
        × ((rv : CkRv) × (o' : HsmObject) × (hsm_set_attribute_value template o ≡ some (rv, o'))
            × IsShaped o'
            × (o'.handle ≡ o.handle))
        × ((rv : CkRv) × (out : List CkAttribute) × (hsm_get_attribute_value
                ck_unavailable_information o template
              ≡ some (rv, out)))
  attributes-Fills o template s r = (
    parse_template-some template o r s,
    set_attribute_value-some template o r s,
    get_attribute_value-some o template s r,
  )
