-- ===== src/Attributes/Safe.antt =====
-- What the attribute functions of hsm/src/pkcs11/objects.c read and write stays in the buffers.
use pst_boitier_pki.Common.{
  ap, ◌∙◌, ◌%◌, ◌^◌, Option, ℕ, ◌+◌, ◌≡◌, ◌≤◌, refl, true, false, some, List, [], ◌∷◌, ◌++◌, Bytes,
  length, take, arith, inl, inr, Bool-cases, Option-cases, length-memcpy, length-append,
  length-take, memcpy, ◌==◌, leb, ltb,
}
use pst_boitier_pki.Cryptoki.{
  CkRv, ckr_ok, ckr_attribute_read_only, cka_label, cka_id, cka_class, cka_token, cka_private,
}
use pst_boitier_pki.Hsm.State.{HsmObject}
use pst_boitier_pki.Storage.{number}
use pst_boitier_pki.Attributes.{
  CkAttribute, hsm_parse_template, parse_attribute, parse_attributes, store_label, store_id,
  read_bytes, hsm_set_attribute_value, strlen,
}
use pst_boitier_pki.Attributes.Template.{IsSized}

-- The attribute has a buffer as long as its length says, and of 8 bytes at least.
pub record IsRoomy (a : CkAttribute) : Type 0 where
  pub buffer : Bytes
  pub given : a.p_value ≡ some buffer
  pub fits : a.ul_value_len ≤ length buffer
  pub wide : 8 ≤ length buffer

abbrev pub AllRoomy : List CkAttribute → Type 0
AllRoomy [] = Unit {0}
AllRoomy (a ∷ as') = IsRoomy a × AllRoomy as'

-- The arrays have the sizes of their declarations, and the label ends with a zero byte.
pub record IsShaped (o : HsmObject) : Type 0 where
  pub sized : IsSized o
  pub label_len : ℕ
  pub ends : strlen o.label ≡ some label_len

-- Without a fault the object is given back, with its handle and its shape.
abbrev pub Fills : HsmObject → Option HsmObject → Type 0
Fills o r = (o' : HsmObject) × (r ≡ some o') × IsShaped o' × (o'.handle ≡ o.handle)

pub read_bytes-some :
    (n : ℕ) (a : CkAttribute)
    → (r : IsRoomy a) → n ≤ length r.buffer
    → read_bytes n a.p_value ≡ some (take n r.buffer)
read_bytes-some n a r le = ground (arith, r.given)

-- `strlen` stops inside the array.
pub strlen-inside : (xs : Bytes) (n : ℕ) → strlen xs ≡ some n → n ≤ length xs
unfolding strlen
strlen-inside [] n e = ground (arith, e)
strlen-inside (x ∷ xs) n e = elim (Option-cases (strlen xs)) [
  | inl q ↦ ground (arith, q, e)
  | inr (m, q) ↦ ground (arith, q, e, strlen-inside xs m q)
]

strlen-terminated :
    (dst b : Bytes)
    → length b + 1 ≤ length dst
    → (n : ℕ) × (strlen (memcpy dst (b ++ (0 ∷ []))) ≡ some n)
unfolding strlen
strlen-terminated [] b le = absurd (omega arith)
strlen-terminated (y ∷ dst) [] le = (0, refl)
strlen-terminated (y ∷ dst) (x ∷ b) le = elim (Bool-cases (x == 0)) [
  | inl e ↦ (0, ground (arith, e))
  | inr e ↦ let (n, q) = strlen-terminated dst b (omega arith) in (n + 1, ground (arith, e, q))
]

store_label-some :
    (a : CkAttribute) (o : HsmObject) → IsRoomy a → IsShaped o → Fills o (store_label a o)
unfolding store_label
store_label-some a o r s = elim (Bool-cases (ltb a.ul_value_len 256)) [
  | inr e ↦ (o, ground (arith, e), s, refl)
  | inl e ↦
      let b = take a.ul_value_len r.buffer in
      let l = memcpy o.label (b ++ (0 ∷ [])) in
      let short : length b + 1 ≤ length o.label =
        ground (arith, e, s.sized.label, length-take a.ul_value_len r.buffer, r.fits) in
      let (n, q) = strlen-terminated o.label b short in
      (
        record o { label = l },
        ground
            (arith, e, read_bytes-some a.ul_value_len a r r.fits, short, length-append b (0 ∷ [])),
        record {
          sized = record {
            label = ground (arith, s.sized.label, length-memcpy o.label (b ++ (0 ∷ [])));
            id = s.sized.id;
            id_len = s.sized.id_len;
          };
          label_len = n;
          ends = q;
        },
        refl,
      )
]

pub reshaped :
    (o o' : HsmObject)
    → IsShaped o
    → o'.label ≡ o.label
    → o'.id ≡ o.id
    → o'.id_len ≡ o.id_len
    → IsShaped o'
reshaped o o' s l i n = record {
  sized = record {
    label = ap length l ∙ s.sized.label;
    id = ap length i ∙ s.sized.id;
    id_len = ground (arith, n, s.sized.id_len);
  };
  label_len = s.label_len;
  ends = ap strlen l ∙ s.ends;
}

store_id-some : (a : CkAttribute) (o : HsmObject) → IsRoomy a → IsShaped o → Fills o (store_id a o)
unfolding store_id
store_id-some a o r s = elim (Bool-cases (leb a.ul_value_len 64)) [
  | inr e ↦ (o, ground (arith, e), s, refl)
  | inl e ↦
      let b = take a.ul_value_len r.buffer in
      let short : length b ≤ length o.id =
        ground (arith, e, s.sized.id, length-take a.ul_value_len r.buffer, r.fits) in
      (
        record o { id = memcpy o.id b; id_len = a.ul_value_len },
        ground (arith, e, read_bytes-some a.ul_value_len a r r.fits, short),
        record {
          sized = record {
            label = s.sized.label;
            id = ground (arith, s.sized.id, length-memcpy o.id b);
            id_len = ground (arith, e);
          };
          label_len = s.label_len;
          ends = s.ends;
        },
        refl,
      )
]

parse_attribute-some :
    (a : CkAttribute) (o : HsmObject) → IsRoomy a → IsShaped o → Fills o (parse_attribute a o)
unfolding parse_attribute
parse_attribute-some a o r s =
    let eight = read_bytes-some 8 a r r.wide in
    let one = read_bytes-some 1 a r (omega (arith, r.wide)) in
    let flag = number (take 1 r.buffer) == 1 in
    elim (Bool-cases (a.type == cka_class)) [
      | inl e ↦
          let o' = record o { type = number (take 8 r.buffer) % 2 ^ 32 } in
          (o', ground (arith, e, eight), reshaped o o' s refl refl refl, refl)
      | inr e1 ↦ elim (Bool-cases (a.type == cka_token)) [
        | inl e ↦
            let o' = record o { is_token = flag } in
            (o', ground (arith, e1, e, one), reshaped o o' s refl refl refl, refl)
        | inr e2 ↦ elim (Bool-cases (a.type == cka_private)) [
          | inl e ↦
              let o' = record o { is_private = flag } in
              (o', ground (arith, e1, e2, e, one), reshaped o o' s refl refl refl, refl)
          | inr e3 ↦ elim (Bool-cases (a.type == cka_label)) [
            | inl e ↦
                let (o', q, t, h) = store_label-some a o r s in
                (o', ground (arith, e1, e2, e3, e, q), t, h)
            | inr e4 ↦ elim (Bool-cases (a.type == cka_id)) [
              | inl e ↦
                  let (o', q, t, h) = store_id-some a o r s in
                  (o', ground (arith, e1, e2, e3, e4, e, q), t, h)
              | inr e ↦ (o, ground (arith, e1, e2, e3, e4, e), s, refl)
            ]
          ]
        ]
      ]
    ]

parse_attributes-some :
    (template : List CkAttribute) (o : HsmObject)
    → AllRoomy template
    → IsShaped o
    → Fills o (parse_attributes template o)
unfolding parse_attributes
parse_attributes-some [] o r s = (o, refl, s, refl)
parse_attributes-some (a ∷ as') o r s =
    let (o1, q1, s1, h1) = parse_attribute-some a o r.0 s in
    let (o2, q2, s2, h2) = parse_attributes-some as' o1 r.1 s1 in
    (o2, ground (arith, q1, q2), s2, h2 ∙ h1)

pub parse_template-some :
    (template : List CkAttribute) (o : HsmObject)
    → AllRoomy template
    → IsShaped o
    → Fills o (hsm_parse_template template o)
unfolding hsm_parse_template
parse_template-some template o r s =
    let o' = record o {
      is_token = false;
      is_private = true;
      is_sensitive = true;
      is_extractable = false;
    } in
    parse_attributes-some template o' r (reshaped o o' s refl refl refl)

pub set_attribute_value-some :
    (template : List CkAttribute) (o : HsmObject)
    → AllRoomy template
    → IsShaped o
    → (rv : CkRv) × (o' : HsmObject) × (hsm_set_attribute_value template o ≡ some (rv, o'))
      × IsShaped o'
      × (o'.handle ≡ o.handle)
unfolding hsm_set_attribute_value
set_attribute_value-some [] o r s = (ckr_ok, o, refl, s, refl)
set_attribute_value-some (a ∷ as') o r s = elim (Bool-cases (a.type == cka_label)) [
  | inr e ↦ (ckr_attribute_read_only, o, ground (arith, e), s, refl)
  | inl e ↦
      let (o1, q1, s1, h1) = store_label-some a o r.0 s in
      let (rv, o2, q2, s2, h2) = set_attribute_value-some as' o1 r.1 s1 in
      (rv, o2, ground (arith, e, q1, q2), s2, h2 ∙ h1)
]
