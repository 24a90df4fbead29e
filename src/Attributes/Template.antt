-- ===== src/Attributes/Template.antt =====
-- hsm_parse_template of hsm/src/pkcs11/objects.c.
use pst_boitier_pki.Common.{
  subst, sym, ap, ◌∙◌, ℕ, ◌≡◌, ◌≤◌, ◌⊎◌, ◌%◌, ◌^◌, refl, Bool, true, false, Option, none, some,
  List, [], ◌∷◌, ◌++◌, Bytes, length, arith, inl, inr, Bool-cases, take, length-take, length-append,
  length-memcpy, memcpy, ltb, leb, ◌==◌, ◌&&◌, if◌then◌else◌,
}
use pst_boitier_pki.Cryptoki.{cka_label, cka_id, cka_class, cka_token, cka_private}
use pst_boitier_pki.Hsm.State.{HsmObject}
use pst_boitier_pki.Storage.{number}
use pst_boitier_pki.Attributes.{
  CkAttribute, hsm_parse_template, parse_attribute, parse_attributes, store_label, store_id,
  read_bytes,
}

-- The arrays of an object have the sizes of their declarations, and the ID fits in its array.
pub record IsSized (o : HsmObject) : Type 0 where
  pub label : length o.label ≡ 256
  pub id : length o.id ≡ 64
  pub id_len : o.id_len ≤ 64

-- What holds of an object under construction.
abbrev pub Guarded : HsmObject → Type 0
Guarded o = IsSized o × (o.is_sensitive ≡ true) × (o.is_extractable ≡ false)

-- How many bytes of its buffer an attribute is read for.
abbrev pub bytes_read : CkAttribute → ℕ
bytes_read a =
    if a.type == cka_class
    then 8
    else if a.type == cka_token
    then 1
    else if a.type == cka_private
    then 1
    else if a.type == cka_label
    then (if ltb a.ul_value_len 256 then a.ul_value_len else 0)
    else if a.type == cka_id
    then (if leb a.ul_value_len 64 then a.ul_value_len else 0)
    else 0

-- The buffer of `n` bytes or more is there; where nothing is read it need not be.
abbrev pub has_bytes : ℕ → Option Bytes → Bool
has_bytes n none = n == 0
has_bytes n (some b) = leb n (length b)

-- Every attribute has the bytes that it is read for.
abbrev pub all_readable : List CkAttribute → Bool
all_readable [] = true
all_readable (a ∷ as') = has_bytes (bytes_read a) a.p_value && all_readable as'

-- The result is an object of this kind exactly where the bytes are there, and a fault otherwise.
abbrev pub Parses : Bool → Option HsmObject → Type 0
Parses readable r =
    ((readable ≡ false) × (r ≡ none))
    ⊎ ((o' : HsmObject) × (readable ≡ true)
        × (r ≡ some o')
        × IsSized o'
        × (o'.is_sensitive ≡ true)
        × (o'.is_extractable ≡ false))

read_bytes-cases :
    (n : ℕ) (p : Option Bytes)
    → ((has_bytes n p ≡ false) × (read_bytes n p ≡ none))
      ⊎ ((b : Bytes) × (has_bytes n p ≡ true) × (read_bytes n p ≡ some b) × (length b ≡ n))
read_bytes-cases n none = elim (Bool-cases (n == 0)) [
  | inl e ↦ inr ([], e, ground (arith, e), ground (arith, e))
  | inr e ↦ inl (e, ground (arith, e))
]
read_bytes-cases n (some b) = elim (Bool-cases (leb n (length b))) [
  | inl e ↦ inr (take n b, e, ground (arith, e), ground (arith, e, length-take n b))
  | inr e ↦ inl (e, ground (arith, e))
]

has_bytes_zero : (p : Option Bytes) → has_bytes 0 p ≡ true
has_bytes_zero none = refl
has_bytes_zero (some b) = ground arith

-- An attribute that is read for `n` bytes.
abbrev ParsesFor : CkAttribute → (n : ℕ) → Option HsmObject → Type 0
ParsesFor a n r = Parses (has_bytes n a.p_value) r

store_label-Parses :
    (a : CkAttribute) (o : HsmObject)
    → Guarded o
    → ParsesFor a (if ltb a.ul_value_len 256 then a.ul_value_len else 0) (store_label a o)
unfolding store_label
store_label-Parses a o g = elim (Bool-cases (ltb a.ul_value_len 256)) [
  | inr e ↦ inr (o, rw e (has_bytes_zero a.p_value), rw e refl, g.0, g.1, g.2)
  | inl e ↦ elim (read_bytes-cases a.ul_value_len a.p_value) [
    | inl (no_bytes, q) ↦ inl (rw e no_bytes, rw (e, q) refl)
    | inr (b, has, q, len) ↦
        let l = memcpy o.label (b ++ (0 ∷ [])) in
        let sized : IsSized (record o { label = l }) = record {
          label = length-memcpy o.label (b ++ (0 ∷ [])) ∙ g.0.label;
          id = g.0.id;
          id_len = g.0.id_len;
        } in
        inr (
          record o { label = l },
          rw e has,
          ground (arith, e, q, len, g.0.label, length-append b (0 ∷ [])),
          sized,
          g.1,
          g.2,
        )
  ]
]

store_id-Parses :
    (a : CkAttribute) (o : HsmObject)
    → Guarded o
    → ParsesFor a (if leb a.ul_value_len 64 then a.ul_value_len else 0) (store_id a o)
unfolding store_id
store_id-Parses a o g = elim (Bool-cases (leb a.ul_value_len 64)) [
  | inr e ↦ inr (o, rw e (has_bytes_zero a.p_value), rw e refl, g.0, g.1, g.2)
  | inl e ↦ elim (read_bytes-cases a.ul_value_len a.p_value) [
    | inl (no_bytes, q) ↦ inl (rw e no_bytes, rw (e, q) refl)
    | inr (b, has, q, len) ↦
        let o' = record o { id = memcpy o.id b; id_len = a.ul_value_len } in
        let sized : IsSized o' = record {
          label = g.0.label;
          id = length-memcpy o.id b ∙ g.0.id;
          id_len = ground (arith, e);
        } in
        inr (o', rw e has, ground (arith, e, q, len, g.0.id), sized, g.1, g.2)
  ]
]

-- A value of fixed size, which sets a field that `Guarded` does not read.
fixed-Parses :
    (n : ℕ) (a : CkAttribute) (o : HsmObject) (set : Bytes → HsmObject)
    → ((b : Bytes) → Guarded (set b))
    → (r : Option HsmObject) → ((b : Bytes) → read_bytes n a.p_value ≡ some b → r ≡ some (set b))
    → (read_bytes n a.p_value ≡ none → r ≡ none)
    → ParsesFor a n r
fixed-Parses n a o set g r good bad = elim (read_bytes-cases n a.p_value) [
  | inl (no_bytes, q) ↦ inl (no_bytes, bad q)
  | inr (b, has, q, _) ↦ inr (set b, has, good b q, (g b).0, (g b).1, (g b).2)
]

parse_attribute-Parses :
    (a : CkAttribute) (o : HsmObject) → Guarded o → ParsesFor a (bytes_read a) (parse_attribute a o)
unfolding parse_attribute
parse_attribute-Parses a o g =
    let kept : (o' : HsmObject)
        → o'.label ≡ o.label
        → o'.id ≡ o.id
        → o'.id_len ≡ o.id_len
        → IsSized o' =
      λ o' l i n. record {
        label = ap length l ∙ g.0.label;
        id = ap length i ∙ g.0.id;
        id_len = ground (arith, n, g.0.id_len);
      } in
    elim (Bool-cases (a.type == cka_class)) [
      | inl e ↦ rw e (
          fixed-Parses 8 a o (λ b. record o { type = number b % 2 ^ 32 })
            (λ b. (kept (record o { type = number b % 2 ^ 32 }) refl refl refl, g.1, g.2)) _
            (λ b q. rw q refl) (λ q. rw q refl))
      | inr e1 ↦ elim (Bool-cases (a.type == cka_token)) [
        | inl e ↦
            rw (e1, e)
              (fixed-Parses 1 a o (λ b. record o { is_token = number b == 1 })
                (λ b. (kept (record o { is_token = number b == 1 }) refl refl refl, g.1, g.2)) _
                (λ b q. rw q refl) (λ q. rw q refl))
        | inr e2 ↦ elim (Bool-cases (a.type == cka_private)) [
          | inl e ↦
              rw (e1, e2, e)
                (fixed-Parses 1 a o (λ b. record o { is_private = number b == 1 })
                  (λ b. (kept (record o { is_private = number b == 1 }) refl refl refl, g.1, g.2)) _
                  (λ b q. rw q refl) (λ q. rw q refl))
          | inr e3 ↦ elim (Bool-cases (a.type == cka_label)) [
            | inl e ↦ rw (e1, e2, e3, e) (store_label-Parses a o g)
            | inr e4 ↦ elim (Bool-cases (a.type == cka_id)) [
              | inl e ↦ rw (e1, e2, e3, e4, e) (store_id-Parses a o g)
              | inr e5 ↦
                  rw (e1, e2, e3, e4, e5) (inr (o, has_bytes_zero a.p_value, refl, g.0, g.1, g.2))
            ]
          ]
        ]
      ]
    ]

parse_attributes-Parses :
    (template : List CkAttribute) (o : HsmObject)
    → Guarded o
    → Parses (all_readable template) (parse_attributes template o)
unfolding parse_attributes
parse_attributes-Parses [] o g = inr (o, refl, refl, g.0, g.1, g.2)
parse_attributes-Parses (a ∷ as') o g = elim (parse_attribute-Parses a o g) [
  | inl (no_bytes, q) ↦ inl (rw no_bytes refl, ground (arith, q))
  | inr (o1, has, q, s, h, x) ↦
      let goes_on : parse_attributes (a ∷ as') o ≡ parse_attributes as' o1 = ground (arith, q) in
      let readable : all_readable (a ∷ as') ≡ all_readable as' = rw has refl in
      subst (λ (r : Option HsmObject). Parses (all_readable (a ∷ as')) r) (sym goes_on)
        (subst (λ (b : Bool). Parses b (parse_attributes as' o1)) (sym readable)
          (parse_attributes-Parses as' o1 (s, h, x)))
]

-- For an object with arrays of their declared sizes: hsm_parse_template faults exactly where some
-- attribute of the template has a buffer of fewer bytes than it is read for (8 for the class, 1 for a
-- flag, its length for a label below 256 bytes and for an ID up to 64, none otherwise). So it never
-- writes past the arrays of the object. Otherwise it gives an object that is sensitive and not
-- extractable, whose label and ID arrays have their sizes, with an ID length of 64 at most.
pub parse_template-Guarded :
    (template : List CkAttribute) (o : HsmObject)
    → IsSized o
    → Parses (all_readable template) (hsm_parse_template template o)
unfolding hsm_parse_template
parse_template-Guarded template o s =
    parse_attributes-Parses template
      (record o {
        is_token = false;
        is_private = true;
        is_sensitive = true;
        is_extractable = false;
      })
      (record { label = s.label; id = s.id; id_len = s.id_len }, refl, refl)
