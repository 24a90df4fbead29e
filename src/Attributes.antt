-- ===== src/Attributes.antt =====
-- The attributes of hsm/src/pkcs11/objects.c: hsm_parse_template, hsm_get_attribute_value and
-- hsm_set_attribute_value. A buffer is the list of the bytes that may be accessed through its pointer;
-- `none` as a result is an access through NULL or past a buffer's end.
pub mod Label
pub mod Template
pub mod Safe
pub mod Reads
use pst_boitier_pki.Common.{
  ℕ, zero, suc, ◌+◌, ◌*◌, ◌%◌, ◌^◌, Bool, true, false, Option, none, some, List, [], ◌∷◌, ◌++◌,
  Bytes, length, take, memcpy, ltb, leb, ◌==◌, if◌then◌else◌, not, ◌||◌,
}
use pst_boitier_pki.Cryptoki.{
  CkRv, ckr_ok, ckr_attribute_read_only, ckr_attribute_type_invalid, ckr_buffer_too_small, is_ok,
  cka_class, cka_token, cka_private, cka_label, cka_key_type, cka_id,
}
use pst_boitier_pki.Hsm.State.{HsmObject, HsmKeyType, key_type_rsa, key_type_ec}
use pst_boitier_pki.Storage.{number, little_endian, of_bool}

-- `CK_ATTRIBUTE`
pub record CkAttribute : Type 0 where
  pub type : ℕ
  pub p_value : Option Bytes
  pub ul_value_len : ℕ

-- `memcpy(dst, src, n)` from a caller's pointer.
abbrev pub read_bytes : ℕ → Option Bytes → Option Bytes
read_bytes n none = if n == 0 then some [] else none
read_bytes n (some b) = if ltb (length b) n then none else some (take n b)

-- `*(CK_BBOOL *)pValue == CK_TRUE`
abbrev pub read_flag : Option Bytes → Option Bool
read_flag p = elim (read_bytes 1 p) [ none ↦ none | some b ↦ some (number b == 1) ]

-- `memcpy` to the start of an array of the object: a write past its end is a fault.
abbrev pub write_array : (array src : Bytes) → Option Bytes
write_array array src = if ltb (length array) (length src) then none else some (memcpy array src)

-- The case for `CKA_LABEL` in both loops: a label of 256 bytes or more is left out.
unfoldable pub store_label : CkAttribute → HsmObject → Option HsmObject
store_label a o =
    if ltb a.ul_value_len 256
    then elim (read_bytes a.ul_value_len a.p_value) [
      | none ↦ none
      | some b ↦ elim (write_array o.label (b ++ (0 ∷ []))) [
        | none ↦ none
        | some array ↦ some (record o { label = array })
      ]
    ]
    else some o

unfoldable pub store_id : CkAttribute → HsmObject → Option HsmObject
store_id a o =
    if leb a.ul_value_len 64
    then elim (read_bytes a.ul_value_len a.p_value) [
      | none ↦ none
      | some b ↦ elim (write_array o.id b) [
        | none ↦ none
        | some array ↦ some (record o { id = array; id_len = a.ul_value_len })
      ]
    ]
    else some o

-- One round of the loop of `hsm_parse_template`.
unfoldable pub parse_attribute : CkAttribute → HsmObject → Option HsmObject
unfolding store_label store_id
parse_attribute a o =
    if a.type == cka_class
    then elim (read_bytes 8 a.p_value) [
      | none ↦ none
      | some b ↦ some (record o { type = number b % 2 ^ 32 })
    ]
    else if a.type == cka_token
    then elim (read_flag a.p_value) [ none ↦ none | some b ↦ some (record o { is_token = b }) ]
    else if a.type == cka_private
    then elim (read_flag a.p_value) [ none ↦ none | some b ↦ some (record o { is_private = b }) ]
    else if a.type == cka_label
    then store_label a o
    else if a.type == cka_id
    then store_id a o
    else some o

unfoldable pub parse_attributes : List CkAttribute → HsmObject → Option HsmObject
parse_attributes [] o = some o
parse_attributes (a ∷ as') o = elim (parse_attribute a o) [
  | none ↦ none
  | some o' ↦ parse_attributes as' o'
]

-- It always returns `CKR_OK`, so the result is the object.
unfoldable pub hsm_parse_template : List CkAttribute → HsmObject → Option HsmObject
unfolding parse_attributes
hsm_parse_template template o =
    parse_attributes template (record o {
      is_token = false;
      is_private = true;
      is_sensitive = true;
      is_extractable = false;
    })

-- The loop of `hsm_set_attribute_value`.
unfoldable pub hsm_set_attribute_value : List CkAttribute → HsmObject → Option (CkRv × HsmObject)
unfolding store_label
hsm_set_attribute_value [] o = some (ckr_ok, o)
hsm_set_attribute_value (a ∷ as') o =
    if a.type == cka_label
    then elim (store_label a o) [ none ↦ none | some o' ↦ hsm_set_attribute_value as' o' ]
    else some (ckr_attribute_read_only, o)

-- `strlen`, which reads on past a buffer with no zero byte.
unfoldable pub strlen : Bytes → Option ℕ
strlen [] = none
strlen (x ∷ xs) =
    let rest = strlen xs in
    if x == 0 then some 0 else elim rest [ none ↦ none | some n ↦ some (suc n) ]

-- Writing `src` through a caller's pointer, where it is not NULL.
unfoldable pub write_bytes : Bytes → Option Bytes → Option (Option Bytes)
write_bytes src none = some none
write_bytes src (some b) = if ltb (length b) (length src) then none else some (some (memcpy b src))

-- The cases that write a value of a fixed size, whatever `ulValueLen` says.
unfoldable pub get_fixed : Bytes → CkAttribute → Option (CkAttribute × CkRv)
unfolding write_bytes
get_fixed src a = elim (write_bytes src a.p_value) [
  | none ↦ none
  | some v ↦ some (record a { p_value = v; ul_value_len = length src }, ckr_ok)
]

-- The cases for `CKA_LABEL` and `CKA_ID`: `n` bytes of an array of the object, which `memcpy` reads
-- only where there is a buffer that is long enough.
unfoldable pub get_sized : (array : Bytes) (n : ℕ) → CkAttribute → Option (CkAttribute × CkRv)
unfolding write_bytes
get_sized array n a =
    let out = λ (v : Option Bytes). record a { p_value = v; ul_value_len = n } in
    elim a.p_value [
      | none ↦ some (out none, ckr_ok)
      | some b ↦
          if leb n a.ul_value_len
          then elim (read_bytes n (some array)) [
            | none ↦ none
            | some src ↦ elim (write_bytes src (some b)) [
              | none ↦ none
              | some v ↦ some (out v, ckr_ok)
            ]
          ]
          else some (out (some b), ckr_buffer_too_small)
    ]

-- `CKK_RSA` or `CKK_EC`
abbrev pub ckk_number : HsmKeyType → ℕ
ckk_number key_type_rsa = 0
ckk_number key_type_ec = 3

-- `CK_UNAVAILABLE_INFORMATION` is defined in no header of the repository.
module _ (ck_unavailable_information : ℕ) where
  -- One round of the loop of `hsm_get_attribute_value`: the attribute, and an error or `CKR_OK`.
  unfoldable pub get_attribute : HsmObject → CkAttribute → Option (CkAttribute × CkRv)
  unfolding get_fixed get_sized
  get_attribute o a =
      if a.type == cka_class
      then get_fixed (little_endian 8 o.type) a
      else if a.type == cka_token
      then get_fixed (of_bool o.is_token ∷ []) a
      else if a.type == cka_private
      then get_fixed (of_bool o.is_private ∷ []) a
      else if a.type == cka_label
      then elim (strlen o.label) [ none ↦ none | some n ↦ get_sized o.label n a ]
      else if a.type == cka_id
      then get_sized o.id o.id_len a
      else if a.type == cka_key_type
      then get_fixed (little_endian 8 (ckk_number o.key_type)) a
      else some (record a { ul_value_len = ck_unavailable_information }, ckr_attribute_type_invalid)

  -- The last error wins.
  unfoldable pub get_attributes :
      HsmObject → List CkAttribute → CkRv → Option (CkRv × List CkAttribute)
  unfolding get_attribute
  get_attributes o [] rv = some (rv, [])
  get_attributes o (a ∷ as') rv = elim (get_attribute o a) [
    | none ↦ none
    | some (a', e) ↦ elim (get_attributes o as' (if is_ok e then rv else e)) [
      | none ↦ none
      | some (r, rest) ↦ some (r, a' ∷ rest)
    ]
  ]

  unfoldable pub hsm_get_attribute_value :
      HsmObject → List CkAttribute → Option (CkRv × List CkAttribute)
  unfolding get_attributes
  hsm_get_attribute_value o template = get_attributes o template ckr_ok
