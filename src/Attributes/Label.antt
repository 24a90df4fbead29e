-- ===== src/Attributes/Label.antt =====
-- The label in hsm_set_attribute_value and hsm_get_attribute_value of hsm/src/pkcs11/objects.c.
use pst_boitier_pki.Common.{
  ℕ, ◌≡◌, ◌≢◌, ◌<◌, ◌≤◌, refl, some, [], ◌∷◌, ◌++◌, Bytes, length, take, memcpy, arith, ap,
  take-all, length-append, length-memcpy,
}
use pst_boitier_pki.Cryptoki.{ckr_ok, cka_label}
use pst_boitier_pki.Hsm.State.{HsmObject}
use pst_boitier_pki.Attributes.{
  CkAttribute, hsm_set_attribute_value, hsm_get_attribute_value, store_label, strlen,
}

-- No byte is 0.
abbrev pub NonZero : Bytes → Type 0
NonZero [] = Unit {0}
NonZero (x ∷ xs) = (x ≢ 0) × NonZero xs

-- The attribute `CKA_LABEL` with a buffer.
abbrev pub label_attribute : (buffer : Bytes) (len : ℕ) → CkAttribute
label_attribute buffer len = record { type = cka_label; p_value = some buffer; ul_value_len = len }

strlen-memcpy :
    (dst text : Bytes)
    → NonZero text
    → length text < length dst
    → strlen (memcpy dst (text ++ (0 ∷ []))) ≡ some (length text)
unfolding strlen
strlen-memcpy [] text nz room = absurd (omega arith)
strlen-memcpy (y ∷ dst) [] nz room = refl
strlen-memcpy (y ∷ dst) (x ∷ text) nz room = ground (arith, nz.0, strlen-memcpy dst text nz.1)

take-memcpy :
    (dst text rest : Bytes)
    → length text ≤ length dst
    → take (length text) (memcpy dst (text ++ rest)) ≡ text
take-memcpy dst [] rest room = refl
take-memcpy [] (x ∷ text) rest room = absurd (omega arith)
take-memcpy (y ∷ dst) (x ∷ text) rest room = ap (◌∷◌ x) (take-memcpy dst text rest (omega arith))

set_label :
    (o : HsmObject) (text : Bytes)
    → length o.label ≡ 256
    → length text < 256
    → hsm_set_attribute_value (label_attribute text (length text) ∷ []) o
      ≡ some (ckr_ok, record o { label = memcpy o.label (text ++ (0 ∷ [])) })
unfolding hsm_set_attribute_value store_label
set_label o text sized short = ground (arith, take-all text, length-append text (0 ∷ []))

get_label :
    (ck_unavailable_information : ℕ) (o : HsmObject) (text buffer : Bytes) (len : ℕ)
    → strlen o.label ≡ some (length text)
    → take (length text) o.label ≡ text
    → length text ≤ length o.label
    → length text ≤ len
    → length text ≤ length buffer
    → hsm_get_attribute_value ck_unavailable_information o (label_attribute buffer len ∷ [])
      ≡ some (ckr_ok, label_attribute (memcpy buffer text) (length text) ∷ [])
unfolding hsm_get_attribute_value
get_label unavailable o text buffer len long same inside room space = ground (arith, long, same)

-- For an object with a label array of 256 bytes: a label of fewer than 256 bytes, none of them 0,
-- that hsm_set_attribute_value sets is what hsm_get_attribute_value writes to a buffer that is
-- long enough, with its length.
pub set_attribute-get_attribute :
    (ck_unavailable_information : ℕ) (o : HsmObject) (text buffer : Bytes) (len : ℕ)
    → length o.label ≡ 256
    → length text < 256
    → NonZero text
    → length text ≤ len
    → length text ≤ length buffer
    → (o' : HsmObject) × (hsm_set_attribute_value (label_attribute text (length text) ∷ []) o
        ≡ some (ckr_ok, o'))
      × (hsm_get_attribute_value ck_unavailable_information o' (label_attribute buffer len ∷ [])
          ≡ some (ckr_ok, label_attribute (memcpy buffer text) (length text) ∷ []))
set_attribute-get_attribute unavailable o text buffer len sized short nz room space =
    let o' = record o { label = memcpy o.label (text ++ (0 ∷ [])) } in
    (
      o',
      set_label o text sized short,
      get_label unavailable o' text buffer len (strlen-memcpy o.label text nz (omega arith))
          (take-memcpy o.label text (0 ∷ []) (omega arith))
          (omega (arith, length-memcpy o.label (text ++ (0 ∷ [])))) room space,
    )
