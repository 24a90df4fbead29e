-- ===== src/KeyPair.antt =====
-- C_GenerateKeyPair of hsm/src/pkcs11/crypto_ops.c. `alloc_ok` says whether both objects can be
-- allocated, `params_ok` and `malloc_ok` whether the arrays of the generated key can (Keys.antt).
pub mod Places
pub mod Table
pub mod Made
pub mod Placed
pub mod Sign
use pst_boitier_pki.Common.{
  ℕ, zero, suc, ◌+◌, ◌%◌, ◌^◌, Bool, true, false, Option, none, some, List, [], ◌∷◌, Bytes, length,
  ◌==◌, if◌then◌else◌, not, ◌||◌, update, inl, inr,
}
use pst_boitier_pki.Cryptoki.{
  CkRv, ckr_ok, is_ok, ckr_arguments_bad, ckr_user_not_logged_in, ckr_host_memory,
  ckr_mechanism_invalid, cka_modulus_bits, cka_ec_params,
}
use pst_boitier_pki.Hsm.State.{
  HsmContext, HsmSlot, HsmSession, HsmObject, hsm_max_objects, obj_type_public_key,
  obj_type_private_key,
}
use pst_boitier_pki.Hsm.Cmd.{
  Cmd, pure, ◌>>=◌, ◌>>◌, get, put, crash, read_slot, write_slot, lock_slot, read_session,
  lock_session, unlock_session,
}
use pst_boitier_pki.Storage.{hsm_storage_save_object, number}
use pst_boitier_pki.Session.{hsm_get_session, leave_slot}
use pst_boitier_pki.Login.{leave_session}
use pst_boitier_pki.Attributes.{CkAttribute, hsm_parse_template, read_bytes}
use pst_boitier_pki.Objects.{blank_object, hsm_generate_object_handle}
use pst_boitier_pki.Mechanisms.{ckm_rsa_pkcs_key_pair_gen, ckm_ec_key_pair_gen}
use pst_boitier_pki.OpenSsl.{OpenSsl}
use pst_boitier_pki.Keys.{
  p256_oid, p384_oid, p521_oid, is_oid, hsm_generate_key_pair_rsa, hsm_generate_key_pair_ec,
}

-- The objects before their templates are read.
abbrev pub public_key_object : HsmObject
public_key_object = record blank_object {
  type = obj_type_public_key;
  is_private = false;
  is_sensitive = false;
  is_extractable = true;
  can_verify = true;
}

abbrev pub private_key_object : HsmObject
private_key_object = record blank_object {
  type = obj_type_private_key;
  is_private = true;
  is_sensitive = true;
  is_extractable = false;
  can_sign = true;
}

-- The loop for `CKA_MODULUS_BITS`.
unfoldable pub key_bits_of : List CkAttribute → Option ℕ
key_bits_of [] = some 2048
key_bits_of (a ∷ as') =
    let rest = key_bits_of as' in
    if a.type == cka_modulus_bits
    then elim (read_bytes 8 a.p_value) [ none ↦ none | some b ↦ some (number b) ]
    else rest

-- The loop that looks for two free entries, from entry `i`, with `n` rounds left and the first entry
-- found in `pub_idx`.
unfoldable pub free_pair :
    (ℕ → Option HsmObject) → ℕ → ℕ → (pub_idx : Option ℕ) → Option ℕ × Option ℕ
free_pair objects zero i pub_idx = (pub_idx, none)
free_pair objects (suc n) i pub_idx = elim (objects i) [
  | some x ↦ free_pair objects n (suc i) pub_idx
  | none ↦ elim pub_idx [ none ↦ free_pair objects n (suc i) (some i) | some p ↦ (some p, some i) ]
]

-- From the handles on: the table, the files.
unfoldable pub place_pair :
    (slot_id pub_idx priv_idx : ℕ) → HsmObject → HsmObject → Cmd (CkRv × Option (ℕ × ℕ))
place_pair slot_id pub_idx priv_idx x y = do
  g ← get
  s ← read_slot slot_id
  let (h1, c1) = hsm_generate_object_handle obj_type_public_key g.object_counter in
      let (h2, c2) = hsm_generate_object_handle obj_type_private_key c1 in
      let (rv1, x', d1) = hsm_storage_save_object (record x { handle = h1 }) g.disk in
      let (rv2, y', d2) = hsm_storage_save_object (record y { handle = h2 }) d1 in
      do
        put (record g { object_counter = c2; disk = d2 })
        write_slot slot_id (record s {
          objects = update (update s.objects pub_idx (some x')) priv_idx (some y');
          object_count = (s.object_count + 2) % 2 ^ 32;
        })
        leave_slot slot_id (ckr_ok, some (h1, h2))

-- From `HSM_LOCK(slot->lock)` on.
unfoldable pub add_pair : (slot_id : ℕ) → HsmObject → HsmObject → Cmd (CkRv × Option (ℕ × ℕ))
add_pair slot_id x y = do
  lock_slot slot_id
  s ← read_slot slot_id
  let (pub_idx, priv_idx) = free_pair s.objects hsm_max_objects 0 none in
      elim pub_idx [
        | none ↦ leave_slot slot_id (ckr_host_memory, none)
        | some i ↦ elim priv_idx [
          | none ↦ leave_slot slot_id (ckr_host_memory, none)
          | some j ↦ place_pair slot_id i j x y
        ]
      ]

module _ (o : OpenSsl) where
  -- The comparison with the three identifiers, and P-256 for any other value.
  unfoldable pub named_curve : CkAttribute → Option ℕ
  named_curve a =
      if a.ul_value_len == length p256_oid || a.ul_value_len == length p384_oid
      then elim (read_bytes a.ul_value_len a.p_value) [
        | none ↦ none
        | some b ↦
            if is_oid p256_oid b
            then some o.nid_p256
            else if is_oid p384_oid b
            then some o.nid_p384
            else if is_oid p521_oid b
            then some o.nid_p521
            else some o.nid_p256
      ]
      else some o.nid_p256

  -- The loop for `CKA_EC_PARAMS`.
  unfoldable pub curve_of : List CkAttribute → Option ℕ
  curve_of [] = some o.nid_p256
  curve_of (a ∷ as') =
      let rest = curve_of as' in if a.type == cka_ec_params then named_curve a else rest

  -- The choice by the mechanism.
  unfoldable pub generate :
      (params_ok malloc_ok : Bool) (mechanism : ℕ)
      → List CkAttribute
      → HsmObject
      → HsmObject
      → Option (CkRv × HsmObject × HsmObject)
  generate params_ok malloc_ok mechanism template x y =
      if mechanism == ckm_rsa_pkcs_key_pair_gen
      then elim (key_bits_of template) [
        | none ↦ none
        | some bits ↦ hsm_generate_key_pair_rsa o malloc_ok bits x y
      ]
      else if mechanism == ckm_ec_key_pair_gen
      then elim (curve_of template) [
        | none ↦ none
        | some nid ↦ hsm_generate_key_pair_ec o params_ok malloc_ok nid x y
      ]
      else some (ckr_mechanism_invalid, x, y)

  -- From the allocation of the objects on.
  unfoldable pub make_pair :
      (alloc_ok params_ok malloc_ok : Bool) (mechanism : ℕ)
      (pub_template priv_template : List CkAttribute)
      → Option (CkRv × HsmObject × HsmObject)
  make_pair alloc_ok params_ok malloc_ok mechanism pub_template priv_template =
      if not alloc_ok
      then some (ckr_host_memory, blank_object, blank_object)
      else elim (hsm_parse_template pub_template public_key_object) [
        | none ↦ none
        | some x ↦ elim (hsm_parse_template priv_template private_key_object) [
          | none ↦ none
          | some y ↦ generate params_ok malloc_ok mechanism pub_template x y
        ]
      ]

  -- The return value, `*phPublicKey` and `*phPrivateKey`. `handles` says whether these two pointers are
  -- not NULL.
  unfoldable pub c_generate_key_pair :
      (alloc_ok params_ok malloc_ok : Bool) (mechanism : Option ℕ)
      (pub_template priv_template : List CkAttribute) (handles : Bool) (handle : ℕ)
      → Cmd (CkRv × Option (ℕ × ℕ))
  c_generate_key_pair alloc_ok params_ok malloc_ok none pub_template priv_template handles handle =
      pure (ckr_arguments_bad, none)
  c_generate_key_pair alloc_ok params_ok malloc_ok (some mechanism) pub_template priv_template
        handles handle =
      if not handles then pure (ckr_arguments_bad, none) else do
        found ← hsm_get_session handle
        elim found [
          | inl rv ↦ pure (rv, none)
          | inr r ↦ do
            lock_session r
            x ← read_session r
            if not x.user_logged_in then leave_session r (ckr_user_not_logged_in, none) else do
              unlock_session r
              elim (make_pair alloc_ok params_ok malloc_ok mechanism pub_template priv_template) [
                | none ↦ crash
                | some (rv, a, b) ↦
                    if not (is_ok rv)
                    then pure (rv, none)
                    else do y ← read_session r; add_pair y.slot_id a b
              ]
        ]
