-- ===== src/KeyPair/Sign.antt =====
-- A key pair that C_GenerateKeyPair made, in the signing calls (hsm/src/pkcs11/crypto_ops.c).
use pst_boitier_pki.Common.{
  ℕ, ◌+◌, ◌%◌, ◌^◌, ◌≡◌, ◌<◌, ◌≤◌, true, false, Bool, some, List, [], ◌∷◌, Bytes, arith, ap, ◌∙◌,
  refl, update-eq, inl, inr, Option-cases,
}
use pst_boitier_pki.Cryptoki.{ckr_ok}
use pst_boitier_pki.Hsm.State.{
  HsmContext, HsmSlot, HsmSession, HsmObject, Disk, hsm_max_objects, obj_type_private_key, op_sign,
}
use pst_boitier_pki.Hsm.Cmd.{done}
use pst_boitier_pki.Hsm.Focus.{focus}
use pst_boitier_pki.Hsm.Invariant.{IsReady}
use pst_boitier_pki.Storage.{hsm_storage_save_object}
use pst_boitier_pki.Session.Table.{get_session-ready}
use pst_boitier_pki.Attributes.{
  CkAttribute, hsm_parse_template, parse_attributes, parse_attribute, store_label, store_id,
}
use pst_boitier_pki.Login.Refine.{Leads}
use pst_boitier_pki.Login.Carry.{find_in_slot-Leads}
use pst_boitier_pki.Objects.{handle_base}
use pst_boitier_pki.Objects.Table.{ObjectsOk}
use pst_boitier_pki.Mechanisms.{hsm_check_mechanism_supported}
use pst_boitier_pki.OpenSsl.{OpenSsl}
use pst_boitier_pki.Keys.{
  hsm_generate_key_pair_rsa, hsm_generate_key_pair_ec, rsa_private, ec_private,
}
use pst_boitier_pki.Signing.{hsm_sign_data}
use pst_boitier_pki.SignCalls.{Signed, c_sign_init, c_sign, begun, ended}
use pst_boitier_pki.SignCalls.Lifecycle.{sign_init-sign}
use pst_boitier_pki.KeyPair.{
  make_pair, generate, private_key_object, public_key_object, c_generate_key_pair,
}
use pst_boitier_pki.KeyPair.Table.{slot_paired}
use pst_boitier_pki.KeyPair.Placed.{paired, first_saved, second_saved, generate_key_pair-object_of}

parse_attribute-can_sign :
    (a : CkAttribute) (x y : HsmObject) → parse_attribute a x ≡ some y → y.can_sign ≡ x.can_sign
unfolding parse_attribute store_label store_id
parse_attribute-can_sign a x y e = ground arith

parse_attributes-can_sign :
    (template : List CkAttribute) (x y : HsmObject)
    → parse_attributes template x ≡ some y
    → y.can_sign ≡ x.can_sign
unfolding parse_attributes
parse_attributes-can_sign [] x y e = ground arith
parse_attributes-can_sign (a ∷ as') x y e = elim (Option-cases (parse_attribute a x)) [
  | inl q ↦ absurd (ground (arith, q))
  | inr (z, q) ↦
      parse_attributes-can_sign as' z y (ground (arith, q)) ∙ parse_attribute-can_sign a x z q
]

parse_template-can_sign :
    (template : List CkAttribute) (x y : HsmObject)
    → hsm_parse_template template x ≡ some y
    → y.can_sign ≡ x.can_sign
unfolding hsm_parse_template
parse_template-can_sign template x y e =
    parse_attributes-can_sign template
      (record x {
        is_token = false;
        is_private = true;
        is_sensitive = true;
        is_extractable = false;
      })
      y e

generate-can_sign :
    (o : OpenSsl) (params_ok malloc_ok : Bool) (mechanism : ℕ) (template : List CkAttribute)
    (x y a b : HsmObject)
    → generate o params_ok malloc_ok mechanism template x y ≡ some (ckr_ok, a, b)
    → b.can_sign ≡ y.can_sign
unfolding generate hsm_generate_key_pair_rsa hsm_generate_key_pair_ec rsa_private ec_private
generate-can_sign o params_ok malloc_ok mechanism template x y a b e = ground arith

make_pair-can_sign :
    (o : OpenSsl) (params_ok malloc_ok : Bool) (mechanism : ℕ)
    (pub_template priv_template : List CkAttribute) (a b : HsmObject)
    → make_pair o true params_ok malloc_ok mechanism pub_template priv_template
      ≡ some (ckr_ok, a, b)
    → b.can_sign ≡ true
unfolding make_pair
make_pair-can_sign o params_ok malloc_ok mechanism pub_template priv_template a b e =
    elim (Option-cases (hsm_parse_template pub_template public_key_object)) [
      | inl q ↦ absurd (ground (arith, q, e))
      | inr (x, q) ↦ elim (Option-cases (hsm_parse_template priv_template private_key_object)) [
        | inl w ↦ absurd (ground (arith, q, w, e))
        | inr (y, w) ↦
            generate-can_sign o params_ok malloc_ok mechanism pub_template x y a b
              (ground (arith, q, w, e))
            ∙ parse_template-can_sign priv_template private_key_object y w
      ]
    ]

-- Saving changes the handle and the mark of a loaded object, which signing does not read.
sign_data-saved :
    (o : OpenSsl) (b : HsmObject) (h : ℕ) (d : Disk) (mechanism : ℕ) (data' : Bytes) (given : Bool)
    (len : ℕ)
    → let b' = (hsm_storage_save_object (record b { handle = h }) d).1 in
      (hsm_sign_data o b' mechanism data' given len ≡ hsm_sign_data o b mechanism data' given len)
      × (b'.type ≡ b.type)
      × (b'.can_sign ≡ b.can_sign)
unfolding hsm_storage_save_object hsm_sign_data
sign_data-saved o b h d mechanism data' given len = (ground arith, ground arith, ground arith)

-- The sessions are as they were.
paired-Leads :
    (handle i p q : ℕ) (x : HsmSession) (a b : HsmObject) (g : HsmContext)
    → IsReady g
    → Leads handle i x g
    → IsReady (paired p q a b g) × Leads handle i x (paired p q a b g)
paired-Leads handle i p q x a b g r l =
    let s = slot_paired (g.slots 0) p q (first_saved a g).1 (second_saved a b g).1 in
    let at' = update-eq g.slots 0 s in
    let r' : IsReady (paired p q a b g) = record {
      initialized = r.initialized;
      slot_count = r.slot_count;
      slots_len = r.slots_len;
      free = ap (λ (t : HsmSlot). t.lock) at';
    } in
    (
      r',
      record {
        found =
            get_session-ready handle (paired p q a b g) r'
            ∙ rw (at', find_in_slot-Leads handle i x g r l) refl;
        present = rw at' l.present;
        home = l.home;
        free = l.free;
      },
    )

module _ (o : OpenSsl) (data' : Bytes) (given : Bool) (len : ℕ) where
  -- The library is running with one slot whose lock is free; the handle leads to a session whose lock
  -- is free, with no operation, and on which the user is logged in; the object table is well formed,
  -- with two entries free and the counter below 2^28 - 2. Both objects can be allocated, and parsing
  -- the templates and generating the key succeeds, with a private object of private key type. Then
  -- C_GenerateKeyPair returns CKR_OK and two handles, C_SignInit takes the second with any mechanism
  -- that hsm_check_mechanism_supported knows, and C_Sign after it gives what hsm_sign_data gives on
  -- the key that was generated.
  pub generate_key_pair-sign :
      (params_ok malloc_ok : Bool) (mechanism m : ℕ) (pub_template priv_template : List CkAttribute)
      (handle i : ℕ) (x : HsmSession) (a b : HsmObject) (out : Signed) (g : HsmContext)
      → IsReady g
      → Leads handle i x g
      → x.user_logged_in ≡ true
      → x.operation.active ≡ false
      → ObjectsOk g.object_counter (g.slots 0)
      → g.object_counter + 2 < 2 ^ 28
      → (g.slots 0).object_count + 2 ≤ hsm_max_objects
      → make_pair o true params_ok malloc_ok mechanism pub_template priv_template
        ≡ some (ckr_ok, a, b)
      → b.type ≡ obj_type_private_key
      → hsm_check_mechanism_supported m ≡ ckr_ok
      → hsm_sign_data o b m data' given len ≡ some out
      → let h1 = handle_base 2 + g.object_counter in
        let h2 = handle_base 3 + ((g.object_counter + 1) % 2 ^ 32) in
        (g1 g2 g3 : HsmContext) × (c_generate_key_pair o true params_ok malloc_ok
            (some mechanism)
            pub_template
            priv_template
            true
            handle
            g
          ≡ done (ckr_ok, some (h1, h2)) g1)
        × (c_sign_init (some m) h2 handle g1 ≡ done ckr_ok g2)
        × (c_sign o (some data') given (some len) handle g2 ≡ done out g3)
  generate_key_pair-sign params_ok malloc_ok mechanism m pub_template priv_template handle i x a b
        out g r l user idle ok small room made private' known signed =
      let h2 = handle_base 3 + ((g.object_counter + 1) % 2 ^ 32) in
      let (p, q, ne, ep, eq, done', f1, f2, ok') =
        generate_key_pair-object_of o params_ok malloc_ok mechanism pub_template priv_template
          handle i x a b g r l user ok small room made in
      let g1 = paired p q a b g in
      let (r1, l1) = paired-Leads handle i p q x a b g r l in
      let (same, type, can) = sign_data-saved o b h2 (first_saved a g).2 m data' given len in
      let may =
        make_pair-can_sign o params_ok malloc_ok mechanism pub_template priv_template a b made in
      let (e1, e2, e3) =
        sign_init-sign handle i x g1 r1 l1 o data' given len m h2 (second_saved a b g).1 out idle f2
          (type ∙ private') (can ∙ may) known (same ∙ signed) in
      (
        g1,
        focus g1 i (begun op_sign m h2 x) (g1.slots 0),
        focus g1 i (ended (begun op_sign m h2 x)) (g1.slots 0),
        done',
        e1,
        e2,
      )
