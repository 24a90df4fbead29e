-- ===== src/Calls/ObjectReturns.antt =====
-- The calls of hsm/src/pkcs11/objects.c, and C_GenerateKeyPair of crypto_ops.c, return in a sound
-- state, and leave one.
use pst_boitier_pki.Common.{◌+◌, ◌^◌, List, ℕ, ◌≡◌, ◌<◌, refl, Bytes, arith}
use pst_boitier_pki.Hsm.State.{HsmContext}
use pst_boitier_pki.Hsm.Cmd.{done}
use pst_boitier_pki.OpenSsl.{OpenSsl}
use pst_boitier_pki.Calls.{
  Call, find_objects_init, find_objects, find_objects_final, destroy_object, run,
}
use pst_boitier_pki.Calls.Keep.{absent, present, lookup}
use pst_boitier_pki.Objects.{
  c_find_objects_init, c_find_objects, c_find_objects_final, c_destroy_object,
}
use pst_boitier_pki.Calls.Searches.{
  find_objects_init-Leaves, find_objects-Leaves, find_objects_final-Leaves,
}
use pst_boitier_pki.Calls.Destroyed.{destroy_object-IsSound}
use pst_boitier_pki.Calls.Sound.{IsSound}
use pst_boitier_pki.Calls.Returns.{Returns, unchanged, changed}
use pst_boitier_pki.Calls.{
  create_object, get_attribute_value, set_attribute_value, generate_key_pair,
}
use pst_boitier_pki.Objects.{c_create_object, c_get_attribute_value, c_set_attribute_value}
use pst_boitier_pki.KeyPair.{c_generate_key_pair}
use pst_boitier_pki.KeyPair.Placed.{read_session-Leads}
use pst_boitier_pki.Attributes.{CkAttribute}
use pst_boitier_pki.Attributes.Safe.{AllRoomy}
use pst_boitier_pki.Calls.Added.{create_object-IsSound}
use pst_boitier_pki.Calls.Values.{
  get_attribute_value-IsSound, set_attribute_value-IsSound, generate_key_pair-IsSound,
}

module _ (sha256 : Bytes → Bytes) (o : OpenSsl) (g : HsmContext) (sound : IsSound g) where
  pub find_objects_init-Returns : (handle : ℕ) → Returns sha256 o (find_objects_init handle) g
  unfolding c_find_objects_init
  find_objects_init-Returns handle = elim (lookup handle g sound.well) [
    | absent e q ↦ unchanged sha256 o g sound (find_objects_init handle) (ground (arith, q))
    | present i x e inside l ↦
        let (rv, y, ends, k) = find_objects_init-Leaves handle i x g sound.well.ready l in
        changed sha256 o g sound (find_objects_init handle) handle i x y (g.slots 0) inside l k refl
          sound.well.ready.free refl refl sound.guarded (rw ends refl)
  ]

  pub find_objects-Returns :
      (max_count handle : ℕ) → Returns sha256 o (find_objects max_count handle) g
  unfolding c_find_objects
  find_objects-Returns max_count handle = elim (lookup handle g sound.well) [
    | absent e q ↦ unchanged sha256 o g sound (find_objects max_count handle) (ground (arith, q))
    | present i x e inside l ↦
        let (rv, y, ends, k) =
          find_objects-Leaves handle i x g sound.well.ready l max_count
            (sound.coherent i x l.present).found in
        changed sha256 o g sound (find_objects max_count handle) handle i x y (g.slots 0) inside l k
          refl sound.well.ready.free refl refl sound.guarded (rw ends refl)
  ]

  pub find_objects_final-Returns : (handle : ℕ) → Returns sha256 o (find_objects_final handle) g
  unfolding c_find_objects_final
  find_objects_final-Returns handle = elim (lookup handle g sound.well) [
    | absent e q ↦ unchanged sha256 o g sound (find_objects_final handle) (ground (arith, q))
    | present i x e inside l ↦
        let (rv, y, ends, k) = find_objects_final-Leaves handle i x g sound.well.ready l in
        changed sha256 o g sound (find_objects_final handle) handle i x y (g.slots 0) inside l k
          refl sound.well.ready.free refl refl sound.guarded (rw ends refl)
  ]

  left :
      (c : Call) (h : HsmContext) → run sha256 o c g ≡ done tt h → IsSound h → Returns sha256 o c g
  left c h e s = rw e s

  pub destroy_object-Returns :
      (handle object : ℕ) → Returns sha256 o (destroy_object handle object) g
  unfolding c_destroy_object
  destroy_object-Returns handle object = elim (lookup handle g sound.well) [
    | absent e q ↦ unchanged sha256 o g sound (destroy_object handle object) (ground (arith, q))
    | present i x e inside l ↦
        let (rv, h, ends, s) = destroy_object-IsSound object g sound in
        let session = read_session-Leads handle i x g sound.well.ready l in
        left (destroy_object handle object) h (ground (arith, l.found, l.home, session, ends)) s
  ]

  pub create_object-Returns :
      (now handle : ℕ) (template : List CkAttribute)
      → AllRoomy template
      → g.object_counter + 1 < 2 ^ 28
      → Returns sha256 o (create_object now handle template) g
  unfolding c_create_object
  create_object-Returns now handle template roomy small = elim (lookup handle g sound.well) [
    | absent e q ↦
        unchanged sha256 o g sound (create_object now handle template) (ground (arith, q))
    | present i x e inside l ↦
        let (rv, h, ends, s) = create_object-IsSound now template g sound roomy small in
        let session = read_session-Leads handle i x g sound.well.ready l in
        left (create_object now handle template) h (ground (arith, l.found, l.home, session, ends))
          s
  ]

  pub get_attribute_value-Returns :
      (unavailable handle object : ℕ) (template : List CkAttribute)
      → AllRoomy template
      → Returns sha256 o (get_attribute_value unavailable handle object template) g
  unfolding c_get_attribute_value
  get_attribute_value-Returns unavailable handle object template roomy =
      elim (lookup handle g sound.well) [
        | absent e q ↦
            unchanged sha256 o g sound (get_attribute_value unavailable handle object template)
              (ground (arith, q))
        | present i x e inside l ↦
            let (rv, h, ends, s) =
              get_attribute_value-IsSound handle i x g sound l unavailable object template roomy in
            left (get_attribute_value unavailable handle object template) h (rw ends refl) s
      ]

  pub set_attribute_value-Returns :
      (handle object : ℕ) (template : List CkAttribute)
      → AllRoomy template
      → Returns sha256 o (set_attribute_value handle object template) g
  unfolding c_set_attribute_value
  set_attribute_value-Returns handle object template roomy = elim (lookup handle g sound.well) [
    | absent e q ↦
        unchanged sha256 o g sound (set_attribute_value handle object template) (ground (arith, q))
    | present i x e inside l ↦
        let (rv, h, ends, s) =
          set_attribute_value-IsSound handle i x g sound l object template roomy in
        left (set_attribute_value handle object template) h (rw ends refl) s
  ]

  pub generate_key_pair-Returns :
      (mechanism handle : ℕ) (pub_template priv_template : List CkAttribute)
      → AllRoomy pub_template
      → AllRoomy priv_template
      → g.object_counter + 2 < 2 ^ 28
      → Returns sha256 o (generate_key_pair mechanism handle pub_template priv_template) g
  unfolding c_generate_key_pair
  generate_key_pair-Returns mechanism handle pub_template priv_template r1 r2 small =
      let c = generate_key_pair mechanism handle pub_template priv_template in
      elim (lookup handle g sound.well) [
        | absent e q ↦ unchanged sha256 o g sound c (ground (arith, q))
        | present i x e inside l ↦
            let (rv, h, ends, s) =
              generate_key_pair-IsSound handle i x g sound l o mechanism pub_template priv_template
                r1 r2 small in
            left c h (rw ends refl) s
      ]
