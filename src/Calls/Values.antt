-- ===== src/Calls/Values.antt =====
-- C_GetAttributeValue and C_SetAttributeValue of hsm/src/pkcs11/objects.c, and C_GenerateKeyPair of
-- crypto_ops.c, on a session of the running library: they return, and what they keep.
use pst_boitier_pki.Common.{
  ℕ, ◌<◌, ◌+◌, ◌^◌, true, none, some, List, arith, update, inl, inr, Bool-cases, find_from-First,
}
use pst_boitier_pki.Cryptoki.{is_ok, ckr_object_handle_invalid, ckr_user_not_logged_in}
use pst_boitier_pki.Hsm.State.{HsmContext, HsmSession, hsm_max_objects}
use pst_boitier_pki.Hsm.Slots.{read_slot-done}
use pst_boitier_pki.Hsm.Focus.{read_session-focus, unlock_session-focus}
use pst_boitier_pki.Login.Refine.{Leads, lock_session-start, focus-back}
use pst_boitier_pki.Attributes.{CkAttribute}
use pst_boitier_pki.Attributes.Safe.{AllRoomy, set_attribute_value-some}
use pst_boitier_pki.Attributes.Reads.{get_attribute_value-some}
use pst_boitier_pki.Objects.{
  hsm_get_object, is_object, c_get_attribute_value, c_set_attribute_value,
}
use pst_boitier_pki.Objects.Table.{changed-ObjectsOk}
use pst_boitier_pki.SignCalls.Refine.{look, missing, at'}
use pst_boitier_pki.OpenSsl.{OpenSsl}
use pst_boitier_pki.KeyPair.{c_generate_key_pair}
use pst_boitier_pki.KeyPair.Made.{make_pair-some}
use pst_boitier_pki.KeyPair.Placed.{read_session-Leads}
use pst_boitier_pki.Calls.Sound.{IsSound}
use pst_boitier_pki.Calls.Tables.{tabled, tabled-IsSound, AllShaped-some}
use pst_boitier_pki.Calls.Destroyed.{Sounds}
use pst_boitier_pki.Calls.Added.{add_pair-IsSound}

module _ (handle i : ℕ) (x : HsmSession) (g : HsmContext) (sound : IsSound g)
    (l : Leads handle i x g) where
  pub get_attribute_value-IsSound :
      (ck_unavailable_information object : ℕ) (template : List CkAttribute)
      → AllRoomy template
      → Sounds (c_get_attribute_value ck_unavailable_information handle object (some template) g)
  unfolding c_get_attribute_value hsm_get_object
  get_attribute_value-IsSound unavailable object template roomy =
      let r = sound.well.ready in
      let slot = read_slot-done 0 g (omega (arith, r.slots_len)) in
      let session = read_session-Leads handle i x g r l in
      elim (look object (g.slots 0)) [
        | missing e ↦ (
          (ckr_object_handle_invalid, template),
          g,
          ground (arith, l.found, l.home, r.slot_count, session, slot, e),
          sound,
        )
        | at' j o e q ↦
            let (rv, out, w) =
              get_attribute_value-some unavailable o template (sound.shaped j o q) roomy in
            (
              (rv, out),
              g,
              ground (arith, l.found, l.home, r.slot_count, session, slot, e, q, w),
              sound,
            )
      ]

  pub set_attribute_value-IsSound :
      (object : ℕ) (template : List CkAttribute)
      → AllRoomy template
      → Sounds (c_set_attribute_value handle object (some template) g)
  unfolding c_set_attribute_value hsm_get_object
  set_attribute_value-IsSound object template roomy =
      let s = g.slots 0 in
      let r = sound.well.ready in
      let slot = read_slot-done 0 g (omega (arith, r.slots_len)) in
      let session = read_session-Leads handle i x g r l in
      elim (look object s) [
        | missing e ↦ (
          ckr_object_handle_invalid,
          g,
          ground (arith, l.found, l.home, r.slot_count, session, slot, e),
          sound,
        )
        | at' j o e q ↦
            let (rv, o', w, shaped, same) =
              set_attribute_value-some template o roomy (sound.shaped j o q) in
            let objects = update s.objects j (some o') in
            let f = find_from-First (is_object object s) hsm_max_objects 0 e in
            let ok =
              changed-ObjectsOk g.object_counter j s o sound.objects q o' (omega (arith, f.below))
                same in
            (
              rv,
              tabled g objects s.object_count s.lock g.object_counter g.disk,
              ground (arith, l.found, l.home, r.slot_count, session, slot, e, q, w),
              tabled-IsSound g objects s.object_count s.lock g.object_counter g.disk sound r.free ok
                  (AllShaped-some s.objects j o' sound.shaped shaped),
            )
      ]

  pub generate_key_pair-IsSound :
      (o : OpenSsl) (mechanism : ℕ) (pub_template priv_template : List CkAttribute)
      → AllRoomy pub_template
      → AllRoomy priv_template
      → g.object_counter + 2 < 2 ^ 28
      → Sounds (
          c_generate_key_pair o true true true
            (some mechanism)
            pub_template
            priv_template
            true
            handle
            g)
  unfolding c_generate_key_pair
  generate_key_pair-IsSound o mechanism pub_template priv_template r1 r2 small =
      let r = sound.well.ready in
      let has : 0 < g.slots_len = omega (arith, r.slots_len) in
      let s = g.slots 0 in
      let y = record x { lock = true } in
      let start = lock_session-start g i has x l.present l.free in
      let locked = read_session-focus g i has y s in
      let unlock = unlock_session-focus g i has y s in
      let back = focus-back g i has x l.present l.free in
      let (rv, a, b, made, sa, sb) = make_pair-some o mechanism pub_template priv_template r1 r2 in
      elim (Bool-cases x.user_logged_in) [
        | inr nobody ↦ (
          (ckr_user_not_logged_in, none),
          g,
          ground (arith, l.found, nobody, start, locked, unlock, back),
          sound,
        )
        | inl user ↦ elim (Bool-cases (is_ok rv)) [
          | inr bad ↦ (
            (rv, none),
            g,
            ground (arith, l.found, user, made, bad, start, locked, unlock, back),
            sound,
          )
          | inl good ↦
              let (v, h, run, after) = add_pair-IsSound a b g sound sa sb small in
              (
                v,
                h,
                ground (
                  arith,
                  l.found,
                  l.home,
                  user,
                  made,
                  good,
                  start,
                  locked,
                  unlock,
                  back,
                  read_session-Leads handle i x g r l,
                  run,
                ),
                after,
              )
        ]
      ]
