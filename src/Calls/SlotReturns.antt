-- ===== src/Calls/SlotReturns.antt =====
-- The calls that close the sessions of a slot, C_InitToken and C_CloseAllSessions of
-- hsm/src/pkcs11/session.c, and C_Finalize with C_Initialize after it: they return in a sound state, and
-- leave one.
use pst_boitier_pki.Common.{
  ℕ, ◌≡◌, ◌≤◌, refl, true, false, some, Bytes, length, arith, ap, ◌∙◌, sym, subst, inl, inr,
  Bool-cases, leb, update-eq,
}
use pst_boitier_pki.Cryptoki.{ckr_ok}
use pst_boitier_pki.Hsm.State.{HsmContext, HsmSlot, Disk}
use pst_boitier_pki.Hsm.Cmd.{done, pure, ◌>>◌}
use pst_boitier_pki.Pin.{pin_len_bad}
use pst_boitier_pki.Session.{c_close_all_sessions}
use pst_boitier_pki.Session.CloseAll.{close_all_sessions-deadlock}
use pst_boitier_pki.Login.{c_init_token, label_len}
use pst_boitier_pki.Login.InitToken.{initialized, init_token-result, new_token}
use pst_boitier_pki.Pin.Guard.{AllGuarded, new_token-AllGuarded}
use pst_boitier_pki.Storage.{hsm_storage_init}
use pst_boitier_pki.Library.{c_initialize, c_finalize}
use pst_boitier_pki.Library.Start.{initialize-IsWell}
use pst_boitier_pki.Library.Stop.{finalize-IsStopped}
use pst_boitier_pki.Calls.Starts.{started-IsSound}
use pst_boitier_pki.Hsm.Ends.{Ends-and_then}
use pst_boitier_pki.OpenSsl.{OpenSsl}
use pst_boitier_pki.Calls.{run, restart, close_all_sessions, init_token}
use pst_boitier_pki.Calls.Keep.{released_same}
use pst_boitier_pki.Calls.Sound.{IsSound, same_objects}
use pst_boitier_pki.Calls.Returns.{Returns, unchanged}

-- A new token in the slot of a sound state.
initialized-IsSound :
    (sha256 : Bytes → Bytes) (pin label : Bytes) (g : HsmContext)
    → IsSound g
    → IsSound (initialized sha256 pin label g)
initialized-IsSound sha256 pin label g s =
    let t = new_token sha256 pin label (g.slots 0).token in
    let a = record (g.slots 0) { token = t; token_present = true; lock = false } in
    let at' = update-eq g.slots 0 a in
    same_objects g (initialized sha256 pin label g) s
      (record {
        ready = record {
          initialized = s.well.ready.initialized;
          slot_count = s.well.ready.slot_count;
          slots_len = s.well.ready.slots_len;
          free = ap (λ (b : HsmSlot). b.lock) at';
        };
        sessions = rw at' (record {
          counted = s.well.sessions.counted;
          below = s.well.sessions.below;
          distinct = s.well.sessions.distinct;
          home = s.well.sessions.home;
          free = s.well.sessions.free;
        });
      })
      (λ i x e. s.coherent i x (ap (λ (b : HsmSlot). b.sessions i) (sym at') ∙ e))
      (ap (λ (b : HsmSlot). b.objects) at') (ap (λ (b : HsmSlot). b.object_count) at') refl refl
      (subst (λ (b : HsmSlot). AllGuarded b.token) (sym at')
        (new_token-AllGuarded sha256 pin label (g.slots 0).token))

module _ (sha256 : Bytes → Bytes) (o : OpenSsl) (g : HsmContext) (sound : IsSound g) where
  -- No session is open on slot 0.
  pub close_all_sessions-Returns :
      (slot_id : ℕ)
      → (g.slots 0).session_count ≡ 0
      → Returns sha256 o (close_all_sessions slot_id) g
  unfolding c_close_all_sessions
  close_all_sessions-Returns slot_id idle = elim (Bool-cases (leb g.slot_count slot_id)) [
    | inl e ↦
        unchanged sha256 o g sound (close_all_sessions slot_id)
          (ground (arith, e, sound.well.ready.initialized))
    | inr e ↦
        let first : slot_id ≡ 0 = ground (arith, e, sound.well.ready.slot_count) in
        unchanged sha256 o g sound (close_all_sessions slot_id) (
          ap (λ (n : ℕ). run sha256 o (close_all_sessions n) g) first
          ∙ ground
              (arith, idle, close_all_sessions-deadlock g sound.well, released_same g sound.well))
  ]

  init_first :
      (pin label : Bytes)
      → pin_len_bad pin ≡ false
      → label_len pin ≤ length label
      → (g.slots 0).session_count ≡ 0
      → Returns sha256 o (init_token 0 pin label) g
  init_first pin label fine long idle =
      let made : c_init_token sha256 0 (some pin) (some label) g
          ≡ done ckr_ok (initialized sha256 pin label g) =
        ground (arith, idle, init_token-result sha256 pin label g sound.well fine long) in
      rw made (initialized-IsSound sha256 pin label g sound)

  pub init_token-Returns :
      (slot_id : ℕ) (pin label : Bytes)
      → label_len pin ≤ length label
      → (g.slots 0).session_count ≡ 0
      → Returns sha256 o (init_token slot_id pin label) g
  unfolding c_init_token
  init_token-Returns slot_id pin label long idle = elim (Bool-cases (pin_len_bad pin)) [
    | inl bad ↦ unchanged sha256 o g sound (init_token slot_id pin label) (ground (arith, bad))
    | inr fine ↦ elim (Bool-cases (leb g.slot_count slot_id)) [
      | inl e ↦
          unchanged sha256 o g sound (init_token slot_id pin label)
            (ground (arith, e, fine, sound.well.ready.initialized))
      | inr e ↦
          let first : slot_id ≡ 0 = ground (arith, e, sound.well.ready.slot_count) in
          subst (λ (n : ℕ). Returns sha256 o (init_token n pin label) g) (sym first)
            (init_first pin label fine long idle)
    ]
  ]

  -- The directories are there, or can be made.
  pub restart-Returns : (hsm_storage_init g.disk).0 ≡ ckr_ok → Returns sha256 o restart g
  restart-Returns stored =
      Ends-and_then _ (c_finalize false g) (λ _. do c_initialize true; pure tt)
        (finalize-IsStopped g sound.well sound.free)
        (λ rv h p.
          let same = ap (λ (d : Disk). (hsm_storage_init d).0) p.2 in
          let (run', w) = initialize-IsWell h p.1.free p.1.initialized (same ∙ stored) in
          rw run' (started-IsSound h w))
