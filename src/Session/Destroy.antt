-- ===== src/Session/Destroy.antt =====
-- hsm_destroy_session of hsm/src/pkcs11/session.c.
use pst_boitier_pki.Common.{
  ℕ, ◌+◌, ◌-◌, ◌%◌, ◌^◌, ◌<◌, ◌≡◌, true, false, none, some, arith, update, update-eq, ap,
  count_used-le, count_used-update, update-none_cases,
}
use pst_boitier_pki.Cryptoki.{ckr_ok, ckr_session_handle_invalid}
use pst_boitier_pki.Hsm.State.{HsmContext, HsmSlot, HsmSession, hsm_max_sessions}
use pst_boitier_pki.Hsm.Cmd.{done, put_slot}
use pst_boitier_pki.Hsm.Slots.{read_slot-put, write_slot-put, lock_slot-done, unlock_slot-put}
use pst_boitier_pki.Hsm.Invariant.{IsReady, SessionsOk, IsWell}
use pst_boitier_pki.Session.{destroy_session_loop, hsm_destroy_session, find_in_slot}
use pst_boitier_pki.Session.Table.{At}
use pst_boitier_pki.Session.Create.{released}

-- The slot with entry `idx` emptied.
abbrev pub slot_closed : HsmSlot → (idx : ℕ) → HsmSlot
slot_closed s idx = record s {
  sessions = update s.sessions idx none;
  session_count = (s.session_count + (2 ^ 32 - 1)) % 2 ^ 32;
  lock = false;
}

abbrev pub closed : (idx : ℕ) → HsmContext → HsmContext
closed idx g = put_slot 0 (slot_closed (g.slots 0) idx) g

module _ (handle : ℕ) (g : HsmContext) (r : IsReady g) where
  pub destroy_session-found :
      (idx : ℕ)
      → find_in_slot handle (g.slots 0) ≡ some idx
      → hsm_destroy_session handle g ≡ done ckr_ok (closed idx g)
  unfolding hsm_destroy_session destroy_session_loop
  destroy_session-found idx e =
      let l = record (g.slots 0) { lock = true } in
      let t = record (slot_closed (g.slots 0) idx) { lock = true } in
      let has : 0 < g.slots_len = omega arith in
      ground (
        arith,
        r.initialized,
        r.slot_count,
        lock_slot-done 0 g has r.free,
        read_slot-put 0 l g has,
        e,
        write_slot-put 0 t l g,
        unlock_slot-put 0 t g has,
      )

  pub destroy_session-missing :
      find_in_slot handle (g.slots 0) ≡ none
      → hsm_destroy_session handle g ≡ done ckr_session_handle_invalid (released g)
  unfolding hsm_destroy_session destroy_session_loop
  destroy_session-missing e =
      let l = record (g.slots 0) { lock = true } in
      let has : 0 < g.slots_len = omega arith in
      ground (
        arith,
        r.initialized,
        r.slot_count,
        lock_slot-done 0 g has r.free,
        read_slot-put 0 l g has,
        e,
        unlock_slot-put 0 l g has,
      )

pub slot_closed-SessionsOk :
    (next : ℕ) (s : HsmSlot) (idx : ℕ) (x : HsmSession)
    → SessionsOk next s
    → idx < hsm_max_sessions
    → s.sessions idx ≡ some x
    → SessionsOk next (slot_closed s idx)
slot_closed-SessionsOk next s idx x ok inside e = record {
  counted = ground (
    arith,
    count_used-update hsm_max_sessions s.sessions idx none inside,
    count_used-le hsm_max_sessions s.sessions,
  );
  below = λ i y q. ok.below i y (update-none_cases s.sessions idx i q).1;
  distinct = λ i j y z p q.
      ok.distinct i j y z (update-none_cases s.sessions idx i p).1
        (update-none_cases s.sessions idx j q).1;
  home = λ i y q. ok.home i y (update-none_cases s.sessions idx i q).1;
  free = λ i y q. ok.free i y (update-none_cases s.sessions idx i q).1;
}

pub closed-IsWell :
    (handle idx : ℕ) (g : HsmContext) → IsWell g → At handle (g.slots 0) idx → IsWell (closed idx g)
closed-IsWell handle idx g w a =
    let at' = update-eq g.slots 0 (slot_closed (g.slots 0) idx) in
    record {
      ready = record {
        initialized = w.ready.initialized;
        slot_count = w.ready.slot_count;
        slots_len = w.ready.slots_len;
        free = ap (λ (t : HsmSlot). t.lock) at';
      };
      sessions = rw at' (
          slot_closed-SessionsOk g.next_session_handle (g.slots 0) idx a.session w.sessions a.inside
            a.present);
    }
