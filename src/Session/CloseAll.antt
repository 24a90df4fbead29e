-- ===== src/Session/CloseAll.antt =====
-- C_CloseAllSessions, and the loop that it shares with C_InitToken: they hold the lock of the slot
-- while they call hsm_destroy_session.
use pst_boitier_pki.Common.{
  ℕ, zero, suc, ◌+◌, ◌≤◌, ◌<◌, ◌≡◌, ◌≢◌, refl, true, false, Option, none, some, ltb, inl, inr,
  arith, Bool-cases, Option-cases, if◌then◌else◌, ap, count_used, count_used-update, ◌∙◌,
  used_of_count,
}
use pst_boitier_pki.Cryptoki.{ckr_ok}
use pst_boitier_pki.Hsm.State.{HsmContext, HsmSlot, HsmSession, hsm_max_sessions}
use pst_boitier_pki.Hsm.Cmd.{done, deadlock, put_slot}
use pst_boitier_pki.Hsm.Slots.{read_slot-put, lock_slot-done, lock_slot-deadlock, unlock_slot-put}
use pst_boitier_pki.Hsm.Invariant.{IsReady, IsWell}
use pst_boitier_pki.Session.{
  destroy_session_loop, hsm_destroy_session, c_close_all_sessions, destroy_sessions_loop,
  destroy_sessions,
}
use pst_boitier_pki.Session.Create.{released}

-- `hsm_destroy_session` waits for the lock of the slot, so it never returns to a caller that holds it.
destroy_session-deadlock :
    (handle : ℕ) (a : HsmSlot) (g : HsmContext)
    → IsReady g
    → a.lock ≡ true
    → hsm_destroy_session handle (put_slot 0 a g) ≡ deadlock
unfolding hsm_destroy_session destroy_session_loop
destroy_session-deadlock handle a g r held =
    let has : 0 < g.slots_len = omega arith in
    ground (arith, r.initialized, r.slot_count, lock_slot-deadlock 0 a g has held)

destroy_sessions_loop-deadlock :
    (n i j : ℕ) (x : HsmSession) (a : HsmSlot) (g : HsmContext)
    → IsReady g
    → a.lock ≡ true
    → i ≤ j
    → j < i + n
    → a.sessions j ≡ some x
    → destroy_sessions_loop 0 n i (put_slot 0 a g) ≡ deadlock
unfolding destroy_sessions_loop
destroy_sessions_loop-deadlock zero i j x a g r held from below e = absurd (omega arith)
destroy_sessions_loop-deadlock (suc n) i j x a g r held from below e =
    let has : 0 < g.slots_len = omega arith in
    elim (Option-cases (a.sessions i)) [
      | inl q ↦ ground (
        arith,
        read_slot-put 0 a g has,
        q,
        λ (h : i ≢ j).
            destroy_sessions_loop-deadlock n (suc i) j x a g r held (omega arith) (omega arith) e,
      )
      | inr (y, q) ↦
          ground (arith, read_slot-put 0 a g has, q, destroy_session-deadlock y.handle a g r held)
    ]

destroy_sessions_loop-idle :
    (n i : ℕ) (a : HsmSlot) (g : HsmContext)
    → IsReady g
    → ((j : ℕ) → i ≤ j → j < i + n → a.sessions j ≡ none)
    → destroy_sessions_loop 0 n i (put_slot 0 a g) ≡ done tt (put_slot 0 a g)
unfolding destroy_sessions_loop
destroy_sessions_loop-idle zero i a g r empty = refl
destroy_sessions_loop-idle (suc n) i a g r empty =
    let has : 0 < g.slots_len = omega arith in
    let rest =
      destroy_sessions_loop-idle n (suc i) a g r (λ j p q. empty j (omega arith) (omega arith)) in
    ground (arith, read_slot-put 0 a g has, empty i (omega arith) (omega arith), rest)

none_of_count :
    (s : HsmSlot)
    → count_used hsm_max_sessions s.sessions ≡ 0
    → (j : ℕ) → j < hsm_max_sessions
    → s.sessions j ≡ none
none_of_count s e j h = elim (Option-cases (s.sessions j)) [
  | inl q ↦ q
  | inr (x, q) ↦ absurd (ground (arith, count_used-update hsm_max_sessions s.sessions j none h))
]

module _ (l : HsmSlot) (g : HsmContext) (w : IsWell g) (held : l.lock ≡ true)
    (same : l.sessions ≡ (g.slots 0).sessions) where
  -- With the lock held and a session open, the loop over the table never ends.
  pub destroy_sessions-deadlock :
      ltb 0 (g.slots 0).session_count ≡ true → destroy_sessions 0 (put_slot 0 l g) ≡ deadlock
  destroy_sessions-deadlock some_open =
      let s = g.slots 0 in
      let (j, below, (x, e)) =
        used_of_count hsm_max_sessions s.sessions (ground (arith, w.sessions.counted)) in
      destroy_sessions_loop-deadlock hsm_max_sessions 0 j x l g w.ready held (omega arith) below
        (ap (λ (f : ℕ → Option HsmSession). f j) same ∙ e)

  -- With none open it does nothing.
  pub destroy_sessions-idle :
      ltb 0 (g.slots 0).session_count ≡ false
      → destroy_sessions 0 (put_slot 0 l g) ≡ done tt (put_slot 0 l g)
  destroy_sessions-idle none_open =
      let s = g.slots 0 in
      let empty = none_of_count s (ground (arith, w.sessions.counted)) in
      destroy_sessions_loop-idle hsm_max_sessions 0 l g w.ready
        (λ j _ b. ap (λ (f : ℕ → Option HsmSession). f j) same ∙ empty j b)

-- In a well-formed state C_CloseAllSessions never returns if a session is open on the slot: it
-- takes the lock of the slot and, with it, calls hsm_destroy_session, which takes the same lock.
-- With no session open it succeeds and changes nothing.
pub close_all_sessions-deadlock :
    (g : HsmContext)
    → IsWell g
    → c_close_all_sessions 0 g
      ≡ (if ltb 0 (g.slots 0).session_count then deadlock else done ckr_ok (released g))
unfolding c_close_all_sessions
close_all_sessions-deadlock g w =
    let l = record (g.slots 0) { lock = true } in
    let r = w.ready in
    let has : 0 < g.slots_len = omega (arith, r.slots_len) in
    let start = lock_slot-done 0 g has r.free in
    elim (Bool-cases (ltb 0 (g.slots 0).session_count)) [
      | inl some_open ↦ ground (
        arith,
        start,
        destroy_sessions-deadlock l g w refl refl some_open,
        r.initialized,
        r.slot_count,
      )
      | inr none_open ↦ ground (
        arith,
        start,
        destroy_sessions-idle l g w refl refl none_open,
        unlock_slot-put 0 l g has,
        r.initialized,
        r.slot_count,
      )
    ]
