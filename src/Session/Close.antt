-- ===== src/Session/Close.antt =====
-- C_CloseSession of hsm/src/pkcs11/session.c and the session table.
use native.Mathlib.Nat.{mod-eq_of_lt}
use pst_boitier_pki.Common.{
  ℕ, ◌+◌, ◌-◌, ◌%◌, ◌^◌, ◌<◌, ◌≡◌, ◌≢◌, true, false, Option, none, some, ◌==◌, inl, inr, arith,
  eq_of_==, Bool-cases, Option-cases, update-eq, update-ne, if◌then◌else◌, ap, sym, count_used-le,
  count_used-update, update-none_cases, ◌∙◌, update-update, update-same,
}
use pst_boitier_pki.Cryptoki.{ckr_ok}
use pst_boitier_pki.Hsm.State.{HsmContext, HsmSlot, HsmSession, hsm_max_sessions}
use pst_boitier_pki.Hsm.Cmd.{done, put_slot}
use pst_boitier_pki.Hsm.Slots.{put_slot-put_slot}
use pst_boitier_pki.Hsm.Focus.{entry}
use pst_boitier_pki.Hsm.Invariant.{IsReady, SessionsOk, IsWell}
use pst_boitier_pki.Session.{
  new_session, hsm_create_session, hsm_get_session, find_in_slot, c_close_session,
}
use pst_boitier_pki.Session.Table.{
  At, get_session-ready, find_in_slot-At, find_in_slot-none, find_in_slot_complete, lookup_result,
}
use pst_boitier_pki.Session.Create.{opened, released, slot_opened, create_session-opens}
use pst_boitier_pki.Session.Destroy.{
  slot_closed, closed, destroy_session-found, slot_closed-SessionsOk, closed-IsWell,
}

lookup_result-entry : (o : Option ℕ) (k : ℕ) → lookup_result o ≡ inr (entry k) → o ≡ some k
lookup_result-entry none k e = absurd (ground arith)
lookup_result-entry (some i) k e = ground arith

found_of_get :
    (handle k : ℕ) (g : HsmContext)
    → IsReady g
    → hsm_get_session handle g ≡ done (inr (entry k)) g
    → find_in_slot handle (g.slots 0) ≡ some k
found_of_get handle k g r e =
    lookup_result-entry (find_in_slot handle (g.slots 0)) k (cc (get_session-ready handle g r))

slot_closed_count :
    (next idx : ℕ) (s : HsmSlot) (x : HsmSession)
    → SessionsOk next s
    → idx < hsm_max_sessions
    → s.sessions idx ≡ some x
    → (slot_closed s idx).session_count + 1 ≡ s.session_count
slot_closed_count next idx s x ok inside e = ground (
  arith,
  count_used-update hsm_max_sessions s.sessions idx none inside,
  count_used-le hsm_max_sessions s.sessions,
  ok.counted,
)

slot_closed-others :
    (handle other next idx k : ℕ) (s : HsmSlot)
    → SessionsOk next s
    → At handle s idx
    → At other s k
    → other ≢ handle
    → find_in_slot other (slot_closed s idx) ≡ some k
slot_closed-others handle other next idx k s ok a b ne =
    find_in_slot_complete other next (slot_closed s idx) k
      (slot_closed-SessionsOk next s idx a.session ok a.inside a.present)
      (record {
        inside = b.inside;
        session = b.session;
        present = update-ne s.sessions idx none k apart ∙ b.present;
        handle_eq = b.handle_eq;
      })
  where
    apart : k ≢ idx
    apart e = ne (cc (a.present, b.present, a.handle_eq, b.handle_eq))

slot_closed-find :
    (handle other next idx : ℕ) (s : HsmSlot)
    → SessionsOk next s
    → At handle s idx
    → find_in_slot other (slot_closed s idx)
      ≡ (if other == handle then none else find_in_slot other s)
slot_closed-find handle other next idx s ok a = elim (Bool-cases (other == handle)) [
  | inl same ↦ rw same (
      find_in_slot-none other (slot_closed s idx) (λ i y b q h.
        let (ne, p) = update-none_cases s.sessions idx i q in
        ne (
          ok.distinct i idx y a.session p a.present
            (h ∙ eq_of_== other handle same ∙ sym a.handle_eq))))
  | inr differ ↦ rw differ (elim (Option-cases (find_in_slot other s)) [
    | inl e ↦
        find_in_slot-none other (slot_closed s idx)
          (λ i y b q h. let (ne, p) = update-none_cases s.sessions idx i q in absent e i y b p h)
        ∙ sym e
    | inr (k, e) ↦
        slot_closed-others handle other next idx k s ok a (find_in_slot-At other s k e)
          (ground arith)
        ∙ sym e
  ])
]
  where
    absent :
        find_in_slot other s ≡ none
        → (i : ℕ) (y : HsmSession) → i < hsm_max_sessions
        → s.sessions i ≡ some y
        → y.handle ≢ other
    absent e i y b p h = cc (
        find_in_slot_complete other next s i ok
          (record { inside = b; session = y; present = p; handle_eq = h }))

-- In a well-formed state, closing the session that a handle leads to succeeds, empties its entry
-- and lowers the count by one; after it that handle is invalid, any other handle leads where it
-- led before, and the state is still well formed.
pub close_session-closes :
    (handle other idx : ℕ) (g : HsmContext)
    → IsWell g
    → hsm_get_session handle g ≡ done (inr (entry idx)) g
    → (c_close_session handle g ≡ done ckr_ok (closed idx g))
      × (((closed idx g).slots 0).session_count + 1 ≡ (g.slots 0).session_count)
      × (hsm_get_session other (closed idx g)
          ≡ done
              (lookup_result (if other == handle then none else find_in_slot other (g.slots 0)))
              (closed idx g))
      × IsWell (closed idx g)
unfolding c_close_session
close_session-closes handle other idx g w e =
    let s = g.slots 0 in
    let found = found_of_get handle idx g w.ready e in
    let a = find_in_slot-At handle s idx found in
    let w' = closed-IsWell handle idx g w a in
    let at' : (closed idx g).slots 0 ≡ slot_closed s idx =
      update-eq g.slots 0 (slot_closed s idx) in
    (
      destroy_session-found handle g w.ready idx found,
      rw at'
          (slot_closed_count g.next_session_handle idx s a.session w.sessions a.inside a.present),
      get_session-ready other (closed idx g) w'.ready
          ∙ ap (λ (o : Option ℕ). done (lookup_result o) (closed idx g))
              (ap (find_in_slot other) at'
                ∙ slot_closed-find handle other g.next_session_handle idx s w.sessions a),
      w',
    )

slot_closed-opened :
    (s : HsmSlot) (idx : ℕ) (x : HsmSession)
    → s.sessions idx ≡ none
    → s.session_count < hsm_max_sessions
    → slot_closed (slot_opened s idx x) idx ≡ record s { lock = false }
slot_closed-opened s idx x empty room =
    let table =
      update-update s.sessions idx (some x) none ∙ update-same s.sessions idx none empty in
    let count : ((s.session_count + 1) % 2 ^ 32 + (2 ^ 32 - 1)) % 2 ^ 32 ≡ s.session_count =
      omega arith in
    λ i. record s { sessions = table i; session_count = count i; lock = false }

-- From a well-formed state with room in the table and the handle counter not at its end, where
-- memory can be allocated: a session that is opened and then closed leaves the slot as it was,
-- and only the handle counter has moved on.
pub open-close :
    (now flags : ℕ) (g : HsmContext)
    → IsWell g
    → (g.slots 0).session_count < hsm_max_sessions
    → g.next_session_handle + 1 < 2 ^ 64
    → (g' : HsmContext) × (hsm_create_session true now 0 flags g
        ≡ done (ckr_ok, some g.next_session_handle) g')
      × (c_close_session g.next_session_handle g'
          ≡ done ckr_ok (record (released g) { next_session_handle = g.next_session_handle + 1 }))
unfolding c_close_session
open-close now flags g w room small =
    let (idx, empty, made, here, w') = create_session-opens now flags g w room small in
    let s = g.slots 0 in
    let x = new_session g.next_session_handle 0 flags now in
    let g' = opened now flags idx g in
    let at' : g'.slots 0 ≡ slot_opened s idx x = update-eq g.slots 0 (slot_opened s idx x) in
    let back : slot_closed (g'.slots 0) idx ≡ record s { lock = false } =
      ap (λ (t : HsmSlot). slot_closed t idx) at' ∙ slot_closed-opened s idx x empty room in
    let same : closed idx g'
        ≡ record (released g) { next_session_handle = g.next_session_handle + 1 } =
      ap (λ (t : HsmSlot). put_slot 0 t g') back
      ∙ put_slot-put_slot 0 (record s { lock = false }) (slot_opened s idx x)
          (record g { next_session_handle = (g.next_session_handle + 1) % 2 ^ 64 })
      ∙ ap (λ (n : ℕ). record (released g) { next_session_handle = n }) (mod-eq_of_lt small) in
    (
      g',
      made,
      destroy_session-found g.next_session_handle g' w'.ready idx
            (found_of_get g.next_session_handle idx g' w'.ready here)
          ∙ ap (done ckr_ok) same,
    )
