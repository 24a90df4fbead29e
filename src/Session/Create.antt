-- ===== src/Session/Create.antt =====
-- hsm_create_session and C_OpenSession: what a new session is, and when there is none.
use pst_boitier_pki.Common.{
  ℕ, ◌+◌, ◌%◌, ◌^◌, ◌≤◌, ◌<◌, ◌≡◌, ◌≢◌, refl, Bool, true, false, Option, none, some, inl, inr,
  arith, update, update-eq, ap, is_none, find_index, find_from-First, is_none-none, find_free,
  count_used-le, count_used-update, ◌⊎◌, update-some_cases, ◌∙◌,
}
use native.Mathlib.Nat.{mod-eq_of_lt}
use pst_boitier_pki.Cryptoki.{ckr_ok, ckr_session_count}
use pst_boitier_pki.Hsm.State.{HsmContext, HsmSlot, HsmSession, hsm_max_sessions}
use pst_boitier_pki.Hsm.Cmd.{done, put_slot}
use pst_boitier_pki.Hsm.Slots.{read_slot-put, write_slot-put, lock_slot-done, unlock_slot-put}
use pst_boitier_pki.Hsm.Focus.{entry}
use pst_boitier_pki.Hsm.Invariant.{IsReady, SessionsOk, IsWell}
use pst_boitier_pki.Session.{new_session, hsm_create_session, hsm_get_session, find_in_slot}
use pst_boitier_pki.Session.Table.{At, lookup_result, get_session-ready, find_in_slot_complete}

-- The slot with a session more, in entry `idx`.
abbrev pub slot_opened : HsmSlot → (idx : ℕ) → HsmSession → HsmSlot
slot_opened s idx x = record s {
  sessions = update s.sessions idx (some x);
  session_count = (s.session_count + 1) % 2 ^ 32;
  lock = false;
}

-- The state with a session more.
abbrev pub opened : (now flags idx : ℕ) → HsmContext → HsmContext
opened now flags idx g =
    put_slot 0 (slot_opened (g.slots 0) idx (new_session g.next_session_handle 0 flags now))
      (record g { next_session_handle = (g.next_session_handle + 1) % 2 ^ 64 })

-- The first free entry of the table.
abbrev pub free_entry : HsmContext → Option ℕ
free_entry g = find_index (λ i. is_none ((g.slots 0).sessions i)) hsm_max_sessions

-- The state after a call that took and gave back the lock, and did nothing else.
abbrev pub released : HsmContext → HsmContext
released g = put_slot 0 (record (g.slots 0) { lock = false }) g

module _ (now flags : ℕ) (g : HsmContext) (r : IsReady g) where
  pub create_session-done :
      (idx : ℕ)
      → free_entry g ≡ some idx
      → (g.slots 0).session_count < hsm_max_sessions
      → hsm_create_session true now 0 flags g
        ≡ done (ckr_ok, some g.next_session_handle) (opened now flags idx g)
  unfolding hsm_create_session
  create_session-done idx e room =
      let s = g.slots 0 in
      let l = record s { lock = true } in
      let h = record g { next_session_handle = (g.next_session_handle + 1) % 2 ^ 64 } in
      let t = record (slot_opened s idx (new_session g.next_session_handle 0 flags now)) {
        lock = true;
      } in
      let has : 0 < g.slots_len = omega arith in
      ground (
        arith,
        lock_slot-done 0 g has r.free,
        read_slot-put 0 l g has,
        e,
        write_slot-put 0 t l h,
        unlock_slot-put 0 t h has,
      )

  -- With the library running and one slot whose lock is free: if the session count is at its
  -- limit, hsm_create_session returns CKR_SESSION_COUNT and changes nothing.
  pub create_session-full :
      (alloc_ok : Bool)
      → hsm_max_sessions ≤ (g.slots 0).session_count
      → hsm_create_session alloc_ok now 0 flags g ≡ done (ckr_session_count, none) (released g)
  unfolding hsm_create_session
  create_session-full alloc_ok full =
      let l = record (g.slots 0) { lock = true } in
      let has : 0 < g.slots_len = omega arith in
      ground
        (arith, lock_slot-done 0 g has r.free, read_slot-put 0 l g has, unlock_slot-put 0 l g has)

slot_opened-SessionsOk :
    (next : ℕ) (s : HsmSlot) (idx flags now : ℕ)
    → SessionsOk next s
    → idx < hsm_max_sessions
    → s.sessions idx ≡ none
    → SessionsOk (next + 1) (slot_opened s idx (new_session next 0 flags now))
slot_opened-SessionsOk next s idx flags now ok inside empty = record {
  counted = ground (
    arith,
    count_used-update hsm_max_sessions s.sessions idx (some (new_session next 0 flags now)) inside,
    count_used-le hsm_max_sessions s.sessions,
  );
  below = λ i x e. elim (cases i e) [
    | inl (_, q) ↦ ground arith
    | inr (_, q) ↦ omega (arith, ok.below i x q)
  ];
  distinct = λ i j x y e f h. elim (cases i e) [
    | inl (a, p) ↦ elim (cases j f) [
      | inl (b, q) ↦ omega arith
      | inr (b, q) ↦ absurd (ground (arith, ok.below j y q))
    ]
    | inr (a, p) ↦ elim (cases j f) [
      | inl (b, q) ↦ absurd (ground (arith, ok.below i x p))
      | inr (b, q) ↦ ok.distinct i j x y p q h
    ]
  ];
  home = λ i x e. elim (cases i e) [ inl (_, q) ↦ ground arith | inr (_, q) ↦ ok.home i x q ];
  free = λ i x e. elim (cases i e) [ inl (_, q) ↦ ground arith | inr (_, q) ↦ ok.free i x q ];
}
  where
    cases :
        (i : ℕ) {x : HsmSession}
        → (slot_opened s idx (new_session next 0 flags now)).sessions i ≡ some x
        → ((i ≡ idx) × (new_session next 0 flags now ≡ x)) ⊎ ((i ≢ idx) × (s.sessions i ≡ some x))
    cases i e = update-some_cases s.sessions idx (new_session next 0 flags now) i e

-- From a well-formed state with room in the table and the handle counter not at its end, where
-- memory can be allocated, hsm_create_session makes a session: it stands in an entry that was
-- free, its handle is the counter's and leads to it, and the state stays well formed.
pub create_session-opens :
    (now flags : ℕ) (g : HsmContext)
    → IsWell g
    → (g.slots 0).session_count < hsm_max_sessions
    → g.next_session_handle + 1 < 2 ^ 64
    → (idx : ℕ) × ((g.slots 0).sessions idx ≡ none)
      × (hsm_create_session true now 0 flags g
          ≡ done (ckr_ok, some g.next_session_handle) (opened now flags idx g))
      × (hsm_get_session g.next_session_handle (opened now flags idx g)
          ≡ done (inr (entry idx)) (opened now flags idx g))
      × IsWell (opened now flags idx g)
create_session-opens now flags g w room small =
    let s = g.slots 0 in
    let n = g.next_session_handle in
    let x = new_session n 0 flags now in
    let (idx, e) = find_free hsm_max_sessions s.sessions (omega (arith, w.sessions.counted)) in
    let f = find_from-First (λ i. is_none (s.sessions i)) hsm_max_sessions 0 e in
    let empty : s.sessions idx ≡ none = is_none-none (s.sessions idx) f.hit in
    let s' = slot_opened s idx x in
    let at' : (opened now flags idx g).slots 0 ≡ s' = update-eq g.slots 0 s' in
    let ok' = slot_opened-SessionsOk n s idx flags now w.sessions f.below empty in
    let r' : IsReady (opened now flags idx g) = record {
      initialized = w.ready.initialized;
      slot_count = w.ready.slot_count;
      slots_len = w.ready.slots_len;
      free = ap (λ (t : HsmSlot). t.lock) at';
    } in
    let here : At n s' idx = record {
      inside = f.below;
      session = x;
      present = update-eq s.sessions idx (some x);
      handle_eq = refl;
    } in
    let found : find_in_slot n ((opened now flags idx g).slots 0) ≡ some idx =
      ap (find_in_slot n) at' ∙ find_in_slot_complete n (n + 1) s' idx ok' here in
    (
      idx,
      empty,
      create_session-done now flags g w.ready idx e room,
      get_session-ready n (opened now flags idx g) r'
          ∙ ap (λ (o : Option ℕ). done (lookup_result o) (opened now flags idx g)) found,
      record { ready = r'; sessions = rw (at', mod-eq_of_lt small) ok' },
    )
