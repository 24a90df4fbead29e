-- ===== src/Session/Table.antt =====
-- The lookups on an initialised library: what hsm_get_session finds.
use pst_boitier_pki.Common.{
  ℕ, ◌<◌, ◌≡◌, ◌≢◌, true, false, Option, none, some, ◌⊎◌, inl, inr, find_from-First,
  find_from_complete, arith, Bool-cases, Option-cases,
}
use pst_boitier_pki.Cryptoki.{CkRv, ckr_cryptoki_not_initialized, ckr_session_handle_invalid}
use pst_boitier_pki.Hsm.State.{HsmContext, HsmSlot, HsmSession, hsm_max_sessions}
use pst_boitier_pki.Hsm.Cmd.{done, SessionRef}
use pst_boitier_pki.Hsm.Slots.{read_slot-done}
use pst_boitier_pki.Hsm.Focus.{entry}
use pst_boitier_pki.Hsm.Invariant.{IsReady, SessionsOk}
use pst_boitier_pki.Session.{is_session, find_in_slot, get_session_loop, hsm_get_session}

abbrev pub lookup_result : Option ℕ → CkRv ⊎ SessionRef
lookup_result none = inl ckr_session_handle_invalid
lookup_result (some i) = inr (entry i)

found_at : Option ℕ → Option SessionRef
found_at none = none
found_at (some i) = some (entry i)

get_session_loop-one :
    (handle : ℕ) (g : HsmContext)
    → 0 < g.slots_len
    → get_session_loop handle 1 0 g ≡ done (found_at (find_in_slot handle (g.slots 0))) g
unfolding get_session_loop found_at
get_session_loop-one handle g h = ground (arith, read_slot-done 0 g h)

-- On an initialised library the lookup searches the one table, and changes nothing.
pub get_session-ready :
    (handle : ℕ) (g : HsmContext)
    → IsReady g
    → hsm_get_session handle g ≡ done (lookup_result (find_in_slot handle (g.slots 0))) g
unfolding hsm_get_session found_at
get_session-ready handle g r =
    simp (r.initialized, r.slot_count, get_session_loop-one handle g (omega arith))
      (elim (Option-cases (find_in_slot handle (g.slots 0))) [ inl e ↦ rw e | inr (i, e) ↦ rw e ])

pub get_session-closed :
    (handle : ℕ) (g : HsmContext)
    → g.initialized ≡ false
    → hsm_get_session handle g ≡ done (inl ckr_cryptoki_not_initialized) g
unfolding hsm_get_session
get_session-closed handle g e = rw e

-- A session that is found has the handle.
pub record At (handle : ℕ) (s : HsmSlot) (i : ℕ) : Type 0 where
  pub inside : i < hsm_max_sessions
  pub session : HsmSession
  pub present : s.sessions i ≡ some session
  pub handle_eq : session.handle ≡ handle

is_session-some :
    (handle : ℕ) (s : HsmSlot) (i : ℕ)
    → is_session handle s i ≡ true
    → (x : HsmSession) × (s.sessions i ≡ some x) × (x.handle ≡ handle)
is_session-some handle s i e = elim (Option-cases (s.sessions i)) [
  | inl n ↦ absurd (ground arith)
  | inr (x, q) ↦ (x, q, ground arith)
]

pub find_in_slot-At :
    (handle : ℕ) (s : HsmSlot) (i : ℕ) → find_in_slot handle s ≡ some i → At handle s i
find_in_slot-At handle s i e =
    let f = find_from-First (is_session handle s) hsm_max_sessions 0 e in
    let (x, q, h) = is_session-some handle s i f.hit in
    record { inside = f.below; session = x; present = q; handle_eq = h }

-- With distinct handles it is found wherever it stands.
pub find_in_slot_complete :
    (handle next : ℕ) (s : HsmSlot) (i : ℕ)
    → SessionsOk next s
    → At handle s i
    → find_in_slot handle s ≡ some i
find_in_slot_complete handle next s i ok a =
    find_from_complete (is_session handle s) hsm_max_sessions 0 i (record {
      from = omega arith;
      below = a.inside;
      hit = rw (a.present, is_session) (ground arith);
      first = λ j _ b. elim (Bool-cases (is_session handle s j)) [
        | inl hit ↦
            let (y, q, h) = is_session-some handle s j hit in
            absurd (omega (arith, ok.distinct j i y a.session q a.present (ground arith)))
        | inr miss ↦ miss
      ];
    })

-- No session with the handle: it is not found.
pub find_in_slot-none :
    (handle : ℕ) (s : HsmSlot)
    → ((i : ℕ) (x : HsmSession) → i < hsm_max_sessions → s.sessions i ≡ some x → x.handle ≢ handle)
    → find_in_slot handle s ≡ none
find_in_slot-none handle s absent = elim (Option-cases (find_in_slot handle s)) [
  | inl e ↦ e
  | inr (i, e) ↦
      let a = find_in_slot-At handle s i e in
      absurd (absent i a.session a.inside a.present a.handle_eq)
]
