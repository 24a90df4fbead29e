-- ===== src/Calls/Keep.antt =====
-- What the calls keep: a well-formed state stays well formed where a session changes but for its
-- handle, its slot and its lock.
use pst_boitier_pki.Common.{
  ℕ, ◌≡◌, ◌≤◌, ◌<◌, refl, Bool, false, none, some, inl, inr, arith, ap, ◌∙◌, sym, update-eq,
  update-same, update-some_cases, count_used-update, Option-cases,
}
use pst_boitier_pki.Cryptoki.{ckr_session_handle_invalid}
use pst_boitier_pki.Hsm.State.{
  HsmContext, HsmSlot, HsmSession, hsm_max_sessions, hsm_max_find_objects,
}
use pst_boitier_pki.Hsm.Cmd.{done, put_slot}
use pst_boitier_pki.Hsm.Focus.{focus, holding}
use pst_boitier_pki.Hsm.Invariant.{IsWell}
use pst_boitier_pki.Login.State.{IsCoherent}
use pst_boitier_pki.Session.{find_in_slot, hsm_get_session}
use pst_boitier_pki.Session.Table.{find_in_slot-At, get_session-ready}
use pst_boitier_pki.Session.Create.{released}
use pst_boitier_pki.Login.Refine.{Leads}

-- A handle leads to a session of the table, or to none.
pub data Lookup (handle : ℕ) (g : HsmContext) : Type 0 where
  absent :
      find_in_slot handle (g.slots 0) ≡ none
      → hsm_get_session handle g ≡ done (inl ckr_session_handle_invalid) g
      → Lookup handle g
  present :
      (i : ℕ) (x : HsmSession)
      → find_in_slot handle (g.slots 0) ≡ some i
      → i < hsm_max_sessions
      → Leads handle i x g
      → Lookup handle g

pub lookup : (handle : ℕ) (g : HsmContext) → IsWell g → Lookup handle g
lookup handle g w = elim (Option-cases (find_in_slot handle (g.slots 0))) [
  | inl e ↦ absent e (ground (arith, get_session-ready handle g w.ready, e))
  | inr (i, e) ↦
      let a = find_in_slot-At handle (g.slots 0) i e in
      present i a.session e a.inside (record {
        found = ground (arith, get_session-ready handle g w.ready, e);
        present = a.present;
        home = w.sessions.home i a.session a.present;
        free = w.sessions.free i a.session a.present;
      })
]

-- The parts of a session that the table depends on.
pub record Keeps (x y : HsmSession) : Type 0 where
  pub handle : y.handle ≡ x.handle
  pub slot_id : y.slot_id ≡ x.slot_id
  pub lock : y.lock ≡ x.lock
  pub coherent : IsCoherent x → IsCoherent y

pub kept : {x : HsmSession} → Keeps x x
kept = record { handle = refl; slot_id = refl; lock = refl; coherent = λ c. c }

-- Sessions that only differ in their locks, their operations and their searches.
pub record Same (x y : HsmSession) : Type 0 where
  pub handle : y.handle ≡ x.handle
  pub slot_id : y.slot_id ≡ x.slot_id
  pub state : y.state ≡ x.state
  pub is_read_write : y.is_read_write ≡ x.is_read_write
  pub user_logged_in : y.user_logged_in ≡ x.user_logged_in
  pub so_logged_in : y.so_logged_in ≡ x.so_logged_in
  pub found : x.find_count ≤ hsm_max_find_objects → y.find_count ≤ hsm_max_find_objects

Same-IsCoherent : {x y : HsmSession} → Same x y → IsCoherent x → IsCoherent y
Same-IsCoherent {x} {y} s c = record {
  state = rw (s.state, s.is_read_write, s.user_logged_in, s.so_logged_in) c.state;
  one_user = rw (s.user_logged_in, s.so_logged_in) c.one_user;
  so_writes = rw (s.is_read_write, s.so_logged_in) c.so_writes;
  found = s.found c.found;
}

-- A change that keeps a session, between two that may take and give back its lock.
pub kept_between :
    {x u v y : HsmSession} → Same x u → Keeps u v → Same v y → y.lock ≡ x.lock → Keeps x y
kept_between a k b lock = record {
  handle = b.handle ∙ k.handle ∙ a.handle;
  slot_id = b.slot_id ∙ k.slot_id ∙ a.slot_id;
  lock = lock;
  coherent = λ c. Same-IsCoherent b (k.coherent (Same-IsCoherent a c));
}

module _ (g : HsmContext) (w : IsWell g) where
  pub focus-IsWell :
      (i : ℕ) (x y : HsmSession) (a : HsmSlot)
      → i < hsm_max_sessions
      → (g.slots 0).sessions i ≡ some x
      → Keeps x y
      → a.session_count ≡ (g.slots 0).session_count
      → a.lock ≡ false
      → IsWell (focus g i y a)
  focus-IsWell i x y a inside e k count free =
      let s = g.slots 0 in
      let at' = update-eq g.slots 0 (holding g i y a) in
      record {
        ready = record {
          initialized = w.ready.initialized;
          slot_count = w.ready.slot_count;
          slots_len = w.ready.slots_len;
          free = ap (λ (t : HsmSlot). t.lock) at' ∙ free;
        };
        sessions = rw at' (record {
          counted = ground (
            arith,
            count,
            e,
            w.sessions.counted,
            count_used-update hsm_max_sessions s.sessions i (some y) inside,
          );
          below = λ j z q. elim (update-some_cases s.sessions i y j q) [
            | inl (_, p) ↦ ground (arith, p, k.handle, w.sessions.below i x e)
            | inr (_, p) ↦ w.sessions.below j z p
          ];
          distinct = λ j m u v q1 q2 h. elim (update-some_cases s.sessions i y j q1) [
            | inl (c, p1) ↦ elim (update-some_cases s.sessions i y m q2) [
              | inl (d, p2) ↦ omega (arith, c, d)
              | inr (_, p2) ↦
                  c
                  ∙ w.sessions.distinct i m x v e p2
                      (sym k.handle ∙ ap (λ (t : HsmSession). t.handle) p1 ∙ h)
            ]
            | inr (_, p1) ↦ elim (update-some_cases s.sessions i y m q2) [
              | inl (d, p2) ↦
                  w.sessions.distinct j i u x p1 e
                    (h ∙ ap (λ (t : HsmSession). t.handle) (sym p2) ∙ k.handle)
                  ∙ sym d
              | inr (_, p2) ↦ w.sessions.distinct j m u v p1 p2 h
            ]
          ];
          home = λ j z q. elim (update-some_cases s.sessions i y j q) [
            | inl (_, p) ↦
                ap (λ (t : HsmSession). t.slot_id) (sym p) ∙ k.slot_id ∙ w.sessions.home i x e
            | inr (_, p) ↦ w.sessions.home j z p
          ];
          free = λ j z q. elim (update-some_cases s.sessions i y j q) [
            | inl (_, p) ↦ ap (λ (t : HsmSession). t.lock) (sym p) ∙ k.lock ∙ w.sessions.free i x e
            | inr (_, p) ↦ w.sessions.free j z p
          ];
        });
      }

  -- Taking a lock and giving it back leaves the state as it was.
  pub released_same : released g ≡ g
  released_same =
      let same : record (g.slots 0) { lock = false } ≡ g.slots 0 =
        ap (λ (b : Bool). record (g.slots 0) { lock = b }) (sym w.ready.free) in
      ap (λ (t : HsmSlot). put_slot 0 t g) same
      ∙ ap (λ (f : ℕ → HsmSlot). record g { slots = f }) (update-same g.slots 0 (g.slots 0) refl)
