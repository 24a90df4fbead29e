-- ===== src/Login/Carry.antt =====
-- A session that a call has changed, keeping its handle, is found again by the next call.
use pst_boitier_pki.Common.{
  ℕ, ◌≡◌, refl, false, some, inl, inr, arith, ap, ◌∙◌, fun_ext, update, update-eq, update-ne,
  Bool-cases, Option-cases, ◌==◌, eq_of_==, Bool, find_index, update-update,
}
use pst_boitier_pki.Hsm.State.{HsmContext, HsmSlot, HsmSession, hsm_max_sessions}
use pst_boitier_pki.Hsm.Focus.{focus, holding}
use pst_boitier_pki.Hsm.Invariant.{IsReady}
use pst_boitier_pki.Session.{is_session, find_in_slot}
use pst_boitier_pki.Session.Table.{get_session-ready}
use pst_boitier_pki.Login.Refine.{Leads}

pub find_in_slot-Leads :
    (handle i : ℕ) (x : HsmSession) (g : HsmContext)
    → IsReady g
    → Leads handle i x g
    → find_in_slot handle (g.slots 0) ≡ some i
find_in_slot-Leads handle i x g r l = elim (Option-cases (find_in_slot handle (g.slots 0))) [
  | inl e ↦ absurd (ground (arith, e, get_session-ready handle g r, l.found))
  | inr (j, e) ↦ ground (arith, e, get_session-ready handle g r, l.found)
]

is_session-holding :
    (handle i : ℕ) (x y : HsmSession) (a : HsmSlot) (g : HsmContext)
    → (g.slots 0).sessions i ≡ some x
    → y.handle ≡ x.handle
    → is_session handle (holding g i y a) ≡ is_session handle (g.slots 0)
is_session-holding handle i x y a g e same = fun_ext λ j. elim (Bool-cases (j == i)) [
  | inl q ↦ ground (
    arith,
    eq_of_== j i q,
    ap (update (g.slots 0).sessions i (some y)) (eq_of_== j i q),
    ap (g.slots 0).sessions (eq_of_== j i q),
    update-eq (g.slots 0).sessions i (some y),
    e,
    same,
  )
  | inr q ↦ rw (update-ne (g.slots 0).sessions i (some y) j (λ p. ground arith), is_session) refl
]

pub focus-IsReady :
    (i : ℕ) (y : HsmSession) (g : HsmContext) → IsReady g → IsReady (focus g i y (g.slots 0))
focus-IsReady i y g r = record {
  initialized = r.initialized;
  slot_count = r.slot_count;
  slots_len = r.slots_len;
  free = ap (λ (t : HsmSlot). t.lock) (update-eq g.slots 0 (holding g i y (g.slots 0))) ∙ r.free;
}

pub focus-Leads :
    (handle i : ℕ) (x y : HsmSession) (g : HsmContext)
    → IsReady g
    → Leads handle i x g
    → y.handle ≡ x.handle
    → y.slot_id ≡ 0
    → y.lock ≡ false
    → Leads handle i y (focus g i y (g.slots 0))
focus-Leads handle i x y g r l same home free =
    let s = holding g i y (g.slots 0) in
    let at' = update-eq g.slots 0 s in
    let q : find_in_slot handle s ≡ some i =
      ap (λ (p : ℕ → Bool). find_index p hsm_max_sessions)
        (is_session-holding handle i x y (g.slots 0) g l.present same)
      ∙ find_in_slot-Leads handle i x g r l in
    record {
      found =
          get_session-ready handle (focus g i y (g.slots 0)) (focus-IsReady i y g r)
          ∙ rw (at', q) refl;
      present = rw at' (update-eq (g.slots 0).sessions i (some y));
      home = home;
      free = free;
    }

-- Two changes of the same session, one after the other, are the second.
pub focus-focus :
    (i : ℕ) (x y : HsmSession) (g : HsmContext)
    → focus (focus g i x (g.slots 0)) i y ((focus g i x (g.slots 0)).slots 0)
      ≡ focus g i y (g.slots 0)
focus-focus i x y g =
    let h = holding g i x (g.slots 0) in
    rw
      (
        update-eq g.slots 0 h,
        update-update (g.slots 0).sessions i (some x) (some y),
        update-update g.slots 0 h (holding g i y (g.slots 0)),
      )
      refl
