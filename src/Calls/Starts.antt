-- ===== src/Calls/Starts.antt =====
-- The first state after C_Initialize is sound, and opening and closing a session keep a sound state.
use pst_boitier_pki.Common.{
  ℕ, ◌≡◌, refl, none, some, inl, inr, arith, ap, ◌∙◌, sym, subst, update-eq, count_used,
  update-some_cases, update-none_cases,
}
use pst_boitier_pki.Hsm.State.{HsmContext, HsmSlot}
use pst_boitier_pki.Hsm.Invariant.{IsWell}
use pst_boitier_pki.Pin.Guard.{AllGuarded, load-AllGuarded}
use pst_boitier_pki.Storage.{hsm_storage_init}
use pst_boitier_pki.Session.{new_session}
use pst_boitier_pki.Session.Create.{opened, slot_opened}
use pst_boitier_pki.Session.Destroy.{closed, slot_closed}
use pst_boitier_pki.Login.State.{IsCoherent}
use pst_boitier_pki.Library.Start.{started, loaded_slot}
use pst_boitier_pki.Calls.Sound.{IsSound, same_objects}

pub opened-IsSound :
    (now flags idx : ℕ) (g : HsmContext)
    → IsSound g
    → IsWell (opened now flags idx g)
    → IsSound (opened now flags idx g)
opened-IsSound now flags idx g s w =
    let x = new_session g.next_session_handle 0 flags now in
    let at' = update-eq g.slots 0 (slot_opened (g.slots 0) idx x) in
    same_objects g (opened now flags idx g) s w
      (λ i y e.
        elim (update-some_cases (g.slots 0).sessions idx x i
          (ap (λ (t : HsmSlot). t.sessions i) (sym at') ∙ e)) [
            | inl (_, q) ↦ subst IsCoherent q (fresh g.next_session_handle flags now)
            | inr (_, q) ↦ s.coherent i y q
          ])
      (ap (λ (t : HsmSlot). t.objects) at') (ap (λ (t : HsmSlot). t.object_count) at') refl refl
      (subst (λ (t : HsmSlot). AllGuarded t.token) (sym at') s.guarded)
  where
    fresh : (handle flags now : ℕ) → IsCoherent (new_session handle 0 flags now)
    fresh handle flags now = ground arith

pub closed-IsSound :
    (g : HsmContext) → IsSound g → (idx : ℕ) → IsWell (closed idx g) → IsSound (closed idx g)
closed-IsSound g s idx w =
    let at' = update-eq g.slots 0 (slot_closed (g.slots 0) idx) in
    same_objects g (closed idx g) s w
      (λ i y e.
        s.coherent i y
          (update-none_cases (g.slots 0).sessions idx i
            (ap (λ (t : HsmSlot). t.sessions i) (sym at') ∙ e)).1)
      (ap (λ (t : HsmSlot). t.objects) at') (ap (λ (t : HsmSlot). t.object_count) at') refl refl
      (subst (λ (t : HsmSlot). AllGuarded t.token) (sym at') s.guarded)

-- There are no sessions and no objects.
pub started-IsSound : (g : HsmContext) → IsWell (started g) → IsSound (started g)
unfolding count_used
started-IsSound g w =
    let at' = update-eq g.slots 0 (loaded_slot (hsm_storage_init g.disk).1) in
    record {
      well = w;
      coherent = λ i x e. absurd (empty x (ap (λ (t : HsmSlot). t.sessions i) (sym at') ∙ e));
      objects = rw at' (record {
        counted = refl;
        below = λ i x e. absurd (empty x e);
        distinct = λ i j x y e. absurd (empty x e);
      });
      shaped = λ i x e. absurd (empty x (ap (λ (t : HsmSlot). t.objects i) (sym at') ∙ e));
      free = refl;
      guarded =
          subst (λ (t : HsmSlot). AllGuarded t.token) (sym at')
            (load-AllGuarded (hsm_storage_init g.disk).1);
    }
  where
    empty : {A : Type 0} (x : A) → none ≡ some x → ⊥
    empty x e = ground arith
