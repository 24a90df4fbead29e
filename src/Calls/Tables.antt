-- ===== src/Calls/Tables.antt =====
-- States in which a call has changed the table of objects, the counter of their handles and the disk.
use pst_boitier_pki.Pin.Guard.{AllGuarded}
use pst_boitier_pki.Common.{
  subst, ℕ, ◌≡◌, Bool, false, some, none, inl, inr, Option, ap, ◌∙◌, sym, subst, update-eq, update,
  update-some_cases, update-none_cases,
}
use pst_boitier_pki.Hsm.State.{HsmContext, HsmSlot, HsmObject, Disk}
use pst_boitier_pki.Hsm.Cmd.{put_slot}
use pst_boitier_pki.Attributes.Safe.{IsShaped}
use pst_boitier_pki.Objects.Table.{ObjectsOk}
use pst_boitier_pki.Calls.Sound.{IsSound, AllShaped}

-- The slot, and the state.
abbrev pub slot_tabled : HsmContext → (ℕ → Option HsmObject) → ℕ → Bool → HsmSlot
slot_tabled g objects count lock = record (g.slots 0) {
  objects = objects;
  object_count = count;
  lock = lock;
}

abbrev pub tabled : HsmContext → (ℕ → Option HsmObject) → ℕ → Bool → ℕ → Disk → HsmContext
tabled g objects count lock counter d =
    put_slot 0 (slot_tabled g objects count lock) (record g { object_counter = counter; disk = d })

pub tabled-IsSound :
    (g : HsmContext) (objects : ℕ → Option HsmObject) (count : ℕ) (lock : Bool) (counter : ℕ)
    (d : Disk)
    → IsSound g
    → lock ≡ false
    → ObjectsOk counter (slot_tabled g objects count lock)
    → AllShaped objects
    → IsSound (tabled g objects count lock counter d)
tabled-IsSound g objects count lock counter d s free ok shaped =
    let w = s.well in
    let t = slot_tabled g objects count lock in
    let at' = update-eq g.slots 0 t in
    record {
      well = record {
        ready = record {
          initialized = w.ready.initialized;
          slot_count = w.ready.slot_count;
          slots_len = w.ready.slots_len;
          free = ap (λ (u : HsmSlot). u.lock) at' ∙ free;
        };
        sessions = rw at' (record {
          counted = w.sessions.counted;
          below = w.sessions.below;
          distinct = w.sessions.distinct;
          home = w.sessions.home;
          free = w.sessions.free;
        });
      };
      coherent = λ i x e. s.coherent i x (ap (λ (u : HsmSlot). u.sessions i) (sym at') ∙ e);
      objects = rw at' ok;
      shaped = λ i o e. shaped i o (ap (λ (u : HsmSlot). u.objects i) (sym at') ∙ e);
      free = s.free;
      guarded = subst (λ (u : HsmSlot). AllGuarded u.token) (sym at') s.guarded;
    }

pub AllShaped-some :
    (objects : ℕ → Option HsmObject) (idx : ℕ) (o : HsmObject)
    → AllShaped objects
    → IsShaped o
    → AllShaped (update objects idx (some o))
AllShaped-some objects idx o all new i y e = elim (update-some_cases objects idx o i e) [
  | inl (_, q) ↦ subst IsShaped q new
  | inr (_, q) ↦ all i y q
]

pub AllShaped-none :
    (objects : ℕ → Option HsmObject) (idx : ℕ)
    → AllShaped objects
    → AllShaped (update objects idx none)
AllShaped-none objects idx all i y e = all i y (update-none_cases objects idx i e).1
