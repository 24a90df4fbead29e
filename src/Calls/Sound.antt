-- ===== src/Calls/Sound.antt =====
-- The invariant of the whole library between two calls: sessions, objects and their arrays.
use pst_boitier_pki.Common.{ℕ, ◌≡◌, ◌<◌, refl, false, some, ap, ◌∙◌, sym, update-eq, subst, Option}
use pst_boitier_pki.Hsm.State.{
  mutex_free, HsmContext, HsmSlot, HsmSession, HsmObject, Disk, hsm_max_sessions,
}
use pst_boitier_pki.Hsm.Focus.{focus, holding}
use pst_boitier_pki.Hsm.Invariant.{IsWell}
use pst_boitier_pki.Attributes.Safe.{IsShaped}
use pst_boitier_pki.Pin.Guard.{AllGuarded}
use pst_boitier_pki.Login.State.{AllCoherent, focus-AllCoherent}
use pst_boitier_pki.Objects.Table.{ObjectsOk}
use pst_boitier_pki.Calls.Keep.{Keeps, focus-IsWell}

-- The arrays of every object have their shape.
abbrev pub AllShaped : (ℕ → Option HsmObject) → Type 0
AllShaped objects = (i : ℕ) (o : HsmObject) → objects i ≡ some o → IsShaped o

pub record IsSound (g : HsmContext) : Type 0 where
  pub well : IsWell g
  pub coherent : AllCoherent g
  pub objects : ObjectsOk g.object_counter (g.slots 0)
  pub shaped : AllShaped (g.slots 0).objects
  pub free : g.global_lock ≡ mutex_free
  pub guarded : AllGuarded (g.slots 0).token

-- Slots with the same objects.
ObjectsOk-same :
    (counter : ℕ) (s t : HsmSlot)
    → t.objects ≡ s.objects
    → t.object_count ≡ s.object_count
    → ObjectsOk counter s
    → ObjectsOk counter t
ObjectsOk-same counter s t e c ok =
    let back : (i : ℕ) (o : HsmObject) → t.objects i ≡ some o → s.objects i ≡ some o =
      λ i o p. ap (λ (f : ℕ → Option HsmObject). f i) (sym e) ∙ p in
    record {
      counted = c ∙ rw e ok.counted;
      below = λ i o p. ok.below i o (back i o p);
      distinct = λ i j x y p q. ok.distinct i j x y (back i x p) (back j y q);
    }

-- A state that differs from a sound one, but not in its objects.
pub same_objects :
    (g h : HsmContext)
    → IsSound g
    → IsWell h
    → AllCoherent h
    → (h.slots 0).objects ≡ (g.slots 0).objects
    → (h.slots 0).object_count ≡ (g.slots 0).object_count
    → h.object_counter ≡ g.object_counter
    → h.global_lock ≡ g.global_lock
    → AllGuarded (h.slots 0).token
    → IsSound h
same_objects g h s w c e n k lock guarded = record {
  well = w;
  coherent = c;
  objects =
      subst (λ (m : ℕ). ObjectsOk m (h.slots 0)) (sym k)
        (ObjectsOk-same g.object_counter (g.slots 0) (h.slots 0) e n s.objects);
  shaped = λ i o p. s.shaped i o (ap (λ (f : ℕ → Option HsmObject). f i) (sym e) ∙ p);
  free = lock ∙ s.free;
  guarded = guarded;
}

pub disk-IsSound : (d : Disk) (g : HsmContext) → IsSound g → IsSound (record g { disk = d })
disk-IsSound d g s = record {
  well = record {
    ready = record {
      initialized = s.well.ready.initialized;
      slot_count = s.well.ready.slot_count;
      slots_len = s.well.ready.slots_len;
      free = s.well.ready.free;
    };
    sessions = s.well.sessions;
  };
  coherent = s.coherent;
  objects = s.objects;
  shaped = s.shaped;
  free = s.free;
  guarded = s.guarded;
}

-- A session changes, keeping what the table depends on, and with it the slot but for its objects.
pub focus-IsSound :
    (g : HsmContext) (s : IsSound g) (i : ℕ) (x y : HsmSession) (a : HsmSlot)
    → i < hsm_max_sessions
    → (g.slots 0).sessions i ≡ some x
    → Keeps x y
    → a.session_count ≡ (g.slots 0).session_count
    → a.lock ≡ false
    → a.objects ≡ (g.slots 0).objects
    → a.object_count ≡ (g.slots 0).object_count
    → AllGuarded a.token
    → IsSound (focus g i y a)
focus-IsSound g s i x y a inside e k count free objects number guarded =
    let at' = update-eq g.slots 0 (holding g i y a) in
    same_objects g (focus g i y a) s (focus-IsWell g s.well i x y a inside e k count free)
      (focus-AllCoherent g i y a s.coherent (k.coherent (s.coherent i x e)))
      (ap (λ (t : HsmSlot). t.objects) at' ∙ objects)
      (ap (λ (t : HsmSlot). t.object_count) at' ∙ number) refl refl
      (subst (λ (t : HsmSlot). AllGuarded t.token) (sym at') guarded)
