-- ===== src/Objects/Table.antt =====
-- The table of objects of a slot (hsm/src/pkcs11/objects.c): when it is well formed, and that adding,
-- changing and removing an object keep it so.
use pst_boitier_pki.Common.{
  ◌-◌, update-none_cases, refl, ℕ, ◌+◌, ◌%◌, ◌^◌, ◌≡◌, ◌<◌, false, none, some, inl, inr, arith, ap,
  ◌∙◌, sym, update, update-some_cases, count_used, count_used-le, count_used-update,
}
use pst_boitier_pki.Hsm.State.{HsmSlot, HsmObject, hsm_max_objects}

-- The slot with the object in entry `idx`.
abbrev pub slot_placed : HsmSlot → (idx : ℕ) → HsmObject → HsmSlot
slot_placed s idx o = record s {
  objects = update s.objects idx (some o);
  object_count = (s.object_count + 1) % 2 ^ 32;
  lock = false;
}

-- The count is right, every handle is a base and a number below the counter, and the handles are
-- distinct.
pub record ObjectsOk (counter : ℕ) (s : HsmSlot) : Type 0 where
  pub counted : s.object_count ≡ count_used hsm_max_objects s.objects
  pub below : (i : ℕ) (o : HsmObject) → s.objects i ≡ some o → o.handle % 2 ^ 28 < counter
  pub distinct :
      (i j : ℕ) (x y : HsmObject)
      → s.objects i ≡ some x
      → s.objects j ≡ some y
      → x.handle ≡ y.handle
      → i ≡ j

pub placed-ObjectsOk :
    (counter idx : ℕ) (s : HsmSlot) (o : HsmObject)
    → ObjectsOk counter s
    → counter + 1 < 2 ^ 28
    → idx < hsm_max_objects
    → s.objects idx ≡ none
    → o.handle % 2 ^ 28 ≡ counter
    → ObjectsOk ((counter + 1) % 2 ^ 32) (slot_placed s idx o)
placed-ObjectsOk counter idx s o ok small inside empty m = record {
  counted = ground (
    arith,
    ok.counted,
    empty,
    count_used-update hsm_max_objects s.objects idx (some o) inside,
    count_used-le hsm_max_objects s.objects,
  );
  below = λ i y e. elim (update-some_cases s.objects idx o i e) [
    | inl (_, q) ↦ omega (arith, m, ap (λ (z : HsmObject). z.handle % 2 ^ 28) q)
    | inr (_, q) ↦ omega (arith, ok.below i y q)
  ];
  distinct = λ i j x y e1 e2 h. elim (update-some_cases s.objects idx o i e1) [
    | inl (a, p) ↦ elim (update-some_cases s.objects idx o j e2) [
      | inl (b, _) ↦ omega (arith, a, b)
      | inr (_, q) ↦
          absurd (omega (arith, m, h, ap (λ (z : HsmObject). z.handle % 2 ^ 28) p, ok.below j y q))
    ]
    | inr (_, p) ↦ elim (update-some_cases s.objects idx o j e2) [
      | inl (_, q) ↦
          absurd (omega (arith, m, h, ap (λ (z : HsmObject). z.handle % 2 ^ 28) q, ok.below i x p))
      | inr (_, q) ↦ ok.distinct i j x y p q h
    ]
  ];
}

-- The slot with entry `idx` empty.
abbrev pub slot_removed : HsmSlot → (idx : ℕ) → HsmSlot
slot_removed s idx = record s {
  objects = update s.objects idx none;
  object_count = (s.object_count + (2 ^ 32 - 1)) % 2 ^ 32;
  lock = false;
}

module _ (counter idx : ℕ) (s : HsmSlot) (x : HsmObject) (ok : ObjectsOk counter s)
    (present : s.objects idx ≡ some x) where
  pub removed-ObjectsOk : idx < hsm_max_objects → ObjectsOk counter (slot_removed s idx)
  removed-ObjectsOk inside = record {
    counted = ground (
      arith,
      ok.counted,
      present,
      count_used-update hsm_max_objects s.objects idx none inside,
      count_used-le hsm_max_objects s.objects,
    );
    below = λ i y q. ok.below i y (update-none_cases s.objects idx i q).1;
    distinct = λ i j y z p q.
        ok.distinct i j y z (update-none_cases s.objects idx i p).1
          (update-none_cases s.objects idx j q).1;
  }

  -- What stands in the table after a change of an entry.
  changed_cases :
      (y : HsmObject)
      → y.handle ≡ x.handle
      → {i : ℕ} {z : HsmObject} → update s.objects idx (some y) i ≡ some z
      → (z' : HsmObject) × (s.objects i ≡ some z') × (z.handle ≡ z'.handle)
  changed_cases y same {i} {z} e = elim (update-some_cases s.objects idx y i e) [
    | inl (a, p) ↦ (x, ap s.objects a ∙ present, ap (λ (w : HsmObject). w.handle) (sym p) ∙ same)
    | inr (_, p) ↦ (z, p, refl)
  ]

  pub changed-ObjectsOk :
      (y : HsmObject)
      → idx < hsm_max_objects
      → y.handle ≡ x.handle
      → ObjectsOk counter (record s { objects = update s.objects idx (some y) })
  changed-ObjectsOk y inside same = record {
    counted = ground (
      arith,
      ok.counted,
      present,
      count_used-update hsm_max_objects s.objects idx (some y) inside,
    );
    below = λ i z e. let (z', p, h) = changed_cases y same e in omega (arith, h, ok.below i z' p);
    distinct = λ i j u v e1 e2 h.
        let (u', p, hu) = changed_cases y same e1 in
        let (v', q, hv) = changed_cases y same e2 in ok.distinct i j u' v' p q (sym hu ∙ h ∙ hv);
  }
