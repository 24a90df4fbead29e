-- ===== src/KeyPair/Table.antt =====
-- The table of objects with the pair of hsm/src/pkcs11/crypto_ops.c's C_GenerateKeyPair in it.
use pst_boitier_pki.Common.{
  ℕ, ◌+◌, ◌%◌, ◌^◌, ◌≡◌, ◌≢◌, ◌<◌, false, none, some, inl, inr, arith, ap, ◌∙◌, sym, update,
  update-eq, update-ne, find_from_complete, ==_ne, Option-cases, subst, update-some_cases,
}
use pst_boitier_pki.Hsm.State.{HsmSlot, HsmObject, hsm_max_objects}
use pst_boitier_pki.Objects.{find_object, is_object}
use pst_boitier_pki.Objects.Table.{ObjectsOk, slot_placed, placed-ObjectsOk}
use pst_boitier_pki.SignCalls.Refine.{object_of}
use pst_boitier_pki.KeyPair.Places.{Places}

-- The slot with the pair in entries `p` and `q`.
abbrev pub slot_paired : HsmSlot → (p q : ℕ) → HsmObject → HsmObject → HsmSlot
slot_paired s p q x y = record s {
  objects = update (update s.objects p (some x)) q (some y);
  object_count = (s.object_count + 2) % 2 ^ 32;
  lock = false;
}

-- Where only one entry has a handle, the handle leads to it.
object_of-at :
    (s : HsmSlot) (i : ℕ) (x : HsmObject)
    → i < hsm_max_objects
    → s.objects i ≡ some x
    → ((j : ℕ) (y : HsmObject) → j ≢ i → s.objects j ≡ some y → y.handle ≢ x.handle)
    → object_of x.handle s ≡ some x
object_of-at s i x inside e alone =
    let found : find_object x.handle s ≡ some i =
      find_from_complete (is_object x.handle s) hsm_max_objects 0 i (record {
        from = omega arith;
        below = omega arith;
        hit = ground (arith, e);
        first = λ j a b. elim (Option-cases (s.objects j)) [
          | inl q ↦ ground (arith, q)
          | inr (y, q) ↦
              ground (
                arith,
                q,
                ==_ne y.handle x.handle (alone j y (λ w. absurd (omega (arith, w, b))) q),
              )
        ];
      }) in
    ground (arith, found, e)

module _ (s : HsmSlot) (c p q : ℕ) (x y : HsmObject) where
  pub pair-ObjectsOk :
      ObjectsOk c s
      → c + 2 < 2 ^ 28
      → Places s.objects hsm_max_objects 0 p q
      → x.handle % 2 ^ 28 ≡ c
      → y.handle % 2 ^ 28 ≡ c + 1
      → ObjectsOk (((c + 1) % 2 ^ 32 + 1) % 2 ^ 32) (slot_paired s p q x y)
  pair-ObjectsOk ok small f hx hy =
      let one : (c + 1) % 2 ^ 32 ≡ c + 1 = omega arith in
      let ok1 : ObjectsOk (c + 1) (slot_placed s p x) =
        subst (λ (n : ℕ). ObjectsOk n (slot_placed s p x)) one
          (placed-ObjectsOk c p s x ok (omega arith) (omega (arith, f.order, f.below)) f.first
            hx) in
      let empty : update s.objects p (some x) q ≡ none =
        update-ne s.objects p (some x) q (λ e. absurd (omega (arith, e, f.order))) ∙ f.second in
      let ok2 =
        placed-ObjectsOk (c + 1) q (slot_placed s p x) y ok1 (omega arith) (omega (arith, f.below))
          empty hy in
      record {
        counted = omega (arith, ok2.counted);
        below = λ i z e. omega (arith, ok2.below i z e);
        distinct = ok2.distinct;
      }

  -- Each of the two handles leads to its object.
  pub pair-object_of :
      ObjectsOk c s
      → c + 2 < 2 ^ 28
      → Places s.objects hsm_max_objects 0 p q
      → x.handle % 2 ^ 28 ≡ c
      → y.handle % 2 ^ 28 ≡ c + 1
      → (object_of x.handle (slot_paired s p q x y) ≡ some x)
        × (object_of y.handle (slot_paired s p q x y) ≡ some y)
  pair-object_of ok small f hx hy =
      let t = slot_paired s p q x y in
      let apart : q ≢ p = λ e. absurd (omega (arith, e, f.order)) in
      let at_p : t.objects p ≡ some x =
        update-ne (update s.objects p (some x)) q (some y) p (λ e. apart (sym e))
        ∙ update-eq s.objects p (some x) in
      let at_q : t.objects q ≡ some y = update-eq (update s.objects p (some x)) q (some y) in
      (
        object_of-at t p x (omega (arith, f.order, f.below)) at_p λ j z ne e w.
            elim (update-some_cases (update s.objects p (some x)) q y j e) [
              | inl (_, v) ↦
                  absurd (omega (arith, hx, hy, w, ap (λ (o : HsmObject). o.handle % 2 ^ 28) v))
              | inr (_, v) ↦ elim (update-some_cases s.objects p x j v) [
                | inl (a, _) ↦ absurd (ne a)
                | inr (_, u) ↦ absurd (omega (arith, hx, ok.below j z u, w))
              ]
            ],
        object_of-at t q y (omega (arith, f.below)) at_q λ j z ne e w.
            elim (update-some_cases (update s.objects p (some x)) q y j e) [
              | inl (a, _) ↦ absurd (ne a)
              | inr (_, v) ↦ elim (update-some_cases s.objects p x j v) [
                | inl (_, u) ↦
                    absurd (omega (arith, hx, hy, w, ap (λ (o : HsmObject). o.handle % 2 ^ 28) u))
                | inr (_, u) ↦ absurd (omega (arith, hy, ok.below j z u, w))
              ]
            ],
      )
