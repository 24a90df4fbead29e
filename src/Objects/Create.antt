-- ===== src/Objects/Create.antt =====
-- hsm_create_object of hsm/src/pkcs11/objects.c.
use pst_boitier_pki.Common.{
  ℕ, ◌+◌, ◌%◌, ◌^◌, ◌≡◌, ◌≢◌, ◌<◌, true, false, none, some, List, ◌==◌, inl, inr, arith, ap, ◌∙◌,
  sym, update-eq, update-ne, is_none, find_index, find_from-First, is_none-none, find_from_complete,
  find_free, ==_ne, Option-cases,
}
use pst_boitier_pki.Cryptoki.{ckr_ok}
use pst_boitier_pki.Hsm.State.{HsmContext, HsmSlot, HsmObject, hsm_max_objects}
use pst_boitier_pki.Hsm.Cmd.{done, put_slot}
use pst_boitier_pki.Hsm.Slots.{read_slot-put, write_slot-put, lock_slot-done, unlock_slot-put}
use pst_boitier_pki.Hsm.Invariant.{IsReady}
use pst_boitier_pki.Storage.{hsm_storage_save_object}
use pst_boitier_pki.Attributes.{CkAttribute, hsm_parse_template}
use pst_boitier_pki.Objects.{
  handle_base, hsm_generate_object_handle, is_object, find_object, hsm_get_object, blank_object,
  place_object, hsm_create_object,
}
use pst_boitier_pki.Objects.Table.{ObjectsOk, slot_placed, placed-ObjectsOk}

-- The object with its handle and its times, and what saving it makes of it and of the disk.
abbrev pub numbered : (now counter : ℕ) → HsmObject → HsmObject
numbered now counter o = record o {
  handle = handle_base o.type + counter;
  created = now;
  modified = now;
  ref_count = 1;
}

abbrev pub stored : (now : ℕ) → HsmObject → HsmContext → HsmObject
stored now o g = (hsm_storage_save_object (numbered now g.object_counter o) g.disk).1

-- The state with the object in entry `idx`.
abbrev pub placed : (now idx : ℕ) → HsmObject → HsmContext → HsmContext
placed now idx o g = put_slot 0 (slot_placed (g.slots 0) idx (stored now o g)) (record g {
  object_counter = (g.object_counter + 1) % 2 ^ 32;
  disk = (hsm_storage_save_object (numbered now g.object_counter o) g.disk).2;
})

place_object-put :
    (now idx : ℕ) (o : HsmObject) (g : HsmContext)
    → 0 < g.slots_len
    → place_object now 0 (some idx) o (put_slot 0 (record (g.slots 0) { lock = true }) g)
      ≡ done (ckr_ok, some (handle_base o.type + g.object_counter)) (placed now idx o g)
unfolding place_object hsm_generate_object_handle
place_object-put now idx o g has =
    let l = record (g.slots 0) { lock = true } in
    let h = record g {
      object_counter = (g.object_counter + 1) % 2 ^ 32;
      disk = (hsm_storage_save_object (numbered now g.object_counter o) g.disk).2;
    } in
    let t = record (slot_placed (g.slots 0) idx (stored now o g)) { lock = true } in
    ground (arith, read_slot-put 0 l g has, write_slot-put 0 t l h, unlock_slot-put 0 t h has)

create_object-done :
    (now idx : ℕ) (template : List CkAttribute) (o : HsmObject) (g : HsmContext)
    → IsReady g
    → (g.slots 0).object_count < hsm_max_objects
    → hsm_parse_template template blank_object ≡ some o
    → find_index (λ i. is_none ((g.slots 0).objects i)) hsm_max_objects ≡ some idx
    → hsm_create_object true now 0 template g
      ≡ done (ckr_ok, some (handle_base o.type + g.object_counter)) (placed now idx o g)
unfolding hsm_create_object
create_object-done now idx template o g r room parsed e =
    let has : 0 < g.slots_len = omega (arith, r.slots_len) in
    let l = record (g.slots 0) { lock = true } in
    ground (
      arith,
      lock_slot-done 0 g has r.free,
      read_slot-put 0 l g has,
      parsed,
      e,
      place_object-put now idx o g has,
    )

stored-handle :
    (now : ℕ) (o : HsmObject) (g : HsmContext)
    → (stored now o g).handle ≡ handle_base o.type + g.object_counter
unfolding hsm_storage_save_object
stored-handle now o g = ground arith

pub base_mod : (t c : ℕ) → c < 2 ^ 28 → (handle_base t + c) % 2 ^ 28 ≡ c
base_mod t c h = ground arith

-- No object of the table has the handle of the new one.
is_object-placed :
    (s : HsmSlot) (idx : ℕ) (o : HsmObject) (j : ℕ)
    → ObjectsOk (o.handle % 2 ^ 28) s
    → j ≢ idx
    → is_object o.handle (slot_placed s idx o) j ≡ false
is_object-placed s idx o j ok ne = elim (Option-cases (s.objects j)) [
  | inl e ↦ ground (arith, update-ne s.objects idx (some o) j ne, e)
  | inr (y, e) ↦
      let b = ok.below j y e in
      let apart : (y.handle == o.handle) ≡ false =
        ==_ne y.handle o.handle (λ q. absurd (ground (arith, q, b))) in
      ground (arith, update-ne s.objects idx (some o) j ne, e, apart)
]

find_object-placed :
    (s : HsmSlot) (idx : ℕ) (o : HsmObject)
    → ObjectsOk (o.handle % 2 ^ 28) s
    → idx < hsm_max_objects
    → find_object o.handle (slot_placed s idx o) ≡ some idx
find_object-placed s idx o ok inside =
    find_from_complete (is_object o.handle (slot_placed s idx o)) hsm_max_objects 0 idx (record {
      from = omega arith;
      below = omega arith;
      hit = ground (arith, update-eq s.objects idx (some o));
      first = λ j a b. is_object-placed s idx o j ok (λ q. absurd (omega (arith, q, b)));
    })

get_object-placed :
    (now idx : ℕ) (o : HsmObject) (g : HsmContext)
    → IsReady g
    → ObjectsOk g.object_counter (g.slots 0)
    → g.object_counter < 2 ^ 28
    → idx < hsm_max_objects
    → hsm_get_object 0 (handle_base o.type + g.object_counter) (placed now idx o g)
      ≡ done (inr idx) (placed now idx o g)
unfolding hsm_get_object
get_object-placed now idx o g r ok small inside =
    let has : 0 < g.slots_len = omega (arith, r.slots_len) in
    let n = stored now o g in
    let s = slot_placed (g.slots 0) idx n in
    let e = stored-handle now o g in
    let m : n.handle % 2 ^ 28 ≡ g.object_counter =
      ap (λ (k : ℕ). k % 2 ^ 28) e ∙ base_mod o.type g.object_counter small in
    let found : find_object (handle_base o.type + g.object_counter) s ≡ some idx =
      ap (λ (k : ℕ). find_object k s) (sym e)
      ∙ find_object-placed (g.slots 0) idx n
          (record {
            counted = ok.counted;
            below = λ i y q. omega (arith, m, ok.below i y q);
            distinct = ok.distinct;
          })
          inside in
    let h = record g {
      object_counter = (g.object_counter + 1) % 2 ^ 32;
      disk = (hsm_storage_save_object (numbered now g.object_counter o) g.disk).2;
    } in
    ground (arith, r.slot_count, read_slot-put 0 s h has, found)

-- Where the object goes, and the number in its handle.
pub create_object-placed :
    (now : ℕ) (template : List CkAttribute) (o : HsmObject) (g : HsmContext)
    → IsReady g
    → ObjectsOk g.object_counter (g.slots 0)
    → g.object_counter + 1 < 2 ^ 28
    → (g.slots 0).object_count < hsm_max_objects
    → hsm_parse_template template blank_object ≡ some o
    → (idx : ℕ) × (idx < hsm_max_objects)
      × ((g.slots 0).objects idx ≡ none)
      × ((stored now o g).handle % 2 ^ 28 ≡ g.object_counter)
      × (hsm_create_object true now 0 template g
          ≡ done (ckr_ok, some (handle_base o.type + g.object_counter)) (placed now idx o g))
create_object-placed now template o g r ok small room parsed =
    let s = g.slots 0 in
    let (idx, e) = find_free hsm_max_objects s.objects (omega (arith, ok.counted)) in
    let f = find_from-First (λ i. is_none (s.objects i)) hsm_max_objects 0 e in
    (
      idx,
      omega (arith, f.below),
      is_none-none (s.objects idx) f.hit,
      ap (λ (k : ℕ). k % 2 ^ 28) (stored-handle now o g)
          ∙ base_mod o.type g.object_counter (omega arith),
      create_object-done now idx template o g r room parsed e,
    )

-- The library is running with one slot whose lock is free, and its object table is well formed:
-- the count is right, every handle holds a number below the counter, and the handles are distinct.
-- With room in the table, memory to allocate, the counter below 2^28 - 1 and a template that parses,
-- hsm_create_object returns CKR_OK; the object stands in an entry that was free; the handle returned
-- leads to that entry; and the table is still well formed.
pub create_object-get_object :
    (now : ℕ) (template : List CkAttribute) (o : HsmObject) (g : HsmContext)
    → IsReady g
    → ObjectsOk g.object_counter (g.slots 0)
    → g.object_counter + 1 < 2 ^ 28
    → (g.slots 0).object_count < hsm_max_objects
    → hsm_parse_template template blank_object ≡ some o
    → (idx : ℕ) × ((g.slots 0).objects idx ≡ none)
      × (hsm_create_object true now 0 template g
          ≡ done (ckr_ok, some (handle_base o.type + g.object_counter)) (placed now idx o g))
      × (hsm_get_object 0 (handle_base o.type + g.object_counter) (placed now idx o g)
          ≡ done (inr idx) (placed now idx o g))
      × ObjectsOk (placed now idx o g).object_counter ((placed now idx o g).slots 0)
create_object-get_object now template o g r ok small room parsed =
    let s = g.slots 0 in
    let (idx, inside, empty, m, run) =
      create_object-placed now template o g r ok small room parsed in
    let n = stored now o g in
    (
      idx,
      empty,
      run,
      get_object-placed now idx o g r ok (omega arith) inside,
      rw (update-eq g.slots 0 (slot_placed s idx n))
          (placed-ObjectsOk g.object_counter idx s n ok small inside empty m),
    )
