-- ===== src/Info/SlotList.antt =====
-- C_GetSlotList of hsm/src/pkcs11/pkcs11_impl.c.
use pst_boitier_pki.Common.{
  ℕ, zero, suc, ◌+◌, ◌≡◌, ◌<◌, ◌≤◌, refl, Bool, true, false, none, some, List, [], ◌∷◌, length,
  arith, ap, ◌∙◌, inl, inr, Bool-cases, if◌then◌else◌, not, ◌||◌,
}
use pst_boitier_pki.Cryptoki.{ckr_ok, ckr_buffer_too_small}
use pst_boitier_pki.Hsm.State.{HsmContext}
use pst_boitier_pki.Hsm.Cmd.{done}
use pst_boitier_pki.Hsm.Slots.{read_slot-done}
use pst_boitier_pki.Info.{count_slots, fill_slots, c_get_slot_list}

-- The slots that are asked for, among `n` from slot `i`.
unfoldable pub slot_ids : (token_present : Bool) → HsmContext → (n i : ℕ) → List ℕ
slot_ids token_present g zero i = []
slot_ids token_present g (suc n) i =
    let rest = slot_ids token_present g n (suc i) in
    if not token_present || (g.slots i).token_present then i ∷ rest else rest

nil_of_length : (xs : List ℕ) → length xs ≤ 0 → [] ≡ xs
nil_of_length [] le = refl
nil_of_length (x ∷ xs) le = absurd (omega arith)

module _ (g : HsmContext) where
  count_slots-length :
      (n i c : ℕ)
      → i + n ≤ g.slots_len
      → count_slots n i c g ≡ done (c + length (slot_ids true g n i)) g
  unfolding count_slots slot_ids
  count_slots-length zero i c le = ap (λ (k : ℕ). done k g) (omega arith)
  count_slots-length (suc n) i c le = elim (Bool-cases ((g.slots i).token_present)) [
    | inl e ↦
        let step = count_slots-length n (suc i) (c + 1) (omega arith) in
        ground (arith, read_slot-done i g (omega arith), e, step)
    | inr e ↦
        let step = count_slots-length n (suc i) c (omega arith) in
        ground (arith, read_slot-done i g (omega arith), e, step)
  ]

  all-length : (n i : ℕ) → length (slot_ids false g n i) ≡ n
  unfolding slot_ids
  all-length zero i = refl
  all-length (suc n) i = ap suc (all-length n (suc i))

  fill_slots-all :
      (n i room : ℕ) → n ≤ room → fill_slots false n i room g ≡ done (slot_ids false g n i) g
  unfolding fill_slots slot_ids
  fill_slots-all zero i room le = refl
  fill_slots-all (suc n) i zero le = absurd (omega arith)
  fill_slots-all (suc n) i (suc room) le =
      ground (arith, fill_slots-all n (suc i) room (omega arith))

  fill_slots-present :
      (n i room : ℕ)
      → i + n ≤ g.slots_len
      → length (slot_ids true g n i) ≤ room
      → fill_slots true n i room g ≡ done (slot_ids true g n i) g
  unfolding fill_slots slot_ids
  fill_slots-present zero i room inside le = refl
  fill_slots-present (suc n) i zero inside le =
      ap (λ (xs : List ℕ). done xs g) (nil_of_length (slot_ids true g (suc n) i) le)
  fill_slots-present (suc n) i (suc room) inside le =
      elim (Bool-cases ((g.slots i).token_present)) [
        | inl e ↦ ground (
          arith,
          e,
          le,
          read_slot-done i g (omega arith),
          fill_slots-present n (suc i) room (omega arith) (ground (arith, e, le)),
        )
        | inr e ↦ ground (
          arith,
          e,
          le,
          read_slot-done i g (omega arith),
          fill_slots-present n (suc i) (suc room) (omega arith) (ground (arith, e, le)),
        )
      ]

-- The library is running, and its slots are all in the allocation. For slots with a token or for all
-- slots, C_GetSlotList with a NULL list returns CKR_OK and the number of these slots; with a list that
-- has room for that many or more it returns CKR_OK, writes exactly these slots in order, and gives
-- their number; with room for fewer it returns CKR_BUFFER_TOO_SMALL and their number. The state is as
-- it was.
pub get_slot_list-slot_ids :
    (token_present : Bool) (more given less : ℕ) (g : HsmContext)
    → g.initialized ≡ true
    → g.slot_count ≤ g.slots_len
    → less < length (slot_ids token_present g g.slot_count 0)
    → let ids = slot_ids token_present g g.slot_count 0 in
      (c_get_slot_list token_present false (some given) g ≡ done (ckr_ok, none, length ids) g)
      × (c_get_slot_list token_present true (some (length ids + more)) g
          ≡ done (ckr_ok, some ids, length ids) g)
      × (c_get_slot_list token_present true (some less) g
          ≡ done (ckr_buffer_too_small, none, length ids) g)
unfolding c_get_slot_list
get_slot_list-slot_ids true more given less g on inside few =
    let count : count_slots g.slot_count 0 0 g ≡ done (length (slot_ids true g g.slot_count 0)) g =
      count_slots-length g g.slot_count 0 0 (omega arith)
      ∙ ap (λ (k : ℕ). done k g) (omega arith) in
    let fill =
      fill_slots-present g g.slot_count 0 (length (slot_ids true g g.slot_count 0)) (omega arith)
        (omega arith) in
    (ground (arith, on, count), ground (arith, on, count, fill), ground (arith, on, count, few))
get_slot_list-slot_ids false more given less g on inside few =
    let all = all-length g g.slot_count 0 in
    let fill = fill_slots-all g g.slot_count 0 g.slot_count (omega arith) in
    (ground (arith, on, all), ground (arith, on, all, fill), ground (arith, on, all, few))
