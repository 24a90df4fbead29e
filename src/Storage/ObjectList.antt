-- ===== src/Storage/ObjectList.antt =====
-- hsm_storage_list_objects of hsm/src/storage/storage.c. The entries of the directory come from
-- `readdir`, in its order; `read_name` is `sscanf` with "obj_%08lx.dat".
use pst_boitier_pki.Common.{
  ℕ, zero, suc, ◌+◌, ◌-◌, ◌≡◌, refl, Bool, true, false, Option, none, some, List, [], ◌∷◌, Bytes,
  length, take, memeq, ltb, arith, ap, sym, inl, inr, Bool-cases, Option-cases,
}
use pst_boitier_pki.Cryptoki.{CkRv, ckr_ok}
use pst_boitier_pki.Hsm.State.{hsm_max_objects}

-- `strncmp(name, "obj_", 4) == 0`
abbrev is_object_name : Bytes → Bool
is_object_name name = memeq (take 4 name) (b'o' ∷ b'b' ∷ b'j' ∷ b'_' ∷ [])

take_nil : (k : ℕ) → take {A = ℕ} k [] ≡ []
take_nil zero = refl
take_nil (suc k) = refl

module _ (read_name : Bytes → Option ℕ) where
  -- The loop over the directory, with `n` handles found: the handles that it finds.
  unfoldable list_objects_loop : List Bytes → ℕ → List ℕ
  list_objects_loop [] n = []
  list_objects_loop (name ∷ names) n = elim (ltb n hsm_max_objects) [
    | false ↦ []
    | true ↦ elim (is_object_name name) [
      | false ↦ list_objects_loop names n
      | true ↦ elim (read_name name) [
        | none ↦ list_objects_loop names n
        | some handle ↦ handle ∷ list_objects_loop names (n + 1)
      ]
    ]
  ]

  -- The return value, the handles found, which the caller gets where it passed an array, and their
  -- number; `none` where the directory cannot be opened.
  unfoldable hsm_storage_list_objects : Option (List Bytes) → CkRv × List ℕ × ℕ
  hsm_storage_list_objects none = (ckr_ok, [], 0)
  hsm_storage_list_objects (some names) =
      let handles = list_objects_loop names 0 in (ckr_ok, handles, length handles)

  -- The handles of all the object files of a directory.
  abbrev object_handles : List Bytes → List ℕ
  object_handles [] = []
  object_handles (name ∷ names) = elim (is_object_name name) [
    | false ↦ object_handles names
    | true ↦ elim (read_name name) [
      | none ↦ object_handles names
      | some handle ↦ handle ∷ object_handles names
    ]
  ]

  list_objects_loop-take :
      (names : List Bytes) (n : ℕ)
      → list_objects_loop names n ≡ take (hsm_max_objects - n) (object_handles names)
  unfolding list_objects_loop
  list_objects_loop-take [] n = sym (take_nil (hsm_max_objects - n))
  list_objects_loop-take (name ∷ names) n = elim (Bool-cases (ltb n hsm_max_objects)) [
    | inr full ↦
        let none_left : 1024 - n ≡ 0 = ground arith in
        ground (arith, full, ap (λ (k : ℕ). take k (object_handles (name ∷ names))) none_left)
    | inl room ↦ elim (Bool-cases (is_object_name name)) [
      | inr other ↦ ground (arith, room, other, list_objects_loop-take names n)
      | inl object ↦ elim (Option-cases (read_name name)) [
        | inl e ↦ ground (arith, room, object, e, list_objects_loop-take names n)
        | inr (h, e) ↦
            let more : 1024 - n ≡ suc (1024 - (n + 1)) = ground arith in
            ground (
              arith,
              room,
              object,
              e,
              list_objects_loop-take names (n + 1),
              ap (λ (k : ℕ). take k (h ∷ object_handles names)) more,
            )
      ]
    ]
  ]

  -- The first 1,024 of the object files of the directory are listed, in its order, and counted.
  list_objects-take :
      (names : List Bytes)
      → let handles = take hsm_max_objects (object_handles names) in
        hsm_storage_list_objects (some names) ≡ (ckr_ok, handles, length handles)
  unfolding hsm_storage_list_objects
  list_objects-take names =
      ap (λ (l : List ℕ). (ckr_ok, l, length l)) (list_objects_loop-take names 0)
