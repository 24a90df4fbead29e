-- ===== src/Calls/Added.antt =====
-- C_CreateObject and C_GenerateKeyPair on the running library: they return, and what they keep.
use pst_boitier_pki.Common.{
  ℕ, ◌<◌, ◌%◌, ◌+◌, ◌^◌, true, false, none, some, List, arith, refl, update, inl, inr, Bool-cases,
  leb,
}
use pst_boitier_pki.Cryptoki.{ckr_host_memory}
use pst_boitier_pki.Hsm.State.{HsmContext, HsmObject, Disk, hsm_max_objects}
use pst_boitier_pki.Hsm.Slots.{lock_slot-done, read_slot-put, unlock_slot-put}
use pst_boitier_pki.Storage.{hsm_storage_save_object}
use pst_boitier_pki.Attributes.{CkAttribute}
use pst_boitier_pki.Attributes.Safe.{AllRoomy, IsShaped, reshaped, parse_template-some}
use pst_boitier_pki.Objects.{hsm_create_object, blank_object, handle_base}
use pst_boitier_pki.Objects.Table.{placed-ObjectsOk}
use pst_boitier_pki.Objects.Create.{create_object-placed, stored, numbered}
use pst_boitier_pki.KeyPair.{add_pair}
use pst_boitier_pki.KeyPair.Places.{pair_cases}
use pst_boitier_pki.KeyPair.Table.{pair-ObjectsOk}
use pst_boitier_pki.KeyPair.Placed.{first_saved, second_saved, saved_handles, add_pair-done}
use pst_boitier_pki.KeyPair.Made.{blank_object-IsShaped}
use pst_boitier_pki.Calls.Keep.{released_same}
use pst_boitier_pki.Calls.Sound.{IsSound}
use pst_boitier_pki.Calls.Tables.{tabled, tabled-IsSound, AllShaped-some}
use pst_boitier_pki.Calls.Destroyed.{Sounds}

-- Saving changes no array.
save_object-IsShaped :
    (o : HsmObject) (d : Disk) → IsShaped o → IsShaped (hsm_storage_save_object o d).1
unfolding hsm_storage_save_object
save_object-IsShaped o d s =
    reshaped o (hsm_storage_save_object o d).1 s (ground arith) (ground arith) (ground arith)

-- hsm_create_object, with a buffer for every attribute of the template, returns, and the state is
-- sound after it.
pub create_object-IsSound :
    (now : ℕ) (template : List CkAttribute) (g : HsmContext)
    → IsSound g
    → AllRoomy template
    → g.object_counter + 1 < 2 ^ 28
    → Sounds (hsm_create_object true now 0 template g)
unfolding hsm_create_object
create_object-IsSound now template g sound roomy small =
    let w = sound.well in
    let s = g.slots 0 in
    elim (Bool-cases (leb hsm_max_objects s.object_count)) [
      | inl full ↦
          let has : 0 < g.slots_len = omega (arith, w.ready.slots_len) in
          let a = record s { lock = true } in
          (
            (ckr_host_memory, none),
            g,
            ground (
              arith,
              lock_slot-done 0 g has w.ready.free,
              read_slot-put 0 a g has,
              full,
              unlock_slot-put 0 a g has,
              released_same g w,
            ),
            sound,
          )
      | inr room ↦
          let (o, parsed, shaped, same) =
            parse_template-some template blank_object roomy blank_object-IsShaped in
          let (idx, inside, empty, m, run) =
            create_object-placed now template o g w.ready sound.objects small (ground arith)
              parsed in
          let n = stored now o g in
          let x = numbered now g.object_counter o in
          let d = (hsm_storage_save_object x g.disk).2 in
          let counter = (g.object_counter + 1) % 2 ^ 32 in
          let count = (s.object_count + 1) % 2 ^ 32 in
          let objects = update s.objects idx (some n) in
          let ok = placed-ObjectsOk g.object_counter idx s n sound.objects small inside empty m in
          let new = save_object-IsShaped x g.disk (reshaped o x shaped refl refl refl) in
          (
            _,
            tabled g objects count false counter d,
            run,
            tabled-IsSound g objects count false counter d sound refl ok
                (AllShaped-some s.objects idx n sound.shaped new),
          )
    ]

-- The end of C_GenerateKeyPair.
pub add_pair-IsSound :
    (x y : HsmObject) (g : HsmContext)
    → IsSound g
    → IsShaped x
    → IsShaped y
    → g.object_counter + 2 < 2 ^ 28
    → Sounds (add_pair 0 x y g)
unfolding add_pair
add_pair-IsSound x y g sound sx sy small =
    let w = sound.well in
    let s = g.slots 0 in
    elim (pair_cases s.objects hsm_max_objects 0) [
      | inr (p, i, none_free, all) ↦
          let has : 0 < g.slots_len = omega (arith, w.ready.slots_len) in
          let a = record s { lock = true } in
          (
            (ckr_host_memory, none),
            g,
            ground (
              arith,
              lock_slot-done 0 g has w.ready.free,
              read_slot-put 0 a g has,
              none_free,
              unlock_slot-put 0 a g has,
              released_same g w,
            ),
            sound,
          )
      | inl (p, q, e, f) ↦
          let c = g.object_counter in
          let x' = (first_saved x g).1 in
          let y' = (second_saved x y g).1 in
          let x1 = record x { handle = handle_base 2 + c } in
          let y1 = record y { handle = handle_base 3 + ((c + 1) % 2 ^ 32) } in
          let (hx, hy, mx, my) = saved_handles x y g small in
          let objects = update (update s.objects p (some x')) q (some y') in
          let count = (s.object_count + 2) % 2 ^ 32 in
          let counter = ((c + 1) % 2 ^ 32 + 1) % 2 ^ 32 in
          let d = (second_saved x y g).2 in
          let new_x = save_object-IsShaped x1 g.disk (reshaped x x1 sx refl refl refl) in
          let new_y =
            save_object-IsShaped y1 (first_saved x g).2 (reshaped y y1 sy refl refl refl) in
          (
            _,
            tabled g objects count false counter d,
            add_pair-done p q x y g w.ready e,
            tabled-IsSound g objects count false counter d sound refl
                (pair-ObjectsOk s c p q x' y' sound.objects small f mx my)
                (AllShaped-some (update s.objects p (some x')) q y'
                  (AllShaped-some s.objects p x' sound.shaped new_x) new_y),
          )
    ]
