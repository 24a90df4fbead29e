-- ===== src/Calls/Destroyed.antt =====
-- C_DestroyObject of hsm/src/pkcs11/objects.c on the running library: it returns, and what it keeps.
use pst_boitier_pki.Common.{
  ℕ, ◌≡◌, ◌<◌, ◌%◌, ◌+◌, ◌^◌, true, false, none, arith, ap, ◌-◌, ◌∙◌, refl, if◌then◌else◌, update,
  find_from-First,
}
use pst_boitier_pki.Cryptoki.{ckr_ok, ckr_object_handle_invalid}
use pst_boitier_pki.Hsm.State.{HsmContext, hsm_max_objects}
use pst_boitier_pki.Hsm.Cmd.{Run, done}
use pst_boitier_pki.Hsm.Slots.{lock_slot-done, read_slot-put, write_slot-put, unlock_slot-put}
use pst_boitier_pki.Objects.{hsm_destroy_object, is_object}
use pst_boitier_pki.Objects.Table.{removed-ObjectsOk}
use pst_boitier_pki.Storage.{hsm_storage_delete_object}
use pst_boitier_pki.SignCalls.Refine.{look, missing, at'}
use pst_boitier_pki.Session.Create.{released}
use pst_boitier_pki.Calls.Keep.{released_same}
use pst_boitier_pki.Calls.Sound.{IsSound}
use pst_boitier_pki.Calls.Tables.{tabled, tabled-IsSound, AllShaped-none}

-- The run ends in a sound state.
abbrev pub Sounds : {A : Type 0} → Run A → Type 0
Sounds {A} r = (v : A) × (h : HsmContext) × (r ≡ done v h) × IsSound h

-- hsm_destroy_object returns, and the state is sound after it.
pub destroy_object-IsSound :
    (key : ℕ) (g : HsmContext) → IsSound g → Sounds (hsm_destroy_object 0 key g)
unfolding hsm_destroy_object
destroy_object-IsSound key g sound =
    let w = sound.well in
    let has : 0 < g.slots_len = omega (arith, w.ready.slots_len) in
    let s = g.slots 0 in
    let a = record s { lock = true } in
    let start = lock_slot-done 0 g has w.ready.free in
    elim (look key s) [
      | missing e ↦
          let ends : hsm_destroy_object 0 key g ≡ done ckr_object_handle_invalid (released g) =
            ground (arith, start, read_slot-put 0 a g has, e, unlock_slot-put 0 a g has) in
          (
            ckr_object_handle_invalid,
            g,
            ends ∙ ap (done ckr_object_handle_invalid) (released_same g w),
            sound,
          )
      | at' i o e q ↦
          let d = if o.is_token then (hsm_storage_delete_object key g.disk).1 else g.disk in
          let objects = update s.objects i none in
          let count = (s.object_count + (2 ^ 32 - 1)) % 2 ^ 32 in
          let h = record g { disk = d } in
          let t = record s { lock = true; objects = objects; object_count = count } in
          let f = find_from-First (is_object key s) hsm_max_objects 0 e in
          let ok =
            removed-ObjectsOk g.object_counter i s o sound.objects q (omega (arith, f.below)) in
          (
            ckr_ok,
            tabled g objects count false g.object_counter d,
            ground (
              arith,
              start,
              read_slot-put 0 a g has,
              e,
              q,
              write_slot-put 0 t a h,
              unlock_slot-put 0 t h has,
            ),
            tabled-IsSound g objects count false g.object_counter d sound refl ok
                (AllShaped-none s.objects i sound.shaped),
          )
    ]
