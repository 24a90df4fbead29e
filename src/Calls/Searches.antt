-- ===== src/Calls/Searches.antt =====
-- The calls of hsm/src/pkcs11/objects.c on the running library: C_FindObjectsInit, C_FindObjects
-- and C_FindObjectsFinal return, and what they keep.
use pst_boitier_pki.Common.{
  ℕ, zero, suc, ◌≡◌, ◌≤◌, ◌<◌, ◌%◌, ◌+◌, ◌^◌, true, false, Option, inl, inr, arith, sym, [],
  Bool-cases, Option-cases, update, ltb,
}
use pst_boitier_pki.Cryptoki.{ckr_ok, ckr_operation_active, ckr_operation_not_initialized}
use pst_boitier_pki.Hsm.State.{
  HsmContext, HsmSession, HsmObject, hsm_max_objects, hsm_max_find_objects,
}
use pst_boitier_pki.Hsm.Cmd.{Run, done}
use pst_boitier_pki.Hsm.Focus.{focus, read_session-focus, write_session-focus, unlock_session-focus}
use pst_boitier_pki.Hsm.Invariant.{IsReady}
use pst_boitier_pki.Login.Refine.{Leads, lock_session-start}
use pst_boitier_pki.Objects.{c_find_objects_init, c_find_objects, c_find_objects_final}
use pst_boitier_pki.Objects.Results.{collected, found, taken, take_results-taken}
use pst_boitier_pki.Objects.Find.{init-searching}
use pst_boitier_pki.Calls.Keep.{kept_between, Keeps, kept}

collected-Keeps :
    (objects : ℕ → Option HsmObject) (n i : ℕ) (x : HsmSession) → Keeps x (collected objects n i x)
unfolding collected
collected-Keeps objects zero i x = kept
collected-Keeps objects (suc n) i x = elim (Bool-cases (ltb x.find_count hsm_max_find_objects)) [
  | inr full ↦ rw full kept
  | inl room ↦ elim (Option-cases (objects i)) [
    | inl e ↦ rw (room, e) (collected-Keeps objects n (suc i) x)
    | inr (o, e) ↦
        let y = record x {
          find_results = update x.find_results x.find_count o.handle;
          find_count = x.find_count + 1;
        } in
        let k = collected-Keeps objects n (suc i) y in
        rw (room, e) (kept_between (ground (arith, room)) k (ground arith) k.lock)
  ]
]

taken-Keeps : (n : ℕ) (x : HsmSession) → Keeps x (taken n x).1
unfolding taken
taken-Keeps zero x = kept
taken-Keeps (suc n) x = elim (Bool-cases (ltb x.find_index x.find_count)) [
  | inr e ↦ rw e kept
  | inl e ↦
      let k = taken-Keeps n (record x { find_index = (x.find_index + 1) % 2 ^ 32 }) in
      rw e (kept_between (ground arith) k (ground arith) k.lock)
]

-- The call ends with the session kept and nothing else changed.
abbrev pub Leaves : {A : Type 0} → HsmContext → ℕ → HsmSession → Run A → Type 0
Leaves {A} g i x c = (v : A) × (y : HsmSession) × (c ≡ done v (focus g i y (g.slots 0))) × Keeps x y

module _ (handle i : ℕ) (x : HsmSession) (g : HsmContext) (r : IsReady g)
    (l : Leads handle i x g) where
  unlocked : Keeps x (record x { lock = false })
  unlocked = ground (arith, l.free)

  pub find_objects_init-Leaves : Leaves g i x (c_find_objects_init handle g)
  unfolding c_find_objects_init found
  find_objects_init-Leaves =
      let has : 0 < g.slots_len = omega (arith, r.slots_len) in
      let s = g.slots 0 in
      let y = record x { lock = true } in
      let y' = record (found s.objects y) { find_active = true; find_index = 0 } in
      elim (Bool-cases x.find_active) [
        | inr idle ↦
            let k = collected-Keeps s.objects hsm_max_objects 0 (record y { find_count = 0 }) in
            (
              ckr_ok,
              record y' { lock = false },
              init-searching handle i x g r l idle,
              kept_between (ground arith) k (ground arith) (sym l.free),
            )
        | inl active ↦ (
          ckr_operation_active,
          record x { lock = false },
          ground (
            arith,
            l.found,
            active,
            lock_session-start g i has x l.present l.free,
            read_session-focus g i has y s,
            unlock_session-focus g i has y s,
          ),
          unlocked,
        )
      ]

  pub find_objects-Leaves :
      (max_count : ℕ)
      → x.find_count ≤ hsm_max_find_objects
      → Leaves g i x (c_find_objects true max_count handle g)
  unfolding c_find_objects
  find_objects-Leaves max_count le =
      let has : 0 < g.slots_len = omega (arith, r.slots_len) in
      let s = g.slots 0 in
      let y = record x { lock = true } in
      let (out, y') = taken max_count y in
      let k = taken-Keeps max_count y in
      elim (Bool-cases x.find_active) [
        | inl active ↦ (
          (ckr_ok, out),
          record y' { lock = false },
          ground (
            arith,
            l.found,
            active,
            take_results-taken max_count y le,
            lock_session-start g i has x l.present l.free,
            read_session-focus g i has y s,
            write_session-focus g i has y s y',
            unlock_session-focus g i has y' s,
          ),
          kept_between (ground arith) k (ground arith) (sym l.free),
        )
        | inr idle ↦ (
          (ckr_operation_not_initialized, []),
          record x { lock = false },
          ground (
            arith,
            l.found,
            idle,
            lock_session-start g i has x l.present l.free,
            read_session-focus g i has y s,
            unlock_session-focus g i has y s,
          ),
          unlocked,
        )
      ]

  pub find_objects_final-Leaves : Leaves g i x (c_find_objects_final handle g)
  unfolding c_find_objects_final
  find_objects_final-Leaves =
      let has : 0 < g.slots_len = omega (arith, r.slots_len) in
      let s = g.slots 0 in
      let y = record x { lock = true } in
      let y' = record y { find_active = false; find_count = 0; find_index = 0 } in
      elim (Bool-cases x.find_active) [
        | inl active ↦ (
          ckr_ok,
          record y' { lock = false },
          ground (
            arith,
            l.found,
            active,
            lock_session-start g i has x l.present l.free,
            read_session-focus g i has y s,
            write_session-focus g i has y s y',
            unlock_session-focus g i has y' s,
          ),
          ground (arith, l.free),
        )
        | inr idle ↦ (
          ckr_operation_not_initialized,
          record x { lock = false },
          ground (
            arith,
            l.found,
            idle,
            lock_session-start g i has x l.present l.free,
            read_session-focus g i has y s,
            unlock_session-focus g i has y s,
          ),
          unlocked,
        )
      ]
