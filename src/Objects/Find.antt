-- ===== src/Objects/Find.antt =====
-- C_FindObjectsInit and C_FindObjects of hsm/src/pkcs11/objects.c.
use pst_boitier_pki.Common.{window, ℕ, ◌-◌, ◌≡◌, ◌<◌, ◌≤◌, true, false, take, drop, arith, ap, ◌∙◌}
use pst_boitier_pki.Cryptoki.{ckr_ok}
use pst_boitier_pki.Hsm.State.{HsmContext, HsmSession, hsm_max_objects, hsm_max_find_objects}
use pst_boitier_pki.Hsm.Cmd.{done}
use pst_boitier_pki.Hsm.Focus.{
  focus, read_slot-focus, read_session-focus, write_session-focus, unlock_session-focus,
}
use pst_boitier_pki.Hsm.Invariant.{IsReady}
use pst_boitier_pki.Login.Refine.{Leads, lock_session-start}
use pst_boitier_pki.Objects.{c_find_objects_init, c_find_objects}
use pst_boitier_pki.Objects.Results.{
  handles, remains, found, taken, find_objects-found, take_results-taken, taken-remains,
  window-take,
}

-- The session after a C_FindObjectsInit, and after a C_FindObjects, that returns CKR_OK.
abbrev pub searching : HsmContext → HsmSession → HsmSession
searching g x = record (found (g.slots 0).objects (record x { lock = true })) {
  find_active = true;
  find_index = 0;
  lock = false;
}

abbrev pub advanced : (max_count : ℕ) → HsmSession → HsmSession
advanced max_count x = record (taken max_count (record x { lock = true })).1 { lock = false }

module _ (handle i : ℕ) (x : HsmSession) (g : HsmContext) (r : IsReady g)
    (l : Leads handle i x g) where
  pub init-searching :
      x.find_active ≡ false
      → c_find_objects_init handle g ≡ done ckr_ok (focus g i (searching g x) (g.slots 0))
  unfolding c_find_objects_init
  init-searching idle =
      let has : 0 < g.slots_len = omega (arith, r.slots_len) in
      let s = g.slots 0 in
      let y = record x { lock = true } in
      let y' = record (found s.objects y) { find_active = true; find_index = 0 } in
      ground (
        arith,
        l.found,
        l.home,
        idle,
        find_objects-found s.objects y,
        lock_session-start g i has x l.present l.free,
        read_session-focus g i has y s,
        read_slot-focus g i has y s,
        write_session-focus g i has y s y',
        unlock_session-focus g i has y' s,
      )

  -- The library is running with one slot whose lock is free, and the handle leads to a session
  -- whose lock is free. Then C_FindObjectsInit, with no search under way on the session, returns
  -- CKR_OK, gives the lock of the session back and changes only that session; the search then has
  -- the handles of the objects of the slot to give, in the order of the table, cut after 100.
  pub find_objects_init-remains :
      x.find_active ≡ false
      → (c_find_objects_init handle g ≡ done ckr_ok (focus g i (searching g x) (g.slots 0)))
        × (remains (searching g x) ≡ take 100 (handles (g.slots 0).objects hsm_max_objects 0))
        × ((searching g x).find_count ≤ hsm_max_find_objects)
  find_objects_init-remains idle =
      let y = record x { lock = true } in
      let z = found (g.slots 0).objects y in
      let (w, le) = window-take (g.slots 0).objects y in
      let all : z.find_count - 0 ≡ z.find_count = omega arith in
      (init-searching idle, ap (window z.find_results 0) all ∙ w, le)

  -- The library is running with one slot whose lock is free, and the handle leads to a session
  -- whose lock is free. Then C_FindObjects, with a search of at most 100 results under way and
  -- room for `max_count` handles, returns CKR_OK with the first `max_count` of the handles that
  -- the search has still to give, all if there are fewer; it gives the lock of the session back,
  -- changes only that session, and the search then has the others to give.
  pub find_objects-remains :
      (max_count : ℕ)
      → x.find_active ≡ true
      → x.find_count ≤ hsm_max_find_objects
      → (c_find_objects true max_count handle g
          ≡ done
              (ckr_ok, take max_count (remains x))
              (focus g i (advanced max_count x) (g.slots 0)))
        × (remains (advanced max_count x) ≡ drop max_count (remains x))
  unfolding c_find_objects
  find_objects-remains max_count active le =
      let has : 0 < g.slots_len = omega (arith, r.slots_len) in
      let s = g.slots 0 in
      let y = record x { lock = true } in
      let y' = (taken max_count y).1 in
      let (got, left, same) = taken-remains max_count y le in
      (
        ground (
          arith,
          l.found,
          active,
          take_results-taken max_count y le,
          lock_session-start g i has x l.present l.free,
          read_session-focus g i has y s,
          write_session-focus g i has y s y',
          unlock_session-focus g i has y' s,
          got,
        ),
        left,
      )
