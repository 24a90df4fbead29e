-- ===== src/Calls/InfoReturns.antt =====
-- The calls that only tell the state, C_GetSessionInfo of hsm/src/pkcs11/session.c and C_GetSlotList,
-- C_GetSlotInfo and C_GetTokenInfo of pkcs11_impl.c, return, and leave the state as it was.
use pst_boitier_pki.Common.{
  if◌then◌else◌, [], ◌∷◌, Bool, ℕ, zero, suc, ◌+◌, ◌≡◌, ◌<◌, ◌≤◌, refl, true, false, Bytes, List,
  arith, ap, ◌∙◌, inl, inr, Bool-cases, leb,
}
use pst_boitier_pki.TokenInfo.{c_get_token_info}
use pst_boitier_pki.TokenInfo.Label.{memory-ends}
use pst_boitier_pki.Cryptoki.{cku_user}
use pst_boitier_pki.Hsm.State.{HsmContext}
use pst_boitier_pki.Hsm.Cmd.{done}
use pst_boitier_pki.Hsm.Slots.{read_slot-done}
use pst_boitier_pki.Hsm.Focus.{read_session-focus, unlock_session-focus}
use pst_boitier_pki.Login.{c_get_session_info}
use pst_boitier_pki.Login.Refine.{lock_session-start, focus-back}
use pst_boitier_pki.Info.{c_get_slot_list, c_get_slot_info, fill_slots, count_slots}
use pst_boitier_pki.OpenSsl.{OpenSsl}
use pst_boitier_pki.Calls.{run, get_session_info, get_slot_list, get_token_info, get_slot_info}
use pst_boitier_pki.Calls.Keep.{absent, present, lookup}
use pst_boitier_pki.Calls.Sound.{IsSound}
use pst_boitier_pki.Calls.Returns.{Returns, unchanged}

module _ (sha256 : Bytes → Bytes) (o : OpenSsl) (g : HsmContext) (sound : IsSound g) where
  pub get_session_info-Returns : (handle : ℕ) → Returns sha256 o (get_session_info handle) g
  unfolding c_get_session_info
  get_session_info-Returns handle = elim (lookup handle g sound.well) [
    | absent e q ↦ unchanged sha256 o g sound (get_session_info handle) (ground (arith, q))
    | present i x e inside l ↦
        let has : 0 < g.slots_len = omega (arith, sound.well.ready.slots_len) in
        let y = record x { lock = true } in
        unchanged sha256 o g sound (get_session_info handle) (
          ground (
            arith,
            l.found,
            lock_session-start g i has x l.present l.free,
            read_session-focus g i has y (g.slots 0),
            unlock_session-focus g i has y (g.slots 0),
            focus-back g i has x l.present l.free,
          ))
  ]

  pub get_slot_info-Returns : (slot_id : ℕ) → Returns sha256 o (get_slot_info slot_id) g
  unfolding c_get_slot_info
  get_slot_info-Returns slot_id = elim (Bool-cases (leb g.slot_count slot_id)) [
    | inl e ↦
        unchanged sha256 o g sound (get_slot_info slot_id)
          (ground (arith, e, sound.well.ready.initialized))
    | inr e ↦
        let inside : slot_id < g.slots_len =
          ground (arith, e, sound.well.ready.slot_count, sound.well.ready.slots_len) in
        unchanged sha256 o g sound (get_slot_info slot_id)
          (ground (arith, e, sound.well.ready.initialized, read_slot-done slot_id g inside))
  ]

  -- The two loops over the slots read inside the array.
  counts : (n i c : ℕ) → i + n ≤ g.slots_len → (k : ℕ) × (count_slots n i c g ≡ done k g)
  unfolding count_slots
  counts zero i c le = (c, refl)
  counts (suc n) i c le =
      let (k, e) =
        counts n (suc i) (if (g.slots i).token_present then c + 1 else c) (omega arith) in
      (k, rw (read_slot-done i g (omega arith)) e)

  fills :
      (tokens : Bool) (n i room : ℕ)
      → i + n ≤ g.slots_len
      → (xs : List ℕ) × (fill_slots tokens n i room g ≡ done xs g)
  unfolding fill_slots
  fills tokens zero i room le = ([], refl)
  fills tokens (suc n) i zero le = ([], refl)
  fills false (suc n) i (suc room) le =
      let (xs, e) = fills false n (suc i) room (omega arith) in (i ∷ xs, rw e refl)
  fills true (suc n) i (suc room) le = elim (Bool-cases ((g.slots i).token_present)) [
    | inl t ↦
        let (xs, e) = fills true n (suc i) room (omega arith) in
        (i ∷ xs, rw (read_slot-done i g (omega arith), t, e) refl)
    | inr t ↦
        let (xs, e) = fills true n (suc i) (suc room) (omega arith) in
        (xs, rw (read_slot-done i g (omega arith), t) e)
  ]

  pub get_slot_list-Returns :
      (tokens given : Bool) (count : ℕ) → Returns sha256 o (get_slot_list tokens given count) g
  unfolding c_get_slot_list
  get_slot_list-Returns false given count =
      let r = sound.well.ready in
      let (xs, f) =
        fills false g.slot_count 0 g.slot_count (omega (arith, r.slot_count, r.slots_len)) in
      unchanged sha256 o g sound (get_slot_list false given count)
        (ground (arith, f, r.initialized))
  get_slot_list-Returns true given count =
      let r = sound.well.ready in
      let inside : 0 + g.slot_count ≤ g.slots_len = omega (arith, r.slot_count, r.slots_len) in
      let (k, e) = counts g.slot_count 0 0 inside in
      let (xs, f) = fills true g.slot_count 0 k inside in
      unchanged sha256 o g sound (get_slot_list true given count)
        (ground (arith, e, f, r.initialized))

  pub get_token_info-Returns :
      (unavailable now slot_id : ℕ) → Returns sha256 o (get_token_info unavailable now slot_id) g
  unfolding c_get_token_info
  get_token_info-Returns unavailable now slot_id = elim (Bool-cases (leb g.slot_count slot_id)) [
    | inl e ↦
        unchanged sha256 o g sound (get_token_info unavailable now slot_id)
          (ground (arith, e, sound.well.ready.initialized))
    | inr e ↦
        let r = sound.well.ready in
        let first : slot_id ≡ 0 = ground (arith, e, r.slot_count) in
        let left = (sound.guarded cku_user).bounded in
        let (n, q) = memory-ends (g.slots 0).token (omega (arith, left)) in
        let begin : run sha256 o (get_token_info unavailable now slot_id) g
            ≡ run sha256 o (get_token_info unavailable now 0) g =
          ap (λ (k : ℕ). run sha256 o (get_token_info unavailable now k) g) first in
        unchanged sha256 o g sound (get_token_info unavailable now slot_id) (
          begin
          ∙ ground (
            arith,
            r.initialized,
            r.slot_count,
            read_slot-done 0 g (omega (arith, r.slots_len)),
            q,
          ))
  ]
