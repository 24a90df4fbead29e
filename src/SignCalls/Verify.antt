-- ===== src/SignCalls/Verify.antt =====
-- C_VerifyInit and C_Verify of hsm/src/pkcs11/crypto_ops.c against specifications without locks.
use pst_boitier_pki.Common.{
  ℕ, ◌≡◌, ◌<◌, Bool, true, false, none, some, Bytes, ◌==◌, if◌then◌else◌, not, ◌||◌, arith, ap, sym,
}
use pst_boitier_pki.Cryptoki.{
  CkRv, ckr_ok, is_ok, ckr_operation_active, ckr_operation_not_initialized,
  ckr_object_handle_invalid, ckr_key_type_inconsistent, ckr_function_not_supported,
}
use pst_boitier_pki.Hsm.State.{HsmContext, HsmSlot, HsmSession, op_verify, obj_type_public_key}
use pst_boitier_pki.Hsm.Cmd.{done}
use pst_boitier_pki.Hsm.Focus.{focus, read_session-focus, write_session-focus, unlock_session-focus}
use pst_boitier_pki.Hsm.Invariant.{IsReady}
use pst_boitier_pki.Login.Refine.{Leads, lock_session-start}
use pst_boitier_pki.Signing.{hsm_verify_signature}
use pst_boitier_pki.SignCalls.{is_verify, inactive, ended, begun, c_verify_init, c_verify}
use pst_boitier_pki.SignCalls.Refine.{
  object_of, look, missing, at', get_object-missing, get_object-at, read_object-at,
}

unfoldable pub verify_init_spec : (mechanism key : ℕ) → HsmSlot → HsmSession → CkRv × HsmSession
verify_init_spec mechanism key s x =
    if x.operation.active then (ckr_operation_active, x) else elim (object_of key s) [
      | none ↦ (ckr_object_handle_invalid, x)
      | some k ↦
          if not (k.type == obj_type_public_key)
          then (ckr_key_type_inconsistent, x)
          else (ckr_ok, begun op_verify mechanism key x)
    ]

unfoldable pub verify_spec : HsmSlot → HsmSession → CkRv × HsmSession
verify_spec s x =
    if not x.operation.active || not (is_verify x.operation.op)
    then (ckr_operation_not_initialized, x)
    else elim (object_of x.operation.key_handle s) [
      | none ↦ (ckr_object_handle_invalid, inactive x)
      | some k ↦ (ckr_function_not_supported, ended x)
    ]

module _ (handle i : ℕ) (x : HsmSession) (g : HsmContext) (r : IsReady g)
    (l : Leads handle i x g) where
  -- The library is running with one slot whose lock is free, and the handle leads to a session whose
  -- lock is free. Then C_VerifyInit, with a mechanism, returns with the value that `verify_init_spec`
  -- gives: it refuses while an operation is active, and wants an object of the slot that is a public
  -- key, of any mechanism, allowed to verify or not. It changes that session as `verify_init_spec`
  -- says, and nothing else. C_Verify, with data and a signature, returns with the value that
  -- `verify_spec` gives, changes that session as `verify_spec` says and nothing else; the value is
  -- never CKR_OK. Both give the lock of the session back.
  pub verify-refines :
      (mechanism key : ℕ) (data' signature : Bytes)
      → let (rv, x') = verify_init_spec mechanism key (g.slots 0) x in
        let (rv2, x2) = verify_spec (g.slots 0) x in
        (c_verify_init (some mechanism) key handle g ≡ done rv (focus g i x' (g.slots 0)))
        × (c_verify (some data') (some signature) handle g ≡ done rv2 (focus g i x2 (g.slots 0)))
        × (is_ok rv2 ≡ false)
  unfolding c_verify_init verify_init_spec c_verify verify_spec hsm_verify_signature
  verify-refines mechanism key data' signature =
      let has : 0 < g.slots_len = omega (arith, r.slots_len) in
      let s = g.slots 0 in
      let y = record x { lock = true } in
      let y' = begun op_verify mechanism key y in
      let kept = x.operation.key_handle in
      let same = ap (λ (b : Bool). record x { lock = b }) (sym l.free) in
      let start = lock_session-start g i has x l.present l.free in
      let read = read_session-focus g i has y s in
      let unlock = unlock_session-focus g i has y s in
      let end' = write_session-focus g i has y s (ended y) in
      let end2 = unlock_session-focus g i has (ended y) s in
      let off = write_session-focus g i has y s (inactive y) in
      let off2 = unlock_session-focus g i has (inactive y) s in
      (
        elim (look key s) [
          | missing e ↦ ground (
            arith,
            l.found,
            l.home,
            start,
            read,
            unlock,
            e,
            get_object-missing g i r y s key e,
            same,
          )
          | at' j k e q ↦ ground (
            arith,
            l.found,
            l.home,
            start,
            read,
            unlock,
            e,
            q,
            same,
            get_object-at g i r y s key j e,
            read_object-at g i r y s j k q,
            write_session-focus g i has y s y',
            unlock_session-focus g i has y' s,
          )
        ],
        elim (look kept s) [
          | missing e ↦ ground (
            arith,
            l.found,
            l.home,
            start,
            read,
            unlock,
            e,
            off,
            off2,
            same,
            get_object-missing g i r y s kept e,
          )
          | at' j k e q ↦ ground (
            arith,
            l.found,
            l.home,
            start,
            read,
            unlock,
            e,
            q,
            end',
            end2,
            same,
            get_object-at g i r y s kept j e,
            read_object-at g i r y s j k q,
          )
        ],
        elim (look kept s) [ missing e ↦ ground (arith, e) | at' j k e q ↦ ground (arith, e, q) ],
      )
