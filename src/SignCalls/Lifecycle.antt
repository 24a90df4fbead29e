-- ===== src/SignCalls/Lifecycle.antt =====
-- A signing operation of hsm/src/pkcs11/crypto_ops.c from C_SignInit to its end.
use pst_boitier_pki.Common.{ℕ, ◌≡◌, Bool, true, false, none, some, Bytes, update-eq, arith, refl}
use pst_boitier_pki.Cryptoki.{ckr_ok, ckr_operation_not_initialized}
use pst_boitier_pki.Hsm.State.{HsmContext, HsmSession, HsmObject, op_sign, obj_type_private_key}
use pst_boitier_pki.Hsm.Cmd.{done}
use pst_boitier_pki.Hsm.Focus.{focus, holding}
use pst_boitier_pki.Hsm.Invariant.{IsReady}
use pst_boitier_pki.Login.Refine.{Leads}
use pst_boitier_pki.Login.Carry.{focus-IsReady, focus-Leads, focus-focus}
use pst_boitier_pki.Mechanisms.{hsm_check_mechanism_supported}
use pst_boitier_pki.OpenSsl.{OpenSsl}
use pst_boitier_pki.Signing.{hsm_sign_data}
use pst_boitier_pki.SignCalls.{Signed, ended, begun, c_sign_init, c_sign}
use pst_boitier_pki.SignCalls.Refine.{
  object_of, sign_init_spec, sign_spec, sign_init-refines, sign-refines,
}

module _ (handle i : ℕ) (x : HsmSession) (g : HsmContext) (r : IsReady g)
    (l : Leads handle i x g) where
  sign_init-begun :
      (mechanism key : ℕ) (k : HsmObject)
      → x.operation.active ≡ false
      → object_of key (g.slots 0) ≡ some k
      → k.type ≡ obj_type_private_key
      → k.can_sign ≡ true
      → hsm_check_mechanism_supported mechanism ≡ ckr_ok
      → c_sign_init (some mechanism) key handle g
        ≡ done ckr_ok (focus g i (begun op_sign mechanism key x) (g.slots 0))
  unfolding sign_init_spec
  sign_init-begun mechanism key k idle at' private' can known =
      ground
        (arith, idle, at', private', can, known, sign_init-refines handle i x g r l mechanism key)

  module _ (o : OpenSsl) (data' : Bytes) (given : Bool) (len : ℕ) where
    -- C_Sign after a change of the session that keeps its handle.
    sign-focus :
        (y y' : HsmSession) (out : Signed)
        → y.handle ≡ x.handle
        → y.slot_id ≡ 0
        → y.lock ≡ false
        → sign_spec o data' given len (g.slots 0) y ≡ some (out, y')
        → c_sign o (some data') given (some len) handle (focus g i y (g.slots 0))
          ≡ done out (focus g i y' (g.slots 0))
    unfolding sign_spec
    sign-focus y y' out same home free e =
        let h = focus g i y (g.slots 0) in
        ground (
          arith,
          sign-refines handle i y h (focus-IsReady i y g r)
              (focus-Leads handle i x y g r l same home free) o data' given len,
          update-eq g.slots 0 (holding g i y (g.slots 0)),
          focus-focus i y y' g,
          e,
        )

    -- The library is running with one slot whose lock is free, and the handle leads to a session
    -- whose lock is free and that has no operation. With a key of the slot that is a private key and
    -- may sign, and a mechanism that hsm_check_mechanism_supported knows, C_SignInit returns CKR_OK;
    -- C_Sign after it returns the value, the length and the signature that hsm_sign_data gives with
    -- that key and that mechanism; and a further C_Sign, whatever this value was, returns
    -- CKR_OPERATION_NOT_INITIALIZED. So the operation ends also where the first C_Sign only asked for
    -- the size of the signature, or had too small a buffer.
    pub sign_init-sign :
        (mechanism key : ℕ) (k : HsmObject) (out : Signed)
        → x.operation.active ≡ false
        → object_of key (g.slots 0) ≡ some k
        → k.type ≡ obj_type_private_key
        → k.can_sign ≡ true
        → hsm_check_mechanism_supported mechanism ≡ ckr_ok
        → hsm_sign_data o k mechanism data' given len ≡ some out
        → let g1 = focus g i (begun op_sign mechanism key x) (g.slots 0) in
          let g2 = focus g i (ended (begun op_sign mechanism key x)) (g.slots 0) in
          (c_sign_init (some mechanism) key handle g ≡ done ckr_ok g1)
          × (c_sign o (some data') given (some len) handle g1 ≡ done out g2)
          × (c_sign o (some data') given (some len) handle g2
              ≡ done (ckr_operation_not_initialized, len, none) g2)
    unfolding sign_spec
    sign_init-sign mechanism key k out idle at' private' can known made =
        let y = begun op_sign mechanism key x in
        (
          sign_init-begun mechanism key k idle at' private' can known,
          sign-focus y (ended y) out refl l.home l.free (ground (arith, at', made)),
          sign-focus (ended y) (ended y) (ckr_operation_not_initialized, len, none) refl l.home
              l.free refl,
        )
