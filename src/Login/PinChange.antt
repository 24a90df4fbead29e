-- ===== src/Login/PinChange.antt =====
-- What C_SetPIN and C_InitPIN of hsm/src/pkcs11 achieve where they succeed: the new PIN is the one that
-- is accepted, and the token file holds it.
use pst_boitier_pki.Common.{
  ℕ, ◌≡◌, ◌↔◌, refl, Bool, true, false, some, ◌||◌, Bytes, arith, ap, memeq_refl, eq_of_memeq,
  memeq, update-eq,
}
use pst_boitier_pki.Cryptoki.{CkRv, ckr_ok, cku_user}
use pst_boitier_pki.Hsm.State.{HsmContext, HsmSession, Token}
use pst_boitier_pki.Hsm.Cmd.{Ends}
use pst_boitier_pki.Hsm.Focus.{holding}
use pst_boitier_pki.Hsm.Invariant.{IsReady}
use pst_boitier_pki.Pin.{hsm_verify_pin, hsm_set_pin, pin_len_bad}
use pst_boitier_pki.Storage.{hsm_storage_save_token_info, token_bytes}
use pst_boitier_pki.Login.{c_set_pin, c_init_pin, session_user, retries_reset, user_pin_ready}
use pst_boitier_pki.Login.Refine.{Leads, with_token}
use pst_boitier_pki.Login.PinCalls.{
  settled, store_spec, set_pin_spec, init_pin_spec, set_pin-refines, init_pin-refines,
}

set_pin_spec-changes :
    (sha256 : Bytes → Bytes) (old new pin : Bytes) (x : HsmSession) (t : Token)
    → pin_len_bad new ≡ false
    → (x.user_logged_in || x.so_logged_in) ≡ true
    → (hsm_verify_pin sha256 (session_user x) old t).0 ≡ ckr_ok
    → let (rv, t', b) = set_pin_spec sha256 old new x t in
      (rv ≡ ckr_ok)
      × (b ≡ true)
      × (((hsm_verify_pin sha256 (session_user x) pin t').0 ≡ ckr_ok) ↔ (sha256 pin ≡ sha256 new))
unfolding set_pin_spec store_spec hsm_verify_pin hsm_set_pin session_user retries_reset
set_pin_spec-changes sha256 old new pin x t len logged right = (
  ground arith,
  ground arith,
  (
    λ e. ground (arith, eq_of_memeq (sha256 pin) (sha256 new)),
    λ e. ground (arith, memeq_refl (sha256 pin), ap (memeq (sha256 pin)) e),
  ),
)

init_pin_spec-changes :
    (sha256 : Bytes → Bytes) (new pin : Bytes) (x : HsmSession) (t : Token)
    → pin_len_bad new ≡ false
    → x.so_logged_in ≡ true
    → let (rv, t', b) = init_pin_spec sha256 new x t in
      (rv ≡ ckr_ok)
      × (b ≡ true)
      × (((hsm_verify_pin sha256 cku_user pin t').0 ≡ ckr_ok) ↔ (sha256 pin ≡ sha256 new))
unfolding init_pin_spec store_spec hsm_verify_pin hsm_set_pin user_pin_ready
init_pin_spec-changes sha256 new pin x t len logged = (
  ground arith,
  ground arith,
  (
    λ e. ground (arith, eq_of_memeq (sha256 pin) (sha256 new)),
    λ e. ground (arith, memeq_refl (sha256 pin), ap (memeq (sha256 pin)) e),
  ),
)

-- The call returned CKR_OK; a PIN is now accepted for the user exactly when it hashes like `new`; and
-- the token file holds the token.
abbrev pub Changed :
    (Bytes → Bytes) → (user_type : ℕ) (new pin : Bytes) → CkRv → HsmContext → Type 0
Changed sha256 user_type new pin rv g =
    (rv ≡ ckr_ok)
    × (((hsm_verify_pin sha256 user_type pin (g.slots 0).token).0 ≡ ckr_ok)
        ↔ (sha256 pin ≡ sha256 new))
    × (g.disk.token_file ≡ some (token_bytes (g.slots 0).token))

settled-Changed :
    (sha256 : Bytes → Bytes) (user_type : ℕ) (new pin : Bytes) (g : HsmContext) (i : ℕ)
    (x : HsmSession) (rv : CkRv) (t : Token) (b : Bool)
    → g.disk.token_writable ≡ true
    → rv ≡ ckr_ok
    → b ≡ true
    → (((hsm_verify_pin sha256 user_type pin t).0 ≡ ckr_ok) ↔ (sha256 pin ≡ sha256 new))
    → Changed sha256 user_type new pin rv (settled g i x t b)
unfolding hsm_storage_save_token_info
settled-Changed sha256 user_type new pin g i x rv t b w ok yes_saved iff =
    rw (update-eq g.slots 0 (holding g i x (with_token g t)), yes_saved, w) (ok, iff, refl)

-- The library is running with one slot whose lock is free, and the handle leads to a session
-- whose lock is free. If a user or the SO is logged in on the session, the old PIN is accepted
-- for that user, the new one has a legal length and the token file can be written, then C_SetPIN
-- returns CKR_OK; from then on exactly the PINs that hash like the new one are accepted for that
-- user; and the token file holds the new token.
pub set_pin-Changed :
    (sha256 : Bytes → Bytes) (old new pin : Bytes) (handle i : ℕ) (x : HsmSession) (g : HsmContext)
    → IsReady g
    → Leads handle i x g
    → pin_len_bad new ≡ false
    → (x.user_logged_in || x.so_logged_in) ≡ true
    → (hsm_verify_pin sha256 (session_user x) old (g.slots 0).token).0 ≡ ckr_ok
    → g.disk.token_writable ≡ true
    → Ends
        (Changed sha256 (session_user x) new pin)
        (c_set_pin sha256 (some old) (some new) handle g)
set_pin-Changed sha256 old new pin handle i x g r l len logged right w =
    let (rv, t', b) = set_pin_spec sha256 old new x (g.slots 0).token in
    let (ok, yes_saved, iff) =
      set_pin_spec-changes sha256 old new pin x (g.slots 0).token len logged right in
    rw (set_pin-refines sha256 handle i x g r l old new)
      (settled-Changed sha256 (session_user x) new pin g i x rv t' b w ok yes_saved iff)

-- The library is running with one slot whose lock is free, and the handle leads to a session
-- whose lock is free. If the SO is logged in on the session, the PIN has a legal length and the
-- token file can be written, then C_InitPIN returns CKR_OK, whatever the user PIN was and however
-- often it was mistyped; from then on exactly the PINs that hash like the new one are accepted
-- for the user; and the token file holds the new token.
pub init_pin-Changed :
    (sha256 : Bytes → Bytes) (new pin : Bytes) (handle i : ℕ) (x : HsmSession) (g : HsmContext)
    → IsReady g
    → Leads handle i x g
    → pin_len_bad new ≡ false
    → x.so_logged_in ≡ true
    → g.disk.token_writable ≡ true
    → Ends (Changed sha256 cku_user new pin) (c_init_pin sha256 (some new) handle g)
init_pin-Changed sha256 new pin handle i x g r l len logged w =
    let (rv, t', b) = init_pin_spec sha256 new x (g.slots 0).token in
    let (ok, yes_saved, iff) =
      init_pin_spec-changes sha256 new pin x (g.slots 0).token len logged in
    rw (init_pin-refines sha256 handle i x g r l new)
      (settled-Changed sha256 cku_user new pin g i x rv t' b w ok yes_saved iff)
