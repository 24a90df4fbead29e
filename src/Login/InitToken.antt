-- ===== src/Login/InitToken.antt =====
-- C_InitToken of hsm/src/pkcs11/session.c.
use pst_boitier_pki.Common.{
  ℕ, ◌≡◌, ◌<◌, ◌≤◌, ◌↔◌, refl, true, false, some, if◌then◌else◌, Bytes, length, inl, inr, arith, ap,
  Bool-cases, memeq_refl, eq_of_memeq, memeq, update-eq, ltb,
}
use pst_boitier_pki.Cryptoki.{CkRv, ckr_ok, ckr_user_pin_not_initialized, cku_so, cku_user}
use pst_boitier_pki.Hsm.State.{HsmContext, HsmSlot, Token}
use pst_boitier_pki.Hsm.Cmd.{done, deadlock, put_slot, Ends}
use pst_boitier_pki.Hsm.Slots.{read_slot-put, write_slot-put, lock_slot-done, unlock_slot-put}
use pst_boitier_pki.Hsm.Invariant.{IsWell}
use pst_boitier_pki.Pin.{hsm_verify_pin, hsm_set_pin, pin_len_bad}
use pst_boitier_pki.Storage.{hsm_storage_save_token_info}
use pst_boitier_pki.Session.CloseAll.{destroy_sessions-idle, destroy_sessions-deadlock}
use pst_boitier_pki.Login.{on_token, save_token, c_init_token, make_token, token_ready, label_len}

pub on_token-put :
    (f : Token → CkRv × Token) (a : HsmSlot) (g : HsmContext)
    → 0 < g.slots_len
    → on_token 0 f (put_slot 0 a g)
      ≡ done (f a.token).0 (put_slot 0 (record a { token = (f a.token).1 }) g)
unfolding on_token
on_token-put f a g has =
    ground
      (arith, read_slot-put 0 a g has, write_slot-put 0 (record a { token = (f a.token).1 }) a g)

save_token-put :
    (a : HsmSlot) (g : HsmContext)
    → 0 < g.slots_len
    → save_token 0 (put_slot 0 a g)
      ≡ done tt (put_slot 0 a (record g { disk = (hsm_storage_save_token_info a.token g.disk).1 }))
unfolding save_token
save_token-put a g has = ground (arith, read_slot-put 0 a g has)

-- The token that `C_InitToken` makes of `t`.
unfoldable pub new_token : (Bytes → Bytes) → (pin label : Bytes) → Token → Token
new_token sha256 pin label t = token_ready pin label (hsm_set_pin sha256 cku_so pin t).1

-- The state after it.
abbrev pub initialized : (Bytes → Bytes) → (pin label : Bytes) → HsmContext → HsmContext
initialized sha256 pin label g =
    let t = new_token sha256 pin label (g.slots 0).token in
    put_slot 0 (record (g.slots 0) { token = t; token_present = true; lock = false })
      (record g { disk = (hsm_storage_save_token_info t g.disk).1 })

set_pin-ok :
    (sha256 : Bytes → Bytes) (user_type : ℕ) (pin : Bytes) (t : Token)
    → pin_len_bad pin ≡ false
    → (hsm_set_pin sha256 user_type pin t).0 ≡ ckr_ok
unfolding hsm_set_pin
set_pin-ok sha256 user_type pin t len = rw len

make_token-put :
    (sha256 : Bytes → Bytes) (pin label : Bytes) (a : HsmSlot) (g : HsmContext)
    → 0 < g.slots_len
    → pin_len_bad pin ≡ false
    → label_len pin ≤ length label
    → make_token sha256 0 pin label (put_slot 0 a g)
      ≡ done ckr_ok (
          put_slot 0
            (record a {
              token = new_token sha256 pin label a.token;
              token_present = true;
              lock = false;
            })
            (record g {
              disk = (hsm_storage_save_token_info (new_token sha256 pin label a.token) g.disk).1;
            }))
unfolding make_token new_token
make_token-put sha256 pin label a g has len long =
    let a1 = record a { token = (hsm_set_pin sha256 cku_so pin a.token).1 } in
    let a2 = record a { token = new_token sha256 pin label a.token } in
    let a3 = record a2 { token_present = true } in
    let g' = record g { disk = (hsm_storage_save_token_info a3.token g.disk).1 } in
    ground (
      arith,
      on_token-put (hsm_set_pin sha256 cku_so pin) a g has,
      set_pin-ok sha256 cku_so pin a.token len,
      long,
      on_token-put (λ t. (ckr_ok, token_ready pin label t)) a1 g has,
      read_slot-put 0 a2 g has,
      write_slot-put 0 a3 a2 g,
      save_token-put a3 g has,
      unlock_slot-put 0 a3 g' has,
    )

-- From a well-formed state, with a PIN of legal length and a label at least as long as what is
-- copied: while a session is open on the slot C_InitToken never returns, and otherwise it returns
-- CKR_OK and makes the new token, whatever the token was.
pub init_token-result :
    (sha256 : Bytes → Bytes) (pin label : Bytes) (g : HsmContext)
    → IsWell g
    → pin_len_bad pin ≡ false
    → label_len pin ≤ length label
    → c_init_token sha256 0 (some pin) (some label) g ≡ (
        if ltb 0 (g.slots 0).session_count
        then deadlock
        else done ckr_ok (initialized sha256 pin label g))
unfolding c_init_token
init_token-result sha256 pin label g w len long =
    let r = w.ready in
    let has : 0 < g.slots_len = omega arith in
    let l = record (g.slots 0) { lock = true } in
    elim (Bool-cases (ltb 0 (g.slots 0).session_count)) [
      | inl some_open ↦ ground (
        arith,
        lock_slot-done 0 g has r.free,
        destroy_sessions-deadlock l g w refl refl some_open,
        r.initialized,
        r.slot_count,
        len,
      )
      | inr idle ↦ ground (
        arith,
        lock_slot-done 0 g has r.free,
        destroy_sessions-idle l g w refl refl idle,
        make_token-put sha256 pin label l g has len long,
        r.initialized,
        r.slot_count,
        len,
      )
    ]

new_token-verify_pin :
    (sha256 : Bytes → Bytes) (pin label other : Bytes) (t : Token)
    → pin_len_bad pin ≡ false
    → (((hsm_verify_pin sha256 cku_so other (new_token sha256 pin label t)).0 ≡ ckr_ok)
        ↔ (sha256 other ≡ sha256 pin))
      × ((hsm_verify_pin sha256 cku_user other (new_token sha256 pin label t)).0
          ≡ ckr_user_pin_not_initialized)
unfolding new_token token_ready hsm_verify_pin hsm_set_pin
new_token-verify_pin sha256 pin label other t len = (
  (
    λ e. ground (arith, eq_of_memeq (sha256 other) (sha256 pin)),
    λ e. ground (arith, memeq_refl (sha256 other), ap (memeq (sha256 other)) e),
  ),
  ground arith,
)

-- From a well-formed state with no session open, with a PIN of legal length and a label at least
-- as long as what is copied, C_InitToken returns CKR_OK; after it exactly the PINs that hash like
-- the one given are accepted for the SO, and every PIN of the user is answered with
-- CKR_USER_PIN_NOT_INITIALIZED. This holds whatever SO PIN the token had before.
pub init_token-takes_over :
    (sha256 : Bytes → Bytes) (pin label other : Bytes) (g : HsmContext)
    → IsWell g
    → pin_len_bad pin ≡ false
    → label_len pin ≤ length label
    → (g.slots 0).session_count ≡ 0
    → Ends
        (λ rv g'.
          (rv ≡ ckr_ok)
          × (((hsm_verify_pin sha256 cku_so other (g'.slots 0).token).0 ≡ ckr_ok)
              ↔ (sha256 other ≡ sha256 pin))
          × ((hsm_verify_pin sha256 cku_user other (g'.slots 0).token).0
              ≡ ckr_user_pin_not_initialized))
        (c_init_token sha256 0 (some pin) (some label) g)
init_token-takes_over sha256 pin label other g w len long idle =
    let t = new_token sha256 pin label (g.slots 0).token in
    let s = record (g.slots 0) { token = t; token_present = true; lock = false } in
    let (so, user) = new_token-verify_pin sha256 pin label other (g.slots 0).token len in
    let res : c_init_token sha256 0 (some pin) (some label) g
        ≡ done ckr_ok (initialized sha256 pin label g) =
      ground (arith, idle, init_token-result sha256 pin label g w len long) in
    rw (res, update-eq g.slots 0 s) (refl, so, user)
