-- ===== src/Login/PinCalls.antt =====
-- Specifications of C_SetPIN and C_InitPIN of hsm/src/pkcs11/session.c without locks, and the
-- code against them.
use pst_boitier_pki.Common.{
  ℕ, ◌≡◌, ◌<◌, refl, Bool, true, false, some, if◌then◌else◌, not, ◌||◌, Bytes, arith, ap, sym,
}
use pst_boitier_pki.Cryptoki.{
  CkRv, ckr_ok, ckr_user_not_logged_in, ckr_pin_len_range, cku_user, is_ok,
}
use pst_boitier_pki.Hsm.State.{HsmContext, HsmSlot, HsmSession, Token, Disk}
use pst_boitier_pki.Hsm.Cmd.{done}
use pst_boitier_pki.Hsm.Focus.{
  entry, focus, focus_self, read_slot-focus, lock_slot-focus, unlock_slot-focus, read_session-focus,
  unlock_session-focus,
}
use pst_boitier_pki.Hsm.Invariant.{IsReady}
use pst_boitier_pki.Pin.{hsm_verify_pin, hsm_set_pin, pin_len_bad}
use pst_boitier_pki.Storage.{hsm_storage_save_token_info}
use pst_boitier_pki.Login.{
  save_token, store_pin, c_set_pin, c_init_pin, session_user, retries_reset, user_pin_ready,
}
use pst_boitier_pki.Login.Refine.{
  Leads, on_token-focus, lock_session-start, focus-back, with_token, with_token_self,
}

-- The disk after a call that saved the token, or did not.
abbrev pub saved : Bool → Token → Disk → Disk
saved b t d = if b then (hsm_storage_save_token_info t d).1 else d

-- The state after a call that set the token, and saved it or did not.
abbrev pub settled : HsmContext → ℕ → HsmSession → Token → Bool → HsmContext
settled g i x t b = record (focus g i x (with_token g t)) { disk = saved b t g.disk }

save_token-focus :
    (g : HsmContext) (i : ℕ) (has : 0 < g.slots_len) (x : HsmSession) (a : HsmSlot)
    → save_token 0 (focus g i x a)
      ≡ done tt (focus (record g { disk = (hsm_storage_save_token_info a.token g.disk).1 }) i x a)
unfolding save_token
save_token-focus g i has x a = ground (arith, read_slot-focus g i has x a)

-- What `store_pin` does to the token: the return value, the token, and whether it is saved.
unfoldable pub store_spec :
    (Bytes → Bytes)
    → (user_type : ℕ) (pin : Bytes) (ready : Token → Token) → Token
    → CkRv × Token × Bool
store_spec sha256 user_type pin ready t =
    let (rv, t') = hsm_set_pin sha256 user_type pin t in
    if not (is_ok rv) then (rv, t', false) else (rv, ready t', true)

-- The specification of `C_SetPIN`.
unfoldable pub set_pin_spec :
    (Bytes → Bytes) → (old new : Bytes) → HsmSession → Token → CkRv × Token × Bool
set_pin_spec sha256 old new x t =
    if pin_len_bad new
    then (ckr_pin_len_range, t, false)
    else if not (x.user_logged_in || x.so_logged_in)
    then (ckr_user_not_logged_in, t, false)
    else let (rv, t1) = hsm_verify_pin sha256 (session_user x) old t in
      if not (is_ok rv)
      then (rv, t1, false)
      else store_spec sha256 (session_user x) new (retries_reset (session_user x)) t1

-- The specification of `C_InitPIN`.
unfoldable pub init_pin_spec :
    (Bytes → Bytes) → (pin : Bytes) → HsmSession → Token → CkRv × Token × Bool
init_pin_spec sha256 pin x t =
    if pin_len_bad pin
    then (ckr_pin_len_range, t, false)
    else if not x.so_logged_in
    then (ckr_user_not_logged_in, t, false)
    else store_spec sha256 cku_user pin user_pin_ready t

store_pin-focus :
    (sha256 : Bytes → Bytes) (g : HsmContext) (i : ℕ) (has : 0 < g.slots_len) (user_type : ℕ)
    (pin : Bytes) (ready : Token → Token) (y : HsmSession) (a : HsmSlot)
    → let (rv, t', b) = store_spec sha256 user_type pin ready a.token in
      store_pin sha256 user_type pin ready 0 (entry i) (focus g i y a)
      ≡ done rv
          (record (focus g i (record y { lock = false }) (record a { token = t'; lock = false })) {
            disk = saved b t' g.disk;
          })
unfolding store_pin store_spec
store_pin-focus sha256 g i has user_type pin ready y a =
    let p = hsm_set_pin sha256 user_type pin in
    let q : Token → CkRv × Token = λ t. (ckr_ok, ready t) in
    let t1 = (p a.token).1 in
    let t2 = ready t1 in
    let at' : Token → HsmSlot = λ t. record a { token = t } in
    let out : Token → HsmSlot = λ t. record a { token = t; lock = false } in
    let g' = record g { disk = (hsm_storage_save_token_info t2 g.disk).1 } in
    ground (
      arith,
      on_token-focus g i has y a p,
      on_token-focus g i has y (at' t1) q,
      save_token-focus g i has y (at' t2),
      unlock_slot-focus g i has y (at' t1),
      unlock_session-focus g i has y (out t1),
      unlock_slot-focus g' i has y (at' t2),
      unlock_session-focus g' i has y (out t2),
    )

-- The lock does not matter to whose PIN is changed.
session_user-lock :
    (x : HsmSession) (b : Bool) → session_user (record x { lock = b }) ≡ session_user x
unfolding session_user
session_user-lock x b = refl

module _ (sha256 : Bytes → Bytes) (handle i : ℕ) (x : HsmSession) (g : HsmContext) (r : IsReady g)
    (l : Leads handle i x g) where
  -- The library is running with one slot whose lock is free, and the handle leads to a session
  -- whose lock is free. Then C_SetPIN returns with the value that `set_pin_spec` gives; it
  -- changes the token of the slot as `set_pin_spec` says, saves the token exactly where
  -- `set_pin_spec` says so, and changes nothing else.
  pub set_pin-refines :
      (old new : Bytes)
      → let (rv, t', b) = set_pin_spec sha256 old new x (g.slots 0).token in
        c_set_pin sha256 (some old) (some new) handle g ≡ done rv (settled g i x t' b)
  unfolding c_set_pin set_pin_spec
  set_pin-refines old new =
      let has : 0 < g.slots_len = omega (arith, r.slots_len) in
      let s = g.slots 0 in
      let y = record x { lock = true } in
      let sl = record s { lock = true } in
      let u = session_user x in
      let v = hsm_verify_pin sha256 u old in
      let t1 = (v s.token).1 in
      let tl = record sl { token = t1 } in
      let tu = record s { token = t1; lock = false } in
      ground (
        arith,
        l.found,
        lock_session-start g i has x l.present l.free,
        read_session-focus g i has y s,
        unlock_session-focus g i has y s,
        focus-back g i has x l.present l.free,
        lock_slot-focus g i has y s r.free,
        on_token-focus g i has y sl v,
        unlock_slot-focus g i has y tl,
        unlock_session-focus g i has y tu,
        session_user-lock x true,
        store_pin-focus sha256 g i has u new (retries_reset u) y tl,
        ap (λ (b : Bool). record x { lock = b }) (sym l.free),
        with_token_self g r.free,
        focus_self g i x l.present,
      )

  -- The library is running with one slot whose lock is free, and the handle leads to a session
  -- whose lock is free. Then C_InitPIN returns with the value that `init_pin_spec` gives; it
  -- changes the token of the slot as `init_pin_spec` says, saves the token exactly where
  -- `init_pin_spec` says so, and changes nothing else.
  pub init_pin-refines :
      (pin : Bytes)
      → let (rv, t', b) = init_pin_spec sha256 pin x (g.slots 0).token in
        c_init_pin sha256 (some pin) handle g ≡ done rv (settled g i x t' b)
  unfolding c_init_pin init_pin_spec
  init_pin-refines pin =
      let has : 0 < g.slots_len = omega (arith, r.slots_len) in
      let s = g.slots 0 in
      let y = record x { lock = true } in
      let sl = record s { lock = true } in
      ground (
        arith,
        l.found,
        lock_session-start g i has x l.present l.free,
        read_session-focus g i has y s,
        unlock_session-focus g i has y s,
        focus-back g i has x l.present l.free,
        lock_slot-focus g i has y s r.free,
        store_pin-focus sha256 g i has cku_user pin user_pin_ready y sl,
        ap (λ (b : Bool). record x { lock = b }) (sym l.free),
        with_token_self g r.free,
        focus_self g i x l.present,
      )
