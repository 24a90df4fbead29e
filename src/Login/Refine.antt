-- ===== src/Login/Refine.antt =====
-- Specifications of C_Login and C_Logout of hsm/src/pkcs11/session.c without locks, and the code
-- against them.
use pst_boitier_pki.Common.{
  ℕ, ◌≡◌, ◌<◌, Bool, true, false, some, ◌==◌, if◌then◌else◌, not, ◌&&◌, ◌||◌, Bytes, inr, arith, ap,
  ◌∙◌, sym,
}
use pst_boitier_pki.Cryptoki.{
  CkRv, ckr_ok, ckr_user_not_logged_in, ckr_user_already_logged_in, ckr_user_type_invalid,
  ckr_session_read_only, cku_so, cku_user, is_ok,
}
use pst_boitier_pki.Hsm.State.{HsmContext, HsmSlot, HsmSession, Token}
use pst_boitier_pki.Hsm.Cmd.{done, lock_session}
use pst_boitier_pki.Hsm.Focus.{
  entry, focus, focus_self, read_slot-focus, write_slot-focus, lock_slot-focus, unlock_slot-focus,
  read_session-focus, write_session-focus, lock_session-focus, unlock_session-focus,
}
use pst_boitier_pki.Hsm.Invariant.{IsReady}
use pst_boitier_pki.Pin.{hsm_verify_pin}
use pst_boitier_pki.Session.{hsm_get_session}
use pst_boitier_pki.Login.{on_token, logged_in, logged_out, c_login, c_logout}

-- A handle leads to session `x`, in entry `i` of the table.
pub record Leads (handle i : ℕ) (x : HsmSession) (g : HsmContext) : Type 0 where
  pub found : hsm_get_session handle g ≡ done (inr (entry i)) g
  pub present : (g.slots 0).sessions i ≡ some x
  pub home : x.slot_id ≡ 0
  pub free : x.lock ≡ false

-- The specification of `C_Login`: the return value, the session and the token.
unfoldable pub login_spec :
    (Bytes → Bytes)
    → (user_type : ℕ) (pin : Bytes) (now : ℕ) → HsmSession
    → Token
    → CkRv × HsmSession × Token
login_spec sha256 user_type pin now x t =
    if not (user_type == cku_so || user_type == cku_user)
    then (ckr_user_type_invalid, x, t)
    else if x.user_logged_in || x.so_logged_in
    then (ckr_user_already_logged_in, x, t)
    else if user_type == cku_so && not x.is_read_write
    then (ckr_session_read_only, x, t)
    else let (rv, t') = hsm_verify_pin sha256 user_type pin t in
      (rv, (if is_ok rv then logged_in user_type now x else x), t')

-- Slot 0 with another token.
abbrev pub with_token : HsmContext → Token → HsmSlot
with_token g t = record (g.slots 0) { token = t; lock = false }

is_ok-eq : (rv : CkRv) → is_ok rv ≡ true → rv ≡ ckr_ok
is_ok-eq rv e = ground arith

module _ (g : HsmContext) (i : ℕ) (has : 0 < g.slots_len) where
  pub on_token-focus :
      (x : HsmSession) (a : HsmSlot) (f : Token → CkRv × Token)
      → on_token 0 f (focus g i x a)
        ≡ done (f a.token).0 (focus g i x (record a { token = (f a.token).1 }))
  unfolding on_token
  on_token-focus x a f = ground (
    arith,
    read_slot-focus g i has x a,
    write_slot-focus g i has x a (record a { token = (f a.token).1 }),
  )

  -- The first lock of a call, from the state that it starts in.
  pub lock_session-start :
      (x : HsmSession)
      → (g.slots 0).sessions i ≡ some x
      → x.lock ≡ false
      → lock_session (entry i) g ≡ done tt (focus g i (record x { lock = true }) (g.slots 0))
  lock_session-start x e free =
      ap (lock_session (entry i)) (sym (focus_self g i x e))
      ∙ lock_session-focus g i has x (g.slots 0) free

  -- Giving the lock back at once leaves the state as it was.
  pub focus-back :
      (x : HsmSession)
      → (g.slots 0).sessions i ≡ some x
      → x.lock ≡ false
      → focus g i (record x { lock = false }) (g.slots 0) ≡ g
  focus-back x e free =
      ap (λ (b : Bool). focus g i (record x { lock = b }) (g.slots 0)) (sym free)
      ∙ focus_self g i x e

pub with_token_self :
    (g : HsmContext) → (g.slots 0).lock ≡ false → with_token g (g.slots 0).token ≡ g.slots 0
with_token_self g free = ap (λ (b : Bool). record (g.slots 0) { lock = b }) (sym free)

module _ (sha256 : Bytes → Bytes) where
  -- The library is running with one slot whose lock is free, and the handle leads to a session
  -- whose lock is free. Then C_Login returns with the value that `login_spec` gives, and it
  -- changes that session and the token of the slot as `login_spec` says, and nothing else: every
  -- lock that it takes is given back, on the error paths too.
  pub login-refines :
      (user_type : ℕ) (pin : Bytes) (now handle i : ℕ) (x : HsmSession) (g : HsmContext)
      → IsReady g
      → Leads handle i x g
      → let (rv, x', t') = login_spec sha256 user_type pin now x (g.slots 0).token in
        c_login sha256 user_type (some pin) now handle g ≡ done rv (focus g i x' (with_token g t'))
  unfolding c_login login_spec logged_in
  login-refines user_type pin now handle i x g r l =
      let has : 0 < g.slots_len = omega (arith, r.slots_len) in
      let s = g.slots 0 in
      let y = record x { lock = true } in
      let sl = record s { lock = true } in
      let f = hsm_verify_pin sha256 user_type pin in
      let tl = record sl { token = (f s.token).1 } in
      let tu = record s { token = (f s.token).1; lock = false } in
      let start = lock_session-start g i has x l.present l.free in
      let y' = logged_in user_type now y in
      let same : record x { lock = false } ≡ x =
        ap (λ (b : Bool). record x { lock = b }) (sym l.free) in
      ground (
        arith,
        l.found,
        start,
        read_session-focus g i has y s,
        unlock_session-focus g i has y s,
        focus-back g i has x l.present l.free,
        lock_slot-focus g i has y s r.free,
        on_token-focus g i has y sl f,
        unlock_slot-focus g i has y tl,
        unlock_session-focus g i has y tu,
        write_session-focus g i has y tl y',
        unlock_slot-focus g i has y' tl,
        unlock_session-focus g i has y' tu,
        same,
        with_token_self g r.free,
        focus_self g i x l.present,
      )

-- The specification of `C_Logout`.
unfoldable pub logout_spec : HsmSession → CkRv × HsmSession
logout_spec x =
    if x.user_logged_in || x.so_logged_in
    then (ckr_ok, logged_out x)
    else (ckr_user_not_logged_in, x)

-- The library is running with one slot whose lock is free, and the handle leads to a session
-- whose lock is free. Then C_Logout returns with the value that `logout_spec` gives, and it
-- changes that session as `logout_spec` says, and nothing else: the lock is given back, on the
-- error path too.
pub logout-refines :
    (handle i : ℕ) (x : HsmSession) (g : HsmContext)
    → IsReady g
    → Leads handle i x g
    → let (rv, x') = logout_spec x in c_logout handle g ≡ done rv (focus g i x' (g.slots 0))
unfolding c_logout logout_spec logged_out
logout-refines handle i x g r l =
    let has : 0 < g.slots_len = omega (arith, r.slots_len) in
    let s = g.slots 0 in
    let y = record x { lock = true } in
    let start = lock_session-start g i has x l.present l.free in
    let y' = logged_out y in
    ground (
      arith,
      l.found,
      start,
      read_session-focus g i has y s,
      unlock_session-focus g i has y s,
      focus-back g i has x l.present l.free,
      write_session-focus g i has y s y',
      unlock_session-focus g i has y' s,
      focus_self g i x l.present,
      ap (λ (b : Bool). record x { lock = b }) (sym l.free),
    )
