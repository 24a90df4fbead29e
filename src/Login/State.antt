-- ===== src/Login/State.antt =====
-- The session state machine of hsm/src/pkcs11/session.c: C_Login and C_Logout.
use pst_boitier_pki.Common.{
  ℕ, ◌≡◌, ◌≤◌, ◌↔◌, Bool, true, false, some, ◌==◌, ◌&&◌, ◌||◌, Bytes, inl, inr, arith, ap, ◌∙◌, sym,
  memeq_refl, eq_of_memeq, memeq, update-eq, update-some_cases, subst,
}
use pst_boitier_pki.Cryptoki.{ckr_ok, cku_so, cku_user}
use pst_boitier_pki.Hsm.State.{
  hsm_max_find_objects, HsmContext, HsmSlot, HsmSession, HsmSessionState, Token, ro_public,
  rw_public, ro_user, rw_user, rw_so,
}
use pst_boitier_pki.Hsm.Cmd.{Ends}
use pst_boitier_pki.Hsm.Focus.{focus, holding}
use pst_boitier_pki.Hsm.Invariant.{IsReady}
use pst_boitier_pki.Pin.{hsm_verify_pin, pin_initialized, pin_locked, pin_hash}
use pst_boitier_pki.Session.{new_session}
use pst_boitier_pki.Login.{logged_in, logged_out, c_login, c_logout}
use pst_boitier_pki.Login.Refine.{
  Leads, login_spec, logout_spec, login-refines, logout-refines, with_token,
}

-- The state that the flags stand for.
abbrev pub state_of : (is_read_write user so : Bool) → HsmSessionState
state_of is_read_write user true = rw_so
state_of true true false = rw_user
state_of true false false = rw_public
state_of false true false = ro_user
state_of false false false = ro_public

-- The state is that of the flags, and a search has no more results than its array.
pub record IsCoherent (x : HsmSession) : Type 0 where
  pub state : x.state ≡ state_of x.is_read_write x.user_logged_in x.so_logged_in
  pub one_user : (x.user_logged_in && x.so_logged_in) ≡ false
  pub so_writes : x.so_logged_in ≡ true → x.is_read_write ≡ true
  pub found : x.find_count ≤ hsm_max_find_objects

pub spec-IsCoherent :
    (sha256 : Bytes → Bytes) (handle slot_id flags user_type now : ℕ) (pin : Bytes) (x : HsmSession)
    (t : Token)
    → IsCoherent (new_session handle slot_id flags now)
      × (IsCoherent x → IsCoherent (login_spec sha256 user_type pin now x t).1)
      × (IsCoherent x → IsCoherent (logout_spec x).1)
unfolding login_spec logout_spec logged_in logged_out
spec-IsCoherent sha256 handle slot_id flags user_type now pin x t =
    (ground arith, λ c. ground (arith, c.state), λ c. ground (arith, c.state))

-- Every session of the slot is coherent.
abbrev pub AllCoherent : HsmContext → Type 0
AllCoherent g = (i : ℕ) (x : HsmSession) → (g.slots 0).sessions i ≡ some x → IsCoherent x

pub focus-AllCoherent :
    (g : HsmContext) (i : ℕ) (x : HsmSession) (a : HsmSlot)
    → AllCoherent g
    → IsCoherent x
    → AllCoherent (focus g i x a)
focus-AllCoherent g i x a all c j y e =
    let e' = ap (λ (t : HsmSlot). t.sessions j) (sym (update-eq g.slots 0 (holding g i x a))) ∙ e in
    elim (update-some_cases (g.slots 0).sessions i x j e') [
      | inl (_, q) ↦ subst IsCoherent q c
      | inr (_, q) ↦ all j y q
    ]

-- A new session is coherent. The library is running with one slot whose lock is free, and the
-- handle leads to a session whose lock is free. Then C_Login and C_Logout return, and whatever
-- they return, all sessions are coherent after them if they were before: the state of a session
-- says who is logged in, never both users at once, and the SO only in a read-write session; and no search has
-- more results than its array.
pub sessions-AllCoherent :
    (sha256 : Bytes → Bytes) (user_type now new flags handle i : ℕ) (pin : Bytes) (x : HsmSession)
    (g : HsmContext)
    → IsReady g
    → Leads handle i x g
    → AllCoherent g
    → IsCoherent (new_session new 0 flags now)
      × Ends (λ rv. AllCoherent) (c_login sha256 user_type (some pin) now handle g)
      × Ends (λ rv. AllCoherent) (c_logout handle g)
sessions-AllCoherent sha256 user_type now new flags handle i pin x g r l all =
    let t = (g.slots 0).token in
    let (fresh, login, logout) = spec-IsCoherent sha256 new 0 flags user_type now pin x t in
    let start = all i x l.present in
    let (rv, x', t') = login_spec sha256 user_type pin now x t in
    (
      fresh,
      rw (login-refines sha256 user_type pin now handle i x g r l)
          (focus-AllCoherent g i x' (with_token g t') all (login start)),
      rw (logout-refines handle i x g r l)
          (focus-AllCoherent g i (logout_spec x).1 (g.slots 0) all (logout start)),
    )

-- When `C_Login` lets a user in.
pub record MayLogin (sha256 : Bytes → Bytes) (user_type : ℕ) (pin : Bytes) (x : HsmSession)
    (t : Token) : Type 0 where
  pub user : (user_type == cku_so || user_type == cku_user) ≡ true
  pub nobody : (x.user_logged_in || x.so_logged_in) ≡ false
  pub so_writes : (user_type == cku_so) ≡ true → x.is_read_write ≡ true
  pub initialized : pin_initialized user_type t ≡ true
  pub open_pin : pin_locked user_type t ≡ false
  pub same_hash : sha256 pin ≡ pin_hash user_type t

login_spec-MayLogin :
    (sha256 : Bytes → Bytes) (user_type now : ℕ) (pin : Bytes) (x : HsmSession) (t : Token)
    → ((login_spec sha256 user_type pin now x t).0 ≡ ckr_ok) ↔ MayLogin sha256 user_type pin x t
unfolding login_spec hsm_verify_pin
login_spec-MayLogin sha256 user_type now pin x t = (
  λ e. ground (arith, eq_of_memeq (sha256 pin) (pin_hash user_type t)),
  λ m. ground (arith, m.so_writes, memeq_refl (sha256 pin), ap (memeq (sha256 pin)) m.same_hash),
)

-- The library is running with one slot whose lock is free, and the handle leads to a session
-- whose lock is free. Then C_Login returns, and it returns CKR_OK exactly when these conditions
-- hold: the user type is SO or user, nobody is logged in on the session, the SO asks on a read-
-- write session, the PIN is in use and not locked, and the PIN given has the stored hash.
pub login-authenticates :
    (sha256 : Bytes → Bytes) (user_type now handle i : ℕ) (pin : Bytes) (x : HsmSession)
    (g : HsmContext)
    → IsReady g
    → Leads handle i x g
    → Ends
        (λ rv g'. (rv ≡ ckr_ok) ↔ MayLogin sha256 user_type pin x (g.slots 0).token)
        (c_login sha256 user_type (some pin) now handle g)
login-authenticates sha256 user_type now handle i pin x g r l =
    rw (login-refines sha256 user_type pin now handle i x g r l)
      (login_spec-MayLogin sha256 user_type now pin x (g.slots 0).token)
