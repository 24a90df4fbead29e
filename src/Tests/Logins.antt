-- ===== src/Tests/Logins.antt =====
-- The theorems on logging in and on changing PINs, at sample states.
use pst_boitier_pki.Common.{
  ◌≡◌, ◌↔◌, refl, true, arith, some, subst, if◌then◌else◌, ltb, find_from, update, replicate,
}
use pst_boitier_pki.Cryptoki.{ckr_ok, cku_so, cku_user, ckr_user_pin_not_initialized}
use pst_boitier_pki.Hsm.State.{HsmContext, HsmSession, rw_so, rw_user}
use pst_boitier_pki.Hsm.Cmd.{done, deadlock, Ends, read_slot}
use pst_boitier_pki.Hsm.Focus.{focus}
use pst_boitier_pki.Hsm.Invariant.{IsReady}
use pst_boitier_pki.Pin.{hsm_verify_pin}
use pst_boitier_pki.Session.{new_session, hsm_get_session}
use pst_boitier_pki.Login.{c_login, c_logout, c_set_pin, c_init_pin, c_init_token, session_user}
use pst_boitier_pki.Login.Refine.{Leads, login_spec, with_token, login-refines}
use pst_boitier_pki.Login.State.{
  IsCoherent, AllCoherent, sessions-AllCoherent, MayLogin, login-authenticates,
}
use pst_boitier_pki.Login.PinChange.{Changed, set_pin-Changed, init_pin-Changed}
use pst_boitier_pki.Login.InitToken.{initialized, init_token-result, init_token-takes_over}
use pst_boitier_pki.Tests.{
  digest, user_pin, so_pin, wrong, session, quiet, quiet-IsWell, busy, busy-IsReady, busy-Leads,
  busy-IsWell, only,
}

-- The same session with the SO, and with the user, logged in.
abbrev so_session : HsmSession
so_session = record session { so_logged_in = true; state = rw_so }

abbrev user_session : HsmSession
user_session = record session { user_logged_in = true; state = rw_user }

abbrev so_busy : HsmContext
so_busy = focus busy 0 so_session (busy.slots 0)

abbrev user_busy : HsmContext
user_busy = focus busy 0 user_session (busy.slots 0)

so_busy-IsReady : IsReady so_busy
unfolding update
so_busy-IsReady = record { initialized = refl; slot_count = refl; slots_len = refl; free = refl }

user_busy-IsReady : IsReady user_busy
unfolding update
user_busy-IsReady = record { initialized = refl; slot_count = refl; slots_len = refl; free = refl }

so_busy-Leads : Leads 1 0 so_session so_busy
unfolding hsm_get_session read_slot find_from update
so_busy-Leads = record { found = refl; present = refl; home = refl; free = refl }

user_busy-Leads : Leads 1 0 user_session user_busy
unfolding hsm_get_session read_slot find_from update
user_busy-Leads = record { found = refl; present = refl; home = refl; free = refl }

busy-AllCoherent : AllCoherent busy
busy-AllCoherent i x e = subst IsCoherent (only i x e).1 (record {
  state = refl;
  one_user = refl;
  so_writes = λ e. absurd (ground arith);
  found = omega arith;
})

user_busy-right :
    (hsm_verify_pin digest (session_user user_session) user_pin (user_busy.slots 0).token).0
    ≡ ckr_ok
unfolding hsm_verify_pin session_user update
user_busy-right = refl

user_busy-writable : user_busy.disk.token_writable ≡ true
user_busy-writable = refl

login-refines_example :
    c_login digest cku_user (some user_pin) 200 1 busy
    ≡ done (login_spec digest cku_user user_pin 200 session (busy.slots 0).token).0 (
        focus busy 0 (login_spec digest cku_user user_pin 200 session (busy.slots 0).token).1 (
          with_token busy (login_spec digest cku_user user_pin 200 session (busy.slots 0).token).2))
login-refines_example =
    login-refines digest cku_user user_pin 200 1 0 session busy busy-IsReady busy-Leads

sessions-AllCoherent_example :
    IsCoherent (new_session 2 0 6 200)
    × Ends (λ rv. AllCoherent) (c_login digest cku_so (some so_pin) 200 1 busy)
    × Ends (λ rv. AllCoherent) (c_logout 1 busy)
sessions-AllCoherent_example =
    sessions-AllCoherent digest cku_so 200 2 6 1 0 so_pin session busy busy-IsReady busy-Leads
      busy-AllCoherent

login-authenticates_example :
    Ends
      (λ rv g'. (rv ≡ ckr_ok) ↔ MayLogin digest cku_user user_pin session (busy.slots 0).token)
      (c_login digest cku_user (some user_pin) 200 1 busy)
login-authenticates_example =
    login-authenticates digest cku_user 200 1 0 user_pin session busy busy-IsReady busy-Leads

set_pin-Changed_example :
    Ends
      (Changed digest cku_user wrong user_pin)
      (c_set_pin digest (some user_pin) (some wrong) 1 user_busy)
unfolding session_user
set_pin-Changed_example =
    set_pin-Changed digest user_pin wrong user_pin 1 0 user_session user_busy user_busy-IsReady
      user_busy-Leads refl refl user_busy-right refl

init_pin-Changed_example :
    Ends (Changed digest cku_user wrong user_pin) (c_init_pin digest (some wrong) 1 so_busy)
init_pin-Changed_example =
    init_pin-Changed digest wrong user_pin 1 0 so_session so_busy so_busy-IsReady so_busy-Leads refl
      refl refl

init_token-result_example : c_init_token digest 0 (some so_pin) (some (replicate 32 b'T')) busy ≡ (
    if ltb 0 (busy.slots 0).session_count
    then deadlock
    else done ckr_ok (initialized digest so_pin (replicate 32 b'T') busy))
init_token-result_example =
    init_token-result digest so_pin (replicate 32 b'T') busy busy-IsWell refl (omega arith)

init_token-takes_over_example :
    Ends
      (λ rv g'.
        (rv ≡ ckr_ok)
        × (((hsm_verify_pin digest cku_so so_pin (g'.slots 0).token).0 ≡ ckr_ok)
            ↔ (digest so_pin ≡ digest wrong))
        × ((hsm_verify_pin digest cku_user so_pin (g'.slots 0).token).0
            ≡ ckr_user_pin_not_initialized))
      (c_init_token digest 0 (some wrong) (some (replicate 32 b'T')) quiet)
init_token-takes_over_example =
    init_token-takes_over digest wrong (replicate 32 b'T') so_pin quiet quiet-IsWell refl
      (omega arith) refl
