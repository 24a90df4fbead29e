-- ===== src/Tests/Sessions.antt =====
-- The theorems on the session table, at sample states.
use pst_boitier_pki.Common.{ℕ, ◌≡◌, ◌+◌, ◌==◌, ltb, true, if◌then◌else◌, arith, some, none, inr}
use pst_boitier_pki.Cryptoki.{ckr_ok}
use pst_boitier_pki.Hsm.State.{HsmContext}
use pst_boitier_pki.Hsm.Cmd.{done, deadlock}
use pst_boitier_pki.Hsm.Focus.{entry}
use pst_boitier_pki.Hsm.Invariant.{IsWell}
use pst_boitier_pki.Session.{
  find_in_slot, hsm_get_session, hsm_create_session, c_close_session, c_close_all_sessions,
}
use pst_boitier_pki.Session.Table.{lookup_result}
use pst_boitier_pki.Session.Create.{opened, released, create_session-opens}
use pst_boitier_pki.Session.Destroy.{closed}
use pst_boitier_pki.Session.Close.{close_session-closes, open-close}
use pst_boitier_pki.Session.CloseAll.{close_all_sessions-deadlock}
use pst_boitier_pki.Tests.{quiet, quiet-IsWell, busy, busy-IsWell, busy-Leads}

create_session-opens_example :
    (idx : ℕ) × ((quiet.slots 0).sessions idx ≡ none)
    × (hsm_create_session true 100 0 6 quiet ≡ done (ckr_ok, some 1) (opened 100 6 idx quiet))
    × (hsm_get_session 1 (opened 100 6 idx quiet) ≡ done (inr (entry idx)) (opened 100 6 idx quiet))
    × IsWell (opened 100 6 idx quiet)
create_session-opens_example =
    create_session-opens 100 6 quiet quiet-IsWell (omega arith) (omega arith)

-- A table with every entry taken.
close_session-closes_example :
    (c_close_session 1 busy ≡ done ckr_ok (closed 0 busy))
    × (((closed 0 busy).slots 0).session_count + 1 ≡ (busy.slots 0).session_count)
    × (hsm_get_session 1 (closed 0 busy)
        ≡ done
            (lookup_result (if 1 == 1 then none else find_in_slot 1 (busy.slots 0)))
            (closed 0 busy))
    × IsWell (closed 0 busy)
close_session-closes_example = close_session-closes 1 1 0 busy busy-IsWell busy-Leads.found

open-close_example :
    (g' : HsmContext) × (hsm_create_session true 100 0 6 quiet ≡ done (ckr_ok, some 1) g')
    × (c_close_session 1 g' ≡ done ckr_ok (record (released quiet) { next_session_handle = 2 }))
open-close_example = open-close 100 6 quiet quiet-IsWell (omega arith) (omega arith)

close_all_sessions-deadlock_example :
    c_close_all_sessions 0 busy
    ≡ (if ltb 0 (busy.slots 0).session_count then deadlock else done ckr_ok (released busy))
close_all_sessions-deadlock_example = close_all_sessions-deadlock busy busy-IsWell
