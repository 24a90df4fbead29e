-- ===== src/Tests/Starts.antt =====
-- The theorems on the start and the end of the library and on the mechanisms, at sample states.
use pst_boitier_pki.Common.{arith, if◌then◌else◌, ◌≡◌, refl, true, false, some}
use pst_boitier_pki.Cryptoki.{ckr_mechanism_invalid, ckr_ok}
use pst_boitier_pki.Hsm.State.{HsmContext, Token}
use pst_boitier_pki.Hsm.Cmd.{Ends, ◌>>◌}
use pst_boitier_pki.Hsm.Invariant.{IsWell}
use pst_boitier_pki.Storage.{hsm_storage_init, token_bytes}
use pst_boitier_pki.Storage.TokenFile.{IsSized}
use pst_boitier_pki.Mechanisms.{mechanisms, is_one_of, c_get_mechanism_list, c_get_mechanism_info}
use pst_boitier_pki.Mechanisms.Agreement.{mechanism_info-listed}
use pst_boitier_pki.Library.{c_initialize, c_finalize}
use pst_boitier_pki.Library.Start.{initialize_spec, initialize-result}
use pst_boitier_pki.Library.Stop.{IsStopped, finalize-IsStopped, restart-unlocks}
use pst_boitier_pki.Tests.{sample, quiet, quiet-IsWell, busy, busy-IsWell, disk, slot}

-- A process that has not called `C_Initialize` yet.
abbrev off : HsmContext
off = record quiet { initialized = false; slots_len = 0; slot_count = 0 }

initialize-result_example :
    c_initialize true off ≡ initialize_spec true (hsm_storage_init off.disk).0 off
initialize-result_example = initialize-result true off refl

finalize-IsStopped_example :
    Ends (λ rv g'. (rv ≡ ckr_ok) × IsStopped g' × (g'.disk ≡ busy.disk)) (c_finalize false busy)
finalize-IsStopped_example = finalize-IsStopped busy busy-IsWell refl

-- A token whose user PIN is locked, on disk and in memory.
abbrev locked_out : Token
locked_out = record sample { user_pin_locked = true; user_pin_retry_count = 0 }

abbrev stuck : HsmContext
stuck = record quiet {
  slots = λ _. record slot { token = locked_out };
  disk = record disk { token_file = some (token_bytes locked_out) };
}

stuck-IsWell : IsWell stuck
stuck-IsWell = record {
  ready = record { initialized = refl; slot_count = refl; slots_len = refl; free = refl };
  sessions = record {
    counted = quiet-IsWell.sessions.counted;
    below = quiet-IsWell.sessions.below;
    distinct = quiet-IsWell.sessions.distinct;
    home = quiet-IsWell.sessions.home;
    free = quiet-IsWell.sessions.free;
  };
}

locked_out-IsSized : IsSized locked_out
locked_out-IsSized = record { label = refl; user_hash = refl; so_hash = refl }

restart-unlocks_example :
    Ends
      (λ rv h. (rv ≡ ckr_ok) × IsWell h × ((h.slots 0).token ≡ sample))
      ((c_finalize false >> c_initialize true) stuck)
restart-unlocks_example =
    restart-unlocks locked_out stuck stuck-IsWell refl refl locked_out-IsSized refl refl

mechanism_info-listed_example :
    (c_get_mechanism_list true 17 0 quiet ≡ (ckr_ok, some mechanisms, 17))
    × ((c_get_mechanism_info true 0 5 quiet).0
        ≡ (if is_one_of 5 mechanisms then ckr_ok else ckr_mechanism_invalid))
mechanism_info-listed_example = mechanism_info-listed 0 5 quiet refl (omega arith)
