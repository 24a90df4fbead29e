-- ===== src/Tests/Pins.antt =====
-- The theorems on PINs and on the token file, at sample inputs.
use pst_boitier_pki.Common.{
  ◌==◌, ◌≡◌, ◌≢◌, refl, true, false, Bytes, List, ◌∷◌, [], arith, replicate,
}
use pst_boitier_pki.Cryptoki.{ckr_ok, ckr_pin_locked, ckr_pin_incorrect, cku_so, cku_user}
use pst_boitier_pki.Hsm.State.{Token}
use pst_boitier_pki.Pin.{hsm_verify_pin}
use pst_boitier_pki.Pin.Lockout.{IsGuarded, verify_all, hsm_verify_pin_lockout}
use pst_boitier_pki.Storage.{hsm_storage_save_token_info, hsm_storage_load_token_info}
use pst_boitier_pki.Storage.TokenFile.{IsSized, save-load}
use pst_boitier_pki.Tests.{digest, sample, user_pin, wrong, disk}

sample-IsGuarded : IsGuarded cku_user sample
sample-IsGuarded = record { bounded = omega arith; locked = refl }

wrong-IsWrong : digest wrong ≢ digest user_pin
wrong-IsWrong e = ground arith

abbrev wrongs : List Bytes
wrongs = wrong ∷ wrong ∷ wrong ∷ []

-- After three wrong PINs the right one is refused.
hsm_verify_pin_lockout_example :
    hsm_verify_pin digest cku_user user_pin (verify_all digest cku_user wrongs sample)
    ≡ (ckr_pin_locked, verify_all digest cku_user wrongs sample)
hsm_verify_pin_lockout_example =
    hsm_verify_pin_lockout digest cku_user wrongs sample sample-IsGuarded refl
      (wrong-IsWrong, (wrong-IsWrong, (wrong-IsWrong, tt))) (omega arith) user_pin

other_user : (cku_user == cku_so) ≢ (cku_so == cku_so)
other_user e = ground arith

sample-IsSized : IsSized sample
sample-IsSized = record { label = refl; user_hash = refl; so_hash = refl }

-- The token that is loaded into: zeroed, with the counters that a start sets.
abbrev zeroed : Token
zeroed = record {
  token_label = replicate 32 0;
  token_initialized = false;
  user_pin_initialized = false;
  so_pin_initialized = false;
  user_pin_hash = replicate 32 0;
  so_pin_hash = replicate 32 0;
  user_pin_retry_count = 3;
  so_pin_retry_count = 3;
  user_pin_locked = false;
  so_pin_locked = false;
}

abbrev locked_out : Token
locked_out = record sample { user_pin_locked = true; user_pin_retry_count = 0 }

locked_out-IsSized : IsSized locked_out
locked_out-IsSized = record { label = refl; user_hash = refl; so_hash = refl }

zeroed-IsSized : IsSized zeroed
zeroed-IsSized = record { label = refl; user_hash = refl; so_hash = refl }

-- A token that is locked out is no longer so when it is loaded again.
save-load_example :
    ((hsm_storage_save_token_info locked_out disk).0 ≡ ckr_ok)
    × (hsm_storage_load_token_info (hsm_storage_save_token_info locked_out disk).1 zeroed
        ≡ (ckr_ok, sample))
save-load_example = save-load locked_out zeroed disk locked_out-IsSized zeroed-IsSized refl

one_wrong : (hsm_verify_pin digest cku_user wrong sample).0 ≡ ckr_pin_incorrect
unfolding hsm_verify_pin
one_wrong = refl
