-- ===== src/Pin/Change.antt =====
-- hsm_set_pin of hsm/src/utils/utils.c against hsm_verify_pin, and one PIN against the other.
use pst_boitier_pki.Common.{
  ℕ, ◌≡◌, ◌≢◌, ◌↔◌, true, false, Bytes, memeq, ◌==◌, arith, eq_of_memeq, memeq_refl, ap,
}
use pst_boitier_pki.Cryptoki.{ckr_ok, cku_so}
use pst_boitier_pki.Hsm.State.{Token}
use pst_boitier_pki.Pin.{
  pin_len_bad, pin_initialized, pin_hash, retry_count, pin_locked, hsm_set_pin, hsm_verify_pin,
}

-- What `hsm_verify_pin` reads of one user.
abbrev pub SamePin : ℕ → Token → Token → Type 0
SamePin v t t' =
    (pin_initialized v t' ≡ pin_initialized v t)
    × (pin_hash v t' ≡ pin_hash v t)
    × (retry_count v t' ≡ retry_count v t)
    × (pin_locked v t' ≡ pin_locked v t)

module _ (sha256 : Bytes → Bytes) where
  -- After a PIN of legal length is set for a user whose PIN is in use and not locked, a PIN is
  -- accepted for that user exactly when it has the same hash.
  pub set_pin-verify_pin :
      (user_type : ℕ) (new pin : Bytes) (t : Token)
      → pin_len_bad new ≡ false
      → pin_initialized user_type t ≡ true
      → pin_locked user_type t ≡ false
      → ((hsm_verify_pin sha256 user_type pin (hsm_set_pin sha256 user_type new t).1).0 ≡ ckr_ok)
        ↔ (sha256 pin ≡ sha256 new)
  unfolding hsm_set_pin hsm_verify_pin
  set_pin-verify_pin user_type new pin t len set free = (
    λ e. ground (arith, eq_of_memeq (sha256 pin) (sha256 new)),
    λ e. ground (arith, memeq_refl (sha256 pin), ap (memeq (sha256 pin)) e),
  )

  -- Neither setting nor checking one user's PIN touches the other's.
  pub pin_independent :
      (user_type v : ℕ) (pin : Bytes) (t : Token)
      → (user_type == cku_so) ≢ (v == cku_so)
      → SamePin v t (hsm_set_pin sha256 user_type pin t).1
        × SamePin v t (hsm_verify_pin sha256 user_type pin t).1
  unfolding hsm_set_pin hsm_verify_pin
  pin_independent user_type v pin t other = ground arith
