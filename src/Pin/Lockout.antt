-- ===== src/Pin/Lockout.antt =====
-- The retry counters of hsm_verify_pin of hsm/src/utils/utils.c.
use pst_boitier_pki.Common.{
  ℕ, ◌-◌, ◌≤◌, ◌<◌, ◌≡◌, ◌≢◌, true, false, List, [], ◌∷◌, Bytes, length, memeq, ◌==◌, arith,
  eq_of_memeq, memeq_refl, ◌∙◌, ap,
}
use pst_boitier_pki.Cryptoki.{ckr_ok, ckr_pin_locked}
use pst_boitier_pki.Hsm.State.{Token, hsm_pin_retry_count}
use pst_boitier_pki.Pin.{pin_initialized, pin_hash, retry_count, pin_locked, hsm_verify_pin}

-- A PIN is locked exactly when no attempt is left, and never more than three are left.
pub record IsGuarded (user_type : ℕ) (t : Token) : Type 0 where
  pub bounded : retry_count user_type t ≤ hsm_pin_retry_count
  pub locked : pin_locked user_type t ≡ (retry_count user_type t == 0)

module _ (sha256 : Bytes → Bytes) where
  -- The attempts one after the other.
  pub verify_all : ℕ → List Bytes → Token → Token
  verify_all user_type [] t = t
  verify_all user_type (pin ∷ pins) t =
      verify_all user_type pins (hsm_verify_pin sha256 user_type pin t).1

  -- `pin` does not have the stored hash.
  abbrev pub IsWrong : ℕ → Token → Bytes → Type 0
  IsWrong user_type t pin = sha256 pin ≢ pin_hash user_type t

  abbrev pub AllWrong : ℕ → Token → List Bytes → Type 0
  AllWrong user_type t [] = Unit {0}
  AllWrong user_type t (pin ∷ pins) = IsWrong user_type t pin × AllWrong user_type t pins

  -- For either user, a token whose PIN is locked exactly when no attempt is left, with three left at
  -- most, is so again after hsm_verify_pin, whichever user's PIN was checked.
  pub hsm_verify_pin-IsGuarded :
      (user_type v : ℕ) (pin : Bytes) (t : Token)
      → IsGuarded v t
      → IsGuarded v (hsm_verify_pin sha256 user_type pin t).1
  unfolding hsm_verify_pin
  hsm_verify_pin-IsGuarded user_type v pin t g = ground arith

  -- A wrong PIN takes one attempt away, if one is left, and changes neither hash nor state.
  verify_wrong :
      (user_type : ℕ) (pin : Bytes) (t : Token)
      → IsGuarded user_type t
      → pin_initialized user_type t ≡ true
      → IsWrong user_type t pin
      → let t' = (hsm_verify_pin sha256 user_type pin t).1 in
        (retry_count user_type t' ≡ retry_count user_type t - 1)
        × (pin_hash user_type t' ≡ pin_hash user_type t)
        × (pin_initialized user_type t' ≡ true)
  unfolding hsm_verify_pin
  verify_wrong user_type pin t g set wrong =
      ground (arith, eq_of_memeq (sha256 pin) (pin_hash user_type t))

  AllWrong-hash :
      (user_type : ℕ) (pins : List Bytes) (t t' : Token)
      → pin_hash user_type t' ≡ pin_hash user_type t
      → AllWrong user_type t pins
      → AllWrong user_type t' pins
  AllWrong-hash user_type [] t t' e w = tt
  AllWrong-hash user_type (pin ∷ pins) t t' e w =
      (λ h. w.0 (h ∙ e), AllWrong-hash user_type pins t t' e w.1)

  -- Wrong PINs one after the other take one attempt each, and leave the token guarded.
  pub verify_all-wrong :
      (user_type : ℕ) (pins : List Bytes) (t : Token)
      → IsGuarded user_type t
      → pin_initialized user_type t ≡ true
      → AllWrong user_type t pins
      → let t' = verify_all user_type pins t in
        IsGuarded user_type t'
        × (retry_count user_type t' ≡ retry_count user_type t - length pins)
        × (pin_initialized user_type t' ≡ true)
  unfolding verify_all
  verify_all-wrong user_type [] t g set w = (g, omega arith, set)
  verify_all-wrong user_type (pin ∷ pins) t g set w =
      let (left, hash, still) = verify_wrong user_type pin t g set w.0 in
      let t' = (hsm_verify_pin sha256 user_type pin t).1 in
      let (g', n, s) =
        verify_all-wrong user_type pins t' (hsm_verify_pin-IsGuarded user_type user_type pin t g)
          still (AllWrong-hash user_type pins t t' hash w.1) in
      (g', omega (arith, n, left), s)

  verify_locked :
      (user_type : ℕ) (pin : Bytes) (t : Token)
      → pin_initialized user_type t ≡ true
      → pin_locked user_type t ≡ true
      → hsm_verify_pin sha256 user_type pin t ≡ (ckr_pin_locked, t)
  unfolding hsm_verify_pin
  verify_locked user_type pin t set l = rw (set, l)

  -- Let a PIN be in use on a token where it is locked exactly when no attempt is left, with three
  -- left at most. As many wrong PINs as attempts are left, one after the other, lock it: from
  -- then on every PIN, the right one too, is answered with CKR_PIN_LOCKED and changes nothing.
  pub hsm_verify_pin_lockout :
      (user_type : ℕ) (pins : List Bytes) (t : Token)
      → IsGuarded user_type t
      → pin_initialized user_type t ≡ true
      → AllWrong user_type t pins
      → retry_count user_type t ≤ length pins
      → (pin : Bytes)
      → hsm_verify_pin sha256 user_type pin (verify_all user_type pins t)
        ≡ (ckr_pin_locked, verify_all user_type pins t)
  hsm_verify_pin_lockout user_type pins t g set w enough pin =
      let t' = verify_all user_type pins t in
      let (g', n, s) = verify_all-wrong user_type pins t g set w in
      verify_locked user_type pin t' s (g'.locked ∙ ground (arith, n))

  -- Let a PIN be in use on a token where it is locked exactly when no attempt is left, with three
  -- left at most. The right PIN, while an attempt is left, is accepted and gives all three
  -- attempts back.
  pub hsm_verify_pin_right :
      (user_type : ℕ) (pin : Bytes) (t : Token)
      → IsGuarded user_type t
      → pin_initialized user_type t ≡ true
      → 0 < retry_count user_type t
      → sha256 pin ≡ pin_hash user_type t
      → let (rv, t') = hsm_verify_pin sha256 user_type pin t in
        (rv ≡ ckr_ok) × (retry_count user_type t' ≡ 3) × (pin_locked user_type t' ≡ false)
  unfolding hsm_verify_pin
  hsm_verify_pin_right user_type pin t g set left e =
      ground (arith, memeq_refl (sha256 pin), ap (memeq (sha256 pin)) e)
