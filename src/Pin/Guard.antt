-- ===== src/Pin/Guard.antt =====
-- The retry counters and the lock flags of a token, under everything that changes them: C_Login,
-- C_SetPIN, C_InitPIN, C_InitToken and a start.
use pst_boitier_pki.Common.{ℕ, Bytes, arith, inl, inr, Option-cases}
use pst_boitier_pki.Hsm.State.{Token, Disk, HsmSession}
use pst_boitier_pki.Pin.{hsm_set_pin, hsm_verify_pin}
use pst_boitier_pki.Pin.Lockout.{IsGuarded, hsm_verify_pin-IsGuarded}
use pst_boitier_pki.Storage.{hsm_storage_load_token_info}
use pst_boitier_pki.Login.{token_ready, user_pin_ready, retries_reset, session_user}
use pst_boitier_pki.Login.Refine.{login_spec}
use pst_boitier_pki.Login.PinCalls.{store_spec, set_pin_spec, init_pin_spec}
use pst_boitier_pki.Login.InitToken.{new_token}
use pst_boitier_pki.Library.{blank_token}

-- Either PIN is locked exactly when no attempt is left, of three at most.
abbrev pub AllGuarded : Token → Type 0
AllGuarded t = (v : ℕ) → IsGuarded v t

-- The token file holds neither counters nor locks.
pub load-AllGuarded : (d : Disk) → AllGuarded (hsm_storage_load_token_info d blank_token).1
unfolding hsm_storage_load_token_info
load-AllGuarded d v = elim (Option-cases d.token_file) [
  | inl e ↦ ground (arith, e)
  | inr (file, e) ↦ ground (arith, e)
]

module _ (sha256 : Bytes → Bytes) where
  pub new_token-AllGuarded :
      (pin label : Bytes) (t : Token) → AllGuarded (new_token sha256 pin label t)
  unfolding new_token token_ready
  new_token-AllGuarded pin label t v = ground arith

  pub login_spec-AllGuarded :
      (user_type : ℕ) (pin : Bytes) (now : ℕ) (x : HsmSession) (t : Token)
      → AllGuarded t
      → AllGuarded (login_spec sha256 user_type pin now x t).2
  unfolding login_spec
  login_spec-AllGuarded user_type pin now x t g v =
      ground (arith, g v, hsm_verify_pin-IsGuarded sha256 user_type v pin t (g v))

  pub init_pin_spec-AllGuarded :
      (pin : Bytes) (x : HsmSession) (t : Token)
      → AllGuarded t
      → AllGuarded (init_pin_spec sha256 pin x t).1
  unfolding init_pin_spec store_spec hsm_set_pin user_pin_ready
  init_pin_spec-AllGuarded pin x t g v = ground (arith, g v)

  pub set_pin_spec-AllGuarded :
      (old new : Bytes) (x : HsmSession) (t : Token)
      → AllGuarded t
      → AllGuarded (set_pin_spec sha256 old new x t).1
  unfolding set_pin_spec store_spec hsm_set_pin retries_reset hsm_verify_pin session_user
  set_pin_spec-AllGuarded old new x t g v = ground (arith, g v)
