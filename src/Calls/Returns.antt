-- ===== src/Calls/Returns.antt =====
-- Each call on a session that has no templates returns in a sound state, and leaves one.
use pst_boitier_pki.Common.{Bool, ℕ, ◌≡◌, ◌<◌, refl, true, false, Bytes, [], arith}
use pst_boitier_pki.Hsm.State.{Token, HsmContext, HsmSlot, HsmSession, hsm_max_sessions}
use pst_boitier_pki.Hsm.Cmd.{done, Ends}
use pst_boitier_pki.Hsm.Focus.{focus}
use pst_boitier_pki.Pin.Guard.{
  AllGuarded, login_spec-AllGuarded, set_pin_spec-AllGuarded, init_pin_spec-AllGuarded,
}
use pst_boitier_pki.Session.{hsm_verify_session}
use pst_boitier_pki.Login.{c_login, c_logout, c_set_pin, c_init_pin}
use pst_boitier_pki.Login.Refine.{
  Leads, login_spec, logout_spec, login-refines, logout-refines, with_token,
}
use pst_boitier_pki.OpenSsl.{OpenSsl}
use pst_boitier_pki.SignCalls.{c_sign_init, c_sign, c_verify_init, c_verify, c_generate_random}
use pst_boitier_pki.SignCalls.Refine.{sign_init_spec, sign_init-refines, sign-refines}
use pst_boitier_pki.SignCalls.Verify.{verify_init_spec, verify_spec, verify-refines}
use pst_boitier_pki.Calls.{
  set_pin, init_pin, Call, login, logout, sign_init, sign, verify_init, verify, generate_random,
  run,
}
use pst_boitier_pki.Login.PinCalls.{
  saved, settled, set_pin_spec, init_pin_spec, set_pin-refines, init_pin-refines,
}
use pst_boitier_pki.Calls.Sound.{IsSound, focus-IsSound, disk-IsSound}
use pst_boitier_pki.Calls.Keep.{kept, absent, present, lookup, Keeps}
use pst_boitier_pki.Calls.Specs.{
  login-Keeps, logout-Keeps, sign_init-Keeps, verify_init-Keeps, verify-Keeps, sign-Keeps,
}

-- The call returns, and the state is sound after it.
abbrev pub Returns : (Bytes → Bytes) → OpenSsl → Call → HsmContext → Type 0
Returns sha256 o c g = Ends (λ _ h. IsSound h) (run sha256 o c g)

module _ (sha256 : Bytes → Bytes) (o : OpenSsl) (g : HsmContext) (sound : IsSound g) where
  pub unchanged : (c : Call) → run sha256 o c g ≡ done tt g → Returns sha256 o c g
  unchanged c e = rw e sound

  pub changed :
      (c : Call) (handle i : ℕ) (x y : HsmSession) (a : HsmSlot)
      → i < hsm_max_sessions
      → Leads handle i x g
      → Keeps x y
      → a.session_count ≡ (g.slots 0).session_count
      → a.lock ≡ false
      → a.objects ≡ (g.slots 0).objects
      → a.object_count ≡ (g.slots 0).object_count
      → AllGuarded a.token
      → run sha256 o c g ≡ done tt (focus g i y a)
      → Returns sha256 o c g
  changed c handle i x y a inside l k count free objects number guarded e =
      rw e (focus-IsSound g sound i x y a inside l.present k count free objects number guarded)

  pub login-Returns :
      (user_type : ℕ) (pin : Bytes) (now handle : ℕ)
      → Returns sha256 o (login user_type pin now handle) g
  unfolding c_login
  login-Returns user_type pin now handle = elim (lookup handle g sound.well) [
    | absent e q ↦ unchanged (login user_type pin now handle) (ground (arith, q))
    | present i x e inside l ↦
        let (rv, x', t') = login_spec sha256 user_type pin now x (g.slots 0).token in
        changed (login user_type pin now handle) handle i x x' (with_token g t') inside l
          (login-Keeps sha256 user_type pin now x (g.slots 0).token) refl refl refl refl
          (login_spec-AllGuarded sha256 user_type pin now x (g.slots 0).token sound.guarded)
          (ground (arith, login-refines sha256 user_type pin now handle i x g sound.well.ready l))
  ]

  pub logout-Returns : (handle : ℕ) → Returns sha256 o (logout handle) g
  unfolding c_logout
  logout-Returns handle = elim (lookup handle g sound.well) [
    | absent e q ↦ unchanged (logout handle) (ground (arith, q))
    | present i x e inside l ↦
        changed (logout handle) handle i x (logout_spec x).1 (g.slots 0) inside l (logout-Keeps x)
          refl sound.well.ready.free refl refl sound.guarded
          (ground (arith, logout-refines handle i x g sound.well.ready l))
  ]

  pinned :
      (c : Call) (handle i : ℕ) (x : HsmSession) (t : Token) (b : Bool)
      → i < hsm_max_sessions
      → Leads handle i x g
      → AllGuarded t
      → run sha256 o c g ≡ done tt (settled g i x t b)
      → Returns sha256 o c g
  pinned c handle i x t b inside l guarded e = rw e (
      disk-IsSound (saved b t g.disk) (focus g i x (with_token g t)) (
        focus-IsSound g sound i x x (with_token g t) inside l.present kept refl refl refl refl
          guarded))

  pub set_pin-Returns : (old new : Bytes) (handle : ℕ) → Returns sha256 o (set_pin old new handle) g
  unfolding c_set_pin
  set_pin-Returns old new handle = elim (lookup handle g sound.well) [
    | absent e q ↦ unchanged (set_pin old new handle) (ground (arith, q))
    | present i x e inside l ↦
        let (rv, t', b) = set_pin_spec sha256 old new x (g.slots 0).token in
        pinned (set_pin old new handle) handle i x t' b inside l
          (set_pin_spec-AllGuarded sha256 old new x (g.slots 0).token sound.guarded)
          (ground (arith, set_pin-refines sha256 handle i x g sound.well.ready l old new))
  ]

  pub init_pin-Returns : (pin : Bytes) (handle : ℕ) → Returns sha256 o (init_pin pin handle) g
  unfolding c_init_pin
  init_pin-Returns pin handle = elim (lookup handle g sound.well) [
    | absent e q ↦ unchanged (init_pin pin handle) (ground (arith, q))
    | present i x e inside l ↦
        let (rv, t', b) = init_pin_spec sha256 pin x (g.slots 0).token in
        pinned (init_pin pin handle) handle i x t' b inside l
          (init_pin_spec-AllGuarded sha256 pin x (g.slots 0).token sound.guarded)
          (ground (arith, init_pin-refines sha256 handle i x g sound.well.ready l pin))
  ]

  pub sign_init-Returns :
      (mechanism key handle : ℕ) → Returns sha256 o (sign_init mechanism key handle) g
  unfolding c_sign_init
  sign_init-Returns mechanism key handle = elim (lookup handle g sound.well) [
    | absent e q ↦ unchanged (sign_init mechanism key handle) (ground (arith, q))
    | present i x e inside l ↦
        changed (sign_init mechanism key handle) handle i x
          (sign_init_spec mechanism key (g.slots 0) x).1 (g.slots 0) inside l
          (sign_init-Keeps mechanism key (g.slots 0) x) refl sound.well.ready.free refl refl
          sound.guarded
          (ground (arith, sign_init-refines handle i x g sound.well.ready l mechanism key))
  ]

  pub verify_init-Returns :
      (mechanism key handle : ℕ) → Returns sha256 o (verify_init mechanism key handle) g
  unfolding c_verify_init
  verify_init-Returns mechanism key handle = elim (lookup handle g sound.well) [
    | absent e q ↦ unchanged (verify_init mechanism key handle) (ground (arith, q))
    | present i x e inside l ↦
        changed (verify_init mechanism key handle) handle i x
          (verify_init_spec mechanism key (g.slots 0) x).1 (g.slots 0) inside l
          (verify_init-Keeps mechanism key (g.slots 0) x) refl sound.well.ready.free refl refl
          sound.guarded
          (ground (arith, (verify-refines handle i x g sound.well.ready l mechanism key [] []).0))
  ]

  pub verify-Returns :
      (data' signature : Bytes) (handle : ℕ) → Returns sha256 o (verify data' signature handle) g
  unfolding c_verify
  verify-Returns data' signature handle = elim (lookup handle g sound.well) [
    | absent e q ↦ unchanged (verify data' signature handle) (ground (arith, q))
    | present i x e inside l ↦
        changed (verify data' signature handle) handle i x (verify_spec (g.slots 0) x).1 (g.slots 0)
          inside l (verify-Keeps (g.slots 0) x) refl sound.well.ready.free refl refl sound.guarded
          (ground (arith, (verify-refines handle i x g sound.well.ready l 0 0 data' signature).1))
  ]

  pub sign-Returns : (data' : Bytes) (len handle : ℕ) → Returns sha256 o (sign data' len handle) g
  unfolding c_sign
  sign-Returns data' len handle = elim (lookup handle g sound.well) [
    | absent e q ↦ unchanged (sign data' len handle) (ground (arith, q))
    | present i x e inside l ↦
        let (out, x', made, k) = sign-Keeps o data' len (g.slots 0) x in
        changed (sign data' len handle) handle i x x' (g.slots 0) inside l k refl
          sound.well.ready.free refl refl sound.guarded
          (ground (arith, sign-refines handle i x g sound.well.ready l o data' true len, made))
  ]

  pub generate_random-Returns : (len handle : ℕ) → Returns sha256 o (generate_random len handle) g
  unfolding c_generate_random hsm_verify_session
  generate_random-Returns len handle = elim (lookup handle g sound.well) [
    | absent e q ↦ unchanged (generate_random len handle) (ground (arith, q))
    | present i x e inside l ↦ unchanged (generate_random len handle) (ground (arith, l.found))
  ]
