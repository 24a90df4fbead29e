-- ===== src/Logging/Lifetime.antt =====
-- Which messages are written while the library is not running: those of errors only.
use pst_boitier_pki.Common.{
  ◌≡◌, refl, ◌≢◌, ℕ, zero, suc, ◌<◌, false, [], Bytes, ==_ne, arith, not, ◌&&◌, ◌==◌, inl, inr,
  Bool-cases,
}
use pst_boitier_pki.Hsm.State.{mutex_free, HsmContext}
use pst_boitier_pki.Hsm.Cmd.{done, ◌>>◌, Ends}
use pst_boitier_pki.Hsm.Ends.{Ends-and_then}
use pst_boitier_pki.Hsm.Invariant.{IsWell}
use pst_boitier_pki.Library.{c_finalize}
use pst_boitier_pki.Library.Stop.{finalize-IsStopped}
use pst_boitier_pki.Logging.{hsm_log, level_str, print_line, hsm_log_error, hsm_log_info}

-- A library that is not running writes no message but an error.
pub hsm_log-silent :
    (time_buf message : Bytes) (level : ℕ) (g : HsmContext)
    → g.initialized ≡ false
    → level ≢ hsm_log_error
    → hsm_log time_buf message level g ≡ done [] g
unfolding hsm_log
hsm_log-silent time_buf message level g off e = rw (off, ==_ne level hsm_log_error e) refl

-- The message at the end of C_Finalize is never written: it comes after `initialized` is cleared.
pub finalize-silent :
    (time_buf message : Bytes) (g : HsmContext)
    → IsWell g
    → g.global_lock ≡ mutex_free
    → Ends (λ out h. out ≡ []) ((c_finalize false >> hsm_log time_buf message hsm_log_info) g)
finalize-silent time_buf message g w free =
    Ends-and_then _ (c_finalize false g) (λ _. hsm_log time_buf message hsm_log_info)
      (finalize-IsStopped g w free)
      (λ rv h p.
        rw
          (hsm_log-silent time_buf message hsm_log_info h p.1.initialized
            (λ e. absurd (omega arith)))
          refl)

-- A message of one of the four levels is written without leaving the array of their names, and
-- changes nothing.
pub hsm_log-returns :
    (time_buf message : Bytes) (level : ℕ) (g : HsmContext)
    → level < 4
    → Ends (λ out h. h ≡ g) (hsm_log time_buf message level g)
unfolding hsm_log level_str
hsm_log-returns time_buf message level g small =
    elim (Bool-cases (not g.initialized && not (level == hsm_log_error))) [
      | inl e ↦ rw e refl
      | inr e ↦ rw e (named level small)
    ]
  where
    named :
        (level : ℕ)
        → level < 4
        → Ends (λ out h. h ≡ g) (print_line time_buf message (level_str level) g)
    named zero h = refl
    named (suc zero) h = refl
    named (suc (suc zero)) h = refl
    named (suc (suc (suc zero))) h = refl
    named (suc (suc (suc (suc n)))) h = absurd (omega arith)
