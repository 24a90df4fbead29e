-- ===== src/Logging.antt =====
-- hsm_log of hsm/src/utils/utils.c. The date that strftime makes of the clock, and the message that
-- vfprintf makes of the format and its arguments, are byte lists given to it.
pub mod Lifetime
pub mod Names
use pst_boitier_pki.Common.{
  ℕ, zero, suc, Bool, true, false, Option, none, some, List, [], ◌∷◌, ◌++◌, Bytes, ◌==◌,
  if◌then◌else◌, not, ◌&&◌,
}
use pst_boitier_pki.Hsm.State.{HsmContext}
use pst_boitier_pki.Hsm.State
use pst_boitier_pki.Hsm.Cmd.{Cmd, pure, ◌>>=◌, get, crash}

abbrev pub hsm_log_error : ℕ
hsm_log_error = 0

abbrev pub hsm_log_warn : ℕ
hsm_log_warn = 1

abbrev pub hsm_log_info : ℕ
hsm_log_info = 2

abbrev pub hsm_log_debug : ℕ
hsm_log_debug = 3

-- `level_str[level]`, `none` behind the end of the array.
unfoldable pub level_str : ℕ → Option Bytes
level_str zero = some (b'E' ∷ b'R' ∷ b'R' ∷ b'O' ∷ b'R' ∷ [])
level_str (suc zero) = some (b'W' ∷ b'A' ∷ b'R' ∷ b'N' ∷ [])
level_str (suc (suc zero)) = some (b'I' ∷ b'N' ∷ b'F' ∷ b'O' ∷ [])
level_str (suc (suc (suc zero))) = some (b'D' ∷ b'E' ∷ b'B' ∷ b'U' ∷ b'G' ∷ [])
level_str (suc (suc (suc (suc _)))) = none

-- `"[%s] [%s] "`, the message, and a line feed.
abbrev pub log_line : (time_buf level message : Bytes) → Bytes
log_line time_buf level message =
    (b'[' ∷ [])
    ++ time_buf
    ++ (b']' ∷ b' ' ∷ b'[' ∷ [])
    ++ level
    ++ (b']' ∷ b' ' ∷ [])
    ++ message
    ++ (10 ∷ [])

abbrev pub print_line : (time_buf message : Bytes) → Option Bytes → Cmd Bytes
print_line time_buf message none = crash
print_line time_buf message (some level) = pure (log_line time_buf level message)

-- The bytes that it writes to stderr.
unfoldable pub hsm_log : (time_buf message : Bytes) (level : ℕ) → Cmd Bytes
hsm_log time_buf message level = do
  g ← get
  if not g.initialized && not (level == hsm_log_error)
      then pure []
      else print_line time_buf message (level_str level)
