-- ===== src/SignCalls/Random.antt =====
-- C_GenerateRandom of hsm/src/crypto/crypto_ops.c.
use pst_boitier_pki.Common.{Option, none, some, Bytes}
use pst_boitier_pki.Cryptoki.{CkRv, ckr_ok, ckr_random_no_rng}
use pst_boitier_pki.OpenSsl.{OpenSsl}

-- The value and the bytes for what `RAND_bytes` gave.
abbrev pub random_spec : Option Bytes → CkRv × Option Bytes
random_spec none = (ckr_random_no_rng, none)
random_spec (some b) = (ckr_ok, some b)
