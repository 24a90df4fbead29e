-- ===== src/Calls/Reach.antt =====
-- The states that sequences of calls lead to are sound, and in them every call returns.
use pst_boitier_pki.Hsm.Cmd.{◌>>◌}
use pst_boitier_pki.OpenSsl.{OpenSsl}
use pst_boitier_pki.Calls.Returns.{Returns}
