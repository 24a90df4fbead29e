-- ===== src/Hsm.antt =====
-- The state of the library (hsm/include/pkcs11/pkcs11_internal.h) and the modules over it.
pub mod State
pub mod Cmd
pub mod Focus
pub mod Invariant
pub mod Ends
pub mod Slots
