-- ===== src/Lib.antt =====
-- Verification of the HSM library of this repository (hsm/): the PKCS#11 token written in C.
--
-- The program. hsm/src/pkcs11/ implements the calls of the PKCS#11 interface over one global state,
-- g_hsm_context: an array of slots, each with a token (label, PIN hashes, retry counters), a table of
-- sessions, a table of objects and a mutex. hsm/src/utils/utils.c holds the PIN checks and the start of
-- a slot, hsm/src/storage/storage.c the files of the token and of the objects.
--
-- The model. hsm/include/pkcs11/pkcs11.h is Cryptoki.antt: return values and constants.
-- hsm/include/pkcs11/pkcs11_internal.h is Hsm/State.antt: one record per structure, a table is a
-- function from index to Option (`none` for NULL), an array of bytes a list. A call is a command of
-- Hsm/Cmd.antt: it ends with a value and a new state, or stops for ever at a mutex that its thread holds
-- (`deadlock`), or leaves an allocation (`fault`). Hsm/Invariant.antt says which states are well formed,
-- Hsm/Slots.antt and Hsm/Focus.antt how the primitives act on a state that was just written.
--   hsm/src/utils/utils.c: hsm_set_pin, hsm_verify_pin in Pin.antt, SHA-256 a parameter.
--   hsm/src/storage/storage.c: Storage.antt; a file is a byte list, a disk says what can be written.
--     The list of the object files: Storage/ObjectList.antt.
--   hsm/src/pkcs11/session.c: the session table and C_OpenSession, C_CloseSession,
--     C_CloseAllSessions in Session.antt; C_Login, C_Logout, C_GetSessionInfo, C_InitPIN, C_SetPIN,
--     C_InitToken in Login.antt.
--   hsm/src/pkcs11/objects.c: the attribute functions in Attributes.antt, on buffers of bytes; the
--     table of objects and the search in Objects.antt, with hsm_generate_object_handle of utils.c.
--   C_Initialize and C_Finalize of hsm/src/pkcs11/pkcs11_impl.c, and the functions of utils.c that set
--     up and clean up the context and a slot: Library.antt.
--   hsm/src/crypto/crypto_ops.c: key generation in Keys.antt, signing in Signing.antt,
--     C_GenerateRandom in SignCalls.antt; OpenSSL is the record of OpenSsl.antt, a parameter.
--   hsm/src/pkcs11/crypto_ops.c: C_GenerateKeyPair in KeyPair.antt, the other calls in SignCalls.antt.
--   The calls of pkcs11_impl.c that give information, and its stubs: Info.antt, TokenInfo.antt; the
--     table of the functions of C_GetFunctionList: FunctionList.antt.
--   utils.c: hsm_log in Logging.antt, the texts of numbers in Logging/Names.antt, the memory helpers in
--     Memory.antt.
--   Sequences of calls, as a relation between states: Calls.antt; the invariant of the whole library that
--     they keep is Calls/Sound.antt.
--   hsm/src/network/network_server.c: Server.antt, a connection as the bytes received and sent;
--     the threads of several connections and the main thread, in any order, up to the call of
--     C_Finalize: Server/Threads.antt. `recv` and `send` wait for ever where the client falls silent.
--   hsm_check_mechanism_supported, C_GetMechanismList and C_GetMechanismInfo: Mechanisms.antt.
-- The theorems are in the child modules. Tests.antt holds sample states, its children the examples.
--
-- Bounds. The loops over the slots and the tables run on the number of rounds that is left, which
-- starts at the bound that the source has (slot_count, HSM_MAX_SESSIONS, HSM_MAX_OBJECTS), so no
-- fuel can run out. Counters wrap at their C width (32 bits for session_count and object_count, 64 for
-- handles). The clock and the success of calloc are arguments. The server's loop runs on fuel: one round more than
-- there are bytes to come is enough, as each round takes at least one.
--
-- Not modelled: the messages that the calls give to hsm_log, the client, and calls of the library by
-- several threads at once: a mutex is only seen by the thread that takes it, and the server's threads
-- make only calls that read what they share. C_Finalize in network_server_start, which does not wait for
-- the threads and races with their calls, is left out of Server/Threads.antt; so are broken connections,
-- the SIGPIPE of a `send` to one, and signals in the middle of a `recv`.
pub mod Common
pub mod Cryptoki
pub mod FunctionList
pub mod Hsm
pub mod Pin
pub mod Storage
pub mod Session
pub mod Login
pub mod Attributes
pub mod Objects
pub mod Mechanisms
pub mod OpenSsl
pub mod Keys
pub mod Signing
pub mod SignCalls
pub mod KeyPair
pub mod Info
pub mod Logging
pub mod Memory
pub mod TokenInfo
pub mod Calls
pub mod Library
pub mod Server
pub mod Tests
