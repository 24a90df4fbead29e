-- ===== src/Calls.antt =====
-- Sequences of calls on the running library (hsm/src/pkcs11/): which state each call leads to.
pub mod Keep
pub mod Sound
pub mod Tables
pub mod Starts
pub mod Specs
pub mod Searches
pub mod Destroyed
pub mod Added
pub mod Values
pub mod Returns
pub mod ObjectReturns
pub mod SlotReturns
pub mod InfoReturns
pub mod Reach
use pst_boitier_pki.Common.{
  false, length, ◌≤◌, List, ℕ, Bool, true, Option, some, Bytes, ◌≡◌, ◌<◌, ◌+◌, ◌^◌,
}
use pst_boitier_pki.Hsm.State.{HsmContext}
use pst_boitier_pki.Hsm.Cmd.{Cmd, done, pure, ◌>>=◌, ◌>>◌}
use pst_boitier_pki.Session.{c_open_session, c_close_session, c_close_all_sessions}
use pst_boitier_pki.Login.{
  c_login, c_logout, c_set_pin, c_init_pin, c_get_session_info, c_init_token, label_len,
}
use pst_boitier_pki.Info.{c_get_slot_list, c_get_slot_info}
use pst_boitier_pki.Objects.{
  c_find_objects_init, c_find_objects, c_find_objects_final, c_create_object, c_destroy_object,
  c_get_attribute_value, c_set_attribute_value,
}
use pst_boitier_pki.Attributes.{CkAttribute}
use pst_boitier_pki.Attributes.Safe.{AllRoomy}
use pst_boitier_pki.KeyPair.{c_generate_key_pair}
use pst_boitier_pki.Cryptoki.{ckr_ok}
use pst_boitier_pki.Storage.{hsm_storage_init}
use pst_boitier_pki.Library.{c_initialize, c_finalize}
use pst_boitier_pki.TokenInfo.{c_get_token_info}
use pst_boitier_pki.OpenSsl.{OpenSsl}
use pst_boitier_pki.SignCalls.{c_sign_init, c_sign, c_verify_init, c_verify, c_generate_random}

-- A call with its arguments, pointers not NULL and memory to allocate. `restart` is C_Finalize and then
-- C_Initialize.
pub data Call : Type 0 where
  open_session : (now slot_id flags : ℕ) → Call
  close_session : (handle : ℕ) → Call
  login : (user_type : ℕ) (pin : Bytes) (now handle : ℕ) → Call
  logout : (handle : ℕ) → Call
  set_pin : (old new : Bytes) (handle : ℕ) → Call
  init_pin : (pin : Bytes) (handle : ℕ) → Call
  sign_init : (mechanism key handle : ℕ) → Call
  sign : (data' : Bytes) (len handle : ℕ) → Call
  verify_init : (mechanism key handle : ℕ) → Call
  verify : (data' signature : Bytes) (handle : ℕ) → Call
  generate_random : (len handle : ℕ) → Call
  find_objects_init : (handle : ℕ) → Call
  find_objects : (max_count handle : ℕ) → Call
  find_objects_final : (handle : ℕ) → Call
  create_object : (now handle : ℕ) (template : List CkAttribute) → Call
  destroy_object : (handle object : ℕ) → Call
  get_attribute_value :
      (ck_unavailable_information handle object : ℕ) (template : List CkAttribute) → Call
  set_attribute_value : (handle object : ℕ) (template : List CkAttribute) → Call
  generate_key_pair : (mechanism handle : ℕ) (pub_template priv_template : List CkAttribute) → Call
  get_session_info : (handle : ℕ) → Call
  get_slot_list : (token_present list_given : Bool) (count : ℕ) → Call
  get_slot_info : (slot_id : ℕ) → Call
  get_token_info : (unavailable now slot_id : ℕ) → Call
  close_all_sessions : (slot_id : ℕ) → Call
  init_token : (slot_id : ℕ) (pin label : Bytes) → Call
  restart : Call

-- The call, its outputs left out.
abbrev pub run : (Bytes → Bytes) → OpenSsl → Call → Cmd (Unit {0})
run sha256 o (open_session now slot_id flags) = do
  c_open_session true now slot_id flags true
  pure tt
run sha256 o (close_session handle) = do c_close_session handle; pure tt
run sha256 o (login user_type pin now handle) = do
  c_login sha256 user_type (some pin) now handle
  pure tt
run sha256 o (logout handle) = do c_logout handle; pure tt
run sha256 o (set_pin old new handle) = do c_set_pin sha256 (some old) (some new) handle; pure tt
run sha256 o (init_pin pin handle) = do c_init_pin sha256 (some pin) handle; pure tt
run sha256 o (sign_init mechanism key handle) = do c_sign_init (some mechanism) key handle; pure tt
run sha256 o (sign data' len handle) = do c_sign o (some data') true (some len) handle; pure tt
run sha256 o (verify_init mechanism key handle) = do
  c_verify_init (some mechanism) key handle
  pure tt
run sha256 o (verify data' signature handle) = do
  c_verify (some data') (some signature) handle
  pure tt
run sha256 o (generate_random len handle) = do c_generate_random o true len handle; pure tt
run sha256 o (find_objects_init handle) = do c_find_objects_init handle; pure tt
run sha256 o (find_objects max_count handle) = do c_find_objects true max_count handle; pure tt
run sha256 o (find_objects_final handle) = do c_find_objects_final handle; pure tt
run sha256 o (destroy_object handle object) = do c_destroy_object handle object; pure tt
run sha256 o (create_object now handle template) = do
  c_create_object true now handle (some template) true
  pure tt
run sha256 o (get_attribute_value unavailable handle object template) = do
  c_get_attribute_value unavailable handle object (some template)
  pure tt
run sha256 o (set_attribute_value handle object template) = do
  c_set_attribute_value handle object (some template)
  pure tt
run sha256 o (generate_key_pair mechanism handle pub_template priv_template) = do
  c_generate_key_pair o true true true (some mechanism) pub_template priv_template true handle
  pure tt
run sha256 o (get_session_info handle) = do c_get_session_info true handle; pure tt
run sha256 o (get_slot_list token_present list_given count) = do
  c_get_slot_list token_present list_given (some count)
  pure tt
run sha256 o (get_slot_info slot_id) = do c_get_slot_info true slot_id; pure tt
run sha256 o (get_token_info unavailable now slot_id) = do
  c_get_token_info unavailable now true slot_id
  pure tt
run sha256 o (close_all_sessions slot_id) = do c_close_all_sessions slot_id; pure tt
run sha256 o (init_token slot_id pin label) = do
  c_init_token sha256 slot_id (some pin) (some label)
  pure tt
run sha256 o restart = do c_finalize false; c_initialize true; pure tt

-- Every attribute of the call's templates has a buffer (Attributes/Safe.antt).
abbrev pub HasBuffers : Call → Type 0
HasBuffers (create_object now handle template) = AllRoomy template
HasBuffers (get_attribute_value unavailable handle object template) = AllRoomy template
HasBuffers (set_attribute_value handle object template) = AllRoomy template
HasBuffers (generate_key_pair mechanism handle pub_template priv_template) =
    AllRoomy pub_template × AllRoomy priv_template
HasBuffers (init_token slot_id pin label) = label_len pin ≤ length label
HasBuffers c = Unit {0}

-- What else a call wants of the state: the calls that close the sessions of a slot find none open
-- (Session/CloseAll.antt), and a restart finds the directories, or can make them.
abbrev pub Suits : Call → HsmContext → Type 0
Suits (close_all_sessions slot_id) g = (g.slots 0).session_count ≡ 0
Suits (init_token slot_id pin label) g = (g.slots 0).session_count ≡ 0
Suits restart g = (hsm_storage_init g.disk).0 ≡ ckr_ok
Suits c g = Unit {0}

-- The counters of handles are not at their ends.
pub record HasHandles (g : HsmContext) : Type 0 where
  pub sessions : g.next_session_handle + 1 < 2 ^ 64
  pub objects : g.object_counter + 2 < 2 ^ 28

-- The states that such calls lead to, while there are handles.
pub data Reaches (sha256 : Bytes → Bytes) (o : OpenSsl) : HsmContext → HsmContext → Type 0 where
  here : (g : HsmContext) → Reaches sha256 o g g
  step :
      (c : Call) (g h k : HsmContext)
      → HasBuffers c
      → Suits c g
      → HasHandles g
      → run sha256 o c g ≡ done tt h
      → Reaches sha256 o h k
      → Reaches sha256 o g k
