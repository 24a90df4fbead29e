-- ===== src/FunctionList.antt =====
-- C_GetFunctionList of hsm/src/pkcs11/pkcs11_impl.c, and the structure that it fills: the table
-- through which an application calls the library.
pub mod Genuine
use pst_boitier_pki.Common.{Bool, true, false, Option, none, some, if◌then◌else◌, not}
use pst_boitier_pki.Cryptoki.{CkRv, ckr_ok, ckr_arguments_bad}
use pst_boitier_pki.Info.{CkVersion}

-- The functions of the interface, in the order of the structure's fields.
pub data CkFunction : Type 0 where
  initialize : CkFunction
  finalize : CkFunction
  get_info : CkFunction
  get_function_list : CkFunction
  get_slot_list : CkFunction
  get_slot_info : CkFunction
  get_token_info : CkFunction
  get_mechanism_list : CkFunction
  get_mechanism_info : CkFunction
  init_token : CkFunction
  init_pin : CkFunction
  set_pin : CkFunction
  open_session : CkFunction
  close_session : CkFunction
  close_all_sessions : CkFunction
  get_session_info : CkFunction
  get_operation_state : CkFunction
  set_operation_state : CkFunction
  login : CkFunction
  logout : CkFunction
  create_object : CkFunction
  copy_object : CkFunction
  destroy_object : CkFunction
  get_object_size : CkFunction
  get_attribute_value : CkFunction
  set_attribute_value : CkFunction
  find_objects_init : CkFunction
  find_objects : CkFunction
  find_objects_final : CkFunction
  encrypt_init : CkFunction
  encrypt : CkFunction
  encrypt_update : CkFunction
  encrypt_final : CkFunction
  decrypt_init : CkFunction
  decrypt : CkFunction
  decrypt_update : CkFunction
  decrypt_final : CkFunction
  digest_init : CkFunction
  digest : CkFunction
  digest_update : CkFunction
  digest_key : CkFunction
  digest_final : CkFunction
  sign_init : CkFunction
  sign : CkFunction
  sign_update : CkFunction
  sign_final : CkFunction
  sign_recover_init : CkFunction
  sign_recover : CkFunction
  verify_init : CkFunction
  verify : CkFunction
  verify_update : CkFunction
  verify_final : CkFunction
  verify_recover_init : CkFunction
  verify_recover : CkFunction
  digest_encrypt_update : CkFunction
  decrypt_digest_update : CkFunction
  sign_encrypt_update : CkFunction
  decrypt_verify_update : CkFunction
  generate_key : CkFunction
  generate_key_pair : CkFunction
  wrap_key : CkFunction
  unwrap_key : CkFunction
  derive_key : CkFunction
  seed_random : CkFunction
  generate_random : CkFunction
  get_function_status : CkFunction
  cancel_function : CkFunction
  wait_for_slot_event : CkFunction

-- `CK_FUNCTION_LIST`: the version, and one field of each function's name, a pointer to a function or
-- NULL.
pub record CkFunctionList : Type 0 where
  pub version : CkVersion
  pub field : CkFunction → Option CkFunction

-- The fields after the assignments.
unfoldable pub filled : CkFunction → Option CkFunction
filled initialize = some initialize
filled finalize = some finalize
filled get_info = some get_info
filled get_function_list = some get_function_list
filled get_slot_list = some get_slot_list
filled get_slot_info = some get_slot_info
filled get_token_info = some get_token_info
filled get_mechanism_list = some get_mechanism_list
filled get_mechanism_info = some get_mechanism_info
filled init_token = some init_token
filled init_pin = some init_pin
filled set_pin = some set_pin
filled open_session = some open_session
filled close_session = some close_session
filled close_all_sessions = some close_all_sessions
filled get_session_info = some get_session_info
filled login = some login
filled logout = some logout
filled create_object = some create_object
filled destroy_object = some destroy_object
filled get_attribute_value = some get_attribute_value
filled set_attribute_value = some set_attribute_value
filled find_objects_init = some find_objects_init
filled find_objects = some find_objects
filled find_objects_final = some find_objects_final
filled sign_init = some sign_init
filled sign = some sign
filled verify_init = some verify_init
filled verify = some verify
filled generate_key_pair = some generate_key_pair
filled generate_random = some generate_random
filled get_operation_state = some get_operation_state
filled set_operation_state = some set_operation_state
filled copy_object = some copy_object
filled get_object_size = some get_object_size
filled encrypt_init = some encrypt_init
filled encrypt = some encrypt
filled encrypt_update = some encrypt_update
filled encrypt_final = some encrypt_final
filled decrypt_init = some decrypt_init
filled decrypt = some decrypt
filled decrypt_update = some decrypt_update
filled decrypt_final = some decrypt_final
filled digest_init = some digest_init
filled digest = some digest
filled digest_update = some digest_update
filled digest_key = some digest_key
filled digest_final = some digest_final
filled sign_update = some sign_update
filled sign_final = some sign_final
filled sign_recover_init = some sign_recover_init
filled sign_recover = some sign_recover
filled verify_update = some verify_update
filled verify_final = some verify_final
filled verify_recover_init = some verify_recover_init
filled verify_recover = some verify_recover
filled digest_encrypt_update = some digest_encrypt_update
filled decrypt_digest_update = some decrypt_digest_update
filled sign_encrypt_update = some sign_encrypt_update
filled decrypt_verify_update = some decrypt_verify_update
filled generate_key = some generate_key
filled wrap_key = some wrap_key
filled unwrap_key = some unwrap_key
filled derive_key = some derive_key
filled seed_random = some seed_random
filled get_function_status = some get_function_status
filled cancel_function = some cancel_function
filled wait_for_slot_event = some wait_for_slot_event

-- The static variables `functionList`, and `initialized` of the function.
pub record FunctionTable : Type 0 where
  pub function_list : CkFunctionList
  pub initialized : Bool

-- Static variables start as zeros.
abbrev pub static_table : FunctionTable
static_table = record {
  function_list = record { version = record { major = 0; minor = 0 }; field = λ f. none };
  initialized = false;
}

abbrev pub filled_table : FunctionTable
filled_table = record {
  function_list = record { version = record { major = 2; minor = 40 }; field = filled };
  initialized = true;
}

-- The return value, what is written to `*ppFunctionList` (the structure pointed to), and the static
-- variables.
unfoldable pub c_get_function_list :
    (pp_function_list : Bool) → FunctionTable → CkRv × Option CkFunctionList × FunctionTable
c_get_function_list pp_function_list t =
    if not pp_function_list
    then (ckr_arguments_bad, none, t)
    else let t' = (if t.initialized then t else filled_table) in (ckr_ok, some t'.function_list, t')
