-- ===== src/FunctionList/Genuine.antt =====
-- The table of functions is complete: every field holds the function of its name.
use pst_boitier_pki.Common.{◌≡◌, refl, Bool, true, false, some, List, [], ◌∷◌}
use pst_boitier_pki.Cryptoki.{ckr_ok}
use pst_boitier_pki.FunctionList.{
  CkFunction, initialize, finalize, get_info, get_function_list, get_slot_list, get_slot_info,
  get_token_info, get_mechanism_list, get_mechanism_info, init_token, init_pin, set_pin,
  open_session, close_session, close_all_sessions, get_session_info, get_operation_state,
  set_operation_state, login, logout, create_object, copy_object, destroy_object, get_object_size,
  get_attribute_value, set_attribute_value, find_objects_init, find_objects, find_objects_final,
  encrypt_init, encrypt, encrypt_update, encrypt_final, decrypt_init, decrypt, decrypt_update,
  decrypt_final, digest_init, digest, digest_update, digest_key, digest_final, sign_init, sign,
  sign_update, sign_final, sign_recover_init, sign_recover, verify_init, verify, verify_update,
  verify_final, verify_recover_init, verify_recover, digest_encrypt_update, decrypt_digest_update,
  sign_encrypt_update, decrypt_verify_update, generate_key, generate_key_pair, wrap_key, unwrap_key,
  derive_key, seed_random, generate_random, get_function_status, cancel_function,
  wait_for_slot_event, FunctionTable, static_table, filled_table, filled, c_get_function_list,
}

-- The static variables after calls of C_GetFunctionList, with a pointer or NULL each.
abbrev pub after : List Bool → FunctionTable → FunctionTable
after [] t = t
after (pp ∷ calls) t = after calls (c_get_function_list pp t).2

pub filled-own : (f : CkFunction) → filled f ≡ some f
unfolding filled
filled-own initialize = refl
filled-own finalize = refl
filled-own get_info = refl
filled-own get_function_list = refl
filled-own get_slot_list = refl
filled-own get_slot_info = refl
filled-own get_token_info = refl
filled-own get_mechanism_list = refl
filled-own get_mechanism_info = refl
filled-own init_token = refl
filled-own init_pin = refl
filled-own set_pin = refl
filled-own open_session = refl
filled-own close_session = refl
filled-own close_all_sessions = refl
filled-own get_session_info = refl
filled-own get_operation_state = refl
filled-own set_operation_state = refl
filled-own login = refl
filled-own logout = refl
filled-own create_object = refl
filled-own copy_object = refl
filled-own destroy_object = refl
filled-own get_object_size = refl
filled-own get_attribute_value = refl
filled-own set_attribute_value = refl
filled-own find_objects_init = refl
filled-own find_objects = refl
filled-own find_objects_final = refl
filled-own encrypt_init = refl
filled-own encrypt = refl
filled-own encrypt_update = refl
filled-own encrypt_final = refl
filled-own decrypt_init = refl
filled-own decrypt = refl
filled-own decrypt_update = refl
filled-own decrypt_final = refl
filled-own digest_init = refl
filled-own digest = refl
filled-own digest_update = refl
filled-own digest_key = refl
filled-own digest_final = refl
filled-own sign_init = refl
filled-own sign = refl
filled-own sign_update = refl
filled-own sign_final = refl
filled-own sign_recover_init = refl
filled-own sign_recover = refl
filled-own verify_init = refl
filled-own verify = refl
filled-own verify_update = refl
filled-own verify_final = refl
filled-own verify_recover_init = refl
filled-own verify_recover = refl
filled-own digest_encrypt_update = refl
filled-own decrypt_digest_update = refl
filled-own sign_encrypt_update = refl
filled-own decrypt_verify_update = refl
filled-own generate_key = refl
filled-own generate_key_pair = refl
filled-own wrap_key = refl
filled-own unwrap_key = refl
filled-own derive_key = refl
filled-own seed_random = refl
filled-own generate_random = refl
filled-own get_function_status = refl
filled-own cancel_function = refl
filled-own wait_for_slot_event = refl

-- A table as the static variables have it: all zeros, or filled.
pub data IsStatic : FunctionTable → Type 0 where
  blank : IsStatic static_table
  full : IsStatic filled_table

pub after-IsStatic : (calls : List Bool) (t : FunctionTable) → IsStatic t → IsStatic (after calls t)
unfolding c_get_function_list
after-IsStatic [] t s = s
after-IsStatic (false ∷ calls) t s = after-IsStatic calls t s
after-IsStatic (true ∷ calls) _ blank = after-IsStatic calls filled_table full
after-IsStatic (true ∷ calls) _ full = after-IsStatic calls filled_table full

-- The value of C_GetFunctionList on any of these tables.
pub get_function_list-filled :
    (t : FunctionTable)
    → IsStatic t
    → c_get_function_list true t ≡ (ckr_ok, some filled_table.function_list, filled_table)
unfolding c_get_function_list
get_function_list-filled _ blank = refl
get_function_list-filled _ full = refl

-- Whatever calls of C_GetFunctionList came before, a call with a pointer returns CKR_OK and a table
-- of version 2.40 in which every field holds the function of its name.
pub get_function_list-own :
    (calls : List Bool)
    → let t = after calls static_table in
      (c_get_function_list true t ≡ (ckr_ok, some filled_table.function_list, filled_table))
      × (filled_table.function_list.version ≡ record { major = 2; minor = 40 })
      × ((f : CkFunction) → filled_table.function_list.field f ≡ some f)
get_function_list-own calls =
    (get_function_list-filled _ (after-IsStatic calls static_table blank), refl, filled-own)
