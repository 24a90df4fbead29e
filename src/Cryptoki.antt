-- ===== src/Cryptoki.antt =====
-- hsm/include/pkcs11/pkcs11.h: return values, flags, attribute and mechanism numbers.
use pst_boitier_pki.Common.{ℕ, Bool, true, false}

-- The `CKR_` values that the code returns.
pub data CkRv : Type 0 where
  ckr_ok ckr_cancel ckr_host_memory ckr_slot_id_invalid ckr_general_error : CkRv
  ckr_function_failed ckr_arguments_bad ckr_attribute_read_only : CkRv
  ckr_attribute_type_invalid ckr_device_error ckr_function_not_parallel : CkRv
  ckr_function_not_supported ckr_key_size_range ckr_key_type_inconsistent : CkRv
  ckr_key_function_not_permitted ckr_mechanism_invalid ckr_object_handle_invalid : CkRv
  ckr_operation_active ckr_operation_not_initialized ckr_pin_incorrect : CkRv
  ckr_pin_len_range ckr_pin_locked ckr_session_count ckr_session_handle_invalid : CkRv
  ckr_session_parallel_not_supported ckr_session_read_only ckr_token_not_present : CkRv
  ckr_user_already_logged_in ckr_user_not_logged_in ckr_user_pin_not_initialized : CkRv
  ckr_user_type_invalid ckr_random_no_rng ckr_domain_params_invalid : CkRv
  ckr_buffer_too_small ckr_cryptoki_not_initialized ckr_cryptoki_already_initialized : CkRv

-- The number of a return value.
unfoldable pub ckr_code : CkRv → ℕ
ckr_code ckr_ok = 0x00
ckr_code ckr_cancel = 0x01
ckr_code ckr_host_memory = 0x02
ckr_code ckr_slot_id_invalid = 0x03
ckr_code ckr_general_error = 0x05
ckr_code ckr_function_failed = 0x06
ckr_code ckr_arguments_bad = 0x07
ckr_code ckr_attribute_read_only = 0x10
ckr_code ckr_attribute_type_invalid = 0x12
ckr_code ckr_device_error = 0x30
ckr_code ckr_function_not_parallel = 0x51
ckr_code ckr_function_not_supported = 0x54
ckr_code ckr_key_size_range = 0x62
ckr_code ckr_key_type_inconsistent = 0x63
ckr_code ckr_key_function_not_permitted = 0x68
ckr_code ckr_mechanism_invalid = 0x70
ckr_code ckr_object_handle_invalid = 0x82
ckr_code ckr_operation_active = 0x90
ckr_code ckr_operation_not_initialized = 0x91
ckr_code ckr_pin_incorrect = 0xa0
ckr_code ckr_pin_len_range = 0xa2
ckr_code ckr_pin_locked = 0xa4
ckr_code ckr_session_count = 0xb1
ckr_code ckr_session_handle_invalid = 0xb3
ckr_code ckr_session_parallel_not_supported = 0xb4
ckr_code ckr_session_read_only = 0xb5
ckr_code ckr_token_not_present = 0xe0
ckr_code ckr_user_already_logged_in = 0x100
ckr_code ckr_user_not_logged_in = 0x101
ckr_code ckr_user_pin_not_initialized = 0x102
ckr_code ckr_user_type_invalid = 0x103
ckr_code ckr_random_no_rng = 0x121
ckr_code ckr_domain_params_invalid = 0x130
ckr_code ckr_buffer_too_small = 0x150
ckr_code ckr_cryptoki_not_initialized = 0x190
ckr_code ckr_cryptoki_already_initialized = 0x191

-- `rv == CKR_OK`
abbrev pub is_ok : CkRv → Bool
is_ok ckr_ok = true
is_ok _ = false

-- User types.
abbrev pub cku_so : ℕ
cku_so = 0

abbrev pub cku_user : ℕ
cku_user = 1

-- Flags of `C_OpenSession`, one bit each.
abbrev pub ckf_rw_session : ℕ
ckf_rw_session = 2

abbrev pub ckf_serial_session : ℕ
ckf_serial_session = 4

-- Object classes.
abbrev pub cko_public_key : ℕ
cko_public_key = 2

abbrev pub cko_private_key : ℕ
cko_private_key = 3

-- Attribute types.
abbrev pub cka_class : ℕ
cka_class = 0x0

abbrev pub cka_token : ℕ
cka_token = 0x1

abbrev pub cka_private : ℕ
cka_private = 0x2

abbrev pub cka_label : ℕ
cka_label = 0x3

abbrev pub cka_key_type : ℕ
cka_key_type = 0x100

abbrev pub cka_id : ℕ
cka_id = 0x102

abbrev pub cka_modulus_bits : ℕ
cka_modulus_bits = 0x121

abbrev pub cka_ec_params : ℕ
cka_ec_params = 0x180
