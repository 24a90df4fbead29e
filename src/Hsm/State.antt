-- ===== src/Hsm/State.antt =====
-- The structures of hsm/include/pkcs11/pkcs11_internal.h, the global state of the library and what
-- it keeps on disk. Mutexes are Booleans, true while held; a NULL pointer in a table is `none`.
use pst_boitier_pki.Common.{ℕ, Bool, Option, Bytes}

abbrev pub hsm_max_sessions : ℕ
hsm_max_sessions = 64

abbrev pub hsm_max_objects : ℕ
hsm_max_objects = 1024

abbrev pub hsm_max_pin_len : ℕ
hsm_max_pin_len = 32

abbrev pub hsm_min_pin_len : ℕ
hsm_min_pin_len = 4

abbrev pub hsm_max_find_objects : ℕ
hsm_max_find_objects = 100

abbrev pub hsm_pin_retry_count : ℕ
hsm_pin_retry_count = 3

abbrev pub hsm_session_timeout : ℕ
hsm_session_timeout = 300

-- Object types: an enumeration that the code also fills from a caller's number.
abbrev pub obj_type_data : ℕ
obj_type_data = 0

abbrev pub obj_type_certificate : ℕ
obj_type_certificate = 1

abbrev pub obj_type_public_key : ℕ
obj_type_public_key = 2

abbrev pub obj_type_private_key : ℕ
obj_type_private_key = 3

pub data HsmKeyType : Type 0 where
  key_type_rsa key_type_ec : HsmKeyType

pub record HsmRsaKey : Type 0 where
  pub bits : ℕ
  pub modulus : Bytes
  pub public_exponent : Bytes
  pub private_exponent : Bytes
  pub prime1 : Bytes
  pub prime2 : Bytes
  pub exponent1 : Bytes
  pub exponent2 : Bytes
  pub coefficient : Bytes

pub record HsmEcKey : Type 0 where
  pub ec_params : Bytes
  pub ec_point : Bytes
  pub ec_private : Bytes
  pub curve_nid : ℕ

-- The union of the two; `blank` is what `calloc` leaves.
pub data HsmKeyData : Type 0 where
  blank : HsmKeyData
  rsa : HsmRsaKey → HsmKeyData
  ec : HsmEcKey → HsmKeyData

pub record HsmObject : Type 0 where
  pub handle : ℕ
  pub type : ℕ
  pub is_token : Bool
  pub is_private : Bool
  pub is_sensitive : Bool
  pub is_extractable : Bool
  pub label : Bytes
  pub id : Bytes
  pub id_len : ℕ
  pub key_type : HsmKeyType
  pub key_data : HsmKeyData
  pub can_sign : Bool
  pub can_verify : Bool
  pub created : ℕ
  pub modified : ℕ
  pub ref_count : ℕ
  pub is_loaded : Bool

pub data HsmSessionState : Type 0 where
  invalid ro_public ro_user rw_public rw_user rw_so : HsmSessionState

pub data HsmOperationType : Type 0 where
  op_none op_sign op_verify : HsmOperationType

pub record HsmOperation : Type 0 where
  pub op : HsmOperationType
  pub mechanism : ℕ
  pub key_handle : ℕ
  pub active : Bool

pub record HsmSession : Type 0 where
  pub handle : ℕ
  pub slot_id : ℕ
  pub state : HsmSessionState
  pub is_read_write : Bool
  pub user_logged_in : Bool
  pub so_logged_in : Bool
  pub operation : HsmOperation
  pub find_active : Bool
  -- HSM_MAX_FIND_OBJECTS entries, which write_result and read_result of Objects.antt keep to.
  pub find_results : ℕ → ℕ
  pub find_count : ℕ
  pub find_index : ℕ
  pub created : ℕ
  pub last_activity : ℕ
  pub lock : Bool

-- The token's part of `hsm_slot_t`: label and PIN management.
pub record Token : Type 0 where
  pub token_label : Bytes
  pub token_initialized : Bool
  pub user_pin_initialized : Bool
  pub so_pin_initialized : Bool
  pub user_pin_hash : Bytes
  pub so_pin_hash : Bytes
  pub user_pin_retry_count : ℕ
  pub so_pin_retry_count : ℕ
  pub user_pin_locked : Bool
  pub so_pin_locked : Bool

pub record HsmSlot : Type 0 where
  pub slot_id : ℕ
  pub token_present : Bool
  pub token : Token
  pub sessions : ℕ → Option HsmSession
  pub session_count : ℕ
  pub objects : ℕ → Option HsmObject
  pub object_count : ℕ
  pub lock : Bool

-- The files under /var/lib/hsm, and whether the system lets the library make and write them.
pub record Disk : Type 0 where
  pub storage_dir : Bool
  pub key_dir : Bool
  pub can_mkdir : Bool
  pub token_file : Option Bytes
  pub token_writable : Bool
  pub object_files : ℕ → Option Bytes
  pub keys_writable : Bool

-- `pthread_mutex_t`: free, held, or destroyed.
pub data Mutex : Type 0 where
  mutex_free mutex_held mutex_destroyed : Mutex

-- `g_hsm_context`, the two static handle counters, and the disk. `slots_len` is the length of the
-- allocation that `slots` points to, 0 for NULL.
pub record HsmContext : Type 0 where
  pub initialized : Bool
  pub global_lock : Mutex
  pub slots : ℕ → HsmSlot
  pub slots_len : ℕ
  pub slot_count : ℕ
  pub max_sessions : ℕ
  pub max_objects : ℕ
  pub enforce_timeouts : Bool
  pub session_timeout : ℕ
  pub next_session_handle : ℕ
  pub object_counter : ℕ
  pub disk : Disk
