-- ===== src/Storage.antt =====
-- hsm/src/storage/storage.c: the token file and the object files. Files are byte lists; an object
-- file is found by the object's handle, of which its name `obj_%08lx.dat` is the print.
pub mod TokenFile
pub mod ObjectFile
pub mod ObjectList
use pst_boitier_pki.Common.{
  ℕ, zero, suc, ◌+◌, ◌*◌, ◌/◌, ◌%◌, Bool, true, false, Option, none, some, List, [], ◌∷◌, ◌++◌,
  Bytes, length, take, drop, memcpy, if◌then◌else◌, ◌==◌, not, ◌&&◌, update,
}
use pst_boitier_pki.Cryptoki.{CkRv, ckr_ok, ckr_device_error, ckr_object_handle_invalid}
use pst_boitier_pki.Hsm.State.{
  Token, Disk, HsmObject, HsmKeyType, key_type_rsa, key_type_ec, HsmKeyData, blank, rsa, ec,
  HsmRsaKey, HsmEcKey, obj_type_private_key,
}

-- `hsm_storage_init`: makes the two directories that are not there.
unfoldable pub hsm_storage_init : Disk → CkRv × Disk
hsm_storage_init d =
    if not d.storage_dir && not d.can_mkdir
    then (ckr_device_error, d)
    else let d' = record d { storage_dir = true } in
      if not d.key_dir && not d.can_mkdir
      then (ckr_device_error, d')
      else (ckr_ok, record d' { key_dir = true })

-- A `bool` is one byte.
abbrev pub of_bool : Bool → ℕ
of_bool true = 1
of_bool false = 0

abbrev pub to_bool : ℕ → Bool
to_bool n = not (n == 0)

-- The bytes that `hsm_storage_save_token_info` writes.
unfoldable pub token_bytes : Token → Bytes
token_bytes t =
    of_bool t.token_initialized
    ∷ of_bool t.user_pin_initialized
    ∷ of_bool t.so_pin_initialized
    ∷ (t.token_label ++ (t.user_pin_hash ++ t.so_pin_hash))

unfoldable pub hsm_storage_save_token_info : Token → Disk → CkRv × Disk
hsm_storage_save_token_info t d =
    if d.token_writable
    then (ckr_ok, record d { token_file = some (token_bytes t) })
    else (ckr_device_error, d)

-- `fread(dst, n, 1, fp)` with `n` the length of `dst`, on the rest of the file: the buffer and what
-- is left. At the end of the file the buffer keeps the bytes that were not read.
abbrev pub fread : Bytes → Bytes → Bytes × Bytes
fread dst file = (memcpy dst (take (length dst) file), drop (length dst) file)

-- `fread` of one `bool`.
abbrev pub fread_bool : Bool → Bytes → Bool × Bytes
fread_bool b [] = (b, [])
fread_bool b (x ∷ file) = (to_bool x, file)

-- The six reads of `hsm_storage_load_token_info`.
unfoldable pub parse_token : Bytes → Token → Token
parse_token f0 t =
    let (initialized, f1) = fread_bool t.token_initialized f0 in
    let (user_pin, f2) = fread_bool t.user_pin_initialized f1 in
    let (so_pin, f3) = fread_bool t.so_pin_initialized f2 in
    let (label, f4) = fread t.token_label f3 in
    let (user_hash, f5) = fread t.user_pin_hash f4 in
    let (so_hash, f6) = fread t.so_pin_hash f5 in
    record t {
      token_initialized = initialized;
      user_pin_initialized = user_pin;
      so_pin_initialized = so_pin;
      token_label = label;
      user_pin_hash = user_hash;
      so_pin_hash = so_hash;
    }

-- The file need not exist.
unfoldable pub hsm_storage_load_token_info : Disk → Token → CkRv × Token
unfolding parse_token
hsm_storage_load_token_info d t = elim d.token_file [
  | none ↦ (ckr_ok, t)
  | some file ↦ (ckr_ok, parse_token file t)
]

-- The `n` bytes of a number, least significant first.
unfoldable pub little_endian : ℕ → ℕ → Bytes
little_endian zero x = []
little_endian (suc n) x = (x % 256) ∷ little_endian n (x / 256)

-- A length (`size_t`) and, if it is not 0, the bytes.
unfoldable pub sized : Bytes → Bytes
unfolding little_endian
sized b = little_endian 8 (length b) ++ b

unfoldable pub rsa_bytes : ℕ → HsmRsaKey → Bytes
unfolding sized
rsa_bytes type k =
    little_endian 4 k.bits
    ++ (sized k.modulus
        ++ (sized k.public_exponent
            ++ (if type == obj_type_private_key
                then sized k.private_exponent
                  ++ (sized k.prime1
                      ++ (sized k.prime2
                          ++ (sized k.exponent1 ++ (sized k.exponent2 ++ sized k.coefficient))))
                else [])))

unfoldable pub ec_bytes : ℕ → HsmEcKey → Bytes
unfolding sized
ec_bytes type k =
    little_endian 4 k.curve_nid
    ++ (sized k.ec_params
        ++ (sized k.ec_point ++ (if type == obj_type_private_key then sized k.ec_private else [])))

-- The union as `key_type` says to read it: zeroed memory is a key of either kind with no bytes.
abbrev pub as_rsa : HsmKeyData → HsmRsaKey
as_rsa (rsa k) = k
as_rsa _ = record {
  bits = 0;
  modulus = [];
  public_exponent = [];
  private_exponent = [];
  prime1 = [];
  prime2 = [];
  exponent1 = [];
  exponent2 = [];
  coefficient = [];
}

abbrev pub as_ec : HsmKeyData → HsmEcKey
as_ec (ec k) = k
as_ec _ = record { ec_params = []; ec_point = []; ec_private = []; curve_nid = 0 }

abbrev pub key_type_number : HsmKeyType → ℕ
key_type_number key_type_rsa = 0
key_type_number key_type_ec = 1

unfoldable pub key_bytes : HsmKeyType → ℕ → HsmKeyData → Bytes
unfolding rsa_bytes ec_bytes
key_bytes key_type_rsa type data' = rsa_bytes type (as_rsa data')
key_bytes key_type_ec type data' = ec_bytes type (as_ec data')

-- The bytes that `hsm_storage_save_object` writes.
unfoldable pub object_bytes : HsmObject → Bytes
unfolding little_endian key_bytes
object_bytes o =
    little_endian 8 o.handle
    ++ (little_endian 4 o.type
        ++ (of_bool o.is_token
            ∷ of_bool o.is_private
            ∷ of_bool o.is_sensitive
            ∷ of_bool o.is_extractable
            ∷ (o.label
                ++ (o.id
                    ++ (little_endian 8 o.id_len
                        ++ (little_endian 4 (key_type_number o.key_type)
                            ++ key_bytes o.key_type o.type o.key_data))))))

unfoldable pub hsm_storage_save_object : HsmObject → Disk → CkRv × HsmObject × Disk
hsm_storage_save_object o d =
    if not o.is_token
    then (ckr_ok, o, d)
    else if d.keys_writable
    then (
      ckr_ok,
      record o { is_loaded = true },
      record d { object_files = update d.object_files o.handle (some (object_bytes o)) },
    )
    else (ckr_device_error, o, d)

-- A file that is not there is no error.
unfoldable pub hsm_storage_delete_object : ℕ → Disk → CkRv × Disk
hsm_storage_delete_object handle d =
    if d.keys_writable
    then (ckr_ok, record d { object_files = update d.object_files handle none })
    else elim (d.object_files handle) [ none ↦ (ckr_ok, d) | some f ↦ (ckr_device_error, d) ]

-- The number that some bytes are, least significant first.
abbrev pub number : Bytes → ℕ
number [] = 0
number (b ∷ bs) = b + 256 * number bs

-- `fread` of a number of `n` bytes.
unfoldable pub fread_number : (n x : ℕ) → Bytes → ℕ × Bytes
unfolding little_endian
fread_number n x file = let (b, rest) = fread (little_endian n x) file in (number b, rest)

-- The ten reads of `hsm_storage_load_object`. A key type that is not RSA is taken for EC.
unfoldable pub parse_object : Bytes → HsmObject → HsmObject
parse_object f0 o =
    let (handle, f1) = fread_number 8 o.handle f0 in
    let (type, f2) = fread_number 4 o.type f1 in
    let (token, f3) = fread_bool o.is_token f2 in
    let (private', f4) = fread_bool o.is_private f3 in
    let (sensitive, f5) = fread_bool o.is_sensitive f4 in
    let (extractable, f6) = fread_bool o.is_extractable f5 in
    let (label, f7) = fread o.label f6 in
    let (id, f8) = fread o.id f7 in
    let (id_len, f9) = fread_number 8 o.id_len f8 in
    let (key_type, f10) = fread_number 4 (key_type_number o.key_type) f9 in
    record o {
      handle = handle;
      type = type;
      is_token = token;
      is_private = private';
      is_sensitive = sensitive;
      is_extractable = extractable;
      label = label;
      id = id;
      id_len = id_len;
      key_type = if key_type == 0 then key_type_rsa else key_type_ec;
      is_loaded = true;
    }

unfoldable pub hsm_storage_load_object : (handle : ℕ) → HsmObject → Disk → CkRv × HsmObject
unfolding parse_object
hsm_storage_load_object handle o d = elim (d.object_files handle) [
  | none ↦ (ckr_object_handle_invalid, o)
  | some file ↦ (ckr_ok, parse_object file o)
]
