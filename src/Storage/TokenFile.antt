-- ===== src/Storage/TokenFile.antt =====
-- The token file of hsm/src/storage/storage.c, written and read.
use pst_boitier_pki.Common.{
  ◌≡◌, refl, Bool, true, false, ◌++◌, Bytes, length, arith, take-append, take-all, drop-append,
  memcpy-all, ap,
}
use pst_boitier_pki.Cryptoki.{ckr_ok}
use pst_boitier_pki.Hsm.State.{Token, Disk}
use pst_boitier_pki.Storage.{
  of_bool, to_bool, fread, token_bytes, parse_token, hsm_storage_save_token_info,
  hsm_storage_load_token_info,
}

-- The arrays of a token have the sizes of their declarations.
pub record IsSized (t : Token) : Type 0 where
  pub label : length t.token_label ≡ 32
  pub user_hash : length t.user_pin_hash ≡ 32
  pub so_hash : length t.so_pin_hash ≡ 32

-- Reading back what was written in front of `rest`.
pub fread-append :
    (dst src rest : Bytes) → length dst ≡ length src → fread dst (src ++ rest) ≡ (src, rest)
fread-append dst src rest e = rw (e, take-append, drop-append, memcpy-all dst src e)

fread-all : (dst src : Bytes) → length dst ≡ length src → (fread dst src).0 ≡ src
fread-all dst src e = rw (e, take-all src, memcpy-all dst src e)

pub to_bool-of_bool : (b : Bool) → to_bool (of_bool b) ≡ b
to_bool-of_bool true = refl
to_bool-of_bool false = refl

-- A token with what the file holds of `t`, and the counters of `t'`.
abbrev pub restored : Token → Token → Token
restored t t' = record t {
  user_pin_retry_count = t'.user_pin_retry_count;
  so_pin_retry_count = t'.so_pin_retry_count;
  user_pin_locked = t'.user_pin_locked;
  so_pin_locked = t'.so_pin_locked;
}

pub parse_token-token_bytes :
    (t t' : Token) → IsSized t → IsSized t' → parse_token (token_bytes t) t' ≡ restored t t'
unfolding parse_token token_bytes
parse_token-token_bytes t t' s s' =
    let hashes = t.user_pin_hash ++ t.so_pin_hash in
    let a = fread-append t'.token_label t.token_label hashes (omega arith) in
    let b = fread-append t'.user_pin_hash t.user_pin_hash t.so_pin_hash (omega arith) in
    let c = fread-all t'.so_pin_hash t.so_pin_hash (omega arith) in
    rw
      (
        ap (λ (p : Bytes × Bytes). p.1) a,
        ap (λ (p : Bytes × Bytes). p.0) a,
        ap (λ (p : Bytes × Bytes). p.1) b,
        ap (λ (p : Bytes × Bytes). p.0) b,
        c,
        to_bool-of_bool t.token_initialized,
        to_bool-of_bool t.user_pin_initialized,
        to_bool-of_bool t.so_pin_initialized,
      )
      refl

-- What hsm_storage_save_token_info saves on a disk that it can write, hsm_storage_load_token_info
-- reads back, for tokens whose arrays have the sizes of their declarations: label, flags and
-- hashes are those that were saved, and the retry counters and lock flags are those of the token
-- that is loaded into.
pub save-load :
    (t t' : Token) (d : Disk)
    → IsSized t
    → IsSized t'
    → d.token_writable ≡ true
    → let (rv, d') = hsm_storage_save_token_info t d in
      (rv ≡ ckr_ok) × (hsm_storage_load_token_info d' t' ≡ (ckr_ok, restored t t'))
unfolding hsm_storage_save_token_info hsm_storage_load_token_info
save-load t t' d s s' w =
    rw w (refl, ap (λ (x : Token). (ckr_ok, x)) (parse_token-token_bytes t t' s s'))
