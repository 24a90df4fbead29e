-- ===== src/OpenSsl.antt =====
-- What hsm/src/crypto/crypto_ops.c calls of OpenSSL, as a parameter of the model. A call that may
-- fail is a Boolean, true where it succeeds, or an Option. Big numbers are numbers, points of a curve
-- pairs of numbers. Random choices are part of the record.
use pst_boitier_pki.Common.{ℕ, ◌≡◌, ◌≢◌, Bool, Option, Bytes, []}

-- The digests of `EVP_sha256()` and its kin.
pub data EvpMd : Type 0 where
  sha256 sha384 sha512 : EvpMd

-- What `EVP_PKEY_keygen` makes, taken apart by `RSA_get0_key` and its kin.
pub record RsaParts : Type 0 where
  pub n : ℕ
  pub e : ℕ
  pub d : ℕ
  pub p : ℕ
  pub q : ℕ
  pub dmp1 : ℕ
  pub dmq1 : ℕ
  pub iqmp : ℕ

pub record EcParts : Type 0 where
  pub point : ℕ × ℕ
  pub scalar : ℕ

-- A key as the signing calls get it: RSA with its factors, if they are set, or a curve with a point
-- and a private number.
pub data EvpPkey : Type 0 where
  rsa_pkey : (n e d : ℕ) → Option (ℕ × ℕ) → EvpPkey
  ec_pkey : (nid : ℕ) → ℕ × ℕ → (scalar : ℕ) → EvpPkey

pub record OpenSsl : Type 0 where
  -- `NID_undef` and the curves.
  pub nid_undef : ℕ
  pub nid_p256 : ℕ
  pub nid_p384 : ℕ
  pub nid_p521 : ℕ
  -- Key generation.
  pub pkey_ctx_new : Bool
  pub keygen_init : Bool
  pub set_rsa_keygen_bits : ℕ → Bool
  pub set_curve_nid : ℕ → Bool
  pub keygen_rsa : ℕ → Option RsaParts
  pub keygen_ec : ℕ → Option EcParts
  pub get1_rsa : Bool
  pub get1_ec_key : Bool
  -- Conversions.
  pub bn_bn2bin : ℕ → Bytes
  pub bn_bin2bn : Bytes → ℕ
  pub point2oct : ℕ → ℕ × ℕ → Bytes
  pub oct2point : ℕ → Bytes → ℕ × ℕ
  -- Signing. The last but one argument of `digest_sign_*` says whether PSS padding is set.
  pub rsa_new : Bool
  pub ec_key_new : ℕ → Bool
  pub md_ctx_new : Bool
  pub digest_sign_init : EvpMd → EvpPkey → Bool
  pub digest_sign_update : Bytes → Bool
  pub digest_sign_size : EvpMd → EvpPkey → Bool → Bytes → Option ℕ
  pub digest_sign_final : EvpMd → EvpPkey → Bool → Bytes → Option Bytes
  pub rsa_size : EvpPkey → ℕ
  pub rsa_private_encrypt : EvpPkey → Bytes → Option Bytes
  pub ecdsa_do_sign : EvpPkey → Bytes → Option (ℕ × ℕ)
  pub i2d_ecdsa_sig : ℕ × ℕ → Bytes
  -- `RAND_bytes`, by the number of bytes.
  pub rand_bytes : ℕ → Option Bytes

-- What OpenSSL documents of the conversions: each is undone by the other, and no
-- bytes are the number 0.
pub record IsDocumented (o : OpenSsl) : Type 0 where
  pub p256_p384 : o.nid_p256 ≢ o.nid_p384
  pub p256_p521 : o.nid_p256 ≢ o.nid_p521
  pub p384_p521 : o.nid_p384 ≢ o.nid_p521
  pub bin2bn-bn2bin : (x : ℕ) → o.bn_bin2bn (o.bn_bn2bin x) ≡ x
  pub oct2point-point2oct : (nid : ℕ) (p : ℕ × ℕ) → o.oct2point nid (o.point2oct nid p) ≡ p
  pub bin2bn-nil : o.bn_bin2bn [] ≡ 0
