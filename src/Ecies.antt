-- ===== src/Ecies.antt =====
-- The constants and the ID provider that the ECIES services are configured with. Their values come
-- from @digitaldefiance/ecies-lib, so they are parameters; `IsDocumented` holds the sizes that the
-- repository's comments, interfaces and tests state of them.
pub mod Sample
use node_ecies_lib.Prelude.{ℕ, ◌^◌, ◌<◌, ◌≡◌}
use node_ecies_lib.Errors.{Result}
use node_ecies_lib.Buffer.{Bytes}

-- src/interfaces/ecies-consts.ts and the enumerations of the wire format.
pub record Consts : Type 0 where
  pub version_size : ℕ
  pub cipher_suite_size : ℕ
  pub encryption_type_size : ℕ
  pub public_key_length : ℕ
  pub raw_public_key_length : ℕ
  pub public_key_magic : ℕ
  pub iv_size : ℕ
  pub auth_tag_size : ℕ
  pub key_size : ℕ
  pub max_raw_data_size : ℕ
  pub basic_fixed_overhead_size : ℕ
  pub with_length_fixed_overhead_size : ℕ
  pub with_length_data_length_size : ℕ
  pub multiple_fixed_overhead_size : ℕ
  pub multiple_data_length_size : ℕ
  pub multiple_max_data_size : ℕ
  pub encrypted_key_size : ℕ
  pub max_recipients : ℕ
  pub recipient_id_size : ℕ
  pub recipient_count_size : ℕ
  pub version_v1 : ℕ
  pub suite_secp256k1_aes256gcm_sha256 : ℕ
  pub type_basic : ℕ
  pub type_with_length : ℕ
  pub type_multiple : ℕ

pub record IsDocumented (c : Consts) : Type 0 where
  pub version_one : c.version_size ≡ 1
  pub suite_one : c.cipher_suite_size ≡ 1
  pub type_one : c.encryption_type_size ≡ 1
  pub compressed_key : c.public_key_length ≡ 33
  pub data_length_eight : c.multiple_data_length_size ≡ 8
  pub count_two : c.recipient_count_size ≡ 2
  pub count_fits : c.max_recipients < 2 ^ 16
  pub length_fits : c.max_raw_data_size < 2 ^ 53
  pub id_nonempty : 0 < c.recipient_id_size
  pub key_nonempty : 0 < c.encrypted_key_size
  pub version_byte : c.version_v1 < 256
  pub suite_byte : c.suite_secp256k1_aes256gcm_sha256 < 256
  pub type_byte : c.type_multiple < 256

-- A recipient's ID (src/interfaces/platform-id.ts): a Buffer, another Uint8Array, or a value that
-- only the ID provider can turn into bytes.
pub data PlatformId (T : Type 0) : Type 0 where
  buffer : Bytes → PlatformId T
  uint8_array : Bytes → PlatformId T
  other : T → PlatformId T

-- IIdProvider of ecies-lib.
pub record IdProvider (T : Type 0) : Type 0 where
  pub to_bytes : PlatformId T → Bytes
  pub from_bytes : Bytes → Result (PlatformId T)

module _ {T : Type 0} (ids : IdProvider T) where
  -- `Buffer.isBuffer(id) ? Buffer.from(id) : id instanceof Uint8Array ? ... : toBytes(id)`
  unfoldable pub id_bytes : PlatformId T → Bytes
  id_bytes (buffer b) = b
  id_bytes (uint8_array b) = b
  id_bytes (other t) = ids.to_bytes (other t)
