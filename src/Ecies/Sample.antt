-- ===== src/Ecies/Sample.antt =====
-- Constants of the documented sizes, and a stand-in for the curve and the ciphers, for the tests.
use node_ecies_lib.Ecies.{Consts}

abbrev pub consts : Consts
consts = record {
  version_size = 1;
  cipher_suite_size = 1;
  encryption_type_size = 1;
  public_key_length = 33;
  raw_public_key_length = 32;
  public_key_magic = 2;
  iv_size = 12;
  auth_tag_size = 16;
  key_size = 32;
  max_raw_data_size = 9007199254740991;
  basic_fixed_overhead_size = 64;
  with_length_fixed_overhead_size = 72;
  with_length_data_length_size = 8;
  multiple_fixed_overhead_size = 64;
  multiple_data_length_size = 8;
  multiple_max_data_size = 4294967295;
  encrypted_key_size = 60;
  max_recipients = 65535;
  recipient_id_size = 12;
  recipient_count_size = 2;
  version_v1 = 1;
  suite_secp256k1_aes256gcm_sha256 = 1;
  type_basic = 33;
  type_with_length = 66;
  type_multiple = 99;
}
