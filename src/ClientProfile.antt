-- ===== src/ClientProfile.antt =====
-- src/client_profile.c: the profile and how it is written.
pub mod Read
pub mod Copy
pub mod Validity
pub mod DsaKey
pub mod Fields
pub mod Sizes
pub mod Layout
pub mod RoundTrip
pub mod Checks
pub mod Signed
pub mod Cached
pub mod Tests
use libotrv.Prelude.{
  ℕ, ◌+◌, ◌-◌, ◌*◌, Bool, false, Option, none, some, [], ◌++◌, ltb, leb, ◌==◌, if◌then◌else◌,
  length, replicate, Bytes,
}
use libotrv.Crypto.{Goldilocks}
use libotrv.Wire.Serialize.{
  serialize_uint64, serialize_uint32, serialize_uint16, serialize_uint8, serialize_bytes_array,
  serialize_data,
}
use libotrv.Wire.PublicKeys.{pubkey_bytes, serialize_public_key, serialize_forging_key}
use libotrv.Keys.{signature_bytes}
use libotrv.Run.{Run, success, error, crashed, ◌>>=◌}

-- DSA_PUBKEY_MAX_BYTES and OTRv3_DSA_SIG_BYTES.
abbrev pub dsa_pubkey_max_bytes : ℕ
dsa_pubkey_max_bytes = 2 + 4 * (4 + 192)

abbrev pub dsa_sig_bytes : ℕ
dsa_sig_bytes = 40

-- OTRNG_CLIENT_PROFILE_FIELDS_MAX_BYTES, OTRNG_CLIENT_PROFILE_MAX_BYTES and
-- OTRNG_CLIENT_PROFILE_MAX_WITH_METADATA_BYTES.
unfoldable pub fields_max_bytes : ℕ → ℕ
fields_max_bytes v =
    2 + 4 + 2 + pubkey_bytes + 2 + pubkey_bytes + 2 + v + 2 + 8 + 2 + dsa_pubkey_max_bytes + 2
    + dsa_sig_bytes

unfoldable pub max_bytes : ℕ → ℕ
max_bytes v = 4 + fields_max_bytes v + signature_bytes

unfoldable pub max_with_metadata_bytes : ℕ → ℕ
max_with_metadata_bytes v = 4 + fields_max_bytes v + signature_bytes + 1

-- A pointer to a string; the bytes are those in front of the NUL.
unfoldable pub strlen_ns : Option Bytes → ℕ
strlen_ns none = 0
strlen_ns (some s) = length s

-- The bytes that are written to a buffer of `size` bytes.
unfoldable pub written_to : ℕ → Bytes → Run (Unit {0}) Bytes
written_to size bytes = if leb (length bytes) size then success bytes else crashed

-- The field of the DSA key and how many fields that is.
unfoldable pub serialize_dsa_key : Option Bytes → Bytes × ℕ
serialize_dsa_key none = ([], 0)
serialize_dsa_key (some key) =
    if length key == 0 then ([], 0) else (serialize_uint16 6 ++ serialize_bytes_array (some key), 1)

unfoldable pub serialize_transitional_signature : Option Bytes → Bytes × ℕ
serialize_transitional_signature none = ([], 0)
serialize_transitional_signature (some sig) =
    (serialize_uint16 7 ++ serialize_bytes_array (some sig), 1)

module _ (g : Goldilocks) where
  open g use {Point}

  -- `otrng_client_profile_s`. `versions`, `dsa_key` and `transitional_signature` may be null, and
  -- `dsa_key_len` is the length of the bytes at `dsa_key`.
  pub record ClientProfile : Type 0 where
    pub sender_instance_tag : ℕ
    pub long_term_pub_key : Point
    pub forging_pub_key : Point
    pub versions : Option Bytes
    pub expires : ℕ
    pub dsa_key : Option Bytes
    pub transitional_signature : Option Bytes
    pub signature : Bytes
    pub should_publish : ℕ
    pub is_publishing : Bool
    pub has_validated : Bool
    pub validation_result : Bool

  -- `memset(target, 0, ...)`; `p` is the point structure with zero bytes.
  unfoldable pub client_profile_zero : Point → ClientProfile
  client_profile_zero p = record {
    sender_instance_tag = 0;
    long_term_pub_key = p;
    forging_pub_key = p;
    versions = none;
    expires = 0;
    dsa_key = none;
    transitional_signature = none;
    signature = replicate signature_bytes 0;
    should_publish = 0;
    is_publishing = false;
    has_validated = false;
    validation_result = false;
  }

  -- The bytes and `num_fields`.
  unfoldable pub client_profile_body_serialize_pre_transitional_signature :
      ClientProfile → Bytes × ℕ
  client_profile_body_serialize_pre_transitional_signature p =
      let dsa = serialize_dsa_key p.dsa_key in
      (
        (serialize_uint16 1 ++ serialize_uint32 p.sender_instance_tag)
            ++ ((serialize_uint16 2 ++ serialize_public_key g p.long_term_pub_key)
                ++ ((serialize_uint16 3 ++ serialize_forging_key g p.forging_pub_key)
                    ++ ((serialize_uint16 4 ++ serialize_data p.versions (strlen_ns p.versions))
                        ++ ((serialize_uint16 5 ++ serialize_uint64 p.expires) ++ dsa.0)))),
        5 + dsa.1,
      )

  -- `client_profile_body_serialize` into a buffer of `dst_len` bytes. The first four are written
  -- last.
  unfoldable pub client_profile_body_serialize : ℕ → ClientProfile → Run (Unit {0}) Bytes
  client_profile_body_serialize dst_len p =
      let (body, num_fields) = client_profile_body_serialize_pre_transitional_signature p in
      let (transitional, more) = serialize_transitional_signature p.transitional_signature in
      written_to dst_len (serialize_uint32 (num_fields + more) ++ (body ++ transitional))

  unfoldable pub client_profile_body_serialize_into : ClientProfile → Run (Unit {0}) Bytes
  client_profile_body_serialize_into p =
      client_profile_body_serialize (fields_max_bytes (strlen_ns p.versions)) p

  unfoldable pub client_profile_serialize_with_metadata : ClientProfile → Run (Unit {0}) Bytes
  client_profile_serialize_with_metadata p =
      let s = max_with_metadata_bytes (strlen_ns p.versions) in
      client_profile_body_serialize s p >>= λ body.
      written_to s
        (body ++ (serialize_bytes_array (some p.signature) ++ serialize_uint8 p.should_publish))

  unfoldable pub client_profile_serialize : ClientProfile → Run (Unit {0}) Bytes
  client_profile_serialize p =
      let s = max_bytes (strlen_ns p.versions) in
      client_profile_body_serialize s p >>= λ body.
      if ltb (s - length body) signature_bytes
      then error tt
      else success (body ++ serialize_bytes_array (some p.signature))
