-- ===== src/Dake/Messages.antt =====
-- src/dake.c: the messages of the key exchange that carry a client profile, and how they are written.
use libotrv.Prelude.{ℕ, ◌+◌, ◌-◌, ◌*◌, Option, some, ◌++◌, length, Bytes}
use libotrv.Crypto.{Goldilocks, Gcrypt, point_bytes, scalar_bytes, dh_mpi_max_bytes}
use libotrv.Wire.Serialize.{
  serialize_uint32, serialize_uint16, serialize_uint8, serialize_bytes_array,
}
use libotrv.Wire.Keys.{serialize_ec_point, serialize_dh_mpi_otr}
use libotrv.DataMessage.{protocol_version_4}
use libotrv.Ring.{RingSig}
use libotrv.Ring.Codec.{serialize_ring_sig}
use libotrv.Run.{Run, success, ◌>>=◌, attempt}
use libotrv.ClientProfile.{ClientProfile, client_profile_serialize}

-- IDENTITY_MSG_TYPE, AUTH_R_MSG_TYPE and NON_INT_AUTH_MSG_TYPE.
abbrev pub identity_msg_type : ℕ
identity_msg_type = 53

abbrev pub auth_r_msg_type : ℕ
auth_r_msg_type = 54

abbrev pub non_int_auth_msg_type : ℕ
non_int_auth_msg_type = 13

-- DAKE_HEADER_BYTES and HASH_BYTES.
abbrev pub dake_header_bytes : ℕ
dake_header_bytes = 2 + 1 + 4 + 4

abbrev pub hash_bytes : ℕ
hash_bytes = 64

-- IDENTITY_MAX_BYTES, AUTH_R_MAX_BYTES and NON_INT_AUTH_MAX_BYTES, without the profile.
abbrev pub identity_max_bytes : ℕ
identity_max_bytes =
    dake_header_bytes + point_bytes + dh_mpi_max_bytes + point_bytes + dh_mpi_max_bytes

abbrev pub auth_r_max_bytes : ℕ
auth_r_max_bytes =
    dake_header_bytes
    + point_bytes
    + dh_mpi_max_bytes
    + point_bytes
    + dh_mpi_max_bytes
    + 6 * scalar_bytes

abbrev pub non_int_auth_max_bytes : ℕ
non_int_auth_max_bytes =
    dake_header_bytes + point_bytes + dh_mpi_max_bytes + 6 * scalar_bytes + 3 * 4 + hash_bytes

-- The first four fields of every message: the version, the type and the instance tags.
unfoldable pub serialize_dake_header : ℕ → ℕ → ℕ → Bytes
serialize_dake_header type sender receiver =
    serialize_uint16 protocol_version_4
    ++ (serialize_uint8 type ++ (serialize_uint32 sender ++ serialize_uint32 receiver))

module _ (g : Goldilocks) (c : Gcrypt) where
  open g use {Point}
  open c use {Mpi}

  -- `dake_identity_message_s`; the numbers may be null.
  pub record IdentityMessage : Type 0 where
    pub sender_instance_tag : ℕ
    pub receiver_instance_tag : ℕ
    pub profile : ClientProfile g
    pub y : Point
    pub b : Option Mpi
    pub y_first : Point
    pub b_first : Option Mpi

  -- `dake_auth_r_s`
  pub record AuthR : Type 0 where
    pub sender_instance_tag : ℕ
    pub receiver_instance_tag : ℕ
    pub profile : ClientProfile g
    pub x : Point
    pub a : Option Mpi
    pub x_first : Point
    pub a_first : Option Mpi
    pub sigma : RingSig g

  -- `dake_non_interactive_auth_message_s`
  pub record NonInteractiveAuth : Type 0 where
    pub sender_instance_tag : ℕ
    pub receiver_instance_tag : ℕ
    pub profile : ClientProfile g
    pub x : Point
    pub a : Option Mpi
    pub sigma : RingSig g
    pub prekey_message_id : ℕ
    pub auth_mac : Bytes

  -- The two points and numbers of an identity message or an Auth-R message behind `front`, in a
  -- buffer of `size` bytes.
  unfoldable pub serialize_key_pairs :
      ℕ → Bytes → Point → Option Mpi → Point → Option Mpi → Run (Unit {0}) Bytes
  serialize_key_pairs size front point number point_first number_first =
      let front = front ++ serialize_ec_point g point in
      attempt tt (serialize_dh_mpi_otr c (size - length front) number) >>= λ dh.
      let front = front ++ (dh ++ serialize_ec_point g point_first) in
      attempt tt (serialize_dh_mpi_otr c (size - length front) number_first) >>= λ dh_first.
      success (front ++ dh_first)

  unfoldable pub identity_message_serialize : IdentityMessage → Run (Unit {0}) Bytes
  identity_message_serialize m = client_profile_serialize g m.profile >>= λ profile.
      serialize_key_pairs (identity_max_bytes + length profile)
        (serialize_dake_header identity_msg_type m.sender_instance_tag m.receiver_instance_tag
          ++ profile)
        m.y m.b m.y_first m.b_first

  unfoldable pub auth_r_serialize : AuthR → Run (Unit {0}) Bytes
  auth_r_serialize m = client_profile_serialize g m.profile >>= λ profile.
      serialize_key_pairs (auth_r_max_bytes + length profile)
        (serialize_dake_header auth_r_msg_type m.sender_instance_tag m.receiver_instance_tag
          ++ profile)
        m.x m.a m.x_first m.a_first
      >>= λ body. success (body ++ serialize_ring_sig g m.sigma)

  unfoldable pub non_interactive_auth_serialize : NonInteractiveAuth → Run (Unit {0}) Bytes
  non_interactive_auth_serialize m = client_profile_serialize g m.profile >>= λ profile.
      let size = non_int_auth_max_bytes + length profile in
      let front =
        (serialize_dake_header non_int_auth_msg_type m.sender_instance_tag m.receiver_instance_tag
          ++ profile)
        ++ serialize_ec_point g m.x in
      attempt tt (serialize_dh_mpi_otr c (size - length front) m.a) >>= λ dh. success (
        front
        ++ (dh
            ++ (serialize_ring_sig g m.sigma
                ++ (serialize_uint32 m.prekey_message_id
                    ++ serialize_bytes_array (some m.auth_mac)))))
