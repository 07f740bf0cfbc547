-- ===== src/Dake/Read.antt =====
-- src/dake.c: how the messages of the key exchange that carry a client profile are read.
use libotrv.Prelude.{ℕ, Option, none, some, ◌==◌, drop, Bytes, ◌>>=◌, ◌>>◌, require}
use libotrv.Crypto.{Goldilocks, Gcrypt, point_bytes}
use libotrv.Wire.Deserialize.{
  deserialize_uint32, deserialize_uint16, deserialize_uint8, deserialize_bytes_array,
}
use libotrv.Wire.Keys.{deserialize_ec_point, deserialize_dh_mpi_otr}
use libotrv.DataMessage.{protocol_version_4}
use libotrv.Ring.Codec.{deserialize_ring_sig}
use libotrv.ClientProfile.Read.{client_profile_deserialize}
use libotrv.Dake.Messages.{
  identity_msg_type, auth_r_msg_type, non_int_auth_msg_type, hash_bytes, IdentityMessage, AuthR,
  NonInteractiveAuth,
}

-- The first four fields: the instance tags and what follows.
unfoldable pub deserialize_dake_header : ℕ → Bytes → Option (ℕ × ℕ × Bytes)
deserialize_dake_header expected buffer = do
  (version, r) ← deserialize_uint16 buffer
  let b1 = drop r buffer
  require (version == protocol_version_4)
  (type, r) ← deserialize_uint8 b1
  let b2 = drop r b1
  require (type == expected)
  (sender, r) ← deserialize_uint32 b2
  let b3 = drop r b2
  (receiver, r) ← deserialize_uint32 b3
  some (sender, receiver, drop r b3)

module _ (g : Goldilocks) (c : Gcrypt) where
  open g use {Point}
  open c use {Mpi}

  -- A point and a number, and what follows.
  unfoldable pub deserialize_key_pair : Bytes → Option (Point × Option Mpi × Bytes)
  deserialize_key_pair buffer = do
    point ← deserialize_ec_point g buffer
    let b1 = drop point_bytes buffer
    (number, r) ← deserialize_dh_mpi_otr c none b1
    some (point, number, drop r b1)

  -- The message that is left in a fresh `dst`; `p` is the point structure with zero bytes.
  unfoldable pub identity_message_deserialize : Point → Bytes → Option (IdentityMessage g c)
  identity_message_deserialize p src = do
    (sender, receiver, b1) ← deserialize_dake_header identity_msg_type src
    (profile, r) ← client_profile_deserialize g p b1
    (y, b, b2) ← deserialize_key_pair (drop r b1)
    (y_first, b_first, b3) ← deserialize_key_pair b2
    some (record {
      sender_instance_tag = sender;
      receiver_instance_tag = receiver;
      profile = profile;
      y = y;
      b = b;
      y_first = y_first;
      b_first = b_first;
    })

  unfoldable pub auth_r_deserialize : Point → Bytes → Option (AuthR g c)
  auth_r_deserialize p buffer = do
    (sender, receiver, b1) ← deserialize_dake_header auth_r_msg_type buffer
    (profile, r) ← client_profile_deserialize g p b1
    (x, a, b2) ← deserialize_key_pair (drop r b1)
    (x_first, a_first, b3) ← deserialize_key_pair b2
    (sigma, r) ← deserialize_ring_sig g b3
    some (record {
      sender_instance_tag = sender;
      receiver_instance_tag = receiver;
      profile = profile;
      x = x;
      a = a;
      x_first = x_first;
      a_first = a_first;
      sigma = sigma;
    })

  unfoldable pub non_interactive_auth_deserialize : Point → Bytes → Option (NonInteractiveAuth g c)
  non_interactive_auth_deserialize p buffer = do
    (sender, receiver, b1) ← deserialize_dake_header non_int_auth_msg_type buffer
    (profile, r) ← client_profile_deserialize g p b1
    (x, a, b2) ← deserialize_key_pair (drop r b1)
    (sigma, r) ← deserialize_ring_sig g b2
    let b3 = drop r b2
    (prekey_message_id, r) ← deserialize_uint32 b3
    auth_mac ← deserialize_bytes_array hash_bytes (drop r b3)
    some (record {
      sender_instance_tag = sender;
      receiver_instance_tag = receiver;
      profile = profile;
      x = x;
      a = a;
      sigma = sigma;
      prekey_message_id = prekey_message_id;
      auth_mac = auth_mac;
    })
