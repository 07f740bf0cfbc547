-- ===== src/DataMessage.antt =====
-- src/data_message.c: the data message on the wire, its authenticated body and its MAC.
pub mod RoundTrip
pub mod Text
mod Tests
use libotrv.Prelude.{
  ℕ, ◌+◌, ◌-◌, Option, none, some, ◌++◌, ◌==◌, length, drop, replicate, Bytes, ◌>>=◌, ◌>>◌, require,
}
use libotrv.Crypto.{Goldilocks, Gcrypt, point_bytes, dh_mpi_max_bytes}
use libotrv.Wire.Serialize.{
  serialize_uint32, serialize_uint16, serialize_uint8, serialize_bytes_array, serialize_data,
}
use libotrv.Wire.Deserialize.{
  deserialize_uint32, deserialize_uint16, deserialize_uint8, deserialize_data,
  deserialize_bytes_array,
}
use libotrv.Wire.Keys.{
  serialize_ec_point, deserialize_ec_point, serialize_dh_mpi_otr, deserialize_dh_mpi_otr,
}

-- OTRNG_PROTOCOL_VERSION_4, DATA_MSG_TYPE, DATA_MSG_NONCE_BYTES, DATA_MSG_MAC_BYTES.
abbrev pub protocol_version_4 : ℕ
protocol_version_4 = 4

abbrev pub data_msg_type : ℕ
data_msg_type = 3

abbrev pub nonce_bytes : ℕ
nonce_bytes = 24

abbrev pub mac_bytes : ℕ
mac_bytes = 64

-- DAKE_HEADER_BYTES and DATA_MSG_MAX_BYTES.
abbrev pub data_msg_max_bytes : ℕ
data_msg_max_bytes = 11 + 1 + 4 + 4 + 4 + point_bytes + dh_mpi_max_bytes + 4 + nonce_bytes

module _ (g : Goldilocks) (c : Gcrypt) where
  open g use {Point}
  open c use {Mpi}

  -- `data_message_s`. `dh` and `enc_msg` may be null.
  pub record DataMessage : Type 0 where
    pub sender_instance_tag : ℕ
    pub receiver_instance_tag : ℕ
    pub flags : ℕ
    pub previous_chain_n : ℕ
    pub ratchet_id : ℕ
    pub message_id : ℕ
    pub ecdh : Point
    pub dh : Option Mpi
    pub nonce : Bytes
    pub enc_msg : Option Bytes
    pub enc_msg_len : ℕ
    pub mac : Bytes

  -- The fields in front of the keys.
  unfoldable pub serialize_head : DataMessage → Bytes
  serialize_head m =
      serialize_uint16 protocol_version_4
      ++ (serialize_uint8 data_msg_type
          ++ (serialize_uint32 m.sender_instance_tag
              ++ (serialize_uint32 m.receiver_instance_tag
                  ++ (serialize_uint8 m.flags
                      ++ (serialize_uint32 m.previous_chain_n
                          ++ (serialize_uint32 m.ratchet_id ++ serialize_uint32 m.message_id))))))

  -- `size - (cursor - dst)` is the room that is left for the Diffie-Hellman number.
  unfoldable pub data_message_body_serialize : DataMessage → Option Bytes
  data_message_body_serialize m = do
    let size = data_msg_max_bytes + m.enc_msg_len
    let front = serialize_head m ++ serialize_ec_point g m.ecdh
    dh ← serialize_dh_mpi_otr c (size - length front) m.dh
    some (
        front
        ++ (dh ++ (serialize_bytes_array (some m.nonce) ++ serialize_data m.enc_msg m.enc_msg_len)))

  -- `otrng_data_message_deserialize` into `dst`. Where the encrypted message is empty, `enc_msg` and
  -- `enc_msg_len` stay as they are in `dst`.
  unfoldable pub data_message_deserialize : DataMessage → Bytes → Option DataMessage
  data_message_deserialize dst buffer = do
    (version, r) ← deserialize_uint16 buffer
    let b1 = drop r buffer
    require (version == protocol_version_4)
    (type, r) ← deserialize_uint8 b1
    let b2 = drop r b1
    require (type == data_msg_type)
    (sender, r) ← deserialize_uint32 b2
    let b3 = drop r b2
    (receiver, r) ← deserialize_uint32 b3
    let b4 = drop r b3
    (flags, r) ← deserialize_uint8 b4
    let b5 = drop r b4
    (previous, r) ← deserialize_uint32 b5
    let b6 = drop r b5
    (ratchet, r) ← deserialize_uint32 b6
    let b7 = drop r b6
    (message, r) ← deserialize_uint32 b7
    let b8 = drop r b7
    ecdh ← deserialize_ec_point g b8
    let b9 = drop point_bytes b8
    (dh, r) ← deserialize_dh_mpi_otr c dst.dh b9
    let b10 = drop r b9
    nonce ← deserialize_bytes_array nonce_bytes b10
    let b11 = drop nonce_bytes b10
    let read = deserialize_data b11
    require read.success
    mac ← deserialize_bytes_array mac_bytes (drop read.read b11)
    some (record {
      sender_instance_tag = sender;
      receiver_instance_tag = receiver;
      flags = flags;
      previous_chain_n = previous;
      ratchet_id = ratchet;
      message_id = message;
      ecdh = ecdh;
      dh = dh;
      nonce = nonce;
      enc_msg = elim read.bytes [ none ↦ dst.enc_msg | some bytes ↦ some bytes ];
      enc_msg_len = elim read.bytes [ none ↦ dst.enc_msg_len | some bytes ↦ length bytes ];
      mac = mac;
    })

  -- `otrng_data_message_new`: all zero; `p` is the point structure with zero bytes.
  unfoldable pub data_message_new : Point → DataMessage
  data_message_new p = record {
    sender_instance_tag = 0;
    receiver_instance_tag = 0;
    flags = 0;
    previous_chain_n = 0;
    ratchet_id = 0;
    message_id = 0;
    ecdh = p;
    dh = none;
    nonce = replicate nonce_bytes 0;
    enc_msg = none;
    enc_msg_len = 0;
    mac = replicate mac_bytes 0;
  }
