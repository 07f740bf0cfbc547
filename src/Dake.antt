-- ===== src/Dake.antt =====
-- src/dake.c: the messages of the key exchange on the wire.
pub mod Messages
pub mod Read
pub mod Parts
pub mod Tag
pub mod Transcript
pub mod Exchange
pub mod RoundTrip
mod Tests
use libotrv.Prelude.{ℕ, Option, some, ◌++◌, not, ◌==◌, length, drop, Bytes, ◌>>=◌, ◌>>◌, require}
use libotrv.Crypto.{Goldilocks}
use libotrv.Wire.Serialize.{serialize_uint32, serialize_uint16, serialize_uint8}
use libotrv.Wire.Deserialize.{deserialize_uint32, deserialize_uint16, deserialize_uint8}
use libotrv.DataMessage.{protocol_version_4}
use libotrv.Ring.{RingSig}
use libotrv.Ring.Codec.{serialize_ring_sig, deserialize_ring_sig}

-- AUTH_I_MSG_TYPE
abbrev pub auth_i_msg_type : ℕ
auth_i_msg_type = 55

module _ (g : Goldilocks) where
  -- `dake_auth_i_s`
  pub record AuthI : Type 0 where
    pub sender_instance_tag : ℕ
    pub receiver_instance_tag : ℕ
    pub sigma : RingSig g

  -- `otrng_dake_auth_i_serialize`
  unfoldable pub dake_auth_i_serialize : AuthI → Option Bytes
  dake_auth_i_serialize auth_i = do
    let sigma = serialize_ring_sig g auth_i.sigma
    require (not (length sigma == 0))
    some (
        serialize_uint16 protocol_version_4
        ++ (serialize_uint8 auth_i_msg_type
            ++ (serialize_uint32 auth_i.sender_instance_tag
                ++ (serialize_uint32 auth_i.receiver_instance_tag ++ sigma))))

  -- `otrng_dake_auth_i_deserialize`: the message it leaves in `dst`.
  unfoldable pub dake_auth_i_deserialize : Bytes → Option AuthI
  dake_auth_i_deserialize buffer = do
    (version, r) ← deserialize_uint16 buffer
    let b1 = drop r buffer
    require (version == protocol_version_4)
    (type, r) ← deserialize_uint8 b1
    let b2 = drop r b1
    require (type == auth_i_msg_type)
    (sender, r) ← deserialize_uint32 b2
    let b3 = drop r b2
    (receiver, r) ← deserialize_uint32 b3
    (sigma, r) ← deserialize_ring_sig g (drop r b3)
    some (record { sender_instance_tag = sender; receiver_instance_tag = receiver; sigma = sigma })
