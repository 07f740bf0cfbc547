-- ===== src/Otrng/Send.antt =====
-- src/protocol.c, `send_data_message`: a data message is keyed, encrypted and put on the wire, up to
-- its base64 encoding, which is of another library. `otrng_serialize_old_mac_keys` is of
-- src/serialize.c.
use libotrv.Prelude.{
  ℕ, ◌+◌, ◌%◌, ◌^◌, Option, none, some, List, [], ◌∷◌, ◌++◌, ◌==◌, if◌then◌else◌, length, take,
  Bytes,
}
use libotrv.Crypto.{Goldilocks, Shake, Gcrypt, Sodium}
use libotrv.DataMessage.{DataMessage, data_message_body_serialize, data_message_new}
use libotrv.Run.{Run, success, ◌>>=◌, attempt}
use libotrv.KeyManager.State.{key_bytes}
use libotrv.KeyManager.Hashes.{calculate_authenticator}
use libotrv.KeyManager.Ephemeral.{Chance}
use libotrv.KeyManager.Ratchet.{Manager}
use libotrv.KeyManager.Chain.{derive_chain_keys_s, derive_dh_ratchet_keys_s}
use libotrv.Otrng.Receive.{enc_actual_key_bytes}

-- The keys from the end of the list to its head.
unfoldable pub serialize_old_mac_keys : List Bytes → Bytes
serialize_old_mac_keys [] = []
serialize_old_mac_keys (key ∷ keys) = serialize_old_mac_keys keys ++ take key_bytes key

-- `our_instance_tag(otr)` and `otr->their_instance_tag`.
pub record InstanceTags : Type 0 where
  pub ours : ℕ
  pub theirs : ℕ

module _ (g : Goldilocks) (c : Gcrypt) (s : Shake) (d : Sodium) where
  -- The ratchet id is the one from before the rotation.
  unfoldable pub generate_data_message : Manager g c s → InstanceTags → ℕ → DataMessage g c
  generate_data_message m tags ratchet_id = record (data_message_new g c g.point_destroyed) {
    sender_instance_tag = tags.ours;
    receiver_instance_tag = tags.theirs;
    previous_chain_n = m.pn;
    ratchet_id = ratchet_id;
    message_id = m.j;
    ecdh = m.our_ecdh.public;
    dh = m.our_dh.public;
  }

  -- `nonce` is what the random number generator gives.
  unfoldable pub encrypt_data_message :
      DataMessage g c → Bytes → Bytes → Bytes → Option (DataMessage g c)
  encrypt_data_message data_msg msg nonce enc_key =
      elim (d.stream_xor msg nonce (take enc_actual_key_bytes enc_key)) [
        | none ↦ none
        | some cipher ↦
            some
              (record data_msg { nonce = nonce; enc_msg_len = length msg; enc_msg = some cipher })
      ]

  -- `serialize_and_encode_data_message` before the encoding.
  unfoldable pub serialize_data_message : Bytes → Bytes → DataMessage g c → Option Bytes
  serialize_data_message mac_key to_reveal data_msg =
      elim (data_message_body_serialize g c data_msg) [
        | none ↦ none
        | some body ↦ elim (calculate_authenticator s mac_key body) [
          | none ↦ none
          | some mac ↦ some (body ++ (mac ++ to_reveal))
        ]
      ]

  -- The old MAC keys that the first message of a chain reveals.
  abbrev pub revealed : Manager g c s → Bytes
  revealed m = if m.j == 0 then serialize_old_mac_keys m.old_mac_keys else []

  abbrev pub forget_revealed : Manager g c s → Manager g c s
  forget_revealed m = if m.j == 0 then record m { old_mac_keys = [] } else m

  -- The message behind its ratchet.
  unfoldable pub send_in_ratchet :
      Manager g c s
      → InstanceTags
      → ℕ
      → Bytes
      → ℕ
      → Bytes
      → Run (Manager g c s) (Bytes × Manager g c s)
  send_in_ratchet m tags ratchet_id msg flags nonce = do
    (keys, m1) ← derive_chain_keys_s g c s m
    data_msg ← attempt m1 (
        encrypt_data_message (record (generate_data_message m1 tags ratchet_id) { flags = flags })
          msg nonce keys.enc_key)
    to_send ←
        attempt (forget_revealed m1) (serialize_data_message keys.mac_key (revealed m1) data_msg)
    success (to_send, record (forget_revealed m1) { j = ((forget_revealed m1).j + 1) % 2 ^ 32 })

  unfoldable pub send_data_message :
      Chance
      → Manager g c s
      → InstanceTags
      → Bytes
      → ℕ
      → Bytes
      → Run (Manager g c s) (Bytes × Manager g c s)
  send_data_message chance m tags msg flags nonce = do
    m1 ← derive_dh_ratchet_keys_s g c s chance m
    send_in_ratchet m1 tags m.i msg flags nonce
