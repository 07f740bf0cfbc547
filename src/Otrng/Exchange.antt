-- ===== src/Otrng/Exchange.antt =====
-- What src/protocol.c sends in a ratchet, src/data_message.c reads back from the wire and
-- src/otrng.c opens.
use libotrv.Plaintext.{deserialize_received_tlvs, to_display}
use libotrv.DataMessage.Text.{text_pointer, text_pointer-bytes, body-text_pointer, body-mac}
use libotrv.DataMessage.RoundTrip.{IsMessage}
use libotrv.Otrng.Receive.{
  enc_actual_key_bytes, Response, decrypt_data_message, dh_valid, valid_data_message,
}
use libotrv.Otrng.Send.{
  InstanceTags, generate_data_message, encrypt_data_message, serialize_data_message, revealed,
  forget_revealed, send_in_ratchet,
}
use libotrv.Prelude.{
  ℕ, ◌+◌, ◌%◌, ◌^◌, ◌<◌, ◌≡◌, refl, sym, ◌∙◌, inl, inr, true, some, List, [], ◌++◌, arith, ◌==◌,
  Bool-cases, length, take, replicate, Bytes,
}
use libotrv.Crypto.{Goldilocks, Shake, Gcrypt, Sodium, SodiumLaws}
use libotrv.Wire.Keys.{IsNumber}
use libotrv.DataMessage.{
  nonce_bytes, mac_bytes, DataMessage, data_message_body_serialize, data_message_new,
}
use libotrv.Kdf.{ShakeLaws, hash_init_with_usage_lem}
use libotrv.Run.{success}
use libotrv.KeyManager.Hashes.{calculate_authenticator}
use libotrv.KeyManager.Ratchet.{Manager}
use libotrv.KeyManager.Schedule.{
  two_hashed, keys_of, extra_key_of, chain_at, chain_at-suc, calculate_extra_key_lem,
  derive_keys_lem, derive_next_chain_key_lem,
}
use libotrv.KeyManager.Chain.{derive_chain_keys_s}

module _ (g : Goldilocks) (c : Gcrypt) (s : Shake) (laws : ShakeLaws s) where
  -- The sending chain at message `j` gives that message's keys.
  derive_chain_keys_s_lem :
      (m : Manager g c s) (chain : Bytes)
      → m.current.chain_s ≡ chain_at s laws m.j chain
      → derive_chain_keys_s g c s m
        ≡ success (
          keys_of s laws (chain_at s laws m.j chain),
          record m {
            extra_symmetric_key = extra_key_of s laws (chain_at s laws m.j chain);
            current = record m.current { chain_s = chain_at s laws (m.j + 1) chain };
          },
        )
  unfolding derive_chain_keys_s
  derive_chain_keys_s_lem m chain e =
      rw
        (
          derive_chain_keys_s,
          derive_keys_lem s laws m.current.chain_s,
          calculate_extra_key_lem s laws m.current.chain_s,
          derive_next_chain_key_lem s laws m.current.chain_s,
          e,
          chain_at-suc s laws m.j chain,
        )
        refl

  calculate_authenticator_lem :
      (mac_key sections : Bytes)
      → calculate_authenticator s mac_key sections ≡ some (two_hashed s laws 26 mac_key sections)
  unfolding calculate_authenticator
  calculate_authenticator_lem mac_key sections =
      rw (hash_init_with_usage_lem s laws 26, laws.update-absorb, laws.update-absorb) refl

module _ (g : Goldilocks) (c : Gcrypt) (s : Shake) (d : Sodium) where
  -- The message that stands on the wire.
  abbrev pub wire_message :
      Manager g c s → InstanceTags → ℕ → ℕ → Bytes → Bytes → Bytes → DataMessage g c
  wire_message m tags ratchet_id flags nonce cipher mac = record {
    sender_instance_tag = tags.ours;
    receiver_instance_tag = tags.theirs;
    flags = flags;
    previous_chain_n = m.pn;
    ratchet_id = ratchet_id;
    message_id = m.j;
    ecdh = m.our_ecdh.public;
    dh = m.our_dh.public;
    nonce = nonce;
    enc_msg = text_pointer cipher;
    enc_msg_len = length cipher;
    mac = mac;
  }

  -- A message can be sent: its numbers fit their fields, and its public keys are valid.
  pub record IsSendable (m : Manager g c s) (tags : InstanceTags) (ratchet_id flags : ℕ)
      (nonce cipher : Bytes) : Type 0 where
    pub sender : tags.ours < 2 ^ 32
    pub receiver : tags.theirs < 2 ^ 32
    pub flag_bits : flags < 2 ^ 8
    pub previous : m.pn < 2 ^ 32
    pub ratchet : ratchet_id < 2 ^ 32
    pub message : m.j + 1 < 2 ^ 32
    pub number : IsNumber c m.our_dh.public
    pub nonce_len : length nonce ≡ nonce_bytes
    pub small : length cipher < 2 ^ 32
    pub point : g.point_valid m.our_ecdh.public ≡ true
    pub dh : dh_valid g c s d m.our_dh.public ≡ true

  pub wire_message-IsMessage :
      (m : Manager g c s) (tags : InstanceTags) (ratchet_id flags : ℕ) (nonce cipher mac : Bytes)
      → IsSendable m tags ratchet_id flags nonce cipher
      → length mac ≡ mac_bytes
      → IsMessage g c (wire_message m tags ratchet_id flags nonce cipher mac) cipher
  wire_message-IsMessage m tags ratchet_id flags nonce cipher mac h len = record {
    sender = h.sender;
    receiver = h.receiver;
    flags = h.flag_bits;
    previous = h.previous;
    ratchet = h.ratchet;
    message = omega (arith, h.message);
    number = h.number;
    nonce = h.nonce_len;
    mac = len;
    small = h.small;
    text = refl;
    text_len = refl;
  }

module _ (g : Goldilocks) (c : Gcrypt) (s : Shake) (d : Sodium) (laws : ShakeLaws s)
    (sl : SodiumLaws d) where
  pub valid_data_message_lem :
      (mac_key body : Bytes) (w : DataMessage g c)
      → data_message_body_serialize g c w ≡ some body
      → w.mac ≡ two_hashed s laws 26 mac_key body
      → g.point_valid w.ecdh ≡ true
      → dh_valid g c s d w.dh ≡ true
      → valid_data_message g c s d mac_key w ≡ true
  unfolding valid_data_message
  valid_data_message_lem mac_key body w done mac point dh =
      rw
        (
          valid_data_message,
          done,
          calculate_authenticator_lem g c s laws mac_key body,
          mac,
          sl.equal-self (two_hashed s laws 26 mac_key body),
          point,
          dh,
        )
        refl

  -- The plain text as the receiver shows it.
  abbrev pub response_of : Bytes → Response
  response_of msg = record { shown = to_display msg; tlvs = deserialize_received_tlvs msg }

  pub decrypt-wire_message :
      (m : Manager g c s) (tags : InstanceTags) (ratchet_id flags : ℕ)
      (msg nonce cipher mac enc_key : Bytes)
      → d.stream_xor msg nonce (take enc_actual_key_bytes enc_key) ≡ some cipher
      → decrypt_data_message g c d enc_key
          (wire_message g c s d m tags ratchet_id flags nonce cipher mac)
        ≡ some (response_of msg)
  unfolding decrypt_data_message
  decrypt-wire_message m tags ratchet_id flags msg nonce cipher mac enc_key e =
      rw
        (
          decrypt_data_message,
          text_pointer-bytes cipher,
          sl.stream_xor-stream_xor msg nonce (take enc_actual_key_bytes enc_key) cipher e,
        )
        refl

  serialize_data_message_lem :
      (mac_key reveal body : Bytes) (w : DataMessage g c)
      → data_message_body_serialize g c w ≡ some body
      → serialize_data_message g c s d mac_key reveal w
        ≡ some (body ++ (two_hashed s laws 26 mac_key body ++ reveal))
  unfolding serialize_data_message
  serialize_data_message_lem mac_key reveal body w done =
      rw (serialize_data_message, done, calculate_authenticator_lem g c s laws mac_key body) refl

  encrypt_data_message_lem :
      (data_msg : DataMessage g c) (msg nonce enc_key cipher : Bytes)
      → d.stream_xor msg nonce (take enc_actual_key_bytes enc_key) ≡ some cipher
      → encrypt_data_message g c s d data_msg msg nonce enc_key
        ≡ some
            (record data_msg { nonce = nonce; enc_msg_len = length cipher; enc_msg = some cipher })
  unfolding encrypt_data_message
  encrypt_data_message_lem data_msg msg nonce enc_key cipher e =
      rw
        (
          encrypt_data_message,
          e,
          sl.length-stream_xor msg nonce (take enc_actual_key_bytes enc_key) cipher e,
        )
        refl

  -- The body of the message that is encrypted is that of the message on the wire.
  body-wire_message :
      (m : Manager g c s) (tags : InstanceTags) (ratchet_id flags : ℕ) (nonce cipher mac : Bytes)
      → data_message_body_serialize g c (record (generate_data_message g c s d m tags ratchet_id) {
        flags = flags;
        nonce = nonce;
        enc_msg_len = length cipher;
        enc_msg = some cipher;
      })
        ≡ data_message_body_serialize g c
            (wire_message g c s d m tags ratchet_id flags nonce cipher mac)
  unfolding generate_data_message data_message_new
  body-wire_message m tags ratchet_id flags nonce cipher mac =
      body-text_pointer g c
        (record (generate_data_message g c s d m tags ratchet_id) { flags = flags; nonce = nonce })
        cipher
      ∙ sym (
          body-mac g c
            (wire_message g c s d m tags ratchet_id flags nonce cipher (replicate mac_bytes 0)) mac)

  forget_revealed_lem :
      (m : Manager g c s)
      → (old : List Bytes) × (forget_revealed g c s d m ≡ record m { old_mac_keys = old })
  forget_revealed_lem m = elim (Bool-cases (m.j == 0)) [
    | inl first ↦ ([], rw first refl)
    | inr later ↦ (m.old_mac_keys, rw later refl)
  ]

  -- What is sent, from the body of the message.
  pub send_in_ratchet_lem :
      (m : Manager g c s) (tags : InstanceTags) (ratchet_id flags : ℕ)
      (msg nonce cipher chain mac body : Bytes)
      → m.current.chain_s ≡ chain_at s laws m.j chain
      → d.stream_xor msg nonce
          (take enc_actual_key_bytes (keys_of s laws (chain_at s laws m.j chain)).enc_key)
        ≡ some cipher
      → data_message_body_serialize g c
          (wire_message g c s d m tags ratchet_id flags nonce cipher mac)
        ≡ some body
      → (m1 : Manager g c s) × (send_in_ratchet g c s d m tags ratchet_id msg flags nonce
          ≡ success (
            body
                ++ (two_hashed s laws 26 (keys_of s laws (chain_at s laws m.j chain)).mac_key body
                    ++ revealed g c s d m),
            m1,
          ))
        × (m1.j ≡ (m.j + 1) % 2 ^ 32)
        × (m1.current.chain_s ≡ chain_at s laws (m.j + 1) chain)
  unfolding send_in_ratchet
  send_in_ratchet_lem m tags ratchet_id flags msg nonce cipher chain mac body e x done =
      let keys = keys_of s laws (chain_at s laws m.j chain) in
      let m1 : Manager g c s = record m {
        extra_symmetric_key = extra_key_of s laws (chain_at s laws m.j chain);
        current = record m.current { chain_s = chain_at s laws (m.j + 1) chain };
      } in
      let (old, forgot) = forget_revealed_lem m1 in
      (
        record m1 { old_mac_keys = old; j = (m.j + 1) % 2 ^ 32 },
        rw
            (
              send_in_ratchet,
              derive_chain_keys_s_lem g c s laws m chain e,
              encrypt_data_message_lem
                  (record (generate_data_message g c s d m1 tags ratchet_id) { flags = flags }) msg
                  nonce keys.enc_key cipher x,
              forgot,
              serialize_data_message_lem keys.mac_key (revealed g c s d m1) body
                  (record (generate_data_message g c s d m1 tags ratchet_id) {
                    flags = flags;
                    nonce = nonce;
                    enc_msg_len = length cipher;
                    enc_msg = some cipher;
                  })
                  (body-wire_message m1 tags ratchet_id flags nonce cipher mac ∙ done),
            )
            refl,
        refl,
        refl,
      )
