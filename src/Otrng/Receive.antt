-- ===== src/Otrng/Receive.antt =====
-- src/otrng.c, `otrng_receive_data_message_after_dake`: a data message that was read from the wire
-- and is for this client. The keys of the message are found, its MAC is checked, it is decrypted,
-- and only then the temporary ratchet replaces the one of the key manager.
use libotrv.Prelude.{
  ℕ, ◌+◌, ◌%◌, ◌^◌, Bool, true, false, ◌&&◌, Option, none, some, List, [], if◌then◌else◌, take,
  Bytes,
}
use libotrv.Crypto.{Goldilocks, Shake, Gcrypt, Sodium}
use libotrv.Tlv.{Tlv}
use libotrv.Plaintext.{deserialize_received_tlvs, to_display}
use libotrv.DataMessage.{DataMessage, data_message_body_serialize}
use libotrv.Run.{Run, success, error, ◌>>=◌}
use libotrv.KeyExchange.{dh_mpi_valid}
use libotrv.KeyManager.State.{receiving_ratchet_new, receiving_ratchet_copy, set_their_tmp_keys}
use libotrv.KeyManager.Hashes.{MessageKeys, calculate_authenticator}
use libotrv.KeyManager.Ratchet.{Manager, Receiving}
use libotrv.KeyManager.Chain.{get_skipped_keys, derive_chain_keys_r, derive_dh_ratchet_keys_r}

-- ENC_ACTUAL_KEY_BYTES
abbrev pub enc_actual_key_bytes : ℕ
enc_actual_key_bytes = 32

-- `to_display` and `tlvs` of `otrng_response_s`.
pub record Response : Type 0 where
  pub shown : Option Bytes
  pub tlvs : Option (List Tlv)

module _ (g : Goldilocks) (c : Gcrypt) where
  -- A null pointer with the length 0.
  abbrev pub cipher_text : DataMessage g c → Bytes
  cipher_text msg = elim msg.enc_msg [ none ↦ [] | some bytes ↦ bytes ]

module _ (g : Goldilocks) (c : Gcrypt) (d : Sodium) where
  unfoldable pub decrypt_data_message : Bytes → DataMessage g c → Option Response
  decrypt_data_message enc_key msg =
      elim (d.stream_xor (cipher_text g c msg) msg.nonce (take enc_actual_key_bytes enc_key)) [
        | none ↦ none
        | some plain ↦
            some (record { shown = to_display plain; tlvs = deserialize_received_tlvs plain })
      ]

module _ (g : Goldilocks) (c : Gcrypt) (s : Shake) where
  -- The keys of a message: stored ones, or else those of the chain, in a new ratchet if the message
  -- has a new point.
  unfoldable pub receive_keys :
      Manager g c s
      → Receiving g c s
      → ℕ
      → DataMessage g c
      → Run (Manager g c s) (MessageKeys × (Manager g c s × Receiving g c s))
  receive_keys m tmp max_stored msg = elim (get_skipped_keys g c s msg.ecdh msg.message_id tmp) [
    | some (keys, tmp1) ↦ success (keys, (m, tmp1))
    | none ↦ (do
      (m1, tmp1) ← derive_dh_ratchet_keys_r g c s m max_stored tmp msg.ecdh msg.previous_chain_n
      (keys, tmp2) ← derive_chain_keys_r g c s m1 tmp1 max_stored msg.message_id
      success (keys, (m1, record tmp2 { k = (tmp2.k + 1) % 2 ^ 32 })))
  ]

module _ (g : Goldilocks) (c : Gcrypt) (s : Shake) (d : Sodium) where
  abbrev pub dh_valid : Option c.Mpi → Bool
  dh_valid none = true
  dh_valid (some dh) = dh_mpi_valid c s (some dh)

  -- `otrng_valid_data_message`, with `otrng_data_message_authenticator`.
  unfoldable pub valid_data_message : Bytes → DataMessage g c → Bool
  valid_data_message mac_key msg = elim (data_message_body_serialize g c msg) [
    | none ↦ false
    | some body ↦ elim (calculate_authenticator s mac_key body) [
      | none ↦ false
      | some mac_tag ↦
          if d.equal mac_tag msg.mac then (g.point_valid msg.ecdh && dh_valid msg.dh) else false
    ]
  ]

  -- The end of the function, on the keys that were found.
  unfoldable pub open_message :
      MessageKeys
      → Manager g c s
      → Receiving g c s
      → DataMessage g c
      → Run (Manager g c s) (Response × Manager g c s)
  open_message keys m tmp msg =
      if valid_data_message keys.mac_key msg
      then elim (decrypt_data_message g c d keys.enc_key msg) [
        | none ↦ error m
        | some response ↦ success (response, receiving_ratchet_copy g c s m tmp)
      ]
      else error m

  -- Up to `otrng_receiving_ratchet_copy`: the response and the key manager. What follows acts on the
  -- TLVs of the response and stores the MAC key.
  unfoldable pub receive_data_message :
      Manager g c s → ℕ → DataMessage g c → Run (Manager g c s) (Response × Manager g c s)
  receive_data_message m max_stored msg = do
    let tmp = set_their_tmp_keys g c s msg.ecdh msg.dh (receiving_ratchet_new g c s m)
    (keys, (m1, tmp1)) ← receive_keys g c s m tmp max_stored msg
    open_message keys m1 tmp1 msg
