-- ===== src/Otrng/Conversation.antt =====
-- A data message from the sender of src/protocol.c to the receiver of src/otrng.c.
use mathlib.Core.Path.{subst}
use libotrv.Prelude.{
  ℕ, ◌+◌, ◌%◌, ◌^◌, ◌≡◌, refl, sym, ap, ◌∙◌, some, [], ◌++◌, arith, take, replicate, Bytes,
}
use libotrv.Crypto.{Goldilocks, GoldilocksLaws, Shake, Gcrypt, GcryptLaws, Sodium, SodiumLaws}
use libotrv.DataMessage.{
  mac_bytes, DataMessage, data_message_body_serialize, data_message_deserialize, data_message_new,
}
use libotrv.DataMessage.RoundTrip.{IsMessage, deserialize-body_serialize}
use libotrv.DataMessage.Text.{some-injective, body-mac}
use libotrv.Kdf.{ShakeLaws}
use libotrv.Run.{success}
use libotrv.KeyManager.Ratchet.{Manager}
use libotrv.KeyManager.Schedule.{two_hashed, keys_of, chain_at}
use libotrv.Otrng.Receive.{enc_actual_key_bytes}
use libotrv.Otrng.Send.{InstanceTags, revealed, send_in_ratchet}
use libotrv.Otrng.Exchange.{
  wire_message, IsSendable, wire_message-IsMessage, valid_data_message_lem, response_of,
  decrypt-wire_message, send_in_ratchet_lem,
}
use libotrv.Otrng.Sequence.{IsGenuine}

module _ (g : Goldilocks) (c : Gcrypt) (s : Shake) (d : Sodium) (laws : ShakeLaws s)
    (sl : SodiumLaws d) (gl : GoldilocksLaws g) (cl : GcryptLaws c) where
  -- A message whose body is known is read back from the body, its MAC and what follows.
  deserialize-known_body :
      (w : DataMessage g c) (fresh : g.Point) (mac body cipher rest : Bytes)
      → IsMessage g c (record w { mac = mac }) cipher
      → data_message_body_serialize g c w ≡ some body
      → data_message_deserialize g c (data_message_new g c fresh) (body ++ (mac ++ rest))
        ≡ some (record w { mac = mac })
  deserialize-known_body w fresh mac body cipher rest h done =
      let (body1, done1, back) =
        deserialize-body_serialize g c gl cl fresh (record w { mac = mac }) cipher rest h in
      subst
        (λ b.
          data_message_deserialize g c (data_message_new g c fresh) (b ++ (mac ++ rest))
          ≡ some (record w { mac = mac }))
        (some-injective (sym done1 ∙ (body-mac g c w mac ∙ done))) back

  -- What becomes of a sent message: it is on the wire, the chain has moved on by one, and the
  -- message that is read opens to the text with the keys of its number.
  abbrev pub IsOpened :
      Manager g c s → InstanceTags → ℕ → ℕ → Bytes → Bytes → Bytes → g.Point → Type 0
  IsOpened m tags ratchet_id flags msg nonce chain fresh =
      (bytes : Bytes) × (m1 : Manager g c s) × (read : DataMessage g c) × (send_in_ratchet g c s d m
          tags ratchet_id msg flags nonce
        ≡ success (bytes, m1))
      × (m1.j ≡ m.j + 1)
      × (m1.current.chain_s ≡ chain_at s laws m1.j chain)
      × (data_message_deserialize g c (data_message_new g c fresh) bytes ≡ some read)
      × (read.message_id ≡ m.j)
      × IsGenuine g c s d laws m.our_ecdh.public chain (read, response_of g c s d laws sl msg)

  send_known_body :
      (m : Manager g c s) (tags : InstanceTags) (ratchet_id flags : ℕ)
      (msg nonce cipher chain body : Bytes) (fresh : g.Point)
      → m.current.chain_s ≡ chain_at s laws m.j chain
      → d.stream_xor msg nonce
          (take enc_actual_key_bytes (keys_of s laws (chain_at s laws m.j chain)).enc_key)
        ≡ some cipher
      → IsSendable g c s d m tags ratchet_id flags nonce cipher
      → data_message_body_serialize g c
          (wire_message g c s d m tags ratchet_id flags nonce cipher (replicate mac_bytes 0))
        ≡ some body
      → IsOpened m tags ratchet_id flags msg nonce chain fresh
  send_known_body m tags ratchet_id flags msg nonce cipher chain body fresh e x h done =
      let small : (m.j + 1) % 2 ^ 32 ≡ m.j + 1 = omega (arith, h.message) in
      let keys = keys_of s laws (chain_at s laws m.j chain) in
      let zeros = replicate mac_bytes 0 in
      let mac = two_hashed s laws 26 keys.mac_key body in
      let wire0 = wire_message g c s d m tags ratchet_id flags nonce cipher zeros in
      let wire1 = wire_message g c s d m tags ratchet_id flags nonce cipher mac in
      let (m1, sent, next, moved) =
        send_in_ratchet_lem g c s d laws sl m tags ratchet_id flags msg nonce cipher chain zeros
          body e x done in
      (
        body ++ (mac ++ revealed g c s d m),
        m1,
        wire1,
        sent,
        next ∙ small,
        moved ∙ ap (λ n. chain_at s laws n chain) (sym (next ∙ small)),
        deserialize-known_body wire0 fresh mac body cipher (revealed g c s d m)
            (wire_message-IsMessage g c s d m tags ratchet_id flags nonce cipher mac h
              (laws.length-final _ 64))
            done,
        refl,
        (
          refl,
          record {
            authentic =
                valid_data_message_lem g c s d laws sl keys.mac_key body wire1
                  (body-mac g c wire0 mac ∙ done) refl h.point h.dh;
            decrypted =
                decrypt-wire_message g c s d laws sl m tags ratchet_id flags msg nonce cipher mac
                  keys.enc_key x;
          },
        ),
      )

  -- A message that is sent in a ratchet succeeds, moves the chain on by one, and is read from the
  -- wire, whatever was in the fresh point, as a message that opens to the text with the keys of its
  -- number. It holds where the sending chain is at the message's number, the numbers fit their
  -- fields, the public keys are valid and the cipher takes the text.
  pub data_message_deserialize-send_in_ratchet :
      (m : Manager g c s) (tags : InstanceTags) (ratchet_id flags : ℕ)
      (msg nonce cipher chain : Bytes) (fresh : g.Point)
      → m.current.chain_s ≡ chain_at s laws m.j chain
      → d.stream_xor msg nonce
          (take enc_actual_key_bytes (keys_of s laws (chain_at s laws m.j chain)).enc_key)
        ≡ some cipher
      → IsSendable g c s d m tags ratchet_id flags nonce cipher
      → IsOpened m tags ratchet_id flags msg nonce chain fresh
  data_message_deserialize-send_in_ratchet m tags ratchet_id flags msg nonce cipher chain fresh e x
        h =
      let zeros = replicate mac_bytes 0 in
      let (body, done, _) =
        deserialize-body_serialize g c gl cl fresh
          (wire_message g c s d m tags ratchet_id flags nonce cipher zeros) cipher []
          (wire_message-IsMessage g c s d m tags ratchet_id flags nonce cipher zeros h refl) in
      send_known_body m tags ratchet_id flags msg nonce cipher chain body fresh e x h done
