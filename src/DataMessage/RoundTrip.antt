-- ===== src/DataMessage/RoundTrip.antt =====
-- A data message that was written is read back.
use libotrv.Prelude.{
  ℕ, ◌+◌, ◌-◌, ◌^◌, ◌≤◌, ◌<◌, ◌≡◌, refl, sym, ◌∙◌, Option, none, some, [], ◌∷◌, ◌++◌, append_assoc,
  arith, ◌==◌, if◌then◌else◌, length, length-append, drop_prefix, Bytes,
}
use libotrv.Crypto.{Goldilocks, GoldilocksLaws, Gcrypt, GcryptLaws, dh_mpi_max_bytes}
use libotrv.Wire.Serialize.{
  serialize_uint32, serialize_uint16, serialize_uint8, serialize_bytes_array, serialize_data,
}
use libotrv.Wire.RoundTrip.{
  deserialize-serialize_uint32, deserialize-serialize_uint16, deserialize-serialize_uint8,
  drop-serialize_uint32, drop-serialize_uint16, drop-serialize_uint8, read_back,
  deserialize-serialize_data, deserialize_bytes_array_lem, length-serialize_data,
}
use libotrv.Wire.Keys.{
  serialize_ec_point, mpi_set, serialize_mpi, length-serialize_ec_point,
  deserialize-serialize_ec_point, IsNumber, printed, serialize_dh_mpi_otr_lem,
  deserialize-serialize_dh_mpi_otr, length-serialize_mpi,
}
use libotrv.DataMessage.{
  protocol_version_4, data_msg_type, nonce_bytes, mac_bytes, data_msg_max_bytes, DataMessage,
  serialize_head, data_message_body_serialize, data_message_deserialize, data_message_new,
}

module _ (g : Goldilocks) (c : Gcrypt) where
  open g use {Point}

  -- A message that can be sent: its numbers fit their fields, its arrays have their lengths, and
  -- `cipher` is the encrypted text, a null pointer where it is empty.
  pub record IsMessage (m : DataMessage g c) (cipher : Bytes) : Type 0 where
    pub sender : m.sender_instance_tag < 2 ^ 32
    pub receiver : m.receiver_instance_tag < 2 ^ 32
    pub flags : m.flags < 2 ^ 8
    pub previous : m.previous_chain_n < 2 ^ 32
    pub ratchet : m.ratchet_id < 2 ^ 32
    pub message : m.message_id < 2 ^ 32
    pub number : IsNumber c m.dh
    pub nonce : length m.nonce ≡ nonce_bytes
    pub mac : length m.mac ≡ mac_bytes
    pub small : length cipher < 2 ^ 32
    pub text : m.enc_msg ≡ (if length cipher == 0 then none else some cipher)
    pub text_len : m.enc_msg_len ≡ length cipher

  -- The bytes of a message, each field behind the one before it.
  abbrev fields : DataMessage g c → Bytes → Bytes → Bytes
  fields m cipher tail =
      serialize_uint16 protocol_version_4
      ++ (serialize_uint8 data_msg_type
          ++ (serialize_uint32 m.sender_instance_tag
              ++ (serialize_uint32 m.receiver_instance_tag
                  ++ (serialize_uint8 m.flags
                      ++ (serialize_uint32 m.previous_chain_n
                          ++ (serialize_uint32 m.ratchet_id
                              ++ (serialize_uint32 m.message_id
                                  ++ (serialize_ec_point g m.ecdh
                                      ++ (serialize_mpi (mpi_set (printed c m.dh))
                                          ++ (m.nonce
                                              ++ (serialize_data (some cipher) (length cipher)
                                                  ++ tail)))))))))))

  serialize_data_text :
      (m : DataMessage g c) (cipher : Bytes)
      → IsMessage m cipher
      → serialize_data m.enc_msg m.enc_msg_len ≡ serialize_data (some cipher) (length cipher)
  serialize_data_text m cipher h = rw (h.text, h.text_len) (empty cipher)
    where
      empty :
          (cipher : Bytes)
          → serialize_data (if length cipher == 0 then none else some cipher) (length cipher)
            ≡ serialize_data (some cipher) (length cipher)
      empty [] = unfold serialize_data serialize_bytes_array in refl
      empty (b ∷ cipher) = ground arith

  length-serialize_head : (m : DataMessage g c) → length (serialize_head g c m) ≡ 24
  unfolding serialize_head serialize_uint16 serialize_uint32 serialize_uint8
  length-serialize_head m = refl

  body_fields :
      (laws : GoldilocksLaws g) (m : DataMessage g c) (cipher tail : Bytes)
      → IsMessage m cipher
      → (body : Bytes) × (data_message_body_serialize g c m ≡ some body)
        × (body ++ tail ≡ fields m cipher tail)
  unfolding data_message_body_serialize
  body_fields laws m cipher tail h =
      let head = serialize_head g c m in
      let point = serialize_ec_point g m.ecdh in
      let number = serialize_mpi (mpi_set (printed c m.dh)) in
      let room : dh_mpi_max_bytes ≤ data_msg_max_bytes + m.enc_msg_len - length (head ++ point) =
        omega (
          arith,
          length-append head point,
          length-serialize_head m,
          length-serialize_ec_point g laws m.ecdh,
        ) in
      (
        (head ++ point)
            ++ (number
                ++ (serialize_bytes_array (some m.nonce)
                    ++ serialize_data m.enc_msg m.enc_msg_len)),
        rw (
            serialize_dh_mpi_otr_lem c (data_msg_max_bytes + m.enc_msg_len - length (head ++ point))
              m.dh h.number room),
        rw (serialize_data_text m cipher h)
            (unfold serialize_head serialize_bytes_array in simp append_assoc),
      )

text_kept :
    (cipher : Bytes)
    → elim (read_back cipher).bytes as (λ x. Option Bytes) [ none ↦ none | some bytes ↦ some bytes ]
      ≡ (if length cipher == 0 then none else some cipher)
text_kept [] = refl
text_kept (b ∷ cipher) = ground arith

text_len_kept :
    (cipher : Bytes)
    → elim (read_back cipher).bytes as (λ x. ℕ) [ none ↦ 0 | some bytes ↦ length bytes ]
      ≡ length cipher
text_len_kept [] = refl
text_len_kept (b ∷ cipher) = ground arith

module _ (g : Goldilocks) (c : Gcrypt) (gl : GoldilocksLaws g) (cl : GcryptLaws c) where
  open g use {Point}

  deserialize_fields :
      (p : Point) (m : DataMessage g c) (cipher rest : Bytes)
      → IsMessage g c m cipher
      → data_message_deserialize g c (data_message_new g c p) (fields g c m cipher (m.mac ++ rest))
        ≡ some m
  unfolding data_message_deserialize data_message_new
  deserialize_fields p m cipher rest h =
      rw (deserialize-serialize_uint16 4 _ (omega arith), drop-serialize_uint16)
        (rw (deserialize-serialize_uint8 3 _ (omega arith), drop-serialize_uint8)
          (rw (deserialize-serialize_uint32 m.sender_instance_tag _ h.sender, drop-serialize_uint32)
            (rw
              (
                deserialize-serialize_uint32 m.receiver_instance_tag _ h.receiver,
                drop-serialize_uint32,
              )
              (rw (deserialize-serialize_uint8 m.flags _ h.flags, drop-serialize_uint8)
                (rw
                  (
                    deserialize-serialize_uint32 m.previous_chain_n _ h.previous,
                    drop-serialize_uint32,
                  )
                  (rw (deserialize-serialize_uint32 m.ratchet_id _ h.ratchet, drop-serialize_uint32)
                    (rw
                      (deserialize-serialize_uint32 m.message_id _ h.message, drop-serialize_uint32)
                      (rw
                        (
                          deserialize-serialize_ec_point g gl m.ecdh _,
                          drop_prefix {A = ℕ} 57 (serialize_ec_point g m.ecdh) _
                              (sym (length-serialize_ec_point g gl m.ecdh)),
                        )
                        (rw
                          (
                            deserialize-serialize_dh_mpi_otr c cl m.dh _ h.number,
                            drop_prefix {A = ℕ} (length (printed c m.dh) + 4)
                                (serialize_mpi (mpi_set (printed c m.dh))) _
                                (omega (arith, length-serialize_mpi (printed c m.dh))),
                          )
                          (rw
                            (
                              deserialize_bytes_array_lem 24 m.nonce _ (sym h.nonce),
                              drop_prefix {A = ℕ} 24 m.nonce _ (sym h.nonce),
                            )
                            (rw (deserialize-serialize_data cipher _ h.small) (
                              rw
                                (
                                  drop_prefix {A = ℕ} (4 + length cipher)
                                      (serialize_data (some cipher) (length cipher)) _
                                      (sym (length-serialize_data cipher)),
                                  deserialize_bytes_array_lem 64 m.mac rest (sym h.mac),
                                )
                                (λ i. some (record m {
                                  enc_msg = (text_kept cipher ∙ sym h.text) i;
                                  enc_msg_len = (text_len_kept cipher ∙ sym h.text_len) i;
                                }))))))))))))))

  -- A data message that can be sent serializes, and `otrng_data_message_deserialize` reads it back
  -- from its body and MAC into a fresh structure, whatever follows (the revealed MAC keys).
  pub deserialize-body_serialize :
      (p : Point) (m : DataMessage g c) (cipher rest : Bytes)
      → IsMessage g c m cipher
      → (body : Bytes) × (data_message_body_serialize g c m ≡ some body)
        × (data_message_deserialize g c (data_message_new g c p) (body ++ (m.mac ++ rest)) ≡ some m)
  deserialize-body_serialize p m cipher rest h =
      let (body, done, same) = body_fields g c gl m cipher (m.mac ++ rest) h in
      (body, done, rw same (deserialize_fields p m cipher rest h))
