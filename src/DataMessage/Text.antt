-- ===== src/DataMessage/Text.antt =====
-- src/data_message.c: the body of a message does not depend on how its encrypted text is pointed to,
-- nor on its MAC.
use libotrv.Prelude.{
  ◌+◌, ◌-◌, ◌≡◌, refl, sym, ap, Option, none, some, [], ◌∷◌, ◌++◌, arith, ◌==◌, if◌then◌else◌,
  length, Bytes, ◌>>=◌,
}
use libotrv.Crypto.{Goldilocks, Gcrypt}
use libotrv.Wire.Keys.{serialize_ec_point, serialize_dh_mpi_otr}
use libotrv.Wire.Serialize.{serialize_bytes_array, serialize_data}
use libotrv.DataMessage.{
  data_msg_max_bytes, DataMessage, serialize_head, data_message_body_serialize,
}

pub some-injective {ℓ} : {A : Type ℓ} {a b : A} → some a ≡ some b → a ≡ b
some-injective {a = a} e = ap (λ o. elim o [ none ↦ a | some x ↦ x ]) e

-- An empty text is a null pointer.
abbrev pub text_pointer : Bytes → Option Bytes
text_pointer cipher = if length cipher == 0 then none else some cipher

pub text_pointer-bytes :
    (cipher : Bytes)
    → elim (text_pointer cipher) as (λ x. Bytes) [ none ↦ [] | some bytes ↦ bytes ] ≡ cipher
text_pointer-bytes [] = refl
text_pointer-bytes (b ∷ cipher) = ground arith

serialize-text_pointer :
    (cipher : Bytes)
    → serialize_data (text_pointer cipher) (length cipher)
      ≡ serialize_data (some cipher) (length cipher)
serialize-text_pointer [] = unfold serialize_data serialize_bytes_array in refl
serialize-text_pointer (b ∷ cipher) = ground arith

module _ (g : Goldilocks) (c : Gcrypt) where
  -- The encrypted text of a message is written the same whether its pointer is null or not.
  pub body-text_pointer :
      (m : DataMessage g c) (cipher : Bytes)
      → data_message_body_serialize g c
          (record m { enc_msg = some cipher; enc_msg_len = length cipher })
        ≡ data_message_body_serialize g c
            (record m { enc_msg = text_pointer cipher; enc_msg_len = length cipher })
  unfolding data_message_body_serialize serialize_head
  body-text_pointer m cipher =
      let front = serialize_head g c m ++ serialize_ec_point g m.ecdh in
      ap
        (λ (text : Bytes).
          serialize_dh_mpi_otr c ((data_msg_max_bytes + length cipher) - length front) m.dh
          >>= λ dh. some (front ++ (dh ++ (serialize_bytes_array (some m.nonce) ++ text))))
        (sym (serialize-text_pointer cipher))

  pub body-mac :
      (m : DataMessage g c) (mac : Bytes)
      → data_message_body_serialize g c (record m { mac = mac }) ≡ data_message_body_serialize g c m
  unfolding data_message_body_serialize serialize_head
  body-mac m mac = refl
