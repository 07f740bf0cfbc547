-- ===== src/DataMessage/Tests.antt =====
-- A data message with a short text, on the stand-ins for the libraries.
use libotrv.Prelude.{◌≡◌, refl, some, [], ◌∷◌, ◌++◌, arith, replicate, Bytes}
use libotrv.Samples.{sample_curve, sample_curve_laws, sample_gcrypt, sample_gcrypt_laws}
use libotrv.DataMessage.{
  nonce_bytes, mac_bytes, DataMessage, data_message_body_serialize, data_message_deserialize,
  data_message_new,
}
use libotrv.DataMessage.RoundTrip.{IsMessage, deserialize-body_serialize}

abbrev message : DataMessage sample_curve sample_gcrypt
message = record {
  sender_instance_tag = 256;
  receiver_instance_tag = 257;
  flags = 1;
  previous_chain_n = 2;
  ratchet_id = 3;
  message_id = 4;
  ecdh = 5;
  dh = some (8 ∷ 9 ∷ []);
  nonce = replicate nonce_bytes 0;
  enc_msg = some (1 ∷ 2 ∷ []);
  enc_msg_len = 2;
  mac = replicate mac_bytes 7;
}

message-IsMessage : IsMessage sample_curve sample_gcrypt message (1 ∷ 2 ∷ [])
message-IsMessage = record {
  sender = omega arith;
  receiver = omega arith;
  flags = omega arith;
  previous = omega arith;
  ratchet = omega arith;
  message = omega arith;
  number = (omega arith, omega arith);
  nonce = refl;
  mac = refl;
  small = omega arith;
  text = refl;
  text_len = refl;
}

data_message_example :
    (body : Bytes) × (data_message_body_serialize sample_curve sample_gcrypt message ≡ some body)
    × (data_message_deserialize sample_curve sample_gcrypt
          (data_message_new sample_curve sample_gcrypt 0)
          (body ++ (message.mac ++ (9 ∷ [])))
        ≡ some message)
data_message_example =
    deserialize-body_serialize sample_curve sample_gcrypt sample_curve_laws sample_gcrypt_laws 0
      message (1 ∷ 2 ∷ []) (9 ∷ []) message-IsMessage
