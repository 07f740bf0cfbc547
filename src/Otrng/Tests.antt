-- ===== src/Otrng/Tests.antt =====
-- Data messages between concrete sides.
use libotrv.KeyManager.Chain.{take_skipped}
use libotrv.Crypto.{point_bytes}
use libotrv.KeyManager.Rotation.{mixed, new_chain, next_brace_key-third}
use libotrv.Otrng.Forgery.{receive_data_message-crashed, receive_data_message-forged}
use libotrv.KeyManager.Tests.{SampleManager, alice, bob, ecdh_secret}
use libotrv.KeyManager.Window.{Window, member, remove, accepts, receive, accepts_all, receive_all}
use libotrv.Otrng.Send.{InstanceTags}
use libotrv.Otrng.Exchange.{IsSendable}
use libotrv.Otrng.Conversation.{IsOpened, data_message_deserialize-send_in_ratchet}
use libotrv.KeyManager.State.{brace_key_bytes, receiving_ratchet_new, set_their_tmp_keys}
use libotrv.Run.{success, crashed, error}
use libotrv.Prelude.{
  ℕ, zero, suc, ◌≡◌, refl, true, false, none, some, List, [], ◌∷◌, map, arith, replicate, Bytes,
}
use libotrv.Samples.{
  sample_curve, sample_curve_laws, sample_gcrypt, sample_gcrypt_laws, sample_shake, sample_sodium,
  sample_sodium_laws,
}
use libotrv.Wire.Serialize.{
  serialize_uint32, serialize_uint16, serialize_uint8, serialize_bytes_array, serialize_data,
}
use libotrv.Wire.Keys.{
  ec_point_encode, serialize_ec_point, mpi_set, serialize_mpi, dh_mpi_serialize,
  serialize_dh_mpi_otr, IsNumber,
}
use libotrv.Smp.Hash.{hash_init_with_dom, hash_init_with_usage}
use libotrv.DataMessage.{
  nonce_bytes, mac_bytes, DataMessage, serialize_head, data_message_body_serialize,
}
use libotrv.Plaintext.{to_display, before_nul, deserialize_received_tlvs, behind_nul}
use libotrv.Kdf.{kdf1}
use libotrv.Kdf.Tests.{sample_shake_laws}
use libotrv.KeyExchange.{
  is_empty_array, ecdh_valid_secret, ecdh_shared_secret, dh_priv_key_destroy, dh_shared_secret,
  dh_mpi_valid,
}
use libotrv.KeyManager.Hashes.{MessageKeys, calculate_authenticator}
use libotrv.KeyManager.Schedule.{numbers, two_hashed, next_chain, keys_of, chain_at}
use libotrv.Otrng.Receive.{
  Response, dh_valid, valid_data_message, decrypt_data_message, receive_data_message,
}
use libotrv.Otrng.Sequence.{receive_messages, IsSealed, IsInWindow, receive_messages-window}

abbrev start_chain : Bytes
start_chain = 1 ∷ replicate 63 0

-- No chain key is zero, since the sample hash writes out its domain.
never_empty :
    (n : ℕ) (chain : Bytes)
    → is_empty_array chain ≡ false
    → is_empty_array (chain_at sample_shake sample_shake_laws n chain) ≡ false
unfolding chain_at kdf1 is_empty_array
never_empty zero chain h = h
never_empty (suc n) chain h = never_empty n (next_chain sample_shake sample_shake_laws chain) refl

start_not_empty : is_empty_array start_chain ≡ false
unfolding is_empty_array
start_not_empty = refl

abbrev keys_at : ℕ → MessageKeys
keys_at n =
    keys_of sample_shake sample_shake_laws (chain_at sample_shake sample_shake_laws n start_chain)

-- Message `n` with the text "hi": the sample MAC does not reach the body.
abbrev message : ℕ → DataMessage sample_curve sample_gcrypt
message n = record {
  sender_instance_tag = 256;
  receiver_instance_tag = 257;
  flags = 0;
  previous_chain_n = 0;
  ratchet_id = 1;
  message_id = n;
  ecdh = 3;
  dh = some (7 ∷ []);
  nonce = replicate nonce_bytes 0;
  enc_msg = some (104 ∷ 105 ∷ []);
  enc_msg_len = 2;
  mac = two_hashed sample_shake sample_shake_laws 26 (keys_at n).mac_key [];
}

abbrev hi : Response
hi = record { shown = some (104 ∷ 105 ∷ []); tlvs = some [] }

message_0-IsSealed :
    IsSealed sample_curve sample_gcrypt sample_shake sample_sodium (keys_at 0) (message 0) hi
unfolding valid_data_message calculate_authenticator data_message_body_serialize serialize_head
    serialize_ec_point ec_point_encode serialize_dh_mpi_otr dh_mpi_serialize mpi_set serialize_mpi
    serialize_bytes_array serialize_data serialize_uint32 serialize_uint16 serialize_uint8
    hash_init_with_usage hash_init_with_dom kdf1 chain_at dh_mpi_valid decrypt_data_message
    to_display before_nul deserialize_received_tlvs behind_nul
message_0-IsSealed = record { authentic = refl; decrypted = refl }

message_1-IsSealed :
    IsSealed sample_curve sample_gcrypt sample_shake sample_sodium (keys_at 1) (message 1) hi
unfolding valid_data_message calculate_authenticator data_message_body_serialize serialize_head
    serialize_ec_point ec_point_encode serialize_dh_mpi_otr dh_mpi_serialize mpi_set serialize_mpi
    serialize_bytes_array serialize_data serialize_uint32 serialize_uint16 serialize_uint8
    hash_init_with_usage hash_init_with_dom kdf1 chain_at dh_mpi_valid decrypt_data_message
    to_display before_nul deserialize_received_tlvs behind_nul
message_1-IsSealed = record { authentic = refl; decrypted = refl }

abbrev receiver : SampleManager
receiver = record bob {
  current = record { root_key = 1 ∷ []; chain_s = 2 ∷ []; chain_r = start_chain };
}

abbrev empty_window : Window
empty_window = record { next = 0; pending = [] }

in_window :
    IsInWindow sample_curve sample_gcrypt sample_shake sample_sodium sample_shake_laws 3 start_chain
      empty_window receiver
unfolding IsInWindow set_their_tmp_keys receiving_ratchet_new chain_at
in_window =
    (record { counter = refl; key = refl; older = []; older-IsOlder = tt; stored = refl }, refl)

-- The second message comes first.
abbrev sent : List (DataMessage sample_curve sample_gcrypt × Response)
sent = (message 1, hi) ∷ (message 0, hi) ∷ []

both_accepted : accepts_all 10 empty_window (map (λ x. x.0.message_id) sent) ≡ true
unfolding accepts_all accepts receive member numbers remove
both_accepted = refl

receive_messages-window_example :
    (m1 : SampleManager) × (receive_messages sample_curve sample_gcrypt sample_shake sample_sodium
        receiver 10
        (message 1 ∷ message 0 ∷ [])
      ≡ success (hi ∷ hi ∷ [], m1))
    × IsInWindow sample_curve sample_gcrypt sample_shake sample_sodium sample_shake_laws 3
        start_chain
        (receive_all empty_window (1 ∷ 0 ∷ []))
        m1
receive_messages-window_example =
    receive_messages-window sample_curve sample_gcrypt sample_shake sample_sodium sample_shake_laws
      3 start_chain empty_window receiver 10 sent refl
      (λ n. never_empty n start_chain start_not_empty) in_window both_accepted
      ((refl, message_1-IsSealed), ((refl, message_0-IsSealed), tt))

-- A sender in the ratchet, whose first message is to be sent.
abbrev sender : SampleManager
sender = record alice {
  current = record { root_key = 1 ∷ []; chain_s = start_chain; chain_r = 3 ∷ [] };
}

abbrev tags : InstanceTags
tags = record { ours = 256; theirs = 257 }

sender-IsNumber : IsNumber sample_gcrypt sender.our_dh.public
sender-IsNumber = (omega arith, omega arith)

public_key_valid :
    dh_valid sample_curve sample_gcrypt sample_shake sample_sodium (some (7 ∷ [])) ≡ true
unfolding dh_mpi_valid
public_key_valid = refl

sender-IsSendable :
    IsSendable sample_curve sample_gcrypt sample_shake sample_sodium sender tags 1 0
      (replicate nonce_bytes 0)
      (104 ∷ 105 ∷ [])
sender-IsSendable = record {
  sender = omega arith;
  receiver = omega arith;
  flag_bits = omega arith;
  previous = omega arith;
  ratchet = omega arith;
  message = omega arith;
  number = sender-IsNumber;
  nonce_len = refl;
  small = omega arith;
  point = refl;
  dh = public_key_valid;
}

first_key : sender.current.chain_s ≡ chain_at sample_shake sample_shake_laws 0 start_chain
unfolding chain_at
first_key = refl

data_message_deserialize-send_in_ratchet_example :
    IsOpened sample_curve sample_gcrypt sample_shake sample_sodium sample_shake_laws
      sample_sodium_laws sample_curve_laws sample_gcrypt_laws sender tags 1 0
      (104 ∷ 105 ∷ [])
      (replicate nonce_bytes 0)
      start_chain
      0
data_message_deserialize-send_in_ratchet_example =
    data_message_deserialize-send_in_ratchet sample_curve sample_gcrypt sample_shake sample_sodium
      sample_shake_laws sample_sodium_laws sample_curve_laws sample_gcrypt_laws sender tags 1 0
      (104 ∷ 105 ∷ []) (replicate nonce_bytes 0) (104 ∷ 105 ∷ []) start_chain 0 first_key refl
      sender-IsSendable

-- A receiver who is about to see a new point, in ratchet 0.
abbrev victim : SampleManager
victim = record bob { their_ecdh = 9 }

-- It tells of five messages of the previous chain.
abbrev without_dh : DataMessage sample_curve sample_gcrypt
without_dh = record (message 2) { dh = none; previous_chain_n = 5 }

abbrev forged : DataMessage sample_curve sample_gcrypt
forged = record (message 0) { mac = replicate mac_bytes 0 }

victim_secret : ecdh_shared_secret sample_curve point_bytes 4 3 ≡ some ecdh_secret
unfolding ecdh_shared_secret ecdh_valid_secret is_empty_array ec_point_encode
victim_secret = refl

victim_number : dh_shared_secret sample_gcrypt sample_shake (6 ∷ []) (7 ∷ []) ≡ some (13 ∷ [])
unfolding dh_shared_secret
victim_number = refl

receive_data_message-crashed_example :
    receive_data_message sample_curve sample_gcrypt sample_shake sample_sodium victim 10 without_dh
    ≡ crashed
unfolding take_skipped
receive_data_message-crashed_example =
    receive_data_message-crashed sample_curve sample_gcrypt sample_shake sample_shake_laws
      sample_sodium victim 10 without_dh ecdh_secret refl refl refl victim_secret refl

forged_lem :
    valid_data_message sample_curve sample_gcrypt sample_shake sample_sodium
      (keys_of sample_shake sample_shake_laws (
        new_chain sample_curve sample_gcrypt sample_shake sample_shake_laws (1 ∷ []) (
          mixed sample_curve sample_gcrypt sample_shake sample_shake_laws ecdh_secret
            (kdf1 sample_shake sample_shake_laws brace_key_bytes 1 (13 ∷ []))))).mac_key
      forged
    ≡ false
unfolding valid_data_message calculate_authenticator data_message_body_serialize serialize_head
    serialize_ec_point ec_point_encode serialize_dh_mpi_otr dh_mpi_serialize mpi_set serialize_mpi
    serialize_bytes_array serialize_data serialize_uint32 serialize_uint16 serialize_uint8
    hash_init_with_usage hash_init_with_dom kdf1 chain_at dh_mpi_valid decrypt_data_message
    to_display before_nul deserialize_received_tlvs behind_nul
forged_lem = refl

receive_data_message-forged_example :
    receive_data_message sample_curve sample_gcrypt sample_shake sample_sodium victim 10 forged
    ≡ error
        (record victim { our_dh = dh_priv_key_destroy sample_gcrypt sample_shake victim.our_dh })
receive_data_message-forged_example =
    receive_data_message-forged sample_curve sample_gcrypt sample_shake sample_shake_laws
      sample_sodium victim 10 forged ecdh_secret
      (kdf1 sample_shake sample_shake_laws brace_key_bytes 1 (13 ∷ []))
      (record { unknown = refl; third = refl; nothing = refl; previous = refl; first = refl })
      victim_secret
      (next_brace_key-third sample_curve sample_gcrypt sample_shake sample_shake_laws victim
        (some (7 ∷ [])) (6 ∷ []) (7 ∷ []) (13 ∷ []) refl refl refl victim_number)
      forged_lem
