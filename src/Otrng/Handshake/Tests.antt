-- ===== src/Otrng/Handshake/Tests.antt =====
-- An exchange over the group of two elements.
use libotrv.Prelude.{
  ℕ, ◌^◌, ◌<◌, ◌≡◌, refl, Bool, true, false, none, some, [], ◌∷◌, arith, replicate, Bytes,
}
use libotrv.Crypto.{GoldilocksLaws}
use libotrv.Run.{Run, success, error, crashed, attempt}
use libotrv.Keys.{ec_verify}
use libotrv.Samples.{sample_gcrypt, sample_shake, sample_eddsa, sample_libotr}
use libotrv.Kdf.Tests.{sample_shake_laws}
use libotrv.Smp.Complete.Tests.{bits}
use libotrv.Ring.{RingSig}
use libotrv.Ring.Tests.{scalar_laws, chance}
use libotrv.Ring.Verify.{first, second}
use libotrv.KeyExchange.{is_empty_array, dh_mpi_valid}
use libotrv.KeyManager.State.{key_manager_init}
use libotrv.KeyManager.Ratchet.{Manager}
use libotrv.KeyManager.Ephemeral.{Chance}
use libotrv.ClientProfile.{
  fields_max_bytes, strlen_ns, written_to, serialize_dsa_key, serialize_transitional_signature,
  ClientProfile, client_profile_body_serialize_pre_transitional_signature,
  client_profile_body_serialize, client_profile_body_serialize_into,
}
use libotrv.ClientProfile.RoundTrip.{IsProfile}
use libotrv.ClientProfile.Fields.{IsCString}
use libotrv.ClientProfile.Validity.{
  client_profile_expired, rollback_detected, client_profile_verify_signature, verify_transitional,
  verify_transitional_signature, check_contents, client_profile_valid_without_expiry,
  client_profile_valid,
}
use libotrv.Dake.{AuthI, dake_auth_i_serialize}
use libotrv.Dake.Messages.{AuthR, identity_message_serialize, auth_r_serialize}
use libotrv.Dake.Tag.{valid_received_values}
use libotrv.Wire.Keys.{serialize_ec_point}
use libotrv.Wire.Serialize.{
  serialize_uint64, serialize_uint32, serialize_uint16, serialize_bytes_array, serialize_data,
}
use libotrv.Wire.PublicKeys.{serialize_public_key, serialize_forging_key}
use libotrv.Otrng.Handshake.{
  State, state_waiting_auth_r, state_waiting_auth_i, state_waiting_dake_data_message,
  state_encrypted_messages, Otr, reply_with_auth_r, reply_with_auth_i, valid_auth_i_message,
  valid_auth_r_message,
}
use libotrv.Otrng.Handlers.{receive_auth_i, receive_identity_message, receive_auth_r}
use libotrv.Otrng.Outcome.{Leaves, Moved}
use libotrv.Otrng.States.{
  AcceptedAuthI, receive_auth_i-Leaves, AcceptedAuthR, receive_auth_r-Leaves, AcceptedIdentity,
  receive_identity_message-Leaves,
}
use libotrv.Otrng.Authenticate.{IsExchange, valid_auth_r_message-reply, valid_auth_i_message-reply}

bit_decoded :
    (p : Bool) → (q : Bool) × (bits.decode (bits.encode p) ≡ some q) × (bits.scalarmul q true ≡ p)
bit_decoded true = (true, refl, refl)
bit_decoded false = (false, refl, refl)

bit_encoded : (s : Bool) → bits.scalar_decode (bits.scalar_encode s) ≡ s
bit_encoded true = refl
bit_encoded false = refl

abbrev bits_encoding : GoldilocksLaws bits
bits_encoding = record {
  length-encode = λ p. refl;
  decode-encode = bit_decoded;
  length-scalar_encode = λ s. refl;
  decode-scalar_encode = bit_encoded;
}

abbrev profile_of_tag : ℕ → ClientProfile bits
profile_of_tag tag = record {
  sender_instance_tag = tag;
  long_term_pub_key = true;
  forging_pub_key = false;
  versions = some (52 ∷ []);
  expires = 1000;
  dsa_key = none;
  transitional_signature = none;
  signature = 1 ∷ replicate 113 0;
  should_publish = 0;
  is_publishing = false;
  has_validated = false;
  validation_result = false;
}

abbrev keys : Manager bits sample_gcrypt sample_shake
keys = record (key_manager_init bits sample_gcrypt sample_shake) {
  our_ecdh = record { public = false; priv = false };
  our_dh = record { public = some (7 ∷ []); priv = some (5 ∷ []) };
  our_ecdh_first = record { public = false; priv = false };
  our_dh_first = record { public = some (9 ∷ []); priv = some (7 ∷ []) };
  their_ecdh = false;
  their_dh = some (7 ∷ []);
}

abbrev side : State → ℕ → ℕ → Otr bits sample_gcrypt sample_shake
side state ours theirs = record {
  state = state;
  our_instance_tag = ours;
  their_instance_tag = theirs;
  shared_session_state = some (97 ∷ 98 ∷ []);
  client_profile = profile_of_tag ours;
  keypair = record { sym = 1 ∷ []; public = true; priv = true };
  forging_key = false;
  their_client_profile = some (profile_of_tag theirs);
  keys = keys;
}

abbrev initiator : Otr bits sample_gcrypt sample_shake
initiator = side state_waiting_auth_r 257 258

abbrev responder : Otr bits sample_gcrypt sample_shake
responder = side state_waiting_auth_i 258 257

profile_of_tag-IsProfile : (tag : ℕ) → tag < 2 ^ 32 → IsProfile bits (profile_of_tag tag)
unfolding IsCString
profile_of_tag-IsProfile tag small = record {
  tag = small;
  expiry = omega arith;
  text = 52 ∷ [];
  versions = refl;
  string = (omega arith, tt);
  short = omega arith;
  dsa = tt;
  transitional = tt;
  signed = refl;
  should_publish = refl;
  is_publishing = refl;
  has_validated = refl;
  validation_result = refl;
}

exchange : IsExchange bits sample_gcrypt sample_shake responder initiator
unfolding key_manager_init
exchange = record {
  session = 97 ∷ 98 ∷ [];
  session_responder = refl;
  session_initiator = refl;
  tag_responder = refl;
  tag_initiator = refl;
  profile = refl;
  ecdh = refl;
  dh = refl;
  profile_responder = profile_of_tag-IsProfile 258 (omega arith);
  profile_initiator = profile_of_tag-IsProfile 257 (omega arith);
  number_responder = (omega arith, omega arith);
  number_initiator = (omega arith, omega arith);
}

profile_valid :
    client_profile_valid bits sample_eddsa sample_gcrypt sample_libotr 500 (profile_of_tag 258) 258
    ≡ success true
unfolding client_profile_valid client_profile_valid_without_expiry client_profile_verify_signature
    is_empty_array client_profile_body_serialize_into client_profile_body_serialize
    client_profile_body_serialize_pre_transitional_signature written_to fields_max_bytes strlen_ns
    serialize_dsa_key serialize_transitional_signature serialize_ec_point serialize_public_key
    serialize_forging_key serialize_uint16 serialize_uint32 serialize_uint64 serialize_bytes_array
    serialize_data ec_verify check_contents rollback_detected verify_transitional_signature
    client_profile_expired verify_transitional
profile_valid = refl

valid :
    valid_received_values bits sample_eddsa sample_gcrypt sample_shake sample_libotr 500 258 false
      (some (7 ∷ []))
      (profile_of_tag 258)
    ≡ success true
unfolding valid_received_values dh_mpi_valid
valid = profile_valid

valid_first :
    valid_received_values bits sample_eddsa sample_gcrypt sample_shake sample_libotr 500 258 false
      (some (9 ∷ []))
      (profile_of_tag 258)
    ≡ success true
unfolding valid_received_values dh_mpi_valid
valid_first = profile_valid

valid_auth_r_message-reply_example :
    (auth : AuthR bits sample_gcrypt) × (reply_with_auth_r bits sample_gcrypt sample_shake chance
        responder
      ≡ success auth)
    × (valid_auth_r_message bits sample_eddsa sample_gcrypt sample_shake sample_libotr 500 auth
          initiator
        ≡ success true)
unfolding key_manager_init
valid_auth_r_message-reply_example =
    valid_auth_r_message-reply bits sample_eddsa sample_gcrypt sample_shake sample_libotr
      bits_encoding sample_shake_laws scalar_laws 500 chance responder initiator exchange refl refl
      (second refl refl refl refl) valid valid_first

valid_auth_i_message-reply_example :
    (auth : AuthI bits) × (reply_with_auth_i bits sample_gcrypt sample_shake chance
        (profile_of_tag 258)
        initiator
      ≡ success auth)
    × (valid_auth_i_message bits sample_gcrypt sample_shake auth responder ≡ success true)
unfolding key_manager_init
valid_auth_i_message-reply_example =
    valid_auth_i_message-reply bits sample_eddsa sample_gcrypt sample_shake sample_libotr
      bits_encoding sample_shake_laws scalar_laws chance responder initiator exchange refl refl refl
      refl (first refl refl refl refl)

abbrev bytes_of : Run (Unit {0}) Bytes → Bytes
bytes_of (success b) = b
bytes_of (error u) = []
bytes_of crashed = []

abbrev signature : RingSig bits
signature = record { c1 = true; r1 = false; c2 = true; r2 = true; c3 = false; r3 = true }

abbrev auth_i_bytes : Bytes
auth_i_bytes = bytes_of (
    attempt tt (
      dake_auth_i_serialize bits
        (record { sender_instance_tag = 257; receiver_instance_tag = 258; sigma = signature })))

abbrev auth_r_bytes : Bytes
auth_r_bytes = bytes_of (
    auth_r_serialize bits sample_gcrypt (record {
      sender_instance_tag = 258;
      receiver_instance_tag = 257;
      profile = profile_of_tag 258;
      x = false;
      a = some (7 ∷ []);
      x_first = false;
      a_first = some (9 ∷ []);
      sigma = signature;
    }))

abbrev identity_bytes : Bytes
identity_bytes = bytes_of (
    identity_message_serialize bits sample_gcrypt (record {
      sender_instance_tag = 258;
      receiver_instance_tag = 0;
      profile = profile_of_tag 258;
      y = false;
      b = some (7 ∷ []);
      y_first = false;
      b_first = some (9 ∷ []);
    }))

receive_auth_i-Leaves_example :
    Leaves bits sample_gcrypt sample_shake
      (Moved bits sample_gcrypt sample_shake state_waiting_auth_i state_encrypted_messages
        (AcceptedAuthI bits sample_gcrypt sample_shake responder auth_i_bytes))
      (receive_auth_i bits sample_gcrypt sample_shake auth_i_bytes responder)
receive_auth_i-Leaves_example =
    receive_auth_i-Leaves bits sample_gcrypt sample_shake auth_i_bytes responder

receive_auth_r-Leaves_example :
    Leaves bits sample_gcrypt sample_shake
      (Moved bits sample_gcrypt sample_shake state_waiting_auth_r state_waiting_dake_data_message (
        AcceptedAuthR bits sample_eddsa sample_gcrypt sample_shake sample_libotr 500 initiator
          auth_r_bytes))
      (receive_auth_r bits sample_eddsa sample_gcrypt sample_shake sample_libotr 500 chance
        auth_r_bytes initiator)
receive_auth_r-Leaves_example =
    receive_auth_r-Leaves bits sample_eddsa sample_gcrypt sample_shake sample_libotr 500 chance
      auth_r_bytes initiator

abbrev ephemeral : Chance
ephemeral = record {
  sym = 1 ∷ [];
  sym_first = 1 ∷ [];
  dh_bytes = 5 ∷ [];
  dh_first_bytes = 6 ∷ [];
  now = 500;
  later = 501;
}

receive_identity_message-Leaves_example :
    Leaves bits sample_gcrypt sample_shake
      (Moved bits sample_gcrypt sample_shake state_waiting_auth_r state_waiting_auth_i (
        AcceptedIdentity bits sample_eddsa sample_gcrypt sample_shake sample_libotr 500
          identity_bytes))
      (receive_identity_message bits sample_eddsa sample_gcrypt sample_shake sample_libotr 500
        ephemeral chance identity_bytes initiator)
receive_identity_message-Leaves_example =
    receive_identity_message-Leaves bits sample_eddsa sample_gcrypt sample_shake sample_libotr 500
      ephemeral chance identity_bytes initiator
