-- ===== src/Otrng/Handlers.antt =====
-- src/otrng.c: the handlers of the three messages of the interactive key exchange.
use libotrv.Prelude.{ℕ, Bool, true, false, not, Option, none, some, ◌==◌, if◌then◌else◌, Bytes}
use libotrv.Crypto.{Goldilocks, Shake, Gcrypt, Eddsa, Libotr}
use libotrv.Run.{Run, success, error, crashed, ◌>>=◌, attempt, not_null}
use libotrv.Keys.{instance_tag_valid}
use libotrv.KeyExchange.{Participant, participant_u, participant_t}
use libotrv.ClientProfile.{ClientProfile, client_profile_zero}
use libotrv.ClientProfile.Copy.{client_profile_copy}
use libotrv.KeyManager.State.{
  wipe_shared_prekeys, set_their_ecdh, set_their_dh, set_their_first_ecdh, set_their_first_dh,
}
use libotrv.KeyManager.Ephemeral.{Chance, generate_ephemeral_keys}
use libotrv.KeyManager.Ratchet.{Manager, generate_shared_secret, ratcheting_init}
use libotrv.Dake.{AuthI, dake_auth_i_serialize, dake_auth_i_deserialize}
use libotrv.Dake.Messages.{IdentityMessage, AuthR, auth_r_serialize}
use libotrv.Dake.Read.{identity_message_deserialize, auth_r_deserialize}
use libotrv.Dake.Tag.{valid_received_values}
use libotrv.Ring.{RingChance}
use libotrv.Otrng.Handshake.{
  State, state_none, state_start, state_waiting_auth_r, state_waiting_auth_i,
  state_waiting_dake_data_message, state_encrypted_messages, state_finished, Otr, participant,
  reply_with_auth_r, reply_with_auth_i, valid_auth_i_message, valid_auth_r_message,
}

-- What a handler leaves to be sent, before the encoding: `malformed` is the error message
-- OTRNG_ERR_MSG_MALFORMED, and `empty_data_message` the call of `otrng_send_message` with the empty
-- text and MSG_FLAGS_IGNORE_UNREADABLE.
pub data Reply : Type 0 where
  no_reply : Reply
  malformed : Reply
  encoded : Bytes → Reply
  empty_data_message : Reply

unfoldable pub valid_receiver_instance_tag : ℕ → Bool
valid_receiver_instance_tag instance_tag =
    if instance_tag == 0
    then false
    else if not (instance_tag_valid instance_tag)
    then false
    else true

module _ (g : Goldilocks) (c : Gcrypt) (s : Shake) where
  -- The conversation and the reply, which an error leaves too.
  abbrev pub Left : Type 0
  Left = Otr g c s × Reply

  -- A call that changes the key manager.
  unfoldable pub in_keys :
      Otr g c s → Reply → Run (Manager g c s) (Manager g c s) → Run Left (Otr g c s)
  in_keys otr reply (success m) = success (record otr { keys = m })
  in_keys otr reply (error m) = error (record otr { keys = m }, reply)
  in_keys otr reply crashed = crashed

  -- A call that changes nothing, whose error leaves `left`.
  unfoldable pub or_leave {ℓ} : {A : Type ℓ} → Left → Run (Unit {0}) A → Run Left A
  or_leave left (success a) = success a
  or_leave left (error u) = error left
  or_leave left crashed = crashed

  -- `otr->their_client_profile`, where the copy of the profile of a message fails or not: an error
  -- leaves the fields that are copied before the DSA key.
  unfoldable pub keep_profile :
      Otr g c s → ClientProfile g → Option (ClientProfile g) → Run Left (Otr g c s)
  keep_profile otr src (some copy) = success (record otr { their_client_profile = some copy })
  keep_profile otr src none = error (
    record otr {
      their_client_profile = some (record (client_profile_zero g g.point_destroyed) {
        sender_instance_tag = src.sender_instance_tag;
        long_term_pub_key = src.long_term_pub_key;
        forging_pub_key = src.forging_pub_key;
        versions = src.versions;
        expires = src.expires;
      });
    },
    no_reply,
  )

  unfoldable pub copy_profile : Otr g c s → ClientProfile g → Run Left (Otr g c s)
  copy_profile otr src = keep_profile otr src (client_profile_copy g g.point_destroyed (some src))

  unfoldable pub set_their_keys_of :
      Otr g c s → g.Point → Option c.Mpi → g.Point → Option c.Mpi → Otr g c s
  set_their_keys_of otr ecdh dh ecdh_first dh_first = record otr {
    keys = set_their_first_dh g c s dh_first (
        set_their_first_ecdh g c s ecdh_first
          (set_their_dh g c s dh (set_their_ecdh g c s ecdh otr.keys)));
  }

  unfoldable pub receive_identity_message_on_state_start :
      Chance → RingChance g → IdentityMessage g c → Otr g c s → Run Left Left
  receive_identity_message_on_state_start chance ring msg otr =
      copy_profile (set_their_keys_of otr msg.y msg.b msg.y_first msg.b_first) msg.profile
      >>= λ otr1. in_keys otr1 no_reply (generate_ephemeral_keys g c s chance otr1.keys) >>= λ otr2.
          or_leave (otr2, no_reply) (reply_with_auth_r g c s ring otr2 >>= auth_r_serialize g c)
          >>= λ bytes.
              in_keys otr2 (encoded bytes) (generate_shared_secret g c s otr2.keys true) >>= λ otr3.
              success (record otr3 { state = state_waiting_auth_i }, encoded bytes)

  unfoldable pub receive_identity_message_on_waiting_auth_r :
      Chance → RingChance g → IdentityMessage g c → Otr g c s → Run Left Left
  receive_identity_message_on_waiting_auth_r chance ring msg otr =
      not_null otr.keys.our_dh.public >>= λ ours. not_null msg.b >>= λ theirs.
      if c.greater ours theirs
      then success (otr, no_reply)
      else receive_identity_message_on_state_start chance ring msg otr

  -- The switch of `receive_identity_message`; WAITING_AUTH_I and WAITING_DAKE_DATA_MESSAGE free the
  -- profile before it is replaced.
  unfoldable pub by_state :
      State → Chance → RingChance g → IdentityMessage g c → Otr g c s → Run Left Left
  by_state state_none = receive_identity_message_on_state_start
  by_state state_start = receive_identity_message_on_state_start
  by_state state_waiting_auth_r = receive_identity_message_on_waiting_auth_r
  by_state state_waiting_auth_i = receive_identity_message_on_state_start
  by_state state_waiting_dake_data_message = receive_identity_message_on_state_start
  by_state state_encrypted_messages = receive_identity_message_on_state_start
  by_state state_finished = receive_identity_message_on_state_start

  -- The ephemeral keys of the exchange give way to the first ones of the ratchet.
  unfoldable pub if_first : Option c.Mpi → Option c.Mpi → Option c.Mpi
  if_first none old = old
  if_first (some first) old = some first

  unfoldable pub use_first_keys : Manager g c s → Manager g c s
  use_first_keys m = record m {
    their_ecdh = m.their_first_ecdh;
    our_ecdh = m.our_ecdh_first;
    our_dh = m.our_dh_first;
    their_dh = if_first m.their_first_dh m.their_dh;
  }

  -- `double_ratcheting_init` with the state that it sets.
  unfoldable pub double_ratcheting_init : Otr g c s → Reply → Participant → Run Left (Otr g c s)
  double_ratcheting_init otr reply participant =
      in_keys otr reply (ratcheting_init g c s otr.keys participant) >>= λ otr1.
      success (record otr1 {
        state = state_encrypted_messages;
        keys = wipe_shared_prekeys g c s otr1.keys;
      })

  -- `otr->state = OTRNG_STATE_WAITING_DAKE_DATA_MESSAGE`, whatever the call before it returns.
  unfoldable pub then_wait : Reply → Run Left (Otr g c s) → Run Left Left
  then_wait reply (success otr) =
      success (record otr { state = state_waiting_dake_data_message }, reply)
  then_wait reply (error (otr, r)) =
      error (record otr { state = state_waiting_dake_data_message }, r)
  then_wait reply crashed = crashed

  unfoldable pub is_waiting_auth_r : State → Bool
  is_waiting_auth_r state_waiting_auth_r = true
  is_waiting_auth_r _ = false

  unfoldable pub is_waiting_auth_i : State → Bool
  is_waiting_auth_i state_waiting_auth_i = true
  is_waiting_auth_i _ = false

  -- What `receive_auth_r` does with a message that passed the checks.
  unfoldable pub accept_auth_r : RingChance g → AuthR g c → Otr g c s → Run Left Left
  accept_auth_r ring auth otr =
      copy_profile (set_their_keys_of otr auth.x auth.a auth.x_first auth.a_first) auth.profile
      >>= λ otr1.
          or_leave (otr1, no_reply)
            (not_null otr1.their_client_profile >>= λ profile.
              reply_with_auth_i g c s ring profile otr1 >>= λ auth_i.
              attempt tt (dake_auth_i_serialize g auth_i))
          >>= λ bytes.
              in_keys otr1 (encoded bytes) (generate_shared_secret g c s otr1.keys true) >>= λ otr2.
              then_wait (encoded bytes) (
                double_ratcheting_init (record otr2 { keys = use_first_keys otr2.keys })
                  (encoded bytes) participant_u)

  -- What `receive_auth_i` does with a message that passed the checks.
  unfoldable pub accept_auth_i : Otr g c s → Run Left Left
  accept_auth_i otr =
      double_ratcheting_init (record otr { keys = use_first_keys otr.keys }) no_reply participant_t
      >>= λ otr1. success (otr1, empty_data_message)

  unfoldable pub received_auth_i : AuthI g → Otr g c s → Run Left Left
  received_auth_i auth otr =
      if not (auth.receiver_instance_tag == otr.our_instance_tag)
      then success (otr, no_reply)
      else if not (instance_tag_valid auth.sender_instance_tag)
      then error (otr, malformed)
      else (let otr = record otr { their_instance_tag = auth.sender_instance_tag } in
          if not (valid_receiver_instance_tag auth.receiver_instance_tag)
          then error (otr, no_reply)
          else (or_leave (otr, no_reply) (valid_auth_i_message g c s auth otr) >>= λ valid.
              if not valid then error (otr, no_reply) else accept_auth_i otr))

  unfoldable pub receive_auth_i : Bytes → Otr g c s → Run Left Left
  receive_auth_i buffer otr =
      if not (is_waiting_auth_i otr.state)
      then success (otr, no_reply)
      else (attempt (otr, no_reply) (dake_auth_i_deserialize g buffer) >>= λ auth.
          received_auth_i auth otr)

module _ (g : Goldilocks) (e : Eddsa) (c : Gcrypt) (s : Shake) (o : Libotr c) where
  -- `now` is the time of the checks; `chance` and `ring` are what the random number generator gives.
  unfoldable pub receive_identity_message :
      ℕ → Chance → RingChance g → Bytes → Otr g c s → Run (Left g c s) (Left g c s)
  receive_identity_message now chance ring buffer otr =
      attempt (otr, no_reply) (identity_message_deserialize g c g.point_destroyed buffer) >>= λ msg.
      if not (instance_tag_valid msg.sender_instance_tag)
      then error (otr, malformed)
      else (let otr = record otr { their_instance_tag = msg.sender_instance_tag } in
          or_leave g c s (otr, no_reply)
            (valid_received_values g e c s o now msg.sender_instance_tag msg.y msg.b msg.profile)
          >>= λ valid.
              if not valid
              then error (otr, no_reply)
              else (or_leave g c s (otr, no_reply)
                    (valid_received_values g e c s o now msg.sender_instance_tag msg.y_first
                      msg.b_first msg.profile)
                  >>= λ valid_first.
                      if not valid_first
                      then error (otr, no_reply)
                      else by_state g c s otr.state chance ring msg otr))

  unfoldable pub received_auth_r :
      ℕ → RingChance g → AuthR g c → Otr g c s → Run (Left g c s) (Left g c s)
  received_auth_r now ring auth otr =
      if not (auth.receiver_instance_tag == otr.our_instance_tag)
      then success (otr, no_reply)
      else if not (instance_tag_valid auth.sender_instance_tag)
      then error (otr, malformed)
      else (let otr = record otr { their_instance_tag = auth.sender_instance_tag } in
          if not (valid_receiver_instance_tag auth.receiver_instance_tag)
          then error (otr, malformed)
          else (or_leave g c s (otr, no_reply) (valid_auth_r_message g e c s o now auth otr)
              >>= λ valid.
                  if not valid then error (otr, no_reply) else accept_auth_r g c s ring auth otr))

  unfoldable pub receive_auth_r :
      ℕ → RingChance g → Bytes → Otr g c s → Run (Left g c s) (Left g c s)
  receive_auth_r now ring buffer otr =
      if not (is_waiting_auth_r g c s otr.state)
      then success (otr, no_reply)
      else (attempt (otr, no_reply) (auth_r_deserialize g c g.point_destroyed buffer) >>= λ auth.
          received_auth_r now ring auth otr)
