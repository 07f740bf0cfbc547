-- ===== src/Otrng/States.antt =====
-- src/otrng.c: the states that the handlers of the interactive key exchange lead to, and what was
-- checked before.
use libotrv.Prelude.{ℕ, ◌≡◌, refl, ap, ◌∙◌, inl, true, some, ◌==◌, Bytes}
use libotrv.Crypto.{Goldilocks, Shake, Gcrypt, Eddsa, Libotr}
use libotrv.Run.{success}
use libotrv.Keys.{instance_tag_valid}
use libotrv.KeyManager.Ephemeral.{Chance}
use libotrv.Dake.{AuthI, dake_auth_i_deserialize}
use libotrv.Dake.Messages.{IdentityMessage, AuthR}
use libotrv.Dake.Read.{identity_message_deserialize, auth_r_deserialize}
use libotrv.Dake.Tag.{valid_received_values}
use libotrv.Ring.{RingChance}
use libotrv.Otrng.Handshake.{
  state_waiting_auth_i, state_waiting_dake_data_message, state_encrypted_messages, Otr,
  valid_auth_i_message, valid_auth_r_message,
}
use libotrv.Otrng.Handlers.{
  no_reply, valid_receiver_instance_tag, Left, is_waiting_auth_r, is_waiting_auth_i,
  received_auth_i, receive_auth_i, receive_identity_message, received_auth_r, receive_auth_r,
}
use libotrv.Otrng.Outcome.{
  bind, unless, attempted, left_alone, Moved, Leaves, accept_auth_i_lem, accept_auth_r_lem,
  by_state_lem,
}

module _ (g : Goldilocks) (c : Gcrypt) (s : Shake) where
  -- The message was read, this conversation was waiting for it, and its signature was accepted.
  abbrev pub AcceptedAuthI : Otr g c s → Bytes → Type 0
  AcceptedAuthI otr buffer =
      (auth : AuthI g) × (dake_auth_i_deserialize g buffer ≡ some auth)
      × (is_waiting_auth_i g c s otr.state ≡ true)
      × (valid_auth_i_message g c s auth
            (record otr { their_instance_tag = auth.sender_instance_tag })
          ≡ success true)

  -- Whatever an Auth-I message is, where its handler makes no invalid memory access: the
  -- conversation stays in its state, or it becomes encrypted; it does so only where it was waiting
  -- for the message, the message was read and its signature accepted.
  pub receive_auth_i-Leaves :
      (buffer : Bytes) (otr : Otr g c s)
      → Leaves g c s
          (Moved g c s otr.state state_encrypted_messages (AcceptedAuthI otr buffer))
          (receive_auth_i g c s buffer otr)
  unfolding receive_auth_i received_auth_i
  receive_auth_i-Leaves buffer otr =
      let P = Moved g c s otr.state state_encrypted_messages (AcceptedAuthI otr buffer) in
      let Q : Left g c s → Type 0 = λ l. P l.0 in
      unless g c s P Q (is_waiting_auth_i g c s otr.state) _ _ (inl refl) (λ waiting.
        bind g c s P (λ auth. dake_auth_i_deserialize g buffer ≡ some auth) Q _ _
          (attempted g c s P (otr, no_reply) (dake_auth_i_deserialize g buffer) (inl refl))
          (λ auth read.
            let otr1 = record otr { their_instance_tag = auth.sender_instance_tag } in
            unless g c s P Q (auth.receiver_instance_tag == otr.our_instance_tag) _ _ (inl refl)
              (λ _.
                unless g c s P Q (instance_tag_valid auth.sender_instance_tag) _ _ (inl refl) (λ _.
                  unless g c s P Q (valid_receiver_instance_tag auth.receiver_instance_tag) _ _
                    (inl refl)
                    (λ _.
                      bind g c s P (λ b. valid_auth_i_message g c s auth otr1 ≡ success b) Q _ _
                        (left_alone g c s P (otr1, no_reply) (valid_auth_i_message g c s auth otr1)
                          (inl refl))
                        (λ b valid. unless g c s P Q b _ _ (inl refl) (λ yes.
                          accept_auth_i_lem g c s otr.state (AcceptedAuthI otr buffer) otr1 refl
                            (auth, read, waiting, valid ∙ ap success yes))))))))

module _ (g : Goldilocks) (e : Eddsa) (c : Gcrypt) (s : Shake) (o : Libotr c) where
  -- The message was read, this conversation was waiting for it, and its values and its signature were
  -- accepted.
  abbrev pub AcceptedAuthR : ℕ → Otr g c s → Bytes → Type 0
  AcceptedAuthR now otr buffer =
      (auth : AuthR g c) × (auth_r_deserialize g c g.point_destroyed buffer ≡ some auth)
      × (is_waiting_auth_r g c s otr.state ≡ true)
      × (valid_auth_r_message g e c s o now auth
            (record otr { their_instance_tag = auth.sender_instance_tag })
          ≡ success true)

  -- Whatever an Auth-R message is, where its handler makes no invalid memory access: the
  -- conversation stays in its state, or it waits for the first data message; it does so only where
  -- it was waiting for the message, the message was read and its values and its signature were
  -- accepted.
  pub receive_auth_r-Leaves :
      (now : ℕ) (ring : RingChance g) (buffer : Bytes) (otr : Otr g c s)
      → Leaves g c s
          (Moved g c s otr.state state_waiting_dake_data_message (AcceptedAuthR now otr buffer))
          (receive_auth_r g e c s o now ring buffer otr)
  unfolding receive_auth_r received_auth_r
  receive_auth_r-Leaves now ring buffer otr =
      let E = AcceptedAuthR now otr buffer in
      let P = Moved g c s otr.state state_waiting_dake_data_message E in
      let Q : Left g c s → Type 0 = λ l. P l.0 in
      unless g c s P Q (is_waiting_auth_r g c s otr.state) _ _ (inl refl) (λ waiting.
        bind g c s P (λ auth. auth_r_deserialize g c g.point_destroyed buffer ≡ some auth) Q _ _
          (attempted g c s P (otr, no_reply) (auth_r_deserialize g c g.point_destroyed buffer)
            (inl refl))
          (λ auth read.
            let otr1 = record otr { their_instance_tag = auth.sender_instance_tag } in
            unless g c s P Q (auth.receiver_instance_tag == otr.our_instance_tag) _ _ (inl refl)
              (λ _.
                unless g c s P Q (instance_tag_valid auth.sender_instance_tag) _ _ (inl refl) (λ _.
                  unless g c s P Q (valid_receiver_instance_tag auth.receiver_instance_tag) _ _
                    (inl refl)
                    (λ _.
                      bind g c s P (λ b. valid_auth_r_message g e c s o now auth otr1 ≡ success b) Q
                        _ _
                        (left_alone g c s P (otr1, no_reply)
                          (valid_auth_r_message g e c s o now auth otr1) (inl refl))
                        (λ b valid. unless g c s P Q b _ _ (inl refl) (λ yes.
                          accept_auth_r_lem g c s ring auth otr.state E otr1 refl
                            (auth, read, waiting, valid ∙ ap success yes))))))))

  -- The message was read, its tag is valid, and both pairs of keys and the profile were accepted.
  abbrev pub AcceptedIdentity : ℕ → Bytes → Type 0
  AcceptedIdentity now buffer =
      (msg : IdentityMessage g c) × (identity_message_deserialize g c g.point_destroyed buffer
        ≡ some msg)
      × (instance_tag_valid msg.sender_instance_tag ≡ true)
      × (valid_received_values g e c s o now msg.sender_instance_tag msg.y msg.b msg.profile
          ≡ success true)
      × (valid_received_values g e c s o now msg.sender_instance_tag msg.y_first msg.b_first
            msg.profile
          ≡ success true)

  -- Whatever an identity message is and in whatever state it comes, where its handler makes no
  -- invalid memory access: the conversation stays in its state, or it waits for Auth-I; it does so only
  -- where the message was read, its tag is valid, and its points, numbers and profile were
  -- accepted.
  pub receive_identity_message-Leaves :
      (now : ℕ) (chance : Chance) (ring : RingChance g) (buffer : Bytes) (otr : Otr g c s)
      → Leaves g c s
          (Moved g c s otr.state state_waiting_auth_i (AcceptedIdentity now buffer))
          (receive_identity_message g e c s o now chance ring buffer otr)
  unfolding receive_identity_message
  receive_identity_message-Leaves now chance ring buffer otr =
      let E = AcceptedIdentity now buffer in
      let P = Moved g c s otr.state state_waiting_auth_i E in
      let Q : Left g c s → Type 0 = λ l. P l.0 in
      bind g c s P (λ msg. identity_message_deserialize g c g.point_destroyed buffer ≡ some msg) Q _
        _
        (attempted g c s P (otr, no_reply)
          (identity_message_deserialize g c g.point_destroyed buffer) (inl refl))
        (λ msg read.
          let otr1 = record otr { their_instance_tag = msg.sender_instance_tag } in
          let first =
            valid_received_values g e c s o now msg.sender_instance_tag msg.y msg.b msg.profile in
          let second =
            valid_received_values g e c s o now msg.sender_instance_tag msg.y_first msg.b_first
              msg.profile in
          unless g c s P Q (instance_tag_valid msg.sender_instance_tag) _ _ (inl refl) (λ tag.
            bind g c s P (λ b. first ≡ success b) Q _ _
              (left_alone g c s P (otr1, no_reply) first (inl refl))
              (λ b valid. unless g c s P Q b _ _ (inl refl) (λ yes.
                bind g c s P (λ b. second ≡ success b) Q _ _
                  (left_alone g c s P (otr1, no_reply) second (inl refl))
                  (λ b1 valid1. unless g c s P Q b1 _ _ (inl refl) (λ yes1.
                    by_state_lem g c s otr.state chance ring msg otr.state E otr1 refl
                      (msg, read, tag, valid ∙ ap success yes, valid1 ∙ ap success yes1)))))))
