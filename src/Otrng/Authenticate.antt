-- ===== src/Otrng/Authenticate.antt =====
-- src/otrng.c: the two sides of an interactive key exchange accept the signatures of each other.
use libotrv.Prelude.{ℕ, ◌≡◌, refl, sym, ap, ◌∙◌, true, Option, some, [], ◌∷◌, Bytes}
use libotrv.Crypto.{Goldilocks, GoldilocksLaws, Shake, Gcrypt, Eddsa, Libotr}
use libotrv.Kdf.{ShakeLaws}
use libotrv.Run.{Run, success, ◌>>=◌, attempt, not_null}
use libotrv.Wire.Keys.{IsNumber}
use libotrv.Wire.Serialize.{serialize_phi}
use libotrv.Wire.RoundTrip.{serialize_phi_comm}
use libotrv.ClientProfile.{ClientProfile}
use libotrv.ClientProfile.Copy.{client_profile_copy_self}
use libotrv.ClientProfile.RoundTrip.{IsProfile}
use libotrv.Dake.{AuthI}
use libotrv.Dake.Messages.{AuthR}
use libotrv.Dake.Tag.{
  AuthTagType, auth_r_tag, auth_i_tag, valid_received_values, ParticipantData,
  build_interactive_rsign_tag,
}
use libotrv.Dake.Transcript.{build_interactive_rsign_tag_lem}
use libotrv.Ring.{RingSig, RingChance}
use libotrv.Ring.Verify.{ScalarLaws, IsSigner, rsig_verify-rsig_authenticate}
use libotrv.Otrng.Handshake.{
  Otr, generate_phi, participant, generate_sending_rsig_tag, generate_receiving_rsig_tag,
  authenticate, verify, reply_with_auth_r, reply_with_auth_i, verify_auth_i, checked,
  valid_auth_i_message, valid_auth_r_message,
}

module _ (g : Goldilocks) (c : Gcrypt) (s : Shake) where
  -- The responder has the profile and the keys of the initiator, both have the same session state,
  -- each has the tag of the other, and both profiles, with the fields that are not written at their
  -- defaults, and both numbers can be written.
  pub record IsExchange (responder initiator : Otr g c s) : Type 0 where
    pub session : Bytes
    pub session_responder : responder.shared_session_state ≡ some session
    pub session_initiator : initiator.shared_session_state ≡ some session
    pub tag_responder : responder.our_instance_tag ≡ initiator.their_instance_tag
    pub tag_initiator : responder.their_instance_tag ≡ initiator.our_instance_tag
    pub profile : responder.their_client_profile ≡ some initiator.client_profile
    pub ecdh : responder.keys.their_ecdh ≡ initiator.keys.our_ecdh.public
    pub dh : responder.keys.their_dh ≡ initiator.keys.our_dh.public
    pub profile_responder : IsProfile g responder.client_profile
    pub profile_initiator : IsProfile g initiator.client_profile
    pub number_responder : IsNumber c responder.keys.our_dh.public
    pub number_initiator : IsNumber c initiator.keys.our_dh.public

  -- What is signed, by the values it is made of.
  abbrev signed :
      AuthTagType
      → Option Bytes
      → ℕ
      → ℕ
      → Option (ClientProfile g)
      → g.Point
      → Option c.Mpi
      → ParticipantData g c
      → Run (Unit {0}) Bytes
  signed type state ours theirs profile ecdh dh responder =
      attempt tt (generate_phi g c s state ours theirs) >>= λ phi.
      build_interactive_rsign_tag g c s type (participant g c s profile ecdh dh) responder phi

  abbrev own : Otr g c s → ParticipantData g c
  own otr =
      participant g c s (some otr.client_profile) otr.keys.our_ecdh.public otr.keys.our_dh.public

  module _ (gl : GoldilocksLaws g) (sl : ShakeLaws s) (responder initiator : Otr g c s)
      (h : IsExchange responder initiator) where
    abbrev ends : AuthTagType → ℕ → ℕ → Run (Unit {0}) Bytes
    ends type ours theirs =
        signed type (some h.session) ours theirs (some initiator.client_profile)
          initiator.keys.our_ecdh.public initiator.keys.our_dh.public (own responder)

    sending :
        (type : AuthTagType)
        → generate_sending_rsig_tag g c s type responder
          ≡ ends type initiator.their_instance_tag initiator.our_instance_tag
    unfolding generate_sending_rsig_tag
    sending type i =
        signed type (h.session_responder i) (h.tag_responder i) (h.tag_initiator i) (h.profile i)
          (h.ecdh i) (h.dh i) (own responder)

    receiving :
        (type : AuthTagType)
        → generate_receiving_rsig_tag g c s type (own responder) initiator
          ≡ ends type initiator.our_instance_tag initiator.their_instance_tag
    unfolding generate_receiving_rsig_tag
    receiving type i =
        signed type (h.session_initiator i) initiator.our_instance_tag initiator.their_instance_tag
          (some initiator.client_profile) initiator.keys.our_ecdh.public
          initiator.keys.our_dh.public (own responder)

    -- Both sides build the same message.
    pub same_tag :
        (type : AuthTagType)
        → (t : Bytes) × (generate_sending_rsig_tag g c s type responder ≡ success t)
          × (generate_receiving_rsig_tag g c s type (own responder) initiator ≡ success t)
    unfolding generate_phi participant
    same_tag type =
        let phi = serialize_phi h.session initiator.our_instance_tag initiator.their_instance_tag in
        let (x, y, _, _, built) =
          build_interactive_rsign_tag_lem g c s gl sl type (own initiator) (own responder)
            initiator.client_profile responder.client_profile phi refl refl h.profile_initiator
            h.profile_responder h.number_initiator h.number_responder in
        (
          _,
          sending type
              ∙ (ap
                    (λ (p : Bytes).
                      build_interactive_rsign_tag g c s type (own initiator) (own responder) p)
                    (serialize_phi_comm h.session initiator.their_instance_tag
                      initiator.our_instance_tag)
                  ∙ built),
          receiving type ∙ built,
        )

  -- The Auth-R message, and how it is made of the copy of the profile and what is signed.
  abbrev auth_r_of : Otr g c s → ClientProfile g → RingSig g → AuthR g c
  auth_r_of otr profile sigma = record {
    sender_instance_tag = otr.our_instance_tag;
    receiver_instance_tag = otr.their_instance_tag;
    profile = profile;
    x = otr.keys.our_ecdh.public;
    a = otr.keys.our_dh.public;
    x_first = otr.keys.our_ecdh_first.public;
    a_first = otr.keys.our_dh_first.public;
    sigma = sigma;
  }

  abbrev signed_auth_r :
      RingChance g
      → Otr g c s
      → Option (ClientProfile g)
      → Run (Unit {0}) Bytes
      → Option (ClientProfile g)
      → Run (Unit {0}) (AuthR g c)
  signed_auth_r chance otr copy tag theirs = attempt tt copy >>= λ profile. tag >>= λ t.
      not_null theirs >>= λ theirs.
      attempt tt (
        authenticate g c s chance otr.keypair.priv otr.keypair.public theirs.forging_pub_key
          otr.keypair.public otr.keys.their_ecdh t)
      >>= λ sigma. success (auth_r_of otr profile sigma)

module _ (g : Goldilocks) (e : Eddsa) (c : Gcrypt) (s : Shake) (o : Libotr c)
    (gl : GoldilocksLaws g) (sl : ShakeLaws s) (ring : ScalarLaws g) where
  -- Where the responder is in an exchange with the initiator, the forging key of the initiator and the
  -- long-term key of the responder are those of their profiles, the responder can sign for exactly one
  -- of the three keys, and both its pairs of keys and its profile are valid at the time `now`, the
  -- responder makes an Auth-R message and the initiator accepts it.
  pub valid_auth_r_message-reply :
      (now : ℕ) (chance : RingChance g) (responder initiator : Otr g c s)
      → IsExchange g c s responder initiator
      → initiator.forging_key ≡ initiator.client_profile.forging_pub_key
      → responder.client_profile.long_term_pub_key ≡ responder.keypair.public
      → IsSigner g s sl ring responder.keypair.priv responder.keypair.public
          initiator.client_profile.forging_pub_key responder.keypair.public
          responder.keys.their_ecdh
      → valid_received_values g e c s o now responder.our_instance_tag
          responder.keys.our_ecdh.public responder.keys.our_dh.public responder.client_profile
        ≡ success true
      → valid_received_values g e c s o now responder.our_instance_tag
          responder.keys.our_ecdh_first.public responder.keys.our_dh_first.public
          responder.client_profile
        ≡ success true
      → (auth : AuthR g c) × (reply_with_auth_r g c s chance responder ≡ success auth)
        × (valid_auth_r_message g e c s o now auth initiator ≡ success true)
  unfolding reply_with_auth_r valid_auth_r_message authenticate verify checked
  valid_auth_r_message-reply now chance a b h forging long_term signer valid valid_first =
      let (t, sent, received) = same_tag g c s gl sl a b h auth_r_tag in
      let (sigma, made, verified) =
        rsig_verify-rsig_authenticate g s sl ring 28 (79 ∷ 84 ∷ 82 ∷ 118 ∷ 52 ∷ []) chance
          a.keypair.priv a.keypair.public b.client_profile.forging_pub_key a.keypair.public
          a.keys.their_ecdh t signer in
      (
        auth_r_of g c s a a.client_profile sigma,
        (λ i.
              signed_auth_r g c s chance a
                (client_profile_copy_self g g.point_destroyed a.client_profile h.profile_responder
                  i)
                (sent i) (h.profile i))
            ∙ ap
                (λ (x : Option (RingSig g)).
                  attempt tt x >>= λ sigma. success (auth_r_of g c s a a.client_profile sigma))
                made,
        rw (valid, valid_first, received)
            ((λ i. success (verify g c s sigma (forging i) (long_term i) ((sym h.ecdh) i) t))
              ∙ ap success verified),
      )

  -- Where the responder is in an exchange with the initiator, who has the keys of the responder, the
  -- forging key of the responder and the long-term key of the initiator are those of their profiles, and
  -- the initiator can sign for exactly one of the three keys, the initiator makes an Auth-I message and
  -- the responder accepts it.
  pub valid_auth_i_message-reply :
      (chance : RingChance g) (responder initiator : Otr g c s)
      → IsExchange g c s responder initiator
      → initiator.keys.their_ecdh ≡ responder.keys.our_ecdh.public
      → initiator.keys.their_dh ≡ responder.keys.our_dh.public
      → responder.forging_key ≡ responder.client_profile.forging_pub_key
      → initiator.client_profile.long_term_pub_key ≡ initiator.keypair.public
      → IsSigner g s sl ring initiator.keypair.priv initiator.keypair.public
          initiator.keypair.public responder.client_profile.forging_pub_key
          initiator.keys.their_ecdh
      → (auth : AuthI g) × (reply_with_auth_i g c s chance responder.client_profile initiator
          ≡ success auth)
        × (valid_auth_i_message g c s auth responder ≡ success true)
  unfolding reply_with_auth_i valid_auth_i_message verify_auth_i authenticate verify checked
  valid_auth_i_message-reply chance a b h ecdh dh forging long_term signer =
      let (t, sent, received) = same_tag g c s gl sl a b h auth_i_tag in
      let (sigma, made, verified) =
        rsig_verify-rsig_authenticate g s sl ring 28 (79 ∷ 84 ∷ 82 ∷ 118 ∷ 52 ∷ []) chance
          b.keypair.priv b.keypair.public b.keypair.public a.client_profile.forging_pub_key
          b.keys.their_ecdh t signer in
      let tag : generate_receiving_rsig_tag g c s auth_i_tag
            (participant g c s (some a.client_profile) b.keys.their_ecdh b.keys.their_dh) b
          ≡ success t =
        ap (λ x. generate_receiving_rsig_tag g c s auth_i_tag x b)
          (λ i. participant g c s (some a.client_profile) (ecdh i) (dh i))
        ∙ received in
      let auth : AuthI g = record {
        sender_instance_tag = b.our_instance_tag;
        receiver_instance_tag = b.their_instance_tag;
        sigma = sigma;
      } in
      (
        auth,
        rw (tag, made) refl,
        (λ i. checked g c s (sent i) (verify_auth_i g c s (h.profile i) auth a))
            ∙ ((λ i. success (verify g c s sigma (long_term i) (forging i) ((sym ecdh) i) t))
                ∙ ap success verified),
      )
