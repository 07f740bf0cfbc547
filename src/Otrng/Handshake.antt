-- ===== src/Otrng/Handshake.antt =====
-- src/otrng.c: the messages of the interactive key exchange, how they are signed and checked.
mod Tests
use libotrv.Prelude.{ℕ, Bool, false, not, Option, none, some, [], ◌∷◌, if◌then◌else◌, Bytes}
use libotrv.Crypto.{Goldilocks, Shake, Gcrypt, Eddsa, Libotr}
use libotrv.Run.{Run, success, error, crashed, ◌>>=◌, attempt, not_null}
use libotrv.Keys.{Keypair}
use libotrv.Wire.Serialize.{serialize_phi}
use libotrv.ClientProfile.{ClientProfile}
use libotrv.ClientProfile.Copy.{client_profile_copy}
use libotrv.KeyManager.Ratchet.{Manager}
use libotrv.Dake.{AuthI}
use libotrv.Dake.Messages.{AuthR}
use libotrv.Dake.Tag.{
  AuthTagType, auth_r_tag, auth_i_tag, valid_received_values, ParticipantData,
  build_interactive_rsign_tag,
}
use libotrv.Ring.{RingSig, RingChance, rsig_authenticate, rsig_verify}

-- `otrng_state`
pub data State : Type 0 where
  state_none : State
  state_start : State
  state_waiting_auth_r : State
  state_waiting_auth_i : State
  state_waiting_dake_data_message : State
  state_encrypted_messages : State
  state_finished : State

module _ (g : Goldilocks) (c : Gcrypt) (s : Shake) where
  -- What `otrng_s` and its client have for the key exchange: `shared_session_state` is what
  -- `get_shared_session_state` returns, the client profile, key pair and forging key those of the
  -- client. `keypair` and `forging_key` are there, the other profile may be null.
  pub record Otr : Type 0 where
    pub state : State
    pub our_instance_tag : ℕ
    pub their_instance_tag : ℕ
    pub shared_session_state : Option Bytes
    pub client_profile : ClientProfile g
    pub keypair : Keypair g
    pub forging_key : g.Point
    pub their_client_profile : Option (ClientProfile g)
    pub keys : Manager g c s

  -- `generate_phi_sending` and `generate_phi_receiving`
  unfoldable pub generate_phi : Option Bytes → ℕ → ℕ → Option Bytes
  generate_phi none ours theirs = none
  generate_phi (some phi_prime) ours theirs = some (serialize_phi phi_prime ours theirs)

  unfoldable pub participant :
      Option (ClientProfile g) → g.Point → Option c.Mpi → ParticipantData g c
  participant profile ecdh dh = record {
    client_profile = profile;
    exp_client_profile = none;
    ecdh = ecdh;
    dh = dh;
  }

  unfoldable pub generate_sending_rsig_tag : AuthTagType → Otr → Run (Unit {0}) Bytes
  generate_sending_rsig_tag type otr =
      attempt tt (generate_phi otr.shared_session_state otr.our_instance_tag otr.their_instance_tag)
      >>= λ phi.
          build_interactive_rsign_tag g c s type
            (participant otr.their_client_profile otr.keys.their_ecdh otr.keys.their_dh)
            (participant (some otr.client_profile) otr.keys.our_ecdh.public otr.keys.our_dh.public)
            phi

  unfoldable pub generate_receiving_rsig_tag :
      AuthTagType → ParticipantData g c → Otr → Run (Unit {0}) Bytes
  generate_receiving_rsig_tag type responder otr =
      attempt tt (generate_phi otr.shared_session_state otr.our_instance_tag otr.their_instance_tag)
      >>= λ phi.
          build_interactive_rsign_tag g c s type
            (participant (some otr.client_profile) otr.keys.our_ecdh.public otr.keys.our_dh.public)
            responder phi

  -- `otrng_rsig_authenticate` and `otrng_rsig_verify`; the domain is the text "OTRv4".
  unfoldable pub authenticate :
      RingChance g → g.Scalar → g.Point → g.Point → g.Point → g.Point → Bytes → Option (RingSig g)
  authenticate = rsig_authenticate g s 28 (79 ∷ 84 ∷ 82 ∷ 118 ∷ 52 ∷ [])

  unfoldable pub verify : RingSig g → g.Point → g.Point → g.Point → Bytes → Bool
  verify = rsig_verify g s 28 (79 ∷ 84 ∷ 82 ∷ 118 ∷ 52 ∷ [])

  -- The message of `reply_with_auth_r_message`.
  unfoldable pub reply_with_auth_r : RingChance g → Otr → Run (Unit {0}) (AuthR g c)
  reply_with_auth_r chance otr =
      attempt tt (client_profile_copy g g.point_destroyed (some otr.client_profile)) >>= λ profile.
      generate_sending_rsig_tag auth_r_tag otr >>= λ t.
      not_null otr.their_client_profile >>= λ their_client_profile.
      attempt tt (
        authenticate chance otr.keypair.priv otr.keypair.public their_client_profile.forging_pub_key
          otr.keypair.public otr.keys.their_ecdh t)
      >>= λ sigma. success (record {
        sender_instance_tag = otr.our_instance_tag;
        receiver_instance_tag = otr.their_instance_tag;
        profile = profile;
        x = otr.keys.our_ecdh.public;
        a = otr.keys.our_dh.public;
        x_first = otr.keys.our_ecdh_first.public;
        a_first = otr.keys.our_dh_first.public;
        sigma = sigma;
      })

  -- The message of `reply_with_auth_i_message`.
  unfoldable pub reply_with_auth_i : RingChance g → ClientProfile g → Otr → Run (Unit {0}) (AuthI g)
  reply_with_auth_i chance their_client_profile otr =
      generate_receiving_rsig_tag auth_i_tag
        (participant (some their_client_profile) otr.keys.their_ecdh otr.keys.their_dh) otr
      >>= λ t.
          attempt tt (
            authenticate chance otr.keypair.priv otr.keypair.public otr.keypair.public
              their_client_profile.forging_pub_key otr.keys.their_ecdh t)
          >>= λ sigma. success (record {
            sender_instance_tag = otr.our_instance_tag;
            receiver_instance_tag = otr.their_instance_tag;
            sigma = sigma;
          })

  unfoldable pub verify_auth_i :
      Option (ClientProfile g) → AuthI g → Otr → Bytes → Run (Unit {0}) Bool
  verify_auth_i none auth otr t = crashed
  verify_auth_i (some their_client_profile) auth otr t = success (
      verify auth.sigma their_client_profile.long_term_pub_key otr.forging_key
        otr.keys.our_ecdh.public t)

  -- A message that cannot be built makes the check otrng_false.
  unfoldable pub checked :
      Run (Unit {0}) Bytes → (Bytes → Run (Unit {0}) Bool) → Run (Unit {0}) Bool
  checked (success t) test = test t
  checked (error u) test = success false
  checked crashed test = crashed

  unfoldable pub valid_auth_i_message : AuthI g → Otr → Run (Unit {0}) Bool
  valid_auth_i_message auth otr =
      checked (generate_sending_rsig_tag auth_i_tag otr)
        (verify_auth_i otr.their_client_profile auth otr)

module _ (g : Goldilocks) (e : Eddsa) (c : Gcrypt) (s : Shake) (o : Libotr c) where
  unfoldable pub valid_auth_r_message : ℕ → AuthR g c → Otr g c s → Run (Unit {0}) Bool
  valid_auth_r_message now auth otr =
      valid_received_values g e c s o now auth.sender_instance_tag auth.x auth.a auth.profile
      >>= λ valid.
          if not valid
          then success false
          else (valid_received_values g e c s o now auth.sender_instance_tag auth.x_first
                auth.a_first auth.profile
              >>= λ valid_first.
                  if not valid_first
                  then success false
                  else checked g c s
                      (generate_receiving_rsig_tag g c s auth_r_tag
                        (participant g c s (some auth.profile) auth.x auth.a) otr)
                      (λ t. success (
                        verify g c s auth.sigma otr.forging_key auth.profile.long_term_pub_key
                          otr.keys.our_ecdh.public t)))
