-- ===== src/Dake/Tag.antt =====
-- src/dake.c: the check of received values, and the messages `t` that the ring signatures of the key
-- exchange sign.
use libotrv.Prelude.{
  ℕ, ◌+◌, ◌*◌, ◌%◌, ◌^◌, Bool, false, not, Option, none, some, [], ◌∷◌, ◌++◌, ltb, ◌==◌,
  if◌then◌else◌, length, Bytes,
}
use libotrv.Crypto.{Goldilocks, Shake, Gcrypt, Eddsa, Libotr, point_bytes, dh_mpi_max_bytes}
use libotrv.Kdf.{shake_256_kdf1}
use libotrv.Run.{Run, success, error, crashed, ◌>>=◌, attempt, not_null}
use libotrv.Wire.Keys.{serialize_ec_point, serialize_dh_mpi_otr}
use libotrv.Wire.PublicKeys.{serialize_shared_prekey}
use libotrv.KeyExchange.{dh_mpi_valid}
use libotrv.KeyManager.Hashes.{calculate_auth_mac}
use libotrv.ClientProfile.{ClientProfile, client_profile_serialize}
use libotrv.ClientProfile.Validity.{client_profile_valid}
use libotrv.Dake.Messages.{hash_bytes}

-- MAX_T_LENGTH
abbrev pub max_t_length : ℕ
max_t_length = 3 * hash_bytes + 2 * point_bytes + 2 * dh_mpi_max_bytes + (2 + point_bytes)

-- The characters 'r' and 'i': any other fails an assertion.
pub data AuthTagType : Type 0 where
  auth_r_tag : AuthTagType
  auth_i_tag : AuthTagType

-- The first byte of the message and the usage of its first hash.
unfoldable pub tag_byte : AuthTagType → ℕ
tag_byte auth_r_tag = 0
tag_byte auth_i_tag = 1

unfoldable pub tag_usage : AuthTagType → ℕ
tag_usage auth_r_tag = 5
tag_usage auth_i_tag = 8

-- `continue` in `do { ... } while (0)`: the function goes on behind the loop, with nothing written.
unfoldable pub behind_loop : Run (Unit {0}) Bytes → Run (Unit {0}) Bytes
behind_loop (success t) = success t
behind_loop (error u) = success []
behind_loop crashed = crashed

-- `if (ser_r_shared_prekey)`
unfoldable pub if_there : Option Bytes → Bytes
if_there none = []
if_there (some b) = b

module _ (g : Goldilocks) (e : Eddsa) (c : Gcrypt) (s : Shake) (o : Libotr c) where
  -- `now` is the time that the profile is checked at.
  unfoldable pub valid_received_values :
      ℕ → ℕ → g.Point → Option c.Mpi → ClientProfile g → Run (Unit {0}) Bool
  valid_received_values now sender_instance_tag their_ecdh their_dh profile =
      if not (g.point_valid their_ecdh)
      then success false
      else if not (dh_mpi_valid c s their_dh)
      then success false
      else client_profile_valid g e c o now profile sender_instance_tag

module _ (g : Goldilocks) (c : Gcrypt) where
  -- `otrng_dake_participant_data_s`, without the prekey profiles, which this file does not read.
  pub record ParticipantData : Type 0 where
    pub client_profile : Option (ClientProfile g)
    pub exp_client_profile : Option (ClientProfile g)
    pub ecdh : g.Point
    pub dh : Option c.Mpi

module _ (g : Goldilocks) (c : Gcrypt) (s : Shake) where
  -- The body of the loop: the profiles and phi are hashed, `keys` stands between the hashes.
  unfoldable pub hash_and_copy :
      ℕ → Option (ClientProfile g) → Option (ClientProfile g) → Bytes → Bytes → Run (Unit {0}) Bytes
  hash_and_copy first_usage i_profile r_profile keys phi = not_null i_profile >>= λ i_profile.
      client_profile_serialize g i_profile >>= λ ser_i_profile. not_null r_profile >>= λ r_profile.
      client_profile_serialize g r_profile >>= λ ser_r_profile.
      attempt tt (shake_256_kdf1 s hash_bytes first_usage ser_i_profile) >>= λ hash_i.
      attempt tt (shake_256_kdf1 s hash_bytes ((first_usage + 1) % 2 ^ 8) ser_r_profile)
      >>= λ hash_r.
          attempt tt (shake_256_kdf1 s hash_bytes ((first_usage + 2) % 2 ^ 8) phi) >>= λ hash_phi.
          success (hash_i ++ (hash_r ++ (keys ++ hash_phi)))

  unfoldable pub build_rsign_tag :
      ℕ
      → ℕ
      → Option (ClientProfile g)
      → Option (ClientProfile g)
      → g.Point
      → g.Point
      → Option c.Mpi
      → Option c.Mpi
      → Option Bytes
      → Bytes
      → Run (Unit {0}) Bytes
  build_rsign_tag dst_len first_usage i_profile r_profile i_ecdh r_ecdh i_dh r_dh shared_prekey
        phi =
      let ser_i_ecdh = serialize_ec_point g i_ecdh in
      let ser_r_ecdh = serialize_ec_point g r_ecdh in
      if ltb dst_len max_t_length
      then error tt
      else if not (length ser_i_ecdh == point_bytes)
      then error tt
      else if not (length ser_r_ecdh == point_bytes)
      then error tt
      else (attempt tt (serialize_dh_mpi_otr c dh_mpi_max_bytes i_dh) >>= λ ser_i_dh.
          attempt tt (serialize_dh_mpi_otr c dh_mpi_max_bytes r_dh) >>= λ ser_r_dh. behind_loop (
            hash_and_copy first_usage i_profile r_profile
              (ser_i_ecdh ++ (ser_r_ecdh ++ (ser_i_dh ++ (ser_r_dh ++ if_there shared_prekey))))
              phi))

  unfoldable pub build_interactive_rsign_tag :
      AuthTagType → ParticipantData g c → ParticipantData g c → Bytes → Run (Unit {0}) Bytes
  build_interactive_rsign_tag auth_tag_type initiator responder phi =
      build_rsign_tag max_t_length (tag_usage auth_tag_type) initiator.client_profile
        responder.client_profile initiator.ecdh responder.ecdh initiator.dh responder.dh none phi
      >>= λ t. success (tag_byte auth_tag_type ∷ t)

  unfoldable pub build_non_interactive_rsign_tag :
      ParticipantData g c → ParticipantData g c → g.Point → Bytes → Run (Unit {0}) Bytes
  build_non_interactive_rsign_tag initiator responder r_shared_prekey phi =
      let shared_prekey = serialize_shared_prekey g r_shared_prekey in
      if length shared_prekey == 0
      then error tt
      else build_rsign_tag max_t_length 14 initiator.client_profile responder.client_profile
          initiator.ecdh responder.ecdh initiator.dh responder.dh (some shared_prekey) phi

  unfoldable pub build_fallback_non_interactive_rsign_tag :
      ParticipantData g c → ParticipantData g c → g.Point → Bytes → Run (Unit {0}) Bytes
  build_fallback_non_interactive_rsign_tag initiator responder r_shared_prekey phi =
      let shared_prekey = serialize_shared_prekey g r_shared_prekey in
      if length shared_prekey == 0
      then error tt
      else build_rsign_tag max_t_length 13 initiator.exp_client_profile responder.client_profile
          initiator.ecdh responder.ecdh initiator.dh responder.dh (some shared_prekey) phi

  -- `otrng_dake_non_interactive_auth_message_authenticator`
  unfoldable pub non_interactive_auth_message_authenticator : Bytes → Bytes → Option Bytes
  non_interactive_auth_message_authenticator t tmp_key =
      elim (shake_256_kdf1 s hash_bytes 13 tmp_key) [
        | none ↦ none
        | some auth_mac_k ↦ calculate_auth_mac s auth_mac_k t
      ]
