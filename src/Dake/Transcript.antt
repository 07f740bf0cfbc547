-- ===== src/Dake/Transcript.antt =====
-- src/dake.c: what the message that Auth-R or Auth-I signs is made of.
use libotrv.ClientProfile.RoundTrip.{IsProfile, client_profile_deserialize-serialize}
use libotrv.Prelude.{ℕ, ◌+◌, ◌%◌, ◌^◌, ◌≡◌, refl, Option, none, some, [], ◌∷◌, ◌++◌, arith, Bytes}
use libotrv.Crypto.{Goldilocks, GoldilocksLaws, Shake, Gcrypt, dh_mpi_max_bytes}
use libotrv.Kdf.{ShakeLaws, kdf1, shake_256_kdf1_lem}
use libotrv.Run.{success}
use libotrv.Wire.Keys.{
  serialize_ec_point, mpi_set, serialize_mpi, length-serialize_ec_point, IsNumber, printed,
  serialize_dh_mpi_otr_lem,
}
use libotrv.ClientProfile.{ClientProfile, client_profile_serialize}
use libotrv.Dake.Messages.{hash_bytes}
use libotrv.Dake.Tag.{
  max_t_length, AuthTagType, tag_byte, tag_usage, behind_loop, if_there, ParticipantData,
  hash_and_copy, build_rsign_tag, build_interactive_rsign_tag,
}

module _ (g : Goldilocks) (c : Gcrypt) (s : Shake) (gl : GoldilocksLaws g) (sl : ShakeLaws s) where
  abbrev pub hash_of : ℕ → Bytes → Bytes
  hash_of usage b = kdf1 s sl hash_bytes usage b

  abbrev pub number_bytes : Option c.Mpi → Bytes
  number_bytes n = serialize_mpi (mpi_set (printed c n))

  hash_and_copy_lem :
      (usage : ℕ) (i r : ClientProfile g) (ser_i ser_r keys phi : Bytes)
      → client_profile_serialize g i ≡ success ser_i
      → client_profile_serialize g r ≡ success ser_r
      → hash_and_copy g c s usage (some i) (some r) keys phi
        ≡ success (
            hash_of usage ser_i
            ++ (hash_of ((usage + 1) % 2 ^ 8) ser_r ++ (keys ++ hash_of ((usage + 2) % 2 ^ 8) phi)))
  unfolding hash_and_copy
  hash_and_copy_lem usage i r ser_i ser_r keys phi written_i written_r =
      rw (written_i, written_r)
        (rw
          (
            shake_256_kdf1_lem s sl hash_bytes usage ser_i,
            shake_256_kdf1_lem s sl hash_bytes ((usage + 1) % 2 ^ 8) ser_r,
            shake_256_kdf1_lem s sl hash_bytes ((usage + 2) % 2 ^ 8) phi,
          )
          refl)

  -- The points and numbers as they stand in the message.
  abbrev pub keys_of : (initiator responder : ParticipantData g c) → Bytes
  keys_of initiator responder =
      serialize_ec_point g initiator.ecdh
      ++ (serialize_ec_point g responder.ecdh
          ++ (number_bytes initiator.dh ++ (number_bytes responder.dh ++ [])))

  build_rsign_tag_lem :
      (usage : ℕ) (i r : Option (ClientProfile g)) (x y : g.Point) (a b : Option c.Mpi)
      (shared : Option Bytes) (phi : Bytes)
      → IsNumber c a
      → IsNumber c b
      → build_rsign_tag g c s max_t_length usage i r x y a b shared phi
        ≡ behind_loop (
            hash_and_copy g c s usage i r
              (serialize_ec_point g x
                ++ (serialize_ec_point g y
                    ++ (number_bytes a ++ (number_bytes b ++ if_there shared))))
              phi)
  unfolding build_rsign_tag
  build_rsign_tag_lem usage i r x y a b shared phi na nb =
      rw (length-serialize_ec_point g gl x, length-serialize_ec_point g gl y)
        (rw
          (
            serialize_dh_mpi_otr_lem c dh_mpi_max_bytes a na (omega arith),
            serialize_dh_mpi_otr_lem c dh_mpi_max_bytes b nb (omega arith),
          )
          refl)

  -- The message that Auth-R or Auth-I signs, of the two written profiles.
  abbrev pub tag_of :
      AuthTagType → ParticipantData g c → ParticipantData g c → Bytes → Bytes → Bytes → Bytes
  tag_of type initiator responder ser_i ser_r phi =
      tag_byte type
      ∷ (hash_of (tag_usage type) ser_i
          ++ (hash_of ((tag_usage type + 1) % 2 ^ 8) ser_r
              ++ (keys_of initiator responder ++ hash_of ((tag_usage type + 2) % 2 ^ 8) phi)))

  -- Where both profiles and numbers can be written, the message that Auth-R or Auth-I signs is made,
  -- and it is the byte of its type, the hashes of the profiles of the initiator and the responder,
  -- their points, their numbers and the hash of phi.
  pub build_interactive_rsign_tag_lem :
      (type : AuthTagType) (initiator responder : ParticipantData g c) (i r : ClientProfile g)
      (phi : Bytes)
      → initiator.client_profile ≡ some i
      → responder.client_profile ≡ some r
      → IsProfile g i
      → IsProfile g r
      → IsNumber c initiator.dh
      → IsNumber c responder.dh
      → (ser_i : Bytes) × (ser_r : Bytes) × (client_profile_serialize g i ≡ success ser_i)
        × (client_profile_serialize g r ≡ success ser_r)
        × (build_interactive_rsign_tag g c s type initiator responder phi
            ≡ success (tag_of type initiator responder ser_i ser_r phi))
  unfolding build_interactive_rsign_tag behind_loop if_there
  build_interactive_rsign_tag_lem type initiator responder i r phi ei er hi hr ni nr =
      let (ser_i, written_i, _) =
        client_profile_deserialize-serialize g gl initiator.ecdh i [] hi in
      let (ser_r, written_r, _) =
        client_profile_deserialize-serialize g gl initiator.ecdh r [] hr in
      (
        ser_i,
        ser_r,
        written_i,
        written_r,
        rw
            (
              build_rsign_tag_lem (tag_usage type) initiator.client_profile responder.client_profile
                  initiator.ecdh responder.ecdh initiator.dh responder.dh none phi ni nr,
              ei,
              er,
              hash_and_copy_lem (tag_usage type) i r ser_i ser_r
                  (serialize_ec_point g initiator.ecdh
                    ++ (serialize_ec_point g responder.ecdh
                        ++ (number_bytes initiator.dh
                            ++ (number_bytes responder.dh ++ if_there none))))
                  phi written_i written_r,
            )
            refl,
      )
