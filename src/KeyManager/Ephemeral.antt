-- ===== src/KeyManager/Ephemeral.antt =====
-- src/key_management.c: the ephemeral keys, random ones and those of the start of a conversation.
use libotrv.Prelude.{ℕ, ◌%◌, none, ◌==◌, if◌then◌else◌, Bytes}
use libotrv.Crypto.{Goldilocks, Shake, Gcrypt}
use libotrv.Kdf.{shake_256_kdf1}
use libotrv.Run.{Run, success, ◌>>=◌, attempt, within}
use libotrv.KeyExchange.{
  ed448_private_bytes, Participant, participant_u, participant_t, ecdh_keypair_generate,
  ecdh_keypair_generate_their, ecdh_keypair_destroy, dh_keypair_generate,
  dh_keypair_generate_from_shared_secret, dh_keypair_destroy,
}
use libotrv.KeyManager.State.{KeyManager}

-- What the random number generators and the clock give one call.
pub record Chance : Type 0 where
  pub sym : Bytes
  pub sym_first : Bytes
  pub dh_bytes : Bytes
  pub dh_first_bytes : Bytes
  pub now : ℕ
  pub later : ℕ

module _ (g : Goldilocks) (c : Gcrypt) (s : Shake) where
  abbrev Manager : Type 0
  Manager = KeyManager g c s

  -- The new Diffie-Hellman pairs of `otrng_key_manager_generate_ephemeral_keys`.
  unfoldable pub generate_dh_keys : Chance → Manager → Run Manager Manager
  generate_dh_keys chance m = do
    let m1 = record m { our_dh = dh_keypair_destroy c s; our_dh_first = dh_keypair_destroy c s }
    our_dh ← attempt m1 (dh_keypair_generate c s chance.dh_bytes)
    let m2 = record m1 { our_dh = our_dh }
    our_dh_first ← attempt m2 (dh_keypair_generate c s chance.dh_first_bytes)
    success (record m2 { our_dh_first = our_dh_first })

  unfoldable pub generate_ecdh_keys : Chance → Manager → Run Manager Manager
  generate_ecdh_keys chance m = do
    let m1 = record m { our_ecdh = ecdh_keypair_destroy g; our_ecdh_first = ecdh_keypair_destroy g }
    m2 ←
        within (λ pair. record m1 { our_ecdh = pair })
          (ecdh_keypair_generate g chance.sym m1.our_ecdh)
    within (λ pair. record m2 { our_ecdh_first = pair })
        (ecdh_keypair_generate g chance.sym_first m2.our_ecdh_first)

  unfoldable pub generate_ephemeral_keys : Chance → Manager → Run Manager Manager
  generate_ephemeral_keys chance m = do
    m1 ← generate_ecdh_keys chance m
    let m2 = record m1 { last_generated = chance.now }
    if m2.i % 3 == 0 then generate_dh_keys chance m2 else success m2

  -- `generate_first_ephemeral_keys`
  unfoldable pub generate_first_ephemeral_keys : Manager → Participant → Run Manager Manager
  generate_first_ephemeral_keys m participant_u = do
    random ← attempt m (shake_256_kdf1 s ed448_private_bytes 18 m.shared_secret)
    let m1 = record m { our_ecdh = record m.our_ecdh { public = g.point_destroyed } }
    m2 ← within (λ pair. record m1 { our_ecdh = pair }) (ecdh_keypair_generate g random m1.our_ecdh)
    let m3 = record m2 { our_dh = dh_keypair_destroy c s }
    our_dh ←
        attempt m3
          (dh_keypair_generate_from_shared_secret c s m3.shared_secret m3.our_dh participant_u)
    success (record m3 { our_dh = our_dh })
  generate_first_ephemeral_keys m participant_t = do
    random ← attempt m (shake_256_kdf1 s ed448_private_bytes 18 m.shared_secret)
    let m1 = record m { their_ecdh = g.point_destroyed }
    their_ecdh ← attempt m1 (ecdh_keypair_generate_their g random)
    let m2 = record m1 { their_ecdh = their_ecdh; their_dh = none }
    tmp_their_dh ← attempt m2 (
        dh_keypair_generate_from_shared_secret c s m2.shared_secret (dh_keypair_destroy c s)
          participant_t)
    success (record m2 { their_dh = tmp_their_dh.public })
