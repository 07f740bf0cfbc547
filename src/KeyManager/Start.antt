-- ===== src/KeyManager/Start.antt =====
-- src/key_management.c: the two sides of the start of a conversation have the same secrets.
use libotrv.Prelude.{◌≡◌, refl, ap, some, Bytes}
use libotrv.Crypto.{Goldilocks, Shake, Gcrypt}
use libotrv.Wire.Keys.{ec_point_decode}
use libotrv.Kdf.{ShakeLaws, kdf1, shake_256_kdf1_lem}
use libotrv.Run.{success}
use libotrv.KeyExchange.{
  dh_key_size, ed448_private_bytes, Participant, participant_u, participant_t,
  ecdh_keypair_generate, ecdh_keypair_generate_their, DhKeypair, keypair_from, keep_priv,
  dh_keypair_generate_from_shared_secret, dh_keypair_destroy,
}
use libotrv.KeyManager.State.{key_bytes, wiped}
use libotrv.KeyManager.Ephemeral.{generate_first_ephemeral_keys}
use libotrv.KeyManager.Ratchet.{Manager, ratcheting_init}

module _ (g : Goldilocks) (c : Gcrypt) (s : Shake) (laws : ShakeLaws s) where
  -- The first ephemeral keys come from the shared secret.
  abbrev pub first_sym : Bytes → Bytes
  first_sym secret = kdf1 s laws ed448_private_bytes 18 secret

  abbrev pub first_dh : Bytes → Bytes
  first_dh secret = kdf1 s laws dh_key_size 19 secret

  abbrev pub first_root : Bytes → Bytes
  first_root secret = kdf1 s laws key_bytes 11 secret

  dh_pair_from :
      (secret : Bytes) (old new : DhKeypair c s) (participant : Participant)
      → keypair_from c s (first_dh secret) ≡ some new
      → dh_keypair_generate_from_shared_secret c s secret old participant
        ≡ some (keep_priv c s participant old new)
  unfolding dh_keypair_generate_from_shared_secret
  dh_pair_from secret old new participant e =
      rw
        (dh_keypair_generate_from_shared_secret, shake_256_kdf1_lem s laws dh_key_size 19 secret, e)
        refl

  -- The state of 'u' and that of 't'.
  abbrev pub started_u : Manager g c s → g.Point → DhKeypair c s → Manager g c s
  started_u m p pair = record m {
    our_ecdh = record { public = p; priv = g.derive_secret_scalar (first_sym m.shared_secret) };
    our_dh = pair;
    i = 0;
    j = 0;
    k = 0;
    pn = 0;
    current = record m.current { root_key = first_root m.shared_secret };
    shared_secret = wiped key_bytes;
  }

  abbrev pub started_t : Manager g c s → g.Point → DhKeypair c s → Manager g c s
  started_t m p pair = record m {
    their_ecdh = p;
    their_dh = pair.public;
    i = 0;
    j = 0;
    k = 0;
    pn = 0;
    current = record m.current { root_key = first_root m.shared_secret };
    shared_secret = wiped key_bytes;
  }

  ratcheting_init-u :
      (m : Manager g c s) (p : g.Point) (pair : DhKeypair c s)
      → ec_point_decode g (g.derive_public_key (first_sym m.shared_secret)) ≡ some p
      → keypair_from c s (first_dh m.shared_secret) ≡ some pair
      → ratcheting_init g c s m participant_u ≡ success (started_u m p pair)
  unfolding ratcheting_init generate_first_ephemeral_keys ecdh_keypair_generate
  ratcheting_init-u m p pair point number =
      rw
        (
          ratcheting_init,
          generate_first_ephemeral_keys,
          shake_256_kdf1_lem s laws ed448_private_bytes 18 m.shared_secret,
          ecdh_keypair_generate,
          point,
          dh_pair_from m.shared_secret (dh_keypair_destroy c s) pair participant_u number,
          shake_256_kdf1_lem s laws key_bytes 11 m.shared_secret,
        )
        refl

  ratcheting_init-t :
      (m : Manager g c s) (p : g.Point) (pair : DhKeypair c s)
      → ec_point_decode g (g.derive_public_key (first_sym m.shared_secret)) ≡ some p
      → keypair_from c s (first_dh m.shared_secret) ≡ some pair
      → ratcheting_init g c s m participant_t ≡ success (started_t m p pair)
  unfolding ratcheting_init generate_first_ephemeral_keys ecdh_keypair_generate_their
  ratcheting_init-t m p pair point number =
      rw
        (
          ratcheting_init,
          generate_first_ephemeral_keys,
          shake_256_kdf1_lem s laws ed448_private_bytes 18 m.shared_secret,
          ecdh_keypair_generate_their,
          point,
          dh_pair_from m.shared_secret (dh_keypair_destroy c s) pair participant_t number,
          shake_256_kdf1_lem s laws key_bytes 11 m.shared_secret,
        )
        refl

  -- After the key exchange both sides start the ratchet with the same root key and ratchet number,
  -- and the public keys that 't' has of 'u' are those of the pairs of 'u'. It holds where the shared
  -- secret is the same and gives a point and a number.
  pub ratcheting_init-agree :
      (a b : Manager g c s) (p : g.Point) (pair : DhKeypair c s)
      → b.shared_secret ≡ a.shared_secret
      → ec_point_decode g (g.derive_public_key (first_sym a.shared_secret)) ≡ some p
      → keypair_from c s (first_dh a.shared_secret) ≡ some pair
      → (a1 : Manager g c s) × (b1 : Manager g c s) × (ratcheting_init g c s a participant_u
          ≡ success a1)
        × (ratcheting_init g c s b participant_t ≡ success b1)
        × (b1.current.root_key ≡ a1.current.root_key)
        × (b1.their_ecdh ≡ a1.our_ecdh.public)
        × (b1.their_dh ≡ a1.our_dh.public)
        × (b1.i ≡ a1.i)
  ratcheting_init-agree a b p pair same point number =
      let point1 : ec_point_decode g (g.derive_public_key (first_sym b.shared_secret)) ≡ some p =
        rw same point in
      let number1 : keypair_from c s (first_dh b.shared_secret) ≡ some pair = rw same number in
      (
        started_u a p pair,
        started_t b p pair,
        ratcheting_init-u a p pair point number,
        ratcheting_init-t b p pair point1 number1,
        ap first_root same,
        refl,
        refl,
        refl,
      )
