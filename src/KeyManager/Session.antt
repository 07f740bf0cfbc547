-- ===== src/KeyManager/Session.antt =====
-- src/key_management.c, `otrng_key_manager_generate_shared_secret`: both sides of an interactive key
-- exchange get the same secret and session identifier, and different halves of it to show.
use libotrv.KeyExchange.Agreement.{
  ExchangeLaws, IsEcdhPair, ecdh_shared_secret_comm, dh_shared_secret_comm,
}
use libotrv.KeyManager.Agreement.{IsDhPair}
use libotrv.Prelude.{◌%◌, ◌≡◌, refl, ap, ◌∙◌, ◌≢◌, true, not, some, ◌==◌, Bytes}
use libotrv.Crypto.{Goldilocks, Shake, Gcrypt, point_bytes}
use libotrv.Kdf.{ShakeLaws, kdf1, shake_256_kdf1_lem}
use libotrv.Run.{success}
use libotrv.KeyExchange.{
  ecdh_shared_secret, dh_calculate_public_key, dh_priv_key_destroy, dh_shared_secret,
}
use libotrv.KeyManager.State.{brace_key_bytes, ssid_bytes, wiped}
use libotrv.KeyManager.Ratchet.{
  Manager, calculate_brace_key_s, calculate_shared_secret_s, calculate_ssid, interactive_secret,
  generate_shared_secret,
}
use libotrv.KeyManager.Schedule.{shared_secret_of_lem}
use libotrv.KeyManager.Rotation.{mixed, next_brace_key-third}

module _ (g : Goldilocks) (c : Gcrypt) (s : Shake) (laws : ShakeLaws s) where
  abbrev pub ssid_of : Bytes → Bytes
  ssid_of secret = kdf1 s laws ssid_bytes 4 secret

  -- The state that the exchange leaves.
  abbrev pub exchanged : Manager g c s → Bytes → c.Mpi → c.Mpi → Manager g c s
  exchanged m secret ours theirs = record m {
    our_ecdh = record m.our_ecdh { priv = g.scalar_destroyed };
    our_dh = dh_priv_key_destroy c s m.our_dh;
    brace_key = wiped brace_key_bytes;
    shared_secret = secret;
    ssid = ssid_of secret;
    ssid_half_first = not (c.greater ours theirs);
  }

  generate_shared_secret_lem :
      (m : Manager g c s) (ecdh_key secret : Bytes) (priv ours theirs : c.Mpi)
      → ecdh_shared_secret g point_bytes m.our_ecdh.priv m.their_ecdh ≡ some ecdh_key
      → m.i % 3 == 0 ≡ true
      → m.our_dh.priv ≡ some priv
      → m.our_dh.public ≡ some ours
      → m.their_dh ≡ some theirs
      → dh_shared_secret c s priv theirs ≡ some secret
      → generate_shared_secret g c s m true
        ≡ success (
            exchanged m
              (mixed g c s laws ecdh_key (kdf1 s laws brace_key_bytes 1 secret))
              ours
              theirs)
  unfolding generate_shared_secret interactive_secret calculate_brace_key_s
      calculate_shared_secret_s calculate_ssid dh_priv_key_destroy
  generate_shared_secret_lem m ecdh_key secret priv ours theirs ecdh third p o t dh =
      let m1 : Manager g c s = record m {
        our_ecdh = record m.our_ecdh { priv = g.scalar_destroyed };
      } in
      let brace_key = kdf1 s laws brace_key_bytes 1 secret in
      rw
        (
          generate_shared_secret,
          interactive_secret,
          ecdh,
          calculate_brace_key_s,
          next_brace_key-third g c s laws m1 m.their_dh priv theirs secret third p t dh,
          calculate_shared_secret_s,
          shared_secret_of_lem s laws ecdh_key brace_key,
          calculate_ssid,
          shake_256_kdf1_lem s laws ssid_bytes 4 (mixed g c s laws ecdh_key brace_key),
          o,
          t,
        )
        refl

module _ (g : Goldilocks) (c : Gcrypt) (s : Shake) (laws : ShakeLaws s)
    (xl : ExchangeLaws g c) where
  -- The two sides know each other's public keys, before the first ratchet.
  pub record HaveMet (x y : Bytes) (dx dy : c.Mpi) (a b : Manager g c s) : Type 0 where
    pub our_pair : IsEcdhPair g c s xl x a.our_ecdh
    pub their_pair : IsEcdhPair g c s xl y b.our_ecdh
    pub our_dh_pair : IsDhPair g c s laws xl dx a.our_dh
    pub their_dh_pair : IsDhPair g c s laws xl dy b.our_dh
    pub their_point : a.their_ecdh ≡ b.our_ecdh.public
    pub our_point : b.their_ecdh ≡ a.our_ecdh.public
    pub their_number : a.their_dh ≡ b.our_dh.public
    pub our_number : b.their_dh ≡ a.our_dh.public
    pub our_start : a.i % 3 == 0 ≡ true
    pub their_start : b.i % 3 == 0 ≡ true

  -- Both sides of an interactive key exchange get the same shared secret and session identifier, and
  -- exactly one of them is to show its first half. It holds where the two have met, the curve secret
  -- is valid, the Diffie-Hellman secret fits its buffer and the two public numbers differ.
  pub generate_shared_secret-agree :
      (x y : Bytes) (dx dy : c.Mpi) (a b : Manager g c s) (ecdh_key secret : Bytes)
      → HaveMet x y dx dy a b
      → ecdh_shared_secret g point_bytes a.our_ecdh.priv b.our_ecdh.public ≡ some ecdh_key
      → dh_shared_secret c s dx (dh_calculate_public_key c s dy) ≡ some secret
      → dh_calculate_public_key c s dx ≢ dh_calculate_public_key c s dy
      → (a1 : Manager g c s) × (b1 : Manager g c s) × (generate_shared_secret g c s a true
          ≡ success a1)
        × (generate_shared_secret g c s b true ≡ success b1)
        × (a1.shared_secret ≡ b1.shared_secret)
        × (a1.ssid ≡ b1.ssid)
        × (a1.ssid_half_first ≡ not b1.ssid_half_first)
  generate_shared_secret-agree x y dx dy a b ecdh_key secret h ecdh dh differ =
      let ours = dh_calculate_public_key c s dx in
      let theirs = dh_calculate_public_key c s dy in
      let key = mixed g c s laws ecdh_key (kdf1 s laws brace_key_bytes 1 secret) in
      let mine : ecdh_shared_secret g point_bytes a.our_ecdh.priv a.their_ecdh ≡ some ecdh_key =
        rw h.their_point ecdh in
      let other : ecdh_shared_secret g point_bytes b.our_ecdh.priv b.their_ecdh ≡ some ecdh_key =
        rw h.our_point (
          ecdh_shared_secret_comm g c s xl point_bytes y x b.our_ecdh a.our_ecdh h.their_pair
            h.our_pair
          ∙ ecdh) in
      (
        exchanged g c s laws a key ours theirs,
        exchanged g c s laws b key theirs ours,
        generate_shared_secret_lem g c s laws a ecdh_key secret dx ours theirs mine h.our_start
            h.our_dh_pair.known h.our_dh_pair.made (h.their_number ∙ h.their_dh_pair.made) dh,
        generate_shared_secret_lem g c s laws b ecdh_key secret dy theirs ours other h.their_start
            h.their_dh_pair.known h.their_dh_pair.made (h.our_number ∙ h.our_dh_pair.made)
            (dh_shared_secret_comm g c s xl dy dx ∙ dh),
        refl,
        refl,
        ap not (xl.greater-swap ours theirs differ),
      )
