-- ===== src/KeyManager/Rotation.antt =====
-- src/key_management.c: both sides of a Diffie-Hellman rotation get the same root and chain keys.
use libotrv.Prelude.{◌%◌, ◌≡◌, refl, true, false, Option, some, ◌==◌, Bytes}
use libotrv.Crypto.{Goldilocks, Shake, Gcrypt, point_bytes}
use libotrv.Kdf.{ShakeLaws, kdf1, shake_256_kdf1_lem}
use libotrv.Run.{success}
use libotrv.KeyExchange.{ecdh_shared_secret, dh_shared_secret}
use libotrv.KeyManager.State.{brace_key_bytes, key_bytes, wiped}
use libotrv.KeyManager.Ratchet.{
  Manager, Receiving, third_brace_key, next_brace_key, calculate_brace_key_s, calculate_brace_key_r,
  calculate_shared_secret_s, calculate_shared_secret_r, derive_ratchet_keys_s,
  derive_ratchet_keys_r, enter_new_ratchet_s, enter_new_ratchet_r,
}
use libotrv.KeyManager.Schedule.{two_hashed, hash_two_lem, shared_secret_of_lem}

module _ (g : Goldilocks) (c : Gcrypt) (s : Shake) (laws : ShakeLaws s) where
  -- The keys that a rotation derives: K, the root key and the chain key.
  abbrev pub mixed : Bytes → Bytes → Bytes
  mixed ecdh_key brace_key = two_hashed s laws 3 ecdh_key brace_key

  abbrev pub new_root : Bytes → Bytes → Bytes
  new_root root secret = two_hashed s laws 20 root secret

  abbrev pub new_chain : Bytes → Bytes → Bytes
  new_chain root secret = two_hashed s laws 21 (new_root root secret) secret

  -- The sending side. All secrets that the rotation used are wiped.
  pub enter_new_ratchet_s_lem :
      (m : Manager g c s) (ecdh_key brace_key : Bytes)
      → ecdh_shared_secret g point_bytes m.our_ecdh.priv m.their_ecdh ≡ some ecdh_key
      → next_brace_key g c s m m.their_dh ≡ success brace_key
      → enter_new_ratchet_s g c s m
        ≡ success (record m {
          current = record m.current {
            root_key = new_root m.current.root_key (mixed ecdh_key brace_key);
            chain_s = new_chain m.current.root_key (mixed ecdh_key brace_key);
          };
          shared_secret = wiped key_bytes;
          brace_key = wiped brace_key_bytes;
        })
  unfolding enter_new_ratchet_s calculate_brace_key_s calculate_shared_secret_s
      derive_ratchet_keys_s
  enter_new_ratchet_s_lem m ecdh_key brace_key ecdh brace =
      rw
        (
          enter_new_ratchet_s,
          ecdh,
          calculate_brace_key_s,
          brace,
          calculate_shared_secret_s,
          shared_secret_of_lem s laws ecdh_key brace_key,
          derive_ratchet_keys_s,
          hash_two_lem s laws 20 m.current.root_key (mixed ecdh_key brace_key),
          hash_two_lem s laws 21 (new_root m.current.root_key (mixed ecdh_key brace_key))
              (mixed ecdh_key brace_key),
        )
        refl

  -- The receiving side.
  pub enter_new_ratchet_r_lem :
      (m : Manager g c s) (tmp : Receiving g c s) (ecdh_key brace_key : Bytes)
      → ecdh_shared_secret g point_bytes m.our_ecdh.priv tmp.their_ecdh ≡ some ecdh_key
      → next_brace_key g c s m tmp.their_dh ≡ success brace_key
      → enter_new_ratchet_r g c s m tmp
        ≡ success (record tmp {
          root_key = new_root tmp.root_key (mixed ecdh_key brace_key);
          chain_r = new_chain tmp.root_key (mixed ecdh_key brace_key);
          shared_secret = wiped key_bytes;
          brace_key = wiped brace_key_bytes;
        })
  unfolding enter_new_ratchet_r calculate_brace_key_r calculate_shared_secret_r
      derive_ratchet_keys_r
  enter_new_ratchet_r_lem m tmp ecdh_key brace_key ecdh brace =
      rw
        (
          enter_new_ratchet_r,
          ecdh,
          calculate_brace_key_r,
          brace,
          calculate_shared_secret_r,
          shared_secret_of_lem s laws ecdh_key brace_key,
          derive_ratchet_keys_r,
          hash_two_lem s laws 20 tmp.root_key (mixed ecdh_key brace_key),
          hash_two_lem s laws 21 (new_root tmp.root_key (mixed ecdh_key brace_key))
              (mixed ecdh_key brace_key),
        )
        refl

  -- The brace key of a ratchet whose number is not a multiple of three.
  pub next_brace_key-later :
      (m : Manager g c s) (their_dh : Option c.Mpi)
      → m.i % 3 == 0 ≡ false
      → next_brace_key g c s m their_dh ≡ success (kdf1 s laws brace_key_bytes 2 m.brace_key)
  unfolding next_brace_key
  next_brace_key-later m their_dh later =
      rw (later, shake_256_kdf1_lem s laws brace_key_bytes 2 m.brace_key) refl

  -- The brace key of one whose number is.
  pub next_brace_key-third :
      (m : Manager g c s) (their_dh : Option c.Mpi) (priv their : c.Mpi) (secret : Bytes)
      → m.i % 3 == 0 ≡ true
      → m.our_dh.priv ≡ some priv
      → their_dh ≡ some their
      → dh_shared_secret c s priv their ≡ some secret
      → next_brace_key g c s m their_dh ≡ success (kdf1 s laws brace_key_bytes 1 secret)
  unfolding next_brace_key third_brace_key
  next_brace_key-third m their_dh priv their secret third ours theirs e =
      rw
        (
          third,
          third_brace_key,
          ours,
          theirs,
          e,
          shake_256_kdf1_lem s laws brace_key_bytes 1 secret,
        )
        refl
