-- ===== src/KeyManager/Ratchet.antt =====
-- src/key_management.c: the Diffie-Hellman ratchet. `action` is 's' or 'r' in the text of every
-- call; a function that branches on it is two, with the endings _s and _r.
use libotrv.Prelude.{ℕ, ◌+◌, ◌%◌, ◌^◌, Bool, not, Option, ◌++◌, ◌==◌, if◌then◌else◌, drop, Bytes}
use libotrv.Crypto.{Goldilocks, Shake, Gcrypt, point_bytes}
use libotrv.Kdf.{shake_256_kdf1}
use libotrv.Run.{Run, success, ◌>>=◌, attempt, not_null}
use libotrv.KeyExchange.{Participant, ecdh_shared_secret, dh_priv_key_destroy, dh_shared_secret}
use libotrv.KeyManager.State.{
  brace_key_bytes, ssid_bytes, key_bytes, wiped, ReceivingRatchet, KeyManager,
}
use libotrv.KeyManager.Hashes.{shared_secret_of, hash_two}
use libotrv.KeyManager.Ephemeral.{Chance, generate_ephemeral_keys, generate_first_ephemeral_keys}

module _ (g : Goldilocks) (c : Gcrypt) (s : Shake) where
  abbrev pub Manager : Type 0
  Manager = KeyManager g c s

  abbrev pub Receiving : Type 0
  Receiving = ReceivingRatchet g c

  -- The brace key from a Diffie-Hellman secret, or from the brace key before it.
  unfoldable pub third_brace_key : Manager → Option c.Mpi → Run Manager Bytes
  third_brace_key m their_dh = do
    priv ← not_null m.our_dh.priv
    their ← not_null their_dh
    k_dh ← attempt m (dh_shared_secret c s priv their)
    attempt m (shake_256_kdf1 s brace_key_bytes 1 k_dh)

  unfoldable pub next_brace_key : Manager → Option c.Mpi → Run Manager Bytes
  next_brace_key m their_dh =
      if m.i % 3 == 0
      then third_brace_key m their_dh
      else attempt m (shake_256_kdf1 s brace_key_bytes 2 m.brace_key)

  unfoldable pub calculate_brace_key_s : Manager → Run Manager Manager
  calculate_brace_key_s m = do
    brace_key ← next_brace_key m m.their_dh
    success (record m { brace_key = brace_key })

  -- An error of a receiving function leaves the key manager; its caller drops the ratchet.
  unfoldable pub calculate_brace_key_r : Manager → Receiving → Run Manager Receiving
  calculate_brace_key_r m tmp = do
    brace_key ← next_brace_key m tmp.their_dh
    success (record tmp { brace_key = brace_key })

  unfoldable pub calculate_shared_secret_s : Manager → Bytes → Run Manager Manager
  calculate_shared_secret_s m ecdh_key = do
    secret ← attempt m (shared_secret_of s ecdh_key m.brace_key)
    success (record m { shared_secret = secret; brace_key = wiped brace_key_bytes })

  unfoldable pub calculate_shared_secret_r : Manager → Receiving → Bytes → Run Manager Receiving
  calculate_shared_secret_r m tmp ecdh_key = do
    secret ← attempt m (shared_secret_of s ecdh_key tmp.brace_key)
    success (record tmp { shared_secret = secret; brace_key = wiped brace_key_bytes })

  -- Where the second hash fails, the new root key is in place already.
  unfoldable pub derive_ratchet_keys_s : Manager → Run Manager Manager
  derive_ratchet_keys_s m = do
    root ← attempt m (hash_two s 20 m.current.root_key m.shared_secret)
    let m1 = record m { current = record m.current { root_key = root } }
    chain ← attempt m1 (hash_two s 21 m1.current.root_key m1.shared_secret)
    success (record m1 {
      current = record m1.current { chain_s = chain };
      shared_secret = wiped key_bytes;
    })

  unfoldable pub derive_ratchet_keys_r : Manager → Receiving → Run Manager Receiving
  derive_ratchet_keys_r m tmp = do
    root ← attempt m (hash_two s 20 tmp.root_key tmp.shared_secret)
    chain ← attempt m (hash_two s 21 root tmp.shared_secret)
    success (record tmp { root_key = root; chain_r = chain; shared_secret = wiped key_bytes })

  unfoldable pub enter_new_ratchet_s : Manager → Run Manager Manager
  enter_new_ratchet_s m = do
    ecdh_key ← attempt m (ecdh_shared_secret g point_bytes m.our_ecdh.priv m.their_ecdh)
    m1 ← calculate_brace_key_s m
    m2 ← calculate_shared_secret_s m1 ecdh_key
    derive_ratchet_keys_s m2

  unfoldable pub enter_new_ratchet_r : Manager → Receiving → Run Manager Receiving
  enter_new_ratchet_r m tmp = do
    ecdh_key ← attempt m (ecdh_shared_secret g point_bytes m.our_ecdh.priv tmp.their_ecdh)
    tmp1 ← calculate_brace_key_r m tmp
    tmp2 ← calculate_shared_secret_r m tmp1 ecdh_key
    derive_ratchet_keys_r m tmp2

  unfoldable pub rotate_keys_s : Chance → Manager → Run Manager Manager
  rotate_keys_s chance m = do
    m1 ← generate_ephemeral_keys g c s chance m
    m2 ← enter_new_ratchet_s (record m1 { last_generated = chance.later })
    success (record m2 { i = (m2.i + 1) % 2 ^ 32 })

  -- `otrng_dh_priv_key_destroy` is of the key manager's own pair.
  abbrev pub forget_dh_priv : ℕ → Manager → Manager
  forget_dh_priv i m =
      if i % 3 == 0 then record m { our_dh = dh_priv_key_destroy c s m.our_dh } else m

  unfoldable pub rotate_keys_r : Manager → Receiving → Run Manager (Manager × Receiving)
  rotate_keys_r m tmp = do
    tmp1 ← enter_new_ratchet_r m tmp
    success (
      forget_dh_priv tmp1.i m,
      record tmp1 {
        our_ecdh_priv = g.scalar_destroyed;
        pn = tmp1.j;
        j = 0;
        k = 0;
        i = (tmp1.i + 1) % 2 ^ 32;
      },
    )

  unfoldable pub calculate_ssid : Manager → Run Manager Manager
  calculate_ssid m = do
    ssid ← attempt m (shake_256_kdf1 s ssid_bytes 4 m.shared_secret)
    success (record m { ssid = ssid })

  -- The secret of an interactive key exchange.
  unfoldable pub interactive_secret : Manager → Run Manager Manager
  interactive_secret m = do
    ecdh_key ← attempt m (ecdh_shared_secret g point_bytes m.our_ecdh.priv m.their_ecdh)
    m2 ←
        calculate_brace_key_s
          (record m { our_ecdh = record m.our_ecdh { priv = g.scalar_destroyed } })
    calculate_shared_secret_s (record m2 { our_dh = dh_priv_key_destroy c s m2.our_dh }) ecdh_key

  -- Of `tmp_key` the first BRACE_KEY_BYTES bytes are wiped.
  abbrev pub forget_tmp : Manager → Manager
  forget_tmp m = record m {
    tmp_key = wiped brace_key_bytes ++ drop brace_key_bytes m.tmp_key;
    brace_key = wiped brace_key_bytes;
  }

  unfoldable pub non_interactive_secret : Manager → Run Manager Manager
  non_interactive_secret m = do
    secret ← attempt (forget_tmp m) (shake_256_kdf1 s key_bytes 3 m.tmp_key)
    success (forget_tmp (record m { shared_secret = secret }))

  unfoldable pub generate_shared_secret : Manager → Bool → Run Manager Manager
  generate_shared_secret m interactive = do
    m1 ← if interactive then interactive_secret m else non_interactive_secret m
    m2 ← calculate_ssid m1
    ours ← not_null m2.our_dh.public
    theirs ← not_null m2.their_dh
    success (record m2 { ssid_half_first = not (c.greater ours theirs) })

  unfoldable pub ratcheting_init : Manager → Participant → Run Manager Manager
  ratcheting_init m participant = do
    m1 ← generate_first_ephemeral_keys g c s m participant
    let m2 = record m1 { i = 0; j = 0; k = 0; pn = 0 }
    root ← attempt m2 (shake_256_kdf1 s key_bytes 11 m2.shared_secret)
    success (record m2 {
      current = record m2.current { root_key = root };
      shared_secret = wiped key_bytes;
    })
