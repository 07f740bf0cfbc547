-- ===== src/KeyManager/State.antt =====
-- The state of src/key_management.c, its set-up and the temporary ratchet of a received message.
use libotrv.Prelude.{ℕ, Bool, false, Option, none, List, [], replicate, Bytes}
use libotrv.Crypto.{Goldilocks, Shake, Gcrypt}
use libotrv.KeyExchange.{EcdhKeypair, ecdh_keypair_destroy, DhKeypair, dh_keypair_destroy}

-- BRACE_KEY_BYTES, SSID_BYTES, and the 64 bytes of all other keys: HASH_BYTES, ROOT_KEY_BYTES,
-- CHAIN_KEY_BYTES, ENC_KEY_BYTES, MAC_KEY_BYTES and EXTRA_SYMMETRIC_KEY_BYTES.
abbrev pub brace_key_bytes : ℕ
brace_key_bytes = 32

abbrev pub ssid_bytes : ℕ
ssid_bytes = 8

abbrev pub key_bytes : ℕ
key_bytes = 64

-- A buffer after `otrng_secure_wipe`, which is sodium_memzero.
abbrev pub wiped : ℕ → Bytes
wiped n = replicate n 0

-- `ratchet_s`
pub record Ratchet : Type 0 where
  pub root_key : Bytes
  pub chain_s : Bytes
  pub chain_r : Bytes

module _ (g : Goldilocks) where
  -- `skipped_keys_s`; `message` is the counter `k`.
  pub record SkippedKeys : Type 0 where
    pub their_ecdh : g.Point
    pub message : ℕ
    pub extra_symmetric_key : Bytes
    pub enc_key : Bytes

module _ (g : Goldilocks) (c : Gcrypt) where
  -- `receiving_ratchet_s`. A list of keys is the sequence of its elements: that it shares its nodes
  -- with the list of the key manager is not modelled.
  pub record ReceivingRatchet : Type 0 where
    pub our_ecdh_priv : g.Scalar
    pub our_dh_priv : Option c.Mpi
    pub their_ecdh : g.Point
    pub their_dh : Option c.Mpi
    pub brace_key : Bytes
    pub shared_secret : Bytes
    pub i : ℕ
    pub k : ℕ
    pub j : ℕ
    pub pn : ℕ
    pub root_key : Bytes
    pub chain_r : Bytes
    pub extra_symmetric_key : Bytes
    pub skipped_keys : List (SkippedKeys g)

module _ (g : Goldilocks) (c : Gcrypt) (s : Shake) where
  open g use {Point, Scalar, point_destroyed, scalar_destroyed}

  -- `key_manager_s`
  pub record KeyManager : Type 0 where
    pub our_ecdh : EcdhKeypair g
    pub our_dh : DhKeypair c s
    pub our_ecdh_first : EcdhKeypair g
    pub our_dh_first : DhKeypair c s
    pub their_ecdh : Point
    pub their_dh : Option c.Mpi
    pub their_first_ecdh : Point
    pub their_first_dh : Option c.Mpi
    pub our_shared_prekey : Point
    pub their_shared_prekey : Point
    pub i : ℕ
    pub j : ℕ
    pub k : ℕ
    pub pn : ℕ
    pub current : Ratchet
    pub brace_key : Bytes
    pub shared_secret : Bytes
    pub ssid : Bytes
    pub ssid_half_first : Bool
    pub extra_symmetric_key : Bytes
    pub tmp_key : Bytes
    pub skipped_keys : List (SkippedKeys g)
    pub old_mac_keys : List Bytes
    pub last_generated : ℕ

  -- `otrng_key_manager_init`: all other bytes are zero, as a destroyed point or scalar is.
  unfoldable pub key_manager_init : KeyManager
  key_manager_init = record {
    our_ecdh = ecdh_keypair_destroy g;
    our_dh = dh_keypair_destroy c s;
    our_ecdh_first = ecdh_keypair_destroy g;
    our_dh_first = dh_keypair_destroy c s;
    their_ecdh = point_destroyed;
    their_dh = none;
    their_first_ecdh = point_destroyed;
    their_first_dh = none;
    our_shared_prekey = point_destroyed;
    their_shared_prekey = point_destroyed;
    i = 0;
    j = 0;
    k = 0;
    pn = 0;
    current = record {
      root_key = wiped key_bytes;
      chain_s = wiped key_bytes;
      chain_r = wiped key_bytes;
    };
    brace_key = wiped brace_key_bytes;
    shared_secret = wiped key_bytes;
    ssid = wiped ssid_bytes;
    ssid_half_first = false;
    extra_symmetric_key = wiped key_bytes;
    tmp_key = wiped key_bytes;
    skipped_keys = [];
    old_mac_keys = [];
    last_generated = 0;
  }

  unfoldable pub wipe_shared_prekeys : KeyManager → KeyManager
  wipe_shared_prekeys m = record m {
    their_shared_prekey = point_destroyed;
    our_shared_prekey = point_destroyed;
  }

  -- `otrng_receiving_ratchet_new`; the shared secret is that of a fresh zero allocation.
  unfoldable pub receiving_ratchet_new : KeyManager → ReceivingRatchet g c
  receiving_ratchet_new m = record {
    our_ecdh_priv = m.our_ecdh.priv;
    our_dh_priv = none;
    their_ecdh = point_destroyed;
    their_dh = none;
    brace_key = wiped brace_key_bytes;
    shared_secret = wiped key_bytes;
    i = m.i;
    k = m.k;
    j = m.j;
    pn = m.pn;
    root_key = m.current.root_key;
    chain_r = m.current.chain_r;
    extra_symmetric_key = m.extra_symmetric_key;
    skipped_keys = m.skipped_keys;
  }

  unfoldable pub set_their_keys : Point → Option c.Mpi → KeyManager → KeyManager
  set_their_keys their_ecdh their_dh m = record m { their_ecdh = their_ecdh; their_dh = their_dh }

  -- `otrng_receiving_ratchet_copy` of pointers that are not null.
  unfoldable pub receiving_ratchet_copy : KeyManager → ReceivingRatchet g c → KeyManager
  receiving_ratchet_copy dst src =
      let dst1 = record dst { our_ecdh = record dst.our_ecdh { priv = src.our_ecdh_priv } } in
      let dst2 = set_their_keys src.their_ecdh src.their_dh dst1 in
      record dst2 {
        brace_key = src.brace_key;
        shared_secret = src.shared_secret;
        i = src.i;
        j = src.j;
        k = src.k;
        pn = src.pn;
        current = record dst2.current { root_key = src.root_key; chain_r = src.chain_r };
        extra_symmetric_key = src.extra_symmetric_key;
        skipped_keys = src.skipped_keys;
      }

  unfoldable pub set_their_tmp_keys :
      Point → Option c.Mpi → ReceivingRatchet g c → ReceivingRatchet g c
  set_their_tmp_keys their_ecdh their_dh tmp = record tmp {
    their_ecdh = their_ecdh;
    their_dh = their_dh;
  }

  unfoldable pub set_their_ecdh : Point → KeyManager → KeyManager
  set_their_ecdh their_ecdh m = record m { their_ecdh = their_ecdh }

  unfoldable pub set_their_dh : Option c.Mpi → KeyManager → KeyManager
  set_their_dh their_dh m = record m { their_dh = their_dh }

  unfoldable pub set_their_first_ecdh : Point → KeyManager → KeyManager
  set_their_first_ecdh their_first_ecdh m = record m { their_first_ecdh = their_first_ecdh }

  unfoldable pub set_their_first_dh : Option c.Mpi → KeyManager → KeyManager
  set_their_first_dh their_first_dh m = record m { their_first_dh = their_first_dh }
