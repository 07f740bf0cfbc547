-- ===== src/KeyManager/Hashes.antt =====
-- src/key_management.c: the keys and authenticators that are one hash of the state.
use libotrv.Prelude.{ℕ, Option, some, [], ◌∷◌, Bytes, ◌>>=◌}
use libotrv.Crypto.{Shake}
use libotrv.Smp.Hash.{hash_init_with_usage}
use libotrv.Kdf.{shake_256_kdf1}
use libotrv.KeyManager.State.{key_bytes}

-- `enc_key` and `mac_key` of a message.
pub record MessageKeys : Type 0 where
  pub enc_key : Bytes
  pub mac_key : Bytes

module _ (s : Shake) where
  open s use {update, final}

  -- `otrng_key_manager_calculate_tmp_key`
  unfoldable pub calculate_tmp_key : Bytes → Bytes → Bytes → Bytes → Option Bytes
  calculate_tmp_key ecdh_key brace_key tmp_ecdh_k1 tmp_ecdh_k2 = do
    h0 ← hash_init_with_usage s 12
    h1 ← update h0 ecdh_key
    h2 ← update h1 tmp_ecdh_k1
    h3 ← update h2 tmp_ecdh_k2
    h4 ← update h3 brace_key
    some (final h4 key_bytes)

  unfoldable pub calculate_auth_mac : Bytes → Bytes → Option Bytes
  calculate_auth_mac auth_mac_key t = do
    h0 ← hash_init_with_usage s 17
    h1 ← update h0 auth_mac_key
    h2 ← update h1 t
    some (final h2 key_bytes)

  unfoldable pub calculate_authenticator : Bytes → Bytes → Option Bytes
  calculate_authenticator mac_key sections = do
    h0 ← hash_init_with_usage s 26
    h1 ← update h0 mac_key
    h2 ← update h1 sections
    some (final h2 key_bytes)

  -- The hash of `calculate_shared_secret`, usage 0x03.
  unfoldable pub shared_secret_of : Bytes → Bytes → Option Bytes
  shared_secret_of ecdh_key brace_key = do
    h0 ← hash_init_with_usage s 3
    h1 ← update h0 ecdh_key
    h2 ← update h1 brace_key
    some (final h2 key_bytes)

  -- The hash of two values, as `key_manager_derive_ratchet_keys` computes the root key (usage 0x14)
  -- and the chain key (usage 0x15).
  unfoldable pub hash_two : ℕ → Bytes → Bytes → Option Bytes
  hash_two usage first second = do
    h0 ← hash_init_with_usage s usage
    h1 ← update h0 first
    h2 ← update h1 second
    some (final h2 key_bytes)

  -- The functions below take the chain key that `action` picks.
  unfoldable pub derive_next_chain_key : Bytes → Option Bytes
  derive_next_chain_key chain = shake_256_kdf1 s key_bytes 22 chain

  unfoldable pub derive_encryption_and_mac_keys : Bytes → Option MessageKeys
  derive_encryption_and_mac_keys chain = do
    enc_key ← shake_256_kdf1 s key_bytes 23 chain
    mac_key ← shake_256_kdf1 s key_bytes 24 enc_key
    some (record { enc_key = enc_key; mac_key = mac_key })

  unfoldable pub calculate_extra_key : Bytes → Option Bytes
  calculate_extra_key chain = do
    h0 ← hash_init_with_usage s 25
    h1 ← update h0 (255 ∷ [])
    h2 ← update h1 chain
    some (final h2 key_bytes)
