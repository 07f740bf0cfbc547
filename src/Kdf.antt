-- ===== src/Kdf.antt =====
-- src/shake.c: the key derivation functions over SHAKE-256, and what they compute where the hash
-- takes every input. The context that a function starts is in Smp/Hash.antt.
pub mod Tests
use libotrv.Prelude.{ℕ, ◌-◌, ◌≡◌, refl, Option, some, [], ◌∷◌, length, Bytes, ◌>>=◌, ◌>>◌}
use libotrv.Crypto.{Shake}
use libotrv.Smp.Hash.{hash_init_with_dom, hash_init_with_usage}

module _ (s : Shake) where
  open s use {Context, init, update, final}

  unfoldable pub hash_init_with_usage_and_domain_separation : ℕ → Bytes → Option Context
  hash_init_with_usage_and_domain_separation usage domain = do
    hd ← update init domain
    update hd (usage ∷ [])

  -- The domain is the text "OTR-Prekey-Server".
  unfoldable pub hash_init_with_usage_prekey_server : ℕ → Option Context
  hash_init_with_usage_prekey_server usage = hash_init_with_usage_and_domain_separation usage (
      79 ∷ 84 ∷ 82 ∷ 45 ∷ 80 ∷ 114 ∷ 101 ∷ 107 ∷ 101 ∷ 121 ∷ 45 ∷ 83 ∷ 101 ∷ 114 ∷ 118 ∷ 101 ∷ 114
      ∷ [])

  -- The functions return what they write to `dst`.
  unfoldable pub shake_kkdf : ℕ → Bytes → Bytes → Option Bytes
  shake_kkdf dst_len key secret = do
    h0 ← hash_init_with_dom s
    h1 ← update h0 key
    h2 ← update h1 secret
    some (final h2 dst_len)

  unfoldable pub shake_256_kdf1 : ℕ → ℕ → Bytes → Option Bytes
  shake_256_kdf1 dst_len usage values = do
    h0 ← hash_init_with_usage s usage
    h1 ← update h0 values
    some (final h1 dst_len)

  unfoldable pub shake_256_prekey_server_kdf : ℕ → ℕ → Bytes → Option Bytes
  shake_256_prekey_server_kdf dst_len usage values = do
    h0 ← hash_init_with_usage_prekey_server usage
    h1 ← update h0 values
    some (final h1 dst_len)

  unfoldable pub shake_256_hash : ℕ → Bytes → Option Bytes
  shake_256_hash dst_len secret = do
    h0 ← hash_init_with_dom s
    h1 ← update h0 secret
    some (final h1 dst_len)

-- goldilocks_shake256_update fails only on a context that gave output before, and a context of the
-- model never did.
pub record ShakeLaws (s : Shake) : Type 0 where
  pub absorb : s.Context → Bytes → s.Context
  pub update-absorb : (c : s.Context) (b : Bytes) → s.update c b ≡ some (absorb c b)
  pub length-final : (c : s.Context) (n : ℕ) → length (s.final c n) ≡ n

module _ (s : Shake) (laws : ShakeLaws s) where
  open s use {Context, init, update, final}
  open laws use {absorb, update-absorb, length-final}

  -- The context that `hash_init_with_usage` starts, as a value.
  abbrev pub usage_context : ℕ → Context
  usage_context usage = absorb (absorb init (79 ∷ 84 ∷ 82 ∷ 118 ∷ 52 ∷ [])) (usage ∷ [])

  -- `shake_256_kdf1`, as a value.
  unfoldable pub kdf1 : ℕ → ℕ → Bytes → Bytes
  kdf1 dst_len usage values = final (absorb (usage_context usage) values) dst_len

  pub hash_init_with_usage_lem :
      (usage : ℕ) → hash_init_with_usage s usage ≡ some (usage_context usage)
  unfolding hash_init_with_usage hash_init_with_dom
  hash_init_with_usage_lem usage = rw (update-absorb, update-absorb) refl

  pub shake_256_kdf1_lem :
      (n usage : ℕ) (values : Bytes) → shake_256_kdf1 s n usage values ≡ some (kdf1 n usage values)
  unfolding shake_256_kdf1 kdf1
  shake_256_kdf1_lem n usage values = rw (hash_init_with_usage_lem usage, update-absorb) refl

  pub length-kdf1 : (n usage : ℕ) (values : Bytes) → length (kdf1 n usage values) ≡ n
  unfolding kdf1
  length-kdf1 n usage values = length-final (absorb (usage_context usage) values) n
