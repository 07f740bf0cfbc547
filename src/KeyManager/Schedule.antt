-- ===== src/KeyManager/Schedule.antt =====
-- What the hashes of src/key_management.c compute where the hash takes every input, and the schedule
-- of the keys of one chain.
use libotrv.Prelude.{
  ℕ, zero, suc, ◌+◌, ◌≡◌, refl, sym, ap, ◌∙◌, some, List, [], ◌∷◌, ◌++◌, map, append-nil,
  append_assoc, arith, Bytes,
}
use libotrv.Crypto.{Goldilocks, Shake, Gcrypt}
use libotrv.Kdf.{ShakeLaws, usage_context, kdf1, hash_init_with_usage_lem, shake_256_kdf1_lem}
use libotrv.KeyManager.State.{key_bytes, SkippedKeys}
use libotrv.KeyManager.Hashes.{
  MessageKeys, shared_secret_of, hash_two, derive_next_chain_key, derive_encryption_and_mac_keys,
  calculate_extra_key,
}
use libotrv.KeyManager.Ratchet.{Receiving}
use libotrv.KeyManager.Chain.{store_enc_key, store_rounds}

-- The numbers from `k` on, `n` of them.
unfoldable pub numbers : ℕ → ℕ → List ℕ
numbers zero k = []
numbers (suc n) k = k ∷ numbers n (k + 1)

module _ (s : Shake) (laws : ShakeLaws s) where
  open s use {final}
  open laws use {absorb, update-absorb}

  -- The hash of two values with a usage, as a value.
  abbrev pub two_hashed : ℕ → Bytes → Bytes → Bytes
  two_hashed usage first second =
      final (absorb (absorb (usage_context s laws usage) first) second) key_bytes

  abbrev pub next_chain : Bytes → Bytes
  next_chain chain = kdf1 s laws key_bytes 22 chain

  abbrev pub enc_key_of : Bytes → Bytes
  enc_key_of chain = kdf1 s laws key_bytes 23 chain

  abbrev pub keys_of : Bytes → MessageKeys
  keys_of chain = record {
    enc_key = enc_key_of chain;
    mac_key = kdf1 s laws key_bytes 24 (enc_key_of chain);
  }

  abbrev pub extra_key_of : Bytes → Bytes
  extra_key_of chain = two_hashed 25 (255 ∷ []) chain

  -- The chain key after `n` messages.
  unfoldable pub chain_at : ℕ → Bytes → Bytes
  chain_at zero chain = chain
  chain_at (suc n) chain = chain_at n (next_chain chain)

  pub chain_at-add :
      (m n : ℕ) (chain : Bytes) → chain_at m (chain_at n chain) ≡ chain_at (n + m) chain
  unfolding chain_at
  chain_at-add m zero chain = let z : 0 + m ≡ m = omega arith in rw z refl
  chain_at-add m (suc n) chain =
      let z : suc (n + m) ≡ suc n + m = omega arith in
      chain_at-add m n (next_chain chain) ∙ ap (λ x. chain_at x chain) z

  pub chain_at-suc :
      (n : ℕ) (chain : Bytes) → chain_at (n + 1) chain ≡ next_chain (chain_at n chain)
  unfolding chain_at
  chain_at-suc n chain = sym (chain_at-add 1 n chain)

  pub hash_two_lem : (usage : ℕ) (a b : Bytes) → hash_two s usage a b ≡ some (two_hashed usage a b)
  unfolding hash_two
  hash_two_lem usage a b =
      rw (hash_init_with_usage_lem s laws usage, update-absorb, update-absorb) refl

  pub shared_secret_of_lem :
      (ecdh_key brace_key : Bytes)
      → shared_secret_of s ecdh_key brace_key ≡ some (two_hashed 3 ecdh_key brace_key)
  unfolding shared_secret_of
  shared_secret_of_lem ecdh_key brace_key =
      rw (hash_init_with_usage_lem s laws 3, update-absorb, update-absorb) refl

  pub calculate_extra_key_lem :
      (chain : Bytes) → calculate_extra_key s chain ≡ some (extra_key_of chain)
  unfolding calculate_extra_key
  calculate_extra_key_lem chain =
      rw (hash_init_with_usage_lem s laws 25, update-absorb, update-absorb) refl

  pub derive_keys_lem :
      (chain : Bytes) → derive_encryption_and_mac_keys s chain ≡ some (keys_of chain)
  unfolding derive_encryption_and_mac_keys
  derive_keys_lem chain =
      rw
        (
          shake_256_kdf1_lem s laws key_bytes 23 chain,
          shake_256_kdf1_lem s laws key_bytes 24 (enc_key_of chain),
        )
        refl

  pub derive_next_chain_key_lem :
      (chain : Bytes) → derive_next_chain_key s chain ≡ some (next_chain chain)
  unfolding derive_next_chain_key
  derive_next_chain_key_lem chain = shake_256_kdf1_lem s laws key_bytes 22 chain

module _ (g : Goldilocks) (c : Gcrypt) (s : Shake) (laws : ShakeLaws s) where
  -- What is stored for message `n` of the chain that starts with `chain`.
  abbrev pub skipped_entry : g.Point → Bytes → ℕ → SkippedKeys g
  skipped_entry their_ecdh chain n = record {
    their_ecdh = their_ecdh;
    message = n;
    extra_symmetric_key = extra_key_of s laws (chain_at s laws n chain);
    enc_key = enc_key_of s laws (chain_at s laws n chain);
  }

  store_enc_key_lem :
      (their_ecdh : g.Point) (chain : Bytes) (tmp : Receiving g c s)
      → tmp.chain_r ≡ chain_at s laws tmp.k chain
      → store_enc_key g c s their_ecdh tmp
        ≡ some (record tmp {
          chain_r = chain_at s laws (tmp.k + 1) chain;
          skipped_keys = tmp.skipped_keys ++ (skipped_entry their_ecdh chain tmp.k ∷ []);
          k = tmp.k + 1;
        })
  unfolding store_enc_key
  store_enc_key_lem their_ecdh chain tmp e =
      rw
        (
          store_enc_key,
          shake_256_kdf1_lem s laws key_bytes 23 tmp.chain_r,
          calculate_extra_key_lem s laws tmp.chain_r,
          shake_256_kdf1_lem s laws key_bytes 22 tmp.chain_r,
          e,
          chain_at-suc s laws tmp.k chain,
        )
        refl

  -- The rounds store exactly the keys of the messages from `k` on.
  pub store_rounds_lem :
      (n : ℕ) (their_ecdh : g.Point) (chain : Bytes) (tmp : Receiving g c s)
      → tmp.chain_r ≡ chain_at s laws tmp.k chain
      → store_rounds g c s n their_ecdh tmp
        ≡ some (record tmp {
          chain_r = chain_at s laws (tmp.k + n) chain;
          skipped_keys = tmp.skipped_keys ++ map (skipped_entry their_ecdh chain) (numbers n tmp.k);
          k = tmp.k + n;
        })
  unfolding store_rounds numbers
  store_rounds_lem zero their_ecdh chain tmp e =
      let z : tmp.k + 0 ≡ tmp.k = omega arith in rw (z, append-nil tmp.skipped_keys, sym e) refl
  store_rounds_lem (suc n) their_ecdh chain tmp e =
      let a : (tmp.k + 1) + n ≡ tmp.k + suc n = omega arith in
      rw
        (
          store_rounds,
          store_enc_key_lem their_ecdh chain tmp e,
          store_rounds_lem n their_ecdh chain
              (record tmp {
                chain_r = chain_at s laws (tmp.k + 1) chain;
                skipped_keys = tmp.skipped_keys ++ (skipped_entry their_ecdh chain tmp.k ∷ []);
                k = tmp.k + 1;
              })
              refl,
          append_assoc tmp.skipped_keys (skipped_entry their_ecdh chain tmp.k ∷ [])
              (map (skipped_entry their_ecdh chain) (numbers n (tmp.k + 1))),
          a,
        )
        refl
