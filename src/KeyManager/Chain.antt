-- ===== src/KeyManager/Chain.antt =====
-- src/key_management.c: the chains of message keys, the keys of skipped messages, and the MAC keys
-- that are revealed.
use libotrv.Prelude.{
  ℕ, zero, suc, ◌+◌, ◌-◌, ◌%◌, ◌^◌, ◌&&◌, Option, none, some, List, [], ◌∷◌, ◌++◌, ltb, ◌==◌,
  if◌then◌else◌, take, Bytes,
}
use libotrv.Crypto.{Goldilocks, Shake, Gcrypt}
use libotrv.Kdf.{shake_256_kdf1}
use libotrv.Run.{Run, success, ◌>>=◌, attempt}
use libotrv.KeyExchange.{is_empty_array}
use libotrv.KeyManager.State.{key_bytes, SkippedKeys}
use libotrv.KeyManager.Hashes.{
  MessageKeys, derive_next_chain_key, derive_encryption_and_mac_keys, calculate_extra_key,
}
use libotrv.KeyManager.Ephemeral.{Chance}
use libotrv.KeyManager.Ratchet.{Manager, Receiving, rotate_keys_s, rotate_keys_r}

module _ (g : Goldilocks) (c : Gcrypt) (s : Shake) where
  -- One round of the loop of `store_enc_keys`; `their_ecdh` is the point that `ratchet_type` picks.
  unfoldable pub store_enc_key : g.Point → Receiving g c s → Option (Receiving g c s)
  store_enc_key their_ecdh tmp = elim (shake_256_kdf1 s key_bytes 23 tmp.chain_r) [
    | none ↦ none
    | some enc_key ↦ elim (calculate_extra_key s tmp.chain_r) [
      | none ↦ none
      | some extra_key ↦ elim (shake_256_kdf1 s key_bytes 22 tmp.chain_r) [
        | none ↦ none
        | some chain ↦ some (record tmp {
          chain_r = chain;
          skipped_keys =
              tmp.skipped_keys
              ++ (record {
                their_ecdh = their_ecdh;
                message = tmp.k;
                extra_symmetric_key = extra_key;
                enc_key = enc_key;
              }
                  ∷ []);
          k = tmp.k + 1;
        })
      ]
    ]
  ]

  -- The loop, which runs `until - k` times where `k < until`, and not at all otherwise.
  unfoldable pub store_rounds : ℕ → g.Point → Receiving g c s → Option (Receiving g c s)
  store_rounds zero their_ecdh tmp = some tmp
  store_rounds (suc n) their_ecdh tmp = elim (store_enc_key their_ecdh tmp) [
    | none ↦ none
    | some tmp1 ↦ store_rounds n their_ecdh tmp1
  ]

  -- The counters are 32-bit: the sum wraps. Where the store is full nothing is stored, and the
  -- result is a success; the event for that is not modelled.
  unfoldable pub store_enc_keys : Receiving g c s → ℕ → ℕ → g.Point → Option (Receiving g c s)
  store_enc_keys tmp until max_skip their_ecdh =
      if ltb ((tmp.k + max_skip) % 2 ^ 32) until
      then some tmp
      else if is_empty_array tmp.chain_r
      then some tmp
      else store_rounds (until - tmp.k) their_ecdh tmp

  -- The first stored key of a message, and the list without it.
  abbrev pub cons_rest :
      SkippedKeys g
      → Option (SkippedKeys g × List (SkippedKeys g))
      → Option (SkippedKeys g × List (SkippedKeys g))
  cons_rest x none = none
  cons_rest x (some (found, rest)) = some (found, x ∷ rest)

  unfoldable pub take_skipped :
      g.Point → ℕ → List (SkippedKeys g) → Option (SkippedKeys g × List (SkippedKeys g))
  take_skipped msg_ecdh msg_id [] = none
  take_skipped msg_ecdh msg_id (x ∷ xs) =
      let rest = take_skipped msg_ecdh msg_id xs in
      if g.point_eq msg_ecdh x.their_ecdh && (x.message == msg_id)
      then some (x, xs)
      else cons_rest x rest

  -- `otrng_key_get_skipped_keys`: the message's keys and the ratchet without them.
  unfoldable pub get_skipped_keys :
      g.Point → ℕ → Receiving g c s → Option (MessageKeys × Receiving g c s)
  get_skipped_keys msg_ecdh msg_id tmp = elim (take_skipped msg_ecdh msg_id tmp.skipped_keys) [
    | none ↦ none
    | some (found, rest) ↦ elim (shake_256_kdf1 s key_bytes 24 found.enc_key) [
      | none ↦ none
      | some mac_key ↦ some (
        record { enc_key = found.enc_key; mac_key = mac_key },
        record tmp { extra_symmetric_key = found.extra_symmetric_key; skipped_keys = rest },
      )
    ]
  ]

  -- `otrng_key_manager_derive_chain_keys` for 's'.
  unfoldable pub derive_chain_keys_s :
      Manager g c s → Run (Manager g c s) (MessageKeys × Manager g c s)
  derive_chain_keys_s m = do
    keys ← attempt m (derive_encryption_and_mac_keys s m.current.chain_s)
    extra ← attempt m (calculate_extra_key s m.current.chain_s)
    let m1 = record m { extra_symmetric_key = extra }
    chain ← attempt m1 (derive_next_chain_key s m1.current.chain_s)
    success (keys, record m1 { current = record m1.current { chain_s = chain } })

  unfoldable pub derive_chain_keys_r :
      Manager g c s → Receiving g c s → ℕ → ℕ → Run (Manager g c s) (MessageKeys × Receiving g c s)
  derive_chain_keys_r m tmp max_skip msg_id = do
    tmp1 ← attempt m (store_enc_keys tmp msg_id max_skip tmp.their_ecdh)
    keys ← attempt m (derive_encryption_and_mac_keys s tmp1.chain_r)
    extra ← attempt m (calculate_extra_key s tmp1.chain_r)
    chain ← attempt m (derive_next_chain_key s tmp1.chain_r)
    success (keys, record tmp1 { extra_symmetric_key = extra; chain_r = chain })

  -- `otrng_key_manager_derive_dh_ratchet_keys`
  unfoldable pub derive_dh_ratchet_keys_s :
      Chance → Manager g c s → Run (Manager g c s) (Manager g c s)
  derive_dh_ratchet_keys_s chance m = if m.j == 0 then rotate_keys_s g c s chance m else success m

  unfoldable pub derive_dh_ratchet_keys_r :
      Manager g c s
      → ℕ
      → Receiving g c s
      → g.Point
      → ℕ
      → Run (Manager g c s) (Manager g c s × Receiving g c s)
  derive_dh_ratchet_keys_r m max_skip tmp msg_ecdh previous_n =
      if g.point_eq msg_ecdh m.their_ecdh then success (m, tmp) else (do
        tmp1 ← attempt m (store_enc_keys tmp previous_n max_skip m.their_ecdh)
        rotate_keys_r g c s m tmp1)

  unfoldable pub store_old_mac_keys : Manager g c s → Bytes → Manager g c s
  store_old_mac_keys m mac_key = record m {
    old_mac_keys = m.old_mac_keys ++ (take key_bytes mac_key ∷ []);
  }
