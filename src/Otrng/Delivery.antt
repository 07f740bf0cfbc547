-- ===== src/Otrng/Delivery.antt =====
-- The messages of one ratchet, in any order: src/otrng.c and src/key_management.c implement the
-- window of KeyManager/Window.antt.
use mathlib.Core.List.{map-append}
use libotrv.DataMessage.{DataMessage}
use libotrv.Otrng.Receive.{receive_keys}
use libotrv.Prelude.{
  ℕ, ◌+◌, ◌-◌, ◌%◌, ◌^◌, ◌≤◌, ◌<◌, ◌≡◌, refl, sym, inl, inr, true, false, none, some, List, ◌++◌,
  map, append_assoc, arith, Bool-cases, ltb-eq_false, All, Bytes,
}
use libotrv.Crypto.{Goldilocks, Shake, Gcrypt}
use libotrv.Kdf.{ShakeLaws, shake_256_kdf1_lem}
use libotrv.Run.{success}
use libotrv.KeyExchange.{is_empty_array}
use libotrv.KeyManager.State.{key_bytes, SkippedKeys}
use libotrv.KeyManager.Ratchet.{Manager, Receiving}
use libotrv.KeyManager.Schedule.{
  numbers, enc_key_of, keys_of, extra_key_of, chain_at, chain_at-suc, calculate_extra_key_lem,
  derive_keys_lem, derive_next_chain_key_lem, skipped_entry, store_rounds_lem,
}
use libotrv.KeyManager.Chain.{
  store_enc_keys, get_skipped_keys, derive_chain_keys_r, derive_dh_ratchet_keys_r,
}
use libotrv.KeyManager.Window.{Window, member, remove, accepts, receive, accepts-next}
use libotrv.KeyManager.Skipped.{
  IsOlder, take_skipped-older, take_skipped-older_some, take_skipped-absent, take_skipped-present,
}

module _ (g : Goldilocks) (c : Gcrypt) (s : Shake) (laws : ShakeLaws s) where
  get_skipped_keys_stored :
      (p : g.Point) (chain : Bytes) (older : List (SkippedKeys g)) (pending : List ℕ)
      (tmp : Receiving g c s) (n : ℕ)
      → All (IsOlder g c s p) older
      → tmp.skipped_keys ≡ older ++ map (skipped_entry g c s laws p chain) pending
      → g.point_eq p p ≡ true
      → member n pending ≡ true
      → get_skipped_keys g c s p n tmp
        ≡ some (
          keys_of s laws (chain_at s laws n chain),
          record tmp {
            extra_symmetric_key = extra_key_of s laws (chain_at s laws n chain);
            skipped_keys = older ++ map (skipped_entry g c s laws p chain) (remove n pending);
          },
        )
  unfolding get_skipped_keys
  get_skipped_keys_stored p chain older pending tmp n old e self present =
      rw
        (
          get_skipped_keys,
          e,
          take_skipped-older_some g c s p n older (map (skipped_entry g c s laws p chain) pending)
              old (take_skipped-present g c s laws p p chain n pending self present),
          shake_256_kdf1_lem s laws key_bytes 24 (enc_key_of s laws (chain_at s laws n chain)),
        )
        refl

  get_skipped_keys_absent :
      (p : g.Point) (chain : Bytes) (older : List (SkippedKeys g)) (pending : List ℕ)
      (tmp : Receiving g c s) (n : ℕ)
      → All (IsOlder g c s p) older
      → tmp.skipped_keys ≡ older ++ map (skipped_entry g c s laws p chain) pending
      → member n pending ≡ false
      → get_skipped_keys g c s p n tmp ≡ none
  unfolding get_skipped_keys
  get_skipped_keys_absent p chain older pending tmp n old e absent =
      rw
        (
          get_skipped_keys,
          e,
          take_skipped-older g c s p n older (map (skipped_entry g c s laws p chain) pending) old
              (take_skipped-absent g c s laws p p chain n pending absent),
        )
        refl

  store_enc_keys_lem :
      (tmp : Receiving g c s) (p : g.Point) (chain : Bytes) (n max : ℕ)
      → tmp.chain_r ≡ chain_at s laws tmp.k chain
      → is_empty_array tmp.chain_r ≡ false
      → tmp.k ≤ n
      → n ≤ tmp.k + max
      → tmp.k + max < 2 ^ 32
      → store_enc_keys g c s tmp n max p
        ≡ some (record tmp {
          chain_r = chain_at s laws n chain;
          skipped_keys =
              tmp.skipped_keys
              ++ map (skipped_entry g c s laws p chain) (numbers (n - tmp.k) tmp.k);
          k = n;
        })
  unfolding store_enc_keys
  store_enc_keys_lem tmp p chain n max e full low high fits =
      let small : (tmp.k + max) % 2 ^ 32 ≡ tmp.k + max = omega arith in
      let there : tmp.k + (n - tmp.k) ≡ n = omega arith in
      rw
        (
          store_enc_keys,
          small,
          ltb-eq_false (tmp.k + max) n high,
          full,
          store_rounds_lem g c s laws (n - tmp.k) p chain tmp e,
          there,
        )
        refl

  -- The keys of a message that is not stored, from the chain.
  pub derive_chain_keys_r_lem :
      (m : Manager g c s) (tmp : Receiving g c s) (chain : Bytes) (n max : ℕ)
      → tmp.chain_r ≡ chain_at s laws tmp.k chain
      → is_empty_array tmp.chain_r ≡ false
      → tmp.k ≤ n
      → n ≤ tmp.k + max
      → tmp.k + max < 2 ^ 32
      → derive_chain_keys_r g c s m tmp max n
        ≡ success (
          keys_of s laws (chain_at s laws n chain),
          record tmp {
            chain_r = chain_at s laws (n + 1) chain;
            skipped_keys =
                tmp.skipped_keys
                ++ map (skipped_entry g c s laws tmp.their_ecdh chain) (numbers (n - tmp.k) tmp.k);
            extra_symmetric_key = extra_key_of s laws (chain_at s laws n chain);
            k = n;
          },
        )
  unfolding derive_chain_keys_r
  derive_chain_keys_r_lem m tmp chain n max e full low high fits =
      rw
        (
          derive_chain_keys_r,
          store_enc_keys_lem tmp tmp.their_ecdh chain n max e full low high fits,
          derive_keys_lem s laws (chain_at s laws n chain),
          calculate_extra_key_lem s laws (chain_at s laws n chain),
          derive_next_chain_key_lem s laws (chain_at s laws n chain),
          chain_at-suc s laws n chain,
        )
        refl

  -- The ratchet is that of the sender's point, whose chain started with `chain`: its counter and its
  -- keys are those of the window, behind stored keys of other ratchets.
  pub record Represents (chain : Bytes) (w : Window) (tmp : Receiving g c s) : Type 0 where
    pub counter : tmp.k ≡ w.next
    pub key : tmp.chain_r ≡ chain_at s laws tmp.k chain
    pub older : List (SkippedKeys g)
    pub older-IsOlder : All (IsOlder g c s tmp.their_ecdh) older
    pub stored :
        tmp.skipped_keys ≡ older ++ map (skipped_entry g c s laws tmp.their_ecdh chain) w.pending

  -- A point that the key manager has already starts no new ratchet.
  same_ratchet :
      (m : Manager g c s) (tmp : Receiving g c s) (max n : ℕ) (p : g.Point)
      → g.point_eq p m.their_ecdh ≡ true
      → derive_dh_ratchet_keys_r g c s m max tmp p n ≡ success (m, tmp)
  unfolding derive_dh_ratchet_keys_r
  same_ratchet m tmp max n p e = rw e refl

  -- The message gets the keys of its number in the chain, and the key manager stays as it is.
  abbrev pub IsReceived :
      Bytes → Window → ℕ → Manager g c s → Receiving g c s → DataMessage g c → Type 0
  IsReceived chain w max m tmp msg =
      (tmp1 : Receiving g c s) × (receive_keys g c s m tmp max msg
        ≡ success (keys_of s laws (chain_at s laws msg.message_id chain), (m, tmp1)))
      × (tmp1.extra_symmetric_key ≡ extra_key_of s laws (chain_at s laws msg.message_id chain))
      × (tmp1.their_ecdh ≡ tmp.their_ecdh)
      × Represents chain (receive w msg.message_id) tmp1

  receive_stored :
      (m : Manager g c s) (tmp : Receiving g c s) (chain : Bytes) (w : Window) (max : ℕ)
      (msg : DataMessage g c)
      → Represents chain w tmp
      → tmp.their_ecdh ≡ msg.ecdh
      → g.point_eq tmp.their_ecdh tmp.their_ecdh ≡ true
      → member msg.message_id w.pending ≡ true
      → IsReceived chain w max m tmp msg
  unfolding receive_keys receive
  receive_stored m tmp chain w max msg r p self present = (
    record tmp {
      extra_symmetric_key = extra_key_of s laws (chain_at s laws msg.message_id chain);
      skipped_keys =
          r.older
          ++ map (skipped_entry g c s laws tmp.their_ecdh chain) (remove msg.message_id w.pending);
    },
    rw
        (
          receive_keys,
          sym p,
          get_skipped_keys_stored tmp.their_ecdh chain r.older w.pending tmp msg.message_id
              r.older-IsOlder r.stored self present,
        )
        refl,
    refl,
    refl,
    record {
      counter = rw present r.counter;
      key = r.key;
      older = r.older;
      older-IsOlder = r.older-IsOlder;
      stored = rw present refl;
    },
  )

  receive_next :
      (m : Manager g c s) (tmp : Receiving g c s) (chain : Bytes) (w : Window) (max : ℕ)
      (msg : DataMessage g c)
      → Represents chain w tmp
      → tmp.their_ecdh ≡ msg.ecdh
      → g.point_eq tmp.their_ecdh m.their_ecdh ≡ true
      → is_empty_array tmp.chain_r ≡ false
      → member msg.message_id w.pending ≡ false
      → tmp.k ≤ msg.message_id
      → msg.message_id ≤ tmp.k + max
      → tmp.k + max + 1 < 2 ^ 32
      → IsReceived chain w max m tmp msg
  unfolding receive_keys receive
  receive_next m tmp chain w max msg r p same full absent low high fits =
      let same1 : g.point_eq msg.ecdh m.their_ecdh ≡ true = rw (sym p) same in
      let wraps : (msg.message_id + 1) % 2 ^ 32 ≡ msg.message_id + 1 = omega arith in
      let fits_sum : tmp.k + max < 2 ^ 32 = omega arith in
      (
        record tmp {
          chain_r = chain_at s laws (msg.message_id + 1) chain;
          skipped_keys =
              tmp.skipped_keys
              ++ map (skipped_entry g c s laws tmp.their_ecdh chain)
                  (numbers (msg.message_id - tmp.k) tmp.k);
          extra_symmetric_key = extra_key_of s laws (chain_at s laws msg.message_id chain);
          k = msg.message_id + 1;
        },
        rw
            (
              receive_keys,
              sym p,
              get_skipped_keys_absent tmp.their_ecdh chain r.older w.pending tmp msg.message_id
                  r.older-IsOlder r.stored absent,
              same_ratchet m tmp max msg.previous_chain_n msg.ecdh same1,
              derive_chain_keys_r_lem m tmp chain msg.message_id max r.key full low high fits_sum,
              wraps,
            )
            refl,
        refl,
        refl,
        record {
          counter = rw absent refl;
          key = refl;
          older = r.older;
          older-IsOlder = r.older-IsOlder;
          stored =
              rw
                (
                  receive,
                  absent,
                  sym r.counter,
                  r.stored,
                  append_assoc r.older
                      (map (skipped_entry g c s laws tmp.their_ecdh chain) w.pending)
                      (map (skipped_entry g c s laws tmp.their_ecdh chain)
                        (numbers (msg.message_id - tmp.k) tmp.k)),
                  map-append (skipped_entry g c s laws tmp.their_ecdh chain) w.pending
                      (numbers (msg.message_id - tmp.k) tmp.k),
                )
                refl;
        },
      )

  -- A message that the window accepts gets the keys of its number in the chain.
  pub receive_keys-IsReceived :
      (m : Manager g c s) (tmp : Receiving g c s) (chain : Bytes) (w : Window) (max : ℕ)
      (msg : DataMessage g c)
      → Represents chain w tmp
      → tmp.their_ecdh ≡ msg.ecdh
      → g.point_eq tmp.their_ecdh tmp.their_ecdh ≡ true
      → g.point_eq tmp.their_ecdh m.their_ecdh ≡ true
      → is_empty_array tmp.chain_r ≡ false
      → accepts max w msg.message_id ≡ true
      → IsReceived chain w max m tmp msg
  receive_keys-IsReceived m tmp chain w max msg r p self same full ok =
      elim (Bool-cases (member msg.message_id w.pending)) [
        | inl present ↦ receive_stored m tmp chain w max msg r p self present
        | inr absent ↦
            let (low, high, fits) = accepts-next max w msg.message_id absent ok in
            receive_next m tmp chain w max msg r p same full absent (rw r.counter low)
              (rw r.counter high) (rw r.counter fits)
      ]
