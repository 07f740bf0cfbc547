-- ===== src/Otrng/Forgery.antt =====
-- What a data message that nobody authenticated does to the receiver of src/otrng.c: the keys are
-- rotated before the MAC is checked.
use libotrv.KeyManager.Hashes.{MessageKeys}
use libotrv.KeyManager.Schedule.{
  next_chain, keys_of, extra_key_of, calculate_extra_key_lem, derive_keys_lem,
  derive_next_chain_key_lem,
}
use libotrv.Otrng.Receive.{receive_keys, valid_data_message, open_message, receive_data_message}
use libotrv.Prelude.{
  ℕ, ◌+◌, ◌-◌, ◌%◌, ◌^◌, ◌≡◌, refl, inl, inr, Bool, true, false, none, some, [], arith, ltb, ◌==◌,
  if◌then◌else◌, Option-cases, Bytes, zero, suc, Option, ap, ◌∙◌,
}
use libotrv.Crypto.{Goldilocks, Shake, Gcrypt, Sodium, point_bytes}
use libotrv.DataMessage.{DataMessage}
use libotrv.Kdf.{ShakeLaws, shake_256_kdf1_lem}
use libotrv.Run.{success, error, crashed}
use libotrv.KeyExchange.{is_empty_array, ecdh_shared_secret, dh_priv_key_destroy}
use libotrv.KeyManager.State.{
  brace_key_bytes, key_bytes, wiped, receiving_ratchet_new, set_their_tmp_keys,
}
use libotrv.KeyManager.Ratchet.{
  Manager, Receiving, third_brace_key, next_brace_key, calculate_brace_key_r, enter_new_ratchet_r,
  rotate_keys_r,
}
use libotrv.KeyManager.Chain.{
  store_rounds, store_enc_keys, take_skipped, get_skipped_keys, derive_chain_keys_r,
  derive_dh_ratchet_keys_r, store_enc_key,
}
use libotrv.KeyManager.Rotation.{mixed, new_root, new_chain, enter_new_ratchet_r_lem}

if_same {ℓ} : {A : Type ℓ} (b : Bool) (a : A) → (if b then a else a) ≡ a
if_same true a = refl
if_same false a = refl

module _ (g : Goldilocks) (c : Gcrypt) (s : Shake) where
  -- Nothing is stored before the first message of a chain.
  pub store_enc_keys-zero :
      (tmp : Receiving g c s) (max_skip : ℕ) (p : g.Point)
      → store_enc_keys g c s tmp 0 max_skip p ≡ some tmp
  unfolding store_enc_keys store_rounds
  store_enc_keys-zero tmp max_skip p =
      let none_left : 0 - tmp.k ≡ 0 = omega arith in
      rw
        (
          none_left,
          if_same (is_empty_array tmp.chain_r) (some tmp),
          if_same (ltb ((tmp.k + max_skip) % 2 ^ 32) 0) (some tmp),
        )
        refl

  -- The first message of a new ratchet, in every third ratchet, where nothing was skipped.
  pub record IsFresh (m : Manager g c s) (msg : DataMessage g c) : Type 0 where
    pub unknown : g.point_eq msg.ecdh m.their_ecdh ≡ false
    pub third : m.i % 3 == 0 ≡ true
    pub nothing : m.skipped_keys ≡ []
    pub previous : msg.previous_chain_n ≡ 0
    pub first : msg.message_id ≡ 0

  abbrev pub temporary : Manager g c s → DataMessage g c → Receiving g c s
  temporary m msg = set_their_tmp_keys g c s msg.ecdh msg.dh (receiving_ratchet_new g c s m)

  -- No key is stored for the point and the number of a message.
  abbrev pub IsUnstored : Manager g c s → DataMessage g c → Type 0
  IsUnstored m msg = take_skipped g c s msg.ecdh msg.message_id m.skipped_keys ≡ none

  unstored_keys :
      (m : Manager g c s) (msg : DataMessage g c)
      → IsUnstored m msg
      → get_skipped_keys g c s msg.ecdh msg.message_id (temporary m msg) ≡ none
  unfolding get_skipped_keys set_their_tmp_keys receiving_ratchet_new
  unstored_keys m msg e = rw (get_skipped_keys, e) refl

  fresh_keys :
      (m : Manager g c s) (msg : DataMessage g c)
      → m.skipped_keys ≡ []
      → get_skipped_keys g c s msg.ecdh msg.message_id (temporary m msg) ≡ none
  unfolding take_skipped
  fresh_keys m msg e = unstored_keys m msg (rw e refl)

  new_ratchet :
      (m : Manager g c s) (tmp : Receiving g c s) (max previous : ℕ) (p : g.Point)
      → g.point_eq p m.their_ecdh ≡ false
      → previous ≡ 0
      → derive_dh_ratchet_keys_r g c s m max tmp p previous ≡ rotate_keys_r g c s m tmp
  unfolding derive_dh_ratchet_keys_r
  new_ratchet m tmp max previous p e z = rw (e, z, store_enc_keys-zero tmp max m.their_ecdh) refl

  not_null-none : (m : Manager g c s) → m.i % 3 == 0 ≡ true → next_brace_key g c s m none ≡ crashed
  unfolding next_brace_key third_brace_key
  not_null-none m third = elim (Option-cases m.our_dh.priv) [
    | inl missing ↦ rw (third, third_brace_key, missing) refl
    | inr (priv, known) ↦ rw (third, third_brace_key, known) refl
  ]

  rotate_keys_r-crashed :
      (m : Manager g c s) (tmp : Receiving g c s) (ecdh_key : Bytes)
      → ecdh_shared_secret g point_bytes m.our_ecdh.priv tmp.their_ecdh ≡ some ecdh_key
      → tmp.their_dh ≡ none
      → m.i % 3 == 0 ≡ true
      → rotate_keys_r g c s m tmp ≡ crashed
  unfolding rotate_keys_r enter_new_ratchet_r calculate_brace_key_r
  rotate_keys_r-crashed m tmp ecdh_key ecdh missing third =
      rw
        (
          rotate_keys_r,
          enter_new_ratchet_r,
          ecdh,
          calculate_brace_key_r,
          missing,
          not_null-none m third,
        )
        refl

module _ (g : Goldilocks) (c : Gcrypt) (s : Shake) (laws : ShakeLaws s) where
  -- Storing the keys of the messages that were skipped ends and keeps the keys of the sender.
  abbrev Stored : Receiving g c s → Option (Receiving g c s) → Type 0
  Stored tmp r =
      (tmp1 : Receiving g c s) × (r ≡ some tmp1)
      × (tmp1.their_ecdh ≡ tmp.their_ecdh)
      × (tmp1.their_dh ≡ tmp.their_dh)

  store_rounds-Stored :
      (n : ℕ) (p : g.Point) (tmp : Receiving g c s) → Stored tmp (store_rounds g c s n p tmp)
  unfolding store_rounds store_enc_key
  store_rounds-Stored zero p tmp = (tmp, refl, refl, refl)
  store_rounds-Stored (suc n) p tmp =
      rw
        (
          store_rounds,
          store_enc_key,
          shake_256_kdf1_lem s laws key_bytes 23 tmp.chain_r,
          calculate_extra_key_lem s laws tmp.chain_r,
          shake_256_kdf1_lem s laws key_bytes 22 tmp.chain_r,
        )
        (store_rounds-Stored n p _)

  if_Stored :
      (b : Bool) (tmp : Receiving g c s) (r : Option (Receiving g c s))
      → Stored tmp r
      → Stored tmp (if b then some tmp else r)
  if_Stored true tmp r h = (tmp, refl, refl, refl)
  if_Stored false tmp r h = h

  store_enc_keys-Stored :
      (tmp : Receiving g c s) (until max_skip : ℕ) (p : g.Point)
      → Stored tmp (store_enc_keys g c s tmp until max_skip p)
  unfolding store_enc_keys
  store_enc_keys-Stored tmp until max_skip p =
      if_Stored (ltb ((tmp.k + max_skip) % 2 ^ 32) until) tmp _
        (if_Stored (is_empty_array tmp.chain_r) tmp _ (store_rounds-Stored (until - tmp.k) p tmp))

  new_ratchet-crashed :
      (m : Manager g c s) (tmp : Receiving g c s) (max previous : ℕ) (p : g.Point)
      (ecdh_key : Bytes)
      → g.point_eq p m.their_ecdh ≡ false
      → m.i % 3 == 0 ≡ true
      → ecdh_shared_secret g point_bytes m.our_ecdh.priv tmp.their_ecdh ≡ some ecdh_key
      → tmp.their_dh ≡ none
      → derive_dh_ratchet_keys_r g c s m max tmp p previous ≡ crashed
  unfolding derive_dh_ratchet_keys_r
  new_ratchet-crashed m tmp max previous p ecdh_key unknown third ecdh missing =
      let (tmp1, stored, point, number) = store_enc_keys-Stored tmp previous max m.their_ecdh in
      rw (derive_dh_ratchet_keys_r, unknown, stored)
        (rotate_keys_r-crashed g c s m tmp1 ecdh_key
          (ap (λ (q : g.Point). ecdh_shared_secret g point_bytes m.our_ecdh.priv q) point ∙ ecdh)
          (number ∙ missing) third)

  -- In every third ratchet, a data message with a new point and no Diffie-Hellman number, for which no
  -- skipped key is stored, and whose point gives a valid curve secret, makes the receiver read through a
  -- null pointer, whatever its MAC, its number and the length of the previous chain that it tells.
  pub receive_data_message-crashed :
      (d : Sodium) (m : Manager g c s) (max : ℕ) (msg : DataMessage g c) (ecdh_key : Bytes)
      → g.point_eq msg.ecdh m.their_ecdh ≡ false
      → m.i % 3 == 0 ≡ true
      → IsUnstored g c s m msg
      → ecdh_shared_secret g point_bytes m.our_ecdh.priv msg.ecdh ≡ some ecdh_key
      → msg.dh ≡ none
      → receive_data_message g c s d m max msg ≡ crashed
  unfolding receive_data_message receive_keys set_their_tmp_keys receiving_ratchet_new
  receive_data_message-crashed d m max msg ecdh_key unknown third unstored ecdh missing =
      rw
        (
          receive_keys,
          unstored_keys g c s m msg unstored,
          new_ratchet-crashed m (temporary g c s m msg) max msg.previous_chain_n msg.ecdh ecdh_key
              unknown third ecdh missing,
        )
        refl

  -- The temporary ratchet behind the rotation.
  abbrev rotated : Receiving g c s → Bytes → Bytes → Receiving g c s
  rotated tmp ecdh_key brace_key = record tmp {
    root_key = new_root g c s laws tmp.root_key (mixed g c s laws ecdh_key brace_key);
    chain_r = new_chain g c s laws tmp.root_key (mixed g c s laws ecdh_key brace_key);
    shared_secret = wiped key_bytes;
    brace_key = wiped brace_key_bytes;
    our_ecdh_priv = g.scalar_destroyed;
    pn = tmp.j;
    j = 0;
    k = 0;
    i = (tmp.i + 1) % 2 ^ 32;
  }

  rotate_keys_r_lem :
      (m : Manager g c s) (tmp : Receiving g c s) (ecdh_key brace_key : Bytes)
      → ecdh_shared_secret g point_bytes m.our_ecdh.priv tmp.their_ecdh ≡ some ecdh_key
      → next_brace_key g c s m tmp.their_dh ≡ success brace_key
      → tmp.i % 3 == 0 ≡ true
      → rotate_keys_r g c s m tmp
        ≡ success
            (record m { our_dh = dh_priv_key_destroy c s m.our_dh }, rotated tmp ecdh_key brace_key)
  unfolding rotate_keys_r
  rotate_keys_r_lem m tmp ecdh_key brace_key ecdh brace third =
      rw
        (
          rotate_keys_r,
          enter_new_ratchet_r_lem g c s laws m tmp ecdh_key brace_key ecdh brace,
          third,
        )
        refl

  -- The keys of the first message of a chain.
  first_keys :
      (m : Manager g c s) (tmp : Receiving g c s) (max n : ℕ)
      → n ≡ 0
      → derive_chain_keys_r g c s m tmp max n
        ≡ success (
          keys_of s laws tmp.chain_r,
          record tmp {
            extra_symmetric_key = extra_key_of s laws tmp.chain_r;
            chain_r = next_chain s laws tmp.chain_r;
          },
        )
  unfolding derive_chain_keys_r
  first_keys m tmp max n z =
      rw
        (
          derive_chain_keys_r,
          z,
          store_enc_keys-zero g c s tmp max tmp.their_ecdh,
          derive_keys_lem s laws tmp.chain_r,
          calculate_extra_key_lem s laws tmp.chain_r,
          derive_next_chain_key_lem s laws tmp.chain_r,
        )
        refl

  open_message-forged :
      (d : Sodium) (keys : MessageKeys) (m : Manager g c s) (tmp : Receiving g c s)
      (msg : DataMessage g c)
      → valid_data_message g c s d keys.mac_key msg ≡ false
      → open_message g c s d keys m tmp msg ≡ error m
  unfolding open_message
  open_message-forged d keys m tmp msg forged = rw forged refl

  -- In every third ratchet, while no skipped keys are stored, a message of number 0 with a new point and
  -- the length 0 of the previous chain, whose point and number give the secrets of the rotation and
  -- whose MAC is refused, leaves an error and the receiver without the private Diffie-Hellman key, in
  -- spite of the temporary ratchet; the other fields of the key manager are as before.
  pub receive_data_message-forged :
      (d : Sodium) (m : Manager g c s) (max : ℕ) (msg : DataMessage g c)
      (ecdh_key brace_key : Bytes)
      → IsFresh g c s m msg
      → ecdh_shared_secret g point_bytes m.our_ecdh.priv msg.ecdh ≡ some ecdh_key
      → next_brace_key g c s m msg.dh ≡ success brace_key
      → valid_data_message g c s d
          (keys_of s laws
            (new_chain g c s laws m.current.root_key (mixed g c s laws ecdh_key brace_key))).mac_key
          msg
        ≡ false
      → receive_data_message g c s d m max msg
        ≡ error (record m { our_dh = dh_priv_key_destroy c s m.our_dh })
  unfolding receive_data_message receive_keys set_their_tmp_keys receiving_ratchet_new
  receive_data_message-forged d m max msg ecdh_key brace_key h ecdh brace forged =
      let tmp1 = rotated (temporary g c s m msg) ecdh_key brace_key in
      let m1 : Manager g c s = record m { our_dh = dh_priv_key_destroy c s m.our_dh } in
      rw
        (
          receive_keys,
          fresh_keys g c s m msg h.nothing,
          new_ratchet g c s m (temporary g c s m msg) max msg.previous_chain_n msg.ecdh h.unknown
              h.previous,
          rotate_keys_r_lem m (temporary g c s m msg) ecdh_key brace_key ecdh brace h.third,
          first_keys m1 tmp1 max msg.message_id h.first,
        )
        (open_message-forged d (keys_of s laws tmp1.chain_r) m1 _ msg forged)
