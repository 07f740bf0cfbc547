-- ===== src/KeyManager/Agreement.antt =====
-- src/key_management.c: the two sides of a Diffie-Hellman rotation, and what the brace key of a later
-- rotation is made of.
use libotrv.Prelude.{
  ◌%◌, ◌≡◌, sym, ap, ◌∙◌, inl, inr, false, Option, some, [], ◌==◌, Bool-cases, Bytes,
}
use libotrv.Crypto.{Goldilocks, Shake, Gcrypt, point_bytes}
use libotrv.Kdf.{ShakeLaws, kdf1}
use libotrv.Run.{Run, success, error, crashed}
use libotrv.KeyExchange.{ecdh_shared_secret, DhKeypair, dh_calculate_public_key, dh_shared_secret}
use libotrv.KeyExchange.Agreement.{
  ExchangeLaws, IsEcdhPair, ecdh_shared_secret_comm, dh_shared_secret_comm,
}
use libotrv.KeyManager.State.{brace_key_bytes, key_bytes, wiped}
use libotrv.KeyManager.Ratchet.{
  Manager, Receiving, next_brace_key, enter_new_ratchet_s, enter_new_ratchet_r,
}
use libotrv.KeyManager.Rotation.{
  mixed, new_root, new_chain, enter_new_ratchet_s_lem, enter_new_ratchet_r_lem,
  next_brace_key-later, next_brace_key-third,
}

module _ (g : Goldilocks) (c : Gcrypt) (s : Shake) (laws : ShakeLaws s)
    (xl : ExchangeLaws g c) where
  -- A Diffie-Hellman pair with both keys, the public one made of the private one.
  pub record IsDhPair (priv : c.Mpi) (pair : DhKeypair c s) : Type 0 where
    pub known : pair.priv ≡ some priv
    pub made : pair.public ≡ some (dh_calculate_public_key c s priv)

  -- The sender `a` and the receiver `b` with its temporary ratchet `tmp` are at the same step: the
  -- same ratchet number, root key and brace key, and each has the other's public keys.
  pub record AreInStep (x y : Bytes) (dx dy : c.Mpi) (a b : Manager g c s) (tmp : Receiving g c s)
      : Type 0 where
    pub number : b.i ≡ a.i
    pub root : tmp.root_key ≡ a.current.root_key
    pub brace : b.brace_key ≡ a.brace_key
    pub our_pair : IsEcdhPair g c s xl x a.our_ecdh
    pub their_pair : IsEcdhPair g c s xl y b.our_ecdh
    pub our_dh_pair : IsDhPair dx a.our_dh
    pub their_dh_pair : IsDhPair dy b.our_dh
    pub their_point : a.their_ecdh ≡ b.our_ecdh.public
    pub our_point : tmp.their_ecdh ≡ a.our_ecdh.public
    pub their_number : a.their_dh ≡ b.our_dh.public
    pub our_number : tmp.their_dh ≡ a.our_dh.public

  same_brace_key :
      (x y : Bytes) (dx dy : c.Mpi) (a b : Manager g c s) (tmp : Receiving g c s) (secret : Bytes)
      → AreInStep x y dx dy a b tmp
      → dh_shared_secret c s dx (dh_calculate_public_key c s dy) ≡ some secret
      → (brace_key : Bytes) × (next_brace_key g c s a a.their_dh ≡ success brace_key)
        × (next_brace_key g c s b tmp.their_dh ≡ success brace_key)
  same_brace_key x y dx dy a b tmp secret h e =
      let theirs = h.their_number ∙ h.their_dh_pair.made in
      let ours = h.our_number ∙ h.our_dh_pair.made in
      let swapped = dh_shared_secret_comm g c s xl dy dx ∙ e in
      let at : b.i % 3 == 0 ≡ a.i % 3 == 0 = ap (λ n. n % 3 == 0) h.number in
      elim (Bool-cases (a.i % 3 == 0)) [
        | inl third ↦ (
          kdf1 s laws brace_key_bytes 1 secret,
          next_brace_key-third g c s laws a a.their_dh dx (dh_calculate_public_key c s dy) secret
              third h.our_dh_pair.known theirs e,
          next_brace_key-third g c s laws b tmp.their_dh dy (dh_calculate_public_key c s dx) secret
              (at ∙ third) h.their_dh_pair.known ours swapped,
        )
        | inr later ↦ (
          kdf1 s laws brace_key_bytes 2 a.brace_key,
          next_brace_key-later g c s laws a a.their_dh later,
          rw (sym h.brace) (next_brace_key-later g c s laws b tmp.their_dh (at ∙ later)),
        )
      ]

  -- Both sides of a rotation succeed and derive the same root key, and the sending chain of one is
  -- the receiving chain of the other. It holds where the two are in step, the curve secret is valid
  -- and the Diffie-Hellman secret fits its buffer.
  pub enter_new_ratchet-agree :
      (x y : Bytes) (dx dy : c.Mpi) (a b : Manager g c s) (tmp : Receiving g c s)
      (ecdh_key secret : Bytes)
      → AreInStep x y dx dy a b tmp
      → ecdh_shared_secret g point_bytes a.our_ecdh.priv b.our_ecdh.public ≡ some ecdh_key
      → dh_shared_secret c s dx (dh_calculate_public_key c s dy) ≡ some secret
      → (a1 : Manager g c s) × (tmp1 : Receiving g c s) × (enter_new_ratchet_s g c s a ≡ success a1)
        × (enter_new_ratchet_r g c s b tmp ≡ success tmp1)
        × (tmp1.root_key ≡ a1.current.root_key)
        × (tmp1.chain_r ≡ a1.current.chain_s)
  enter_new_ratchet-agree x y dx dy a b tmp ecdh_key secret h ecdh dh =
      let (brace_key, ours, theirs) = same_brace_key x y dx dy a b tmp secret h dh in
      let mine : ecdh_shared_secret g point_bytes a.our_ecdh.priv a.their_ecdh ≡ some ecdh_key =
        rw h.their_point ecdh in
      let other : ecdh_shared_secret g point_bytes b.our_ecdh.priv tmp.their_ecdh ≡ some ecdh_key =
        rw h.our_point (
          ecdh_shared_secret_comm g c s xl point_bytes y x b.our_ecdh a.our_ecdh h.their_pair
            h.our_pair
          ∙ ecdh) in
      let key = mixed g c s laws ecdh_key brace_key in
      (
        record a {
          current = record a.current {
            root_key = new_root g c s laws a.current.root_key key;
            chain_s = new_chain g c s laws a.current.root_key key;
          };
          shared_secret = wiped key_bytes;
          brace_key = wiped brace_key_bytes;
        },
        record tmp {
          root_key = new_root g c s laws tmp.root_key key;
          chain_r = new_chain g c s laws tmp.root_key key;
          shared_secret = wiped key_bytes;
          brace_key = wiped brace_key_bytes;
        },
        enter_new_ratchet_s_lem g c s laws a ecdh_key brace_key mine ours,
        enter_new_ratchet_r_lem g c s laws b tmp ecdh_key brace_key other theirs,
        ap (λ r. new_root g c s laws r key) h.root,
        ap (λ r. new_chain g c s laws r key) h.root,
      )

  abbrev brace_key_after : Run (Manager g c s) (Manager g c s) → Bytes
  brace_key_after (success m) = m.brace_key
  brace_key_after (error m) = m.brace_key
  brace_key_after crashed = []

  -- The sender wipes its brace key when it enters a ratchet, so that of a ratchet behind it, if its
  -- number is not a multiple of three, is the hash of zero bytes: it depends on no secret.
  pub enter_new_ratchet_s-brace_key :
      (m m1 later : Manager g c s) (ecdh_key brace_key : Bytes) (their_dh : Option c.Mpi)
      → ecdh_shared_secret g point_bytes m.our_ecdh.priv m.their_ecdh ≡ some ecdh_key
      → next_brace_key g c s m m.their_dh ≡ success brace_key
      → enter_new_ratchet_s g c s m ≡ success m1
      → later.brace_key ≡ m1.brace_key
      → later.i % 3 == 0 ≡ false
      → next_brace_key g c s later their_dh
        ≡ success (kdf1 s laws brace_key_bytes 2 (wiped brace_key_bytes))
  enter_new_ratchet_s-brace_key m m1 later ecdh_key brace_key their_dh ecdh brace done kept third =
      let gone : m1.brace_key ≡ wiped brace_key_bytes =
        ap brace_key_after
          (sym done ∙ enter_new_ratchet_s_lem g c s laws m ecdh_key brace_key ecdh brace) in
      next_brace_key-later g c s laws later their_dh third
      ∙ ap (λ b. success (kdf1 s laws brace_key_bytes 2 b)) (kept ∙ gone)
