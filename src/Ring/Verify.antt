-- ===== src/Ring/Verify.antt =====
-- The ring signatures that src/auth.c makes pass its own verification.
use libotrv.Prelude.{ℕ, ◌≡◌, refl, sym, true, false, some, [], ◌∷◌, Bytes}
use libotrv.Crypto.{Goldilocks, Shake}
use libotrv.Kdf.{hash_init_with_usage_and_domain_separation, ShakeLaws}
use libotrv.Smp.State.{zq_public}
use libotrv.Smp.Complete.{GroupLaws}
use libotrv.Ring.{
  base_point_bytes, prime_order_bytes, RingSig, RingChance, choose_t, calculate_ci, calculate_ri,
  rsig_calculate_c, rsig_calculate_c_from_sigma, signature_of, rsig_authenticate, rsig_verify,
}

-- What libgoldilocks documents of its scalars: they form a field.
pub record ScalarLaws (g : Goldilocks) : Type 0 where
  pub group : GroupLaws g
  pub scalar_add_comm : (s t : g.Scalar) → g.scalar_add s t ≡ g.scalar_add t s
  pub scalar_add_assoc :
      (s t u : g.Scalar) → g.scalar_add (g.scalar_add s t) u ≡ g.scalar_add s (g.scalar_add t u)
  pub scalar_sub_add : (s t : g.Scalar) → g.scalar_add (g.scalar_sub s t) t ≡ s
  pub scalar_mul_comm : (s t : g.Scalar) → g.scalar_mul s t ≡ g.scalar_mul t s

module _ (g : Goldilocks) (s : Shake) (laws : ShakeLaws s) (ring : ScalarLaws g) where
  -- The commitment that the verifier computes is the signer's: for a key whose secret is known, and
  -- for one whose challenge was drawn.
  known_commitment :
      (secret t c : g.Scalar) (a : g.Point)
      → a ≡ g.scalarmul g.point_base secret
      → g.point_add
          (g.scalarmul a c)
          (g.scalarmul g.point_base (g.scalar_sub t (g.scalar_mul c secret)))
        ≡ zq_public g t
  unfolding zq_public
  known_commitment secret t c a e =
      rw
        (
          e,
          ring.group.scalarmul_mul g.point_base secret c,
          ring.scalar_mul_comm c secret,
          ring.group.point_add_comm (g.scalarmul g.point_base (g.scalar_mul secret c))
              (g.scalarmul g.point_base (g.scalar_sub t (g.scalar_mul secret c))),
        )
        (ring.group.scalarmul_sub g.point_base t (g.scalar_mul secret c))

  drawn_commitment :
      (r c : g.Scalar) (a : g.Point)
      → g.point_add (g.scalarmul a c) (g.scalarmul g.point_base r)
        ≡ g.point_add (zq_public g r) (g.scalarmul a c)
  unfolding zq_public
  drawn_commitment r c a = ring.group.point_add_comm (g.scalarmul a c) (g.scalarmul g.point_base r)

  -- The challenges add up to the whole, wherever the computed one stands.
  sum_first :
      (c x y : g.Scalar) → g.scalar_add (g.scalar_add (g.scalar_sub (g.scalar_sub c x) y) x) y ≡ c
  sum_first c x y =
      rw
        (
          ring.scalar_add_assoc (g.scalar_sub (g.scalar_sub c x) y) x y,
          ring.scalar_add_comm x y,
          sym (ring.scalar_add_assoc (g.scalar_sub (g.scalar_sub c x) y) y x),
          ring.scalar_sub_add (g.scalar_sub c x) y,
          ring.scalar_sub_add c x,
        )
        refl

  sum_second :
      (c x y : g.Scalar) → g.scalar_add (g.scalar_add x (g.scalar_sub (g.scalar_sub c x) y)) y ≡ c
  sum_second c x y =
      rw (ring.scalar_add_comm x (g.scalar_sub (g.scalar_sub c x) y)) (sum_first c x y)

  sum_third :
      (c x y : g.Scalar) → g.scalar_add (g.scalar_add x y) (g.scalar_sub (g.scalar_sub c x) y) ≡ c
  sum_third c x y =
      rw
        (
          ring.scalar_add_comm (g.scalar_add x y) (g.scalar_sub (g.scalar_sub c x) y),
          sym (ring.scalar_add_assoc (g.scalar_sub (g.scalar_sub c x) y) x y),
        )
        (sum_first c x y)

  -- The challenge of three keys and three commitments, as a value.
  unfoldable pub challenge :
      ℕ → Bytes → g.Point → g.Point → g.Point → g.Point → g.Point → g.Point → Bytes → g.Scalar
  challenge usage domain a1 a2 a3 t1 t2 t3 msg =
      let h0 = laws.absorb (laws.absorb s.init domain) (usage ∷ []) in
      let h2 = laws.absorb (laws.absorb h0 base_point_bytes) prime_order_bytes in
      let h5 =
        laws.absorb (laws.absorb (laws.absorb h2 (g.encode a1)) (g.encode a2)) (g.encode a3) in
      let h8 =
        laws.absorb (laws.absorb (laws.absorb h5 (g.encode t1)) (g.encode t2)) (g.encode t3) in
      g.scalar_decode (s.final (laws.absorb h8 msg) 64)

  rsig_calculate_c_lem :
      (usage : ℕ) (domain : Bytes) (a1 a2 a3 t1 t2 t3 : g.Point) (msg : Bytes)
      → rsig_calculate_c g s usage domain a1 a2 a3 t1 t2 t3 msg
        ≡ some (challenge usage domain a1 a2 a3 t1 t2 t3 msg)
  unfolding rsig_calculate_c challenge hash_init_with_usage_and_domain_separation
  rsig_calculate_c_lem usage domain a1 a2 a3 t1 t2 t3 msg =
      rw
        (
          laws.update-absorb, laws.update-absorb, laws.update-absorb, laws.update-absorb,
          laws.update-absorb, laws.update-absorb, laws.update-absorb, laws.update-absorb,
          laws.update-absorb, laws.update-absorb, laws.update-absorb,
        )
        refl

  -- The commitment of a key whose secret the signer does not have.
  abbrev drawn : g.Point → g.Scalar → g.Scalar → g.Point
  drawn a r c = g.point_add (zq_public g r) (g.scalarmul a c)

  verify-known_first :
      (usage : ℕ) (domain : Bytes) (chance : RingChance g) (secret c : g.Scalar)
      (a1 a2 a3 : g.Point) (msg : Bytes)
      → a1 ≡ g.scalarmul g.point_base secret
      → c
        ≡ challenge usage domain a1 a2 a3
            (zq_public g chance.t1)
            (drawn a2 chance.r2 chance.c2)
            (drawn a3 chance.r3 chance.c3)
            msg
      → rsig_verify g s usage domain
          (signature_of g s chance secret true false false c)
          a1
          a2
          a3
          msg
        ≡ true
  unfolding rsig_verify rsig_calculate_c_from_sigma signature_of calculate_ci calculate_ri
  verify-known_first usage domain chance secret c a1 a2 a3 msg e h =
      let c1 = g.scalar_sub (g.scalar_sub c chance.c2) chance.c3 in
      rw
        (
          rsig_verify,
          rsig_calculate_c_from_sigma,
          known_commitment secret chance.t1 c1 a1 e,
          drawn_commitment chance.r2 chance.c2 a2,
          drawn_commitment chance.r3 chance.c3 a3,
          rsig_calculate_c_lem usage domain a1 a2 a3 (zq_public g chance.t1)
              (drawn a2 chance.r2 chance.c2) (drawn a3 chance.r3 chance.c3) msg,
          sym h,
          sum_first c chance.c2 chance.c3,
          ring.group.scalar_eq_self c,
        )
        refl

  verify-known_second :
      (usage : ℕ) (domain : Bytes) (chance : RingChance g) (secret c : g.Scalar)
      (a1 a2 a3 : g.Point) (msg : Bytes)
      → a2 ≡ g.scalarmul g.point_base secret
      → c
        ≡ challenge usage domain a1 a2 a3
            (drawn a1 chance.r1 chance.c1)
            (zq_public g chance.t2)
            (drawn a3 chance.r3 chance.c3)
            msg
      → rsig_verify g s usage domain
          (signature_of g s chance secret false true false c)
          a1
          a2
          a3
          msg
        ≡ true
  unfolding rsig_verify rsig_calculate_c_from_sigma signature_of calculate_ci calculate_ri
  verify-known_second usage domain chance secret c a1 a2 a3 msg e h =
      let c2 = g.scalar_sub (g.scalar_sub c chance.c1) chance.c3 in
      rw
        (
          rsig_verify,
          rsig_calculate_c_from_sigma,
          drawn_commitment chance.r1 chance.c1 a1,
          known_commitment secret chance.t2 c2 a2 e,
          drawn_commitment chance.r3 chance.c3 a3,
          rsig_calculate_c_lem usage domain a1 a2 a3 (drawn a1 chance.r1 chance.c1)
              (zq_public g chance.t2) (drawn a3 chance.r3 chance.c3) msg,
          sym h,
          sum_second c chance.c1 chance.c3,
          ring.group.scalar_eq_self c,
        )
        refl

  verify-known_third :
      (usage : ℕ) (domain : Bytes) (chance : RingChance g) (secret c : g.Scalar)
      (a1 a2 a3 : g.Point) (msg : Bytes)
      → a3 ≡ g.scalarmul g.point_base secret
      → c
        ≡ challenge usage domain a1 a2 a3
            (drawn a1 chance.r1 chance.c1)
            (drawn a2 chance.r2 chance.c2)
            (zq_public g chance.t3)
            msg
      → rsig_verify g s usage domain
          (signature_of g s chance secret false false true c)
          a1
          a2
          a3
          msg
        ≡ true
  unfolding rsig_verify rsig_calculate_c_from_sigma signature_of calculate_ci calculate_ri
  verify-known_third usage domain chance secret c a1 a2 a3 msg e h =
      let c3 = g.scalar_sub (g.scalar_sub c chance.c1) chance.c2 in
      rw
        (
          rsig_verify,
          rsig_calculate_c_from_sigma,
          drawn_commitment chance.r1 chance.c1 a1,
          drawn_commitment chance.r2 chance.c2 a2,
          known_commitment secret chance.t3 c3 a3 e,
          rsig_calculate_c_lem usage domain a1 a2 a3 (drawn a1 chance.r1 chance.c1)
              (drawn a2 chance.r2 chance.c2) (zq_public g chance.t3) msg,
          sym h,
          sum_third c chance.c1 chance.c2,
          ring.group.scalar_eq_self c,
        )
        refl

  -- The secret is that of exactly one of the three keys, and `public` compares equal to it only.
  pub data IsSigner (secret : g.Scalar) (public a1 a2 a3 : g.Point) : Type 0 where
    first :
        a1 ≡ g.scalarmul g.point_base secret
        → g.point_eq public a1 ≡ true
        → g.point_eq public a2 ≡ false
        → g.point_eq public a3 ≡ false
        → IsSigner secret public a1 a2 a3
    second :
        a2 ≡ g.scalarmul g.point_base secret
        → g.point_eq public a1 ≡ false
        → g.point_eq public a2 ≡ true
        → g.point_eq public a3 ≡ false
        → IsSigner secret public a1 a2 a3
    third :
        a3 ≡ g.scalarmul g.point_base secret
        → g.point_eq public a1 ≡ false
        → g.point_eq public a2 ≡ false
        → g.point_eq public a3 ≡ true
        → IsSigner secret public a1 a2 a3

  -- Whoever has the secret of exactly one of three keys makes a ring signature for the three, and
  -- the verification of the same keys, message, usage and domain accepts it.
  pub rsig_verify-rsig_authenticate :
      (usage : ℕ) (domain : Bytes) (chance : RingChance g) (secret : g.Scalar)
      (public a1 a2 a3 : g.Point) (msg : Bytes)
      → IsSigner secret public a1 a2 a3
      → (sigma : RingSig g) × (rsig_authenticate g s usage domain chance secret public a1 a2 a3 msg
          ≡ some sigma)
        × (rsig_verify g s usage domain sigma a1 a2 a3 msg ≡ true)
  unfolding rsig_authenticate choose_t
  rsig_verify-rsig_authenticate usage domain chance secret public a1 a2 a3 msg (first e x y z) =
      let c =
        challenge usage domain a1 a2 a3 (zq_public g chance.t1) (drawn a2 chance.r2 chance.c2)
          (drawn a3 chance.r3 chance.c3) msg in
      (
        signature_of g s chance secret true false false c,
        rw
            (
              rsig_authenticate,
              x,
              y,
              z,
              choose_t,
              rsig_calculate_c_lem usage domain a1 a2 a3 (zq_public g chance.t1)
                  (drawn a2 chance.r2 chance.c2) (drawn a3 chance.r3 chance.c3) msg,
            )
            refl,
        verify-known_first usage domain chance secret c a1 a2 a3 msg e refl,
      )
  rsig_verify-rsig_authenticate usage domain chance secret public a1 a2 a3 msg (second e x y z) =
      let c =
        challenge usage domain a1 a2 a3 (drawn a1 chance.r1 chance.c1) (zq_public g chance.t2)
          (drawn a3 chance.r3 chance.c3) msg in
      (
        signature_of g s chance secret false true false c,
        rw
            (
              rsig_authenticate,
              x,
              y,
              z,
              choose_t,
              rsig_calculate_c_lem usage domain a1 a2 a3 (drawn a1 chance.r1 chance.c1)
                  (zq_public g chance.t2) (drawn a3 chance.r3 chance.c3) msg,
            )
            refl,
        verify-known_second usage domain chance secret c a1 a2 a3 msg e refl,
      )
  rsig_verify-rsig_authenticate usage domain chance secret public a1 a2 a3 msg (third e x y z) =
      let c =
        challenge usage domain a1 a2 a3 (drawn a1 chance.r1 chance.c1)
          (drawn a2 chance.r2 chance.c2) (zq_public g chance.t3) msg in
      (
        signature_of g s chance secret false false true c,
        rw
            (
              rsig_authenticate,
              x,
              y,
              z,
              choose_t,
              rsig_calculate_c_lem usage domain a1 a2 a3 (drawn a1 chance.r1 chance.c1)
                  (drawn a2 chance.r2 chance.c2) (zq_public g chance.t3) msg,
            )
            refl,
        verify-known_third usage domain chance secret c a1 a2 a3 msg e refl,
      )
