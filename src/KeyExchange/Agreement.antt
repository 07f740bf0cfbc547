-- ===== src/KeyExchange/Agreement.antt =====
-- Both sides of a key exchange of src/ed448.c and src/dh.c compute the same secret.
use libotrv.Prelude.{ℕ, ◌≡◌, refl, sym, ap, ◌≢◌, not, none, some, if◌then◌else◌, Bytes}
use libotrv.Crypto.{Goldilocks, Shake, Gcrypt}
use libotrv.Wire.Keys.{ec_point_encode, ec_point_decode}
use libotrv.KeyExchange.{
  EcdhKeypair, ecdh_valid_secret, ecdh_shared_secret, dh_calculate_public_key, dh_shared_secret,
}

-- Diffie-Hellman over the curve, with the points that `otrng_ec_point_decode` makes of the public
-- keys, modular exponentiation, and the order of the numbers.
pub record ExchangeLaws (g : Goldilocks) (c : Gcrypt) : Type 0 where
  pub scalarmul_secret :
      (x y : Bytes) (p q : g.Point)
      → ec_point_decode g (g.derive_public_key x) ≡ some p
      → ec_point_decode g (g.derive_public_key y) ≡ some q
      → g.scalarmul p (g.derive_secret_scalar y) ≡ g.scalarmul q (g.derive_secret_scalar x)
  pub greater-swap : (p q : c.Mpi) → p ≢ q → c.greater p q ≡ not (c.greater q p)
  pub powm_comm : (b x y m : c.Mpi) → c.powm (c.powm b x m) y m ≡ c.powm (c.powm b y m) x m

module _ (g : Goldilocks) (c : Gcrypt) (s : Shake) (laws : ExchangeLaws g c) where
  -- The pair that `otrng_ecdh_keypair_generate` makes of the bytes.
  pub record IsEcdhPair (sym : Bytes) (pair : EcdhKeypair g) : Type 0 where
    pub secret : pair.priv ≡ g.derive_secret_scalar sym
    pub point : ec_point_decode g (g.derive_public_key sym) ≡ some pair.public

  pub ecdh_shared_secret_comm :
      (len : ℕ) (x y : Bytes) (ours theirs : EcdhKeypair g)
      → IsEcdhPair x ours
      → IsEcdhPair y theirs
      → ecdh_shared_secret g len ours.priv theirs.public
        ≡ ecdh_shared_secret g len theirs.priv ours.public
  unfolding ecdh_shared_secret
  ecdh_shared_secret_comm len x y ours theirs a b =
      let same : g.scalarmul theirs.public ours.priv ≡ g.scalarmul ours.public theirs.priv =
        rw (a.secret, b.secret)
          (sym (laws.scalarmul_secret x y ours.public theirs.public a.point b.point)) in
      ap
        (λ (p : g.Point).
          if g.point_valid p
          then elim (ec_point_encode g len p) [
            | none ↦ none
            | some secret ↦ if ecdh_valid_secret g secret len then some secret else none
          ]
          else none)
        same

  pub dh_shared_secret_comm :
      (x y : c.Mpi)
      → dh_shared_secret c s x (dh_calculate_public_key c s y)
        ≡ dh_shared_secret c s y (dh_calculate_public_key c s x)
  unfolding dh_shared_secret dh_calculate_public_key
  dh_shared_secret_comm x y = rw (laws.powm_comm c.generator y x c.modulus) refl
