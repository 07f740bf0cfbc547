-- ===== src/Ring.antt =====
-- src/auth.c: the ring signature of the key exchange.
pub mod Verify
pub mod Codec
pub mod Tests
use libotrv.Prelude.{
  ℕ, Bool, true, false, not, ◌||◌, Option, none, some, [], ◌∷◌, if◌then◌else◌, Bytes, ◌>>=◌, ◌>>◌,
  require,
}
use libotrv.Crypto.{Goldilocks, Shake}
use libotrv.Kdf.{hash_init_with_usage_and_domain_separation}
use libotrv.Smp.State.{zq_public}

-- In big endian.
abbrev pub base_point_bytes : Bytes
base_point_bytes =
    20 ∷ 250 ∷ 48 ∷ 242 ∷ 91 ∷ 121 ∷ 8 ∷ 152 ∷ 173 ∷ 200 ∷ 215 ∷ 78 ∷ 44 ∷ 19 ∷ 189 ∷ 253 ∷ 196 ∷ 57
    ∷ 124 ∷ 230 ∷ 28 ∷ 255 ∷ 211 ∷ 58 ∷ 215 ∷ 194 ∷ 160 ∷ 5 ∷ 30 ∷ 156 ∷ 120 ∷ 135 ∷ 64 ∷ 152 ∷ 163
    ∷ 108 ∷ 115 ∷ 115 ∷ 234 ∷ 75 ∷ 98 ∷ 199 ∷ 201 ∷ 86 ∷ 55 ∷ 32 ∷ 118 ∷ 136 ∷ 36 ∷ 188 ∷ 182 ∷ 110
    ∷ 113 ∷ 70 ∷ 63 ∷ 105 ∷ 0 ∷ []

abbrev pub prime_order_bytes : Bytes
prime_order_bytes =
    63 ∷ 255 ∷ 255 ∷ 255 ∷ 255 ∷ 255 ∷ 255 ∷ 255 ∷ 255 ∷ 255 ∷ 255 ∷ 255 ∷ 255 ∷ 255 ∷ 255 ∷ 255
    ∷ 255 ∷ 255 ∷ 255 ∷ 255 ∷ 255 ∷ 255 ∷ 255 ∷ 255 ∷ 255 ∷ 255 ∷ 255 ∷ 255 ∷ 124 ∷ 202 ∷ 35 ∷ 233
    ∷ 196 ∷ 78 ∷ 219 ∷ 73 ∷ 174 ∷ 214 ∷ 54 ∷ 144 ∷ 33 ∷ 108 ∷ 194 ∷ 114 ∷ 141 ∷ 197 ∷ 143 ∷ 85 ∷ 35
    ∷ 120 ∷ 194 ∷ 146 ∷ 171 ∷ 88 ∷ 68 ∷ 243 ∷ []

module _ (g : Goldilocks) where
  open g use {
    Point, Scalar, point_base, point_eq, point_add, scalarmul, scalar_add, scalar_sub, scalar_mul,
    scalar_eq, encode, scalar_decode,
  }

  -- `ring_sig_s`
  pub record RingSig : Type 0 where
    pub c1 : Scalar
    pub r1 : Scalar
    pub c2 : Scalar
    pub r2 : Scalar
    pub c3 : Scalar
    pub r3 : Scalar

  -- The random scalars of one signature.
  pub record RingChance : Type 0 where
    pub t1 : Scalar
    pub t2 : Scalar
    pub t3 : Scalar
    pub r1 : Scalar
    pub r2 : Scalar
    pub r3 : Scalar
    pub c1 : Scalar
    pub c2 : Scalar
    pub c3 : Scalar

  unfoldable pub choose_t : Point → Bool → Point → Point → Scalar → Point
  choose_t ai is_secret ri ti ci = if is_secret then ti else point_add ri (scalarmul ai ci)

  unfoldable pub calculate_ci : Scalar → Scalar → Bool → Scalar → Scalar → Scalar
  calculate_ci c ci is_secret cj ck = if is_secret then scalar_sub (scalar_sub c cj) ck else ci

  unfoldable pub calculate_ri : Scalar → Scalar → Bool → Scalar → Scalar → Scalar
  calculate_ri secret ri is_secret ci ti =
      if is_secret then scalar_sub ti (scalar_mul ci secret) else ri

  -- A mask of `goldilocks_bool_t` is all ones or all zeros.
  abbrev pub xor : Bool → Bool → Bool
  xor true b = not b
  xor false b = b

module _ (g : Goldilocks) (s : Shake) where
  open g use {
    Point, Scalar, point_base, point_eq, point_add, scalarmul, scalar_add, scalar_eq, encode,
    scalar_decode,
  }
  open s use {Context, update, final}

  -- `otrng_rsig_calculate_c_with_usage_and_domain`
  unfoldable pub rsig_calculate_c :
      ℕ → Bytes → Point → Point → Point → Point → Point → Point → Bytes → Option Scalar
  rsig_calculate_c usage_auth domain_sep a1 a2 a3 t1 t2 t3 msg = do
    h0 ← hash_init_with_usage_and_domain_separation s usage_auth domain_sep
    h1 ← update h0 base_point_bytes
    h2 ← update h1 prime_order_bytes
    h3 ← update h2 (encode a1)
    h4 ← update h3 (encode a2)
    h5 ← update h4 (encode a3)
    h6 ← update h5 (encode t1)
    h7 ← update h6 (encode t2)
    h8 ← update h7 (encode t3)
    h9 ← update h8 msg
    some (scalar_decode (final h9 64))

  unfoldable pub rsig_calculate_c_from_sigma :
      ℕ → Bytes → RingSig g → Point → Point → Point → Bytes → Option Scalar
  rsig_calculate_c_from_sigma usage domain_sep src a1 a2 a3 msg =
      rsig_calculate_c usage domain_sep a1 a2 a3
        (point_add (scalarmul a1 src.c1) (scalarmul point_base src.r1))
        (point_add (scalarmul a2 src.c2) (scalarmul point_base src.r2))
        (point_add (scalarmul a3 src.c3) (scalarmul point_base src.r3)) msg

  -- The signature for a challenge `c`, where the three tests say whose key the secret is.
  unfoldable pub signature_of : RingChance g → Scalar → Bool → Bool → Bool → Scalar → RingSig g
  signature_of chance secret is_a1 is_a2 is_a3 c =
      let c1 = calculate_ci g c chance.c1 is_a1 chance.c2 chance.c3 in
      let c2 = calculate_ci g c chance.c2 is_a2 chance.c1 chance.c3 in
      let c3 = calculate_ci g c chance.c3 is_a3 chance.c1 chance.c2 in
      record {
        c1 = c1;
        r1 = calculate_ri g secret chance.r1 is_a1 c1 chance.t1;
        c2 = c2;
        r2 = calculate_ri g secret chance.r2 is_a2 c2 chance.t2;
        c3 = c3;
        r3 = calculate_ri g secret chance.r3 is_a3 c3 chance.t3;
      }

  -- `otrng_rsig_authenticate_with_usage_and_domain`
  unfoldable pub rsig_authenticate :
      ℕ → Bytes → RingChance g → Scalar → Point → Point → Point → Point → Bytes → Option (RingSig g)
  rsig_authenticate usage domain_sep chance secret public a1 a2 a3 msg = do
    let is_a1 = point_eq public a1
    let is_a2 = point_eq public a2
    let is_a3 = point_eq public a3
    require (is_a1 || (is_a2 || is_a3))
    require (xor g (xor g is_a1 is_a2) is_a3)
    c ←
        rsig_calculate_c usage domain_sep a1 a2 a3
          (choose_t g a1 is_a1 (zq_public g chance.r1) (zq_public g chance.t1) chance.c1)
          (choose_t g a2 is_a2 (zq_public g chance.r2) (zq_public g chance.t2) chance.c2)
          (choose_t g a3 is_a3 (zq_public g chance.r3) (zq_public g chance.t3) chance.c3) msg
    some (signature_of chance secret is_a1 is_a2 is_a3 c)

  -- `otrng_rsig_verify_with_usage_and_domain`
  unfoldable pub rsig_verify : ℕ → Bytes → RingSig g → Point → Point → Point → Bytes → Bool
  rsig_verify usage domain_sep src a1 a2 a3 msg =
      elim (rsig_calculate_c_from_sigma usage domain_sep src a1 a2 a3 msg) [
        | none ↦ false
        | some c ↦ scalar_eq c (scalar_add (scalar_add src.c1 src.c2) src.c3)
      ]
