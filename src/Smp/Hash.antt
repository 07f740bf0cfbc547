-- ===== src/Smp/Hash.antt =====
-- src/shake.c and the hashing of src/smp_protocol.c.
use libotrv.Prelude.{
  ℕ, Option, none, some, [], ◌∷◌, ltb, ◌==◌, if◌then◌else◌, length, take, Bytes, ◌>>=◌, ◌>>◌,
  require,
}
use libotrv.Crypto.{Goldilocks, Shake, point_bytes, scalar_bytes}
use libotrv.Wire.Keys.{serialize_ec_point}

-- HASH_BYTES and SSID_BYTES.
abbrev pub hash_bytes : ℕ
hash_bytes = 64

module _ (k : Shake) where
  open k use {Context, init, update, final}

  -- The domain is the text "OTRv4".
  unfoldable pub hash_init_with_dom : Option Context
  hash_init_with_dom = update init (79 ∷ 84 ∷ 82 ∷ 118 ∷ 52 ∷ [])

  unfoldable pub hash_init_with_usage : ℕ → Option Context
  hash_init_with_usage usage = do hd ← hash_init_with_dom; update hd (usage ∷ [])

  -- `otrng_generate_smp_secret`: usage 0x1B over the version, the two fingerprints, the session
  -- identifier and the answer.
  unfoldable pub generate_smp_secret : Bytes → Bytes → Bytes → Bytes → Option Bytes
  generate_smp_secret our_fp their_fp ssid answer = do
    h0 ← hash_init_with_usage 27
    h1 ← update h0 (1 ∷ [])
    h2 ← update h1 our_fp
    h3 ← update h2 their_fp
    h4 ← update h3 ssid
    h5 ← update h4 answer
    some (final h5 hash_bytes)

module _ (g : Goldilocks) where
  open g use {Scalar, scalar_encode, scalar_decode}

  unfoldable pub serialize_ec_scalar : Scalar → Bytes
  serialize_ec_scalar s = scalar_encode s

  unfoldable pub deserialize_ec_scalar : Bytes → Option Scalar
  deserialize_ec_scalar ser =
      if ltb (length ser) scalar_bytes then none else some (scalar_decode (take scalar_bytes ser))

module _ (g : Goldilocks) (k : Shake) where
  open g use {Point, Scalar}
  open k use {init, update, final}

  unfoldable pub hash_to_scalar : Bytes → ℕ → Option Scalar
  hash_to_scalar ser_p usage_smp = do
    h0 ← hash_init_with_usage k usage_smp
    h1 ← update h0 ser_p
    deserialize_ec_scalar g (final h1 hash_bytes)

  -- `otrng_serialize_ec_point(ser, p) != ED448_POINT_BYTES` is an error.
  unfoldable pub checked_point : Point → Option Bytes
  checked_point p = do
    require (length (serialize_ec_point g p) == point_bytes)
    some (serialize_ec_point g p)

  -- The hash of one point.
  unfoldable pub hash_point : Point → ℕ → Option Scalar
  hash_point p usage = do ser ← checked_point p; hash_to_scalar ser usage

  -- The hash of two points: they are hashed without a domain first.
  unfoldable pub hash_points : Point → Point → ℕ → Option Scalar
  hash_points p q usage = do
    ser_p ← checked_point p
    ser_q ← checked_point q
    h1 ← update init ser_p
    h2 ← update h1 ser_q
    hash_to_scalar (final h2 hash_bytes) usage
