-- ===== src/Wire/PublicKeys.antt =====
-- src/serialize.c and src/deserialize.c: the long-term keys, which are written with their type in
-- front.
use libotrv.Prelude.{
  ℕ, ◌+◌, ◌^◌, ◌<◌, ◌≡◌, refl, not, Option, some, ◌++◌, append_assoc, arith, ltb, ◌==◌,
  ltb-eq_false, ==-self, length, drop, length-append, Bytes, ◌>>=◌, ◌>>◌, require,
}
use libotrv.Crypto.{Goldilocks, GoldilocksLaws, point_bytes}
use libotrv.Wire.Serialize.{serialize_uint16}
use libotrv.Wire.Deserialize.{deserialize_uint16}
use libotrv.Wire.RoundTrip.{
  deserialize-serialize_uint16, length-serialize_uint16, drop-serialize_uint16,
}
use libotrv.Wire.Keys.{
  serialize_ec_point, deserialize_ec_point, length-serialize_ec_point,
  deserialize-serialize_ec_point,
}

-- ED448_PUBKEY_BYTES, ED448_PUBKEY_TYPE, ED448_SHARED_PREKEY_TYPE and ED448_FORGINGKEY_TYPE.
abbrev pub pubkey_bytes : ℕ
pubkey_bytes = 2 + point_bytes

abbrev pub pubkey_type : ℕ
pubkey_type = 16

abbrev pub shared_prekey_type : ℕ
shared_prekey_type = 17

abbrev pub forging_key_type : ℕ
forging_key_type = 18

module _ (g : Goldilocks) where
  open g use {Point}

  unfoldable pub serialize_public_key : Point → Bytes
  serialize_public_key p = serialize_uint16 pubkey_type ++ serialize_ec_point g p

  unfoldable pub serialize_forging_key : Point → Bytes
  serialize_forging_key p = serialize_uint16 forging_key_type ++ serialize_ec_point g p

  unfoldable pub serialize_shared_prekey : Point → Bytes
  serialize_shared_prekey p = serialize_uint16 shared_prekey_type ++ serialize_ec_point g p

  -- What the three functions below have in common: the key and how many bytes it took.
  unfoldable pub deserialize_typed_key : ℕ → Bytes → Option (Point × ℕ)
  deserialize_typed_key expected ser = do
    require (not (ltb (length ser) pubkey_bytes))
    (type, r) ← deserialize_uint16 ser
    require (expected == type)
    p ← deserialize_ec_point g (drop r ser)
    some (p, pubkey_bytes)

  unfoldable pub deserialize_public_key : Bytes → Option (Point × ℕ)
  deserialize_public_key = deserialize_typed_key pubkey_type

  unfoldable pub deserialize_forging_key : Bytes → Option (Point × ℕ)
  deserialize_forging_key = deserialize_typed_key forging_key_type

  unfoldable pub deserialize_shared_prekey : Bytes → Option (Point × ℕ)
  deserialize_shared_prekey = deserialize_typed_key shared_prekey_type

module _ (g : Goldilocks) (gl : GoldilocksLaws g) where
  open g use {Point}

  length-typed :
      (type : ℕ) (p : Point) → length (serialize_uint16 type ++ serialize_ec_point g p) ≡ 59
  length-typed type p = omega (
    arith,
    length-append (serialize_uint16 type) (serialize_ec_point g p),
    length-serialize_uint16 type,
    length-serialize_ec_point g gl p,
  )

  pub length-serialize_public_key : (p : Point) → length (serialize_public_key g p) ≡ pubkey_bytes
  unfolding serialize_public_key
  length-serialize_public_key p = length-typed 16 p

  pub length-serialize_forging_key : (p : Point) → length (serialize_forging_key g p) ≡ pubkey_bytes
  unfolding serialize_forging_key
  length-serialize_forging_key p = length-typed 18 p

  pub length-serialize_shared_prekey :
      (p : Point) → length (serialize_shared_prekey g p) ≡ pubkey_bytes
  unfolding serialize_shared_prekey
  length-serialize_shared_prekey p = length-typed 17 p

  typed_key_lem :
      (type : ℕ) (p : Point) (rest : Bytes)
      → type < 2 ^ 16
      → deserialize_typed_key g type ((serialize_uint16 type ++ serialize_ec_point g p) ++ rest)
        ≡ some (p, pubkey_bytes)
  unfolding deserialize_typed_key
  typed_key_lem type p rest small =
      let key = serialize_uint16 type ++ serialize_ec_point g p in
      rw
        (ltb-eq_false (length (key ++ rest)) 59
          (omega (arith, length-append key rest, length-typed type p)))
        (rw (append_assoc (serialize_uint16 type) (serialize_ec_point g p) rest) (
          rw
            (
              deserialize-serialize_uint16 type _ small,
              drop-serialize_uint16,
              ==-self type,
              deserialize-serialize_ec_point g gl p rest,
            )
            refl))

  pub deserialize-serialize_public_key :
      (p : Point) (rest : Bytes)
      → deserialize_public_key g (serialize_public_key g p ++ rest) ≡ some (p, pubkey_bytes)
  unfolding deserialize_public_key serialize_public_key
  deserialize-serialize_public_key p rest = typed_key_lem 16 p rest (omega arith)

  pub deserialize-serialize_forging_key :
      (p : Point) (rest : Bytes)
      → deserialize_forging_key g (serialize_forging_key g p ++ rest) ≡ some (p, pubkey_bytes)
  unfolding deserialize_forging_key serialize_forging_key
  deserialize-serialize_forging_key p rest = typed_key_lem 18 p rest (omega arith)

  pub deserialize-serialize_shared_prekey :
      (p : Point) (rest : Bytes)
      → deserialize_shared_prekey g (serialize_shared_prekey g p ++ rest) ≡ some (p, pubkey_bytes)
  unfolding deserialize_shared_prekey serialize_shared_prekey
  deserialize-serialize_shared_prekey p rest = typed_key_lem 17 p rest (omega arith)
