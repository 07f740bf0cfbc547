-- ===== src/Wire/Keys/Codec.antt =====
-- The functions. A result is the bytes written, or the value with the number of bytes read.
use libotrv.Prelude.{
  ℕ, ◌+◌, ◌-◌, Option, none, some, [], ◌∷◌, ltb, leb, ◌==◌, if◌then◌else◌, length, take, drop,
  Bytes, ◌>>=◌, ◌>>◌, require,
}
use libotrv.Crypto.{Goldilocks, Gcrypt, point_bytes, mod_len_bytes, dh_mpi_max_bytes}
use libotrv.Wire.Serialize.{serialize_data}
use libotrv.Wire.Deserialize.{deserialize_uint32}

module _ (g : Goldilocks) where
  open g use {Point, encode, decode, scalar_one, scalar_halve, scalarmul}

  unfoldable pub ec_point_encode : ℕ → Point → Option Bytes
  ec_point_encode len p = if ltb len point_bytes then none else some (encode p)

  -- `p = tmp_p * (1 / 4)`
  unfoldable pub ec_point_decode : Bytes → Option Point
  ec_point_decode enc =
      decode enc >>= λ tmp_p. some (scalarmul tmp_p (scalar_halve (scalar_halve scalar_one)))

  abbrev written : Option Bytes → Bytes
  written none = []
  written (some bytes) = bytes

  -- Where the point cannot be encoded nothing is written, and 0 is returned.
  unfoldable pub serialize_ec_point : Point → Bytes
  unfolding ec_point_encode
  serialize_ec_point p = written (ec_point_encode point_bytes p)

  unfoldable pub deserialize_ec_point : Bytes → Option Point
  deserialize_ec_point ser =
      if ltb (length ser) point_bytes then none else ec_point_decode (take point_bytes ser)

-- `otrng_mpi_s`; `bytes` is `none` for a null `data`.
pub record MpiData : Type 0 where
  pub len : ℕ
  pub bytes : Option Bytes

unfoldable pub mpi_set : Bytes → MpiData
mpi_set [] = record { len = 0; bytes = none }
mpi_set (b ∷ src) = record { len = length (b ∷ src); bytes = some (b ∷ src) }

unfoldable pub serialize_mpi : MpiData → Bytes
serialize_mpi m = serialize_data m.bytes m.len

-- `otr_mpi_read_len`: the length and the four bytes that it took.
unfoldable pub mpi_read_len : Bytes → Option (ℕ × ℕ)
mpi_read_len src = do
  (len, r) ← deserialize_uint32 src
  require (leb len (length src - r))
  some (len, r)

-- The number points into the buffer; `*read` counts the length field only.
unfoldable pub mpi_deserialize_no_copy : Bytes → Option (MpiData × ℕ)
mpi_deserialize_no_copy src = do
  (len, r) ← mpi_read_len src
  some (
    if len == 0
        then record { len = 0; bytes = none }
        else record { len = len; bytes = some (take len (drop r src)) },
    r,
  )

abbrev or_empty : Option Bytes → Bytes
or_empty none = []
or_empty (some bytes) = bytes

module _ (c : Gcrypt) where
  open c use {Mpi, print, scan, zero_mpi}

  abbrev null_or_zero : Option Mpi → Option Mpi
  null_or_zero none = none
  null_or_zero (some _) = some zero_mpi

  -- A null number is written as no byte.
  unfoldable pub dh_mpi_serialize : ℕ → Option Mpi → Option Bytes
  dh_mpi_serialize dst_len none = some []
  dh_mpi_serialize dst_len (some m) =
      if ltb dst_len (length (print m)) then none else some (print m)

  -- The first argument is `*dst` before the call: at a length of 0 the number that it points to is
  -- set to 0, and a null pointer stays null. Then `*nread` is not written, and is 0 in the caller.
  unfoldable pub dh_mpi_deserialize : Option Mpi → MpiData → Option (Option Mpi × ℕ)
  dh_mpi_deserialize dst m =
      if m.len == 0
      then some (null_or_zero dst, 0)
      else scan (or_empty m.bytes) >>= λ (n, w). some (some n, w)

  unfoldable pub serialize_dh_mpi_otr : ℕ → Option Mpi → Option Bytes
  serialize_dh_mpi_otr dst_len mpi = do
    require (leb dh_mpi_max_bytes dst_len)
    buffer ← dh_mpi_serialize mod_len_bytes mpi
    some (serialize_mpi (mpi_set buffer))

  unfoldable pub deserialize_dh_mpi_otr : Option Mpi → Bytes → Option (Option Mpi × ℕ)
  deserialize_dh_mpi_otr dst buffer = do
    (mpi, r) ← mpi_deserialize_no_copy buffer
    (n, w) ← dh_mpi_deserialize dst mpi
    some (n, w + 4)
