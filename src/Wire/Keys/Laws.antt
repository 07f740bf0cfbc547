-- ===== src/Wire/Keys/Laws.antt =====
-- What was written is read back.
use libotrv.Prelude.{
  ℕ, ◌+◌, ◌-◌, ◌^◌, ◌≤◌, ◌<◌, ◌≡◌, refl, sym, ap, Option, none, some, [], ◌∷◌, ◌++◌, arith, ◌==◌,
  if◌then◌else◌, ltb-eq_false, leb-eq_true, length, take, drop, length-append, take-length_append,
  take_prefix, Bytes,
}
use libotrv.Crypto.{
  Goldilocks, GoldilocksLaws, Gcrypt, GcryptLaws, point_bytes, mod_len_bytes, dh_mpi_max_bytes,
}
use libotrv.Wire.Serialize.{serialize_uint32, serialize_bytes_array, serialize_data}
use libotrv.Wire.RoundTrip.{deserialize-serialize_uint32, serialize_data_append}
use libotrv.Wire.Keys.Codec.{
  ec_point_decode, serialize_ec_point, deserialize_ec_point, mpi_set, serialize_mpi, mpi_read_len,
  mpi_deserialize_no_copy, dh_mpi_serialize, dh_mpi_deserialize, serialize_dh_mpi_otr,
  deserialize_dh_mpi_otr,
}

module _ (g : Goldilocks) (laws : GoldilocksLaws g) where
  open g use {Point, encode, decode}
  open laws use {length-encode, decode-encode}

  pub length-serialize_ec_point : (p : Point) → length (serialize_ec_point g p) ≡ point_bytes
  unfolding serialize_ec_point
  length-serialize_ec_point p = length-encode p

  -- A point that was written is read back, whatever follows it.
  pub deserialize-serialize_ec_point :
      (p : Point) (rest : Bytes) → deserialize_ec_point g (serialize_ec_point g p ++ rest) ≡ some p
  unfolding serialize_ec_point deserialize_ec_point ec_point_decode
  deserialize-serialize_ec_point p rest =
      let (q, e, back) = decode-encode p in
      rw
        (ltb-eq_false (length (encode p ++ rest)) 57
          (omega (arith, length-append (encode p) rest, length-encode p)))
        (rw (take_prefix {A = ℕ} 57 (encode p) rest (sym (length-encode p))) (rw e (ap some back)))

mpi_body :
    (n : ℕ) (bytes rest : Bytes)
    → (if length bytes == 0 then record { len = 0; bytes = none } else record {
      len = length bytes;
      bytes = some (take (length bytes) (drop 4 (serialize_uint32 n ++ (bytes ++ rest))));
    })
      ≡ mpi_set bytes
unfolding mpi_set serialize_uint32
mpi_body n [] rest = refl
mpi_body n (b ∷ bytes) rest = ground (arith, take-length_append bytes rest)

serialize_mpi-mpi_set :
    (bytes rest : Bytes)
    → length bytes < 2 ^ 32
    → serialize_data (mpi_set bytes).bytes (mpi_set bytes).len ++ rest
      ≡ serialize_uint32 (length bytes) ++ (bytes ++ rest)
unfolding mpi_set
serialize_mpi-mpi_set [] rest h =
    unfold serialize_data serialize_bytes_array serialize_uint32 in refl
serialize_mpi-mpi_set (b ∷ bytes) rest h = serialize_data_append (b ∷ bytes) rest h

room :
    (n : ℕ) (bytes rest : Bytes) → length bytes ≤ length (serialize_uint32 n ++ (bytes ++ rest)) - 4
unfolding serialize_uint32
room n bytes rest = omega (arith, length-append bytes rest)

pub mpi_deserialize-serialize :
    (bytes rest : Bytes)
    → length bytes < 2 ^ 32
    → mpi_deserialize_no_copy (serialize_mpi (mpi_set bytes) ++ rest) ≡ some (mpi_set bytes, 4)
unfolding mpi_deserialize_no_copy mpi_read_len serialize_mpi
mpi_deserialize-serialize bytes rest h = rw (serialize_mpi-mpi_set bytes rest h) (
    rw (deserialize-serialize_uint32 (length bytes) (bytes ++ rest) h) (
      rw
        (leb-eq_true (length bytes)
          (length (serialize_uint32 (length bytes) ++ (bytes ++ rest)) - 4)
          (room (length bytes) bytes rest))
        (ap (λ m. some (m, 4)) (mpi_body (length bytes) bytes rest))))

module _ (c : Gcrypt) where
  open c use {Mpi, print}

  -- The numbers that the wire format tells from a null pointer.
  abbrev pub IsNumber : Option Mpi → Type 0
  IsNumber none = Unit {0}
  IsNumber (some m) = (0 < length (print m)) × (length (print m) ≤ mod_len_bytes)

  abbrev pub printed : Option Mpi → Bytes
  printed none = []
  printed (some m) = print m

  dh_mpi_serialize_lem :
      (mpi : Option Mpi) → IsNumber mpi → dh_mpi_serialize c mod_len_bytes mpi ≡ some (printed mpi)
  unfolding dh_mpi_serialize
  dh_mpi_serialize_lem none h = refl
  dh_mpi_serialize_lem (some m) h = rw (ltb-eq_false 384 (length (print m)) h.1)

  -- What `serialize_dh_mpi_otr` writes of a number, where the buffer has room for the longest one.
  pub serialize_dh_mpi_otr_lem :
      (len : ℕ) (mpi : Option Mpi)
      → IsNumber mpi
      → dh_mpi_max_bytes ≤ len
      → serialize_dh_mpi_otr c len mpi ≡ some (serialize_mpi (mpi_set (printed mpi)))
  unfolding serialize_dh_mpi_otr
  serialize_dh_mpi_otr_lem len mpi h room =
      rw (leb-eq_true 388 len room) (rw (dh_mpi_serialize_lem mpi h))

module _ (c : Gcrypt) (laws : GcryptLaws c) where
  open c use {Mpi, print, scan}
  open laws use {scan-print}

  dh_mpi_deserialize_scanned :
      (bytes : Bytes) (m : Mpi) (n : ℕ)
      → 0 < length bytes
      → scan bytes ≡ some (m, n)
      → dh_mpi_deserialize c none (mpi_set bytes) ≡ some (some m, n)
  unfolding dh_mpi_deserialize mpi_set
  dh_mpi_deserialize_scanned [] m n h e = elim h [ ]
  dh_mpi_deserialize_scanned (b ∷ bytes) m n h e = ground arith

  dh_mpi_deserialize_lem :
      (mpi : Option Mpi)
      → IsNumber c mpi
      → dh_mpi_deserialize c none (mpi_set (printed c mpi)) ≡ some (mpi, length (printed c mpi))
  dh_mpi_deserialize_lem none h = unfold dh_mpi_deserialize mpi_set in refl
  dh_mpi_deserialize_lem (some m) h =
      dh_mpi_deserialize_scanned (print m) m (length (print m)) h.0 (scan-print m)

  -- A number that `serialize_dh_mpi_otr` wrote, or the null pointer, is read back into a null `*dst`,
  -- whatever follows it, and exactly its bytes are read.
  pub deserialize-serialize_dh_mpi_otr :
      (mpi : Option Mpi) (rest : Bytes)
      → IsNumber c mpi
      → deserialize_dh_mpi_otr c none (serialize_mpi (mpi_set (printed c mpi)) ++ rest)
        ≡ some (mpi, length (printed c mpi) + 4)
  unfolding deserialize_dh_mpi_otr
  deserialize-serialize_dh_mpi_otr mpi rest h =
      rw (mpi_deserialize-serialize (printed c mpi) rest (small mpi h))
        (rw (dh_mpi_deserialize_lem mpi h))
    where
      small : (mpi : Option Mpi) → IsNumber c mpi → length (printed c mpi) < 2 ^ 32
      small none h = omega arith
      small (some m) h = omega (arith, h.1)

pub length-serialize_mpi :
    (bytes : Bytes) → length (serialize_mpi (mpi_set bytes)) ≡ 4 + length bytes
unfolding serialize_mpi mpi_set serialize_data serialize_bytes_array serialize_uint32
length-serialize_mpi [] = refl
length-serialize_mpi (b ∷ bytes) = omega arith
