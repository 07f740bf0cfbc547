-- ===== src/Wire/RoundTrip.antt =====
-- The readers of src/deserialize.c on what the writers of src/serialize.c wrote.
use libotrv.Prelude.{
  ℕ, ◌+◌, ◌%◌, ◌^◌, ◌<◌, ◌≡◌, refl, ap, true, none, some, [], ◌∷◌, ◌++◌, append_assoc, arith, ◌==◌,
  if◌then◌else◌, ltb-eq_false, length, drop, length-append, take-length_append, take_prefix, Bytes,
  AreBytes,
}
use libotrv.Wire.Serialize.{
  serialize_uint64, serialize_uint32, serialize_uint16, serialize_uint8, serialize_bytes_array,
  serialize_data, serialize_phi,
}
use libotrv.Wire.Deserialize.{
  deserialize_uint64, deserialize_uint32, deserialize_uint16, deserialize_uint8, DataRead,
  deserialize_payload, deserialize_data, deserialize_bytes_array,
}

-- `otrng_deserialize_uint64` reads back every 64-bit number that `otrng_serialize_uint64` wrote, and
-- takes eight bytes, whatever follows.
pub deserialize-serialize_uint64 :
    (n : ℕ) (rest : Bytes)
    → n < 2 ^ 64
    → deserialize_uint64 (serialize_uint64 n ++ rest) ≡ some (n, 8)
unfolding deserialize_uint64 serialize_uint64
deserialize-serialize_uint64 n rest h = ap (λ (t : ℕ). some (t, 8)) (omega arith)

pub deserialize-serialize_uint32 :
    (n : ℕ) (rest : Bytes)
    → n < 2 ^ 32
    → deserialize_uint32 (serialize_uint32 n ++ rest) ≡ some (n, 4)
unfolding deserialize_uint32 serialize_uint32
deserialize-serialize_uint32 n rest h = ap (λ (t : ℕ). some (t, 4)) (omega arith)

pub deserialize-serialize_uint16 :
    (n : ℕ) (rest : Bytes)
    → n < 2 ^ 16
    → deserialize_uint16 (serialize_uint16 n ++ rest) ≡ some (n, 2)
unfolding deserialize_uint16 serialize_uint16
deserialize-serialize_uint16 n rest h = ap (λ (t : ℕ). some (t, 2)) (omega arith)

pub deserialize-serialize_uint8 :
    (n : ℕ) (rest : Bytes) → n < 2 ^ 8 → deserialize_uint8 (serialize_uint8 n ++ rest) ≡ some (n, 1)
unfolding deserialize_uint8 serialize_uint8
deserialize-serialize_uint8 n rest h = ap (λ (t : ℕ). some (t, 1)) (omega arith)

-- The other direction: what `serialize_uint32` writes of a number that was read is what was read.
pub serialize-deserialize_uint32 :
    (b0 b1 b2 b3 : ℕ) (rest : Bytes) (n r : ℕ)
    → AreBytes (b0 ∷ b1 ∷ b2 ∷ b3 ∷ [])
    → deserialize_uint32 (b0 ∷ b1 ∷ b2 ∷ b3 ∷ rest) ≡ some (n, r)
    → serialize_uint32 n ≡ b0 ∷ b1 ∷ b2 ∷ b3 ∷ []
unfolding deserialize_uint32 serialize_uint32
serialize-deserialize_uint32 b0 b1 b2 b3 rest n r h e = ground arith

pub length-serialize_uint8 : (n : ℕ) → length (serialize_uint8 n) ≡ 1
unfolding serialize_uint8
length-serialize_uint8 n = refl

pub length-serialize_uint16 : (n : ℕ) → length (serialize_uint16 n) ≡ 2
unfolding serialize_uint16
length-serialize_uint16 n = refl

pub length-serialize_uint32 : (n : ℕ) → length (serialize_uint32 n) ≡ 4
unfolding serialize_uint32
length-serialize_uint32 n = refl

pub length-serialize_uint64 : (n : ℕ) → length (serialize_uint64 n) ≡ 8
unfolding serialize_uint64
length-serialize_uint64 n = refl

pub drop-serialize_uint32 : (n : ℕ) (rest : Bytes) → drop 4 (serialize_uint32 n ++ rest) ≡ rest
unfolding serialize_uint32
drop-serialize_uint32 n rest = refl

pub drop-serialize_uint16 : (n : ℕ) (rest : Bytes) → drop 2 (serialize_uint16 n ++ rest) ≡ rest
unfolding serialize_uint16
drop-serialize_uint16 n rest = refl

pub drop-serialize_uint8 : (n : ℕ) (rest : Bytes) → drop 1 (serialize_uint8 n ++ rest) ≡ rest
unfolding serialize_uint8
drop-serialize_uint8 n rest = refl

-- What a reader leaves of `serialize_data bytes`: a pointer, unless there is no byte.
abbrev pub read_back : Bytes → DataRead
read_back bytes = record {
  success = true;
  bytes = if length bytes == 0 then none else some bytes;
  read = 4 + length bytes;
}

deserialize_payload_all :
    (n : ℕ) (bytes rest : Bytes)
    → deserialize_payload (serialize_uint32 n ++ (bytes ++ rest)) (length bytes) 4 ≡ read_back bytes
unfolding deserialize_payload serialize_uint32
deserialize_payload_all n bytes rest =
    ground (arith, length-append bytes rest, take-length_append bytes rest)

pub serialize_data_append :
    (bytes rest : Bytes)
    → length bytes < 2 ^ 32
    → serialize_data (some bytes) (length bytes) ++ rest
      ≡ serialize_uint32 (length bytes) ++ (bytes ++ rest)
unfolding serialize_data serialize_bytes_array
serialize_data_append bytes rest h =
    let e : length bytes % 2 ^ 32 ≡ length bytes = omega arith in
    rw e (append_assoc (serialize_uint32 (length bytes)) bytes rest)

-- `deserialize_data` reads back what `serialize_data` wrote and leaves what follows, for every byte
-- string that a 32-bit length can describe. The output pointer is left alone for the empty one.
pub deserialize-serialize_data :
    (bytes rest : Bytes)
    → length bytes < 2 ^ 32
    → deserialize_data (serialize_data (some bytes) (length bytes) ++ rest) ≡ read_back bytes
unfolding deserialize_data
deserialize-serialize_data bytes rest h = rw (serialize_data_append bytes rest h) (
    rw (deserialize-serialize_uint32 (length bytes) (bytes ++ rest) h, deserialize_data)
      (deserialize_payload_all (length bytes) bytes rest))

-- Both parties of a session serialize the same phi: it does not depend on who sends.
pub serialize_phi_comm :
    (state : Bytes) (sender receiver : ℕ)
    → serialize_phi state sender receiver ≡ serialize_phi state receiver sender
unfolding serialize_phi
serialize_phi_comm state s r = ground arith

pub deserialize_bytes_array_lem :
    (n : ℕ) (bytes rest : Bytes)
    → n ≡ length bytes
    → deserialize_bytes_array n (bytes ++ rest) ≡ some bytes
unfolding deserialize_bytes_array
deserialize_bytes_array_lem n bytes rest e =
    rw (ltb-eq_false (length (bytes ++ rest)) n (omega (arith, e, length-append bytes rest)))
      (ap some (take_prefix n bytes rest e))

pub length-serialize_data :
    (bytes : Bytes) → length (serialize_data (some bytes) (length bytes)) ≡ 4 + length bytes
unfolding serialize_data serialize_bytes_array serialize_uint32
length-serialize_data bytes = omega arith
