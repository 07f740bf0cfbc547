-- ===== src/ClientProfile/DsaKey.antt =====
-- src/client_profile.c: the DSA key of a profile is read as it was written.
use libotrv.Prelude.{
  ℕ, suc, ◌+◌, ◌^◌, ◌<◌, ◌≡◌, refl, sym, ap, some, [], ◌∷◌, ◌++◌, append_assoc, arith, length, drop,
  length-append, take_prefix, drop_prefix, Bytes, ◌>>=◌,
}
use libotrv.Wire.Deserialize.{deserialize_uint16}
use libotrv.Wire.Serialize.{serialize_uint16}
use libotrv.Wire.RoundTrip.{
  deserialize-serialize_uint16, length-serialize_uint16, drop-serialize_uint16,
}
use libotrv.Wire.Keys.{
  MpiData, mpi_set, serialize_mpi, mpi_deserialize_no_copy, mpi_deserialize-serialize,
  length-serialize_mpi,
}
use libotrv.ClientProfile.Read.{read_numbers, deserialize_dsa_key_field}

-- A DSA key of version 3, as `otrng_serialize` of the four numbers: the type and the numbers.
unfoldable pub dsa_key_of : Bytes → Bytes → Bytes → Bytes → Bytes
dsa_key_of p q g y =
    serialize_uint16 0
    ++ (serialize_mpi (mpi_set p)
        ++ (serialize_mpi (mpi_set q) ++ (serialize_mpi (mpi_set g) ++ serialize_mpi (mpi_set y))))

pub record DsaKey (key : Bytes) : Type 0 where
  pub p : Bytes
  pub q : Bytes
  pub g : Bytes
  pub y : Bytes
  pub made : key ≡ dsa_key_of p q g y
  pub small : length key < 2 ^ 31

len-mpi_set : (bytes : Bytes) → (mpi_set bytes).len ≡ length bytes
unfolding mpi_set
len-mpi_set [] = refl
len-mpi_set (b ∷ bytes) = refl

read_numbers-suc :
    (i : ℕ) (buffer : Bytes)
    → read_numbers (suc i) buffer ≡ (
        mpi_deserialize_no_copy buffer >>= λ (mpi, r).
        read_numbers i (drop (r + mpi.len) buffer) >>= λ w. some (r + mpi.len + w))
unfolding read_numbers
read_numbers-suc i buffer = refl

read_numbers-read :
    (i n w : ℕ) (m : MpiData) (buffer rest : Bytes)
    → mpi_deserialize_no_copy buffer ≡ some (m, 4)
    → m.len ≡ n
    → drop (4 + n) buffer ≡ rest
    → read_numbers i rest ≡ some w
    → read_numbers (suc i) buffer ≡ some (4 + n + w)
read_numbers-read i n w m buffer rest read len behind e =
    rw (read_numbers-suc i buffer, read) (rw (len, behind, e) refl)

-- One step of the loop over the numbers.
read_numbers-step :
    (i w : ℕ) (bytes rest : Bytes)
    → length bytes < 2 ^ 32
    → read_numbers i rest ≡ some w
    → read_numbers (suc i) (serialize_mpi (mpi_set bytes) ++ rest) ≡ some (4 + length bytes + w)
read_numbers-step i w bytes rest small =
    read_numbers-read i (length bytes) w (mpi_set bytes) _ rest
      (mpi_deserialize-serialize bytes rest small) (len-mpi_set bytes)
      (drop_prefix {A = ℕ} (4 + length bytes) (serialize_mpi (mpi_set bytes)) rest
        (sym (length-serialize_mpi bytes)))

read_numbers-none : (rest : Bytes) → read_numbers 0 rest ≡ some 0
unfolding read_numbers
read_numbers-none rest = refl

length-dsa_key_of :
    (p q g y : Bytes)
    → length (dsa_key_of p q g y)
      ≡ 2 + (4 + length p + (4 + length q + (4 + length g + (4 + length y + 0))))
unfolding dsa_key_of
length-dsa_key_of p q g y =
    let m : Bytes → Bytes = λ b. serialize_mpi (mpi_set b) in
    omega (
      arith,
      length-append (serialize_uint16 0) (m p ++ (m q ++ (m g ++ m y))),
      length-serialize_uint16 0,
      length-append (m p) (m q ++ (m g ++ m y)),
      length-append (m q) (m g ++ m y),
      length-append (m g) (m y),
      length-serialize_mpi p,
      length-serialize_mpi q,
      length-serialize_mpi g,
      length-serialize_mpi y,
    )

read_dsa_key_of :
    (p q g y rest : Bytes)
    → length (dsa_key_of p q g y) < 2 ^ 31
    → deserialize_dsa_key_field (dsa_key_of p q g y ++ rest)
      ≡ some (dsa_key_of p q g y, length (dsa_key_of p q g y))
unfolding deserialize_dsa_key_field
read_dsa_key_of p q g y rest small =
    let m : Bytes → Bytes = λ b. serialize_mpi (mpi_set b) in
    let len = length-dsa_key_of p q g y in
    let flat : dsa_key_of p q g y ++ rest
        ≡ serialize_uint16 0 ++ (m p ++ (m q ++ (m g ++ (m y ++ rest)))) =
      unfold dsa_key_of in simp append_assoc in
    let numbers = read_numbers-step 3 _ p _ (omega (arith, len, small)) (
      read_numbers-step 2 _ q _ (omega (arith, len, small)) (
        read_numbers-step 1 _ g _ (omega (arith, len, small))
          (read_numbers-step 0 _ y _ (omega (arith, len, small)) (read_numbers-none rest)))) in
    let read : deserialize_uint16 (dsa_key_of p q g y ++ rest) ≡ some (0, 2) =
      rw flat (deserialize-serialize_uint16 0 _ (omega arith)) in
    let behind : drop 2 (dsa_key_of p q g y ++ rest) ≡ m p ++ (m q ++ (m g ++ (m y ++ rest))) =
      rw flat (drop-serialize_uint16 0 _) in
    rw (read, behind, numbers)
      (rw
        (sym len, take_prefix {A = ℕ} (length (dsa_key_of p q g y)) (dsa_key_of p q g y) rest refl)
        refl)

pub read-DsaKey :
    (key rest : Bytes)
    → DsaKey key
    → deserialize_dsa_key_field (key ++ rest) ≡ some (key, length key)
read-DsaKey key rest k = rw k.made (read_dsa_key_of k.p k.q k.g k.y rest (rw (sym k.made) k.small))

pub DsaKey-long : (key : Bytes) → DsaKey key → 0 < length key
DsaKey-long key k = omega (arith, ap length k.made, length-dsa_key_of k.p k.q k.g k.y)
