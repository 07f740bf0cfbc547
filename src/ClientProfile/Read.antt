-- ===== src/ClientProfile/Read.antt =====
-- src/client_profile.c: how a profile is read.
use libotrv.Prelude.{
  ℕ, zero, suc, ◌+◌, not, Option, none, some, List, [], ◌∷◌, ltb, ◌==◌, if◌then◌else◌, length, take,
  drop, replicate, Bytes, ◌>>=◌, ◌>>◌, require,
}
use libotrv.Crypto.{Goldilocks, Gcrypt, Libotr}
use libotrv.Wire.Deserialize.{
  deserialize_uint64, deserialize_uint32, deserialize_uint16, deserialize_uint8, DataRead,
  deserialize_data, deserialize_bytes_array,
}
use libotrv.Wire.PublicKeys.{deserialize_public_key, deserialize_forging_key}
use libotrv.Wire.Keys.{mpi_deserialize_no_copy, deserialize_dh_mpi_otr}
use libotrv.Keys.{signature_bytes}
use libotrv.ClientProfile.{dsa_sig_bytes, ClientProfile, client_profile_zero}

-- The string that begins at the bytes, which a NUL ends.
unfoldable pub c_string : Bytes → Bytes
c_string [] = []
c_string (b ∷ bs) = if b == 0 then [] else b ∷ c_string bs

-- `versions` of length 0 where `otrng_deserialize_data` leaves the null pointer.
unfoldable pub or_no_bytes : Option Bytes → Bytes
or_no_bytes none = []
or_no_bytes (some bytes) = bytes

-- The loop over the numbers of a DSA key: how many bytes they take.
unfoldable pub read_numbers : ℕ → Bytes → Option ℕ
read_numbers zero buffer = some 0
read_numbers (suc i) buffer = do
  (mpi, r) ← mpi_deserialize_no_copy buffer
  w ← read_numbers i (drop (r + mpi.len) buffer)
  some (r + mpi.len + w)

-- OTRL_PUBKEY_TYPE_DSA
abbrev pub pubkey_type_dsa : ℕ
pubkey_type_dsa = 0

-- The key and how many bytes it took.
unfoldable pub deserialize_dsa_key_field : Bytes → Option (Bytes × ℕ)
deserialize_dsa_key_field buffer = do
  (key_type, r) ← deserialize_uint16 buffer
  require (key_type == pubkey_type_dsa)
  w ← read_numbers 4 (drop r buffer)
  some (take (r + w) buffer, r + w)

module _ (g : Goldilocks) where
  open g use {Point}

  unfoldable pub deserialize_versions : ClientProfile g → DataRead → Option (ClientProfile g × ℕ)
  deserialize_versions target read = do
    require read.success
    some (record target { versions = some (c_string (or_no_bytes read.bytes)) }, read.read)

  -- One case for each field. A field of another type is passed over with its type only.
  unfoldable pub deserialize_value : ClientProfile g → ℕ → Bytes → Option (ClientProfile g × ℕ)
  deserialize_value target field_type buffer =
      if field_type == 1
      then (deserialize_uint32 buffer >>= λ (tag, r).
          some (record target { sender_instance_tag = tag }, r))
      else if field_type == 2
      then (deserialize_public_key g buffer >>= λ (p, r).
          some (record target { long_term_pub_key = p }, r))
      else if field_type == 3
      then (deserialize_forging_key g buffer >>= λ (p, r).
          some (record target { forging_pub_key = p }, r))
      else if field_type == 4
      then deserialize_versions target (deserialize_data buffer)
      else if field_type == 5
      then (deserialize_uint64 buffer >>= λ (expires, r).
          some (record target { expires = expires }, r))
      else if field_type == 6
      then (deserialize_dsa_key_field buffer >>= λ (key, r).
          some (record target { dsa_key = some key }, r))
      else if field_type == 7
      then (deserialize_bytes_array dsa_sig_bytes buffer >>= λ sig.
          some (record target { transitional_signature = some sig }, dsa_sig_bytes))
      else some (target, 0)

  unfoldable pub deserialize_field : ClientProfile g → Bytes → Option (ClientProfile g × ℕ)
  deserialize_field target buffer = do
    (field_type, r) ← deserialize_uint16 buffer
    (target, w) ← deserialize_value target field_type (drop r buffer)
    some (target, r + w)

  -- The loop over the fields, and how many bytes they take.
  unfoldable pub deserialize_fields : ℕ → ClientProfile g → Bytes → Option (ClientProfile g × ℕ)
  deserialize_fields zero target buffer = some (target, 0)
  deserialize_fields (suc num_fields) target buffer = do
    (target, r) ← deserialize_field target buffer
    (target, w) ← deserialize_fields num_fields target (drop r buffer)
    some (target, r + w)

  -- The profile and how many bytes it took; `p` is the point structure with zero bytes.
  unfoldable pub client_profile_deserialize : Point → Bytes → Option (ClientProfile g × ℕ)
  client_profile_deserialize p buffer = do
    (num_fields, r) ← deserialize_uint32 buffer
    (target, w) ← deserialize_fields num_fields (client_profile_zero g p) (drop r buffer)
    let rest = drop (r + w) buffer
    require (not (ltb (length rest) signature_bytes))
    some (record target { signature = take signature_bytes rest }, r + w + signature_bytes)

  unfoldable pub client_profile_deserialize_with_metadata :
      Point → Bytes → Option (ClientProfile g × ℕ)
  client_profile_deserialize_with_metadata p buffer = do
    (target, nread1) ← client_profile_deserialize p buffer
    (should_publish, nread2) ← deserialize_uint8 (drop nread1 buffer)
    some (record target { should_publish = should_publish }, nread1 + nread2)

module _ (c : Gcrypt) (o : Libotr c) where
  -- The numbers of a DSA key, of which those that are left stay null where the buffer ends.
  unfoldable pub dsa_numbers : ℕ → Bytes → Option (List (Option c.Mpi))
  dsa_numbers zero buffer = some []
  dsa_numbers (suc i) buffer =
      if length buffer == 0
      then some (replicate (suc i) none)
      else (deserialize_dh_mpi_otr c none buffer >>= λ (m, r).
          dsa_numbers i (drop r buffer) >>= λ ms. some (m ∷ ms))

  unfoldable pub generate_dsa_key_sexp : Bytes → Option o.Sexp
  generate_dsa_key_sexp buffer = do
    require (not (length buffer == 0))
    (key_type, r) ← deserialize_uint16 buffer
    require (key_type == pubkey_type_dsa)
    ms ← dsa_numbers 4 (drop r buffer)
    o.sexp_build ms
