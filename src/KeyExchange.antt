-- ===== src/KeyExchange.antt =====
-- src/dh.c and src/ed448.c: the key pairs and the shared secrets of Diffie-Hellman over the
-- 3072-bit group and over the curve.
use libotrv.Prelude.{
  ℕ, sym, Bool, true, false, not, ◌||◌, Option, none, some, [], ◌∷◌, ltb, leb, ◌==◌, if◌then◌else◌,
  length, take, Bytes,
}
use libotrv.Crypto.{Goldilocks, Shake, Gcrypt, point_bytes, mod_len_bytes}
use libotrv.Wire.Keys.{ec_point_encode, ec_point_decode}
use libotrv.Kdf.{shake_256_kdf1, shake_256_hash}
use libotrv.Run.{Run, success, ◌>>=◌, attempt}
pub mod Agreement
pub mod Tests

-- DH_KEY_SIZE, ED448_PRIVATE_BYTES and SHARED_SECRET_BYTES.
abbrev pub dh_key_size : ℕ
dh_key_size = 80

abbrev pub ed448_private_bytes : ℕ
ed448_private_bytes = 57

abbrev pub shared_secret_bytes : ℕ
shared_secret_bytes = 64

-- The loop of `otrng_is_empty_array` over the whole of its buffer.
unfoldable pub is_empty_array : Bytes → Bool
is_empty_array [] = true
is_empty_array (b ∷ bs) = if b == 0 then is_empty_array bs else false

-- The `participant` of the functions below: 'u' or 't'.
pub data Participant : Type 0 where
  participant_u : Participant
  participant_t : Participant

module _ (g : Goldilocks) where
  open g use {
    Point, Scalar, scalarmul, point_valid, derive_secret_scalar, derive_public_key, point_destroyed,
    scalar_destroyed,
  }

  -- `ecdh_keypair_s`; `public` is the field `pub`.
  pub record EcdhKeypair : Type 0 where
    pub public : Point
    pub priv : Scalar

  -- Where the point does not decode, the old public key stays beside the new private one.
  unfoldable pub ecdh_keypair_generate : Bytes → EcdhKeypair → Run EcdhKeypair EcdhKeypair
  ecdh_keypair_generate sym keypair = do
    let keypair = record keypair { priv = derive_secret_scalar sym }
    point ← attempt keypair (ec_point_decode g (derive_public_key sym))
    success (record keypair { public = point })

  unfoldable pub ecdh_keypair_generate_their : Bytes → Option Point
  ecdh_keypair_generate_their sym = ec_point_decode g (derive_public_key sym)

  unfoldable pub ecdh_keypair_destroy : EcdhKeypair
  ecdh_keypair_destroy = record { public = point_destroyed; priv = scalar_destroyed }

  unfoldable pub ecdh_valid_secret : Bytes → ℕ → Bool
  ecdh_valid_secret shared_secret len =
      if ltb len point_bytes then false else not (is_empty_array (take point_bytes shared_secret))

  -- `none` is OTRNG_ERROR; the caller drops what stands in the buffer then.
  unfoldable pub ecdh_shared_secret : ℕ → Scalar → Point → Option Bytes
  ecdh_shared_secret len our_priv their_pub =
      if point_valid (scalarmul their_pub our_priv)
      then elim (ec_point_encode g len (scalarmul their_pub our_priv)) [
        | none ↦ none
        | some secret ↦ if ecdh_valid_secret secret len then some secret else none
      ]
      else none

module _ (c : Gcrypt) (s : Shake) where
  open c use {Mpi, scan, print, powm, generator, modulus, less_ui, greater, modulus_minus_2}

  -- `dh_keypair_s`; a null pointer is `none`.
  pub record DhKeypair : Type 0 where
    pub public : Option Mpi
    pub priv : Option Mpi

  unfoldable pub dh_calculate_public_key : Mpi → Mpi
  dh_calculate_public_key priv = powm generator priv modulus

  -- The pair of the private key that is scanned from the bytes.
  unfoldable pub keypair_from : Bytes → Option DhKeypair
  keypair_from bytes = elim (scan bytes) [
    | none ↦ none
    | some (priv, _) ↦
        some (record { public = some (dh_calculate_public_key priv); priv = some priv })
  ]

  -- `otrng_dh_keypair_generate`; `sec_buffer` is what gcry_random_bytes_secure returns.
  unfoldable pub dh_keypair_generate : Bytes → Option DhKeypair
  dh_keypair_generate sec_buffer = elim (shake_256_hash s dh_key_size sec_buffer) [
    | none ↦ none
    | some hash ↦ keypair_from hash
  ]

  -- For 't', `priv` of the key pair stays as it is in `keypair`.
  abbrev pub keep_priv : Participant → DhKeypair → DhKeypair → DhKeypair
  keep_priv participant_u keypair new = new
  keep_priv participant_t keypair new = record keypair { public = new.public }

  -- `otrng_dh_keypair_generate_from_shared_secret`
  unfoldable pub dh_keypair_generate_from_shared_secret :
      Bytes → DhKeypair → Participant → Option DhKeypair
  dh_keypair_generate_from_shared_secret shared_secret keypair participant =
      elim (shake_256_kdf1 s dh_key_size 19 shared_secret) [
        | none ↦ none
        | some random_buffer ↦ elim (keypair_from random_buffer) [
          | none ↦ none
          | some new ↦ some (keep_priv participant keypair new)
        ]
      ]

  unfoldable pub dh_priv_key_destroy : DhKeypair → DhKeypair
  dh_priv_key_destroy keypair = record keypair { priv = none }

  unfoldable pub dh_keypair_destroy : DhKeypair
  dh_keypair_destroy = record { public = none; priv = none }

  -- `otrng_dh_shared_secret` of keys that are not null: the bytes written to the buffer.
  unfoldable pub dh_shared_secret : Mpi → Mpi → Option Bytes
  dh_shared_secret our_priv their_pub =
      let bytes = print (powm their_pub our_priv modulus) in
      if leb (length bytes) mod_len_bytes then some bytes else none

  -- `otrng_dh_mpi_valid`
  unfoldable pub dh_mpi_valid : Option Mpi → Bool
  dh_mpi_valid none = false
  dh_mpi_valid (some mpi) = not (less_ui mpi 2 || greater mpi modulus_minus_2)
