-- ===== src/Crypto.antt =====
-- The third-party libraries that the sources call: libgoldilocks for the Ed448 curve and the hash,
-- libgcrypt for multi-precision integers, libsodium, libotr. They are parameters of the model.
use libotrv.Prelude.{ℕ, ◌+◌, ◌≡◌, Bool, true, Option, some, List, length, Bytes}

-- `goldilocks_448_point_p`, `goldilocks_448_scalar_p` and the calls on them that src/ed448.c makes.
pub record Goldilocks : Type 1 where
  pub Point : Type 0
  pub Scalar : Type 0
  -- goldilocks_448_point_mul_by_ratio_and_encode_like_eddsa
  pub encode : Point → Bytes
  -- goldilocks_448_point_decode_like_eddsa_and_mul_by_ratio
  pub decode : Bytes → Option Point
  pub scalar_one : Scalar
  pub scalar_halve : Scalar → Scalar
  pub scalarmul : Point → Scalar → Point
  pub point_base : Point
  pub point_add : Point → Point → Point
  pub point_sub : Point → Point → Point
  pub point_eq : Point → Point → Bool
  pub point_valid : Point → Bool
  pub scalar_add : Scalar → Scalar → Scalar
  pub scalar_mul : Scalar → Scalar → Scalar
  pub scalar_sub : Scalar → Scalar → Scalar
  pub scalar_eq : Scalar → Scalar → Bool
  pub scalar_encode : Scalar → Bytes
  -- goldilocks_448_scalar_decode_long
  pub scalar_decode : Bytes → Scalar
  -- goldilocks_ed448_derive_secret_scalar and goldilocks_ed448_derive_public_key
  pub derive_secret_scalar : Bytes → Scalar
  pub derive_public_key : Bytes → Bytes
  -- What goldilocks_448_point_destroy and goldilocks_448_scalar_destroy leave.
  pub point_destroyed : Point
  pub scalar_destroyed : Scalar

-- What the library documents of its encoding: 57 bytes, which decode to a multiple of the point by
-- the cofactor 4.
pub record GoldilocksLaws (g : Goldilocks) : Type 0 where
  pub length-encode : (p : g.Point) → length (g.encode p) ≡ 57
  pub decode-encode :
      (p : g.Point)
      → (q : g.Point) × (g.decode (g.encode p) ≡ some q)
        × (g.scalarmul q (g.scalar_halve (g.scalar_halve g.scalar_one)) ≡ p)
  pub length-scalar_encode : (s : g.Scalar) → length (g.scalar_encode s) ≡ 56
  pub decode-scalar_encode : (s : g.Scalar) → g.scalar_decode (g.scalar_encode s) ≡ s

-- The SHAKE-256 context of libgoldilocks, which the sources call hash_init, hash_update, hash_final.
pub record Shake : Type 1 where
  pub Context : Type 0
  pub init : Context
  -- `none` is GOLDILOCKS_FAILURE.
  pub update : Context → Bytes → Option Context
  pub final : Context → ℕ → Bytes

-- `gcry_mpi_t` that is not null, in the format GCRYMPI_FMT_USG.
pub record Gcrypt : Type 1 where
  pub Mpi : Type 0
  -- The bytes that gcry_mpi_print writes where the buffer has room for them.
  pub print : Mpi → Bytes
  -- gcry_mpi_scan: the number and how many bytes it took.
  pub scan : Bytes → Option (Mpi × ℕ)
  -- gcry_mpi_set_ui(m, 0)
  pub zero_mpi : Mpi
  -- gcry_mpi_powm: the base, the exponent and the modulus.
  pub powm : Mpi → Mpi → Mpi → Mpi
  -- gcry_mpi_cmp(a, b) > 0
  pub greater : Mpi → Mpi → Bool
  -- gcry_mpi_cmp_ui(a, n) < 0
  pub less_ui : Mpi → ℕ → Bool
  -- What gcry_mpi_scan makes of the constants DH3072_MODULUS_S and DH3072_GENERATOR_S of src/dh.c,
  -- and gcry_mpi_sub_ui of the modulus and 2.
  pub modulus : Mpi
  pub generator : Mpi
  pub modulus_minus_2 : Mpi

-- A number that was printed is scanned again, and all its bytes are used.
pub record GcryptLaws (c : Gcrypt) : Type 0 where
  pub scan-print : (m : c.Mpi) → c.scan (c.print m) ≡ some (m, length (c.print m))

-- libsodium.
pub record Sodium : Type 0 where
  -- sodium_memcmp of two buffers of the same length, 0
  pub equal : Bytes → Bytes → Bool
  -- crypto_stream_xor: the message, the nonce and the key.
  pub stream_xor : Bytes → Bytes → Bytes → Option Bytes

-- Equal buffers compare equal; a stream added twice gives the message back, and keeps its length.
pub record SodiumLaws (d : Sodium) : Type 0 where
  pub equal-self : (b : Bytes) → d.equal b b ≡ true
  pub stream_xor-stream_xor :
      (b nonce key e : Bytes)
      → d.stream_xor b nonce key ≡ some e
      → d.stream_xor e nonce key ≡ some b
  pub length-stream_xor :
      (b nonce key e : Bytes) → d.stream_xor b nonce key ≡ some e → length e ≡ length b

-- The signatures of libgoldilocks, without context: goldilocks_ed448_sign of the symmetric key, the
-- public key and the message, and goldilocks_ed448_verify of the signature, the public key and the
-- message.
pub record Eddsa : Type 0 where
  pub sign : Bytes → Bytes → Bytes → Bytes
  pub verify : Bytes → Bytes → Bytes → Bool

-- A signature has 114 bytes and verifies with the public key. The public key of a symmetric key
-- decodes, and the point, which is in the subgroup, is encoded as it was.
pub record EddsaLaws (g : Goldilocks) (e : Eddsa) : Type 0 where
  pub length-sign : (sym public msg : Bytes) → length (e.sign sym public msg) ≡ 114
  pub verify-sign :
      (sym msg : Bytes)
      → e.verify (e.sign sym (g.derive_public_key sym) msg) (g.derive_public_key sym) msg ≡ true
  pub decode-derive_public_key :
      (sym : Bytes)
      → (q : g.Point) × (g.decode (g.derive_public_key sym) ≡ some q)
        × (g.encode (g.scalarmul q (g.scalar_halve (g.scalar_halve g.scalar_one)))
            ≡ g.derive_public_key sym)

-- The keys of version 3, of libotr, with their numbers in libgcrypt.
pub record Libotr (c : Gcrypt) : Type 1 where
  pub Sexp : Type 0
  -- gcry_sexp_build with DSA_PUBKEY_SEXP, of the four numbers.
  pub sexp_build : List (Option c.Mpi) → Option Sexp
  -- otrl_privkey_verify, where no error is true.
  pub privkey_verify : Bytes → Sexp → Bytes → Bool
  -- `OtrlPrivKey`, its fields pubkey_type and pubkey_data, and otrl_privkey_sign.
  pub PrivKey : Type 0
  pub pubkey_type : PrivKey → ℕ
  pub pubkey_data : PrivKey → Bytes
  pub privkey_sign : PrivKey → Bytes → Option Bytes

-- ED448_POINT_BYTES, ED448_SCALAR_BYTES, DH3072_MOD_LEN_BYTES and DH_MPI_MAX_BYTES.
abbrev pub point_bytes : ℕ
point_bytes = 57

abbrev pub scalar_bytes : ℕ
scalar_bytes = 56

abbrev pub mod_len_bytes : ℕ
mod_len_bytes = 384

abbrev pub dh_mpi_max_bytes : ℕ
dh_mpi_max_bytes = 4 + mod_len_bytes
