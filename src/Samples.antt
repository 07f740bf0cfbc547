-- ===== src/Samples.antt =====
-- Concrete stand-ins for the third-party libraries, for the tests of the other modules.
use libotrv.Prelude.{
  ℕ, ◌+◌, ◌-◌, ◌*◌, ◌≡◌, refl, sym, ap, Bool, true, false, Option, none, some, [], ◌∷◌, ◌++◌, arith,
  ltb, ◌==◌, if◌then◌else◌, ==-self, length, take, replicate, Bytes,
}
use libotrv.Crypto.{
  Goldilocks, GoldilocksLaws, Shake, Gcrypt, GcryptLaws, Sodium, SodiumLaws, Eddsa, EddsaLaws,
  Libotr,
}

abbrev pub first_byte : Bytes → ℕ
first_byte [] = 0
first_byte (b ∷ _) = b

abbrev decoded : Bytes → Option ℕ
decoded [] = none
decoded (b ∷ _) = some b

abbrev pub sample_curve : Goldilocks
sample_curve = record {
  Point = ℕ;
  Scalar = ℕ;
  encode = λ p. p ∷ replicate 56 0;
  decode = decoded;
  scalar_one = 1;
  scalar_halve = λ s. s;
  scalarmul = λ p s. p * s;
  point_base = 1;
  point_add = λ p q. p + q;
  point_sub = λ p q. p - q;
  point_eq = λ p q. p == q;
  point_valid = λ p. true;
  scalar_add = λ s t. s + t;
  scalar_mul = λ s t. s * t;
  scalar_sub = λ s t. s - t;
  scalar_eq = λ s t. s == t;
  scalar_encode = λ s. s ∷ replicate 55 0;
  scalar_decode = first_byte;
  derive_secret_scalar = first_byte;
  derive_public_key = λ b. first_byte b ∷ replicate 56 0;
  point_destroyed = 0;
  scalar_destroyed = 0;
}

abbrev pub sample_curve_laws : GoldilocksLaws sample_curve
sample_curve_laws = record {
  length-encode = λ p. refl;
  decode-encode = λ p. (p, refl, omega arith);
  length-scalar_encode = λ s. refl;
  decode-scalar_encode = λ s. refl;
}

abbrev pub greater_bytes : Bytes → Bytes → Bool
greater_bytes [] bs = false
greater_bytes (a ∷ xs) [] = true
greater_bytes (a ∷ xs) (b ∷ bs) = let rest = greater_bytes xs bs in if a == b then rest else ltb b a

abbrev pub equal_bytes : Bytes → Bytes → Bool
equal_bytes [] [] = true
equal_bytes [] (b ∷ bs) = false
equal_bytes (a ∷ xs) [] = false
equal_bytes (a ∷ xs) (b ∷ bs) = let rest = equal_bytes xs bs in if a == b then rest else false

pub equal_bytes_self : (b : Bytes) → equal_bytes b b ≡ true
equal_bytes_self [] = refl
equal_bytes_self (x ∷ xs) = rw (==-self x, equal_bytes_self xs) refl

abbrev pub sample_gcrypt : Gcrypt
sample_gcrypt = record {
  Mpi = Bytes;
  print = λ m. m;
  scan = λ b. some (b, length b);
  zero_mpi = [];
  powm = λ b e m. (first_byte b + first_byte e) ∷ [];
  greater = greater_bytes;
  less_ui = λ a n. ltb (first_byte a) n;
  modulus = 23 ∷ [];
  generator = 2 ∷ [];
  modulus_minus_2 = 21 ∷ [];
}

abbrev pub sample_gcrypt_laws : GcryptLaws sample_gcrypt
sample_gcrypt_laws = record { scan-print = λ m. refl }

abbrev pub sample_shake : Shake
sample_shake = record {
  Context = Bytes;
  init = [];
  update = λ c b. some (c ++ b);
  final = λ c n. take n (c ++ replicate n 0);
}

-- A stream of zero bytes.
abbrev pub sample_sodium : Sodium
sample_sodium = record { equal = equal_bytes; stream_xor = λ b nonce key. some b }

pub same_bytes : (b e : Bytes) → some b ≡ some e → e ≡ b
same_bytes b e h = ap (λ (o : Option Bytes). elim o [ none ↦ b | some x ↦ x ]) (sym h)

abbrev pub sample_sodium_laws : SodiumLaws sample_sodium
sample_sodium_laws = record {
  equal-self = equal_bytes_self;
  stream_xor-stream_xor = λ b nonce key e h. sym h;
  length-stream_xor = λ b nonce key e h. ap (λ (x : Bytes). length x) (same_bytes b e h);
}

abbrev pub sample_eddsa : Eddsa
sample_eddsa = record {
  sign = λ sym public msg. 1 ∷ replicate 113 0;
  verify = λ sig public msg. first_byte sig == 1;
}

abbrev pub sample_eddsa_laws : EddsaLaws sample_curve sample_eddsa
sample_eddsa_laws = record {
  length-sign = λ sym public msg. refl;
  verify-sign = λ sym msg. refl;
  decode-derive_public_key =
      λ sym. (first_byte sym, refl, ap (λ p. p ∷ replicate 56 0) (omega arith));
}

abbrev pub sample_libotr : Libotr sample_gcrypt
sample_libotr = record {
  Sexp = Bytes;
  sexp_build = λ ms. some [];
  privkey_verify = λ sig key bytes. true;
  PrivKey = ℕ;
  pubkey_type = λ k. 0;
  pubkey_data = λ k. k ∷ [];
  privkey_sign = λ k bytes. some (replicate 40 k);
}
