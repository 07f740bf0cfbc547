-- ===== src/Kdf/Tests.antt =====
-- The laws of the sample hash.
use libotrv.Prelude.{
  ℕ, ◌+◌, ◌≡◌, refl, ◌++◌, arith, length, take, replicate, length-append, length-take,
  length-replicate, Bytes,
}
use libotrv.Samples.{sample_shake}
use libotrv.Kdf.{ShakeLaws}

pub length-padded : (n : ℕ) (c : Bytes) → length (take n (c ++ replicate n 0)) ≡ n
length-padded n c = length-take n (c ++ replicate n 0) (
    let e : length (c ++ replicate n 0) ≡ length c + n =
      rw (length-append c (replicate n 0), length-replicate {A = ℕ} n 0) refl in
    omega arith)

abbrev pub sample_shake_laws : ShakeLaws sample_shake
sample_shake_laws = record {
  absorb = λ c b. c ++ b;
  update-absorb = λ c b. refl;
  length-final = λ c n. length-padded n c;
}
