-- ===== src/KeyExchange/Tests.antt =====
-- The laws of the key exchanges over the sample curve and the sample numbers.
use mathlib.Core.Bool.{true≢false}
use native.Mathlib.Nat.{mul_comm}
use libotrv.Prelude.{
  ℕ, ◌*◌, ◌≡◌, refl, sym, ap, ◌∙◌, ◌≢◌, inl, inr, true, false, not, some, [], ◌∷◌, arith, ltb, ◌==◌,
  Bool-cases, ==-self, ==-ne, ==-eq, Bytes,
}
use libotrv.Samples.{first_byte, sample_curve, greater_bytes, sample_gcrypt}
use libotrv.Wire.Keys.{ec_point_decode}
use libotrv.DataMessage.Text.{some-injective}
use libotrv.KeyExchange.Agreement.{ExchangeLaws}

==-true : (a b : ℕ) → b ≡ a → (a == b) ≡ true
==-true a b e = rw e (==-self a)

ltb-swap : (a b : ℕ) → (a == b) ≡ false → ltb b a ≡ not (ltb a b)
ltb-swap a b e = ground arith

pub greater_bytes-swap : (p q : Bytes) → p ≢ q → greater_bytes p q ≡ not (greater_bytes q p)
greater_bytes-swap [] [] h = absurd (h refl)
greater_bytes-swap [] (b ∷ bs) h = refl
greater_bytes-swap (a ∷ xs) [] h = refl
greater_bytes-swap (a ∷ xs) (b ∷ bs) h = elim (Bool-cases (a == b)) [
  | inl same ↦
      let e : a ≡ b = ==-eq a b same in
      let back : (b == a) ≡ true = rw e (==-self b) in
      rw (same, back) (greater_bytes-swap xs bs (λ r. h (rw (e, r) refl)))
  | inr other ↦
      let back : (b == a) ≡ false =
        ==-ne b a (λ e. absurd (true≢false (sym (==-true a b e) ∙ other))) in
      rw (other, back) (ltb-swap a b other)
]

pub sample_point :
    (x : Bytes) (p : ℕ)
    → ec_point_decode sample_curve (sample_curve.derive_public_key x) ≡ some p
    → p ≡ first_byte x
unfolding ec_point_decode
sample_point x p e = let e1 : first_byte x * 1 ≡ p = some-injective e in omega (arith, e1)

abbrev pub sample_exchange_laws : ExchangeLaws sample_curve sample_gcrypt
sample_exchange_laws = record {
  scalarmul_secret = λ x y p q a b.
      rw (sample_point x p a, sample_point y q b) (mul_comm (first_byte x) (first_byte y));
  greater-swap = greater_bytes-swap;
  powm_comm = λ b x y m. ap (λ (n : ℕ). n ∷ []) (omega arith);
}
