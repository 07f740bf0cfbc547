-- ===== src/Wire/Phi.antt =====
-- `otrng_serialize_phi` of src/serialize.c: what the serialized phi tells of the two instance tags.
use libotrv.Wire.RoundTrip.{serialize_phi_comm}
use libotrv.Prelude.{
  ℕ, ◌+◌, ◌*◌, ◌%◌, ◌^◌, ◌<◌, ◌≡◌, ◌⊎◌, inl, inr, refl, sym, ap, ◌∙◌, ◌∷◌, ◌++◌, arith, ltb,
  if◌then◌else◌, Bool-cases, length, Bytes, some, ◌/◌,
}
use mathlib.Core.Logic.{◌↔◌}
use libotrv.Wire.Serialize.{serialize_uint16, serialize_data, serialize_phi}

-- The tags agree in their low sixteen bits, in this order or the other.
abbrev pub HaveSameLowBits : ℕ → ℕ → ℕ → ℕ → Type 0
HaveSameLowBits s r s1 r1 =
    ((s % 2 ^ 16 ≡ s1 % 2 ^ 16) × (r % 2 ^ 16 ≡ r1 % 2 ^ 16))
    ⊎ ((s % 2 ^ 16 ≡ r1 % 2 ^ 16) × (r % 2 ^ 16 ≡ s1 % 2 ^ 16))

-- The two tags that are written first, as numbers.
abbrev number_at : Bytes → ℕ × ℕ
number_at (a ∷ b ∷ c ∷ d ∷ rest) = (a * 256 + b, c * 256 + d)
number_at _ = (0, 0)

abbrev ordered : ℕ → ℕ → ℕ × ℕ
ordered s r = if ltb s r then (s, r) else (r, s)

number_at-pair :
    (a b : ℕ) (rest : Bytes)
    → a < 2 ^ 16
    → b < 2 ^ 16
    → number_at ((serialize_uint16 a ++ serialize_uint16 b) ++ rest) ≡ (a, b)
unfolding serialize_uint16
number_at-pair a b rest ha hb =
    let ea : a / 256 % 256 * 256 + a / 1 % 256 ≡ a = omega arith in
    let eb : b / 256 % 256 * 256 + b / 1 % 256 ≡ b = omega arith in λ i. (ea i, eb i)

-- The serialized phi, by the low sixteen bits of the tags.
abbrev phi_of : Bytes → ℕ → ℕ → Bytes
phi_of state s r =
    (if ltb s r
      then serialize_uint16 s ++ serialize_uint16 r
      else serialize_uint16 r ++ serialize_uint16 s)
    ++ serialize_data (some state) (length state)

serialize_phi_lem :
    (state : Bytes) (s r : ℕ) → serialize_phi state s r ≡ phi_of state (s % 2 ^ 16) (r % 2 ^ 16)
unfolding serialize_phi
serialize_phi_lem state s r = refl

number_at-phi_of :
    (state : Bytes) (s r : ℕ) → s < 2 ^ 16 → r < 2 ^ 16 → number_at (phi_of state s r) ≡ ordered s r
number_at-phi_of state s r hs hr = elim (Bool-cases (ltb s r)) [
  | inl less ↦ rw less (number_at-pair s r (serialize_data (some state) (length state)) hs hr)
  | inr not_less ↦
      rw not_less (number_at-pair r s (serialize_data (some state) (length state)) hr hs)
]

ordered-eq :
    (s r s1 r1 : ℕ) → ordered s r ≡ ordered s1 r1 → ((s ≡ s1) × (r ≡ r1)) ⊎ ((s ≡ r1) × (r ≡ s1))
ordered-eq s r s1 r1 e = ground (arith, ap (λ p. p.0) e, ap (λ p. p.1) e)

-- Two pairs of instance tags give the same phi exactly where they agree in their low sixteen bits, in
-- this order or the other.
pub serialize_phi-HaveSameLowBits :
    (state : Bytes) (s r s1 r1 : ℕ)
    → serialize_phi state s r ≡ serialize_phi state s1 r1 ↔ HaveSameLowBits s r s1 r1
serialize_phi-HaveSameLowBits state s r s1 r1 = (
  (λ same.
      let numbers =
        ap number_at (sym (serialize_phi_lem state s r) ∙ (same ∙ serialize_phi_lem state s1 r1)) in
      ordered-eq (s % 2 ^ 16) (r % 2 ^ 16) (s1 % 2 ^ 16) (r1 % 2 ^ 16) (
        sym (number_at-phi_of state (s % 2 ^ 16) (r % 2 ^ 16) (omega arith) (omega arith))
        ∙ (numbers
            ∙ number_at-phi_of state (s1 % 2 ^ 16) (r1 % 2 ^ 16) (omega arith) (omega arith)))),
  λ h. elim h [
    | inl (a, b) ↦ low_bits s r s1 r1 a b
    | inr (a, b) ↦ low_bits s r r1 s1 a b ∙ serialize_phi_comm state r1 s1
  ],
)
  where
    low_bits :
        (s r s1 r1 : ℕ)
        → s % 2 ^ 16 ≡ s1 % 2 ^ 16
        → r % 2 ^ 16 ≡ r1 % 2 ^ 16
        → serialize_phi state s r ≡ serialize_phi state s1 r1
    low_bits s r s1 r1 a b =
        serialize_phi_lem state s r
        ∙ ((λ i. phi_of state (a i) (b i)) ∙ sym (serialize_phi_lem state s1 r1))
