-- ===== src/Ring/Tests.antt =====
-- A ring signature over the group of two elements.
use libotrv.Prelude.{◌≡◌, refl, Bool, true, false, some, [], ◌∷◌}
use libotrv.Samples.{sample_shake, sample_curve}
use libotrv.Kdf.Tests.{sample_shake_laws}
use libotrv.Smp.Complete.Tests.{xor, both, bits, bits_laws}
use libotrv.Ring.{RingSig, RingChance, rsig_authenticate, rsig_verify}
use libotrv.Ring.Verify.{ScalarLaws, second, rsig_verify-rsig_authenticate}

pub xor_assoc : (s t u : Bool) → xor (xor s t) u ≡ xor s (xor t u)
xor_assoc true true true = refl
xor_assoc true true false = refl
xor_assoc true false u = refl
xor_assoc false t u = refl

pub xor_back : (s t : Bool) → xor (xor s t) t ≡ s
xor_back true true = refl
xor_back true false = refl
xor_back false true = refl
xor_back false false = refl

pub xor_swap : (s t : Bool) → xor s t ≡ xor t s
xor_swap true true = refl
xor_swap true false = refl
xor_swap false true = refl
xor_swap false false = refl

pub both_swap : (s t : Bool) → both s t ≡ both t s
both_swap true true = refl
both_swap true false = refl
both_swap false true = refl
both_swap false false = refl

abbrev pub scalar_laws : ScalarLaws bits
scalar_laws = record {
  group = bits_laws;
  scalar_add_comm = xor_swap;
  scalar_add_assoc = xor_assoc;
  scalar_sub_add = xor_back;
  scalar_mul_comm = both_swap;
}

abbrev pub chance : RingChance bits
chance = record {
  t1 = true;
  t2 = false;
  t3 = true;
  r1 = false;
  r2 = true;
  r3 = true;
  c1 = false;
  c2 = true;
  c3 = false;
}

rsig_verify-rsig_authenticate_example :
    (sigma : RingSig bits) × (rsig_authenticate bits sample_shake 28
        (79 ∷ [])
        chance
        true
        true
        false
        true
        false
        (1 ∷ [])
      ≡ some sigma)
    × (rsig_verify bits sample_shake 28 (79 ∷ []) sigma false true false (1 ∷ []) ≡ true)
rsig_verify-rsig_authenticate_example =
    rsig_verify-rsig_authenticate bits sample_shake sample_shake_laws scalar_laws 28 (79 ∷ [])
      chance true true false true false (1 ∷ []) (second refl refl refl refl)

abbrev signature : RingSig sample_curve
signature = record { c1 = 1; r1 = 2; c2 = 3; r2 = 4; c3 = 5; r3 = 6 }
