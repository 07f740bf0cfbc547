-- ===== src/Smp/Complete/Tests.antt =====
-- The group of two elements with its two scalars.
use libotrv.Prelude.{
  ◌≡◌, refl, Bool, true, false, not, none, some, [], ◌∷◌, ltb, if◌then◌else◌, replicate, Bytes,
}
use libotrv.Crypto.{Goldilocks}
use libotrv.Samples.{sample_shake}
use libotrv.Wire.Keys.{serialize_ec_point}
use libotrv.Smp.Hash.{
  hash_init_with_usage, hash_init_with_dom, hash_to_scalar, checked_point, hash_point, hash_points,
  deserialize_ec_scalar,
}
use libotrv.Smp.Messages.{Message1, Message3, Message4}
use libotrv.Smp.State.{Smp, Chance, ran, zq_public, expect_1}
use libotrv.Smp.Proofs.{
  generate_smp_message_1, smp_message_1_valid_zkp, generate_smp_message_4,
  smp_message_4_validate_zkp,
}
use libotrv.Smp.Complete.{GroupLaws, generate-valid_zkp_1, generate-validate_zkp_4}

abbrev pub xor : Bool → Bool → Bool
xor true b = not b
xor false b = b

abbrev pub both : Bool → Bool → Bool
both true b = b
both false b = false

abbrev pub bit : Bytes → Bool
bit [] = false
bit (b ∷ _) = ltb 0 b

abbrev pub bits : Goldilocks
bits = record {
  Point = Bool;
  Scalar = Bool;
  encode = λ p. (if p then 1 else 0) ∷ replicate 56 0;
  decode = λ b. some (bit b);
  scalar_one = true;
  scalar_halve = λ s. s;
  scalarmul = both;
  point_base = true;
  point_add = xor;
  point_sub = xor;
  point_eq = λ p q. not (xor p q);
  point_valid = λ p. true;
  scalar_add = xor;
  scalar_mul = both;
  scalar_sub = xor;
  scalar_eq = λ s t. not (xor s t);
  scalar_encode = λ s. (if s then 1 else 0) ∷ replicate 55 0;
  scalar_decode = bit;
  derive_secret_scalar = bit;
  derive_public_key = λ b. b;
  point_destroyed = false;
  scalar_destroyed = false;
}

pub both_assoc : (p s t : Bool) → both (both p s) t ≡ both p (both s t)
both_assoc true s t = refl
both_assoc false s t = refl

pub both-xor : (p s t : Bool) → xor (both p (xor s t)) (both p t) ≡ both p s
both-xor false s t = refl
both-xor true true true = refl
both-xor true true false = refl
both-xor true false true = refl
both-xor true false false = refl

pub xor_comm : (p q : Bool) → xor p q ≡ xor q p
xor_comm true true = refl
xor_comm true false = refl
xor_comm false true = refl
xor_comm false false = refl

pub xor_self : (s : Bool) → not (xor s s) ≡ true
xor_self true = refl
xor_self false = refl

abbrev pub bits_laws : GroupLaws bits
bits_laws = record {
  scalarmul_mul = both_assoc;
  scalarmul_sub = both-xor;
  point_add_comm = xor_comm;
  scalar_eq_self = xor_self;
}

abbrev chance : Chance bits
chance = record {
  a2 = true;
  a3 = false;
  b2 = true;
  b3 = true;
  r2 = true;
  r3 = true;
  r4 = false;
  r5 = true;
  r6 = false;
  r7 = true;
  stale_q_len = 0;
}

abbrev side : Smp bits
side = record {
  state_expect = expect_1;
  secret = none;
  a2 = false;
  a3 = true;
  b3 = true;
  g2 = true;
  g3 = true;
  g3a = true;
  g3b = true;
  pb = true;
  qb = false;
  pa_pb = false;
  qa_qb = true;
  progress = 0;
  message1 = none;
}

abbrev third : Message3 bits
third = record {
  pa = true;
  qa = true;
  cp = true;
  d5 = true;
  d6 = false;
  ra = true;
  cr = true;
  d7 = false;
}

generate-valid_zkp_1_example :
    (msg : Message1 bits) × (generate_smp_message_1 bits sample_shake chance side
      ≡ ran (some msg) (record side { a2 = true; a3 = false }))
    × (smp_message_1_valid_zkp bits sample_shake msg ≡ true)
unfolding hash_point hash_to_scalar hash_init_with_usage hash_init_with_dom checked_point
    deserialize_ec_scalar serialize_ec_point
generate-valid_zkp_1_example =
    generate-valid_zkp_1 bits sample_shake bits_laws chance side true true refl refl

generate-validate_zkp_4_example :
    (msg : Message4 bits) × (generate_smp_message_4 bits sample_shake chance third side ≡ some msg)
    × (smp_message_4_validate_zkp bits sample_shake msg side ≡ true)
unfolding hash_points hash_to_scalar hash_init_with_usage hash_init_with_dom checked_point
    deserialize_ec_scalar serialize_ec_point zq_public
generate-validate_zkp_4_example =
    generate-validate_zkp_4 bits sample_shake bits_laws chance third side side true refl refl refl
