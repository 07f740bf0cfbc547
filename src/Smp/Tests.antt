-- ===== src/Smp/Tests.antt =====
-- A run of the machine on concrete data.
use libotrv.Prelude.{◌≡◌, refl, none, some, [], ◌∷◌, ◌++◌, take, replicate, Bytes}
use libotrv.Samples.{sample_curve, sample_shake}
use libotrv.Wire.Keys.{serialize_ec_point}
use libotrv.Tlv.{smp_abort, smp_msg_2, smp_msg_3, Tlv}
use libotrv.Smp.Hash.{
  hash_init_with_dom, hash_init_with_usage, generate_smp_secret, deserialize_ec_scalar,
  hash_to_scalar, checked_point, hash_point,
}
use libotrv.Smp.State.{expect_1, expect_2, expect_3, quarter_progress, Smp, Chance, crashed}
use libotrv.Smp.Machine.{abort, Reply, expects, process_smp}
use libotrv.Smp.Session.{smp_protocol_init, smp_provide_secret, smp_provide_secret_crash}
use libotrv.Smp.Diagram.{due, aborting, process_smp_unexpected}
use libotrv.Smp.Reach.{initial, received, Reachable-Steps}
use libotrv.Smp.Safety.{Steps, process_smp-Steps}

abbrev chance : Chance sample_curve
chance = record {
  a2 = 2;
  a3 = 3;
  b2 = 4;
  b3 = 5;
  r2 = 6;
  r3 = 7;
  r4 = 8;
  r5 = 9;
  r6 = 10;
  r7 = 11;
  stale_q_len = 99;
}

abbrev start : Smp sample_curve
start = record {
  state_expect = expect_1;
  secret = none;
  a2 = 0;
  a3 = 0;
  b3 = 0;
  g2 = 0;
  g3 = 0;
  g3a = 0;
  g3b = 0;
  pb = 0;
  qb = 0;
  pa_pb = 0;
  qa_qb = 0;
  progress = 0;
  message1 = none;
}

-- The state of the side that started, with its secret.
abbrev started : Smp sample_curve
started = record start {
  state_expect = expect_2;
  secret = some (replicate 64 1);
  progress = quarter_progress;
}

abbrev short_3 : Tlv
short_3 = record { type = smp_msg_3; len = 1; bytes = 0 ∷ [] }

abbrev short_2 : Tlv
short_2 = record { type = smp_msg_2; len = 1; bytes = 0 ∷ [] }

process_smp_unexpected_example :
    process_smp sample_curve sample_shake chance started short_3
    ≡ aborting sample_curve sample_shake started
unfolding due expects
process_smp_unexpected_example =
    process_smp_unexpected sample_curve sample_shake chance started short_3 expect_3 refl refl

process_smp-Steps_example :
    Steps sample_curve sample_shake started short_2
      (process_smp sample_curve sample_shake chance started short_2)
process_smp-Steps_example =
    process_smp-Steps sample_curve sample_shake chance started short_2 (replicate 64 1) (λ e. refl)

abbrev hashed : Bytes
hashed = take 64 ((79 ∷ 84 ∷ 82 ∷ 118 ∷ 52 ∷ 27 ∷ 1 ∷ 30 ∷ 31 ∷ 32 ∷ 33 ∷ []) ++ replicate 64 0)

smp_provide_secret_crash_example :
    smp_provide_secret sample_curve sample_shake chance
      (some (31 ∷ []))
      (some (30 ∷ []))
      (32 ∷ [])
      (33 ∷ [])
      start
    ≡ crashed
unfolding generate_smp_secret hash_init_with_usage hash_init_with_dom hash_point hash_to_scalar
    checked_point deserialize_ec_scalar serialize_ec_point
smp_provide_secret_crash_example =
    smp_provide_secret_crash sample_curve sample_shake chance (31 ∷ []) (30 ∷ []) (32 ∷ [])
      (33 ∷ []) hashed start 79 79 refl refl refl refl refl

abbrev zeroed : Smp sample_curve
zeroed = smp_protocol_init sample_curve sample_shake 0 0

aborted_at_start :
    process_smp sample_curve sample_shake chance zeroed short_3
    ≡ aborting sample_curve sample_shake zeroed
unfolding due expects smp_protocol_init
aborted_at_start =
    process_smp_unexpected sample_curve sample_shake chance zeroed short_3 expect_3 refl refl

abbrev after_abort : Smp sample_curve
after_abort = record zeroed { state_expect = expect_1; progress = 0 }

abbrev abort_reply : Reply
abort_reply = (abort, some (record { type = smp_abort; len = 0; bytes = [] }))

-- After a third message that nobody awaits, a second one.
Reachable-Steps_example :
    Steps sample_curve sample_shake after_abort short_2
      (process_smp sample_curve sample_shake chance after_abort short_2)
Reachable-Steps_example =
    Reachable-Steps sample_curve sample_shake chance after_abort short_2
      (received chance zeroed short_3 abort_reply after_abort (initial 0 0) aborted_at_start)
