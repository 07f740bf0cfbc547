-- ===== src/Smp/Session.antt =====
-- src/smp.c: starting the protocol, and answering with the secret.
use libotrv.Prelude.{
  ℕ, ◌≡◌, refl, ap, true, not, Option, none, some, if◌then◌else◌, length, Bytes, ◌>>=◌,
}
use libotrv.Crypto.{Goldilocks, Shake}
use libotrv.Tlv.{smp_msg_1, smp_abort, tlv_new}
use libotrv.Smp.Hash.{generate_smp_secret, hash_point}
use libotrv.Smp.Messages.{Message1, smp_message_1_serialize}
use libotrv.Smp.State.{
  Expect, expect_1, expect_2, zero_progress, quarter_progress, Smp, Chance, Run, crashed, ran,
  attempt, through, zq_public,
}
use libotrv.Smp.Proofs.{generate_smp_message_1, generate_smp_message_2}
use libotrv.Smp.Machine.{event_none, in_progress, error, expects, Reply, reply_with_smp_message_2}

module _ (g : Goldilocks) (k : Shake) where
  -- The fingerprints are `none` where they cannot be serialized.
  unfoldable pub secret_from : Option Bytes → Option Bytes → Bytes → Bytes → Option Bytes
  secret_from initiator_fp responder_fp ssid answer = do
    initiator ← initiator_fp
    responder ← responder_fp
    generate_smp_secret k initiator responder ssid answer

  -- The part of `otrng_smp_initiate` behind the secret, with its error exit, which reads
  -- `smp->message1`.
  unfoldable pub start_with : Chance g → Option Bytes → ℕ → Smp g → Run g Reply
  start_with chance question q_len smp =
      elim (generate_smp_message_1 g k chance smp) as (λ x. Run g Reply) [
        | crashed ↦ crashed
        | ran none smp1 ↦ elim smp1.message1 [
          | none ↦ crashed
          | some message1 ↦ ran (error, none) smp1
        ]
        | ran (some msg) smp1 ↦
            let buffer =
              smp_message_1_serialize g (record msg { question = question; q_len = q_len }) in
            ran (in_progress, tlv_new smp_msg_1 (length buffer) (some buffer))
              (record smp1 { state_expect = expect_2; progress = quarter_progress })
      ]

  -- `otrng_smp_initiate`. The event is what the callback is told; `event_none` is no call of it.
  unfoldable pub smp_initiate :
      Chance g
      → Option Bytes
      → Option Bytes
      → Option Bytes
      → ℕ
      → Bytes
      → Bytes
      → Smp g
      → Run g Reply
  smp_initiate chance our_fp their_fp question q_len answer ssid smp =
      if not (expects smp.state_expect expect_1)
      then ran (event_none, tlv_new smp_abort 0 none) smp
      else elim (secret_from our_fp their_fp ssid answer) [
        | none ↦ ran (event_none, none) smp
        | some secret ↦ start_with chance question q_len (record smp { secret = some secret })
      ]

  -- `otrng_smp_provide_secret`; where it returns early, `*event` stays `event_none`.
  unfoldable pub smp_provide_secret :
      Chance g → Option Bytes → Option Bytes → Bytes → Bytes → Smp g → Run g Reply
  smp_provide_secret chance our_fp their_fp ssid secret smp =
      if not (expects smp.state_expect expect_1)
      then ran (event_none, none) smp
      else elim (secret_from their_fp our_fp ssid secret) [
        | none ↦ ran (event_none, none) smp
        | some hashed ↦ reply_with_smp_message_2 g k chance (record smp { secret = some hashed })
      ]

  -- `otrng_smp_protocol_init`: everything else is zero bytes, which `p` and `s` stand for.
  unfoldable pub smp_protocol_init : g.Point → g.Scalar → Smp g
  smp_protocol_init p s = record {
    state_expect = expect_1;
    secret = none;
    a2 = s;
    a3 = s;
    b3 = s;
    g2 = p;
    g3 = p;
    g3a = p;
    g3b = p;
    pb = p;
    qb = p;
    pa_pb = p;
    qa_qb = p;
    progress = zero_progress;
    message1 = none;
  }

  -- The state that `otrng_smp_abort_v4` leaves; the progress stays.
  unfoldable pub smp_abort_v4 : Smp g → Smp g
  smp_abort_v4 smp = record smp { state_expect = expect_1 }

  generate_from_null :
      (chance : Chance g) (msg_1 : Option (Message1 g)) (smp : Smp g) (c2 c3 : g.Scalar)
      → msg_1 ≡ none
      → hash_point g k (zq_public g chance.r2) 3 ≡ some c2
      → hash_point g k (zq_public g chance.r3) 4 ≡ some c3
      → generate_smp_message_2 g k chance msg_1 smp ≡ crashed
  unfolding generate_smp_message_2 attempt through
  generate_from_null chance msg_1 smp c2 c3 m h2 h3 = rw (h2, h3, m) refl

  reply_to_null :
      (chance : Chance g) (smp : Smp g) (c2 c3 : g.Scalar)
      → smp.message1 ≡ none
      → hash_point g k (zq_public g chance.r2) 3 ≡ some c2
      → hash_point g k (zq_public g chance.r3) 4 ≡ some c3
      → reply_with_smp_message_2 g k chance smp ≡ crashed
  unfolding reply_with_smp_message_2
  reply_to_null chance smp c2 c3 m h2 h3 =
      rw (generate_from_null chance smp.message1 smp c2 c3 m h2 h3, reply_with_smp_message_2) refl

  expects-first : (e : Expect) → e ≡ expect_1 → expects e expect_1 ≡ true
  unfolding expects
  expects-first e h = ap (λ x. expects x expect_1) h

  -- A user who provides the secret before the other side asked for it: where the fingerprints are
  -- there and no hash fails, the program reads through the null pointer `message1`.
  pub smp_provide_secret_crash :
      (chance : Chance g) (our their ssid secret hashed : Bytes) (smp : Smp g) (c2 c3 : g.Scalar)
      → smp.state_expect ≡ expect_1
      → smp.message1 ≡ none
      → generate_smp_secret k their our ssid secret ≡ some hashed
      → hash_point g k (zq_public g chance.r2) 3 ≡ some c2
      → hash_point g k (zq_public g chance.r3) 4 ≡ some c3
      → smp_provide_secret chance (some our) (some their) ssid secret smp ≡ crashed
  unfolding smp_provide_secret secret_from
  smp_provide_secret_crash chance our their ssid secret hashed smp c2 c3 e m h h2 h3 =
      rw
        (
          expects-first smp.state_expect e,
          h,
          reply_to_null chance (record smp { secret = some hashed }) c2 c3 m h2 h3,
        )
        refl
