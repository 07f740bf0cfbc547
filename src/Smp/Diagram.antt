-- ===== src/Smp/Diagram.antt =====
-- The states that the protocol goes through, from record to record.
use libotrv.Prelude.{ℕ, ◌≡◌, refl, ap, ◌∙◌, inl, false, Option, none, some, [], Bytes}
use libotrv.Crypto.{Goldilocks, Shake}
use mathlib.Core.Option.{some-injective}
use libotrv.Tlv.{
  TlvType, tlv_none, padding, disconnected, smp_msg_1, smp_msg_2, smp_msg_3, smp_msg_4, smp_abort,
  sym_key, Tlv, tlv_new,
}
use libotrv.Smp.State.{
  Expect, expect_1, expect_2, expect_3, expect_4, zero_progress, Smp, Chance, Run, ran,
}
use libotrv.Smp.Machine.{
  Event, ask_for_answer, in_progress, success, failure, abort, error, expects, Reply,
  receive_smp_message_1, receive_smp_message_2, receive_smp_message_3, receive_smp_message_4,
  ask_on_none, process_smp_message1, reply_on_2, process_smp_message2, reply_on_3,
  process_smp_message3, no_reply, process_smp_message4, settle, and_settle, process_smp,
}

-- The state in which a record of the protocol is expected.
unfoldable pub due : TlvType → Option Expect
due smp_msg_1 = some expect_1
due smp_msg_2 = some expect_2
due smp_msg_3 = some expect_3
due smp_msg_4 = some expect_4
due _ = none

-- The diagram: the state before, the record's type, the event and the state after.
pub data SmpStep : Expect → TlvType → Event → Expect → Type 0 where
  asked : SmpStep expect_1 smp_msg_1 ask_for_answer expect_1
  answered : SmpStep expect_2 smp_msg_2 in_progress expect_4
  accepted_3 : SmpStep expect_3 smp_msg_3 success expect_1
  rejected_3 : SmpStep expect_3 smp_msg_3 failure expect_1
  accepted_4 : SmpStep expect_4 smp_msg_4 success expect_1
  rejected_4 : SmpStep expect_4 smp_msg_4 failure expect_1
  garbled : (e : Expect) (t : TlvType) → due t ≡ some e → SmpStep e t error expect_1
  unexpected :
      (e e' : Expect) (t : TlvType)
      → due t ≡ some e'
      → expects e e' ≡ false
      → SmpStep e t abort expect_1
  aborted : (e : Expect) → SmpStep e smp_abort abort expect_1
  ignored : (e : Expect) (t : TlvType) → due t ≡ none → SmpStep e t in_progress e

module _ (g : Goldilocks) (k : Shake) where
  -- Aborts: the record that says so is sent, and only the state and the progress are reset.
  abbrev pub aborting : Smp g → Run g Reply
  aborting smp =
      ran (abort, some (record { type = smp_abort; len = 0; bytes = [] }))
        (record smp { state_expect = expect_1; progress = zero_progress })

  abbrev reset_progress : Smp g → Smp g
  reset_progress smp = record smp { progress = zero_progress }

  refused_1 :
      (chance : Chance g) (smp : Smp g) (tlv : Tlv)
      → expects smp.state_expect expect_1 ≡ false
      → receive_smp_message_1 g k chance smp tlv ≡ (abort, reset_progress smp)
  unfolding receive_smp_message_1
  refused_1 chance smp tlv h = rw h refl

  pub unexpected_1 :
      (chance : Chance g) (smp : Smp g) (tlv : Tlv)
      → expects smp.state_expect expect_1 ≡ false
      → and_settle g k (process_smp_message1 g k chance smp tlv) ≡ aborting smp
  unfolding and_settle settle process_smp_message1 ask_on_none tlv_new
  unexpected_1 chance smp tlv h =
      ap (λ r. and_settle g k (ask_on_none g k r)) (refused_1 chance smp tlv h)

  refused_2 :
      (smp : Smp g) (tlv : Tlv)
      → expects smp.state_expect expect_2 ≡ false
      → receive_smp_message_2 g k smp tlv ≡ (inl abort, reset_progress smp)
  unfolding receive_smp_message_2
  refused_2 smp tlv h = rw h refl

  pub unexpected_2 :
      (chance : Chance g) (smp : Smp g) (tlv : Tlv)
      → expects smp.state_expect expect_2 ≡ false
      → and_settle g k (process_smp_message2 g k chance smp tlv) ≡ aborting smp
  unfolding and_settle settle process_smp_message2 reply_on_2 tlv_new
  unexpected_2 chance smp tlv h =
      ap (λ r. and_settle g k (reply_on_2 g k chance r)) (refused_2 smp tlv h)

  refused_3 :
      (smp : Smp g) (tlv : Tlv)
      → expects smp.state_expect expect_3 ≡ false
      → receive_smp_message_3 g k smp tlv ≡ (inl abort, reset_progress smp)
  unfolding receive_smp_message_3
  refused_3 smp tlv h = rw h refl

  pub unexpected_3 :
      (chance : Chance g) (smp : Smp g) (tlv : Tlv)
      → expects smp.state_expect expect_3 ≡ false
      → and_settle g k (process_smp_message3 g k chance smp tlv) ≡ aborting smp
  unfolding and_settle settle process_smp_message3 reply_on_3 tlv_new
  unexpected_3 chance smp tlv h =
      ap (λ r. and_settle g k (reply_on_3 g k chance r)) (refused_3 smp tlv h)

  refused_4 :
      (smp : Smp g) (tlv : Tlv)
      → expects smp.state_expect expect_4 ≡ false
      → receive_smp_message_4 g k smp tlv ≡ (abort, reset_progress smp)
  unfolding receive_smp_message_4
  refused_4 smp tlv h = rw h refl

  pub unexpected_4 :
      (smp : Smp g) (tlv : Tlv)
      → expects smp.state_expect expect_4 ≡ false
      → and_settle g k (process_smp_message4 g k smp tlv) ≡ aborting smp
  unfolding and_settle settle process_smp_message4 no_reply tlv_new
  unexpected_4 smp tlv h = ap (λ r. and_settle g k (no_reply g k r)) (refused_4 smp tlv h)

  unexpected_type :
      (chance : Chance g) (smp : Smp g) (t : TlvType) (len : ℕ) (bytes : Bytes) (e : Expect)
      → due t ≡ some e
      → expects smp.state_expect e ≡ false
      → process_smp g k chance smp (record { type = t; len = len; bytes = bytes }) ≡ aborting smp
  unfolding process_smp due
  unexpected_type chance smp smp_msg_1 len bytes e d h =
      unexpected_1 chance smp _ (ap (expects smp.state_expect) (some-injective _ _ d) ∙ h)
  unexpected_type chance smp smp_msg_2 len bytes e d h =
      unexpected_2 chance smp _ (ap (expects smp.state_expect) (some-injective _ _ d) ∙ h)
  unexpected_type chance smp smp_msg_3 len bytes e d h =
      unexpected_3 chance smp _ (ap (expects smp.state_expect) (some-injective _ _ d) ∙ h)
  unexpected_type chance smp smp_msg_4 len bytes e d h =
      unexpected_4 smp _ (ap (expects smp.state_expect) (some-injective _ _ d) ∙ h)
  unexpected_type chance smp tlv_none len bytes e d h = cc
  unexpected_type chance smp padding len bytes e d h = cc
  unexpected_type chance smp disconnected len bytes e d h = cc
  unexpected_type chance smp smp_abort len bytes e d h = cc
  unexpected_type chance smp sym_key len bytes e d h = cc

  -- A message of the protocol that arrives in a state that does not expect it is answered with an
  -- abort record, and resets the state and the progress and nothing else.
  pub process_smp_unexpected :
      (chance : Chance g) (smp : Smp g) (tlv : Tlv) (e : Expect)
      → due tlv.type ≡ some e
      → expects smp.state_expect e ≡ false
      → process_smp g k chance smp tlv ≡ aborting smp
  process_smp_unexpected chance smp tlv e d h =
      unexpected_type chance smp tlv.type tlv.len tlv.bytes e d h
