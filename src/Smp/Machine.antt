-- ===== src/Smp/Machine.antt =====
-- The handlers of the protocol's records in src/smp_protocol.c and src/smp.c.
use libotrv.Prelude.{
  ◌⊎◌, inl, inr, Bool, true, false, not, Option, none, some, if◌then◌else◌, length,
}
use libotrv.Crypto.{Goldilocks, Shake}
use libotrv.Tlv.{
  tlv_none, padding, disconnected, smp_msg_1, smp_msg_2, smp_msg_3, smp_msg_4, smp_abort, sym_key,
  Tlv, tlv_new,
}
use libotrv.Smp.Messages.{
  Message2, Message3, smp_message_1_deserialize, smp_message_2_serialize, smp_message_2_deserialize,
  smp_message_3_serialize, smp_message_3_deserialize, smp_message_4_serialize,
  smp_message_4_deserialize,
}
use libotrv.Smp.State.{
  Expect, expect_none, expect_1, expect_2, expect_3, expect_4, zero_progress, quarter_progress,
  half_progress, half_quarter_progress, total_progress, Smp, Chance, Run, crashed, ran,
  smp_message_1_valid_points, smp_message_2_valid_points, smp_message_3_validate_points,
  smp_is_valid_for_message_3, smp_is_valid_for_message_4,
}
use libotrv.Smp.Proofs.{
  generate_smp_message_2, generate_smp_message_3, generate_smp_message_4, smp_message_1_valid_zkp,
  smp_message_2_valid_zkp, smp_message_3_validate_zkp, smp_message_4_validate_zkp,
}

-- `otrng_smp_event`; `event_none` is 0.
pub data Event : Type 0 where
  event_none ask_for_secret ask_for_answer cheated in_progress success failure abort error : Event

-- `state_expect == e`
unfoldable pub expects : Expect → Expect → Bool
expects expect_none expect_none = true
expects expect_1 expect_1 = true
expects expect_2 expect_2 = true
expects expect_3 expect_3 = true
expects expect_4 expect_4 = true
expects _ _ = false

-- The event, with the record to send where one was made.
abbrev pub Reply : Type 0
Reply = Event × Option Tlv

module _ (g : Goldilocks) (k : Shake) where
  open g use {point_valid}

  unfoldable pub receive_smp_message_1 : Chance g → Smp g → Tlv → Event × Smp g
  receive_smp_message_1 chance smp tlv =
      if not (expects smp.state_expect expect_1)
      then (abort, record smp { progress = zero_progress })
      else elim (smp_message_1_deserialize g chance.stale_q_len tlv.bytes) [
        | none ↦ (error, smp)
        | some msg_1 ↦
            if not (smp_message_1_valid_points g msg_1)
            then (error, smp)
            else if not (smp_message_1_valid_zkp g k msg_1)
            then (error, smp)
            else (event_none, record smp { message1 = some msg_1 })
      ]

  -- What `receive` returns with the message: `none` is an event other than `event_none`.
  abbrev pub Received : Type 0 → Type 0
  Received M = (Event ⊎ M) × Smp g

  unfoldable pub receive_smp_message_2 : Smp g → Tlv → Received (Message2 g)
  receive_smp_message_2 smp tlv =
      if not (expects smp.state_expect expect_2)
      then (inl abort, record smp { progress = zero_progress })
      else elim (smp_message_2_deserialize g tlv.bytes) [
        | none ↦ (inl error, smp)
        | some msg_2 ↦
            if not (smp_message_2_valid_points g msg_2)
            then (inl error, smp)
            else let smp1 = record smp {
              g2 = g.scalarmul msg_2.g2b smp.a2;
              g3 = g.scalarmul msg_2.g3b smp.a3;
            } in
              if not (smp_message_2_valid_zkp g k msg_2 smp1)
              then (inl error, smp1)
              else (inr msg_2, smp1)
      ]

  unfoldable pub receive_smp_message_3 : Smp g → Tlv → Received (Message3 g)
  receive_smp_message_3 smp tlv =
      if not (expects smp.state_expect expect_3)
      then (inl abort, record smp { progress = zero_progress })
      else elim (smp_message_3_deserialize g tlv.bytes) [
        | none ↦ (inl error, smp)
        | some msg_3 ↦
            if not (smp_message_3_validate_points g msg_3)
            then (inl error, smp)
            else if not (smp_message_3_validate_zkp g k msg_3 smp)
            then (inl error, smp)
            else (inr msg_3, record smp { progress = half_quarter_progress })
      ]

  unfoldable pub receive_smp_message_4 : Smp g → Tlv → Event × Smp g
  receive_smp_message_4 smp tlv =
      if not (expects smp.state_expect expect_4)
      then (abort, record smp { progress = zero_progress })
      else elim (smp_message_4_deserialize g tlv.bytes) [
        | none ↦ (error, smp)
        | some msg_4 ↦
            if not (point_valid msg_4.rb)
            then (error, smp)
            else if not (smp_message_4_validate_zkp g k msg_4 smp)
            then (error, smp)
            else (
              if smp_is_valid_for_message_4 g msg_4 smp then success else failure,
              record smp { progress = total_progress; state_expect = expect_1 },
            )
      ]

  -- The record is sent and the state advances only where the record was made.
  unfoldable pub reply_with_smp_message_2 : Chance g → Smp g → Run g Reply
  reply_with_smp_message_2 chance smp =
      elim (generate_smp_message_2 g k chance smp.message1 smp) as (λ x. Run g Reply) [
        | crashed ↦ crashed
        | ran none smp1 ↦ ran (error, none) smp1
        | ran (some msg_2) smp1 ↦
            let buffer = smp_message_2_serialize g msg_2 in
            elim (tlv_new smp_msg_2 (length buffer) (some buffer)) [
              | none ↦ ran (error, none) smp1
              | some tlv ↦
                  ran (event_none, some tlv)
                    (record smp1 { state_expect = expect_3; progress = half_progress })
            ]
      ]

  unfoldable pub reply_with_smp_message_3 : Chance g → Message2 g → Smp g → Run g Reply
  reply_with_smp_message_3 chance msg_2 smp =
      elim (generate_smp_message_3 g k chance msg_2 smp) as (λ x. Run g Reply) [
        | crashed ↦ crashed
        | ran none smp1 ↦ ran (error, none) smp1
        | ran (some msg_3) smp1 ↦
            let buffer = smp_message_3_serialize g msg_3 in
            elim (tlv_new smp_msg_3 (length buffer) (some buffer)) [
              | none ↦ ran (error, none) smp1
              | some tlv ↦
                  ran (event_none, some tlv)
                    (record smp1 { state_expect = expect_4; progress = half_progress })
            ]
      ]

  unfoldable pub reply_with_smp_message_4 : Chance g → Message3 g → Smp g → Reply × Smp g
  reply_with_smp_message_4 chance msg_3 smp = elim (generate_smp_message_4 g k chance msg_3 smp) [
    | none ↦ ((error, none), smp)
    | some msg_4 ↦
        let buffer = smp_message_4_serialize g msg_4 in
        elim (tlv_new smp_msg_4 (length buffer) (some buffer)) [
          | none ↦ ((error, none), smp)
          | some tlv ↦
              let smp1 = record smp { progress = total_progress; state_expect = expect_1 } in
              (
                (if smp_is_valid_for_message_3 g msg_3 smp1 then success else failure, some tlv),
                smp1,
              )
        ]
  ]

  unfoldable pub ask_on_none : Event × Smp g → Run g Reply
  ask_on_none (event_none, smp) =
      ran (ask_for_answer, none) (record smp { progress = quarter_progress })
  ask_on_none (event, smp) = ran (event, none) smp

  unfoldable pub process_smp_message1 : Chance g → Smp g → Tlv → Run g Reply
  process_smp_message1 chance smp tlv = ask_on_none (receive_smp_message_1 chance smp tlv)

  unfoldable pub reply_on_2 : Chance g → Received (Message2 g) → Run g Reply
  reply_on_2 chance (inl event, smp) = ran (event, none) smp
  reply_on_2 chance (inr msg_2, smp) = reply_with_smp_message_3 chance msg_2 smp

  unfoldable pub process_smp_message2 : Chance g → Smp g → Tlv → Run g Reply
  process_smp_message2 chance smp tlv = reply_on_2 chance (receive_smp_message_2 smp tlv)

  unfoldable pub finished : Reply × Smp g → Run g Reply
  finished (reply, smp) = ran reply smp

  unfoldable pub reply_on_3 : Chance g → Received (Message3 g) → Run g Reply
  reply_on_3 chance (inl event, smp) = ran (event, none) smp
  reply_on_3 chance (inr msg_3, smp) = finished (reply_with_smp_message_4 chance msg_3 smp)

  unfoldable pub process_smp_message3 : Chance g → Smp g → Tlv → Run g Reply
  process_smp_message3 chance smp tlv = reply_on_3 chance (receive_smp_message_3 smp tlv)

  unfoldable pub no_reply : Event × Smp g → Run g Reply
  no_reply (event, smp) = ran (event, none) smp

  unfoldable pub process_smp_message4 : Smp g → Tlv → Run g Reply
  process_smp_message4 smp tlv = no_reply (receive_smp_message_4 smp tlv)

  -- What each of the first four cases of `otrng_process_smp` does with the event.
  unfoldable pub settle : Reply → Smp g → Run g Reply
  settle (abort, to_send) smp =
      ran (abort, tlv_new smp_abort 0 none)
        (record smp { state_expect = expect_1; progress = zero_progress })
  settle (error, to_send) smp = ran (error, to_send) (record smp { state_expect = expect_1 })
  settle (failure, to_send) smp = ran (failure, to_send) (record smp { state_expect = expect_1 })
  settle (event_none, to_send) smp = ran (in_progress, to_send) smp
  settle (event, to_send) smp = ran (event, to_send) smp

  unfoldable pub and_settle : Run g Reply → Run g Reply
  and_settle crashed = crashed
  and_settle (ran reply smp) = settle reply smp

  -- `otrng_process_smp`, where `*ret` is OTRNG_SMP_EVENT_NONE as in `otrng_process_smp_tlv`.
  unfoldable pub process_smp : Chance g → Smp g → Tlv → Run g Reply
  process_smp chance smp tlv = elim tlv.type [
    | smp_msg_1 ↦ and_settle (process_smp_message1 chance smp tlv)
    | smp_msg_2 ↦ and_settle (process_smp_message2 chance smp tlv)
    | smp_msg_3 ↦ and_settle (process_smp_message3 chance smp tlv)
    | smp_msg_4 ↦ and_settle (process_smp_message4 smp tlv)
    | smp_abort ↦
        ran (abort, none) (record smp { state_expect = expect_1; progress = zero_progress })
    | tlv_none ↦ ran (in_progress, none) smp
    | padding ↦ ran (in_progress, none) smp
    | disconnected ↦ ran (in_progress, none) smp
    | sym_key ↦ ran (in_progress, none) smp
  ]
