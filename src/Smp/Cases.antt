-- ===== src/Smp/Cases.antt =====
-- What each handler of the machine can do in the state in which it is expected.
use libotrv.Prelude.{
  ◌%◌, ◌^◌, ◌≡◌, refl, ◌⊎◌, inl, inr, true, Option, none, some, if◌then◌else◌, Bool-cases,
  Option-cases, length, take, Bytes,
}
use libotrv.Crypto.{Goldilocks, Shake}
use libotrv.Tlv.{TlvType, smp_msg_3, smp_msg_4, Tlv, tlv_new}
use libotrv.Smp.Messages.{
  Message1, Message2, Message3, Message4, smp_message_1_deserialize, smp_message_2_deserialize,
  smp_message_3_serialize, smp_message_3_deserialize, smp_message_4_serialize,
  smp_message_4_deserialize,
}
use libotrv.Smp.State.{
  Expect, expect_none, expect_1, expect_2, expect_3, expect_4, half_progress, half_quarter_progress,
  total_progress, Smp, Chance, Run, crashed, ran, attempt, through, smp_message_1_valid_points,
  smp_message_2_valid_points, smp_message_3_validate_points, smp_is_valid_for_message_3,
  smp_is_valid_for_message_4,
}
use libotrv.Smp.Proofs.{
  generate_smp_message_3, generate_smp_message_4, smp_message_1_valid_zkp, smp_message_2_valid_zkp,
  smp_message_3_validate_zkp, smp_message_4_validate_zkp,
}
use libotrv.Smp.Machine.{
  Event, event_none, success, failure, error, expects, receive_smp_message_1, receive_smp_message_2,
  receive_smp_message_3, receive_smp_message_4, reply_with_smp_message_3, reply_with_smp_message_4,
}

pub expects-eq : (e f : Expect) → expects e f ≡ true → e ≡ f
unfolding expects
expects-eq expect_none expect_none h = refl
expects-eq expect_1 expect_1 h = refl
expects-eq expect_2 expect_2 h = refl
expects-eq expect_3 expect_3 h = refl
expects-eq expect_4 expect_4 h = refl
expects-eq expect_none expect_1 h = cc
expects-eq _ _ h = cc

-- The record that carries a message: its length is cut to 16 bits.
abbrev carried : TlvType → Bytes → Tlv
carried type bytes = record {
  type = type;
  len = length bytes % 2 ^ 16;
  bytes = take (length bytes % 2 ^ 16) bytes;
}

module _ (g : Goldilocks) (k : Shake) where
  -- The third message was read from the record, and its points and proofs are valid.
  pub Checked3 : Smp g → Tlv → Message3 g → Type 0
  Checked3 smp tlv msg =
      (smp_message_3_deserialize g tlv.bytes ≡ some msg)
      × (smp_message_3_validate_points g msg ≡ true)
      × (smp_message_3_validate_zkp g k msg smp ≡ true)

  pub Checked4 : Smp g → Tlv → Message4 g → Type 0
  Checked4 smp tlv msg =
      (smp_message_4_deserialize g tlv.bytes ≡ some msg)
      × (g.point_valid msg.rb ≡ true)
      × (smp_message_4_validate_zkp g k msg smp ≡ true)

  pub receive_3_cases :
      (smp : Smp g) (tlv : Tlv)
      → expects smp.state_expect expect_3 ≡ true
      → (receive_smp_message_3 g k smp tlv ≡ (inl error, smp))
        ⊎ ((msg : Message3 g) × Checked3 smp tlv msg
            × (receive_smp_message_3 g k smp tlv
                ≡ (inr msg, record smp { progress = half_quarter_progress })))
  unfolding receive_smp_message_3 Checked3
  receive_3_cases smp tlv h = elim (Option-cases (smp_message_3_deserialize g tlv.bytes)) [
    | inl e ↦ inl (rw (h, e) refl)
    | inr (msg, e) ↦ elim (Bool-cases (smp_message_3_validate_points g msg)) [
      | inr p ↦ inl (rw (h, e, p) refl)
      | inl p ↦ elim (Bool-cases (smp_message_3_validate_zkp g k msg smp)) [
        | inr z ↦ inl (rw (h, e, p, z) refl)
        | inl z ↦ inr (msg, (e, p, z), rw (h, e, p, z) refl)
      ]
    ]
  ]

  pub receive_4_cases :
      (smp : Smp g) (tlv : Tlv)
      → expects smp.state_expect expect_4 ≡ true
      → (receive_smp_message_4 g k smp tlv ≡ (error, smp))
        ⊎ ((msg : Message4 g) × Checked4 smp tlv msg
            × (receive_smp_message_4 g k smp tlv ≡ (
              if smp_is_valid_for_message_4 g msg smp then success else failure,
              record smp { progress = total_progress; state_expect = expect_1 },
            )))
  unfolding receive_smp_message_4 Checked4
  receive_4_cases smp tlv h = elim (Option-cases (smp_message_4_deserialize g tlv.bytes)) [
    | inl e ↦ inl (rw (h, e) refl)
    | inr (msg, e) ↦ elim (Bool-cases (g.point_valid msg.rb)) [
      | inr p ↦ inl (rw (h, e, p) refl)
      | inl p ↦ elim (Bool-cases (smp_message_4_validate_zkp g k msg smp)) [
        | inr z ↦ inl (rw (h, e, p, z) refl)
        | inl z ↦ inr (msg, (e, p, z), rw (h, e, p, z) refl)
      ]
    ]
  ]

  pub receive_1_cases :
      (chance : Chance g) (smp : Smp g) (tlv : Tlv)
      → expects smp.state_expect expect_1 ≡ true
      → (receive_smp_message_1 g k chance smp tlv ≡ (error, smp))
        ⊎ ((msg : Message1 g) × (receive_smp_message_1 g k chance smp tlv
              ≡ (event_none, record smp { message1 = some msg })))
  unfolding receive_smp_message_1
  receive_1_cases chance smp tlv h =
      elim (Option-cases (smp_message_1_deserialize g chance.stale_q_len tlv.bytes)) [
        | inl e ↦ inl (rw (h, e) refl)
        | inr (msg, e) ↦ elim (Bool-cases (smp_message_1_valid_points g msg)) [
          | inr p ↦ inl (rw (h, e, p) refl)
          | inl p ↦ elim (Bool-cases (smp_message_1_valid_zkp g k msg)) [
            | inr z ↦ inl (rw (h, e, p, z) refl)
            | inl z ↦ inr (msg, rw (h, e, p, z) refl)
          ]
        ]
      ]

  -- The secret of the state that `receive_smp_message_2` leaves is that of the state before.
  pub receive_2_cases :
      (smp : Smp g) (tlv : Tlv)
      → expects smp.state_expect expect_2 ≡ true
      → (smp1 : Smp g) × (smp1.secret ≡ smp.secret)
        × ((receive_smp_message_2 g k smp tlv ≡ (inl error, smp1))
            ⊎ ((msg : Message2 g) × (receive_smp_message_2 g k smp tlv ≡ (inr msg, smp1))))
  unfolding receive_smp_message_2
  receive_2_cases smp tlv h = elim (Option-cases (smp_message_2_deserialize g tlv.bytes)) [
    | inl e ↦ (smp, refl, inl (rw (h, e) refl))
    | inr (msg, e) ↦ elim (Bool-cases (smp_message_2_valid_points g msg)) [
      | inr p ↦ (smp, refl, inl (rw (h, e, p) refl))
      | inl p ↦
          let smp1 = record smp {
            g2 = g.scalarmul msg.g2b smp.a2;
            g3 = g.scalarmul msg.g3b smp.a3;
          } in
          elim (Bool-cases (smp_message_2_valid_zkp g k msg smp1)) [
            | inr z ↦ (smp1, refl, inl (rw (h, e, p, z) refl))
            | inl z ↦ (smp1, refl, inr (msg, rw (h, e, p, z) refl))
          ]
    ]
  ]

  pub reply_4_cases :
      (chance : Chance g) (msg : Message3 g) (smp : Smp g)
      → (reply_with_smp_message_4 g k chance msg smp ≡ ((error, none), smp))
        ⊎ ((tlv : Tlv) × (reply_with_smp_message_4 g k chance msg smp ≡ (
          (if smp_is_valid_for_message_3 g msg smp then success else failure, some tlv),
          record smp { progress = total_progress; state_expect = expect_1 },
        )))
  unfolding reply_with_smp_message_4 tlv_new smp_is_valid_for_message_3
  reply_4_cases chance msg smp = elim (Option-cases (generate_smp_message_4 g k chance msg smp)) [
    | inl e ↦ inl (rw (e, reply_with_smp_message_4) refl)
    | inr (msg_4, e) ↦
        inr (
          carried smp_msg_4 (smp_message_4_serialize g msg_4),
          rw (e, reply_with_smp_message_4) refl,
        )
  ]

  -- A run that reads through no null pointer.
  pub data Survives {A : Type 0} : Run g A → Type 0 where
    survived : (a : A) (smp : Smp g) → Survives (ran a smp)

  attempt-Survives :
      {A M : Type 0} (o : Option A) (smp : Smp g) (next : A → Run g (Option M))
      → ((a : A) → Survives (next a))
      → Survives (attempt g o smp next)
  unfolding attempt
  attempt-Survives none smp next h = survived none smp
  attempt-Survives (some a) smp next h = h a

  through-Survives :
      {A M : Type 0} (o : Option A) (a : A) (next : A → Run g (Option M))
      → o ≡ some a
      → ((b : A) → Survives (next b))
      → Survives (through g o next)
  unfolding through
  through-Survives none a next e h = cc
  through-Survives (some b) a next e h = h b

  generate_3-Survives :
      (chance : Chance g) (msg : Message2 g) (smp : Smp g) (secret : Bytes)
      → smp.secret ≡ some secret
      → Survives (generate_smp_message_3 g k chance msg smp)
  unfolding generate_smp_message_3
  generate_3-Survives chance msg smp secret h = through-Survives smp.secret secret _ h (λ y.
      attempt-Survives _ _ _
        (λ x. attempt-Survives _ _ _ (λ cp. attempt-Survives _ _ _ (λ cr. survived _ _))))

  -- The reply is an error with nothing to send, or the third message and the fourth state.
  unfoldable pub Reply3 : Run g (Event × Option Tlv) → Type 0
  Reply3 r =
      (smp1 : Smp g) × ((r ≡ ran (error, none) smp1)
        ⊎ ((tlv : Tlv) × (smp1.state_expect ≡ expect_4) × (r ≡ ran (event_none, some tlv) smp1)))

  reply_3_from :
      (chance : Chance g) (msg : Message2 g) (smp : Smp g) (r : Run g (Option (Message3 g)))
      → generate_smp_message_3 g k chance msg smp ≡ r
      → Survives r
      → Reply3 (reply_with_smp_message_3 g k chance msg smp)
  unfolding Reply3 reply_with_smp_message_3 tlv_new
  reply_3_from chance msg smp crashed e s = elim s [ ]
  reply_3_from chance msg smp (ran none smp1) e s =
      (smp1, inl (rw (e, reply_with_smp_message_3) refl))
  reply_3_from chance msg smp (ran (some m) smp1) e s = (
    record smp1 { state_expect = expect_4; progress = half_progress },
    inr (
      carried smp_msg_3 (smp_message_3_serialize g m),
      refl,
      rw (e, reply_with_smp_message_3) refl,
    ),
  )

  pub reply_3_cases :
      (chance : Chance g) (msg : Message2 g) (smp : Smp g) (secret : Bytes)
      → smp.secret ≡ some secret
      → Reply3 (reply_with_smp_message_3 g k chance msg smp)
  reply_3_cases chance msg smp secret h =
      reply_3_from chance msg smp _ refl (generate_3-Survives chance msg smp secret h)
