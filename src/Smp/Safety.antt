-- ===== src/Smp/Safety.antt =====
-- The diagram of the protocol's states, and what a reported success rests on.
use libotrv.Prelude.{
  ℕ, ◌≡◌, refl, sym, ap, ◌∙◌, ◌⊎◌, inl, inr, Bool, true, some, if◌then◌else◌, Bool-cases, Bytes,
}
use libotrv.Crypto.{Goldilocks, Shake}
use libotrv.Tlv.{
  TlvType, tlv_none, padding, disconnected, smp_msg_1, smp_msg_2, smp_msg_3, smp_msg_4, smp_abort,
  sym_key, Tlv,
}
use libotrv.Smp.Messages.{Message2, Message3, Message4}
use libotrv.Smp.State.{
  expect_1, expect_2, expect_3, expect_4, half_quarter_progress, total_progress, Smp, Chance, Run,
  crashed, ran, smp_is_valid_for_message_3, smp_is_valid_for_message_4,
}
use libotrv.Smp.Machine.{
  Event, ask_for_answer, in_progress, success, failure, abort, error, expects, Reply, ask_on_none,
  process_smp_message1, reply_on_2, process_smp_message2, finished, reply_on_3,
  process_smp_message3, no_reply, process_smp_message4, settle, and_settle, process_smp,
}
use libotrv.Smp.Cases.{
  expects-eq, Checked3, Checked4, receive_3_cases, receive_4_cases, receive_1_cases,
  receive_2_cases, reply_4_cases, Reply3, reply_3_cases,
}
use libotrv.Smp.Diagram.{
  due, SmpStep, asked, answered, accepted_3, rejected_3, accepted_4, rejected_4, garbled,
  unexpected, aborted, ignored, unexpected_1, unexpected_2, unexpected_3, unexpected_4,
}
use mathlib.Core.Path.{subst}

module _ (g : Goldilocks) (k : Shake) where
  -- The record is the message that is due, its points and proofs are valid, and the last comparison
  -- of the protocol holds.
  pub Verified : Smp g → Tlv → Type 0
  Verified smp tlv =
      ((smp.state_expect ≡ expect_3)
        × (tlv.type ≡ smp_msg_3)
        × ((msg : Message3 g) × Checked3 g k smp tlv msg
            × (smp_is_valid_for_message_3 g msg smp ≡ true)))
      ⊎ ((smp.state_expect ≡ expect_4)
          × (tlv.type ≡ smp_msg_4)
          × ((msg : Message4 g) × Checked4 g k smp tlv msg
              × (smp_is_valid_for_message_4 g msg smp ≡ true)))

  -- What a run does: no null pointer is read, the state follows the diagram, and a success is
  -- verified.
  unfoldable pub Steps : Smp g → Tlv → Run g Reply → Type 0
  Steps smp tlv crashed = ⊥
  Steps smp tlv (ran (event, to_send) smp1) =
      SmpStep smp.state_expect tlv.type event smp1.state_expect
      × (event ≡ success → Verified smp tlv)

  Steps-same :
      (smp : Smp g) (tlv : Tlv) (r r' : Run g Reply) → r ≡ r' → Steps smp tlv r' → Steps smp tlv r
  Steps-same smp tlv r r' e s = subst (Steps smp tlv) (sym e) s

  IsSuccess : Event → Type 0
  IsSuccess success = Unit
  IsSuccess _ = ⊥

  unverified : (e : Event) {A : Type 0} → (IsSuccess e → ⊥) → e ≡ success → A
  unfolding IsSuccess
  unverified e h q = absurd (h (subst IsSuccess (sym q) tt))

  abbrev carrying : TlvType → ℕ → Bytes → Tlv
  carrying t len bytes = record { type = t; len = len; bytes = bytes }

  Steps-1 :
      (chance : Chance g) (smp : Smp g) (len : ℕ) (bytes : Bytes)
      → let tlv = carrying smp_msg_1 len bytes in
        Steps smp tlv (and_settle g k (process_smp_message1 g k chance smp tlv))
  unfolding Steps and_settle settle process_smp_message1 ask_on_none IsSuccess due
  Steps-1 chance smp len bytes =
      let tlv = carrying smp_msg_1 len bytes in
      elim (Bool-cases (expects smp.state_expect expect_1)) [
        | inr h ↦
            Steps-same smp tlv _ _ (unexpected_1 g k chance smp tlv h)
              (unexpected smp.state_expect expect_1 smp_msg_1 refl h, unverified abort (λ x. x))
        | inl h ↦ elim (receive_1_cases g k chance smp tlv h) [
          | inl q ↦
              Steps-same smp tlv _ _ (ap (λ r. and_settle g k (ask_on_none g k r)) q)
                (garbled _ _ (ap some (sym (expects-eq _ _ h))), unverified error (λ x. x))
          | inr (msg, q) ↦ Steps-same smp tlv _ _ (ap (λ r. and_settle g k (ask_on_none g k r)) q) (
            subst (λ e. SmpStep e smp_msg_1 ask_for_answer e) (sym (expects-eq _ _ h)) asked,
            unverified ask_for_answer (λ x. x),
          )
        ]
      ]

  Steps-2 :
      (chance : Chance g) (smp : Smp g) (len : ℕ) (bytes secret : Bytes)
      → (smp.state_expect ≡ expect_2 → smp.secret ≡ some secret)
      → let tlv = carrying smp_msg_2 len bytes in
        Steps smp tlv (and_settle g k (process_smp_message2 g k chance smp tlv))
  unfolding Steps and_settle settle process_smp_message2 reply_on_2 IsSuccess due Reply3
  Steps-2 chance smp len bytes secret ready =
      let tlv = carrying smp_msg_2 len bytes in
      let after = λ (r : (Event ⊎ Message2 g) × Smp g). and_settle g k (reply_on_2 g k chance r) in
      elim (Bool-cases (expects smp.state_expect expect_2)) [
        | inr h ↦
            Steps-same smp tlv _ _ (unexpected_2 g k chance smp tlv h)
              (unexpected smp.state_expect expect_2 smp_msg_2 refl h, unverified abort (λ x. x))
        | inl h ↦
            let at = expects-eq _ _ h in
            let bad = garbled smp.state_expect smp_msg_2 (ap some (sym at)) in
            let (smp1, same, received) = receive_2_cases g k smp tlv h in
            elim received [
              | inl q ↦ Steps-same smp tlv _ _ (ap after q) (bad, unverified error (λ x. x))
              | inr (msg, q) ↦ Steps-same smp tlv _ _ (ap after q) (
                  let (smp2, replied) =
                    reply_3_cases g k chance msg smp1 secret (same ∙ ready at) in
                  elim replied [
                    | inl r ↦
                        Steps-same smp tlv _ _ (ap (and_settle g k) r)
                          (bad, unverified error (λ x. x))
                    | inr (out, fourth, r) ↦ Steps-same smp tlv _ _ (ap (and_settle g k) r) (
                      subst (λ e. SmpStep smp.state_expect smp_msg_2 in_progress e) (sym fourth)
                          (subst (λ e. SmpStep e smp_msg_2 in_progress expect_4) (sym at) answered),
                      unverified in_progress (λ x. x),
                    )
                  ])
            ]
      ]

  Steps-3 :
      (chance : Chance g) (smp : Smp g) (len : ℕ) (bytes : Bytes)
      → let tlv = carrying smp_msg_3 len bytes in
        Steps smp tlv (and_settle g k (process_smp_message3 g k chance smp tlv))
  unfolding Steps and_settle settle process_smp_message3 reply_on_3 finished IsSuccess due Verified
      smp_is_valid_for_message_3
  Steps-3 chance smp len bytes =
      let tlv = carrying smp_msg_3 len bytes in
      let after = λ (r : (Event ⊎ Message3 g) × Smp g). and_settle g k (reply_on_3 g k chance r) in
      let sent = λ (r : Reply × Smp g). and_settle g k (finished g k r) in
      let closed = λ (out : Tlv) (b : Bool). sent (
        (if b then success else failure, some out),
        record smp { progress = total_progress; state_expect = expect_1 },
      ) in
      elim (Bool-cases (expects smp.state_expect expect_3)) [
        | inr h ↦
            Steps-same smp tlv _ _ (unexpected_3 g k chance smp tlv h)
              (unexpected smp.state_expect expect_3 smp_msg_3 refl h, unverified abort (λ x. x))
        | inl h ↦
            let at = expects-eq _ _ h in
            let bad = garbled smp.state_expect smp_msg_3 (ap some (sym at)) in
            elim (receive_3_cases g k smp tlv h) [
              | inl q ↦ Steps-same smp tlv _ _ (ap after q) (bad, unverified error (λ x. x))
              | inr (msg, checked, q) ↦
                  let smp1 : Smp g = record smp { progress = half_quarter_progress } in
                  Steps-same smp tlv _ _ (ap after q) (elim (reply_4_cases g k chance msg smp1) [
                    | inl r ↦ Steps-same smp tlv _ _ (ap sent r) (bad, unverified error (λ x. x))
                    | inr (out, r) ↦ elim (Bool-cases (smp_is_valid_for_message_3 g msg smp1)) [
                      | inl v ↦ Steps-same smp tlv _ _ (ap sent r ∙ ap (closed out) v) (
                        subst (λ e. SmpStep e smp_msg_3 success expect_1) (sym at) accepted_3,
                        λ _. inl (at, refl, (msg, checked, v)),
                      )
                      | inr v ↦ Steps-same smp tlv _ _ (ap sent r ∙ ap (closed out) v) (
                        subst (λ e. SmpStep e smp_msg_3 failure expect_1) (sym at) rejected_3,
                        unverified failure (λ x. x),
                      )
                    ]
                  ])
            ]
      ]

  Steps-4 :
      (smp : Smp g) (len : ℕ) (bytes : Bytes)
      → let tlv = carrying smp_msg_4 len bytes in
        Steps smp tlv (and_settle g k (process_smp_message4 g k smp tlv))
  unfolding Steps and_settle settle process_smp_message4 no_reply IsSuccess due Verified
  Steps-4 smp len bytes =
      let tlv = carrying smp_msg_4 len bytes in
      let after = λ (r : Event × Smp g). and_settle g k (no_reply g k r) in
      let last = λ (b : Bool). after (
        if b then success else failure,
        record smp { progress = total_progress; state_expect = expect_1 },
      ) in
      elim (Bool-cases (expects smp.state_expect expect_4)) [
        | inr h ↦
            Steps-same smp tlv _ _ (unexpected_4 g k smp tlv h)
              (unexpected smp.state_expect expect_4 smp_msg_4 refl h, unverified abort (λ x. x))
        | inl h ↦
            let at = expects-eq _ _ h in
            elim (receive_4_cases g k smp tlv h) [
              | inl q ↦
                  Steps-same smp tlv _ _ (ap after q) (
                    garbled smp.state_expect smp_msg_4 (ap some (sym at)),
                    unverified error (λ x. x),
                  )
              | inr (msg, checked, q) ↦ elim (Bool-cases (smp_is_valid_for_message_4 g msg smp)) [
                | inl v ↦ Steps-same smp tlv _ _ (ap after q ∙ ap last v) (
                  subst (λ e. SmpStep e smp_msg_4 success expect_1) (sym at) accepted_4,
                  λ _. inr (at, refl, (msg, checked, v)),
                )
                | inr v ↦ Steps-same smp tlv _ _ (ap after q ∙ ap last v) (
                  subst (λ e. SmpStep e smp_msg_4 failure expect_1) (sym at) rejected_4,
                  unverified failure (λ x. x),
                )
              ]
            ]
      ]

  Steps-type :
      (chance : Chance g) (smp : Smp g) (t : TlvType) (len : ℕ) (bytes secret : Bytes)
      → (smp.state_expect ≡ expect_2 → smp.secret ≡ some secret)
      → Steps smp (carrying t len bytes) (process_smp g k chance smp (carrying t len bytes))
  unfolding process_smp Steps IsSuccess due
  Steps-type chance smp smp_msg_1 len bytes secret ready = Steps-1 chance smp len bytes
  Steps-type chance smp smp_msg_2 len bytes secret ready = Steps-2 chance smp len bytes secret ready
  Steps-type chance smp smp_msg_3 len bytes secret ready = Steps-3 chance smp len bytes
  Steps-type chance smp smp_msg_4 len bytes secret ready = Steps-4 smp len bytes
  Steps-type chance smp smp_abort len bytes secret ready =
      (aborted smp.state_expect, unverified abort (λ x. x))
  Steps-type chance smp tlv_none len bytes secret ready =
      (ignored smp.state_expect tlv_none refl, unverified in_progress (λ x. x))
  Steps-type chance smp padding len bytes secret ready =
      (ignored smp.state_expect padding refl, unverified in_progress (λ x. x))
  Steps-type chance smp disconnected len bytes secret ready =
      (ignored smp.state_expect disconnected refl, unverified in_progress (λ x. x))
  Steps-type chance smp sym_key len bytes secret ready =
      (ignored smp.state_expect sym_key refl, unverified in_progress (λ x. x))

  -- Where the secret is there whenever the second message is awaited, every record is handled
  -- without reading a null pointer, the state goes along the diagram, and the event is a success
  -- only if the message that is due was read, its points and proofs are valid, and the last
  -- comparison of the protocol holds.
  pub process_smp-Steps :
      (chance : Chance g) (smp : Smp g) (tlv : Tlv) (secret : Bytes)
      → (smp.state_expect ≡ expect_2 → smp.secret ≡ some secret)
      → Steps smp tlv (process_smp g k chance smp tlv)
  process_smp-Steps chance smp tlv secret ready =
      Steps-type chance smp tlv.type tlv.len tlv.bytes secret ready
