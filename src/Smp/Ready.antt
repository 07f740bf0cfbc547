-- ===== src/Smp/Ready.antt =====
-- What the operations of src/smp.c keep: the secret is there whenever the second message is awaited.
use libotrv.Prelude.{
  ℕ, ◌≡◌, refl, sym, ap, ◌∙◌, inl, inr, false, Option, none, some, [], Bool-cases, Option-cases,
  Bytes,
}
use mathlib.Core.Bool.{true≢false}
use mathlib.Core.Path.{subst}
use libotrv.Smp.Diagram.{
  due, SmpStep, asked, answered, accepted_3, rejected_3, accepted_4, rejected_4, garbled,
  unexpected, aborted, ignored,
}
use libotrv.Smp.Safety.{Steps, process_smp-Steps}
use libotrv.Crypto.{Goldilocks, Shake}
use libotrv.Tlv.{
  TlvType, tlv_none, padding, disconnected, smp_msg_1, smp_msg_2, smp_msg_3, smp_msg_4, smp_abort,
  sym_key, Tlv, tlv_new,
}
use libotrv.Smp.Messages.{Message1, Message2}
use libotrv.Smp.State.{
  Expect, expect_1, expect_2, expect_3, quarter_progress, half_progress, Smp, Chance, Run, crashed,
  ran, attempt, through,
}
use libotrv.Smp.Proofs.{generate_smp_message_1, generate_smp_message_2}
use libotrv.Smp.Machine.{Event, expects, Reply, reply_with_smp_message_2, process_smp}
use libotrv.Smp.Session.{secret_from, start_with, smp_initiate, smp_provide_secret}

module _ (g : Goldilocks) (k : Shake) where
  -- The secret is there whenever the second message is awaited.
  pub Ready : Smp g → Type 0
  Ready smp = smp.state_expect ≡ expect_2 → (secret : Bytes) × (smp.secret ≡ some secret)

  -- The same, of the state that a run leaves.
  pub RunReady : {A : Type 0} → Run g A → Type 0
  RunReady crashed = Unit
  RunReady (ran a smp) = Ready smp

  pub RunReady-ran :
      {A : Type 0} (r : Run g A) (a : A) (smp : Smp g) → RunReady r → r ≡ ran a smp → Ready smp
  unfolding RunReady
  RunReady-ran r a smp h e = subst RunReady e h

  pub Ready-other :
      (smp : Smp g) (e : Expect) → expects e expect_2 ≡ false → smp.state_expect ≡ e → Ready smp
  unfolding Ready expects
  Ready-other smp e h q two =
      absurd (true≢false (sym (ap (λ x. expects x expect_2) (sym q ∙ two)) ∙ h))

  -- A run keeps the secret where each of its early returns and its end does.
  Keeps : Option Bytes → {A : Type 0} → Run g A → Type 0
  Keeps secret crashed = Unit
  Keeps secret (ran a smp) = smp.secret ≡ secret

  attempt-Keeps :
      {A M : Type 0} (secret : Option Bytes) (o : Option A) (smp : Smp g)
      (next : A → Run g (Option M))
      → smp.secret ≡ secret
      → ((a : A) → Keeps secret (next a))
      → Keeps secret (attempt g o smp next)
  unfolding attempt Keeps
  attempt-Keeps secret none smp next e h = e
  attempt-Keeps secret (some a) smp next e h = h a

  through-Keeps :
      {A M : Type 0} (secret : Option Bytes) (o : Option A) (next : A → Run g (Option M))
      → ((a : A) → Keeps secret (next a))
      → Keeps secret (through g o next)
  unfolding through Keeps
  through-Keeps secret none next h = tt
  through-Keeps secret (some a) next h = h a

  ran-Keeps :
      {A : Type 0} (secret : Option Bytes) (a : A) (smp : Smp g)
      → smp.secret ≡ secret
      → Keeps secret (ran a smp)
  unfolding Keeps
  ran-Keeps secret a smp e = e

  generate_1-Keeps :
      (chance : Chance g) (smp : Smp g) → Keeps smp.secret (generate_smp_message_1 g k chance smp)
  unfolding generate_smp_message_1
  generate_1-Keeps chance smp =
      attempt-Keeps smp.secret _ _ _ refl
        (λ c2. attempt-Keeps smp.secret _ _ _ refl (λ c3. ran-Keeps smp.secret _ _ refl))

  generate_2-Keeps :
      (chance : Chance g) (msg_1 : Option (Message1 g)) (smp : Smp g)
      → Keeps smp.secret (generate_smp_message_2 g k chance msg_1 smp)
  unfolding generate_smp_message_2
  generate_2-Keeps chance msg_1 smp =
      let s = smp.secret in
      attempt-Keeps s _ _ _ refl (λ c2. attempt-Keeps s _ _ _ refl (λ c3. through-Keeps s _ _ (λ m.
        through-Keeps s _ _ (λ secret.
          attempt-Keeps s _ _ _ refl
            (λ y. attempt-Keeps s _ _ _ refl (λ cp. ran-Keeps s _ _ refl))))))

  secret-Ready : (smp : Smp g) (secret : Bytes) → smp.secret ≡ some secret → Ready smp
  unfolding Ready
  secret-Ready smp secret e two = (secret, e)

  reply_2_from :
      (chance : Chance g) (smp : Smp g) (secret : Bytes) (r : Run g (Option (Message2 g)))
      → generate_smp_message_2 g k chance smp.message1 smp ≡ r
      → Keeps (some secret) r
      → RunReady (reply_with_smp_message_2 g k chance smp)
  unfolding reply_with_smp_message_2 tlv_new RunReady Keeps
  reply_2_from chance smp secret crashed e h = rw (e, reply_with_smp_message_2) tt
  reply_2_from chance smp secret (ran none smp1) e h =
      rw (e, reply_with_smp_message_2) (secret-Ready smp1 secret h)
  reply_2_from chance smp secret (ran (some m) smp1) e h =
      rw (e, reply_with_smp_message_2)
        (secret-Ready (record smp1 { state_expect = expect_3; progress = half_progress }) secret h)

  reply_2-RunReady :
      (chance : Chance g) (smp : Smp g) (secret : Bytes)
      → smp.secret ≡ some secret
      → RunReady (reply_with_smp_message_2 g k chance smp)
  reply_2-RunReady chance smp secret e = reply_2_from chance smp secret _ refl (
      subst (λ s. Keeps s (generate_smp_message_2 g k chance smp.message1 smp)) e
        (generate_2-Keeps chance smp.message1 smp))

  start_from :
      (chance : Chance g) (question : Option Bytes) (q_len : ℕ) (smp : Smp g) (secret : Bytes)
      (r : Run g (Option (Message1 g)))
      → generate_smp_message_1 g k chance smp ≡ r
      → Keeps (some secret) r
      → RunReady (start_with g k chance question q_len smp)
  unfolding start_with RunReady Keeps
  start_from chance question q_len smp secret crashed e h = rw (e, start_with) tt
  start_from chance question q_len smp secret (ran none smp1) e h =
      rw (e, start_with)
        (elim (Option-cases smp1.message1) [
          | inl m ↦ rw m tt
          | inr (message1, m) ↦ rw m (secret-Ready smp1 secret h)
        ])
  start_from chance question q_len smp secret (ran (some m) smp1) e h =
      rw (e, start_with)
        (secret-Ready (record smp1 { state_expect = expect_2; progress = quarter_progress }) secret
          h)

  pub initiate-RunReady :
      (chance : Chance g) (our their question : Option Bytes) (q_len : ℕ) (answer ssid : Bytes)
      (smp : Smp g)
      → Ready smp
      → RunReady (smp_initiate g k chance our their question q_len answer ssid smp)
  unfolding smp_initiate RunReady
  initiate-RunReady chance our their question q_len answer ssid smp ready =
      elim (Bool-cases (expects smp.state_expect expect_1)) [
        | inr h ↦ rw h ready
        | inl h ↦ elim (Option-cases (secret_from g k our their ssid answer)) [
          | inl e ↦ rw (h, e) ready
          | inr (secret, e) ↦
              rw (h, e)
                (start_from chance question q_len (record smp { secret = some secret }) secret _
                  refl (generate_1-Keeps chance (record smp { secret = some secret })))
        ]
      ]

  pub provide-RunReady :
      (chance : Chance g) (our their : Option Bytes) (ssid secret : Bytes) (smp : Smp g)
      → Ready smp
      → RunReady (smp_provide_secret g k chance our their ssid secret smp)
  unfolding smp_provide_secret RunReady
  provide-RunReady chance our their ssid secret smp ready =
      elim (Bool-cases (expects smp.state_expect expect_1)) [
        | inr h ↦ rw h ready
        | inl h ↦ elim (Option-cases (secret_from g k their our ssid secret)) [
          | inl e ↦ rw (h, e) ready
          | inr (hashed, e) ↦
              rw (h, e) (reply_2-RunReady chance (record smp { secret = some hashed }) hashed refl)
        ]
      ]

  step_leaves :
      (e e' : Expect) (t : TlvType) (event : Event) (d : Expect)
      → SmpStep e t event e'
      → due t ≡ some d
      → expects e' expect_2 ≡ false
  unfolding expects
  step_leaves _ _ _ _ d asked q = refl
  step_leaves _ _ _ _ d answered q = refl
  step_leaves _ _ _ _ d accepted_3 q = refl
  step_leaves _ _ _ _ d rejected_3 q = refl
  step_leaves _ _ _ _ d accepted_4 q = refl
  step_leaves _ _ _ _ d rejected_4 q = refl
  step_leaves _ _ _ _ d (garbled e t h) q = refl
  step_leaves _ _ _ _ d (unexpected e e' t h ne) q = refl
  step_leaves _ _ _ _ d (aborted e) q = refl
  step_leaves _ _ _ _ d (ignored e t h) q = cc

  the_secret :
      (smp : Smp g)
      → Ready smp
      → (secret : Bytes) × (smp.state_expect ≡ expect_2 → smp.secret ≡ some secret)
  unfolding Ready
  the_secret smp ready = elim (Option-cases smp.secret) [
    | inl e ↦ ([], λ two. let (secret, same) = ready two in cc)
    | inr (secret, e) ↦ (secret, λ two. e)
  ]

  pub Ready-Steps :
      (chance : Chance g) (smp : Smp g) (tlv : Tlv)
      → Ready smp
      → Steps g k smp tlv (process_smp g k chance smp tlv)
  Ready-Steps chance smp tlv ready =
      let (secret, known) = the_secret smp ready in
      process_smp-Steps g k chance smp tlv secret known

  Steps-RunReady :
      (smp : Smp g) (tlv : Tlv) (d : Expect) (r : Run g Reply)
      → Steps g k smp tlv r
      → due tlv.type ≡ some d
      → RunReady r
  unfolding Steps RunReady
  Steps-RunReady smp tlv d crashed s q = tt
  Steps-RunReady smp tlv d (ran (event, out) smp1) s q =
      Ready-other smp1 smp1.state_expect (step_leaves _ _ _ _ d s.0 q) refl

  undue-RunReady :
      (chance : Chance g) (smp : Smp g) (t : TlvType) (len : ℕ) (bytes : Bytes)
      → due t ≡ none
      → Ready smp
      → RunReady (process_smp g k chance smp (record { type = t; len = len; bytes = bytes }))
  unfolding process_smp RunReady due expects
  undue-RunReady chance smp smp_msg_1 len bytes q ready = cc
  undue-RunReady chance smp smp_msg_2 len bytes q ready = cc
  undue-RunReady chance smp smp_msg_3 len bytes q ready = cc
  undue-RunReady chance smp smp_msg_4 len bytes q ready = cc
  undue-RunReady chance smp smp_abort len bytes q ready = Ready-other _ expect_1 refl refl
  undue-RunReady chance smp tlv_none len bytes q ready = ready
  undue-RunReady chance smp padding len bytes q ready = ready
  undue-RunReady chance smp disconnected len bytes q ready = ready
  undue-RunReady chance smp sym_key len bytes q ready = ready

  pub process-RunReady :
      (chance : Chance g) (smp : Smp g) (t : TlvType) (len : ℕ) (bytes : Bytes)
      → Ready smp
      → RunReady (process_smp g k chance smp (record { type = t; len = len; bytes = bytes }))
  process-RunReady chance smp t len bytes ready =
      let tlv : Tlv = record { type = t; len = len; bytes = bytes } in
      elim (Option-cases (due t)) [
        | inr (d, q) ↦ Steps-RunReady smp tlv d _ (Ready-Steps chance smp tlv ready) q
        | inl q ↦ undue-RunReady chance smp t len bytes q ready
      ]
