-- ===== src/Otrng/Outcome.antt =====
-- src/otrng.c: what holds of a conversation that a handler of the key exchange leaves, by the calls the
-- handler is composed of.
use libotrv.Prelude.{
  ◌≡◌, refl, ◌⊎◌, inl, inr, Bool, true, false, not, Option, none, some, if◌then◌else◌,
}
use libotrv.Crypto.{Goldilocks, Shake, Gcrypt}
use libotrv.Run.{Run, success, error, crashed, ◌>>=◌, attempt, not_null}
use libotrv.KeyExchange.{participant_t}
use libotrv.ClientProfile.{ClientProfile}
use libotrv.KeyManager.Ephemeral.{Chance}
use libotrv.KeyManager.Ratchet.{Manager, ratcheting_init}
use libotrv.Dake.Messages.{IdentityMessage, AuthR}
use libotrv.Ring.{RingChance}
use libotrv.Otrng.Handshake.{
  State, state_none, state_start, state_waiting_auth_r, state_waiting_auth_i,
  state_waiting_dake_data_message, state_encrypted_messages, state_finished, Otr,
}
use libotrv.Otrng.Handlers.{
  Reply, no_reply, encoded, Left, in_keys, or_leave, keep_profile, copy_profile, set_their_keys_of,
  receive_identity_message_on_state_start, receive_identity_message_on_waiting_auth_r, by_state,
  use_first_keys, double_ratcheting_init, then_wait, accept_auth_r, accept_auth_i,
}

module _ (g : Goldilocks) (c : Gcrypt) (s : Shake) where
  -- What holds of a result, and of the conversation that an error leaves.
  abbrev pub Outcome {ℓ} :
      (P : Otr g c s → Type 0) {A : Type ℓ} (Q : A → Type 0) → Run (Left g c s) A → Type 0
  Outcome P Q (success a) = Q a
  Outcome P Q (error left) = P left.0
  Outcome P Q crashed = Unit {0}

  -- What holds of the conversation that a handler leaves.
  abbrev pub Leaves : (P : Otr g c s → Type 0) → Run (Left g c s) (Left g c s) → Type 0
  Leaves P = Outcome P (λ left. P left.0)

  module _ (P : Otr g c s → Type 0) where
    pub bind {ℓ κ} :
        {A : Type ℓ} {B : Type κ} (Q : A → Type 0) (R : B → Type 0) (r : Run (Left g c s) A)
        (f : A → Run (Left g c s) B)
        → Outcome P Q r
        → ((a : A) → Q a → Outcome P R (f a))
        → Outcome P R (r >>= f)
    bind Q R (success a) f h k = k a h
    bind Q R (error left) f h k = h
    bind Q R crashed f h k = tt

    pub unless {ℓ} :
        {A : Type ℓ} (Q : A → Type 0) (b : Bool) (x y : Run (Left g c s) A)
        → Outcome P Q x
        → (b ≡ true → Outcome P Q y)
        → Outcome P Q (if not b then x else y)
    unless Q true x y h k = k refl
    unless Q false x y h k = h

    pub attempted :
        {A : Type 0} (left : Left g c s) (o : Option A)
        → P left.0
        → Outcome P (λ a. o ≡ some a) (attempt left o)
    attempted left none h = h
    attempted left (some a) h = refl

    pub left_alone :
        {A : Type 0} (left : Left g c s) (r : Run (Unit {0}) A)
        → P left.0
        → Outcome P (λ a. r ≡ success a) (or_leave g c s left r)
    unfolding or_leave
    left_alone left (success a) h = refl
    left_alone left (error u) h = h
    left_alone left crashed h = tt

    kept :
        (Q : Otr g c s → Type 0) (otr : Otr g c s) (reply : Reply)
        (r : Run (Manager g c s) (Manager g c s))
        → ((m : Manager g c s) → P (record otr { keys = m }))
        → ((m : Manager g c s) → Q (record otr { keys = m }))
        → Outcome P Q (in_keys g c s otr reply r)
    unfolding in_keys
    kept Q otr reply (success m) h k = k m
    kept Q otr reply (error m) h k = h m
    kept Q otr reply crashed h k = tt

  -- The conversation is in the state `before`, or in `after` and the evidence `E` is there.
  abbrev pub Moved : State → State → Type 0 → Otr g c s → Type 0
  Moved before after E otr = (otr.state ≡ before) ⊎ ((otr.state ≡ after) × E)

  pub accept_auth_i_lem :
      (before : State) (E : Type 0) (otr : Otr g c s)
      → otr.state ≡ before
      → E
      → Leaves (Moved before state_encrypted_messages E) (accept_auth_i g c s otr)
  unfolding accept_auth_i double_ratcheting_init
  accept_auth_i_lem before E otr same e =
      let P = Moved before state_encrypted_messages E in
      let otr1 = record otr { keys = use_first_keys g c s otr.keys } in
      bind P P (λ l. P l.0) _ _
        (bind P (λ q. P q) P
          (in_keys g c s otr1 no_reply (ratcheting_init g c s otr1.keys participant_t)) _
          (kept P P otr1 no_reply _ (λ m. inl same) (λ m. inl same)) (λ otr2 h. inr (refl, e)))
        (λ otr2 h. h)

  module _ (before after : State) (E : Type 0) where
    abbrev P : Otr g c s → Type 0
    P = Moved before after E

    -- The calls that change other fields leave the state.
    abbrev Same : Otr g c s → Type 0
    Same otr = otr.state ≡ before

    profile_kept :
        (otr : Otr g c s) (src : ClientProfile g) (copy : Option (ClientProfile g))
        → Same otr
        → Outcome P Same (keep_profile g c s otr src copy)
    unfolding keep_profile
    profile_kept otr src none same = inl same
    profile_kept otr src (some p) same = same

    keys_kept :
        (otr : Otr g c s) (reply : Reply) (r : Run (Manager g c s) (Manager g c s))
        → Same otr
        → Outcome P Same (in_keys g c s otr reply r)
    keys_kept otr reply r same = kept P Same otr reply r (λ m. inl same) (λ m. same)

    reply_kept :
        {A : Type 0} (otr : Otr g c s) (reply : Reply) (r : Run (Unit {0}) A)
        → Same otr
        → Outcome P (λ a. Same otr) (or_leave g c s (otr, reply) r)
    unfolding or_leave
    reply_kept otr reply (success a) same = same
    reply_kept otr reply (error u) same = inl same
    reply_kept otr reply crashed same = tt

  waiting_then :
      (before : State) (E : Type 0) (reply : Reply) (r : Run (Left g c s) (Otr g c s))
      → E
      → Leaves (Moved before state_waiting_dake_data_message E) (then_wait g c s reply r)
  unfolding then_wait
  waiting_then before E reply (success otr) e = inr (refl, e)
  waiting_then before E reply (error (otr, r)) e = inr (refl, e)
  waiting_then before E reply crashed e = tt

  pub accept_auth_r_lem :
      (ring : RingChance g) (auth : AuthR g c) (before : State) (E : Type 0) (otr : Otr g c s)
      → otr.state ≡ before
      → E
      → Leaves (Moved before state_waiting_dake_data_message E) (accept_auth_r g c s ring auth otr)
  unfolding accept_auth_r copy_profile
  accept_auth_r_lem ring auth before E otr same e =
      let after = state_waiting_dake_data_message in
      let P = Moved before after E in
      let Same : Otr g c s → Type 0 = λ q. q.state ≡ before in
      let Q : Left g c s → Type 0 = λ l. P l.0 in
      let otr0 = set_their_keys_of g c s otr auth.x auth.a auth.x_first auth.a_first in
      bind P Same Q _ _
        (profile_kept before after E otr0 auth.profile _ (unfold set_their_keys_of in same))
        (λ otr1 same1.
          bind P (λ b. Same otr1) Q _ _ (reply_kept before after E otr1 no_reply _ same1)
            (λ bytes same2.
              bind P Same Q _ _ (keys_kept before after E otr1 (encoded bytes) _ same2)
                (λ otr2 same3. waiting_then before E (encoded bytes) _ e)))

  start_lem :
      (chance : Chance) (ring : RingChance g) (msg : IdentityMessage g c) (before : State)
      (E : Type 0) (otr : Otr g c s)
      → otr.state ≡ before
      → E
      → Leaves
          (Moved before state_waiting_auth_i E)
          (receive_identity_message_on_state_start g c s chance ring msg otr)
  unfolding receive_identity_message_on_state_start copy_profile
  start_lem chance ring msg before E otr same e =
      let after = state_waiting_auth_i in
      let P = Moved before after E in
      let Same : Otr g c s → Type 0 = λ q. q.state ≡ before in
      let Q : Left g c s → Type 0 = λ l. P l.0 in
      let otr0 = set_their_keys_of g c s otr msg.y msg.b msg.y_first msg.b_first in
      bind P Same Q _ _
        (profile_kept before after E otr0 msg.profile _ (unfold set_their_keys_of in same))
        (λ otr1 same1.
          bind P Same Q _ _ (keys_kept before after E otr1 no_reply _ same1) (λ otr2 same2.
            bind P (λ b. Same otr2) Q _ _ (reply_kept before after E otr2 no_reply _ same2)
              (λ bytes same3.
                bind P Same Q _ _ (keys_kept before after E otr2 (encoded bytes) _ same3)
                  (λ otr3 same4. inr (refl, e)))))

  either :
      (P : Otr g c s → Type 0) (b : Bool) (x y : Run (Left g c s) (Left g c s))
      → Leaves P x
      → Leaves P y
      → Leaves P (if b then x else y)
  either P true x y h k = h
  either P false x y h k = k

  waiting_auth_r_lem :
      (chance : Chance) (ring : RingChance g) (msg : IdentityMessage g c) (before : State)
      (E : Type 0) (otr : Otr g c s) (ours theirs : Option c.Mpi)
      → otr.state ≡ before
      → E
      → Leaves (Moved before state_waiting_auth_i E) (
          not_null ours >>= λ ours. not_null theirs >>= λ theirs.
          if c.greater ours theirs
          then success (otr, no_reply)
          else receive_identity_message_on_state_start g c s chance ring msg otr)
  waiting_auth_r_lem chance ring msg before E otr none theirs same e = tt
  waiting_auth_r_lem chance ring msg before E otr (some a) none same e = tt
  waiting_auth_r_lem chance ring msg before E otr (some a) (some b) same e =
      either (Moved before state_waiting_auth_i E) (c.greater a b) _ _ (inl same)
        (start_lem chance ring msg before E otr same e)

  pub by_state_lem :
      (state : State) (chance : Chance) (ring : RingChance g) (msg : IdentityMessage g c)
      (before : State) (E : Type 0) (otr : Otr g c s)
      → otr.state ≡ before
      → E
      → Leaves (Moved before state_waiting_auth_i E) (by_state g c s state chance ring msg otr)
  unfolding by_state receive_identity_message_on_waiting_auth_r
  by_state_lem state_none chance ring msg before E otr = start_lem chance ring msg before E otr
  by_state_lem state_start chance ring msg before E otr = start_lem chance ring msg before E otr
  by_state_lem state_waiting_auth_r chance ring msg before E otr =
      waiting_auth_r_lem chance ring msg before E otr otr.keys.our_dh.public msg.b
  by_state_lem state_waiting_auth_i chance ring msg before E otr =
      start_lem chance ring msg before E otr
  by_state_lem state_waiting_dake_data_message chance ring msg before E otr =
      start_lem chance ring msg before E otr
  by_state_lem state_encrypted_messages chance ring msg before E otr =
      start_lem chance ring msg before E otr
  by_state_lem state_finished chance ring msg before E otr = start_lem chance ring msg before E otr
