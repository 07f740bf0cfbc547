-- ===== src/Smp/State.antt =====
-- The state of the protocol, and the checks of points and of the secrets' equality.
use libotrv.Prelude.{ℕ, Bool, ◌&&◌, Option, none, some, Bytes}
use libotrv.Crypto.{Goldilocks}
use libotrv.Smp.Messages.{Message1, Message2, Message3, Message4}

-- `otrng_smp_state`
pub data Expect : Type 0 where
  expect_none expect_1 expect_2 expect_3 expect_4 : Expect

-- The five SMP_..._PROGRESS.
abbrev pub zero_progress : ℕ
zero_progress = 0

abbrev pub quarter_progress : ℕ
quarter_progress = 25

abbrev pub half_progress : ℕ
half_progress = 50

abbrev pub half_quarter_progress : ℕ
half_quarter_progress = 75

abbrev pub total_progress : ℕ
total_progress = 100

module _ (g : Goldilocks) where
  open g use {Point, Scalar, scalarmul, point_base, point_sub, point_eq, point_valid}

  -- `smp_protocol_s`; `secret` and `message1` may be null.
  pub record Smp : Type 0 where
    pub state_expect : Expect
    pub secret : Option Bytes
    pub a2 : Scalar
    pub a3 : Scalar
    pub b3 : Scalar
    pub g2 : Point
    pub g3 : Point
    pub g3a : Point
    pub g3b : Point
    pub pb : Point
    pub qb : Point
    pub pa_pb : Point
    pub qa_qb : Point
    pub progress : ℕ
    pub message1 : Option (Message1 g)

  -- What the caller has no say in: the scalars of `ed448_random_scalar`, under the names that the
  -- generating function gives them, and `q_len` of a message structure that is not initialised.
  pub record Chance : Type 0 where
    pub a2 : Scalar
    pub a3 : Scalar
    pub b2 : Scalar
    pub b3 : Scalar
    pub r2 : Scalar
    pub r3 : Scalar
    pub r4 : Scalar
    pub r5 : Scalar
    pub r6 : Scalar
    pub r7 : Scalar
    pub stale_q_len : ℕ

  -- A run: the program reads through a null pointer, or a result and the state it leaves.
  pub data Run (A : Type 0) : Type 0 where
    crashed : Run A
    ran : A → Smp → Run A

  -- The early return on an error, with the state as it is then.
  unfoldable pub attempt : {A M : Type 0} → Option A → Smp → (A → Run (Option M)) → Run (Option M)
  attempt none smp next = ran none smp
  attempt (some a) smp next = next a

  unfoldable pub through : {A M : Type 0} → Option A → (A → Run (Option M)) → Run (Option M)
  through none next = crashed
  through (some a) next = next a

  -- The public half that `otrng_zq_keypair_generate` writes.
  unfoldable pub zq_public : Scalar → Point
  zq_public priv = scalarmul point_base priv

  unfoldable pub smp_message_1_valid_points : Message1 g → Bool
  smp_message_1_valid_points msg = point_valid msg.g2a && point_valid msg.g3a

  unfoldable pub smp_message_2_valid_points : Message2 g → Bool
  smp_message_2_valid_points msg =
      point_valid msg.g2b && (point_valid msg.g3b && (point_valid msg.pb && point_valid msg.qb))

  unfoldable pub smp_message_3_validate_points : Message3 g → Bool
  smp_message_3_validate_points msg =
      point_valid msg.pa && (point_valid msg.qa && point_valid msg.ra)

  -- Pa - Pb == Ra * b3
  unfoldable pub smp_is_valid_for_message_3 : Message3 g → Smp → Bool
  smp_is_valid_for_message_3 msg smp = point_eq (point_sub msg.pa smp.pb) (scalarmul msg.ra smp.b3)

  -- Pa - Pb == Rb * a3
  unfoldable pub smp_is_valid_for_message_4 : Message4 g → Smp → Bool
  smp_is_valid_for_message_4 msg smp = point_eq smp.pa_pb (scalarmul msg.rb smp.a3)
