-- ===== src/Smp/Complete.antt =====
-- The proofs of knowledge that src/smp_protocol.c generates pass its own check.
pub mod Tests
use libotrv.Prelude.{ℕ, ◌≡◌, refl, ap, ◌∙◌, Bool, true, false, none, some}
use libotrv.Crypto.{Goldilocks, Shake}
use libotrv.Smp.Hash.{hash_point, hash_points}
use libotrv.Smp.Messages.{Message1, Message3, Message4}
use libotrv.Smp.State.{Smp, Chance, ran, attempt, zq_public}
use libotrv.Smp.Proofs.{
  generate_smp_message_1, generate_smp_message_4, proves, smp_message_1_valid_zkp,
  smp_message_4_validate_zkp,
}

-- What libgoldilocks documents of its points and scalars: a group and its scalars.
pub record GroupLaws (g : Goldilocks) : Type 0 where
  pub scalarmul_mul :
      (p : g.Point) (s t : g.Scalar)
      → g.scalarmul (g.scalarmul p s) t ≡ g.scalarmul p (g.scalar_mul s t)
  pub scalarmul_sub :
      (p : g.Point) (s t : g.Scalar)
      → g.point_add (g.scalarmul p (g.scalar_sub s t)) (g.scalarmul p t) ≡ g.scalarmul p s
  pub point_add_comm : (p q : g.Point) → g.point_add p q ≡ g.point_add q p
  pub scalar_eq_self : (s : g.Scalar) → g.scalar_eq s s ≡ true

module _ (g : Goldilocks) (k : Shake) (laws : GroupLaws g) where
  -- The point that the check computes from the response is the commitment.
  commitment :
      (r a c : g.Scalar)
      → g.point_add
          (g.scalarmul g.point_base (g.scalar_sub r (g.scalar_mul a c)))
          (g.scalarmul (zq_public g a) c)
        ≡ zq_public g r
  unfolding zq_public
  commitment r a c =
      rw (laws.scalarmul_mul g.point_base a c)
        (laws.scalarmul_sub g.point_base r (g.scalar_mul a c))

  proves-hash :
      (p q : g.Point) (usage : ℕ) (c : g.Scalar)
      → p ≡ q
      → hash_point g k q usage ≡ some c
      → proves g k (hash_point g k p usage) c ≡ true
  unfolding proves
  proves-hash p q usage c e h = rw (e, h) (laws.scalar_eq_self c)

  -- Where no hash fails, the first message that a party generates is made and passes the check of
  -- its proofs by the other party.
  pub generate-valid_zkp_1 :
      (chance : Chance g) (smp : Smp g) (c2 c3 : g.Scalar)
      → hash_point g k (zq_public g chance.r2) 1 ≡ some c2
      → hash_point g k (zq_public g chance.r3) 2 ≡ some c3
      → (msg : Message1 g) × (generate_smp_message_1 g k chance smp
          ≡ ran (some msg) (record smp { a2 = chance.a2; a3 = chance.a3 }))
        × (smp_message_1_valid_zkp g k msg ≡ true)
  unfolding generate_smp_message_1 attempt smp_message_1_valid_zkp
  generate-valid_zkp_1 chance smp c2 c3 h2 h3 =
      let msg : Message1 g = record {
        question = none;
        q_len = 0;
        g2a = zq_public g chance.a2;
        c2 = c2;
        d2 = g.scalar_sub chance.r2 (g.scalar_mul chance.a2 c2);
        g3a = zq_public g chance.a3;
        c3 = c3;
        d3 = g.scalar_sub chance.r3 (g.scalar_mul chance.a3 c3);
      } in
      (
        msg,
        rw (h2, h3) refl,
        rw
            (
              proves-hash _ _ 1 c2 (commitment chance.r2 chance.a2 c2) h2,
              proves-hash _ _ 2 c3 (commitment chance.r3 chance.a3 c3) h3,
            )
            refl,
      )

  -- The same for any base, with the response added behind.
  response :
      (p : g.Point) (r a c : g.Scalar)
      → g.point_add
          (g.scalarmul (g.scalarmul p a) c)
          (g.scalarmul p (g.scalar_sub r (g.scalar_mul a c)))
        ≡ g.scalarmul p r
  response p r a c =
      rw (laws.scalarmul_mul p a c)
        (laws.point_add_comm _ _ ∙ laws.scalarmul_sub p r (g.scalar_mul a c))

  answers :
      (p p' q q' : g.Point) (c : g.Scalar)
      → p ≡ p'
      → q ≡ q'
      → hash_points g k p' q' 8 ≡ some c
      → elim (hash_points g k p q 8) as (λ x. Bool) [
        | none ↦ false
        | some temp_scalar ↦ g.scalar_eq c temp_scalar
      ]
        ≡ true
  answers p p' q q' c e f h = rw (e, f, h) (laws.scalar_eq_self c)

  -- Where no hash fails, the fourth message that the responder generates is made, and the initiator,
  -- who has the responder's public half G3b and the difference of Qa and Qb, accepts its proof.
  pub generate-validate_zkp_4 :
      (chance : Chance g) (msg_3 : Message3 g) (responder initiator : Smp g) (cr : g.Scalar)
      → initiator.g3b ≡ zq_public g responder.b3
      → initiator.qa_qb ≡ g.point_sub msg_3.qa responder.qb
      → hash_points g k
          (zq_public g chance.r7)
          (g.scalarmul (g.point_sub msg_3.qa responder.qb) chance.r7)
          8
        ≡ some cr
      → (msg : Message4 g) × (generate_smp_message_4 g k chance msg_3 responder ≡ some msg)
        × (smp_message_4_validate_zkp g k msg initiator ≡ true)
  unfolding generate_smp_message_4 smp_message_4_validate_zkp zq_public
  generate-validate_zkp_4 chance msg_3 responder initiator cr eg eq h =
      let msg : Message4 g = record {
        rb = g.scalarmul (g.point_sub msg_3.qa responder.qb) responder.b3;
        cr = cr;
        d7 = g.scalar_sub chance.r7 (g.scalar_mul responder.b3 cr);
      } in
      (
        msg,
        rw h refl,
        answers _ _ _ _ cr
            (ap (λ (x : g.Point). g.point_add (g.scalarmul x cr) (g.scalarmul g.point_base msg.d7))
                eg
              ∙ response g.point_base chance.r7 responder.b3 cr)
            (ap (λ (x : g.Point). g.point_add (g.scalarmul msg.rb cr) (g.scalarmul x msg.d7)) eq
              ∙ response (g.point_sub msg_3.qa responder.qb) chance.r7 responder.b3 cr)
            h,
      )
