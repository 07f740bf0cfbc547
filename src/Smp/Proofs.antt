-- ===== src/Smp/Proofs.antt =====
-- The messages that are generated, with their proofs of knowledge, and the checks of these proofs.
use libotrv.Prelude.{Bool, false, ◌&&◌, Option, none, some, ◌>>=◌}
use libotrv.Crypto.{Goldilocks, Shake}
use libotrv.Smp.Hash.{deserialize_ec_scalar, hash_point, hash_points}
use libotrv.Smp.Messages.{Message1, Message2, Message3, Message4}
use libotrv.Smp.State.{Smp, Chance, Run, ran, attempt, through, zq_public}

module _ (g : Goldilocks) (k : Shake) where
  open g use {
    Point, Scalar, scalarmul, point_base, point_add, point_sub, scalar_mul, scalar_sub, scalar_eq,
  }

  unfoldable pub generate_smp_message_1 : Chance g → Smp g → Run g (Option (Message1 g))
  generate_smp_message_1 chance smp =
      let smp1 = record smp { a2 = chance.a2; a3 = chance.a3 } in
      attempt g (hash_point g k (zq_public g chance.r2) 1) smp1 (λ c2.
        attempt g (hash_point g k (zq_public g chance.r3) 2) smp1 (λ c3.
          ran
            (some (record {
              question = none;
              q_len = 0;
              g2a = zq_public g chance.a2;
              c2 = c2;
              d2 = scalar_sub chance.r2 (scalar_mul chance.a2 c2);
              g3a = zq_public g chance.a3;
              c3 = c3;
              d3 = scalar_sub chance.r3 (scalar_mul chance.a3 c3);
            }))
            smp1))

  -- The first message is read through `msg_1`, which may be null.
  unfoldable pub generate_smp_message_2 :
      Chance g → Option (Message1 g) → Smp g → Run g (Option (Message2 g))
  generate_smp_message_2 chance msg_1 smp =
      let smp1 = record smp { b3 = chance.b3 } in
      attempt g (hash_point g k (zq_public g chance.r2) 3) smp1 (λ c2.
        attempt g (hash_point g k (zq_public g chance.r3) 4) smp1 (λ c3. through g msg_1 (λ msg_1.
          through g smp.secret (λ secret.
            let g2 = scalarmul msg_1.g2a chance.b2 in
            let g3 = scalarmul msg_1.g3a chance.b3 in
            let pb = scalarmul g3 chance.r4 in
            let smp2 = record smp1 { g2 = g2; g3 = g3; g3a = msg_1.g3a; pb = pb } in
            attempt g (deserialize_ec_scalar g secret) smp2 (λ y.
              let qb = point_add (zq_public g chance.r4) (scalarmul g2 y) in
              let smp3 = record smp2 { qb = qb } in
              let left = scalarmul g3 chance.r5 in
              let right = point_add (zq_public g chance.r5) (scalarmul g2 chance.r6) in
              attempt g (hash_points g k left right 5) smp3 (λ cp.
                ran
                  (some (record {
                    g2b = zq_public g chance.b2;
                    c2 = c2;
                    d2 = scalar_sub chance.r2 (scalar_mul chance.b2 c2);
                    g3b = zq_public g chance.b3;
                    c3 = c3;
                    d3 = scalar_sub chance.r3 (scalar_mul chance.b3 c3);
                    pb = pb;
                    qb = qb;
                    cp = cp;
                    d5 = scalar_sub chance.r5 (scalar_mul chance.r4 cp);
                    d6 = scalar_sub chance.r6 (scalar_mul y cp);
                  }))
                  smp3))))))

  unfoldable pub generate_smp_message_3 :
      Chance g → Message2 g → Smp g → Run g (Option (Message3 g))
  generate_smp_message_3 chance msg_2 smp = through g smp.secret (λ secret.
      let pa = scalarmul smp.g3 chance.r4 in
      let smp1 = record smp { g3b = msg_2.g3b; pa_pb = point_sub pa msg_2.pb } in
      attempt g (deserialize_ec_scalar g secret) smp1 (λ x.
        let qa = point_add (zq_public g chance.r4) (scalarmul smp.g2 x) in
        let left = scalarmul smp.g3 chance.r5 in
        let right = point_add (zq_public g chance.r5) (scalarmul smp.g2 chance.r6) in
        attempt g (hash_points g k left right 6) smp1 (λ cp.
          let qa_qb = point_sub qa msg_2.qb in
          let smp2 = record smp1 { qa_qb = qa_qb } in
          attempt g (hash_points g k (zq_public g chance.r7) (scalarmul qa_qb chance.r7) 7) smp2
            (λ cr.
              ran
                (some (record {
                  pa = pa;
                  qa = qa;
                  cp = cp;
                  d5 = scalar_sub chance.r5 (scalar_mul chance.r4 cp);
                  d6 = scalar_sub chance.r6 (scalar_mul x cp);
                  ra = scalarmul qa_qb smp.a3;
                  cr = cr;
                  d7 = scalar_sub chance.r7 (scalar_mul smp.a3 cr);
                }))
                smp2))))

  unfoldable pub generate_smp_message_4 : Chance g → Message3 g → Smp g → Option (Message4 g)
  generate_smp_message_4 chance msg_3 smp = do
    let qa_qb = point_sub msg_3.qa smp.qb
    cr ← hash_points g k (zq_public g chance.r7) (scalarmul qa_qb chance.r7) 8
    some (record {
      rb = scalarmul qa_qb smp.b3;
      cr = cr;
      d7 = scalar_sub chance.r7 (scalar_mul smp.b3 cr);
    })

  -- The hash is there and is the scalar of the message.
  unfoldable pub proves : Option Scalar → Scalar → Bool
  proves none c = false
  proves (some temp_scalar) c = scalar_eq temp_scalar c

  unfoldable pub smp_message_1_valid_zkp : Message1 g → Bool
  unfolding proves
  smp_message_1_valid_zkp msg =
      let g_d2 = point_add (scalarmul point_base msg.d2) (scalarmul msg.g2a msg.c2) in
      let g_d3 = point_add (scalarmul point_base msg.d3) (scalarmul msg.g3a msg.c3) in
      proves (hash_point g k g_d2 1) msg.c2 && proves (hash_point g k g_d3 2) msg.c3

  unfoldable pub smp_message_2_valid_zkp : Message2 g → Smp g → Bool
  unfolding proves
  smp_message_2_valid_zkp msg smp =
      let g_d2 = point_add (scalarmul point_base msg.d2) (scalarmul msg.g2b msg.c2) in
      let g_d3 = point_add (scalarmul point_base msg.d3) (scalarmul msg.g3b msg.c3) in
      let left = point_add (scalarmul smp.g3 msg.d5) (scalarmul msg.pb msg.cp) in
      let right =
        point_add (point_add (scalarmul smp.g2 msg.d6) (scalarmul msg.qb msg.cp))
          (scalarmul point_base msg.d5) in
      proves (hash_point g k g_d2 3) msg.c2
      && (proves (hash_point g k g_d3 4) msg.c3 && proves (hash_points g k left right 5) msg.cp)

  unfoldable pub smp_message_3_validate_zkp : Message3 g → Smp g → Bool
  unfolding proves
  smp_message_3_validate_zkp msg smp =
      let left = point_add (scalarmul msg.pa msg.cp) (scalarmul smp.g3 msg.d5) in
      let right =
        point_add (point_add (scalarmul msg.qa msg.cp) (scalarmul smp.g2 msg.d6))
          (scalarmul point_base msg.d5) in
      let base = point_add (scalarmul smp.g3a msg.cr) (scalarmul point_base msg.d7) in
      let rab = point_add (scalarmul msg.ra msg.cr) (scalarmul (point_sub msg.qa smp.qb) msg.d7) in
      proves (hash_points g k left right 6) msg.cp && proves (hash_points g k base rab 7) msg.cr

  unfoldable pub smp_message_4_validate_zkp : Message4 g → Smp g → Bool
  unfolding proves
  smp_message_4_validate_zkp msg smp =
      let base = point_add (scalarmul smp.g3b msg.cr) (scalarmul point_base msg.d7) in
      let rab = point_add (scalarmul msg.rb msg.cr) (scalarmul smp.qa_qb msg.d7) in
      elim (hash_points g k base rab 8) [
        | none ↦ false
        | some temp_scalar ↦ scalar_eq msg.cr temp_scalar
      ]
