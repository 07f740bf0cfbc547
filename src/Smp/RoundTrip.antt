-- ===== src/Smp/RoundTrip.antt =====
-- The messages of the protocol are read back as they were written.
use libotrv.Prelude.{
  ℕ, ◌+◌, ◌^◌, ◌<◌, ◌≡◌, refl, sym, ap, ◌∙◌, true, none, some, [], ◌∷◌, ◌++◌, append-nil, arith,
  if◌then◌else◌, ltb-eq_false, ==-ne, length, length-append, take_prefix, drop_prefix, Bytes,
}
use mathlib.Core.Path.{subst}
use libotrv.Crypto.{Goldilocks, GoldilocksLaws}
use libotrv.Wire.Deserialize.{deserialize_data}
use libotrv.Wire.Serialize.{serialize_data}
use libotrv.Wire.RoundTrip.{deserialize-serialize_data, length-serialize_data}
use libotrv.Wire.Keys.{
  serialize_ec_point, length-serialize_ec_point, deserialize-serialize_ec_point,
}
use libotrv.Smp.Hash.{serialize_ec_scalar, deserialize_ec_scalar}
use libotrv.Smp.Messages.{
  Message1, Message2, Message3, Message4, next_point, next_scalar, smp_message_1_serialize,
  smp_message_1_deserialize, smp_message_2_serialize, smp_message_2_deserialize,
  smp_message_3_serialize, smp_message_3_deserialize, smp_message_4_serialize,
  smp_message_4_deserialize,
}

module _ (g : Goldilocks) (laws : GoldilocksLaws g) where
  open g use {Point, Scalar}

  next_point_lem :
      (p : Point) (rest : Bytes) → next_point g (serialize_ec_point g p ++ rest) ≡ some (p, rest)
  unfolding next_point
  next_point_lem p rest =
      rw
        (
          deserialize-serialize_ec_point g laws p rest,
          drop_prefix {A = ℕ} 57 (serialize_ec_point g p) rest
              (sym (length-serialize_ec_point g laws p)),
        )
        refl

  next_scalar_lem :
      (s : Scalar) (rest : Bytes) → next_scalar g (serialize_ec_scalar g s ++ rest) ≡ some (s, rest)
  unfolding next_scalar serialize_ec_scalar deserialize_ec_scalar
  next_scalar_lem s rest =
      rw
        (
          ltb-eq_false (length (g.scalar_encode s ++ rest)) 56
              (omega (arith, length-append (g.scalar_encode s) rest, laws.length-scalar_encode s)),
          take_prefix {A = ℕ} 56 (g.scalar_encode s) rest (sym (laws.length-scalar_encode s)),
          drop_prefix {A = ℕ} 56 (g.scalar_encode s) rest (sym (laws.length-scalar_encode s)),
        )
        (ap (λ t. some (t, rest)) (laws.decode-scalar_encode s))

  -- The scalar at the end of a message.
  last_scalar_lem : (s : Scalar) → next_scalar g (serialize_ec_scalar g s) ≡ some (s, [])
  last_scalar_lem s =
      subst (λ b. next_scalar g b ≡ some (s, [])) (append-nil (serialize_ec_scalar g s))
        (next_scalar_lem s [])

  -- The second message is read back as it was written.
  pub smp_message_2_deserialize-serialize :
      (m : Message2 g) → smp_message_2_deserialize g (smp_message_2_serialize g m) ≡ some m
  unfolding smp_message_2_deserialize smp_message_2_serialize
  smp_message_2_deserialize-serialize m =
      rw (next_point_lem m.g2b, next_scalar_lem m.c2, next_scalar_lem m.d2)
        (rw (next_point_lem m.g3b, next_scalar_lem m.c3, next_scalar_lem m.d3)
          (rw (next_point_lem m.pb, next_point_lem m.qb, next_scalar_lem m.cp)
            (rw (next_scalar_lem m.d5, last_scalar_lem m.d6) refl)))

  -- The third message is read back as it was written.
  pub smp_message_3_deserialize-serialize :
      (m : Message3 g) → smp_message_3_deserialize g (smp_message_3_serialize g m) ≡ some m
  unfolding smp_message_3_deserialize smp_message_3_serialize
  smp_message_3_deserialize-serialize m =
      rw (next_point_lem m.pa, next_point_lem m.qa, next_scalar_lem m.cp)
        (rw (next_scalar_lem m.d5, next_scalar_lem m.d6, next_point_lem m.ra)
          (rw (next_scalar_lem m.cr, last_scalar_lem m.d7) refl))

  -- The fourth message is read back as it was written.
  pub smp_message_4_deserialize-serialize :
      (m : Message4 g) → smp_message_4_deserialize g (smp_message_4_serialize g m) ≡ some m
  unfolding smp_message_4_deserialize smp_message_4_serialize
  smp_message_4_deserialize-serialize m =
      rw (next_point_lem m.rb, next_scalar_lem m.cr, last_scalar_lem m.d7) refl

  -- The fields of the first message behind the question.
  unasked : Message1 g → Bytes
  unasked m =
      serialize_ec_point g m.g2a
      ++ (serialize_ec_scalar g m.c2
          ++ (serialize_ec_scalar g m.d2
              ++ (serialize_ec_point g m.g3a
                  ++ (serialize_ec_scalar g m.c3 ++ serialize_ec_scalar g m.d3))))

  question_back :
      (b : ℕ) (question rest : Bytes)
      → length (b ∷ question) < 2 ^ 32
      → deserialize_data (serialize_data (some (b ∷ question)) (length (b ∷ question)) ++ rest)
        ≡ record { success = true; bytes = some (b ∷ question); read = 4 + length (b ∷ question) }
  question_back b question rest small = deserialize-serialize_data (b ∷ question) rest small ∙ λ i.
      record {
        success = true;
        bytes =
            if ==-ne (length (b ∷ question)) 0 (λ e. absurd (omega arith)) i
            then none
            else some (b ∷ question);
        read = 4 + length (b ∷ question);
      }

  -- The first message is read back as it was written where its question has at least one byte and
  -- less than 2^32. `q_len` of the structure that is read into does not matter then.
  pub smp_message_1_deserialize-serialize :
      (m : Message1 g) (stale b : ℕ) (question : Bytes)
      → m.question ≡ some (b ∷ question)
      → m.q_len ≡ length (b ∷ question)
      → length (b ∷ question) < 2 ^ 32
      → smp_message_1_deserialize g stale (smp_message_1_serialize g m) ≡ some m
  unfolding smp_message_1_deserialize smp_message_1_serialize unasked
  smp_message_1_deserialize-serialize m stale b question q l small =
      rw (q, l, question_back b question (unasked m) small)
        (rw
          (drop_prefix {A = ℕ} (4 + length (b ∷ question))
            (serialize_data (some (b ∷ question)) (length (b ∷ question))) (unasked m)
            (sym (length-serialize_data (b ∷ question))))
          (rw (next_point_lem m.g2a, next_scalar_lem m.c2, next_scalar_lem m.d2)
            (rw (next_point_lem m.g3a, next_scalar_lem m.c3, last_scalar_lem m.d3) refl)))
