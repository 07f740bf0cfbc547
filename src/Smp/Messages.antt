-- ===== src/Smp/Messages.antt =====
-- The four messages, and how they are written and read.
use libotrv.Prelude.{ℕ, Option, none, some, ◌++◌, length, drop, Bytes, ◌>>=◌, ◌>>◌, require}
use libotrv.Crypto.{Goldilocks, point_bytes, scalar_bytes}
use libotrv.Wire.Serialize.{serialize_data}
use libotrv.Wire.Deserialize.{deserialize_data}
use libotrv.Wire.Keys.{serialize_ec_point, deserialize_ec_point}
use libotrv.Smp.Hash.{serialize_ec_scalar, deserialize_ec_scalar}

module _ (g : Goldilocks) where
  open g use {Point, Scalar}

  -- `smp_message_1_s`; `question` may be null.
  pub record Message1 : Type 0 where
    pub question : Option Bytes
    pub q_len : ℕ
    pub g2a : Point
    pub c2 : Scalar
    pub d2 : Scalar
    pub g3a : Point
    pub c3 : Scalar
    pub d3 : Scalar

  pub record Message2 : Type 0 where
    pub g2b : Point
    pub c2 : Scalar
    pub d2 : Scalar
    pub g3b : Point
    pub c3 : Scalar
    pub d3 : Scalar
    pub pb : Point
    pub qb : Point
    pub cp : Scalar
    pub d5 : Scalar
    pub d6 : Scalar

  pub record Message3 : Type 0 where
    pub pa : Point
    pub qa : Point
    pub cp : Scalar
    pub d5 : Scalar
    pub d6 : Scalar
    pub ra : Point
    pub cr : Scalar
    pub d7 : Scalar

  pub record Message4 : Type 0 where
    pub rb : Point
    pub cr : Scalar
    pub d7 : Scalar

module _ (g : Goldilocks) where
  open g use {Point, Scalar}

  -- A point or a scalar at the cursor, and the bytes behind it.
  unfoldable pub next_point : Bytes → Option (Point × Bytes)
  next_point cursor = do p ← deserialize_ec_point g cursor; some (p, drop point_bytes cursor)

  unfoldable pub next_scalar : Bytes → Option (Scalar × Bytes)
  next_scalar cursor = do s ← deserialize_ec_scalar g cursor; some (s, drop scalar_bytes cursor)

  unfoldable pub smp_message_1_serialize : Message1 g → Bytes
  smp_message_1_serialize msg =
      serialize_data msg.question msg.q_len
      ++ (serialize_ec_point g msg.g2a
          ++ (serialize_ec_scalar g msg.c2
              ++ (serialize_ec_scalar g msg.d2
                  ++ (serialize_ec_point g msg.g3a
                      ++ (serialize_ec_scalar g msg.c3 ++ serialize_ec_scalar g msg.d3)))))

  -- The first argument is `msg->q_len` before the call, which an empty question leaves as it is.
  unfoldable pub smp_message_1_deserialize : ℕ → Bytes → Option (Message1 g)
  smp_message_1_deserialize stale_q_len cursor = do
    let read = deserialize_data cursor
    require read.success
    (g2a, at) ← next_point (drop read.read cursor)
    (c2, at) ← next_scalar at
    (d2, at) ← next_scalar at
    (g3a, at) ← next_point at
    (c3, at) ← next_scalar at
    (d3, at) ← next_scalar at
    some (record {
      question = read.bytes;
      q_len = elim read.bytes [ none ↦ stale_q_len | some bytes ↦ length bytes ];
      g2a = g2a;
      c2 = c2;
      d2 = d2;
      g3a = g3a;
      c3 = c3;
      d3 = d3;
    })

  unfoldable pub smp_message_2_serialize : Message2 g → Bytes
  smp_message_2_serialize msg =
      serialize_ec_point g msg.g2b
      ++ (serialize_ec_scalar g msg.c2
          ++ (serialize_ec_scalar g msg.d2
              ++ (serialize_ec_point g msg.g3b
                  ++ (serialize_ec_scalar g msg.c3
                      ++ (serialize_ec_scalar g msg.d3
                          ++ (serialize_ec_point g msg.pb
                              ++ (serialize_ec_point g msg.qb
                                  ++ (serialize_ec_scalar g msg.cp
                                      ++ (serialize_ec_scalar g msg.d5
                                          ++ serialize_ec_scalar g msg.d6)))))))))

  unfoldable pub smp_message_2_deserialize : Bytes → Option (Message2 g)
  smp_message_2_deserialize cursor = do
    (g2b, at) ← next_point cursor
    (c2, at) ← next_scalar at
    (d2, at) ← next_scalar at
    (g3b, at) ← next_point at
    (c3, at) ← next_scalar at
    (d3, at) ← next_scalar at
    (pb, at) ← next_point at
    (qb, at) ← next_point at
    (cp, at) ← next_scalar at
    (d5, at) ← next_scalar at
    (d6, at) ← next_scalar at
    some (record {
      g2b = g2b;
      c2 = c2;
      d2 = d2;
      g3b = g3b;
      c3 = c3;
      d3 = d3;
      pb = pb;
      qb = qb;
      cp = cp;
      d5 = d5;
      d6 = d6;
    })

  unfoldable pub smp_message_3_serialize : Message3 g → Bytes
  smp_message_3_serialize msg =
      serialize_ec_point g msg.pa
      ++ (serialize_ec_point g msg.qa
          ++ (serialize_ec_scalar g msg.cp
              ++ (serialize_ec_scalar g msg.d5
                  ++ (serialize_ec_scalar g msg.d6
                      ++ (serialize_ec_point g msg.ra
                          ++ (serialize_ec_scalar g msg.cr ++ serialize_ec_scalar g msg.d7))))))

  unfoldable pub smp_message_3_deserialize : Bytes → Option (Message3 g)
  smp_message_3_deserialize cursor = do
    (pa, at) ← next_point cursor
    (qa, at) ← next_point at
    (cp, at) ← next_scalar at
    (d5, at) ← next_scalar at
    (d6, at) ← next_scalar at
    (ra, at) ← next_point at
    (cr, at) ← next_scalar at
    (d7, at) ← next_scalar at
    some (record { pa = pa; qa = qa; cp = cp; d5 = d5; d6 = d6; ra = ra; cr = cr; d7 = d7 })

  unfoldable pub smp_message_4_serialize : Message4 g → Bytes
  smp_message_4_serialize msg =
      serialize_ec_point g msg.rb ++ (serialize_ec_scalar g msg.cr ++ serialize_ec_scalar g msg.d7)

  unfoldable pub smp_message_4_deserialize : Bytes → Option (Message4 g)
  smp_message_4_deserialize cursor = do
    (rb, at) ← next_point cursor
    (cr, at) ← next_scalar at
    (d7, at) ← next_scalar at
    some (record { rb = rb; cr = cr; d7 = d7 })
