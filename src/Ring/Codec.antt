-- ===== src/Ring/Codec.antt =====
-- src/serialize.c and src/deserialize.c: the ring signature on the wire, and the keys that are written
-- with their type in front.
use libotrv.Prelude.{
  ℕ, ◌+◌, ◌*◌, ◌≤◌, ◌≡◌, refl, sym, ap, ◌∙◌, Option, some, ◌++◌, append_assoc, arith, leb,
  ltb-eq_false, leb-eq_true, length, drop, length-append, take_prefix, drop_prefix, Bytes, ◌>>=◌,
  ◌>>◌, require,
}
use libotrv.Crypto.{Goldilocks, GoldilocksLaws, scalar_bytes}
use libotrv.Smp.Hash.{serialize_ec_scalar, deserialize_ec_scalar}
use libotrv.Ring.{RingSig}

-- RING_SIG_BYTES
abbrev ring_sig_bytes : ℕ
ring_sig_bytes = 6 * scalar_bytes

module _ (g : Goldilocks) where
  unfoldable pub serialize_ring_sig : RingSig g → Bytes
  serialize_ring_sig proof =
      serialize_ec_scalar g proof.c1
      ++ (serialize_ec_scalar g proof.r1
          ++ (serialize_ec_scalar g proof.c2
              ++ (serialize_ec_scalar g proof.r2
                  ++ (serialize_ec_scalar g proof.c3 ++ serialize_ec_scalar g proof.r3))))

  -- The signature and how many bytes it took.
  unfoldable pub deserialize_ring_sig : Bytes → Option (RingSig g × ℕ)
  deserialize_ring_sig ser = do
    require (leb ring_sig_bytes (length ser))
    c1 ← deserialize_ec_scalar g ser
    let s1 = drop scalar_bytes ser
    r1 ← deserialize_ec_scalar g s1
    let s2 = drop scalar_bytes s1
    c2 ← deserialize_ec_scalar g s2
    let s3 = drop scalar_bytes s2
    r2 ← deserialize_ec_scalar g s3
    let s4 = drop scalar_bytes s3
    c3 ← deserialize_ec_scalar g s4
    let s5 = drop scalar_bytes s4
    r3 ← deserialize_ec_scalar g s5
    some (record { c1 = c1; r1 = r1; c2 = c2; r2 = r2; c3 = c3; r3 = r3 }, ring_sig_bytes)

module _ (g : Goldilocks) (gl : GoldilocksLaws g) where
  length-serialize_ec_scalar : (s : g.Scalar) → length (serialize_ec_scalar g s) ≡ scalar_bytes
  unfolding serialize_ec_scalar
  length-serialize_ec_scalar s = gl.length-scalar_encode s

  deserialize-serialize_ec_scalar :
      (s : g.Scalar) (rest : Bytes)
      → deserialize_ec_scalar g (serialize_ec_scalar g s ++ rest) ≡ some s
  unfolding deserialize_ec_scalar serialize_ec_scalar
  deserialize-serialize_ec_scalar s rest =
      rw
        (
          ltb-eq_false (length (g.scalar_encode s ++ rest)) scalar_bytes
              (omega (arith, length-append (g.scalar_encode s) rest, gl.length-scalar_encode s)),
          take_prefix {A = ℕ} scalar_bytes (g.scalar_encode s) rest
              (sym (gl.length-scalar_encode s)),
          gl.decode-scalar_encode s,
        )
        refl

  drop-serialize_ec_scalar :
      (s : g.Scalar) (rest : Bytes) → drop scalar_bytes (serialize_ec_scalar g s ++ rest) ≡ rest
  drop-serialize_ec_scalar s rest =
      drop_prefix {A = ℕ} scalar_bytes (serialize_ec_scalar g s) rest
        (sym (length-serialize_ec_scalar s))

  -- The whole signature followed by `rest`.
  abbrev all_scalars : RingSig g → Bytes → Bytes
  all_scalars proof rest =
      serialize_ec_scalar g proof.c1
      ++ (serialize_ec_scalar g proof.r1
          ++ (serialize_ec_scalar g proof.c2
              ++ (serialize_ec_scalar g proof.r2
                  ++ (serialize_ec_scalar g proof.c3 ++ (serialize_ec_scalar g proof.r3 ++ rest)))))

  serialize_ring_sig_lem :
      (proof : RingSig g) (rest : Bytes)
      → serialize_ring_sig g proof ++ rest ≡ all_scalars proof rest
  unfolding serialize_ring_sig
  serialize_ring_sig_lem proof rest = simp append_assoc

  length-all_scalars :
      (proof : RingSig g) (rest : Bytes) → ring_sig_bytes ≤ length (all_scalars proof rest)
  length-all_scalars proof rest =
      let enc = serialize_ec_scalar g in
      let len : (s : g.Scalar) (r : Bytes) → length (enc s ++ r) ≡ 56 + length r =
        λ s r. length-append (enc s) r ∙ ap (λ n. n + length r) (length-serialize_ec_scalar s) in
      rw (len proof.c1, len proof.r1, len proof.c2, len proof.r2, len proof.c3, len proof.r3)
        (omega arith)

  pub length-serialize_ring_sig :
      (proof : RingSig g) → length (serialize_ring_sig g proof) ≡ ring_sig_bytes
  unfolding serialize_ring_sig
  length-serialize_ring_sig proof =
      let enc = serialize_ec_scalar g in
      let len : (s : g.Scalar) (r : Bytes) → length (enc s ++ r) ≡ 56 + length r =
        λ s r. length-append (enc s) r ∙ ap (λ n. n + length r) (length-serialize_ec_scalar s) in
      rw
        (
          len proof.c1,
          len proof.r1,
          len proof.c2,
          len proof.r2,
          len proof.c3,
          length-serialize_ec_scalar proof.r3,
        )
        refl

  -- A ring signature is read back as it was written, whatever follows.
  pub deserialize-serialize_ring_sig :
      (proof : RingSig g) (rest : Bytes)
      → deserialize_ring_sig g (serialize_ring_sig g proof ++ rest)
        ≡ some (proof, length (serialize_ring_sig g proof))
  unfolding deserialize_ring_sig
  deserialize-serialize_ring_sig proof rest =
      rw
        (
          serialize_ring_sig_lem proof rest,
          leb-eq_true ring_sig_bytes (length (all_scalars proof rest))
              (length-all_scalars proof rest),
          length-serialize_ring_sig proof,
        )
        (rw (deserialize-serialize_ec_scalar proof.c1 _, drop-serialize_ec_scalar proof.c1 _)
          (rw (deserialize-serialize_ec_scalar proof.r1 _, drop-serialize_ec_scalar proof.r1 _)
            (rw (deserialize-serialize_ec_scalar proof.c2 _, drop-serialize_ec_scalar proof.c2 _)
              (rw (deserialize-serialize_ec_scalar proof.r2 _, drop-serialize_ec_scalar proof.r2 _)
                (rw
                  (deserialize-serialize_ec_scalar proof.c3 _, drop-serialize_ec_scalar proof.c3 _)
                  (rw (deserialize-serialize_ec_scalar proof.r3 _) refl))))))
