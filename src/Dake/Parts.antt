-- ===== src/Dake/Parts.antt =====
-- src/dake.c: the header of the messages of the key exchange and a point with a number on the wire.
use libotrv.Prelude.{
  ℕ, ◌+◌, ◌-◌, ◌^◌, ◌≤◌, ◌<◌, ◌≡◌, refl, sym, ap, Option, none, some, ◌++◌, append_assoc, arith,
  ==-self, length, drop, length-append, drop_prefix, Bytes,
}
use libotrv.Crypto.{Goldilocks, GoldilocksLaws, Gcrypt, GcryptLaws}
use libotrv.Wire.Serialize.{serialize_uint32, serialize_uint16, serialize_uint8}
use libotrv.Wire.RoundTrip.{
  deserialize-serialize_uint32, deserialize-serialize_uint16, deserialize-serialize_uint8,
  drop-serialize_uint32, drop-serialize_uint16, drop-serialize_uint8,
}
use libotrv.Wire.Keys.{
  serialize_ec_point, mpi_set, serialize_mpi, length-serialize_ec_point,
  deserialize-serialize_ec_point, IsNumber, printed, serialize_dh_mpi_otr_lem,
  deserialize-serialize_dh_mpi_otr, length-serialize_mpi,
}
use libotrv.Run.{success}
use libotrv.ClientProfile.{ClientProfile}
use libotrv.ClientProfile.Read.{client_profile_deserialize}
use libotrv.Dake.Messages.{serialize_dake_header, serialize_key_pairs}
use libotrv.Dake.Read.{deserialize_dake_header, deserialize_key_pair}

length-header :
    (type sender receiver : ℕ) → length (serialize_dake_header type sender receiver) ≡ 11
unfolding serialize_dake_header serialize_uint16 serialize_uint32 serialize_uint8
length-header type sender receiver = refl

read_header :
    (type sender receiver : ℕ) (rest : Bytes)
    → type < 2 ^ 8
    → sender < 2 ^ 32
    → receiver < 2 ^ 32
    → deserialize_dake_header type (serialize_dake_header type sender receiver ++ rest)
      ≡ some (sender, receiver, rest)
unfolding serialize_dake_header deserialize_dake_header
read_header type sender receiver rest small s r =
    rw
      (straight (serialize_uint16 4) (serialize_uint8 type) (serialize_uint32 sender)
        (serialize_uint32 receiver) rest)
      (rw (deserialize-serialize_uint16 4 _ (omega arith), drop-serialize_uint16)
        (rw (deserialize-serialize_uint8 type _ small, drop-serialize_uint8, ==-self type)
          (rw (deserialize-serialize_uint32 sender _ s, drop-serialize_uint32)
            (rw (deserialize-serialize_uint32 receiver _ r, drop-serialize_uint32) refl))))
  where
    straight : (a b d e f : Bytes) → (a ++ (b ++ (d ++ e))) ++ f ≡ a ++ (b ++ (d ++ (e ++ f)))
    straight a b d e f = simp append_assoc

module _ (g : Goldilocks) (c : Gcrypt) (gl : GoldilocksLaws g) (cl : GcryptLaws c) where
  open g use {Point}
  open c use {Mpi}

  -- A point and a number on the wire.
  abbrev pub pair_of : Point → Option Mpi → Bytes
  pair_of p n = serialize_ec_point g p ++ serialize_mpi (mpi_set (printed c n))

  pub read_key_pair :
      (p : Point) (n : Option Mpi) (rest : Bytes)
      → IsNumber c n
      → deserialize_key_pair g c (pair_of p n ++ rest) ≡ some (p, n, rest)
  unfolding deserialize_key_pair
  read_key_pair p n rest h =
      rw
        (
          append_assoc (serialize_ec_point g p) (serialize_mpi (mpi_set (printed c n))) rest,
          deserialize-serialize_ec_point g gl p _,
          drop_prefix {A = ℕ} 57 (serialize_ec_point g p) _
              (sym (length-serialize_ec_point g gl p)),
        )
        (rw
          (
            deserialize-serialize_dh_mpi_otr c cl n rest h,
            drop_prefix {A = ℕ} (length (printed c n) + 4) (serialize_mpi (mpi_set (printed c n)))
                rest (omega (arith, length-serialize_mpi (printed c n))),
          )
          refl)

  pub length-number : (n : Option Mpi) → IsNumber c n → length (printed c n) ≤ 384
  length-number none h = omega arith
  length-number (some m) h = h.1

  pub serialize_key_pairs_lem :
      (size : ℕ) (front : Bytes) (p p1 : Point) (n n1 : Option Mpi)
      → IsNumber c n
      → IsNumber c n1
      → length front + 890 ≤ size
      → serialize_key_pairs g c size front p n p1 n1
        ≡ success (front ++ (pair_of p n ++ pair_of p1 n1))
  unfolding serialize_key_pairs
  serialize_key_pairs_lem size front p p1 n n1 h h1 room =
      let pt = serialize_ec_point g p in
      let pt1 = serialize_ec_point g p1 in
      let dh = serialize_mpi (mpi_set (printed c n)) in
      let dh1 = serialize_mpi (mpi_set (printed c n1)) in
      let len : length (front ++ pt) ≡ length front + 57 =
        omega (arith, length-append front pt, length-serialize_ec_point g gl p) in
      let len1 : length ((front ++ pt) ++ (dh ++ pt1)) ≤ length front + 502 = omega (
        arith,
        len,
        length-append (front ++ pt) (dh ++ pt1),
        length-append dh pt1,
        length-serialize_ec_point g gl p1,
        length-serialize_mpi (printed c n),
        length-number n h,
      ) in
      rw (serialize_dh_mpi_otr_lem c (size - length (front ++ pt)) n h (omega (arith, len, room))) (
        rw
          (serialize_dh_mpi_otr_lem c (size - length ((front ++ pt) ++ (dh ++ pt1))) n1 h1
            (omega (arith, len1, room)))
          (ap success (straight front pt dh pt1 dh1)))
    where
      straight : (a b d e f : Bytes) → ((a ++ b) ++ (d ++ e)) ++ f ≡ a ++ ((b ++ d) ++ (e ++ f))
      straight a b d e f = simp append_assoc

  -- What stands behind the header and the profile.
  module _ (zero_point : Point) (type sender receiver : ℕ) (profile : ClientProfile g)
      (bytes behind : Bytes) (small : type < 2 ^ 8) (s : sender < 2 ^ 32) (r : receiver < 2 ^ 32)
      (read : client_profile_deserialize g zero_point (bytes ++ behind)
        ≡ some (profile, length bytes)) where
    -- The header and the profile are read, and then `behind` is left.
    pub read_front :
        (deserialize_dake_header type
            (serialize_dake_header type sender receiver ++ (bytes ++ behind))
          ≡ some (sender, receiver, bytes ++ behind))
        × (drop (length bytes) (bytes ++ behind) ≡ behind)
    read_front = (
      read_header type sender receiver _ small s r,
      drop_prefix {A = ℕ} (length bytes) bytes behind refl,
    )

  pub straight_4 : (a b d e r : Bytes) → ((a ++ b) ++ (d ++ e)) ++ r ≡ a ++ (b ++ (d ++ (e ++ r)))
  straight_4 a b d e r = simp append_assoc

  pub room_of :
      (type sender receiver : ℕ) (profile : Bytes)
      → length (serialize_dake_header type sender receiver ++ profile) ≡ 11 + length profile
  room_of type sender receiver profile = omega (
    arith,
    length-append (serialize_dake_header type sender receiver) profile,
    length-header type sender receiver,
  )
