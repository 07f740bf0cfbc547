-- ===== src/Dake/RoundTrip.antt =====
-- src/dake.c: the third message is read back as it was written.
use libotrv.Prelude.{◌<◌, ◌^◌, ◌≡◌, refl, some, ◌++◌, append_assoc, arith, Bytes}
use libotrv.Crypto.{Goldilocks, GoldilocksLaws}
use libotrv.Wire.Serialize.{serialize_uint32, serialize_uint16, serialize_uint8}
use libotrv.Wire.RoundTrip.{
  deserialize-serialize_uint32, deserialize-serialize_uint16, deserialize-serialize_uint8,
  drop-serialize_uint32, drop-serialize_uint16, drop-serialize_uint8,
}
use libotrv.Ring.Codec.{
  serialize_ring_sig, deserialize-serialize_ring_sig, length-serialize_ring_sig,
}
use libotrv.Dake.{AuthI, dake_auth_i_serialize, dake_auth_i_deserialize}

module _ (g : Goldilocks) (gl : GoldilocksLaws g) where
  abbrev auth_i_fields : AuthI g → Bytes → Bytes
  auth_i_fields auth_i rest =
      serialize_uint16 4
      ++ (serialize_uint8 55
          ++ (serialize_uint32 auth_i.sender_instance_tag
              ++ (serialize_uint32 auth_i.receiver_instance_tag
                  ++ (serialize_ring_sig g auth_i.sigma ++ rest))))

  read_auth_i :
      (auth_i : AuthI g) (rest : Bytes)
      → auth_i.sender_instance_tag < 2 ^ 32
      → auth_i.receiver_instance_tag < 2 ^ 32
      → dake_auth_i_deserialize g (auth_i_fields auth_i rest) ≡ some auth_i
  unfolding dake_auth_i_deserialize
  read_auth_i auth_i rest sender receiver =
      rw (deserialize-serialize_uint16 4 _ (omega arith), drop-serialize_uint16)
        (rw (deserialize-serialize_uint8 55 _ (omega arith), drop-serialize_uint8)
          (rw
            (
              deserialize-serialize_uint32 auth_i.sender_instance_tag _ sender,
              drop-serialize_uint32,
            )
            (rw
              (
                deserialize-serialize_uint32 auth_i.receiver_instance_tag _ receiver,
                drop-serialize_uint32,
              )
              (rw (deserialize-serialize_ring_sig g gl auth_i.sigma rest) refl))))

  -- The third message of the key exchange always serializes, and it is read back as it was sent when
  -- its instance tags fit in 32 bits, whatever follows it.
  pub dake_auth_i_deserialize-serialize :
      (auth_i : AuthI g) (rest : Bytes)
      → auth_i.sender_instance_tag < 2 ^ 32
      → auth_i.receiver_instance_tag < 2 ^ 32
      → (buffer : Bytes) × (dake_auth_i_serialize g auth_i ≡ some buffer)
        × (dake_auth_i_deserialize g (buffer ++ rest) ≡ some auth_i)
  unfolding dake_auth_i_serialize
  dake_auth_i_deserialize-serialize auth_i rest sender receiver = (
    serialize_uint16 4
        ++ (serialize_uint8 55
            ++ (serialize_uint32 auth_i.sender_instance_tag
                ++ (serialize_uint32 auth_i.receiver_instance_tag
                    ++ serialize_ring_sig g auth_i.sigma))),
    rw (length-serialize_ring_sig g gl auth_i.sigma) refl,
    rw append_assoc (
        rw append_assoc
          (rw append_assoc (rw append_assoc (read_auth_i auth_i rest sender receiver)))),
  )
