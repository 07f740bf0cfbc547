-- ===== src/Dake/Exchange.antt =====
-- src/dake.c: the messages that carry a client profile are read back as they were written.
use libotrv.Prelude.{
  ℕ, ◌+◌, ◌-◌, ◌^◌, ◌≤◌, ◌<◌, ◌≡◌, refl, sym, some, ◌++◌, append_assoc, arith, length,
  length-append, drop_prefix, Bytes,
}
use libotrv.Crypto.{Goldilocks, GoldilocksLaws, Gcrypt, GcryptLaws, dh_mpi_max_bytes}
use libotrv.Wire.Serialize.{serialize_uint32, serialize_bytes_array}
use libotrv.Wire.RoundTrip.{
  deserialize-serialize_uint32, drop-serialize_uint32, deserialize_bytes_array_lem,
}
use libotrv.Wire.Keys.{
  serialize_ec_point, mpi_set, serialize_mpi, length-serialize_ec_point, IsNumber, printed,
  serialize_dh_mpi_otr_lem,
}
use libotrv.Ring.Codec.{serialize_ring_sig, deserialize-serialize_ring_sig}
use libotrv.Run.{success}
use libotrv.ClientProfile.Read.{client_profile_deserialize}
use libotrv.ClientProfile.RoundTrip.{IsProfile, client_profile_deserialize-serialize}
use libotrv.Dake.Messages.{
  hash_bytes, auth_r_max_bytes, non_int_auth_max_bytes, serialize_dake_header, IdentityMessage,
  AuthR, NonInteractiveAuth, identity_message_serialize, auth_r_serialize,
  non_interactive_auth_serialize,
}
use libotrv.Dake.Read.{
  identity_message_deserialize, auth_r_deserialize, non_interactive_auth_deserialize,
}
use libotrv.Dake.Parts.{
  pair_of, read_key_pair, serialize_key_pairs_lem, straight_4, room_of, read_front,
}

module _ (g : Goldilocks) (c : Gcrypt) (gl : GoldilocksLaws g) (cl : GcryptLaws c) where
  open g use {Point}
  open c use {Mpi}

  -- An identity message whose parts can be written.
  pub record IsIdentity (m : IdentityMessage g c) : Type 0 where
    pub sender : m.sender_instance_tag < 2 ^ 32
    pub receiver : m.receiver_instance_tag < 2 ^ 32
    pub profile : IsProfile g m.profile
    pub number : IsNumber c m.b
    pub number_first : IsNumber c m.b_first

  read_identity :
      (zero_point : Point) (m : IdentityMessage g c) (bytes rest : Bytes)
      → IsIdentity m
      → client_profile_deserialize g zero_point
          (bytes ++ (pair_of g c gl cl m.y m.b ++ (pair_of g c gl cl m.y_first m.b_first ++ rest)))
        ≡ some (m.profile, length bytes)
      → identity_message_deserialize g c zero_point (
          serialize_dake_header 53 m.sender_instance_tag m.receiver_instance_tag
          ++ (bytes
              ++ (pair_of g c gl cl m.y m.b ++ (pair_of g c gl cl m.y_first m.b_first ++ rest))))
        ≡ some m
  unfolding identity_message_deserialize
  read_identity zero_point m bytes rest h read =
      let (header, behind) =
        read_front g c gl cl zero_point 53 m.sender_instance_tag m.receiver_instance_tag m.profile
          bytes _ (omega arith) h.sender h.receiver read in
      rw (header, read)
        (rw (behind, read_key_pair g c gl cl m.y m.b _ h.number)
          (rw (read_key_pair g c gl cl m.y_first m.b_first rest h.number_first) refl))

  -- An identity message whose parts can be written is written and read back, whatever follows.
  pub identity_message_deserialize-serialize :
      (zero_point : Point) (m : IdentityMessage g c) (rest : Bytes)
      → IsIdentity m
      → (buffer : Bytes) × (identity_message_serialize g c m ≡ success buffer)
        × (identity_message_deserialize g c zero_point (buffer ++ rest) ≡ some m)
  unfolding identity_message_serialize
  identity_message_deserialize-serialize zero_point m rest h =
      let header = serialize_dake_header 53 m.sender_instance_tag m.receiver_instance_tag in
      let keys = pair_of g c gl cl m.y m.b ++ (pair_of g c gl cl m.y_first m.b_first ++ rest) in
      let (profile, written, read) =
        client_profile_deserialize-serialize g gl zero_point m.profile keys h.profile in
      (
        (header ++ profile) ++ (pair_of g c gl cl m.y m.b ++ pair_of g c gl cl m.y_first m.b_first),
        rw written (
            serialize_key_pairs_lem g c gl cl _ (header ++ profile) m.y m.y_first m.b m.b_first
              h.number h.number_first
              (omega (
                arith,
                room_of g c gl cl 53 m.sender_instance_tag m.receiver_instance_tag profile,
              ))),
        rw
            (straight_4 g c gl cl header profile (pair_of g c gl cl m.y m.b)
              (pair_of g c gl cl m.y_first m.b_first) rest)
            (read_identity zero_point m profile rest h read),
      )

  -- An Auth-R message whose parts can be written.
  pub record IsAuthR (m : AuthR g c) : Type 0 where
    pub sender : m.sender_instance_tag < 2 ^ 32
    pub receiver : m.receiver_instance_tag < 2 ^ 32
    pub profile : IsProfile g m.profile
    pub number : IsNumber c m.a
    pub number_first : IsNumber c m.a_first

  read_auth_r :
      (zero_point : Point) (m : AuthR g c) (bytes rest : Bytes)
      → IsAuthR m
      → client_profile_deserialize g zero_point (
          bytes
          ++ (pair_of g c gl cl m.x m.a
              ++ (pair_of g c gl cl m.x_first m.a_first ++ (serialize_ring_sig g m.sigma ++ rest))))
        ≡ some (m.profile, length bytes)
      → auth_r_deserialize g c zero_point (
          serialize_dake_header 54 m.sender_instance_tag m.receiver_instance_tag
          ++ (bytes
              ++ (pair_of g c gl cl m.x m.a
                  ++ (pair_of g c gl cl m.x_first m.a_first
                      ++ (serialize_ring_sig g m.sigma ++ rest)))))
        ≡ some m
  unfolding auth_r_deserialize
  read_auth_r zero_point m bytes rest h read =
      let (header, behind) =
        read_front g c gl cl zero_point 54 m.sender_instance_tag m.receiver_instance_tag m.profile
          bytes _ (omega arith) h.sender h.receiver read in
      rw (header, read)
        (rw (behind, read_key_pair g c gl cl m.x m.a _ h.number)
          (rw
            (
              read_key_pair g c gl cl m.x_first m.a_first _ h.number_first,
              deserialize-serialize_ring_sig g gl m.sigma rest,
            )
            refl))

  straight_5 :
      (a b d e f r : Bytes)
      → (((a ++ b) ++ (d ++ e)) ++ f) ++ r ≡ a ++ (b ++ (d ++ (e ++ (f ++ r))))
  straight_5 a b d e f r = simp append_assoc

  -- An Auth-R message whose parts can be written is written and read back, whatever follows.
  pub auth_r_deserialize-serialize :
      (zero_point : Point) (m : AuthR g c) (rest : Bytes)
      → IsAuthR m
      → (buffer : Bytes) × (auth_r_serialize g c m ≡ success buffer)
        × (auth_r_deserialize g c zero_point (buffer ++ rest) ≡ some m)
  unfolding auth_r_serialize
  auth_r_deserialize-serialize zero_point m rest h =
      let header = serialize_dake_header 54 m.sender_instance_tag m.receiver_instance_tag in
      let sigma = serialize_ring_sig g m.sigma in
      let keys =
        pair_of g c gl cl m.x m.a ++ (pair_of g c gl cl m.x_first m.a_first ++ (sigma ++ rest)) in
      let (profile, written, read) =
        client_profile_deserialize-serialize g gl zero_point m.profile keys h.profile in
      (
        ((header ++ profile)
              ++ (pair_of g c gl cl m.x m.a ++ pair_of g c gl cl m.x_first m.a_first))
            ++ sigma,
        rw written (
            rw
              (serialize_key_pairs_lem g c gl cl (auth_r_max_bytes + length profile)
                (header ++ profile) m.x m.x_first m.a m.a_first h.number h.number_first
                (omega (
                  arith,
                  room_of g c gl cl 54 m.sender_instance_tag m.receiver_instance_tag profile,
                )))
              refl),
        rw
            (straight_5 header profile (pair_of g c gl cl m.x m.a)
              (pair_of g c gl cl m.x_first m.a_first) sigma rest)
            (read_auth_r zero_point m profile rest h read),
      )

  -- A non-interactive message whose parts can be written.
  pub record IsNonInteractive (m : NonInteractiveAuth g c) : Type 0 where
    pub sender : m.sender_instance_tag < 2 ^ 32
    pub receiver : m.receiver_instance_tag < 2 ^ 32
    pub profile : IsProfile g m.profile
    pub number : IsNumber c m.a
    pub id : m.prekey_message_id < 2 ^ 32
    pub mac : length m.auth_mac ≡ hash_bytes

  read_non_interactive :
      (zero_point : Point) (m : NonInteractiveAuth g c) (bytes rest : Bytes)
      → IsNonInteractive m
      → client_profile_deserialize g zero_point (
          bytes
          ++ (pair_of g c gl cl m.x m.a
              ++ (serialize_ring_sig g m.sigma
                  ++ (serialize_uint32 m.prekey_message_id ++ (m.auth_mac ++ rest)))))
        ≡ some (m.profile, length bytes)
      → non_interactive_auth_deserialize g c zero_point (
          serialize_dake_header 13 m.sender_instance_tag m.receiver_instance_tag
          ++ (bytes
              ++ (pair_of g c gl cl m.x m.a
                  ++ (serialize_ring_sig g m.sigma
                      ++ (serialize_uint32 m.prekey_message_id ++ (m.auth_mac ++ rest))))))
        ≡ some m
  unfolding non_interactive_auth_deserialize
  read_non_interactive zero_point m bytes rest h read =
      let (header, behind) =
        read_front g c gl cl zero_point 13 m.sender_instance_tag m.receiver_instance_tag m.profile
          bytes _ (omega arith) h.sender h.receiver read in
      rw (header, read)
        (rw (behind, read_key_pair g c gl cl m.x m.a _ h.number)
          (rw (deserialize-serialize_ring_sig g gl m.sigma _) (
            rw
              (
                drop_prefix {A = ℕ} (length (serialize_ring_sig g m.sigma))
                    (serialize_ring_sig g m.sigma) _ refl,
                deserialize-serialize_uint32 m.prekey_message_id _ h.id,
                drop-serialize_uint32,
              )
              (rw (deserialize_bytes_array_lem 64 m.auth_mac rest (sym h.mac)) refl))))

  straight_7 :
      (a b d e f k l r : Bytes)
      → (((a ++ b) ++ d) ++ (e ++ (f ++ (k ++ l)))) ++ r
        ≡ a ++ (b ++ ((d ++ e) ++ (f ++ (k ++ (l ++ r)))))
  straight_7 a b d e f k l r = simp append_assoc

  -- A non-interactive message whose parts can be written is written and read back, whatever follows.
  pub non_interactive_auth_deserialize-serialize :
      (zero_point : Point) (m : NonInteractiveAuth g c) (rest : Bytes)
      → IsNonInteractive m
      → (buffer : Bytes) × (non_interactive_auth_serialize g c m ≡ success buffer)
        × (non_interactive_auth_deserialize g c zero_point (buffer ++ rest) ≡ some m)
  unfolding non_interactive_auth_serialize serialize_bytes_array
  non_interactive_auth_deserialize-serialize zero_point m rest h =
      let header = serialize_dake_header 13 m.sender_instance_tag m.receiver_instance_tag in
      let sigma = serialize_ring_sig g m.sigma in
      let pt = serialize_ec_point g m.x in
      let dh = serialize_mpi (mpi_set (printed c m.a)) in
      let id = serialize_uint32 m.prekey_message_id in
      let keys = pair_of g c gl cl m.x m.a ++ (sigma ++ (id ++ (m.auth_mac ++ rest))) in
      let (profile, written, read) =
        client_profile_deserialize-serialize g gl zero_point m.profile keys h.profile in
      let front = (header ++ profile) ++ pt in
      let room : dh_mpi_max_bytes ≤ non_int_auth_max_bytes + length profile - length front = omega (
        arith,
        length-append (header ++ profile) pt,
        length-serialize_ec_point g gl m.x,
        room_of g c gl cl 13 m.sender_instance_tag m.receiver_instance_tag profile,
      ) in
      (
        front ++ (dh ++ (sigma ++ (id ++ m.auth_mac))),
        rw written (
            rw
              (serialize_dh_mpi_otr_lem c (non_int_auth_max_bytes + length profile - length front)
                m.a h.number room)
              refl),
        rw (straight_7 header profile pt dh sigma id m.auth_mac rest)
            (read_non_interactive zero_point m profile rest h read),
      )
