-- ===== src/PrekeyProfile/RoundTrip.antt =====
-- src/prekey_profile.c: a prekey profile with its keys is read back as it was stored.
use libotrv.Prelude.{
  ℕ, ◌^◌, ◌<◌, ◌≡◌, refl, sym, false, some, ◌++◌, append_assoc, arith, length, drop, length-append,
  drop_prefix, Bytes,
}
use libotrv.Crypto.{Goldilocks, GoldilocksLaws}
use libotrv.Wire.Serialize.{
  serialize_uint64, serialize_uint32, serialize_uint8, serialize_bytes_array,
}
use libotrv.Wire.RoundTrip.{
  deserialize-serialize_uint64, deserialize-serialize_uint32, deserialize-serialize_uint8,
  length-serialize_uint8, length-serialize_uint32, length-serialize_uint64, drop-serialize_uint32,
  drop-serialize_uint8, deserialize_bytes_array_lem,
}
use libotrv.Wire.PublicKeys.{
  serialize_shared_prekey, length-serialize_shared_prekey, deserialize-serialize_shared_prekey,
}
use libotrv.Keys.{signature_bytes, SharedPrekeyPair, shared_prekey_pair_generate}
use libotrv.KeyExchange.{ed448_private_bytes}
use libotrv.PrekeyProfile.{
  body_bytes, PrekeyProfile, prekey_profile_zero, prekey_profile_body_serialize,
  prekey_profile_serialize_with_metadata, prekey_profile_deserialize,
  prekey_profile_deserialize_with_metadata,
}

module _ (g : Goldilocks) (gl : GoldilocksLaws g) where
  open g use {Point}

  -- The bytes of a body.
  abbrev pub body_of : PrekeyProfile g → Bytes
  body_of p =
      (serialize_uint32 p.instance_tag ++ serialize_uint64 p.expires)
      ++ serialize_shared_prekey g p.shared_prekey

  pub length-body_of : (p : PrekeyProfile g) → length (body_of p) ≡ body_bytes
  length-body_of p = omega (
    arith,
    length-append (serialize_uint32 p.instance_tag ++ serialize_uint64 p.expires)
        (serialize_shared_prekey g p.shared_prekey),
    length-append (serialize_uint32 p.instance_tag) (serialize_uint64 p.expires),
    length-serialize_uint32 p.instance_tag,
    length-serialize_uint64 p.expires,
    length-serialize_shared_prekey g gl p.shared_prekey,
  )

  pub prekey_profile_body_serialize_lem :
      (p : PrekeyProfile g) → prekey_profile_body_serialize g body_bytes p ≡ some (body_of p)
  unfolding prekey_profile_body_serialize
  prekey_profile_body_serialize_lem p =
      rw
        (
          length-append (serialize_uint32 p.instance_tag) (serialize_uint64 p.expires),
          length-serialize_uint32 p.instance_tag,
          length-serialize_uint64 p.expires,
        )
        refl

  prekey_profile_deserialize_lem :
      (target p : PrekeyProfile g) (rest : Bytes)
      → p.instance_tag < 2 ^ 32
      → p.expires < 2 ^ 64
      → length p.signature ≡ signature_bytes
      → prekey_profile_deserialize g target (body_of p ++ (p.signature ++ rest))
        ≡ some (
          record target {
            instance_tag = p.instance_tag;
            expires = p.expires;
            shared_prekey = p.shared_prekey;
            signature = p.signature;
          },
          185,
        )
  unfolding prekey_profile_deserialize
  prekey_profile_deserialize_lem target p rest small expiry signed =
      let straight : body_of p ++ (p.signature ++ rest)
          ≡ serialize_uint32 p.instance_tag
            ++ (serialize_uint64 p.expires
                ++ (serialize_shared_prekey g p.shared_prekey ++ (p.signature ++ rest))) =
        simp append_assoc in
      rw (straight, deserialize-serialize_uint32 p.instance_tag _ small)
        (rw (drop-serialize_uint32, deserialize-serialize_uint64 p.expires _ expiry)
          (rw
            (
              drop_prefix {A = ℕ} 8 (serialize_uint64 p.expires) _
                  (sym (length-serialize_uint64 p.expires)),
              deserialize-serialize_shared_prekey g gl p.shared_prekey _,
            )
            (rw
              (
                drop_prefix {A = ℕ} 59 (serialize_shared_prekey g p.shared_prekey) _
                    (sym (length-serialize_shared_prekey g gl p.shared_prekey)),
                deserialize_bytes_array_lem 114 p.signature rest (sym signed),
              )
              refl)))

  -- A prekey profile that can be stored with its keys, which were generated. What is not stored is as
  -- `otrng_xmalloc_z` leaves it.
  pub record IsStored (p : PrekeyProfile g) (keys : SharedPrekeyPair g) : Type 0 where
    pub tag : p.instance_tag < 2 ^ 32
    pub expiry : p.expires < 2 ^ 64
    pub publish : p.should_publish < 2 ^ 8
    pub signed : length p.signature ≡ signature_bytes
    pub secret : length keys.sym ≡ ed448_private_bytes
    pub generated : shared_prekey_pair_generate g keys.sym ≡ some keys
    pub own : p.keys ≡ some keys
    pub shared : p.shared_prekey ≡ keys.public
    pub is_publishing : p.is_publishing ≡ false
    pub has_validated : p.has_validated ≡ false
    pub validation_result : p.validation_result ≡ false

  -- A prekey profile that can be stored with its keys is read back whole into a fresh profile,
  -- whatever follows.
  pub prekey_profile_deserialize-serialize_with_metadata :
      (zero_point : Point) (p : PrekeyProfile g) (keys : SharedPrekeyPair g) (rest : Bytes)
      → IsStored p keys
      → (buffer : Bytes) × (prekey_profile_serialize_with_metadata g p keys ≡ some buffer)
        × (prekey_profile_deserialize_with_metadata g
              (prekey_profile_zero g zero_point)
              (buffer ++ rest)
            ≡ some (p, length buffer))
  unfolding prekey_profile_serialize_with_metadata prekey_profile_deserialize_with_metadata
      prekey_profile_zero serialize_bytes_array
  prekey_profile_deserialize-serialize_with_metadata zero_point p keys rest h =
      let tail = serialize_uint8 p.should_publish ++ (keys.sym ++ rest) in
      let buffer : Bytes =
        body_of p ++ (p.signature ++ (serialize_uint8 p.should_publish ++ keys.sym)) in
      let straight : buffer ++ rest ≡ body_of p ++ (p.signature ++ tail) = simp append_assoc in
      let dropped : drop 185 (body_of p ++ (p.signature ++ tail)) ≡ tail =
        rw (sym (append_assoc (body_of p) p.signature tail)) (
          drop_prefix {A = ℕ} 185 (body_of p ++ p.signature) tail
            (omega (arith, length-append (body_of p) p.signature, length-body_of p, h.signed))) in
      let len : 243 ≡ length buffer = omega (
        arith,
        h.signed,
        h.secret,
        length-body_of p,
        length-append (body_of p) (p.signature ++ (serialize_uint8 p.should_publish ++ keys.sym)),
        length-append p.signature (serialize_uint8 p.should_publish ++ keys.sym),
        length-append (serialize_uint8 p.should_publish) keys.sym,
        length-serialize_uint8 p.should_publish,
      ) in
      (
        buffer,
        rw (prekey_profile_body_serialize_lem p) (rw (length-body_of p) refl),
        rw
            (
              straight,
              prekey_profile_deserialize_lem (prekey_profile_zero g zero_point) p tail h.tag
                  h.expiry h.signed,
            )
            (rw (dropped, deserialize-serialize_uint8 p.should_publish _ h.publish)
              (rw
                (
                  drop-serialize_uint8 p.should_publish _,
                  deserialize_bytes_array_lem 57 keys.sym rest (sym h.secret),
                )
                (rw h.generated (λ i. some (
                  record p {
                    shared_prekey = (sym h.shared) i;
                    keys = (sym h.own) i;
                    is_publishing = (sym h.is_publishing) i;
                    has_validated = (sym h.has_validated) i;
                    validation_result = (sym h.validation_result) i;
                  },
                  len i,
                ))))),
      )
