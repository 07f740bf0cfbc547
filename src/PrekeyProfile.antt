-- ===== src/PrekeyProfile.antt =====
-- src/prekey_profile.c: the prekey profile, how it is written, read, built and checked.
use libotrv.Prelude.{
  ℕ, ◌+◌, ◌-◌, ◌*◌, ◌%◌, ◌^◌, sym, Bool, true, false, not, ◌&&◌, Option, none, some, ◌++◌, ltb, leb,
  ◌==◌, if◌then◌else◌, length, drop, replicate, Bytes, ◌>>=◌, ◌>>◌, require,
}
use libotrv.Crypto.{Goldilocks, Eddsa, point_bytes}
use libotrv.Wire.Serialize.{
  serialize_uint64, serialize_uint32, serialize_uint8, serialize_bytes_array,
}
use libotrv.Wire.Deserialize.{
  deserialize_uint64, deserialize_uint32, deserialize_uint8, deserialize_bytes_array,
}
use libotrv.Wire.PublicKeys.{pubkey_bytes, serialize_shared_prekey, deserialize_shared_prekey}
use libotrv.Wire.Keys.{serialize_ec_point}
use libotrv.Keys.{
  signature_bytes, instance_tag_valid, Keypair, SharedPrekeyPair, shared_prekey_pair_generate,
  ec_sign_simple, ec_verify,
}
use libotrv.KeyExchange.{ed448_private_bytes, is_empty_array}
pub mod RoundTrip
pub mod Signed
pub mod Tests

-- PREKEY_PROFILE_BODY_BYTES, ED448_SHARED_PREKEY_BYTES and PREKEY_PROFILE_EXPIRATION_SECONDS.
abbrev pub body_bytes : ℕ
body_bytes = 4 + 8 + pubkey_bytes

abbrev pub shared_prekey_bytes : ℕ
shared_prekey_bytes = 2 + point_bytes

abbrev pub expiration_seconds : ℕ
expiration_seconds = 1 * 30 * 24 * 60 * 60

-- `difftime(expires, now) <= 0` of a 64-bit number, which becomes a signed time.
unfoldable pub prekey_profile_expired : ℕ → ℕ → Bool
prekey_profile_expired now expires = if ltb expires (2 ^ 63) then leb expires now else true

unfoldable pub prekey_profile_invalid : ℕ → ℕ → ℕ → Bool
prekey_profile_invalid now expires extra_valid_time =
    prekey_profile_expired now ((expires + extra_valid_time) % 2 ^ 64)

module _ (g : Goldilocks) where
  open g use {Point, point_valid}

  -- `otrng_prekey_profile_s`; `keys` may be null.
  pub record PrekeyProfile : Type 0 where
    pub instance_tag : ℕ
    pub expires : ℕ
    pub shared_prekey : Point
    pub keys : Option (SharedPrekeyPair g)
    pub signature : Bytes
    pub should_publish : ℕ
    pub is_publishing : Bool
    pub has_validated : Bool
    pub validation_result : Bool

  -- `otrng_xmalloc_z`; `p` is the point structure with zero bytes.
  unfoldable pub prekey_profile_zero : Point → PrekeyProfile
  prekey_profile_zero p = record {
    instance_tag = 0;
    expires = 0;
    shared_prekey = p;
    keys = none;
    signature = replicate signature_bytes 0;
    should_publish = 0;
    is_publishing = false;
    has_validated = false;
    validation_result = false;
  }

  -- `none` is the result 0.
  unfoldable pub prekey_profile_body_serialize : ℕ → PrekeyProfile → Option Bytes
  prekey_profile_body_serialize dst_len p = do
    require (not (ltb dst_len 4))
    let tag = serialize_uint32 p.instance_tag
    require (not (ltb (dst_len - length tag) 8))
    let front = tag ++ serialize_uint64 p.expires
    require (not (ltb (dst_len - length front) shared_prekey_bytes))
    some (front ++ serialize_shared_prekey g p.shared_prekey)

  unfoldable pub prekey_profile_body_serialize_into : PrekeyProfile → Option Bytes
  prekey_profile_body_serialize_into p = do
    body ← prekey_profile_body_serialize body_bytes p
    require (not (length body == 0))
    some body

  unfoldable pub prekey_profile_serialize : PrekeyProfile → Option Bytes
  prekey_profile_serialize p = do
    body ← prekey_profile_body_serialize body_bytes p
    require (not (ltb (body_bytes + signature_bytes - length body) signature_bytes))
    some (body ++ serialize_bytes_array (some p.signature))

  -- The second argument is `profile->keys`, which must not be null.
  unfoldable pub prekey_profile_serialize_with_metadata :
      PrekeyProfile → SharedPrekeyPair g → Option Bytes
  prekey_profile_serialize_with_metadata p keys = do
    body ← prekey_profile_body_serialize body_bytes p
    let size = body_bytes + signature_bytes + 1 + ed448_private_bytes
    require (not (ltb (size - length body) signature_bytes))
    some (
        body
        ++ (serialize_bytes_array (some p.signature)
            ++ (serialize_uint8 p.should_publish ++ serialize_bytes_array (some keys.sym))))

  -- The profile that is left in `target`, and how many bytes it took.
  unfoldable pub prekey_profile_deserialize : PrekeyProfile → Bytes → Option (PrekeyProfile × ℕ)
  prekey_profile_deserialize target buffer = do
    (tag, r1) ← deserialize_uint32 buffer
    let b1 = drop r1 buffer
    (expires, r2) ← deserialize_uint64 b1
    let b2 = drop r2 b1
    (p, r3) ← deserialize_shared_prekey g b2
    sig ← deserialize_bytes_array signature_bytes (drop r3 b2)
    some (
      record target { instance_tag = tag; expires = expires; shared_prekey = p; signature = sig },
      r1 + r2 + r3 + signature_bytes,
    )

  unfoldable pub prekey_profile_deserialize_with_metadata :
      PrekeyProfile → Bytes → Option (PrekeyProfile × ℕ)
  prekey_profile_deserialize_with_metadata target buffer = do
    (target, r1) ← prekey_profile_deserialize target buffer
    let b1 = drop r1 buffer
    (should_publish, r2) ← deserialize_uint8 b1
    sym ← deserialize_bytes_array ed448_private_bytes (drop r2 b1)
    keys ← shared_prekey_pair_generate g sym
    some (
      record target {
        should_publish = should_publish;
        keys = some keys;
        shared_prekey = keys.public;
      },
      r1 + r2 + ed448_private_bytes,
    )

  -- A null `src` leaves the profile of zero bytes.
  unfoldable pub prekey_profile_copy : Point → Option PrekeyProfile → PrekeyProfile
  prekey_profile_copy p none = prekey_profile_zero p
  prekey_profile_copy p (some src) = record src { has_validated = false; validation_result = false }

  unfoldable pub prekey_profile_start_publishing : PrekeyProfile → PrekeyProfile
  prekey_profile_start_publishing p = record p { is_publishing = true }

  unfoldable pub prekey_profile_should_publish : PrekeyProfile → Bool
  prekey_profile_should_publish p = not (p.should_publish == 0) && not p.is_publishing

module _ (g : Goldilocks) (e : Eddsa) where
  open g use {Point, point_valid}

  unfoldable pub prekey_profile_sign : PrekeyProfile g → Keypair g → Option (PrekeyProfile g)
  prekey_profile_sign p longterm_pair = do
    body ← prekey_profile_body_serialize_into g p
    some (record p { signature = ec_sign_simple g e longterm_pair.sym body })

  -- `sym` are the random bytes of the shared prekey, `zero_point` is the point structure with zero
  -- bytes; `longterm_pair` is not null.
  unfoldable pub prekey_profile_build : Point → ℕ → Bytes → ℕ → Keypair g → Option (PrekeyProfile g)
  prekey_profile_build zero_point now sym instance_tag longterm_pair = do
    require (instance_tag_valid instance_tag)
    keys ← shared_prekey_pair_generate g sym
    let p = record (prekey_profile_zero g zero_point) {
      keys = some keys;
      shared_prekey = keys.public;
      instance_tag = instance_tag;
      expires = (now + expiration_seconds) % 2 ^ 64;
    }
    prekey_profile_sign p longterm_pair

  -- Behind the serialization: `none` is a failure.
  unfoldable pub verify_body : Option Bytes → Bytes → Point → Bool
  verify_body none signature public = false
  verify_body (some body) signature public =
      let pubkey = serialize_ec_point g public in
      if not (length pubkey == point_bytes) then false else ec_verify g e signature pubkey body

  unfoldable pub prekey_profile_verify_signature : PrekeyProfile g → Point → Bool
  prekey_profile_verify_signature p public =
      if is_empty_array p.signature
      then false
      else verify_body (prekey_profile_body_serialize_into g p) p.signature public

  unfoldable pub prekey_profile_valid_without_expiry : PrekeyProfile g → ℕ → Point → Bool
  prekey_profile_valid_without_expiry p sender_instance_tag public =
      if not (prekey_profile_verify_signature p public)
      then false
      else if not (sender_instance_tag == p.instance_tag)
      then false
      else if not (point_valid p.shared_prekey)
      then false
      else true

  unfoldable pub prekey_profile_valid : ℕ → PrekeyProfile g → ℕ → Point → Bool
  prekey_profile_valid now p sender_instance_tag public =
      if not (prekey_profile_valid_without_expiry p sender_instance_tag public)
      then false
      else not (prekey_profile_expired now p.expires)

  unfoldable pub prekey_profile_fast_valid :
      ℕ → PrekeyProfile g → ℕ → Point → Bool × PrekeyProfile g
  prekey_profile_fast_valid now p sender_instance_tag public =
      let valid = prekey_profile_valid now p sender_instance_tag public in
      if p.has_validated
      then (p.validation_result && not (prekey_profile_expired now p.expires), p)
      else (valid, record p { validation_result = valid; has_validated = true })

  unfoldable pub prekey_profile_is_close_to_expiry : ℕ → PrekeyProfile g → ℕ → Bool
  prekey_profile_is_close_to_expiry now p buffer_time =
      prekey_profile_expired now ((p.expires + (2 ^ 64 - buffer_time)) % 2 ^ 64)

  unfoldable pub prekey_profile_is_expired_but_valid : ℕ → PrekeyProfile g → ℕ → ℕ → Point → Bool
  prekey_profile_is_expired_but_valid now p sender_instance_tag extra_valid_time public =
      prekey_profile_valid_without_expiry p sender_instance_tag public
      && prekey_profile_expired now p.expires
      && not (prekey_profile_invalid now p.expires extra_valid_time)
