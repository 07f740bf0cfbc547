-- ===== src/PrekeyProfile/Signed.antt =====
-- src/prekey_profile.c: a prekey profile that its owner built is valid until it expires.
use libotrv.Prelude.{
  ℕ, ◌+◌, ◌%◌, ◌^◌, ◌<◌, ◌≡◌, refl, sym, true, false, some, arith, ==-self, Bytes,
}
use native.Mathlib.Nat.{mod-eq_of_lt}
use libotrv.Crypto.{Goldilocks, GoldilocksLaws, Eddsa, EddsaLaws}
use libotrv.Wire.Keys.{serialize_ec_point, length-serialize_ec_point}
use libotrv.Keys.{
  instance_tag_valid, Keypair, SharedPrekeyPair, shared_prekey_pair_generate, ec_sign_simple,
  ec_verify-ec_sign_simple,
}
use libotrv.KeyExchange.{is_empty_array}
use libotrv.PrekeyProfile.{
  expiration_seconds, prekey_profile_expired, PrekeyProfile, prekey_profile_zero,
  prekey_profile_body_serialize_into, prekey_profile_sign, prekey_profile_build, verify_body,
  prekey_profile_verify_signature, prekey_profile_valid_without_expiry, prekey_profile_valid,
}
use libotrv.PrekeyProfile.RoundTrip.{body_of, length-body_of, prekey_profile_body_serialize_lem}

not_expired :
    (later expires : ℕ)
    → later < expires
    → expires < 2 ^ 63
    → prekey_profile_expired later (expires % 2 ^ 64) ≡ false
unfolding prekey_profile_expired
not_expired later expires before small =
    let same : expires % 2 ^ 64 ≡ expires = mod-eq_of_lt {n = expires} {m = 2 ^ 64} (omega arith) in
    rw same (ground (arith, before, small))

module _ (g : Goldilocks) (e : Eddsa) (gl : GoldilocksLaws g) (el : EddsaLaws g e)
    (not_empty : (sym msg : Bytes) → is_empty_array (ec_sign_simple g e sym msg) ≡ false) where
  open g use {Point, point_valid}

  body_into_lem :
      (p : PrekeyProfile g) → prekey_profile_body_serialize_into g p ≡ some (body_of g gl p)
  unfolding prekey_profile_body_serialize_into
  body_into_lem p = rw (prekey_profile_body_serialize_lem g gl p) (rw (length-body_of g gl p) refl)

  verify_signature-signed :
      (p : PrekeyProfile g) (k : Keypair g)
      → serialize_ec_point g k.public ≡ g.derive_public_key k.sym
      → p.signature ≡ ec_sign_simple g e k.sym (body_of g gl p)
      → prekey_profile_verify_signature g e p k.public ≡ true
  unfolding prekey_profile_verify_signature verify_body
  verify_signature-signed p k pair signed =
      rw (body_into_lem p, signed)
        (rw (not_empty k.sym (body_of g gl p), length-serialize_ec_point g gl k.public)
          (rw (pair, ec_verify-ec_sign_simple g e el k.sym (body_of g gl p)) refl))

  -- What a profile must have to be valid.
  valid-signed :
      (later tag : ℕ) (p : PrekeyProfile g) (k : Keypair g)
      → prekey_profile_verify_signature g e p k.public ≡ true
      → p.instance_tag ≡ tag
      → point_valid p.shared_prekey ≡ true
      → prekey_profile_expired later p.expires ≡ false
      → prekey_profile_valid g e later p tag k.public ≡ true
  unfolding prekey_profile_valid prekey_profile_valid_without_expiry
  valid-signed later tag p k signed own on fresh =
      rw signed (rw (own, on, fresh) (rw (==-self tag) refl))

  -- A prekey profile that the owner of a long-term key pair builds, of random bytes that generate a
  -- shared prekey on the curve and with a valid instance tag, is built, and it is valid for its tag and
  -- the public key of the pair for thirty days, where the expiry fits in a signed 64-bit time and no
  -- signature is all zero bytes.
  pub prekey_profile_build-valid :
      (zero_point : Point) (now later tag : ℕ) (sym : Bytes) (k : Keypair g)
      (keys : SharedPrekeyPair g)
      → serialize_ec_point g k.public ≡ g.derive_public_key k.sym
      → shared_prekey_pair_generate g sym ≡ some keys
      → instance_tag_valid tag ≡ true
      → point_valid keys.public ≡ true
      → later < now + expiration_seconds
      → now + expiration_seconds < 2 ^ 63
      → (p : PrekeyProfile g) × (prekey_profile_build g e zero_point now sym tag k ≡ some p)
        × (prekey_profile_valid g e later p tag k.public ≡ true)
  unfolding prekey_profile_build prekey_profile_sign prekey_profile_zero
  prekey_profile_build-valid zero_point now later tag sym k keys pair generated valid_tag on before
        small =
      let p : PrekeyProfile g = record (prekey_profile_zero g zero_point) {
        keys = some keys;
        shared_prekey = keys.public;
        instance_tag = tag;
        expires = (now + expiration_seconds) % 2 ^ 64;
      } in
      let q : PrekeyProfile g = record p {
        signature = ec_sign_simple g e k.sym (body_of g gl p);
      } in
      (
        q,
        rw (valid_tag, generated) (rw (body_into_lem p) refl),
        valid-signed later tag q k (verify_signature-signed q k pair refl) refl on
            (not_expired later (now + expiration_seconds) before small),
      )
