-- ===== src/ClientProfile/Signed.antt =====
-- src/client_profile.c: a profile that its owner built is valid until it expires, and one without
-- versions makes the check read through a null pointer.
use libotrv.ClientProfile.Checks.{AreVersions, rollback_detected-none, signed_part, body_into-fits}
use native.Mathlib.Nat.{mod-eq_of_lt}
use libotrv.Prelude.{
  ℕ, ◌+◌, ◌%◌, ◌^◌, ◌<◌, ◌≡◌, refl, true, false, none, some, arith, ==-self, Bytes,
}
use libotrv.Crypto.{Goldilocks, GoldilocksLaws, Gcrypt, Eddsa, EddsaLaws, Libotr}
use libotrv.Wire.Keys.{serialize_ec_point, length-serialize_ec_point}
use libotrv.Keys.{instance_tag_valid, Keypair, ec_sign_simple, ec_verify-ec_sign_simple}
use libotrv.KeyExchange.{is_empty_array}
use libotrv.Run.{success, crashed}
use libotrv.ClientProfile.{
  serialize_dsa_key, serialize_transitional_signature, ClientProfile, client_profile_zero,
  client_profile_body_serialize_pre_transitional_signature, client_profile_body_serialize,
  client_profile_body_serialize_into,
}
use libotrv.ClientProfile.Validity.{
  client_profile_expired, client_profile_new, client_profile_sign,
  client_profile_build_with_custom_expiration, client_profile_build,
  client_profile_verify_signature, verify_transitional, verify_transitional_signature,
  check_contents, client_profile_valid_without_expiry, client_profile_valid,
}

module _ (g : Goldilocks) (e : Eddsa) (c : Gcrypt) (o : Libotr c) (gl : GoldilocksLaws g)
    (el : EddsaLaws g e)
    (not_empty : (sym msg : Bytes) → is_empty_array (ec_sign_simple g e sym msg) ≡ false) where
  open g use {Point, point_valid}

  -- What a key pair that was generated has.
  abbrev pub IsPair : Keypair g → Type 0
  IsPair k = serialize_ec_point g k.public ≡ g.derive_public_key k.sym

  -- The profile that the owner of `k` makes of `p`.
  abbrev pub signed_by : Keypair g → ClientProfile g → Bytes → ClientProfile g
  signed_by k p body = record p {
    long_term_pub_key = k.public;
    signature = ec_sign_simple g e k.sym body;
  }

  client_profile_sign_lem :
      (k : Keypair g) (p : ClientProfile g) (body : Bytes)
      → client_profile_body_serialize_into g (record p { long_term_pub_key = k.public })
        ≡ success body
      → client_profile_sign g e c o k p ≡ success (signed_by k p body)
  unfolding client_profile_sign
  client_profile_sign_lem k p body h = rw h refl

  -- The body does not depend on the signature.
  body_into-signed :
      (k : Keypair g) (p : ClientProfile g) (body : Bytes)
      → client_profile_body_serialize_into g (signed_by k p body)
        ≡ client_profile_body_serialize_into g (record p { long_term_pub_key = k.public })
  unfolding client_profile_body_serialize_into client_profile_body_serialize
      client_profile_body_serialize_pre_transitional_signature
  body_into-signed k p body = refl

  verify_signature-signed :
      (k : Keypair g) (p : ClientProfile g) (body : Bytes)
      → IsPair k
      → client_profile_body_serialize_into g (record p { long_term_pub_key = k.public })
        ≡ success body
      → client_profile_verify_signature g e c o (signed_by k p body) ≡ success true
  unfolding client_profile_verify_signature
  verify_signature-signed k p body pair h =
      rw
        (
          client_profile_verify_signature,
          not_empty k.sym body,
          body_into-signed k p body,
          h,
          length-serialize_ec_point g gl k.public,
        )
        (rw (pair, ec_verify-ec_sign_simple g e el k.sym body) refl)

  check_contents-true :
      (q : ClientProfile g) (tag : ℕ) (versions : Bytes)
      → q.sender_instance_tag ≡ tag
      → q.versions ≡ some versions
      → AreVersions versions
      → point_valid q.long_term_pub_key ≡ true
      → point_valid q.forging_pub_key ≡ true
      → verify_transitional_signature g e c o q ≡ success true
      → check_contents g e c o q tag ≡ success true
  unfolding check_contents
  check_contents-true q tag versions own there vs on1 on2 transitional =
      rw (transitional)
        (rw (own, there) (rw (==-self tag, rollback_detected-none versions vs, on1, on2) refl))

  not_expired :
      (later expires : ℕ)
      → later < expires
      → expires < 2 ^ 63
      → client_profile_expired later (expires % 2 ^ 64) ≡ false
  unfolding client_profile_expired
  not_expired later expires before small =
      let same : expires % 2 ^ 64 ≡ expires =
        mod-eq_of_lt {n = expires} {m = 2 ^ 64} (omega arith) in
      rw same (ground (arith, before, small))

  valid-signed :
      (later tag : ℕ) (q : ClientProfile g)
      → client_profile_verify_signature g e c o q ≡ success true
      → check_contents g e c o q tag ≡ success true
      → client_profile_expired later q.expires ≡ false
      → client_profile_valid g e c o later q tag ≡ success true
  unfolding client_profile_valid client_profile_valid_without_expiry
  valid-signed later tag q signed contents fresh = rw (signed, contents, fresh) refl

  -- A profile that the owner of a generated key pair builds, with versions 3 and 4 only, a valid
  -- instance tag and points on the curve, is built, and it is valid for its instance tag at every time
  -- before it expires, where the expiry fits in a signed 64-bit time and no signature is all zero bytes.
  pub client_profile_build-valid :
      (zero_point : Point) (now later tag lifetime : ℕ) (versions : Bytes) (k : Keypair g)
      (forging : Point)
      → IsPair k
      → instance_tag_valid tag ≡ true
      → AreVersions versions
      → point_valid k.public ≡ true
      → point_valid forging ≡ true
      → later < now + lifetime
      → now + lifetime < 2 ^ 63
      → (p : ClientProfile g) × (client_profile_build g e c o zero_point now tag versions k forging
            lifetime
          ≡ success p)
        × (client_profile_valid g e c o later p tag ≡ success true)
  unfolding client_profile_build client_profile_build_with_custom_expiration client_profile_new
      client_profile_zero verify_transitional_signature verify_transitional serialize_dsa_key
      serialize_transitional_signature
  client_profile_build-valid z now later tag lifetime versions k forging pair valid_tag vs on1 on2
        before small =
      let p : ClientProfile g =
        client_profile_new g e c o z tag versions forging ((now + lifetime) % 2 ^ 64) in
      let p1 : ClientProfile g = record p { long_term_pub_key = k.public } in
      let body = signed_part g e c o gl p1 in
      let done = body_into-fits g e c o gl p1 versions refl (omega arith) in
      let q : ClientProfile g = signed_by k p body in
      (
        q,
        rw (valid_tag) (client_profile_sign_lem k p body done),
        valid-signed later tag q (verify_signature-signed k p body pair done)
            (check_contents-true q tag versions refl refl vs on1 on2 refl)
            (not_expired later (now + lifetime) before small),
      )

  -- A profile without versions, whose signed part can be written, can be signed by the owner of a
  -- generated key pair, and whoever then checks it with its instance tag reads through a null pointer, at
  -- any time, where no signature is all zero bytes.
  pub client_profile_valid-no_versions :
      (now : ℕ) (p : ClientProfile g) (k : Keypair g) (body : Bytes)
      → IsPair k
      → p.versions ≡ none
      → client_profile_body_serialize_into g (record p { long_term_pub_key = k.public })
        ≡ success body
      → (q : ClientProfile g) × (client_profile_sign g e c o k p ≡ success q)
        × (client_profile_valid g e c o now q p.sender_instance_tag ≡ crashed)
  unfolding client_profile_valid client_profile_valid_without_expiry check_contents
  client_profile_valid-no_versions now p k body pair absent done = (
    signed_by k p body,
    client_profile_sign_lem k p body done,
    rw (verify_signature-signed k p body pair done)
        (rw (==-self p.sender_instance_tag) (rw absent refl)),
  )
