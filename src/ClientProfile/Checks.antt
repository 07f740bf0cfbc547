-- ===== src/ClientProfile/Checks.antt =====
-- src/client_profile.c: which profiles are valid, and where the check reads or writes what it may not.
use libotrv.Wire.Serialize.{serialize_uint32, serialize_uint16, serialize_bytes_array}
use libotrv.Wire.RoundTrip.{length-serialize_uint16, length-serialize_uint32}
use libotrv.KeyExchange.{is_empty_array}
use libotrv.Prelude.{
  ℕ, ◌+◌, ◌≤◌, ◌<◌, ◌≡◌, refl, ap, ◌⊎◌, inl, inr, false, some, [], ◌∷◌, ◌++◌, arith, leb, ==-ne,
  leb-eq_true, length, All, length-append, Bytes,
}
use libotrv.Crypto.{Goldilocks, GoldilocksLaws, Gcrypt, Eddsa, Libotr}
use libotrv.Run.{success, crashed}
use libotrv.ClientProfile.{
  fields_max_bytes, strlen_ns, written_to, serialize_dsa_key, serialize_transitional_signature,
  ClientProfile, client_profile_body_serialize_pre_transitional_signature,
  client_profile_body_serialize, client_profile_body_serialize_into,
}
use libotrv.ClientProfile.Sizes.{length-all_fields}
use libotrv.ClientProfile.Validity.{
  rollback_detected, client_profile_verify_signature, client_profile_valid_without_expiry,
  client_profile_valid,
}

-- The versions of a profile that is no rollback.
unfoldable pub AreVersions : Bytes → Type 0
AreVersions = All (λ v. (v ≡ 51) ⊎ (v ≡ 52))

pub rollback_detected-none :
    (versions : Bytes) → AreVersions versions → rollback_detected versions ≡ false
unfolding rollback_detected AreVersions
rollback_detected-none [] h = refl
rollback_detected-none (v ∷ versions) (inl e, h) = rw (e, rollback_detected-none versions h) refl
rollback_detected-none (v ∷ versions) (inr e, h) = rw (e, rollback_detected-none versions h) refl

pub written_to-fits : (n : ℕ) (b : Bytes) → length b ≤ n → written_to n b ≡ success b
unfolding written_to
written_to-fits n b h = rw (leb-eq_true (length b) n h) refl

leb-eq_false : (a b : ℕ) → b < a → leb a b ≡ false
leb-eq_false a b h = ground arith

written_to-crashed : (n : ℕ) (b : Bytes) → n < length b → written_to n b ≡ crashed
unfolding written_to
written_to-crashed n b h = rw (leb-eq_false (length b) n h) refl

module _ (g : Goldilocks) (e : Eddsa) (c : Gcrypt) (o : Libotr c) (gl : GoldilocksLaws g) where
  open g use {Point, point_valid}

  -- The length of a profile without its optional fields.
  length-pre :
      (p : ClientProfile g) (versions : Bytes)
      → p.versions ≡ some versions
      → length (client_profile_body_serialize_pre_transitional_signature g p).0
        ≡ 144 + length versions + length (serialize_dsa_key p.dsa_key).0
  unfolding client_profile_body_serialize_pre_transitional_signature strlen_ns
  length-pre p versions there = rw there (
      length-all_fields g gl p.sender_instance_tag p.long_term_pub_key p.forging_pub_key versions
        p.expires (serialize_dsa_key p.dsa_key).0)

  -- What is signed, of a profile with these versions.
  abbrev pub signed_part : ClientProfile g → Bytes
  signed_part p =
      let transitional = serialize_transitional_signature p.transitional_signature in
      serialize_uint32
        ((client_profile_body_serialize_pre_transitional_signature g p).1 + transitional.1)
      ++ ((client_profile_body_serialize_pre_transitional_signature g p).0 ++ transitional.0)

  abbrev pub optional_len : ClientProfile g → ℕ
  optional_len p =
      length (serialize_dsa_key p.dsa_key).0
      + length (serialize_transitional_signature p.transitional_signature).0

  length-signed_part :
      (p : ClientProfile g) (versions : Bytes)
      → p.versions ≡ some versions
      → length (signed_part p) ≡ 148 + length versions + optional_len p
  length-signed_part p versions there =
      let pre = client_profile_body_serialize_pre_transitional_signature g p in
      let transitional = serialize_transitional_signature p.transitional_signature in
      omega (
        arith,
        length-append (serialize_uint32 (pre.1 + transitional.1)) (pre.0 ++ transitional.0),
        length-append pre.0 transitional.0,
        length-serialize_uint32 (pre.1 + transitional.1),
        length-pre p versions there,
      )

  fields_max_lem :
      (p : ClientProfile g) (versions : Bytes)
      → p.versions ≡ some versions
      → fields_max_bytes (strlen_ns p.versions) ≡ 970 + length versions
  unfolding fields_max_bytes strlen_ns
  fields_max_lem p versions there = rw there (omega arith)

  pub body_into-fits :
      (p : ClientProfile g) (versions : Bytes)
      → p.versions ≡ some versions
      → optional_len p ≤ 822
      → client_profile_body_serialize_into g p ≡ success (signed_part p)
  unfolding client_profile_body_serialize_into client_profile_body_serialize
  body_into-fits p versions there small =
      written_to-fits (fields_max_bytes (strlen_ns p.versions)) (signed_part p)
        (omega (arith, fields_max_lem p versions there, length-signed_part p versions there))

  body_into-crashed :
      (p : ClientProfile g) (versions : Bytes)
      → p.versions ≡ some versions
      → 822 < optional_len p
      → client_profile_body_serialize_into g p ≡ crashed
  unfolding client_profile_body_serialize_into client_profile_body_serialize
  body_into-crashed p versions there large =
      written_to-crashed (fields_max_bytes (strlen_ns p.versions)) (signed_part p)
        (omega (arith, fields_max_lem p versions there, length-signed_part p versions there))

  -- The length of the DSA field, whose key is not empty.
  length-dsa_field :
      (key : Bytes) → 0 < length key → length (serialize_dsa_key (some key)).0 ≡ 2 + length key
  unfolding serialize_dsa_key serialize_bytes_array
  length-dsa_field key pos =
      rw (==-ne (length key) 0 (λ eq. omega (arith, eq)))
        (omega (arith, length-append (serialize_uint16 6) key, length-serialize_uint16 6))

  -- Whoever checks a profile that has versions, a signature that is not all zero bytes and a DSA key of
  -- more than 820 bytes writes behind the end of the buffer for the signed part, at any time and for any
  -- tag.
  pub client_profile_valid-crashed :
      (now tag : ℕ) (p : ClientProfile g) (versions key : Bytes)
      → p.versions ≡ some versions
      → p.dsa_key ≡ some key
      → 820 < length key
      → is_empty_array p.signature ≡ false
      → client_profile_valid g e c o now p tag ≡ crashed
  unfolding client_profile_valid client_profile_valid_without_expiry client_profile_verify_signature
  client_profile_valid-crashed now tag p versions key there dsa large signed =
      let long : 822 < optional_len p =
        omega (
          arith,
          ap (λ d. length (serialize_dsa_key d).0) dsa,
          length-dsa_field key (omega arith),
        ) in
      rw (signed, body_into-crashed p versions there long) refl
