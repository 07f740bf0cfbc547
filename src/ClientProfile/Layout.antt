-- ===== src/ClientProfile/Layout.antt =====
-- src/client_profile.c: the bytes of a profile, and how they are read.
use libotrv.Prelude.{
  ℕ, suc, ◌+◌, ◌-◌, ◌^◌, ◌≤◌, ◌<◌, ◌≡◌, refl, sym, false, Option, none, some, [], ◌++◌, append-nil,
  append_assoc, arith, ltb-eq_false, leb-eq_true, length, drop, replicate, length-append,
  take_prefix, drop_prefix, Bytes,
}
use libotrv.Crypto.{Goldilocks, GoldilocksLaws}
use libotrv.Wire.Serialize.{
  serialize_uint64, serialize_uint32, serialize_uint16, serialize_bytes_array, serialize_data,
}
use libotrv.Wire.RoundTrip.{
  deserialize-serialize_uint32, length-serialize_uint32, drop-serialize_uint32,
}
use libotrv.Wire.PublicKeys.{serialize_public_key, serialize_forging_key}
use libotrv.Keys.{signature_bytes}
use libotrv.Run.{success}
use libotrv.ClientProfile.{
  fields_max_bytes, max_bytes, strlen_ns, written_to, serialize_dsa_key,
  serialize_transitional_signature, ClientProfile, client_profile_zero,
  client_profile_body_serialize_pre_transitional_signature, client_profile_body_serialize,
  client_profile_serialize,
}
use libotrv.ClientProfile.Read.{deserialize_fields, client_profile_deserialize}
use libotrv.ClientProfile.Fields.{
  IsCString, deserialize_fields-step, read_instance_tag, read_public_key, read_forging_key,
  read_versions, read_expiration, read_dsa_key_field, read_transitional_signature,
}
use libotrv.ClientProfile.Sizes.{
  HasDsaKey, HasTransitional, flat, length-transitional, serialize_dsa_key_lem, dsa_count,
  transitional_count, length-dsa, all_fields, length-all_fields,
}

module _ (g : Goldilocks) (gl : GoldilocksLaws g) where
  open g use {Point}

  -- A profile, by what is written of it.
  abbrev pub profile_of :
      ℕ → Point → Point → Bytes → ℕ → Option Bytes → Option Bytes → Bytes → ClientProfile g
  profile_of tag long_term forging versions expires dsa transitional sig = record {
    sender_instance_tag = tag;
    long_term_pub_key = long_term;
    forging_pub_key = forging;
    versions = some versions;
    expires = expires;
    dsa_key = dsa;
    transitional_signature = transitional;
    signature = sig;
    should_publish = 0;
    is_publishing = false;
    has_validated = false;
    validation_result = false;
  }

  -- What the loop makes of `n` fields.
  abbrev pub Tail : ℕ → Bytes → ClientProfile g → ClientProfile g → Type 0
  Tail n bytes t t1 =
      (rest : Bytes) → deserialize_fields g n t (bytes ++ rest) ≡ some (t1, length bytes)

  pub Tail-none : (t : ClientProfile g) → Tail 0 [] t t
  unfolding deserialize_fields
  Tail-none t rest = refl

  -- A profile is read where its fields are, with the signature behind them.
  pub client_profile_deserialize-Tail :
      (p : Point) (n : ℕ) (fields sig rest : Bytes) (t : ClientProfile g)
      → n < 2 ^ 32
      → length sig ≡ signature_bytes
      → Tail n fields (client_profile_zero g p) t
      → client_profile_deserialize g p (((serialize_uint32 n ++ fields) ++ sig) ++ rest)
        ≡ some (record t { signature = sig }, length ((serialize_uint32 n ++ fields) ++ sig))
  unfolding client_profile_deserialize
  client_profile_deserialize-Tail p n fields sig rest t small signed tail =
      let len : length ((serialize_uint32 n ++ fields) ++ sig) ≡ 4 + length fields + 114 = omega (
        arith,
        signed,
        length-append (serialize_uint32 n ++ fields) sig,
        length-append (serialize_uint32 n) fields,
        length-serialize_uint32 n,
      ) in
      let straight : ((serialize_uint32 n ++ fields) ++ sig) ++ rest
          ≡ serialize_uint32 n ++ (fields ++ (sig ++ rest)) =
        simp append_assoc in
      let behind : drop (4 + length fields) (serialize_uint32 n ++ (fields ++ (sig ++ rest)))
          ≡ sig ++ rest =
        rw (sym (append_assoc (serialize_uint32 n) fields (sig ++ rest))) (
          drop_prefix {A = ℕ} (4 + length fields) (serialize_uint32 n ++ fields) (sig ++ rest) (
            omega (arith, length-append (serialize_uint32 n) fields, length-serialize_uint32 n))) in
      rw (straight, deserialize-serialize_uint32 n _ small)
        (rw (drop-serialize_uint32, tail)
          (rw
            (
              behind,
              ltb-eq_false (length (sig ++ rest)) 114
                  (omega (arith, length-append sig rest, signed)),
              take_prefix {A = ℕ} 114 sig rest (sym signed),
              len,
            )
            refl))

  module _ (tag : ℕ) (long_term forging : Point) (versions : Bytes) (expires : ℕ)
      (tag_small : tag < 2 ^ 32) (expires_small : expires < 2 ^ 64) (string : IsCString versions)
      (versions_small : length versions < 2 ^ 31) where
    abbrev read_so_far : Option Bytes → Option Bytes → ClientProfile g
    read_so_far d s =
        profile_of tag long_term forging versions expires d s (replicate signature_bytes 0)

    Tail-transitional :
        (d s : Option Bytes)
        → HasTransitional s
        → Tail
            (serialize_transitional_signature s).1
            (serialize_transitional_signature s).0
            (read_so_far d none)
            (read_so_far d s)
    unfolding serialize_transitional_signature serialize_bytes_array
    Tail-transitional d none h rest = Tail-none (read_so_far d none) rest
    Tail-transitional d (some sig) h rest = rw (sym (append-nil (serialize_uint16 7 ++ sig))) (
        deserialize_fields-step g gl 0 7 sig [] rest _ _ _ (omega arith)
          (read_transitional_signature g gl (read_so_far d none) sig h)
          (Tail-none (read_so_far d (some sig)) rest))

    Tail-count :
        (n m : ℕ) (bytes : Bytes) (t t1 : ClientProfile g)
        → n ≡ m
        → Tail m bytes t t1
        → Tail n bytes t t1
    Tail-count n m bytes t t1 e tail rest = rw e (tail rest)

    Tail-dsa :
        (d s : Option Bytes)
        → HasDsaKey d
        → HasTransitional s
        → Tail
            ((serialize_dsa_key d).1 + (serialize_transitional_signature s).1)
            ((serialize_dsa_key d).0 ++ (serialize_transitional_signature s).0)
            (read_so_far none none)
            (read_so_far d s)
    Tail-dsa none s h k =
        unfold serialize_dsa_key in
        Tail-count _ (serialize_transitional_signature s).1 _ _ _ (omega arith)
          (Tail-transitional none s k)
    Tail-dsa (some key) s h k = rw (serialize_dsa_key_lem key h.0) (
        Tail-count _ (suc (serialize_transitional_signature s).1) _ _ _ (omega arith) (λ rest.
          deserialize_fields-step g gl (serialize_transitional_signature s).1 6 key
            (serialize_transitional_signature s).0 rest _ _ _ (omega arith)
            (read_dsa_key_field g gl (read_so_far none none) key h.0)
            (Tail-transitional (some key) s k rest)))

    -- All fields, with `more` the last two.
    abbrev pub fields_of : Bytes → Bytes
    fields_of more = all_fields g tag long_term forging versions expires more

    pub Tail-all :
        (p : Point) (n : ℕ) (more : Bytes) (t : ClientProfile g)
        → Tail n more (read_so_far none none) t
        → Tail (suc (suc (suc (suc (suc n))))) (fields_of more) (client_profile_zero g p) t
    unfolding client_profile_zero
    Tail-all p n more t tail rest =
        deserialize_fields-step g gl _ 1 (serialize_uint32 tag) _ rest _ _ _ (omega arith)
          (read_instance_tag g gl _ tag tag_small)
          (deserialize_fields-step g gl _ 2 (serialize_public_key g long_term) _ rest _ _ _
            (omega arith) (read_public_key g gl _ long_term)
            (deserialize_fields-step g gl _ 3 (serialize_forging_key g forging) _ rest _ _ _
              (omega arith) (read_forging_key g gl _ forging)
              (deserialize_fields-step g gl _ 4 (serialize_data (some versions) (length versions)) _
                rest _ _ _ (omega arith) (read_versions g gl _ versions string (omega arith))
                (deserialize_fields-step g gl _ 5 (serialize_uint64 expires) _ rest _ _ _
                  (omega arith) (read_expiration g gl _ expires expires_small) (tail rest)))))

    -- A profile with these fields.
    module _ (d s : Option Bytes) (sig : Bytes) (h : HasDsaKey d) (k : HasTransitional s)
        (signed : length sig ≡ signature_bytes) where
      abbrev pub more : Bytes
      more = (serialize_dsa_key d).0 ++ (serialize_transitional_signature s).0

      abbrev pub count : ℕ
      count = 5 + (serialize_dsa_key d).1 + (serialize_transitional_signature s).1

      abbrev pub body : Bytes
      body = serialize_uint32 count ++ fields_of more

      count_small : count < 2 ^ 32
      count_small = omega (arith, dsa_count d, transitional_count s)

      length-body : length body ≤ max_bytes (length versions) - signature_bytes
      unfolding max_bytes fields_max_bytes
      length-body = omega (
        arith,
        length-append (serialize_uint32 count) (fields_of more),
        length-serialize_uint32 count,
        length-all_fields g gl tag long_term forging versions expires more,
        length-append (serialize_dsa_key d).0 (serialize_transitional_signature s).0,
        length-dsa d h,
        length-transitional s k,
      )

      large : signature_bytes ≤ max_bytes (length versions)
      unfolding max_bytes
      large = omega arith

      body_serialize_lem :
          client_profile_body_serialize g
            (max_bytes (length versions))
            (profile_of tag long_term forging versions expires d s sig)
          ≡ success body
      unfolding client_profile_body_serialize
          client_profile_body_serialize_pre_transitional_signature written_to strlen_ns
      body_serialize_lem =
          rw
            (
              flat (serialize_uint16 1 ++ serialize_uint32 tag)
                  (serialize_uint16 2 ++ serialize_public_key g long_term)
                  (serialize_uint16 3 ++ serialize_forging_key g forging)
                  (serialize_uint16 4 ++ serialize_data (some versions) (length versions))
                  (serialize_uint16 5 ++ serialize_uint64 expires) (serialize_dsa_key d).0
                  (serialize_transitional_signature s).0,
              leb-eq_true (length body) (max_bytes (length versions)) (omega (arith, length-body)),
            )
            refl

      pub client_profile_serialize_lem :
          client_profile_serialize g (profile_of tag long_term forging versions expires d s sig)
          ≡ success (body ++ sig)
      unfolding client_profile_serialize strlen_ns serialize_bytes_array
      client_profile_serialize_lem = rw body_serialize_lem (
          rw
            (ltb-eq_false (max_bytes (length versions) - length body) 114
              (omega (arith, length-body, large)))
            refl)

      pub client_profile_deserialize_lem :
          (p : Point) (rest : Bytes)
          → client_profile_deserialize g p ((body ++ sig) ++ rest)
            ≡ some (profile_of tag long_term forging versions expires d s sig, length (body ++ sig))
      client_profile_deserialize_lem p rest =
          client_profile_deserialize-Tail p count (fields_of more) sig rest (read_so_far d s)
            count_small signed
            (Tail-count count _ _ _ _ (omega arith)
              (Tail-all p _ more (read_so_far d s) (Tail-dsa d s h k)))
