-- ===== src/ClientProfile/Fields.antt =====
-- src/client_profile.c: each field of a profile that was written is read back.
use libotrv.ClientProfile.DsaKey.{DsaKey, read-DsaKey}
use libotrv.Crypto.{Goldilocks, GoldilocksLaws}
use libotrv.ClientProfile.{dsa_sig_bytes, ClientProfile}
use libotrv.Wire.PublicKeys.{
  serialize_public_key, serialize_forging_key, length-serialize_public_key,
  length-serialize_forging_key, deserialize-serialize_public_key, deserialize-serialize_forging_key,
}
use libotrv.Prelude.{
  ℕ, suc, ◌+◌, ◌^◌, ◌<◌, ◌≡◌, refl, sym, ap, ◌∙◌, some, [], ◌∷◌, ◌++◌, append_assoc, arith, ==-ne,
  length, drop, All, length-append, drop_prefix, Bytes, ◌>>=◌,
}
use libotrv.Wire.Serialize.{serialize_uint64, serialize_uint32, serialize_uint16, serialize_data}
use libotrv.Wire.RoundTrip.{
  deserialize-serialize_uint64, deserialize-serialize_uint32, deserialize-serialize_uint16,
  length-serialize_uint16, length-serialize_uint32, length-serialize_uint64, drop-serialize_uint16,
  read_back, deserialize-serialize_data, deserialize_bytes_array_lem, length-serialize_data,
}
use libotrv.ClientProfile.Read.{
  c_string, or_no_bytes, deserialize_versions, deserialize_value, deserialize_field,
  deserialize_fields,
}

-- A string with no NUL.
unfoldable pub IsCString : Bytes → Type 0
IsCString = All (λ b. 0 < b)

c_string_self : (s : Bytes) → IsCString s → c_string s ≡ s
unfolding c_string IsCString
c_string_self [] h = refl
c_string_self (b ∷ s) (pos, h) =
    rw (==-ne b 0 (λ e. omega (arith, e))) (ap (λ t. b ∷ t) (c_string_self s h))

module _ (g : Goldilocks) (gl : GoldilocksLaws g) where
  -- A field with a type, and what stands behind it: what the loop makes of it.
  abbrev pub Reads : ℕ → Bytes → ClientProfile g → ClientProfile g → Type 0
  Reads type value t t1 =
      (rest : Bytes) → deserialize_value g t type (value ++ rest) ≡ some (t1, length value)

  deserialize_fields-suc :
      (n : ℕ) (t : ClientProfile g) (buffer : Bytes)
      → deserialize_fields g (suc n) t buffer ≡ (
          deserialize_field g t buffer >>= λ (t1, r).
          deserialize_fields g n t1 (drop r buffer) >>= λ (t2, w). some (t2, r + w))
  unfolding deserialize_fields
  deserialize_fields-suc n t buffer = refl

  -- Where the rest of the fields is read, so is the rest with one field in front.
  pub deserialize_fields-step :
      (n type : ℕ) (value others rest : Bytes) (t t1 t2 : ClientProfile g)
      → type < 2 ^ 16
      → Reads type value t t1
      → deserialize_fields g n t1 (others ++ rest) ≡ some (t2, length others)
      → deserialize_fields g (suc n) t (((serialize_uint16 type ++ value) ++ others) ++ rest)
        ≡ some (t2, length ((serialize_uint16 type ++ value) ++ others))
  unfolding deserialize_field
  deserialize_fields-step n type value others rest t t1 t2 small reads e =
      let front = serialize_uint16 type ++ value in
      let len : length front ≡ 2 + length value =
        length-append (serialize_uint16 type) value
        ∙ ap (λ k. k + length value) (length-serialize_uint16 type) in
      let flat : (front ++ others) ++ rest ≡ serialize_uint16 type ++ (value ++ (others ++ rest)) =
        simp append_assoc in
      let read : deserialize_field g t ((front ++ others) ++ rest) ≡ some (t1, 2 + length value) =
        rw (flat, deserialize_field, deserialize-serialize_uint16 type _ small)
          (rw (drop-serialize_uint16, reads) refl) in
      let behind : drop (2 + length value) ((front ++ others) ++ rest) ≡ others ++ rest =
        rw (append_assoc front others rest)
          (drop_prefix {A = ℕ} (2 + length value) front _ (sym len)) in
      rw (deserialize_fields-suc n t _, read)
        (rw (behind, e) (ap (λ k. some (t2, k)) (omega (arith, length-append front others, len))))

  -- The fields, one after the other, into a profile whose other fields are those of `t`.
  pub read_instance_tag :
      (t : ClientProfile g) (tag : ℕ)
      → tag < 2 ^ 32
      → Reads 1 (serialize_uint32 tag) t (record t { sender_instance_tag = tag })
  unfolding deserialize_value
  read_instance_tag t tag small rest =
      rw (deserialize-serialize_uint32 tag rest small, length-serialize_uint32 tag) refl

  pub read_public_key :
      (t : ClientProfile g) (p : g.Point)
      → Reads 2 (serialize_public_key g p) t (record t { long_term_pub_key = p })
  unfolding deserialize_value
  read_public_key t p rest =
      rw (deserialize-serialize_public_key g gl p rest, length-serialize_public_key g gl p) refl

  pub read_forging_key :
      (t : ClientProfile g) (p : g.Point)
      → Reads 3 (serialize_forging_key g p) t (record t { forging_pub_key = p })
  unfolding deserialize_value
  read_forging_key t p rest =
      rw (deserialize-serialize_forging_key g gl p rest, length-serialize_forging_key g gl p) refl

  or_no_bytes-read_back : (s : Bytes) → or_no_bytes (read_back s).bytes ≡ s
  unfolding or_no_bytes
  or_no_bytes-read_back [] = refl
  or_no_bytes-read_back (b ∷ s) = ground arith

  pub read_versions :
      (t : ClientProfile g) (s : Bytes)
      → IsCString s
      → length s < 2 ^ 32
      → Reads 4 (serialize_data (some s) (length s)) t (record t { versions = some s })
  unfolding deserialize_value deserialize_versions
  read_versions t s string small rest =
      rw (deserialize-serialize_data s rest small)
        (rw (or_no_bytes-read_back s, c_string_self s string, length-serialize_data s) refl)

  pub read_expiration :
      (t : ClientProfile g) (expires : ℕ)
      → expires < 2 ^ 64
      → Reads 5 (serialize_uint64 expires) t (record t { expires = expires })
  unfolding deserialize_value
  read_expiration t expires small rest =
      rw (deserialize-serialize_uint64 expires rest small, length-serialize_uint64 expires) refl

  pub read_dsa_key_field :
      (t : ClientProfile g) (key : Bytes)
      → DsaKey key
      → Reads 6 key t (record t { dsa_key = some key })
  unfolding deserialize_value
  read_dsa_key_field t key k rest = rw (read-DsaKey key rest k) refl

  pub read_transitional_signature :
      (t : ClientProfile g) (sig : Bytes)
      → length sig ≡ dsa_sig_bytes
      → Reads 7 sig t (record t { transitional_signature = some sig })
  unfolding deserialize_value
  read_transitional_signature t sig len rest =
      rw (deserialize_bytes_array_lem 40 sig rest (sym len), len) refl
