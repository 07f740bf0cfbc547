-- ===== src/ClientProfile/RoundTrip.antt =====
-- src/client_profile.c: a profile that was written is read back.
use libotrv.Prelude.{◌^◌, ◌<◌, ◌≡◌, sym, ap, ◌∙◌, false, some, ◌++◌, length, Bytes}
use libotrv.Crypto.{Goldilocks, GoldilocksLaws}
use libotrv.Keys.{signature_bytes}
use libotrv.Run.{success}
use libotrv.ClientProfile.{ClientProfile, client_profile_serialize}
use libotrv.ClientProfile.Read.{client_profile_deserialize}
use libotrv.ClientProfile.Fields.{IsCString}
use libotrv.ClientProfile.Sizes.{HasDsaKey, HasTransitional}
use libotrv.ClientProfile.Layout.{
  profile_of, body, client_profile_serialize_lem, client_profile_deserialize_lem,
}

module _ (g : Goldilocks) where
  -- A profile that can be written: its numbers have their widths, its versions are a string, its DSA
  -- key is one of version 3 that the buffer has room for, and its signatures have their lengths. What
  -- is not written is as `memset` leaves it.
  pub record IsProfile (p : ClientProfile g) : Type 0 where
    pub tag : p.sender_instance_tag < 2 ^ 32
    pub expiry : p.expires < 2 ^ 64
    pub text : Bytes
    pub versions : p.versions ≡ some text
    pub string : IsCString text
    pub short : length text < 2 ^ 31
    pub dsa : HasDsaKey p.dsa_key
    pub transitional : HasTransitional p.transitional_signature
    pub signed : length p.signature ≡ signature_bytes
    pub should_publish : p.should_publish ≡ 0
    pub is_publishing : p.is_publishing ≡ false
    pub has_validated : p.has_validated ≡ false
    pub validation_result : p.validation_result ≡ false

module _ (g : Goldilocks) (gl : GoldilocksLaws g) where
  profile_of_self :
      (p : ClientProfile g) (h : IsProfile g p)
      → p
        ≡ profile_of g gl p.sender_instance_tag p.long_term_pub_key p.forging_pub_key h.text
            p.expires p.dsa_key p.transitional_signature p.signature
  profile_of_self p h i = record p {
    versions = h.versions i;
    should_publish = h.should_publish i;
    is_publishing = h.is_publishing i;
    has_validated = h.has_validated i;
    validation_result = h.validation_result i;
  }

  -- A profile that can be written, with the fields that are not written at their defaults, is written,
  -- and `otrng_client_profile_deserialize` reads it back, whatever follows, and takes exactly its bytes.
  pub client_profile_deserialize-serialize :
      (zero_point : g.Point) (p : ClientProfile g) (rest : Bytes)
      → IsProfile g p
      → (buffer : Bytes) × (client_profile_serialize g p ≡ success buffer)
        × (client_profile_deserialize g zero_point (buffer ++ rest) ≡ some (p, length buffer))
  client_profile_deserialize-serialize zero_point p rest h =
      let same = profile_of_self p h in
      let front : Bytes =
        body g gl p.sender_instance_tag p.long_term_pub_key p.forging_pub_key h.text p.expires h.tag
          h.expiry h.string h.short p.dsa_key p.transitional_signature p.signature h.dsa
          h.transitional h.signed in
      (
        front ++ p.signature,
        ap (client_profile_serialize g) same
            ∙ client_profile_serialize_lem g gl p.sender_instance_tag p.long_term_pub_key
                p.forging_pub_key h.text p.expires h.tag h.expiry h.string h.short p.dsa_key
                p.transitional_signature p.signature h.dsa h.transitional h.signed,
        client_profile_deserialize_lem g gl p.sender_instance_tag p.long_term_pub_key
              p.forging_pub_key h.text p.expires h.tag h.expiry h.string h.short p.dsa_key
              p.transitional_signature p.signature h.dsa h.transitional h.signed zero_point rest
            ∙ ap (λ (q : ClientProfile g). some (q, length (front ++ p.signature))) (sym same),
      )
