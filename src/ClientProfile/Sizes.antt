-- ===== src/ClientProfile/Sizes.antt =====
-- src/client_profile.c: the optional fields of a profile and how long they are.
use libotrv.Crypto.{Goldilocks, GoldilocksLaws}
use libotrv.Wire.PublicKeys.{
  serialize_public_key, serialize_forging_key, length-serialize_public_key,
  length-serialize_forging_key,
}
use libotrv.Prelude.{
  ℕ, ◌+◌, ◌≤◌, ◌≡◌, refl, Option, none, some, ◌++◌, append_assoc, arith, ==-ne, length,
  length-append, Bytes,
}
use libotrv.Wire.Serialize.{
  serialize_uint64, serialize_uint32, serialize_uint16, serialize_bytes_array, serialize_data,
}
use libotrv.Wire.RoundTrip.{
  length-serialize_uint16, length-serialize_uint32, length-serialize_uint64, length-serialize_data,
}
use libotrv.ClientProfile.{dsa_sig_bytes, serialize_dsa_key, serialize_transitional_signature}
use libotrv.ClientProfile.DsaKey.{DsaKey, DsaKey-long}

-- A DSA key that the buffer has room for, or none.
abbrev pub HasDsaKey : Option Bytes → Type 0
HasDsaKey none = Unit {0}
HasDsaKey (some key) = DsaKey key × (length key ≤ 782)

abbrev pub HasTransitional : Option Bytes → Type 0
HasTransitional none = Unit {0}
HasTransitional (some sig) = length sig ≡ dsa_sig_bytes

pub flat :
    (a b c d e f r : Bytes)
    → (a ++ (b ++ (c ++ (d ++ (e ++ f))))) ++ r ≡ a ++ (b ++ (c ++ (d ++ (e ++ (f ++ r)))))
flat a b c d e f r = simp append_assoc

pub length-transitional :
    (s : Option Bytes) → HasTransitional s → length (serialize_transitional_signature s).0 ≤ 42
unfolding serialize_transitional_signature serialize_bytes_array serialize_uint16
length-transitional none h = omega arith
length-transitional (some sig) h = omega (arith, h)

pub serialize_dsa_key_lem :
    (key : Bytes) → DsaKey key → serialize_dsa_key (some key) ≡ (serialize_uint16 6 ++ key, 1)
unfolding serialize_dsa_key serialize_bytes_array
serialize_dsa_key_lem key k =
    rw (==-ne (length key) 0 (λ e. omega (arith, e, DsaKey-long key k))) refl

pub dsa_count : (d : Option Bytes) → (serialize_dsa_key d).1 ≤ 1
unfolding serialize_dsa_key
dsa_count none = omega arith
dsa_count (some key) = ground arith

pub transitional_count : (s : Option Bytes) → (serialize_transitional_signature s).1 ≤ 1
unfolding serialize_transitional_signature
transitional_count none = omega arith
transitional_count (some sig) = omega arith

pub length-dsa : (d : Option Bytes) → HasDsaKey d → length (serialize_dsa_key d).0 ≤ 784
length-dsa none h = unfold serialize_dsa_key in omega arith
length-dsa (some key) h =
    rw (serialize_dsa_key_lem key h.0)
      (omega (arith, h.1, length-append (serialize_uint16 6) key, length-serialize_uint16 6))

-- The fields of a profile, with `more` those behind the expiration.
abbrev pub all_fields : (g : Goldilocks) → ℕ → g.Point → g.Point → Bytes → ℕ → Bytes → Bytes
all_fields g tag long_term forging versions expires more =
    (serialize_uint16 1 ++ serialize_uint32 tag)
    ++ ((serialize_uint16 2 ++ serialize_public_key g long_term)
        ++ ((serialize_uint16 3 ++ serialize_forging_key g forging)
            ++ ((serialize_uint16 4 ++ serialize_data (some versions) (length versions))
                ++ ((serialize_uint16 5 ++ serialize_uint64 expires) ++ more))))

length-field :
    (n type : ℕ) (b rest : Bytes)
    → length b ≡ n
    → length ((serialize_uint16 type ++ b) ++ rest) ≡ 2 + n + length rest
length-field n type b rest len = omega (
  arith,
  len,
  length-append (serialize_uint16 type ++ b) rest,
  length-append (serialize_uint16 type) b,
  length-serialize_uint16 type,
)

pub length-all_fields :
    (g : Goldilocks) (gl : GoldilocksLaws g) (tag : ℕ) (long_term forging : g.Point)
    (versions : Bytes) (expires : ℕ) (more : Bytes)
    → length (all_fields g tag long_term forging versions expires more)
      ≡ 144 + length versions + length more
length-all_fields g gl tag long_term forging versions expires more =
    rw
      (
        length-field 4 1 (serialize_uint32 tag) _ (length-serialize_uint32 tag),
        length-field 59 2 (serialize_public_key g long_term) _
            (length-serialize_public_key g gl long_term),
        length-field 59 3 (serialize_forging_key g forging) _
            (length-serialize_forging_key g gl forging),
        length-field (4 + length versions) 4 (serialize_data (some versions) (length versions)) _
            (length-serialize_data versions),
        length-field 8 5 (serialize_uint64 expires) _ (length-serialize_uint64 expires),
      )
      (omega arith)
