-- ===== src/ClientProfile/Copy.antt =====
-- src/client_profile.c: the copy of a profile.
use libotrv.Prelude.{
  ◌≡◌, refl, sym, ap, ◌∙◌, false, not, Option, none, some, [], ◌∷◌, ◌++◌, ◌==◌, if◌then◌else◌, drop,
  Bytes,
}
use libotrv.Crypto.{Goldilocks}
use libotrv.Wire.Serialize.{serialize_uint16}
use libotrv.Wire.Deserialize.{deserialize_uint16}
use libotrv.ClientProfile.{ClientProfile, client_profile_zero}
use libotrv.ClientProfile.DsaKey.{dsa_key_of}
use libotrv.ClientProfile.Sizes.{HasDsaKey}
use libotrv.ClientProfile.RoundTrip.{IsProfile}

-- `copy_dsa_key`: the key of the copy, `none` where it is of another type. A key of no bytes counts as
-- none.
unfoldable pub copy_dsa_key : Option Bytes → Option (Option Bytes)
copy_dsa_key none = some none
copy_dsa_key (some []) = some none
copy_dsa_key (some (b ∷ bytes)) = elim (deserialize_uint16 (b ∷ bytes)) [
  | none ↦ none
  | some (key_type, read) ↦
      if not (key_type == 0)
      then none
      else some (some (serialize_uint16 0 ++ drop read (b ∷ bytes)))
]

copy_made :
    (p q g y : Bytes) → copy_dsa_key (some (dsa_key_of p q g y)) ≡ some (some (dsa_key_of p q g y))
unfolding copy_dsa_key dsa_key_of serialize_uint16 deserialize_uint16
copy_made p q g y = refl

copy_dsa_key_self : (key : Option Bytes) → HasDsaKey key → copy_dsa_key key ≡ some key
unfolding copy_dsa_key
copy_dsa_key_self none h = refl
copy_dsa_key_self (some key) h =
    ap (λ (k : Bytes). copy_dsa_key (some k)) h.0.made
    ∙ (copy_made h.0.p h.0.q h.0.g h.0.y ∙ ap (λ (k : Bytes). some (some k)) (sym h.0.made))

module _ (g : Goldilocks) where
  -- The fields other than the DSA key; `none` is otrng_false.
  unfoldable pub copy_fields : ClientProfile g → Option (Option Bytes) → Option (ClientProfile g)
  copy_fields src none = none
  copy_fields src (some key) =
      some (record src { dsa_key = key; has_validated = false; validation_result = false })

  -- `otrng_client_profile_copy` of `src`, which may be null; `p` is the point structure with zero bytes.
  unfoldable pub client_profile_copy : g.Point → Option (ClientProfile g) → Option (ClientProfile g)
  client_profile_copy p none = some (client_profile_zero g p)
  client_profile_copy p (some src) = copy_fields src (copy_dsa_key src.dsa_key)

  -- The copy of a profile that can be written is that profile.
  pub client_profile_copy_self :
      (z : g.Point) (p : ClientProfile g) → IsProfile g p → client_profile_copy z (some p) ≡ some p
  unfolding client_profile_copy copy_fields
  client_profile_copy_self z p h = ap (copy_fields p) (copy_dsa_key_self p.dsa_key h.dsa) ∙ (λ i.
      some (record p {
        has_validated = (sym h.has_validated) i;
        validation_result = (sym h.validation_result) i;
      }))
