-- ===== src/PrekeyProfile/Tests.antt =====
-- Prekey profiles over the sample curve.
use libotrv.Prelude.{◌≡◌, refl, true, false, some, [], ◌∷◌, ◌++◌, arith, length, replicate, Bytes}
use libotrv.Samples.{sample_curve, sample_curve_laws, sample_eddsa, sample_eddsa_laws}
use libotrv.Wire.Keys.{ec_point_decode, serialize_ec_point}
use libotrv.Keys.{instance_tag_valid, SharedPrekeyPair, shared_prekey_pair_generate}
use libotrv.PrekeyProfile.{
  PrekeyProfile, prekey_profile_zero, prekey_profile_serialize_with_metadata,
  prekey_profile_deserialize_with_metadata, prekey_profile_build, prekey_profile_valid,
}
use libotrv.PrekeyProfile.RoundTrip.{prekey_profile_deserialize-serialize_with_metadata}
use libotrv.PrekeyProfile.Signed.{prekey_profile_build-valid}
use libotrv.ClientProfile.Tests.{sample_keypair, sample_not_empty}

abbrev sample_keys : SharedPrekeyPair sample_curve
sample_keys = record { sym = 8 ∷ replicate 56 0; public = 8; priv = 8 }

abbrev sample_prekey_profile : PrekeyProfile sample_curve
sample_prekey_profile = record {
  instance_tag = 300;
  expires = 70000;
  shared_prekey = 8;
  keys = some sample_keys;
  signature = 1 ∷ replicate 113 0;
  should_publish = 1;
  is_publishing = false;
  has_validated = false;
  validation_result = false;
}

prekey_profile_deserialize-serialize_with_metadata_example :
    (buffer : Bytes) × (prekey_profile_serialize_with_metadata sample_curve sample_prekey_profile
        sample_keys
      ≡ some buffer)
    × (prekey_profile_deserialize_with_metadata sample_curve
          (prekey_profile_zero sample_curve 0)
          (buffer ++ (1 ∷ []))
        ≡ some (sample_prekey_profile, length buffer))
unfolding shared_prekey_pair_generate ec_point_decode
prekey_profile_deserialize-serialize_with_metadata_example =
    prekey_profile_deserialize-serialize_with_metadata sample_curve sample_curve_laws 0
      sample_prekey_profile sample_keys (1 ∷ [])
      (record {
        tag = omega arith;
        expiry = omega arith;
        publish = omega arith;
        signed = refl;
        secret = refl;
        generated = refl;
        own = refl;
        shared = refl;
        is_publishing = refl;
        has_validated = refl;
        validation_result = refl;
      })

prekey_profile_build-valid_example :
    (p : PrekeyProfile sample_curve) × (prekey_profile_build sample_curve sample_eddsa 0 1000
        (8 ∷ replicate 56 0)
        300
        sample_keypair
      ≡ some p)
    × (prekey_profile_valid sample_curve sample_eddsa 2000 p 300 5 ≡ true)
unfolding shared_prekey_pair_generate ec_point_decode instance_tag_valid serialize_ec_point
prekey_profile_build-valid_example =
    prekey_profile_build-valid sample_curve sample_eddsa sample_curve_laws sample_eddsa_laws
      sample_not_empty 0 1000 2000 300 (8 ∷ replicate 56 0) sample_keypair sample_keys refl refl
      refl refl (omega arith) (omega arith)
