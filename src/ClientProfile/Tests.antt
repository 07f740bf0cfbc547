-- ===== src/ClientProfile/Tests.antt =====
-- Profiles over the sample curve.
use libotrv.Wire.Deserialize.{deserialize_uint32, deserialize_uint16}
use libotrv.Wire.PublicKeys.{serialize_public_key, serialize_forging_key}
use libotrv.Prelude.{
  ◌≡◌, refl, sym, inr, Bool, true, false, none, some, [], ◌∷◌, ◌++◌, arith, length, replicate,
  Bytes,
}
use libotrv.Samples.{
  sample_curve, sample_curve_laws, sample_gcrypt, sample_eddsa, sample_eddsa_laws, sample_libotr,
}
use libotrv.Wire.Serialize.{
  serialize_uint64, serialize_uint32, serialize_uint16, serialize_bytes_array, serialize_data,
}
use libotrv.Wire.Keys.{
  serialize_ec_point, mpi_set, serialize_mpi, mpi_read_len, mpi_deserialize_no_copy,
  dh_mpi_deserialize, deserialize_dh_mpi_otr,
}
use libotrv.Keys.{instance_tag_valid, Keypair, ec_sign_simple, ec_verify}
use libotrv.KeyExchange.{is_empty_array}
use libotrv.Run.{success, crashed, ◌>>=◌}
use libotrv.ClientProfile.{
  fields_max_bytes, strlen_ns, written_to, serialize_dsa_key, serialize_transitional_signature,
  ClientProfile, client_profile_body_serialize_pre_transitional_signature,
  client_profile_body_serialize, client_profile_body_serialize_into, client_profile_serialize,
}
use libotrv.ClientProfile.Read.{client_profile_deserialize, dsa_numbers, generate_dsa_key_sexp}
use libotrv.ClientProfile.Validity.{
  rollback_detected, client_profile_sign, client_profile_build, client_profile_verify_signature,
  verify_with_sexp, verify_transitional, verify_transitional_signature, check_contents,
  client_profile_valid_without_expiry, client_profile_valid, client_profile_fast_valid,
}
use libotrv.ClientProfile.DsaKey.{dsa_key_of}
use libotrv.ClientProfile.Fields.{IsCString}
use libotrv.ClientProfile.RoundTrip.{IsProfile, client_profile_deserialize-serialize}
use libotrv.ClientProfile.Checks.{AreVersions, signed_part, client_profile_valid-crashed}
use libotrv.ClientProfile.Signed.{client_profile_build-valid, client_profile_valid-no_versions}
use libotrv.ClientProfile.Cached.{client_profile_fast_valid-again}

abbrev pub sample_profile : ClientProfile sample_curve
sample_profile = record {
  sender_instance_tag = 257;
  long_term_pub_key = 5;
  forging_pub_key = 6;
  versions = some (51 ∷ 52 ∷ []);
  expires = 1000;
  dsa_key = some (dsa_key_of (23 ∷ []) (11 ∷ []) (2 ∷ []) (9 ∷ 8 ∷ []));
  transitional_signature = some (replicate 40 7);
  signature = 1 ∷ replicate 113 0;
  should_publish = 0;
  is_publishing = false;
  has_validated = false;
  validation_result = false;
}

pub sample_profile-IsProfile : IsProfile sample_curve sample_profile
unfolding IsCString dsa_key_of serialize_uint16 serialize_mpi serialize_data serialize_uint32
    serialize_bytes_array mpi_set
sample_profile-IsProfile = record {
  tag = omega arith;
  expiry = omega arith;
  text = 51 ∷ 52 ∷ [];
  versions = refl;
  string = (omega arith, (omega arith, tt));
  short = omega arith;
  dsa = (
    record {
      p = 23 ∷ [];
      q = 11 ∷ [];
      g = 2 ∷ [];
      y = 9 ∷ 8 ∷ [];
      made = refl;
      small = omega arith;
    },
    omega arith,
  );
  transitional = refl;
  signed = refl;
  should_publish = refl;
  is_publishing = refl;
  has_validated = refl;
  validation_result = refl;
}

client_profile_deserialize-serialize_example :
    (buffer : Bytes) × (client_profile_serialize sample_curve sample_profile ≡ success buffer)
    × (client_profile_deserialize sample_curve 0 (buffer ++ (9 ∷ []))
        ≡ some (sample_profile, length buffer))
client_profile_deserialize-serialize_example =
    client_profile_deserialize-serialize sample_curve sample_curve_laws 0 sample_profile (9 ∷ [])
      sample_profile-IsProfile

client_profile_valid-crashed_example :
    client_profile_valid sample_curve sample_eddsa sample_gcrypt sample_libotr 5
      (record sample_profile { dsa_key = some (replicate 900 0) })
      257
    ≡ crashed
unfolding is_empty_array
client_profile_valid-crashed_example =
    client_profile_valid-crashed sample_curve sample_eddsa sample_gcrypt sample_libotr
      sample_curve_laws 5 257 (record sample_profile { dsa_key = some (replicate 900 0) })
      (51 ∷ 52 ∷ []) (replicate 900 0) refl refl (omega arith) refl

abbrev pub sample_keypair : Keypair sample_curve
sample_keypair = record { sym = 5 ∷ []; public = 5; priv = 5 }

pub sample_not_empty :
    (sym msg : Bytes) → is_empty_array (ec_sign_simple sample_curve sample_eddsa sym msg) ≡ false
unfolding is_empty_array ec_sign_simple
sample_not_empty sym msg = refl

client_profile_build-valid_example :
    (p : ClientProfile sample_curve) × (client_profile_build sample_curve sample_eddsa sample_gcrypt
        sample_libotr 0 1000 257
        (52 ∷ [])
        sample_keypair
        6
        500
      ≡ success p)
    × (client_profile_valid sample_curve sample_eddsa sample_gcrypt sample_libotr 1200 p 257
        ≡ success true)
unfolding AreVersions instance_tag_valid serialize_ec_point
client_profile_build-valid_example =
    client_profile_build-valid sample_curve sample_eddsa sample_gcrypt sample_libotr
      sample_curve_laws sample_eddsa_laws sample_not_empty 0 1000 1200 257 500 (52 ∷ [])
      sample_keypair 6 refl refl (inr refl, tt) refl refl (omega arith) (omega arith)

abbrev no_versions : ClientProfile sample_curve
no_versions = record sample_profile {
  versions = none;
  dsa_key = none;
  transitional_signature = none;
}

client_profile_valid-no_versions_example :
    (q : ClientProfile sample_curve) × (client_profile_sign sample_curve sample_eddsa sample_gcrypt
        sample_libotr sample_keypair no_versions
      ≡ success q)
    × (client_profile_valid sample_curve sample_eddsa sample_gcrypt sample_libotr 10 q 257
        ≡ crashed)
unfolding serialize_ec_point client_profile_body_serialize_into client_profile_body_serialize
    client_profile_body_serialize_pre_transitional_signature written_to serialize_uint32
    serialize_uint16 serialize_public_key serialize_forging_key serialize_data serialize_bytes_array
    serialize_uint64 serialize_dsa_key serialize_transitional_signature fields_max_bytes strlen_ns
client_profile_valid-no_versions_example =
    client_profile_valid-no_versions sample_curve sample_eddsa sample_gcrypt sample_libotr
      sample_curve_laws sample_eddsa_laws sample_not_empty 10 no_versions sample_keypair
      (signed_part sample_curve sample_eddsa sample_gcrypt sample_libotr sample_curve_laws
        (record no_versions { long_term_pub_key = 5 }))
      refl refl refl

sample_profile-valid :
    client_profile_valid_without_expiry sample_curve sample_eddsa sample_gcrypt sample_libotr
      sample_profile 257
    ≡ success true
unfolding client_profile_valid_without_expiry client_profile_verify_signature is_empty_array
    client_profile_body_serialize_into client_profile_body_serialize
    client_profile_body_serialize_pre_transitional_signature written_to fields_max_bytes strlen_ns
    serialize_dsa_key serialize_transitional_signature serialize_ec_point serialize_public_key
    serialize_forging_key serialize_uint16 serialize_uint32 serialize_uint64 serialize_bytes_array
    serialize_data serialize_mpi mpi_set dsa_key_of ec_verify check_contents rollback_detected
    verify_transitional_signature verify_transitional verify_with_sexp generate_dsa_key_sexp
    dsa_numbers deserialize_uint16 deserialize_uint32 deserialize_dh_mpi_otr mpi_deserialize_no_copy
    mpi_read_len dh_mpi_deserialize
sample_profile-valid = refl

client_profile_fast_valid-again_example :
    (b : Bool) × (q : ClientProfile sample_curve) × (client_profile_fast_valid sample_curve
        sample_eddsa sample_gcrypt sample_libotr 900 sample_profile 257
      ≡ success (b, q))
    × (client_profile_valid sample_curve sample_eddsa sample_gcrypt sample_libotr 900 sample_profile
          257
        ≡ success b)
    × (client_profile_fast_valid sample_curve sample_eddsa sample_gcrypt sample_libotr 1100 q 257
        ≡ (client_profile_valid sample_curve sample_eddsa sample_gcrypt sample_libotr 1100
              sample_profile 257
            >>= λ v. success (v, q)))
client_profile_fast_valid-again_example =
    client_profile_fast_valid-again sample_curve sample_eddsa sample_gcrypt sample_libotr 900 1100
      257 sample_profile true (omega arith) refl sample_profile-valid
