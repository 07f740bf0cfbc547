-- ===== src/Dake/Tests.antt =====
-- Messages of the key exchange over the sample curve.
use libotrv.Prelude.{◌≡◌, refl, none, some, [], ◌∷◌, ◌++◌, arith, replicate, Bytes}
use libotrv.Run.{success}
use libotrv.Samples.{sample_curve, sample_curve_laws, sample_gcrypt, sample_gcrypt_laws}
use libotrv.Ring.{RingSig}
use libotrv.ClientProfile.Tests.{sample_profile, sample_profile-IsProfile}
use libotrv.Dake.Messages.{
  IdentityMessage, AuthR, NonInteractiveAuth, identity_message_serialize, auth_r_serialize,
  non_interactive_auth_serialize,
}
use libotrv.Dake.Read.{
  identity_message_deserialize, auth_r_deserialize, non_interactive_auth_deserialize,
}
use libotrv.Dake.Exchange.{
  IsIdentity, identity_message_deserialize-serialize, IsAuthR, auth_r_deserialize-serialize,
  IsNonInteractive, non_interactive_auth_deserialize-serialize,
}

abbrev sigma : RingSig sample_curve
sigma = record { c1 = 1; r1 = 2; c2 = 3; r2 = 4; c3 = 5; r3 = 6 }

abbrev identity : IdentityMessage sample_curve sample_gcrypt
identity = record {
  sender_instance_tag = 257;
  receiver_instance_tag = 0;
  profile = sample_profile;
  y = 3;
  b = some (7 ∷ []);
  y_first = 4;
  b_first = none;
}

identity-IsIdentity :
    IsIdentity sample_curve sample_gcrypt sample_curve_laws sample_gcrypt_laws identity
identity-IsIdentity = record {
  sender = omega arith;
  receiver = omega arith;
  profile = sample_profile-IsProfile;
  number = (omega arith, omega arith);
  number_first = tt;
}

identity_message_deserialize-serialize_example :
    (buffer : Bytes) × (identity_message_serialize sample_curve sample_gcrypt identity
      ≡ success buffer)
    × (identity_message_deserialize sample_curve sample_gcrypt 0 (buffer ++ (9 ∷ []))
        ≡ some identity)
identity_message_deserialize-serialize_example =
    identity_message_deserialize-serialize sample_curve sample_gcrypt sample_curve_laws
      sample_gcrypt_laws 0 identity (9 ∷ []) identity-IsIdentity

abbrev auth_r : AuthR sample_curve sample_gcrypt
auth_r = record {
  sender_instance_tag = 257;
  receiver_instance_tag = 4294967295;
  profile = sample_profile;
  x = 3;
  a = some (7 ∷ []);
  x_first = 4;
  a_first = some (8 ∷ []);
  sigma = sigma;
}

auth_r-IsAuthR : IsAuthR sample_curve sample_gcrypt sample_curve_laws sample_gcrypt_laws auth_r
auth_r-IsAuthR = record {
  sender = omega arith;
  receiver = omega arith;
  profile = sample_profile-IsProfile;
  number = (omega arith, omega arith);
  number_first = (omega arith, omega arith);
}

auth_r_deserialize-serialize_example :
    (buffer : Bytes) × (auth_r_serialize sample_curve sample_gcrypt auth_r ≡ success buffer)
    × (auth_r_deserialize sample_curve sample_gcrypt 0 (buffer ++ (9 ∷ [])) ≡ some auth_r)
auth_r_deserialize-serialize_example =
    auth_r_deserialize-serialize sample_curve sample_gcrypt sample_curve_laws sample_gcrypt_laws 0
      auth_r (9 ∷ []) auth_r-IsAuthR

abbrev offline : NonInteractiveAuth sample_curve sample_gcrypt
offline = record {
  sender_instance_tag = 257;
  receiver_instance_tag = 258;
  profile = sample_profile;
  x = 3;
  a = some (7 ∷ []);
  sigma = sigma;
  prekey_message_id = 6;
  auth_mac = replicate 64 5;
}

offline-IsNonInteractive :
    IsNonInteractive sample_curve sample_gcrypt sample_curve_laws sample_gcrypt_laws offline
offline-IsNonInteractive = record {
  sender = omega arith;
  receiver = omega arith;
  profile = sample_profile-IsProfile;
  number = (omega arith, omega arith);
  id = omega arith;
  mac = refl;
}

non_interactive_auth_deserialize-serialize_example :
    (buffer : Bytes) × (non_interactive_auth_serialize sample_curve sample_gcrypt offline
      ≡ success buffer)
    × (non_interactive_auth_deserialize sample_curve sample_gcrypt 0 (buffer ++ (9 ∷ []))
        ≡ some offline)
non_interactive_auth_deserialize-serialize_example =
    non_interactive_auth_deserialize-serialize sample_curve sample_gcrypt sample_curve_laws
      sample_gcrypt_laws 0 offline (9 ∷ []) offline-IsNonInteractive
