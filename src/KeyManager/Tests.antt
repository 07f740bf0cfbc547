-- ===== src/KeyManager/Tests.antt =====
-- Two sides of a conversation, on concrete keys.
use libotrv.Prelude.{
  ◌≡◌, refl, ap, ◌≢◌, true, false, not, none, some, [], ◌∷◌, arith, replicate, Bytes,
}
use libotrv.Crypto.{point_bytes}
use libotrv.Samples.{first_byte, sample_curve, sample_gcrypt, sample_shake}
use libotrv.Wire.Keys.{ec_point_encode, ec_point_decode}
use libotrv.Kdf.Tests.{sample_shake_laws}
use libotrv.Run.{success}
use libotrv.KeyExchange.{
  is_empty_array, ecdh_valid_secret, ecdh_shared_secret, DhKeypair, dh_calculate_public_key,
  dh_shared_secret,
}
use libotrv.KeyExchange.Agreement.{IsEcdhPair}
use libotrv.KeyExchange.Tests.{sample_exchange_laws}
use libotrv.KeyManager.Ratchet.{
  Manager, Receiving, enter_new_ratchet_s, enter_new_ratchet_r, generate_shared_secret,
}
use libotrv.KeyManager.Agreement.{IsDhPair, AreInStep, enter_new_ratchet-agree}
use libotrv.KeyManager.Session.{HaveMet, generate_shared_secret-agree}

abbrev pub SampleManager : Type 0
SampleManager = Manager sample_curve sample_gcrypt sample_shake

abbrev pub no_pair : DhKeypair sample_gcrypt sample_shake
no_pair = record { public = none; priv = none }

abbrev pub empty_manager : SampleManager
empty_manager = record {
  our_ecdh = record { public = 0; priv = 0 };
  our_dh = no_pair;
  our_ecdh_first = record { public = 0; priv = 0 };
  our_dh_first = no_pair;
  their_ecdh = 0;
  their_dh = none;
  their_first_ecdh = 0;
  their_first_dh = none;
  our_shared_prekey = 0;
  their_shared_prekey = 0;
  i = 0;
  j = 0;
  k = 0;
  pn = 0;
  current = record { root_key = 1 ∷ []; chain_s = 2 ∷ []; chain_r = 3 ∷ [] };
  brace_key = [];
  shared_secret = 7 ∷ [];
  ssid = [];
  ssid_half_first = false;
  extra_symmetric_key = [];
  tmp_key = [];
  skipped_keys = [];
  old_mac_keys = [];
  last_generated = 0;
}

abbrev pub alice : SampleManager
alice = record empty_manager {
  our_ecdh = record { public = 3; priv = 3 };
  our_dh = record { public = some (7 ∷ []); priv = some (5 ∷ []) };
  their_ecdh = 4;
  their_dh = some (8 ∷ []);
}

abbrev pub bob : SampleManager
bob = record empty_manager {
  our_ecdh = record { public = 4; priv = 4 };
  our_dh = record { public = some (8 ∷ []); priv = some (6 ∷ []) };
  their_ecdh = 3;
  their_dh = some (7 ∷ []);
}

abbrev pub ecdh_secret : Bytes
ecdh_secret = 12 ∷ replicate 56 0

pub ecdh_secret_lem : ecdh_shared_secret sample_curve point_bytes 3 4 ≡ some ecdh_secret
unfolding ecdh_shared_secret ecdh_valid_secret is_empty_array ec_point_encode
ecdh_secret_lem = refl

dh_secret_lem :
    dh_shared_secret sample_gcrypt sample_shake
      (5 ∷ [])
      (dh_calculate_public_key sample_gcrypt sample_shake (6 ∷ []))
    ≡ some (13 ∷ [])
unfolding dh_shared_secret dh_calculate_public_key
dh_secret_lem = refl

alice-IsEcdhPair :
    IsEcdhPair sample_curve sample_gcrypt sample_shake sample_exchange_laws (3 ∷ []) alice.our_ecdh
unfolding ec_point_decode
alice-IsEcdhPair = record { secret = refl; point = refl }

bob-IsEcdhPair :
    IsEcdhPair sample_curve sample_gcrypt sample_shake sample_exchange_laws (4 ∷ []) bob.our_ecdh
unfolding ec_point_decode
bob-IsEcdhPair = record { secret = refl; point = refl }

alice-IsDhPair :
    IsDhPair sample_curve sample_gcrypt sample_shake sample_shake_laws sample_exchange_laws
      (5 ∷ [])
      alice.our_dh
unfolding dh_calculate_public_key
alice-IsDhPair = record { known = refl; made = refl }

bob-IsDhPair :
    IsDhPair sample_curve sample_gcrypt sample_shake sample_shake_laws sample_exchange_laws
      (6 ∷ [])
      bob.our_dh
unfolding dh_calculate_public_key
bob-IsDhPair = record { known = refl; made = refl }

have_met :
    HaveMet sample_curve sample_gcrypt sample_shake sample_shake_laws sample_exchange_laws
      (3 ∷ [])
      (4 ∷ [])
      (5 ∷ [])
      (6 ∷ [])
      alice
      bob
have_met = record {
  our_pair = alice-IsEcdhPair;
  their_pair = bob-IsEcdhPair;
  our_dh_pair = alice-IsDhPair;
  their_dh_pair = bob-IsDhPair;
  their_point = refl;
  our_point = refl;
  their_number = refl;
  our_number = refl;
  our_start = refl;
  their_start = refl;
}

numbers_differ :
    dh_calculate_public_key sample_gcrypt sample_shake (5 ∷ [])
    ≢ dh_calculate_public_key sample_gcrypt sample_shake (6 ∷ [])
unfolding dh_calculate_public_key
numbers_differ e =
    let same : 7 ≡ 8 = ap (λ (b : Bytes). first_byte b) e in absurd (omega (arith, same))

generate_shared_secret-agree_example :
    (a1 : SampleManager) × (b1 : SampleManager) × (generate_shared_secret sample_curve sample_gcrypt
        sample_shake alice true
      ≡ success a1)
    × (generate_shared_secret sample_curve sample_gcrypt sample_shake bob true ≡ success b1)
    × (a1.shared_secret ≡ b1.shared_secret)
    × (a1.ssid ≡ b1.ssid)
    × (a1.ssid_half_first ≡ not b1.ssid_half_first)
generate_shared_secret-agree_example =
    generate_shared_secret-agree sample_curve sample_gcrypt sample_shake sample_shake_laws
      sample_exchange_laws (3 ∷ []) (4 ∷ []) (5 ∷ []) (6 ∷ []) alice bob ecdh_secret (13 ∷ [])
      have_met ecdh_secret_lem dh_secret_lem numbers_differ

-- The ratchet of a message of Alice's that Bob reads.
abbrev message_of_alice : Receiving sample_curve sample_gcrypt sample_shake
message_of_alice = record {
  our_ecdh_priv = 4;
  our_dh_priv = none;
  their_ecdh = 3;
  their_dh = some (7 ∷ []);
  brace_key = [];
  shared_secret = [];
  i = 0;
  k = 0;
  j = 0;
  pn = 0;
  root_key = 1 ∷ [];
  chain_r = 3 ∷ [];
  extra_symmetric_key = [];
  skipped_keys = [];
}

in_step :
    AreInStep sample_curve sample_gcrypt sample_shake sample_shake_laws sample_exchange_laws
      (3 ∷ [])
      (4 ∷ [])
      (5 ∷ [])
      (6 ∷ [])
      alice
      bob
      message_of_alice
in_step = record {
  number = refl;
  root = refl;
  brace = refl;
  our_pair = alice-IsEcdhPair;
  their_pair = bob-IsEcdhPair;
  our_dh_pair = alice-IsDhPair;
  their_dh_pair = bob-IsDhPair;
  their_point = refl;
  our_point = refl;
  their_number = refl;
  our_number = refl;
}

enter_new_ratchet-agree_example :
    (a1 : SampleManager) × (tmp1 : Receiving sample_curve sample_gcrypt sample_shake)
    × (enter_new_ratchet_s sample_curve sample_gcrypt sample_shake alice ≡ success a1)
    × (enter_new_ratchet_r sample_curve sample_gcrypt sample_shake bob message_of_alice
        ≡ success tmp1)
    × (tmp1.root_key ≡ a1.current.root_key)
    × (tmp1.chain_r ≡ a1.current.chain_s)
enter_new_ratchet-agree_example =
    enter_new_ratchet-agree sample_curve sample_gcrypt sample_shake sample_shake_laws
      sample_exchange_laws (3 ∷ []) (4 ∷ []) (5 ∷ []) (6 ∷ []) alice bob message_of_alice
      ecdh_secret (13 ∷ []) in_step ecdh_secret_lem dh_secret_lem
