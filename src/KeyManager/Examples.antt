-- ===== src/KeyManager/Examples.antt =====
-- The start of the ratchet and a later brace key, on concrete keys.
use libotrv.Prelude.{◌≡◌, refl, some, [], ◌∷◌, Bytes}
use libotrv.Samples.{sample_curve, sample_gcrypt, sample_shake}
use libotrv.Wire.Keys.{ec_point_decode}
use libotrv.Kdf.{kdf1}
use libotrv.Kdf.Tests.{sample_shake_laws}
use libotrv.Run.{success}
use libotrv.KeyExchange.{
  participant_u, participant_t, DhKeypair, dh_calculate_public_key, keypair_from, dh_shared_secret,
}
use libotrv.KeyExchange.Tests.{sample_exchange_laws}
use libotrv.KeyManager.State.{brace_key_bytes, key_bytes, wiped}
use libotrv.KeyManager.Ratchet.{next_brace_key, ratcheting_init}
use libotrv.KeyManager.Rotation.{
  mixed, new_root, new_chain, enter_new_ratchet_s_lem, next_brace_key-third,
}
use libotrv.KeyManager.Agreement.{enter_new_ratchet_s-brace_key}
use libotrv.KeyManager.Start.{first_sym, first_dh, ratcheting_init-agree}
use libotrv.KeyManager.Tests.{
  SampleManager, empty_manager, alice, bob, ecdh_secret, ecdh_secret_lem,
}

abbrev first_pair : DhKeypair sample_gcrypt sample_shake
first_pair = record {
  public = some (81 ∷ []);
  priv = some (first_dh sample_curve sample_gcrypt sample_shake sample_shake_laws (7 ∷ []));
}

first_point :
    ec_point_decode sample_curve (
      sample_curve.derive_public_key
        (first_sym sample_curve sample_gcrypt sample_shake sample_shake_laws (7 ∷ [])))
    ≡ some 79
unfolding ec_point_decode kdf1
first_point = refl

first_number :
    keypair_from sample_gcrypt sample_shake
      (first_dh sample_curve sample_gcrypt sample_shake sample_shake_laws (7 ∷ []))
    ≡ some first_pair
unfolding keypair_from dh_calculate_public_key kdf1
first_number = refl

ratcheting_init-agree_example :
    (a1 : SampleManager) × (b1 : SampleManager) × (ratcheting_init sample_curve sample_gcrypt
        sample_shake empty_manager participant_u
      ≡ success a1)
    × (ratcheting_init sample_curve sample_gcrypt sample_shake bob participant_t ≡ success b1)
    × (b1.current.root_key ≡ a1.current.root_key)
    × (b1.their_ecdh ≡ a1.our_ecdh.public)
    × (b1.their_dh ≡ a1.our_dh.public)
    × (b1.i ≡ a1.i)
ratcheting_init-agree_example =
    ratcheting_init-agree sample_curve sample_gcrypt sample_shake sample_shake_laws empty_manager
      bob 79 first_pair refl first_point first_number

-- Alice has sent in ratchet 0, and her ratchet is now 1.
abbrev brace_of_alice : Bytes
brace_of_alice = kdf1 sample_shake sample_shake_laws brace_key_bytes 1 (13 ∷ [])

abbrev alice_in_ratchet : SampleManager
alice_in_ratchet = record alice {
  current = record alice.current {
    root_key = new_root sample_curve sample_gcrypt sample_shake sample_shake_laws (1 ∷ []) (
        mixed sample_curve sample_gcrypt sample_shake sample_shake_laws ecdh_secret brace_of_alice);
    chain_s = new_chain sample_curve sample_gcrypt sample_shake sample_shake_laws (1 ∷ []) (
        mixed sample_curve sample_gcrypt sample_shake sample_shake_laws ecdh_secret brace_of_alice);
  };
  shared_secret = wiped key_bytes;
  brace_key = wiped brace_key_bytes;
}

shared_number : dh_shared_secret sample_gcrypt sample_shake (5 ∷ []) (8 ∷ []) ≡ some (13 ∷ [])
unfolding dh_shared_secret
shared_number = refl

brace_of_alice_lem :
    next_brace_key sample_curve sample_gcrypt sample_shake alice alice.their_dh
    ≡ success brace_of_alice
brace_of_alice_lem =
    next_brace_key-third sample_curve sample_gcrypt sample_shake sample_shake_laws alice
      alice.their_dh (5 ∷ []) (8 ∷ []) (13 ∷ []) refl refl refl shared_number

enter_new_ratchet_s-brace_key_example :
    next_brace_key sample_curve sample_gcrypt sample_shake
      (record alice_in_ratchet { i = 1 })
      (some (9 ∷ []))
    ≡ success (kdf1 sample_shake sample_shake_laws brace_key_bytes 2 (wiped brace_key_bytes))
enter_new_ratchet_s-brace_key_example =
    enter_new_ratchet_s-brace_key sample_curve sample_gcrypt sample_shake sample_shake_laws
      sample_exchange_laws alice alice_in_ratchet (record alice_in_ratchet { i = 1 }) ecdh_secret
      brace_of_alice (some (9 ∷ [])) ecdh_secret_lem brace_of_alice_lem
      (enter_new_ratchet_s_lem sample_curve sample_gcrypt sample_shake sample_shake_laws alice
        ecdh_secret brace_of_alice ecdh_secret_lem brace_of_alice_lem)
      refl refl
