-- ===== src/ClientProfile/Cached.antt =====
-- src/client_profile.c: the stored answer of `otrng_client_profile_fast_valid`.
use libotrv.Prelude.{
  ℕ, ◌≤◌, ◌≡◌, refl, inl, inr, Bool, true, false, not, ◌&&◌, arith, if◌then◌else◌, Bool-cases,
}
use libotrv.Crypto.{Goldilocks, Gcrypt, Eddsa, Libotr}
use libotrv.Run.{success, ◌>>=◌}
use libotrv.ClientProfile.{ClientProfile}
use libotrv.ClientProfile.Validity.{
  client_profile_expired, client_profile_valid_without_expiry, client_profile_valid,
  client_profile_fast_valid,
}

client_profile_expired-later :
    (now later expires : ℕ)
    → now ≤ later
    → client_profile_expired now expires ≡ true
    → client_profile_expired later expires ≡ true
unfolding client_profile_expired
client_profile_expired-later now later expires le h = ground (arith, le, h)

-- An answer at `now` that is asked again later.
again :
    (now later expires : ℕ) (w : Bool)
    → now ≤ later
    → ((if not w then false else not (client_profile_expired now expires))
        && not (client_profile_expired later expires))
      ≡ (if not w then false else not (client_profile_expired later expires))
again now later expires false le = refl
again now later expires true le = elim (Bool-cases (client_profile_expired now expires)) [
  | inl old ↦ rw (old, client_profile_expired-later now later expires le old) refl
  | inr fresh ↦ rw fresh refl
]

module _ (g : Goldilocks) (e : Eddsa) (c : Gcrypt) (o : Libotr c) where
  -- What the answer of `client_profile_valid` is, where the rest of the check gives `w`.
  valid_of :
      (now tag : ℕ) (p : ClientProfile g) (w : Bool)
      → client_profile_valid_without_expiry g e c o p tag ≡ success w
      → client_profile_valid g e c o now p tag
        ≡ success (if not w then false else not (client_profile_expired now p.expires))
  unfolding client_profile_valid
  valid_of now tag p true h = rw h refl
  valid_of now tag p false h = rw h refl

  -- For a profile that was not checked before and whose check without the expiry ends, the first call
  -- answers what the full check answers, and a later call with the same instance tag what the full
  -- check would answer then.
  pub client_profile_fast_valid-again :
      (now later tag : ℕ) (p : ClientProfile g) (w : Bool)
      → now ≤ later
      → p.has_validated ≡ false
      → client_profile_valid_without_expiry g e c o p tag ≡ success w
      → (b : Bool) × (q : ClientProfile g) × (client_profile_fast_valid g e c o now p tag
          ≡ success (b, q))
        × (client_profile_valid g e c o now p tag ≡ success b)
        × (client_profile_fast_valid g e c o later q tag
            ≡ (client_profile_valid g e c o later p tag >>= λ v. success (v, q)))
  unfolding client_profile_fast_valid
  client_profile_fast_valid-again now later tag p w le fresh h =
      let b : Bool = if not w then false else not (client_profile_expired now p.expires) in
      let q : ClientProfile g = record p { validation_result = b; has_validated = true } in
      (
        b,
        q,
        rw (valid_of now tag p w h) (rw fresh refl),
        valid_of now tag p w h,
        rw (valid_of later tag p w h, again now later p.expires w le) refl,
      )
