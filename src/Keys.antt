-- ===== src/Keys.antt =====
-- src/keys.c: the long-term key pairs, and the signatures of src/ed448.c. src/instance_tag.c: which
-- instance tags are valid.
use libotrv.Prelude.{
  ℕ, ◌≡◌, refl, sym, Bool, true, false, Option, some, ltb, if◌then◌else◌, Bytes, ◌>>=◌,
}
use libotrv.Crypto.{Goldilocks, Eddsa, EddsaLaws}
use libotrv.Wire.Keys.{ec_point_decode, serialize_ec_point}

-- ED448_SIGNATURE_BYTES
abbrev pub signature_bytes : ℕ
signature_bytes = 114

-- OTRNG_MIN_VALID_INSTAG, which is a constant of libotr.
abbrev pub min_valid_instag : ℕ
min_valid_instag = 256

unfoldable pub instance_tag_valid : ℕ → Bool
instance_tag_valid instance_tag = if ltb instance_tag min_valid_instag then false else true

module _ (g : Goldilocks) where
  open g use {Point, Scalar, derive_secret_scalar, derive_public_key}

  -- `otrng_keypair_s`; `public` is the field `pub`.
  pub record Keypair : Type 0 where
    pub sym : Bytes
    pub public : Point
    pub priv : Scalar

  unfoldable pub keypair_generate : Bytes → Option Keypair
  keypair_generate sym = do
    p ← ec_point_decode g (derive_public_key sym)
    some (record { sym = sym; public = p; priv = derive_secret_scalar sym })

  -- `otrng_shared_prekey_pair_s`
  pub record SharedPrekeyPair : Type 0 where
    pub sym : Bytes
    pub public : Point
    pub priv : Scalar

  unfoldable pub shared_prekey_pair_generate : Bytes → Option SharedPrekeyPair
  shared_prekey_pair_generate sym = do
    p ← ec_point_decode g (derive_public_key sym)
    some (record { sym = sym; public = p; priv = derive_secret_scalar sym })

module _ (g : Goldilocks) (e : Eddsa) where
  unfoldable pub ec_sign_simple : Bytes → Bytes → Bytes
  ec_sign_simple sym msg = e.sign sym (g.derive_public_key sym) msg

  unfoldable pub ec_verify : Bytes → Bytes → Bytes → Bool
  ec_verify sig public msg = if e.verify sig public msg then true else false

module _ (g : Goldilocks) (e : Eddsa) (el : EddsaLaws g e) where
  -- A key pair that was generated has the encoded public key of its symmetric key.
  pub keypair_generate_lem :
      (sym : Bytes)
      → (k : Keypair g) × (keypair_generate g sym ≡ some k)
        × (k.sym ≡ sym)
        × (serialize_ec_point g k.public ≡ g.derive_public_key sym)
  unfolding keypair_generate ec_point_decode serialize_ec_point
  keypair_generate_lem sym =
      let (q, done, same) = el.decode-derive_public_key sym in
      (
        record {
          sym = sym;
          public = g.scalarmul q (g.scalar_halve (g.scalar_halve g.scalar_one));
          priv = g.derive_secret_scalar sym;
        },
        rw done refl,
        refl,
        same,
      )

  pub shared_prekey_pair_generate_lem :
      (sym : Bytes)
      → (k : SharedPrekeyPair g) × (shared_prekey_pair_generate g sym ≡ some k) × (k.sym ≡ sym)
  unfolding shared_prekey_pair_generate ec_point_decode
  shared_prekey_pair_generate_lem sym =
      let (q, done, same) = el.decode-derive_public_key sym in
      (
        record {
          sym = sym;
          public = g.scalarmul q (g.scalar_halve (g.scalar_halve g.scalar_one));
          priv = g.derive_secret_scalar sym;
        },
        rw done refl,
        refl,
      )

  -- What the owner of the symmetric key signs is verified.
  pub ec_verify-ec_sign_simple :
      (sym msg : Bytes)
      → ec_verify g e (ec_sign_simple g e sym msg) (g.derive_public_key sym) msg ≡ true
  unfolding ec_verify ec_sign_simple
  ec_verify-ec_sign_simple sym msg = rw (el.verify-sign sym msg) refl
