-- ===== src/Run.antt =====
-- `otrng_result` of the functions that change an object through a pointer: what they return, with
-- the object as an error leaves it.
use libotrv.Prelude.{Option, none, some}

-- `error` is OTRNG_ERROR with the object that is left, `crashed` an access through a null
-- pointer or behind the end of a buffer.
pub data Run {ℓ κ} (S : Type ℓ) (A : Type κ) : Type (ℓ ⊔ κ) where
  success : A → Run S A
  error : S → Run S A
  crashed : Run S A

infixl 5 ◌>>=◌
abbrev pub ◌>>=◌ {ℓ κ μ} :
    {S : Type ℓ} {A : Type κ} {B : Type μ} → Run S A → (A → Run S B) → Run S B
success a >>= f = f a
error s >>= f = error s
crashed >>= f = crashed

-- A call of a function that can fail, where an error leaves `s`.
abbrev pub attempt {ℓ κ} : {S : Type ℓ} {A : Type κ} → S → Option A → Run S A
attempt s none = error s
attempt s (some a) = success a

-- A pointer that the called code reads through.
abbrev pub not_null {ℓ κ} : {S : Type ℓ} {A : Type κ} → Option A → Run S A
not_null none = crashed
not_null (some a) = success a

-- A call on a part of the object: `put` puts the part back.
abbrev pub within {ℓ κ} : {S : Type ℓ} {A : Type κ} → (A → S) → Run A A → Run S S
within put (success a) = success (put a)
within put (error a) = error (put a)
within put crashed = crashed
