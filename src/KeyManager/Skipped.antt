-- ===== src/KeyManager/Skipped.antt =====
-- The list of skipped keys of src/key_management.c stands for the pending numbers of a window.
use mathlib.Core.Bool.{true≢false}
use libotrv.Prelude.{
  ℕ, ◌≡◌, refl, sym, ◌⊎◌, inl, inr, Bool, true, false, ◌&&◌, none, some, List, [], ◌∷◌, ◌++◌, map,
  ◌==◌, if◌then◌else◌, ==-eq, All, Bytes,
}
use libotrv.Crypto.{Goldilocks, Shake, Gcrypt}
use libotrv.Kdf.{ShakeLaws}
use libotrv.KeyManager.State.{SkippedKeys}
use libotrv.KeyManager.Schedule.{skipped_entry}
use libotrv.KeyManager.Chain.{take_skipped}
use libotrv.KeyManager.Window.{member, remove}

absent_cases : (b rest : Bool) → (if b then true else rest) ≡ false → (b ≡ false) × (rest ≡ false)
absent_cases true rest e = absurd (true≢false e)
absent_cases false rest e = (refl, e)

present_cases :
    (b rest : Bool) → (if b then true else rest) ≡ true → (b ≡ true) ⊎ ((b ≡ false) × (rest ≡ true))
present_cases true rest e = inl refl
present_cases false rest e = inr (refl, e)

both_false : (b : Bool) → (b && false) ≡ false
both_false true = refl
both_false false = refl

module _ (g : Goldilocks) (c : Gcrypt) (s : Shake) where
  -- The key is of another ratchet.
  abbrev pub IsOlder : g.Point → SkippedKeys g → Type 0
  IsOlder p x = g.point_eq p x.their_ecdh ≡ false

  -- Keys of other ratchets in front are passed over.
  pub take_skipped-older :
      (p : g.Point) (n : ℕ) (older xs : List (SkippedKeys g))
      → All (IsOlder p) older
      → take_skipped g c s p n xs ≡ none
      → take_skipped g c s p n (older ++ xs) ≡ none
  unfolding take_skipped
  take_skipped-older p n [] xs _ e = e
  take_skipped-older p n (x ∷ older) xs (a, rest) e =
      rw (a, take_skipped-older p n older xs rest e) refl

  pub take_skipped-older_some :
      (p : g.Point) (n : ℕ) (older xs : List (SkippedKeys g)) {found : SkippedKeys g}
      {rest : List (SkippedKeys g)}
      → All (IsOlder p) older
      → take_skipped g c s p n xs ≡ some (found, rest)
      → take_skipped g c s p n (older ++ xs) ≡ some (found, older ++ rest)
  unfolding take_skipped
  take_skipped-older_some p n [] xs _ e = e
  take_skipped-older_some p n (x ∷ older) xs (a, rest) e =
      rw (a, take_skipped-older_some p n older xs rest e) refl

module _ (g : Goldilocks) (c : Gcrypt) (s : Shake) (laws : ShakeLaws s) where
  pub take_skipped-absent :
      (p q : g.Point) (chain : Bytes) (n : ℕ) (ns : List ℕ)
      → member n ns ≡ false
      → take_skipped g c s p n (map (skipped_entry g c s laws q chain) ns) ≡ none
  unfolding take_skipped member
  take_skipped-absent p q chain n [] e = refl
  take_skipped-absent p q chain n (x ∷ ns) e =
      let (other, rest) = absent_cases (x == n) (member n ns) e in
      rw (other, both_false (g.point_eq p q), take_skipped-absent p q chain n ns rest) refl

  pub take_skipped-present :
      (p q : g.Point) (chain : Bytes) (n : ℕ) (ns : List ℕ)
      → g.point_eq p q ≡ true
      → member n ns ≡ true
      → take_skipped g c s p n (map (skipped_entry g c s laws q chain) ns)
        ≡ some (
          skipped_entry g c s laws q chain n,
          map (skipped_entry g c s laws q chain) (remove n ns),
        )
  unfolding take_skipped member remove
  take_skipped-present p q chain n [] same e = absurd (true≢false (sym e))
  take_skipped-present p q chain n (x ∷ ns) same e = elim (present_cases (x == n) (member n ns) e) [
    | inl first ↦ rw (same, first, ==-eq x n first) refl
    | inr (other, rest) ↦ rw (same, other, take_skipped-present p q chain n ns same rest) refl
  ]
