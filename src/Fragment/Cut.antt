-- ===== src/Fragment/Cut.antt =====
-- The pieces of a message together are the message.
use libotrv.Prelude.{
  ℕ, zero, suc, ◌+◌, ◌-◌, ◌*◌, ◌/◌, ◌%◌, ◌^◌, ◌≤◌, ◌<◌, ◌≡◌, refl, sym, ap, ◌∙◌, some, List, [],
  ◌∷◌, ◌++◌, arith, ltb, if◌then◌else◌, ltb-eq_false, length, take, drop, All, length-append,
  length-drop, length-take, take_prefix, take_whole, drop_prefix, Bytes,
}
use native.Mathlib.Nat.{suc-mul, lt-div-mul-add, mod-eq_of_lt, div-lt_iff_lt-mul}
use libotrv.Fragment.{
  fragment_header_len, Printf, PrintfLaws, create_fragment_message, fragment_loop, fragment_message,
}

-- The piece of a fragment, and the pieces of all.
unfoldable pub piece_of : Bytes → Bytes
piece_of f = take (length f - fragment_header_len) (drop 44 f)

unfoldable pub joined : List Bytes → Bytes
joined [] = []
joined (f ∷ fs) = piece_of f ++ joined fs

split_at : (n : ℕ) (xs : Bytes) → take n xs ++ drop n xs ≡ xs
split_at zero xs = refl
split_at (suc n) [] = refl
split_at (suc n) (x ∷ xs) = ap (λ ys. x ∷ ys) (split_at n xs)

-- Numbers that the format has room for.
pub record AreTags (identifier ours theirs : ℕ) : Type 0 where
  pub identifier_small : identifier < 2 ^ 32
  pub ours_small : ours < 2 ^ 32
  pub theirs_small : theirs < 2 ^ 32

module _ (c : Printf) (laws : PrintfLaws c) where
  framed : ℕ → ℕ → ℕ → ℕ → ℕ → Bytes → Bytes
  framed identifier ours theirs current total piece =
      laws.prefix identifier ours theirs current total ++ (piece ++ (44 ∷ []))

  length-framed :
      (identifier ours theirs current total : ℕ) (piece : Bytes)
      → AreTags identifier ours theirs
      → current < 2 ^ 16
      → total < 2 ^ 16
      → length (framed identifier ours theirs current total piece) ≡ 45 + length piece
  unfolding framed
  length-framed identifier ours theirs current total piece t lc lt = omega (
    arith,
    laws.length-prefix identifier ours theirs current total t.identifier_small t.ours_small
        t.theirs_small lc lt,
    length-append (laws.prefix identifier ours theirs current total) (piece ++ (44 ∷ [])),
    length-append piece (44 ∷ []),
  )

  piece_of-framed :
      (identifier ours theirs current total : ℕ) (piece : Bytes)
      → AreTags identifier ours theirs
      → current < 2 ^ 16
      → total < 2 ^ 16
      → piece_of (framed identifier ours theirs current total piece) ≡ piece
  unfolding piece_of framed
  piece_of-framed identifier ours theirs current total piece t lc lt =
      let front = laws.prefix identifier ours theirs current total in
      rw
        (
          length-framed identifier ours theirs current total piece t lc lt,
          drop_prefix {A = ℕ} 44 front (piece ++ (44 ∷ [])) (
              sym (
                laws.length-prefix identifier ours theirs current total t.identifier_small
                  t.ours_small t.theirs_small lc lt)),
        )
        (take_prefix {A = ℕ} (45 + length piece - 45) piece (44 ∷ []) (omega arith))

  create_fragment_message_lem :
      (msg : Bytes) (p identifier ours theirs current total : ℕ)
      → p ≤ length msg
      → AreTags identifier ours theirs
      → current < 2 ^ 16
      → total < 2 ^ 16
      → create_fragment_message c msg p identifier ours theirs current total
        ≡ some (framed identifier ours theirs current total (take p msg))
  unfolding create_fragment_message framed
  create_fragment_message_lem msg p identifier ours theirs current total h t lc lt =
      rw
        (
          ltb-eq_false (length msg) p h,
          laws.print_prefix identifier ours theirs current total (take p msg),
        )
        (rw
          (take_whole (45 + p)
            (laws.prefix identifier ours theirs current total ++ (take p msg ++ (44 ∷ [])))
            (omega (
              arith,
              length-take p msg h,
              length-framed identifier ours theirs current total (take p msg) t lc lt,
            )))
          refl)

  -- What the loop makes of `msg`: `left` fragments, none too long, whose pieces are `msg`.
  pub CutInto : Bytes → ℕ → ℕ → List Bytes → Type 0
  CutInto msg left limit fs =
      (joined fs ≡ msg) × All (λ f. length f ≤ limit + fragment_header_len) fs × (length fs ≡ left)

  fragment_loop_lem :
      (left i total limit identifier ours theirs : ℕ) (msg : Bytes)
      → length msg ≤ left * limit
      → i + left ≡ total
      → total < 2 ^ 16
      → AreTags identifier ours theirs
      → (fs : List Bytes) × (fragment_loop c left i total limit identifier ours theirs msg
          ≡ some fs)
        × CutInto msg left limit fs
  unfolding fragment_loop joined CutInto
  fragment_loop_lem zero i total limit identifier ours theirs [] h e lt t =
      ([], refl, (refl, tt, refl))
  fragment_loop_lem zero i total limit identifier ours theirs (b ∷ msg) h e lt t =
      absurd (omega arith)
  fragment_loop_lem (suc left) i total limit identifier ours theirs msg h e lt t =
      let p : ℕ = if ltb (length msg) limit then length msg else limit in
      let shorter : p ≤ length msg = ground arith in
      let fits : p ≤ limit = ground arith in
      let rest : length (drop p msg) ≤ left * limit =
        ground (arith, length-drop p msg, suc-mul left limit) in
      let (fs, done, cut) =
        fragment_loop_lem left (i + 1) total limit identifier ours theirs (drop p msg) rest
          (omega arith) lt t in
      let dst = framed identifier ours theirs (i + 1) total (take p msg) in
      (
        dst ∷ fs,
        rw
            (
              create_fragment_message_lem msg p identifier ours theirs (i + 1) total shorter t
                  (omega arith) lt,
              done,
            )
            refl,
        (
          ap (λ b. b ++ joined fs)
                (piece_of-framed identifier ours theirs (i + 1) total (take p msg) t (omega arith)
                  lt)
              ∙ ap (λ b. take p msg ++ b) cut.0
              ∙ split_at p msg,
          (
            omega (
              arith,
              length-framed identifier ours theirs (i + 1) total (take p msg) t (omega arith) lt,
              length-take p msg shorter,
            ),
            cut.1,
          ),
          ap suc cut.2,
        ),
      )

  wrapped_lem : (n : ℕ) → 0 < n → n < 2 ^ 63 → (n + (2 ^ 64 - 1)) % 2 ^ 64 ≡ n - 1
  wrapped_lem n h lt = omega arith

  few_lem : (n limit : ℕ) → 0 < n → 0 < limit → n ≤ 65535 * limit → (n - 1) / limit < 65535
  few_lem n limit h pos le = (div-lt_iff_lt-mul {x = n - 1} {y = 65535} pos).1 (omega arith)

  -- A message that is not empty and that fits in 65535 fragments is cut into fragments, none longer
  -- than `max_size`, whose pieces together are the message, in order.
  pub fragment_message_lem :
      (max_size identifier ours theirs : ℕ) (msg : Bytes)
      → 45 < max_size
      → max_size < 2 ^ 31
      → 0 < length msg
      → length msg ≤ 65535 * (max_size - 45)
      → AreTags identifier ours theirs
      → (fs : List Bytes) × (fragment_message c max_size identifier ours theirs msg ≡ some fs)
        × CutInto msg ((length msg - 1) / (max_size - 45) + 1) (max_size - 45) fs
  unfolding fragment_message
  fragment_message_lem max_size identifier ours theirs msg large small some_text le t =
      let limit : ℕ = max_size - 45 in
      let q : ℕ = (length msg - 1) / limit in
      let pos : 0 < limit = omega arith in
      let few : q < 65535 = few_lem (length msg) limit some_text pos le in
      let (fs, done, cut) =
        fragment_loop_lem (q + 1) 0 (q + 1) limit identifier ours theirs msg
          (omega (arith, suc-mul q limit, lt-div-mul-add {a = length msg - 1} pos)) (omega arith)
          (omega arith) t in
      (
        fs,
        rw
            (
              wrapped_lem (length msg) some_text (omega arith),
              mod-eq_of_lt {n = q + 1} {m = 2 ^ 32} (omega arith),
              ltb-eq_false (q + 1) 1 (omega arith),
              ltb-eq_false 65535 (q + 1) (omega arith),
            )
            done,
        cut,
      )
