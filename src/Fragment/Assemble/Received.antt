-- ===== src/Fragment/Assemble/Received.antt =====
-- The array of fragments of src/fragment.c: how many are there, and when they are the whole message.
use libotrv.Prelude.{
  ℕ, zero, suc, ◌+◌, ◌≤◌, ◌<◌, ◌≡◌, ◌≢◌, refl, sym, ap, Option, none, some, List, [], ◌∷◌, ◌++◌,
  arith, leb-eq_true, length, replicate, length-append, Bytes,
}
use libotrv.DataMessage.Text.{some-injective}
use libotrv.Fragment.Assemble.{fragment_at, put_fragment, join_loop, join_fragments}

-- How many fragments are there, and how many bytes they have.
unfoldable pub count_of : List (Option Bytes) → ℕ
count_of [] = 0
count_of (none ∷ fs) = count_of fs
count_of (some text ∷ fs) = suc (count_of fs)

unfoldable pub len_of : List (Option Bytes) → ℕ
len_of [] = 0
len_of (none ∷ fs) = len_of fs
len_of (some text ∷ fs) = length text + len_of fs

-- The message of the pieces.
unfoldable pub concat : List Bytes → Bytes
concat [] = []
concat (p ∷ ps) = p ++ concat ps

unfoldable pub piece_at : List Bytes → ℕ → Option Bytes
piece_at [] n = none
piece_at (p ∷ ps) zero = some p
piece_at (p ∷ ps) (suc n) = piece_at ps n

-- There is a place for each piece, and what is there is the piece.
unfoldable pub Holds : List (Option Bytes) → List Bytes → Type 0
Holds [] [] = Unit
Holds [] (p ∷ ps) = ⊥
Holds (f ∷ fs) [] = ⊥
Holds (none ∷ fs) (p ∷ ps) = Holds fs ps
Holds (some text ∷ fs) (p ∷ ps) = (text ≡ p) × Holds fs ps

pub Holds-none : (ps : List Bytes) → Holds (replicate (length ps) none) ps
unfolding Holds
Holds-none [] = tt
Holds-none (p ∷ ps) = Holds-none ps

pub count_of-none : (n : ℕ) → count_of (replicate n none) ≡ 0
unfolding count_of
count_of-none zero = refl
count_of-none (suc n) = count_of-none n

pub len_of-none : (n : ℕ) → len_of (replicate n none) ≡ 0
unfolding len_of
len_of-none zero = refl
len_of-none (suc n) = len_of-none n

pub fragment_at-none : (n k : ℕ) → k < n → fragment_at (replicate n none) k ≡ some none
unfolding fragment_at
fragment_at-none zero k h = absurd (omega arith)
fragment_at-none (suc n) zero h = refl
fragment_at-none (suc n) (suc k) h = fragment_at-none n k (omega arith)

pub fragment_at-put_other :
    (k m : ℕ) (text : Bytes) (fs : List (Option Bytes))
    → m ≢ k
    → fragment_at (put_fragment k text fs) m ≡ fragment_at fs m
unfolding fragment_at put_fragment
fragment_at-put_other k m text [] ne = refl
fragment_at-put_other zero zero text (f ∷ fs) ne = absurd (ne refl)
fragment_at-put_other zero (suc m) text (f ∷ fs) ne = refl
fragment_at-put_other (suc k) zero text (f ∷ fs) ne = refl
fragment_at-put_other (suc k) (suc m) text (f ∷ fs) ne =
    fragment_at-put_other k m text fs (λ e. ne (ap suc e))

pub count_of-put :
    (k : ℕ) (text : Bytes) (fs : List (Option Bytes))
    → fragment_at fs k ≡ some none
    → count_of (put_fragment k text fs) ≡ suc (count_of fs)
unfolding fragment_at put_fragment count_of
count_of-put k text [] e = absurd (grind arith)
count_of-put zero text (none ∷ fs) e = refl
count_of-put zero text (some t ∷ fs) e = absurd (grind arith)
count_of-put (suc k) text (none ∷ fs) e = count_of-put k text fs e
count_of-put (suc k) text (some t ∷ fs) e = ap suc (count_of-put k text fs e)

pub len_of-put :
    (k : ℕ) (text : Bytes) (fs : List (Option Bytes))
    → fragment_at fs k ≡ some none
    → len_of (put_fragment k text fs) ≡ len_of fs + length text
unfolding fragment_at put_fragment len_of
len_of-put k text [] e = absurd (grind arith)
len_of-put zero text (none ∷ fs) e = omega arith
len_of-put zero text (some t ∷ fs) e = absurd (grind arith)
len_of-put (suc k) text (none ∷ fs) e = len_of-put k text fs e
len_of-put (suc k) text (some t ∷ fs) e = omega (arith, len_of-put k text fs e)

pub Holds-put :
    (k : ℕ) (text : Bytes) (fs : List (Option Bytes)) (ps : List Bytes)
    → Holds fs ps
    → piece_at ps k ≡ some text
    → fragment_at fs k ≡ some none
    → Holds (put_fragment k text fs) ps
unfolding Holds put_fragment piece_at fragment_at
Holds-put k text [] ps h e a = absurd (grind arith)
Holds-put k text (f ∷ fs) [] h e a = absurd h
Holds-put zero text (none ∷ fs) (p ∷ ps) h e a = (sym (some-injective e), h)
Holds-put zero text (some t ∷ fs) (p ∷ ps) h e a = absurd (grind arith)
Holds-put (suc k) text (none ∷ fs) (p ∷ ps) h e a = Holds-put k text fs ps h e a
Holds-put (suc k) text (some t ∷ fs) (p ∷ ps) h e a = (h.0, Holds-put k text fs ps h.1 e a)

pub len_of-concat :
    (fs : List (Option Bytes)) (ps : List Bytes) → Holds fs ps → len_of fs ≤ length (concat ps)
unfolding Holds len_of concat
len_of-concat [] [] h = omega arith
len_of-concat [] (p ∷ ps) h = absurd h
len_of-concat (f ∷ fs) [] h = absurd h
len_of-concat (none ∷ fs) (p ∷ ps) h =
    omega (arith, len_of-concat fs ps h, length-append p (concat ps))
len_of-concat (some t ∷ fs) (p ∷ ps) h =
    omega (arith, len_of-concat fs ps h.1, ap length h.0, length-append p (concat ps))

count_of-length :
    (fs : List (Option Bytes)) (ps : List Bytes) → Holds fs ps → count_of fs ≤ length ps
unfolding Holds count_of
count_of-length [] [] h = omega arith
count_of-length [] (p ∷ ps) h = absurd h
count_of-length (f ∷ fs) [] h = absurd h
count_of-length (none ∷ fs) (p ∷ ps) h = omega (arith, count_of-length fs ps h)
count_of-length (some t ∷ fs) (p ∷ ps) h = omega (arith, count_of-length fs ps h.1)

join_loop-full :
    (fs : List (Option Bytes)) (ps : List Bytes)
    → Holds fs ps
    → count_of fs ≡ length ps
    → (join_loop fs ≡ some (concat ps)) × (len_of fs ≡ length (concat ps))
unfolding Holds count_of len_of join_loop concat
join_loop-full [] [] h e = (refl, refl)
join_loop-full [] (p ∷ ps) h e = absurd h
join_loop-full (f ∷ fs) [] h e = absurd h
join_loop-full (none ∷ fs) (p ∷ ps) h e = absurd (omega (arith, count_of-length fs ps h))
join_loop-full (some t ∷ fs) (p ∷ ps) h e =
    let (joined, len) = join_loop-full fs ps h.1 (omega arith) in
    (rw (joined, h.0) refl, omega (arith, len, ap length h.0, length-append p (concat ps)))

-- When all fragments are there, they are joined to the message, which fits its buffer.
pub join_fragments-full :
    (fs : List (Option Bytes)) (ps : List Bytes)
    → Holds fs ps
    → count_of fs ≡ length ps
    → join_fragments fs (len_of fs) ≡ some (concat ps)
unfolding join_fragments
join_fragments-full fs ps h e =
    let (joined, len) = join_loop-full fs ps h e in
    rw (joined, leb-eq_true (length (concat ps)) (len_of fs) (omega arith)) refl
