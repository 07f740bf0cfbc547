-- ===== src/KeyManager/Window.antt =====
-- What a receiving chain promises, without its keys: the number of the next message and the numbers
-- of the messages whose keys are stored.
use libotrv.Prelude.{
  ℕ, ◌+◌, ◌-◌, ◌^◌, ◌≤◌, ◌<◌, ◌≡◌, sym, ap, ◌∙◌, Bool, true, false, ◌&&◌, List, [], ◌∷◌, ◌++◌, ltb,
  leb, ◌==◌, if◌then◌else◌, leb-le, ltb-lt, &&-eq_true,
}
use libotrv.KeyManager.Schedule.{numbers}

pub record Window : Type 0 where
  pub next : ℕ
  pub pending : List ℕ

unfoldable pub member : ℕ → List ℕ → Bool
member n [] = false
member n (x ∷ xs) = let rest = member n xs in if x == n then true else rest

unfoldable pub remove : ℕ → List ℕ → List ℕ
remove n [] = []
remove n (x ∷ xs) = let rest = remove n xs in if x == n then xs else x ∷ rest

-- Message `n` has keys: they are stored, or it is at most `max_skip` ahead, where the counter of the
-- chain does not wrap.
unfoldable pub accepts : ℕ → Window → ℕ → Bool
accepts max_skip w n =
    if member n w.pending
    then true
    else (leb w.next n && (leb n (w.next + max_skip) && ltb (w.next + max_skip + 1) (2 ^ 32)))

unfoldable pub receive : Window → ℕ → Window
receive w n =
    if member n w.pending
    then record w { pending = remove n w.pending }
    else record { next = n + 1; pending = w.pending ++ numbers (n - w.next) w.next }

-- All messages of a sequence have keys when they come.
unfoldable pub accepts_all : ℕ → Window → List ℕ → Bool
accepts_all max_skip w [] = true
accepts_all max_skip w (n ∷ ns) = accepts max_skip w n && accepts_all max_skip (receive w n) ns

unfoldable pub receive_all : Window → List ℕ → Window
receive_all w [] = w
receive_all w (n ∷ ns) = receive_all (receive w n) ns

-- A message that is not stored is accepted within its bounds only.
pub accepts-next :
    (max_skip : ℕ) (w : Window) (n : ℕ)
    → member n w.pending ≡ false
    → accepts max_skip w n ≡ true
    → (w.next ≤ n) × (n ≤ w.next + max_skip) × (w.next + max_skip + 1 < 2 ^ 32)
unfolding accepts
accepts-next max_skip w n absent ok =
    let bounds =
      ap
        (λ (b : Bool).
          if b
          then true
          else (leb w.next n
              && (leb n (w.next + max_skip) && ltb (w.next + max_skip + 1) (2 ^ 32))))
        (sym absent)
      ∙ ok in
    let (low, rest) =
      &&-eq_true (leb w.next n) (leb n (w.next + max_skip) && ltb (w.next + max_skip + 1) (2 ^ 32))
        bounds in
    let (high, fits) =
      &&-eq_true (leb n (w.next + max_skip)) (ltb (w.next + max_skip + 1) (2 ^ 32)) rest in
    (
      leb-le w.next n low,
      leb-le n (w.next + max_skip) high,
      ltb-lt (w.next + max_skip + 1) (2 ^ 32) fits,
    )
