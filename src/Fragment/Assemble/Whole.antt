-- ===== src/Fragment/Assemble/Whole.antt =====
-- src/fragment.c: all fragments of a message, one call of `otrng_unfragment_message` for each.
use libotrv.Prelude.{
  ℕ, suc, ◌+◌, ◌-◌, ◌^◌, ◌≤◌, ◌<◌, ◌≡◌, ◌≢◌, refl, sym, ◌∙◌, ◌⊎◌, inl, inr, true, false, not, ◌&&◌,
  Option, none, some, List, [], ◌∷◌, ◌++◌, arith, leb, ◌==◌, ==-self, length, take, drop, replicate,
  All, Bytes, ◌>>=◌, ◌>>◌, require,
}
use libotrv.Fragment.Expire.{FragmentContext}
use libotrv.Fragment.Assemble.{
  Scanf, initialize_fragment_context, is_fragment_generic, find_context, fragment_at, put_fragment,
  receive_fragment, look_up_context, add_fragment, unfragment_message_generic, unfragment_message,
}
use libotrv.Fragment.Assemble.Received.{
  count_of, len_of, concat, piece_at, Holds, Holds-none, count_of-none, fragment_at-none,
  fragment_at-put_other, count_of-put, len_of-put, Holds-put, len_of-concat,
}
use libotrv.Fragment.Assemble.Order.{
  scanned, context_of, find_context-last, Waiting, Waiting-new, Waiting-context_of,
  receive_fragment-adds, add_fragment-kept, add_fragment-whole,
}

-- No number twice.
unfoldable pub Distinct : List ℕ → Type 0
Distinct [] = Unit
Distinct (i ∷ is) = All (λ j. i ≢ j) is × Distinct is

-- `msg` is read as the fragment `i` of `t`, for us or for every instance, and carries `text`.
pub record IsFragment (c : Scanf) (ours identifier t i : ℕ) (text msg : Bytes) : Type 0 where
  pub sender : ℕ
  pub receiver : ℕ
  pub start : ℕ
  pub past : ℕ
  pub begins : is_fragment_generic msg (63 ∷ 79 ∷ 84 ∷ 82 ∷ 124 ∷ []) ≡ true
  pub read : c.scan msg ≡ some (scanned identifier sender receiver i t start past)
  pub for_us : (receiver ≡ ours) ⊎ (receiver ≡ 0)
  pub ordered : start < past
  pub cut : take (past - start - 1) (drop start msg) ≡ text

addressed :
    (ours receiver : ℕ)
    → (receiver ≡ ours) ⊎ (receiver ≡ 0)
    → (not (ours == receiver) && not (0 == receiver)) ≡ false
addressed ours receiver (inl e) = rw (e, ==-self ours) refl
addressed ours receiver (inr e) = grind (arith, e, ==-self 0)

module _ (c : Scanf) where
  unfragment_message-look_up :
      (now ours identifier t i : ℕ) (text msg : Bytes) (contexts : List (Option FragmentContext))
      (f : IsFragment c ours identifier t i text msg)
      → unfragment_message c now contexts msg ours
        ≡ look_up_context now msg
            (scanned identifier f.sender f.receiver i t f.start f.past)
            contexts
  unfolding unfragment_message unfragment_message_generic
  unfragment_message-look_up now ours identifier t i text msg contexts f =
      let later : leb f.past f.start ≡ false = ground (arith, f.ordered) in
      rw (f.begins, f.read) (rw (addressed ours f.receiver f.for_us, later) refl)

  -- The calls for the fragments `is` in this order, each at its time: what they give, and the
  -- contexts behind them; `none` is a call that fails.
  unfoldable pub unfragment_messages :
      (ℕ → ℕ)
      → (ℕ → Bytes)
      → ℕ
      → List ℕ
      → List (Option FragmentContext)
      → Option (List (Option Bytes) × List (Option FragmentContext))
  unfragment_messages clock fragment ours [] contexts = some ([], contexts)
  unfragment_messages clock fragment ours (i ∷ is) contexts = do
    r ← unfragment_message c (clock i) contexts (fragment i) ours
    require r.succeeded
    (messages, left) ← unfragment_messages clock fragment ours is r.contexts
    some (r.message ∷ messages, left)

-- What each of the fragments that are left finds in the array.
abbrev Free : ℕ → List (Option Bytes) → ℕ → Type 0
Free t fs i = (0 < i) × (i ≤ t) × (fragment_at fs (i - 1) ≡ some none)

Free-put :
    (t i : ℕ) (text : Bytes) (fs : List (Option Bytes)) (is : List ℕ)
    → 0 < i
    → All (λ j. i ≢ j) is
    → All (Free t fs) is
    → All (Free t (put_fragment (i - 1) text fs)) is
Free-put t i text fs [] pos others free = tt
Free-put t i text fs (j ∷ is) pos (ne, others) ((pos_j, le, at), free) = (
  (pos_j, le, fragment_at-put_other (i - 1) (j - 1) text fs (λ e. ne (omega arith)) ∙ at),
  Free-put t i text fs is pos others free,
)

module _ (c : Scanf) (ours identifier t : ℕ) (clock : ℕ → ℕ) (fragment : ℕ → Bytes)
    (ps : List Bytes) (pieces : length ps ≡ t) (small : t < 2 ^ 16)
    (sized : length (concat ps) < 2 ^ 64)
    (given : (i : ℕ)
      → 0 < i
      → i ≤ t
      → (text : Bytes) × (piece_at ps (i - 1) ≡ some text)
        × IsFragment c ours identifier t i text (fragment i))
    (contexts : List (Option FragmentContext))
    (unknown : find_context identifier contexts ≡ none) where
  -- How the contexts `before` a call lead to `ctx`, made for the message or found there.
  abbrev LeadsTo : FragmentContext → List (Option FragmentContext) → Type 0
  LeadsTo ctx before =
      (now i sender receiver start past : ℕ) (msg : Bytes)
      → look_up_context now msg (scanned identifier sender receiver i t start past) before
        ≡ receive_fragment now msg (scanned identifier sender receiver i t start past) ctx
            (contexts ++ (some ctx ∷ []))

  LeadsTo-new : LeadsTo (record initialize_fragment_context { identifier = identifier }) contexts
  unfolding look_up_context
  LeadsTo-new now i sender receiver start past msg = rw (look_up_context, unknown) refl

  LeadsTo-found :
      (ctx : FragmentContext)
      → ctx.identifier ≡ identifier
      → LeadsTo ctx (contexts ++ (some ctx ∷ []))
  unfolding look_up_context
  LeadsTo-found ctx own now i sender receiver start past msg =
      rw (look_up_context, find_context-last identifier ctx own contexts unknown) refl

  arrives :
      (i : ℕ) (text : Bytes) (ctx : FragmentContext) (fs : List (Option Bytes))
      (before : List (Option FragmentContext))
      (f : IsFragment c ours identifier t i text (fragment i))
      → Waiting identifier t ctx fs
      → LeadsTo ctx before
      → Free t fs i
      → unfragment_message c (clock i) before (fragment i) ours
        ≡ add_fragment
            (clock i)
            (scanned identifier f.sender f.receiver i t f.start f.past)
            text
            fs
            ctx
            (contexts ++ (some ctx ∷ []))
  arrives i text ctx fs before f w found (pos, le, at) =
      unfragment_message-look_up c (clock i) ours identifier t i text (fragment i) before f
      ∙ found (clock i) i f.sender f.receiver f.start f.past (fragment i)
      ∙ receive_fragment-adds identifier t (clock i) i f.sender f.receiver f.start f.past
          (fragment i) text ctx fs (contexts ++ (some ctx ∷ [])) w at pos le f.cut

  fits :
      (i : ℕ) (text : Bytes) (fs : List (Option Bytes))
      → Holds (put_fragment (i - 1) text fs) ps
      → fragment_at fs (i - 1) ≡ some none
      → len_of fs + length text < 2 ^ 64
  fits i text fs held at =
      omega
        (arith, len_of-put (i - 1) text fs at, len_of-concat (put_fragment (i - 1) text fs) ps held)

  collect :
      (i : ℕ) (is : List ℕ) (ctx : FragmentContext) (fs : List (Option Bytes))
      (before : List (Option FragmentContext))
      → Waiting identifier t ctx fs
      → LeadsTo ctx before
      → Holds fs ps
      → All (Free t fs) (i ∷ is)
      → Distinct (i ∷ is)
      → count_of fs + suc (length is) ≡ t
      → unfragment_messages c clock fragment ours (i ∷ is) before
        ≡ some (replicate (length is) none ++ (some (concat ps) ∷ []), contexts)
  unfolding unfragment_messages Distinct
  collect i [] ctx fs before w found held (free, rest) distinct counted =
      let (text, piece, f) = given i free.0 free.1 in
      let held1 = Holds-put (i - 1) text fs ps held piece free.2 in
      rw
        (arrives i text ctx fs before f w found free
          ∙ add_fragment-whole identifier t contexts unknown (clock i) i f.sender f.receiver f.start
              f.past text ctx fs ps w free.2 small (omega arith) (fits i text fs held1 free.2)
              pieces held1)
        refl
  collect i (j ∷ is) ctx fs before w found held (free, rest) (others, distinct) counted =
      let (text, piece, f) = given i free.0 free.1 in
      let fs1 : List (Option Bytes) = put_fragment (i - 1) text fs in
      let held1 = Holds-put (i - 1) text fs ps held piece free.2 in
      let ctx1 : FragmentContext = context_of identifier t (clock i) fs1 in
      rw
        (arrives i text ctx fs before f w found free
          ∙ add_fragment-kept identifier t contexts unknown (clock i) i f.sender f.receiver f.start
              f.past text ctx fs w free.2 small (omega arith) (fits i text fs held1 free.2))
        (rw
          (collect j is ctx1 fs1 (contexts ++ (some ctx1 ∷ []))
            (Waiting-context_of identifier t (clock i) fs1)
            (LeadsTo-found ctx1 (Waiting-context_of identifier t (clock i) fs1).own) held1
            (Free-put t i text fs (j ∷ is) free.0 others rest) distinct
            (omega (arith, count_of-put (i - 1) text fs free.2)))
          refl)

  Free-none : (is : List ℕ) → All (λ i. (0 < i) × (i ≤ t)) is → All (Free t (replicate t none)) is
  Free-none [] h = tt
  Free-none (i ∷ is) ((pos, le), h) =
      ((pos, le, fragment_at-none t (i - 1) (omega arith)), Free-none is h)

  -- The fragments of a message, each received once and in any order, by an instance that has no
  -- context with their identifier: no call fails, all but the last give no message, the last gives
  -- the message of the pieces in order, and the contexts are then what they were.
  pub unfragment_messages_lem :
      (i : ℕ) (is : List ℕ)
      → All (λ j. (0 < j) × (j ≤ t)) (i ∷ is)
      → Distinct (i ∷ is)
      → length (i ∷ is) ≡ t
      → unfragment_messages c clock fragment ours (i ∷ is) contexts
        ≡ some (replicate (length is) none ++ (some (concat ps) ∷ []), contexts)
  unfragment_messages_lem i is range distinct all =
      collect i is (record initialize_fragment_context { identifier = identifier })
        (replicate t none) contexts (Waiting-new identifier t) LeadsTo-new
        (rw (sym pieces) (Holds-none ps)) (Free-none (i ∷ is) range) distinct
        (omega (arith, count_of-none t, all))
