-- ===== src/Fragment/Assemble/Order.antt =====
-- src/fragment.c: the fragments of a message, put together in the order in which they arrive.
use libotrv.Prelude.{
  ℕ, suc, ◌+◌, ◌-◌, ◌^◌, ◌≤◌, ◌<◌, ◌≡◌, refl, sym, ap, ◌∙◌, ◌⊎◌, inl, inr, true, false, not, ◌&&◌,
  Option, none, some, List, [], ◌∷◌, ◌++◌, arith, ◌==◌, ltb-eq_false, ==-self, ==-ne, length, take,
  drop, replicate, Bytes,
}
use native.Mathlib.Nat.{mod-eq_of_lt}
use libotrv.Fragment.Expire.{FragmentContext}
use libotrv.Fragment.Assemble.{
  Scanned, initialize_fragment_context, find_context, replace_context, remove_context, fragment_at,
  put_fragment, initialize_fragments, copy_fragment_to_context, receive_fragment, add_fragment,
  store_fragment,
}
use libotrv.Fragment.Assemble.Received.{
  count_of, len_of, concat, Holds, count_of-none, len_of-none, count_of-put, len_of-put,
  join_fragments-full,
}

-- The context of `identifier` that has received `fs`, at the time `now`, of `t` fragments.
unfoldable pub context_of : ℕ → ℕ → ℕ → List (Option Bytes) → FragmentContext
context_of identifier t now fs = record {
  identifier = identifier;
  total = t;
  count = count_of fs;
  total_message_len = len_of fs;
  last_fragment_received_at = now;
  fragments = some fs;
}

module _ (identifier : ℕ) (ctx : FragmentContext) (own : ctx.identifier ≡ identifier) where
  pub find_context-last :
      (contexts : List (Option FragmentContext))
      → find_context identifier contexts ≡ none
      → find_context identifier (contexts ++ (some ctx ∷ [])) ≡ some ctx
  unfolding find_context
  find_context-last [] h = rw (own, ==-self identifier) refl
  find_context-last (none ∷ contexts) h = find_context-last contexts h
  find_context-last (some d ∷ contexts) h = grind (arith, find_context-last contexts)

  replace_context-last :
      (new : FragmentContext) (contexts : List (Option FragmentContext))
      → find_context identifier contexts ≡ none
      → replace_context identifier new (contexts ++ (some ctx ∷ [])) ≡ contexts ++ (some new ∷ [])
  unfolding find_context replace_context
  replace_context-last new [] h = rw (own, ==-self identifier) refl
  replace_context-last new (none ∷ contexts) h =
      ap (λ l. none ∷ l) (replace_context-last new contexts h)
  replace_context-last new (some d ∷ contexts) h = grind (arith, replace_context-last new contexts)

  remove_context-last :
      (contexts : List (Option FragmentContext))
      → find_context identifier contexts ≡ none
      → remove_context identifier (contexts ++ (some ctx ∷ [])) ≡ contexts
  unfolding find_context remove_context
  remove_context-last [] h = rw (own, ==-self identifier) refl
  remove_context-last (none ∷ contexts) h = ap (λ l. none ∷ l) (remove_context-last contexts h)
  remove_context-last (some d ∷ contexts) h = grind (arith, remove_context-last contexts)

-- A fragment as `sscanf` reads it: number `i` of `t`.
abbrev pub scanned : ℕ → ℕ → ℕ → ℕ → ℕ → ℕ → ℕ → Scanned
scanned identifier sender receiver i t start past = record {
  identifier = identifier;
  sender_tag = sender;
  receiver_tag = receiver;
  i = i;
  t = t;
  start = start;
  past = past;
}

module _ (identifier t : ℕ) where
  -- A context that has received `fs`; it is new, or holds the number of fragments and the array.
  pub record Waiting (ctx : FragmentContext) (fs : List (Option Bytes)) : Type 0 where
    pub own : ctx.identifier ≡ identifier
    pub total_known : (ctx.total ≡ 0) ⊎ (ctx.total ≡ t)
    pub counted : ctx.count ≡ count_of fs
    pub summed : ctx.total_message_len ≡ len_of fs
    pub array : initialize_fragments t ctx ≡ fs

  pub Waiting-new :
      Waiting (record initialize_fragment_context { identifier = identifier }) (replicate t none)
  unfolding initialize_fragments initialize_fragment_context
  Waiting-new = record {
    own = refl;
    total_known = inl refl;
    counted = sym (count_of-none t);
    summed = sym (len_of-none t);
    array = refl;
  }

  pub Waiting-context_of :
      (now : ℕ) (fs : List (Option Bytes)) → Waiting (context_of identifier t now fs) fs
  unfolding context_of initialize_fragments
  Waiting-context_of now fs = record {
    own = refl;
    total_known = inr refl;
    counted = refl;
    summed = refl;
    array = refl;
  }

  accepted : (n : ℕ) → (n ≡ 0) ⊎ (n ≡ t) → (not (n == 0) && not (n == t)) ≡ false
  accepted n (inl e) = rw (e) refl
  accepted n (inr e) = grind (arith, e, ==-self t)

  copied :
      (now i sender receiver start past : ℕ) (text : Bytes) (ctx : FragmentContext)
      (fs : List (Option Bytes))
      → Waiting ctx fs
      → fragment_at fs (i - 1) ≡ some none
      → count_of fs + 1 < 2 ^ 32
      → len_of fs + length text < 2 ^ 64
      → copy_fragment_to_context now (scanned identifier sender receiver i t start past) text fs ctx
        ≡ context_of identifier t now (put_fragment (i - 1) text fs)
  unfolding copy_fragment_to_context context_of
  copied now i sender receiver start past text ctx fs w free few small =
      let one_more : count_of fs + 1 ≡ count_of (put_fragment (i - 1) text fs) =
        omega (arith, count_of-put (i - 1) text fs free) in
      rw
        (
          w.own,
          w.counted,
          w.summed,
          mod-eq_of_lt {n = count_of fs + 1} {m = 2 ^ 32} few,
          mod-eq_of_lt {n = len_of fs + length text} {m = 2 ^ 64} small,
          one_more,
          sym (len_of-put (i - 1) text fs free),
        )
        refl

  -- Where the fragment is the next of `fs`, `receive_fragment` adds it.
  pub receive_fragment-adds :
      (now i sender receiver start past : ℕ) (msg text : Bytes) (ctx : FragmentContext)
      (fs : List (Option Bytes)) (contexts : List (Option FragmentContext))
      → Waiting ctx fs
      → fragment_at fs (i - 1) ≡ some none
      → 0 < i
      → i ≤ t
      → take (past - start - 1) (drop start msg) ≡ text
      → receive_fragment now msg (scanned identifier sender receiver i t start past) ctx contexts
        ≡ add_fragment now (scanned identifier sender receiver i t start past) text fs ctx contexts
  unfolding receive_fragment store_fragment
  receive_fragment-adds now i sender receiver start past msg text ctx fs contexts w free pos le
        cut =
      rw
        (
          receive_fragment,
          cut,
          w.array,
          ==-ne i 0 (λ e. omega arith),
          ==-ne t 0 (λ e. omega arith),
          ltb-eq_false t i le,
          accepted ctx.total w.total_known,
          free,
        )
        refl

  module _ (contexts : List (Option FragmentContext))
      (unknown : find_context identifier contexts ≡ none) where
    -- A fragment that is not the last one is kept.
    pub add_fragment-kept :
        (now i sender receiver start past : ℕ) (text : Bytes) (ctx : FragmentContext)
        (fs : List (Option Bytes))
        → Waiting ctx fs
        → fragment_at fs (i - 1) ≡ some none
        → t < 2 ^ 16
        → count_of fs + 1 < t
        → len_of fs + length text < 2 ^ 64
        → add_fragment now
            (scanned identifier sender receiver i t start past)
            text
            fs
            ctx
            (contexts ++ (some ctx ∷ []))
          ≡ some (record {
            succeeded = true;
            message = none;
            contexts =
                contexts
                ++ (some (context_of identifier t now (put_fragment (i - 1) text fs)) ∷ []);
          })
    unfolding add_fragment context_of
    add_fragment-kept now i sender receiver start past text ctx fs w free small few len =
        let counted : count_of (put_fragment (i - 1) text fs) ≡ suc (count_of fs) =
          count_of-put (i - 1) text fs free in
        rw
          (
            add_fragment,
            copied now i sender receiver start past text ctx fs w free (omega arith) len,
            ==-ne (count_of (put_fragment (i - 1) text fs)) t (λ e. omega arith),
          )
          (ap (λ l. some (record { succeeded = true; message = none; contexts = l }))
            (replace_context-last identifier ctx w.own
              (context_of identifier t now (put_fragment (i - 1) text fs)) contexts unknown))

    -- The last one gives the message.
    pub add_fragment-whole :
        (now i sender receiver start past : ℕ) (text : Bytes) (ctx : FragmentContext)
        (fs : List (Option Bytes)) (ps : List Bytes)
        → Waiting ctx fs
        → fragment_at fs (i - 1) ≡ some none
        → t < 2 ^ 16
        → count_of fs + 1 ≡ t
        → len_of fs + length text < 2 ^ 64
        → length ps ≡ t
        → Holds (put_fragment (i - 1) text fs) ps
        → add_fragment now
            (scanned identifier sender receiver i t start past)
            text
            fs
            ctx
            (contexts ++ (some ctx ∷ []))
          ≡ some (record { succeeded = true; message = some (concat ps); contexts = contexts })
    unfolding add_fragment context_of
    add_fragment-whole now i sender receiver start past text ctx fs ps w free small few len pieces
          held =
        let counted : count_of (put_fragment (i - 1) text fs) ≡ t =
          omega (arith, count_of-put (i - 1) text fs free) in
        rw
          (
            add_fragment,
            copied now i sender receiver start past text ctx fs w free (omega arith) len,
            counted,
            ==-self t,
            join_fragments-full (put_fragment (i - 1) text fs) ps held (counted ∙ sym pieces),
          )
          (ap (λ l. some (record { succeeded = true; message = some (concat ps); contexts = l }))
            (remove_context-last identifier ctx w.own contexts unknown))
