-- ===== src/LinkedList/Append.antt =====
-- `otrng_list_get_last` and `otrng_list_add` of src/list.c on a list in memory.
use libotrv.Prelude.{
  ℕ, zero, suc, ◌+◌, ◌≤◌, ◌<◌, ◌≡◌, refl, sym, ◌∙◌, ◌≢◌, Option, none, some, List, [], ◌∷◌, ◌++◌,
  arith, length,
}
use libotrv.Memory.{Node, Heap, done, load, store, allocate}
use libotrv.LinkedList.{get_last_from, get_last, link, list_add}
use libotrv.LinkedList.Segment.{
  head_of, Segment, Avoids, AreDistinct, AreAllocated, IsList, set_cell_other, set_cell_same,
  Segment-set_cell, Avoids-fresh,
}

module _ {ℓ} {A : Type ℓ} where
  last_addr : ℕ → List (ℕ × Option A) → ℕ
  last_addr a [] = a
  last_addr a ((b, v) ∷ xs) = last_addr b xs

  get_last_from_lem :
      (fuel : ℕ) (h : Heap A) (a : ℕ) (v : Option A) (xs : List (ℕ × Option A))
      → Segment h ((a, v) ∷ xs)
      → length xs < fuel
      → get_last_from fuel h a ≡ done (some (last_addr a xs))
  unfolding get_last_from load last_addr
  get_last_from_lem zero h a v xs s lt = elim lt [ ]
  get_last_from_lem (suc fuel) h a v [] s lt = rw (s.0, get_last_from, load)
  get_last_from_lem (suc fuel) h a v ((b, w) ∷ xs) s lt =
      rw (s.0, get_last_from, load) (get_last_from_lem fuel h b w xs s.1 (omega arith))

  last_addr-ne : (a b : ℕ) (xs : List (ℕ × Option A)) → b ≢ a → Avoids a xs → last_addr b xs ≢ a
  unfolding last_addr
  last_addr-ne a b [] ne av = ne
  last_addr-ne a b ((c, v) ∷ xs) ne av = last_addr-ne a c xs av.0 av.1

  -- The payload of the last node.
  last_payload : Option A → List (ℕ × Option A) → Option A
  last_payload v [] = v
  last_payload v ((b, w) ∷ xs) = last_payload w xs

  load_last :
      (h : Heap A) (a : ℕ) (v : Option A) (xs : List (ℕ × Option A))
      → Segment h ((a, v) ∷ xs)
      → h.cell (last_addr a xs) ≡ some (record { payload = last_payload v xs; next = none })
  unfolding last_addr last_payload
  load_last h a v [] s = s.0
  load_last h a v ((b, w) ∷ xs) s = load_last h b w xs s.1

  abbrev snoc : List (ℕ × Option A) → ℕ → Option A → List (ℕ × Option A)
  snoc xs n w = xs ++ ((n, w) ∷ [])

  Segment-snoc :
      (h : Heap A) (a : ℕ) (v : Option A) (xs : List (ℕ × Option A)) (n : ℕ) (w : Option A)
      → Segment h ((a, v) ∷ xs)
      → AreDistinct ((a, v) ∷ xs)
      → Avoids n ((a, v) ∷ xs)
      → h.cell n ≡ some (record { payload = w; next = none })
      → Segment
          (store h (last_addr a xs) (record { payload = last_payload v xs; next = some n }))
          (snoc ((a, v) ∷ xs) n w)
  unfolding last_addr last_payload
  Segment-snoc h a v [] n w s d av e =
      (set_cell_same h.cell a _, (set_cell_other h.cell a n _ (λ p. av.0 (sym p)) ∙ e, tt))
  Segment-snoc h a v ((b, u) ∷ xs) n w s d av e = (
    set_cell_other h.cell (last_addr b xs) a _ (λ p. last_addr-ne a b xs d.0.0 d.0.1 (sym p)) ∙ s.0,
    Segment-snoc h b u xs n w s.1 d.1 av.1 e,
  )

  Avoids-snoc :
      (a n : ℕ) (w : Option A) (xs : List (ℕ × Option A))
      → n ≢ a
      → Avoids a xs
      → Avoids a (snoc xs n w)
  Avoids-snoc a n w [] ne av = (ne, tt)
  Avoids-snoc a n w ((b, v) ∷ xs) ne av = (av.0, Avoids-snoc a n w xs ne av.1)

  AreDistinct-snoc :
      (n : ℕ) (w : Option A) (xs : List (ℕ × Option A))
      → Avoids n xs
      → AreDistinct xs
      → AreDistinct (snoc xs n w)
  AreDistinct-snoc n w [] av d = (tt, tt)
  AreDistinct-snoc n w ((b, v) ∷ xs) av d =
      (Avoids-snoc b n w xs (λ e. av.0 (sym e)) d.0, AreDistinct-snoc n w xs av.1 d.1)

  AreAllocated-snoc :
      (h h' : Heap A) (n : ℕ) (w : Option A) (xs : List (ℕ × Option A))
      → h.fresh ≤ h'.fresh
      → n < h'.fresh
      → AreAllocated h xs
      → AreAllocated h' (snoc xs n w)
  AreAllocated-snoc h h' n w [] le lt al = (lt, tt)
  AreAllocated-snoc h h' n w ((b, v) ∷ xs) le lt al =
      (omega (arith, al.0), AreAllocated-snoc h h' n w xs le lt al.1)

  last_addr-avoided :
      (x a : ℕ) (v : Option A) (xs : List (ℕ × Option A))
      → Avoids x ((a, v) ∷ xs)
      → last_addr a xs ≢ x
  unfolding last_addr
  last_addr-avoided x a v [] av = av.0
  last_addr-avoided x a v ((b, w) ∷ xs) av = last_addr-avoided x b w xs av.1

  -- What `otrng_list_add` did: the new node stands at the end, and memory outside the list and the
  -- new node is as it was.
  pub record Added (h : Heap A) (xs : List (ℕ × Option A)) (v : Option A) (h' : Heap A)
      : Type ℓ where
    pub list : IsList h' (snoc xs h.fresh v)
    pub kept : (x : ℕ) → Avoids x xs → x ≢ h.fresh → h'.cell x ≡ h.cell x

  -- On a well-formed list `otrng_list_add` ends, touches only memory that is allocated, returns the
  -- head of the list with one more node at its end, and changes nothing outside the list.
  pub list_add_lem :
      (fuel : ℕ) (h : Heap A) (xs : List (ℕ × Option A)) (v : Option A)
      → IsList h xs
      → length xs ≤ fuel
      → (h' : Heap A) × (list_add fuel h v (head_of xs) ≡ done (head_of (snoc xs h.fresh v), h'))
        × Added h xs v h'
  unfolding list_add get_last link load
  list_add_lem fuel h [] v l lt = (
    (allocate h (record { payload = v; next = none })).1,
    refl,
    record {
      list = record {
        chained = (set_cell_same h.cell h.fresh _, tt);
        distinct = (tt, tt);
        allocated = (omega arith, tt);
      };
      kept = λ x av ne. set_cell_other h.cell h.fresh x _ ne;
    },
  )
  list_add_lem fuel h ((a, u) ∷ xs) v l lt =
      let n = h.fresh in
      let full : List (ℕ × Option A) = (a, u) ∷ xs in
      let node : Node A = record { payload = v; next = none } in
      let h1 : Heap A = (allocate h node).1 in
      let away = Avoids-fresh h full l.allocated in
      let s1 = Segment-set_cell h n (some node) (n + 1) full away l.chained in
      let tail : Node A = record { payload = last_payload u xs; next = some n } in
      (
        store h1 (last_addr a xs) tail,
        rw (get_last_from_lem fuel h1 a u xs s1 (omega arith)) (rw (load_last h1 a u xs s1)),
        record {
          list = record {
            chained = Segment-snoc h1 a u xs n v s1 l.distinct away (set_cell_same h.cell n _);
            distinct = AreDistinct-snoc n v full away l.distinct;
            allocated =
                AreAllocated-snoc h (store h1 (last_addr a xs) tail) n v full (omega arith)
                  (omega arith) l.allocated;
          };
          kept = λ x av ne.
              set_cell_other h1.cell (last_addr a xs) x _
                (λ e. last_addr-avoided x a u xs av (sym e))
              ∙ set_cell_other h.cell n x _ ne;
        },
      )
