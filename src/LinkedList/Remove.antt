-- ===== src/LinkedList/Remove.antt =====
-- `otrng_list_remove_element` and `otrng_list_get` of src/list.c on a list in memory.
use libotrv.Prelude.{
  ℕ, zero, suc, ◌≤◌, ◌<◌, ◌≡◌, refl, sym, ◌∙◌, ◌≢◌, Option, none, some, List, [], ◌∷◌, ◌++◌, arith,
  length,
}
use libotrv.Memory.{Pointer, Node, Heap, Outcome, done, load, store}
use libotrv.LinkedList.{unlink, remove_loop, remove_element}
use libotrv.LinkedList.Segment.{
  head_of, Segment, Avoids, AreDistinct, AreAllocated, IsList, set_cell_other, set_cell_same,
  Segment-set_cell,
}

module _ {ℓ} {A : Type ℓ} where
  Avoids-middle :
      (x a : ℕ) (v : Option A) (front back : List (ℕ × Option A))
      → Avoids x (front ++ ((a, v) ∷ back))
      → (a ≢ x) × Avoids x (front ++ back)
  Avoids-middle x a v [] back av = (av.0, av.1)
  Avoids-middle x a v ((b, u) ∷ front) back av =
      let (ne, rest) = Avoids-middle x a v front back av.1 in (ne, (av.0, rest))

  AreDistinct-drop :
      (a : ℕ) (v : Option A) (front back : List (ℕ × Option A))
      → AreDistinct (front ++ ((a, v) ∷ back))
      → AreDistinct (front ++ back)
  AreDistinct-drop a v [] back d = d.1
  AreDistinct-drop a v ((b, u) ∷ front) back d =
      ((Avoids-middle b a v front back d.0).1, AreDistinct-drop a v front back d.1)

  AreAllocated-drop :
      (h h' : Heap A) (a : ℕ) (v : Option A) (front back : List (ℕ × Option A))
      → h.fresh ≡ h'.fresh
      → AreAllocated h (front ++ ((a, v) ∷ back))
      → AreAllocated h' (front ++ back)
  AreAllocated-drop h h' a v [] [] e al = tt
  AreAllocated-drop h h' a v [] ((b, u) ∷ back) e al =
      (omega (arith, al.1.0), AreAllocated-drop h h' b u [] back e al.1)
  AreAllocated-drop h h' a v ((b, u) ∷ front) back e al =
      (omega (arith, al.0), AreAllocated-drop h h' a v front back e al.1)

  -- The node `a` behind `front` was taken out of the list, and now points to nothing.
  pub record Removed (h : Heap A) (front : List (ℕ × Option A)) (a : ℕ) (v : Option A)
      (back : List (ℕ × Option A)) (h' : Heap A) : Type ℓ where
    pub list : IsList h' (front ++ back)
    pub alone : h'.cell a ≡ some (record { payload = v; next = none })
    pub kept : (x : ℕ) → Avoids x (front ++ ((a, v) ∷ back)) → h'.cell x ≡ h.cell x
    pub fresh : h'.fresh ≡ h.fresh

  abbrev Unlinked :
      Heap A
      → ℕ
      → Option A
      → List (ℕ × Option A)
      → ℕ
      → Option A
      → List (ℕ × Option A)
      → Outcome (Heap A)
      → Type ℓ
  Unlinked h b u fs a v back result =
      (h' : Heap A) × (result ≡ done h')
      × Segment h' ((b, u) ∷ (fs ++ back))
      × (h'.cell a ≡ some (record { payload = v; next = none }))
      × ((x : ℕ) → Avoids x ((b, u) ∷ (fs ++ ((a, v) ∷ back))) → h'.cell x ≡ h.cell x)
      × (h'.fresh ≡ h.fresh)

  remove_loop_here :
      (fuel : ℕ) (h : Heap A) (b : ℕ) (u : Option A) (a : ℕ)
      → h.cell b ≡ some (record { payload = u; next = some a })
      → remove_loop (suc fuel) h (some a) b ≡ unlink h b (record { payload = u; next = some a }) a
  unfolding remove_loop load
  remove_loop_here fuel h b u a e = ground arith

  remove_loop_pass :
      (fuel : ℕ) (h : Heap A) (b : ℕ) (u : Option A) (c a : ℕ)
      → h.cell b ≡ some (record { payload = u; next = some c })
      → c ≢ a
      → remove_loop (suc fuel) h (some a) b ≡ remove_loop fuel h (some a) c
  unfolding remove_loop load
  remove_loop_pass fuel h b u c a e ne = ground arith

  unlink_lem :
      (h : Heap A) (b a : ℕ) (u v : Option A) (next : Pointer)
      → a ≢ b
      → h.cell a ≡ some (record { payload = v; next = next })
      → unlink h b (record { payload = u; next = some a }) a
        ≡ done (
            store
              (store h b (record { payload = u; next = next }))
              a
              (record { payload = v; next = none }))
  unfolding unlink load
  unlink_lem h b a u v next ne e = ground arith

  remove_loop_lem :
      (fuel : ℕ) (h : Heap A) (b : ℕ) (u : Option A) (fs : List (ℕ × Option A)) (a : ℕ)
      (v : Option A) (back : List (ℕ × Option A))
      → Segment h ((b, u) ∷ (fs ++ ((a, v) ∷ back)))
      → AreDistinct ((b, u) ∷ (fs ++ ((a, v) ∷ back)))
      → length fs < fuel
      → Unlinked h b u fs a v back (remove_loop fuel h (some a) b)
  remove_loop_lem zero h b u fs a v back s d lt = elim lt [ ]
  remove_loop_lem (suc fuel) h b u [] a v back s d lt =
      let cut : Node A = record { payload = u; next = head_of back } in
      let h1 : Heap A = store h b cut in
      let here = Segment-set_cell h b (some cut) h.fresh back d.0.1 s.1.1 in
      (
        store h1 a (record { payload = v; next = none }),
        remove_loop_here fuel h b u a s.0 ∙ unlink_lem h b a u v (head_of back) d.0.0 s.1.0,
        (
          set_cell_other h1.cell a b _ (λ e. d.0.0 (sym e)) ∙ set_cell_same h.cell b _,
          Segment-set_cell h1 a _ h.fresh back d.1.0 here,
        ),
        set_cell_same h1.cell a _,
        (λ x av.
            set_cell_other h1.cell a x _ (λ e. av.1.0 (sym e))
            ∙ set_cell_other h.cell b x _ (λ e. av.0 (sym e))),
        refl,
      )
  remove_loop_lem (suc fuel) h b u ((c, w) ∷ fs) a v back s d lt =
      let ne = λ (e : c ≡ a). (Avoids-middle c a v fs back d.1.0).0 (sym e) in
      let (h', run, seg, alone, kept, same) =
        remove_loop_lem fuel h c w fs a v back s.1 d.1 (omega arith) in
      (
        h',
        remove_loop_pass fuel h b u c a s.0 ne ∙ run,
        (kept b d.0 ∙ s.0, seg),
        alone,
        (λ x av. kept x av.1),
        same,
      )

  remove_first :
      (fuel : ℕ) (h : Heap A) (a : ℕ) (v : Option A) (next : Pointer)
      → h.cell a ≡ some (record { payload = v; next = next })
      → remove_element fuel h (some a) (some a)
        ≡ done (next, store h a (record { payload = v; next = none }))
  unfolding remove_element load
  remove_first fuel h a v next e = ground arith

  remove_later :
      (fuel : ℕ) (h : Heap A) (b a : ℕ) (h' : Heap A)
      → b ≢ a
      → remove_loop fuel h (some a) b ≡ done h'
      → remove_element fuel h (some a) (some b) ≡ done (some b, h')
  unfolding remove_element
  remove_later fuel h b a h' ne run = ground arith

  -- On a well-formed list that holds the node `a`, `otrng_list_remove_element` ends, touches only
  -- allocated memory, returns the list without that node and its order kept, leaves the node alone
  -- with a null `next`, and changes nothing outside the list.
  pub remove_element_lem :
      (fuel : ℕ) (h : Heap A) (front : List (ℕ × Option A)) (a : ℕ) (v : Option A)
      (back : List (ℕ × Option A))
      → IsList h (front ++ ((a, v) ∷ back))
      → length front ≤ fuel
      → (h' : Heap A) × (remove_element fuel h (some a) (head_of (front ++ ((a, v) ∷ back)))
          ≡ done (head_of (front ++ back), h'))
        × Removed h front a v back h'
  remove_element_lem fuel h [] a v back l lt =
      let alone : Node A = record { payload = v; next = none } in
      (
        store h a alone,
        remove_first fuel h a v (head_of back) l.chained.0,
        record {
          list = record {
            chained = Segment-set_cell h a (some alone) h.fresh back l.distinct.0 l.chained.1;
            distinct = l.distinct.1;
            allocated = AreAllocated-drop h h a v [] back refl l.allocated;
          };
          alone = set_cell_same h.cell a _;
          kept = λ x av. set_cell_other h.cell a x _ (λ e. av.0 (sym e));
          fresh = refl;
        },
      )
  remove_element_lem fuel h ((b, u) ∷ fs) a v back l lt =
      let ne = λ (e : b ≡ a). (Avoids-middle b a v fs back l.distinct.0).0 (sym e) in
      let (h', run, seg, alone, kept, same) =
        remove_loop_lem fuel h b u fs a v back l.chained l.distinct (omega arith) in
      (
        h',
        remove_later fuel h b a h' ne run,
        record {
          list = record {
            chained = seg;
            distinct = AreDistinct-drop a v ((b, u) ∷ fs) back l.distinct;
            allocated = AreAllocated-drop h h' a v ((b, u) ∷ fs) back (sym same) l.allocated;
          };
          alone = alone;
          kept = kept;
          fresh = same;
        },
      )
