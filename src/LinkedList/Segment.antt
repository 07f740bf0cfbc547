-- ===== src/LinkedList/Segment.antt =====
-- Which list a pointer stands for, and that writes elsewhere leave it alone.
use libotrv.Prelude.{
  ℕ, ◌<◌, ◌≡◌, ◌∙◌, ◌≢◌, inl, inr, Option, none, some, List, [], ◌∷◌, arith, ◌==◌, Bool-cases,
  ==-self,
}
use libotrv.Memory.{Pointer, Node, Heap, set_cell}

module _ {ℓ} {A : Type ℓ} where
  -- The nodes of a list, each with its address.
  abbrev pub head_of : List (ℕ × Option A) → Pointer
  head_of [] = none
  head_of ((a, v) ∷ xs) = some a

  -- `head_of xs` points to the nodes `xs`, chained to a null end.
  abbrev pub Segment : Heap A → List (ℕ × Option A) → Type ℓ
  Segment h [] = Unit
  Segment h ((a, v) ∷ xs) =
      (h.cell a ≡ some (record { payload = v; next = head_of xs })) × Segment h xs

  abbrev pub Avoids : ℕ → List (ℕ × Option A) → Type 0
  Avoids a [] = Unit
  Avoids a ((b, v) ∷ xs) = (b ≢ a) × Avoids a xs

  abbrev pub AreDistinct : List (ℕ × Option A) → Type 0
  AreDistinct [] = Unit
  AreDistinct ((a, v) ∷ xs) = Avoids a xs × AreDistinct xs

  -- Every node of the list was handed out by the allocator.
  abbrev pub AreAllocated : Heap A → List (ℕ × Option A) → Type 0
  AreAllocated h [] = Unit
  AreAllocated h ((a, v) ∷ xs) = (a < h.fresh) × AreAllocated h xs

  -- A well-formed list in memory.
  pub record IsList (h : Heap A) (xs : List (ℕ × Option A)) : Type ℓ where
    pub chained : Segment h xs
    pub distinct : AreDistinct xs
    pub allocated : AreAllocated h xs

module _ {ℓ} {A : Type ℓ} where
  pub set_cell_other :
      (cell : ℕ → Option (Node A)) (a x : ℕ) (n : Option (Node A))
      → x ≢ a
      → set_cell cell a n x ≡ cell x
  set_cell_other cell a x n h = elim (Bool-cases (x == a)) [
    | inl e ↦ absurd (h (ground arith))
    | inr e ↦ rw e
  ]

  pub set_cell_same :
      (cell : ℕ → Option (Node A)) (a : ℕ) (n : Option (Node A)) → set_cell cell a n a ≡ n
  set_cell_same cell a n = rw (==-self a)

  -- A list does not change where a cell outside it does.
  pub Segment-set_cell :
      (h : Heap A) (a : ℕ) (n : Option (Node A)) (k : ℕ) (xs : List (ℕ × Option A))
      → Avoids a xs
      → Segment h xs
      → Segment (record { cell = set_cell h.cell a n; fresh = k }) xs
  Segment-set_cell h a n k [] av s = tt
  Segment-set_cell h a n k ((b, v) ∷ xs) av s =
      (set_cell_other h.cell a b n av.0 ∙ s.0, Segment-set_cell h a n k xs av.1 s.1)

  pub Avoids-fresh : (h : Heap A) (xs : List (ℕ × Option A)) → AreAllocated h xs → Avoids h.fresh xs
  Avoids-fresh h [] al = tt
  Avoids-fresh h ((a, v) ∷ xs) al = ((λ e. omega (arith, al.0)), Avoids-fresh h xs al.1)
