-- ===== src/Memory.antt =====
-- The memory in which the nodes of src/list.c live. Nodes are the only objects on it: what a node's
-- `data` points to is the node's payload.
use libotrv.Prelude.{ℕ, ◌+◌, Option, none, some, ◌==◌, if◌then◌else◌}

-- A pointer; `none` is NULL.
abbrev pub Pointer : Type 0
Pointer = Option ℕ

-- `list_element_s`.
pub record Node {ℓ} (A : Type ℓ) : Type ℓ where
  pub payload : Option A
  pub next : Pointer

-- `cell` is `none` where nothing is allocated; addresses from `fresh` on were never handed out.
pub record Heap {ℓ} (A : Type ℓ) : Type ℓ where
  pub cell : ℕ → Option (Node A)
  pub fresh : ℕ

-- `fault` is an access to memory that is not allocated, `stuck` a loop whose fuel ran out: neither
-- is a result of the code.
pub data Outcome {ℓ} (A : Type ℓ) : Type ℓ where
  done : A → Outcome A
  fault : Outcome A
  stuck : Outcome A

infixl 5 ◌>>=◌
abbrev pub ◌>>=◌ {ℓ κ} : {A : Type ℓ} {B : Type κ} → Outcome A → (A → Outcome B) → Outcome B
done a >>= f = f a
fault >>= f = fault
stuck >>= f = stuck

abbrev found {ℓ} : {A : Type ℓ} → Option (Node A) → Outcome (Node A)
found none = fault
found (some n) = done n

module _ {ℓ} {A : Type ℓ} where
  unfoldable pub load : Heap A → ℕ → Outcome (Node A)
  load h a = found (h.cell a)

  abbrev pub set_cell : (ℕ → Option (Node A)) → ℕ → Option (Node A) → ℕ → Option (Node A)
  set_cell cell a n x = if x == a then n else cell x

  -- A write to an address that was loaded before.
  abbrev pub store : Heap A → ℕ → Node A → Heap A
  store h a n = record h { cell = set_cell h.cell a (some n) }

  abbrev pub release : Heap A → ℕ → Heap A
  release h a = record h { cell = set_cell h.cell a none }

  -- `list_new`, with the payload that its caller stores at once. Allocation never fails: the
  -- allocator of src/alloc.c ends the program where memory is short.
  abbrev pub allocate : Heap A → Node A → ℕ × Heap A
  allocate h n = (h.fresh, record { cell = set_cell h.cell h.fresh (some n); fresh = h.fresh + 1 })
