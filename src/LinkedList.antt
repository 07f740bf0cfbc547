-- ===== src/LinkedList.antt =====
-- src/list.c: singly linked lists of nodes in memory. Each loop runs on fuel.
use libotrv.Prelude.{ℕ, zero, suc, ◌+◌, Bool, true, false, Option, none, some, ◌==◌}
use libotrv.Memory.{
  Pointer, Node, Heap, Outcome, done, fault, stuck, ◌>>=◌, load, store, release, allocate,
}
mod Tests
pub mod Segment
pub mod Append
pub mod Remove

abbrev same_pointer : Pointer → Pointer → Bool
same_pointer none none = true
same_pointer none (some b) = false
same_pointer (some a) none = false
same_pointer (some a) (some b) = a == b

module _ {ℓ} {A : Type ℓ} where
  -- The loop of `otrng_list_get_last` from a node `a`.
  get_last_from : ℕ → Heap A → ℕ → Outcome Pointer
  get_last_from zero h a = stuck
  get_last_from (suc fuel) h a =
      load h a >>= λ n. elim n.next [ none ↦ done (some a) | some b ↦ get_last_from fuel h b ]

  unfoldable pub get_last : ℕ → Heap A → Pointer → Outcome Pointer
  unfolding get_last_from
  get_last fuel h none = done none
  get_last fuel h (some a) = get_last_from fuel h a

  -- `last->next = n; return head;`, or the new node where there is no last one.
  link : Heap A → Pointer → ℕ → Pointer → Outcome (Pointer × Heap A)
  link h none n head = done (some n, h)
  link h (some l) n head =
      load h l >>= λ last. done (head, store h l (record last { next = some n }))

  unfoldable pub list_add : ℕ → Heap A → Option A → Pointer → Outcome (Pointer × Heap A)
  unfolding link
  list_add fuel h v head =
      let (n, h') = allocate h (record { payload = v; next = none }) in
      get_last fuel h' head >>= λ last. link h' last n head

  -- `otrng_list_get`: the first node whose payload the test accepts.
  unfoldable pub list_get : ℕ → Heap A → (Option A → Bool) → Pointer → Outcome Pointer
  list_get fuel h fn none = done none
  list_get zero h fn (some a) = stuck
  list_get (suc fuel) h fn (some a) = load h a >>= λ n. elim (fn n.payload) [
    | true ↦ done (some a)
    | false ↦ list_get fuel h fn n.next
  ]

  -- `cursor->next = wanted->next; found->next = NULL;`
  unlink : Heap A → ℕ → Node A → ℕ → Outcome (Heap A)
  unlink h cursor c w = load h w >>= λ n.
      let h' = store h cursor (record c { next = n.next }) in
      load h' w >>= λ m. done (store h' w (record m { next = none }))

  remove_loop : ℕ → Heap A → Pointer → ℕ → Outcome (Heap A)
  remove_loop zero h wanted cursor = stuck
  remove_loop (suc fuel) h wanted cursor = load h cursor >>= λ c. elim c.next [
    | none ↦ done h
    | some b ↦ elim (same_pointer (some b) wanted) [
      | true ↦ unlink h cursor c b
      | false ↦ remove_loop fuel h wanted b
    ]
  ]

  -- `head == wanted` first; `head->next` of a null head is a fault.
  unfoldable pub remove_element : ℕ → Heap A → Pointer → Pointer → Outcome (Pointer × Heap A)
  unfolding remove_loop unlink
  remove_element fuel h wanted none = fault
  remove_element fuel h wanted (some a) = elim (same_pointer (some a) wanted) [
    | true ↦ load h a >>= λ n. done (n.next, store h a (record n { next = none }))
    | false ↦ remove_loop fuel h wanted a >>= λ h'. done (some a, h')
  ]

  -- `otrng_list_len` counts the nodes that have a payload.
  unfoldable pub list_len : ℕ → Heap A → Pointer → Outcome ℕ
  list_len fuel h none = done 0
  list_len zero h (some a) = stuck
  list_len (suc fuel) h (some a) = load h a >>= λ n. list_len fuel h n.next >>= λ size.
      elim n.payload [ none ↦ done size | some _ ↦ done (size + 1) ]

  -- `otrng_list_free`: `current->next` is read before the node is freed.
  unfoldable pub list_free : ℕ → Heap A → Pointer → Outcome (Heap A)
  list_free fuel h none = done h
  list_free zero h (some a) = stuck
  list_free (suc fuel) h (some a) = load h a >>= λ n. list_free fuel (release h a) n.next
