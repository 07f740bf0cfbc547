-- ===== src/LinkedList/Tests.antt =====
-- Lists in a small memory.
use libotrv.Prelude.{ℕ, zero, suc, ◌≡◌, refl, Option, none, some, List, [], ◌∷◌, arith}
use libotrv.Memory.{Node, Heap, done}
use libotrv.LinkedList.{list_add, remove_element}
use libotrv.LinkedList.Segment.{IsList}
use libotrv.LinkedList.Append.{Added, list_add_lem}
use libotrv.LinkedList.Remove.{Removed, remove_element_lem}

-- Two nodes, 1 before 0.
abbrev two_nodes : List (ℕ × Option ℕ)
two_nodes = (1, some 7) ∷ (0, some 8) ∷ []

abbrev small_cell : ℕ → Option (Node ℕ)
small_cell zero = some (record { payload = some 8; next = none })
small_cell (suc zero) = some (record { payload = some 7; next = some 0 })
small_cell (suc (suc a)) = none

abbrev small_heap : Heap ℕ
small_heap = record { cell = small_cell; fresh = 2 }

two_nodes-IsList : IsList small_heap two_nodes
two_nodes-IsList = record {
  chained = (refl, (refl, tt));
  distinct = ((λ e. absurd (omega arith), tt), (tt, tt));
  allocated = (omega arith, (omega arith, tt));
}

remove_element_example :
    (h' : Heap ℕ) × (remove_element 1 small_heap (some 0) (some 1) ≡ done (some 1, h'))
    × Removed small_heap ((1, some 7) ∷ []) 0 (some 8) [] h'
remove_element_example =
    remove_element_lem 1 small_heap ((1, some 7) ∷ []) 0 (some 8) [] two_nodes-IsList (omega arith)

list_add_example :
    (h' : Heap ℕ) × (list_add 2 small_heap (some 9) (some 1) ≡ done (some 1, h'))
    × Added small_heap two_nodes (some 9) h'
list_add_example = list_add_lem 2 small_heap two_nodes (some 9) two_nodes-IsList (omega arith)
