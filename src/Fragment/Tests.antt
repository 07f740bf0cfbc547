-- ===== src/Fragment/Tests.antt =====
-- A text of five bytes in fragments of two.
use libotrv.Prelude.{
  ◌+◌, ◌-◌, ◌≤◌, ◌<◌, inl, drop, length, ℕ, zero, suc, ◌≡◌, refl, Option, none, some, List, [], ◌∷◌,
  ◌++◌, arith, replicate, Bytes,
}
use libotrv.Fragment.Assemble.{Scanf, is_fragment_generic, find_context}
use libotrv.Fragment.Assemble.Received.{piece_at, concat}
use libotrv.Fragment.Assemble.Order.{scanned}
use libotrv.Fragment.Assemble.Whole.{
  Distinct, IsFragment, unfragment_messages, unfragment_messages_lem,
}
use libotrv.Memory.{Node, Heap, done, release}
use libotrv.LinkedList.Segment.{IsList}
use libotrv.LinkedList.Remove.{Removed}
use libotrv.Fragment.Expire.{FragmentContext, expire_fragments, expire_fragments_lem}
use libotrv.Fragment.{Printf, PrintfLaws, fragment_message}
use libotrv.Fragment.Cut.{CutInto, fragment_message_lem}

abbrev sample_printf : Printf
sample_printf = record {
  print =
      λ identifier ours theirs current total piece. some (replicate 44 63 ++ (piece ++ (44 ∷ [])));
}

abbrev sample_printf_laws : PrintfLaws sample_printf
sample_printf_laws = record {
  prefix = λ identifier ours theirs current total. replicate 44 63;
  length-prefix = λ identifier ours theirs current total hi ho ht hc hn. refl;
  print_prefix = λ identifier ours theirs current total piece. refl;
}

abbrev five_bytes : Bytes
five_bytes = 1 ∷ 2 ∷ 3 ∷ 4 ∷ 5 ∷ []

fragment_message_example :
    (fs : List Bytes) × (fragment_message sample_printf 47 7 256 257 five_bytes ≡ some fs)
    × CutInto sample_printf sample_printf_laws five_bytes 3 2 fs
fragment_message_example =
    fragment_message_lem sample_printf sample_printf_laws 47 7 256 257 five_bytes (omega arith)
      (omega arith) (omega arith) (omega arith)
      (record {
        identifier_small = omega arith;
        ours_small = omega arith;
        theirs_small = omega arith;
      })

-- A context that is ten seconds old. Two of them stand in a list.
abbrev fresh_context : FragmentContext
fresh_context = record {
  identifier = 7;
  total = 2;
  count = 1;
  total_message_len = 3;
  last_fragment_received_at = 90;
  fragments = none;
}

abbrev context_cell : ℕ → Option (Node FragmentContext)
context_cell zero = some (record { payload = some fresh_context; next = none })
context_cell (suc zero) = some (record { payload = some fresh_context; next = some 0 })
context_cell (suc (suc a)) = none

abbrev context_heap : Heap FragmentContext
context_heap = record { cell = context_cell; fresh = 2 }

two_contexts-IsList : IsList context_heap ((1, some fresh_context) ∷ (0, some fresh_context) ∷ [])
two_contexts-IsList = record {
  chained = (refl, (refl, tt));
  distinct = ((λ e. absurd (omega arith), tt), (tt, tt));
  allocated = (omega arith, (omega arith, tt));
}

expire_fragments_example :
    (h1 : Heap FragmentContext) × (expire_fragments 1 1 100 60 context_heap (some 1)
      ≡ done (some 0, release h1 1))
    × Removed context_heap [] 1 (some fresh_context) ((0, some fresh_context) ∷ []) h1
expire_fragments_example =
    expire_fragments_lem [] ((0, some fresh_context) ∷ []) 1 (some fresh_context) 1 0 100 60
      context_heap two_contexts-IsList tt (omega arith) (omega arith) (omega arith)

-- Three pieces; a fragment is the prefix, a byte for its number, the piece and a comma.
abbrev three_pieces : List Bytes
three_pieces = (97 ∷ 98 ∷ []) ∷ (99 ∷ []) ∷ (100 ∷ 101 ∷ []) ∷ []

abbrev sample_fragment : ℕ → Bytes
sample_fragment zero = []
sample_fragment (suc zero) = 63 ∷ 79 ∷ 84 ∷ 82 ∷ 124 ∷ 1 ∷ 97 ∷ 98 ∷ 44 ∷ []
sample_fragment (suc (suc zero)) = 63 ∷ 79 ∷ 84 ∷ 82 ∷ 124 ∷ 2 ∷ 99 ∷ 44 ∷ []
sample_fragment (suc (suc (suc i))) = 63 ∷ 79 ∷ 84 ∷ 82 ∷ 124 ∷ 3 ∷ 100 ∷ 101 ∷ 44 ∷ []

abbrev sample_scanf : Scanf
sample_scanf = record {
  scan = λ msg. elim (drop 5 msg) [
    | [] ↦ none
    | i ∷ text ↦ some (scanned 7 256 257 i 3 6 (6 + length text))
  ];
}

sample_given :
    (i : ℕ)
    → 0 < i
    → i ≤ 3
    → (text : Bytes) × (piece_at three_pieces (i - 1) ≡ some text)
      × IsFragment sample_scanf 257 7 3 i text (sample_fragment i)
unfolding piece_at is_fragment_generic
sample_given zero pos le = absurd (omega arith)
sample_given (suc zero) pos le = (
  97 ∷ 98 ∷ [],
  refl,
  record {
    sender = 256;
    receiver = 257;
    start = 6;
    past = 9;
    begins = refl;
    read = refl;
    for_us = inl refl;
    ordered = omega arith;
    cut = refl;
  },
)
sample_given (suc (suc zero)) pos le = (
  99 ∷ [],
  refl,
  record {
    sender = 256;
    receiver = 257;
    start = 6;
    past = 8;
    begins = refl;
    read = refl;
    for_us = inl refl;
    ordered = omega arith;
    cut = refl;
  },
)
sample_given (suc (suc (suc zero))) pos le = (
  100 ∷ 101 ∷ [],
  refl,
  record {
    sender = 256;
    receiver = 257;
    start = 6;
    past = 9;
    begins = refl;
    read = refl;
    for_us = inl refl;
    ordered = omega arith;
    cut = refl;
  },
)
sample_given (suc (suc (suc (suc i)))) pos le = absurd (omega arith)

unfragment_messages_example :
    unfragment_messages sample_scanf (λ i. 100 + i) sample_fragment 257 (3 ∷ 1 ∷ 2 ∷ []) (none ∷ [])
    ≡ some (none ∷ none ∷ some (97 ∷ 98 ∷ 99 ∷ 100 ∷ 101 ∷ []) ∷ [], none ∷ [])
unfolding Distinct concat find_context
unfragment_messages_example =
    unfragment_messages_lem sample_scanf 257 7 3 (λ i. 100 + i) sample_fragment three_pieces refl
      (omega arith) (omega arith) sample_given (none ∷ []) refl 3 (1 ∷ 2 ∷ [])
      ((omega arith, omega arith), ((omega arith, omega arith), ((omega arith, omega arith), tt)))
      (
        ((λ e. absurd (omega arith)), ((λ e. absurd (omega arith)), tt)),
        (((λ e. absurd (omega arith)), tt), (tt, tt)),
      )
      refl
