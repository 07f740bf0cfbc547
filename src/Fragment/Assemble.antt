-- ===== src/Fragment/Assemble.antt =====
-- `otrng_unfragment_message` of src/fragment.c. The contexts stand as the list of what the nodes of
-- `*contexts` point to; each node has a context of its own. A string stands as its bytes in front of
-- the NUL.
pub mod Received
pub mod Order
pub mod Whole
use libotrv.Prelude.{
  ℕ, zero, suc, ◌+◌, ◌-◌, ◌%◌, ◌^◌, Bool, true, false, not, ◌&&◌, ◌||◌, Option, none, some, List,
  [], ◌∷◌, ◌++◌, ltb, leb, ◌==◌, if◌then◌else◌, length, take, drop, replicate, Bytes, ◌>>=◌, ◌>>◌,
  require,
}
use libotrv.Fragment.Expire.{FragmentContext}

-- What `sscanf` stores with UNFRAGMENT_FORMAT; a number that it does not store stays 0. `past` is
-- `end`.
pub record Scanned : Type 0 where
  pub identifier : ℕ
  pub sender_tag : ℕ
  pub receiver_tag : ℕ
  pub i : ℕ
  pub t : ℕ
  pub start : ℕ
  pub past : ℕ

-- `sscanf` of the C library with UNFRAGMENT_FORMAT; `none` is EOF.
pub record Scanf : Type 0 where
  pub scan : Bytes → Option Scanned

-- How a call returns: with success or not, the message in `*unfrag_msg`, and `*contexts`.
pub record Unfragmented : Type 0 where
  pub succeeded : Bool
  pub message : Option Bytes
  pub contexts : List (Option FragmentContext)

-- `initialize_fragment_context`, which `reset_fragment_context` leaves as well.
unfoldable pub initialize_fragment_context : FragmentContext
initialize_fragment_context = record {
  identifier = 0;
  total = 0;
  count = 0;
  total_message_len = 0;
  last_fragment_received_at = 0;
  fragments = none;
}

-- `strstr(msg, prefix) == msg`
unfoldable pub is_fragment_generic : Bytes → Bytes → Bool
is_fragment_generic msg [] = true
is_fragment_generic [] (p ∷ prefix) = false
is_fragment_generic (b ∷ msg) (p ∷ prefix) = b == p && is_fragment_generic msg prefix

-- The search of the loop.
unfoldable pub find_context : ℕ → List (Option FragmentContext) → Option FragmentContext
find_context identifier [] = none
find_context identifier (none ∷ contexts) = find_context identifier contexts
find_context identifier (some ctx ∷ contexts) =
    if ctx.identifier == identifier then some ctx else find_context identifier contexts

-- The list when the context that the search finds has changed to `new`.
unfoldable pub replace_context :
    ℕ → FragmentContext → List (Option FragmentContext) → List (Option FragmentContext)
replace_context identifier new [] = []
replace_context identifier new (none ∷ contexts) = none ∷ replace_context identifier new contexts
replace_context identifier new (some ctx ∷ contexts) =
    if ctx.identifier == identifier
    then some new ∷ contexts
    else some ctx ∷ replace_context identifier new contexts

-- The list without the context that the search finds.
unfoldable pub remove_context : ℕ → List (Option FragmentContext) → List (Option FragmentContext)
remove_context identifier [] = []
remove_context identifier (none ∷ contexts) = none ∷ remove_context identifier contexts
remove_context identifier (some ctx ∷ contexts) =
    if ctx.identifier == identifier then contexts else some ctx ∷ remove_context identifier contexts

-- `context->fragments[n]`; `none` is out of the array.
unfoldable pub fragment_at : List (Option Bytes) → ℕ → Option (Option Bytes)
fragment_at [] n = none
fragment_at (f ∷ fs) zero = some f
fragment_at (f ∷ fs) (suc n) = fragment_at fs n

unfoldable pub put_fragment : ℕ → Bytes → List (Option Bytes) → List (Option Bytes)
put_fragment n text [] = []
put_fragment zero text (f ∷ fs) = some text ∷ fs
put_fragment (suc n) text (f ∷ fs) = f ∷ put_fragment n text fs

-- The loop of `join_fragments`; `none` is a null pointer that it reads.
unfoldable pub join_loop : List (Option Bytes) → Option Bytes
join_loop [] = some []
join_loop (none ∷ fs) = none
join_loop (some text ∷ fs) = join_loop fs >>= λ rest. some (text ++ rest)

-- `none` is as well a message that the buffer has no room for.
unfoldable pub join_fragments : List (Option Bytes) → ℕ → Option Bytes
join_fragments fs total_message_len = do
  message ← join_loop fs
  require (leb (length message) total_message_len)
  some message

-- The fragments of the context, allocated where there are none.
unfoldable pub initialize_fragments : ℕ → FragmentContext → List (Option Bytes)
initialize_fragments t ctx = elim ctx.fragments [ none ↦ replicate t none | some fs ↦ fs ]

-- `copy_fragment_to_context`, the count and the time; `fs` are the fragments there were.
unfoldable pub copy_fragment_to_context :
    ℕ → Scanned → Bytes → List (Option Bytes) → FragmentContext → FragmentContext
copy_fragment_to_context now s text fs ctx = record {
  identifier = ctx.identifier;
  total = s.t;
  count = (ctx.count + 1) % 2 ^ 32;
  total_message_len = (ctx.total_message_len + length text) % 2 ^ 64;
  last_fragment_received_at = now;
  fragments = some (put_fragment (s.i - 1) text fs);
}

-- The fragment is put where there was none among `fs`, and the message is joined when it is whole.
unfoldable pub add_fragment :
    ℕ
    → Scanned
    → Bytes
    → List (Option Bytes)
    → FragmentContext
    → List (Option FragmentContext)
    → Option Unfragmented
add_fragment now s text fs ctx contexts =
    let new = copy_fragment_to_context now s text fs ctx in
    if new.count == s.t
    then (join_fragments (put_fragment (s.i - 1) text fs) new.total_message_len >>= λ message.
        some (record {
          succeeded = true;
          message = some message;
          contexts = remove_context s.identifier contexts;
        }))
    else some (record {
      succeeded = true;
      message = none;
      contexts = replace_context s.identifier new contexts;
    })

-- The first argument is what stands at the place of the fragment among `fs`; `none` is out of the
-- array.
unfoldable pub store_fragment :
    Option (Option Bytes)
    → ℕ
    → Scanned
    → Bytes
    → List (Option Bytes)
    → FragmentContext
    → List (Option FragmentContext)
    → Option Unfragmented
store_fragment none now s text fs ctx contexts = none
store_fragment (some none) now s text fs ctx contexts = add_fragment now s text fs ctx contexts
store_fragment (some (some old)) now s text fs ctx contexts = some (record {
  succeeded = false;
  message = none;
  contexts =
      replace_context s.identifier (record ctx { total = s.t; fragments = some fs }) contexts;
})

-- Behind the search: `ctx` is the context of the fragment, which stands in `contexts`. `none` is an
-- access out of bounds or through a null pointer.
unfoldable pub receive_fragment :
    ℕ → Bytes → Scanned → FragmentContext → List (Option FragmentContext) → Option Unfragmented
receive_fragment now msg s ctx contexts =
    let fs = initialize_fragments s.t ctx in
    let text = take (s.past - s.start - 1) (drop s.start msg) in
    if s.i == 0 || s.t == 0 || ltb s.t s.i
    then some (record {
      succeeded = true;
      message = none;
      contexts = replace_context s.identifier initialize_fragment_context contexts;
    })
    else if not (ctx.total == 0) && not (ctx.total == s.t)
    then some (record { succeeded = false; message = none; contexts = contexts })
    else store_fragment (fragment_at fs (s.i - 1)) now s text fs ctx contexts

-- A context for the identifier is made at the end of the list where there is none.
unfoldable pub look_up_context :
    ℕ → Bytes → Scanned → List (Option FragmentContext) → Option Unfragmented
look_up_context now msg s contexts =
    let new = record initialize_fragment_context { identifier = s.identifier } in
    elim (find_context s.identifier contexts) [
      | none ↦ receive_fragment now msg s new (contexts ++ (some new ∷ []))
      | some ctx ↦ receive_fragment now msg s ctx contexts
    ]

module _ (c : Scanf) where
  -- `otrng_unfragment_message_generic`, where neither `contexts` nor `msg` is null.
  unfoldable pub unfragment_message_generic :
      Bytes → ℕ → List (Option FragmentContext) → Bytes → ℕ → Option Unfragmented
  unfragment_message_generic prefix now contexts msg our_instance_tag =
      let failed = some (record { succeeded = false; message = none; contexts = contexts }) in
      if not (is_fragment_generic msg prefix)
      then some (record { succeeded = true; message = some msg; contexts = contexts })
      else elim (c.scan msg) [
        | none ↦ failed
        | some s ↦
            if not (our_instance_tag == s.receiver_tag) && not (0 == s.receiver_tag)
            then some (record { succeeded = true; message = none; contexts = contexts })
            else if leb s.past s.start
            then failed
            else look_up_context now msg s contexts
      ]

  -- `otrng_unfragment_message`: the prefix is "?OTR|".
  unfoldable pub unfragment_message :
      ℕ → List (Option FragmentContext) → Bytes → ℕ → Option Unfragmented
  unfragment_message = unfragment_message_generic (63 ∷ 79 ∷ 84 ∷ 82 ∷ 124 ∷ [])
