-- ===== src/Fragment/Expire.antt =====
-- `otrng_expire_fragments` of src/fragment.c, on the linked list of fragment contexts.
use libotrv.Prelude.{
  ℕ, zero, suc, ◌+◌, ◌≤◌, ◌<◌, ◌≡◌, refl, ap, ◌∙◌, Bool, true, false, Option, none, some, List, [],
  ◌∷◌, ◌++◌, arith, ltb, length, All, Bytes, ltb-eq_true, ltb-eq_false,
}
use libotrv.Memory.{Pointer, Heap, Outcome, done, stuck, ◌>>=◌, load, release}
use libotrv.LinkedList.{remove_element, list_free}
use libotrv.LinkedList.Segment.{head_of, Segment, IsList}
use libotrv.LinkedList.Remove.{Removed, remove_element_lem}

-- `fragment_context_s`; `fragments` is `none` for a null pointer, as is each of them.
pub record FragmentContext : Type 0 where
  pub identifier : ℕ
  pub total : ℕ
  pub count : ℕ
  pub total_message_len : ℕ
  pub last_fragment_received_at : ℕ
  pub fragments : Option (List (Option Bytes))

-- `(ctx != NULL) && (difftime(now, ctx->last_fragment_received_at) < expiration_time)`
unfoldable pub taken_out : ℕ → ℕ → Option FragmentContext → Bool
taken_out now expiration_time none = false
taken_out now expiration_time (some ctx) = ltb now (ctx.last_fragment_received_at + expiration_time)

-- Taking the node `a` out: the contexts that are left, and `current->next`, which is read after the
-- node was taken out. `walk` is the fuel of the two list functions. The context itself is not on the
-- heap of nodes.
unfoldable pub take_node :
    Bool
    → ℕ
    → Heap FragmentContext
    → Pointer
    → ℕ
    → Pointer
    → Outcome (Pointer × Heap FragmentContext × Pointer)
take_node false walk h contexts a next = done (contexts, h, next)
take_node true walk h contexts a next = remove_element walk h (some a) contexts >>= λ r.
    load r.1 a >>= λ m. list_free walk r.1 (some a) >>= λ h2. done (r.0, h2, m.next)

unfoldable pub expire_node :
    ℕ
    → ℕ
    → ℕ
    → Heap FragmentContext
    → Pointer
    → ℕ
    → Outcome (Pointer × Heap FragmentContext × Pointer)
expire_node walk now expiration_time h contexts a =
    load h a >>= λ n. take_node (taken_out now expiration_time n.payload) walk h contexts a n.next

unfoldable pub expire_loop :
    ℕ
    → ℕ
    → ℕ
    → ℕ
    → Heap FragmentContext
    → Pointer
    → Pointer
    → Outcome (Pointer × Heap FragmentContext)
expire_loop fuel walk now expiration_time h contexts none = done (contexts, h)
expire_loop zero walk now expiration_time h contexts (some a) = stuck
expire_loop (suc fuel) walk now expiration_time h contexts (some a) =
    expire_node walk now expiration_time h contexts a >>= λ r.
    expire_loop fuel walk now expiration_time r.1 r.0 r.2

unfoldable pub expire_fragments :
    ℕ → ℕ → ℕ → ℕ → Heap FragmentContext → Pointer → Outcome (Pointer × Heap FragmentContext)
expire_fragments fuel walk now expiration_time h contexts =
    expire_loop fuel walk now expiration_time h contexts contexts

-- The age of a context in a node: younger than the expiration time, or not; the null pointer is not.
abbrev pub IsYoung : ℕ → ℕ → Option FragmentContext → Type 0
IsYoung now expiration_time none = ⊥
IsYoung now expiration_time (some ctx) = now < ctx.last_fragment_received_at + expiration_time

abbrev pub IsOld : ℕ → ℕ → Option FragmentContext → Type 0
IsOld now expiration_time none = Unit {0}
IsOld now expiration_time (some ctx) = ctx.last_fragment_received_at + expiration_time ≤ now

taken_out-IsYoung :
    (now expiration_time : ℕ) (v : Option FragmentContext)
    → IsYoung now expiration_time v
    → taken_out now expiration_time v ≡ true
unfolding taken_out
taken_out-IsYoung now expiration_time none h = absurd h
taken_out-IsYoung now expiration_time (some ctx) h = ltb-eq_true now _ h

taken_out-IsOld :
    (now expiration_time : ℕ) (v : Option FragmentContext)
    → IsOld now expiration_time v
    → taken_out now expiration_time v ≡ false
unfolding taken_out
taken_out-IsOld now expiration_time none h = refl
taken_out-IsOld now expiration_time (some ctx) h = ltb-eq_false now _ h

-- The contexts that the loop passes over.
ArePassed : ℕ → ℕ → List (ℕ × Option FragmentContext) → Type 0
ArePassed now expiration_time = All (λ n. taken_out now expiration_time n.1 ≡ false)

abbrev pub AreOld : ℕ → ℕ → List (ℕ × Option FragmentContext) → Type 0
AreOld now expiration_time = All (λ n. IsOld now expiration_time n.1)

AreOld-ArePassed :
    (now expiration_time : ℕ) (front : List (ℕ × Option FragmentContext))
    → AreOld now expiration_time front
    → ArePassed now expiration_time front
unfolding ArePassed
AreOld-ArePassed now expiration_time [] h = tt
AreOld-ArePassed now expiration_time (n ∷ front) h =
    (taken_out-IsOld now expiration_time n.1 h.0, AreOld-ArePassed now expiration_time front h.1)

take_node-true :
    (walk : ℕ) (h h1 : Heap FragmentContext) (contexts left next : Pointer) (a : ℕ)
    (v : Option FragmentContext)
    → remove_element (suc walk) h (some a) contexts ≡ done (left, h1)
    → h1.cell a ≡ some (record { payload = v; next = none })
    → take_node true (suc walk) h contexts a next ≡ done (left, release h1 a, none)
unfolding take_node load list_free
take_node-true walk h h1 contexts left next a v removed alone =
    rw (removed, take_node) (rw (alone) refl)

expire_node-young :
    (walk now expiration_time : ℕ) (h h1 : Heap FragmentContext) (contexts left next : Pointer)
    (a : ℕ) (v : Option FragmentContext)
    → h.cell a ≡ some (record { payload = v; next = next })
    → taken_out now expiration_time v ≡ true
    → remove_element (suc walk) h (some a) contexts ≡ done (left, h1)
    → h1.cell a ≡ some (record { payload = v; next = none })
    → expire_node (suc walk) now expiration_time h contexts a ≡ done (left, release h1 a, none)
unfolding expire_node load
expire_node-young walk now expiration_time h h1 contexts left next a v cell young removed alone =
    rw (cell, expire_node, load)
      (ap (λ (b : Bool). take_node b (suc walk) h contexts a next) young
        ∙ take_node-true walk h h1 contexts left next a v removed alone)

expire_node-old :
    (walk now expiration_time : ℕ) (h : Heap FragmentContext) (contexts next : Pointer) (a : ℕ)
    (v : Option FragmentContext)
    → h.cell a ≡ some (record { payload = v; next = next })
    → taken_out now expiration_time v ≡ false
    → expire_node walk now expiration_time h contexts a ≡ done (contexts, h, next)
unfolding expire_node load take_node
expire_node-old walk now expiration_time h contexts next a v cell old =
    rw (cell, expire_node, load) (ap (λ (b : Bool). take_node b walk h contexts a next) old)

expire_from :
    (fuel walk now expiration_time : ℕ) (h h1 : Heap FragmentContext) (contexts left : Pointer)
    (front back : List (ℕ × Option FragmentContext)) (a : ℕ) (v : Option FragmentContext)
    → Segment h (front ++ ((a, v) ∷ back))
    → ArePassed now expiration_time front
    → length front < fuel
    → taken_out now expiration_time v ≡ true
    → remove_element (suc walk) h (some a) contexts ≡ done (left, h1)
    → h1.cell a ≡ some (record { payload = v; next = none })
    → expire_loop fuel
        (suc walk)
        now
        expiration_time
        h
        contexts
        (head_of (front ++ ((a, v) ∷ back)))
      ≡ done (left, release h1 a)
unfolding ArePassed expire_loop
expire_from zero walk now expiration_time h h1 contexts left front back a v s p lt young removed
      alone =
    absurd (omega arith)
expire_from (suc fuel) walk now expiration_time h h1 contexts left [] back a v s p lt young removed
      alone =
    rw
      (
        expire_node-young walk now expiration_time h h1 contexts left (head_of back) a v s.0 young
            removed alone,
        expire_loop,
      )
      refl
expire_from (suc fuel) walk now expiration_time h h1 contexts left ((b, u) ∷ front) back a v s p lt
      young removed alone =
    rw
      (
        expire_node-old (suc walk) now expiration_time h contexts
            (head_of (front ++ ((a, v) ∷ back))) b u s.0 p.0,
        expire_loop,
      )
      (expire_from fuel walk now expiration_time h h1 contexts left front back a v s.1 p.1
        (omega arith) young removed alone)

-- In a well-formed list, with enough fuel, `otrng_expire_fragments` takes out the first context that is
-- younger than the expiration time, and stops there: contexts that are older stay in front of it, and
-- those behind it are not looked at, whatever their age.
pub expire_fragments_lem :
    (front back : List (ℕ × Option FragmentContext)) (a : ℕ) (v : Option FragmentContext)
    (fuel walk now expiration_time : ℕ) (h : Heap FragmentContext)
    → IsList h (front ++ ((a, v) ∷ back))
    → AreOld now expiration_time front
    → IsYoung now expiration_time v
    → length front < fuel
    → length front ≤ suc walk
    → (h1 : Heap FragmentContext) × (expire_fragments fuel
          (suc walk)
          now
          expiration_time
          h
          (head_of (front ++ ((a, v) ∷ back)))
        ≡ done (head_of (front ++ back), release h1 a))
      × Removed h front a v back h1
unfolding expire_fragments
expire_fragments_lem front back a v fuel walk now expiration_time h l p young lt room =
    let (h1, removed, r) = remove_element_lem (suc walk) h front a v back l room in
    (
      h1,
      expire_from fuel walk now expiration_time h h1 (head_of (front ++ ((a, v) ∷ back)))
          (head_of (front ++ back)) front back a v l.chained
          (AreOld-ArePassed now expiration_time front p) lt
          (taken_out-IsYoung now expiration_time v young) removed r.alone,
      r,
    )
