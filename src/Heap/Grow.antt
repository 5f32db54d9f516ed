-- ===== src/Heap/Grow.antt =====
-- kernel/src/klib/cmpctmalloc.rs: `cmpct_alloc` does not run on: the loop that grows the heap ends.
use score.Base.{
  ℕ, zero, suc, ◌+◌, ◌/◌, ◌<◌, ◌≡◌, ◌≢◌, refl, min, max, leb, ltb, ◌==◌, ◌||◌, Bool, true, false,
  arith, Option, none, some, Bool-cases, inl, inr, if◌then◌else◌, Outcome, ErrNo, not_found, ok,
  err, panic, out_of_fuel, ◌>>=◌, zx_assert,
}
use score.Base.Word.{wadd}
use score.Align.{roundup}
use score.Mmu.{continue_with}
use score.Cmpct.{
  heap_max_alloc_size, size_to_index_helper, size_to_index_allocating, size_to_index_freeing,
  set_free_list_bit, clear_free_list_bit, find_nonempty_word, find_nonempty_bucket,
}
use score.Heap.{
  heap_large_alloc_bytes, heap_usable_grow_size, Heap, PageSource, create_free_area, unlink_free,
  add_to_heap, add_area, heap_page_alloc, heap_page_free, free_to_os, take_cached, heap_grow,
  grow_loop, grow_for, bucket_for, carve, take_block, cmpct_alloc,
}

data Came {ℓ} {A : Type ℓ} (o : Outcome A) : Type ℓ where
  returned : (a : A) → o ≡ ok a → Came o
  failed : (e : ErrNo) → o ≡ err e → Came o
  panicked : o ≡ panic → Came o
  ran_on : o ≡ out_of_fuel → Came o

came {ℓ} : {A : Type ℓ} (o : Outcome A) → Came o
came (ok a) = returned a refl
came (err e) = failed e refl
came panic = panicked refl
came out_of_fuel = ran_on refl

abbrev Ends {ℓ} : {A : Type ℓ} → Outcome A → Type ℓ
Ends o = o ≢ out_of_fuel

ok-Ends : {A : Type 0} (a : A) → Ends (ok a)
ok-Ends a x = cc

err-Ends : {A : Type 0} (e : ErrNo) → Ends {A = A} (err e)
err-Ends e x = cc

panic-Ends : {A : Type 0} → Ends {A = A} panic
panic-Ends x = cc

if-Ends {ℓ} :
    {A : Type ℓ} (b : Bool) (x y : Outcome A) → Ends x → Ends y → Ends (if b then x else y)
if-Ends true x y h k = h
if-Ends false x y h k = k

if-Ends_first :
    {A T : Type 0} (b : Bool) (x y : Outcome A × T)
    → Ends x.0
    → Ends y.0
    → Ends (if b then x else y).0
if-Ends_first true x y h k = h
if-Ends_first false x y h k = k

bind-Ends :
    {A B : Type 0} (o : Outcome A) (f : A → Outcome B)
    → Ends o
    → ((a : A) → Ends (f a))
    → Ends (o >>= f)
bind-Ends (ok a) f h k = k a
bind-Ends (err e) f h k = λ x. cc
bind-Ends panic f h k = λ x. cc
bind-Ends out_of_fuel f h k = absurd (h refl)

continue-Ends :
    {R T V : Type 0} (r : Outcome R × T) (f : R → T → Outcome V × T)
    → Ends r.0
    → ((a : R) (t : T) → Ends (f a t).0)
    → Ends (continue_with r f).0
unfolding continue_with
continue-Ends (ok a, t) f h k = k a t
continue-Ends (err e, t) f h k = λ x. cc
continue-Ends (panic, t) f h k = λ x. cc
continue-Ends (out_of_fuel, t) f h k = absurd (h refl)

assert-Ends : (b : Bool) → Ends (zx_assert b)
assert-Ends true x = cc
assert-Ends false x = cc

ruleset ends =
    (ok-Ends, err-Ends, panic-Ends, if-Ends, if-Ends_first, bind-Ends, continue-Ends, assert-Ends)

size_to_index_helper-Ends :
    (size adjust increment : ℕ) → Ends (size_to_index_helper size adjust increment)
unfolding size_to_index_helper
size_to_index_helper-Ends size adjust increment =
    if-Ends _ _ _ (ok-Ends _) (bind-Ends _ _ (assert-Ends _) (λ a. ok-Ends _))

freeing-Ends : (size : ℕ) → Ends (size_to_index_freeing size)
unfolding size_to_index_freeing
freeing-Ends size = bind-Ends _ _ (size_to_index_helper-Ends size 0 0) (λ a. ok-Ends _)

find_word-Ends : (n i : ℕ) (bits : ℕ → ℕ) → Ends (find_nonempty_word n i bits)
unfolding find_nonempty_word
find_word-Ends zero i bits = err-Ends not_found
find_word-Ends (suc n) i bits = if-Ends _ _ _ (ok-Ends _) (find_word-Ends n (i + 1) bits)

find-Ends : (index : ℕ) (bits : ℕ → ℕ) → Ends (find_nonempty_bucket index bits)
unfolding find_nonempty_bucket
find-Ends index bits =
    if-Ends _ _ _ panic-Ends (if-Ends _ _ _ (ok-Ends _) (find_word-Ends _ _ bits))

module _ {S : Type 0} where
  create_free_area-Ends :
      (area left size : ℕ) (h : Heap S) → Ends (create_free_area area left size h)
  unfolding create_free_area set_free_list_bit
  create_free_area-Ends area left size h =
      bind-Ends _ _ (freeing-Ends _)
        λ b. bind-Ends _ _ (if-Ends _ _ _ panic-Ends (ok-Ends _)) (λ c. ok-Ends _)

  unlink_free-Ends : (a bucket : ℕ) (h : Heap S) → Ends (unlink_free a bucket h)
  unfolding unlink_free clear_free_list_bit
  unlink_free-Ends a bucket h = search ends depth 9

  carve-Ends : (size up bucket a : ℕ) (h : Heap S) → Ends (carve size up bucket a h)
  unfolding carve
  carve-Ends size up bucket a h = search (ends, unlink_free-Ends, create_free_area-Ends)

  take_block-Ends : (size up bucket : ℕ) (h : Heap S) → Ends (take_block size up bucket h)
  unfolding take_block
  take_block-Ends size up bucket h = search (ends, carve-Ends)

  add_to_heap-Ends : (area size : ℕ) (h : Heap S) → Ends (add_to_heap area size h)
  unfolding add_to_heap
  add_to_heap-Ends area size h = bind-Ends _ _ (create_free_area-Ends _ _ _ _) (λ h'. ok-Ends _)

  add_area-Ends : (area size : ℕ) (h : Heap S) → Ends (add_area area size h).0
  unfolding add_area
  add_area-Ends area size h = came_to (add_to_heap area size h) (add_to_heap-Ends area size h)
    where
      came_to :
          (o : Outcome (Heap S))
          → Ends o
          → Ends {A = Unit {0}}
              (elim o as (λ _. Outcome (Unit {0}) × Heap S) [
                | ok h' ↦ (ok tt, h')
                | err e ↦ (err e, h)
                | panic ↦ (panic, h)
                | out_of_fuel ↦ (out_of_fuel, h)
              ]).0
      came_to (ok a) k = ok-Ends tt
      came_to (err e) k = err-Ends e
      came_to panic k = panic-Ends
      came_to out_of_fuel k = absurd (k refl)

-- The allocator of the pages does not run on.
module _ {S : Type 0} (p : PageSource S)
    (alloc_ends : (n : ℕ) (s : S) → (p.alloc_pages n s).0 ≢ out_of_fuel)
    (free_ends : (a n : ℕ) (s : S) → (p.free_pages a n s).0 ≢ out_of_fuel) where
  free_to_os-Ends : (va size : ℕ) (h : Heap S) → Ends (free_to_os p va size h).0
  unfolding free_to_os heap_page_free
  free_to_os-Ends va size h = search (ends, free_ends)

  take_cached-Ends : (size : ℕ) (h : Heap S) → Ends (take_cached p size h).0
  unfolding take_cached
  take_cached-Ends size h = search (ends, free_to_os-Ends)

  heap_page_alloc-Ends : (n : ℕ) (h : Heap S) → Ends (heap_page_alloc p n h).0
  unfolding heap_page_alloc
  heap_page_alloc-Ends n h = search (ends, alloc_ends)

  heap_grow-Ends : (n : ℕ) (h : Heap S) → Ends (heap_grow p n h).0
  unfolding heap_grow
  heap_grow-Ends n h = search (ends, take_cached-Ends, heap_page_alloc-Ends, add_area-Ends) depth 9

  grow_loop-Ends :
      (fuel growby rounded_up : ℕ) (h : Heap S)
      → growby < fuel
      → Ends (grow_loop p fuel growby rounded_up h)
  unfolding grow_loop
  grow_loop-Ends zero growby rounded_up h u = absurd (omega arith)
  grow_loop-Ends (suc fuel) growby rounded_up h u = elim (came (heap_grow p growby h).0) [
    | returned a e ↦ rw (e, grow_loop) (ok-Ends _)
    | failed e f ↦ elim (Bool-cases (leb growby rounded_up)) [
      | inl g ↦ rw (f, g, grow_loop) (ok-Ends _)
      | inr g ↦
          rw (f, g, grow_loop)
            (grow_loop-Ends fuel (max (growby / 2) rounded_up) rounded_up (heap_grow p growby h).1
              (ground arith))
    ]
    | panicked e ↦ rw (e, grow_loop) panic-Ends
    | ran_on e ↦ absurd (heap_grow-Ends growby h e)
  ]

  grow_for-Ends : (start up : ℕ) (h : Heap S) → Ends (grow_for p start up h)
  unfolding grow_for
  grow_for-Ends start up h =
      let growby = min heap_large_alloc_bytes (max (h.size / 8) (max heap_usable_grow_size up)) in
      bind-Ends _ _ (assert-Ends (leb up growby)) λ _.
        bind-Ends _ _ (grow_loop-Ends (suc growby) growby up h (omega arith))
          λ (grown, h'). if-Ends grown _ _ (found h') (ok-Ends _)
    where
      found :
          (g : Heap S)
          → Ends {A = Option ℕ × Heap S} (elim (find_nonempty_bucket start g.free_list_bits) [
            | ok bucket ↦ ok (some bucket, g)
            | err _ ↦ panic
            | panic ↦ panic
            | out_of_fuel ↦ out_of_fuel
          ])
      found g = elim (came (find_nonempty_bucket start g.free_list_bits)) [
        | returned a e ↦ rw e (ok-Ends _)
        | failed e f ↦ rw f panic-Ends
        | panicked e ↦ rw e panic-Ends
        | ran_on e ↦ absurd (find-Ends start g.free_list_bits e)
      ]

  bucket_for-Ends : (start up : ℕ) (h : Heap S) → Ends (bucket_for p start up h)
  unfolding bucket_for
  bucket_for-Ends start up h = elim (came (find_nonempty_bucket start h.free_list_bits)) [
    | returned a e ↦ rw (e, bucket_for) (ok-Ends _)
    | failed e f ↦ rw (f, bucket_for) (grow_for-Ends start up h)
    | panicked e ↦ rw (e, bucket_for) panic-Ends
    | ran_on e ↦ absurd (find-Ends start h.free_list_bits e)
  ]

  -- Where the allocator of pages does not run on, cmpct_alloc does not: the rounds given to the loop that asks
  -- for less and less memory are enough.
  pub cmpct_alloc_ends : (size : ℕ) (h : Heap S) → cmpct_alloc p size h ≢ out_of_fuel
  unfolding cmpct_alloc size_to_index_allocating
  cmpct_alloc_ends size h =
      if-Ends ((size == 0) || ltb heap_max_alloc_size size) _ _ (ok-Ends (0, h)) (
        bind-Ends _ _ (size_to_index_helper-Ends (roundup size 8) 8 1) λ (start, rounded).
          bind-Ends _ _ (bucket_for-Ends start (wadd rounded 16) h)
            λ (found, h'). taken size rounded found h')
    where
      taken :
          (size rounded : ℕ) (found : Option ℕ) (g : Heap S)
          → Ends (elim found as (λ _. Outcome (ℕ × Heap S)) [
            | none ↦ ok (0, g)
            | some bucket ↦ take_block size (wadd rounded 16) bucket g
          ])
      taken size rounded none g = ok-Ends _
      taken size rounded (some b) g = take_block-Ends _ _ _ g
