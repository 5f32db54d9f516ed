-- ===== src/Heap/Serve.antt =====
-- kernel/src/klib/cmpctmalloc.rs: `cmpct_alloc`, and what `cmpct_free` makes of its result.
use score.Base.{
  ℕ, ◌+◌, ◌-◌, ◌≤◌, ◌<◌, ◌≡◌, refl, sym, ap, ◌∙◌, subst, inl, inr, true, false, ◌==◌, ◌&&◌, ltb,
  arith, List, [], ◌∷◌, ok, Bool-cases, Outcome, length, some,
}
use score.Base.Word.{usize_mod, wadd}
use score.Cmpct.{
  number_of_buckets, heap_max_alloc_size, size_to_index_allocating, size_to_index_freeing,
  find_nonempty_bucket,
}
use score.Cmpct.Buckets.{freeing_bound, allocating-Serves, allocating-ge}
use score.Heap.{Heap, PageSource, take_block, cmpct_alloc, bucket_for, cmpct_free}
use score.Heap.Lists.{IsFree, SameRest}
use score.Heap.Blocks.{Block, place, IsArea, place-total}
use score.Heap.Unlink.{Unlinks, unlink_lem}
use score.Heap.Carve.{splits, taken}
use score.Heap.Alloc.{finds, Takes, take_whole, take_split}
use score.Heap.Gaps.{is_nil}
use score.Heap.Joins.{free_size, used_rest}
use score.Heap.Free.{cmpct_free-IsArea}

bucket_found :
    {S : Type 0} (p : PageSource S) (h : Heap S) (start rounded_up bucket : ℕ)
    → find_nonempty_bucket start h.free_list_bits ≡ ok bucket
    → bucket_for p start rounded_up h ≡ ok (some bucket, h)
unfolding bucket_for
bucket_found p h start rounded_up bucket found = rw (found, bucket_for) refl

serve_runs :
    {S : Type 0} (p : PageSource S) (h : Heap S) (wanted start rounded bucket : ℕ)
    (result : Outcome (ℕ × Heap S))
    → 1 ≤ wanted
    → wanted ≤ heap_max_alloc_size
    → size_to_index_allocating wanted ≡ ok (start, rounded)
    → find_nonempty_bucket start h.free_list_bits ≡ ok bucket
    → rounded + 16 < usize_mod
    → take_block wanted (rounded + 16) bucket h ≡ result
    → cmpct_alloc p wanted h ≡ result
unfolding cmpct_alloc
serve_runs p h wanted start rounded bucket result l u e found fits ran =
    let not_zero : (wanted == 0) ≡ false = ground (arith, l) in
    let small : ltb heap_max_alloc_size wanted ≡ false = ground (arith, u) in
    let up : wadd rounded 16 ≡ rounded + 16 = omega (arith, fits) in
    rw (not_zero, small, e, bucket_found p h start (wadd rounded 16) bucket found)
      (ap (λ (t : ℕ). take_block wanted t bucket h) up ∙ ran)

takes :
    {S : Type 0} (h h1 : Heap S) (qs qs1 : ℕ → List ℕ) (base : ℕ) (pre post : List Block)
    (size rest wanted rounded bucket : ℕ) (xs : List ℕ) (free : IsFree h qs)
    (area : IsArea h qs base pre ((size, true) ∷ post) rest)
    (u : Unlinks h qs (place base pre) size h1 qs1)
    (index : size_to_index_freeing (size - 16) ≡ ok bucket) (low : bucket < number_of_buckets)
    (first : qs bucket ≡ (place base pre + 16) ∷ xs)
    → 32 ≤ rounded
    → rounded ≤ size
    → Takes h h1 qs qs1 base pre post size rest wanted rounded bucket xs free area u index low first
        (taken wanted rounded size post)
takes h h1 qs qs1 base pre post size rest wanted rounded bucket xs free area u index low first cut
      fits =
    elim (Bool-cases (splits wanted rounded size)) [
      | inl f ↦ rw f (
          take_split h h1 qs qs1 base pre post size rest wanted rounded bucket xs free area u index
            low first cut fits f (ground arith))
      | inr f ↦ rw f (
          take_whole h h1 qs qs1 base pre post size rest wanted rounded bucket xs free area u index
            low first fits f)
    ]

-- For a request of 9 bytes or more and up to the maximum, with the bucket of the request empty and so all
-- up to that of a free block of an area, which is the first of its list, and whose free blocks are in the free
-- lists: cmpct_alloc returns the payload of the block, which has at least the bytes asked for; the block is in use, whole,
-- or cut with its rest a free block of at least 32 bytes; the other blocks of the area are as before, and the free lists
-- and their bits agree with the free blocks again.
pub cmpct_alloc-IsArea :
    {S : Type 0} (p : PageSource S) (h : Heap S) (qs : ℕ → List ℕ) (base : ℕ) (pre : List Block)
    (size : ℕ) (post : List Block) (rest wanted start rounded bucket : ℕ) (xs : List ℕ)
    → IsFree h qs
    → IsArea h qs base pre ((size, true) ∷ post) rest
    → 9 ≤ wanted
    → wanted ≤ heap_max_alloc_size
    → size_to_index_allocating wanted ≡ ok (start, rounded)
    → size_to_index_freeing (size - 16) ≡ ok bucket
    → start ≤ bucket
    → ((i : ℕ) → start ≤ i → i < bucket → qs i ≡ [])
    → qs bucket ≡ (place base pre + 16) ∷ xs
    → (h' : Heap S) × (qs' : ℕ → List ℕ) × (cmpct_alloc p wanted h ≡ ok (place base pre + 16, h'))
      × IsFree h' qs'
      × IsArea h' qs' base pre (taken wanted (rounded + 16) size post) rest
      × SameRest h h'
      × (wanted ≤ rounded)
      × (rounded + 16 ≤ size)
cmpct_alloc-IsArea p h qs base pre size post rest wanted start rounded bucket xs free area l u e
      index from none first =
    let q = area.in_place in
    let c = area.ahead.0 in
    let large = c.large in
    let at = place-total base pre in
    let a = place base pre in
    let (b, r, e', (room, _, serves)) = allocating-Serves wanted (omega (arith, l)) u in
    let (bucket', index', low') =
      freeing_bound (size - 16) (omega (arith, large)) (omega (arith, q.bounded)) in
    let same : ◌≡◌ {A = Outcome (ℕ × ℕ)} (ok (start, rounded)) (ok (b, r)) = sym e ∙ e' in
    let is : rounded ≡ r = cc in
    let is_start : start ≡ b = cc in
    let same' : ok bucket ≡ ok bucket' = sym index ∙ index' in
    let is_bucket : bucket ≡ bucket' = cc in
    let low : bucket < number_of_buckets = omega (arith, is_bucket, low') in
    let enough =
      serves (size - 16) bucket (omega (arith, large)) (omega (arith, q.bounded)) index
        (omega (arith, from, is_start)) in
    let at_least = allocating-ge wanted start rounded l u e in
    let fits : rounded + 16 ≤ size = omega (arith, enough, is, large) in
    let (h1, qs1, un) =
      unlink_lem h qs a size free (c.listed refl) c.size_is (omega (arith, large))
        (omega (arith, q.fits, at)) (omega (arith, area.counted)) (omega (arith, area.word))
        (omega (arith, q.fits, at, large)) in
    let found = finds h qs start bucket (a + 16) xs free low from none first in
    let (h', qs', ran, free', area', rest_same) =
      takes h h1 qs qs1 base pre post size rest wanted (rounded + 16) bucket xs free area un index
        low first (omega (arith, at_least)) fits in
    (
      h',
      qs',
      serve_runs p h wanted start rounded bucket (ok (a + 16, h')) (omega (arith, l)) u e found
          (omega (arith, fits, q.fits)) ran,
      free',
      area',
      rest_same,
      omega (arith, room, is),
      fits,
    )

-- What is taken of a block, and the free rest, join to the block again.
taken-joins :
    (wanted rounded size : ℕ) (post : List Block)
    → rounded ≤ size
    → free_size post ≡ 0
    → used_rest post ≡ post
    → (s : ℕ) × (behind : List Block) × (taken wanted rounded size post ≡ (s, false) ∷ behind)
      × (s + free_size behind ≡ size)
      × (used_rest behind ≡ post)
taken-joins wanted rounded size post fits z e = elim (Bool-cases (splits wanted rounded size)) [
  | inl f ↦ (rounded, (size - rounded, true) ∷ post, rw f refl, omega (arith, fits), refl)
  | inr f ↦ (size, post, rw f refl, omega (arith, z), e)
]

settled-free : (bs : List Block) → used_rest bs ≡ bs → free_size bs ≡ 0
settled-free [] e = refl
settled-free ((n, false) ∷ bs) e = refl
settled-free ((n, true) ∷ bs) e = absurd (omega (arith, ap length e))

-- Under the same conditions, and with no free block beside the one that is taken, of which one at
-- least is in use: cmpct_free of what cmpct_alloc returned makes the area what it was, with as many bytes
-- counted as free.
pub cmpct_free-cmpct_alloc :
    {S : Type 0} (p : PageSource S) (h : Heap S) (qs : ℕ → List ℕ) (base : ℕ) (pre : List Block)
    (size : ℕ) (post : List Block) (rest wanted start rounded bucket : ℕ) (xs : List ℕ)
    → IsFree h qs
    → IsArea h qs base pre ((size, true) ∷ post) rest
    → 9 ≤ wanted
    → wanted ≤ heap_max_alloc_size
    → size_to_index_allocating wanted ≡ ok (start, rounded)
    → size_to_index_freeing (size - 16) ≡ ok bucket
    → start ≤ bucket
    → ((i : ℕ) → start ≤ i → i < bucket → qs i ≡ [])
    → qs bucket ≡ (place base pre + 16) ∷ xs
    → used_rest pre ≡ pre
    → used_rest post ≡ post
    → (is_nil pre && is_nil post) ≡ false
    → (payload : ℕ) × (h1 h2 : Heap S) × (qs2 : ℕ → List ℕ) × (cmpct_alloc p wanted h
        ≡ ok (payload, h1))
      × (cmpct_free p payload h1 ≡ ok h2)
      × IsFree h2 qs2
      × IsArea h2 qs2 base pre ((size, true) ∷ post) rest
      × (h2.remaining ≡ h.remaining)
cmpct_free-cmpct_alloc p h qs base pre size post rest wanted start rounded bucket xs free area l u e
      index from none first settled settled' partly =
    let zero_pre = settled-free pre settled in
    let (h1, qs1, ran, free1, area1, _, _, fits) =
      cmpct_alloc-IsArea p h qs base pre size post rest wanted start rounded bucket xs free area l u
        e index from none first in
    let (s, behind, is, joins, rejoins) =
      taken-joins wanted (rounded + 16) size post fits (settled-free post settled') settled' in
    let (h2, qs2, ran2, free2, area2, _) =
      cmpct_free-IsArea p h1 qs1 base pre s behind rest free1
        (subst (λ (t : List Block). IsArea h1 qs1 base pre t rest) is area1)
        (ap (λ (t : List Block). is_nil t && is_nil (used_rest behind)) settled
          ∙ ap (λ (t : List Block). is_nil pre && is_nil t) rejoins
          ∙ partly) in
    let whole : free_size pre + s + free_size behind ≡ size = omega (arith, zero_pre, joins) in
    let again =
      subst (λ (t : ℕ). IsArea h2 qs2 base pre ((t, true) ∷ post) rest) whole
        (subst
          (λ (t : List Block).
            IsArea h2 qs2 base pre ((free_size pre + s + free_size behind, true) ∷ t) rest)
          rejoins
          (subst
            (λ (t : List Block).
              IsArea h2 qs2 base t ((free_size pre + s + free_size behind, true) ∷ used_rest behind)
                rest)
            settled area2)) in
    (place base pre + 16, h1, h2, qs2, ran, ran2, free2, again, again.counted ∙ sym area.counted)
