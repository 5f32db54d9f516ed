-- ===== src/Heap/Start.antt =====
-- kernel/src/klib/cmpctmalloc.rs: `add_to_heap` makes an area of one free block.
use score.Base.{
  ℕ, ◌+◌, ◌-◌, ◌^◌, ◌≤◌, ◌<◌, ◌≡◌, ◌≢◌, refl, sym, ap, ◌∙◌, true, false, ◌==◌, arith, List, [], ◌∷◌,
  All-imp, All-both, ok,
}
use score.Base.Word.{usize_mod, wadd, wsub}
use score.Align.{is_page_aligned}
use score.LinkedList.Chain.{NotIn}
use score.LinkedList.Family.{Outside, put}
use score.Cmpct.Buckets.{freeing_bound}
use score.Heap.{Heap, Header, write, create_free_area, add_to_heap}
use score.Heap.Lists.{IsFree, IsTagged, SameRest, create_free_area_lem}
use score.Heap.Blocks.{IsArea, write-other, write-at}
use score.Heap.Gaps.{In-put_new, NotIn-put_front}

IsTagged-write_other :
    (m : ℕ → Header) (a : ℕ) (v : Header) (n : ℕ)
    → n ≢ a + 16
    → IsTagged m n
    → IsTagged (write a v m) n
unfolding write
IsTagged-write_other m a v n ne h =
    let e : (n - 16 == a) ≡ false = ground (arith, ne, h.0) in (h.0, rw (e, h.1) refl)

-- A header in front of a node that is in no list is nothing to the free lists.
write-IsFree :
    {S : Type 0} (h : Heap S) (qs : ℕ → List ℕ) (a : ℕ) (v : Header)
    → ((i : ℕ) → i < 128 → NotIn (a + 16) (qs i))
    → IsFree h qs
    → IsFree (record h { header = write a v h.header }) qs
write-IsFree h qs a v out free = record {
  lists = free.lists;
  words = free.words;
  marks = free.marks;
  tagged = λ i u.
      All-imp {Q = IsTagged (write a v h.header)}
        (λ x b. IsTagged-write_other h.header a v x b.0 b.1) (qs i)
        (All-both (λ x. x ≢ a + 16) (IsTagged h.header) (qs i) (out i u) (free.tagged i u));
}

add_runs :
    {S : Type 0} (h h2 : Heap S) (area size : ℕ)
    → 64 ≤ size
    → area + size < usize_mod
    → create_free_area
        (area + 16)
        area
        (size - 32)
        (record h { header = write area (record { left = 0; size = 16; flag = 0 }) h.header })
      ≡ ok h2
    → add_to_heap area size h
      ≡ ok (record h2 {
        header =
            write (area + size - 16) (record { left = area + 16; size = 0; flag = 0 }) h2.header;
      })
unfolding add_to_heap
add_runs h h2 area size large fits ran =
    let self : wadd area 0 ≡ area = omega (arith, fits) in
    let next : wadd area 16 ≡ area + 16 = omega (arith, fits, large) in
    let middle : wsub size 32 ≡ size - 32 = omega (arith, fits, large) in
    let end : wsub (wadd area size) 16 ≡ area + size - 16 = omega (arith, fits, large) in
    let end_self : wadd (area + size - 16) 0 ≡ area + size - 16 = omega (arith, fits) in
    rw (self, next, middle, ran, end, end_self) refl

-- For a part of memory that starts at a page other than 0, of 64 bytes and up to 2 ^ 21, that ends below the top
-- and has no node of a free list in it, nor the own node of one, where the bytes counted as free and the size are below 2 ^ 64 together: add_to_heap returns, the memory is an area with one free block,
-- of all bytes but those of the two sentinels, the free lists and their bits agree with it, and the bytes counted
-- as free are more by its size.
pub add_to_heap-IsArea :
    {S : Type 0} (h : Heap S) (qs : ℕ → List ℕ) (area size : ℕ)
    → IsFree h qs
    → is_page_aligned area ≡ true
    → area ≢ 0
    → 64 ≤ size
    → size ≤ 2 ^ 21
    → area + size < usize_mod
    → h.remaining + size < usize_mod
    → ((x : ℕ) → area ≤ x → x ≤ area + size → Outside 128 h.free_lists qs x)
    → (h' : Heap S) × (qs' : ℕ → List ℕ) × (add_to_heap area size h ≡ ok h')
      × IsFree h' qs'
      × IsArea h' qs' area [] ((size - 32, true) ∷ []) h.remaining
      × SameRest h h'
unfolding Outside
add_to_heap-IsArea {S} h qs area size free aligned some large small fits word fresh =
    let first : Header = record { left = 0; size = 16; flag = 0 } in
    let last : Header = record { left = area + 16; size = 0; flag = 0 } in
    let n = size - 32 in
    let end = area + size - 16 in
    let h1 : Heap S = record h { header = write area first h.header } in
    let free1 =
      write-IsFree h qs area first
        (λ i u. (fresh (area + 16) (omega arith) (omega (arith, large)) i u).1) free in
    let (bucket, index, low) =
      freeing_bound (n - 16) (omega (arith, large)) (omega (arith, small, large)) in
    let (h2, ran, free2, header, more, same) =
      create_free_area_lem h1 qs (area + 16) area n bucket free1 index low
        (fresh (area + 16 + 16) (omega arith) (omega (arith, large))) (omega (arith, fits, large))
        (omega (arith, large)) (omega (arith, small)) in
    let qs2 = put bucket ((area + 16 + 16) ∷ qs bucket) qs in
    let block : Header = record { left = area; size = n; flag = 1 } in
    let second = λ (x : ℕ) (ne : x ≢ area + 16).
      ap (λ (k : ℕ → Header). k x) header ∙ write-other (area + 16) block h1.header x ne in
    let third = λ (x : ℕ) (ne : x ≢ end). write-other end last h2.header x ne in
    let h3 : Heap S = record h2 { header = write end last h2.header } in
    let at_block : write end last h2.header (area + 16) ≡ block =
      third (area + 16) (omega (arith, large))
      ∙ ap (λ (k : ℕ → Header). k (area + 16)) header
      ∙ write-at (area + 16) block h1.header in
    let at_first : write end last h2.header area ≡ first =
      third area (omega (arith, large))
      ∙ second area (omega arith)
      ∙ write-at area first h.header in
    let place_end : area + 16 + n ≡ end = omega (arith, large) in
    let at_last : write end last h2.header (area + 16 + n) ≡ last =
      ap (write end last h2.header) place_end ∙ write-at end last h2.header in
    let new =
      λ (x i : ℕ) (l : area ≤ x) (v : x ≤ area + size) (ne : x ≢ area + 16 + 16) (u : i < 128).
        NotIn-put_front qs bucket (area + 16 + 16) x i ne (fresh x l v i u).1 in
    (
      h3,
      qs2,
      add_runs h h2 area size large fits ran,
      write-IsFree h2 qs2 end last
          (λ i u.
            new (end + 16) i (omega (arith, large)) (omega (arith, large)) (omega (arith, large)) u)
          free2,
      record {
        in_place = record {
          aligned = aligned;
          some = some;
          start = ap (λ (k : Header). k.left) at_first;
          size_is = ap (λ (k : Header). k.size) at_first;
          flag_is = ap (λ (k : Header). k.flag) at_first;
          bounded = omega (arith, small, large);
          fits = omega (arith, fits, large);
          apart = λ i u x l v e.
              (fresh x l (omega (arith, v, large)) i u).0
                (ap (λ (f : ℕ → ℕ). f i) (sym same.free_lists) ∙ e);
        };
        behind = tt;
        ahead = (
          record {
            left_is = ap (λ (k : Header). k.left) at_block;
            size_is = ap (λ (k : Header). k.size) at_block;
            flag_is = ap (λ (k : Header). k.flag) at_block;
            large = omega (arith, large);
            listed = λ e. (bucket, low, index, In-put_new qs bucket (area + 16 + 16));
            clean = λ x i u v w.
                new x i (omega (arith, u)) (omega (arith, v, large)) (omega (arith, u)) w;
          },
          (
            ap (λ (k : Header). k.left) at_last,
            ap (λ (k : Header). k.size) at_last,
            ap (λ (k : Header). k.flag) at_last,
          ),
        );
        counted = more ∙ omega (arith, word);
        word = omega (arith, more, word, large);
      },
      record {
        free_lists = same.free_lists;
        size = same.size;
        cached_os_alloc = same.cached_os_alloc;
        source = same.source;
      },
    )
