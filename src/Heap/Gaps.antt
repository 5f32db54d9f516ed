-- ===== src/Heap/Gaps.antt =====
-- kernel/src/klib/cmpctmalloc.rs: the place of a block that is to be freed, and `free_memory` at it.
use score.Base.{
  sym, ℕ, ◌+◌, ◌-◌, ◌^◌, ◌≤◌, ◌<◌, ◌≡◌, ◌≢◌, refl, ap, ◌∙◌, subst, inl, inr, Bool, true, false,
  ◌&&◌, ◌==◌, arith, Bool-cases, List, [], ◌∷◌, All-imp, ok, ◌%◌,
}
use score.Base.Word.{usize_mod, wadd}
use score.Align.{is_page_aligned}
use score.LinkedList.Family.{Outside, put, put-here, put-other}
use score.Cmpct.Buckets.{freeing_bound}
use score.Heap.{
  Heap, Header, PageSource, write, free_memory, is_start_of_os_allocation, is_end_of_os_allocation,
  possibly_free_to_os,
}
use score.Heap.Lists.{IsFree, IsTagged, SameRest, create_free_area_lem}
use score.Heap.Removal.{IsTagged-write}
use score.LinkedList.Chain.{NotIn}
use score.Heap.Blocks.{
  Clears, Block, total, free_bytes, used_bytes, place, before, In, Listed, Before, After, InPlace,
  IsArea, IsGap, Keeps, Before-frame, After-frame, After-relink, write-other, write-at, place-total,
}

pub InPlace-same :
    {S : Type 0} (h h' : Heap S) (base len len' : ℕ)
    → h'.header base ≡ h.header base
    → h'.free_lists ≡ h.free_lists
    → len ≡ len'
    → InPlace h base len
    → InPlace h' base len'
InPlace-same h h' base len len' e f is p =
    let q : InPlace h' base len = record {
      aligned = p.aligned;
      some = p.some;
      start = ap (λ (k : Header). k.left) e ∙ p.start;
      size_is = ap (λ (k : Header). k.size) e ∙ p.size_is;
      flag_is = ap (λ (k : Header). k.flag) e ∙ p.flag_is;
      bounded = p.bounded;
      fits = p.fits;
      apart = λ i u x l v. rw f (p.apart i u x l v);
    } in
    subst (InPlace h' base) is q

-- The bytes from the place up to `e` become a gap when the block at `e` is told where it starts.
pub gap :
    {S : Type 0} (h h' : Heap S) (qs qs' : ℕ → List ℕ) (base : ℕ) (pre : List Block) (n : ℕ)
    (post : List Block) (rest len left e : ℕ)
    → InPlace h base len
    → len ≡ total pre + n + total post
    → e ≡ place base pre + n
    → 16 ≤ n
    → Before h.header qs base pre
    → After h.header qs left e post
    → ((x : ℕ) → x < place base pre → h'.header x ≡ h.header x)
    → h'.header e ≡ record (h.header e) { left = place base pre }
    → ((x : ℕ) → e < x → h'.header x ≡ h.header x)
    → Keeps qs qs' (λ x. x < place base pre)
    → Keeps qs qs' (λ x. e ≤ x)
    → Clears qs qs' (λ _. Unit {0})
    → ((x i : ℕ) → place base pre + 16 < x → x < e + 16 → i < 128 → NotIn x (qs' i))
    → h'.free_lists ≡ h.free_lists
    → h'.remaining ≡ free_bytes pre + free_bytes post + rest
    → h'.remaining + used_bytes pre + n + used_bytes post < usize_mod
    → IsGap h' qs' base pre n post rest
gap h h' qs qs' base pre n post rest len left e p is end large b a low first high kl kh clears clean
      f counted word =
    record {
      in_place =
          InPlace-same h h' base len (total pre + n + total post)
            (low base (omega (arith, place-total base pre))) f is p;
      behind = Before-frame h.header h'.header qs qs' base pre low kl (λ x i u. clears x i tt) b;
      ahead =
          subst (λ (t : ℕ). After h'.header qs' (place base pre) t post) end
            (After-relink h.header h'.header qs qs' left (place base pre) e post first high kh
              (λ x i u. clears x i tt) a);
      clean = λ x i u v w. clean x i u (omega (arith, v, end)) w;
      counted = counted;
      word = word;
    }

pub In-put_front : (qs : ℕ → List ℕ) (q p i n : ℕ) → In n (qs i) → In n (put q (p ∷ qs q) qs i)
In-put_front qs q p i n h = elim (Bool-cases (i == q)) [
  | inl e ↦
      let is : i ≡ q = ground arith in
      rw (put-here q (p ∷ qs q) qs i e) (inr (subst (λ (t : ℕ). In n (qs t)) is h))
  | inr e ↦ rw (put-other q (p ∷ qs q) qs i e) h
]

pub In-put_new : (qs : ℕ → List ℕ) (q p : ℕ) → In p (put q (p ∷ qs q) qs q)
In-put_new qs q p =
    let self : (q == q) ≡ true = ground arith in rw (put-here q (p ∷ qs q) qs q self) (inl refl)

pub NotIn-put_front :
    (qs : ℕ → List ℕ) (q p n i : ℕ) → n ≢ p → NotIn n (qs i) → NotIn n (put q (p ∷ qs q) qs i)
NotIn-put_front qs q p n i ne o = elim (Bool-cases (i == q)) [
  | inl e ↦
      let is : i ≡ q = ground arith in
      rw (put-here q (p ∷ qs q) qs i e) ((λ f. ne (sym f)), subst (λ (t : ℕ). NotIn n (qs t)) is o)
  | inr e ↦ rw (put-other q (p ∷ qs q) qs i e) o
]

-- The whole area is free when nothing stands on either side.
abbrev pub is_nil : List Block → Bool
is_nil [] = true
is_nil (b ∷ bs) = false

start_test :
    {S : Type 0} (h : Heap S) (qs : ℕ → List ℕ) (base len : ℕ) (pre : List Block)
    → InPlace h base len
    → Before h.header qs base pre
    → is_start_of_os_allocation (before base pre) h.header ≡ is_nil pre
unfolding is_start_of_os_allocation
start_test h qs base len [] p b = rw p.start refl
start_test h qs base len (c ∷ []) p b = rw b.0.left_is (ground (arith, p.some))
start_test h qs base len (c ∷ d ∷ pre) p b = rw b.0.left_is (ground (arith, place-total base pre))

end_test :
    (m : ℕ → Header) (qs : ℕ → List ℕ) (left a : ℕ) (post : List Block)
    → After m qs left a post
    → is_end_of_os_allocation a m ≡ is_nil post
unfolding is_end_of_os_allocation
end_test m qs left a [] h = let e = h.1 in rw e refl
end_test m qs left a (b ∷ post) h = let e = h.0.size_is in rw e (ground (arith, h.0.large))

and_false : (a b c d e : Bool) → b ≡ d → c ≡ e → (d && e) ≡ false → (a && b && c) ≡ false
and_false a b c d e f g h = ground (arith)

-- free_memory makes a gap a free block of the list for its size, unless it is all of the area.
pub free_memory-IsArea :
    {S : Type 0} (p : PageSource S) (h : Heap S) (qs : ℕ → List ℕ) (base : ℕ) (pre : List Block)
    (n : ℕ) (post : List Block) (rest : ℕ)
    → IsFree h qs
    → IsGap h qs base pre n post rest
    → 32 ≤ n
    → Outside 128 h.free_lists qs (place base pre + 16)
    → (is_nil pre && is_nil post) ≡ false
    → (h' : Heap S) × (qs' : ℕ → List ℕ) × (free_memory p (place base pre) (before base pre) n h
        ≡ ok h')
      × IsFree h' qs'
      × IsArea h' qs' base pre ((n, true) ∷ post) rest
      × SameRest h h'
unfolding free_memory
free_memory-IsArea p h qs base pre n post rest free g large out partly =
    let q = g.in_place in
    let a = place base pre in
    let at = place-total base pre in
    let (bucket, index, low) =
      freeing_bound (n - 16) (omega (arith, large)) (omega (arith, q.bounded)) in
    let (h', ran, free', header, more, same) =
      create_free_area_lem h qs a (before base pre) n bucket free index low out
        (omega (arith, q.fits, at)) large (omega (arith, q.bounded)) in
    let next : wadd a n ≡ a + n = omega (arith, q.fits, at) in
    let test =
      and_false (is_page_aligned (before base pre))
        (is_start_of_os_allocation (before base pre) h.header)
        (is_end_of_os_allocation (a + n) h.header) (is_nil pre) (is_nil post)
        (start_test h qs base (total pre + n + total post) pre q g.behind)
        (end_test h.header qs a (a + n) post g.ahead) partly in
    let block : Header = record { left = before base pre; size = n; flag = 1 } in
    let other = λ (x : ℕ) (ne : x ≢ a).
      ap (λ (m : ℕ → Header). m x) header ∙ write-other a block h.header x ne in
    let here = ap (λ (m : ℕ → Header). m a) header ∙ write-at a block h.header in
    let nodes = put bucket ((a + 16) ∷ qs bucket) qs in
    let keeps = λ (x k : ℕ) (l : Listed qs (x + 16) k).
      let result : Listed nodes (x + 16) k =
        (l.0, l.1, l.2, In-put_front qs bucket (a + 16) l.0 (x + 16) l.3) in
      result in
    let clears = λ (x i : ℕ) (ne : x ≢ a + 16) (w : i < 128) (o : NotIn x (qs i)).
      NotIn-put_front qs bucket (a + 16) x i ne o in
    (
      h',
      nodes,
      rw (next, test) ran,
      free',
      record {
        in_place =
            InPlace-same h h' base (total pre + n + total post) (total pre + (n + total post))
              (other base (omega (arith, at))) same.free_lists (omega arith) q;
        behind =
            Before-frame h.header h'.header qs nodes base pre (λ x u. other x (omega (arith, u)))
              (λ x k u l. keeps x k l) (λ x i u. clears x i (omega (arith, u))) g.behind;
        ahead = (
          record {
            left_is = ap (λ (k : Header). k.left) here;
            size_is = ap (λ (k : Header). k.size) here;
            flag_is = ap (λ (k : Header). k.flag) here;
            large = large;
            listed = λ e. (bucket, low, index, In-put_new qs bucket (a + 16));
            clean = λ x i u v w. clears x i (omega (arith, u)) w (g.clean x i u v w);
          },
          After-frame h.header h'.header qs nodes a (a + n) post
              (λ x u. other x (omega (arith, u, large))) (λ x k u l. keeps x k l)
              (λ x i u. clears x i (omega (arith, u, large))) g.ahead,
        );
        counted = more ∙ omega (arith, g.counted, g.word);
        word = omega (arith, g.word, more);
      },
      same,
    )

-- A gap that is all of the area becomes the allocation that the heap keeps, if it keeps none.
pub free_memory-cached :
    {S : Type 0} (p : PageSource S) (h : Heap S) (qs : ℕ → List ℕ) (base n rest : ℕ)
    → IsFree h qs
    → IsGap h qs base [] n [] rest
    → h.cached_os_alloc ≡ 0
    → (h' : Heap S) × (free_memory p (base + 16) base n h ≡ ok h')
      × IsFree h' qs
      × (h'.cached_os_alloc ≡ base)
      × (h'.header base ≡ record { left = 0; size = n + 32; flag = 0 })
      × (h'.remaining ≡ rest)
unfolding free_memory is_start_of_os_allocation is_end_of_os_allocation possibly_free_to_os
free_memory-cached p h qs base n rest free g empty =
    let q = g.in_place in
    let end : (h.header (base + 16 + n)).size ≡ 0 = g.ahead.1 in
    let next : wadd (base + 16) n ≡ base + 16 + n = omega (arith, q.fits) in
    let width : wadd n 32 % 2 ^ 32 ≡ n + 32 = omega (arith, q.bounded) in
    let sentinel : Header = record { left = 0; size = n + 32; flag = 0 } in
    (
      record h { cached_os_alloc = base; header = write base sentinel h.header },
      rw (q.aligned, q.start, next, end, q.size_is, empty, width) refl,
      record {
        lists = free.lists;
        words = free.words;
        marks = free.marks;
        tagged = λ i u.
            All-imp {Q = IsTagged (write base sentinel h.header)}
              (λ x t. IsTagged-write h.header base sentinel x q.flag_is t) (qs i) (free.tagged i u);
      },
      refl,
      write-at base sentinel h.header,
      omega (arith, g.counted),
    )
