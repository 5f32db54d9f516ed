-- ===== src/Heap/Free.antt =====
-- kernel/src/klib/cmpctmalloc.rs: `cmpct_free` joins a block with the free blocks beside it.
use score.Base.{
  ℕ, ◌+◌, ◌<◌, ◌≡◌, ◌≢◌, refl, sym, ap, ◌∙◌, subst, true, false, ◌&&◌, ◌==◌, arith, List, [], ◌∷◌,
  ok,
}
use score.Base.Word.{usize_mod, wsub}
use score.Heap.{Heap, Header, PageSource, set_left, cmpct_free_internal, cmpct_free}
use score.Heap.Lists.{IsFree}
use score.Heap.Blocks.{Block, total, free_bytes, place, IsArea, place-total}
use score.Heap.Gaps.{is_nil, free_memory-IsArea, free_memory-cached}
use score.Heap.Unlink.{Unlinks, Unlinks-other, unlink_lem}
use score.Heap.Joins.{ToGap, free_size, used_rest, neither_gap, right_gap}
use score.Heap.Merges.{left_gap, both_gap}

free_bytes-split : (bs : List Block) → free_bytes bs ≡ free_size bs + free_bytes (used_rest bs)
free_bytes-split [] = omega arith
free_bytes-split ((n, true) ∷ bs) = refl
free_bytes-split ((n, false) ∷ bs) = omega arith

total-split : (bs : List Block) → total bs ≡ free_size bs + total (used_rest bs)
total-split [] = omega arith
total-split ((n, true) ∷ bs) = refl
total-split ((n, false) ∷ bs) = omega arith

module _ {S : Type 0} (p : PageSource S) (h : Heap S) (qs : ℕ → List ℕ) (base s : ℕ) (rest : ℕ)
    (free : IsFree h qs) where
  ToGap-same :
      (a : ℕ) (pre pre' : List Block) (n n' : ℕ) (post : List Block) (h' : Heap S)
      (qs' : ℕ → List ℕ)
      → pre ≡ pre'
      → n ≡ n'
      → ToGap p h base a pre n post rest h' qs'
      → ToGap p h base a pre' n' post rest h' qs'
  ToGap-same a pre pre' n n' post h' qs' e f g =
      subst (λ (t : ℕ). ToGap p h base a pre' t post rest h' qs') f
        (subst (λ (t : List Block). ToGap p h base a t n post rest h' qs') e g)

  abbrev Reaches : List Block → List Block → ℕ → Type 0
  Reaches pre post a =
      (h' : Heap S) × (qs' : ℕ → List ℕ) × ToGap p h base a (used_rest pre)
        (free_size pre + s + free_size post) (used_rest post) rest h' qs'

  right-Unlinks :
      (pre post : List Block) (r : ℕ)
      → IsArea h qs base pre ((s, false) ∷ (r, true) ∷ post) rest
      → (h1 : Heap S) × (qs1 : ℕ → List ℕ) × Unlinks h qs (place base pre + s) r h1 qs1
  right-Unlinks pre post r area =
      let q = area.in_place in
      let c = area.ahead.1.0 in
      let large = c.large in
      let at = place-total base pre in
      unlink_lem h qs (place base pre + s) r free (c.listed refl) c.size_is (omega (arith, large))
        (omega (arith, q.fits, at)) (omega (arith, area.counted)) (omega (arith, area.word))
        (omega (arith, q.fits, at, large))

  without_left :
      (pre post : List Block)
      → IsArea h qs base pre ((s, false) ∷ post) rest
      → free_size pre ≡ 0
      → used_rest pre ≡ pre
      → Reaches pre post (place base pre)
  without_left pre [] area z e = (
    h,
    qs,
    ToGap-same (place base pre) pre (used_rest pre) s (free_size pre + s + 0) [] h qs (sym e)
        (omega (arith, z)) (neither_gap p h qs base s rest free pre [] area z area.ahead.1.2),
  )
  without_left pre ((r, false) ∷ post) area z e = (
    h,
    qs,
    ToGap-same (place base pre) pre (used_rest pre) s (free_size pre + s + 0) ((r, false) ∷ post) h
        qs (sym e) (omega (arith, z))
        (neither_gap p h qs base s rest free pre ((r, false) ∷ post) area z area.ahead.1.0.flag_is),
  )
  without_left pre ((r, true) ∷ post) area z e =
      let (h1, qs1, u) = right-Unlinks pre post r area in
      let a = place base pre in
      let h2 = record h1 { header = set_left (a + s + r) a h1.header } in
      (
        h2,
        qs1,
        ToGap-same a pre (used_rest pre) (s + r) (free_size pre + s + r) post h2 qs1 (sym e)
            (omega (arith, z)) (right_gap p h qs base s rest free pre post r h1 qs1 area z u),
      )

  left-Unlinks :
      (pre post : List Block) (l : ℕ)
      → IsArea h qs base ((l, true) ∷ pre) post rest
      → (h1 : Heap S) × (qs1 : ℕ → List ℕ) × Unlinks h qs (place base pre) l h1 qs1
  left-Unlinks pre post l area =
      let q = area.in_place in
      let c = area.behind.0 in
      let large = c.large in
      let at = place-total base pre in
      unlink_lem h qs (place base pre) l free (c.listed refl) c.size_is (omega (arith, large))
        (omega (arith, q.fits, at)) (omega (arith, area.counted)) (omega (arith, area.word))
        (omega (arith, q.fits, at, large))

  with_left :
      (pre post : List Block) (l : ℕ)
      → IsArea h qs base ((l, true) ∷ pre) ((s, false) ∷ post) rest
      → Reaches ((l, true) ∷ pre) post (place base pre + l)
  with_left pre [] l area =
      let (h1, qs1, u) = left-Unlinks pre ((s, false) ∷ []) l area in
      let to = place base pre in
      let h2 = record h1 { header = set_left (to + l + s) to h1.header } in
      (
        h2,
        qs1,
        ToGap-same (to + l) pre pre (l + s) (l + s + 0) [] h2 qs1 refl (omega arith)
            (left_gap p h qs base s rest free pre [] l h1 qs1 area area.ahead.1.2 u),
      )
  with_left pre ((r, false) ∷ post) l area =
      let (h1, qs1, u) = left-Unlinks pre ((s, false) ∷ (r, false) ∷ post) l area in
      let to = place base pre in
      let h2 = record h1 { header = set_left (to + l + s) to h1.header } in
      (
        h2,
        qs1,
        ToGap-same (to + l) pre pre (l + s) (l + s + 0) ((r, false) ∷ post) h2 qs1 refl
            (omega arith)
            (left_gap p h qs base s rest free pre ((r, false) ∷ post) l h1 qs1 area
              area.ahead.1.0.flag_is u),
      )
  with_left pre ((r, true) ∷ post) l area =
      let (h1, qs1, u) = left-Unlinks pre ((s, false) ∷ (r, true) ∷ post) l area in
      let to = place base pre in
      let q = area.in_place in
      let d = area.ahead.1.0 in
      let large = d.large in
      let at = place-total base pre in
      let mine = area.ahead.0.large in
      let other : to + l + s ≢ to = omega (arith, mine) in
      let (h2, qs2, v) =
        unlink_lem h1 qs1 (to + l + s) r u.free (u.keeps (to + l + s) r other (d.listed refl))
          (ap (λ (k : Header). k.size) (Unlinks-other u (to + l + s) other) ∙ d.size_is)
          (omega (arith, large)) (omega (arith, q.fits, at))
          (omega (arith, u.remaining, area.counted)) (omega (arith, u.remaining, area.word))
          (omega (arith, q.fits, at, large)) in
      (
        record h2 { header = set_left (to + l + s + r) to h2.header },
        qs2,
        both_gap p h qs base s rest free pre post l r h1 h2 qs1 qs2 area u v,
      )

  reaches :
      (pre post : List Block)
      → IsArea h qs base pre ((s, false) ∷ post) rest
      → Reaches pre post (place base pre)
  reaches [] post area = without_left [] post area refl refl
  reaches ((l, false) ∷ pre) post area = without_left ((l, false) ∷ pre) post area refl refl
  reaches ((l, true) ∷ pre) post area = with_left pre post l area

  -- `cmpct_free` makes the step from a payload to its header.
  free_payload :
      (a : ℕ) (h' : Heap S)
      → a + 16 < usize_mod
      → cmpct_free_internal p a h ≡ ok h'
      → cmpct_free p (a + 16) h ≡ ok h'
  unfolding cmpct_free
  free_payload a h' fits ran =
      let some : (a + 16 == 0) ≡ false = ground arith in
      let header : wsub (a + 16) 16 ≡ a = omega (arith, fits) in rw (some, header, ran) refl

-- A block in use, of an area whose free blocks are in the free lists, where some other block of the area is
-- in use: cmpct_free of its payload returns, the block has become one free block with the free blocks that
-- were directly before and behind it, the other blocks of the area are as before, the free lists
-- and their bits agree with the free blocks again, and the bytes counted as free are more by its size.
pub cmpct_free-IsArea :
    {S : Type 0} (p : PageSource S) (h : Heap S) (qs : ℕ → List ℕ) (base : ℕ) (pre : List Block)
    (s : ℕ) (post : List Block) (rest : ℕ)
    → IsFree h qs
    → IsArea h qs base pre ((s, false) ∷ post) rest
    → (is_nil (used_rest pre) && is_nil (used_rest post)) ≡ false
    → (h' : Heap S) × (qs' : ℕ → List ℕ) × (cmpct_free p (place base pre + 16) h ≡ ok h')
      × IsFree h' qs'
      × IsArea h' qs' base
          (used_rest pre)
          ((free_size pre + s + free_size post, true) ∷ used_rest post)
          rest
      × (h'.remaining ≡ h.remaining + s)
cmpct_free-IsArea p h qs base pre s post rest free area partly =
    let (g, qs1, to) = reaches p h qs base s rest free pre post area in
    let large = area.ahead.0.large in
    let at = place-total base pre in
    let (h', qs', ran, free', area', same) =
      free_memory-IsArea p g qs1 base (used_rest pre) (free_size pre + s + free_size post)
        (used_rest post) rest to.free to.is_gap (omega (arith, large)) to.out partly in
    (
      h',
      qs',
      free_payload p h qs base s rest free (place base pre) h'
          (omega (arith, area.in_place.fits, at, large)) (to.ran ∙ ran),
      free',
      area',
      omega (arith, area.counted, area'.counted, free_bytes-split pre, free_bytes-split post),
    )

-- A block in use, of an area whose free blocks are in the free lists, that is the only one in use there,
-- while the heap keeps no allocation: cmpct_free of its payload returns, the area is the allocation that the heap
-- keeps, its first header tells the size of all of it, the free lists and their bits agree, and the bytes
-- counted as free are those elsewhere.
pub cmpct_free-cached :
    {S : Type 0} (p : PageSource S) (h : Heap S) (qs : ℕ → List ℕ) (base : ℕ) (pre : List Block)
    (s : ℕ) (post : List Block) (rest : ℕ)
    → IsFree h qs
    → IsArea h qs base pre ((s, false) ∷ post) rest
    → used_rest pre ≡ []
    → used_rest post ≡ []
    → h.cached_os_alloc ≡ 0
    → (h' : Heap S) × (qs' : ℕ → List ℕ) × (cmpct_free p (place base pre + 16) h ≡ ok h')
      × IsFree h' qs'
      × (h'.cached_os_alloc ≡ base)
      × (h'.header base ≡ record { left = 0; size = total pre + s + total post + 32; flag = 0 })
      × (h'.remaining ≡ rest)
cmpct_free-cached p h qs base pre s post rest free area e f empty =
    let (g, qs1, reached) = reaches p h qs base s rest free pre post area in
    let n = total pre + s + total post in
    let whole : free_size pre + s + free_size post ≡ n =
      omega (arith, total-split pre, total-split post, ap total e, ap total f) in
    let to =
      subst (λ (t : List Block). ToGap p h base (place base pre) [] n t rest g qs1) f
        (ToGap-same p h qs base s rest free (place base pre) (used_rest pre) []
          (free_size pre + s + free_size post) n (used_rest post) g qs1 e whole reached) in
    let (h', ran, free', kept, header, remaining) =
      free_memory-cached p g qs1 base n rest to.free to.is_gap (to.same.cached_os_alloc ∙ empty) in
    (
      h',
      qs1,
      free_payload p h qs base s rest free (place base pre) h'
          (omega (arith, area.in_place.fits, area.ahead.0.large, place-total base pre))
          (to.ran ∙ ran),
      free',
      kept,
      header,
      remaining,
    )
