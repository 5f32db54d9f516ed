-- ===== src/Heap/Merges.antt =====
-- kernel/src/klib/cmpctmalloc.rs: `cmpct_free_internal` at a block whose left neighbour is free.
use score.Base.{◌<◌, ℕ, ◌+◌, ◌≡◌, ◌≢◌, ap, ◌∙◌, true, false, arith, List, ◌∷◌}
use score.Heap.{Heap, Header, PageSource, set_left}
use score.Heap.Lists.{IsFree, SameRest-header, SameRest-trans}
use score.Heap.Relabel.{set_left-size, set_left-at, set_left-other, set_left-IsFree}
use score.Heap.Blocks.{Block, total, place, before, IsArea, place-total}
use score.Heap.Gaps.{gap}
use score.Heap.Unlink.{Unlinks, Unlinks-other, Unlinks-at}
use score.Heap.Paths.{tagged_free, tagged_used, by_left, left_only, both}
use score.LinkedList.Chain.{NotIn}
use score.Heap.Joins.{used-Outside, pieces, inner, ToGap}

module _ {S : Type 0} (p : PageSource S) (h : Heap S) (qs : ℕ → List ℕ) (base s : ℕ) (rest : ℕ)
    (free : IsFree h qs) where
  -- The block on the left is free.
  pub left_gap :
      (pre post : List Block) (l : ℕ) (h1 : Heap S) (qs1 : ℕ → List ℕ)
      → IsArea h qs base ((l, true) ∷ pre) ((s, false) ∷ post) rest
      → (h.header (place base pre + l + s)).flag ≡ 0
      → Unlinks h qs (place base pre) l h1 qs1
      → ToGap p h base
          (place base pre + l)
          pre
          (l + s)
          post
          rest
          (record h1 { header = set_left (place base pre + l + s) (place base pre) h1.header })
          qs1
  left_gap pre post l h1 qs1 area zr u =
      let q = area.in_place in
      let to = place base pre in
      let a = to + l in
      let b = area.ahead.0 in
      let c = area.behind.0 in
      let large = b.large in
      let large_l = c.large in
      let at = place-total base pre in
      let len = l + total pre + (s + total post) in
      let e = a + s in
      let mid =
        used-Outside h qs base len a free q (omega (arith, at)) (omega (arith, at, large))
          b.flag_is in
      let tagged = tagged_free h.header to (ground (arith, at)) c.flag_is in
      let size_kept =
        set_left-size e to h1.header to ∙ ap (λ (k : Header). k.size) (Unlinks-at u) ∙ c.size_is in
      let moved = λ (x : ℕ) (ne : x ≢ e) (nf : x ≢ to).
        set_left-other e to h1.header x ne ∙ Unlinks-other u x nf in
      let far : (h1.header to).left ≡ before base pre =
        ap (λ (k : Header). k.left) (Unlinks-at u) ∙ c.left_is in
      let mine : (h1.header a).size ≡ s =
        ap (λ (k : Header). k.size) (Unlinks-other u a (omega (arith, large_l))) ∙ b.size_is in
      let right : (h1.header e).flag ≡ 0 =
        ap (λ (k : Header). k.flag) (Unlinks-other u e (omega (arith, large_l))) ∙ zr in
      record {
        ran =
            by_left p h a to s true b.left_is b.size_is b.flag_is (omega (arith, large))
              (ground (arith, at)) tagged
            ∙ left_only p h a to s l (before base pre) h1 u.ran mine (omega (arith, q.fits, at))
                (omega (arith, q.bounded)) far (tagged_used h1.header e right) size_kept;
        free = set_left-IsFree h1 qs1 e to u.free;
        is_gap =
            gap h (record h1 { header = set_left e to h1.header }) qs qs1 base pre (l + s) post rest
              len a e q (omega arith) (omega arith) (omega (arith, large)) area.behind.1
              area.ahead.1 (λ x v. moved x (omega (arith, v)) (omega (arith, v)))
              (set_left-at e to h1.header
                ∙ ap (λ (k : Header). record k { left = to })
                    (Unlinks-other u e (omega (arith, large_l))))
              (λ x v. moved x (omega (arith, v)) (omega (arith, v, large_l)))
              (λ x n v. u.keeps x n (omega (arith, v)))
              (λ x n v. u.keeps x n (omega (arith, v, large_l))) (λ x i _ w k. u.clears x i k)
              (λ x i v w t.
                pieces (λ x. (i : ℕ) → i < 128 → NotIn x (qs1 i)) (to + 16) (a + 16) (e + 16)
                  (λ x v w i t. u.clears x i (c.clean x i v w t))
                  (λ i t. u.clears (a + 16) i (inner h.free_lists qs (a + 16) mid i t))
                  (λ x v w i t. u.clears x i (b.clean x i v w t)) x v w i t)
              u.same.free_lists (u.remaining ∙ omega (arith, area.counted))
              (omega (arith, area.word, u.remaining, area.counted));
        out = u.out;
        same = SameRest-header (set_left e to h1.header) u.same;
      }

  -- Both are free.
  pub both_gap :
      (pre post : List Block) (l r : ℕ) (h1 h2 : Heap S) (qs1 qs2 : ℕ → List ℕ)
      → IsArea h qs base ((l, true) ∷ pre) ((s, false) ∷ (r, true) ∷ post) rest
      → Unlinks h qs (place base pre) l h1 qs1
      → Unlinks h1 qs1 (place base pre + l + s) r h2 qs2
      → ToGap p h base
          (place base pre + l)
          pre
          (l + s + r)
          post
          rest
          (record h2 { header = set_left (place base pre + l + s + r) (place base pre) h2.header })
          qs2
  both_gap pre post l r h1 h2 qs1 qs2 area u v =
      let q = area.in_place in
      let to = place base pre in
      let a = to + l in
      let b = area.ahead.0 in
      let c = area.behind.0 in
      let d = area.ahead.1.0 in
      let large = b.large in
      let large_l = c.large in
      let large_r = d.large in
      let at = place-total base pre in
      let len = l + total pre + (s + (r + total post)) in
      let e = a + s + r in
      let mid =
        used-Outside h qs base len a free q (omega (arith, at)) (omega (arith, at, large))
          b.flag_is in
      let tagged = tagged_free h.header to (ground (arith, at)) c.flag_is in
      let two =
        λ (x : ℕ) (nf : x ≢ to) (ng : x ≢ a + s). Unlinks-other v x ng ∙ Unlinks-other u x nf in
      let moved = λ (x : ℕ) (ne : x ≢ e) (nf : x ≢ to) (ng : x ≢ a + s).
        set_left-other e to h2.header x ne ∙ two x nf ng in
      let Clean = λ (x : ℕ). (i : ℕ) → i < 128 → NotIn x (qs2 i) in
      let near : h2.header to ≡ record (h.header to) { flag = 0 } =
        Unlinks-other v to (omega (arith, large)) ∙ Unlinks-at u in
      let far : (h1.header to).left ≡ before base pre =
        ap (λ (k : Header). k.left) (Unlinks-at u) ∙ c.left_is in
      let mine : (h1.header a).size ≡ s =
        ap (λ (k : Header). k.size) (Unlinks-other u a (omega (arith, large_l))) ∙ b.size_is in
      let next : h1.header (a + s) ≡ h.header (a + s) =
        Unlinks-other u (a + s) (omega (arith, large_l)) in
      let right =
        tagged_free h1.header (a + s) (ground (arith, large))
          (ap (λ (k : Header). k.flag) next ∙ d.flag_is) in
      let size_r : (h2.header (a + s)).size ≡ r =
        ap (λ (k : Header). k.size) (Unlinks-at v) ∙ ap (λ (k : Header). k.size) next ∙ d.size_is in
      record {
        ran =
            by_left p h a to s true b.left_is b.size_is b.flag_is (omega (arith, large))
              (ground (arith, at)) tagged
            ∙ both p h a to s l r (before base pre) h1 h2 u.ran mine (omega (arith, q.fits, at))
                (omega (arith, q.bounded)) far right v.ran size_r
                (set_left-size e to h2.header to ∙ ap (λ (k : Header). k.size) near ∙ c.size_is)
                (set_left-size e to h2.header (a + s) ∙ size_r);
        free = set_left-IsFree h2 qs2 e to v.free;
        is_gap =
            gap h (record h2 { header = set_left e to h2.header }) qs qs2 base pre (l + s + r) post
              rest len (a + s) e q (omega arith) (omega arith) (omega (arith, large)) area.behind.1
              area.ahead.1.1
              (λ x w. moved x (omega (arith, w)) (omega (arith, w)) (omega (arith, w)))
              (set_left-at e to h2.header
                ∙ ap (λ (k : Header). record k { left = to })
                    (two e (omega (arith, large_l)) (omega (arith, large_r))))
              (λ x w.
                moved x (omega (arith, w)) (omega (arith, w, large_l)) (omega (arith, w, large_r)))
              (λ x n w k. v.keeps x n (omega (arith, w)) (u.keeps x n (omega (arith, w)) k))
              (λ x n w k.
                v.keeps x n (omega (arith, w, large_r)) (u.keeps x n (omega (arith, w, large_l)) k))
              (λ x i _ w k. v.clears x i (u.clears x i k))
              (λ x i w k t.
                pieces Clean (to + 16) (a + 16) (e + 16)
                  (λ x w k i t. v.clears x i (u.clears x i (c.clean x i w k t)))
                  (λ i t.
                    v.clears (a + 16) i
                      (u.clears (a + 16) i (inner h.free_lists qs (a + 16) mid i t)))
                  (pieces Clean (a + 16) (a + s + 16) (e + 16)
                    (λ x w k i t. v.clears x i (u.clears x i (b.clean x i w k t)))
                    (inner h2.free_lists qs2 (a + s + 16) v.out)
                    (λ x w k i t. v.clears x i (u.clears x i (d.clean x i w k t))))
                  x w k i t)
              (v.same.free_lists ∙ u.same.free_lists)
              (v.remaining ∙ omega (arith, u.remaining, area.counted))
              (omega (arith, area.word, v.remaining, u.remaining, area.counted));
        out = v.out_others (to + 16) u.out;
        same = SameRest-header (set_left e to h2.header) (SameRest-trans u.same v.same);
      }
