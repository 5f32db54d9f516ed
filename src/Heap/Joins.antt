-- ===== src/Heap/Joins.antt =====
-- kernel/src/klib/cmpctmalloc.rs: `cmpct_free_internal` at a block whose left neighbour is in use.
use score.Base.{
  inl, inr, Bool-cases, ltb, ltb→lt, ==_iff, ◌==◌, ℕ, ◌+◌, ◌-◌, ◌≤◌, ◌<◌, ◌≡◌, ◌≢◌, refl, sym, ap,
  ◌∙◌, subst, true, false, arith, List, [], ◌∷◌, All-imp,
}
use score.LinkedList.Chain.{NotIn}
use score.LinkedList.Family.{Outside}
use score.Heap.{Heap, Header, PageSource, set_left, free_memory, cmpct_free_internal}
use score.Heap.Lists.{IsFree, SameRest, SameRest-header}
use score.Heap.Relabel.{set_left-size, set_left-at, set_left-other, set_left-IsFree}
use score.Heap.Blocks.{
  Block, total, place, before, Before, After, InPlace, IsArea, IsGap, place-total,
}
use score.Heap.Gaps.{gap}
use score.Heap.Unlink.{Unlinks, Unlinks-other, Unlinks-at}
use score.Heap.Paths.{tagged_free, tagged_used, by_left, neither, right_only}

-- The size of the first block if it is free, and the blocks without it then.
abbrev pub free_size : List Block → ℕ
free_size [] = 0
free_size ((n, true) ∷ bs) = n
free_size ((n, false) ∷ bs) = 0

abbrev pub used_rest : List Block → List Block
used_rest [] = []
used_rest ((n, true) ∷ bs) = bs
used_rest ((n, false) ∷ bs) = (n, false) ∷ bs

-- The call comes to `free_memory` of a gap.
pub record ToGap {S : Type 0} (p : PageSource S) (h : Heap S) (base a : ℕ) (pre : List Block)
    (n : ℕ) (post : List Block) (rest : ℕ) (h' : Heap S) (qs' : ℕ → List ℕ) : Type 0 where
  pub ran : cmpct_free_internal p a h ≡ free_memory p (place base pre) (before base pre) n h'
  pub free : IsFree h' qs'
  pub is_gap : IsGap h' qs' base pre n post rest
  pub out : Outside 128 h'.free_lists qs' (place base pre + 16)
  pub same : SameRest h h'

-- A node in the area whose header is not tagged is in no list.
pub used-Outside :
    {S : Type 0} (h : Heap S) (qs : ℕ → List ℕ) (base len a : ℕ)
    → IsFree h qs
    → InPlace h base len
    → base ≤ a
    → a < base + len + 16
    → (h.header a).flag ≡ 0
    → Outside 128 h.free_lists qs (a + 16)
unfolding Outside
used-Outside h qs base len a free p low high flag i u = (
  p.apart i u (a + 16) (omega (arith, low)) (omega (arith, high)),
  All-imp {Q = λ x. x ≢ a + 16}
      (λ x t e.
        let back : x - 16 ≡ a = omega (arith, e) in
        absurd (ground (arith, sym t.1 ∙ ap (λ (y : ℕ). (h.header y).flag) back ∙ flag)))
      (qs i) (free.tagged i u),
)

place-pos : (base : ℕ) (pre : List Block) → base ≢ 0 → before base pre ≢ 0
place-pos base [] h = h
place-pos base (b ∷ pre) h = ground (arith, place-total base pre)

-- The first block after a place, if it is not free, or the sentinel.
After-used :
    (m : ℕ → Header) (qs : ℕ → List ℕ) (left a : ℕ) (post : List Block)
    → After m qs left a post
    → free_size post ≡ 0
    → used_rest post ≡ post
    → (m a).flag ≡ 0
After-used m qs left a [] h z e = h.2
After-used m qs left a ((n, true) ∷ post) h z e = absurd (ground (arith, h.0.large, z))
After-used m qs left a ((n, false) ∷ post) h z e = h.0.flag_is

before_used :
    {S : Type 0} (h : Heap S) (qs : ℕ → List ℕ) (base len : ℕ) (pre : List Block)
    → InPlace h base len
    → Before h.header qs base pre
    → free_size pre ≡ 0
    → (h.header (before base pre)).flag ≡ 0
before_used h qs base len [] p b z = p.flag_is
before_used h qs base len ((n, true) ∷ pre) p b z = absurd (ground (arith, b.0.large, z))
before_used h qs base len ((n, false) ∷ pre) p b z = b.0.flag_is

-- What holds below, at and above an address between two others.
pub pieces :
    (P : ℕ → Type 0) (lo mid hi : ℕ)
    → ((x : ℕ) → lo < x → x < mid → P x)
    → P mid
    → ((x : ℕ) → mid < x → x < hi → P x)
    → (x : ℕ) → lo < x
    → x < hi
    → P x
pieces P lo mid hi f g k x u v = elim (Bool-cases (ltb x mid)) [
  | inl e ↦ f x u (ltb→lt x mid e)
  | inr e ↦ elim (Bool-cases (x == mid)) [
    | inl is ↦ subst P (sym ((==_iff x mid).0 is)) g
    | inr ne ↦ k x (ground arith) v
  ]
]

pub inner :
    (root : ℕ → ℕ) (qs : ℕ → List ℕ) (n : ℕ)
    → Outside 128 root qs n
    → (i : ℕ) → i < 128
    → NotIn n (qs i)
unfolding Outside
inner root qs n out i t = (out i t).1

module _ {S : Type 0} (p : PageSource S) (h : Heap S) (qs : ℕ → List ℕ) (base s : ℕ) (rest : ℕ)
    (free : IsFree h qs) where
  -- Neither neighbour is free.
  pub neither_gap :
      (pre post : List Block)
      → IsArea h qs base pre ((s, false) ∷ post) rest
      → free_size pre ≡ 0
      → (h.header (place base pre + s)).flag ≡ 0
      → ToGap p h base (place base pre) pre s post rest h qs
  neither_gap pre post area zl zr =
      let q = area.in_place in
      let m = h.header in
      let a = place base pre in
      let b = area.ahead.0 in
      let large = b.large in
      let at = place-total base pre in
      let left = before base pre in
      let in_use =
        tagged_used m left
          (before_used h qs base (total pre + (s + total post)) pre q area.behind zl) in
      record {
        ran =
            by_left p h a left s false b.left_is b.size_is b.flag_is (omega (arith, large))
              (place-pos base pre q.some) in_use
            ∙ neither p h a left s b.size_is (omega (arith, q.fits, at)) (tagged_used m (a + s) zr);
        free = free;
        is_gap = record {
          in_place = subst (InPlace h base) (omega arith) q;
          behind = area.behind;
          ahead = area.ahead.1;
          counted = area.counted;
          clean = b.clean;
          word = omega (arith, area.word);
        };
        out =
            used-Outside h qs base (total pre + (s + total post)) a free q (omega (arith, at))
              (omega (arith, at, large)) b.flag_is;
        same = record { free_lists = refl; size = refl; cached_os_alloc = refl; source = refl };
      }

  -- The block on the right is free.
  pub right_gap :
      (pre post : List Block) (r : ℕ) (h1 : Heap S) (qs1 : ℕ → List ℕ)
      → IsArea h qs base pre ((s, false) ∷ (r, true) ∷ post) rest
      → free_size pre ≡ 0
      → Unlinks h qs (place base pre + s) r h1 qs1
      → ToGap p h base
          (place base pre)
          pre
          (s + r)
          post
          rest
          (record h1 { header = set_left (place base pre + s + r) (place base pre) h1.header })
          qs1
  right_gap pre post r h1 qs1 area zl u =
      let q = area.in_place in
      let a = place base pre in
      let b = area.ahead.0 in
      let c = area.ahead.1.0 in
      let large = b.large in
      let large_r = c.large in
      let at = place-total base pre in
      let left = before base pre in
      let len = total pre + (s + (r + total post)) in
      let e = a + s + r in
      let in_use = tagged_used h.header left (before_used h qs base len pre q area.behind zl) in
      let tagged = tagged_free h.header (a + s) (ground (arith, large)) c.flag_is in
      let size_kept =
        set_left-size e a h1.header (a + s)
        ∙ ap (λ (k : Header). k.size) (Unlinks-at u)
        ∙ c.size_is in
      let moved = λ (x : ℕ) (ne : x ≢ e) (nf : x ≢ a + s).
        set_left-other e a h1.header x ne ∙ Unlinks-other u x nf in
      let out =
        used-Outside h qs base len a free q (omega (arith, at)) (omega (arith, at, large))
          b.flag_is in
      record {
        ran =
            by_left p h a left s false b.left_is b.size_is b.flag_is (omega (arith, large))
              (place-pos base pre q.some) in_use
            ∙ right_only p h a left s r h1 b.size_is c.size_is (omega (arith, q.fits, at)) tagged
                u.ran size_kept;
        free = set_left-IsFree h1 qs1 e a u.free;
        is_gap =
            gap h (record h1 { header = set_left e a h1.header }) qs qs1 base pre (s + r) post rest
              len (a + s) e q (omega arith) (omega arith) (omega (arith, large)) area.behind
              area.ahead.1.1 (λ x v. moved x (omega (arith, v, large)) (omega (arith, v)))
              (set_left-at e a h1.header
                ∙ ap (λ (k : Header). record k { left = a })
                    (Unlinks-other u e (omega (arith, large_r))))
              (λ x v. moved x (omega (arith, v)) (omega (arith, v, large_r)))
              (λ x n v. u.keeps x n (omega (arith, v)))
              (λ x n v. u.keeps x n (omega (arith, v, large_r))) (λ x i _ w k. u.clears x i k)
              (λ x i v w t.
                pieces (λ x. (i : ℕ) → i < 128 → NotIn x (qs1 i)) (a + 16) (a + s + 16) (e + 16)
                  (λ x v w i t. u.clears x i (b.clean x i v w t))
                  (λ i t. inner h1.free_lists qs1 (a + s + 16) u.out i t)
                  (λ x v w i t. u.clears x i (c.clean x i v w t)) x v w i t)
              u.same.free_lists (u.remaining ∙ omega (arith, area.counted))
              (omega (arith, area.word, u.remaining, area.counted));
        out = u.out_others (a + 16) out;
        same = SameRest-header (set_left e a h1.header) u.same;
      }
