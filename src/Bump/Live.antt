-- ===== src/Bump/Live.antt =====
-- The blocks that are allocated and not yet freed.
use score.Base.{
  ℕ, suc, ◌+◌, ◌%◌, ◌≤◌, ◌<◌, ◌≡◌, refl, ◌⊎◌, inl, inr, false, List, [], ◌∷◌, ◌++◌, arith, ltb,
  ◌==◌, ltb→lt, ltb→le, Bool-cases, All, All-imp, All-append, All-front, All-back, length,
  length-append,
}
use score.Base.Word.{wadd, wsub, usize_mod}
use score.Align.{roundup, roundup_lem, IsPower}
use score.Bump.{BumpAllocator, init, align_up, alloc, dealloc}

-- A block by its address and its size.
abbrev pub Block : Type 0
Block = ℕ × ℕ

abbrev pub Disjoint : Block → Block → Type 0
Disjoint x y = (x.0 + x.1 ≤ y.0) ⊎ (y.0 + y.1 ≤ x.0)

abbrev pub Apart : List Block → Type 0
Apart [] = Unit
Apart (x ∷ xs) = All (λ y. Disjoint x y) xs × Apart xs

abbrev pub Within : ℕ → ℕ → Block → Type 0
Within a b x = (a ≤ x.0) × (x.0 + x.1 ≤ b)

-- The allocator counts the live blocks, which lie apart between its start and its next address.
pub record IsLive (b : BumpAllocator) (live : List Block) : Type 0 where
  pub count : b.allocations ≡ length live
  pub small : length live < usize_mod
  pub from : b.start ≤ b.next
  pub to : b.next ≤ b.end
  pub within : All (Within b.start b.next) live
  pub apart : Apart live

Apart-remove :
    (xs : List Block) (x : Block) (ys : List Block) → Apart (xs ++ (x ∷ ys)) → Apart (xs ++ ys)
Apart-remove [] x ys h = h.1
Apart-remove (y ∷ xs) x ys h = (
  All-append (λ z. Disjoint y z) xs ys (All-front (λ z. Disjoint y z) xs (x ∷ ys) h.0)
      (All-back (λ z. Disjoint y z) xs (x ∷ ys) h.0).1,
  Apart-remove xs x ys h.1,
)

-- From a start that does not wrap, the allocator has no live block.
pub init-IsLive :
    (start size : ℕ) (b : BumpAllocator)
    → b.allocations ≡ 0
    → start + size < usize_mod
    → IsLive (init start size b) []
unfolding init
init-IsLive start size b z h = record {
  count = z;
  small = omega arith;
  from = omega arith;
  to = omega (arith, h);
  within = tt;
  apart = tt;
}

module _ (b : BumpAllocator) (live : List Block) (v : IsLive b live) where
  -- A block that is allocated, or null where the aligned block does not fit, and then no change.
  abbrev pub Allocates : ℕ → ℕ → ℕ × BumpAllocator → Type 0
  Allocates size align o =
      ((o ≡ (0, b)) × (b.end < align_up b.next align + size))
      ⊎ ((p : ℕ) × (c : BumpAllocator) × (o ≡ (p, c))
          × (p % align ≡ 0)
          × IsLive c ((p, size) ∷ live))

  -- An allocation gives an aligned block that is apart from all live ones, if the aligned block fits;
  -- else it returns null and changes nothing. The alignment is a power of two, and the end of the memory,
  -- the size and the alignment have a sum that does not wrap, nor does the count of the blocks.
  pub alloc-Allocates :
      (size align : ℕ)
      → IsPower align
      → b.end + size + align ≤ usize_mod
      → length live + 1 < usize_mod
      → Allocates size align (alloc size align b)
  unfolding alloc align_up
  alloc-Allocates size align p h few =
      let s = roundup b.next align in
      let (m, l, u) = roundup_lem b.next align p (omega (arith, h, v.to)) in
      let w : wadd s size ≡ s + size = omega (arith, u, h, v.to) in
      elim (Bool-cases (ltb b.end (s + size))) [
        | inl e ↦ inl (rw (w, e, alloc) refl, ltb→lt _ _ e)
        | inr e ↦ inr (
          s,
          record b { next = s + size; allocations = wadd b.allocations 1 },
          rw (w, e, alloc) refl,
          m,
          record {
            count = omega (arith, v.count, few);
            small = omega (arith, few);
            from = omega (arith, v.from, l);
            to = ltb→le _ _ e;
            within = (
              (omega (arith, v.from, l), omega arith),
              All-imp {Q = Within b.start (s + size)}
                  (λ x (g : Within b.start b.next x). (g.0, omega (arith, g.1, l))) live v.within,
            );
            apart = (
              All-imp {Q = λ y. Disjoint (s, size) y}
                  (λ x (g : Within b.start b.next x). inr (omega (arith, g.1, l))) live v.within,
              v.apart,
            );
          },
        )
      ]

dealloc-count :
    (b : BumpAllocator) (live : List Block)
    → wsub b.allocations 1 ≡ length live
    → length live < usize_mod
    → b.start ≤ b.next
    → b.next ≤ b.end
    → All (Within b.start b.next) live
    → Apart live
    → IsLive (dealloc b) live × (live ≡ [] → (dealloc b).next ≡ b.start)
unfolding dealloc
dealloc-count b [] n u f t w a = rw n (
  record {
    count = refl;
    small = u;
    from = omega arith;
    to = omega (arith, f, t);
    within = tt;
    apart = tt;
  },
  λ e. refl,
)
dealloc-count b (x ∷ xs) n u f t w a =
    let more : (wsub b.allocations 1 == 0) ≡ false = ground (arith, n) in
    rw (more, n)
      (
        record { count = refl; small = u; from = f; to = t; within = w; apart = a },
        λ e. absurd (cc),
      )

-- Freeing a live block keeps the others, and the memory is used from its start again after the last.
pub dealloc-IsLive :
    (b : BumpAllocator) (xs : List Block) (x : Block) (ys : List Block)
    → IsLive b (xs ++ (x ∷ ys))
    → IsLive (dealloc b) (xs ++ ys) × (xs ++ ys ≡ [] → (dealloc b).next ≡ b.start)
unfolding dealloc
dealloc-IsLive b xs x ys v =
    let n : length (xs ++ (x ∷ ys)) ≡ suc (length (xs ++ ys)) =
      omega (arith, length-append xs (x ∷ ys), length-append xs ys) in
    let left : wsub b.allocations 1 ≡ length (xs ++ ys) = omega (arith, n, v.count, v.small) in
    let apart = Apart-remove xs x ys v.apart in
    let within =
      All-append (Within b.start b.next) xs ys
        (All-front (Within b.start b.next) xs (x ∷ ys) v.within)
        (All-back (Within b.start b.next) xs (x ∷ ys) v.within).1 in
    dealloc-count b (xs ++ ys) left (omega (arith, n, v.small)) v.from v.to within apart
