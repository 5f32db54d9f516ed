-- ===== src/Heap/Blocks.antt =====
-- kernel/src/klib/cmpctmalloc.rs: the blocks of an area, between its two sentinels, as the headers in
-- memory tell them. `pre` are the blocks before a place in the area, the nearest first, and `post`
-- those from there on.
use score.Base.{
  ℕ, ◌+◌, ◌-◌, ◌^◌, ◌≤◌, ◌<◌, ◌≡◌, ◌≢◌, refl, ap, ◌∙◌, ◌⊎◌, Bool, true, false, ◌==◌, arith, List,
  [], ◌∷◌, ok,
}
use score.Base.Word.{usize_mod}
use score.Align.{is_page_aligned}
use score.LinkedList.Chain.{NotIn}
use score.Cmpct.{number_of_buckets, size_to_index_freeing}
use score.Heap.{Heap, Header, write}

-- The size, the header's own included, and whether the block is free.
abbrev pub Block : Type 0
Block = ℕ × Bool

abbrev pub total : List Block → ℕ
total [] = 0
total (b ∷ bs) = b.0 + total bs

abbrev pub free_bytes : List Block → ℕ
free_bytes [] = 0
free_bytes ((n, true) ∷ bs) = n + free_bytes bs
free_bytes ((n, false) ∷ bs) = free_bytes bs

abbrev pub used_bytes : List Block → ℕ
used_bytes [] = 0
used_bytes ((n, true) ∷ bs) = used_bytes bs
used_bytes ((n, false) ∷ bs) = n + used_bytes bs

-- The address of a place in the area at `base`, and of the header before it.
abbrev pub place : ℕ → List Block → ℕ
place base [] = base + 16
place base (b ∷ pre) = place base pre + b.0

abbrev pub before : ℕ → List Block → ℕ
before base [] = base
before base (b ∷ pre) = place base pre

abbrev pub In : ℕ → List ℕ → Type 0
In n [] = ⊥
In n (x ∷ xs) = (x ≡ n) ⊎ In n xs

-- The node is in the free list for blocks of the size.
abbrev pub Listed : (ℕ → List ℕ) → ℕ → ℕ → Type 0
Listed qs n size =
    (i : ℕ) × (i < number_of_buckets) × (size_to_index_freeing (size - 16) ≡ ok i) × In n (qs i)

abbrev pub flag_of : Bool → ℕ
flag_of true = 1
flag_of false = 0

-- The header of a block. If it is free its node is in the list for it, and no other address in it is
-- that of a node in a list.
pub record IsBlock (m : ℕ → Header) (qs : ℕ → List ℕ) (a left : ℕ) (b : Block) : Type 0 where
  pub left_is : (m a).left ≡ left
  pub size_is : (m a).size ≡ b.0
  pub flag_is : (m a).flag ≡ flag_of b.1
  pub large : 32 ≤ b.0
  pub listed : b.1 ≡ true → Listed qs (a + 16) b.0
  pub clean : (x i : ℕ) → a + 16 < x → x < a + b.0 + 16 → i < 128 → NotIn x (qs i)

abbrev pub Before : (ℕ → Header) → (ℕ → List ℕ) → ℕ → List Block → Type 0
Before m qs base [] = Unit
Before m qs base (b ∷ pre) =
    IsBlock m qs (place base pre) (before base pre) b × Before m qs base pre

-- The blocks from `a` on, up to the right sentinel.
abbrev pub After : (ℕ → Header) → (ℕ → List ℕ) → ℕ → ℕ → List Block → Type 0
After m qs left a [] = ((m a).left ≡ left) × ((m a).size ≡ 0) × ((m a).flag ≡ 0)
After m qs left a (b ∷ post) = IsBlock m qs a left b × After m qs a (a + b.0) post

-- An area of `len` bytes between its sentinels: it starts at a page, its left sentinel is
-- in place, and no free list has its own node in it.
pub record InPlace {S : Type 0} (h : Heap S) (base len : ℕ) : Type 0 where
  pub aligned : is_page_aligned base ≡ true
  pub some : base ≢ 0
  pub start : (h.header base).left ≡ 0
  pub size_is : (h.header base).size ≡ 16
  pub flag_is : (h.header base).flag ≡ 0
  pub bounded : len < 2 ^ 21
  pub fits : base + len + 32 < usize_mod
  pub apart :
      (i : ℕ)
      → i < number_of_buckets
      → (x : ℕ) → base ≤ x
      → x < base + len + 32
      → h.free_lists i ≢ x

-- The area has the blocks, its free blocks are in their lists, and with `rest` bytes
-- elsewhere make up what the heap counts as free; all bytes together fit a word.
pub record IsArea {S : Type 0} (h : Heap S) (qs : ℕ → List ℕ) (base : ℕ) (pre post : List Block)
    (rest : ℕ) : Type 0 where
  pub in_place : InPlace h base (total pre + total post)
  pub behind : Before h.header qs base pre
  pub ahead : After h.header qs (before base pre) (place base pre) post
  pub counted : h.remaining ≡ free_bytes pre + free_bytes post + rest
  pub word : h.remaining + used_bytes pre + used_bytes post < usize_mod

-- The same, but for `n` bytes at the place whose own header is to be written: the next block names
-- the place as that of the header before it.
pub record IsGap {S : Type 0} (h : Heap S) (qs : ℕ → List ℕ) (base : ℕ) (pre : List Block) (n : ℕ)
    (post : List Block) (rest : ℕ) : Type 0 where
  pub in_place : InPlace h base (total pre + n + total post)
  pub behind : Before h.header qs base pre
  pub ahead : After h.header qs (place base pre) (place base pre + n) post
  pub clean :
      (x i : ℕ) → place base pre + 16 < x → x < place base pre + n + 16 → i < 128 → NotIn x (qs i)
  pub counted : h.remaining ≡ free_bytes pre + free_bytes post + rest
  pub word : h.remaining + used_bytes pre + n + used_bytes post < usize_mod

pub write-other : (a : ℕ) (v : Header) (m : ℕ → Header) (x : ℕ) → x ≢ a → write a v m x ≡ m x
unfolding write
write-other a v m x ne = let e : (x == a) ≡ false = ground (arith, ne) in rw e refl

pub write-at : (a : ℕ) (v : Header) (m : ℕ → Header) → write a v m a ≡ v
unfolding write
write-at a v m = let e : (a == a) ≡ true = ground arith in rw e refl

pub place-total : (base : ℕ) (pre : List Block) → place base pre ≡ base + 16 + total pre
place-total base [] = omega arith
place-total base (b ∷ pre) = omega (arith, place-total base pre)

-- What the lists `qs'` keep of `qs`, for blocks at the addresses with `P`.
abbrev pub Keeps : (ℕ → List ℕ) → (ℕ → List ℕ) → (ℕ → Type 0) → Type 0
Keeps qs qs' P = (x n : ℕ) → P x → Listed qs (x + 16) n → Listed qs' (x + 16) n

-- No list of `qs'` has a node at an address with `P` that no list of `qs` has.
abbrev pub Clears : (ℕ → List ℕ) → (ℕ → List ℕ) → (ℕ → Type 0) → Type 0
Clears qs qs' P = (x i : ℕ) → P x → i < 128 → NotIn x (qs i) → NotIn x (qs' i)

block-frame :
    (m m' : ℕ → Header) (qs qs' : ℕ → List ℕ) (a left left' : ℕ) (b : Block)
    → (m' a).left ≡ left'
    → (m' a).size ≡ (m a).size
    → (m' a).flag ≡ (m a).flag
    → ((n : ℕ) → Listed qs (a + 16) n → Listed qs' (a + 16) n)
    → Clears qs qs' (λ x. (a + 16 < x) × (x < a + b.0 + 16))
    → IsBlock m qs a left b
    → IsBlock m' qs' a left' b
block-frame m m' qs qs' a left left' b l s f keeps clears h = record {
  left_is = l;
  size_is = s ∙ h.size_is;
  flag_is = f ∙ h.flag_is;
  large = h.large;
  listed = λ e. keeps b.0 (h.listed e);
  clean = λ x i u v w. clears x i (u, v) w (h.clean x i u v w);
}

-- Writes from the place on leave the blocks before it.
pub Before-frame :
    (m m' : ℕ → Header) (qs qs' : ℕ → List ℕ) (base : ℕ) (pre : List Block)
    → ((x : ℕ) → x < place base pre → m' x ≡ m x)
    → Keeps qs qs' (λ x. x < place base pre)
    → Clears qs qs' (λ x. x < place base pre + 16)
    → Before m qs base pre
    → Before m' qs' base pre
Before-frame m m' qs qs' base [] same keeps clears h = tt
Before-frame m m' qs qs' base (b ∷ pre) same keeps clears h =
    let large = h.0.large in
    let a = place base pre in
    let e = same a (omega (arith, large)) in
    (
      block-frame m m' qs qs' a (before base pre) (before base pre) b
          (ap (λ (k : Header). k.left) e ∙ h.0.left_is) (ap (λ (k : Header). k.size) e)
          (ap (λ (k : Header). k.flag) e) (λ n. keeps a n (omega (arith, large)))
          (λ x i u. clears x i (omega (arith, u))) h.0,
      Before-frame m m' qs qs' base pre (λ x u. same x (omega (arith, u, large)))
          (λ x n u. keeps x n (omega (arith, u, large)))
          (λ x i u. clears x i (omega (arith, u, large))) h.1,
    )

After-left :
    (m : ℕ → Header) (qs : ℕ → List ℕ) (left a : ℕ) (post : List Block)
    → After m qs left a post
    → m a ≡ record (m a) { left = left }
After-left m qs left a [] h = let e = h.0 in λ i. record (m a) { left = e i }
After-left m qs left a (b ∷ post) h = let e = h.0.left_is in λ i. record (m a) { left = e i }

-- Writes in front of the place leave the blocks from there on, but for what the first of them names
-- as the header before it.
pub After-relink :
    (m m' : ℕ → Header) (qs qs' : ℕ → List ℕ) (left left' a : ℕ) (post : List Block)
    → m' a ≡ record (m a) { left = left' }
    → ((x : ℕ) → a < x → m' x ≡ m x)
    → Keeps qs qs' (λ x. a ≤ x)
    → Clears qs qs' (λ x. a + 16 < x)
    → After m qs left a post
    → After m' qs' left' a post
After-relink m m' qs qs' left left' a [] first same keeps clears h = (
  ap (λ (k : Header). k.left) first,
  ap (λ (k : Header). k.size) first ∙ h.1,
  ap (λ (k : Header). k.flag) first ∙ h.2,
)
After-relink m m' qs qs' left left' a (b ∷ post) first same keeps clears h =
    let large = h.0.large in
    let next = a + b.0 in
    let step : m' next ≡ m next = same next (omega (arith, large)) in
    (
      block-frame m m' qs qs' a left left' b (ap (λ (k : Header). k.left) first)
          (ap (λ (k : Header). k.size) first) (ap (λ (k : Header). k.flag) first)
          (λ n. keeps a n (omega arith)) (λ x i u. clears x i (omega (arith, u))) h.0,
      After-relink m m' qs qs' a a next post (step ∙ After-left m qs a next post h.1)
          (λ x u. same x (omega (arith, u, large))) (λ x n u. keeps x n (omega (arith, u, large)))
          (λ x i u. clears x i (omega (arith, u, large))) h.1,
    )

pub After-frame :
    (m m' : ℕ → Header) (qs qs' : ℕ → List ℕ) (left a : ℕ) (post : List Block)
    → ((x : ℕ) → a ≤ x → m' x ≡ m x)
    → Keeps qs qs' (λ x. a ≤ x)
    → Clears qs qs' (λ x. a + 16 < x)
    → After m qs left a post
    → After m' qs' left a post
After-frame m m' qs qs' left a post same keeps clears h =
    After-relink m m' qs qs' left left a post (same a (omega arith) ∙ After-left m qs left a post h)
      (λ x u. same x (omega (arith, u))) keeps clears h
