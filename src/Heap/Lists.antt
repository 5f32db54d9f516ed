-- ===== src/Heap/Lists.antt =====
-- kernel/src/klib/cmpctmalloc.rs: the free lists and their bits, as blocks come and go.
use score.Base.{
  ℕ, ◌+◌, ◌-◌, ◌%◌, ◌^◌, ◌≤◌, ◌<◌, ◌≡◌, ◌≢◌, refl, ◌∙◌, inl, inr, true, false, ◌==◌, arith,
  if◌then◌else◌, Bool-cases, List, [], ◌∷◌, All, All-imp, ok,
}
use score.Base.Word.{usize_mod, wadd, wsub}
use score.LinkedList.{Memory, init_node, add_head}
use score.LinkedList.Frame.{IsList-frame}
use score.LinkedList.Family.{IsFamily, Outside, put, put-here, put-other, add_head-IsFamily}
use score.Cmpct.{number_of_buckets, size_to_index_freeing}
use score.Cmpct.FreeBits.{flag}
use score.Cmpct.MarkBits.{set_clear_free_list_bit-Marks}
use score.Heap.{Heap, Header, write, create_free_area}

abbrev pub has : List ℕ → ℕ
has [] = 0
has (x ∷ xs) = 1

-- The node is that of a block that is tagged as free.
abbrev pub IsTagged : (ℕ → Header) → ℕ → Type 0
IsTagged m n = (16 ≤ n) × ((m (n - 16)).flag ≡ 1)

-- The free lists hold the nodes `qs`, their bits tell which are not empty, and all blocks in them are
-- tagged as free.
pub record IsFree {S : Type 0} (h : Heap S) (qs : ℕ → List ℕ) : Type 0 where
  pub lists : IsFamily 128 h.nodes h.free_lists qs
  pub words : (j : ℕ) → h.free_list_bits j < 2 ^ 32
  pub marks : (i : ℕ) → i < 128 → flag h.free_list_bits i ≡ has (qs i)
  pub tagged : (i : ℕ) → i < 128 → All (IsTagged h.header) (qs i)

-- What neither the free lists nor the blocks are about is as before.
pub record SameRest {S : Type 0} (h h' : Heap S) : Type 0 where
  pub free_lists : h'.free_lists ≡ h.free_lists
  pub size : h'.size ≡ h.size
  pub cached_os_alloc : h'.cached_os_alloc ≡ h.cached_os_alloc
  pub source : h'.source ≡ h.source

pub SameRest-header :
    {S : Type 0} {h h' : Heap S} (m : ℕ → Header)
    → SameRest h h'
    → SameRest h (record h' { header = m })
SameRest-header m s = record {
  free_lists = s.free_lists;
  size = s.size;
  cached_os_alloc = s.cached_os_alloc;
  source = s.source;
}

pub SameRest-trans : {S : Type 0} {h g k : Heap S} → SameRest h g → SameRest g k → SameRest h k
SameRest-trans s t = record {
  free_lists = t.free_lists ∙ s.free_lists;
  size = t.size ∙ s.size;
  cached_os_alloc = t.cached_os_alloc ∙ s.cached_os_alloc;
  source = t.source ∙ s.source;
}

pub put_marks :
    (qs : ℕ → List ℕ) (q : ℕ) (l : List ℕ) (i v w : ℕ)
    → v ≡ (if i == q then has l else w)
    → w ≡ has (qs i)
    → v ≡ has (put q l qs i)
put_marks qs q l i v w e f = elim (Bool-cases (i == q)) [
  | inl is ↦ rw (put-here q l qs i is, e, is) refl
  | inr ne ↦ rw (put-other q l qs i ne, e, ne) f
]

pub put_All :
    (P : ℕ → Type 0) (qs : ℕ → List ℕ) (q : ℕ) (l : List ℕ) (i : ℕ)
    → All P l
    → All P (qs i)
    → All P (put q l qs i)
put_All P qs q l i h k = elim (Bool-cases (i == q)) [
  | inl is ↦ rw (put-here q l qs i is) h
  | inr ne ↦ rw (put-other q l qs i ne) k
]

init_node-other : (n : ℕ) (m : Memory) (x : ℕ) → x ≢ n → init_node n m x ≡ m x
unfolding init_node
init_node-other n m x ne = let e : (x == n) ≡ false = ground (arith, ne) in rw e refl

init_node-IsFamily :
    (m : Memory) (root : ℕ → ℕ) (qs : ℕ → List ℕ) (n : ℕ)
    → IsFamily 128 m root qs
    → Outside 128 root qs n
    → IsFamily 128 (init_node n m) root qs
unfolding Outside
init_node-IsFamily m root qs n h out = record {
  list = λ i u.
      IsList-frame m (init_node n m) (root i) (qs i)
        (All-imp {Q = λ x. init_node n m x ≡ m x} (λ x ne. init_node-other n m x ne) (root i ∷ qs i)
          (out i u))
        (h.list i u);
  apart = h.apart;
}

write-IsTagged :
    (m : ℕ → Header) (a : ℕ) (b : Header) (n : ℕ)
    → b.flag ≡ 1
    → IsTagged m n
    → IsTagged (write a b m) n
unfolding write
write-IsTagged m a b n one h = elim (Bool-cases (n - 16 == a)) [
  | inl is ↦ (h.0, rw (is, one) refl)
  | inr ne ↦ (h.0, rw (ne, h.1) refl)
]

new_tagged :
    (m : ℕ → Header) (a : ℕ) (b : Header) → b.flag ≡ 1 → (write a b m (a + 16 - 16)).flag ≡ 1
unfolding write
new_tagged m a b one = let e : (a + 16 - 16 == a) ≡ true = ground arith in rw e one

-- A node that is in no list, with a block in front, becomes the first of its bucket's list.
pub create_free_area_lem :
    {S : Type 0} (h : Heap S) (qs : ℕ → List ℕ) (area left size bucket : ℕ)
    → IsFree h qs
    → size_to_index_freeing (size - 16) ≡ ok bucket
    → bucket < number_of_buckets
    → Outside 128 h.free_lists qs (area + 16)
    → area + size < usize_mod
    → 32 ≤ size
    → size < 2 ^ 32
    → (h' : Heap S) × (create_free_area area left size h ≡ ok h')
      × IsFree h' (put bucket ((area + 16) ∷ qs bucket) qs)
      × (h'.header ≡ write area (record { left = left; size = size; flag = 1 }) h.header)
      × (h'.remaining ≡ wadd h.remaining size)
      × SameRest h h'
unfolding create_free_area write
create_free_area_lem h qs area left size bucket free index low out fits large small =
    let ((bits, ran, words, marks), _) =
      set_clear_free_list_bit-Marks h.free_list_bits free.words bucket low in
    let node : wadd area 16 ≡ area + 16 = omega (arith, fits, large) in
    let payload : wsub size 16 ≡ size - 16 = omega (arith, fits, large) in
    let width : size % 2 ^ 32 ≡ size = omega (arith, small) in
    let block : Header = record { left = left; size = size; flag = 1 } in
    let freed = record h {
      remaining = wadd h.remaining size;
      free_list_bits = bits;
      header = write area block h.header;
      nodes = add_head (h.free_lists bucket) (area + 16) (init_node (area + 16) h.nodes);
    } in
    (
      freed,
      rw (node, payload, index, ran, width) refl,
      record {
        lists =
            add_head-IsFamily 128 (init_node (area + 16) h.nodes) h.free_lists qs bucket (area + 16)
              (init_node-IsFamily h.nodes h.free_lists qs (area + 16) free.lists out) low out
              (omega arith);
        words = words;
        marks = λ i u.
            put_marks qs bucket ((area + 16) ∷ qs bucket) i (flag bits i) (flag h.free_list_bits i)
              (marks i) (free.marks i u);
        tagged = λ i u.
            let still =
              λ (n : ℕ) (t : IsTagged h.header n). write-IsTagged h.header area block n refl t in
            let here = λ (j : ℕ) (v : j < 128).
              All-imp {Q = IsTagged freed.header} still (qs j) (free.tagged j v) in
            put_All (IsTagged freed.header) qs bucket ((area + 16) ∷ qs bucket) i
              ((omega arith, new_tagged h.header area block refl), here bucket low) (here i u);
      },
      refl,
      refl,
      record { free_lists = refl; size = refl; cached_os_alloc = refl; source = refl },
    )
