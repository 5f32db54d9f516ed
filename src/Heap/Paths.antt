-- ===== src/Heap/Paths.antt =====
-- kernel/src/klib/cmpctmalloc.rs: the four ways of `cmpct_free_internal`, by which of the neighbours
-- of the block are tagged as free. `m` are the headers before, and `left` and `right` the neighbours.
use score.Base.{ℕ, ◌+◌, ◌<◌, ◌≡◌, ◌≢◌, refl, Bool, true, false, ◌==◌, arith, if◌then◌else◌, ltb, ok}
use score.Base.Word.{usize_mod, wadd}
use score.Heap.{
  Heap, Header, PageSource, set_left, right_header, is_tagged_as_free, free_memory, free_with_left,
  free_without_left, cmpct_free_internal, unlink_free_unknown_bucket,
}

pub tagged_free : (m : ℕ → Header) (a : ℕ) → a ≢ 0 → (m a).flag ≡ 1 → is_tagged_as_free a m ≡ true
unfolding is_tagged_as_free
tagged_free m a nz e = let some : (a == 0) ≡ false = ground (arith, nz) in rw (some, e) refl

pub tagged_used : (m : ℕ → Header) (a : ℕ) → (m a).flag ≡ 0 → is_tagged_as_free a m ≡ false
unfolding is_tagged_as_free
tagged_used m a e = rw e (ground arith)

module _ {S : Type 0} (p : PageSource S) (h : Heap S) (a left size : ℕ) where
  pub by_left :
      (t : Bool)
      → (h.header a).left ≡ left
      → (h.header a).size ≡ size
      → (h.header a).flag ≡ 0
      → 16 < size
      → left ≢ 0
      → is_tagged_as_free left h.header ≡ t
      → cmpct_free_internal p a h
        ≡ (if t then free_with_left p a left size h else free_without_left p a left size h)
  unfolding cmpct_free_internal
  by_left t l s f large nz tag =
      let used = tagged_used h.header a f in
      let some : (left == 0) ≡ false = ground (arith, nz) in
      let enough : ltb 16 size ≡ true = ground (arith, large) in
      rw (used, l, s, enough, some, tag) refl

  pub neither :
      (h.header a).size ≡ size
      → a + size < usize_mod
      → is_tagged_as_free (a + size) h.header ≡ false
      → free_without_left p a left size h ≡ free_memory p a left size h
  unfolding free_without_left right_header
  neither s fits tag =
      let right : wadd a size ≡ a + size = omega (arith, fits) in rw (s, right, tag) refl

  pub right_only :
      (r : ℕ) (h' : Heap S)
      → (h.header a).size ≡ size
      → (h.header (a + size)).size ≡ r
      → a + size + r < usize_mod
      → is_tagged_as_free (a + size) h.header ≡ true
      → unlink_free_unknown_bucket (a + size) h ≡ ok h'
      → (set_left (a + size + r) a h'.header (a + size)).size ≡ r
      → free_without_left p a left size h
        ≡ free_memory p a left
            (size + r)
            (record h' { header = set_left (a + size + r) a h'.header })
  unfolding free_without_left right_header
  right_only r h' s sr fits tag ran kept =
      let right : wadd a size ≡ a + size = omega (arith, fits) in
      let right_right : wadd (a + size) r ≡ a + size + r = omega (arith, fits) in
      let sum : wadd size r ≡ size + r = omega (arith, fits) in
      rw (s, right, tag, sr, right_right, ran, kept, sum) refl

  -- From here on the block on the left is unlinked first: it names `far` as the header before it.
  pub left_only :
      (l far : ℕ) (h' : Heap S)
      → unlink_free_unknown_bucket left h ≡ ok h'
      → (h'.header a).size ≡ size
      → a + size < usize_mod
      → l + size < usize_mod
      → (h'.header left).left ≡ far
      → is_tagged_as_free (a + size) h'.header ≡ false
      → (set_left (a + size) left h'.header left).size ≡ l
      → free_with_left p a left size h
        ≡ free_memory p left far
            (l + size)
            (record h' { header = set_left (a + size) left h'.header })
  unfolding free_with_left right_header
  left_only l far h' ran s fits small before tag kept =
      let right : wadd a size ≡ a + size = omega (arith, fits) in
      let sum : wadd l size ≡ l + size = omega (arith, small) in
      rw (ran, s, right, tag, before, kept, sum) refl

  pub both :
      (l r far : ℕ) (h' h'' : Heap S)
      → unlink_free_unknown_bucket left h ≡ ok h'
      → (h'.header a).size ≡ size
      → a + size + r < usize_mod
      → l + size + r < usize_mod
      → (h'.header left).left ≡ far
      → is_tagged_as_free (a + size) h'.header ≡ true
      → unlink_free_unknown_bucket (a + size) h' ≡ ok h''
      → (h''.header (a + size)).size ≡ r
      → (set_left (a + size + r) left h''.header left).size ≡ l
      → (set_left (a + size + r) left h''.header (a + size)).size ≡ r
      → free_with_left p a left size h
        ≡ free_memory p left far
            (l + size + r)
            (record h'' { header = set_left (a + size + r) left h''.header })
  unfolding free_with_left right_header
  both l r far h' h'' ran s fits small before tag ran' sr kept kept' =
      let right : wadd a size ≡ a + size = omega (arith, fits) in
      let right_right : wadd (a + size) r ≡ a + size + r = omega (arith, fits) in
      let sum : wadd (wadd l size) r ≡ l + size + r = omega (arith, small) in
      rw (ran, s, right, tag, before, ran', sr, right_right, kept, kept', sum) refl
