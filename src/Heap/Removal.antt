-- ===== src/Heap/Removal.antt =====
-- kernel/src/klib/cmpctmalloc.rs: `unlink_free`, and the free lists without a block.
use score.Base.{
  ltb, lt→ltb, ℕ, ◌+◌, ◌-◌, ◌^◌, ◌≤◌, ◌<◌, ◌≡◌, ◌≢◌, refl, sym, ap, ◌∙◌, subst, inl, inr, true,
  false, ◌==◌, leb, arith, if◌then◌else◌, Bool-cases, List, [], ◌∷◌, ◌++◌, All, All-imp, All-both,
  ok,
}
use score.Base.Word.{usize_mod, wadd, wsub}
use score.LinkedList.{Memory, delete_from_list, empty}
use score.LinkedList.Chain.{IsList}
use score.LinkedList.Family.{
  IsFamily, Outside, All-remove, put, put-here, delete-IsFamily, delete-Outside,
}
use score.Cmpct.{number_of_buckets, clear_free_list_bit}
use score.Cmpct.FreeBits.{flag}
use score.Cmpct.MarkBits.{set_clear_free_list_bit-Marks}
use score.Heap.{Heap, Header, write, unlink_free}
use score.Heap.Lists.{IsFree, IsTagged, SameRest, has, put_marks, put_All}

-- Whether a list is empty shows at its own node.
empty-has : (m : Memory) (r : ℕ) (xs : List ℕ) → IsList m r xs → empty r m ≡ (has xs == 0)
unfolding empty
empty-has m r [] h = let e : (m r).next ≡ r = h.links.0 in rw e (ground arith)
empty-has m r (x ∷ xs) h =
    let e : (m r).next ≡ x = h.links.0 in rw e (ground (arith, h.distinct.0.0))

has-insert : (xs : List ℕ) (n : ℕ) (ys : List ℕ) → has (xs ++ (n ∷ ys)) ≡ 1
has-insert [] n ys = refl
has-insert (x ∷ xs) n ys = refl

has-one : (xs : List ℕ) → (has xs == 0) ≡ false → has xs ≡ 1
has-one [] z = cc
has-one (x ∷ xs) z = refl

untagged :
    (m : ℕ → Header) (a : ℕ) (n : ℕ)
    → n ≢ a + 16
    → IsTagged m n
    → IsTagged (write a (record (m a) { flag = 0 }) m) n
unfolding write
untagged m a n ne h =
    let e : (n - 16 == a) ≡ false = ground (arith, ne, h.0) in (h.0, rw (e, h.1) refl)

-- A write of a header that is not tagged leaves the tagged ones.
pub IsTagged-write :
    (m : ℕ → Header) (a : ℕ) (v : Header) (n : ℕ)
    → (m a).flag ≡ 0
    → IsTagged m n
    → IsTagged (write a v m) n
unfolding write
IsTagged-write m a v n zero_flag h = elim (Bool-cases (n - 16 == a)) [
  | inl e ↦
      let is : n - 16 ≡ a = ground arith in
      absurd (ground (arith, sym h.1 ∙ ap (λ (t : ℕ). (m t).flag) is ∙ zero_flag))
  | inr e ↦ (h.0, rw (e, h.1) refl)
]

-- A block leaves the list of its bucket, and is not tagged any more.
module _ {S : Type 0} (h : Heap S) (qs : ℕ → List ℕ) (a bucket : ℕ) (xs ys : List ℕ)
    (free : IsFree h qs) (low : bucket < number_of_buckets)
    (has_node : qs bucket ≡ xs ++ ((a + 16) ∷ ys)) (fits : a + 16 < usize_mod)
    (counted : (h.header a).size ≤ h.remaining) (word : h.remaining < usize_mod) where
  rest : Memory
  rest = delete_from_list (a + 16) h.nodes

  lists : IsFamily 128 rest h.free_lists (put bucket (xs ++ ys) qs)
  unfolding rest
  lists = delete-IsFamily 128 h.nodes h.free_lists qs bucket (a + 16) xs ys free.lists low has_node

  pub unlink_free-Outside : Outside 128 h.free_lists (put bucket (xs ++ ys) qs) (a + 16)
  unlink_free-Outside =
      delete-Outside 128 h.nodes h.free_lists qs bucket (a + 16) xs ys free.lists low has_node

  still_marked :
      (i : ℕ)
      → i < 128
      → (has (xs ++ ys) == 0) ≡ false
      → flag h.free_list_bits i ≡ (if i == bucket then has (xs ++ ys) else flag h.free_list_bits i)
  still_marked i u z = elim (Bool-cases (i == bucket)) [
    | inl e ↦
        let is : i ≡ bucket = ground arith in
        let old = free.marks bucket low ∙ ap has has_node ∙ has-insert xs (a + 16) ys in
        rw (e, is, old, has-one (xs ++ ys) z) refl
    | inr e ↦ rw e refl
  ]

  -- The bits, after that of the bucket is cleared if the list is empty.
  cleared :
      (bits : ℕ → ℕ) × ((if empty (h.free_lists bucket) rest
          then clear_free_list_bit bucket h.free_list_bits
          else ok h.free_list_bits)
        ≡ ok bits)
      × ((j : ℕ) → bits j < 2 ^ 32)
      × ((i : ℕ) → i < 128 → flag bits i ≡ has (put bucket (xs ++ ys) qs i))
  cleared =
      let self : (bucket == bucket) ≡ true = ground arith in
      let is = put-here bucket (xs ++ ys) qs bucket self in
      let e =
        empty-has rest (h.free_lists bucket) (put bucket (xs ++ ys) qs bucket)
          (lists.list bucket low)
        ∙ ap (λ (t : List ℕ). has t == 0) is in
      elim (Bool-cases (has (xs ++ ys) == 0)) [
        | inl z ↦
            let (_, (bits, ran, words, marks)) =
              set_clear_free_list_bit-Marks h.free_list_bits free.words bucket low in
            let zero_marks : has (xs ++ ys) ≡ 0 = ground arith in
            (
              bits,
              rw (e, z) ran,
              words,
              λ i u.
                  put_marks qs bucket (xs ++ ys) i (flag bits i) (flag h.free_list_bits i)
                    (rw zero_marks (marks i)) (free.marks i u),
            )
        | inr z ↦ (
          h.free_list_bits,
          rw (e, z) refl,
          free.words,
          λ i u.
              put_marks qs bucket (xs ++ ys) i (flag h.free_list_bits i) (flag h.free_list_bits i)
                (still_marked i u z) (free.marks i u),
        )
      ]

  pub unlink_free_lem :
      (h' : Heap S) × (unlink_free a bucket h ≡ ok h')
      × IsFree h' (put bucket (xs ++ ys) qs)
      × (h'.header ≡ write a (record (h.header a) { flag = 0 }) h.header)
      × (h'.remaining ≡ h.remaining - (h.header a).size)
      × SameRest h h'
  unfolding unlink_free rest Outside
  unlink_free_lem =
      let (bits, ran, words, marks) = cleared in
      let node : wadd a 16 ≡ a + 16 = omega (arith, fits) in
      let bucket_low : ltb bucket 128 ≡ true = lt→ltb _ _ low in
      let enough : leb (h.header a).size h.remaining ≡ true = ground (arith, counted) in
      let less : wsub h.remaining (h.header a).size ≡ h.remaining - (h.header a).size =
        omega (arith, counted, word) in
      let unlinked = record h {
        remaining = h.remaining - (h.header a).size;
        free_list_bits = bits;
        header = write a (record (h.header a) { flag = 0 }) h.header;
        nodes = rest;
      } in
      (
        unlinked,
        rw (enough, node, less, bucket_low, ran) refl,
        record {
          lists = lists;
          words = words;
          marks = marks;
          tagged = λ i u.
              let kept = λ (j : ℕ) (v : j < 128). free.tagged j v in
              let mine =
                All-remove (IsTagged h.header) xs (a + 16) ys
                  (subst (All (IsTagged h.header)) has_node (kept bucket low)) in
              All-imp {Q = IsTagged unlinked.header} (λ n b. untagged h.header a n b.0 b.1)
                (put bucket (xs ++ ys) qs i)
                (All-both (λ n. n ≢ a + 16) (IsTagged h.header) (put bucket (xs ++ ys) qs i)
                  (unlink_free-Outside i u).1
                  (put_All (IsTagged h.header) qs bucket (xs ++ ys) i mine (kept i u)));
        },
        refl,
        refl,
        record { free_lists = refl; size = refl; cached_os_alloc = refl; source = refl },
      )
