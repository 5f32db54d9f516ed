-- ===== src/Heap/Unlink.antt =====
-- kernel/src/klib/cmpctmalloc.rs: a free block leaves the list of its bucket.
use score.Base.{
  ℕ, ◌+◌, ◌-◌, ◌≤◌, ◌<◌, ◌≡◌, ◌≢◌, refl, sym, ap, ◌∙◌, subst, inl, inr, ◌==◌, arith, Bool-cases,
  List, [], ◌∷◌, ◌++◌, ok,
}
use score.Base.Word.{usize_mod, wsub}
use score.LinkedList.Chain.{NotIn}
use score.LinkedList.Family.{Outside, All-remove, put, put-here, put-other}
use score.Cmpct.{size_to_index_freeing}
use score.Heap.{Heap, Header, write, unlink_free, unlink_free_unknown_bucket}
use score.Heap.Lists.{IsFree, SameRest}
use score.Heap.Removal.{unlink_free_lem, unlink_free-Outside}
use score.Heap.Blocks.{In, Listed, Keeps, write-other, write-at}

In-split : (n : ℕ) (l : List ℕ) → In n l → (xs : List ℕ) × (ys : List ℕ) × (l ≡ xs ++ (n ∷ ys))
In-split n [] h = absurd h
In-split n (x ∷ l) (inl e) = ([], l, λ i. e i ∷ l)
In-split n (x ∷ l) (inr h) =
    let (xs, ys, e) = In-split n l h in (x ∷ xs, ys, ap (λ (t : List ℕ). x ∷ t) e)

In-remove : (n p : ℕ) (xs ys : List ℕ) → n ≢ p → In n (xs ++ (p ∷ ys)) → In n (xs ++ ys)
In-remove n p [] ys ne (inl e) = absurd (ne (sym e))
In-remove n p [] ys ne (inr h) = h
In-remove n p (x ∷ xs) ys ne (inl e) = inl e
In-remove n p (x ∷ xs) ys ne (inr h) = inr (In-remove n p xs ys ne h)

In-put_remove :
    (qs : ℕ → List ℕ) (q p n i : ℕ) (xs ys : List ℕ)
    → n ≢ p
    → qs q ≡ xs ++ (p ∷ ys)
    → In n (qs i)
    → In n (put q (xs ++ ys) qs i)
In-put_remove qs q p n i xs ys ne has h = elim (Bool-cases (i == q)) [
  | inl e ↦
      let is : i ≡ q = ground arith in
      rw (put-here q (xs ++ ys) qs i e)
        (In-remove n p xs ys ne (subst (λ (t : List ℕ). In n t) (ap qs is ∙ has) h))
  | inr e ↦ rw (put-other q (xs ++ ys) qs i e) h
]

NotIn-put_remove :
    (qs : ℕ → List ℕ) (q p n i : ℕ) (xs ys : List ℕ)
    → qs q ≡ xs ++ (p ∷ ys)
    → NotIn n (qs i)
    → NotIn n (put q (xs ++ ys) qs i)
NotIn-put_remove qs q p n i xs ys has out = elim (Bool-cases (i == q)) [
  | inl e ↦
      let is : i ≡ q = ground arith in
      rw (put-here q (xs ++ ys) qs i e)
        (All-remove (λ x. x ≢ n) xs p ys (subst (NotIn n) (ap qs is ∙ has) out))
  | inr e ↦ rw (put-other q (xs ++ ys) qs i e) out
]

Outside-put_remove :
    (root : ℕ → ℕ) (qs : ℕ → List ℕ) (q p n : ℕ) (xs ys : List ℕ)
    → qs q ≡ xs ++ (p ∷ ys)
    → Outside 128 root qs n
    → Outside 128 root (put q (xs ++ ys) qs) n
unfolding Outside
Outside-put_remove root qs q p n xs ys has out i u =
    ((out i u).0, NotIn-put_remove qs q p n i xs ys has (out i u).1)

-- What `unlink_free_unknown_bucket` comes to at a block of `size` bytes: its header is not tagged, its
-- node is in no list, and the other nodes are where they were.
pub record Unlinks {S : Type 0} (h : Heap S) (qs : ℕ → List ℕ) (a size : ℕ) (h' : Heap S)
    (qs' : ℕ → List ℕ) : Type 0 where
  pub ran : unlink_free_unknown_bucket a h ≡ ok h'
  pub free : IsFree h' qs'
  pub header : h'.header ≡ write a (record (h.header a) { flag = 0 }) h.header
  pub remaining : h'.remaining ≡ h.remaining - size
  pub same : SameRest h h'
  pub keeps : Keeps qs qs' (λ x. x ≢ a)
  pub clears : (x i : ℕ) → NotIn x (qs i) → NotIn x (qs' i)
  pub out : Outside 128 h'.free_lists qs' (a + 16)
  pub out_others : (n : ℕ) → Outside 128 h.free_lists qs n → Outside 128 h'.free_lists qs' n

pub known_bucket :
    {S : Type 0} (h : Heap S) (a bucket : ℕ)
    → size_to_index_freeing (wsub (h.header a).size 16) ≡ ok bucket
    → unlink_free_unknown_bucket a h ≡ unlink_free a bucket h
unfolding unlink_free_unknown_bucket
known_bucket h a bucket e = rw e refl

pub unlink_lem :
    {S : Type 0} (h : Heap S) (qs : ℕ → List ℕ) (a size : ℕ)
    → IsFree h qs
    → Listed qs (a + 16) size
    → (h.header a).size ≡ size
    → 16 ≤ size
    → a + size < usize_mod
    → size ≤ h.remaining
    → h.remaining < usize_mod
    → a + 16 < usize_mod
    → (h' : Heap S) × (qs' : ℕ → List ℕ) × Unlinks h qs a size h' qs'
unlink_lem h qs a size free listed is large fits counted word node =
    let (bucket, low, index, has) = listed in
    let (xs, ys, split) = In-split (a + 16) (qs bucket) has in
    let payload : wsub size 16 ≡ size - 16 = omega (arith, fits, large) in
    let enough : (h.header a).size ≤ h.remaining = omega (arith, is, counted) in
    let (h', ran, free', header, remaining, same) =
      unlink_free_lem h qs a bucket xs ys free low split node enough word in
    let out = unlink_free-Outside h qs a bucket xs ys free low split node enough word in
    let roots = sym same.free_lists in
    (
      h',
      put bucket (xs ++ ys) qs,
      record {
        ran =
            known_bucket h a bucket (
              ap (λ (t : ℕ). size_to_index_freeing (wsub t 16)) is
              ∙ ap size_to_index_freeing payload
              ∙ index)
            ∙ ran;
        free = free';
        header = header;
        remaining = remaining ∙ ap (λ (t : ℕ). h.remaining - t) is;
        same = same;
        keeps = λ x n ne l. (
          l.0,
          l.1,
          l.2,
          In-put_remove qs bucket (a + 16) (x + 16) l.0 xs ys (λ e. ne (omega (arith, e))) split
              l.3,
        );
        clears = λ x i o. NotIn-put_remove qs bucket (a + 16) x i xs ys split o;
        out = subst (λ (r : ℕ → ℕ). Outside 128 r (put bucket (xs ++ ys) qs) (a + 16)) roots out;
        out_others = λ n o.
            subst (λ (r : ℕ → ℕ). Outside 128 r (put bucket (xs ++ ys) qs) n) roots
              (Outside-put_remove h.free_lists qs bucket (a + 16) n xs ys split o);
      },
    )

module _ {S : Type 0} {h h' : Heap S} {qs qs' : ℕ → List ℕ} {a size : ℕ}
    (u : Unlinks h qs a size h' qs') where
  pub Unlinks-other : (x : ℕ) → x ≢ a → h'.header x ≡ h.header x
  Unlinks-other x ne =
      ap (λ (m : ℕ → Header). m x) u.header
      ∙ write-other a (record (h.header a) { flag = 0 }) h.header x ne

  pub Unlinks-at : h'.header a ≡ record (h.header a) { flag = 0 }
  Unlinks-at =
      ap (λ (m : ℕ → Header). m a) u.header ∙ write-at a (record (h.header a) { flag = 0 }) h.header
