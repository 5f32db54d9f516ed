-- ===== src/LinkedList/Frame.antt =====
-- kernel/src/klib/list.rs: an operation on one list leaves the nodes of other lists alone.
use score.Base.{
  ℕ, ◌≡◌, ◌≢◌, refl, sym, ap, ◌∙◌, false, ◌==◌, ◌||◌, inl, inr, Bool-cases, arith, List, [], ◌∷◌,
  ◌++◌, All, All-imp, All-front, All-back,
}
use score.LinkedList.{
  ListNode, Memory, set_next, set_prev, add_head, add_tail, delete_from_list, pop_head,
}
use score.LinkedList.Chain.{
  Links, NotIn, IsList, All-last, Links-last, Links-split, NotIn-head, keep,
}
use score.LinkedList.Ops.{Apart}

-- A list whose nodes are as before is a list.
pub IsList-frame :
    (m g : Memory) (r : ℕ) (xs : List ℕ)
    → All (λ a. g a ≡ m a) (r ∷ xs)
    → IsList m r xs
    → IsList g r xs
IsList-frame m g r xs same h =
    let next = λ (a : ℕ) (e : g a ≡ m a). ap (λ (k : ListNode). k.next) e in
    let prev = λ (a : ℕ) (e : g a ≡ m a). ap (λ (k : ListNode). k.prev) e in
    record {
      links =
          keep m g r xs r h.links (All-imp {Q = λ a. (g a).next ≡ (m a).next} next (r ∷ xs) same)
            (All-imp {Q = λ a. (g a).prev ≡ (m a).prev} prev xs same.1) (prev r same.0);
      distinct = h.distinct;
      valid = h.valid;
    }

set_next-other : (a v : ℕ) (m : Memory) (x : ℕ) → a ≢ x → set_next a v m x ≡ m x
unfolding set_next
set_next-other a v m x ne = let e : (x == a) ≡ false = ground (arith, ne) in rw e refl

set_prev-other : (a v : ℕ) (m : Memory) (x : ℕ) → a ≢ x → set_prev a v m x ≡ m x
unfolding set_prev
set_prev-other a v m x ne = let e : (x == a) ≡ false = ground (arith, ne) in rw e refl

set_prev_same : (a n : ℕ) (m : Memory) → (set_prev a (m n).prev m n).prev ≡ (m n).prev
unfolding set_prev
set_prev_same a n m = elim (Bool-cases (n == a)) [ inl e ↦ rw e refl | inr e ↦ rw e refl ]

-- The first node of a chain, or its end, is no node outside.
pub Links-next :
    (m : Memory) (r : ℕ) (xs : List ℕ) (b : ℕ)
    → Links m r xs b
    → (a : ℕ) → b ≢ a
    → NotIn a xs
    → (m r).next ≢ a
Links-next m r [] b h a end out e = end (sym h.0 ∙ e)
Links-next m r (x ∷ xs) b h a end out e = out.0 (sym h.0 ∙ e)

pub add_head-keeps :
    (m : Memory) (r n : ℕ) (xs : List ℕ)
    → IsList m r xs
    → n ≢ r
    → (a : ℕ) → n ≢ a
    → NotIn a (r ∷ xs)
    → add_head r n m a ≡ m a
unfolding add_head
add_head-keeps m r n xs h apart a ne out =
    let m1 = set_next n (m r).next m in
    let m2 = set_prev n r m1 in
    let same = set_prev-other n r m1 r apart ∙ set_next-other n (m r).next m r apart in
    let next = ap (λ (k : ListNode). k.next) same in
    let m3 = set_prev (m2 r).next n m2 in
    set_next-other r n m3 a out.0
    ∙ set_prev-other (m2 r).next n m2 a
        (λ e. Links-next m r xs r h.links a out.0 out.1 (sym next ∙ e))
    ∙ set_prev-other n r m1 a ne
    ∙ set_next-other n (m r).next m a ne

pub delete-keeps :
    (m : Memory) (r n : ℕ) (xs ys : List ℕ)
    → IsList m r (xs ++ (n ∷ ys))
    → (a : ℕ) → NotIn a (r ∷ (xs ++ (n ∷ ys)))
    → delete_from_list n m a ≡ m a
unfolding delete_from_list
delete-keeps m r n xs ys h a out =
    let split = Links-split m r xs n ys r h.links in
    let before = All-last (λ y. y ≢ a) r xs (out.0, All-front (λ y. y ≢ a) xs (n ∷ ys) out.1) in
    let after = All-back (λ y. y ≢ a) xs (n ∷ ys) out.1 in
    let prev : (m n).prev ≢ a = λ e. before (sym (Links-last m r xs n split.0).0 ∙ e) in
    let next : (m n).next ≢ a = Links-next m n ys r split.1 a out.0 after.1 in
    let m1 = set_prev (m n).next (m n).prev m in
    elim (Bool-cases (((m n).prev == 0) || ((m n).next == 0))) [
      | inl e ↦ rw e refl
      | inr e ↦
          let m2 = set_next (m1 n).prev (m1 n).next m1 in
          rw e (
            set_prev-other n 0 (set_next n 0 m2) a after.0
            ∙ set_next-other n 0 m2 a after.0
            ∙ set_next-other (m1 n).prev (m1 n).next m1 a
                (λ q. prev (sym (set_prev_same (m n).next n m) ∙ q))
            ∙ set_prev-other (m n).next (m n).prev m a next)
    ]

pub add_tail-keeps :
    (m : Memory) (r n : ℕ) (xs : List ℕ)
    → IsList m r xs
    → n ≢ r
    → (a : ℕ) → n ≢ a
    → NotIn a (r ∷ xs)
    → add_tail r n m a ≡ m a
unfolding add_tail
add_tail-keeps m r n xs h apart a ne out =
    let m1 = set_prev n (m r).prev m in
    let m2 = set_next n r m1 in
    let same = set_next-other n r m1 r apart ∙ set_prev-other n (m r).prev m r apart in
    let prev = ap (λ (k : ListNode). k.prev) same in
    let m3 = set_next (m2 r).prev n m2 in
    let end = All-last (λ y. y ≢ a) r xs out in
    set_prev-other r n m3 a out.0
    ∙ set_next-other (m2 r).prev n m2 a
        (λ e. end (sym (Links-last m r xs r h.links).0 ∙ sym prev ∙ e))
    ∙ set_next-other n r m1 a ne
    ∙ set_prev-other n (m r).prev m a ne

-- Taking the first element leaves the nodes of other lists alone.
pub pop_head-keeps :
    (m : Memory) (r x : ℕ) (xs : List ℕ)
    → IsList m r (x ∷ xs)
    → (a : ℕ) → NotIn a (r ∷ x ∷ xs)
    → (pop_head r m).1 a ≡ m a
unfolding pop_head
pop_head-keeps m r x xs h a out =
    let first : (m r).next ≡ x = h.links.0 in
    let some : (x == r) ≡ false = ground (arith, h.distinct.0.0) in
    rw (first, some) (delete-keeps m r x [] xs h a out)

pub Apart-sym : (xs ys : List ℕ) → Apart xs ys → Apart ys xs
Apart-sym xs [] h = tt
Apart-sym xs (y ∷ ys) h =
    (NotIn-head xs y ys h, Apart-sym xs ys (All-imp {Q = λ x. NotIn x ys} (λ x b. b.1) xs h))
