-- ===== src/LinkedList/Family.antt =====
-- kernel/src/klib/list.rs: an array of lists, as the queues of pages and the free lists of the heap.
use score.Base.{
  ℕ, suc, ◌<◌, ◌≡◌, ◌≢◌, refl, sym, ap, subst, inl, inr, true, false, ◌==◌, arith, if◌then◌else◌,
  Bool-cases, List, ◌∷◌, ◌++◌, length, length-append, All, All-imp, All-both, All-front, All-back,
  All-append, All-at,
}
use score.LinkedList.{Memory, add_head, delete_from_list}
use score.LinkedList.Chain.{IsList, NotIn, Distinct-remove}
use score.LinkedList.Ops.{Apart, add_head-IsList, delete-IsList}
use score.LinkedList.Frame.{IsList-frame, add_head-keeps, delete-keeps}

-- The lists whose own nodes are at `root` hold the elements `qs`, and have no node in common.
pub record IsFamily (n : ℕ) (m : Memory) (root : ℕ → ℕ) (qs : ℕ → List ℕ) : Type 0 where
  pub list : (i : ℕ) → i < n → IsList m (root i) (qs i)
  pub apart : (i j : ℕ) → i < n → j < n → i ≢ j → Apart (root i ∷ qs i) (root j ∷ qs j)

-- The node is in no list.
unfoldable pub Outside : ℕ → (ℕ → ℕ) → (ℕ → List ℕ) → ℕ → Type 0
Outside n root qs p = (i : ℕ) → i < n → NotIn p (root i ∷ qs i)

-- The lists, with one of them changed.
unfoldable pub put : ℕ → List ℕ → (ℕ → List ℕ) → ℕ → List ℕ
put q l qs i = if i == q then l else qs i

pub put-here : (q : ℕ) (l : List ℕ) (qs : ℕ → List ℕ) (i : ℕ) → (i == q) ≡ true → put q l qs i ≡ l
unfolding put
put-here q l qs i e = rw e refl

pub put-other :
    (q : ℕ) (l : List ℕ) (qs : ℕ → List ℕ) (i : ℕ) → (i == q) ≡ false → put q l qs i ≡ qs i
unfolding put
put-other q l qs i e = rw e refl

Apart-of : (xs xs' ys ys' : List ℕ) → xs ≡ xs' → ys ≡ ys' → Apart xs' ys' → Apart xs ys
Apart-of xs xs' ys ys' e f a =
    subst (λ (t : List ℕ). Apart t ys) (sym e) (subst (λ (t : List ℕ). Apart xs' t) (sym f) a)

-- One list is replaced, by one whose nodes are apart from all others.
module _ (n : ℕ) (m : Memory) (root : ℕ → ℕ) (qs : ℕ → List ℕ) (q : ℕ) (l : List ℕ) (g : Memory)
    (h : IsFamily n m root qs) (new : IsList g (root q) l)
    (kept : (i : ℕ) → i < n → i ≢ q → All (λ a. g a ≡ m a) (root i ∷ qs i))
    (left : (j : ℕ) → j < n → j ≢ q → Apart (root q ∷ l) (root j ∷ qs j))
    (right : (j : ℕ) → j < n → j ≢ q → Apart (root j ∷ qs j) (root q ∷ l)) where
  full : ℕ → List ℕ
  full i = root i ∷ put q l qs i

  changed : (i : ℕ) → (i == q) ≡ true → root i ∷ put q l qs i ≡ root q ∷ l
  changed i e = let is : i ≡ q = ground arith in λ k. root (is k) ∷ put-here q l qs i e k

  unchanged : (i : ℕ) → (i == q) ≡ false → root i ∷ put q l qs i ≡ root i ∷ qs i
  unchanged i e = ap (λ (t : List ℕ). root i ∷ t) (put-other q l qs i e)

  replaced : IsFamily n g root (put q l qs)
  unfolding put full
  replaced = record {
    list = λ i u. elim (Bool-cases (i == q)) [
      | inl e ↦ let is : i ≡ q = ground arith in rw (e, is) new
      | inr e ↦ rw e (IsList-frame m g (root i) (qs i) (kept i u (ground arith)) (h.list i u))
    ];
    apart = λ i j u v ne. elim (Bool-cases (i == q)) [
      | inl e ↦
          let f : (j == q) ≡ false = ground (arith, ne) in
          Apart-of (full i) (root q ∷ l) (full j) (root j ∷ qs j) (changed i e) (unchanged j f)
            (left j v (ground arith))
      | inr e ↦ elim (Bool-cases (j == q)) [
        | inl f ↦
            Apart-of (full i) (root i ∷ qs i) (full j) (root q ∷ l) (unchanged i e) (changed j f)
              (right i u (ground arith))
        | inr f ↦
            Apart-of (full i) (root i ∷ qs i) (full j) (root j ∷ qs j) (unchanged i e)
              (unchanged j f) (h.apart i j u v ne)
      ]
    ];
  }

-- A node that is in no list and not at address 0 becomes the head of a list.
module _ (n : ℕ) (m : Memory) (root : ℕ → ℕ) (qs : ℕ → List ℕ) (q p : ℕ) (h : IsFamily n m root qs)
    (low : q < n) (out : Outside n root qs p) where
  -- Nodes of other lists keep what a write to the nodes of `q` leaves alone.
  kept_others :
      (g : Memory)
      → ((a : ℕ) → p ≢ a → NotIn a (root q ∷ qs q) → g a ≡ m a)
      → (i : ℕ) → i < n
      → i ≢ q
      → All (λ a. g a ≡ m a) (root i ∷ qs i)
  unfolding Outside
  kept_others g same i u ne =
      All-imp {Q = λ a. g a ≡ m a} (λ a b. same a (λ e. b.0 (sym e)) b.1) (root i ∷ qs i)
        (All-both (λ a. a ≢ p) (λ a. NotIn a (root q ∷ qs q)) (root i ∷ qs i) (out i u)
          (h.apart i q u low ne))

  pub add_head-IsFamily : p ≢ 0 → IsFamily n (add_head (root q) p m) root (put q (p ∷ qs q) qs)
  unfolding Outside
  add_head-IsFamily nz =
      replaced n m root qs q (p ∷ qs q) (add_head (root q) p m) h
        (add_head-IsList m (root q) p (qs q) (h.list q low) (out q low) nz)
        (kept_others (add_head (root q) p m) (λ a ne o.
          add_head-keeps m (root q) p (qs q) (h.list q low) (λ e. (out q low).0 (sym e)) a ne o))
        (λ j v ne. let old = h.apart q j low v (λ e. ne (sym e)) in (old.0, (out j v, old.1)))
        (λ j v ne.
          All-imp {Q = λ x. NotIn x (root q ∷ p ∷ qs q)}
            (λ x b. (b.1.0, ((λ e. b.0 (sym e)), b.1.1))) (root j ∷ qs j)
            (All-both (λ x. x ≢ p) (λ x. NotIn x (root q ∷ qs q)) (root j ∷ qs j) (out j v)
              (h.apart j q v low ne)))

pub All-remove :
    (P : ℕ → Type 0) (xs : List ℕ) (p : ℕ) (ys : List ℕ) → All P (xs ++ (p ∷ ys)) → All P (xs ++ ys)
All-remove P xs p ys h = All-append P xs ys (All-front P xs (p ∷ ys) h) (All-back P xs (p ∷ ys) h).1

pub length-remove :
    (xs : List ℕ) (p : ℕ) (ys : List ℕ) → length (xs ++ (p ∷ ys)) ≡ suc (length (xs ++ ys))
length-remove xs p ys = omega (arith, length-append xs (p ∷ ys), length-append xs ys)

-- A node leaves the list that has it.
module _ (n : ℕ) (m : Memory) (root : ℕ → ℕ) (qs : ℕ → List ℕ) (q p : ℕ) (xs ys : List ℕ)
    (h : IsFamily n m root qs) (low : q < n) (has : qs q ≡ xs ++ (p ∷ ys)) where
  pub own : IsList m (root q) (xs ++ (p ∷ ys))
  own = subst (IsList m (root q)) has (h.list q low)

  others_left : (j : ℕ) → j < n → j ≢ q → Apart (root q ∷ (xs ++ (p ∷ ys))) (root j ∷ qs j)
  others_left j v ne =
      subst (λ (t : List ℕ). Apart (root q ∷ t) (root j ∷ qs j)) has
        (h.apart q j low v (λ e. ne (sym e)))

  others_right : (j : ℕ) → j < n → j ≢ q → Apart (root j ∷ qs j) (root q ∷ (xs ++ (p ∷ ys)))
  others_right j v ne =
      subst (λ (t : List ℕ). Apart (root j ∷ qs j) (root q ∷ t)) has (h.apart j q v low ne)

  pub delete-IsFamily : IsFamily n (delete_from_list p m) root (put q (xs ++ ys) qs)
  delete-IsFamily =
      replaced n m root qs q (xs ++ ys) (delete_from_list p m) h
        (delete-IsList m (root q) p xs ys own)
        (λ i u ne.
          All-imp {Q = λ a. delete_from_list p m a ≡ m a}
            (λ a b. delete-keeps m (root q) p xs ys own a b) (root i ∷ qs i) (others_right i u ne))
        (λ j v ne.
          let old = others_left j v ne in
          (old.0, All-remove (λ x. NotIn x (root j ∷ qs j)) xs p ys old.1))
        (λ j v ne.
          All-imp {Q = λ x. NotIn x (root q ∷ (xs ++ ys))}
            (λ x b. (b.0, All-remove (λ y. y ≢ x) xs p ys b.1)) (root j ∷ qs j)
            (others_right j v ne))

  -- The node is in no list then.
  pub delete-Outside : Outside n root (put q (xs ++ ys) qs) p
  unfolding Outside
  delete-Outside i u = elim (Bool-cases (i == q)) [
    | inl e ↦
        let is : i ≡ q = ground arith in
        let (_, before, after) = Distinct-remove (root q ∷ xs) p ys own.distinct in
        subst (NotIn p) (sym (λ k. root (is k) ∷ put-here q (xs ++ ys) qs i e k))
          (before.0, All-append (λ y. y ≢ p) xs ys before.1 after)
    | inr e ↦
        subst (NotIn p) (sym (ap (λ (t : List ℕ). root i ∷ t) (put-other q (xs ++ ys) qs i e)))
          (All-at (λ x. NotIn x (root i ∷ qs i)) xs p ys (others_left i u (ground arith)).1)
  ]
