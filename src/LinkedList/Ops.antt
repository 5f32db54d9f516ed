-- ===== src/LinkedList/Ops.antt =====
-- The operations on a list that changes: what each makes of the elements.
use mathlib.Core.List.{append-nil}
use score.Base.{
  inl, inr, ◌⊎◌, false, true, ℕ, ◌≡◌, ◌≢◌, refl, sym, List, [], ◌∷◌, ◌++◌, arith, All, All-imp,
  All-append, All-front, All-back, ◌==◌,
}
use score.LinkedList.{Memory, init, add_head, add_tail, delete_from_list, pop_head, splice}
use score.LinkedList.Chain.{
  Links, NotIn, Distinct, IsList, last, All-last, Links-last, Links-append, Links-split, relink,
  keep, All-others, Distinct-append, Distinct-remove, NotIn-head,
}

==_refl : (n : ℕ) → (n == n) ≡ true
==_refl n = ground arith

-- `init` makes an empty list.
pub init-IsList : (r : ℕ) (m : Memory) → r ≢ 0 → IsList (init r m) r []
unfolding init
init-IsList r m h = record { links = ground arith; distinct = (tt, tt); valid = (h, tt) }

module _ (m : Memory) (r n : ℕ) where
  add_head-Links :
      (xs : List ℕ)
      → Links m r xs r
      → Distinct (r ∷ xs)
      → NotIn n (r ∷ xs)
      → Links (add_head r n m) r (n ∷ xs) r
  unfolding add_head
  add_head-Links [] h d f = ground arith
  add_head-Links (x ∷ xs) h d f =
      let g = add_head r n m in
      let e : (m r).next ≡ x = h.0 in
      let rn : r ≢ n = f.0 in
      let xn : x ≢ n = f.1.0 in
      let xr : x ≢ r = d.0.0 in
      let k : (y : ℕ) → y ≢ r → y ≢ n → y ≢ x → (g y).next ≡ (m y).next = λ y a b c. ground arith in
      let l : (y : ℕ) → y ≢ r → y ≢ n → y ≢ x → (g y).prev ≡ (m y).prev = λ y a b c. ground arith in
      (
        ground arith,
        ground arith,
        (
          ground arith,
          ground arith,
          keep m g x xs r h.2
              (ground arith, All-others (λ y. (g y).next ≡ (m y).next) r n x xs k d.0.1 f.1.1 d.1.0)
              (All-others (λ y. (g y).prev ≡ (m y).prev) r n x xs l d.0.1 f.1.1 d.1.0)
              (ground arith),
        ),
      )

  -- `add_head` puts a node that is not in the list in front of its elements.
  pub add_head-IsList :
      (xs : List ℕ) → IsList m r xs → NotIn n (r ∷ xs) → n ≢ 0 → IsList (add_head r n m) r (n ∷ xs)
  add_head-IsList xs h f nz = record {
    links = add_head-Links xs h.links h.distinct f;
    distinct = ((λ e. f.0 (sym e), h.distinct.0), (f.1, h.distinct.1));
    valid = (h.valid.0, (nz, h.valid.1));
  }

  -- The end of a chain, with the writes of `add_tail`.
  add_tail-Links :
      (xs : List ℕ)
      → Links m r xs r
      → Distinct (r ∷ xs)
      → NotIn n (r ∷ xs)
      → Links (add_tail r n m) r (xs ++ (n ∷ [])) r
  unfolding add_tail
  add_tail-Links xs h d f =
      let g = add_tail r n m in
      let z = last r xs in
      let e : (m r).prev ≡ z = (Links-last m r xs r h).0 in
      let rn : r ≢ n = f.0 in
      let zn : z ≢ n = All-last (λ y. y ≢ n) r xs f in
      let k : (y : ℕ) → y ≢ n → y ≢ z → (g y).next ≡ (m y).next = λ y b c. ground arith in
      let l : (y : ℕ) → y ≢ r → y ≢ n → (g y).prev ≡ (m y).prev = λ y a b. ground arith in
      Links-append g r xs n [] r
        (relink m g r xs r n h d (All-imp {Q = λ y. y ≢ z → (g y).next ≡ (m y).next} k (r ∷ xs) f)
          (All-others (λ y. (g y).prev ≡ (m y).prev) r n n xs (λ y a b c. l y a b) d.0 f.1 f.1)
          (ground arith) (ground arith))
        (ground arith, ground arith)

  Distinct-snoc : (xs : List ℕ) → Distinct xs → NotIn n xs → Distinct (xs ++ (n ∷ []))
  Distinct-snoc [] d f = (tt, tt)
  Distinct-snoc (x ∷ xs) d f =
      (All-append (λ y. y ≢ x) xs (n ∷ []) d.0 ((λ e. f.0 (sym e)), tt), Distinct-snoc xs d.1 f.1)

  -- `add_tail` puts a node that is not in the list behind its elements.
  pub add_tail-IsList :
      (xs : List ℕ)
      → IsList m r xs
      → NotIn n (r ∷ xs)
      → n ≢ 0
      → IsList (add_tail r n m) r (xs ++ (n ∷ []))
  add_tail-IsList xs h f nz = record {
    links = add_tail-Links xs h.links h.distinct f;
    distinct = Distinct-snoc (r ∷ xs) h.distinct f;
    valid = All-append (λ y. y ≢ 0) (r ∷ xs) (n ∷ []) h.valid (nz, tt);
  }

module _ (m : Memory) (r n : ℕ) where
  delete-Links :
      (xs ys : List ℕ)
      → Links m r (xs ++ (n ∷ ys)) r
      → Distinct (r ∷ (xs ++ (n ∷ ys)))
      → All (λ y. y ≢ 0) (r ∷ (xs ++ (n ∷ ys)))
      → Links (delete_from_list n m) r (xs ++ ys) r
  unfolding delete_from_list
  delete-Links xs [] h d v =
      let g = delete_from_list n m in
      let z = last r xs in
      let (front, back) = Links-split m r xs n [] r h in
      let (dd, nx, ny) = Distinct-remove (r ∷ xs) n [] d in
      let (da, db, dc) = Distinct-append (r ∷ xs) [] dd in
      let e : (m n).prev ≡ z = (Links-last m r xs n front).0 in
      let zn : z ≢ n = All-last (λ u. u ≢ n) r xs nx in
      let z0 : z ≢ 0 = All-last (λ u. u ≢ 0) r xs (All-front (λ u. u ≢ 0) (r ∷ xs) (n ∷ []) v) in
      let k : (u : ℕ) → u ≢ n → u ≢ z → (g u).next ≡ (m u).next = λ u b c. ground arith in
      let l : (u : ℕ) → u ≢ n → u ≢ r → (g u).prev ≡ (m u).prev = λ u a b. ground arith in
      rw append-nil (
        relink m g r xs n r front da
          (All-imp {Q = λ y. y ≢ z → (g y).next ≡ (m y).next} k (r ∷ xs) nx)
          (All-others (λ y. (g y).prev ≡ (m y).prev) n r r xs (λ u a b c. l u a b) nx.1 da.0 da.0)
          (ground arith) (ground arith))
  delete-Links xs (y ∷ ys) h d v =
      let g = delete_from_list n m in
      let z = last r xs in
      let (front, back) = Links-split m r xs n (y ∷ ys) r h in
      let (dd, nx, ny) = Distinct-remove (r ∷ xs) n (y ∷ ys) d in
      let (da, db, dc) = Distinct-append (r ∷ xs) (y ∷ ys) dd in
      let e : (m n).prev ≡ z = (Links-last m r xs n front).0 in
      let zn : z ≢ n = All-last (λ u. u ≢ n) r xs nx in
      let z0 : z ≢ 0 =
        All-last (λ u. u ≢ 0) r xs (All-front (λ u. u ≢ 0) (r ∷ xs) (n ∷ y ∷ ys) v) in
      let y0 : y ≢ 0 = (All-back (λ u. u ≢ 0) (r ∷ xs) (n ∷ y ∷ ys) v).1.0 in
      let zy : NotIn z (y ∷ ys) = All-last (λ u. NotIn u (y ∷ ys)) r xs dc in
      let ry : r ≢ y = λ q. dc.0.0 (sym q) in
      let k : (u : ℕ) → u ≢ n → u ≢ z → (g u).next ≡ (m u).next = λ u b c. ground arith in
      let l : (u : ℕ) → u ≢ n → u ≢ y → (g u).prev ≡ (m u).prev = λ u a b. ground arith in
      let yx = NotIn-head xs y ys dc.1 in
      Links-append g r xs y ys r
        (relink m g r xs n y front da
          (All-imp {Q = λ u. u ≢ z → (g u).next ≡ (m u).next} k (r ∷ xs) nx)
          (All-others (λ u. (g u).prev ≡ (m u).prev) n y y xs (λ u a b c. l u a b) nx.1 yx yx)
          (ground arith) (ground arith))
        (keep m g y ys r back.2
          (All-others (λ u. (g u).next ≡ (m u).next) n z z (y ∷ ys) (λ u a b c. k u a b) ny zy zy)
          (All-others (λ u. (g u).prev ≡ (m u).prev) n y y ys (λ u a b c. l u a b) ny.1 db.0 db.0)
          (l r nx.0 ry))

  -- `delete_from_list` takes the node out and leaves the other elements in their order.
  pub delete-IsList :
      (xs ys : List ℕ) → IsList m r (xs ++ (n ∷ ys)) → IsList (delete_from_list n m) r (xs ++ ys)
  delete-IsList xs ys h = record {
    links = delete-Links xs ys h.links h.distinct h.valid;
    distinct = (Distinct-remove (r ∷ xs) n ys h.distinct).0;
    valid =
        All-append (λ y. y ≢ 0) (r ∷ xs) ys (All-front (λ y. y ≢ 0) (r ∷ xs) (n ∷ ys) h.valid)
          (All-back (λ y. y ≢ 0) (r ∷ xs) (n ∷ ys) h.valid).1;
  }

-- `pop_head` returns null on an empty list and changes nothing; else it returns the first element and
-- leaves the others.
pub pop_head-IsList :
    (m : Memory) (r : ℕ) (xs : List ℕ)
    → IsList m r xs
    → ((xs ≡ []) × (pop_head r m ≡ (0, m)))
      ⊎ ((x : ℕ) × (ys : List ℕ) × (xs ≡ x ∷ ys)
          × ((pop_head r m).0 ≡ x)
          × IsList (pop_head r m).1 r ys)
unfolding pop_head
pop_head-IsList m r [] h = inl (refl, rw (h.links.0, ==_refl r))
pop_head-IsList m r (x ∷ xs) h =
    let e : (m r).next ≡ x = h.links.0 in
    let f : (x == r) ≡ false = ground (arith, h.distinct.0.0) in
    inr (x, xs, refl, rw (e, f), rw (e, f) (delete-IsList m r x [] xs h))

-- Two lists with no node in common.
abbrev pub Apart : List ℕ → List ℕ → Type 0
Apart xs ys = All (λ x. NotIn x ys) xs

module _ (m : Memory) (r o : ℕ) where
  -- `splice` of an empty list changes nothing.
  splice-nil : IsList m o [] → splice r o m ≡ m
  unfolding splice
  splice-nil h = rw (h.links.1, ==_refl o)

  splice-Links :
      (xs : List ℕ) (y : ℕ) (ys : List ℕ)
      → IsList m r xs
      → IsList m o (y ∷ ys)
      → Apart (r ∷ xs) (o ∷ y ∷ ys)
      → Links (splice r o m) r (xs ++ (y ∷ ys)) r × Links (splice r o m) o [] o
  unfolding splice
  splice-Links xs y ys h k a =
      let g = splice r o m in
      let z = last r xs in
      let t = last y ys in
      let zo : NotIn z (o ∷ y ∷ ys) = All-last (λ u. NotIn u (o ∷ y ∷ ys)) r xs a in
      let to : t ≢ o = All-last (λ u. u ≢ o) y ys k.distinct.0 in
      let tz : t ≢ z = All-last (λ u. u ≢ z) y ys zo.1 in
      let tr : t ≢ r = All-last (λ u. u ≢ r) y ys a.0.1 in
      let e : (m r).prev ≡ z = (Links-last m r xs r h.links).0 in
      let f : (m o).prev ≡ t = (Links-last m y ys o k.links.2).0 in
      let next : (u : ℕ) → u ≢ t → u ≢ z → u ≢ o → (g u).next ≡ (m u).next =
        λ u b c d. ground arith in
      let prev : (u : ℕ) → u ≢ y → u ≢ r → u ≢ o → (g u).prev ≡ (m u).prev =
        λ u b c d. ground arith in
      let apart : All (λ u. NotIn u (y ∷ ys)) xs =
        All-imp (λ u (q : NotIn u (o ∷ y ∷ ys)). q.1) xs a.1 in
      (
        Links-append g r xs y ys r
            (relink m g r xs r y h.links h.distinct
              (All-imp {Q = λ u. u ≢ z → (g u).next ≡ (m u).next}
                (λ u (q : NotIn u (o ∷ y ∷ ys)) (c : u ≢ z).
                  next u (λ w. All-last (λ s. s ≢ u) y ys q.1 (sym w)) c (λ w. q.0 (sym w)))
                (r ∷ xs) a)
              (All-others (λ u. (g u).prev ≡ (m u).prev) y r o xs prev (NotIn-head xs y ys apart)
                h.distinct.0 (NotIn-head xs o (y ∷ ys) a.1))
              (ground arith) (ground arith))
            (relink m g y ys o r k.links.2 k.distinct.1
              (All-others (λ u. u ≢ t → (g u).next ≡ (m u).next) z o o (y ∷ ys)
                (λ u c d d' b. next u b c d) zo.1 k.distinct.0 k.distinct.0)
              (All-others (λ u. (g u).prev ≡ (m u).prev) y r o ys prev k.distinct.1.0 a.0.1.1
                k.distinct.0.1)
              (ground arith) (ground arith)),
        (ground arith, ground arith),
      )

  Distinct-join : (xs ys : List ℕ) → Distinct xs → Distinct ys → Apart xs ys → Distinct (xs ++ ys)
  Distinct-join [] ys d e a = e
  Distinct-join (x ∷ xs) ys d e a =
      (All-append (λ y. y ≢ x) xs ys d.0 a.0, Distinct-join xs ys d.1 e a.1)

  -- `splice` moves the elements of the other list, if it has any, behind those of this one, in order,
  -- and leaves the other list empty.
  pub splice-IsList :
      (xs ys : List ℕ)
      → IsList m r xs
      → IsList m o ys
      → Apart (r ∷ xs) (o ∷ ys)
      → IsList (splice r o m) r (xs ++ ys) × IsList (splice r o m) o []
  splice-IsList xs [] h k a = rw (append-nil, splice-nil k) (h, k)
  splice-IsList xs (y ∷ ys) h k a =
      let (front, back) = splice-Links xs y ys h k a in
      let apart : Apart (r ∷ xs) (y ∷ ys) =
        All-imp (λ u (q : NotIn u (o ∷ y ∷ ys)). q.1) (r ∷ xs) a in
      (
        record {
          links = front;
          distinct = Distinct-join (r ∷ xs) (y ∷ ys) h.distinct k.distinct.1 apart;
          valid = All-append (λ u. u ≢ 0) (r ∷ xs) (y ∷ ys) h.valid k.valid.1;
        },
        record { links = back; distinct = (tt, tt); valid = (k.valid.0, tt) },
      )
