-- ===== src/Rbtree/Height.antt =====
-- The height of the trees that `insert` makes.
use native.Mathlib.Nat.{pow-suc, le_trans, pow-le-pow_right}
use score.Rbtree.Entries.{
  to_list, Sorted, insert_entry, to_list-insert, insert-Sorted, upto, beyond,
}
use score.Rbtree.Balance.{IsRedBlack, black_height, insert-IsRedBlack}
use score.Base.{
  List, [], ◌∙◌, ℕ, ◌∷◌, ◌≤◌, ◌^◌, ◌/◌, suc, ap, max, length, length-append, ◌+◌, ◌≡◌, refl, false,
  arith,
}
use score.Rbtree.{red, black, Tree, leaf, node, is_red_color, RbTree, insert, new}

two-pow_mono : {m n : ℕ} → m ≤ n → 2 ^ m ≤ 2 ^ n
two-pow_mono h = pow-le-pow_right (omega arith) h

module _ {ℓ} {V : Type ℓ} where
  -- Twice the black height, and one more for a red root, bounds the height.
  abbrev pub height : Tree V → ℕ
  height leaf = 0
  height (node c l k v r) = max (height l) (height r) + 1

  abbrev pub red_root : Tree V → ℕ
  red_root leaf = 0
  red_root (node red l k v r) = 1
  red_root (node black l k v r) = 0

  red_root-le : (t : Tree V) → red_root t ≤ 1
  red_root-le leaf = omega arith
  red_root-le (node red l k v r) = omega arith
  red_root-le (node black l k v r) = omega arith

  no_red_root : (t : Tree V) → is_red_color t ≡ false → red_root t ≡ 0
  no_red_root leaf e = refl
  no_red_root (node red l k v r) e = absurd (cc)
  no_red_root (node black l k v r) e = refl

  height-le-black_height :
      (t : Tree V) → IsRedBlack t → height t ≤ black_height t + black_height t + red_root t
  height-le-black_height leaf s = omega arith
  height-le-black_height (node red l k v r) s = omega (
    arith,
    height-le-black_height l s.2,
    height-le-black_height r s.3,
    s.0,
    no_red_root l s.1.0,
    no_red_root r s.1.1,
  )
  height-le-black_height (node black l k v r) s = omega (
    arith,
    height-le-black_height l s.2,
    height-le-black_height r s.3,
    s.0,
    red_root-le l,
    red_root-le r,
  )

  black_height-le-size : (t : Tree V) → IsRedBlack t → 2 ^ black_height t ≤ length (to_list t) + 1
  unfolding to_list
  black_height-le-size leaf s = omega arith
  black_height-le-size (node red l k v r) s =
      let e : black_height l + 0 ≡ black_height l = omega arith in
      rw e
        (omega (arith, black_height-le-size l s.2, length-append (to_list l) ((k, v) ∷ to_list r)))
  black_height-le-size (node black l k v r) s =
      let e : black_height l + 1 ≡ suc (black_height l) = omega arith in
      rw e (
        omega (
          arith,
          black_height-le-size l s.2,
          black_height-le-size r s.3,
          ap (λ (n : ℕ). 2 ^ n) s.0,
          pow-suc 2 (black_height l),
          length-append (to_list l) ((k, v) ∷ to_list r),
        ))

  -- A red-black tree with a black root and n entries is of logarithmic height: half of the height is
  -- at most the logarithm of n + 1.
  height-le-size :
      (t : Tree V)
      → IsRedBlack t
      → is_red_color t ≡ false
      → 2 ^ (height t / 2) ≤ length (to_list t) + 1
  height-le-size t s e =
      le_trans (two-pow_mono (omega (arith, height-le-black_height t s, no_red_root t e)))
        (black_height-le-size t s)

  -- Calls of `insert`, one for each entry, the last of the list first.
  unfoldable pub insert_all : List (ℕ × V) → RbTree V
  insert_all [] = new
  insert_all ((q, w) ∷ xs) = insert q w (insert_all xs)

  length-insert_entry :
      (q : ℕ) (w : V) (xs : List (ℕ × V)) → length (insert_entry q w xs) ≡ suc (length xs)
  unfolding insert_entry upto beyond
  length-insert_entry q w [] = refl
  length-insert_entry q w ((k, v) ∷ xs) = ground (arith, length-insert_entry q w xs)

  record Grown (n : ℕ) (m : RbTree V) : Type 0 where
    shape : IsRedBlack m.root
    rooted : is_red_color m.root ≡ false
    sorted : Sorted (to_list m.root)
    count : length (to_list m.root) ≡ n
    len : m.len ≡ n

  insert_all-Grown : (xs : List (ℕ × V)) → Grown (length xs) (insert_all xs)
  unfolding insert_all new to_list
  insert_all-Grown [] = record { shape = tt; rooted = refl; sorted = tt; count = refl; len = refl }
  insert_all-Grown ((q, w) ∷ xs) =
      let g = insert_all-Grown xs in
      let m = insert_all xs in
      let (shape, rooted) = insert-IsRedBlack q w m g.shape g.rooted in
      let (e, l) = to_list-insert q w m g.sorted in
      record {
        shape = shape;
        rooted = rooted;
        sorted = insert-Sorted q w m g.sorted;
        count = ap length e ∙ length-insert_entry q w (to_list m.root) ∙ ap suc g.count;
        len = omega (arith, l, g.len);
      }

  -- After any sequence of calls of `insert` from the empty tree, `len` is the number of calls, and the
  -- longest way down from the root is of logarithmic length: half of it is at most the logarithm of
  -- `len + 1`.
  pub insert_all-height :
      (xs : List (ℕ × V))
      → ((insert_all xs).len ≡ length xs)
        × (2 ^ (height (insert_all xs).root / 2) ≤ (insert_all xs).len + 1)
  insert_all-height xs =
      let g = insert_all-Grown xs in
      let h = height-le-size (insert_all xs).root g.shape g.rooted in
      (g.len, omega (arith, h, g.len, g.count))
