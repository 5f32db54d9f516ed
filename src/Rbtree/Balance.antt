-- ===== src/Rbtree/Balance.antt =====
-- The red-black invariant, and that `insert` restores it.

use score.Base.{ℕ, ltb, ◌+◌, ◌≡◌, refl, sym, subst, inl, inr, Bool, true, false, arith, Bool-cases}
use score.Rbtree.{
  Color, red, black, Tree, leaf, node, Parents, top, left_of, right_of, zip, is_red_color,
  set_black_color, left_rotate, right_rotate, insert_fixup, descend, RbTree, insert,
}

abbrev pub weight : Color → ℕ
weight red = 0
weight black = 1

not_red : (b : Bool) → (b ≡ true → ⊥) → b ≡ false
not_red true h = absurd (h refl)
not_red false h = refl

module _ {ℓ} {V : Type ℓ} where
  -- The black nodes on the way down the left side.
  abbrev pub black_height : Tree V → ℕ
  black_height leaf = 0
  black_height (node c l k v r) = black_height l + weight c

  -- The children of a node of this colour may have theirs.
  abbrev pub Allows : Color → Tree V → Tree V → Type 0
  Allows red l r = (is_red_color l ≡ false) × (is_red_color r ≡ false)
  Allows black l r = Unit

  -- Every way down meets as many black nodes, and no red node has a red child.
  abbrev pub IsRedBlack : Tree V → Type 0
  IsRedBlack leaf = Unit
  IsRedBlack (node c l k v r) =
      (black_height l ≡ black_height r) × Allows c l r × IsRedBlack l × IsRedBlack r

  -- A red node may hang under the path.
  abbrev pub TakesRed : Parents V → Type 0
  TakesRed top = Unit
  TakesRed (left_of red k v r p) = ⊥
  TakesRed (left_of black k v r p) = Unit
  TakesRed (right_of red l k v p) = ⊥
  TakesRed (right_of black l k v p) = Unit

  -- A step of the path may have its colour, over the other child `s` and under the path `p`.
  abbrev pub Fits : Color → Tree V → Parents V → Type 0
  Fits red s p = (is_red_color s ≡ false) × TakesRed p
  Fits black s p = Unit

  -- The path is right for a subtree of black height `n`.
  abbrev pub IsContext : ℕ → Parents V → Type 0
  IsContext n top = Unit
  IsContext n (left_of c k v r p) =
      (black_height r ≡ n) × IsRedBlack r × Fits c r p × IsContext (n + weight c) p
  IsContext n (right_of c l k v p) =
      (black_height l ≡ n) × IsRedBlack l × Fits c l p × IsContext (n + weight c) p

  -- The path may take the subtree with the colour that it has.
  abbrev pub Takes : Tree V → Parents V → Type 0
  Takes t p = (is_red_color t ≡ true → TakesRed p)

  zip-IsRedBlack :
      (t : Tree V) (p : Parents V)
      → IsRedBlack t
      → (is_red_color t ≡ true → TakesRed p)
      → IsContext (black_height t) p
      → IsRedBlack (set_black_color (zip t p))
  unfolding zip
  zip-IsRedBlack leaf top t h c = tt
  zip-IsRedBlack (node d a x w b) top t h c = (t.0, tt, t.2, t.3)
  zip-IsRedBlack t (left_of red k v r p) s h c =
      zip-IsRedBlack (node red t k v r) p (sym c.0, (not_red (is_red_color t) h, c.2.0), s, c.1)
        (λ _. c.2.1) c.3
  zip-IsRedBlack t (left_of black k v r p) s h c =
      zip-IsRedBlack (node black t k v r) p (sym c.0, tt, s, c.1) (λ e. absurd (cc)) c.3
  zip-IsRedBlack t (right_of red l k v p) s h c =
      zip-IsRedBlack (node red l k v t) p (c.0, (c.2.0, not_red (is_red_color t) h), c.1, s)
        (λ _. c.2.1) (rw c.0 c.3)
  zip-IsRedBlack t (right_of black l k v p) s h c =
      zip-IsRedBlack (node black l k v t) p (c.0, tt, c.1, s) (λ e. absurd (cc)) (rw c.0 c.3)

  red-set_black :
      (t : Tree V)
      → is_red_color t ≡ true
      → IsRedBlack t
      → IsRedBlack (set_black_color t) × (black_height (set_black_color t) ≡ black_height t + 1)
  red-set_black leaf e s = absurd (cc)
  red-set_black (node red l k v r) e s = ((s.0, tt, s.2, s.3), omega arith)
  red-set_black (node black l k v r) e s = absurd (cc)

  move : {m n : ℕ} (p : Parents V) → m ≡ n → IsContext m p → IsContext n p
  move p e c = subst (λ k. IsContext k p) e c

  -- From a red node whose parent may be red too, `insert_fixup` restores the invariant, the colour of
  -- the root apart.
  insert_fixup-IsRedBlack :
      (a : Tree V) (x : ℕ) (w : V) (b : Tree V) (p : Parents V)
      → IsRedBlack (node red a x w b)
      → IsContext (black_height a) p
      → IsRedBlack (set_black_color (insert_fixup (node red a x w b) p))
  unfolding insert_fixup zip left_rotate right_rotate
  insert_fixup-IsRedBlack a x w b top s c = (s.0, tt, s.2, s.3)
  insert_fixup-IsRedBlack a x w b (left_of black k v r p) s c =
      zip-IsRedBlack (node red a x w b) (left_of black k v r p) s (λ _. tt) (ground arith)
  insert_fixup-IsRedBlack a x w b (right_of black l k v p) s c =
      zip-IsRedBlack (node red a x w b) (right_of black l k v p) s (λ _. tt) (ground arith)
  insert_fixup-IsRedBlack a x w b (left_of red k v r top) s c = ground arith
  insert_fixup-IsRedBlack a x w b (right_of red l k v top) s c = ground arith
  insert_fixup-IsRedBlack a x w b (left_of red k v r (left_of red j u t p)) s c = absurd c.2.1
  insert_fixup-IsRedBlack a x w b (right_of red l k v (left_of red j u t p)) s c = absurd c.2.1
  insert_fixup-IsRedBlack a x w b (left_of red k v r (right_of red t j u p)) s c = absurd c.2.1
  insert_fixup-IsRedBlack a x w b (right_of red l k v (right_of red t j u p)) s c = absurd c.2.1
  insert_fixup-IsRedBlack a x w b (left_of red k v r (left_of black j u t p)) s c =
      elim (Bool-cases (is_red_color t)) [
        | inl e ↦
            rw (e, insert_fixup)
              (insert_fixup-IsRedBlack (node black (node red a x w b) k v r) j u (set_black_color t)
                p (ground (arith, red-set_black t e c.3.1)) (move p (omega arith) c.3.3))
        | inr e ↦
            rw (e, insert_fixup)
              (zip-IsRedBlack (node black (node red a x w b) k v (node red r j u t)) p
                (ground arith) (λ f. absurd (cc)) (move p (omega arith) c.3.3))
      ]
  insert_fixup-IsRedBlack a x w b (right_of red l k v (left_of black j u t p)) s c =
      elim (Bool-cases (is_red_color t)) [
        | inl e ↦
            rw (e, insert_fixup)
              (insert_fixup-IsRedBlack (node black l k v (node red a x w b)) j u (set_black_color t)
                p (ground (arith, red-set_black t e c.3.1))
                (move p (ground (arith, red-set_black t e c.3.1)) c.3.3))
        | inr e ↦
            rw (e, insert_fixup)
              (zip-IsRedBlack (node black (node red l k v a) x w (node red b j u t)) p
                (ground arith) (λ f. absurd (cc)) (move p (omega arith) c.3.3))
      ]
  insert_fixup-IsRedBlack a x w b (left_of red k v r (right_of black t j u p)) s c =
      elim (Bool-cases (is_red_color t)) [
        | inl e ↦
            rw (e, insert_fixup)
              (insert_fixup-IsRedBlack (set_black_color t) j u (node black (node red a x w b) k v r)
                p (ground (arith, red-set_black t e c.3.1))
                (move p (ground (arith, red-set_black t e c.3.1)) c.3.3))
        | inr e ↦
            rw (e, insert_fixup)
              (zip-IsRedBlack (node black (node red t j u a) x w (node red b k v r)) p
                (ground arith) (λ f. absurd (cc)) (move p (omega arith) c.3.3))
      ]
  insert_fixup-IsRedBlack a x w b (right_of red l k v (right_of black t j u p)) s c =
      elim (Bool-cases (is_red_color t)) [
        | inl e ↦
            rw (e, insert_fixup)
              (insert_fixup-IsRedBlack (set_black_color t) j u (node black l k v (node red a x w b))
                p (ground (arith, red-set_black t e c.3.1))
                (move p (ground (arith, red-set_black t e c.3.1)) c.3.3))
        | inr e ↦
            rw (e, insert_fixup)
              (zip-IsRedBlack (node black (node red t j u l) k v (node red a x w b)) p
                (ground arith) (λ f. absurd (cc)) (move p (omega arith) c.3.3))
      ]

  -- The null link that `insert` finds has a path of the right black height.
  descend-IsContext :
      (q : ℕ) (t : Tree V) (p : Parents V)
      → IsRedBlack t
      → (is_red_color t ≡ true → TakesRed p)
      → IsContext (black_height t) p
      → IsContext 0 (descend q t p)
  unfolding descend
  descend-IsContext q leaf p s h c = c
  descend-IsContext q (node red l k v r) p s h c = elim (Bool-cases (ltb q k)) [
    | inl e ↦
        rw (e, descend)
          (descend-IsContext q l (left_of red k v r p) s.2 (λ f. absurd (ground arith))
            (sym s.0, s.3, (s.1.1, h refl), c))
    | inr e ↦
        rw (e, descend)
          (descend-IsContext q r (right_of red l k v p) s.3 (λ f. absurd (ground arith))
            (s.0, s.2, (s.1.0, h refl), move p (ground arith) c))
  ]
  descend-IsContext q (node black l k v r) p s h c = elim (Bool-cases (ltb q k)) [
    | inl e ↦
        rw (e, descend)
          (descend-IsContext q l (left_of black k v r p) s.2 (λ _. tt) (sym s.0, s.3, tt, c))
    | inr e ↦
        rw (e, descend)
          (descend-IsContext q r (right_of black l k v p) s.3 (λ _. tt)
            (s.0, s.2, tt, move p (ground arith) c))
  ]

  set_black-not_red : (t : Tree V) → is_red_color (set_black_color t) ≡ false
  set_black-not_red leaf = refl
  set_black-not_red (node c l k v r) = refl

  -- `insert` keeps the tree a red-black tree with a black root.
  pub insert-IsRedBlack :
      (q : ℕ) (w : V) (m : RbTree V)
      → IsRedBlack m.root
      → is_red_color m.root ≡ false
      → IsRedBlack (insert q w m).root × (is_red_color (insert q w m).root ≡ false)
  unfolding insert
  insert-IsRedBlack q w m s e =
      let path = descend q m.root top in
      let c = descend-IsContext q m.root top s (λ f. tt) tt in
      (
        insert_fixup-IsRedBlack leaf q w leaf path (refl, (refl, refl), tt, tt) c,
        set_black-not_red (insert_fixup (node red leaf q w leaf) path),
      )
