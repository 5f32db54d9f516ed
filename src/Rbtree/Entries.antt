-- ===== src/Rbtree/Entries.antt =====
-- What a tree holds, in key order, and that `insert` adds its entry in the right place.
use mathlib.Core.List.{append_assoc, append-nil}
use native.Mathlib.Nat.{le_trans}
use score.Base.{
  ℕ, ◌+◌, ◌≤◌, ◌<◌, ◌≡◌, refl, ◌∙◌, inl, inr, true, List, [], ◌∷◌, ◌++◌, arith, ltb, if◌then◌else◌,
  ltb→lt, ltb→le, Bool-cases, All, All-front, All-at, All-imp,
}
use score.Rbtree.{
  Color, red, black, Tree, leaf, node, Parents, top, left_of, right_of, zip, is_red_color,
  set_black_color, left_rotate, right_rotate, insert_fixup, descend, RbTree, insert,
}

ltb→below : (q k : ℕ) → ltb q k ≡ true → q ≤ k
ltb→below q k e = omega (arith, ltb→lt q k e)

module _ {ℓ} {V : Type ℓ} where
  unfoldable pub to_list : Tree V → List (ℕ × V)
  to_list leaf = []
  to_list (node c l k v r) = to_list l ++ ((k, v) ∷ to_list r)

  -- The entries in front of a place, and behind it.
  unfoldable pub before : Parents V → List (ℕ × V)
  before top = []
  before (left_of c k v r p) = before p
  before (right_of c l k v p) = before p ++ (to_list l ++ ((k, v) ∷ []))

  unfoldable pub after : Parents V → List (ℕ × V)
  after top = []
  after (left_of c k v r p) = (k, v) ∷ (to_list r ++ after p)
  after (right_of c l k v p) = after p

  to_list-zip :
      (t : Tree V) (p : Parents V) → to_list (zip t p) ≡ before p ++ (to_list t ++ after p)
  unfolding zip to_list before after
  to_list-zip t top = simp append-nil
  to_list-zip t (left_of c k v r p) = simp (to_list-zip (node c t k v r) p, append_assoc)
  to_list-zip t (right_of c l k v p) = simp (to_list-zip (node c l k v t) p, append_assoc)

  to_list-set_black : (t : Tree V) → to_list (set_black_color t) ≡ to_list t
  unfolding to_list
  to_list-set_black leaf = refl
  to_list-set_black (node c l k v r) = refl

  -- `insert_fixup` moves no entry, from the place of any node.
  insert_fixup-to_list :
      (d : Color) (a : Tree V) (x : ℕ) (w : V) (b : Tree V) (p : Parents V)
      → to_list (insert_fixup (node d a x w b) p)
        ≡ before p ++ (to_list (node d a x w b) ++ after p)
  unfolding insert_fixup zip to_list before after left_rotate right_rotate
  insert_fixup-to_list d a x w b top = simp append-nil
  insert_fixup-to_list d a x w b (left_of black k v r p) =
      simp (to_list-zip (node black (node d a x w b) k v r) p, append_assoc)
  insert_fixup-to_list d a x w b (right_of black l k v p) =
      simp (to_list-zip (node black l k v (node d a x w b)) p, append_assoc)
  insert_fixup-to_list d a x w b (left_of red k v r top) = simp (append-nil, append_assoc)
  insert_fixup-to_list d a x w b (right_of red l k v top) = simp (append-nil, append_assoc)
  insert_fixup-to_list d a x w b (left_of red k v r (left_of c j u t p)) =
      elim (Bool-cases (is_red_color t)) [
        | inl e ↦
            rw (e, insert_fixup)
              (simp (
                insert_fixup-to_list red (node black (node d a x w b) k v r) j u (set_black_color t)
                    p,
                to_list-set_black t,
                append_assoc,
              ))
        | inr e ↦
            rw (e, insert_fixup)
              (simp
                (to_list-zip (node black (node d a x w b) k v (node red r j u t)) p, append_assoc))
      ]
  insert_fixup-to_list d a x w b (right_of red l k v (left_of c j u t p)) =
      elim (Bool-cases (is_red_color t)) [
        | inl e ↦
            rw (e, insert_fixup)
              (simp (
                insert_fixup-to_list red (node black l k v (node d a x w b)) j u (set_black_color t)
                    p,
                to_list-set_black t,
                append_assoc,
              ))
        | inr e ↦
            rw (e, insert_fixup)
              (simp (
                to_list-zip (node black (node red l k v a) x w (node red b j u t)) p,
                append_assoc,
              ))
      ]
  insert_fixup-to_list d a x w b (left_of red k v r (right_of c t j u p)) =
      elim (Bool-cases (is_red_color t)) [
        | inl e ↦
            rw (e, insert_fixup)
              (simp (
                insert_fixup-to_list red (set_black_color t) j u (node black (node d a x w b) k v r)
                    p,
                to_list-set_black t,
                append_assoc,
              ))
        | inr e ↦
            rw (e, insert_fixup)
              (simp (
                to_list-zip (node black (node red t j u a) x w (node red b k v r)) p,
                append_assoc,
              ))
      ]
  insert_fixup-to_list d a x w b (right_of red l k v (right_of c t j u p)) =
      elim (Bool-cases (is_red_color t)) [
        | inl e ↦
            rw (e, insert_fixup)
              (simp (
                insert_fixup-to_list red (set_black_color t) j u (node black l k v (node d a x w b))
                    p,
                to_list-set_black t,
                append_assoc,
              ))
        | inr e ↦
            rw (e, insert_fixup)
              (simp
                (to_list-zip (node black (node red t j u l) k v (node d a x w b)) p, append_assoc))
      ]

  -- The entries in front of the first greater key, and the rest.
  unfoldable pub upto : ℕ → List (ℕ × V) → List (ℕ × V)
  upto q [] = []
  upto q ((k, v) ∷ xs) = if ltb q k then [] else (k, v) ∷ upto q xs

  unfoldable pub beyond : ℕ → List (ℕ × V) → List (ℕ × V)
  beyond q [] = []
  beyond q ((k, v) ∷ xs) = if ltb q k then (k, v) ∷ xs else beyond q xs

  -- Keys do not fall along the list.
  abbrev pub Sorted : List (ℕ × V) → Type 0
  Sorted [] = Unit
  Sorted ((k, v) ∷ xs) = All (λ e. k ≤ e.0) xs × Sorted xs

  -- What a sorted list knows of an entry in its middle.
  pub Sorted-middle :
      (xs : List (ℕ × V)) (k : ℕ) (v : V) (ys : List (ℕ × V))
      → Sorted (xs ++ ((k, v) ∷ ys))
      → Sorted xs × All (λ e. e.0 ≤ k) xs × All (λ e. k ≤ e.0) ys × Sorted ys
  Sorted-middle [] k v ys s = (tt, tt, s.0, s.1)
  Sorted-middle ((j, w) ∷ xs) k v ys s =
      let (a, b, c, d) = Sorted-middle xs k v ys s.1 in
      ((All-front (λ e. j ≤ e.0) xs _ s.0, a), (All-at (λ e. j ≤ e.0) xs (k, v) ys s.0, b), c, d)

  upto-less :
      (q : ℕ) (xs : List (ℕ × V)) (k : ℕ) (v : V) (ys : List (ℕ × V))
      → q < k
      → (upto q (xs ++ ((k, v) ∷ ys)) ≡ upto q xs)
        × (beyond q (xs ++ ((k, v) ∷ ys)) ≡ beyond q xs ++ ((k, v) ∷ ys))
  unfolding upto beyond
  upto-less q [] k v ys h = (ground arith, ground arith)
  upto-less q ((j, w) ∷ xs) k v ys h =
      let ih = upto-less q xs k v ys h in (ground (arith, ih.0), ground (arith, ih.1))

  upto-not_less :
      (q : ℕ) (xs : List (ℕ × V)) (k : ℕ) (v : V) (ys : List (ℕ × V))
      → All (λ e. e.0 ≤ k) xs
      → k ≤ q
      → (upto q (xs ++ ((k, v) ∷ ys)) ≡ xs ++ ((k, v) ∷ upto q ys))
        × (beyond q (xs ++ ((k, v) ∷ ys)) ≡ beyond q ys)
  unfolding upto beyond
  upto-not_less q [] k v ys a h = (ground arith, ground arith)
  upto-not_less q ((j, w) ∷ xs) k v ys a h =
      let ih = upto-not_less q xs k v ys a.1 h in (ground (arith, ih.0), ground (arith, ih.1))

  -- The null link that `insert` finds stands behind the entries up to `q`, and before the others.
  descend-split :
      (q : ℕ) (t : Tree V) (p : Parents V)
      → Sorted (to_list t)
      → (before (descend q t p) ≡ before p ++ upto q (to_list t))
        × (after (descend q t p) ≡ beyond q (to_list t) ++ after p)
  unfolding descend to_list before after upto beyond
  descend-split q leaf p s = (simp append-nil, refl)
  descend-split q (node c l k v r) p s =
      let (sl, al, ar, sr) = Sorted-middle (to_list l) k v (to_list r) s in
      elim (Bool-cases (ltb q k)) [
        | inl e ↦
            let ih = descend-split q l (left_of c k v r p) sl in
            let u = upto-less q (to_list l) k v (to_list r) (ltb→lt q k e) in
            (rw (e, descend) (rw u.0 ih.0), rw (e, descend) (simp (u.1, ih.1, append_assoc)))
        | inr e ↦
            let ih = descend-split q r (right_of c l k v p) sr in
            let u = upto-not_less q (to_list l) k v (to_list r) al (ltb→le q k e) in
            (rw (e, descend) (simp (u.0, ih.0, append_assoc)), rw (e, descend) (rw u.1 ih.1))
      ]

  -- The specification of `insert` on the entries in key order: behind the keys that are not greater.
  unfoldable pub insert_entry : ℕ → V → List (ℕ × V) → List (ℕ × V)
  unfolding upto beyond
  insert_entry q w xs = upto q xs ++ ((q, w) ∷ beyond q xs)

  -- On a tree in key order, `insert` adds its entry behind the entries with keys up to its own, keeps
  -- all others in their order, and counts it.
  pub to_list-insert :
      (q : ℕ) (w : V) (m : RbTree V)
      → Sorted (to_list m.root)
      → (to_list (insert q w m).root ≡ insert_entry q w (to_list m.root))
        × ((insert q w m).len ≡ m.len + 1)
  unfolding insert insert_entry
  to_list-insert q w m s =
      let d = descend-split q m.root top s in
      let f = insert_fixup-to_list red leaf q w leaf (descend q m.root top) in
      let g = to_list-set_black (insert_fixup (node red leaf q w leaf) (descend q m.root top)) in
      (unfold to_list before after in (g ∙ f ∙ simp (d.0, d.1, append-nil)), refl)

  All-insert_entry :
      (j q : ℕ) (w : V) (xs : List (ℕ × V))
      → j ≤ q
      → All (λ e. j ≤ e.0) xs
      → All (λ e. j ≤ e.0) (insert_entry q w xs)
  unfolding insert_entry
  All-insert_entry j q w [] h a = (h, tt)
  All-insert_entry j q w ((k, v) ∷ xs) h a = ground (arith, All-insert_entry j q w xs)

  insert_entry-Sorted :
      (q : ℕ) (w : V) (xs : List (ℕ × V)) → Sorted xs → Sorted (insert_entry q w xs)
  unfolding insert_entry
  insert_entry-Sorted q w [] s = (tt, tt)
  insert_entry-Sorted q w ((k, v) ∷ xs) s = elim (Bool-cases (ltb q k)) [
    | inl e ↦
        rw (e, insert_entry)
          (((ltb→below q k e, All-imp (λ y (h : k ≤ y.0). le_trans (ltb→below q k e) h) xs s.0), s))
    | inr e ↦
        rw (e, insert_entry)
          ((All-insert_entry k q w xs (ltb→le q k e) s.0, insert_entry-Sorted q w xs s.1))
  ]

  -- `insert` keeps the tree in key order.
  pub insert-Sorted :
      (q : ℕ) (w : V) (m : RbTree V)
      → Sorted (to_list m.root)
      → Sorted (to_list (insert q w m).root)
  insert-Sorted q w m s = rw (to_list-insert q w m s).0 (insert_entry-Sorted q w (to_list m.root) s)
