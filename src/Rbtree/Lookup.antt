-- ===== src/Rbtree/Lookup.antt =====
-- Searching: `get`, `contains_key` and a write through `get_mut` against the entries in key order.
use native.Mathlib.Nat.{lt_trans}
use score.Base.{
  ℕ, ◌<◌, ◌≡◌, refl, sym, ap, ◌∙◌, inl, inr, false, Option, none, some, List, [], ◌∷◌, ◌++◌, arith,
  ltb, ◌==◌, if◌then◌else◌, ltb→lt, Bool-cases, Option-cases, All, All-imp, All-front, All-at,
}
use score.Rbtree.{
  Tree, leaf, node, find_node, set_node, RbTree, insert, get, get_mut_set, contains_key, is_some,
}
use score.Rbtree.Entries.{to_list, Sorted, insert_entry, to_list-insert}

module _ {ℓ} {V : Type ℓ} where
  -- Keys rise along the list, so that no key stands twice.
  abbrev pub IsRising : List (ℕ × V) → Type 0
  IsRising [] = Unit
  IsRising ((k, v) ∷ xs) = All (λ e. k < e.0) xs × IsRising xs

  -- The value of a key, in a list of entries.
  unfoldable pub lookup : ℕ → List (ℕ × V) → Option V
  lookup q [] = none
  lookup q ((k, v) ∷ xs) = if q == k then some v else lookup q xs

  IsRising-middle :
      (xs : List (ℕ × V)) (k : ℕ) (v : V) (ys : List (ℕ × V))
      → IsRising (xs ++ ((k, v) ∷ ys))
      → IsRising xs × All (λ e. e.0 < k) xs × All (λ e. k < e.0) ys × IsRising ys
  IsRising-middle [] k v ys s = (tt, tt, s.0, s.1)
  IsRising-middle ((j, w) ∷ xs) k v ys s =
      let (a, b, c, d) = IsRising-middle xs k v ys s.1 in
      ((All-front (λ e. j < e.0) xs _ s.0, a), (All-at (λ e. j < e.0) xs (k, v) ys s.0, b), c, d)

  pub IsRising-Sorted : (xs : List (ℕ × V)) → IsRising xs → Sorted xs
  IsRising-Sorted [] s = tt
  IsRising-Sorted ((k, v) ∷ xs) s =
      (All-imp (λ e (h : k < e.0). omega arith) xs s.0, IsRising-Sorted xs s.1)

  lookup_below : (q : ℕ) (xs : List (ℕ × V)) → All (λ e. q < e.0) xs → lookup q xs ≡ none
  unfolding lookup
  lookup_below q [] a = refl
  lookup_below q ((k, v) ∷ xs) a = ground (arith, lookup_below q xs)

  lookup_left :
      (q : ℕ) (xs ys : List (ℕ × V)) → All (λ e. q < e.0) ys → lookup q (xs ++ ys) ≡ lookup q xs
  unfolding lookup
  lookup_left q [] ys a = lookup_below q ys a
  lookup_left q ((k, v) ∷ xs) ys a = ground (arith, lookup_left q xs ys)

  lookup_right :
      (q : ℕ) (xs ys : List (ℕ × V)) → All (λ e. e.0 < q) xs → lookup q (xs ++ ys) ≡ lookup q ys
  unfolding lookup
  lookup_right q [] ys a = refl
  lookup_right q ((k, v) ∷ xs) ys a = ground (arith, lookup_right q xs ys)

  lookup-skip : (q k : ℕ) (v : V) (xs : List (ℕ × V)) → k < q → lookup q ((k, v) ∷ xs) ≡ lookup q xs
  unfolding lookup
  lookup-skip q k v xs h = ground arith

  lookup-here : (q k : ℕ) (v : V) (xs : List (ℕ × V)) → k ≡ q → lookup q ((k, v) ∷ xs) ≡ some v
  unfolding lookup
  lookup-here q k v xs h = ground arith

  -- `find_node` finds the value of the key among the entries, or finds none where there is none.
  pub find_node-lookup :
      (q : ℕ) (t : Tree V) → IsRising (to_list t) → find_node q t ≡ lookup q (to_list t)
  unfolding find_node to_list
  find_node-lookup q leaf s = unfold lookup in refl
  find_node-lookup q (node c l k v r) s =
      let (sl, al, ar, sr) = IsRising-middle (to_list l) k v (to_list r) s in
      elim (Bool-cases (ltb q k)) [
        | inl e ↦
            let h : q < k = ltb→lt q k e in
            rw
              (
                e,
                find_node,
                lookup_left q (to_list l) ((k, v) ∷ to_list r)
                    (h, All-imp (λ x (g : k < x.0). lt_trans h g) (to_list r) ar),
              )
              (find_node-lookup q l sl)
        | inr e ↦ elim (Bool-cases (ltb k q)) [
          | inl f ↦
              let h : k < q = ltb→lt k q f in
              rw
                (
                  e,
                  f,
                  find_node,
                  lookup_right q (to_list l) ((k, v) ∷ to_list r)
                      (All-imp (λ x (g : x.0 < k). lt_trans g h) (to_list l) al),
                )
                (rw (lookup-skip q k v (to_list r) h) (find_node-lookup q r sr))
          | inr f ↦
              let h : k ≡ q = ground arith in
              rw (e, f, find_node, lookup_right q (to_list l) ((k, v) ∷ to_list r) (rw h at al))
                (rw (lookup-here q k v (to_list r) h))
        ]
      ]

  is_none : {o u : Option V} → o ≡ u → is_some o ≡ false → u ≡ none
  is_none {o} {u} e h = elim (Option-cases o) [
    | inl f ↦ rw (← e, f)
    | inr (a, f) ↦ absurd (ground arith)
  ]

  -- Adding a key that is not there keeps the keys distinct, and changes its own value only.
  lookup-insert_entry :
      (q j : ℕ) (w : V) (xs : List (ℕ × V))
      → lookup q xs ≡ none
      → lookup j (insert_entry q w xs) ≡ (if j == q then some w else lookup j xs)
  unfolding lookup insert_entry
  lookup-insert_entry q j w [] h = ground arith
  lookup-insert_entry q j w ((k, v) ∷ xs) h = ground (arith, lookup-insert_entry q j w xs)

  All-rising :
      (j q : ℕ) (w : V) (xs : List (ℕ × V))
      → j < q
      → All (λ e. j < e.0) xs
      → All (λ e. j < e.0) (insert_entry q w xs)
  unfolding insert_entry
  All-rising j q w [] h a = (h, tt)
  All-rising j q w ((k, v) ∷ xs) h a = ground (arith, All-rising j q w xs)

  insert_entry-IsRising :
      (q : ℕ) (w : V) (xs : List (ℕ × V))
      → IsRising xs
      → lookup q xs ≡ none
      → IsRising (insert_entry q w xs)
  unfolding insert_entry lookup
  insert_entry-IsRising q w [] s h = (tt, tt)
  insert_entry-IsRising q w ((k, v) ∷ xs) s h = elim (Bool-cases (ltb q k)) [
    | inl e ↦
        let f : q < k = ltb→lt q k e in
        rw (e, insert_entry) ((f, All-imp (λ y (g : k < y.0). lt_trans f g) xs s.0), s)
    | inr e ↦
        let f : k < q = ground arith in
        let n : lookup q xs ≡ none = ground arith in
        rw (e, insert_entry) (All-rising k q w xs f s.0, insert_entry-IsRising q w xs s.1 n)
  ]

  -- After `insert` of a key that the tree does not contain, `get` reads the new value at that key and
  -- what it read before at every other, and the keys still rise.
  pub get-insert :
      (q j : ℕ) (w : V) (m : RbTree V)
      → IsRising (to_list m.root)
      → contains_key q m ≡ false
      → (get j (insert q w m) ≡ (if j == q then some w else get j m))
        × IsRising (to_list (insert q w m).root)
  unfolding get contains_key
  get-insert q j w m s h =
      let absent : lookup q (to_list m.root) ≡ none = is_none (find_node-lookup q m.root s) h in
      let e = (to_list-insert q w m (IsRising-Sorted (to_list m.root) s)).0 in
      let rising : IsRising (to_list (insert q w m).root) =
        rw e (insert_entry-IsRising q w (to_list m.root) s absent) in
      (
        find_node-lookup j (insert q w m).root rising
            ∙ ap (lookup j) e
            ∙ lookup-insert_entry q j w (to_list m.root) absent
            ∙ ap (λ o. if j == q then some w else o) (sym (find_node-lookup j m.root s)),
        rising,
      )

module _ {V : Type 0} where
  find_node-set_node :
      (q j : ℕ) (w : V) (t : Tree V)
      → find_node j (set_node q w t)
        ≡ (if j == q then (if is_some (find_node q t) then some w else none) else find_node j t)
  unfolding find_node set_node
  find_node-set_node q j w leaf = ground arith
  find_node-set_node q j w (node c l k v r) =
      ground (arith, find_node-set_node q j w l, find_node-set_node q j w r)

  -- A write through the reference of `get_mut` changes the value of its key, if the tree has it, and
  -- no other; it needs no order of the keys.
  pub get-get_mut_set :
      (q j : ℕ) (w : V) (m : RbTree V)
      → get j (get_mut_set q w m)
        ≡ (if j == q then (if contains_key q m then some w else none) else get j m)
  unfolding get get_mut_set contains_key
  get-get_mut_set q j w m = find_node-set_node q j w m.root
