-- ===== src/Rbtree/Cursor.antt =====
-- Iteration: a cursor stands for the entries from its node on, `next` drops the first of them, and
-- the bounds stand at the first entry past the key.
use mathlib.Core.List.{append_assoc, append-nil}
use score.Base.{
  ℕ, zero, suc, ◌≡◌, refl, ap, ◌∙◌, inl, inr, Bool, true, false, Option, none, some, List, [], ◌∷◌,
  ◌++◌, arith, ltb, leb, if◌then◌else◌, Bool-cases, All, length, ◌≤◌,
}
use score.Rbtree.{
  Color, Tree, leaf, node, Parents, top, left_of, right_of, Place, place, min_node, first_child,
  climb, next_from, next, bound, RbTree, lower_bound, upper_bound,
}
use score.Rbtree.Entries.{to_list, after, beyond, Sorted, Sorted-middle}

module _ {ℓ} {V : Type ℓ} where
  -- The entries that an iteration from the cursor visits.
  abbrev pub entries_from : Option (Place V) → List (ℕ × V)
  entries_from none = []
  entries_from (some c) = (c.key, c.value) ∷ (to_list c.right ++ after c.path)

  min_node-entries :
      (c : Color) (l : Tree V) (k : ℕ) (v : V) (r : Tree V) (p : Parents V)
      → entries_from (some (min_node c l k v r p)) ≡ to_list (node c l k v r) ++ after p
  unfolding min_node to_list after
  min_node-entries c leaf k v r p = refl
  min_node-entries c (node d ll j w lr) k v r p =
      min_node-entries d ll j w lr (left_of c k v r p) ∙ simp append_assoc

  climb-entries : (t : Tree V) (p : Parents V) → entries_from (climb t p) ≡ after p
  unfolding climb after
  climb-entries t top = refl
  climb-entries t (left_of c k v r p) = refl
  climb-entries t (right_of c l k v p) = climb-entries (node c l k v t) p

  next_from-entries :
      (t : Tree V) (c : Place V) → entries_from (next_from t c) ≡ to_list t ++ after c.path
  unfolding next_from to_list
  next_from-entries leaf c = climb-entries (node c.color c.left c.key c.value leaf) c.path
  next_from-entries (node d l j w r) c =
      min_node-entries d l j w r (right_of c.color c.left c.key c.value c.path)
      ∙ unfold after in refl

  -- `next` drops the entry of the cursor and keeps the others.
  pub next-entries :
      (c : Place V) → entries_from (some c) ≡ (c.key, c.value) ∷ entries_from (next c)
  unfolding next
  next-entries c = rw (next_from-entries c.right c)

  -- The loop `while let Some((k, v)) = iter.next()`, for at most so many rounds.
  unfoldable pub collect : ℕ → Option (Place V) → List (ℕ × V)
  collect zero c = []
  collect (suc n) none = []
  collect (suc n) (some c) = (c.key, c.value) ∷ collect n (next c)

  collect-entries :
      (n : ℕ) (c : Option (Place V)) → length (entries_from c) ≤ n → collect n c ≡ entries_from c
  unfolding collect
  collect-entries zero none h = refl
  collect-entries zero (some c) h = absurd (omega arith)
  collect-entries (suc n) none h = refl
  collect-entries (suc n) (some c) h =
      let e = next-entries c in
      rw e
        (ap (λ xs. (c.key, c.value) ∷ xs) (collect-entries n (next c) (omega (arith, ap length e))))

  first_child-entries : (t : Tree V) → entries_from (first_child t) ≡ to_list t
  unfolding first_child
  first_child-entries leaf = unfold to_list in refl
  first_child-entries (node c l k v r) =
      min_node-entries c l k v r top ∙ unfold after in append-nil (to_list (node c l k v r))

  -- From `first_child`, calls of `next` visit every entry once, in key order, and then end; as many
  -- rounds as there are entries are enough.
  pub iter-visits_all :
      (n : ℕ) (t : Tree V) → length (to_list t) ≤ n → collect n (first_child t) ≡ to_list t
  iter-visits_all n t h =
      let e = first_child-entries t in
      collect-entries n (first_child t) (omega (arith, ap length e, h)) ∙ e

  -- The entries from the first key that is not below `q`.
  unfoldable pub at_least : ℕ → List (ℕ × V) → List (ℕ × V)
  at_least q [] = []
  at_least q ((k, v) ∷ xs) = if ltb k q then at_least q xs else (k, v) ∷ xs

  -- What the two bounds look for.
  abbrev pub past : Bool → ℕ → List (ℕ × V) → List (ℕ × V)
  past true q xs = beyond q xs
  past false q xs = at_least q xs

  past-skip :
      (strict : Bool) (q : ℕ) (xs : List (ℕ × V)) (k : ℕ) (v : V) (ys : List (ℕ × V))
      → All (λ e. e.0 ≤ k) xs
      → (if strict then leb k q else ltb k q) ≡ true
      → past strict q (xs ++ ((k, v) ∷ ys)) ≡ past strict q ys
  unfolding beyond at_least
  past-skip true q [] k v ys a h = ground arith
  past-skip false q [] k v ys a h = ground arith
  past-skip true q ((j, w) ∷ xs) k v ys a h = ground (arith, past-skip true q xs k v ys a.1 h)
  past-skip false q ((j, w) ∷ xs) k v ys a h = ground (arith, past-skip false q xs k v ys a.1 h)

  past-keep :
      (strict : Bool) (q : ℕ) (xs : List (ℕ × V)) (k : ℕ) (v : V) (ys : List (ℕ × V))
      → (if strict then leb k q else ltb k q) ≡ false
      → past strict q (xs ++ ((k, v) ∷ ys)) ≡ past strict q xs ++ ((k, v) ∷ ys)
  unfolding beyond at_least
  past-keep true q [] k v ys h = ground arith
  past-keep false q [] k v ys h = ground arith
  past-keep true q ((j, w) ∷ xs) k v ys h = ground (arith, past-keep true q xs k v ys h)
  past-keep false q ((j, w) ∷ xs) k v ys h = ground (arith, past-keep false q xs k v ys h)

  bound-entries :
      (strict : Bool) (q : ℕ) (t : Tree V) (p : Parents V) (found : Option (Place V))
      → Sorted (to_list t)
      → entries_from found ≡ after p
      → entries_from (bound strict q t p found) ≡ past strict q (to_list t) ++ after p
  unfolding bound to_list after
  bound-entries true q leaf p found s h = unfold beyond in h
  bound-entries false q leaf p found s h = unfold at_least in h
  bound-entries strict q (node c l k v r) p found s h =
      let (sl, al, ar, sr) = Sorted-middle (to_list l) k v (to_list r) s in
      elim (Bool-cases (if strict then leb k q else ltb k q)) [
        | inl e ↦
            rw (e, bound)
              (rw (past-skip strict q (to_list l) k v (to_list r) al e)
                (bound-entries strict q r (right_of c l k v p) found sr h))
        | inr e ↦
            rw (e, bound)
              (rw (past-keep strict q (to_list l) k v (to_list r) e) (
                bound-entries strict q l (left_of c k v r p) (some (place c l k v r p)) sl refl
                ∙ simp append_assoc))
      ]

  length-at_least : (q : ℕ) (xs : List (ℕ × V)) → length (at_least q xs) ≤ length xs
  unfolding at_least
  length-at_least q [] = omega arith
  length-at_least q ((k, v) ∷ xs) = ground (arith, length-at_least q xs)

  length-beyond : (q : ℕ) (xs : List (ℕ × V)) → length (beyond q xs) ≤ length xs
  unfolding beyond
  length-beyond q [] = omega arith
  length-beyond q ((k, v) ∷ xs) = ground (arith, length-beyond q xs)

  -- The cursors that the bounds give stand for the entries from `q` on, and for those above it.
  pub bound-entries_from :
      (q : ℕ) (m : RbTree V)
      → Sorted (to_list m.root)
      → (entries_from (lower_bound q m) ≡ at_least q (to_list m.root))
        × (entries_from (upper_bound q m) ≡ beyond q (to_list m.root))
  unfolding lower_bound upper_bound after
  bound-entries_from q m s = (
    bound-entries false q m.root top none s refl ∙ append-nil (at_least q (to_list m.root)),
    bound-entries true q m.root top none s refl ∙ append-nil (beyond q (to_list m.root)),
  )

  -- On a tree in key order, calls of `next` from what `lower_bound` gives visit the entries with keys
  -- from `q` on, each once and in key order, and then end; from what `upper_bound` gives, those with
  -- keys above `q`. As many rounds as there are entries are enough.
  pub bound-visits :
      (n q : ℕ) (m : RbTree V)
      → Sorted (to_list m.root)
      → length (to_list m.root) ≤ n
      → (collect n (lower_bound q m) ≡ at_least q (to_list m.root))
        × (collect n (upper_bound q m) ≡ beyond q (to_list m.root))
  bound-visits n q m s h =
      let (a, b) = bound-entries_from q m s in
      let l = length-at_least q (to_list m.root) in
      let u = length-beyond q (to_list m.root) in
      (
        collect-entries n (lower_bound q m) (omega (arith, ap length a, l, h)) ∙ a,
        collect-entries n (upper_bound q m) (omega (arith, ap length b, u, h)) ∙ b,
      )
