-- ===== src/LinkedList/Walk.antt =====
-- Walking a list: `empty`, `head`, `tail`, `_len`, and what the iterators visit.
use score.Base.{ℕ, zero, suc, ◌+◌, ◌<◌, ◌≡◌, List, [], ◌∷◌, ◌++◌, arith, ◌==◌, length, ok}
use score.LinkedList.{Memory, empty, tail, len_loop, len, iter_loop, iter}
use score.LinkedList.Chain.{Links, NotIn, IsList, last, Links-last}

len_loop-length :
    (fuel : ℕ) (m : Memory) (r a x : ℕ) (xs : List ℕ) (n : ℕ)
    → Links m a xs r
    → NotIn r xs
    → length xs < fuel
    → len_loop fuel r (m a).next n m ≡ ok (n + length xs)
unfolding len_loop
len_loop-length zero m r a x xs n h d f = absurd (omega arith)
len_loop-length (suc fuel) m r a x [] n h d f = ground arith
len_loop-length (suc fuel) m r a x (y ∷ ys) n h d f =
    ground (arith, len_loop-length fuel m r y x ys (n + 1) h.2 d.1, d.0)

-- `_len` returns the number of elements, and one round more than there are elements is enough; `empty`
-- tells whether there are none; `tail` is the last element.
pub len-length :
    (fuel : ℕ) (m : Memory) (r : ℕ) (xs : List ℕ)
    → IsList m r xs
    → length xs < fuel
    → (len fuel r m ≡ ok (length xs)) × (empty r m ≡ (length xs == 0)) × (tail r m ≡ last r xs)
unfolding len empty tail
len-length fuel m r [] h f = (
  ground (arith, len_loop-length fuel m r r r [] 0 h.links tt f, h.valid.0),
  ground arith,
  h.links.1,
)
len-length fuel m r (x ∷ xs) h f = (
  ground (arith, len_loop-length fuel m r r r (x ∷ xs) 0 h.links h.distinct.0 f, h.valid.1.0),
  ground (arith, h.distinct.0.0),
  (Links-last m r (x ∷ xs) r h.links).0,
)

iter_loop-shift :
    (fuel : ℕ) (m : Memory) (r x : ℕ) (xs : List ℕ)
    → Links m x xs r
    → NotIn r (x ∷ xs)
    → length xs < fuel
    → iter_loop (suc fuel) r x m ≡ xs ++ (r ∷ [])
unfolding iter_loop
iter_loop-shift zero m r x xs h d f = absurd (omega arith)
iter_loop-shift (suc fuel) m r x [] h d f = ground (arith, d.0)
iter_loop-shift (suc fuel) m r x (y ∷ ys) h d f =
    ground (arith, iter_loop-shift fuel m r y ys h.2 d.1, d.0)

-- The iterators do not visit the elements: on a list that is not empty they leave out the first one,
-- and at the end they visit the list's own node, which is no element.
pub iter_skips_first :
    (fuel : ℕ) (m : Memory) (r x : ℕ) (xs : List ℕ)
    → IsList m r (x ∷ xs)
    → length xs < fuel
    → iter (suc fuel) r m ≡ xs ++ (r ∷ [])
unfolding iter
iter_skips_first fuel m r x xs h f =
    rw h.links.0 (iter_loop-shift fuel m r x xs h.links.2 h.distinct.0 f)
