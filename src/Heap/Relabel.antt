-- ===== src/Heap/Relabel.antt =====
-- kernel/src/klib/cmpctmalloc.rs: writes to headers that are nothing to the free lists.
use score.Base.{
  ℕ, ◌-◌, ◌≡◌, ◌≢◌, refl, ◌∙◌, inl, inr, true, false, ◌==◌, arith, Bool-cases, List, All-imp,
}
use score.Heap.{Heap, Header, write, set_left, set_size}
use score.Heap.Lists.{IsFree, IsTagged}
use score.Heap.Removal.{IsTagged-write}

pub set_left-other : (e v : ℕ) (m : ℕ → Header) (x : ℕ) → x ≢ e → set_left e v m x ≡ m x
unfolding set_left
set_left-other e v m x ne = let f : (x == e) ≡ false = ground (arith, ne) in rw f refl

pub set_left-at : (e v : ℕ) (m : ℕ → Header) → set_left e v m e ≡ record (m e) { left = v }
unfolding set_left
set_left-at e v m = let f : (e == e) ≡ true = ground arith in rw f refl

pub set_left-size : (e v : ℕ) (m : ℕ → Header) (x : ℕ) → (set_left e v m x).size ≡ (m x).size
unfolding set_left
set_left-size e v m x = elim (Bool-cases (x == e)) [
  | inl f ↦ let is : x ≡ e = ground arith in rw (f, is) refl
  | inr f ↦ rw f refl
]

set_left-flag : (e v : ℕ) (m : ℕ → Header) (x : ℕ) → (set_left e v m x).flag ≡ (m x).flag
unfolding set_left
set_left-flag e v m x = elim (Bool-cases (x == e)) [
  | inl f ↦ let is : x ≡ e = ground arith in rw (f, is) refl
  | inr f ↦ rw f refl
]

-- A new `left` in a header is nothing to the free lists.
pub set_left-IsFree :
    {S : Type 0} (h : Heap S) (qs : ℕ → List ℕ) (e v : ℕ)
    → IsFree h qs
    → IsFree (record h { header = set_left e v h.header }) qs
set_left-IsFree h qs e v free = record {
  lists = free.lists;
  words = free.words;
  marks = free.marks;
  tagged = λ i u.
      All-imp {Q = IsTagged (set_left e v h.header)}
        (λ x t. (t.0, set_left-flag e v h.header (x - 16) ∙ t.1)) (qs i) (free.tagged i u);
}

pub set_size-other : (a v : ℕ) (m : ℕ → Header) (x : ℕ) → x ≢ a → set_size a v m x ≡ m x
unfolding set_size
set_size-other a v m x ne = let f : (x == a) ≡ false = ground (arith, ne) in rw f refl

pub set_size-at : (a v : ℕ) (m : ℕ → Header) → set_size a v m a ≡ record (m a) { size = v }
unfolding set_size
set_size-at a v m = let f : (a == a) ≡ true = ground arith in rw f refl

-- A header that is not tagged changes nothing for the free lists.
pub untagged-IsFree :
    {S : Type 0} (h : Heap S) (qs : ℕ → List ℕ) (a : ℕ) (v : Header)
    → (h.header a).flag ≡ 0
    → IsFree h qs
    → IsFree (record h { header = write a v h.header }) qs
untagged-IsFree h qs a v z free = record {
  lists = free.lists;
  words = free.words;
  marks = free.marks;
  tagged = λ i u.
      All-imp {Q = IsTagged (write a v h.header)} (λ x t. IsTagged-write h.header a v x z t) (qs i)
        (free.tagged i u);
}
