-- ===== src/LinkedList/Chain.antt =====
-- Chains of nodes, linked both ways, and how they survive writes.
use score.Base.{
  ℕ, ◌≡◌, ◌≢◌, sym, ◌∙◌, List, [], ◌∷◌, ◌++◌, All, All-append, All-front, All-back, All-at,
}
use score.LinkedList.{Memory}

-- `next` leads from `a` through `xs` to `b`, and `prev` leads back.
abbrev pub Links : Memory → ℕ → List ℕ → ℕ → Type 0
Links m a [] b = ((m a).next ≡ b) × ((m b).prev ≡ a)
Links m a (x ∷ xs) b = ((m a).next ≡ x) × ((m x).prev ≡ a) × Links m x xs b

abbrev pub NotIn : ℕ → List ℕ → Type 0
NotIn a xs = All (λ x. x ≢ a) xs

abbrev pub Distinct : List ℕ → Type 0
Distinct [] = Unit
Distinct (x ∷ xs) = NotIn x xs × Distinct xs

-- The list whose own node is at `r` holds the elements `xs`, in order.
pub record IsList (m : Memory) (r : ℕ) (xs : List ℕ) : Type 0 where
  pub links : Links m r xs r
  pub distinct : Distinct (r ∷ xs)
  pub valid : All (λ x. x ≢ 0) (r ∷ xs)

abbrev pub last : ℕ → List ℕ → ℕ
last a [] = a
last a (x ∷ xs) = last x xs

pub All-last {κ} : (P : ℕ → Type κ) (a : ℕ) (xs : List ℕ) → All P (a ∷ xs) → P (last a xs)
All-last P a [] h = h.0
All-last P a (x ∷ xs) h = All-last P x xs h.1

pub Links-last :
    (m : Memory) (a : ℕ) (xs : List ℕ) (b : ℕ)
    → Links m a xs b
    → ((m b).prev ≡ last a xs) × ((m (last a xs)).next ≡ b)
Links-last m a [] b h = (h.1, h.0)
Links-last m a (x ∷ xs) b h = Links-last m x xs b h.2

pub Links-append :
    (m : Memory) (a : ℕ) (xs : List ℕ) (x : ℕ) (ys : List ℕ) (b : ℕ)
    → Links m a xs x
    → Links m x ys b
    → Links m a (xs ++ (x ∷ ys)) b
Links-append m a [] x ys b h k = (h.0, h.1, k)
Links-append m a (y ∷ xs) x ys b h k = (h.0, h.1, Links-append m y xs x ys b h.2 k)

pub Links-split :
    (m : Memory) (a : ℕ) (xs : List ℕ) (x : ℕ) (ys : List ℕ) (b : ℕ)
    → Links m a (xs ++ (x ∷ ys)) b
    → Links m a xs x × Links m x ys b
Links-split m a [] x ys b h = ((h.0, h.1), h.2)
Links-split m a (y ∷ xs) x ys b h = let (k, l) = Links-split m y xs x ys b h.2 in ((h.0, h.1, k), l)

-- A chain whose nodes keep their links, but for the last `next`, leads to where that leads now.
pub relink :
    (m : Memory) (g : Memory) (a : ℕ) (xs : List ℕ) (b c : ℕ)
    → Links m a xs b
    → Distinct (a ∷ xs)
    → All (λ x. x ≢ last a xs → (g x).next ≡ (m x).next) (a ∷ xs)
    → All (λ x. (g x).prev ≡ (m x).prev) xs
    → (g (last a xs)).next ≡ c
    → (g c).prev ≡ last a xs
    → Links g a xs c
relink m g a [] b c h d n p e f = (e, f)
relink m g a (x ∷ xs) b c h d n p e f = (
  n.0 (λ q. All-last (λ y. y ≢ a) x xs d.0 (sym q)) ∙ h.0,
  p.0 ∙ h.1,
  relink m g x xs b c h.2 d.1 n.1 p.1 e f,
)

-- A chain whose nodes keep their links is a chain still.
pub keep :
    (m : Memory) (g : Memory) (a : ℕ) (xs : List ℕ) (b : ℕ)
    → Links m a xs b
    → All (λ x. (g x).next ≡ (m x).next) (a ∷ xs)
    → All (λ x. (g x).prev ≡ (m x).prev) xs
    → (g b).prev ≡ (m b).prev
    → Links g a xs b
keep m g a [] b h n p f = (n.0 ∙ h.0, f ∙ h.1)
keep m g a (x ∷ xs) b h n p f = (n.0 ∙ h.0, p.0 ∙ h.1, keep m g x xs b h.2 n.1 p.1 f)

-- What holds of every address but three holds of the elements that are none of them.
pub All-others {κ} :
    (P : ℕ → Type κ) (a b c : ℕ) (xs : List ℕ)
    → ((x : ℕ) → x ≢ a → x ≢ b → x ≢ c → P x)
    → NotIn a xs
    → NotIn b xs
    → NotIn c xs
    → All P xs
All-others P a b c [] f h k l = tt
All-others P a b c (x ∷ xs) f h k l = (f x h.0 k.0 l.0, All-others P a b c xs f h.1 k.1 l.1)

-- Two lists with no common element and none twice.
pub Distinct-append :
    (xs ys : List ℕ) → Distinct (xs ++ ys) → Distinct xs × Distinct ys × All (λ x. NotIn x ys) xs
Distinct-append [] ys d = (tt, d, tt)
Distinct-append (x ∷ xs) ys d =
    let (a, b, c) = Distinct-append xs ys d.1 in
    ((All-front (λ y. y ≢ x) xs ys d.0, a), b, (All-back (λ y. y ≢ x) xs ys d.0, c))

pub Distinct-remove :
    (xs : List ℕ) (n : ℕ) (ys : List ℕ)
    → Distinct (xs ++ (n ∷ ys))
    → Distinct (xs ++ ys) × NotIn n xs × NotIn n ys
Distinct-remove [] n ys d = (d.1, tt, d.0)
Distinct-remove (x ∷ xs) n ys d =
    let (a, b, c) = Distinct-remove xs n ys d.1 in
    (
      (
        All-append (λ y. y ≢ x) xs ys (All-front (λ y. y ≢ x) xs (n ∷ ys) d.0)
            (All-back (λ y. y ≢ x) xs (n ∷ ys) d.0).1,
        a,
      ),
      ((λ e. All-at (λ y. y ≢ x) xs n ys d.0 (sym e)), b),
      c,
    )

pub NotIn-head : (xs : List ℕ) (y : ℕ) (ys : List ℕ) → All (λ x. NotIn x (y ∷ ys)) xs → NotIn y xs
NotIn-head [] y ys h = tt
NotIn-head (x ∷ xs) y ys h = ((λ e. h.0.0 (sym e)), NotIn-head xs y ys h.1)
