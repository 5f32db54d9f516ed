-- ===== src/Mutex/Exclusion.antt =====
-- At most one thread holds a guard.
use score.Base.{
  ℕ, ◌≡◌, ◌≢◌, refl, sym, ◌∙◌, ap, ◌⊎◌, inl, inr, ok, panic, List, [], ◌∷◌, ◌++◌, arith,
}
use score.Mutex.{
  compare_exchange, try_lock_fast, lock, unlock_fast, unlock, State, Step, locks, drops, Reachable,
  start, step,
}

-- The owner is the one thread with a guard, or there is neither.
abbrev pub Exclusive : ℕ → List ℕ → Type 0
Exclusive o gs = ((o ≡ 0) × (gs ≡ [])) ⊎ ((o ≢ 0) × (gs ≡ o ∷ []))

lock-ok : (t o o' : ℕ) → lock t o ≡ ok o' → (o ≡ 0) × (o' ≡ t)
unfolding lock try_lock_fast compare_exchange
lock-ok t o o' h = ground arith

unlock-ok : (t o o' : ℕ) → unlock t o ≡ ok o' → (o ≡ t) × (o' ≡ 0)
unfolding unlock unlock_fast compare_exchange
unlock-ok t o o' h = ground arith

no_middle : (gs : List ℕ) (t : ℕ) (hs : List ℕ) → gs ++ (t ∷ hs) ≢ []
no_middle [] t hs e = absurd (cc)
no_middle (g ∷ gs) t hs e = absurd (cc)

only : (gs : List ℕ) (t : ℕ) (hs : List ℕ) (o : ℕ) → gs ++ (t ∷ hs) ≡ o ∷ [] → gs ++ hs ≡ []
only [] t hs o e = cc
only (g ∷ gs) t hs o e = absurd (no_middle gs t hs (cc))

Step-Exclusive : (s u : State) → Step s u → Exclusive s.owner s.guards → Exclusive u.owner u.guards
Step-Exclusive _ _ (locks {o} {o'} {gs} t z h) (inl (a, b)) =
    let (e, f) = lock-ok t o o' h in
    inr ((λ q. z (sym f ∙ q)), ap (λ xs. t ∷ xs) b ∙ ap (λ (x : ℕ). x ∷ []) (sym f))
Step-Exclusive _ _ (locks {o} {o'} {gs} t z h) (inr (a, b)) = absurd (a (lock-ok t o o' h).0)
Step-Exclusive _ _ (drops {o} {o'} gs t hs h) (inl (a, b)) = absurd (no_middle gs t hs b)
Step-Exclusive _ _ (drops {o} {o'} gs t hs h) (inr (a, b)) =
    inl ((unlock-ok t o o' h).1, only gs t hs o b)

-- Whatever threads lock and drop, in any order, at most one thread holds a guard at a time, and it is
-- the owner; with no guard there is no owner.
pub Reachable-Exclusive : (s : State) → Reachable s → Exclusive s.owner s.guards
Reachable-Exclusive _ start = inl (refl, refl)
Reachable-Exclusive _ (step {s} {t} r d) = Step-Exclusive s t d (Reachable-Exclusive s r)

-- The thread that holds the guard unlocks without a panic, and then any thread can lock; while it holds
-- the guard, every `lock` panics, its own too.
pub lock-unlock :
    (holder thread : ℕ)
    → holder ≢ 0
    → (unlock holder holder ≡ ok 0) × (lock thread 0 ≡ ok thread) × (lock thread holder ≡ panic)
unfolding lock try_lock_fast unlock unlock_fast compare_exchange
lock-unlock holder thread h = (ground arith, ground arith, ground arith)
