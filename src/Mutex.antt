-- ===== src/Mutex.antt =====
-- kernel/src/locking/mutex.rs: the owner of a mutex, 0 for none, and the calls of a thread on it. A
-- thread is named by its pointer, which `thread_get_current` returns and which is not 0. The data that
-- the mutex guards is left out.
pub mod Exclusion
pub mod Tests
use score.Base.{
  ℕ, Bool, true, false, not, ◌==◌, if◌then◌else◌, Outcome, ok, panic, ◌>>=◌, List, [], ◌∷◌, ◌++◌,
  ◌≡◌, ◌≢◌,
}

-- `compare_exchange`: what was read, and the owner after it.
unfoldable pub compare_exchange : ℕ → ℕ → ℕ → ℕ × ℕ
compare_exchange current new owner = if owner == current then (owner, new) else (owner, owner)

unfoldable pub try_lock_fast : ℕ → ℕ → Outcome (Bool × ℕ)
unfolding compare_exchange
try_lock_fast thread owner =
    let (val, after) = compare_exchange 0 thread owner in
    if val == 0 then ok (true, after) else if val == thread then panic else ok (false, after)

-- The slow path is left to be written, and panics.
unfoldable pub lock : ℕ → ℕ → Outcome ℕ
unfolding try_lock_fast
lock thread owner = do
  (locked, after) ← try_lock_fast thread owner
  if locked then ok after else panic

unfoldable pub unlock_fast : ℕ → ℕ → Outcome (Bool × ℕ)
unfolding compare_exchange
unlock_fast thread owner =
    let (val, after) = compare_exchange thread 0 owner in
    if val == thread then ok (true, after) else if val == 0 then panic else ok (false, after)

-- `MutexGuard::drop`, which calls `unlock`.
unfoldable pub unlock : ℕ → ℕ → Outcome ℕ
unfolding unlock_fast
unlock thread owner = do
  (unlocked, after) ← unlock_fast thread owner
  if unlocked then ok after else panic

-- The mutex with the threads that hold a guard of it.
pub record State : Type 0 where
  pub owner : ℕ
  pub guards : List ℕ

abbrev pub state : ℕ → List ℕ → State
state o gs = record { owner = o; guards = gs }

-- One call of one thread that returns: `lock` makes a guard, and the drop of a guard unlocks.
pub data Step : State → State → Type 0 where
  locks :
      {o o' : ℕ} {gs : List ℕ} (thread : ℕ)
      → thread ≢ 0
      → lock thread o ≡ ok o'
      → Step (state o gs) (state o' (thread ∷ gs))
  drops :
      {o o' : ℕ} (gs : List ℕ) (thread : ℕ) (hs : List ℕ)
      → unlock thread o ≡ ok o'
      → Step (state o (gs ++ (thread ∷ hs))) (state o' (gs ++ hs))

-- What a mutex that starts unlocked comes to by any calls of any threads.
pub data Reachable : State → Type 0 where
  start : Reachable (state 0 [])
  step : {s t : State} → Reachable s → Step s t → Reachable t
