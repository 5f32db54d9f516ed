-- ===== src/Mutex/Tests.antt =====
-- Thread 7 locks a mutex.
use score.Base.{◌≡◌, refl, [], ◌∷◌, arith, ok}
use score.Mutex.{compare_exchange, try_lock_fast, lock, state, locks, Reachable, start, step}
use score.Mutex.Exclusion.{Exclusive, Reachable-Exclusive}

seven : lock 7 0 ≡ ok 7
unfolding lock try_lock_fast compare_exchange
seven = refl

seven-Reachable : Reachable (state 7 (7 ∷ []))
seven-Reachable = step start (locks 7 (omega arith) seven)

Reachable-Exclusive_example : Exclusive 7 (7 ∷ [])
Reachable-Exclusive_example = Reachable-Exclusive (state 7 (7 ∷ [])) seven-Reachable
