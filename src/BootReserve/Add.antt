-- ===== src/BootReserve/Add.antt =====
-- `boot_reserve_add_range` keeps the reserved ranges apart and in order.
use mathlib.Core.List.Perm
use mathlib.Core.List.{Perm}
use score.Base.{◌⊎◌, ℕ, ◌+◌, ◌≤◌, ◌<◌, ◌≡◌, false, List, [], ◌∷◌, All, Outcome, ok, panic}
use score.Base.Word.{usize_mod}
use score.Range.{intersects}
use score.BootReserve.{BootReserveRange, range, insert_at}

-- Each range is not empty and ends below the top of memory and in front of all that follow it.
abbrev pub IsReserved : List BootReserveRange → Type 0
IsReserved [] = Unit
IsReserved (r ∷ rs) =
    (0 < r.len)
    × (r.pa + r.len < usize_mod)
    × All (λ (s : BootReserveRange). r.pa + r.len ≤ s.pa) rs
    × IsReserved rs

-- The range meets none of the list.
abbrev pub Clear : ℕ → ℕ → List BootReserveRange → Type 0
Clear pa len rs = All (λ (r : BootReserveRange). intersects r.pa r.len pa len ≡ false) rs

-- A position found for the range, and the list with the range at it.
record Slot (pa len i : ℕ) (rs : List BootReserveRange) (o : Outcome ℕ) : Type 0 where
  at : ℕ
  found : o ≡ ok (i + at)
  reserved : IsReserved (insert_at at (range pa len) rs)
  perm : Perm (insert_at at (range pa len) rs) (range pa len ∷ rs)

module _ (pa len : ℕ) (some_len : 0 < len) (fits : pa + len < usize_mod) where
  -- The ranges with the new one, apart and in order, or a panic where the new one meets one of them.
  abbrev pub Adds : List BootReserveRange → Outcome (List BootReserveRange) → Type 0
  Adds res o =
      (Clear pa len res
        × (out : List BootReserveRange) × (o ≡ ok out)
        × IsReserved out
        × Perm out (range pa len ∷ res))
      ⊎ ((Clear pa len res → ⊥) × (o ≡ panic))
