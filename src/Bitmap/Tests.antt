-- ===== src/Bitmap/Tests.antt =====
-- Runs of bitmap.rs on small storages.
use score.Base.{ℕ, ◌+◌, ◌≢◌, ◌≤◌, ◌<◌, ◌≡◌, ◌⊎◌, false, arith, none, some, err, no_resources}
use score.Bitmap.{Bitmap, set, clear, scan, find, reverse_scan}
use score.Bitmap.Word.{Writes, set_clear-Writes, reverse_scan_lem, value, word_bit}
use score.Bitmap.Unit.{find_last_unit}

-- Sixty-four bits of which bits 1 and 3 are ones.
abbrev ten : Bitmap
ten = record { size = 64; storage_num = 1; storage_data = λ i. 10 }

set_clear-Writes_example :
    Writes ten 3 6 (omega arith) (omega arith) (omega arith) 1 (set 3 6 ten)
    × Writes ten 3 6 (omega arith) (omega arith) (omega arith) 0 (clear 3 6 ten)
set_clear-Writes_example = set_clear-Writes ten 3 6 (omega arith) (omega arith) (omega arith)

reverse_scan_lem_example :
    ((reverse_scan 0 6 false ten ≡ none) × ((k : ℕ) → 0 ≤ k → k < 6 → word_bit ten k ≡ value false))
    ⊎ ((h : ℕ) × (reverse_scan 0 6 false ten ≡ some (448 + h))
        × (0 ≤ h)
        × (h < 6)
        × (word_bit ten h ≢ value false)
        × ((k : ℕ) → h < k → k < 6 → word_bit ten k ≡ value false))
reverse_scan_lem_example =
    reverse_scan_lem ten 0 6 false (omega arith) (omega arith) (omega arith) (omega arith)

find_last_unit_example : (scan 4 60 false ten ≡ none) × (find 2 false 4 60 8 ten ≡ err no_resources)
find_last_unit_example = find_last_unit ten 1 4 60 8 false (omega arith) (omega arith)
