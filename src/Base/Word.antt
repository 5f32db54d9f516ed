-- ===== src/Base/Word.antt =====
-- `usize` of riscv64 in a release build: 64 bits, arithmetic that wraps, shifts that take their
-- distance modulo 64.
use Prim.Native.Nat.{ℕ, ◌+◌, ◌-◌, ◌*◌, ◌/◌, ◌%◌, ◌^◌, ◌<◌}
use mathlib.Core.Path.{◌≡◌}
use native.Mathlib.Omega.{arith}

abbrev pub usize_bits : ℕ
usize_bits = 64

abbrev pub usize_mod : ℕ
usize_mod = 0x1_0000_0000_0000_0000

abbrev pub usize_max : ℕ
usize_max = 0xffff_ffff_ffff_ffff

abbrev pub wadd : ℕ → ℕ → ℕ
wadd a b = (a + b) % usize_mod

abbrev pub wsub : ℕ → ℕ → ℕ
wsub a b = (a + usize_mod - b) % usize_mod

abbrev pub wmul : ℕ → ℕ → ℕ
wmul a b = a * b % usize_mod

abbrev pub wnot : ℕ → ℕ
wnot a = usize_max - a

-- `1 << k`, `a << k` and `a >> k`.
unfoldable pub wshl : ℕ → ℕ → ℕ
wshl a k = a * 2 ^ (k % usize_bits) % usize_mod

unfoldable pub wshr : ℕ → ℕ → ℕ
wshr a k = a / 2 ^ (k % usize_bits)

pub wsub-wadd : (a b : ℕ) → a < usize_mod → b < usize_mod → wsub (wadd a b) b ≡ a
wsub-wadd a b ha hb = omega arith
