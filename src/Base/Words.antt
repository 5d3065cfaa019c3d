-- ===== src/Base/Words.antt =====
-- Sums of `size_t`, which wrap at 2 ^ 64, and rounding to pages.
use Prim.Native.Nat.{ℕ, ◌+◌, ◌-◌, ◌*◌, ◌/◌, ◌%◌, ◌^◌, ◌≤◌, ◌<◌}
use mathlib.Core.Path.{◌≡◌}
use native.Mathlib.Omega.{arith}
use native.Mathlib.Nat.{le-div_iff_mul-le}

abbrev pub word : ℕ
word = 2 ^ 64

unfoldable pub add64 : ℕ → ℕ → ℕ
add64 a b = (a + b) % word

unfoldable pub sub64 : ℕ → ℕ → ℕ
sub64 a b = (a + (word - b % word)) % word

pub add64-eq : (a b : ℕ) → a + b < word → add64 a b ≡ a + b
unfolding add64
add64-eq a b h = omega arith

pub sub64-eq : (a b : ℕ) → a < word → b ≤ a → sub64 a b ≡ a - b
unfolding sub64
sub64-eq a b h k = omega arith

-- `x & ~(a - 1)` and `(x + a - 1) & ~(a - 1)` at a power of two `a`.
abbrev pub align_down : ℕ → ℕ → ℕ
align_down x a = x / a * a

abbrev pub align_up : ℕ → ℕ → ℕ
align_up x a = (x + a - 1) / a * a

pub align_down-le : (x a : ℕ) → 0 < a → align_down x a ≤ x
align_down-le x a h = grind arith

pub align_down-gt : (x a : ℕ) → 0 < a → x < align_down x a + a
align_down-gt x a h = grind arith

pub align_up-ge : (x a : ℕ) → 0 < a → x ≤ align_up x a
align_up-ge x a h = omega (arith, align_down-gt (x + a - 1) a h)

pub align_up-lt : (x a : ℕ) → 0 < a → align_up x a < x + a
align_up-lt x a h = omega (arith, align_down-le (x + a - 1) a h)

pub align_down_mono : (x y a : ℕ) → 0 < a → x ≤ y → align_down x a ≤ align_down y a
align_down_mono x y a h k =
    let q : x / a ≤ y / a = (le-div_iff_mul-le h).1 (omega (arith, align_down-le x a h)) in
    grind arith
