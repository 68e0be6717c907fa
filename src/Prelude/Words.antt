-- ===== src/Prelude/Words.antt =====
-- Go's int32 and int64 as two's complement bit patterns: an int32 is a number below 2 ^ 32 and an
-- int64 one below 2 ^ 64. Sums and products wrap around, as in Go.
use test_task_autumn.Prelude.{
  ℕ, ◌+◌, ◌-◌, ◌*◌, ◌%◌, ◌^◌, ◌<◌, ◌≡◌, Bool, true, ◌&&◌, arith, ltb, if◌then◌else◌, nat_eq,
  string_eq,
}

abbrev pub add64 : ℕ → ℕ → ℕ
add64 a b = (a + b) % 2 ^ 64

unfoldable pub mul64 : ℕ → ℕ → ℕ
mul64 a b = (a * b) % 2 ^ 64

-- `int64(x)` of an int32: the sign bit is copied
unfoldable pub int64 : ℕ → ℕ
int64 x = if ltb x (2 ^ 31) then x else x + (2 ^ 64 - 2 ^ 32)

-- `x > 0`: the sign bit is clear and the pattern is not 0
abbrev pub is_positive32 : ℕ → Bool
is_positive32 x = ltb 0 x && ltb x (2 ^ 31)

abbrev pub is_positive64 : ℕ → Bool
is_positive64 x = ltb 0 x && ltb x (2 ^ 63)

pub is_positive32_bounds : (x : ℕ) → is_positive32 x ≡ true → (0 < x) × (x < 2 ^ 31)
is_positive32_bounds x h = ground arith

pub is_positive64_bounds : (x : ℕ) → is_positive64 x ≡ true → (0 < x) × (x < 2 ^ 63)
is_positive64_bounds x h = ground arith

pub is_positive64_of_bounds : (x : ℕ) → 0 < x → x < 2 ^ 63 → is_positive64 x ≡ true
is_positive64_of_bounds x p q = ground arith

-- a positive int32 keeps its value as an int64
pub int64_of_positive : (x : ℕ) → is_positive32 x ≡ true → int64 x ≡ x
unfolding int64
int64_of_positive x h = ground arith

pub mul64_of_lt : (a b : ℕ) → a * b < 2 ^ 64 → mul64 a b ≡ a * b
unfolding mul64
mul64_of_lt a b h = omega arith

pub mul64-lt : (a b : ℕ) → mul64 a b < 2 ^ 64
unfolding mul64
mul64-lt a b = omega arith
