-- ===== src/Prelude/Numbers.antt =====
-- `strconv.Atoi`, as the bit pattern of an int.
use Prim.Native.Char.{Char, code}
use Prim.Native.String.{String, [], ◌∷◌}
use test_task_autumn.Prelude.{
  ℕ, ◌+◌, ◌-◌, ◌*◌, ◌%◌, ◌^◌, String, ◌≡◌, refl, ◌&&◌, Option, none, some, [], ◌∷◌, ltb, leb,
  if◌then◌else◌, ◌==◌, nat_eq, string_eq,
}

digit_value : Char → Option ℕ
digit_value c = if leb 48 (code c) && leb (code c) 57 then some (code c - 48) else none

-- the digits of a text after those of `n`
unfoldable pub read_digits : ℕ → String → Option ℕ
unfolding digit_value
read_digits n [] = some n
read_digits n (c ∷ s) = elim (digit_value c) [ none ↦ none | some d ↦ read_digits (n * 10 + d) s ]

-- a text of at least one digit, whose number is below `bound`
unfoldable pub read_below : ℕ → String → Option ℕ
unfolding read_digits
read_below bound [] = none
read_below bound (c ∷ s) = elim (read_digits 0 (c ∷ s)) [
  | none ↦ none
  | some n ↦ if ltb n bound then some n else none
]

abbrev negative : Option ℕ → Option ℕ
negative none = none
negative (some n) = some ((2 ^ 64 - n) % 2 ^ 64)

unfoldable pub atoi : String → Option ℕ
unfolding read_below
atoi [] = none
atoi (c ∷ s) =
    if code c == 45
    then negative (read_below (2 ^ 63 + 1) s)
    else if code c == 43
    then read_below (2 ^ 63) s
    else read_below (2 ^ 63) (c ∷ s)

atoi_tests :
    (atoi "1" ≡ some 1)
    × (atoi "+07" ≡ some 7)
    × (atoi "-1" ≡ some (2 ^ 64 - 1))
    × (atoi "" ≡ none)
    × (atoi "-" ≡ none)
    × (atoi "1x" ≡ none)
    × (atoi "9223372036854775808" ≡ none)
    × (atoi "-9223372036854775808" ≡ some (2 ^ 63))
unfolding atoi
atoi_tests = (refl, refl, refl, refl, refl, refl, refl, refl)
