-- ===== src/Prelude/Texts.antt =====
-- `sort.Strings`, `strings.Join`, `%d` of an int32, `strconv.FormatInt` of an int64 and `strconv.Atoi`.
use Prim.Native.String.{compare}
use text.Mathlib.Text.{is_le}
use test_task_autumn.Prelude.{
  ℕ, zero, suc, ◌-◌, ◌/◌, ◌%◌, ◌^◌, String, ◌<>◌, ◌≡◌, refl, Bool, List, [], ◌∷◌, ltb,
  if◌then◌else◌, ◌==◌, nat_eq, string_eq,
}

-- Go orders strings by their bytes, and so does `compare`.
abbrev pub str_leb : String → String → Bool
str_leb s t = is_le (compare s t)

unfoldable pub insert_string : String → List String → List String
insert_string s [] = s ∷ []
insert_string s (t ∷ ts) = if str_leb s t then s ∷ t ∷ ts else t ∷ insert_string s ts

-- Equal strings cannot be told apart, so any sort has this result.
unfoldable pub sort_strings : List String → List String
unfolding insert_string
sort_strings [] = []
sort_strings (s ∷ ss) = insert_string s (sort_strings ss)

unfoldable pub join : List String → String → String
join [] sep = ""
join (s ∷ []) sep = s
join (s ∷ t ∷ ss) sep = s <> sep <> join (t ∷ ss) sep

digit : ℕ → String
digit d =
    if d == 0
    then "0"
    else if d == 1
    then "1"
    else if d == 2
    then "2"
    else if d == 3
    then "3"
    else if d == 4
    then "4"
    else if d == 5
    then "5"
    else if d == 6
    then "6"
    else if d == 7
    then "7"
    else if d == 8
    then "8"
    else "9"

-- The digits of a number below 10 ^ fuel.
digits : ℕ → ℕ → String
unfolding digit
digits zero n = ""
digits (suc fuel) n =
    let rest = digits fuel (n / 10) in if ltb n 10 then digit n else rest <> digit (n % 10)

-- 2 ^ 31 has ten digits.
unfoldable pub decimal32 : ℕ → String
unfolding digits
decimal32 x = if ltb x (2 ^ 31) then digits 10 x else "-" <> digits 10 (2 ^ 32 - x)

-- 2 ^ 63 has nineteen digits.
unfoldable pub decimal64 : ℕ → String
unfolding digits
decimal64 x = if ltb x (2 ^ 63) then digits 19 x else "-" <> digits 19 (2 ^ 64 - x)

decimal32_tests :
    (decimal32 2147483647 ≡ "2147483647") × (decimal32 4294967295 ≡ "-1") × (decimal32 0 ≡ "0")
unfolding decimal32
decimal32_tests = (refl, refl, refl)
