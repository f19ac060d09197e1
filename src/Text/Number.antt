-- ===== src/Text/Number.antt =====
-- Decimal numbers: `format!("{n}")` and `str::parse` of the unsigned and signed integer types.
pub mod RoundTrip
use folder_transfer.Prelude.{
  ℕ, zero, suc, ◌+◌, ◌-◌, ◌*◌, ◌/◌, ◌%◌, ◌^◌, ◌≤◌, ◌<◌, ℤ, pos, negsuc, Bool, true, false, ◌&&◌,
  ◌||◌, List, [], ◌∷◌, ◌++◌, Option, none, some, leb, ltb, ◌==◌, if◌then◌else◌,
}

-- One digit a round, so any fuel above the number is enough.
digits : ℕ → ℕ → List ℕ → List ℕ
digits zero n out = out
digits (suc f) n out =
    let out' = (b'0' + n % 10) ∷ out in
    let rest = digits f (n / 10) out' in if ltb n 10 then out' else rest

unfoldable pub print_nat : ℕ → List ℕ
unfolding digits
print_nat n = digits (suc n) n []

unfoldable pub print_int : ℤ → List ℕ
unfolding print_nat
print_int (pos n) = print_nat n
print_int (negsuc n) = b'-' ∷ print_nat (suc n)

abbrev is_digit : ℕ → Bool
is_digit c = leb b'0' c && leb c b'9'

-- The digits of a number that stays below the bound; `none` is Rust's `ParseIntError`.
scan : ℕ → ℕ → List ℕ → Option ℕ
scan bound n [] = some n
scan bound n (c ∷ s) =
    let n' = n * 10 + (c - b'0') in
    let rest = scan bound n' s in if is_digit c then (if ltb n' bound then rest else none) else none

-- At least one digit.
parse_digits : ℕ → List ℕ → Option ℕ
unfolding scan
parse_digits bound [] = none
parse_digits bound (c ∷ s) = scan bound 0 (c ∷ s)

parse_unsigned : ℕ → List ℕ → Option ℕ
unfolding parse_digits
parse_unsigned bound [] = none
parse_unsigned bound (c ∷ s) =
    if c == b'+' then parse_digits bound s else parse_digits bound (c ∷ s)

abbrev negate : ℕ → ℤ
negate zero = pos 0
negate (suc n) = negsuc n

parse_signed : ℕ → List ℕ → Option ℤ
unfolding parse_digits
parse_signed half [] = none
parse_signed half (c ∷ s) =
    if c == b'-'
    then elim (parse_digits (half + 1) s) [ none ↦ none | some n ↦ some (negate n) ]
    else elim (parse_unsigned half (c ∷ s)) [ none ↦ none | some n ↦ some (pos n) ]

-- `parse::<u64>()`, and `parse::<usize>()` on a 64-bit machine.
unfoldable pub parse_u64 : List ℕ → Option ℕ
unfolding parse_unsigned
parse_u64 = parse_unsigned (2 ^ 64)

unfoldable pub parse_i64 : List ℕ → Option ℤ
unfolding parse_signed parse_unsigned
parse_i64 = parse_signed (2 ^ 63)

unfoldable pub parse_i32 : List ℕ → Option ℤ
unfolding parse_signed parse_unsigned
parse_i32 = parse_signed (2 ^ 31)
