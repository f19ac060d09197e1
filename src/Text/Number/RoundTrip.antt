-- ===== src/Text/Number/RoundTrip.antt =====
-- A printed number is digits, and parses back to itself.
use folder_transfer.Prelude.{
  ℕ, zero, suc, ◌+◌, ◌-◌, ◌*◌, ◌/◌, ◌%◌, ◌^◌, ◌≤◌, ◌<◌, ℤ, pos, negsuc, ◌≡◌, refl, ◌∙◌, subst,
  false, List, [], ◌∷◌, some, arith, ltb, ◌==◌, Bool-cases, inl, inr,
}
use folder_transfer.Text.Number.{
  digits, print_nat, print_int, scan, parse_digits, parse_unsigned, parse_signed, parse_u64,
  parse_i64,
}

abbrev pub IsDigits : List ℕ → Type 0
IsDigits [] = Unit
IsDigits (c ∷ s) = (b'0' ≤ c) × (c ≤ b'9') × IsDigits s

scan-digit :
    (n : ℕ) (out : List ℕ) (bound : ℕ)
    → n < bound
    → scan bound (n / 10) ((b'0' + n % 10) ∷ out) ≡ scan bound n out
unfolding scan
scan-digit n out bound k =
    let whole : n / 10 * 10 + (b'0' + n % 10 - b'0') ≡ n = omega arith in rw whole (ground arith)

-- With the number and the accumulator: what the digits say, read behind what was read before.
scan-digits :
    (f n : ℕ) (out : List ℕ) (bound : ℕ)
    → n < f
    → n < bound
    → scan bound 0 (digits f n out) ≡ scan bound n out
unfolding scan digits
scan-digits zero n out bound h k = absurd (omega arith)
scan-digits (suc f) n out bound h k = elim (Bool-cases (ltb n 10)) [
  | inl small ↦
      let none_before : n / 10 ≡ 0 = ground arith in
      rw small (
        subst (λ q. scan bound q ((b'0' + n % 10) ∷ out) ≡ scan bound n out) none_before
          (scan-digit n out bound k))
  | inr large ↦ rw large (
      scan-digits f (n / 10) ((b'0' + n % 10) ∷ out) bound (ground arith) (omega arith)
      ∙ scan-digit n out bound k)
]

digits-IsDigits : (f n : ℕ) (out : List ℕ) → IsDigits out → IsDigits (digits f n out)
unfolding digits
digits-IsDigits zero n out h = h
digits-IsDigits (suc f) n out h = ground (arith, digits-IsDigits f (n / 10) ((b'0' + n % 10) ∷ out))

digits-cons : (f n : ℕ) (out : List ℕ) → n < f → (c : ℕ) × (s : List ℕ) × (digits f n out ≡ c ∷ s)
unfolding digits
digits-cons zero n out h = absurd (omega arith)
digits-cons (suc f) n out h = elim (Bool-cases (ltb n 10)) [
  | inl small ↦ (b'0' + n % 10, out, rw small)
  | inr large ↦ rw large (digits-cons f (n / 10) ((b'0' + n % 10) ∷ out) (ground arith))
]

parse_digits-digits : (n bound : ℕ) → n < bound → parse_digits bound (print_nat n) ≡ some n
unfolding parse_digits print_nat
parse_digits-digits n bound h =
    let (c, s, e) = digits-cons (suc n) n [] (omega arith) in
    rw e (rw e at (scan-digits (suc n) n [] bound (omega arith) h))

digit-not : (c : ℕ) → b'0' ≤ c → c ≤ b'9' → ((c == b'+') ≡ false) × ((c == b'-') ≡ false)
digit-not c h k = ground arith

pub print_nat-IsDigits : (n : ℕ) → IsDigits (print_nat n)
unfolding print_nat
print_nat-IsDigits n = digits-IsDigits (suc n) n [] tt

print_nat-cons : (n : ℕ) → (c : ℕ) × (s : List ℕ) × (print_nat n ≡ c ∷ s)
unfolding print_nat
print_nat-cons n = digits-cons (suc n) n [] (omega arith)

-- A digit is no sign, so the sign's branches do not show.
parse_unsigned-digits :
    (s : List ℕ) (bound : ℕ) → IsDigits s → parse_unsigned bound s ≡ parse_digits bound s
unfolding parse_unsigned
parse_unsigned-digits [] bound h = refl
parse_unsigned-digits (c ∷ s) bound (a, b, h) = ground arith

parse_unsigned-print_nat : (n bound : ℕ) → n < bound → parse_unsigned bound (print_nat n) ≡ some n
parse_unsigned-print_nat n bound h =
    parse_unsigned-digits (print_nat n) bound (print_nat-IsDigits n) ∙ parse_digits-digits n bound h

-- A number below 2^64 is printed and parsed back.
pub parse_u64-print_nat : (n : ℕ) → n < 2 ^ 64 → parse_u64 (print_nat n) ≡ some n
parse_u64-print_nat n h = unfold parse_u64 in parse_unsigned-print_nat n (2 ^ 64) h

parse_signed-digits :
    (c : ℕ) (s : List ℕ) (half n : ℕ)
    → IsDigits (c ∷ s)
    → parse_unsigned half (c ∷ s) ≡ some n
    → parse_signed half (c ∷ s) ≡ some (pos n)
unfolding parse_signed
parse_signed-digits c s half n (a, b, h) e = rw ((digit-not c a b).1, e)

parse_i64-pos : (n : ℕ) → n < 2 ^ 63 → parse_i64 (print_nat n) ≡ some (pos n)
parse_i64-pos n h =
    let (c, s, e) = print_nat-cons n in
    let d : IsDigits (c ∷ s) = rw e at (print_nat-IsDigits n) in
    rw e (
      unfold parse_i64 in
      parse_signed-digits c s (2 ^ 63) n d (rw e at (parse_unsigned-print_nat n (2 ^ 63) h)))

parse_i64-negsuc : (n : ℕ) → n < 2 ^ 63 → parse_i64 (b'-' ∷ print_nat (suc n)) ≡ some (negsuc n)
unfolding parse_i64
parse_i64-negsuc n h = rw (parse_digits-digits (suc n) (2 ^ 63 + 1) (omega arith)) refl

abbrev pub IsI64 : ℤ → Type 0
IsI64 (pos n) = n < 2 ^ 63
IsI64 (negsuc n) = n < 2 ^ 63

-- A number of type `i64` is printed and parsed back.
pub parse_i64-print_int : (z : ℤ) → IsI64 z → parse_i64 (print_int z) ≡ some z
unfolding print_int
parse_i64-print_int (pos n) h = parse_i64-pos n h
parse_i64-print_int (negsuc n) h = parse_i64-negsuc n h
