-- ===== src/Transport/Decimal.antt =====
-- What crates/transport/src/lib.rs uses of Rust's decimal numbers: `u64::to_string` and
-- `str::parse::<u64>`.
use irohsion.Prelude.{
  ℕ, zero, suc, ◌+◌, ◌*◌, ◌-◌, ◌/◌, ◌%◌, ◌^◌, ◌≤◌, ◌<◌, ◌≡◌, refl, ◌∙◌, ◌==◌, if◌then◌else◌, ltb,
  leb, arith, Bool, ◌&&◌, List, [], ◌∷◌, ◌++◌, length, length-append, Option, none, some, All,
  All-append, Bool-cases, inl, inr,
}

-- The digits of `n`, at most `fuel` of them.
unfoldable pub digits : ℕ → ℕ → List ℕ
digits zero n = []
digits (suc fuel) n =
    let front = digits fuel (n / 10) in
    if ltb n 10 then (b'0' + n) ∷ [] else front ++ ((b'0' + n % 10) ∷ [])

unfoldable pub to_string : ℕ → List ℕ
unfolding digits
to_string n = digits (suc n) n

abbrev is_digit : ℕ → Bool
is_digit c = leb b'0' c && leb c b'9'

-- The digits from `value` on; a value of more than 64 bits is an error.
unfoldable pub parse_digits : ℕ → List ℕ → Option ℕ
parse_digits value [] = some value
parse_digits value (c ∷ cs) =
    let next = value * 10 + (c - b'0') in
    let rest = parse_digits next cs in if is_digit c && ltb next (2 ^ 64) then rest else none

-- A sign may stand before the digits, of which there is at least one.
unfoldable pub parse_u64 : List ℕ → Option ℕ
unfolding parse_digits
parse_u64 [] = none
parse_u64 (c ∷ []) = parse_digits 0 (c ∷ [])
parse_u64 (c ∷ d ∷ cs) = parse_digits 0 (if c == b'+' then d ∷ cs else c ∷ d ∷ cs)

parse_digits-append_one :
    (n value d : ℕ) (xs : List ℕ)
    → parse_digits value xs ≡ some n
    → d < 10
    → n * 10 + d < 2 ^ 64
    → parse_digits value (xs ++ ((b'0' + d) ∷ [])) ≡ some (n * 10 + d)
unfolding parse_digits
parse_digits-append_one n value d [] e h k = ground arith
parse_digits-append_one n value d (c ∷ cs) e h k =
    ground (arith, parse_digits-append_one n (value * 10 + (c - b'0')) d cs)

parse_digits-digits : (fuel n : ℕ) → n < fuel → n < 2 ^ 64 → parse_digits 0 (digits fuel n) ≡ some n
unfolding digits
parse_digits-digits zero n h k = absurd (omega arith)
parse_digits-digits (suc fuel) n h k = elim (Bool-cases (ltb n 10)) [
  | inl small ↦ rw small (unfold parse_digits in ground arith)
  | inr large ↦ rw large (
      parse_digits-append_one (n / 10) 0 (n % 10) (digits fuel (n / 10))
        (parse_digits-digits fuel (n / 10) (ground arith) (omega arith)) (omega arith) (omega arith)
      ∙ last_digit)
]
  where
    last_digit : some (n / 10 * 10 + n % 10) ≡ some n
    last_digit = ground arith

-- A digit, and no sign, tab or end of a line.
abbrev pub IsDigit : ℕ → Type 0
IsDigit c = (b'0' ≤ c) × (c ≤ b'9')

digits-IsDigit : (fuel n : ℕ) → All IsDigit (digits fuel n)
unfolding digits
digits-IsDigit zero n = tt
digits-IsDigit (suc fuel) n = elim (Bool-cases (ltb n 10)) [
  | inl small ↦ rw small ((omega arith, ground arith), tt)
  | inr large ↦ rw large (
      All-append IsDigit (digits fuel (n / 10)) _ (digits-IsDigit fuel (n / 10))
        ((omega arith, omega arith), tt))
]

length-digits-pos : (fuel n : ℕ) → 0 < length (digits (suc fuel) n)
unfolding digits
length-digits-pos fuel n =
    ground (arith, length-append (digits fuel (n / 10)) ((b'0' + n % 10) ∷ []))

parse_u64-IsDigit :
    (xs : List ℕ) → All IsDigit xs → 0 < length xs → parse_u64 xs ≡ parse_digits 0 xs
unfolding parse_u64
parse_u64-IsDigit [] h k = absurd (omega arith)
parse_u64-IsDigit (c ∷ []) h k = refl
parse_u64-IsDigit (c ∷ d ∷ cs) h k = ground arith

-- A printed number of 64 bits is read back.
pub parse_u64-to_string : (n : ℕ) → n < 2 ^ 64 → parse_u64 (to_string n) ≡ some n
unfolding to_string
parse_u64-to_string n h =
    parse_u64-IsDigit (digits (suc n) n) (digits-IsDigit (suc n) n) (length-digits-pos n n)
    ∙ parse_digits-digits (suc n) n (omega arith) h

pub to_string-IsDigit : (n : ℕ) → All IsDigit (to_string n)
unfolding to_string
to_string-IsDigit n = digits-IsDigit (suc n) n
