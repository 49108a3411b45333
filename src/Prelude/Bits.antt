-- ===== src/Prelude/Bits.antt =====
-- Bit operations on bytes: facts checked over all 256 values by evaluation.
use Prim.Native.Nat.{
  digits, bit_xor-bitwise, differ, ℕ, zero, suc, ◌+◌, ◌*◌, ◌/◌, ◌%◌, ◌≤◌, ◌<◌, bit_and, bit_xor,
}
use mathlib.Core.Path.{◌≡◌, refl, ap, sym, ◌∙◌}
use mathlib.Core.Bool.{Bool, true, ◌&&◌}
use mathlib.Core.Logic.{◌⊎◌, inl, inr}
use native.Mathlib.Omega.{arith}
use irohsion.Prelude.Tests.{◌==◌, ==_iff}

unfoldable pub every : (ℕ → Bool) → ℕ → Bool
every p zero = true
every p (suc n) = every p n && p n

pub every_holds : (p : ℕ → Bool) (n x : ℕ) → x < n → every p n ≡ true → p x ≡ true
unfolding every
every_holds p zero x h all = absurd (omega arith)
every_holds p (suc n) x h all = ground (arith, every_holds p n x)

byte_top_bits : every (λ m. bit_and m 128 == m / 128 * 128) 256 ≡ true
unfolding every
byte_top_bits = refl

-- The bit that `!0x7f` keeps.
pub top_bit : (m : ℕ) → m < 256 → bit_and m 128 ≡ m / 128 * 128
top_bit m h = (==_iff _ _).0 (every_holds _ 256 m h byte_top_bits)

-- The exclusive or by the recursion on binary digits that the native one stands for, on as many
-- rounds as `n` says. Rounds beyond the number itself change nothing.
abbrev xor_rounds : ℕ → ℕ → ℕ → ℕ
xor_rounds n a b = digits (λ y. y) differ n a b

one_more_round : (a b n : ℕ) → a ≤ n → xor_rounds (suc n) a b ≡ xor_rounds n a b
one_more_round zero b zero h = refl
one_more_round zero b (suc n) h = refl
one_more_round (suc a) b zero h = absurd (omega arith)
one_more_round (suc a) b (suc n) h =
    omega (arith, one_more_round (suc a / 2) (b / 2) n (omega arith))

last_or_below : (m n : ℕ) → m ≤ suc n → (m ≡ suc n) ⊎ (m ≤ n)
last_or_below m n h = omega arith

spare_rounds : (a b m n : ℕ) → a ≤ m → m ≤ n → xor_rounds n a b ≡ xor_rounds m a b
spare_rounds a b m zero h k =
    let same : zero ≡ m = omega arith in ap (λ (t : ℕ). xor_rounds t a b) same
spare_rounds a b m (suc n) h k = elim (last_or_below m n k) [
  | inl same ↦ ap (λ (t : ℕ). xor_rounds t a b) (sym same)
  | inr below ↦ one_more_round a b n (omega arith) ∙ spare_rounds a b m n h below
]

digit_pair : (x y : ℕ) → x < 2 → y < 2 → differ x y ≡ (x + y) % 2
digit_pair zero zero h k = refl
digit_pair zero (suc zero) h k = refl
digit_pair (suc zero) zero h k = refl
digit_pair (suc zero) (suc zero) h k = refl
digit_pair zero (suc (suc y)) h k = absurd (omega arith)
digit_pair (suc zero) (suc (suc y)) h k = absurd (omega arith)
digit_pair (suc (suc x)) y h k = absurd (omega arith)

xor_digit : (a b : ℕ) → differ (a % 2) (b % 2) ≡ (a + b) % 2
xor_digit a b = omega (arith, digit_pair (a % 2) (b % 2) (omega arith) (omega arith))

bit_xor_step : (a b : ℕ) → bit_xor a b ≡ bit_xor (a / 2) (b / 2) * 2 + (a + b) % 2
bit_xor_step zero b = simp bit_xor-bitwise (omega arith)
bit_xor_step (suc a) b =
    let rest : xor_rounds a (suc a / 2) (b / 2) ≡ bit_xor (suc a / 2) (b / 2) =
      spare_rounds (suc a / 2) (b / 2) (suc a / 2) a (omega arith) (omega arith)
      ∙ sym (bit_xor-bitwise (suc a / 2) (b / 2)) in
    bit_xor-bitwise (suc a) b ∙ omega (arith, rest, xor_digit (suc a) b)

-- A number is its half and its lowest digit; so is an exclusive or.
xor_half : (a b : ℕ) → bit_xor a b / 2 ≡ bit_xor (a / 2) (b / 2)
xor_half a b = omega (arith, bit_xor_step a b)

xor_low : (a b : ℕ) → bit_xor a b % 2 ≡ (a + b) % 2
xor_low a b = omega (arith, bit_xor_step a b)

pub zero-bit_xor : (b : ℕ) → bit_xor 0 b ≡ b
zero-bit_xor b = bit_xor-bitwise 0 b

cancel_fuel : (n a b : ℕ) → a ≤ n → b ≤ n → bit_xor (bit_xor a b) b ≡ a
cancel_fuel zero zero zero h k = refl
cancel_fuel zero zero (suc b) h k = absurd (omega arith)
cancel_fuel zero (suc a) b h k = absurd (omega arith)
cancel_fuel (suc n) a b h k = omega (
  arith,
  bit_xor_step (bit_xor a b) b,
  ap (λ (t : ℕ). bit_xor t (b / 2)) (xor_half a b),
  cancel_fuel n (a / 2) (b / 2) (omega arith) (omega arith),
  xor_low a b,
)

-- The same number twice cancels.
pub bit_xor_cancel : (a b : ℕ) → bit_xor (bit_xor a b) b ≡ a
bit_xor_cancel a b = cancel_fuel (a + b) a b (omega arith) (omega arith)

swap_fuel :
    (n a b c : ℕ) → a ≤ n → b ≤ n → c ≤ n → bit_xor (bit_xor a b) c ≡ bit_xor (bit_xor a c) b
swap_fuel zero zero zero zero h k l = refl
swap_fuel zero (suc a) b c h k l = absurd (omega arith)
swap_fuel zero zero (suc b) c h k l = absurd (omega arith)
swap_fuel zero zero zero (suc c) h k l = absurd (omega arith)
swap_fuel (suc n) a b c h k l = omega (
  arith,
  bit_xor_step (bit_xor a b) c,
  bit_xor_step (bit_xor a c) b,
  ap (λ (t : ℕ). bit_xor t (c / 2)) (xor_half a b),
  ap (λ (t : ℕ). bit_xor t (b / 2)) (xor_half a c),
  swap_fuel n (a / 2) (b / 2) (c / 2) (omega arith) (omega arith) (omega arith),
  xor_low a b,
  xor_low a c,
)

-- The order of the operands does not matter.
pub bit_xor_right_comm : (a b c : ℕ) → bit_xor (bit_xor a b) c ≡ bit_xor (bit_xor a c) b
bit_xor_right_comm a b c = swap_fuel (a + b + c) a b c (omega arith) (omega arith) (omega arith)
