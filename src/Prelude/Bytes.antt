-- ===== src/Prelude/Bytes.antt =====
-- Bytes and little-endian integers: Rust's `to_le_bytes` and `from_le_bytes`.
use Prim.Native.Nat.{ℕ, ◌+◌, ◌*◌, ◌/◌, ◌%◌, ◌<◌, ◌^◌}
use mathlib.Core.Path.{◌≡◌, refl}
use mathlib.Core.List.{List, [], ◌∷◌}
use mathlib.Core.Bool.{Bool, true, false, ◌&&◌}
use native.Mathlib.Omega.{arith}
use irohsion.Prelude.Tests.{◌==◌}
use irohsion.Prelude.Lists.{length, All}

abbrev pub IsByte : ℕ → Type 0
IsByte b = b < 256

unfoldable pub le_value : List ℕ → ℕ
le_value [] = 0
le_value (b ∷ bs) = b + 256 * le_value bs

unfoldable pub u16_to_le_bytes : ℕ → List ℕ
u16_to_le_bytes v = (v % 256) ∷ (v / 256 % 256) ∷ []

unfoldable pub u32_to_le_bytes : ℕ → List ℕ
u32_to_le_bytes v = (v % 256) ∷ (v / 256 % 256) ∷ (v / 65536 % 256) ∷ (v / 16777216 % 256) ∷ []

pub le_value-u32 : (v : ℕ) → v < 2 ^ 32 → le_value (u32_to_le_bytes v) ≡ v
unfolding le_value u32_to_le_bytes
le_value-u32 v h = omega arith

pub le_value_bound : (bs : List ℕ) → All IsByte bs → length bs ≡ 4 → le_value bs < 2 ^ 32
unfolding le_value
le_value_bound (a ∷ b ∷ c ∷ d ∷ []) h e = omega arith
le_value_bound (a ∷ b ∷ c ∷ d ∷ x ∷ r) h e = absurd (omega arith)
le_value_bound (a ∷ b ∷ c ∷ []) h e = absurd (omega arith)
le_value_bound (a ∷ b ∷ []) h e = absurd (omega arith)
le_value_bound (a ∷ []) h e = absurd (omega arith)
le_value_bound [] h e = absurd (omega arith)

-- Lists of bytes of one length are equal when they stand for one integer.
pub le_value-injective :
    (xs ys : List ℕ)
    → All IsByte xs
    → All IsByte ys
    → length xs ≡ length ys
    → le_value xs ≡ le_value ys
    → xs ≡ ys
unfolding le_value
le_value-injective [] [] h k l e = refl
le_value-injective [] (y ∷ ys) h k l e = absurd (omega arith)
le_value-injective (x ∷ xs) [] h k l e = absurd (omega arith)
le_value-injective (x ∷ xs) (y ∷ ys) h k l e =
    let head : x ≡ y = omega arith in
    let rest : xs ≡ ys = le_value-injective xs ys h.1 k.1 (omega arith) (omega arith) in cc

-- Equality of byte strings, and of texts.
abbrev pub bytes_eq : List ℕ → List ℕ → Bool
bytes_eq [] [] = true
bytes_eq (x ∷ xs) (y ∷ ys) = x == y && bytes_eq xs ys
bytes_eq _ _ = false

pub bytes_eq_refl : (xs : List ℕ) → bytes_eq xs xs ≡ true
bytes_eq_refl [] = refl
bytes_eq_refl (x ∷ xs) = ground (arith, bytes_eq_refl xs)

pub bytes_eq→≡ : (xs ys : List ℕ) → bytes_eq xs ys ≡ true → xs ≡ ys
bytes_eq→≡ [] [] h = refl
bytes_eq→≡ [] (y ∷ ys) h = cc
bytes_eq→≡ (x ∷ xs) [] h = cc
bytes_eq→≡ (x ∷ xs) (y ∷ ys) h = ground (arith, bytes_eq→≡ xs ys)
