-- ===== src/Prelude/Named.antt =====
-- Maps with text keys: Rust's `BTreeMap<String, V>` as a list in the order of its keys.
use Prim.Native.Nat.{ℕ}
use mathlib.Core.Path.{◌≡◌, refl}
use mathlib.Core.Bool.{Bool, true, false}
use mathlib.Core.List.{List, [], ◌∷◌}
use mathlib.Core.Option.{Option, none, some}
use mathlib.Core.Logic.{inl, inr}
use native.Mathlib.Omega.{arith}
use irohsion.Prelude.Tests.{ltb, ◌==◌, if◌then◌else◌, Bool-cases}
use irohsion.Prelude.Bytes.{bytes_eq, bytes_eq→≡}

-- The order of two texts.
unfoldable pub text_lt : List ℕ → List ℕ → Bool
text_lt [] [] = false
text_lt [] (d ∷ ds) = true
text_lt (c ∷ cs) [] = false
text_lt (c ∷ cs) (d ∷ ds) = if c == d then text_lt cs ds else ltb c d

bytes_eq-left : (j k q : List ℕ) → bytes_eq j k ≡ true → bytes_eq j q ≡ bytes_eq k q
bytes_eq-left j k q e = rw (bytes_eq→≡ j k e) refl

bytes_eq-right : (j k q : List ℕ) → bytes_eq k q ≡ true → bytes_eq j q ≡ bytes_eq j k
bytes_eq-right j k q e = rw (bytes_eq→≡ k q e) refl

module _ {V : Type 0} where
  unfoldable pub find : List ℕ → List (List ℕ × V) → Option V
  find k [] = none
  find k ((j, v) ∷ m) = let rest = find k m in if bytes_eq j k then some v else rest

  unfoldable pub put : List ℕ → V → List (List ℕ × V) → List (List ℕ × V)
  unfolding text_lt
  put k v [] = (k, v) ∷ []
  put k v ((j, w) ∷ m) =
      let rest = put k v m in
      if bytes_eq j k
      then (k, v) ∷ m
      else if text_lt k j
      then (k, v) ∷ (j, w) ∷ m
      else (j, w) ∷ rest

  unfoldable pub erase : List ℕ → List (List ℕ × V) → List (List ℕ × V)
  erase k [] = []
  erase k ((j, w) ∷ m) = let rest = erase k m in if bytes_eq j k then rest else (j, w) ∷ rest

  pub find-put :
      (k q : List ℕ) (v : V) (m : List (List ℕ × V))
      → find q (put k v m) ≡ (if bytes_eq k q then some v else find q m)
  unfolding find put
  find-put k q v [] = refl
  find-put k q v ((j, w) ∷ m) = elim (Bool-cases (bytes_eq j k)) [
    | inl e ↦ ground (arith, bytes_eq-left j k q e)
    | inr e ↦ ground (arith, find-put k q v m, bytes_eq-right j k q)
  ]

  pub find-erase :
      (k q : List ℕ) (m : List (List ℕ × V))
      → find q (erase k m) ≡ (if bytes_eq k q then none else find q m)
  unfolding find erase
  find-erase k q [] = ground arith
  find-erase k q ((j, w) ∷ m) = elim (Bool-cases (bytes_eq j k)) [
    | inl e ↦ ground (arith, bytes_eq-left j k q e, find-erase k q m)
    | inr e ↦ ground (arith, find-erase k q m, bytes_eq-right j k q)
  ]
