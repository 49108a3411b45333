-- ===== src/Prelude/Map.antt =====
-- Ordered maps and sets of machine integers: Rust's `BTreeMap<u64, V>` as a list in key order, and
-- `HashSet<u64>` as a list without an order of its own.
use Prim.Native.Nat.{ℕ, ◌+◌, ◌≤◌, ◌<◌}
use mathlib.Core.Path.{◌≡◌, refl}
use mathlib.Core.Bool.{Bool, true, false}
use mathlib.Core.List.{List, [], ◌∷◌, ◌++◌, map}
use mathlib.Core.Option.{Option, none, some}
use mathlib.Core.Logic.{inl, inr}
use native.Mathlib.Omega.{arith}
use irohsion.Prelude.Tests.{ltb, ◌==◌, if◌then◌else◌, is_some, Bool-cases}
use irohsion.Prelude.Lists.{length}

module _ {ℓ} {V : Type ℓ} where
  unfoldable pub lookup : ℕ → List (ℕ × V) → Option V
  lookup k [] = none
  lookup k ((j, v) ∷ m) = if j == k then some v else lookup k m

  unfoldable pub insert : ℕ → V → List (ℕ × V) → List (ℕ × V)
  insert k v [] = (k, v) ∷ []
  insert k v ((j, w) ∷ m) =
      if j == k then (k, v) ∷ m else if ltb k j then (k, v) ∷ (j, w) ∷ m else (j, w) ∷ insert k v m

  unfoldable pub remove : ℕ → List (ℕ × V) → List (ℕ × V)
  remove k [] = []
  remove k ((j, w) ∷ m) = if j == k then remove k m else (j, w) ∷ remove k m

  unfoldable pub contains_key : ℕ → List (ℕ × V) → Bool
  unfolding lookup
  contains_key k m = is_some (lookup k m)

  abbrev pub keys : List (ℕ × V) → List ℕ
  keys = map λ e. e.0

  abbrev pub values : List (ℕ × V) → List V
  values = map λ e. e.1

  pub lookup-insert :
      (stored asked : ℕ) (value : V) (entries : List (ℕ × V))
      → lookup asked (insert stored value entries)
        ≡ (if stored == asked then some value else lookup asked entries)
  unfolding lookup insert
  lookup-insert stored asked value [] = refl
  lookup-insert stored asked value ((i, w) ∷ rest) =
      ground (arith, lookup-insert stored asked value rest)

  pub lookup-remove :
      (k j : ℕ) (m : List (ℕ × V)) → lookup j (remove k m) ≡ (if k == j then none else lookup j m)
  unfolding lookup remove
  lookup-remove k j [] = ground arith
  lookup-remove k j ((i, w) ∷ m) = ground (arith, lookup-remove k j m)

  pub length-insert-le : (k : ℕ) (v : V) (m : List (ℕ × V)) → length (insert k v m) ≤ length m + 1
  unfolding insert
  length-insert-le k v [] = omega arith
  length-insert-le k v ((i, w) ∷ m) = ground (arith, length-insert-le k v m)

  pub length-remove-le : (k : ℕ) (m : List (ℕ × V)) → length (remove k m) ≤ length m
  unfolding remove
  length-remove-le k [] = omega arith
  length-remove-le k ((i, w) ∷ m) = ground (arith, length-remove-le k m)

  pub length-remove-lt :
      (k : ℕ) (m : List (ℕ × V)) {v : V} → lookup k m ≡ some v → length (remove k m) < length m
  unfolding remove lookup
  length-remove-lt k [] h = cc
  length-remove-lt k ((i, w) ∷ m) {v} h =
      ground (arith, length-remove-le k m, length-remove-lt k m {v = v})

-- A set.
unfoldable pub member : ℕ → List ℕ → Bool
member k [] = false
member k (j ∷ s) = if j == k then true else member k s

unfoldable pub add : ℕ → List ℕ → List ℕ
add k s = if member k s then s else k ∷ s

unfoldable pub discard : ℕ → List ℕ → List ℕ
discard k [] = []
discard k (j ∷ s) = if j == k then discard k s else j ∷ discard k s

pub member-add : (k j : ℕ) (s : List ℕ) → member j (add k s) ≡ (if k == j then true else member j s)
unfolding member add
member-add k j s = elim (Bool-cases (member k s)) [ inl e ↦ ground arith | inr e ↦ ground arith ]

pub member-discard :
    (k j : ℕ) (s : List ℕ) → member j (discard k s) ≡ (if k == j then false else member j s)
unfolding member discard
member-discard k j [] = ground arith
member-discard k j (i ∷ s) = ground (arith, member-discard k j s)

pub member-append_one :
    (k j : ℕ) (xs : List ℕ) → member j (xs ++ (k ∷ [])) ≡ (if k == j then true else member j xs)
unfolding member
member-append_one k j [] = refl
member-append_one k j (x ∷ xs) = ground (arith, member-append_one k j xs)

pub ruleset map_laws = (lookup-insert, lookup-remove, member-add, member-discard)
