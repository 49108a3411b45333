-- ===== src/Client/Strategy/Groups/Cover.antt =====
-- The two groups of `auto_path_groups` of crates/client/src/path_strategy.rs leave no interface out.
use irohsion.Prelude.{
  ℕ, ◌≡◌, refl, ◌==◌, if◌then◌else◌, ltb, arith, Bool, true, false, not, ◌||◌, List, [], ◌∷◌, ◌++◌,
  length, Bool-cases, inl, inr, ==_iff, Option-cases, some, map, leb,
}
use irohsion.Prelude.Map.{member}
use irohsion.Client.Strategy.{Floats, StrategyState, InterfaceHealth, fresh_health}
use irohsion.Client.Strategy.Groups.{
  keep, auto_path_groups, healthy_of, fresh_of, best_seq, auto_split_ready,
}

member-append : (i : ℕ) (xs ys : List ℕ) → member i (xs ++ ys) ≡ (member i xs || member i ys)
unfolding member
member-append i [] ys = refl
member-append i (x ∷ xs) ys = ground (arith, member-append i xs ys)

-- An item is kept if it is there and passes the test.
member-keep :
    (p : ℕ → Bool) (i : ℕ) (xs : List ℕ)
    → member i (keep p xs) ≡ (if p i then member i xs else false)
unfolding member keep
member-keep p i [] = ground arith
member-keep p i (x ∷ xs) = ground (arith, member-keep p i xs)

module _ (floats : Floats) (now : ℕ) (s : StrategyState floats) where
  abbrev names : List (ℕ × InterfaceHealth floats) → List ℕ
  names = map λ f. f.0

  -- An interface that an entry names has fresh health, and was asked for.
  member-fresh_of :
      (i : ℕ) (xs : List ℕ)
      → member i (names (fresh_of floats now s xs)) ≡ true
      → (member i xs ≡ true)
        × ((h : InterfaceHealth floats) × (fresh_health floats now i s ≡ some h))
  unfolding member fresh_of
  member-fresh_of i [] m = absurd (cc)
  member-fresh_of i (x ∷ xs) m = elim (Option-cases (fresh_health floats now x s)) [
    | inl stale ↦
        let (there, (h, e)) = member-fresh_of i xs (rw (stale, fresh_of) at m) in
        (ground arith, (h, e))
    | inr (h, fresh) ↦ elim (Bool-cases (x == i)) [
      | inl same ↦ (rw same refl, (h, rw ((==_iff x i).0 same) at fresh))
      | inr other ↦
          let (there, (h', e)) = member-fresh_of i xs (rw (fresh, other, fresh_of) at m) in
          (ground arith, (h', e))
    ]
  ]

  member-names-keep :
      (q : ℕ × InterfaceHealth floats → Bool) (i : ℕ) (fs : List (ℕ × InterfaceHealth floats))
      → member i (names (keep q fs)) ≡ true
      → member i (names fs) ≡ true
  unfolding member keep
  member-names-keep q i [] m = m
  member-names-keep q i ((j, h) ∷ fs) m = go (q (j, h)) (member-names-keep q i fs) m
    where
      go :
          (b : Bool)
          → (member i (names (keep q fs)) ≡ true → member i (names fs) ≡ true)
          → member i (names (if b then (j, h) ∷ keep q fs else keep q fs)) ≡ true
          → (if j == i then true else member i (names fs)) ≡ true
      go true later k = ground (arith, later)
      go false later k = ground (arith, later k)

  member-healthy_of :
      (i : ℕ) (fs : List (ℕ × InterfaceHealth floats))
      → member i (healthy_of floats fs) ≡ true
      → member i (names fs) ≡ true
  unfolding healthy_of member
  member-healthy_of i fs m = elim (Option-cases (best_seq floats (map (λ f. f.1) fs))) [
    | inl none_yet ↦ absurd (cc (rw (none_yet, healthy_of) at m))
    | inr (best, e) ↦ member-names-keep _ i fs (rw (e, healthy_of) at m)
  ]

  abbrev candidates : List ℕ → List ℕ
  candidates interfaces = keep (λ i. not (member i s.interface_failures)) interfaces

  -- A healthy interface was asked for, and has not failed.
  abbrev Sound : List ℕ → ℕ → Type 0
  Sound interfaces i = (member i interfaces ≡ true) × (member i s.interface_failures ≡ false)

  candidate-Sound :
      (i : ℕ) (interfaces : List ℕ) → member i (candidates interfaces) ≡ true → Sound interfaces i
  candidate-Sound i interfaces m =
      ground (arith, member-keep (λ j. not (member j s.interface_failures)) i interfaces)

  -- The failed interfaces, with the rest of the candidates, cover what the first group leaves out.
  rest_covers :
      (healthy : List ℕ) (i : ℕ) (interfaces : List ℕ)
      → member i interfaces ≡ true
      → (member i healthy
          || member i (
              keep (λ j. member j s.interface_failures) interfaces
              ++ keep (λ j. not (member j healthy)) (candidates interfaces)))
        ≡ true
  rest_covers healthy i interfaces m = ground (
    arith,
    member-append i (keep (λ j. member j s.interface_failures) interfaces)
        (keep (λ j. not (member j healthy)) (candidates interfaces)),
    member-keep (λ j. member j s.interface_failures) i interfaces,
    member-keep (λ j. not (member j healthy)) i (candidates interfaces),
    member-keep (λ j. not (member j s.interface_failures)) i interfaces,
  )

  all_cover :
      (i : ℕ) (interfaces : List ℕ)
      → member i interfaces ≡ true
      → (member i (candidates interfaces)
          || member i
              (keep (λ j. member j s.interface_failures) interfaces ++ candidates interfaces))
        ≡ true
  all_cover i interfaces m = ground (
    arith,
    member-append i (keep (λ j. member j s.interface_failures) interfaces) (candidates interfaces),
    member-keep (λ j. member j s.interface_failures) i interfaces,
    member-keep (λ j. not (member j s.interface_failures)) i interfaces,
  )

  -- Every interface is in a group; and the first group holds interfaces of those asked for only, none
  -- of which has failed since its last success.
  pub auto_path_groups-Cover :
      (i : ℕ) (interfaces : List ℕ)
      → let groups = auto_path_groups floats now interfaces s in
        (member i interfaces ≡ true → (member i groups.0 || member i groups.1) ≡ true)
        × (member i groups.0 ≡ true → Sound interfaces i)
  unfolding auto_path_groups
  auto_path_groups-Cover i interfaces = elim (Bool-cases (ltb (length (candidates interfaces)) 2)) [
    | inl few ↦ rw few (all_cover i interfaces, candidate-Sound i interfaces)
    | inr several ↦ rw several (
      rest_covers _ i interfaces,
      λ m.
          candidate-Sound i interfaces
            (member-fresh_of i (candidates interfaces) (member-healthy_of i _ m)).0,
    )
  ]

  fresh_in_group :
      (i : ℕ) (interfaces : List ℕ)
      → leb 2 (length (auto_path_groups floats now interfaces s).0) ≡ true
      → member i (auto_path_groups floats now interfaces s).0 ≡ true
      → (h : InterfaceHealth floats) × (fresh_health floats now i s ≡ some h)
  unfolding auto_path_groups
  fresh_in_group i interfaces two m = elim (Bool-cases (ltb (length (candidates interfaces)) 2)) [
    | inl few ↦ absurd (ground (arith, rw few at two))
    | inr several ↦
        (member-fresh_of i (candidates interfaces) (member-healthy_of i _ (rw several at m))).1
  ]

  -- When splitting is ready, every interface carries it: each one has reported within the last 1.5
  -- seconds, has not failed since its last success, and is in the first group.
  pub auto_split_ready-Sound :
      (i : ℕ) (interfaces : List ℕ)
      → auto_split_ready floats now interfaces s ≡ true
      → member i interfaces ≡ true
      → (member i (auto_path_groups floats now interfaces s).0 ≡ true)
        × (member i s.interface_failures ≡ false)
        × ((h : InterfaceHealth floats) × (fresh_health floats now i s ≡ some h))
  unfolding auto_split_ready
  auto_split_ready-Sound i interfaces ready m =
      let groups : List ℕ × List ℕ = auto_path_groups floats now interfaces s in
      let (cover, sound) = auto_path_groups-Cover i interfaces in
      let two : leb 2 (length groups.0) ≡ true = ground arith in
      let here : member i groups.0 ≡ true =
        in_first (member i groups.0) groups.1 (ground arith) (cover m) in
      (here, (sound here).1, fresh_in_group i interfaces two here)
    where
      in_first :
          (b : Bool) (rest : List ℕ) → length rest ≡ 0 → (b || member i rest) ≡ true → b ≡ true
      in_first true rest h k = refl
      in_first false [] h k = unfold member in (unfold member in k)
      in_first false (x ∷ rest) h k = absurd (omega arith)
