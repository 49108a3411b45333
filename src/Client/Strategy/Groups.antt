-- ===== src/Client/Strategy/Groups.antt =====
-- `auto_path_groups` and `auto_split_ready` of crates/client/src/path_strategy.rs.
pub mod Cover
use irohsion.Prelude.{
  ℕ, ◌+◌, ◌-◌, ◌≡◌, ◌==◌, if◌then◌else◌, ltb, leb, Bool, true, false, not, ◌&&◌, List, [], ◌∷◌,
  ◌++◌, map, Option, none, some, length, max,
}
use irohsion.Prelude.Map.{lookup, member}
use irohsion.Client.Strategy.{Floats, InterfaceHealth, StrategyState, fresh_health}

abbrev pub auto_split_degrade_lag_packets : ℕ
auto_split_degrade_lag_packets = 120

-- `filter`, by the answer that keeps an item.
unfoldable pub keep {ℓ} : {A : Type ℓ} → (A → Bool) → List A → List A
keep p [] = []
keep p (x ∷ xs) = let rest = keep p xs in if p x then x ∷ rest else rest

abbrev pub newer : Option ℕ → Option ℕ → Option ℕ
newer none b = b
newer (some a) none = some a
newer (some a) (some b) = some (max a b)

module _ (floats : Floats) where
  -- `.filter_map(|state| state.last_seq).max()`
  unfoldable pub best_seq : List (InterfaceHealth floats) → Option ℕ
  best_seq [] = none
  best_seq (h ∷ hs) = newer h.last_seq (best_seq hs)

  -- `.sum::<f32>()`, from the left.
  unfoldable pub sum_mbps : floats.wire.F → List (InterfaceHealth floats) → floats.wire.F
  sum_mbps total [] = total
  sum_mbps total (h ∷ hs) = sum_mbps (floats.add32 total h.server_mbps) hs

  -- `.sum::<f32>() / len as f32`
  abbrev pub average_mbps : List (InterfaceHealth floats) → floats.wire.F
  average_mbps states = floats.div_count32 (sum_mbps floats.zero32 states) (length states)

  -- The interfaces with fresh health, in order.
  unfoldable pub fresh_of : ℕ → StrategyState floats → List ℕ → List (ℕ × InterfaceHealth floats)
  fresh_of now s [] = []
  fresh_of now s (interface ∷ rest) =
      let later = fresh_of now s rest in
      elim (fresh_health floats now interface s) [
        | none ↦ later
        | some health ↦ (interface, health) ∷ later
      ]

  unfoldable pub path_health_allows_split : ℕ → floats.wire.F → InterfaceHealth floats → Bool
  path_health_allows_split best_last_seq average health = elim health.last_seq [
    | none ↦ false
    | some last_seq ↦
        if ltb auto_split_degrade_lag_packets (best_last_seq - last_seq)
        then false
        else if floats.less32 average (floats.ratio32 25 100)
        then true
        else floats.less_eq32
            (floats.max32 (floats.mul32 average (floats.ratio32 15 100)) (floats.ratio32 5 100))
            health.server_mbps
  ]

  -- The interfaces that may carry split traffic: those of the fresh ones that are allowed to, if one
  -- of the fresh ones has a sequence.
  unfoldable pub healthy_of : List (ℕ × InterfaceHealth floats) → List ℕ
  unfolding best_seq sum_mbps path_health_allows_split keep
  healthy_of fresh =
      let states = map (λ f. f.1) fresh in
      elim (best_seq states) [
        | none ↦ []
        | some best ↦
            map (λ f. f.0)
              (keep (λ f. path_health_allows_split best (average_mbps states) f.1) fresh)
      ]

  unfoldable pub auto_path_groups : ℕ → List ℕ → StrategyState floats → List ℕ × List ℕ
  unfolding keep healthy_of fresh_of
  auto_path_groups now interfaces s =
      let degraded = keep (λ i. member i s.interface_failures) interfaces in
      let candidates = keep (λ i. not (member i s.interface_failures)) interfaces in
      if ltb (length candidates) 2
      then (candidates, degraded ++ candidates)
      else let healthy = healthy_of (fresh_of now s candidates) in
        (healthy, degraded ++ keep (λ i. not (member i healthy)) candidates)

  unfoldable pub auto_split_ready : ℕ → List ℕ → StrategyState floats → Bool
  auto_split_ready now interfaces s =
      let groups = auto_path_groups now interfaces s in
      leb 2 (length groups.0) && length groups.1 == 0
