-- ===== src/Client/Strategy/Weights.antt =====
-- The weights of the paths in crates/client/src/path_strategy.rs: `split_weights`,
-- `auto_split_weights`, `zero_failed_weights` and `active_split_weights`.
use irohsion.Prelude.{
  ℕ, ◌-◌, ◌≡◌, refl, ◌∙◌, ◌==◌, if◌then◌else◌, arith, ◌&&◌, List, [], ◌∷◌, map, Option, none, some,
  length, Bool-cases, inl, inr,
}
use irohsion.Prelude.Map.{lookup, insert, member}
use irohsion.Client.Strategy.{Floats, StrategyState, is_auto, fresh_health}
use irohsion.Client.Strategy.Groups.{newer, auto_split_degrade_lag_packets}

module _ (floats : Floats) where
  abbrev zero_float : floats.F
  zero_float = floats.ratio 0 1

  -- `.sum::<f64>()`, from the left.
  unfoldable pub sum_float : floats.F → List floats.F → floats.F
  sum_float total [] = total
  sum_float total (w ∷ ws) = sum_float (floats.add total w) ws

  abbrev total_of : List floats.F → floats.F
  total_of = sum_float zero_float

  unfoldable pub normalize_weights_with_fallback :
      List floats.F → floats.F → floats.F → List floats.F
  normalize_weights_with_fallback weights fallback total =
      if floats.less_eq total floats.epsilon
      then map (λ w. fallback) weights
      else map (λ w. floats.div w total) weights

  -- `1.0 / len as f64`, 0 for none.
  abbrev even_of : ℕ → floats.F
  even_of count =
      if count == 0 then zero_float else floats.div (floats.ratio 1 1) (floats.of_count count)

  unfoldable pub normalize_weights : List floats.F → List floats.F
  unfolding sum_float normalize_weights_with_fallback
  normalize_weights weights =
      normalize_weights_with_fallback weights (even_of (length weights)) (total_of weights)

  -- The weight that is configured for an interface.
  abbrev weight_or : floats.F → Option (Option floats.F) → floats.F
  weight_or even none = even
  weight_or even (some none) = even
  weight_or even (some (some percentage)) =
      floats.div (floats.clamp_float zero_float (floats.ratio 100 1) percentage)
        (floats.ratio 100 1)

  unfoldable pub split_weights : List ℕ → StrategyState floats → List floats.F
  unfolding sum_float normalize_weights_with_fallback
  split_weights interfaces s =
      let even = even_of (length interfaces) in
      let weights = map (λ i. weight_or even (lookup i s.split_percentages)) interfaces in
      normalize_weights_with_fallback weights even (total_of weights)

  unfoldable pub blended_auto_weight : floats.wire.F → floats.F → floats.F → floats.F
  blended_auto_weight server_mbps average lag_penalty =
      let throughput_ratio =
        if floats.less_eq average floats.epsilon
        then floats.ratio 1 1
        else floats.clamp_float (floats.ratio 25 100) (floats.ratio 2 1)
            (floats.div (floats.widen (floats.max32 server_mbps floats.zero32)) average) in
      let score =
        floats.add (floats.sub (floats.ratio 1 1) (floats.ratio 25 100))
          (floats.mul (floats.ratio 25 100) throughput_ratio) in
      floats.max_float (floats.mul score lag_penalty) (floats.ratio 1 100)

  -- The largest last sequence of all interfaces, also of those whose health is stale.
  unfoldable pub best_known : StrategyState floats → List ℕ → Option ℕ
  best_known s [] = none
  best_known s (i ∷ rest) = elim (lookup i s.health_by_interface) [
    | none ↦ best_known s rest
    | some h ↦ newer h.last_seq (best_known s rest)
  ]

  -- The rates of the interfaces that have not failed and whose health is fresh.
  unfoldable pub fresh_mbps : ℕ → StrategyState floats → List ℕ → List floats.F
  fresh_mbps now s [] = []
  fresh_mbps now s (i ∷ rest) =
      let later = fresh_mbps now s rest in
      if member i s.interface_failures then later else elim (fresh_health floats now i s) [
        | none ↦ later
        | some h ↦ floats.widen (floats.max32 h.server_mbps floats.zero32) ∷ later
      ]

  abbrev average_of : List floats.F → floats.F
  average_of [] = zero_float
  average_of (r ∷ rs) = floats.div (total_of (r ∷ rs)) (floats.of_count (length (r ∷ rs)))

  unfoldable pub lag_penalty : Option ℕ → Option ℕ → floats.F
  lag_penalty (some best) (some seq) = floats.clamp_float (floats.ratio 35 100) (floats.ratio 1 1) (
      floats.sub (floats.ratio 1 1) (
        floats.div (floats.of_count (best - seq)) (floats.of_count auto_split_degrade_lag_packets)))
  lag_penalty (some best) none = floats.ratio 1 1
  lag_penalty none seq = floats.ratio 1 1

  unfoldable pub raw_weight : ℕ → StrategyState floats → Option ℕ → floats.F → ℕ → floats.F
  unfolding lag_penalty blended_auto_weight
  raw_weight now s best average i =
      if member i s.interface_failures then zero_float else elim (fresh_health floats now i s) [
        | none ↦ floats.ratio 1 100
        | some h ↦ blended_auto_weight h.server_mbps average (lag_penalty best h.last_seq)
      ]

  unfoldable pub auto_split_weights : ℕ → List ℕ → StrategyState floats → List floats.F
  unfolding raw_weight best_known fresh_mbps normalize_weights
  auto_split_weights now [] s = []
  auto_split_weights now (i ∷ rest) s = normalize_weights (
      map (raw_weight now s (best_known s (i ∷ rest)) (average_of (fresh_mbps now s (i ∷ rest))))
        (i ∷ rest))

  -- The loop over the zipped interfaces and weights.
  unfoldable pub zero_failed : List ℕ → List ℕ → List floats.F → List floats.F
  zero_failed failed (i ∷ is) (w ∷ ws) =
      (if member i failed then zero_float else w) ∷ zero_failed failed is ws
  zero_failed failed [] ws = ws
  zero_failed failed (i ∷ is) [] = []

  unfoldable pub zero_failed_weights : List ℕ → List floats.F → StrategyState floats → List floats.F
  unfolding zero_failed sum_float
  zero_failed_weights interfaces weights s =
      let kept = zero_failed s.interface_failures interfaces weights in
      if floats.less_eq (total_of kept) floats.epsilon
      then kept
      else map (λ w. floats.div w (total_of kept)) kept

  unfoldable pub active_split_weights : ℕ → List ℕ → StrategyState floats → List floats.F
  unfolding auto_split_weights split_weights zero_failed_weights
  active_split_weights now interfaces s =
      zero_failed_weights interfaces
        (if is_auto floats s.mode && s.weighted_auto_split
          then auto_split_weights now interfaces s
          else split_weights interfaces s)
        s

  -- The map that the zipped interfaces and percentages are collected into: the last of a name wins.
  unfoldable pub collect : List ℕ → List floats.F → List (ℕ × floats.F) → List (ℕ × floats.F)
  collect (i ∷ is) (w ∷ ws) m = collect is ws (insert i (floats.mul w (floats.ratio 100 1)) m)
  collect [] ws m = m
  collect (i ∷ is) [] m = m

  unfoldable pub effective_split_percentages_for :
      ℕ → List ℕ → StrategyState floats → List (ℕ × floats.F)
  unfolding active_split_weights collect
  effective_split_percentages_for now interfaces s =
      collect interfaces (active_split_weights now interfaces s) []

  length-map : {A : Type 0} (f : A → floats.F) (xs : List A) → length (map f xs) ≡ length xs
  length-map f [] = refl
  length-map f (x ∷ xs) = omega (arith, length-map f xs)

  length-normalize :
      (ws : List floats.F) (fallback total : floats.F)
      → length (normalize_weights_with_fallback ws fallback total) ≡ length ws
  unfolding normalize_weights_with_fallback
  length-normalize ws fallback total = elim (Bool-cases (floats.less_eq total floats.epsilon)) [
    | inl small ↦ rw small (length-map (λ w. fallback) ws)
    | inr large ↦ rw large (length-map (λ w. floats.div w total) ws)
  ]

  length-auto :
      (now : ℕ) (is : List ℕ) (s : StrategyState floats)
      → length (auto_split_weights now is s) ≡ length is
  unfolding auto_split_weights normalize_weights
  length-auto now [] s = refl
  length-auto now (i ∷ is) s =
      let raw : ℕ → floats.F =
        raw_weight now s (best_known s (i ∷ is)) (average_of (fresh_mbps now s (i ∷ is))) in
      length-normalize (map raw (i ∷ is)) (even_of (length (map raw (i ∷ is))))
        (total_of (map raw (i ∷ is)))
      ∙ length-map raw (i ∷ is)

  length-split : (is : List ℕ) (s : StrategyState floats) → length (split_weights is s) ≡ length is
  unfolding split_weights
  length-split is s =
      let weight : ℕ → floats.F =
        λ (i : ℕ). weight_or (even_of (length is)) (lookup i s.split_percentages) in
      length-normalize (map weight is) (even_of (length is)) (total_of (map weight is))
      ∙ length-map weight is

  length-zero_failed :
      (failed is : List ℕ) (ws : List floats.F)
      → length ws ≡ length is
      → length (zero_failed failed is ws) ≡ length is
  unfolding zero_failed
  length-zero_failed failed [] ws h = h
  length-zero_failed failed (i ∷ is) [] h = absurd (omega arith)
  length-zero_failed failed (i ∷ is) (w ∷ ws) h =
      omega (arith, length-zero_failed failed is ws (omega arith))

  length-zero_failed_weights :
      (is : List ℕ) (ws : List floats.F) (s : StrategyState floats)
      → length ws ≡ length is
      → length (zero_failed_weights is ws s) ≡ length is
  unfolding zero_failed_weights
  length-zero_failed_weights is ws s h =
      let kept = zero_failed s.interface_failures is ws in
      elim (Bool-cases (floats.less_eq (total_of kept) floats.epsilon)) [
        | inl small ↦ rw small (length-zero_failed s.interface_failures is ws h)
        | inr large ↦ rw large (length-map _ kept ∙ length-zero_failed s.interface_failures is ws h)
      ]

  -- Each interface has one weight, in every mode and whatever its health.
  pub length-active_split_weights :
      (now : ℕ) (is : List ℕ) (s : StrategyState floats)
      → length (active_split_weights now is s) ≡ length is
  unfolding active_split_weights
  length-active_split_weights now is s =
      elim (Bool-cases (is_auto floats s.mode && s.weighted_auto_split)) [
        | inl weighted ↦ rw weighted (length-zero_failed_weights is _ s (length-auto now is s))
        | inr even ↦ rw even (length-zero_failed_weights is _ s (length-split is s))
      ]
