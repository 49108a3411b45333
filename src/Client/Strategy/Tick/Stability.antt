-- ===== src/Client/Strategy/Tick/Stability.antt =====
-- The rounds of `strategy_loop` of crates/client/src/path_strategy.rs: when they split, and that they
-- do not swing back and forth.
use irohsion.Prelude.{
  ℕ, ◌<◌, ◌≡◌, ◌⊎◌, sym, ◌∙◌, refl, ltb, leb, arith, Bool, true, false, not, ◌&&◌, List, Option,
  none, some, inl, inr,
}
use irohsion.Client.Split.{auto, PathStrategy, redundant, round_robin, split}
use irohsion.Client.Strategy.{
  Floats, StrategyState, current, set, fresh_health, degrade_to_redundant,
}
use irohsion.Client.Strategy.Groups.{auto_split_ready, auto_path_groups, fresh_of}
use irohsion.Client.Strategy.Tick.{Thresholds, tick, move_strategy, worst_backlog, splits}

module _ (floats : Floats) (now : ℕ) (t : Thresholds floats) where
  -- Whether splitting is ready does not depend on the strategy.
  ready-set :
      (x : PathStrategy) (s : StrategyState floats)
      → auto_split_ready floats now t.interfaces (set floats x s)
        ≡ auto_split_ready floats now t.interfaces s
  unfolding auto_split_ready auto_path_groups fresh_of fresh_health
  ready-set x s = refl

  -- The rule that a round follows in the automatic mode, on what it knows: whether splitting is
  -- ready, the largest backlog if a queue answered, and whether it splits now.
  abbrev splits_next : Bool → Option ℕ → Bool → Bool
  splits_next ready none splitting = ready
  splits_next ready (some backlog) true = ready && ltb backlog t.degrade_backlog_bytes
  splits_next ready (some backlog) false = ready && leb backlog t.recover_backlog_bytes

  abbrev splitting : StrategyState floats → Bool
  splitting s = splits floats (current floats s)

  abbrev ready : StrategyState floats → Bool
  ready = auto_split_ready floats now t.interfaces

  move_split :
      (s : StrategyState floats) (worst : Option ℕ)
      → s.mode ≡ auto
      → s.strategy ≡ split
      → ready s ≡ true
      → splitting (move_strategy floats now t split worst s) ≡ splits_next true worst true
  unfolding move_strategy degrade_to_redundant current
  move_split s none m q r = ground arith
  move_split s (some b) m q r = ground arith

  move_redundant :
      (s : StrategyState floats) (worst : Option ℕ)
      → s.mode ≡ auto
      → splitting s ≡ false
      → splitting (move_strategy floats now t redundant worst s) ≡ splits_next (ready s) worst false
  unfolding move_strategy current
  move_redundant s none m q = ground arith
  move_redundant s (some b) m q = ground arith

  abbrev worst : List (ℕ × Option ℕ) → Option ℕ
  worst backlogs = worst_backlog none backlogs

  unready_next : (w : Option ℕ) (b : Bool) → splits_next false w b ≡ false
  unready_next none b = refl
  unready_next (some backlog) true = refl
  unready_next (some backlog) false = refl

  degrade_lem :
      (s : StrategyState floats)
      → s.mode ≡ auto
      → s.strategy ≡ split
      → splitting (degrade_to_redundant floats s) ≡ false
  unfolding degrade_to_redundant current
  degrade_lem s m q = ground arith

  current_split :
      (s : StrategyState floats) → s.mode ≡ auto → s.strategy ≡ split → current floats s ≡ split
  unfolding current
  current_split s m q = ground arith

  current_redundant :
      (s : StrategyState floats)
      → s.mode ≡ auto
      → splits floats s.strategy ≡ false
      → current floats s ≡ redundant
  unfolding current
  current_redundant s m q = ground arith

  -- A round that splits now, and one that does not.
  tick-split :
      (backlogs : List (ℕ × Option ℕ)) (s : StrategyState floats)
      → s.mode ≡ auto
      → s.strategy ≡ split
      → splitting (tick floats now t backlogs s)
        ≡ splits_next (ready s) (worst backlogs) (splitting s)
  unfolding tick
  tick-split backlogs s m q = ground (
    arith,
    current_split s m q,
    degrade_lem s m q,
    move_split s (worst backlogs) m q,
    unready_next (worst backlogs) true,
  )

  tick_redundant :
      (backlogs : List (ℕ × Option ℕ)) (s : StrategyState floats)
      → s.mode ≡ auto
      → splits floats s.strategy ≡ false
      → splitting (tick floats now t backlogs s)
        ≡ splits_next (ready s) (worst backlogs) (splitting s)
  unfolding tick
  tick_redundant backlogs s m q =
      ground (arith, current_redundant s m q, move_redundant s (worst backlogs) m)

  -- A round in the automatic mode follows the rule.
  tick-splits_next :
      (backlogs : List (ℕ × Option ℕ)) (s : StrategyState floats)
      → s.mode ≡ auto
      → splitting (tick floats now t backlogs s)
        ≡ splits_next (ready s) (worst backlogs) (splitting s)
  tick-splits_next backlogs s m = by_strategy s.strategy refl
    where
      by_strategy :
          (x : PathStrategy)
          → s.strategy ≡ x
          → splitting (tick floats now t backlogs s)
            ≡ splits_next (ready s) (worst backlogs) (splitting s)
      by_strategy split q = tick-split backlogs s m q
      by_strategy redundant q = tick_redundant backlogs s m (ground arith)
      by_strategy round_robin q = tick_redundant backlogs s m (ground arith)

  tick_shape :
      (backlogs : List (ℕ × Option ℕ)) (s : StrategyState floats)
      → (tick floats now t backlogs s ≡ s)
        ⊎ (tick floats now t backlogs s ≡ set floats split s)
        ⊎ (tick floats now t backlogs s ≡ set floats redundant s)
  unfolding tick move_strategy degrade_to_redundant
  tick_shape backlogs s = by_case (current floats s) (worst backlogs) refl refl
    where
      by_case :
          (x : PathStrategy) (w : Option ℕ)
          → current floats s ≡ x
          → worst backlogs ≡ w
          → (tick floats now t backlogs s ≡ s)
            ⊎ (tick floats now t backlogs s ≡ set floats split s)
            ⊎ (tick floats now t backlogs s ≡ set floats redundant s)
      by_case split none e f = ground arith
      by_case split (some b) e f = ground arith
      by_case redundant none e f = ground arith
      by_case redundant (some b) e f = ground arith
      by_case round_robin w e f = ground arith

  tick_keeps :
      (backlogs : List (ℕ × Option ℕ)) (s : StrategyState floats)
      → ((tick floats now t backlogs s).mode ≡ s.mode)
        × (ready (tick floats now t backlogs s) ≡ ready s)
  tick_keeps backlogs s = elim (tick_shape backlogs s) [
    | inl same ↦ rw same (refl, refl)
    | inr (inl up) ↦ rw up (refl, ready-set split s)
    | inr (inr down) ↦ rw down (refl, ready-set redundant s)
  ]

  settled :
      (r : Bool) (w : Option ℕ) (b : Bool)
      → t.recover_backlog_bytes < t.degrade_backlog_bytes
      → splits_next r w (splits_next r w b) ≡ splits_next r w b
  settled r none b h = refl
  settled false (some backlog) b h = ground (arith, unready_next (some backlog))
  settled true (some backlog) true h = ground arith
  settled true (some backlog) false h = ground arith

  -- With a recovery threshold below the degradation threshold the automatic mode does not swing: a
  -- second round at the same backlogs and the same time decides as the first did.
  pub tick-settles :
      (backlogs : List (ℕ × Option ℕ)) (s : StrategyState floats)
      → s.mode ≡ auto
      → t.recover_backlog_bytes < t.degrade_backlog_bytes
      → splitting (tick floats now t backlogs (tick floats now t backlogs s))
        ≡ splitting (tick floats now t backlogs s)
  tick-settles backlogs s m h =
      let once : StrategyState floats = tick floats now t backlogs s in
      let (mode, same) = tick_keeps backlogs s in
      let first = tick-splits_next backlogs s m in
      let second = tick-splits_next backlogs once (mode ∙ m) in
      let next : splitting (tick floats now t backlogs once)
          ≡ splits_next (ready s) (worst backlogs)
              (splits_next (ready s) (worst backlogs) (splitting s)) =
        second ∙ cc (same, first) in
      next ∙ settled (ready s) (worst backlogs) (splitting s) h ∙ sym first

  -- With equal thresholds, which the command line allows, it does: at a backlog that equals both, and
  -- with splitting ready, every round decides against the one before.
  pub tick-swings :
      (backlogs : List (ℕ × Option ℕ)) (s : StrategyState floats) (backlog : ℕ)
      → s.mode ≡ auto
      → ready s ≡ true
      → worst backlogs ≡ some backlog
      → t.degrade_backlog_bytes ≡ backlog
      → t.recover_backlog_bytes ≡ backlog
      → splitting (tick floats now t backlogs s) ≡ not (splitting s)
  tick-swings backlogs s backlog m r w d e =
      tick-splits_next backlogs s m ∙ rw (r, w) (swing (splitting s))
    where
      swing : (b : Bool) → splits_next true (some backlog) b ≡ not b
      swing true = ground arith
      swing false = ground arith
