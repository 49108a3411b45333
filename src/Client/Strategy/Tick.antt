-- ===== src/Client/Strategy/Tick.antt =====
-- One round of `strategy_loop` of crates/client/src/path_strategy.rs: the queues' backlogs, the resets
-- of queues, and the move between splitting and sending redundantly.
pub mod Stability
use irohsion.Prelude.{
  ℕ, ◌+◌, ◌-◌, ◌≤◌, ◌<◌, ◌≡◌, ◌==◌, if◌then◌else◌, ltb, leb, Bool, true, false, not, ◌&&◌, ◌||◌,
  List, [], ◌∷◌, ◌++◌, map, Option, none, some, length,
}
use irohsion.Prelude.Map.{lookup, insert}
use irohsion.Client.Split.{PathStrategy, redundant, round_robin, split}
use irohsion.Client.Strategy.{
  Floats, InterfaceHealth, StrategyState, current, is_auto, set, degrade_to_redundant, fresh_health,
}
use irohsion.Client.Strategy.Groups.{auto_split_ready}

-- The largest backlog, the first of equal ones. An interface whose queue does not answer has `none`.
unfoldable pub worst_backlog : Option ℕ → List (ℕ × Option ℕ) → Option ℕ
worst_backlog worst [] = worst
worst_backlog worst ((interface, none) ∷ rest) = worst_backlog worst rest
worst_backlog none ((interface, some backlog) ∷ rest) = worst_backlog (some backlog) rest
worst_backlog (some existing) ((interface, some backlog) ∷ rest) =
    worst_backlog (some (if ltb existing backlog then backlog else existing)) rest

module _ (floats : Floats) where
  pub record QdiscResetConfig : Type 0 where
    pub backlog_bytes : ℕ
    pub max_server_mbps : floats.wire.F
    pub cooldown : ℕ

  pub record Thresholds : Type 0 where
    pub interfaces : List ℕ
    pub degrade_backlog_bytes : ℕ
    pub recover_backlog_bytes : ℕ
    pub qdisc_reset : Option QdiscResetConfig

  unfoldable pub qdisc_reset_should_run :
      ℕ → Option (InterfaceHealth floats) → QdiscResetConfig → Bool
  qdisc_reset_should_run backlog none config = false
  qdisc_reset_should_run backlog (some health) config =
      leb config.backlog_bytes backlog && floats.less_eq32 health.server_mbps config.max_server_mbps

  abbrev cooling : ℕ → ℕ → Option ℕ → Bool
  cooling now cooldown none = false
  cooling now cooldown (some last) = ltb (now - last) cooldown

  -- The loop over the backlogs: the times of the last resets, and the interfaces to reset.
  unfoldable pub reset_queues :
      ℕ
      → StrategyState floats
      → QdiscResetConfig
      → List (ℕ × Option ℕ)
      → List (ℕ × ℕ)
      → List (ℕ × ℕ) × List ℕ
  unfolding qdisc_reset_should_run
  reset_queues now s config [] last = (last, [])
  reset_queues now s config ((interface, none) ∷ rest) last = reset_queues now s config rest last
  reset_queues now s config ((interface, some backlog) ∷ rest) last =
      let due =
        qdisc_reset_should_run backlog (fresh_health floats now interface s) config
        && not (cooling now config.cooldown (lookup interface last)) in
      let later =
        reset_queues now s config rest (if due then insert interface now last else last) in
      (later.0, if due then interface ∷ later.1 else later.1)

  -- The `match` at the end of the loop.
  unfoldable pub move_strategy :
      ℕ → Thresholds → PathStrategy → Option ℕ → StrategyState floats → StrategyState floats
  unfolding degrade_to_redundant
  move_strategy now t split (some backlog) s =
      if leb t.degrade_backlog_bytes backlog then degrade_to_redundant floats s else s
  move_strategy now t redundant (some backlog) s =
      if leb backlog t.recover_backlog_bytes && auto_split_ready floats now t.interfaces s
      then set floats split s
      else s
  move_strategy now t redundant none s =
      if auto_split_ready floats now t.interfaces s then set floats split s else s
  move_strategy now t split none s = s
  move_strategy now t round_robin worst s = s

  abbrev pub splits : PathStrategy → Bool
  splits split = true
  splits redundant = false
  splits round_robin = false

  -- What a round makes of the strategy, after the queues have been reset.
  unfoldable pub tick :
      ℕ → Thresholds → List (ℕ × Option ℕ) → StrategyState floats → StrategyState floats
  unfolding worst_backlog move_strategy current
  tick now t backlogs s =
      if not (is_auto floats s.mode)
      then s
      else if splits (current floats s) && not (auto_split_ready floats now t.interfaces s)
      then degrade_to_redundant floats s
      else move_strategy now t (current floats s) (worst_backlog none backlogs) s
