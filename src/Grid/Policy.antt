-- ===== src/Grid/Policy.antt =====
-- The load policy of one round of probes (cmd/grid-manager/cell_load_policy.go: cellPolicyState,
-- loadPolicyConfig, policySample, observe, forget). A time is a reading of the monotonic clock in
-- nanoseconds, and none is Go's zero time. Logs and metrics are left out; what a call does outside
-- its own state is a list of effects.
pub mod Window
pub mod Sustained
pub mod Live
use mmo.Prelude.{
  ℕ, ◌+◌, Bool, true, false, not, ◌&&◌, ◌||◌, Option, none, some, List, [], ◌∷◌, ◌++◌, text-Eq,
  if◌then◌else◌, ltb,
}
use mmo.Prelude.Int.{ℤ, pos}
use mmo.Prelude.Text.{Text}
use mmo.Prelude.Dict.{Dict, get, put, remove}

pub record LoadPolicyConfig (F : Type 0) : Type 0 where
  pub min_breach_duration : ℕ
  pub cooldown : ℕ
  pub auto_split_drain : Bool
  pub auto_merge_workflow : Bool
  pub merge_player_handoff : Bool
  pub merge_low_load_for : ℤ
  pub merge_cooldown : ℤ
  pub merge_max_players : F
  pub merge_handoff_max_players : F
  pub merge_max_entities : F
  pub merge_max_tick_sec : F

pub record CellPolicyState : Type 0 where
  pub breach_since : Option ℕ
  pub last_action : Option ℕ

pub record PolicySample (F : Type 0) : Type 0 where
  pub cell_id : Text
  pub endpoint : Text
  pub level : ℤ  -- int32
  pub reachable : Bool
  pub players : F
  pub entities : F
  pub tick_sec : F
  pub violations : Dict Text Bool

pub data PolicyAction : Type 0 where
  log_only : PolicyAction
  split_drain_enable : PolicyAction
  merge_start : PolicyAction

pub record LoadPolicyEvent (F : Type 0) : Type 0 where
  pub cell_id : Text
  pub action : PolicyAction
  pub reachable : Bool
  pub players : F
  pub entities : F
  pub tick_seconds : F
  pub violations : Dict Text Bool
  pub min_breach_duration : ℤ
  pub cooldown : ℤ
  pub at : ℕ

-- What the policy asks of others: Update on a cell, a split or a merge workflow, an event on the bus.
pub data Effect (F : Type 0) : Type 0 where
  set_cell_split_drain : Text → Bool → Effect F
  split_maybe_start : Text → Effect F
  merge_maybe_start : Text → Effect F
  publish : LoadPolicyEvent F → Effect F

-- Where a map has no entry Go reads the zero state.
abbrev pub state_or_zero : Option CellPolicyState → CellPolicyState
state_or_zero none = record { breach_since = none; last_action = none }
state_or_zero (some st) = st

-- Whether less than a duration has passed since a time that is set.
abbrev pub recent : ℕ → ℕ → Option ℕ → Bool
recent duration now none = false
recent duration now (some t) = ltb now (t + duration)

module _ {F : Type 0} where
  -- The state of the cell after a sample, and whether the policy acts.
  abbrev pub breached : LoadPolicyConfig F → ℕ → CellPolicyState → Option ℕ → CellPolicyState × Bool
  breached cfg now st none = (record st { breach_since = some now }, false)
  breached cfg now st (some since) =
      if ltb now (since + cfg.min_breach_duration)
      then (st, false)
      else if recent cfg.cooldown now st.last_action
      then (st, false)
      else (record st { last_action = some now }, true)

  abbrev pub decide : LoadPolicyConfig F → ℕ → CellPolicyState → Bool → CellPolicyState × Bool
  decide cfg now st true = (record st { breach_since = none }, false)
  decide cfg now st false = breached cfg now st st.breach_since

  abbrev pub event_of : LoadPolicyConfig F → ℕ → PolicySample F → PolicyAction → LoadPolicyEvent F
  event_of cfg now sample action = record {
    cell_id = sample.cell_id;
    action = action;
    reachable = sample.reachable;
    players = sample.players;
    entities = sample.entities;
    tick_seconds = sample.tick_sec;
    violations = sample.violations;
    min_breach_duration = pos cfg.min_breach_duration;
    cooldown = pos cfg.cooldown;
    at = now;
  }

  -- The action that drains the cell. The first argument is the split workflow's cfg.enabled, none
  -- where there is no workflow; the second says whether the call that sets the drain fails.
  abbrev pub drain_with : Option Bool → Bool → PolicySample F → LoadPolicyEvent F → List (Effect F)
  drain_with none fails sample event =
      set_cell_split_drain sample.endpoint true ∷ publish event ∷ []
  drain_with (some true) fails sample event = split_maybe_start sample.cell_id ∷ publish event ∷ []
  drain_with (some false) true sample event =
      set_cell_split_drain sample.endpoint true ∷ publish event ∷ []
  drain_with (some false) false sample event =
      set_cell_split_drain sample.endpoint true
      ∷ split_maybe_start sample.cell_id
      ∷ publish event
      ∷ []

  unfoldable pub act :
      LoadPolicyConfig F → Option Bool → (Text → Bool) → ℕ → PolicySample F → List (Effect F)
  act cfg split drain_fails now sample =
      if cfg.auto_split_drain && sample.reachable
      then drain_with split (drain_fails sample.endpoint) sample
          (event_of cfg now sample split_drain_enable)
      else publish (event_of cfg now sample log_only) ∷ []

  unfoldable pub observe :
      LoadPolicyConfig F
      → Option Bool
      → (Text → Bool)
      → ℕ
      → Dict Text CellPolicyState
      → PolicySample F
      → Bool
      → Dict Text CellPolicyState × List (Effect F)
  observe cfg split drain_fails now state sample within =
      let (st, acts) = decide cfg now (state_or_zero (get state sample.cell_id)) within in
      (put state sample.cell_id st, if acts then act cfg split drain_fails now sample else [])

unfoldable pub forget : Dict Text CellPolicyState → Text → Dict Text CellPolicyState
forget state cell_id = remove state cell_id
