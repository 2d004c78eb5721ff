-- ===== src/Grid/Merging/LowLoad.antt =====
-- What holds where the merge policy starts a merge (cmd/grid-manager/cell_load_policy.go:
-- observeMergeCandidates, mergeGroupLowLoad).
use mmo.Prelude.{◌≡◌, true, false, Option, some, List, map, text-Eq, if◌then◌else◌, All, In}
use mmo.Prelude.Text.{Text, trim_space}
use mmo.Prelude.Dict.{Dict, get}
use mmo.Prelude.Result.{Result, ok}
use mmo.Prelude.Float.{Float}
use mmo.Cell.{Bounds, CellSpec}
use mmo.Partition.Merge.{next_level, validate_merge_children}
use mmo.Grid.Policy.{LoadPolicyConfig, PolicySample}
use mmo.Grid.Merging.Leaves.{IsLeafGroup}
use mmo.Grid.Merging.{over}

module _ {F : Type 0} ⦃fl : Float F⦄ (cfg : LoadPolicyConfig F)
    (samples : Dict Text (PolicySample F)) where
  -- A reachable cell with few players, few entities and short ticks.
  record IsLow (ch : CellSpec F) : Type 0 where
    smp : PolicySample F
    sampled : get samples (trim_space ch.id) ≡ some smp
    reachable : smp.reachable ≡ true
    few_players :
        over
          (if cfg.merge_player_handoff
            then cfg.merge_handoff_max_players
            else cfg.merge_max_players)
          smp.players
        ≡ false
    few_entities : over cfg.merge_max_entities smp.entities ≡ false
    short_ticks : over cfg.merge_max_tick_sec smp.tick_sec ≡ false

  -- Four children that pass the check before a merge, each under low load, with no deeper cell of the
  -- catalog below them.
  pub record IsMergeable (cells : List (Option (CellSpec F))) (id : Text) : Type 0 where
    parent : CellSpec F
    bounds : Bounds F
    children : List (CellSpec F)
    listed : In (some parent) cells
    named : trim_space parent.id ≡ id
    bounded : parent.bounds ≡ some bounds
    valid : validate_merge_children (some bounds) parent.level (map some children) ≡ ok tt
    low : All IsLow children
    leaves : IsLeafGroup (next_level parent.level) children cells
