-- ===== src/Grid/Merging.antt =====
-- The merge policy of one round of probes (cmd/grid-manager/cell_load_policy.go:
-- observeMergeCandidates, mergeGroupLowLoad). The list of child ids that is only logged is left out.
pub mod Leaves
pub mod LowLoad
pub mod Seen
use mmo.Prelude.{
  ℕ, Bool, true, false, not, ◌&&◌, ◌||◌, Option, none, some, List, [], ◌∷◌, ◌++◌, text-Eq, ◌==◌,
  if◌then◌else◌,
}
use mmo.Prelude.Int.{ℤ, sub_ℕ, ltb_ℤ, leb_ℤ, eqb_ℤ}
use mmo.Prelude.Text.{Text, codes, trim_space, is_empty}
use mmo.Prelude.Dict.{Dict, Set, get, put, has, is_some}
use mmo.Prelude.Result.{Result, ok, err, ◌>>=◌, ◌>>◌, fail_if}
use mmo.Prelude.Float.{Float}
use mmo.Cell.{Bounds, CellSpec}
use mmo.Partition.Path.{cell_path_level, is_descendant_path}
use mmo.Partition.Merge.{MergeError, next_level, catalog_merge_children}
use mmo.Grid.Policy.{
  LoadPolicyConfig, CellPolicyState, PolicySample, Effect, merge_maybe_start, publish, merge_start,
  state_or_zero,
}

pub data Reason : Type 0 where
  child_id_empty : Reason
  child_missing : Reason
  child_level_mismatch : Reason
  child_unreachable : Reason
  players_high : Reason
  players_high_for_handoff : Reason
  entities_high : Reason
  tick_high : Reason
  players_total_high_for_handoff : Reason
  child_has_descendants : Reason

-- now.Sub(t) < d, for a d that may be negative
abbrev pub younger : ℤ → ℕ → ℕ → Bool
younger d now t = ltb_ℤ (sub_ℕ now t) d

abbrev cooling : ℤ → ℕ → Option ℕ → Bool
cooling d now none = false
cooling d now (some t) = younger d now t

-- Whether a child id is a path of the level, and the cell lies below it.
abbrev pub covers : ℤ → Text → Text → Bool
covers child_level id child_id = elim (cell_path_level child_id) [
  | none ↦ false
  | some cl ↦ eqb_ℤ cl child_level && is_descendant_path child_id id
]

unfoldable pub any_covers : ℤ → Text → List Text → Bool
any_covers child_level id [] = false
any_covers child_level id (c ∷ ids) = covers child_level id c || any_covers child_level id ids

abbrev pub below_any : ℤ → List Text → Text → Option ℤ → Bool
below_any child_level ids id none = false
below_any child_level ids id (some lv) =
    if leb_ℤ lv child_level then false else any_covers child_level id ids

-- The last loop: the parents that this round has not seen are dropped.
unfoldable pub drop_unseen : Set Text → Dict Text CellPolicyState → Dict Text CellPolicyState
drop_unseen seen [] = []
drop_unseen seen ((id, st) ∷ mg) =
    let rest = drop_unseen seen mg in if has seen id then (id, st) ∷ rest else rest

module _ {F : Type 0} where
  -- The last loop: a cell of the catalog below a child.
  unfoldable pub has_descendants : ℤ → List Text → List (Option (CellSpec F)) → Bool
  has_descendants child_level ids [] = false
  has_descendants child_level ids (none ∷ cells) = has_descendants child_level ids cells
  has_descendants child_level ids (some c ∷ cells) =
      let id = trim_space c.id in
      below_any child_level ids id (cell_path_level id) || has_descendants child_level ids cells

  abbrev pub check_spec : ℤ → Option (CellSpec F) → Result Reason (Unit {0})
  check_spec child_level none = err child_missing
  check_spec child_level (some spec) =
      fail_if (not (is_some spec.bounds)) child_missing
      >> fail_if (not (eqb_ℤ spec.level child_level)) child_level_mismatch

  -- specByID
  unfoldable pub specs_by_id :
      List (Option (CellSpec F)) → Dict Text (CellSpec F) → Dict Text (CellSpec F)
  specs_by_id [] specs = specs
  specs_by_id (none ∷ cells) specs = specs_by_id cells specs
  specs_by_id (some c ∷ cells) specs = specs_by_id cells (put specs (trim_space c.id) c)

module _ {F : Type 0} ⦃fl : Float F⦄ where
  -- A limit that is set, and that the value is over.
  abbrev pub over : F → F → Bool
  over limit value = fl.le (fl.num 0) limit && fl.lt limit value

  abbrev pub check_players : LoadPolicyConfig F → PolicySample F → Result Reason (Unit {0})
  check_players cfg smp =
      if not cfg.merge_player_handoff
      then fail_if (over cfg.merge_max_players smp.players) players_high
      else fail_if (over cfg.merge_handoff_max_players smp.players) players_high_for_handoff

  abbrev pub check_sample :
      LoadPolicyConfig F → Option (PolicySample F) → Result Reason (PolicySample F)
  check_sample cfg none = err child_unreachable
  check_sample cfg (some smp) =
      fail_if (not smp.reachable) child_unreachable
      >> (check_players cfg smp
          >> (fail_if (over cfg.merge_max_entities smp.entities) entities_high
              >> (fail_if (over cfg.merge_max_tick_sec smp.tick_sec) tick_high >> ok smp)))

  -- The loop over the children, with the totals so far.
  unfoldable pub sum_children :
      LoadPolicyConfig F
      → Dict Text (CellSpec F)
      → Dict Text (PolicySample F)
      → ℤ
      → List (CellSpec F)
      → F
      → F
      → Result Reason (List Text × F × F)
  sum_children cfg specs samples child_level [] players entities = ok ([], players, entities)
  sum_children cfg specs samples child_level (ch ∷ children) players entities =
      let id = trim_space ch.id in
      let next = λ (smp : PolicySample F).
        sum_children cfg specs samples child_level children (fl.add players smp.players)
          (fl.add entities smp.entities) in
      fail_if (is_empty id) child_id_empty
      >> (check_spec child_level (get specs id)
          >> (check_sample cfg (get samples id) >>= λ smp.
              next smp >>= λ out. ok (id ∷ out.0, out.1, out.2)))

  abbrev pub check_group :
      LoadPolicyConfig F
      → List (Option (CellSpec F))
      → ℤ
      → List Text × F × F
      → Result Reason (F × F)
  check_group cfg cells child_level (ids, players, entities) =
      fail_if (cfg.merge_player_handoff && over cfg.merge_handoff_max_players players)
        players_total_high_for_handoff
      >> (fail_if (has_descendants child_level ids cells) child_has_descendants
          >> ok (players, entities))

  unfoldable pub merge_group_low_load :
      LoadPolicyConfig F
      → List (Option (CellSpec F))
      → Dict Text (CellSpec F)
      → Dict Text (PolicySample F)
      → ℤ
      → List (CellSpec F)
      → Result Reason (F × F)
  merge_group_low_load cfg cells specs samples parent_level children =
      let child_level = next_level parent_level in
      sum_children cfg specs samples child_level children (fl.num 0) (fl.num 0)
      >>= check_group cfg cells child_level

  -- The state of a parent whose group is under low load, and whether the merge starts.
  abbrev pub low_since :
      LoadPolicyConfig F → ℕ → CellPolicyState → Option ℕ → CellPolicyState × Bool
  low_since cfg now st none = (record st { breach_since = some now }, false)
  low_since cfg now st (some since) =
      if younger cfg.merge_low_load_for now since
      then (st, false)
      else if cooling cfg.merge_cooldown now st.last_action
      then (st, false)
      else (record st { last_action = some now; breach_since = none }, true)

  abbrev pub merge_effects : LoadPolicyConfig F → ℕ → Text → F → F → Bool → List (Effect F)
  merge_effects cfg now parent_id players entities false = []
  merge_effects cfg now parent_id players entities true =
      merge_maybe_start parent_id
      ∷ publish (record {
        cell_id = parent_id;
        action = merge_start;
        reachable = true;
        players = players;
        entities = entities;
        tick_seconds = fl.num 0;
        violations = (codes "unreachable", false) ∷ [];
        min_breach_duration = cfg.merge_low_load_for;
        cooldown = cfg.merge_cooldown;
        at = now;
      })
      ∷ []

  abbrev pub after_low_load :
      LoadPolicyConfig F
      → ℕ
      → Text
      → CellPolicyState
      → Result Reason (F × F)
      → CellPolicyState × List (Effect F)
  after_low_load cfg now parent_id st (err reason) = (record st { breach_since = none }, [])
  after_low_load cfg now parent_id st (ok (players, entities)) =
      let (next, starts) = low_since cfg now st st.breach_since in
      (next, merge_effects cfg now parent_id players entities starts)

  abbrev pub after_children :
      LoadPolicyConfig F
      → ℕ
      → List (Option (CellSpec F))
      → Dict Text (PolicySample F)
      → CellSpec F
      → CellPolicyState
      → Result MergeError (List (CellSpec F))
      → CellPolicyState × List (Effect F)
  after_children cfg now cells samples parent st (err e) = (record st { breach_since = none }, [])
  after_children cfg now cells samples parent st (ok children) =
      after_low_load cfg now (trim_space parent.id) st
        (merge_group_low_load cfg cells (specs_by_id cells []) samples parent.level children)

  -- The state of a parent after the round, and what the policy asks for.
  unfoldable pub observe_parent :
      LoadPolicyConfig F
      → ℕ
      → List (Option (CellSpec F))
      → Dict Text (PolicySample F)
      → CellSpec F
      → CellPolicyState
      → CellPolicyState × List (Effect F)
  observe_parent cfg now cells samples parent st =
      after_children cfg now cells samples parent st (catalog_merge_children (some parent) cells)

  -- The loop over the parents, with the states and the parents seen so far.
  unfoldable pub observe_parents :
      LoadPolicyConfig F
      → ℕ
      → List (Option (CellSpec F))
      → Dict Text (PolicySample F)
      → List (Option (CellSpec F))
      → Dict Text CellPolicyState
      → Set Text
      → Dict Text CellPolicyState × Set Text × List (Effect F)
  observe_parents cfg now cells samples [] mg seen = (mg, seen, [])
  observe_parents cfg now cells samples (none ∷ parents) mg seen =
      observe_parents cfg now cells samples parents mg seen
  observe_parents cfg now cells samples (some parent ∷ parents) mg seen =
      let id = trim_space parent.id in
      let skipped = observe_parents cfg now cells samples parents mg seen in
      let (st, effects) = observe_parent cfg now cells samples parent (state_or_zero (get mg id)) in
      let (mg', seen', later) =
        observe_parents cfg now cells samples parents (put mg id st) (put seen id tt) in
      if not (is_some parent.bounds) || is_empty id then skipped else (mg', seen', effects ++ later)

  unfoldable pub observe_merge_candidates :
      LoadPolicyConfig F
      → Bool
      → ℕ
      → Dict Text CellPolicyState
      → List (Option (CellSpec F))
      → Dict Text (PolicySample F)
      → Dict Text CellPolicyState × List (Effect F)
  observe_merge_candidates cfg has_merge now mg cells samples =
      if not cfg.auto_merge_workflow || not has_merge
      then (mg, [])
      else let (mg', seen, effects) = observe_parents cfg now cells samples cells mg [] in
        (drop_unseen seen mg', effects)
