-- ===== src/Grid/Probes.antt =====
-- The checks of a split (cmd/grid-manager/split_workflow.go: uniquePlayerCandidatesCount,
-- validateParentPlayerHandoffReadiness, resolveTargetChildForPlayer, pointInForeignDeeperCell,
-- pickResolveProbe, resolveChildProbeReasons) and splitcontrol's ChildCellSpec. What the catalog
-- answers to a point is a parameter. A formatted reason is modelled by its parts.
pub mod Found
use mmo.Prelude.{
  ℕ, Bool, true, false, not, ◌&&◌, Option, none, some, List, [], ◌∷◌, map, text-Eq, ◌==◌,
  if◌then◌else◌,
}
use mmo.Prelude.Int.{ℤ, pos, ltb_ℤ, leb_ℤ}
use mmo.Prelude.Text.{Text, trim_space, is_empty}
use mmo.Prelude.Dict.{Set, has, put, size}
use mmo.Prelude.Result.{Result, ok, err}
use mmo.Prelude.Float.{Float}
use mmo.Cell.{Bounds, CellSpec}
use mmo.Partition.{contains}
use mmo.Partition.Path.{cell_path_level, is_descendant_path}
use mmo.CellSvc.Admin.{MigrationCandidate}

pub record ChildCellSpec (F : Type 0) : Type 0 where
  pub id : Text
  pub level : ℤ  -- int32
  pub x_min : F
  pub x_max : F
  pub z_min : F
  pub z_max : F

pub data ReadinessError : Type 0 where
  no_candidates : ℤ → ReadinessError
  too_few : ℤ → ℤ → ReadinessError

unfoldable pub validate_parent_player_handoff_readiness : ℤ → ℤ → Result ReadinessError (Unit {0})
validate_parent_player_handoff_readiness players candidates =
    if leb_ℤ players (pos 0)
    then ok tt
    else if leb_ℤ candidates (pos 0)
    then err (no_candidates players)
    else if ltb_ℤ candidates players
    then err (too_few players candidates)
    else ok tt

pub data ProbeReason (E : Type 0) : Type 0 where
  no_probe_point : Text → ProbeReason E
  resolve_failed : Text → E → ProbeReason E
  no_match : Text → ProbeReason E
  want_got : Text → Text → ProbeReason E

pub data TargetError (E F : Type 0) : Type 0 where
  lookup_failed : E → TargetError E F
  no_resolved_cell : F → F → TargetError E F
  not_ready : Text → TargetError E F

-- An error, or the cell with the Boolean beside it.
abbrev pub Answer : Type 0 → Type 0 → Type 0
Answer E F = Result E (Option (CellSpec F))

abbrev pub is_deeper : ℤ → Option ℤ → Bool
is_deeper level none = false
is_deeper level (some got_level) = ltb_ℤ level got_level

abbrev pub added {ℓ} : {R : Type ℓ} → Option R → List R → List R
added none rs = rs
added (some r) rs = r ∷ rs

abbrev pub noted : Text → Set Text → Set Text
noted id unique = if is_empty id then unique else put unique id tt

module _ {F : Type 0} where
  unfoldable pub unique_player_ids : List (Option (MigrationCandidate F)) → Set Text → Set Text
  unique_player_ids [] unique = unique
  unique_player_ids (none ∷ cs) unique = unique_player_ids cs unique
  unique_player_ids (some c ∷ cs) unique =
      unique_player_ids cs (noted (trim_space c.player_id) unique)

  unfoldable pub unique_player_candidates_count : List (Option (MigrationCandidate F)) → ℕ
  unfolding unique_player_ids
  unique_player_candidates_count cs = size (unique_player_ids cs [])

  abbrev pub child_bounds : ChildCellSpec F → Bounds F
  child_bounds sp = record {
    x_min = sp.x_min;
    x_max = sp.x_max;
    z_min = sp.z_min;
    z_max = sp.z_max;
  }

module _ {F E : Type 0} where
  abbrev pub target_of : F → F → Set Text → Answer E F → Result (TargetError E F) Text
  target_of x z ready (err e) = err (lookup_failed e)
  target_of x z ready (ok none) = err (no_resolved_cell x z)
  target_of x z ready (ok (some cell)) =
      let id = trim_space cell.id in if has ready id then ok id else err (not_ready id)

  -- The point is a pair of float32 numbers.
  unfoldable pub resolve_target_child_for_player :
      (F → F → Answer E F) → F → F → Set Text → Result (TargetError E F) Text
  resolve_target_child_for_player resolve x z ready = target_of x z ready (resolve x z)

  abbrev pub answer_reason : Text → ℤ → Answer E F → Option (ProbeReason E)
  answer_reason id level (err e) = some (resolve_failed id e)
  answer_reason id level (ok none) = some (no_match id)
  answer_reason id level (ok (some got)) =
      if got.id == id
      then none
      else if is_deeper level (cell_path_level got.id) && is_descendant_path id got.id
      then none
      else some (want_got id got.id)

module _ {F : Type 0} ⦃fl : Float F⦄ where
  -- Such a cell is deeper than the cell of the given id, holds the point, and is not below that cell.
  abbrev pub is_foreign : F → F → Text → ℤ → CellSpec F → Bool
  is_foreign cx cz self_id self_level c =
      not (c.id == self_id)
      && not (leb_ℤ c.level self_level)
      && not (is_descendant_path self_id c.id)
      && contains c.bounds cx cz

  unfoldable pub point_in_foreign_deeper_cell : F → F → Text → ℤ → List (CellSpec F) → Bool
  point_in_foreign_deeper_cell cx cz self_id self_level [] = false
  point_in_foreign_deeper_cell cx cz self_id self_level (c ∷ cells) =
      let rest = point_in_foreign_deeper_cell cx cz self_id self_level cells in
      if is_foreign cx cz self_id self_level c then true else rest

  -- The constants 0.12, 0.28 and so on: each is the float64 nearest to the quotient.
  abbrev pub fractions : List F
  fractions = map (λ n. fl.div (fl.num n) (fl.num 100)) (12 ∷ 28 ∷ 44 ∷ 58 ∷ 72 ∷ 88 ∷ [])

  abbrev pub probe_at : ChildCellSpec F → F → F → F × F
  probe_at sp fx fz = (
    fl.add sp.x_min (fl.mul (fl.sub sp.x_max sp.x_min) fx),
    fl.add sp.z_min (fl.mul (fl.sub sp.z_max sp.z_min) fz),
  )

  -- The inner loop.
  unfoldable pub probe_row : ChildCellSpec F → List (CellSpec F) → F → List F → Option (F × F)
  probe_row sp cells fx [] = none
  probe_row sp cells fx (fz ∷ fzs) =
      let p = probe_at sp fx fz in
      let rest = probe_row sp cells fx fzs in
      if not (contains (some (child_bounds sp)) p.0 p.1)
      then rest
      else if point_in_foreign_deeper_cell p.0 p.1 (trim_space sp.id) sp.level cells
      then rest
      else some p

  abbrev pub or_rest : Option (F × F) → Option (F × F) → Option (F × F)
  or_rest none rest = rest
  or_rest (some p) rest = some p

  unfoldable pub probe_rows : ChildCellSpec F → List (CellSpec F) → List F → List F → Option (F × F)
  probe_rows sp cells [] fzs = none
  probe_rows sp cells (fx ∷ fxs) fzs =
      or_rest (probe_row sp cells fx fzs) (probe_rows sp cells fxs fzs)

  unfoldable pub pick_resolve_probe : ChildCellSpec F → List (CellSpec F) → Option (F × F)
  pick_resolve_probe sp cells =
      if fl.le (fl.sub sp.x_max sp.x_min) (fl.num 0)
      then none
      else if fl.le (fl.sub sp.z_max sp.z_min) (fl.num 0)
      then none
      else if is_empty (trim_space sp.id)
      then none
      else probe_rows sp cells fractions fractions

  module _ {E : Type 0} where
    abbrev pub point_reason :
        (F → F → Answer E F) → Text → ℤ → Option (F × F) → Option (ProbeReason E)
    point_reason resolve id level none = some (no_probe_point id)
    point_reason resolve id level (some p) = answer_reason id level (resolve p.0 p.1)

    abbrev pub child_reason :
        (F → F → Answer E F) → List (CellSpec F) → ChildCellSpec F → Option (ProbeReason E)
    child_reason resolve cells sp =
        let id = trim_space sp.id in
        if is_empty id then none else point_reason resolve id sp.level (pick_resolve_probe sp cells)

    unfoldable pub resolve_child_probe_reasons :
        (F → F → Answer E F) → List (ChildCellSpec F) → List (CellSpec F) → List (ProbeReason E)
    resolve_child_probe_reasons resolve [] cells = []
    resolve_child_probe_reasons resolve (sp ∷ specs) cells =
        added (child_reason resolve cells sp) (resolve_child_probe_reasons resolve specs cells)
