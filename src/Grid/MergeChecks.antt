-- ===== src/Grid/MergeChecks.antt =====
-- The checks around an attempt to merge (cmd/grid-manager/merge_workflow.go: planMergeGroup,
-- preflightGroup, verifyResolveToParent). What the catalog lists and resolves is a parameter, which
-- does not change during a check, and so are the answers to the pings. An int is taken to be
-- unbounded here.
pub mod Quiet
use mmo.Prelude.{
  Bool, true, false, not, ◌&&◌, Option, none, some, List, [], ◌∷◌, map, text-Eq, ◌==◌,
  if◌then◌else◌,
}
use mmo.Prelude.Int.{ℤ, pos, ◌+ℤ◌, ltb_ℤ}
use mmo.Prelude.Text.{Text, trim_space}
use mmo.Prelude.Result.{Result, ok, err, ◌>>=◌, ◌>>◌, fail_if}
use mmo.Prelude.Float.{Float}
use mmo.Cell.{Bounds, CellSpec, PlanSplitResponseChild}
use mmo.Partition.{mid_x, mid_z}
use mmo.Partition.Path.{PathError}
use mmo.Partition.Merge.{MergeError, catalog_merge_children, child_specs_for_split}
use mmo.Registry.{find_cell_by_id}

pub data CheckError (E : Type 0) : Type 0 where
  catalog_failed : E → CheckError E
  parent_invalid : Text → CheckError E
  merge_invalid : MergeError → CheckError E
  parent_ping_failed : E → CheckError E
  parent_has_players : ℤ → CheckError E
  child_missing : Text → CheckError E
  child_ping_failed : Text → E → CheckError E
  child_has_players : Text → ℤ → CheckError E
  too_many_players : ℤ → ℤ → CheckError E
  parent_missing : CheckError E
  path_invalid : PathError → CheckError E
  resolve_miss : Text → CheckError E
  resolve_mismatch : Text → Text → CheckError E

-- What the environment gives to an attempt.
pub record Surroundings (F E : Type 0) : Type 0 where
  pub listing : Result E (List (Option (CellSpec F)))
  pub resolving : F → F → Result E (Option (CellSpec F))
  pub ping_players : Text → Result E ℤ
  pub player_handoff : Bool
  pub max_players_move : ℤ

unfoldable pub wrapped : {E X A : Type 0} → (E → X) → Result E A → Result X A
wrapped f (ok a) = ok a
wrapped f (err e) = err (f e)

unfoldable pub or_err : {X A : Type 0} → X → Option A → Result X A
or_err x none = err x
or_err x (some a) = ok a

module _ {F E : Type 0} where
  -- FindCellByID lists the catalog.
  unfoldable pub find_in :
      Surroundings F E → CheckError E → Text → Result (CheckError E) (CellSpec F)
  unfolding wrapped or_err find_cell_by_id
  find_in env missing id =
      wrapped catalog_failed env.listing >>= λ cells. or_err missing (find_cell_by_id cells id)

  unfoldable pub check_child : Surroundings F E → Text → CellSpec F → Result (CheckError E) ℤ
  unfolding wrapped
  check_child env child_id spec =
      wrapped (child_ping_failed child_id) (env.ping_players spec.grpc_endpoint) >>= λ players.
      fail_if (not env.player_handoff && ltb_ℤ (pos 0) players) (child_has_players child_id players)
      >> ok players

  -- The loop over the children, from the players counted so far on.
  unfoldable pub count_children : Surroundings F E → List Text → ℤ → Result (CheckError E) ℤ
  unfolding find_in check_child
  count_children env [] total = ok total
  count_children env (id ∷ ids) total = find_in env (child_missing id) id >>= λ spec.
      check_child env id spec >>= λ players. count_children env ids (total +ℤ players)

  unfoldable pub preflight_group :
      Surroundings F E → CellSpec F → List Text → Result (CheckError E) ℤ
  unfolding count_children wrapped
  preflight_group env parent child_ids =
      wrapped parent_ping_failed (env.ping_players parent.grpc_endpoint) >>= λ players.
      fail_if (ltb_ℤ (pos 0) players) (parent_has_players players)
      >> (count_children env child_ids (pos 0) >>= λ total.
          fail_if
            (env.player_handoff
              && ltb_ℤ (pos 0) env.max_players_move
              && ltb_ℤ env.max_players_move total)
            (too_many_players total env.max_players_move)
          >> ok total)

  unfoldable pub with_bounds :
      CheckError E → CellSpec F → Result (CheckError E) (CellSpec F × Bounds F)
  unfolding or_err
  with_bounds missing parent = or_err missing parent.bounds >>= λ b. ok (parent, b)

module _ {F E : Type 0} ⦃fl : Float F⦄ where
  unfoldable pub plan_merge_group :
      Surroundings F E → Text → Result (CheckError E) (CellSpec F × List Text)
  unfolding find_in with_bounds wrapped catalog_merge_children
  plan_merge_group env parent_id = find_in env (parent_invalid parent_id) parent_id >>= λ found.
      with_bounds (parent_invalid parent_id) found >>= λ parent.
      wrapped catalog_failed env.listing >>= λ cells.
      wrapped merge_invalid (catalog_merge_children (some parent.0) cells) >>= λ resolved.
      ok (parent.0, map (λ spec. trim_space spec.id) resolved)

  -- The centre of the child resolves to the parent.
  unfoldable pub verify_child :
      Surroundings F E → Text → PlanSplitResponseChild F → Result (CheckError E) (Unit {0})
  unfolding wrapped or_err
  verify_child env parent_id ch =
      wrapped catalog_failed (env.resolving (mid_x ch.bounds) (mid_z ch.bounds)) >>= λ answer.
      or_err (resolve_miss ch.id) answer >>= λ got.
      fail_if (not (got.id == parent_id)) (resolve_mismatch ch.id got.id)

  unfoldable pub verify_children :
      Surroundings F E → Text → List (PlanSplitResponseChild F) → Result (CheckError E) (Unit {0})
  unfolding verify_child
  verify_children env parent_id [] = ok tt
  verify_children env parent_id (ch ∷ chs) =
      verify_child env parent_id ch >> verify_children env parent_id chs

  unfoldable pub verify_resolve_to_parent :
      Surroundings F E → Text → Result (CheckError E) (Unit {0})
  unfolding find_in with_bounds wrapped verify_children child_specs_for_split
  verify_resolve_to_parent env parent_id = find_in env parent_missing parent_id >>= λ found.
      with_bounds parent_missing found >>= λ parent.
      wrapped path_invalid (child_specs_for_split parent_id (some parent.1) parent.0.level)
      >>= λ children. verify_children env parent_id children
