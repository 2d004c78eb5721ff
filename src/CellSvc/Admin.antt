-- ===== src/CellSvc/Admin.antt =====
-- Update, PlanSplit and ListMigrationCandidates (internal/grpc/cellsvc/server.go). The export
-- and import of NPCs within Update are left out.
pub mod Drain
pub mod Migration
use mmo.Prelude.{
  ℕ, Bool, true, false, ◌||◌, not, Option, none, some, List, [], ◌∷◌, length, map, ℕ-Eq, text-Eq,
  ◌==◌, ltb, if◌then◌else◌,
}
use mmo.Prelude.Int.{ℤ, pos, pos_part, ltb_ℤ}
use mmo.Prelude.Text.{Text, codes, trim_space, is_empty}
use mmo.Prelude.Result.{Result, ok, err, ◌>>=◌}
use mmo.Prelude.Dict.{get, keys}
use mmo.Prelude.Float.{Float}
use mmo.Cell.{Bounds, CellSpec, PlanSplitResponseChild}
use mmo.Partition.Path.{PathError}
use mmo.Partition.Merge.{MergeError, child_specs_for_split, validate_merge_children}
use mmo.Ecs.{Entity, Position}
use mmo.Ecs.World.{World, entity_count}
use mmo.CellSvc.{Sim, Vec3f, Server, player_count, is_player, player_id_by_entity}

-- The payloads of UpdateRequest, without those for NPCs. A request or a payload that is nil is one of
-- its own.
pub data UpdateRequest (F : Type 0) : Type 0 where
  nil_request : UpdateRequest F
  noop : UpdateRequest F
  set_target_tps : ℤ → UpdateRequest F  -- int32
  split_prepare : Text → UpdateRequest F
  set_split_drain : Bool → UpdateRequest F
  merge_prepare : List (Option (CellSpec F)) → Text → UpdateRequest F

-- A message of a response: a fixed text, or the parts that are formatted into one.
pub data UpdateMessage : Type 0 where
  plain : Text → UpdateMessage
  split_prepare_invalid : PathError → UpdateMessage
  split_prepare_ok : ℕ → ℕ → ℕ → Text → List Text → UpdateMessage
  merge_prepare_invalid : MergeError → UpdateMessage
  merge_prepare_ok : ℕ → Text → UpdateMessage

pub record UpdateReply : Type 0 where
  pub good : Bool
  pub message : UpdateMessage

pub data PlanError : Type 0 where
  no_bounds : PlanError
  invalid_parent_id : PathError → PlanError

pub record MigrationCandidate (F : Type 0) : Type 0 where
  pub entity_id : Entity
  pub position : Vec3f F
  pub is_player : Bool
  pub player_id : Text

abbrev pub yes : UpdateMessage → UpdateReply
yes message = record { good = true; message = message }

abbrev pub no : UpdateMessage → UpdateReply
no message = record { good = false; message = message }

abbrev pub merge_reply : ℕ → Text → Result MergeError (Unit {0}) → UpdateReply
merge_reply n reason (err e) = no (merge_prepare_invalid e)
merge_reply n reason (ok done) = yes (merge_prepare_ok n (trim_space reason))

module _ {F : Type 0} where
  abbrev pub entities_of : Option (Sim F) → ℕ
  entities_of none = 0
  entities_of (some sim) = entity_count sim.world

module _ {F : Type 0} ⦃fl : Float F⦄ where
  abbrev pub set_tps : Server F → Option (Sim F) → ℤ → Server F × UpdateReply
  set_tps s none tps = (s, no (plain (codes "no_sim")))
  set_tps s (some sim) tps = (
    record s { sim = some (record sim { tps = fl.num (pos_part tps) }) },
    yes (plain (codes "ok")),
  )

  abbrev pub split_reply :
      Server F → Text → Result PathError (List (PlanSplitResponseChild F)) → UpdateReply
  split_reply s reason (err e) = no (split_prepare_invalid e)
  split_reply s reason (ok children) = yes (
      split_prepare_ok (length children) (player_count s) (entities_of s.sim) (trim_space reason)
        (map (λ (c : PlanSplitResponseChild F). c.id) children))

  abbrev pub split_bounds : Server F → Option (Bounds F) → Text → UpdateReply
  split_bounds s none reason = no (plain (codes "no bounds on cell server"))
  split_bounds s (some b) reason =
      split_reply s reason (child_specs_for_split s.cell_id (some b) s.level)

  abbrev pub merge_bounds :
      Server F → Option (Bounds F) → List (Option (CellSpec F)) → Text → UpdateReply
  merge_bounds s none children reason = no (plain (codes "no bounds on cell server"))
  merge_bounds s (some b) children reason =
      merge_reply (length children) reason (validate_merge_children (some b) s.level children)

  unfoldable pub update : Server F → UpdateRequest F → Server F × UpdateReply
  update s nil_request = (s, no (plain (codes "nil request")))
  update s noop = (s, yes (plain (codes "noop")))
  update s (set_target_tps tps) =
      if ltb_ℤ tps (pos 1) || ltb_ℤ (pos 120) tps
      then (s, no (plain (codes "target_tps out of range [1,120]")))
      else set_tps s s.sim tps
  update s (split_prepare reason) = (s, split_bounds s s.bounds reason)
  update s (set_split_drain en) = (
    record s { split_drain = en },
    yes (plain (if en then codes "split_drain enabled" else codes "split_drain disabled")),
  )
  update s (merge_prepare children reason) = (s, merge_bounds s s.bounds children reason)

  abbrev pub plan_of :
      Result PathError (List (PlanSplitResponseChild F))
      → Result PlanError (List (PlanSplitResponseChild F))
  plan_of (err e) = err (invalid_parent_id e)
  plan_of (ok children) = ok children

  abbrev pub plan_with :
      Server F → Option (Bounds F) → Result PlanError (List (PlanSplitResponseChild F))
  plan_with s none = err no_bounds
  plan_with s (some b) = plan_of (child_specs_for_split s.cell_id (some b) s.level)

  unfoldable pub plan_split : Server F → Result PlanError (List (PlanSplitResponseChild F))
  plan_split s = plan_with s s.bounds

  abbrev pub candidate_at : Server F → Entity → Position F → MigrationCandidate F
  candidate_at s e p = record {
    entity_id = e;
    position = record { x = fl.round32 p.x; y = fl.round32 p.y; z = fl.round32 p.z };
    is_player = is_player s e;
    player_id = player_id_by_entity s e;
  }

  abbrev pub add_candidate :
      Server F
      → Entity
      → Option (Position F)
      → List (MigrationCandidate F)
      → List (MigrationCandidate F)
  add_candidate s e none rest = rest
  add_candidate s e (some p) rest = candidate_at s e p ∷ rest

  -- The loop over the living entities, and the loop over those it kept.
  unfoldable pub candidates : Server F → World F → List Entity → List (MigrationCandidate F)
  candidates s w [] = []
  candidates s w (e ∷ es) = add_candidate s e (get w.positions e) (candidates s w es)

  abbrev pub candidates_in : Server F → Option (Sim F) → List (MigrationCandidate F)
  candidates_in s none = []
  candidates_in s (some sim) = candidates s sim.world (keys sim.world.alive)

  unfoldable pub list_migration_candidates : Server F → List (MigrationCandidate F)
  unfolding candidates
  list_migration_candidates s = candidates_in s s.sim
