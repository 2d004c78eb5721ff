-- ===== src/CellSvc.antt =====
-- The player side of a cell server (internal/grpc/cellsvc/server.go, internal/grpc/cellsvc/input.go).
-- The handlers are in CellSvc/Players (Join, Leave, ApplyInput) and CellSvc/Handoff (Prepare, Accept
-- and Finalize of a player handoff). A handler that holds its locks in several sections is made of one
-- function for each section.
pub mod Roster
pub mod Players
pub mod Handoff
pub mod Invariant
pub mod Admin
pub mod Npc
use mmo.Prelude.{
  ℕ, ◌+◌, ◌*◌, ◌^◌, Bool, true, false, Option, none, some, List, [], ◌∷◌, ℕ-Eq, text-Eq, ◌==◌,
  if◌then◌else◌,
}
use mmo.Prelude.Int.{ℤ}
use mmo.Prelude.Text.{Text, codes}
use mmo.Prelude.Dict.{Dict, Set, get, has, size}
use mmo.Cell.{Bounds}
use mmo.Ecs.{Entity}
use mmo.Ecs.World.{World}

-- cellsim.Runtime, as far as the server uses it: the world, and the rate and tick count of its loop.
pub record Sim (F : Type 0) : Type 0 where
  pub world : World F
  pub tps : F
  pub tick_count : ℕ

pub record Vec3f (F : Type 0) : Type 0 where
  pub x : F
  pub y : F
  pub z : F

-- gamev1.PlayerHandoffState
pub record PlayerHandoffState (F : Type 0) : Type 0 where
  pub player_id : Text
  pub position : Vec3f F
  pub velocity : Vec3f F
  pub hp_cur : F
  pub hp_max : F
  pub tick : ℕ
  pub handoff_token : Text
  pub source_cell_id : Text
  pub target_cell_id : Text
  pub source_entity_id : Entity

-- A time is a count of nanoseconds; 0 is Go's zero time.
pub record PreparedPlayerHandoff (F : Type 0) : Type 0 where
  pub player_id : Text
  pub token : Text
  pub entity_id : Entity
  pub finalized : Bool
  pub created_at : ℕ
  pub payload : PlayerHandoffState F

pub record Server (F : Type 0) : Type 0 where
  pub cell_id : Text
  pub sim : Option (Sim F)
  pub bounds : Option (Bounds F)
  pub level : ℤ
  pub players : Set Entity
  pub player_by_id : Dict Text Entity
  pub frozen_by_id : Set Text
  pub prepared_by_id : Dict Text Text
  pub prepared_by_tk : Dict Text (PreparedPlayerHandoff F)
  pub accepted_by_tk : Dict Text Entity
  pub split_drain : Bool

abbrev pub handoff_in_flight_stale_timeout : ℕ
handoff_in_flight_stale_timeout = 5 * 10 ^ 9

-- The part of a response that all handlers share.
pub record Reply : Type 0 where
  pub ok : Bool
  pub message : Text
  pub entity_id : Entity

abbrev pub refuse : Text → Reply
refuse message = record { ok = false; message = message; entity_id = 0 }

abbrev pub accept : Text → Reply
accept message = record { ok = true; message = message; entity_id = 0 }

unfoldable pub player_id_of : Dict Text Entity → Entity → Text
player_id_of [] e = []
player_id_of ((pid, ent) ∷ m) e = let rest = player_id_of m e in if ent == e then pid else rest

module _ {F : Type 0} where
  -- The server with another world in its simulation.
  abbrev pub with_world : Server F → Sim F → World F → Server F
  with_world s sim w = record s { sim = some (record sim { world = w }) }

  unfoldable pub player_count : Server F → ℕ
  player_count s = size s.player_by_id

  unfoldable pub is_player : Server F → Entity → Bool
  is_player s e = has s.players e

  unfoldable pub player_id_by_entity : Server F → Entity → Text
  unfolding player_id_of
  player_id_by_entity s e = player_id_of s.player_by_id e
