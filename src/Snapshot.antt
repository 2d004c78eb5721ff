-- ===== src/Snapshot.antt =====
-- The persisted form of a cell (internal/cellsim/snapshot/snapshot.go, the messages of
-- gen/gamev1/replication.pb.go). A field of 32 bits holds a rounded number. A runtime or a message
-- that is nil is an absent argument of the caller; the loop's world is the world itself.
pub mod Restore
pub mod RoundTrip
pub mod Collide
use mmo.Prelude.{
  ℕ, Bool, true, false, not, Option, none, some, List, [], ◌∷◌, ◌++◌, ℕ-Eq, ◌==◌, if◌then◌else◌,
}
use mmo.Prelude.Result.{Result, ok, err, ◌>>◌, fail_if}
use mmo.Prelude.Dict.{get, keys}
use mmo.Prelude.Float.{Float}
use mmo.Ecs.{Entity, Position, Velocity, Health}
use mmo.Ecs.World.{World, destroy_entity, restore_persist_entity}
use mmo.CellSvc.{Sim, Vec3f}

pub record CellPersistEntity (F : Type 0) : Type 0 where
  pub entity_id : Entity
  pub position : Option (Vec3f F)
  pub velocity : Option (Vec3f F)
  pub hp_cur : F
  pub hp_max : F

pub record CellPersist (F : Type 0) : Type 0 where
  pub schema_version : ℕ
  pub tick : ℕ
  pub loop_tps : F
  pub entities : List (Option (CellPersistEntity F))

pub data DecodeError : Type 0 where
  unsupported_schema : ℕ → DecodeError

abbrev pub schema_version_now : ℕ
schema_version_now = 1

module _ {F : Type 0} where
  -- The loop that destroys the living entities.
  unfoldable pub destroy_all : World F → List Entity → World F
  destroy_all w [] = w
  destroy_all w (e ∷ es) = destroy_all (destroy_entity w e) es

module _ {F : Type 0} ⦃fl : Float F⦄ where
  abbrev pub velocity32 : Option (Velocity F) → Vec3f F
  velocity32 none = record {
    x = fl.round32 (fl.num 0);
    y = fl.round32 (fl.num 0);
    z = fl.round32 (fl.num 0);
  }
  velocity32 (some v) = record { x = fl.round32 v.vx; y = fl.round32 v.vy; z = fl.round32 v.vz }

  -- HpCur and HpMax, which stay 0 without a positive maximum.
  abbrev pub health32 : Option (Health F) → F × F
  health32 none = (fl.num 0, fl.num 0)
  health32 (some h) =
      if fl.lt (fl.num 0) h.max_hp
      then (fl.round32 h.hp, fl.round32 h.max_hp)
      else (fl.num 0, fl.num 0)

  abbrev pub persisted : World F → Entity → Position F → CellPersistEntity F
  persisted w e pos =
      let hp = health32 (get w.healths e) in
      record {
        entity_id = e;
        position =
            some (record { x = fl.round32 pos.x; y = fl.round32 pos.y; z = fl.round32 pos.z });
        velocity = some (velocity32 (get w.velocities e));
        hp_cur = hp.0;
        hp_max = hp.1;
      }

  abbrev pub add_persisted :
      World F
      → Entity
      → Option (Position F)
      → List (Option (CellPersistEntity F))
      → List (Option (CellPersistEntity F))
  add_persisted w e none rest = rest
  add_persisted w e (some pos) rest = some (persisted w e pos) ∷ rest

  -- The loop over the living entities.
  unfoldable pub encode_entities :
      World F → (Entity → Bool) → List Entity → List (Option (CellPersistEntity F))
  encode_entities w skip [] = []
  encode_entities w skip (e ∷ es) =
      let rest = encode_entities w skip es in
      if skip e then rest else add_persisted w e (get w.positions e) rest

  unfoldable pub encode : Option (Sim F) → (Entity → Bool) → CellPersist F
  encode none skip = record {
    schema_version = schema_version_now;
    tick = 0;
    loop_tps = fl.num 0;
    entities = [];
  }
  encode (some r) skip = record {
    schema_version = schema_version_now;
    tick = r.tick_count;
    loop_tps = fl.round32 r.tps;
    entities = encode_entities r.world skip (keys r.world.alive);
  }

  -- The getters of a vector that may be nil.
  abbrev pub read_position : Option (Vec3f F) → Position F
  read_position none = record { x = fl.num 0; y = fl.num 0; z = fl.num 0 }
  read_position (some v) = record { x = v.x; y = v.y; z = v.z }

  abbrev pub read_velocity : Option (Vec3f F) → Velocity F
  read_velocity none = record { vx = fl.num 0; vy = fl.num 0; vz = fl.num 0 }
  read_velocity (some v) = record { vx = v.x; vy = v.y; vz = v.z }

  abbrev pub restore_one : World F → Option (CellPersistEntity F) → World F
  restore_one w none = w
  restore_one w (some ent) =
      if ent.entity_id == 0
      then w
      else restore_persist_entity w ent.entity_id (read_position ent.position)
          (read_velocity ent.velocity) (record { hp = ent.hp_cur; max_hp = ent.hp_max })
          (fl.lt (fl.num 0) ent.hp_max)

  -- The loop over the persisted entities.
  unfoldable pub restore_all : World F → List (Option (CellPersistEntity F)) → World F
  restore_all w [] = w
  restore_all w (ent ∷ ents) = restore_all (restore_one w ent) ents

  unfoldable pub decode : Sim F → CellPersist F → Result DecodeError (Sim F)
  decode r p =
      fail_if (not (p.schema_version == schema_version_now)) (unsupported_schema p.schema_version)
      >> ok (record {
        world = restore_all (destroy_all r.world (keys r.world.alive)) p.entities;
        tps = if fl.lt (fl.num 0) p.loop_tps then p.loop_tps else r.tps;
        tick_count = p.tick;
      })
