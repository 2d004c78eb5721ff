-- ===== src/Ecs/World.antt =====
-- The store of a cell's entities and their components (internal/ecs/world.go, internal/ecs/query.go).
pub mod Ids
use mmo.Prelude.{
  ℕ, ◌+◌, ◌%◌, ◌^◌, Bool, true, false, ◌&&◌, Option, none, some, List, [], ◌∷◌, ℕ-Eq, leb,
  if◌then◌else◌,
}
use mmo.Prelude.Dict.{Dict, Set, get, put, remove, has, keys, size}
use mmo.Ecs.{Entity, Position, Velocity, Health, Collider, TriggerZone, TriggerSensor}

pub record World (F : Type 0) : Type 0 where
  pub next_id : Entity
  pub alive : Set Entity
  pub positions : Dict Entity (Position F)
  pub velocities : Dict Entity (Velocity F)
  pub healths : Dict Entity (Health F)
  pub colliders : Dict Entity (Collider F)
  pub trigger_zones : Dict Entity (TriggerZone F)
  pub trigger_sensors : Dict Entity (TriggerSensor F)
  pub dirty : Set Entity

-- uint64 arithmetic wraps.
abbrev pub u64 : ℕ → ℕ
u64 n = n % 2 ^ 64

-- The entities that pass a test, in the order of the map's iteration.
unfoldable pub select : (Entity → Bool) → List Entity → List Entity
select test [] = []
select test (e ∷ es) = let rest = select test es in if test e then e ∷ rest else rest

module _ {F : Type 0} where
  abbrev pub new_world : World F
  new_world = record {
    next_id = 0;
    alive = [];
    positions = [];
    velocities = [];
    healths = [];
    colliders = [];
    trigger_zones = [];
    trigger_sensors = [];
    dirty = [];
  }

  unfoldable pub create_entity : World F → World F × Entity
  create_entity w =
      let e = u64 (w.next_id + 1) in (record w { next_id = e; alive = put w.alive e tt }, e)

  unfoldable pub destroy_entity : World F → Entity → World F
  destroy_entity w e = record w {
    alive = remove w.alive e;
    positions = remove w.positions e;
    velocities = remove w.velocities e;
    healths = remove w.healths e;
    colliders = remove w.colliders e;
    trigger_zones = remove w.trigger_zones e;
    trigger_sensors = remove w.trigger_sensors e;
    dirty = remove w.dirty e;
  }

  unfoldable pub set_position : World F → Entity → Position F → World F
  set_position w e p = record w { positions = put w.positions e p; dirty = put w.dirty e tt }

  unfoldable pub remove_position : World F → Entity → World F
  remove_position w e = record w { positions = remove w.positions e; dirty = remove w.dirty e }

  unfoldable pub set_velocity : World F → Entity → Velocity F → World F
  set_velocity w e v = record w { velocities = put w.velocities e v }

  unfoldable pub remove_velocity : World F → Entity → World F
  remove_velocity w e = record w { velocities = remove w.velocities e }

  unfoldable pub set_health : World F → Entity → Health F → World F
  set_health w e h = record w { healths = put w.healths e h; dirty = put w.dirty e tt }

  unfoldable pub remove_health : World F → Entity → World F
  remove_health w e = record w { healths = remove w.healths e; dirty = remove w.dirty e }

  unfoldable pub set_collider : World F → Entity → Collider F → World F
  set_collider w e c = record w { colliders = put w.colliders e c }

  unfoldable pub remove_collider : World F → Entity → World F
  remove_collider w e = record w { colliders = remove w.colliders e }

  unfoldable pub set_trigger_zone : World F → Entity → TriggerZone F → World F
  set_trigger_zone w e z = record w { trigger_zones = put w.trigger_zones e z }

  unfoldable pub remove_trigger_zone : World F → Entity → World F
  remove_trigger_zone w e = record w { trigger_zones = remove w.trigger_zones e }

  unfoldable pub set_trigger_sensor : World F → Entity → TriggerSensor F → World F
  set_trigger_sensor w e s = record w { trigger_sensors = put w.trigger_sensors e s }

  unfoldable pub remove_trigger_sensor : World F → Entity → World F
  remove_trigger_sensor w e = record w { trigger_sensors = remove w.trigger_sensors e }

  -- The entities that changed since the last call, which clears the set.
  unfoldable pub take_dirty_entities : World F → World F × List Entity
  take_dirty_entities w = (record w { dirty = [] }, keys w.dirty)

  unfoldable pub entity_count : World F → ℕ
  entity_count w = size w.alive

  unfoldable pub restore_persist_entity :
      World F → Entity → Position F → Velocity F → Health F → Bool → World F
  restore_persist_entity w id pos vel h has_health = record w {
    alive = put w.alive id tt;
    positions = put w.positions id pos;
    velocities = put w.velocities id vel;
    healths = if has_health then put w.healths id h else remove w.healths id;
    next_id = if leb w.next_id id then u64 (id + 1) else w.next_id;
  }

  unfoldable pub query_movement : World F → List Entity
  unfolding select
  query_movement w = select (λ e. has w.positions e && has w.velocities e) (keys w.alive)

  unfoldable pub query_health : World F → List Entity
  unfolding select
  query_health w = select (λ e. has w.healths e) (keys w.alive)

  unfoldable pub query_collidable : World F → List Entity
  unfolding select
  query_collidable w = select (λ e. has w.positions e && has w.colliders e) (keys w.alive)

  unfoldable pub query_trigger_zones : World F → List Entity
  unfolding select
  query_trigger_zones w = select (λ e. has w.positions e && has w.trigger_zones e) (keys w.alive)

  unfoldable pub query_trigger_sensors : World F → List Entity
  unfolding select
  query_trigger_sensors w =
      select (λ e. has w.positions e && has w.trigger_sensors e) (keys w.alive)
