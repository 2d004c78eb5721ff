-- ===== src/Tests/Worlds.antt =====
-- Examples for the theorems about the world of a cell.
use mmo.Prelude.{
  ℕ, ◌+◌, ◌-◌, ◌^◌, ◌≡◌, refl, Bool, true, false, Option, none, some, List, [], ◌∷◌, ℕ-Eq, ◌==◌,
  if◌then◌else◌, arith, In, ◌↔◌,
}
use mmo.Prelude.Dict.{get, has, Distinct}
use mmo.Ecs.{Position, Velocity, Health}
use mmo.Ecs.World.{World, create_entity, restore_persist_entity}
use mmo.Ecs.World.Ids.{IsBounded, create_entity_new}
use mmo.Ecs.Systems.{movement_update, health_regen_update}
use mmo.Ecs.Systems.Movement.{position_after, movement_update-positions}
use mmo.Ecs.Systems.Regen.{health_after, health_regen_update-healths}
use mmo.Ecs.Aoi.{SpatialGrid, key, rebuild_from_world, in_circle, query_radius}
use mmo.Ecs.Aoi.Query.{query_radius-In}
use mmo.Ecs.Trigger.{new_trigger_system, trigger_update}
use mmo.Ecs.Trigger.Active.{IsTouching, trigger_update-IsTouching}
use mmo.Tests.{whole, small_world}

small_world-IsBounded : IsBounded small_world
unfolding get
small_world-IsBounded = record { at = λ e h. ground arith }

create_entity_new_example :
    (has small_world.alive (create_entity small_world).1 ≡ false)
    × (has (create_entity small_world).0.alive 1
        ≡ (if (create_entity small_world).1 == 1 then true else has small_world.alive 1))
create_entity_new_example = create_entity_new small_world 1 (omega arith) small_world-IsBounded

movement_update-positions_example :
    get (movement_update small_world 3).positions 1
    ≡ position_after 3
        (has small_world.alive 1)
        (get small_world.positions 1)
        (get small_world.velocities 1)
unfolding get
movement_update-positions_example = movement_update-positions small_world 3 1 (refl, tt)

health_regen_update-healths_example :
    get (health_regen_update 2 small_world 3).healths 1
    ≡ health_after 2 3 (has small_world.alive 1) (get small_world.healths 1)
unfolding get
health_regen_update-healths_example = health_regen_update-healths 2 small_world 3 1 refl (refl, tt)

-- A world with a zone and a sensor within it.
abbrev zone_world : World ℕ
zone_world = record small_world {
  trigger_zones = (1, record { id = []; half_x = 5; half_y = 5; half_z = 5 }) ∷ [];
  trigger_sensors = (1, record { half_x = 0; half_y = 0; half_z = 0 }) ∷ [];
}

trigger_update-IsTouching_example : IsTouching zone_world (record { zone = 1; sensor = 1 })
unfolding trigger_update get mmo.Ecs.World.query_trigger_zones mmo.Prelude.Dict.keys
    mmo.Ecs.World.query_trigger_sensors mmo.Ecs.Trigger.overlaps_aabb mmo.Prelude.Dict.put
trigger_update-IsTouching_example =
    trigger_update-IsTouching new_trigger_system zone_world (record { zone = 1; sensor = 1 }) refl

abbrev grid : SpatialGrid ℕ
grid = record { cell_size = 50; buckets = []; entity_cell = [] }

query_radius-In_example :
    In 1 (query_radius (rebuild_from_world grid small_world) small_world 10 20 30)
    ↔ (in_circle {F = ℕ} 10 20 30 (record { x = 10; y = 0; z = 20 }) ≡ true)
unfolding get key
query_radius-In_example =
    query_radius-In grid small_world 10 20 30 1 (record { x = 10; y = 0; z = 20 }) refl refl refl
      (refl, refl, refl, refl) (refl, refl, refl, refl) (refl, refl, refl, refl)
