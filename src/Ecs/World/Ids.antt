-- ===== src/Ecs/World/Ids.antt =====
-- The ids that the world hands out (internal/ecs/world.go: CreateEntity, RestorePersistEntity).
use mmo.Prelude.{
  ◌+◌, ◌^◌, ◌≤◌, ◌<◌, ◌≡◌, Bool, true, false, arith, ℕ-Eq, ◌==◌, if◌then◌else◌, Bool-cases, inl,
  inr,
}
use mmo.Prelude.Dict.{has, get-put, get-remove}
use mmo.Ecs.{Entity, Position, Velocity, Health}
use mmo.Ecs.World.{World, u64, create_entity, destroy_entity, restore_persist_entity}

module _ {F : Type 0} where
  -- No living entity has an id above the last one that was handed out.
  pub record IsBounded (w : World F) : Type 0 where
    pub at : (e : Entity) → has w.alive e ≡ true → e ≤ w.next_id

  pub create_entity-IsBounded :
      (w : World F) → w.next_id + 1 < 2 ^ 64 → IsBounded w → IsBounded (create_entity w).0
  unfolding create_entity
  create_entity-IsBounded w room b = record {
    at = λ e h. ground (arith, get-put w.alive (u64 (w.next_id + 1)) tt e, b.at e);
  }

  pub destroy_entity-IsBounded :
      (w : World F) (gone : Entity) → IsBounded w → IsBounded (destroy_entity w gone)
  unfolding destroy_entity
  destroy_entity-IsBounded w gone b = record {
    at = λ e h. ground (arith, get-remove w.alive gone e, b.at e);
  }

  pub restore_persist_entity-IsBounded :
      (w : World F) (id : Entity) (pos : Position F) (vel : Velocity F) (h : Health F)
      (has_health : Bool)
      → id + 1 < 2 ^ 64
      → IsBounded w
      → IsBounded (restore_persist_entity w id pos vel h has_health)
  unfolding restore_persist_entity
  restore_persist_entity-IsBounded w id pos vel h has_health room b = record {
    at = λ e l. ground (arith, get-put w.alive id tt e, b.at e);
  }

  -- Where no living entity has an id above the counter, and the counter has room in uint64, a created
  -- entity has an id that no living entity has, it is alive in the new world, and every other entity is
  -- alive there exactly if it was.
  pub create_entity_new :
      (w : World F) (other : Entity)
      → w.next_id + 1 < 2 ^ 64
      → IsBounded w
      → (has w.alive (create_entity w).1 ≡ false)
        × (has (create_entity w).0.alive other
            ≡ (if (create_entity w).1 == other then true else has w.alive other))
  unfolding create_entity
  create_entity_new w other room b = (
    elim (Bool-cases (has w.alive (u64 (w.next_id + 1)))) [
      | inl old ↦ absurd (ground (arith, b.at _ old))
      | inr new ↦ new
    ],
    ground (arith, get-put w.alive (u64 (w.next_id + 1)) tt other),
  )

  -- After an entity is restored under the id 2^64 - 1, where the counter is no higher, the next entity
  -- that is created gets the id 1.
  pub restore_top_wraps :
      (w : World F) (id : Entity) (pos : Position F) (vel : Velocity F) (h : Health F)
      (has_health : Bool)
      → id + 1 ≡ 2 ^ 64
      → w.next_id ≤ id
      → (create_entity (restore_persist_entity w id pos vel h has_health)).1 ≡ 1
  unfolding create_entity restore_persist_entity
  restore_top_wraps w id pos vel h has_health top low = ground arith
