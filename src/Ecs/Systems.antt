-- ===== src/Ecs/Systems.antt =====
-- The systems of the simulation that act on the world alone (internal/ecs/movement.go,
-- internal/ecs/health_regen.go, internal/ecs/collision.go).
pub mod Movement
pub mod Regen
use mmo.Prelude.{
  ℕ, ◌*◌, Bool, true, false, ◌&&◌, ◌||◌, not, Option, none, some, List, [], ◌∷◌, ℕ-Eq, ltb,
  if◌then◌else◌,
}
use mmo.Prelude.Dict.{get, keys}
use mmo.Prelude.Float.{Float}
use mmo.Ecs.{Entity, Position, Velocity, Health, Collider}
use mmo.Ecs.World.{World, set_position, set_velocity, set_health, query_collidable}

module _ {F : Type 0} where
  -- The loop of a Visit method: the function runs on each living entity in turn, on the world that
  -- the entities before it left.
  unfoldable pub visit : (World F → Entity → World F) → List Entity → World F → World F
  visit fn [] w = w
  visit fn (e ∷ es) w = visit fn es (fn w e)

module _ {F : Type 0} ⦃fl : Float F⦄ where
  abbrev pub moved : F → Position F → Velocity F → Position F
  moved dt pos vel = record {
    x = fl.add pos.x (fl.mul vel.vx dt);
    y = fl.add pos.y (fl.mul vel.vy dt);
    z = fl.add pos.z (fl.mul vel.vz dt);
  }

  abbrev pub move_with : F → World F → Entity → Option (Position F) → Option (Velocity F) → World F
  move_with dt w e none v = w
  move_with dt w e (some p) none = w
  move_with dt w e (some p) (some v) = set_position w e (moved dt p v)

  unfoldable pub move_entity : F → World F → Entity → World F
  move_entity dt w e = move_with dt w e (get w.positions e) (get w.velocities e)

  -- MovementSystem.Update
  unfoldable pub movement_update : World F → F → World F
  unfolding visit
  movement_update w dt = visit (move_entity dt) (keys w.alive) w

  -- The health after one step, which is stored only where it was below its maximum.
  abbrev pub regenerated : F → F → Health F → Health F
  regenerated rate dt h =
      let hp = fl.add h.hp (fl.mul rate dt) in
      record h { hp = if fl.lt h.max_hp hp then h.max_hp else hp }

  abbrev pub regen_with : F → F → World F → Entity → Option (Health F) → World F
  regen_with rate dt w e none = w
  regen_with rate dt w e (some h) =
      if fl.le h.max_hp h.hp then w else set_health w e (regenerated rate dt h)

  unfoldable pub regen_entity : F → F → World F → Entity → World F
  regen_entity rate dt w e = regen_with rate dt w e (get w.healths e)

  -- HealthRegenSystem.Update
  unfoldable pub health_regen_update : F → World F → F → World F
  unfolding visit
  health_regen_update rate w dt =
      if fl.le rate (fl.num 0) then w else visit (regen_entity rate dt) (keys w.alive) w

  abbrev stop_x : World F → Entity → Option (Velocity F) → World F
  stop_x w e none = w
  stop_x w e (some v) = set_velocity w e (record v { vx = fl.num 0 })

  abbrev stop_z : World F → Entity → Option (Velocity F) → World F
  stop_z w e none = w
  stop_z w e (some v) = set_velocity w e (record v { vz = fl.num 0 })

  unfoldable pub zero_velocity_x_on_impact : World F → Entity → Entity → World F
  zero_velocity_x_on_impact w a b =
      let va = get w.velocities a in let vb = get w.velocities b in stop_x (stop_x w a va) b vb

  unfoldable pub zero_velocity_z_on_impact : World F → Entity → Entity → World F
  zero_velocity_z_on_impact w a b =
      let va = get w.velocities a in let vb = get w.velocities b in stop_z (stop_z w a va) b vb

  -- The direction in which b is pushed; a tie is decided by the ids.
  abbrev direction : F → Entity → Entity → F
  direction d a b =
      if fl.lt d (fl.num 0) || (fl.eq d (fl.num 0) && ltb b a) then fl.neg (fl.num 1) else fl.num 1

  -- The body of the inner loop, with a's position as the loop holds it.
  unfoldable pub resolve_pair :
      World F
      → Entity
      → Position F
      → Collider F
      → Entity
      → Position F
      → Collider F
      → World F × Position F
  unfolding zero_velocity_x_on_impact zero_velocity_z_on_impact
  resolve_pair w a pa ca b pb cb =
      let dx = fl.sub pb.x pa.x in
      let dz = fl.sub pb.z pa.z in
      let overlap_x = fl.sub (fl.add ca.half_x cb.half_x) (fl.abs dx) in
      let overlap_z = fl.sub (fl.add ca.half_z cb.half_z) (fl.abs dz) in
      let push_x = fl.mul (direction dx a b) (fl.mul overlap_x fl.half) in
      let push_z = fl.mul (direction dz a b) (fl.mul overlap_z fl.half) in
      let pa_x = record pa { x = fl.sub pa.x push_x } in
      let pb_x = record pb { x = fl.add pb.x push_x } in
      let pa_z = record pa { z = fl.sub pa.z push_z } in
      let pb_z = record pb { z = fl.add pb.z push_z } in
      if fl.le overlap_x (fl.num 0) || fl.le overlap_z (fl.num 0)
      then (w, pa)
      else if fl.le overlap_x overlap_z
      then (zero_velocity_x_on_impact (set_position (set_position w a pa_x) b pb_x) a b, pa_x)
      else (zero_velocity_z_on_impact (set_position (set_position w a pa_z) b pb_z) a b, pa_z)

  abbrev resolve_with :
      World F
      → Entity
      → Position F
      → Collider F
      → Entity
      → Option (Position F)
      → Option (Collider F)
      → World F × Position F
  resolve_with w a pa ca b none cb = (w, pa)
  resolve_with w a pa ca b (some pb) none = (w, pa)
  resolve_with w a pa ca b (some pb) (some cb) = resolve_pair w a pa ca b pb cb

  -- The inner loop, over the entities behind a.
  unfoldable pub resolve_against :
      World F → Entity → Position F → Collider F → List Entity → World F
  resolve_against w a pa ca [] = w
  resolve_against w a pa ca (b ∷ bs) =
      let (w', pa') = resolve_with w a pa ca b (get w.positions b) (get w.colliders b) in
      resolve_against w' a pa' ca bs

  abbrev resolve_first :
      World F → Entity → Option (Position F) → Option (Collider F) → List Entity → World F
  resolve_first w a none ca bs = w
  resolve_first w a (some pa) none bs = w
  resolve_first w a (some pa) (some ca) bs = resolve_against w a pa ca bs

  unfoldable pub resolve_all : World F → List Entity → World F
  unfolding resolve_against
  resolve_all w [] = w
  resolve_all w (a ∷ es) =
      resolve_all (resolve_first w a (get w.positions a) (get w.colliders a) es) es

  -- PhysicsCollisionSystem.Update
  unfoldable pub physics_collision_update : World F → World F
  unfolding resolve_all
  physics_collision_update w = resolve_all w (query_collidable w)
