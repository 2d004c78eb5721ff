-- ===== src/Ecs/Systems/Movement.antt =====
-- One step of MovementSystem (internal/ecs/movement.go, internal/ecs/world.go: VisitMovement).
use mmo.Prelude.{
  ◌≡◌, refl, ◌∙◌, Bool, true, false, Option, none, some, [], ◌∷◌, arith, ℕ-Eq, eq_iff, ◌==◌,
}
use mmo.Prelude.Dict.{Set, get, has, keys, Distinct, get-put}
use mmo.Prelude.Float.{Float}
use mmo.Ecs.{Entity, Position, Velocity}
use mmo.Ecs.World.{World, set_position}
use mmo.Ecs.Systems.{visit, moved, move_with, move_entity, movement_update}

module _ {F : Type 0} ⦃fl : Float F⦄ where
  -- Where an entity stands after a step, written out without the code's function: one that is alive
  -- and has both components has moved on each axis by its velocity times the time, and any other keeps
  -- its position, or has none.
  abbrev pub position_after :
      F → Bool → Option (Position F) → Option (Velocity F) → Option (Position F)
  position_after dt true (some p) (some v) = some (record {
    x = fl.add p.x (fl.mul v.vx dt);
    y = fl.add p.y (fl.mul v.vy dt);
    z = fl.add p.z (fl.mul v.vz dt);
  })
  position_after dt true (some p) none = some p
  position_after dt true none v = none
  position_after dt false p v = p

  move_with-positions :
      (dt : F) (w : World F) (k e : Entity) (p : Option (Position F)) (v : Option (Velocity F))
      → get w.positions k ≡ p
      → get w.velocities k ≡ v
      → get (move_with dt w k p v).positions e
        ≡ position_after dt (k == e) (get w.positions e) (get w.velocities e)
  unfolding set_position
  move_with-positions dt w k e none v hp hv = ground (arith, eq_iff k e)
  move_with-positions dt w k e (some p) none hp hv = ground (arith, eq_iff k e)
  move_with-positions dt w k e (some p) (some v) hp hv =
      ground (arith, eq_iff k e, get-put w.positions k (moved dt p v) e)

  move_entity-positions :
      (dt : F) (w : World F) (k e : Entity)
      → get (move_entity dt w k).positions e
        ≡ position_after dt (k == e) (get w.positions e) (get w.velocities e)
  unfolding move_entity
  move_entity-positions dt w k e = move_with-positions dt w k e _ _ refl refl

  move_entity-velocities :
      (dt : F) (w : World F) (k : Entity) → (move_entity dt w k).velocities ≡ w.velocities
  unfolding move_entity set_position
  move_entity-velocities dt w k = ground arith

  visit-positions :
      (dt : F) (m : Set Entity) (w : World F) (e : Entity)
      → Distinct m
      → get (visit (move_entity dt) (keys m) w).positions e
        ≡ position_after dt (has m e) (get w.positions e) (get w.velocities e)
  unfolding visit keys get
  visit-positions dt [] w e d = refl
  visit-positions dt ((k, u) ∷ m) w e d =
      visit-positions dt m (move_entity dt w k) e d.1
      ∙ ground
          (arith, eq_iff k e, d.0, move_entity-positions dt w k e, move_entity-velocities dt w k)

  -- Where no living entity is listed twice, one step of the system adds, on each axis, the velocity
  -- times the time to the position of every entity that is alive and has both, and leaves every other
  -- entity's position as it was, in whatever order the map of living entities is visited.
  pub movement_update-positions :
      (w : World F) (dt : F) (e : Entity)
      → Distinct w.alive
      → get (movement_update w dt).positions e
        ≡ position_after dt (has w.alive e) (get w.positions e) (get w.velocities e)
  unfolding movement_update
  movement_update-positions w dt e d = visit-positions dt w.alive w e d
