-- ===== src/Ecs/Systems/Regen.antt =====
-- One step of HealthRegenSystem (internal/ecs/health_regen.go, internal/ecs/world.go: VisitHealth).
use mmo.Prelude.{
  ◌≡◌, refl, sym, ◌∙◌, Bool, true, false, Option, none, some, [], ◌∷◌, arith, ℕ-Eq, eq_iff, ◌==◌,
  if◌then◌else◌, Bool-cases, inl, inr,
}
use mmo.Prelude.Dict.{Set, get, has, keys, Distinct, get-put}
use mmo.Prelude.Float.{Float, FloatLaws}
use mmo.Ecs.{Entity, Health}
use mmo.Ecs.World.{World, set_health}
use mmo.Ecs.Systems.{visit, regenerated, regen_with, regen_entity, health_regen_update}

module _ {F : Type 0} ⦃fl : Float F⦄ where
  -- The health of an entity after a step, written out without the code's function: a living one that is
  -- below its maximum has gained the rate times the time, but not above the maximum.
  abbrev pub health_after : F → F → Bool → Option (Health F) → Option (Health F)
  health_after rate dt true (some h) =
      let sum = fl.add h.hp (fl.mul rate dt) in
      if fl.le h.max_hp h.hp
      then some h
      else some (record { hp = if fl.lt h.max_hp sum then h.max_hp else sum; max_hp = h.max_hp })
  health_after rate dt true none = none
  health_after rate dt false h = h

  regen_with-healths :
      (rate dt : F) (w : World F) (k e : Entity) (h : Option (Health F))
      → get w.healths k ≡ h
      → get (regen_with rate dt w k h).healths e ≡ health_after rate dt (k == e) (get w.healths e)
  unfolding set_health
  regen_with-healths rate dt w k e none at = ground (arith, eq_iff k e)
  regen_with-healths rate dt w k e (some h) at =
      ground (arith, eq_iff k e, get-put w.healths k (regenerated rate dt h) e)

  visit-healths :
      (rate dt : F) (m : Set Entity) (w : World F) (e : Entity)
      → Distinct m
      → get (visit (regen_entity rate dt) (keys m) w).healths e
        ≡ health_after rate dt (has m e) (get w.healths e)
  unfolding visit keys get regen_entity
  visit-healths rate dt [] w e d = refl
  visit-healths rate dt ((k, u) ∷ m) w e d =
      visit-healths rate dt m (regen_entity rate dt w k) e d.1
      ∙ ground (arith, eq_iff k e, d.0, regen_with-healths rate dt w k e _ refl)

  -- Where no living entity is listed twice, one step of the system with a rate that is not 0 or below
  -- adds the rate times the time to the health of every living entity whose health is below its
  -- maximum, and sets it to the maximum where the sum is above it. It leaves every other health, and
  -- every maximum, as it was.
  pub health_regen_update-healths :
      (rate : F) (w : World F) (dt : F) (e : Entity)
      → fl.le rate (fl.num 0) ≡ false
      → Distinct w.alive
      → get (health_regen_update rate w dt).healths e
        ≡ health_after rate dt (has w.alive e) (get w.healths e)
  unfolding health_regen_update
  health_regen_update-healths rate w dt e pos d = rw pos (visit-healths rate dt w.alive w e d)

  health_after_bounded :
      (laws : FloatLaws fl) (rate dt : F) (alive : Bool) (h h' : Health F)
      → fl.lt h.max_hp h.hp ≡ false
      → health_after rate dt alive (some h) ≡ some h'
      → (h'.max_hp ≡ h.max_hp) × (fl.lt h'.max_hp h'.hp ≡ false)
  health_after_bounded laws rate dt true h h' b e = ground (arith, laws.lt_irrefl h.max_hp)
  health_after_bounded laws rate dt false h h' b e = ground arith

  -- Where no living entity is listed twice and no number is below itself, the step keeps the maximum of
  -- an entity's health, and a health that is not above its maximum stays so.
  pub health_regen_bounded :
      (laws : FloatLaws fl) (rate : F) (w : World F) (dt : F) (e : Entity) (h h' : Health F)
      → Distinct w.alive
      → get w.healths e ≡ some h
      → fl.lt h.max_hp h.hp ≡ false
      → get (health_regen_update rate w dt).healths e ≡ some h'
      → (h'.max_hp ≡ h.max_hp) × (fl.lt h'.max_hp h'.hp ≡ false)
  unfolding health_regen_update
  health_regen_bounded laws rate w dt e h h' d at b at' =
      elim (Bool-cases (fl.le rate (fl.num 0))) [
        | inl off ↦ ground arith
        | inr on ↦
            health_after_bounded laws rate dt (has w.alive e) h h' b
              (rw (← at) (sym (visit-healths rate dt w.alive w e d) ∙ rw on at at'))
      ]
