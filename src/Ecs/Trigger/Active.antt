-- ===== src/Ecs/Trigger/Active.antt =====
-- Which pairs of a zone and a sensor are active (internal/ecs/trigger.go).
use mathlib.Core.Path.{subst}
use mmo.Prelude.{
  ◌≡◌, refl, true, Option, none, some, List, [], ◌∷◌, ℕ-Eq, eq_iff, ◌==◌, arith, inl, inr,
  Bool-cases,
}
use mmo.Prelude.Dict.{Set, get, has, get-put}
use mmo.Prelude.Float.{Float}
use mmo.Ecs.{Entity, Position, TriggerZone, TriggerSensor}
use mmo.Ecs.World.{World, query_trigger_zones, query_trigger_sensors}
use mmo.Ecs.Trigger.{
  TriggerPair, pair-Eq, TriggerEvent, TriggerSystem, touching, check_sensor, check_sensors,
  check_zone, check_zones, trigger_update,
}

module _ {F : Type 0} ⦃fl : Float F⦄ where
  -- The zone and the sensor of a pair have a place, and the two boxes overlap.
  pub record IsTouching (w : World F) (p : TriggerPair) : Type 0 where
    pub zone_position : Position F
    pub zone : TriggerZone F
    pub sensor_position : Position F
    pub sensor : TriggerSensor F
    pub at_zone : get w.positions p.zone ≡ some zone_position
    pub has_zone : get w.trigger_zones p.zone ≡ some zone
    pub at_sensor : get w.positions p.sensor ≡ some sensor_position
    pub has_sensor : get w.trigger_sensors p.sensor ≡ some sensor
    pub overlap : touching zone_position zone sensor_position sensor ≡ true

  -- Every pair of the set touches.
  AllTouch : World F → Set TriggerPair → Type 0
  AllTouch w current = (p : TriggerPair) → has current p ≡ true → IsTouching w p

  check_sensor-AllTouch :
      (w : World F) (active : Set TriggerPair) (ze : Entity) (zp : Position F) (z : TriggerZone F)
      (se : Entity) (sp : Option (Position F)) (s : Option (TriggerSensor F))
      (acc : Set TriggerPair × List TriggerEvent)
      → get w.positions ze ≡ some zp
      → get w.trigger_zones ze ≡ some z
      → get w.positions se ≡ sp
      → get w.trigger_sensors se ≡ s
      → AllTouch w acc.0
      → AllTouch w (check_sensor active ze zp z se sp s acc).0
  unfolding AllTouch
  check_sensor-AllTouch w active ze zp z se none s acc hz kz hs ks all = all
  check_sensor-AllTouch w active ze zp z se (some sp) none acc hz kz hs ks all = all
  check_sensor-AllTouch w active ze zp z se (some sp) (some s) acc hz kz hs ks all =
      elim (Bool-cases (touching zp z sp s)) [
        | inr apart ↦ rw apart all
        | inl meet ↦ rw meet (λ p h.
            let q : TriggerPair = record { zone = ze; sensor = se } in
            elim (Bool-cases (q == p)) [
              | inl same ↦
                  subst (λ x. IsTouching w x) ((eq_iff q p).0 same)
                    (record {
                      zone_position = zp;
                      zone = z;
                      sensor_position = sp;
                      sensor = s;
                      at_zone = hz;
                      has_zone = kz;
                      at_sensor = hs;
                      has_sensor = ks;
                      overlap = meet;
                    })
              | inr other ↦ all p (ground (arith, get-put acc.0 q tt p, h))
            ])
      ]

  check_sensors-AllTouch :
      (w : World F) (active : Set TriggerPair) (ze : Entity) (zp : Position F) (z : TriggerZone F)
      (ses : List Entity) (acc : Set TriggerPair × List TriggerEvent)
      → get w.positions ze ≡ some zp
      → get w.trigger_zones ze ≡ some z
      → AllTouch w acc.0
      → AllTouch w (check_sensors w active ze zp z ses acc).0
  unfolding check_sensors
  check_sensors-AllTouch w active ze zp z [] acc hz kz all = all
  check_sensors-AllTouch w active ze zp z (se ∷ ses) acc hz kz all =
      let sp = get w.positions se in
      let s = get w.trigger_sensors se in
      check_sensors-AllTouch w active ze zp z ses (check_sensor active ze zp z se sp s acc) hz kz
        (check_sensor-AllTouch w active ze zp z se sp s acc hz kz refl refl all)

  check_zone-AllTouch :
      (w : World F) (active : Set TriggerPair) (ze : Entity) (zp : Option (Position F))
      (z : Option (TriggerZone F)) (ses : List Entity) (acc : Set TriggerPair × List TriggerEvent)
      → get w.positions ze ≡ zp
      → get w.trigger_zones ze ≡ z
      → AllTouch w acc.0
      → AllTouch w (check_zone w active ze zp z ses acc).0
  check_zone-AllTouch w active ze none z ses acc hz kz all = all
  check_zone-AllTouch w active ze (some zp) none ses acc hz kz all = all
  check_zone-AllTouch w active ze (some zp) (some z) ses acc hz kz all =
      check_sensors-AllTouch w active ze zp z ses acc hz kz all

  check_zones-AllTouch :
      (w : World F) (active : Set TriggerPair) (zes ses : List Entity)
      (acc : Set TriggerPair × List TriggerEvent)
      → AllTouch w acc.0
      → AllTouch w (check_zones w active zes ses acc).0
  unfolding check_zones
  check_zones-AllTouch w active [] ses acc all = all
  check_zones-AllTouch w active (ze ∷ zes) ses acc all =
      let zp = get w.positions ze in
      let z = get w.trigger_zones ze in
      check_zones-AllTouch w active zes ses (check_zone w active ze zp z ses acc)
        (check_zone-AllTouch w active ze zp z ses acc refl refl all)

  -- Whatever was active before, after an update every active pair has a zone and a sensor with
  -- positions, whose boxes overlap.
  pub trigger_update-IsTouching :
      (s : TriggerSystem) (w : World F) (p : TriggerPair)
      → has (trigger_update s w).active p ≡ true
      → IsTouching w p
  unfolding trigger_update AllTouch get
  trigger_update-IsTouching s w p =
      check_zones-AllTouch w s.active (query_trigger_zones w) (query_trigger_sensors w)
        ([], s.events) (λ q h. absurd (ground (arith, h))) p
