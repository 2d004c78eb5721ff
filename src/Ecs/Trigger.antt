-- ===== src/Ecs/Trigger.antt =====
-- Enter and exit events of triggers (internal/ecs/trigger.go).
pub mod Active
use mmo.Prelude.{
  ℕ, Bool, true, false, ◌&&◌, not, Option, none, some, List, [], ◌∷◌, ◌++◌, ℕ-Eq, ◌==◌, ◌≡◌, ◌↔◌,
  arith, eq_iff, if◌then◌else◌, Eq,
}
use mmo.Prelude.Text.{Text}
use mmo.Prelude.Dict.{Set, get, put, has, keys}
use mmo.Prelude.Float.{Float}
use mmo.Ecs.{Entity, Position, TriggerZone, TriggerSensor}
use mmo.Ecs.World.{World, query_trigger_zones, query_trigger_sensors}

pub record TriggerPair : Type 0 where
  pub zone : Entity
  pub sensor : Entity

abbrev pub pair_eq : TriggerPair → TriggerPair → Bool
pair_eq p q = p.zone == q.zone && p.sensor == q.sensor

pub pair_eq_iff : (p q : TriggerPair) → (pair_eq p q ≡ true) ↔ (p ≡ q)
pair_eq_iff p q = (
  λ h. ground (arith, eq_iff p.zone q.zone, eq_iff p.sensor q.sensor),
  λ e. ground (arith, e, eq_iff q.zone q.zone, eq_iff q.sensor q.sensor),
)

instance abbrev pub pair-Eq : Eq TriggerPair
pair-Eq = record { test = pair_eq; test_iff = pair_eq_iff }

pub data TriggerEventType : Type 0 where
  trigger_enter trigger_exit : TriggerEventType

pub record TriggerEvent : Type 0 where
  pub kind : TriggerEventType
  pub zone : Entity
  pub zone_id : Text
  pub sensor : Entity

pub record TriggerSystem : Type 0 where
  pub active : Set TriggerPair
  pub events : List TriggerEvent

abbrev pub new_trigger_system : TriggerSystem
new_trigger_system = record { active = []; events = [] }

-- The buffer is emptied.
unfoldable pub drain_events : TriggerSystem → TriggerSystem × List TriggerEvent
drain_events s = (record s { events = [] }, s.events)

-- The pairs that overlap now, and the events.
abbrev pub enter_if :
    Set TriggerPair
    → TriggerPair
    → Text
    → Bool
    → Set TriggerPair × List TriggerEvent
    → Set TriggerPair × List TriggerEvent
enter_if active p id false acc = acc
enter_if active p id true (current, events) = (
  put current p tt,
  if has active p
      then events
      else events
        ++ record { kind = trigger_enter; zone = p.zone; zone_id = id; sensor = p.sensor } ∷ [],
)

module _ {F : Type 0} ⦃fl : Float F⦄ where
  unfoldable pub overlaps_aabb : Position F → F → F → F → Position F → F → F → F → Bool
  overlaps_aabb a ax ay az b bx by' bz =
      fl.le (fl.abs (fl.sub a.x b.x)) (fl.add ax bx)
      && fl.le (fl.abs (fl.sub a.y b.y)) (fl.add ay by')
      && fl.le (fl.abs (fl.sub a.z b.z)) (fl.add az bz)

  abbrev pub touching : Position F → TriggerZone F → Position F → TriggerSensor F → Bool
  touching zp z sp s = overlaps_aabb zp z.half_x z.half_y z.half_z sp s.half_x s.half_y s.half_z

  abbrev pub check_sensor :
      Set TriggerPair
      → Entity
      → Position F
      → TriggerZone F
      → Entity
      → Option (Position F)
      → Option (TriggerSensor F)
      → Set TriggerPair × List TriggerEvent
      → Set TriggerPair × List TriggerEvent
  check_sensor active ze zp z se none s acc = acc
  check_sensor active ze zp z se (some sp) none acc = acc
  check_sensor active ze zp z se (some sp) (some s) acc =
      enter_if active (record { zone = ze; sensor = se }) z.id (touching zp z sp s) acc

  -- The inner loop.
  unfoldable pub check_sensors :
      World F
      → Set TriggerPair
      → Entity
      → Position F
      → TriggerZone F
      → List Entity
      → Set TriggerPair × List TriggerEvent
      → Set TriggerPair × List TriggerEvent
  check_sensors w active ze zp z [] acc = acc
  check_sensors w active ze zp z (se ∷ ses) acc =
      check_sensors w active ze zp z ses
        (check_sensor active ze zp z se (get w.positions se) (get w.trigger_sensors se) acc)

  abbrev pub check_zone :
      World F
      → Set TriggerPair
      → Entity
      → Option (Position F)
      → Option (TriggerZone F)
      → List Entity
      → Set TriggerPair × List TriggerEvent
      → Set TriggerPair × List TriggerEvent
  check_zone w active ze none z ses acc = acc
  check_zone w active ze (some zp) none ses acc = acc
  check_zone w active ze (some zp) (some z) ses acc = check_sensors w active ze zp z ses acc

  -- The outer loop.
  unfoldable pub check_zones :
      World F
      → Set TriggerPair
      → List Entity
      → List Entity
      → Set TriggerPair × List TriggerEvent
      → Set TriggerPair × List TriggerEvent
  unfolding check_sensors
  check_zones w active [] ses acc = acc
  check_zones w active (ze ∷ zes) ses acc =
      check_zones w active zes ses
        (check_zone w active ze (get w.positions ze) (get w.trigger_zones ze) ses acc)

  abbrev pub zone_id_of : Option (TriggerZone F) → Text
  zone_id_of none = []
  zone_id_of (some z) = z.id

  -- The loop over the pairs that overlapped before.
  unfoldable pub exits :
      World F → Set TriggerPair → List TriggerPair → List TriggerEvent → List TriggerEvent
  exits w current [] events = events
  exits w current (p ∷ ps) events = exits w current ps (
      if has current p
      then events
      else events
        ++ record {
          kind = trigger_exit;
          zone = p.zone;
          zone_id = zone_id_of (get w.trigger_zones p.zone);
          sensor = p.sensor;
        }
          ∷ [])

  unfoldable pub trigger_update : TriggerSystem → World F → TriggerSystem
  unfolding check_zones exits
  trigger_update s w =
      let (current, events) =
        check_zones w s.active (query_trigger_zones w) (query_trigger_sensors w) ([], s.events) in
      record { active = current; events = exits w current (keys s.active) events }
