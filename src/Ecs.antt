-- ===== src/Ecs.antt =====
-- Entities and components of a cell's world (internal/ecs/entity.go, internal/ecs/component.go).
pub mod World
pub mod Systems
pub mod Trigger
pub mod Loop
pub mod Aoi
use mmo.Prelude.{ℕ}
use mmo.Prelude.Text.{Text}

-- uint64
abbrev pub Entity : Type 0
Entity = ℕ

pub record Position (F : Type 0) : Type 0 where
  pub x : F
  pub y : F
  pub z : F

pub record Velocity (F : Type 0) : Type 0 where
  pub vx : F
  pub vy : F
  pub vz : F

pub record Health (F : Type 0) : Type 0 where
  pub hp : F
  pub max_hp : F

pub record Collider (F : Type 0) : Type 0 where
  pub half_x : F
  pub half_y : F
  pub half_z : F

pub record TriggerZone (F : Type 0) : Type 0 where
  pub id : Text
  pub half_x : F
  pub half_y : F
  pub half_z : F

pub record TriggerSensor (F : Type 0) : Type 0 where
  pub half_x : F
  pub half_y : F
  pub half_z : F
