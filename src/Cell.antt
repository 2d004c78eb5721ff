-- ===== src/Cell.antt =====
-- The messages that describe cells (gen/cellv1/cell.pb.go). A pointer that may be nil is an Option.
use mmo.Prelude.{Option}
use mmo.Prelude.Int.{ℤ}
use mmo.Prelude.Text.{Text}

pub record Bounds (F : Type 0) : Type 0 where
  pub x_min : F
  pub x_max : F
  pub z_min : F
  pub z_max : F

pub record CellSpec (F : Type 0) : Type 0 where
  pub id : Text
  pub bounds : Option (Bounds F)
  pub level : ℤ  -- int32
  pub grpc_endpoint : Text

pub record PlanSplitResponseChild (F : Type 0) : Type 0 where
  pub id : Text
  pub bounds : Bounds F
  pub level : ℤ  -- int32
