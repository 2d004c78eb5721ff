-- ===== src/Tests.antt =====
-- Concrete values for the examples: whole numbers in the place of float64, four cells, a world with
-- one player, and two cell servers.
pub mod Cells
pub mod Worlds
pub mod Players
pub mod Forwards
pub mod Admins
pub mod Loops
pub mod Grids
pub mod Transfers
pub mod Merges
use mmo.Prelude.{
  ℕ, ◌+◌, ◌-◌, ◌*◌, ◌/◌, Bool, true, false, Option, none, some, List, [], ◌∷◌, arith, ltb, leb,
  nat_eq, ℕ-Eq, text-Eq, ◌≡◌, refl,
}
use mmo.Prelude.Int.{ℤ, pos}
use mmo.Prelude.Text.{Text, codes}
use mmo.Prelude.Dict.{Dict, Set}
use mmo.Prelude.Float.{Float, FloatLaws}
use mmo.Cell.{Bounds, CellSpec}
use mmo.Ecs.{Position, Velocity, Health}
use mmo.Ecs.World.{World}
use mmo.CellSvc.{Sim, Server}

instance abbrev pub whole : Float ℕ
whole = record {
  num = λ n. n;
  half = 0;
  neg = λ n. n;
  add = λ a b. a + b;
  sub = λ a b. a - b;
  mul = λ a b. a * b;
  div = λ a b. a / b;
  abs = λ n. n;
  le = leb;
  lt = ltb;
  eq = nat_eq;
  floor = pos;
  cos = λ a. 1;
  sin = λ a. 0;
  pi = 3;
  round32 = λ n. n;
}

pub whole_laws : FloatLaws whole
whole_laws = record {
  le_num = λ a b h. ground arith;
  le_total = λ a b ha hb h. ground arith;
  le_antisymm = λ a b h k. ground arith;
  lt_irrefl = λ a. ground arith;
}

abbrev pub field : Bounds ℕ
field = record { x_min = 0; x_max = 100; z_min = 0; z_max = 100 }

abbrev pub root_id : Text
root_id = codes "cell_root"

abbrev pub root_cell : CellSpec ℕ
root_cell = record {
  id = root_id;
  bounds = some field;
  level = pos 0;
  grpc_endpoint = codes "root:1";
}

abbrev pub child_cell : Text → ℕ → ℕ → ℕ → ℕ → CellSpec ℕ
child_cell id x x' z z' = record {
  id = id;
  bounds = some (record { x_min = x; x_max = x'; z_min = z; z_max = z' });
  level = pos 1;
  grpc_endpoint = codes "child:1";
}

-- The four quadrants of the root, not in their order.
abbrev pub children : List (CellSpec ℕ)
children =
    child_cell (codes "cell_q1") 50 100 0 50
    ∷ child_cell (codes "cell_q0") 0 50 0 50
    ∷ child_cell (codes "cell_q3") 50 100 50 100
    ∷ child_cell (codes "cell_q2") 0 50 50 100
    ∷ []

abbrev pub ann : Text
ann = codes "ann"

abbrev pub token : Text
token = codes "t1"

-- A world where entity 1 moves, and has lost some health.
abbrev pub small_world : World ℕ
small_world = record {
  next_id = 1;
  alive = (1, tt) ∷ [];
  positions = (1, record { x = 10; y = 0; z = 20 }) ∷ [];
  velocities = (1, record { vx = 2; vy = 0; vz = 1 }) ∷ [];
  healths = (1, record { hp = 40; max_hp = 50 }) ∷ [];
  colliders = [];
  trigger_zones = [];
  trigger_sensors = [];
  dirty = [];
}

abbrev pub empty_world : World ℕ
empty_world = record {
  next_id = 0;
  alive = [];
  positions = [];
  velocities = [];
  healths = [];
  colliders = [];
  trigger_zones = [];
  trigger_sensors = [];
  dirty = [];
}

abbrev pub sim_of : World ℕ → Sim ℕ
sim_of w = record { world = w; tps = 20; tick_count = 7 }

abbrev pub server_of : Text → World ℕ → Dict Text ℕ → Set ℕ → Server ℕ
server_of id w players marks = record {
  cell_id = id;
  sim = some (sim_of w);
  bounds = some field;
  level = pos 0;
  players = marks;
  player_by_id = players;
  frozen_by_id = [];
  prepared_by_id = [];
  prepared_by_tk = [];
  accepted_by_tk = [];
  split_drain = false;
}

-- A server with a player, and one with none.
abbrev pub busy : Server ℕ
busy = server_of root_id small_world ((ann, 1) ∷ []) ((1, tt) ∷ [])

abbrev pub idle : Server ℕ
idle = server_of (codes "cell_q0") empty_world [] []
