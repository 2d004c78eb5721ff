-- ===== src/Ecs/Loop.antt =====
-- The game loop (internal/ecs/loop.go, internal/ecs/system.go). A reading of the clock is an argument:
-- the time that the systems took. A system is what its Update does to the world; state of its own is
-- not seen here.
pub mod Stats
use mmo.Prelude.{ℕ, ◌+◌, Bool, true, false, List, [], ◌∷◌, ltb, if◌then◌else◌}
use mmo.Prelude.Float.{Float}
use mmo.Ecs.World.{World, u64}

-- Durations count nanoseconds.
pub record LoopStats : Type 0 where
  pub tick_count : ℕ  -- uint64
  pub last_tick_dur : ℕ
  pub worst_tick_dur : ℕ
  pub total_wall_dur : ℕ

abbrev pub System : Type 0 → Type 0
System F = World F → F → World F

pub record GameLoop (F : Type 0) : Type 0 where
  pub tps : F
  pub world : World F
  pub systems : List (System F)
  pub stats : LoopStats
  pub paused : Bool

abbrev pub add_tick : LoopStats → ℕ → LoopStats
add_tick s elapsed = record {
  tick_count = u64 (s.tick_count + 1);
  last_tick_dur = elapsed;
  worst_tick_dur = if ltb s.worst_tick_dur elapsed then elapsed else s.worst_tick_dur;
  total_wall_dur = s.total_wall_dur + elapsed;
}

module _ {F : Type 0} where
  -- The loop over the systems.
  unfoldable pub run_systems : List (System F) → F → World F → World F
  run_systems [] dt w = w
  run_systems (update ∷ systems) dt w = run_systems systems dt (update w dt)

  abbrev pub pause : GameLoop F → GameLoop F
  pause g = record g { paused = true }

  abbrev pub resume : GameLoop F → GameLoop F
  resume g = record g { paused = false }

module _ {F : Type 0} ⦃fl : Float F⦄ where
  abbrev pub new_game_loop : World F → F → List (System F) → GameLoop F
  new_game_loop w tps systems = record {
    tps = if fl.le tps (fl.num 0) then fl.num 20 else tps;
    world = w;
    systems = systems;
    stats = record { tick_count = 0; last_tick_dur = 0; worst_tick_dur = 0; total_wall_dur = 0 };
    paused = false;
  }

  abbrev pub fixed_dt : GameLoop F → F
  fixed_dt g = fl.div (fl.num 1) g.tps

  unfoldable pub step : GameLoop F → ℕ → GameLoop F
  unfolding run_systems
  step g elapsed = record g {
    world = run_systems g.systems (fixed_dt g) g.world;
    stats = add_tick g.stats elapsed;
  }

  -- What Run does when its timer fires.
  unfoldable pub on_timer : GameLoop F → ℕ → GameLoop F
  unfolding step
  on_timer g elapsed = if g.paused then g else step g elapsed

  unfoldable pub run_steps : GameLoop F → List ℕ → GameLoop F
  unfolding step
  run_steps g [] = g
  run_steps g (elapsed ∷ rest) = run_steps (step g elapsed) rest
