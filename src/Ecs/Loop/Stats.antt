-- ===== src/Ecs/Loop/Stats.antt =====
-- The statistics of the game loop, and its pause (internal/ecs/loop.go).
use mmo.Prelude.{ℕ, ◌+◌, ◌%◌, ◌^◌, ◌≤◌, ◌<◌, ◌≡◌, refl, ◌∙◌, List, [], ◌∷◌, length, All, arith}
use mmo.Prelude.Float.{Float}
use mmo.Ecs.Loop.{LoopStats, GameLoop, pause, resume, step, on_timer, run_steps}

abbrev pub total : List ℕ → ℕ
total [] = 0
total (n ∷ ns) = n + total ns

-- What the statistics say after steps that took the given times.
pub record HasTicked (before after : LoopStats) (times : List ℕ) : Type 0 where
  pub ticks : after.tick_count ≡ (before.tick_count + length times) % 2 ^ 64
  pub wall : after.total_wall_dur ≡ before.total_wall_dur + total times
  pub grows : before.worst_tick_dur ≤ after.worst_tick_dur
  pub worst : All (λ n. n ≤ after.worst_tick_dur) times

module _ {F : Type 0} ⦃fl : Float F⦄ where
  -- From a tick count within uint64, steps count up modulo 2^64, their times add up, and the worst time
  -- is no less than it was and than the time of any of them.
  pub run_steps-HasTicked :
      (g : GameLoop F) (times : List ℕ)
      → g.stats.tick_count < 2 ^ 64
      → HasTicked g.stats (run_steps g times).stats times
  unfolding run_steps step
  run_steps-HasTicked g [] small = record {
    ticks = omega arith;
    wall = omega arith;
    grows = omega arith;
    worst = tt;
  }
  run_steps-HasTicked g (n ∷ ns) small =
      let t = run_steps-HasTicked (step g n) ns (omega arith) in
      record {
        ticks = t.ticks ∙ omega arith;
        wall = t.wall ∙ omega arith;
        grows = ground (arith, t.grows);
        worst = (ground (arith, t.grows), t.worst);
      }

  -- The loop over the timer of Run.
  abbrev pub on_timers : GameLoop F → List ℕ → GameLoop F
  on_timers g [] = g
  on_timers g (n ∷ ns) = on_timers (on_timer g n) ns

  -- While the loop is paused its timer changes nothing, and after it is resumed every firing is a step.
  pub resume-on_timers :
      (g : GameLoop F) (idle busy : List ℕ)
      → on_timers (resume (on_timers (pause g) idle)) busy ≡ run_steps (resume g) busy
  unfolding on_timer run_steps step
  resume-on_timers g (n ∷ idle) busy = resume-on_timers g idle busy
  resume-on_timers g [] [] = refl
  resume-on_timers g [] (n ∷ busy) = resume-on_timers (step (resume g) n) [] busy
