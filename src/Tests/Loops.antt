-- ===== src/Tests/Loops.antt =====
-- Examples for the theorems about the game loop and the guard of merges.
use mmo.Prelude.{ℕ, [], ◌∷◌}
use mmo.Ecs.Systems.{movement_update}
use mmo.Ecs.Loop.{GameLoop, new_game_loop}
use mmo.Tests.{whole, small_world}

abbrev small_loop : GameLoop ℕ
small_loop = new_game_loop small_world 1 (movement_update ∷ [])
