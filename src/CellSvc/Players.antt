-- ===== src/CellSvc/Players.antt =====
-- Join, Leave and ApplyInput (internal/grpc/cellsvc/server.go, internal/grpc/cellsvc/input.go).
pub mod Joining
pub mod Leaving
use mmo.Prelude.{
  ℕ, ◌/◌, ◌%◌, Bool, true, false, ◌&&◌, ◌||◌, not, Option, none, some, List, [], ◌∷◌, ℕ-Eq, text-Eq,
  ◌==◌, if◌then◌else◌,
}
use mmo.Prelude.Text.{Text, codes, trim_space, is_empty}
use mmo.Prelude.Dict.{Dict, Set, get, put, remove, has, is_some}
use mmo.Prelude.Float.{Float}
use mmo.Ecs.{Entity, Position, Velocity, Health}
use mmo.Ecs.World.{World, create_entity, destroy_entity, set_position, set_velocity, set_health}
use mmo.CellSvc.{Sim, Server, Reply, refuse, accept, with_world, PreparedPlayerHandoff}

pub record ClientInput (F : Type 0) : Type 0 where
  pub input_mask : ℕ  -- uint32
  pub aim_yaw_deg : F

-- m & (1 << k) != 0, for m / 2^k
abbrev pub odd : ℕ → Bool
odd n = n % 2 == 1

abbrev pub without_player : Set Entity → Option Entity → Set Entity
without_player players none = players
without_player players (some e) = remove players e

abbrev pub reply_for : Option Entity → Bool → Option Reply
reply_for (some existing) drain =
    some (record { ok = true; message = codes "already_joined"; entity_id = existing })
reply_for none drain =
    if drain then some (refuse (codes "split_drain: new joins disabled")) else none

module _ {F : Type 0} where
  -- The first locked section of Join: a reply, or none where a player has to be spawned.
  unfoldable pub join_check : Server F → Text → Option Reply
  join_check s pid = reply_for (get s.player_by_id pid) s.split_drain

  -- The last locked section of Join.
  unfoldable pub join_commit : Server F → Text → Entity → Server F
  join_commit s pid e = record s {
    player_by_id = put s.player_by_id pid e;
    players = put s.players e tt;
  }

module _ {F : Type 0} ⦃fl : Float F⦄ where
  abbrev pub still : Velocity F
  still = record { vx = fl.num 0; vy = fl.num 0; vz = fl.num 0 }

  unfoldable pub velocity_from_client_input : ClientInput F → Velocity F
  velocity_from_client_input i =
      let speed = fl.num 6 in
      let m = i.input_mask in
      let vz0 = fl.num 0 in
      let vz1 = if odd m then fl.add vz0 speed else vz0 in
      let vz = if odd (m / 2) then fl.sub vz1 speed else vz1 in
      let vx0 = fl.num 0 in
      let vx1 = if odd (m / 4) then fl.sub vx0 speed else vx0 in
      let vx = if odd (m / 8) then fl.add vx1 speed else vx1 in
      let yaw = fl.div (fl.mul i.aim_yaw_deg fl.pi) (fl.num 180) in
      let c = fl.cos yaw in
      let s = fl.sin yaw in
      if not (fl.eq vx (fl.num 0)) || not (fl.eq vz (fl.num 0))
      then record {
        vx = fl.sub (fl.mul vx c) (fl.mul vz s);
        vy = fl.num 0;
        vz = fl.add (fl.mul vx s) (fl.mul vz c);
      }
      else record { vx = vx; vy = fl.num 0; vz = vz }

  -- The section under the lock of the simulation.
  unfoldable pub spawn_player : World F → World F × Entity
  spawn_player w0 =
      let (w, e) = create_entity w0 in
      (
        set_health
            (set_velocity (set_position w e (record { x = fl.num 0; y = fl.num 0; z = fl.num 0 })) e
              still)
            e (record { hp = fl.num 100; max_hp = fl.num 100 }),
        e,
      )

  abbrev pub join_spawn : Server F → Sim F → Text → Server F × Reply
  join_spawn s sim pid =
      let (w, e) = spawn_player sim.world in
      (
        join_commit (with_world s sim w) pid e,
        record { ok = true; message = codes "spawned"; entity_id = e },
      )

  abbrev pub join_after : Server F → Sim F → Text → Option Reply → Server F × Reply
  join_after s sim pid (some reply) = (s, reply)
  join_after s sim pid none = join_spawn s sim pid

  abbrev pub join_sim : Server F → Option (Sim F) → Text → Server F × Reply
  join_sim s none pid = (s, accept (codes "no_sim"))
  join_sim s (some sim) pid = join_after s sim pid (join_check s pid)

  unfoldable pub join : Server F → Text → Server F × Reply
  unfolding join_check spawn_player join_commit
  join s player_id =
      let pid = trim_space player_id in
      if is_empty pid then (s, refuse (codes "empty player_id")) else join_sim s s.sim pid

  -- The tokens that were prepared for the player are dropped.
  unfoldable pub drop_prepared_of :
      Text → Dict Text (PreparedPlayerHandoff F) → Dict Text (PreparedPlayerHandoff F)
  drop_prepared_of pid [] = []
  drop_prepared_of pid ((tok, pp) ∷ m) =
      let rest = drop_prepared_of pid m in if pp.player_id == pid then rest else (tok, pp) ∷ rest

  abbrev pub without_token :
      Dict Text (PreparedPlayerHandoff F) → Option Text → Dict Text (PreparedPlayerHandoff F)
  without_token m none = m
  without_token m (some tok) = remove m tok

  -- The locked section of Leave.
  unfoldable pub leave_locked : Server F → Text → Server F
  unfolding drop_prepared_of
  leave_locked s pid = record s {
    player_by_id = remove s.player_by_id pid;
    players = without_player s.players (get s.player_by_id pid);
    frozen_by_id = remove s.frozen_by_id pid;
    prepared_by_id = remove s.prepared_by_id pid;
    prepared_by_tk =
        drop_prepared_of pid (without_token s.prepared_by_tk (get s.prepared_by_id pid));
  }

  abbrev pub leave_world : Server F → Sim F → Option Entity → Server F × Reply
  leave_world s sim none = (s, accept (codes "noop"))
  leave_world s sim (some e) =
      (with_world s sim (destroy_entity sim.world e), accept (codes "left"))

  abbrev pub leave_sim : Server F → Option (Sim F) → Text → Server F × Reply
  leave_sim s none pid = (s, accept (codes "no_sim"))
  leave_sim s (some sim) pid = leave_world (leave_locked s pid) sim (get s.player_by_id pid)

  unfoldable pub leave : Server F → Text → Server F × Reply
  unfolding leave_locked
  leave s player_id =
      let pid = trim_space player_id in
      if is_empty pid then (s, refuse (codes "empty player_id")) else leave_sim s s.sim pid

  abbrev pub apply_to : Server F → Sim F → Option Entity → Bool → Velocity F → Server F × Reply
  apply_to s sim none frozen vel = (s, refuse (codes "unknown_player"))
  apply_to s sim (some e) frozen vel =
      if frozen
      then (s, refuse (codes "player_handoff_frozen"))
      else if has sim.world.positions e
      then (with_world s sim (set_velocity sim.world e vel), accept (codes "ok"))
      else (s, refuse (codes "entity_gone"))

  abbrev pub apply_sim : Server F → Option (Sim F) → Text → ClientInput F → Server F × Reply
  apply_sim s none pid input = (s, refuse (codes "no_sim"))
  apply_sim s (some sim) pid input =
      apply_to s sim (get s.player_by_id pid) (has s.frozen_by_id pid)
        (velocity_from_client_input input)

  -- A missing input is the empty one. The hook that counts calls is not part of the state.
  abbrev pub input_or_empty : Option (ClientInput F) → ClientInput F
  input_or_empty none = record { input_mask = 0; aim_yaw_deg = fl.num 0 }
  input_or_empty (some input) = input

  unfoldable pub apply_input : Server F → Text → Option (ClientInput F) → Server F × Reply
  unfolding velocity_from_client_input
  apply_input s player_id input =
      let pid = trim_space player_id in
      if is_empty pid
      then (s, refuse (codes "empty player_id"))
      else apply_sim s s.sim pid (input_or_empty input)
