-- ===== src/CellSvc/Handoff.antt =====
-- PreparePlayerHandoff, AcceptPlayerHandoff and FinalizePlayerHandoff
-- (internal/grpc/cellsvc/server.go).
pub mod Tokens
pub mod Effects
use mmo.Prelude.{
  ℕ, ◌+◌, Bool, true, false, ◌&&◌, ◌||◌, not, Option, none, some, List, [], ◌∷◌, ℕ-Eq, text-Eq,
  ◌==◌, ltb, if◌then◌else◌,
}
use mmo.Prelude.Text.{Text, codes, trim_space, is_empty}
use mmo.Prelude.Dict.{Dict, Set, get, put, remove, has, is_some}
use mmo.Prelude.Float.{Float}
use mmo.Ecs.{Entity, Position, Velocity, Health}
use mmo.Ecs.World.{World, create_entity, destroy_entity, set_position, set_velocity, set_health}
use mmo.CellSvc.{
  Sim, Vec3f, PlayerHandoffState, PreparedPlayerHandoff, Server, Reply, refuse, accept, with_world,
  handoff_in_flight_stale_timeout,
}
use mmo.CellSvc.Players.{still}

-- The readings of the clock within one PreparePlayerHandoff.
pub record Clock : Type 0 where
  pub pruned_at : ℕ
  pub checked_at : ℕ
  pub prepared_at : ℕ

pub record PrepareReply (F : Type 0) : Type 0 where
  pub ok : Bool
  pub message : Text
  pub payload : Option (PlayerHandoffState F)

-- The handoff began longer ago than the timeout, or has no time.
abbrev pub stale : ℕ → ℕ → Bool
stale now created_at = created_at == 0 || ltb (created_at + handoff_in_flight_stale_timeout) now

-- What the first locked section leaves to do: nothing but a reply, or the capture of an entity.
pub data Reserved (F : Type 0) : Type 0 where
  replied : PrepareReply F → Reserved F
  reserved : Entity → Reserved F

module _ {F : Type 0} where
  abbrev pub refuse_prepare : Text → PrepareReply F
  refuse_prepare message = record { ok = false; message = message; payload = none }

  abbrev pub prunable : ℕ → Option (PreparedPlayerHandoff F) → Bool
  prunable now none = true
  prunable now (some pp) = pp.finalized || stale now pp.created_at

  -- Drops a player's handoff in flight.
  abbrev pub forget_handoff : Server F → Text → Text → Server F
  forget_handoff s pid token = record s {
    prepared_by_id = remove s.prepared_by_id pid;
    frozen_by_id = remove s.frozen_by_id pid;
    prepared_by_tk = remove s.prepared_by_tk token;
  }

  unfoldable pub prune_entry : ℕ → Server F → Text → Text → Server F
  prune_entry now s pid token =
      if prunable now (get s.prepared_by_tk token)
      then record s {
        prepared_by_id = remove s.prepared_by_id pid;
        frozen_by_id = remove s.frozen_by_id pid;
        prepared_by_tk = if is_empty token then s.prepared_by_tk else remove s.prepared_by_tk token;
      }
      else s

  -- The loop over the entries of preparedByID.
  unfoldable pub prune_entries : ℕ → Dict Text Text → Server F → Server F
  unfolding prune_entry
  prune_entries now [] s = s
  prune_entries now ((pid, token) ∷ m) s = prune_entries now m (prune_entry now s pid token)

  unfoldable pub prune_stale_prepared : ℕ → Server F → Server F
  unfolding prune_entries
  prune_stale_prepared now s = prune_entries now s.prepared_by_id s

  -- Another token of the player in flight refuses the call, unless it is stale and is dropped.
  abbrev pub in_flight_check : Server F → Text → Text → Option Text → ℕ → Option (Server F)
  in_flight_check s pid token none now = some s
  in_flight_check s pid token (some other) now =
      if other == token then some s else elim (get s.prepared_by_tk other) [
        | none ↦ some (forget_handoff s pid other)
        | some pp ↦ if stale now pp.created_at then some (forget_handoff s pid other) else none
      ]

  abbrev pub freeze : Server F → Text → Text → Server F
  freeze s pid token = record s {
    prepared_by_id = put s.prepared_by_id pid token;
    frozen_by_id = put s.frozen_by_id pid tt;
  }

  abbrev pub reserve_entity : Server F → Text → Text → Option Entity → Server F × Reserved F
  reserve_entity s pid token none = (s, replied (refuse_prepare (codes "unknown_player")))
  reserve_entity s pid token (some e) = (freeze s pid token, reserved e)

  abbrev pub reserve_checked : Server F → Text → Text → Option (Server F) → Server F × Reserved F
  reserve_checked s pid token none =
      (s, replied (refuse_prepare (codes "handoff already in progress for player")))
  reserve_checked s pid token (some s') = reserve_entity s' pid token (get s'.player_by_id pid)

  abbrev pub reserve_pruned :
      Server F → Text → Text → ℕ → Option (PreparedPlayerHandoff F) → Server F × Reserved F
  reserve_pruned s pid token now (some existing) = (
    s,
    replied
        (record { ok = true; message = codes "already_prepared"; payload = some existing.payload }),
  )
  reserve_pruned s pid token now none =
      reserve_checked s pid token (in_flight_check s pid token (get s.prepared_by_id pid) now)

  -- The first locked section.
  unfoldable pub prepare_reserve : Server F → Clock → Text → Text → Server F × Reserved F
  unfolding prune_stale_prepared
  prepare_reserve s0 now pid token =
      let s = prune_stale_prepared now.pruned_at s0 in
      reserve_pruned s pid token now.checked_at (get s.prepared_by_tk token)

module _ {F : Type 0} ⦃fl : Float F⦄ where
  abbrev pub velocity_or_still : Option (Velocity F) → Velocity F
  velocity_or_still none = still
  velocity_or_still (some v) = v

  abbrev pub full_health : Health F
  full_health = record { hp = fl.num 100; max_hp = fl.num 100 }

  abbrev pub health_or_full : Option (Health F) → Health F
  health_or_full none = full_health
  health_or_full (some h) = if fl.le h.max_hp (fl.num 0) then full_health else h

  abbrev pub payload_of :
      Server F → Sim F → Text → Text → Text → Entity → Position F → PlayerHandoffState F
  payload_of s sim pid target token e pos =
      let vel = velocity_or_still (get sim.world.velocities e) in
      let hp = health_or_full (get sim.world.healths e) in
      record {
        player_id = pid;
        position = record { x = fl.round32 pos.x; y = fl.round32 pos.y; z = fl.round32 pos.z };
        velocity = record { x = fl.round32 vel.vx; y = fl.round32 vel.vy; z = fl.round32 vel.vz };
        hp_cur = fl.round32 hp.hp;
        hp_max = fl.round32 hp.max_hp;
        tick = sim.tick_count;
        handoff_token = token;
        source_cell_id = s.cell_id;
        target_cell_id = target;
        source_entity_id = e;
      }

  -- The entity stops in this world, and the token keeps what is handed over; without a position the
  -- reservation is taken back.
  unfoldable pub prepare_capture :
      Server F
      → Sim F
      → ℕ
      → Text
      → Text
      → Text
      → Entity
      → Option (Position F)
      → Server F × PrepareReply F
  prepare_capture s sim now pid target token e none = (
    record s {
      prepared_by_id = remove s.prepared_by_id pid;
      frozen_by_id = remove s.frozen_by_id pid;
    },
    refuse_prepare (codes "entity_gone"),
  )
  prepare_capture s sim now pid target token e (some pos) =
      let payload = payload_of s sim pid target token e pos in
      let s' = with_world s sim (set_velocity sim.world e still) in
      (
        record s' {
          prepared_by_tk = put s'.prepared_by_tk token (record {
            player_id = pid;
            token = token;
            entity_id = e;
            finalized = false;
            created_at = now;
            payload = payload;
          });
        },
        record { ok = true; message = codes "prepared"; payload = some payload },
      )

  abbrev pub prepare_rest :
      Sim F → Clock → Text → Text → Text → Server F × Reserved F → Server F × PrepareReply F
  prepare_rest sim now pid target token (s, replied reply) = (s, reply)
  prepare_rest sim now pid target token (s, reserved e) =
      prepare_capture s sim now.prepared_at pid target token e (get sim.world.positions e)

  abbrev pub prepare_sim :
      Server F → Option (Sim F) → Clock → Text → Text → Text → Server F × PrepareReply F
  prepare_sim s none now pid target token = (s, refuse_prepare (codes "no_sim"))
  prepare_sim s (some sim) now pid target token =
      prepare_rest sim now pid target token (prepare_reserve s now pid token)

  unfoldable pub prepare_player_handoff :
      Server F → Clock → Text → Text → Text → Server F × PrepareReply F
  unfolding prepare_reserve prepare_capture
  prepare_player_handoff s now player_id target_cell_id handoff_token =
      let pid = trim_space player_id in
      let target = trim_space target_cell_id in
      let token = trim_space handoff_token in
      if is_empty pid || is_empty target || is_empty token
      then (s, refuse_prepare (codes "player_id, target_cell_id, handoff_token required"))
      else prepare_sim s s.sim now pid target token

  -- The entity of the player, or a new one.
  abbrev pub entity_for : World F → Option Entity → World F × Entity
  entity_for w none = create_entity w
  entity_for w (some e) = (w, e)

  abbrev pub accepted_health : PlayerHandoffState F → Health F
  accepted_health p =
      let max_hp = if fl.le p.hp_max (fl.num 0) then fl.num 100 else p.hp_max in
      record { hp = if fl.le p.hp_cur (fl.num 0) then max_hp else p.hp_cur; max_hp = max_hp }

  abbrev pub accepted_position : PlayerHandoffState F → Position F
  accepted_position p = record { x = p.position.x; y = p.position.y; z = p.position.z }

  abbrev pub accepted_velocity : PlayerHandoffState F → Velocity F
  accepted_velocity p = record { vx = p.velocity.x; vy = p.velocity.y; vz = p.velocity.z }

  unfoldable pub accept_place :
      Server F → Sim F → PlayerHandoffState F → Text → Text → Server F × Reply
  accept_place s sim payload pid token =
      let (w, e) = entity_for sim.world (get s.player_by_id pid) in
      let w' =
        set_health
          (set_velocity (set_position w e (accepted_position payload)) e
            (accepted_velocity payload))
          e (accepted_health payload) in
      (
        record (with_world s sim w') {
          player_by_id = put s.player_by_id pid e;
          players = put s.players e tt;
          accepted_by_tk = put s.accepted_by_tk token e;
        },
        record { ok = true; message = codes "accepted"; entity_id = e },
      )

  abbrev pub accept_new :
      Server F → Sim F → PlayerHandoffState F → Text → Text → Option Entity → Server F × Reply
  accept_new s sim payload pid token (some e) =
      (s, record { ok = true; message = codes "already_accepted"; entity_id = e })
  accept_new s sim payload pid token none = accept_place s sim payload pid token

  abbrev pub accept_sim :
      Server F → Option (Sim F) → PlayerHandoffState F → Text → Text → Server F × Reply
  accept_sim s none payload pid token = (s, refuse (codes "no_sim"))
  accept_sim s (some sim) payload pid token =
      accept_new s sim payload pid token (get s.accepted_by_tk token)

  unfoldable pub accept_player_handoff : Server F → Option (PlayerHandoffState F) → Server F × Reply
  unfolding accept_place
  accept_player_handoff s none = (s, refuse (codes "empty payload"))
  accept_player_handoff s (some payload) =
      let pid = trim_space payload.player_id in
      let token = trim_space payload.handoff_token in
      if is_empty pid || is_empty token
      then (s, refuse (codes "payload.player_id and payload.handoff_token required"))
      else accept_sim s s.sim payload pid token

module _ {F : Type 0} where
  abbrev pub unknown_token : Server F → Text → Text → Option Text → Server F
  unknown_token s pid token none = s
  unknown_token s pid token (some active) =
      if active == token
      then record s {
        prepared_by_id = remove s.prepared_by_id pid;
        frozen_by_id = remove s.frozen_by_id pid;
      }
      else s

  -- The locked section that ends the handoff on the side of the tables.
  abbrev pub finish_tables : Server F → Text → Text → PreparedPlayerHandoff F → Server F
  finish_tables s pid token pp = record s {
    prepared_by_tk = put s.prepared_by_tk token (record pp { finalized = true });
    prepared_by_id = remove s.prepared_by_id pid;
    frozen_by_id = remove s.frozen_by_id pid;
  }

  abbrev pub finish_player : Server F → Sim F → Text → Entity → Option Entity → Server F
  finish_player s sim pid prepared none =
      if prepared == 0 then s else with_world s sim (destroy_entity sim.world prepared)
  finish_player s sim pid prepared (some cur) =
      let s' = record s {
        player_by_id = remove s.player_by_id pid;
        players = remove s.players cur;
      } in
      with_world s' sim (destroy_entity sim.world cur)

  unfoldable pub finalize_prepared :
      Server F → Sim F → Text → Text → Option (PreparedPlayerHandoff F) → Server F × Reply
  finalize_prepared s sim pid token none =
      (unknown_token s pid token (get s.prepared_by_id pid), refuse (codes "unknown handoff_token"))
  finalize_prepared s sim pid token (some pp) =
      if not (pp.player_id == pid)
      then (s, refuse (codes "handoff_token does not match player_id"))
      else if pp.finalized
      then (s, accept (codes "already_finalized"))
      else (
        finish_player (finish_tables s pid token pp) sim pid pp.entity_id (get s.player_by_id pid),
        accept (codes "finalized"),
      )

  abbrev pub finalize_sim : Server F → Option (Sim F) → Text → Text → Server F × Reply
  finalize_sim s none pid token = (s, refuse (codes "no_sim"))
  finalize_sim s (some sim) pid token =
      finalize_prepared s sim pid token (get s.prepared_by_tk token)

  unfoldable pub finalize_player_handoff : Server F → Text → Text → Server F × Reply
  unfolding finalize_prepared
  finalize_player_handoff s player_id handoff_token =
      let pid = trim_space player_id in
      let token = trim_space handoff_token in
      if is_empty pid || is_empty token
      then (s, refuse (codes "player_id and handoff_token required"))
      else finalize_sim s s.sim pid token
