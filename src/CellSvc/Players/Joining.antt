-- ===== src/CellSvc/Players/Joining.antt =====
-- Repeated and overlapping Join calls of one player (internal/grpc/cellsvc/server.go: Join).
use mmo.Prelude.{
  ◌+◌, ◌^◌, ◌<◌, ◌≡◌, ◌≢◌, refl, true, false, none, some, arith, ℕ-Eq, text-Eq, eq_refl, Bool-cases,
  Option-cases, inl, inr,
}
use mmo.Prelude.Text.{Text, codes, trim_space, is_empty}
use mmo.Prelude.Dict.{get, put, get-put, get-put_self}
use mmo.Prelude.Float.{Float}
use mmo.Ecs.{Entity}
use mmo.Ecs.World.{create_entity, set_position, set_velocity, set_health, u64}
use mmo.CellSvc.{Sim, Server, with_world, is_player}
use mmo.CellSvc.Roster.{IsRoster}
use mmo.CellSvc.Players.{join, join_check, join_spawn, join_commit, spawn_player}

module _ {F : Type 0} ⦃fl : Float F⦄ where
  pub join_there :
      (t : Server F) (sim : Sim F) (player_id : Text) (e : Entity)
      → is_empty (trim_space player_id) ≡ false
      → t.sim ≡ some sim
      → get t.player_by_id (trim_space player_id) ≡ some e
      → join t player_id
        ≡ (t, record { ok = true; message = codes "already_joined"; entity_id = e })
  unfolding join join_check
  join_there t sim player_id e given here there = simp (given, here, there)

  pub join_absent :
      (s : Server F) (sim : Sim F) (player_id : Text)
      → is_empty (trim_space player_id) ≡ false
      → s.sim ≡ some sim
      → get s.player_by_id (trim_space player_id) ≡ none
      → s.split_drain ≡ false
      → join s player_id ≡ join_spawn s sim (trim_space player_id)
  unfolding join join_check
  join_absent s sim player_id given here absent free = simp (given, here, absent, free)

  -- A Join that succeeds on a server with a simulation leaves the player there with the entity that it
  -- replied.
  pub join_good :
      (s : Server F) (sim : Sim F) (player_id : Text)
      → s.sim ≡ some sim
      → (join s player_id).1.ok ≡ true
      → (is_empty (trim_space player_id) ≡ false)
        × ((sim' : Sim F) × ((join s player_id).0.sim ≡ some sim'))
        × (get (join s player_id).0.player_by_id (trim_space player_id)
            ≡ some (join s player_id).1.entity_id)
  unfolding join join_check join_commit
  join_good s sim player_id here good = elim (Bool-cases (is_empty (trim_space player_id))) [
    | inl e ↦ absurd (ground (arith, e, good))
    | inr given ↦ elim (Option-cases (get s.player_by_id (trim_space player_id))) [
      | inr (e, there) ↦
          rw (join_there s sim player_id e given here there) (given, (sim, here), there)
      | inl absent ↦ elim (Bool-cases s.split_drain) [
        | inl drain ↦ absurd (ground (arith, given, here, absent, drain, good))
        | inr free ↦
            let pid = trim_space player_id in
            let (w, e) = spawn_player sim.world in
            rw (join_absent s sim player_id given here absent free)
              (given, (record sim { world = w }, refl), get-put_self s.player_by_id pid e)
      ]
    ]
  ]

  -- Two Join calls of one player that both pass the first section before either comes to its last, in
  -- one of their orders: the first spawns, the second spawns, the first commits, the second commits.
  unfoldable pub overlapping_joins : Server F → Sim F → Text → Server F
  unfolding spawn_player join_commit
  overlapping_joins s sim pid =
      let (w1, e1) = spawn_player sim.world in
      let (w2, e2) = spawn_player w1 in
      join_commit (join_commit (with_world s sim w2) pid e1) pid e2

  -- Two Join calls of one player overlap in this order: both pass the first section, the first spawns,
  -- the second spawns, the first commits, the second commits. Where the first section lets the player
  -- through, the player tables fit each other and the last entity id, and two more ids fit in 64
  -- bits, the entity that the first call spawned stays marked as a player's and belongs to no player.
  pub overlapping_joins_orphan :
      (s : Server F) (sim : Sim F) (pid q : Text)
      → join_check s pid ≡ none
      → IsRoster s.player_by_id s.players sim.world.next_id
      → sim.world.next_id + 2 < 2 ^ 64
      → let orphan = (spawn_player sim.world).1 in
        let t = overlapping_joins s sim pid in
        (is_player t orphan ≡ true) × (get t.player_by_id q ≢ some orphan)
  unfolding overlapping_joins spawn_player join_commit create_entity set_position set_velocity
      set_health is_player
  overlapping_joins_orphan s sim pid q free r room =
      let n = sim.world.next_id in
      let e1 = u64 (n + 1) in
      let e2 = u64 (e1 + 1) in
      (
        ground
            (arith, get-put (put s.players e1 tt) e2 tt e1, get-put s.players e1 tt e1, eq_refl e1),
        λ h. ground (
          arith,
          h,
          get-put (put s.player_by_id pid e1) pid e2 q,
          get-put s.player_by_id pid e1 q,
          r.bounded q e1,
        ),
      )
