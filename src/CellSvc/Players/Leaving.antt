-- ===== src/CellSvc/Players/Leaving.antt =====
-- Leave, and a Join and inputs after it (internal/grpc/cellsvc/server.go: Leave, Join, ApplyInput).
use mmo.Prelude.{
  ◌≡◌, ◌≢◌, refl, ◌∙◌, true, false, Option, none, some, [], ◌∷◌, arith, ℕ-Eq, text-Eq, eq_iff, ◌==◌,
  Bool-cases, inl, inr, some_cancel, ap,
}
use mmo.Prelude.Text.{Text, codes, trim_space, is_empty}
use mmo.Prelude.Dict.{Dict, get, has, get-put_self, get-remove_self}
use mmo.Prelude.Float.{Float}
use mmo.Ecs.{Entity}
use mmo.Ecs.World.{create_entity, destroy_entity, set_position, set_velocity, set_health}
use mmo.CellSvc.{Sim, Server, accept, PreparedPlayerHandoff}
use mmo.CellSvc.Players.{
  ClientInput, join, join_spawn, join_commit, spawn_player, leave, leave_sim, leave_locked,
  leave_world, drop_prepared_of, without_token, apply_input,
}
use mmo.CellSvc.Players.Joining.{join_absent}

module _ {F : Type 0} where
  -- No handoff of the player is left: it is not frozen, it has no token in flight, and no prepared
  -- token is its own.
  pub record IsClear (s : Server F) (pid : Text) : Type 0 where
    pub absent : get s.player_by_id pid ≡ none
    pub thawed : has s.frozen_by_id pid ≡ false
    pub idle : get s.prepared_by_id pid ≡ none
    pub unprepared :
        (token : Text) (pp : PreparedPlayerHandoff F)
        → get s.prepared_by_tk token ≡ some pp
        → pp.player_id ≢ pid

module _ {F : Type 0} ⦃fl : Float F⦄ where
  drop_prepared_of-others :
      (pid : Text) (m : Dict Text (PreparedPlayerHandoff F)) (token : Text)
      (pp : PreparedPlayerHandoff F)
      → get (drop_prepared_of pid m) token ≡ some pp
      → pp.player_id ≢ pid
  unfolding drop_prepared_of get
  drop_prepared_of-others pid [] token pp = ground arith
  drop_prepared_of-others pid ((tok, p) ∷ m) token pp = elim (Bool-cases (p.player_id == pid)) [
    | inl own ↦ rw own (drop_prepared_of-others pid m token pp)
    | inr other ↦ elim (Bool-cases (tok == token)) [
      | inl same ↦
          rw (other, same)
            (λ h e.
              ground
                (arith, eq_iff p.player_id pid, other, ap (λ x. x.player_id) (some_cancel h), e))
      | inr apart ↦ rw (other, apart) (drop_prepared_of-others pid m token pp)
    ]
  ]

  leave_locked-IsClear : (s : Server F) (pid : Text) → IsClear (leave_locked s pid) pid
  unfolding leave_locked
  leave_locked-IsClear s pid = record {
    absent = get-remove_self s.player_by_id pid;
    thawed = rw (get-remove_self s.frozen_by_id pid) refl;
    idle = get-remove_self s.prepared_by_id pid;
    unprepared =
        drop_prepared_of-others pid (without_token s.prepared_by_tk (get s.prepared_by_id pid));
  }

  leave_world-IsClear :
      (s : Server F) (sim : Sim F) (pid : Text) (found : Option Entity)
      → IsClear s pid
      → IsClear (leave_world s sim found).0 pid
  leave_world-IsClear s sim pid none c = c
  leave_world-IsClear s sim pid (some e) c = record {
    absent = c.absent;
    thawed = c.thawed;
    idle = c.idle;
    unprepared = c.unprepared;
  }

  leave_given :
      (s : Server F) (sim : Sim F) (player_id : Text)
      → is_empty (trim_space player_id) ≡ false
      → s.sim ≡ some sim
      → leave s player_id ≡ leave_sim s (some sim) (trim_space player_id)
  unfolding leave
  leave_given s sim player_id given here = simp (given, here)

  -- On a server with a simulation, after a Leave with a player id that is not blank the server knows
  -- no player of that id, and nothing of a handoff of it.
  pub leave-IsClear :
      (s : Server F) (sim : Sim F) (player_id : Text)
      → s.sim ≡ some sim
      → is_empty (trim_space player_id) ≡ false
      → IsClear (leave s player_id).0 (trim_space player_id)
  leave-IsClear s sim player_id here given =
      let pid = trim_space player_id in
      rw (leave_given s sim player_id given here) (
        leave_world-IsClear (leave_locked s pid) sim pid (get s.player_by_id pid)
          (leave_locked-IsClear s pid))

  -- An input of a player who is there, is not frozen and has a position is applied.
  apply_input_ok :
      (s : Server F) (sim : Sim F) (player_id : Text) (i : Option (ClientInput F)) (e : Entity)
      → is_empty (trim_space player_id) ≡ false
      → s.sim ≡ some sim
      → get s.player_by_id (trim_space player_id) ≡ some e
      → has s.frozen_by_id (trim_space player_id) ≡ false
      → has sim.world.positions e ≡ true
      → (apply_input s player_id i).1 ≡ accept (codes "ok")
  unfolding apply_input
  apply_input_ok s sim player_id i e given here there thawed placed =
      simp (given, here, there, thawed, placed)

  join_clear :
      (s : Server F) (sim : Sim F) (player_id : Text) (i : Option (ClientInput F))
      → is_empty (trim_space player_id) ≡ false
      → s.sim ≡ some sim
      → s.split_drain ≡ false
      → IsClear s (trim_space player_id)
      → (apply_input (join s player_id).0 player_id i).1 ≡ accept (codes "ok")
  unfolding join_commit spawn_player set_position set_velocity set_health create_entity
  join_clear s sim player_id i given here free c =
      let pid = trim_space player_id in
      let (w, e) = spawn_player sim.world in
      rw (join_absent s sim player_id given here c.absent free) (
        apply_input_ok (join_spawn s sim pid).0 (record sim { world = w }) player_id i e given refl
          (get-put_self s.player_by_id pid e) c.thawed (simp get-put_self))

  leave_world-sim :
      (s : Server F) (sim : Sim F) (found : Option Entity)
      → s.sim ≡ some sim
      → (t : Sim F) × ((leave_world s sim found).0.sim ≡ some t)
  leave_world-sim s sim none here = (sim, here)
  leave_world-sim s sim (some e) here = (record sim { world = destroy_entity sim.world e }, refl)

  leave_world-drain :
      (s : Server F) (sim : Sim F) (found : Option Entity)
      → (leave_world s sim found).0.split_drain ≡ s.split_drain
  leave_world-drain s sim none = refl
  leave_world-drain s sim (some e) = refl

  -- A player of a server with a simulation, not in a split drain, who leaves and joins again is not
  -- frozen by what was in flight before: the next input is applied.
  pub leave-join_applies :
      (s : Server F) (sim : Sim F) (player_id : Text) (i : Option (ClientInput F))
      → s.sim ≡ some sim
      → is_empty (trim_space player_id) ≡ false
      → s.split_drain ≡ false
      → (apply_input (join (leave s player_id).0 player_id).0 player_id i).1 ≡ accept (codes "ok")
  unfolding leave_locked
  leave-join_applies s sim player_id i here given free =
      let pid = trim_space player_id in
      let found = get s.player_by_id pid in
      let (t, lit) = leave_world-sim (leave_locked s pid) sim found here in
      let clear = leave-IsClear s sim player_id here given in
      let step = leave_given s sim player_id given here in
      join_clear (leave s player_id).0 t player_id i given (rw step lit)
        (rw step (leave_world-drain (leave_locked s pid) sim found ∙ free)) clear
