-- ===== src/CellSvc/Invariant/Handoff.antt =====
-- The player tables under PreparePlayerHandoff and AcceptPlayerHandoff
-- (internal/grpc/cellsvc/server.go).
use mmo.Prelude.{
  ℕ, suc, ◌+◌, ◌≡◌, refl, ◌∙◌, ◌||◌, Option, none, some, [], ◌∷◌, arith, ℕ-Eq, text-Eq, ◌==◌,
  Bool-cases, Option-cases, inl, inr,
}
use mmo.Prelude.Text.{Text, trim_space, is_empty}
use mmo.Prelude.Dict.{Dict, get}
use mmo.Prelude.Float.{Float}
use mmo.Ecs.{Entity, Position}
use mmo.Ecs.World.{create_entity, set_position, set_velocity, set_health, u64}
use mmo.CellSvc.{Sim, Server, PlayerHandoffState, PreparedPlayerHandoff}
use mmo.CellSvc.Roster.{join-IsRoster, keep-IsRoster}
use mmo.CellSvc.Handoff.{
  Clock, Reserved, replied, reserved, prunable, prune_entry, prune_entries, prune_stale_prepared,
  stale, in_flight_check, reserve_entity, reserve_checked, reserve_pruned, prepare_reserve,
  prepare_capture, prepare_rest, prepare_sim, prepare_player_handoff, accept_place, accept_sim,
  accept_player_handoff,
}
use mmo.CellSvc.Invariant.{RosterIn, IsConsistent, less_room, SameRoster}

module _ {F : Type 0} where
  pub same : (s : Server F) → SameRoster s s
  same s = record { sim = refl; players = refl; player_by_id = refl; accepted_by_tk = refl }

  then_same : (s t u : Server F) → SameRoster s t → SameRoster t u → SameRoster s u
  then_same s t u a b = record {
    sim = b.sim ∙ a.sim;
    players = b.players ∙ a.players;
    player_by_id = b.player_by_id ∙ a.player_by_id;
    accepted_by_tk = b.accepted_by_tk ∙ a.accepted_by_tk;
  }

  prune_entry-SameRoster :
      (now : ℕ) (s : Server F) (pid token : Text) → SameRoster s (prune_entry now s pid token)
  unfolding prune_entry
  prune_entry-SameRoster now s pid token =
      elim (Bool-cases (prunable now (get s.prepared_by_tk token))) [
        | inl e ↦
            rw e (record { sim = refl; players = refl; player_by_id = refl; accepted_by_tk = refl })
        | inr e ↦ rw e (same s)
      ]

  pub prune_entries-SameRoster :
      (now : ℕ) (m : Dict Text Text) (s : Server F) → SameRoster s (prune_entries now m s)
  unfolding prune_entries
  prune_entries-SameRoster now [] s = same s
  prune_entries-SameRoster now ((pid, token) ∷ m) s =
      let t = prune_entry now s pid token in
      then_same s t (prune_entries now m t) (prune_entry-SameRoster now s pid token)
        (prune_entries-SameRoster now m t)

  -- What the check for another handoff lets pass has the same tables.
  abbrev MaySame : Server F → Option (Server F) → Type 0
  MaySame s none = Unit
  MaySame s (some t) = SameRoster s t

  in_flight_check-MaySame :
      (s : Server F) (pid token : Text) (active : Option Text) (now : ℕ)
      → MaySame s (in_flight_check s pid token active now)
  in_flight_check-MaySame s pid token none now = same s
  in_flight_check-MaySame s pid token (some other) now = elim (Bool-cases (other == token)) [
    | inl own ↦ rw own (same s)
    | inr e ↦ elim (Option-cases (get s.prepared_by_tk other)) [
      | inl unknown ↦
          rw (e, unknown)
            (record { sim = refl; players = refl; player_by_id = refl; accepted_by_tk = refl })
      | inr (pp, known) ↦ elim (Bool-cases (stale now pp.created_at)) [
        | inl old ↦
            rw (e, known, old)
              (record { sim = refl; players = refl; player_by_id = refl; accepted_by_tk = refl })
        | inr fresh ↦ rw (e, known, fresh) tt
      ]
    ]
  ]

  reserve_entity-SameRoster :
      (s : Server F) (pid token : Text) (found : Option Entity)
      → SameRoster s (reserve_entity s pid token found).0
  reserve_entity-SameRoster s pid token none = same s
  reserve_entity-SameRoster s pid token (some e) = record {
    sim = refl;
    players = refl;
    player_by_id = refl;
    accepted_by_tk = refl;
  }

  reserve_checked-SameRoster :
      (s : Server F) (pid token : Text) (checked : Option (Server F))
      → MaySame s checked
      → SameRoster s (reserve_checked s pid token checked).0
  reserve_checked-SameRoster s pid token none h = same s
  reserve_checked-SameRoster s pid token (some t) h =
      then_same s t (reserve_checked s pid token (some t)).0 h
        (reserve_entity-SameRoster t pid token (get t.player_by_id pid))

  reserve_pruned-SameRoster :
      (s : Server F) (pid token : Text) (now : ℕ) (known : Option (PreparedPlayerHandoff F))
      → SameRoster s (reserve_pruned s pid token now known).0
  reserve_pruned-SameRoster s pid token now (some pp) = same s
  reserve_pruned-SameRoster s pid token now none =
      let active = get s.prepared_by_id pid in
      reserve_checked-SameRoster s pid token (in_flight_check s pid token active now)
        (in_flight_check-MaySame s pid token active now)

  pub prepare_reserve-SameRoster :
      (s : Server F) (now : Clock) (pid token : Text)
      → SameRoster s (prepare_reserve s now pid token).0
  unfolding prepare_reserve prune_stale_prepared
  prepare_reserve-SameRoster s now pid token =
      let t = prune_stale_prepared now.pruned_at s in
      then_same s t (prepare_reserve s now pid token).0
        (prune_entries-SameRoster now.pruned_at s.prepared_by_id s)
        (reserve_pruned-SameRoster t pid token now.checked_at (get t.prepared_by_tk token))

module _ {F : Type 0} ⦃fl : Float F⦄ where
  prepare_capture-IsConsistent :
      (s : Server F) (sim : Sim F) (now : ℕ) (pid target token : Text) (e : Entity)
      (pos : Option (Position F)) (k : ℕ)
      → s.sim ≡ some sim
      → RosterIn s (some sim) k
      → IsConsistent (prepare_capture s sim now pid target token e pos).0 k
  unfolding prepare_capture set_velocity
  prepare_capture-IsConsistent s sim now pid target token e none k here h = rw here h
  prepare_capture-IsConsistent s sim now pid target token e (some pos) k here h = h

  prepare_rest-IsConsistent :
      (s : Server F) (r : Reserved F) (sim : Sim F) (now : Clock) (pid target token : Text) (k : ℕ)
      → s.sim ≡ some sim
      → RosterIn s (some sim) k
      → IsConsistent (prepare_rest sim now pid target token (s, r)).0 k
  prepare_rest-IsConsistent s (replied reply) sim now pid target token k here h = rw here h
  prepare_rest-IsConsistent s (reserved e) sim now pid target token k here h =
      prepare_capture-IsConsistent s sim now.prepared_at pid target token e
        (get sim.world.positions e) k here h

  prepare_sim-IsConsistent :
      (s : Server F) (o : Option (Sim F)) (now : Clock) (pid target token : Text) (k : ℕ)
      → s.sim ≡ o
      → RosterIn s o k
      → IsConsistent (prepare_sim s o now pid target token).0 k
  prepare_sim-IsConsistent s none now pid target token k here h = rw here tt
  prepare_sim-IsConsistent s (some sim) now pid target token k here h =
      let (t, r) = prepare_reserve s now pid token in
      let kept = prepare_reserve-SameRoster s now pid token in
      prepare_rest-IsConsistent t r sim now pid target token k (kept.sim ∙ here)
        (rw (kept.players, kept.player_by_id) h.0, h.1)

  -- PreparePlayerHandoff.
  pub prepare_player_handoff-IsConsistent :
      (s : Server F) (now : Clock) (player_id target_cell_id handoff_token : Text) (k : ℕ)
      → IsConsistent s k
      → IsConsistent (prepare_player_handoff s now player_id target_cell_id handoff_token).0 k
  unfolding prepare_player_handoff
  prepare_player_handoff-IsConsistent s now player_id target_cell_id handoff_token k h =
      let pid = trim_space player_id in
      let target = trim_space target_cell_id in
      let token = trim_space handoff_token in
      elim (Bool-cases (is_empty pid || is_empty target || is_empty token)) [
        | inl e ↦ rw e h
        | inr e ↦ rw e (prepare_sim-IsConsistent s s.sim now pid target token k refl h)
      ]

  accept_place-IsConsistent :
      (s : Server F) (sim : Sim F) (payload : PlayerHandoffState F) (pid token : Text) (k : ℕ)
      → RosterIn s (some sim) (suc k)
      → IsConsistent (accept_place s sim payload pid token).0 k
  unfolding accept_place set_position set_velocity set_health create_entity
  accept_place-IsConsistent s sim payload pid token k h =
      elim (Option-cases (get s.player_by_id pid)) [
        | inl absent ↦
            let new : u64 (sim.world.next_id + 1) ≡ sim.world.next_id + 1 = omega (arith, h.1) in
            rw absent (
              rw new (join-IsRoster h.0 pid (sim.world.next_id + 1) absent (omega arith)),
              omega (arith, new, h.1),
            )
        | inr (e, there) ↦ rw there (keep-IsRoster h.0 pid e there, omega (arith, h.1))
      ]

  accept_sim-IsConsistent :
      (s : Server F) (o : Option (Sim F)) (payload : PlayerHandoffState F) (pid token : Text)
      (k : ℕ)
      → s.sim ≡ o
      → RosterIn s o (suc k)
      → IsConsistent (accept_sim s o payload pid token).0 k
  accept_sim-IsConsistent s none payload pid token k here h = rw here tt
  accept_sim-IsConsistent s (some sim) payload pid token k here h =
      elim (Option-cases (get s.accepted_by_tk token)) [
        | inl new ↦ rw new (accept_place-IsConsistent s sim payload pid token k h)
        | inr (e, old) ↦ rw (old, here) (less_room s (some sim) k h)
      ]

  -- AcceptPlayerHandoff.
  pub accept_player_handoff-IsConsistent :
      (s : Server F) (p : Option (PlayerHandoffState F)) (k : ℕ)
      → IsConsistent s (suc k)
      → IsConsistent (accept_player_handoff s p).0 k
  unfolding accept_player_handoff
  accept_player_handoff-IsConsistent s none k h = less_room s s.sim k h
  accept_player_handoff-IsConsistent s (some p) k h =
      let pid = trim_space p.player_id in
      let token = trim_space p.handoff_token in
      elim (Bool-cases (is_empty pid || is_empty token)) [
        | inl e ↦ rw e (less_room s s.sim k h)
        | inr e ↦ rw e (accept_sim-IsConsistent s s.sim p pid token k refl h)
      ]
