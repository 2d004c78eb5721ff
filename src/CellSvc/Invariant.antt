-- ===== src/CellSvc/Invariant.antt =====
-- The player tables and the world of a cell server under Join, Leave and ApplyInput
-- (internal/grpc/cellsvc/server.go).
pub mod Handoff
pub mod Finalize
pub mod Calls
pub mod Lasting
pub mod Later
use mathlib.Core.Path.{subst}
use mmo.Prelude.{
  ℕ, suc, ◌+◌, ◌^◌, ◌≤◌, ◌<◌, ◌≡◌, refl, sym, ap, ◌∙◌, Bool, true, false, ◌||◌, Option, none, some,
  List, [], ◌∷◌, arith, ℕ-Eq, text-Eq, eq_iff, ◌==◌, if◌then◌else◌, Bool-cases, Option-cases, inl,
  inr,
}
use mmo.Prelude.Text.{Text, trim_space, is_empty}
use mmo.Prelude.Dict.{Dict, Set, get, put, remove, has}
use mmo.Prelude.Float.{Float}
use mmo.Ecs.{Entity}
use mmo.Ecs.World.{
  World, create_entity, destroy_entity, set_position, set_velocity, set_health, u64,
}
use mmo.CellSvc.{Sim, Server, Reply, PlayerHandoffState, PreparedPlayerHandoff}
use mmo.CellSvc.Roster.{IsRoster, join-IsRoster, keep-IsRoster, leave-IsRoster, absent-IsRoster}
use mmo.CellSvc.Players.{
  ClientInput, reply_for, join_after, join, join_check, spawn_player, join_commit, leave,
  leave_locked, apply_input, join_sim, leave_sim, apply_sim, input_or_empty,
  velocity_from_client_input, leave_world,
}

module _ {F : Type 0} where
  -- The tables fit the world of the simulation, which has room for k more entities.
  abbrev pub RosterIn : Server F → Option (Sim F) → ℕ → Type 0
  RosterIn s none k = Unit
  RosterIn s (some sim) k =
      IsRoster s.player_by_id s.players sim.world.next_id × (sim.world.next_id + k < 2 ^ 64)

  abbrev pub IsConsistent : Server F → ℕ → Type 0
  IsConsistent s k = RosterIn s s.sim k

  pub less_room :
      (s : Server F) (o : Option (Sim F)) (k : ℕ) → RosterIn s o (suc k) → RosterIn s o k
  less_room s none k h = tt
  less_room s (some sim) k h = (h.0, omega arith)

  -- The server differs in no player table, and not in its simulation.
  pub record SameRoster (s t : Server F) : Type 0 where
    pub sim : t.sim ≡ s.sim
    pub players : t.players ≡ s.players
    pub player_by_id : t.player_by_id ≡ s.player_by_id
    pub accepted_by_tk : t.accepted_by_tk ≡ s.accepted_by_tk

  pub SameRoster-IsConsistent :
      (s t : Server F) (k : ℕ) → SameRoster s t → IsConsistent s k → IsConsistent t k
  SameRoster-IsConsistent s t k same h = go t.sim refl
    where
      go : (o : Option (Sim F)) → t.sim ≡ o → RosterIn t o k
      go none e = tt
      go (some sim) e =
          let old : RosterIn s (some sim) k = subst (λ o. RosterIn s o k) (sym same.sim ∙ e) h in
          (rw (same.players, same.player_by_id) old.0, old.1)

reply_for-none :
    (found : Option Entity) (drain : Bool) → reply_for found drain ≡ none → found ≡ none
reply_for-none (some e) drain h = cc
reply_for-none none drain h = refl

module _ {F : Type 0} ⦃fl : Float F⦄ where
  next_id-spawn_player :
      (w : World F)
      → w.next_id + 1 < 2 ^ 64
      → ((spawn_player w).1 ≡ w.next_id + 1) × ((spawn_player w).0.next_id ≡ w.next_id + 1)
  unfolding spawn_player create_entity set_position set_velocity set_health
  next_id-spawn_player w room = (omega arith, omega arith)

  join_after-IsConsistent :
      (s : Server F) (sim : Sim F) (pid : Text) (k : ℕ) (r : Option Reply)
      → s.sim ≡ some sim
      → RosterIn s (some sim) (suc k)
      → (r ≡ none → get s.player_by_id pid ≡ none)
      → IsConsistent (join_after s sim pid r).0 k
  unfolding join_commit
  join_after-IsConsistent s sim pid k (some reply) e h absent = rw e (less_room s (some sim) k h)
  join_after-IsConsistent s sim pid k none e h absent =
      let (new, last) = next_id-spawn_player sim.world (omega (arith, h.1)) in
      (
        rw last
            (rw new (join-IsRoster h.0 pid (sim.world.next_id + 1) (absent refl) (omega arith))),
        omega (arith, last, h.1),
      )

  join_sim-IsConsistent :
      (s : Server F) (o : Option (Sim F)) (pid : Text) (k : ℕ)
      → s.sim ≡ o
      → RosterIn s o (suc k)
      → IsConsistent (join_sim s o pid).0 k
  unfolding join_check
  join_sim-IsConsistent s none pid k e h = rw e tt
  join_sim-IsConsistent s (some sim) pid k e h =
      join_after-IsConsistent s sim pid k (join_check s pid) e h
        (reply_for-none (get s.player_by_id pid) s.split_drain)

  -- Join.
  pub join-IsConsistent :
      (s : Server F) (player_id : Text) (k : ℕ)
      → IsConsistent s (suc k)
      → IsConsistent (join s player_id).0 k
  unfolding join
  join-IsConsistent s player_id k h = elim (Bool-cases (is_empty (trim_space player_id))) [
    | inl e ↦ rw e (less_room s s.sim k h)
    | inr e ↦ rw e (join_sim-IsConsistent s s.sim (trim_space player_id) k refl h)
  ]

  leave_world-IsConsistent :
      (s : Server F) (sim : Sim F) (pid : Text) (k : ℕ) (found : Option Entity)
      → s.sim ≡ some sim
      → get s.player_by_id pid ≡ found
      → RosterIn s (some sim) k
      → IsConsistent (leave_world (leave_locked s pid) sim found).0 k
  unfolding leave_locked destroy_entity
  leave_world-IsConsistent s sim pid k none e absent h =
      rw (e, absent) (absent-IsRoster h.0 pid absent, h.1)
  leave_world-IsConsistent s sim pid k (some ent) e there h =
      rw there (leave-IsRoster h.0 pid ent there, h.1)

  leave_sim-IsConsistent :
      (s : Server F) (o : Option (Sim F)) (pid : Text) (k : ℕ)
      → s.sim ≡ o
      → RosterIn s o k
      → IsConsistent (leave_sim s o pid).0 k
  leave_sim-IsConsistent s none pid k e h = rw e tt
  leave_sim-IsConsistent s (some sim) pid k e h =
      leave_world-IsConsistent s sim pid k (get s.player_by_id pid) e refl h

  -- Leave.
  pub leave-IsConsistent :
      (s : Server F) (player_id : Text) (k : ℕ)
      → IsConsistent s k
      → IsConsistent (leave s player_id).0 k
  unfolding leave
  leave-IsConsistent s player_id k h = elim (Bool-cases (is_empty (trim_space player_id))) [
    | inl e ↦ rw e h
    | inr e ↦ rw e (leave_sim-IsConsistent s s.sim (trim_space player_id) k refl h)
  ]

  apply_sim-IsConsistent :
      (s : Server F) (o : Option (Sim F)) (pid : Text) (i : ClientInput F) (k : ℕ)
      → s.sim ≡ o
      → RosterIn s o k
      → IsConsistent (apply_sim s o pid i).0 k
  unfolding set_velocity
  apply_sim-IsConsistent s none pid i k e h = rw e tt
  apply_sim-IsConsistent s (some sim) pid i k e h = elim (Option-cases (get s.player_by_id pid)) [
    | inl none_there ↦ rw (none_there, e) h
    | inr (ent, there) ↦ elim (Bool-cases (has s.frozen_by_id pid)) [
      | inl frozen ↦ rw (there, frozen, e) h
      | inr free ↦ elim (Bool-cases (has sim.world.positions ent)) [
        | inl placed ↦ rw (there, free, placed) h
        | inr gone ↦ rw (there, free, gone, e) h
      ]
    ]
  ]

  -- ApplyInput.
  pub apply_input-IsConsistent :
      (s : Server F) (player_id : Text) (i : Option (ClientInput F)) (k : ℕ)
      → IsConsistent s k
      → IsConsistent (apply_input s player_id i).0 k
  unfolding apply_input
  apply_input-IsConsistent s player_id i k h = elim (Bool-cases (is_empty (trim_space player_id))) [
    | inl e ↦ rw e h
    | inr e ↦
        rw e (apply_sim-IsConsistent s s.sim (trim_space player_id) (input_or_empty i) k refl h)
  ]
