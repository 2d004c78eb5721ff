-- ===== src/CellSvc/Invariant/Finalize.antt =====
-- The player tables under FinalizePlayerHandoff (internal/grpc/cellsvc/server.go).
use mmo.Prelude.{
  ℕ, ◌≡◌, refl, ◌||◌, Option, none, some, ℕ-Eq, text-Eq, ◌==◌, Bool-cases, Option-cases, inl, inr,
}
use mmo.Prelude.Text.{Text, trim_space, is_empty}
use mmo.Prelude.Dict.{get}
use mmo.Ecs.{Entity}
use mmo.Ecs.World.{destroy_entity}
use mmo.CellSvc.{Sim, Server}
use mmo.CellSvc.Roster.{leave-IsRoster}
use mmo.CellSvc.Handoff.{
  unknown_token, finish_tables, finish_player, finalize_prepared, finalize_sim,
  finalize_player_handoff,
}
use mmo.CellSvc.Invariant.{RosterIn, IsConsistent, SameRoster, SameRoster-IsConsistent}
use mmo.CellSvc.Invariant.Handoff.{same}

module _ {F : Type 0} where
  unknown_token-SameRoster :
      (s : Server F) (pid token : Text) (active : Option Text)
      → SameRoster s (unknown_token s pid token active)
  unknown_token-SameRoster s pid token none = same s
  unknown_token-SameRoster s pid token (some active) = elim (Bool-cases (active == token)) [
    | inl e ↦
        rw e (record { sim = refl; players = refl; player_by_id = refl; accepted_by_tk = refl })
    | inr e ↦ rw e (same s)
  ]

  finish_player-IsConsistent :
      (s : Server F) (sim : Sim F) (pid : Text) (prepared : Entity) (found : Option Entity) (k : ℕ)
      → s.sim ≡ some sim
      → get s.player_by_id pid ≡ found
      → RosterIn s (some sim) k
      → IsConsistent (finish_player s sim pid prepared found) k
  unfolding destroy_entity
  finish_player-IsConsistent s sim pid prepared none k here absent h =
      elim (Bool-cases (prepared == 0)) [ inl e ↦ rw (e, here) h | inr e ↦ rw e h ]
  finish_player-IsConsistent s sim pid prepared (some cur) k here there h =
      (leave-IsRoster h.0 pid cur there, h.1)

  finalize_sim-IsConsistent :
      (s : Server F) (o : Option (Sim F)) (pid token : Text) (k : ℕ)
      → s.sim ≡ o
      → RosterIn s o k
      → IsConsistent (finalize_sim s o pid token).0 k
  unfolding finalize_prepared
  finalize_sim-IsConsistent s none pid token k here h = rw here tt
  finalize_sim-IsConsistent s (some sim) pid token k here h =
      elim (Option-cases (get s.prepared_by_tk token)) [
        | inl unknown ↦
            let t = unknown_token s pid token (get s.prepared_by_id pid) in
            rw unknown (
              SameRoster-IsConsistent s t k
                (unknown_token-SameRoster s pid token (get s.prepared_by_id pid)) (rw here h))
        | inr (pp, known) ↦ elim (Bool-cases (pp.player_id == pid)) [
          | inr other ↦ rw (known, other, here) h
          | inl own ↦ elim (Bool-cases pp.finalized) [
            | inl done ↦ rw (known, own, done, here) h
            | inr going ↦
                rw (known, own, going)
                  (finish_player-IsConsistent (finish_tables s pid token pp) sim pid pp.entity_id
                    (get s.player_by_id pid) k here refl h)
          ]
        ]
      ]

  -- FinalizePlayerHandoff.
  pub finalize_player_handoff-IsConsistent :
      (s : Server F) (player_id handoff_token : Text) (k : ℕ)
      → IsConsistent s k
      → IsConsistent (finalize_player_handoff s player_id handoff_token).0 k
  unfolding finalize_player_handoff
  finalize_player_handoff-IsConsistent s player_id handoff_token k h =
      let pid = trim_space player_id in
      let token = trim_space handoff_token in
      elim (Bool-cases (is_empty pid || is_empty token)) [
        | inl e ↦ rw e h
        | inr e ↦ rw e (finalize_sim-IsConsistent s s.sim pid token k refl h)
      ]
