-- ===== src/CellSvc/Invariant/Lasting.antt =====
-- What a cell server keeps through a call: the joined players and the accepted tokens
-- (internal/grpc/cellsvc/server.go).
pub mod Finishing
pub mod Joining
pub mod Placing
pub mod Running
use mmo.Prelude.{
  ℕ, ◌≡◌, refl, ap, some_cancel, ◌∙◌, Bool, true, false, Option, none, some, List, [], ◌∷◌, ℕ-Eq,
  text-Eq, ◌==◌, eq_iff, arith, Bool-cases, inl, inr, if◌then◌else◌, All,
}
use mmo.Prelude.Text.{Text, trim_space}
use mmo.Prelude.Dict.{get, get-put, get-remove, has}
use mmo.Prelude.Float.{Float}
use mmo.Ecs.{Entity, Position, Velocity}
use mmo.Ecs.World.{World}
use mmo.CellSvc.{Sim, Server, PlayerHandoffState, PreparedPlayerHandoff}
use mmo.CellSvc.Players.{
  ClientInput, reply_for, join, join_check, join_after, join_sim, join_commit, spawn_player, leave,
  leave_locked, leave_world, leave_sim, apply_input, apply_to, apply_sim, input_or_empty,
  velocity_from_client_input,
}
use mmo.CellSvc.Handoff.{
  Clock, Reserved, replied, reserved, prepare_reserve, prepare_capture, prepare_rest, prepare_sim,
  prepare_player_handoff, entity_for, accept_place, accept_new, accept_sim, accept_player_handoff,
  unknown_token, finish_tables, finish_player, finalize_prepared, finalize_sim,
  finalize_player_handoff,
}
use mmo.CellSvc.Invariant.{SameRoster}
use mmo.CellSvc.Invariant.Handoff.{prepare_reserve-SameRoster}
use mmo.CellSvc.Invariant.Calls.{
  Call, joining, leaving, applying, preparing, accepting, finalizing, run_call, run_calls,
}

-- The player that a call may take away.
abbrev pub names : Option Text → Text → Bool
names none pid = false
names (some p) pid = p == pid

module _ {F : Type 0} where
  -- The simulation stays, and so does every accepted token, and each player but perhaps the one named
  -- keeps the entity.
  pub record Lasts (but : Option Text) (s t : Server F) : Type 0 where
    pub lit : (sim : Sim F) → s.sim ≡ some sim → (sim' : Sim F) × (t.sim ≡ some sim')
    pub accepted :
        (token : Text) (e : Entity)
        → get s.accepted_by_tk token ≡ some e
        → get t.accepted_by_tk token ≡ some e
    pub joined :
        (pid : Text) (e : Entity)
        → names but pid ≡ false
        → get s.player_by_id pid ≡ some e
        → get t.player_by_id pid ≡ some e

  pub Lasts-refl : (but : Option Text) (s : Server F) → Lasts but s s
  Lasts-refl but s = record {
    lit = λ sim h. (sim, h);
    accepted = λ token e h. h;
    joined = λ pid e other h. h;
  }

  pub SameRoster-Lasts : (but : Option Text) (s t : Server F) → SameRoster s t → Lasts but s t
  SameRoster-Lasts but s t r = record {
    lit = λ sim h. (sim, r.sim ∙ h);
    accepted = λ token e h. rw r.accepted_by_tk h;
    joined = λ pid e other h. rw r.player_by_id h;
  }

  pub Lasts-trans :
      (but : Option Text) (s t u : Server F) → Lasts but s t → Lasts but t u → Lasts but s u
  Lasts-trans but s t u a b = record {
    lit = λ sim h. b.lit (a.lit sim h).0 (a.lit sim h).1;
    accepted = λ token e h. b.accepted token e (a.accepted token e h);
    joined = λ pid e other h. b.joined pid e other (a.joined pid e other h);
  }
