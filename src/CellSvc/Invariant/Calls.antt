-- ===== src/CellSvc/Invariant/Calls.antt =====
-- The handlers of one cell server in any order (internal/grpc/cellsvc/server.go).
use mmo.Prelude.{ℕ, suc, Option, List, [], ◌∷◌, length, ℕ-Eq, text-Eq}
use mmo.Prelude.Text.{Text}
use mmo.Prelude.Float.{Float}
use mmo.CellSvc.{Server, PlayerHandoffState}
use mmo.CellSvc.Players.{ClientInput, join, leave, apply_input}
use mmo.CellSvc.Handoff.{
  Clock, prepare_player_handoff, accept_player_handoff, finalize_player_handoff,
}
use mmo.CellSvc.Invariant.{
  IsConsistent, less_room, join-IsConsistent, leave-IsConsistent, apply_input-IsConsistent,
}
use mmo.CellSvc.Invariant.Handoff.{
  prepare_player_handoff-IsConsistent, accept_player_handoff-IsConsistent,
}
use mmo.CellSvc.Invariant.Finalize.{finalize_player_handoff-IsConsistent}

-- One call of a handler.
pub data Call (F : Type 0) : Type 0 where
  joining : Text → Call F
  leaving : Text → Call F
  applying : Text → Option (ClientInput F) → Call F
  preparing : Clock → Text → Text → Text → Call F
  accepting : Option (PlayerHandoffState F) → Call F
  finalizing : Text → Text → Call F

module _ {F : Type 0} ⦃fl : Float F⦄ where
  unfoldable pub run_call : Server F → Call F → Server F
  run_call s (joining pid) = (join s pid).0
  run_call s (leaving pid) = (leave s pid).0
  run_call s (applying pid i) = (apply_input s pid i).0
  run_call s (preparing now pid target token) = (prepare_player_handoff s now pid target token).0
  run_call s (accepting p) = (accept_player_handoff s p).0
  run_call s (finalizing pid token) = (finalize_player_handoff s pid token).0

  unfoldable pub run_calls : Server F → List (Call F) → Server F
  unfolding run_call
  run_calls s [] = s
  run_calls s (c ∷ cs) = run_calls (run_call s c) cs

  run_call-IsConsistent :
      (s : Server F) (c : Call F) (k : ℕ) → IsConsistent s (suc k) → IsConsistent (run_call s c) k
  unfolding run_call
  run_call-IsConsistent s (joining pid) k h = join-IsConsistent s pid k h
  run_call-IsConsistent s (leaving pid) k h = leave-IsConsistent s pid k (less_room s s.sim k h)
  run_call-IsConsistent s (applying pid i) k h =
      apply_input-IsConsistent s pid i k (less_room s s.sim k h)
  run_call-IsConsistent s (preparing now pid target token) k h =
      prepare_player_handoff-IsConsistent s now pid target token k (less_room s s.sim k h)
  run_call-IsConsistent s (accepting p) k h = accept_player_handoff-IsConsistent s p k h
  run_call-IsConsistent s (finalizing pid token) k h =
      finalize_player_handoff-IsConsistent s pid token k (less_room s s.sim k h)

  -- From a server whose player tables fit each other and its world, which has room for as many more
  -- entities as there are calls, the tables fit after any sequence of Join, Leave, ApplyInput,
  -- PreparePlayerHandoff, AcceptPlayerHandoff and FinalizePlayerHandoff, each run as one step.
  pub run_calls-IsConsistent :
      (s : Server F) (cs : List (Call F))
      → IsConsistent s (length cs)
      → IsConsistent (run_calls s cs) 0
  unfolding run_calls
  run_calls-IsConsistent s [] h = h
  run_calls-IsConsistent s (c ∷ cs) h =
      run_calls-IsConsistent (run_call s c) cs (run_call-IsConsistent s c (length cs) h)
