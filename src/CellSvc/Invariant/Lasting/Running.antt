-- ===== src/CellSvc/Invariant/Lasting/Running.antt =====
-- What any sequence of calls keeps (internal/grpc/cellsvc/server.go).
use mmo.Prelude.{
  ◌≡◌, Bool, true, false, Option, none, some, List, [], ◌∷◌, ℕ-Eq, text-Eq, if◌then◌else◌, All,
}
use mmo.Prelude.Text.{Text, trim_space}
use mmo.Prelude.Dict.{get}
use mmo.Prelude.Float.{Float}
use mmo.Ecs.{Entity}
use mmo.CellSvc.{Sim, Server}
use mmo.CellSvc.Players.{join, leave, apply_input, input_or_empty}
use mmo.CellSvc.Handoff.{prepare_player_handoff, accept_player_handoff, finalize_player_handoff}
use mmo.CellSvc.Invariant.Calls.{
  Call, joining, leaving, applying, preparing, accepting, finalizing, run_call, run_calls,
}
use mmo.CellSvc.Invariant.Lasting.{names, Lasts, Lasts-refl}
use mmo.CellSvc.Invariant.Lasting.Finishing.{finalize_sim-Lasts, leave_sim-Lasts}
use mmo.CellSvc.Invariant.Lasting.Joining.{join_sim-Lasts, apply_sim-Lasts}
use mmo.CellSvc.Invariant.Lasting.Placing.{prepare_sim-Lasts, accept_sim-Lasts}

module _ {F : Type 0} ⦃fl : Float F⦄ where
  -- The player that a Leave or a Finalize names.
  abbrev pub taken_by : Call F → Option Text
  taken_by (joining pid) = none
  taken_by (leaving pid) = some (trim_space pid)
  taken_by (applying pid i) = none
  taken_by (preparing now pid target token) = none
  taken_by (accepting p) = none
  taken_by (finalizing pid token) = some (trim_space pid)

  -- A call refused at once changes nothing.
  guarded-Lasts :
      {R : Type 0} (but : Option Text) (t : Bool) (s : Server F) (refusal : R) (step : Server F × R)
      → Lasts but s step.0
      → Lasts but s (if t then (s, refusal) else step).0
  guarded-Lasts but true s refusal step l = Lasts-refl but s
  guarded-Lasts but false s refusal step l = l

  run_call-Lasts : (s : Server F) (c : Call F) → Lasts (taken_by c) s (run_call s c)
  unfolding run_call join leave apply_input prepare_player_handoff accept_player_handoff
      finalize_player_handoff
  run_call-Lasts s (joining pid) =
      guarded-Lasts none _ s _ _ (join_sim-Lasts s s.sim (trim_space pid))
  run_call-Lasts s (leaving pid) =
      guarded-Lasts (some (trim_space pid)) _ s _ _ (leave_sim-Lasts s s.sim (trim_space pid))
  run_call-Lasts s (applying pid i) =
      guarded-Lasts none _ s _ _ (apply_sim-Lasts s s.sim (trim_space pid) (input_or_empty i))
  run_call-Lasts s (preparing now pid target token) =
      guarded-Lasts none _ s _ _
        (prepare_sim-Lasts s s.sim now (trim_space pid) (trim_space target) (trim_space token))
  run_call-Lasts s (accepting none) = Lasts-refl none s
  run_call-Lasts s (accepting (some p)) =
      guarded-Lasts none _ s _ _
        (accept_sim-Lasts s s.sim p (trim_space p.player_id) (trim_space p.handoff_token))
  run_call-Lasts s (finalizing pid token) =
      guarded-Lasts (some (trim_space pid)) _ s _ _
        (finalize_sim-Lasts s s.sim (trim_space pid) (trim_space token))

  -- The call is no Leave and no Finalize of the player.
  abbrev pub Spares : Text → Call F → Type 0
  Spares pid c = names (taken_by c) pid ≡ false

  pub run_calls-joined :
      (s : Server F) (sim : Sim F) (cs : List (Call F)) (pid : Text) (e : Entity)
      → All (Spares pid) cs
      → s.sim ≡ some sim
      → get s.player_by_id pid ≡ some e
      → ((sim' : Sim F) × ((run_calls s cs).sim ≡ some sim'))
        × (get (run_calls s cs).player_by_id pid ≡ some e)
  unfolding run_calls
  run_calls-joined s sim [] pid e spared here there = ((sim, here), there)
  run_calls-joined s sim (c ∷ cs) pid e spared here there =
      let l = run_call-Lasts s c in
      let (sim', here') = l.lit sim here in
      run_calls-joined (run_call s c) sim' cs pid e spared.1 here' (l.joined pid e spared.0 there)

  pub run_calls-accepted :
      (s : Server F) (sim : Sim F) (cs : List (Call F)) (token : Text) (e : Entity)
      → s.sim ≡ some sim
      → get s.accepted_by_tk token ≡ some e
      → ((sim' : Sim F) × ((run_calls s cs).sim ≡ some sim'))
        × (get (run_calls s cs).accepted_by_tk token ≡ some e)
  unfolding run_calls
  run_calls-accepted s sim [] token e here known = ((sim, here), known)
  run_calls-accepted s sim (c ∷ cs) token e here known =
      let l = run_call-Lasts s c in
      let (sim', here') = l.lit sim here in
      run_calls-accepted (run_call s c) sim' cs token e here' (l.accepted token e known)
