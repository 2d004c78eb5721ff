-- ===== src/CellSvc/Invariant/Later.antt =====
-- A call that comes again after any other calls (internal/grpc/cellsvc/server.go: Join,
-- AcceptPlayerHandoff).
use mmo.Prelude.{◌≡◌, true, some, List, All, text-Eq}
use mmo.Prelude.Text.{codes, Text, trim_space}
use mmo.Prelude.Float.{Float}
use mmo.CellSvc.{Sim, Server, PlayerHandoffState}
use mmo.CellSvc.Players.{join}
use mmo.CellSvc.Players.Joining.{join_there, join_good}
use mmo.CellSvc.Handoff.{accept_player_handoff}
use mmo.CellSvc.Handoff.Tokens.{accept_known, accept_good}
use mmo.CellSvc.Invariant.Calls.{Call, run_calls}
use mmo.CellSvc.Invariant.Lasting.Running.{Spares, run_calls-joined, run_calls-accepted}

module _ {F : Type 0} ⦃fl : Float F⦄ where
  -- After a Join that succeeds on a server with a simulation, and then any sequence of calls in which
  -- there is no Leave and no Finalize of the same player, a Join of the player gives the entity of the
  -- first Join and changes nothing. Each call runs as one step.
  pub join_later :
      (s : Server F) (sim : Sim F) (player_id : Text) (cs : List (Call F))
      → s.sim ≡ some sim
      → (join s player_id).1.ok ≡ true
      → All (Spares (trim_space player_id)) cs
      → let t = run_calls (join s player_id).0 cs in
        join t player_id ≡ (
          t,
          record {
            ok = true;
            message = codes "already_joined";
            entity_id = (join s player_id).1.entity_id;
          },
        )
  join_later s sim player_id cs here good spared =
      let (given, (sim', here'), there) = join_good s sim player_id here good in
      let e = (join s player_id).1.entity_id in
      let ((last, lit), still_there) =
        run_calls-joined (join s player_id).0 sim' cs (trim_space player_id) e spared here' there in
      join_there (run_calls (join s player_id).0 cs) last player_id e given lit still_there

  -- After an Accept that succeeds on a server with a simulation, and then any sequence of calls, an
  -- Accept of the same payload gives the entity of the first Accept and changes nothing. Each call runs
  -- as one step.
  pub accept_later :
      (s : Server F) (sim : Sim F) (payload : PlayerHandoffState F) (cs : List (Call F))
      → s.sim ≡ some sim
      → (accept_player_handoff s (some payload)).1.ok ≡ true
      → let t = run_calls (accept_player_handoff s (some payload)).0 cs in
        accept_player_handoff t (some payload) ≡ (
          t,
          record {
            ok = true;
            message = codes "already_accepted";
            entity_id = (accept_player_handoff s (some payload)).1.entity_id;
          },
        )
  accept_later s sim payload cs here good =
      let (given, (sim', here'), known) = accept_good s sim payload here good in
      let e = (accept_player_handoff s (some payload)).1.entity_id in
      let ((last, lit), still_known) =
        run_calls-accepted (accept_player_handoff s (some payload)).0 sim' cs
          (trim_space payload.handoff_token) e here' known in
      accept_known (run_calls (accept_player_handoff s (some payload)).0 cs) last payload e given
        lit still_known
