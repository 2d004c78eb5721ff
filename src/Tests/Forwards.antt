-- ===== src/Tests/Forwards.antt =====
-- Examples for the theorems about the handoff of a player between two cells.
use mmo.Prelude.{ℕ, refl, some, ℕ-Eq, text-Eq, arith}
use mmo.Prelude.Text.{codes, trim_space}
use mmo.Prelude.Dict.{get}
use mmo.CellSvc.Handoff.{Clock}
use mmo.Forward.{Net, ForwardRequest, answered, unanswered, lost, forward_player_handoff}
use mmo.Forward.Keeps.{IsKept, forward_player_handoff-IsKept}
use mmo.Forward.Moves.{IsMoved, forward_player_handoff-IsMoved}
use mmo.Tests.{
  whole, root_id, root_cell, child_cell, ann, token, small_world, empty_world, sim_of, busy, idle,
}

abbrev request : ForwardRequest
request = record {
  parent_cell_id = root_id;
  child_cell_id = codes "cell_q0";
  player_id = ann;
  handoff_token = token;
}

abbrev clock : Clock
clock = record { pruned_at = 9; checked_at = 9; prepared_at = 9 }

abbrev good_net : Net ℕ
good_net = record {
  parent_spec = some root_cell;
  child_spec = some (child_cell (codes "cell_q0") 0 50 0 50);
  preparing = answered;
  accepting = answered;
  finalizing = answered;
}

-- The answer of Accept never arrives.
abbrev bad_net : Net ℕ
bad_net = record good_net { accepting = unanswered; finalizing = lost }

forward_player_handoff-IsMoved_example :
    IsMoved
      (forward_player_handoff good_net clock busy idle request)
      ann
      1
      1
      (record { x = 10; y = 0; z = 20 })
unfolding trim_space get
forward_player_handoff-IsMoved_example =
    forward_player_handoff-IsMoved good_net root_cell (child_cell (codes "cell_q0") 0 50 0 50) clock
      busy idle (sim_of small_world) (sim_of empty_world) request 1
      (record { x = 10; y = 0; z = 20 })
      (record {
        parent = refl;
        child = refl;
        preparing = refl;
        accepting = refl;
        finalizing = refl;
      })
      (record { child_id = refl; player_id = refl; token = refl; given = refl; apart = refl })
      (record { here = refl; there = refl; placed = refl; idle = refl; new = refl })
      (record { here = refl; absent = refl; new = refl; room = omega arith })

forward_player_handoff-IsKept_example :
    IsKept ann 1 (forward_player_handoff bad_net clock busy idle request)
unfolding trim_space get
forward_player_handoff-IsKept_example =
    forward_player_handoff-IsKept bad_net clock busy idle request 1 refl refl refl refl refl
