-- ===== src/Tests/Players.antt =====
-- Examples for the theorems about the players of a cell server.
use mmo.Prelude.{ℕ, ◌≡◌, ◌≢◌, refl, true, false, some, List, [], ◌∷◌, ℕ-Eq, text-Eq, eq_iff, arith}
use mmo.Prelude.Text.{codes, trim_space}
use mmo.Prelude.Dict.{get}
use mmo.CellSvc.{Server, accept, PlayerHandoffState, is_player}
use mmo.CellSvc.Roster.{IsRoster}
use mmo.CellSvc.Players.{ClientInput, join, leave, apply_input, join_check, spawn_player}
use mmo.CellSvc.Players.Joining.{overlapping_joins, overlapping_joins_orphan}
use mmo.CellSvc.Players.Leaving.{leave-join_applies}
use mmo.CellSvc.Handoff.{accept_player_handoff, finalize_player_handoff}
use mmo.CellSvc.Handoff.Tokens.{finalize_again}
use mmo.CellSvc.Invariant.{IsConsistent}
use mmo.CellSvc.Invariant.Later.{join_later, accept_later}
use mmo.CellSvc.Invariant.Calls.{
  Call, joining, leaving, applying, preparing, finalizing, run_calls, run_calls-IsConsistent,
}
use mmo.Tests.{whole, ann, token, small_world, empty_world, sim_of, busy, idle}

abbrev forward_key : ClientInput ℕ
forward_key = record { input_mask = 1; aim_yaw_deg = 0 }

abbrev calls : List (Call ℕ)
calls =
    joining (codes "bob")
    ∷ preparing (record { pruned_at = 9; checked_at = 9; prepared_at = 9 }) ann (codes "cell_q0")
        token
    ∷ applying ann (some forward_key)
    ∷ finalizing ann token
    ∷ leaving (codes "bob")
    ∷ []

busy-IsRoster : IsRoster busy.player_by_id busy.players 1
unfolding get
busy-IsRoster = record {
  marked = λ p e h. ground (arith, eq_iff ann p);
  injective = λ p q e hp hq. ground (arith, eq_iff ann p, eq_iff ann q);
  bounded = λ p e h. ground arith;
  owned = λ e h. (ann, ground arith);
}

run_calls-IsConsistent_example : IsConsistent (run_calls busy calls) 0
run_calls-IsConsistent_example = run_calls-IsConsistent busy calls (busy-IsRoster, omega arith)

-- Calls between two Joins of bob, none of which takes him away.
abbrev others : List (Call ℕ)
others =
    applying (codes "bob") (some forward_key)
    ∷ preparing (record { pruned_at = 9; checked_at = 9; prepared_at = 9 }) ann (codes "cell_q0")
        token
    ∷ finalizing ann token
    ∷ leaving ann
    ∷ []

join_later_example :
    let t = run_calls (join busy (codes "bob")).0 others in
    join t (codes "bob") ≡ (
      t,
      record {
        ok = true;
        message = codes "already_joined";
        entity_id = (join busy (codes "bob")).1.entity_id;
      },
    )
unfolding join trim_space get
join_later_example =
    join_later busy (sim_of small_world) (codes "bob") others refl refl
      (refl, (refl, (refl, (refl, tt))))

overlapping_joins_orphan_example :
    let orphan = (spawn_player small_world).1 in
    let t = overlapping_joins busy (sim_of small_world) (codes "bob") in
    (is_player t orphan ≡ true) × (get t.player_by_id (codes "bob") ≢ some orphan)
unfolding join_check get
overlapping_joins_orphan_example =
    overlapping_joins_orphan busy (sim_of small_world) (codes "bob") (codes "bob") refl
      busy-IsRoster (omega arith)

leave-join_applies_example :
    (apply_input (join (leave busy ann).0 ann).0 ann (some forward_key)).1 ≡ accept (codes "ok")
unfolding trim_space
leave-join_applies_example =
    leave-join_applies busy (sim_of small_world) ann (some forward_key) refl refl refl

abbrev arrival : PlayerHandoffState ℕ
arrival = record {
  player_id = ann;
  position = record { x = 10; y = 0; z = 20 };
  velocity = record { x = 2; y = 0; z = 1 };
  hp_cur = 40;
  hp_max = 50;
  tick = 7;
  handoff_token = token;
  source_cell_id = codes "cell_root";
  target_cell_id = codes "cell_q0";
  source_entity_id = 1;
}

-- The player leaves before the payload comes again.
accept_later_example :
    let t = run_calls (accept_player_handoff idle (some arrival)).0 (leaving ann ∷ []) in
    accept_player_handoff t (some arrival) ≡ (
      t,
      record {
        ok = true;
        message = codes "already_accepted";
        entity_id = (accept_player_handoff idle (some arrival)).1.entity_id;
      },
    )
unfolding accept_player_handoff trim_space get
accept_later_example = accept_later idle (sim_of empty_world) arrival (leaving ann ∷ []) refl refl

-- The busy server, with a handoff of its player prepared.
abbrev leaving_ann : Server ℕ
leaving_ann = record busy {
  frozen_by_id = (ann, tt) ∷ [];
  prepared_by_id = (ann, token) ∷ [];
  prepared_by_tk =
      (
        token,
        record {
          player_id = ann;
          token = token;
          entity_id = 1;
          finalized = false;
          created_at = 9;
          payload = arrival;
        },
      )
      ∷ [];
}

finalize_again_example :
    finalize_player_handoff (finalize_player_handoff leaving_ann ann token).0 ann token
    ≡ ((finalize_player_handoff leaving_ann ann token).0, accept (codes "already_finalized"))
unfolding finalize_player_handoff trim_space get
finalize_again_example = finalize_again leaving_ann (sim_of small_world) ann token refl refl
