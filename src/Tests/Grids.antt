-- ===== src/Tests/Grids.antt =====
-- Examples for the theorems about the grid manager's policy and workflows.
use mmo.Prelude.{
  ℕ, suc, ◌+◌, ◌≤◌, ◌<◌, ◌≡◌, refl, Bool, true, false, Option, none, some, List, [], ◌∷◌, ◌++◌, map,
  length, inl, inr, In, text-Eq, ℕ-Eq, ◌==◌, if◌then◌else◌, arith,
}
use mmo.Prelude.Int.{ℤ, pos}
use mmo.Prelude.Text.{Text, codes, trim_space}
use mmo.Prelude.Dict.{Dict, Set, has, size}
use mmo.Prelude.Result.{Result, ok, err}
use mmo.Cell.{CellSpec}
use mmo.Grid.Policy.{LoadPolicyConfig, CellPolicyState, PolicySample, Effect, merge_maybe_start}
use mmo.Grid.Policy.Window.{Observation, actions, acts_on}
use mmo.Grid.Policy.Sustained.{IsBreachedSince, IsSpaced, action-IsBreachedSince, actions-IsSpaced}
use mmo.Grid.Policy.Live.{breach-acts}
use mmo.Grid.Workflow.{SplitWorkflowConfig, run}
use mmo.Grid.Workflow.Retry.{IsEnd, IsCapped, IsDoneBy, run-IsEnd, run-IsDoneBy}
use mmo.Grid.Workflow.Active.{asked, ended, after_events, after_events-bounded}
use mmo.Registry.{best_from}
use mmo.Grid.MergeChecks.{Surroundings, verify_resolve_to_parent}
use mmo.Grid.MergeChecks.Quiet.{IsVerified, verify_resolve_to_parent-IsVerified}
use mmo.Grid.Probes.{ChildCellSpec, Answer, resolve_child_probe_reasons}
use mmo.Grid.Probes.Found.{IsFound, resolve_child_probe_reasons-IsFound}
use mmo.Tests.{whole, root_id, root_cell, children}

abbrev policy : LoadPolicyConfig ℕ
policy = record {
  min_breach_duration = 20;
  cooldown = 100;
  auto_split_drain = true;
  auto_merge_workflow = true;
  merge_player_handoff = false;
  merge_low_load_for = pos 30;
  merge_cooldown = pos 60;
  merge_max_players = 0;
  merge_handoff_max_players = 32;
  merge_max_entities = 300;
  merge_max_tick_sec = 10;
}

abbrev sample_of : Text → PolicySample ℕ
sample_of id = record {
  cell_id = id;
  endpoint = codes "root:1";
  level = pos 0;
  reachable = true;
  players = 0;
  entities = 20;
  tick_sec = 1;
  violations = [];
}

abbrev over_at : ℕ → Observation ℕ
over_at t = record { now = t; sample = sample_of root_id; within = false }

action-IsBreachedSince_example :
    (since : ℕ) × IsBreachedSince root_id since (over_at 15 ∷ over_at 5 ∷ [])
    × (since + 20 ≤ 30)
    × (false ≡ false)
unfolding mmo.Prelude.Dict.get mmo.Grid.Policy.observe mmo.Grid.Policy.Window.state_after
    mmo.Prelude.Dict.put mmo.Grid.Policy.act
action-IsBreachedSince_example =
    action-IsBreachedSince policy none (λ ep. false) [] root_id (over_at 30)
      (over_at 15 ∷ over_at 5 ∷ []) refl refl

actions-IsSpaced_example : IsSpaced 100 (
    actions policy none
      (λ ep. false)
      []
      root_id
      (over_at 131 ∷ over_at 60 ∷ over_at 30 ∷ over_at 5 ∷ []))
unfolding mmo.Prelude.Dict.get
actions-IsSpaced_example =
    actions-IsSpaced policy none (λ ep. false) [] root_id
      (over_at 131 ∷ over_at 60 ∷ over_at 30 ∷ over_at 5 ∷ []) refl

breach-acts_example :
    0
    < length (
        actions policy none
          (λ ep. false)
          []
          root_id
          (over_at 130 ∷ ((over_at 15 ∷ []) ++ (over_at 5 ∷ []))))
unfolding mmo.Prelude.Dict.get mmo.Grid.Policy.Window.state_after actions
breach-acts_example =
    breach-acts policy none (λ ep. false) [] root_id [] (over_at 5) (over_at 15 ∷ []) (over_at 130)
      refl refl tt tt ((λ own. refl), tt) refl refl (omega arith)

abbrev grid : List (Option (CellSpec ℕ))
grid = some root_cell ∷ map some children

abbrev samples : Dict Text (PolicySample ℕ)
samples = map (λ (c : CellSpec ℕ). (c.id, sample_of c.id)) children

abbrev low : Dict Text CellPolicyState
low = (root_id, record { breach_since = some 10; last_action = none }) ∷ []

-- An attempt that succeeds from the second one on.
abbrev flaky : ℕ → ℕ → ℕ × Result (Unit {0}) (Unit {0})
flaky n s = (suc s, if n == 1 then err tt else ok tt)

run-IsEnd_example :
    let (s, end, waits) = run flaky (λ n. false) (pos 10) 3 (pos 4) 0 in
    IsEnd 1 3 end (length waits) × IsCapped (pos 10) waits
run-IsEnd_example = run-IsEnd flaky (λ n. false) (pos 10) 3 (pos 4) 0

run-IsDoneBy_example : IsDoneBy 2 (run flaky (λ n. false) (pos 10) 3 (pos 4) 0).1
run-IsDoneBy_example =
    run-IsDoneBy flaky (λ n. false) (pos 10) 2 3 (pos 4) 0 (λ k. refl) (λ s. refl) (omega arith)
      (omega arith)

abbrev splits : SplitWorkflowConfig
splits = record {
  enabled = true;
  max_retries = 4;
  initial_backoff = pos 1;
  max_backoff = pos 12;
  max_level = pos 0;
  max_concurrent = 1;
  blocked_cells = [];
}

after_events-bounded_example :
    size (
      after_events splits
        (asked (codes "cell_q1") ∷ asked (codes "cell_q0") ∷ ended (codes "cell_q2") ∷ []))
    ≤ 1
after_events-bounded_example =
    after_events-bounded splits
      (asked (codes "cell_q1") ∷ asked (codes "cell_q0") ∷ ended (codes "cell_q2") ∷ [])
      (omega arith)

abbrev first_child : ChildCellSpec ℕ
first_child = record {
  id = codes "cell_q0";
  level = pos 1;
  x_min = 0;
  x_max = 50;
  z_min = 0;
  z_max = 50;
}

-- What a catalog of the four children answers.
abbrev resolve_children : ℕ → ℕ → Answer Text ℕ
resolve_children x z = ok (best_from x z children none)

resolve_child_probe_reasons-IsFound_example : IsFound resolve_children children first_child
unfolding resolve_child_probe_reasons trim_space mmo.Grid.Probes.pick_resolve_probe
    mmo.Grid.Probes.probe_rows mmo.Grid.Probes.probe_row mmo.Partition.contains
    mmo.Grid.Probes.point_in_foreign_deeper_cell best_from
resolve_child_probe_reasons-IsFound_example =
    resolve_child_probe_reasons-IsFound resolve_children (first_child ∷ []) children first_child
      refl (inl refl) refl

-- The root alone is left in the catalog after its children are merged.
abbrev merged : Surroundings ℕ Text
merged = record {
  listing = ok (some root_cell ∷ []);
  resolving = λ x z. ok (best_from x z (root_cell ∷ []) none);
  ping_players = λ ep. ok (pos 0);
  player_handoff = false;
  max_players_move = pos 32;
}

verify_resolve_to_parent-IsVerified_example : IsVerified merged root_id
unfolding verify_resolve_to_parent mmo.Partition.split_four mmo.Partition.Path.child_id_for_quadrant
    mmo.Partition.Path.path_cell_id_re trim_space best_from mmo.Partition.contains
verify_resolve_to_parent-IsVerified_example =
    verify_resolve_to_parent-IsVerified merged root_id refl
