-- ===== src/Tests/Merges.antt =====
-- Examples for the theorems about the merge of cells.
use mmo.Prelude.{ℕ, ◌≡◌, ◌≢◌, ◌↔◌, unset, refl, true, Option, some, List, [], ◌∷◌, map, In, text-Eq}
use mmo.Prelude.Int.{pos}
use mmo.Prelude.Text.{codes}
use mmo.Cell.{CellSpec}
use mmo.CellSvc.Admin.{set_split_drain}
use mmo.CellSvc.Npc.{PersistCodec, CellReply, fixed, admin_update}
use mmo.RegistrySvc.{Remote, History, update_call}
use mmo.RegistrySvc.Quiet.{last_drain_sent}
use mmo.RegistrySvc.Merge.{MergeConfig, MergeRequest, unique_cell_ids, forward_merge_handoff}
use mmo.RegistrySvc.Merge.Ids.{IsUnique, IsAsked, unique_cell_ids-In}
use mmo.RegistrySvc.Merge.Drained.{forward_merge_handoff-last_drain}
use mmo.Tests.{whole, root_id, root_cell, children}

abbrev grid : List (Option (CellSpec ℕ))
grid = some root_cell ∷ map some children

abbrev reply : CellReply
reply = record { good = true; message = fixed (codes "ok"); npc_export_json = codes "{}" }

-- A catalog and cells that answer every call.
abbrev steady : Remote ℕ
steady = record {
  has_store = true;
  list = λ h. some grid;
  dials = λ ep. true;
  update = λ h ep upd. some reply;
  ping = λ h ep. some (pos 0);
  candidates = λ h ep. some [];
  player = λ h req. true;
  save = λ h. true;
  stamp = λ h. codes "1";
}

abbrev codec : PersistCodec ℕ
codec = record {
  marshal = λ p. some (codes "{}");
  unmarshal = λ raw. some (record { schema_version = 1; tick = 0; loop_tps = 0; entities = [] });
}

abbrev config : MergeConfig
config = record { player_handoff_enabled = true; player_handoff_max = pos 32 }

abbrev request : MergeRequest
request = record {
  parent_cell_id = root_id;
  child_cell_ids =
      codes "cell_q0" ∷ codes " cell_q1" ∷ codes "cell_q2" ∷ codes "cell_q3" ∷ codes "cell_q0" ∷ [];
  reason = [];
}

unique_cell_ids-In_example :
    IsUnique (unique_cell_ids request.child_cell_ids)
    × (In (codes "cell_q1") (unique_cell_ids request.child_cell_ids)
        ↔ IsAsked request.child_cell_ids (codes "cell_q1"))
unique_cell_ids-In_example = unique_cell_ids-In request.child_cell_ids (codes "cell_q1")

-- Another cell is drained before the merge.
abbrev before : History ℕ
before = update_call (codes "other:1") (admin_update (set_split_drain true)) ∷ []

-- The parent's own endpoint, which the merge drains and frees.
forward_merge_handoff-last_drain_example :
    last_drain_sent
      (codes "root:1")
      (forward_merge_handoff steady codec config [] before (some request)).1
    ≢ some true
unfolding last_drain_sent
forward_merge_handoff-last_drain_example =
    forward_merge_handoff-last_drain steady codec config grid [] before (some request)
      (codes "root:1") (record { has_store = refl; listed = λ h. refl; dialled = λ ep. refl })
      (λ h. unset refl h)

forward_merge_handoff-in_flight_example :
    (forward_merge_handoff steady codec config [] before (some request)).0 ≡ []
forward_merge_handoff-in_flight_example =
    mmo.RegistrySvc.Merge.Ids.forward_merge_handoff-in_flight steady codec config [] before
      (some request)
