-- ===== src/RegistrySvc/Merge/Quiet.antt =====
-- The parts of a merge that set no split drain (internal/grpc/registrysvc/forward_merge.go).
use mmo.Prelude.{
  ℕ, refl, Bool, not, ◌&&◌, Option, none, some, List, [], ◌∷◌, text-Eq, ℕ-Eq, inl, inr, Bool-cases,
}
use mmo.Prelude.Int.{ℤ, pos, ltb_ℤ, ◌+ℤ◌}
use mmo.Prelude.Text.{Text}
use mmo.Prelude.Result.{Result, ok, err}
use mmo.Prelude.Float.{Float}
use mmo.Cell.{CellSpec}
use mmo.Snapshot.{CellPersistEntity}
use mmo.CellSvc.Npc.{PersistCodec}
use mmo.RegistrySvc.{Remote, upstream, guard, or_fail, ping_call, candidates_call, player_call}
use mmo.Partition.Merge.{MergeError}
use mmo.RegistrySvc.Merge.{
  MergeConfig, MergePlayerCandidate, player_request, ping_spec, ping_player_count, count_players,
  merge_drained, plan_merge, parent_or_fail, resolved_or_fail, checked,
  list_merge_player_candidates, all_candidates, forward_players, run_merge_player_handoffs,
  save_merge_automation_state, export_children, import_merged, move_players,
}
use mmo.RegistrySvc.Quiet.{
  last_drain_sent, IsQuiet, bind-IsQuiet, give-IsQuiet, fail-IsQuiet, guard-IsQuiet,
  or_fail-IsQuiet, list-IsQuiet, find-IsQuiet, dial-IsQuiet, forward-IsQuiet,
}

module _ {F : Type 0} (remote : Remote F) where
  pub ping_answer-IsQuiet :
      (spec : CellSpec F)
      → IsQuiet (λ h.
        or_fail upstream (remote.ping h spec.grpc_endpoint) (ping_call spec.grpc_endpoint ∷ h))
  unfolding IsQuiet last_drain_sent
  ping_answer-IsQuiet spec h ep = or_fail-IsQuiet F _ (remote.ping h spec.grpc_endpoint) _ ep

  pub ping_spec-IsQuiet : (o : Option (CellSpec F)) → IsQuiet (ping_spec remote o)
  ping_spec-IsQuiet none = fail-IsQuiet F _ _
  ping_spec-IsQuiet (some spec) =
      bind-IsQuiet _ _ (guard-IsQuiet F _ _)
        (λ u. bind-IsQuiet _ _ (guard-IsQuiet F _ _) (λ v. ping_answer-IsQuiet spec))

  pub ping-IsQuiet : (id : Text) → IsQuiet (ping_player_count remote id)
  unfolding ping_player_count
  ping-IsQuiet id = bind-IsQuiet _ _ (find-IsQuiet remote id) ping_spec-IsQuiet

  pub count-IsQuiet :
      (cfg : MergeConfig) (ids : List Text) (total : ℤ)
      → IsQuiet (count_players remote cfg ids total)
  unfolding count_players
  count-IsQuiet cfg [] total = give-IsQuiet F total
  count-IsQuiet cfg (cid ∷ ids) total = bind-IsQuiet _ _ (ping-IsQuiet cid) (λ players.
      bind-IsQuiet _ _ (guard-IsQuiet F _ _) (λ u. count-IsQuiet cfg ids (total +ℤ players)))

  pub candidates_answer-IsQuiet :
      (spec : CellSpec F)
      → IsQuiet (λ h.
        or_fail upstream
          (remote.candidates h spec.grpc_endpoint)
          (candidates_call spec.grpc_endpoint ∷ h))
  unfolding IsQuiet last_drain_sent
  candidates_answer-IsQuiet spec h ep =
      or_fail-IsQuiet F _ (remote.candidates h spec.grpc_endpoint) _ ep

  pub candidates-IsQuiet : (id : Text) → IsQuiet (list_merge_player_candidates remote id)
  unfolding list_merge_player_candidates
  candidates-IsQuiet id =
      bind-IsQuiet _ _ (dial-IsQuiet remote id)
        (λ spec. bind-IsQuiet _ _ (candidates_answer-IsQuiet spec) (λ cands. give-IsQuiet F _))

  pub all_candidates-IsQuiet : (ids : List Text) → IsQuiet (all_candidates remote ids)
  unfolding all_candidates
  all_candidates-IsQuiet [] = give-IsQuiet F []
  all_candidates-IsQuiet (id ∷ ids) =
      bind-IsQuiet _ _ (candidates-IsQuiet id)
        (λ cands. bind-IsQuiet _ _ (all_candidates-IsQuiet ids) (λ later. give-IsQuiet F _))

  pub player_answer-IsQuiet :
      (parent_id : Text) (c : MergePlayerCandidate)
      → IsQuiet (λ h.
        guard
          (not (remote.player h (player_request remote parent_id c (remote.stamp h))))
          upstream
          (player_call (player_request remote parent_id c (remote.stamp h)) ∷ h))
  unfolding IsQuiet last_drain_sent
  player_answer-IsQuiet parent_id c h ep = guard-IsQuiet F _ _ _ ep

  pub players-IsQuiet :
      (parent_id : Text) (cands : List MergePlayerCandidate)
      → IsQuiet (forward_players remote parent_id cands)
  unfolding forward_players
  players-IsQuiet parent_id [] = give-IsQuiet F tt
  players-IsQuiet parent_id (c ∷ cands) =
      bind-IsQuiet _ _ (player_answer-IsQuiet parent_id c) (λ u. players-IsQuiet parent_id cands)

  pub run_players-IsQuiet :
      (parent_id : Text) (ids : List Text)
      → IsQuiet (run_merge_player_handoffs remote parent_id ids)
  unfolding run_merge_player_handoffs
  run_players-IsQuiet parent_id ids =
      bind-IsQuiet _ _ (all_candidates-IsQuiet ids)
        (λ cands. bind-IsQuiet _ _ (players-IsQuiet parent_id cands) (λ u. give-IsQuiet F _))

  pub save-IsQuiet :
      (parent_id : Text) (ids : List Text) (n : ℕ) (on : Bool)
      → IsQuiet (save_merge_automation_state remote parent_id ids n on)
  unfolding save_merge_automation_state IsQuiet last_drain_sent
  save-IsQuiet parent_id ids n on h ep = guard-IsQuiet F _ _ _ ep

module _ {F : Type 0} ⦃fl : Float F⦄ (remote : Remote F) (codec : PersistCodec F)
    (cfg : MergeConfig) where
  pub export-IsQuiet :
      (reason : Text) (ids : List Text) → IsQuiet (export_children remote codec cfg reason ids)
  unfolding export_children
  export-IsQuiet reason [] = give-IsQuiet F []
  export-IsQuiet reason (cid ∷ ids) =
      bind-IsQuiet _ _
        (bind-IsQuiet _ _ (forward-IsQuiet remote cid _ refl)
          (λ reply. bind-IsQuiet _ _ (guard-IsQuiet F _ _) (λ u. or_fail-IsQuiet F _ _)))
        (λ p. bind-IsQuiet _ _ (export-IsQuiet reason ids) (λ later. give-IsQuiet F _))

  pub import-IsQuiet :
      (parent_id reason : Text) (entities : List (Option (CellPersistEntity F)))
      → IsQuiet (import_merged remote codec cfg parent_id reason entities)
  import-IsQuiet parent_id reason entities = bind-IsQuiet _ _ (or_fail-IsQuiet F _ _) (λ raw.
      bind-IsQuiet _ _ (forward-IsQuiet remote parent_id _ refl) (λ imp. guard-IsQuiet F _ _))

  pub move-IsQuiet :
      (parent_id : Text) (ids : List Text) (total : ℤ)
      → IsQuiet (move_players remote codec cfg parent_id ids total)
  move-IsQuiet parent_id ids total =
      elim (Bool-cases (cfg.player_handoff_enabled && ltb_ℤ (pos 0) total)) [
        | inl e ↦ rw e (run_players-IsQuiet remote parent_id ids)
        | inr e ↦ rw e (give-IsQuiet F 0)
      ]

  pub merge_drained-IsQuiet :
      (parent_id : Text) (ids : List Text) (reason : Text) (total : ℤ)
      → IsQuiet (merge_drained remote codec cfg parent_id ids reason total)
  unfolding merge_drained
  merge_drained-IsQuiet parent_id ids reason total =
      bind-IsQuiet _ _ (export-IsQuiet reason ids) (λ entities.
        bind-IsQuiet _ _ (import-IsQuiet parent_id reason entities) (λ u.
          bind-IsQuiet _ _ (move-IsQuiet parent_id ids total)
            (λ moved. bind-IsQuiet _ _ (save-IsQuiet remote _ _ _ _) (λ v. give-IsQuiet F _))))

  pub parent-IsQuiet : (o : Option (CellSpec F)) → IsQuiet (parent_or_fail remote codec cfg o)
  parent-IsQuiet none = fail-IsQuiet F _ _
  parent-IsQuiet (some parent) = bind-IsQuiet _ _ (or_fail-IsQuiet F _ _) (λ b. give-IsQuiet F _)

  pub resolved-IsQuiet : (r : Result MergeError (List (CellSpec F))) → IsQuiet (resolved_or_fail r)
  resolved-IsQuiet (ok children) = give-IsQuiet F children
  resolved-IsQuiet (err e) = fail-IsQuiet F _ _

  pub checked-IsQuiet :
      (message : Text) (r : Result MergeError (Unit {0})) → IsQuiet {F = F} (checked message r)
  checked-IsQuiet message (ok u) = give-IsQuiet F tt
  checked-IsQuiet message (err e) = fail-IsQuiet F _ _

  pub plan-IsQuiet :
      (parent_id : Text) (child_ids : List Text)
      → IsQuiet (plan_merge remote codec cfg parent_id child_ids)
  unfolding plan_merge
  plan-IsQuiet parent_id child_ids =
      bind-IsQuiet _ _ (bind-IsQuiet _ _ (find-IsQuiet remote parent_id) parent-IsQuiet) (λ found.
        bind-IsQuiet _ _ (list-IsQuiet remote) (λ cells.
          bind-IsQuiet _ _ (resolved-IsQuiet _) (λ children.
            bind-IsQuiet _ _ (guard-IsQuiet F _ _)
              (λ u. bind-IsQuiet _ _ (checked-IsQuiet _ _) (λ v. give-IsQuiet F _)))))
