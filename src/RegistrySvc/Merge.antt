-- ===== src/RegistrySvc/Merge.antt =====
-- The merge of four children into their parent (internal/grpc/registrysvc/forward_merge.go:
-- ForwardMergeHandoff and the functions it calls). The two environment variables are a parameter.
pub mod Ids
pub mod Quiet
pub mod Drained
use mmo.Prelude.{
  ℕ, ◌+◌, Bool, true, false, not, ◌&&◌, ◌||◌, Option, none, some, List, [], ◌∷◌, ◌++◌, length, map,
  ℕ-Eq, text-Eq, ◌==◌, if◌then◌else◌, ltb,
}
use mmo.Prelude.Int.{ℤ, pos, ◌+ℤ◌, ltb_ℤ}
use mmo.Prelude.Text.{Text, codes, trim_space, is_empty}
use mmo.Prelude.Dict.{Set, has, put, is_some}
use mmo.Prelude.Result.{Result, ok, err}
use mmo.Prelude.Float.{Float}
use mmo.Cell.{Bounds, CellSpec}
use mmo.Partition.Merge.{MergeError, catalog_merge_children, validate_merge_children}
use mmo.Snapshot.{CellPersist, CellPersistEntity, schema_version_now}
use mmo.CellSvc.Admin.{MigrationCandidate, set_split_drain}
use mmo.CellSvc.Npc.{
  CellUpdate, CellReply, PersistCodec, export_npc_persist, import_npc_persist, admin_update,
}
use mmo.Forward.{ForwardRequest}
use mmo.MergeLock.{try_acquire_merge, release_merge}
use mmo.RegistrySvc.{
  Remote, History, Proc, Status, status, upstream, invalid_argument, failed_precondition, not_found,
  unavailable, internal, ◌>>-◌, give, fail, guard, or_fail, ping_call, candidates_call, player_call,
  save_call, list_cells_call, find_cell, dial_cell_client, do_forward_cell_update,
}
use mmo.RegistrySvc.Npc.{or_default}

pub record MergeConfig : Type 0 where
  pub player_handoff_enabled : Bool
  pub player_handoff_max : ℤ

pub record MergeRequest : Type 0 where
  pub parent_cell_id : Text
  pub child_cell_ids : List Text
  pub reason : Text

pub record MergePlayerCandidate : Type 0 where
  pub child_id : Text
  pub player_id : Text

-- The loop over the ids, with those seen so far.
unfoldable pub unique_from : List Text → Set Text → List Text
unique_from [] seen = []
unique_from (raw ∷ ids) seen =
    let id = trim_space raw in
    let skip = unique_from ids seen in
    let keep = unique_from ids (put seen id tt) in
    if is_empty id then skip else if has seen id then skip else id ∷ keep

unfoldable pub unique_cell_ids : List Text → List Text
unfolding unique_from
unique_cell_ids ids = unique_from ids []

-- The first id that is not one of the catalog's.
unfoldable pub all_resolved : List Text → Set Text → Bool
all_resolved [] resolved = true
all_resolved (id ∷ ids) resolved = has resolved id && all_resolved ids resolved

unfoldable pub id_set : List Text → Set Text
id_set [] = []
id_set (id ∷ ids) = put (id_set ids) id tt

abbrev pub checked : {F : Type 0} → Text → Result MergeError (Unit {0}) → Proc F (Unit {0})
checked message (ok u) = give tt
checked message (err e) = fail (status failed_precondition message)

abbrev pub resolved_or_fail :
    {F : Type 0} → Result MergeError (List (CellSpec F)) → Proc F (List (CellSpec F))
resolved_or_fail (ok children) = give children
resolved_or_fail (err e) = fail (status failed_precondition (codes "merge children resolve"))

module _ {F : Type 0} (remote : Remote F) where
  abbrev pub ping_spec : Option (CellSpec F) → Proc F ℤ
  ping_spec none = fail (status not_found (codes "cell not found or endpoint empty"))
  ping_spec (some spec) =
      guard (is_empty (trim_space spec.grpc_endpoint))
        (status not_found (codes "cell not found or endpoint empty"))
      >>- λ u.
          guard (not (remote.dials spec.grpc_endpoint)) (status unavailable (codes "dial")) >>- λ v.
          (λ h.
            or_fail upstream (remote.ping h spec.grpc_endpoint) (ping_call spec.grpc_endpoint ∷ h))

  unfoldable pub ping_player_count : Text → Proc F ℤ
  ping_player_count cell_id = find_cell remote cell_id >>- ping_spec

  -- The loop over the children: the sum of their players.
  unfoldable pub count_players : MergeConfig → List Text → ℤ → Proc F ℤ
  count_players cfg [] total = give total
  count_players cfg (cid ∷ ids) total = ping_player_count cid >>- λ players.
      guard (not cfg.player_handoff_enabled && ltb_ℤ (pos 0) players)
        (status failed_precondition (codes "merge blocked: child has active players"))
      >>- λ u. count_players cfg ids (total +ℤ players)

  -- A call of doForwardCellUpdate whose result is ignored.
  abbrev pub set_drain : Bool → Text → History F → History F
  set_drain on cell_id h =
      (do_forward_cell_update remote cell_id (admin_update (set_split_drain on)) h).0

  unfoldable pub set_drains : Bool → List Text → History F → History F
  set_drains on [] h = h
  set_drains on (cid ∷ ids) h = set_drains on ids (set_drain on cid h)

  -- The candidates of a child that are players.
  unfoldable pub player_candidates : Text → List (MigrationCandidate F) → List MergePlayerCandidate
  player_candidates child_id [] = []
  player_candidates child_id (cand ∷ cands) =
      let pid = trim_space cand.player_id in
      let rest = player_candidates child_id cands in
      if not cand.is_player || is_empty pid
      then rest
      else record { child_id = child_id; player_id = pid } ∷ rest

  unfoldable pub list_merge_player_candidates : Text → Proc F (List MergePlayerCandidate)
  list_merge_player_candidates child_id = dial_cell_client remote child_id >>- λ spec.
      (λ h.
        or_fail upstream (remote.candidates h spec.grpc_endpoint)
          (candidates_call spec.grpc_endpoint ∷ h))
      >>- λ cands. give (player_candidates child_id cands)

  unfoldable pub all_candidates : List Text → Proc F (List MergePlayerCandidate)
  all_candidates [] = give []
  all_candidates (child_id ∷ ids) = list_merge_player_candidates child_id >>- λ cands.
      all_candidates ids >>- λ later. give (cands ++ later)

  abbrev pub player_request : Text → MergePlayerCandidate → Text → ForwardRequest
  player_request parent_id c stamp = record {
    parent_cell_id = c.child_id;
    child_cell_id = parent_id;
    player_id = c.player_id;
    handoff_token =
        codes "merge:" ++ (c.child_id ++ (codes ":" ++ (c.player_id ++ (codes ":" ++ stamp))));
  }

  unfoldable pub forward_players : Text → List MergePlayerCandidate → Proc F (Unit {0})
  forward_players parent_id [] = give tt
  forward_players parent_id (c ∷ cands) =
      (λ h.
        let req = player_request parent_id c (remote.stamp h) in
        guard (not (remote.player h req)) upstream (player_call req ∷ h))
      >>- λ u. forward_players parent_id cands

  unfoldable pub run_merge_player_handoffs : Text → List Text → Proc F ℕ
  run_merge_player_handoffs parent_id child_ids = all_candidates child_ids >>- λ cands.
      forward_players parent_id cands >>- λ u. give (length cands)

  unfoldable pub save_merge_automation_state : Text → List Text → ℕ → Bool → Proc F (Unit {0})
  save_merge_automation_state parent_id child_ids moved enabled h =
      guard (not (remote.save h)) (status unavailable (codes "redis merge state"))
        (save_call parent_id child_ids moved enabled ∷ h)

module _ {F : Type 0} ⦃fl : Float F⦄ (remote : Remote F) (codec : PersistCodec F)
    (cfg : MergeConfig) where
  abbrev pub check_export : CellReply → Proc F (CellPersist F)
  check_export reply =
      guard (not reply.good || is_empty (trim_space reply.npc_export_json))
        (status failed_precondition (codes "child export failed"))
      >>- λ u.
          or_fail (status internal (codes "child export json decode"))
            (codec.unmarshal reply.npc_export_json)

  -- The loop over the children: the entities of all exports, in a row.
  unfoldable pub export_children : Text → List Text → Proc F (List (Option (CellPersistEntity F)))
  export_children reason [] = give []
  export_children reason (cid ∷ ids) =
      do_forward_cell_update remote cid (export_npc_persist (reason ++ (codes "/export/" ++ cid)))
      >>- check_export
      >>- λ p. export_children reason ids >>- λ later. give (p.entities ++ later)

  abbrev pub merged_persist : List (Option (CellPersistEntity F)) → CellPersist F
  merged_persist entities = record {
    schema_version = schema_version_now;
    tick = 0;
    loop_tps = fl.num 0;
    entities = entities;
  }

  abbrev pub import_merged : Text → Text → List (Option (CellPersistEntity F)) → Proc F (Unit {0})
  import_merged parent_id reason entities =
      or_fail (status internal (codes "merge marshal")) (codec.marshal (merged_persist entities))
      >>- λ raw.
          do_forward_cell_update remote parent_id
            (import_npc_persist raw (reason ++ codes "/import_parent"))
          >>- λ imp.
              guard (not imp.good) (status failed_precondition (codes "parent import failed"))

  abbrev pub move_players : Text → List Text → ℤ → Proc F ℕ
  move_players parent_id ids total =
      if cfg.player_handoff_enabled && ltb_ℤ (pos 0) total
      then run_merge_player_handoffs remote parent_id ids
      else give 0

  -- What runs between the drains and their reset.
  unfoldable pub merge_drained : Text → List Text → Text → ℤ → Proc F (ℕ × ℕ)
  merge_drained parent_id ids reason total = export_children reason ids >>- λ entities.
      import_merged parent_id reason entities >>- λ u. move_players parent_id ids total >>- λ moved.
      save_merge_automation_state remote parent_id ids moved cfg.player_handoff_enabled >>- λ v.
      give (length entities, moved)

  -- The drains, and their deferred reset, which runs on every path: the children first.
  unfoldable pub merge_with_drains : Text → List Text → Text → ℤ → Proc F (ℕ × ℕ)
  merge_with_drains parent_id ids reason total h =
      let (h', result) =
        merge_drained parent_id ids reason total
          (set_drains remote true ids (set_drain remote true parent_id h)) in
      (set_drain remote false parent_id (set_drains remote false ids h'), result)

  abbrev pub parent_or_fail : Option (CellSpec F) → Proc F (CellSpec F × Bounds F)
  parent_or_fail none = fail (status not_found (codes "parent not found or has no bounds"))
  parent_or_fail (some parent) =
      or_fail (status not_found (codes "parent not found or has no bounds")) parent.bounds >>- λ b.
      give (parent, b)

  -- The children of the parent, in the order of its quadrants.
  unfoldable pub plan_merge : Text → List Text → Proc F (List Text)
  plan_merge parent_id child_ids = find_cell remote parent_id >>- parent_or_fail >>- λ found.
      list_cells_call remote >>- λ cells.
      resolved_or_fail (catalog_merge_children (some found.0) cells) >>- λ children.
      let ids = map (λ (c : CellSpec F). trim_space c.id) children in
      guard (not (all_resolved child_ids (id_set ids)))
        (status invalid_argument (codes "child_cell_ids mismatch catalog merge quadrants"))
      >>- λ u.
          checked (codes "merge geometry invalid")
            (validate_merge_children (some found.1) found.0.level (map some children))
          >>- λ v. give ids

  -- The call while it holds the merge of the parent.
  unfoldable pub merge_held : Text → List Text → Text → Proc F (ℕ × ℕ)
  merge_held parent_id child_ids reason =
      guard (not (length child_ids == 4))
        (status invalid_argument (codes "need exactly 4 unique child_cell_ids"))
      >>- λ u.
          guard (not remote.has_store) (status failed_precondition (codes "no catalog")) >>- λ v.
          plan_merge parent_id child_ids >>- λ ids.
          ping_player_count remote parent_id >>- λ parent_players.
          guard (ltb_ℤ (pos 0) parent_players)
            (status failed_precondition (codes "merge blocked: parent has active players"))
          >>- λ w. count_players remote cfg ids (pos 0) >>- λ total.
              guard
                (cfg.player_handoff_enabled
                  && ltb_ℤ (pos 0) cfg.player_handoff_max
                  && ltb_ℤ cfg.player_handoff_max total)
                (status failed_precondition (codes "merge player handoff blocked"))
              >>- λ x. merge_with_drains parent_id ids reason total

  abbrev pub held_result :
      Text
      → History F × Result Status (ℕ × ℕ)
      → Set Text
      → Set Text × History F × Result Status (ℕ × ℕ)
  held_result parent_id (h, result) in_flight = (release_merge in_flight parent_id, h, result)

  -- mergeInFlight, the calls and the result: the numbers of NPCs and of players that moved.
  unfoldable pub forward_merge_handoff :
      Set Text → History F → Option MergeRequest → Set Text × History F × Result Status (ℕ × ℕ)
  forward_merge_handoff in_flight h none =
      (in_flight, h, err (status invalid_argument (codes "empty request")))
  forward_merge_handoff in_flight h (some req) =
      let parent_id = trim_space req.parent_cell_id in
      let child_ids = unique_cell_ids req.child_cell_ids in
      let reason = or_default (codes "ForwardMergeHandoff") (trim_space req.reason) in
      if is_empty parent_id
      then (in_flight, h, err (status invalid_argument (codes "parent_cell_id required")))
      else let (held, acquired) = try_acquire_merge in_flight parent_id in
        if not acquired
        then (
          held,
          h,
          err (status failed_precondition (codes "merge already in progress for parent")),
        )
        else held_result parent_id (merge_held parent_id child_ids reason h) held
