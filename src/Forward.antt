-- ===== src/Forward.antt =====
-- The handoff of a player between two cells (internal/grpc/registrysvc/forward_player.go). The
-- registry dials both cells, and then calls Prepare on the parent, Accept on the child and Finalize
-- on the parent. Where a cell cannot be dialled, and whether a call and its response arrive, are
-- parameters.
pub mod Keeps
pub mod Moves
use mmo.Prelude.{
  ℕ, Bool, true, false, ◌||◌, not, Option, none, some, ℕ-Eq, text-Eq, ◌==◌, if◌then◌else◌,
}
use mmo.Prelude.Result.{Result, ok, err}
use mmo.Prelude.Text.{Text, codes, trim_space, is_empty}
use mmo.Prelude.Float.{Float}
use mmo.Ecs.{Entity}
use mmo.Cell.{CellSpec}
use mmo.CellSvc.{Server, Reply, PlayerHandoffState}
use mmo.CellSvc.Handoff.{
  Clock, PrepareReply, prepare_player_handoff, accept_player_handoff, finalize_player_handoff,
}

pub data Stage : Type 0 where
  validate : Stage
  dial_parent : Stage
  dial_child : Stage
  prepare : Stage
  accept : Stage
  finalize : Stage

-- The status of a call that failed: which stage it is from, and the message of the cell where the
-- cell refused.
pub data ForwardError : Type 0 where
  invalid_argument : Text → ForwardError
  rpc_failed : Stage → ForwardError
  failed_precondition : Stage → Text → ForwardError

-- A remote call: it is answered, or it runs and its answer is lost, or it never arrives.
pub data Delivery : Type 0 where
  answered : Delivery
  unanswered : Delivery
  lost : Delivery

pub record Net (F : Type 0) : Type 0 where
  pub parent_spec : Option (CellSpec F)
  pub child_spec : Option (CellSpec F)
  pub preparing : Delivery
  pub accepting : Delivery
  pub finalizing : Delivery

pub record ForwardRequest : Type 0 where
  pub parent_cell_id : Text
  pub child_cell_id : Text
  pub player_id : Text
  pub handoff_token : Text

-- The state after a remote call, and the answer that the caller gets.
abbrev pub deliver : {S R : Type 0} → Delivery → S → S × R → S × Option R
deliver answered s (t, r) = (t, some r)
deliver unanswered s (t, r) = (t, none)
deliver lost s (t, r) = (s, none)

abbrev pub Forwarded : Type 0 → Type 0
Forwarded F = (Server F × Server F) × Result ForwardError Entity

module _ {F : Type 0} where
  abbrev pub after_finalize : Server F → Server F → Entity → Option Reply → Forwarded F
  after_finalize p c e none = ((p, c), err (rpc_failed finalize))
  after_finalize p c e (some r) =
      ((p, c), if r.ok then ok e else err (failed_precondition finalize r.message))

  abbrev pub after_accept : Net F → Server F → Server F → Text → Text → Option Reply → Forwarded F
  after_accept net p c pid token none = ((p, c), err (rpc_failed accept))
  after_accept net p c pid token (some r) =
      if not r.ok || r.entity_id == 0
      then ((p, c), err (failed_precondition accept r.message))
      else let (p', answer) = deliver net.finalizing p (finalize_player_handoff p pid token) in
        after_finalize p' c r.entity_id answer

module _ {F : Type 0} ⦃fl : Float F⦄ where
  abbrev pub after_payload :
      Net F
      → CellSpec F
      → CellSpec F
      → Server F
      → Server F
      → Text
      → Text
      → Text
      → Bool
      → Option (PlayerHandoffState F)
      → Forwarded F
  after_payload net pspec cspec p c pid token message false payload =
      ((p, c), err (failed_precondition prepare message))
  after_payload net pspec cspec p c pid token message true none =
      ((p, c), err (failed_precondition prepare message))
  after_payload net pspec cspec p c pid token message true (some payload) =
      let sent = record payload {
        source_cell_id = pspec.id;
        target_cell_id = cspec.id;
        handoff_token = token;
      } in
      let (c', answer) = deliver net.accepting c (accept_player_handoff c (some sent)) in
      after_accept net p c' pid token answer

  abbrev pub after_prepare :
      Net F
      → CellSpec F
      → CellSpec F
      → Server F
      → Server F
      → Text
      → Text
      → Option (PrepareReply F)
      → Forwarded F
  after_prepare net pspec cspec p c pid token none = ((p, c), err (rpc_failed prepare))
  after_prepare net pspec cspec p c pid token (some r) =
      after_payload net pspec cspec p c pid token r.message r.ok r.payload

  abbrev pub forward_dialled :
      Net F
      → Clock
      → Option (CellSpec F)
      → Option (CellSpec F)
      → Server F
      → Server F
      → Text
      → Text
      → Text
      → Forwarded F
  forward_dialled net now none cspec p c child_id pid token = ((p, c), err (rpc_failed dial_parent))
  forward_dialled net now (some pspec) none p c child_id pid token =
      ((p, c), err (rpc_failed dial_child))
  forward_dialled net now (some pspec) (some cspec) p c child_id pid token =
      let (p', answer) =
        deliver net.preparing p (prepare_player_handoff p now pid child_id token) in
      after_prepare net pspec cspec p' c pid token answer

  -- The parent's and the child's server after the call, and its result. A request that is nil, the
  -- reason, the logs and the metrics are left out.
  unfoldable pub forward_player_handoff :
      Net F → Clock → Server F → Server F → ForwardRequest → Forwarded F
  forward_player_handoff net now parent child req =
      let parent_id = trim_space req.parent_cell_id in
      let child_id = trim_space req.child_cell_id in
      let pid = trim_space req.player_id in
      let token = trim_space req.handoff_token in
      if is_empty parent_id || is_empty child_id || is_empty pid || is_empty token
      then (
        (parent, child),
        err (
            invalid_argument
              (codes "parent_cell_id, child_cell_id, player_id, handoff_token required")),
      )
      else if parent_id == child_id
      then (
        (parent, child),
        err (invalid_argument (codes "parent_cell_id must differ from child_cell_id")),
      )
      else forward_dialled net now net.parent_spec net.child_spec parent child child_id pid token
