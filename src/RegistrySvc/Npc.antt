-- ===== src/RegistrySvc/Npc.antt =====
-- The handoff of all NPCs of a parent to one child (internal/grpc/registrysvc/forward_cell.go:
-- ForwardNpcHandoff).
use mmo.Prelude.{ℕ, not, ◌||◌, Option, none, some, ◌++◌, length, text-Eq, ◌==◌, if◌then◌else◌}
use mmo.Prelude.Text.{Text, codes, is_empty}
use mmo.CellSvc.Npc.{CellReply, PersistCodec, export_npc_persist, import_npc_persist}
use mmo.RegistrySvc.{
  Remote, Proc, status, invalid_argument, failed_precondition, internal, ◌>>-◌, give, fail, guard,
  or_fail, do_forward_cell_update,
}

pub record NpcRequest : Type 0 where
  pub parent_cell_id : Text
  pub child_cell_id : Text
  pub reason : Text

abbrev pub or_default : Text → Text → Text
or_default default reason = if is_empty reason then default else reason

module _ {F : Type 0} (remote : Remote F) (codec : PersistCodec F) where
  abbrev pub import_into : Text → Text → ℕ → CellReply → Proc F ℕ
  import_into child reason n reply =
      guard (not reply.good) (status failed_precondition (codes "child import failed")) >>- λ u.
      give n

  abbrev pub after_export : Text → Text → CellReply → Proc F ℕ
  after_export child reason reply =
      let json = reply.npc_export_json in
      guard (not reply.good) (status failed_precondition (codes "parent export failed")) >>- λ u.
      guard (is_empty json) (status failed_precondition (codes "empty npc_export_json from parent"))
      >>- λ v.
          or_fail (status internal (codes "parent export json")) (codec.unmarshal json) >>- λ p.
          do_forward_cell_update remote child (import_npc_persist json (reason ++ codes "/import"))
          >>- import_into child reason (length p.entities)

  -- The number of entities in the export.
  unfoldable pub forward_npc_handoff : Option NpcRequest → Proc F ℕ
  forward_npc_handoff none = fail (status invalid_argument (codes "empty request"))
  forward_npc_handoff (some req) =
      let parent = req.parent_cell_id in
      let child = req.child_cell_id in
      let reason = or_default (codes "ForwardNpcHandoff") req.reason in
      guard (is_empty parent || is_empty child)
        (status invalid_argument (codes "parent_cell_id and child_cell_id required"))
      >>- λ u.
          guard (parent == child)
            (status invalid_argument (codes "parent_cell_id must differ from child_cell_id"))
          >>- λ v.
              do_forward_cell_update remote parent (export_npc_persist reason)
              >>- after_export child reason
