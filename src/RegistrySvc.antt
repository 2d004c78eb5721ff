-- ===== src/RegistrySvc.antt =====
-- The registry service of the grid manager (internal/grpc/registrysvc): server.go (Register,
-- ListCells, ResolvePosition, ForwardCellUpdate) and forward_cell.go (doForwardCellUpdate,
-- dialCellClient, ForwardNpcHandoff). A call of another process is a parameter, `Remote`: what it
-- answers may depend on every call before it, whose list is the state that the handlers pass on. Logs,
-- metrics, spans, timeouts and events are left out. A status keeps its code and the fixed part of its
-- message.
pub mod Npc
pub mod Quiet
pub mod Merge
use mmo.Prelude.{
  ℕ, Bool, true, false, not, ◌&&◌, ◌||◌, Option, none, some, List, [], ◌∷◌, length, text-Eq, ◌==◌,
  if◌then◌else◌,
}
use mmo.Prelude.Int.{ℤ}
use mmo.Prelude.Text.{Text, codes, is_empty}
use mmo.Prelude.Result.{Result, ok, err}
use mmo.Prelude.Float.{Float}
use mmo.Cell.{CellSpec}
use mmo.Registry.{Memory, RegistryError, register, list, resolve_most_specific, find_cell_by_id}
use mmo.CellSvc.Admin.{MigrationCandidate}
use mmo.CellSvc.Npc.{CellUpdate, CellReply}
use mmo.Forward.{ForwardRequest}

pub data Code : Type 0 where
  invalid_argument not_found failed_precondition unavailable internal : Code

-- A status of this service, or the error that another process returned.
pub data Status : Type 0 where
  status : Code → Text → Status
  upstream : Status

pub data RemoteCall (F : Type 0) : Type 0 where
  list_call : RemoteCall F
  update_call : Text → CellUpdate F → RemoteCall F
  ping_call : Text → RemoteCall F
  candidates_call : Text → RemoteCall F
  player_call : ForwardRequest → RemoteCall F
  save_call : Text → List Text → ℕ → Bool → RemoteCall F

-- The calls so far, the newest first.
abbrev pub History : Type 0 → Type 0
History F = List (RemoteCall F)

-- The other processes: the catalog, the cells by their endpoint, this service's ForwardPlayerHandoff
-- and the store of the merge state. None and false stand for an error.
pub record Remote (F : Type 0) : Type 0 where
  pub has_store : Bool
  pub list : History F → Option (List (Option (CellSpec F)))
  pub dials : Text → Bool
  pub update : History F → Text → CellUpdate F → Option CellReply
  pub ping : History F → Text → Option ℤ
  pub candidates : History F → Text → Option (List (MigrationCandidate F))
  pub player : History F → ForwardRequest → Bool
  pub save : History F → Bool
  pub stamp : History F → Text  -- the printed time of a token

-- A handler: the calls before it, the calls after it and its result.
abbrev pub Proc : Type 0 → Type 0 → Type 0
Proc F A = History F → History F × Result Status A

module _ {F : Type 0} where
  unfoldable pub give : {A : Type 0} → A → Proc F A
  give a h = (h, ok a)

  unfoldable pub fail : {A : Type 0} → Status → Proc F A
  fail e h = (h, err e)

  abbrev pub continue :
      {A B : Type 0} → (A → Proc F B) → History F × Result Status A → History F × Result Status B
  continue k (h, ok a) = k a h
  continue k (h, err e) = (h, err e)

  infixl 5 ◌>>-◌
  unfoldable pub ◌>>-◌ : {A B : Type 0} → Proc F A → (A → Proc F B) → Proc F B
  ◌>>-◌ m k h = continue k (m h)

  -- An early return.
  unfoldable pub guard : Bool → Status → Proc F (Unit {0})
  guard true e h = (h, err e)
  guard false e h = (h, ok tt)

  unfoldable pub or_fail : {A : Type 0} → Status → Option A → Proc F A
  or_fail e none h = (h, err e)
  or_fail e (some a) h = (h, ok a)

  module _ (remote : Remote F) where
    abbrev pub list_cells_call : Proc F (List (Option (CellSpec F)))
    list_cells_call h = or_fail (status unavailable (codes "list")) (remote.list h) (list_call ∷ h)

    -- discovery.FindCellByID
    abbrev pub find_cell : Text → Proc F (Option (CellSpec F))
    find_cell id =
        if is_empty id
        then give none
        else list_cells_call >>- λ cells. give (find_cell_by_id cells id)

    abbrev pub dial_spec : Option (CellSpec F) → Proc F (CellSpec F)
    dial_spec none = fail (status not_found (codes "cell not found"))
    dial_spec (some spec) =
        guard (is_empty spec.grpc_endpoint)
          (status failed_precondition (codes "cell has empty grpc_endpoint"))
        >>- λ u.
            guard (not (remote.dials spec.grpc_endpoint)) (status unavailable (codes "dial cell"))
            >>- λ v. give spec

    unfoldable pub dial_cell_client : Text → Proc F (CellSpec F)
    dial_cell_client cell_id =
        guard (not remote.has_store) (status failed_precondition (codes "no catalog")) >>- λ u.
        find_cell cell_id >>- dial_spec

    abbrev pub call_update : CellUpdate F → CellSpec F → Proc F CellReply
    call_update upd spec h =
        or_fail upstream (remote.update h spec.grpc_endpoint upd)
          (update_call spec.grpc_endpoint upd ∷ h)

    unfoldable pub do_forward_cell_update : Text → CellUpdate F → Proc F CellReply
    do_forward_cell_update cell_id upd =
        guard (is_empty cell_id) (status invalid_argument (codes "empty cell_id")) >>- λ u.
        dial_cell_client cell_id >>- call_update upd

    -- None is a request or an update that is nil.
    unfoldable pub forward_cell_update : Option (Text × CellUpdate F) → Proc F CellReply
    forward_cell_update none = fail (status invalid_argument (codes "empty request or update"))
    forward_cell_update (some (cell_id, upd)) =
        guard (is_empty cell_id) (status invalid_argument (codes "empty cell_id")) >>- λ u.
        do_forward_cell_update cell_id upd

-- Register, ListCells and ResolvePosition over the memory catalog
-- (internal/discovery/memory_catalog.go), whose calls do not fail otherwise.
pub data RegisterReply : Type 0 where
  register_ok : RegisterReply
  empty_request : RegisterReply
  register_failed : RegistryError → RegisterReply

abbrev pub register_reply : Option RegistryError → RegisterReply
register_reply none = register_ok
register_reply (some e) = register_failed e

module _ {F : Type 0} ⦃fl : Float F⦄ where
  unfoldable pub register_cell : Memory F → Option (CellSpec F) → Memory F × RegisterReply
  register_cell m none = (m, empty_request)
  register_cell m (some cell) = let (m', e) = register m (some cell) in (m', register_reply e)

  unfoldable pub list_cells : Memory F → List (CellSpec F)
  list_cells m = list m

  unfoldable pub resolve_position : Memory F → Option (F × F) → Result Status (Option (CellSpec F))
  resolve_position m none = err (status invalid_argument (codes "empty request"))
  resolve_position m (some (x, z)) = ok (resolve_most_specific m x z)
