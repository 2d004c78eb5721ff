-- ===== src/Registry.antt =====
-- The in-memory registry of cells and the lookups over it (internal/registry/memory.go,
-- internal/discovery/catalog.go). A call runs under the registry's lock, so it is one step.
-- A copy made by `cloneSpec` is the value itself: records have no aliases here.
pub mod Invariant
pub mod Resolve
use mmo.Prelude.{
  Bool, true, false, not, ◌&&◌, ◌||◌, Option, none, some, List, [], ◌∷◌, map, ◌==◌, text-Eq,
  if◌then◌else◌,
}
use mmo.Prelude.Int.{ltb_ℤ}
use mmo.Prelude.Text.{Text, is_empty}
use mmo.Prelude.Dict.{Dict, put, remove, values}
use mmo.Prelude.Float.{Float}
use mmo.Cell.{Bounds, CellSpec}
use mmo.Partition.{contains}

pub data RegistryError : Type 0 where
  invalid_spec invalid_bounds : RegistryError

pub record Memory (F : Type 0) : Type 0 where
  pub cells : Dict Text (CellSpec F)

module _ {F : Type 0} where
  abbrev pub new_memory : Memory F
  new_memory = record { cells = [] }

  unfoldable pub list : Memory F → List (CellSpec F)
  list m = values m.cells

  unfoldable pub deregister : Memory F → Text → Memory F × Option RegistryError
  deregister m id =
      if is_empty id then (m, some invalid_spec) else (record { cells = remove m.cells id }, none)

  -- FindCellByID over the cells that the catalog lists.
  unfoldable pub find_cell_by_id : List (Option (CellSpec F)) → Text → Option (CellSpec F)
  find_cell_by_id [] id = none
  find_cell_by_id (none ∷ cells) id = find_cell_by_id cells id
  find_cell_by_id (some s ∷ cells) id =
      let rest = find_cell_by_id cells id in
      if is_empty id then none else if s.id == id then some s else rest

module _ {F : Type 0} ⦃fl : Float F⦄ where
  abbrev pub degenerate : Bounds F → Bool
  degenerate b = fl.le b.x_max b.x_min || fl.le b.z_max b.z_min

  abbrev store : Memory F → CellSpec F → Option (Bounds F) → Memory F × Option RegistryError
  store m spec none = (m, some invalid_spec)
  store m spec (some b) =
      if is_empty spec.id
      then (m, some invalid_spec)
      else if degenerate b
      then (m, some invalid_bounds)
      else (record { cells = put m.cells spec.id spec }, none)

  unfoldable pub register : Memory F → Option (CellSpec F) → Memory F × Option RegistryError
  register m none = (m, some invalid_spec)
  register m (some spec) = store m spec spec.bounds

  abbrev pub better : CellSpec F → Option (CellSpec F) → Bool
  better c none = true
  better c (some best) = ltb_ℤ best.level c.level

  -- The loop of ResolveMostSpecific.
  unfoldable pub best_from : F → F → List (CellSpec F) → Option (CellSpec F) → Option (CellSpec F)
  best_from x z [] best = best
  best_from x z (c ∷ cells) best =
      best_from x z cells (if contains c.bounds x z && better c best then some c else best)

  unfoldable pub resolve_most_specific : Memory F → F → F → Option (CellSpec F)
  unfolding best_from list
  resolve_most_specific m x z = best_from x z (values m.cells) none

  -- The cells of PickBestCell that are not nil: `contains` passes by those without bounds.
  abbrev pub present : List (Option (CellSpec F)) → List (CellSpec F)
  present [] = []
  present (none ∷ cells) = present cells
  present (some c ∷ cells) = c ∷ present cells

  unfoldable pub pick_best_cell : List (Option (CellSpec F)) → F → F → Option (CellSpec F)
  unfolding best_from
  pick_best_cell cells x z = best_from x z (present cells) none
