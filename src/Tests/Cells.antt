-- ===== src/Tests/Cells.antt =====
-- Examples for the theorems about cells and their registry.
use mmo.Prelude.{
  ℕ, ◌≡◌, refl, Bool, true, false, Option, none, some, List, [], ◌∷◌, ◌++◌, map, length, get_elem?,
  In, All, ◌↔◌, inl, inr, ◌⊎◌, ◌≤◌, arith, text-Eq, ◌==◌, if◌then◌else◌, ℕ-Eq,
}
use mmo.Prelude.Int.{ℤ, pos}
use mmo.Prelude.Text.{Text, codes, trim_space, is_empty}
use mmo.Prelude.Result.{ok}
use mmo.Cell.{Bounds, CellSpec, PlanSplitResponseChild}
use mmo.Partition.{split_four, quadrant, contains, bounds_equal, mid_x, mid_z}
use mmo.Partition.Quadrants.{contains-quadrant}
use mmo.Partition.Path.{parse_cell_path_id, child_id_for_quadrant, is_descendant_path}
use mmo.Partition.Path.Canonical.{path_id, IsPath, parse_canonical}
use mmo.Partition.Path.Descent.{IsBelow, is_descendant_path_iff, parse-child_id}
use mmo.Partition.Merge.{
  validate_merge_children, catalog_merge_children, child_specs_for_split, next_level,
}
use mmo.Partition.Merge.Catalog.{validate-catalog_merge_children}
use mmo.Partition.Merge.RoundTrip.{validate-child_specs, registered}
use mmo.Registry.{Memory, list, register, find_cell_by_id, resolve_most_specific}
use mmo.Registry.Resolve.{IsMostSpecific, resolve-IsMostSpecific}
use mmo.Registry.Invariant.{
  IsValid, register_call, deregister_call, run_calls, run_calls-IsValid, listed, find-register,
}
use mmo.Tests.{whole, whole_laws, field, root_id, root_cell, child_cell, children}

contains-quadrant_example :
    (c : Bounds ℕ) × (get_elem? (split_four field) (quadrant 60 20 (some field)) ≡ some c)
    × (contains (some c) 60 20 ≡ true)
unfolding contains
contains-quadrant_example = contains-quadrant whole_laws field 60 20 refl refl refl

parse_canonical_example :
    (trim_space (codes " cell_q1_q3") ≡ path_id (1 ∷ 3 ∷ [])) × IsPath (1 ∷ 3 ∷ [])
unfolding parse_cell_path_id mmo.Partition.Path.path_cell_id_re trim_space mmo.Prelude.Text.split_on
parse_canonical_example = parse_canonical (codes " cell_q1_q3") (1 ∷ 3 ∷ []) refl

is_descendant_path_iff_example :
    (is_descendant_path (codes "cell_q1") (codes "cell_q1_q3") ≡ true)
    ↔ IsBelow (1 ∷ []) (1 ∷ 3 ∷ [])
unfolding parse_cell_path_id mmo.Partition.Path.path_cell_id_re trim_space mmo.Prelude.Text.split_on
is_descendant_path_iff_example =
    is_descendant_path_iff (codes "cell_q1") (codes "cell_q1_q3") (1 ∷ []) (1 ∷ 3 ∷ []) refl refl

parse-child_id_example :
    (child_id : Text) × (child_id_for_quadrant (codes "cell_q1") (pos 3) ≡ ok child_id)
    × (parse_cell_path_id child_id ≡ ok ((1 ∷ []) ++ 3 ∷ []))
    × (is_descendant_path (codes "cell_q1") child_id ≡ true)
unfolding parse_cell_path_id mmo.Partition.Path.path_cell_id_re trim_space mmo.Prelude.Text.split_on
parse-child_id_example = parse-child_id (codes "cell_q1") (1 ∷ []) 3 refl (omega arith)

-- The quadrants in their order.
abbrev sorted_children : List (CellSpec ℕ)
sorted_children =
    child_cell (codes "cell_q0") 0 50 0 50
    ∷ child_cell (codes "cell_q1") 50 100 0 50
    ∷ child_cell (codes "cell_q2") 0 50 50 100
    ∷ child_cell (codes "cell_q3") 50 100 50 100
    ∷ []

abbrev catalog : List (Option (CellSpec ℕ))
catalog = some root_cell ∷ none ∷ map some children

validate-catalog_merge_children_example :
    validate_merge_children (some field) root_cell.level (map some sorted_children) ≡ ok tt
unfolding catalog_merge_children split_four mmo.Partition.Merge.find_match mmo.Prelude.Int.wrap32
    mmo.Prelude.Int.◌+ℤ◌ bounds_equal trim_space mmo.Prelude.Dict.get mmo.Prelude.Dict.put
validate-catalog_merge_children_example =
    validate-catalog_merge_children root_cell field catalog sorted_children refl refl

validate-child_specs_example :
    (cs : List (PlanSplitResponseChild ℕ)) × (child_specs_for_split root_id (some field) (pos 0)
      ≡ ok cs)
    × (validate_merge_children (some field) (pos 0) (map (registered (codes "host:1")) cs) ≡ ok tt)
unfolding parse_cell_path_id mmo.Partition.Path.path_cell_id_re trim_space
validate-child_specs_example =
    validate-child_specs root_id (codes "host:1") [] field (pos 0) refl (record {
      x_min = refl;
      x_max = refl;
      z_min = refl;
      z_max = refl;
      x_mid = refl;
      z_mid = refl;
    })

abbrev memory : Memory ℕ
memory = record { cells = (root_id, root_cell) ∷ [] }

abbrev quarter : CellSpec ℕ
quarter = child_cell (codes "cell_q1") 50 100 0 50

memory-IsValid : IsValid memory
memory-IsValid = ((refl, refl, refl), tt)

resolve-IsMostSpecific_example :
    IsMostSpecific 60 20 (list memory) (resolve_most_specific memory 60 20)
resolve-IsMostSpecific_example = resolve-IsMostSpecific 60 20 memory

run_calls-IsValid_example :
    IsValid (run_calls memory (register_call (some quarter) ∷ deregister_call root_id ∷ []))
run_calls-IsValid_example =
    run_calls-IsValid memory (register_call (some quarter) ∷ deregister_call root_id ∷ [])
      memory-IsValid

find-register_example :
    find_cell_by_id (listed (register memory (some quarter)).0) root_id
    ≡ (if quarter.id == root_id then some quarter else find_cell_by_id (listed memory) root_id)
unfolding register
find-register_example = find-register memory quarter root_id memory-IsValid refl refl
