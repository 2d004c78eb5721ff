-- ===== src/Partition/Merge.antt =====
-- The children of a split, and the checks before their merge (internal/partition/split.go:
-- ChildSpecsForSplit, CatalogMergeChildren, ValidateMergeChildren).
pub mod Step
pub mod Sound
pub mod Catalog
pub mod RoundTrip
use mmo.Prelude.{
  ℕ, zero, suc, ◌+◌, Bool, true, false, not, ◌&&◌, Option, none, some, List, [], ◌∷◌, length, ◌==◌,
  ℕ-Eq, text-Eq, if◌then◌else◌,
}
use mmo.Prelude.Int.{ℤ, pos, ◌+ℤ◌, eqb_ℤ, wrap32}
use mmo.Prelude.Text.{Text, trim_space, is_empty}
use mmo.Prelude.Dict.{Set, has, put, is_some}
use mmo.Prelude.Result.{Result, ok, err, ◌>>=◌, ◌>>◌, fail_if}
use mmo.Prelude.Float.{Float}
use mmo.Cell.{Bounds, CellSpec, PlanSplitResponseChild}
use mmo.Partition.{split_four, bounds_equal}
use mmo.Partition.Path.{PathError, child_id_for_quadrant}

pub data MergeError : Type 0 where
  no_parent_bounds : MergeError
  ambiguous_match : ℕ → MergeError
  missing_child : ℕ → MergeError
  empty_child_id : MergeError
  duplicate_child_id : Text → MergeError
  wrong_child_count : ℕ → MergeError
  nil_child : MergeError
  wrong_level : Text → ℤ → MergeError
  missing_bounds : Text → MergeError
  no_quadrant : Text → MergeError
  missing_quadrant : ℕ → MergeError

-- The level below, in int32.
abbrev pub next_level : ℤ → ℤ
next_level level = wrap32 (level +ℤ pos 1)

abbrev next_index : Option ℕ → Option ℕ
next_index none = none
next_index (some i) = some (suc i)

-- used[i] = true
abbrev pub mark : List Bool → ℕ → List Bool
mark [] i = []
mark (u ∷ us) zero = true ∷ us
mark (u ∷ us) (suc i) = u ∷ mark us i

-- The last loop: every quadrant is used.
unfoldable pub check_used : ℕ → List Bool → Result MergeError (Unit {0})
check_used qi [] = ok tt
check_used qi (used ∷ us) =
    let rest = check_used (suc qi) us in if used then rest else err (missing_quadrant qi)

abbrev pub use_quadrant :
    Text
    → List Bool
    → Option ℕ
    → (List Bool → Result MergeError (List Bool))
    → Result MergeError (List Bool)
use_quadrant id used none next = err (no_quadrant id)
use_quadrant id used (some i) next = next (mark used i)

module _ {F : Type 0} ⦃fl : Float F⦄ where
  -- The loop over the quadrants from i on, with the bounds that are left.
  unfoldable pub child_specs_from :
      Text → ℤ → ℕ → List (Bounds F) → Result PathError (List (PlanSplitResponseChild F))
  child_specs_from parent_id level i [] = ok []
  child_specs_from parent_id level i (b ∷ rest) =
      let others = child_specs_from parent_id level (suc i) rest in
      child_id_for_quadrant parent_id (pos i) >>= λ child_id.
      others >>= λ out. ok (record { id = child_id; bounds = b; level = level } ∷ out)

  unfoldable pub child_specs_for_split :
      Text → Option (Bounds F) → ℤ → Result PathError (List (PlanSplitResponseChild F))
  unfolding child_specs_from
  child_specs_for_split parent_id none parent_level = ok []
  child_specs_for_split parent_id (some parent) parent_level =
      child_specs_from parent_id (next_level parent_level) 0 (split_four parent)

  -- The tests that a catalog entry passes by: no bounds, another level, other bounds.
  abbrev pub fits : ℤ → Bounds F → CellSpec F → Bool
  fits want quad c = elim c.bounds [
    | none ↦ false
    | some b ↦ eqb_ℤ c.level want && bounds_equal (some b) (some quad)
  ]

  abbrev pub other_match : Option (CellSpec F) → CellSpec F → Bool
  other_match none c = false
  other_match (some m) c = not (trim_space m.id == trim_space c.id)

  -- The loop over the catalog for quadrant qi.
  unfoldable pub find_match :
      ℤ
      → Bounds F
      → ℕ
      → List (Option (CellSpec F))
      → Option (CellSpec F)
      → Result MergeError (Option (CellSpec F))
  find_match want quad qi [] found = ok found
  find_match want quad qi (none ∷ rest) found = find_match want quad qi rest found
  find_match want quad qi (some c ∷ rest) found =
      let skip = find_match want quad qi rest found in
      let take = find_match want quad qi rest (some c) in
      if not (fits want quad c)
      then skip
      else if other_match found c
      then err (ambiguous_match qi)
      else take

  abbrev pub need_match : ℕ → Option (CellSpec F) → Result MergeError (CellSpec F)
  need_match qi none = err (missing_child qi)
  need_match qi (some c) = ok c

  -- The loop over the quadrants from qi on.
  unfoldable pub match_quads :
      ℤ → List (Option (CellSpec F)) → ℕ → List (Bounds F) → Result MergeError (List (CellSpec F))
  match_quads want catalog qi [] = ok []
  match_quads want catalog qi (quad ∷ quads) =
      let others = match_quads want catalog (suc qi) quads in
      find_match want quad qi catalog none >>= λ found.
      need_match qi found >>= λ c. others >>= λ out. ok (c ∷ out)

  -- The loop that looks for empty and repeated ids.
  unfoldable pub check_ids : Set Text → List (CellSpec F) → Result MergeError (Unit {0})
  check_ids seen [] = ok tt
  check_ids seen (c ∷ out) =
      let id = trim_space c.id in
      let rest = check_ids (put seen id tt) out in
      fail_if (is_empty id) empty_child_id
      >> (fail_if (has seen id) (duplicate_child_id id) >> rest)

  abbrev pub merge_children_of :
      ℤ → List (Option (CellSpec F)) → Option (Bounds F) → Result MergeError (List (CellSpec F))
  merge_children_of level catalog none = err no_parent_bounds
  merge_children_of level catalog (some b) =
      match_quads (next_level level) catalog 0 (split_four b) >>= λ out. check_ids [] out >> ok out

  unfoldable pub catalog_merge_children :
      Option (CellSpec F) → List (Option (CellSpec F)) → Result MergeError (List (CellSpec F))
  unfolding match_quads check_ids
  catalog_merge_children none catalog = err no_parent_bounds
  catalog_merge_children (some parent) catalog =
      merge_children_of parent.level catalog parent.bounds

  -- The first quadrant that is not used and has the bounds.
  unfoldable pub free_quadrant : List Bool → List (Bounds F) → Option (Bounds F) → Option ℕ
  free_quadrant (used ∷ us) (quad ∷ quads) b =
      let next = free_quadrant us quads b in
      if not used && bounds_equal b (some quad) then some 0 else next_index next
  free_quadrant _ _ b = none

  -- The loop over the children, with the quadrants used and the ids seen so far.
  unfoldable pub validate_loop :
      ℤ
      → List (Bounds F)
      → List (Option (CellSpec F))
      → List Bool
      → Set Text
      → Result MergeError (List Bool)
  unfolding free_quadrant
  validate_loop want quads [] used seen = ok used
  validate_loop want quads (none ∷ rest) used seen = err nil_child
  validate_loop want quads (some c ∷ rest) used seen =
      let id = trim_space c.id in
      let next = λ (us : List Bool). validate_loop want quads rest us (put seen id tt) in
      fail_if (is_empty id) empty_child_id
      >> (fail_if (not (eqb_ℤ c.level want)) (wrong_level id c.level)
          >> (fail_if (not (is_some c.bounds)) (missing_bounds id)
              >> (fail_if (has seen id) (duplicate_child_id id)
                  >> use_quadrant id used (free_quadrant used quads c.bounds) next)))

  unfoldable pub validate_merge_children :
      Option (Bounds F) → ℤ → List (Option (CellSpec F)) → Result MergeError (Unit {0})
  unfolding validate_loop check_used
  validate_merge_children none parent_level children = err no_parent_bounds
  validate_merge_children (some parent) parent_level children =
      fail_if (not (length children == 4)) (wrong_child_count (length children))
      >> (validate_loop (next_level parent_level) (split_four parent) children
            (false ∷ false ∷ false ∷ false ∷ []) []
          >>= check_used 0)
