-- ===== src/Grid/Merging/Leaves.antt =====
-- The search for cells below the children of a merge (cmd/grid-manager/cell_load_policy.go:
-- mergeGroupLowLoad).
use mathlib.Core.Path.{subst}
use mmo.Prelude.{
  ◌≡◌, sym, Bool, false, ◌&&◌, ◌||◌, Option, none, some, List, [], ◌∷◌, map, text-Eq, inl, inr,
  arith, In, some_cancel,
}
use mmo.Prelude.Int.{ℤ, leb_ℤ, eqb_ℤ, eqb_ℤ_iff}
use mmo.Prelude.Text.{Text, trim_space}
use mmo.Cell.{CellSpec}
use mmo.Partition.Path.{cell_path_level, is_descendant_path}
use mmo.Grid.Merging.{covers, any_covers, below_any, has_descendants}

or_left : (a b : Bool) → (a || b) ≡ false → a ≡ false
or_left a b h = ground (arith, h)

or_right : (a b : Bool) → (a || b) ≡ false → b ≡ false
or_right a b h = ground (arith, h)

covers-none :
    (level : ℤ) (id child_id : Text)
    → covers level id child_id ≡ false
    → cell_path_level child_id ≡ some level
    → is_descendant_path child_id id ≡ false
covers-none level id child_id h at = under (rw (covers, at) at h)
  where
    under :
        (eqb_ℤ level level && is_descendant_path child_id id) ≡ false
        → is_descendant_path child_id id ≡ false
    under k = ground (arith, eqb_ℤ_iff level level, k)

module _ {F : Type 0} where
  -- No cell of the catalog whose id is a path deeper than the level is below a child whose id is a path
  -- of the level.
  abbrev pub IsLeafGroup : ℤ → List (CellSpec F) → List (Option (CellSpec F)) → Type 0
  IsLeafGroup level children cells =
      (child c : CellSpec F) (depth : ℤ)
      → In child children
      → In (some c) cells
      → cell_path_level (trim_space child.id) ≡ some level
      → cell_path_level (trim_space c.id) ≡ some depth
      → leb_ℤ depth level ≡ false
      → is_descendant_path (trim_space child.id) (trim_space c.id) ≡ false

  any_covers-none :
      (level : ℤ) (children : List (CellSpec F)) (id : Text) (child : CellSpec F)
      → any_covers level id (map (λ ch. trim_space ch.id) children) ≡ false
      → In child children
      → cell_path_level (trim_space child.id) ≡ some level
      → is_descendant_path (trim_space child.id) id ≡ false
  unfolding any_covers
  any_covers-none level [] id child h i at = absurd i
  any_covers-none level (ch ∷ children) id child h (inl same) at =
      covers-none level id (trim_space child.id)
        (subst (λ (x : CellSpec F). covers level id (trim_space x.id) ≡ false) (sym same)
          (or_left (covers level id (trim_space ch.id)) _ h))
        at
  any_covers-none level (ch ∷ children) id child h (inr i) at =
      any_covers-none level children id child (or_right (covers level id (trim_space ch.id)) _ h) i
        at

  pub has_descendants-IsLeafGroup :
      (level : ℤ) (children : List (CellSpec F)) (cells : List (Option (CellSpec F)))
      → has_descendants level (map (λ ch. trim_space ch.id) children) cells ≡ false
      → IsLeafGroup level children cells
  unfolding has_descendants
  has_descendants-IsLeafGroup level children [] h child c depth i j at at_c deep = absurd j
  has_descendants-IsLeafGroup level children (none ∷ cells) h child c depth i (inl e) at at_c deep =
      cc
  has_descendants-IsLeafGroup level children (none ∷ cells) h child c depth i (inr j) at at_c deep =
      has_descendants-IsLeafGroup level children cells h child c depth i j at at_c deep
  has_descendants-IsLeafGroup level children (some d ∷ cells) h child c depth i (inl e) at at_c
        deep =
      let ids = map (λ (ch : CellSpec F). trim_space ch.id) children in
      let none_below : below_any level ids (trim_space c.id) (cell_path_level (trim_space c.id))
          ≡ false =
        subst
          (λ (x : CellSpec F).
            below_any level ids (trim_space x.id) (cell_path_level (trim_space x.id)) ≡ false)
          (sym (some_cancel e))
          (or_left (below_any level ids (trim_space d.id) (cell_path_level (trim_space d.id))) _
            h) in
      any_covers-none level children (trim_space c.id) child (rw (at_c, deep) at none_below) i at
  has_descendants-IsLeafGroup level children (some d ∷ cells) h child c depth i (inr j) at at_c
        deep =
      has_descendants-IsLeafGroup level children cells
        (or_right
          (below_any level (map (λ (ch : CellSpec F). trim_space ch.id) children) (trim_space d.id)
            (cell_path_level (trim_space d.id)))
          _ h)
        child c depth i j at at_c deep
