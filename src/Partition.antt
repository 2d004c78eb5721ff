-- ===== src/Partition.antt =====
-- The quad tree of cells (internal/partition/split.go): bounds here, cell ids in Partition/Path, and
-- the checks before a merge in Partition/Merge.
pub mod Path
pub mod Quadrants
pub mod Merge
use mmo.Prelude.{
  ℕ, ◌+◌, ◌*◌, Bool, false, true, ◌&&◌, Option, none, some, List, [], ◌∷◌, if◌then◌else◌,
}
use mmo.Prelude.Float.{Float}
use mmo.Cell.{Bounds}

module _ {F : Type 0} ⦃fl : Float F⦄ where
  abbrev pub mid_x : Bounds F → F
  mid_x b = fl.div (fl.add b.x_min b.x_max) (fl.num 2)

  abbrev pub mid_z : Bounds F → F
  mid_z b = fl.div (fl.add b.z_min b.z_max) (fl.num 2)

  unfoldable pub mid : Option (Bounds F) → F × F
  mid none = (fl.num 0, fl.num 0)
  mid (some b) = (mid_x b, mid_z b)

  -- The array of four children, in the order of their quadrants.
  unfoldable pub split_four : Bounds F → List (Bounds F)
  unfolding mid
  split_four parent =
      let (mx, mz) = mid (some parent) in
      record { x_min = parent.x_min; x_max = mx; z_min = parent.z_min; z_max = mz }
      ∷ record { x_min = mx; x_max = parent.x_max; z_min = parent.z_min; z_max = mz }
      ∷ record { x_min = parent.x_min; x_max = mx; z_min = mz; z_max = parent.z_max }
      ∷ record { x_min = mx; x_max = parent.x_max; z_min = mz; z_max = parent.z_max }
      ∷ []

  unfoldable pub quadrant : F → F → Option (Bounds F) → ℕ
  unfolding mid
  quadrant x z b =
      let (mx, mz) = mid b in
      let qx : ℕ = if fl.le mx x then 1 else 0 in
      let qz : ℕ = if fl.le mz z then 1 else 0 in qz * 2 + qx

  unfoldable pub contains : Option (Bounds F) → F → F → Bool
  contains none x z = false
  contains (some b) x z = fl.le b.x_min x && fl.le x b.x_max && fl.le b.z_min z && fl.le z b.z_max

  unfoldable pub bounds_equal : Option (Bounds F) → Option (Bounds F) → Bool
  bounds_equal none none = true
  bounds_equal none (some b) = false
  bounds_equal (some a) none = false
  bounds_equal (some a) (some b) =
      fl.eq a.x_min b.x_min
      && fl.eq a.x_max b.x_max
      && fl.eq a.z_min b.z_min
      && fl.eq a.z_max b.z_max
