-- ===== src/Partition/Quadrants.antt =====
-- The four children of a split cover the parent, and overlap on the two middle lines only
-- (internal/partition/split.go: SplitFour, Quadrant, Contains).
use mmo.Prelude.{ℕ, zero, suc, ◌≡◌, true, false, some, refl, get_elem?, arith, Bool-cases, inl, inr}
use mmo.Prelude.Float.{Float, FloatLaws}
use mmo.Cell.{Bounds}
use mmo.Partition.{mid_x, mid_z, split_four, quadrant, contains}

module _ {F : Type 0} ⦃fl : Float F⦄ (laws : FloatLaws fl) where
  -- Under the laws of float64, a point of a cell whose middle lines are numbers lies in the child that
  -- `quadrant` names.
  pub contains-quadrant :
      (b : Bounds F) (x z : F)
      → fl.eq (mid_x b) (mid_x b) ≡ true
      → fl.eq (mid_z b) (mid_z b) ≡ true
      → contains (some b) x z ≡ true
      → (c : Bounds F) × (get_elem? (split_four b) (quadrant x z (some b)) ≡ some c)
        × (contains (some c) x z ≡ true)
  unfolding split_four quadrant contains
  contains-quadrant b x z nx nz h = elim (Bool-cases (fl.le (mid_x b) x)) [
    | inl ex ↦ elim (Bool-cases (fl.le (mid_z b) z)) [
      | inl ez ↦ rw (ex, ez) (_, refl, ground arith)
      | inr ez ↦ rw (ex, ez) (_, refl, ground (arith, below_z))
    ]
    | inr ex ↦ elim (Bool-cases (fl.le (mid_z b) z)) [
      | inl ez ↦ rw (ex, ez) (_, refl, ground (arith, below_x))
      | inr ez ↦ rw (ex, ez) (_, refl, ground (arith, below_x, below_z))
    ]
  ]
    where
      below_x : fl.le (mid_x b) x ≡ false → fl.le x (mid_x b) ≡ true
      below_x = laws.le_total _ _ nx (laws.le_num b.x_min x (ground arith))

      below_z : fl.le (mid_z b) z ≡ false → fl.le z (mid_z b) ≡ true
      below_z = laws.le_total _ _ nz (laws.le_num b.z_min z (ground arith))

  -- Under the laws of float64, a point off the middle lines lies in no other child than the one that
  -- `quadrant` names.
  pub contains-quadrant_unique :
      (b c : Bounds F) (x z : F) (i : ℕ)
      → fl.eq x (mid_x b) ≡ false
      → fl.eq z (mid_z b) ≡ false
      → get_elem? (split_four b) i ≡ some c
      → contains (some c) x z ≡ true
      → i ≡ quadrant x z (some b)
  unfolding split_four quadrant contains
  contains-quadrant_unique b c x z zero ox oz e h =
      ground (arith, laws.le_antisymm x (mid_x b), laws.le_antisymm z (mid_z b))
  contains-quadrant_unique b c x z (suc zero) ox oz e h =
      ground (arith, laws.le_antisymm x (mid_x b), laws.le_antisymm z (mid_z b))
  contains-quadrant_unique b c x z (suc (suc zero)) ox oz e h =
      ground (arith, laws.le_antisymm x (mid_x b), laws.le_antisymm z (mid_z b))
  contains-quadrant_unique b c x z (suc (suc (suc zero))) ox oz e h =
      ground (arith, laws.le_antisymm x (mid_x b), laws.le_antisymm z (mid_z b))
  contains-quadrant_unique b c x z (suc (suc (suc (suc i)))) ox oz e h = cc
