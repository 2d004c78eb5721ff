-- ===== src/Partition/Merge/Step.antt =====
-- One round of the loop of ValidateMergeChildren over a child that it accepts.
use mmo.Prelude.{ℕ, ◌≡◌, refl, Bool, true, false, Option, some, List, [], ◌∷◌, text-Eq}
use mmo.Prelude.Int.{ℤ, eqb_ℤ}
use mmo.Prelude.Text.{Text, trim_space, is_empty}
use mmo.Prelude.Dict.{Set, put, has, is_some}
use mmo.Prelude.Result.{ok}
use mmo.Prelude.Float.{Float}
use mmo.Cell.{Bounds, CellSpec}
use mmo.Partition.Merge.{mark, free_quadrant, validate_loop}

module _ {F : Type 0} ⦃fl : Float F⦄ (want : ℤ) (quads : List (Bounds F)) where
  pub validate_end :
      (used : List Bool) (seen : Set Text) → validate_loop want quads [] used seen ≡ ok used
  unfolding validate_loop
  validate_end used seen = refl

  pub validate_step :
      (c : CellSpec F) (rest : List (Option (CellSpec F))) (used : List Bool) (seen : Set Text)
      (i : ℕ)
      → is_empty (trim_space c.id) ≡ false
      → eqb_ℤ c.level want ≡ true
      → is_some c.bounds ≡ true
      → has seen (trim_space c.id) ≡ false
      → free_quadrant used quads c.bounds ≡ some i
      → validate_loop want quads (some c ∷ rest) used seen
        ≡ validate_loop want quads rest (mark used i) (put seen (trim_space c.id) tt)
  unfolding validate_loop
  validate_step c rest used seen i n l b s f = rw (n, l, b, s, f) refl
