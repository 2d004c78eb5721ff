-- ===== src/Partition/Merge/Sound.antt =====
-- What an accepted list of children is like (internal/partition/split.go: ValidateMergeChildren).
use mathlib.Core.Path.{subst}
use mmo.Prelude.{
  ℕ, zero, some_cancel, suc, ◌<◌, ◌≡◌, ◌≢◌, refl, sym, ap, ◌∙◌, ◌⊎◌, inl, inr, Bool, true, false,
  Option, none, some, List, [], ◌∷◌, arith, length, get_elem?, In, All, text-Eq, Option-cases,
}
use mmo.Prelude.Int.{ℤ, eqb_ℤ_iff}
use mmo.Prelude.Text.{Text, trim_space, is_empty}
use mmo.Prelude.Dict.{Set, put, is_some}
use mmo.Prelude.Result.{Result, ok, err, ◌>>=◌}
use mmo.Prelude.Float.{Float}
use mmo.Cell.{Bounds, CellSpec}
use mmo.Partition.{split_four, bounds_equal}
use mmo.Partition.Merge.{
  next_level, mark, check_used, free_quadrant, validate_loop, validate_merge_children, MergeError,
}

get_elem?-mark :
    (us : List Bool) (i j : ℕ)
    → get_elem? (mark us i) j ≡ some true
    → (i ≡ j) ⊎ (get_elem? us j ≡ some true)
get_elem?-mark [] i j h = inr h
get_elem?-mark (u ∷ us) zero zero h = inl refl
get_elem?-mark (u ∷ us) zero (suc j) h = inr h
get_elem?-mark (u ∷ us) (suc i) zero h = inr h
get_elem?-mark (u ∷ us) (suc i) (suc j) h = elim (get_elem?-mark us i j h) [
  | inl e ↦ inl (ap suc e)
  | inr p ↦ inr p
]

length-mark : (us : List Bool) (i : ℕ) → length (mark us i) ≡ length us
length-mark [] i = refl
length-mark (u ∷ us) zero = refl
length-mark (u ∷ us) (suc i) = ap suc (length-mark us i)

check_used_sound :
    (qi : ℕ) (us : List Bool) (i : ℕ)
    → check_used qi us ≡ ok tt
    → i < length us
    → get_elem? us i ≡ some true
unfolding check_used
check_used_sound qi [] i h l = absurd (omega arith)
check_used_sound qi (u ∷ us) zero h l = ground arith
check_used_sound qi (u ∷ us) (suc i) h l =
    check_used_sound (suc qi) us i (ground arith) (omega arith)

loop_ok :
    (r : Result MergeError (List Bool))
    → (r >>= check_used 0) ≡ ok tt
    → (us : List Bool) × (r ≡ ok us) × (check_used 0 us ≡ ok tt)
loop_ok (ok us) h = (us, refl, h)
loop_ok (err e) h = cc

not_yet_used : (i : ℕ) → get_elem? (false ∷ false ∷ false ∷ false ∷ []) i ≢ some true
not_yet_used zero = λ e. cc
not_yet_used (suc zero) = λ e. cc
not_yet_used (suc (suc zero)) = λ e. cc
not_yet_used (suc (suc (suc zero))) = λ e. cc
not_yet_used (suc (suc (suc (suc i)))) = λ e. cc

module _ {F : Type 0} ⦃fl : Float F⦄ where
  four_quads : (parent q : Bounds F) (i : ℕ) → get_elem? (split_four parent) i ≡ some q → i < 4
  unfolding split_four
  four_quads parent q zero h = omega arith
  four_quads parent q (suc zero) h = omega arith
  four_quads parent q (suc (suc zero)) h = omega arith
  four_quads parent q (suc (suc (suc zero))) h = omega arith
  four_quads parent q (suc (suc (suc (suc i)))) h = cc

  free_quadrant_sound :
      (us : List Bool) (quads : List (Bounds F)) (b : Option (Bounds F)) (i : ℕ)
      → free_quadrant us quads b ≡ some i
      → (q : Bounds F) × (get_elem? quads i ≡ some q) × (bounds_equal b (some q) ≡ true)
  unfolding free_quadrant
  free_quadrant_sound [] quads b i h = cc
  free_quadrant_sound (u ∷ us) [] b i h = cc
  free_quadrant_sound (u ∷ us) (q ∷ quads) b zero h = (q, refl, ground arith)
  free_quadrant_sound (u ∷ us) (q ∷ quads) b (suc i) h =
      free_quadrant_sound us quads b i (ground arith)

  -- A child of the level, with an id and bounds.
  abbrev pub IsChild : ℤ → Option (CellSpec F) → Type 0
  IsChild want none = ⊥
  IsChild want (some c) =
      (is_empty (trim_space c.id) ≡ false) × (c.level ≡ want) × (is_some c.bounds ≡ true)

  validate_loop_inv :
      (want : ℤ) (quads : List (Bounds F)) (c : CellSpec F) (rest : List (Option (CellSpec F)))
      (us us' : List Bool) (seen : Set Text)
      → validate_loop want quads (some c ∷ rest) us seen ≡ ok us'
      → (i : ℕ) × (free_quadrant us quads c.bounds ≡ some i)
        × IsChild want (some c)
        × (validate_loop want quads rest (mark us i) (put seen (trim_space c.id) tt) ≡ ok us')
  unfolding validate_loop
  validate_loop_inv want quads c rest us us' seen h =
      elim (Option-cases (free_quadrant us quads c.bounds)) [
        | inl e ↦ absurd (ground arith)
        | inr (i, e) ↦ (
          i,
          e,
          (ground arith, ground (arith, eqb_ℤ_iff c.level want), ground arith),
          ground arith,
        )
      ]

  -- Where the loop ends well, each child is one of the level, and a quadrant that it has come to use
  -- has the bounds of some child.
  validate_loop_sound :
      (want : ℤ) (quads : List (Bounds F)) (children : List (Option (CellSpec F)))
      (us us' : List Bool) (seen : Set Text)
      → validate_loop want quads children us seen ≡ ok us'
      → All (IsChild want) children
        × (length us' ≡ length us)
        × ((i : ℕ) (q : Bounds F)
            → get_elem? us' i ≡ some true
            → get_elem? quads i ≡ some q
            → (get_elem? us i ≡ some true)
              ⊎ ((c : CellSpec F) × In (some c) children × (bounds_equal c.bounds (some q) ≡ true)))
  unfolding validate_loop
  validate_loop_sound want quads [] us us' seen h =
      (tt, ground arith, λ i q used e. inl (ground arith))
  validate_loop_sound want quads (none ∷ rest) us us' seen h = absurd (cc h)
  validate_loop_sound want quads (some c ∷ rest) us us' seen h =
      let (k, free, child, h') = validate_loop_inv want quads c rest us us' seen h in
      let (all, len, sound) = validate_loop_sound want quads rest (mark us k) us' _ h' in
      (
        (child, all),
        len ∙ length-mark us k,
        λ i q used e. elim (sound i q used e) [
          | inl m ↦ elim (get_elem?-mark us k i m) [
            | inl same ↦
                let (q', at, eq) = free_quadrant_sound us quads c.bounds k free in
                inr (
                  c,
                  inl refl,
                  subst (λ r. bounds_equal c.bounds (some r) ≡ true)
                      (some_cancel (sym at ∙ ap (get_elem? quads) same ∙ e)) eq,
                )
            | inr old ↦ inl old
          ]
          | inr (d, in', eq) ↦ inr (d, inr in', eq)
        ],
      )

  -- An accepted list has four children; each has an id, bounds and the level below the parent's; and
  -- for each quadrant of the parent some child has its bounds.
  pub validate_merge_children_sound :
      (parent : Bounds F) (parent_level : ℤ) (children : List (Option (CellSpec F))) (i : ℕ)
      (q : Bounds F)
      → validate_merge_children (some parent) parent_level children ≡ ok tt
      → get_elem? (split_four parent) i ≡ some q
      → (length children ≡ 4)
        × All (IsChild (next_level parent_level)) children
        × ((c : CellSpec F) × In (some c) children × (bounds_equal c.bounds (some q) ≡ true))
  unfolding validate_merge_children
  validate_merge_children_sound parent parent_level children i q h at =
      let none_used : List Bool = false ∷ false ∷ false ∷ false ∷ [] in
      let (us, loop, used) =
        loop_ok (validate_loop (next_level parent_level) (split_four parent) children none_used [])
          (ground arith) in
      let (all, len, sound) =
        validate_loop_sound (next_level parent_level) (split_four parent) children none_used us []
          loop in
      (
        ground arith,
        all,
        elim (sound i q (check_used_sound 0 us i used (rw len (four_quads parent q i at))) at) [
          | inl old ↦ absurd (not_yet_used i old)
          | inr found ↦ found
        ],
      )
