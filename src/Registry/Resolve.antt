-- ===== src/Registry/Resolve.antt =====
-- ResolveMostSpecific and PickBestCell return a cell of the highest level among those that contain the
-- point, and miss only where none does (internal/registry/memory.go, internal/discovery/catalog.go).
use mathlib.Core.Path.{subst}
use mmo.Prelude.{
  ◌≡◌, refl, sym, ◌⊎◌, inl, inr, Bool, true, false, ◌&&◌, Option, none, some, List, [], ◌∷◌, arith,
  All, In, Bool-cases, if◌then◌else◌, some_cancel,
}
use mmo.Prelude.Int.{ltb_ℤ}
use mmo.Prelude.Float.{Float}
use mmo.Cell.{CellSpec}
use mmo.Partition.{contains}
use mmo.Registry.{Memory, list, better, best_from, present, pick_best_cell, resolve_most_specific}

module _ {F : Type 0} ⦃fl : Float F⦄ (x z : F) where
  abbrev covers : CellSpec F → Bool
  covers c = contains c.bounds x z

  abbrev pick : CellSpec F → Option (CellSpec F) → Option (CellSpec F)
  pick c best = if covers c && better c best then some c else best

  better-pick :
      (d c : CellSpec F) (best : Option (CellSpec F))
      → better d best ≡ false
      → better d (pick c best) ≡ false
  better-pick d c none h = cc
  better-pick d c (some b) h = ground arith

  better-best_from :
      (d : CellSpec F) (cells : List (CellSpec F)) (best : Option (CellSpec F))
      → better d best ≡ false
      → better d (best_from x z cells best) ≡ false
  unfolding best_from
  better-best_from d [] best h = h
  better-best_from d (c ∷ cells) best h =
      better-best_from d cells (pick c best) (better-pick d c best h)

  best_from-max :
      (cells : List (CellSpec F)) (best : Option (CellSpec F))
      → All (λ d. (covers d && better d (best_from x z cells best)) ≡ false) cells
  unfolding best_from
  best_from-max [] best = tt
  best_from-max (c ∷ cells) best = (
    ground (arith, better-best_from c cells (pick c best), picked c best),
    best_from-max cells (pick c best),
  )
    where
      picked :
          (c : CellSpec F) (best : Option (CellSpec F))
          → covers c ≡ true
          → better c (pick c best) ≡ false
      picked c none h = ground arith
      picked c (some b) h = ground arith

  best_from_found :
      (cells : List (CellSpec F)) (best : Option (CellSpec F)) (r : CellSpec F)
      → best_from x z cells best ≡ some r
      → (best ≡ some r) ⊎ (In r cells × (covers r ≡ true))
  unfolding best_from
  best_from_found [] best r h = inl h
  best_from_found (c ∷ cells) best r h = elim (best_from_found cells (pick c best) r h) [
    | inr (here, cov) ↦ inr (inr here, cov)
    | inl e ↦ elim (Bool-cases (covers c && better c best)) [
      | inr no_pick ↦ inl (ground arith)
      | inl yes_pick ↦
          let same : c ≡ r = some_cancel (rw yes_pick at e) in
          inr (inl (sym same), subst (λ k. covers k ≡ true) same (ground arith))
    ]
  ]

  -- No cell covers the point, or the cell does and no cell that covers it has a higher level.
  abbrev pub IsMostSpecific : List (CellSpec F) → Option (CellSpec F) → Type 0
  IsMostSpecific cells none = All (λ d. covers d ≡ false) cells
  IsMostSpecific cells (some c) =
      In c cells × (covers c ≡ true) × All (λ d. (covers d && ltb_ℤ c.level d.level) ≡ false) cells

  best_from-IsMostSpecific :
      (cells : List (CellSpec F)) (r : Option (CellSpec F))
      → best_from x z cells none ≡ r
      → IsMostSpecific cells r
  best_from-IsMostSpecific cells none e =
      none_covers cells (
        subst (λ o. All (λ d. (covers d && better d o) ≡ false) cells) e (best_from-max cells none))
    where
      none_covers :
          (ds : List (CellSpec F))
          → All (λ d. (covers d && true) ≡ false) ds
          → All (λ d. covers d ≡ false) ds
      none_covers [] h = tt
      none_covers (d ∷ ds) h = (ground arith, none_covers ds h.1)
  best_from-IsMostSpecific cells (some c) e = elim (best_from_found cells none c e) [
    | inl no_start ↦ absurd (cc no_start)
    | inr (here, cov) ↦ (
      here,
      cov,
      subst (λ o. All (λ d. (covers d && better d o) ≡ false) cells) e (best_from-max cells none),
    )
  ]

  -- Whatever the registry holds, and in whatever order its map is visited, the answer is a registered
  -- cell that contains the point, of the highest level among those that do; there is no answer only
  -- where no registered cell contains the point.
  pub resolve-IsMostSpecific :
      (m : Memory F) → IsMostSpecific (list m) (resolve_most_specific m x z)
  unfolding resolve_most_specific list
  resolve-IsMostSpecific m = best_from-IsMostSpecific (list m) _ refl

  -- PickBestCell does the same over the entries of a listed catalog that are not nil.
  pub pick_best_cell-IsMostSpecific :
      (cells : List (Option (CellSpec F)))
      → IsMostSpecific (present cells) (pick_best_cell cells x z)
  unfolding pick_best_cell
  pick_best_cell-IsMostSpecific cells = best_from-IsMostSpecific (present cells) _ refl
