-- ===== src/Partition/Merge/Catalog.antt =====
-- What CatalogMergeChildren finds in a catalog, and that ValidateMergeChildren accepts it
-- (internal/partition/split.go).
use mathlib.Core.List.{append_assoc, append-nil}
use mathlib.Core.Path.{subst}
use mmo.Prelude.{
  ℕ, zero, suc, ◌≡◌, refl, sym, ap, ◌∙◌, ◌⊎◌, inl, inr, Bool, true, false, Option, none, some, List,
  [], ◌∷◌, ◌++◌, map, arith, length, get_elem?, In, text-Eq, Bool-cases, some_cancel,
}
use mmo.Prelude.Int.{ℤ, eqb_ℤ, eqb_ℤ_iff}
use mmo.Prelude.Text.{Text, trim_space, is_empty}
use mmo.Prelude.Dict.{Set, put, has, is_some}
use mmo.Prelude.Result.{ok, ◌>>◌, >>=-eq-ok, ok_cancel, fail_if-eq-ok}
use mmo.Prelude.Float.{Float}
use mmo.Cell.{Bounds, CellSpec}
use mmo.Partition.{split_four, bounds_equal}
use mmo.Partition.Merge.Step.{validate_step, validate_end}
use mmo.Partition.Merge.{
  next_level, mark, fits, find_match, match_quads, check_ids, catalog_merge_children, free_quadrant,
  validate_loop, validate_merge_children, need_match,
}

module _ {F : Type 0} ⦃fl : Float F⦄ (want : ℤ) (catalog : List (Option (CellSpec F))) where
  find_match_sound :
      (quad : Bounds F) (qi : ℕ) (cs : List (Option (CellSpec F))) (found : Option (CellSpec F))
      (c : CellSpec F)
      → find_match want quad qi cs found ≡ ok (some c)
      → (found ≡ some c) ⊎ (In (some c) cs × (fits want quad c ≡ true))
  unfolding find_match
  find_match_sound quad qi [] found c h = inl (ground arith)
  find_match_sound quad qi (none ∷ cs) found c h = elim (find_match_sound quad qi cs found c h) [
    | inl e ↦ inl e
    | inr (i, f) ↦ inr (inr i, f)
  ]
  find_match_sound quad qi (some d ∷ cs) found c h = elim (Bool-cases (fits want quad d)) [
    | inr skip ↦ elim (find_match_sound quad qi cs found c (rw skip at h)) [
      | inl e ↦ inl e
      | inr (i, f) ↦ inr (inr i, f)
    ]
    | inl fit ↦ elim (find_match_sound quad qi cs (some d) c (ground arith)) [
      | inl e ↦ inr (inl (sym e), subst (λ x. fits want quad x ≡ true) (some_cancel e) fit)
      | inr (i, f) ↦ inr (inr i, f)
    ]
  ]

  need_match_inv :
      (qi : ℕ) (found : Option (CellSpec F)) (c : CellSpec F)
      → need_match qi found ≡ ok c
      → found ≡ some c
  need_match_inv qi none c h = cc
  need_match_inv qi (some d) c h = ap some (ok_cancel h)

  match_quads_inv :
      (qi : ℕ) (quad : Bounds F) (quads : List (Bounds F)) (out : List (CellSpec F))
      → match_quads want catalog qi (quad ∷ quads) ≡ ok out
      → (c : CellSpec F) × (out' : List (CellSpec F)) × (out ≡ c ∷ out')
        × In (some c) catalog
        × (fits want quad c ≡ true)
        × (match_quads want catalog (suc qi) quads ≡ ok out')
  unfolding match_quads
  match_quads_inv qi quad quads out h =
      let (found, e1, h1) = >>=-eq-ok (find_match want quad qi catalog none) _ h in
      let (c, e2, h2) = >>=-eq-ok (need_match qi found) _ h1 in
      let (out', e3, h3) = >>=-eq-ok (match_quads want catalog (suc qi) quads) _ h2 in
      let matched : find_match want quad qi catalog none ≡ ok (some c) =
        e1 ∙ ap ok (need_match_inv qi found c e2) in
      elim (find_match_sound quad qi catalog none c matched) [
        | inl no_match ↦ absurd (cc no_match)
        | inr (here, fit) ↦ (c, out', sym (ok_cancel h3), here, fit, e3)
      ]

-- The used marks after a number of quadrants.
abbrev trues {ℓ} : {A : Type ℓ} → List A → List Bool
trues [] = []
trues (x ∷ xs) = true ∷ trues xs

abbrev falses {ℓ} : {A : Type ℓ} → List A → List Bool
falses [] = []
falses (x ∷ xs) = false ∷ falses xs

mark-trues {ℓ} :
    {A : Type ℓ} (pre : List A) (q : A) (us : List Bool)
    → mark (trues pre ++ false ∷ us) (length pre) ≡ trues (pre ++ q ∷ []) ++ us
mark-trues [] q us = refl
mark-trues (p ∷ pre) q us = ap (λ (t : List Bool). true ∷ t) (mark-trues pre q us)

module _ {F : Type 0} ⦃fl : Float F⦄ where
  free_quadrant-trues :
      (pre : List (Bounds F)) (q : Bounds F) (quads : List (Bounds F)) (us : List Bool)
      (b : Option (Bounds F))
      → bounds_equal b (some q) ≡ true
      → free_quadrant (trues pre ++ false ∷ us) (pre ++ q ∷ quads) b ≡ some (length pre)
  unfolding free_quadrant
  free_quadrant-trues [] q quads us b h = rw h
  free_quadrant-trues (p ∷ pre) q quads us b h = rw (free_quadrant-trues pre q quads us b h)

  fits_bounds :
      (want : ℤ) (q : Bounds F) (c : CellSpec F)
      → fits want q c ≡ true
      → (eqb_ℤ c.level want ≡ true)
        × (is_some c.bounds ≡ true)
        × (bounds_equal c.bounds (some q) ≡ true)
  fits_bounds want q c h = ground arith

  module _ (want : ℤ) (catalog : List (Option (CellSpec F))) where
    check_ids_inv :
        (seen : Set Text) (c : CellSpec F) (out : List (CellSpec F))
        → check_ids seen (c ∷ out) ≡ ok tt
        → (is_empty (trim_space c.id) ≡ false)
          × (has seen (trim_space c.id) ≡ false)
          × (check_ids (put seen (trim_space c.id) tt) out ≡ ok tt)
    unfolding check_ids
    check_ids_inv seen c out h =
        let (n, h1) = fail_if-eq-ok (is_empty (trim_space c.id)) _ _ h in
        let (s, h2) = fail_if-eq-ok (has seen (trim_space c.id)) _ _ h1 in (n, s, h2)

    loop-match_quads :
        (pre quads : List (Bounds F)) (qi : ℕ) (out : List (CellSpec F)) (seen : Set Text)
        → match_quads want catalog qi quads ≡ ok out
        → check_ids seen out ≡ ok tt
        → validate_loop want (pre ++ quads) (map some out) (trues pre ++ falses quads) seen
          ≡ ok (trues (pre ++ quads))
    unfolding match_quads
    loop-match_quads pre [] qi out seen h ids =
        subst
          (λ o.
            validate_loop want (pre ++ []) (map some o) (trues pre ++ []) seen
            ≡ ok (trues (pre ++ [])))
          (ok_cancel h)
          (rw (append-nil pre, append-nil (trues pre)) (validate_end want pre (trues pre) seen))
    loop-match_quads pre (q ∷ quads) qi out seen h ids =
        let (c, out', e, here, fit, h') = match_quads_inv want catalog qi q quads out h in
        let (level, bounded, same) = fits_bounds want q c fit in
        let (n, s, ids') =
          check_ids_inv seen c out' (subst (λ o. check_ids seen o ≡ ok tt) e ids) in
        let whole : (pre ++ q ∷ []) ++ quads ≡ pre ++ q ∷ quads = append_assoc pre (q ∷ []) quads in
        let rest =
          loop-match_quads (pre ++ q ∷ []) quads (suc qi) out' (put seen (trim_space c.id) tt) h'
            ids' in
        rw e (
          validate_step want (pre ++ q ∷ quads) c (map some out')
            (trues pre ++ false ∷ falses quads) seen (length pre) n level bounded s
            (free_quadrant-trues pre q quads (falses quads) c.bounds same)
          ∙ rw (mark-trues pre q (falses quads)) (rw whole at rest))

    length-match_quads :
        (qi : ℕ) (quads : List (Bounds F)) (out : List (CellSpec F))
        → match_quads want catalog qi quads ≡ ok out
        → length (map some out) ≡ length quads
    unfolding match_quads
    length-match_quads qi [] out h =
        ap (λ (o : List (CellSpec F)). length (map some o)) (sym (ok_cancel h))
    length-match_quads qi (q ∷ quads) out h =
        let (c, out', e, here, fit, h') = match_quads_inv want catalog qi q quads out h in
        rw e (ap suc (length-match_quads (suc qi) quads out' h'))

    match_quads_sound :
        (qi : ℕ) (quads : List (Bounds F)) (out : List (CellSpec F)) (i : ℕ) (c : CellSpec F)
        → match_quads want catalog qi quads ≡ ok out
        → get_elem? out i ≡ some c
        → In (some c) catalog
          × ((q : Bounds F) × (get_elem? quads i ≡ some q) × (fits want q c ≡ true))
    unfolding match_quads
    match_quads_sound qi [] out i c h at = absurd (cc (h, at))
    match_quads_sound qi (q ∷ quads) out zero c h at =
        let (d, out', e, here, fit, h') = match_quads_inv want catalog qi q quads out h in
        let same : d ≡ c =
          some_cancel (ap (λ (o : List (CellSpec F)). get_elem? o 0) (sym e) ∙ at) in
        (
          subst (λ x. In (some x) catalog) same here,
          (q, refl, subst (λ x. fits want q x ≡ true) same fit),
        )
    match_quads_sound qi (q ∷ quads) out (suc i) c h at =
        let (d, out', e, here, fit, h') = match_quads_inv want catalog qi q quads out h in
        match_quads_sound (suc qi) quads out' i c h'
          (ap (λ (o : List (CellSpec F)). get_elem? o (suc i)) (sym e) ∙ at)

  catalog_merge_children_inv :
      (parent : CellSpec F) (b : Bounds F) (catalog : List (Option (CellSpec F)))
      (out : List (CellSpec F))
      → parent.bounds ≡ some b
      → catalog_merge_children (some parent) catalog ≡ ok out
      → (match_quads (next_level parent.level) catalog 0 (split_four b) ≡ ok out)
        × (check_ids [] out ≡ ok tt)
  unfolding catalog_merge_children
  catalog_merge_children_inv parent b catalog out at h =
      let found = match_quads (next_level parent.level) catalog 0 (split_four b) in
      let (out', e, h1) = >>=-eq-ok found (λ o. check_ids [] o >> ok o) (rw at at h) in
      let (u, e2, h2) = >>=-eq-ok (check_ids [] out') (λ _. ok out') h1 in
      let same = ok_cancel h2 in (e ∙ ap ok same, subst (λ o. check_ids [] o ≡ ok tt) same e2)

  -- The cells that the catalog offers for a merge, in any registration order, pass the check that the
  -- parent makes before it.
  pub validate-catalog_merge_children :
      (parent : CellSpec F) (b : Bounds F) (catalog : List (Option (CellSpec F)))
      (out : List (CellSpec F))
      → parent.bounds ≡ some b
      → catalog_merge_children (some parent) catalog ≡ ok out
      → validate_merge_children (some b) parent.level (map some out) ≡ ok tt
  unfolding validate_merge_children split_four
  validate-catalog_merge_children parent b catalog out at h =
      let (found, ids) = catalog_merge_children_inv parent b catalog out at h in
      let want = next_level parent.level in
      rw (length-match_quads want catalog 0 (split_four b) out found)
        (rw (loop-match_quads want catalog [] (split_four b) 0 out [] found ids) refl)

  -- Each cell that it returns stands in the catalog, on the level below the parent, with the bounds of
  -- the quadrant of its position.
  pub catalog_merge_children_sound :
      (parent : CellSpec F) (b : Bounds F) (catalog : List (Option (CellSpec F)))
      (out : List (CellSpec F)) (i : ℕ) (c : CellSpec F)
      → parent.bounds ≡ some b
      → catalog_merge_children (some parent) catalog ≡ ok out
      → get_elem? out i ≡ some c
      → In (some c) catalog
        × ((q : Bounds F) × (get_elem? (split_four b) i ≡ some q)
            × (c.level ≡ next_level parent.level)
            × (bounds_equal c.bounds (some q) ≡ true))
  catalog_merge_children_sound parent b catalog out i c at h e =
      let (found, ids) = catalog_merge_children_inv parent b catalog out at h in
      let (here, quadrant) =
        match_quads_sound (next_level parent.level) catalog 0 (split_four b) out i c found e in
      let (q, quad, fit) = quadrant in
      let (level, bounded, same) = fits_bounds (next_level parent.level) q c fit in
      (here, (q, quad, (eqb_ℤ_iff c.level (next_level parent.level)).0 level, same))
