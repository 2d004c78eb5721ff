-- ===== src/Grid/Probes/Found.antt =====
-- What it says of the children of a split that resolveChildProbeReasons has nothing to report
-- (cmd/grid-manager/split_workflow.go).
use mathlib.Core.Path.{subst}
use mmo.Prelude.{
  ◌≡◌, refl, sym, Bool, true, false, ◌&&◌, Option, none, some, List, [], ◌∷◌, text-Eq, ◌==◌, In,
  inl, inr, ◌⊎◌, Bool-cases, Option-cases, eq_iff, unset, arith, some_cancel, ◌∙◌,
}
use mmo.Prelude.Int.{ℤ}
use mmo.Prelude.Text.{Text, trim_space, is_empty}
use mmo.Prelude.Result.{ok, err}
use mmo.Prelude.Float.{Float}
use mmo.Cell.{CellSpec}
use mmo.Partition.{contains}
use mmo.Partition.Path.{cell_path_level, is_descendant_path}
use mmo.Grid.Probes.{
  ChildCellSpec, want_got, Answer, is_deeper, added, child_bounds, answer_reason,
  point_in_foreign_deeper_cell, probe_at, probe_row, probe_rows, pick_resolve_probe, fractions,
  child_reason, resolve_child_probe_reasons,
}

-- The cell is the child itself, or a deeper one below it.
abbrev pub IsWithin : {F : Type 0} → Text → ℤ → CellSpec F → Type 0
IsWithin id level got =
    (got.id ≡ id)
    ⊎ (is_deeper level (cell_path_level got.id) ≡ true) × (is_descendant_path id got.id ≡ true)

In-cons : {A : Type 0} (x first : A) (xs : List A) → In x (first ∷ xs) → (x ≡ first) ⊎ In x xs
In-cons x first xs i = i

added-empty {ℓ} :
    {R : Type ℓ} (o : Option R) (rs : List R) → added o rs ≡ [] → (o ≡ none) × (rs ≡ [])
added-empty none rs h = (refl, h)
added-empty (some r) rs h = cc

module _ {F E : Type 0} where
  answer_reason-none :
      (id : Text) (level : ℤ) (a : Answer E F)
      → answer_reason id level a ≡ none
      → (got : CellSpec F) × (a ≡ ok (some got)) × IsWithin id level got
  answer_reason-none id level (err e) h = cc
  answer_reason-none id level (ok none) h = cc
  answer_reason-none id level (ok (some got)) h = elim (Bool-cases (got.id == id)) [
    | inl same ↦ (got, refl, inl ((eq_iff got.id id).0 same))
    | inr other ↦
        elim (Bool-cases
          (is_deeper level (cell_path_level got.id) && is_descendant_path id got.id)) [
            | inl below ↦ (got, refl, inr (both below))
            | inr b ↦ absurd (unset {a = want_got id got.id} h (rw (other, b) refl))
          ]
  ]
    where
      both : {a b : Bool} → (a && b) ≡ true → (a ≡ true) × (b ≡ true)
      both h = ground (arith, h)

module _ {F : Type 0} ⦃fl : Float F⦄ where
  -- The point lies in the child's bounds and in no deeper cell of another branch.
  abbrev pub IsClear : ChildCellSpec F → List (CellSpec F) → F → F → Type 0
  IsClear sp cells x z =
      (contains (some (child_bounds sp)) x z ≡ true)
      × (point_in_foreign_deeper_cell x z (trim_space sp.id) sp.level cells ≡ false)

  probe_row-IsClear :
      (sp : ChildCellSpec F) (cells : List (CellSpec F)) (fx : F) (fzs : List F) (p : F × F)
      → probe_row sp cells fx fzs ≡ some p
      → IsClear sp cells p.0 p.1
  unfolding probe_row
  probe_row-IsClear sp cells fx [] p h = cc
  probe_row-IsClear sp cells fx (fz ∷ fzs) p h =
      let q = probe_at sp fx fz in
      elim (Bool-cases (contains (some (child_bounds sp)) q.0 q.1)) [
        | inr out ↦ probe_row-IsClear sp cells fx fzs p (rw out at h)
        | inl inside ↦
            elim (Bool-cases
              (point_in_foreign_deeper_cell q.0 q.1 (trim_space sp.id) sp.level cells)) [
                | inl deep ↦ probe_row-IsClear sp cells fx fzs p (rw (inside, deep) at h)
                | inr clear ↦
                    subst (λ r. IsClear sp cells r.0 r.1) (some_cancel (rw (inside, clear) at h))
                      (inside, clear)
              ]
      ]

  probe_rows-IsClear :
      (sp : ChildCellSpec F) (cells : List (CellSpec F)) (fxs fzs : List F) (p : F × F)
      → probe_rows sp cells fxs fzs ≡ some p
      → IsClear sp cells p.0 p.1
  unfolding probe_rows
  probe_rows-IsClear sp cells [] fzs p h = cc
  probe_rows-IsClear sp cells (fx ∷ fxs) fzs p h = elim (Option-cases (probe_row sp cells fx fzs)) [
    | inl n ↦ probe_rows-IsClear sp cells fxs fzs p (rw n at h)
    | inr (q, at) ↦ probe_row-IsClear sp cells fx fzs p (at ∙ (rw at at h))
  ]

  pick_resolve_probe-IsClear :
      (sp : ChildCellSpec F) (cells : List (CellSpec F)) (p : F × F)
      → pick_resolve_probe sp cells ≡ some p
      → IsClear sp cells p.0 p.1
  unfolding pick_resolve_probe
  pick_resolve_probe-IsClear sp cells p h =
      elim (Bool-cases (fl.le (fl.sub sp.x_max sp.x_min) (fl.num 0))) [
        | inl flat ↦ absurd (unset (refl {a = none}) (rw flat at h))
        | inr x_wide ↦ elim (Bool-cases (fl.le (fl.sub sp.z_max sp.z_min) (fl.num 0))) [
          | inl flat ↦ absurd (unset (refl {a = none}) (rw (x_wide, flat) at h))
          | inr z_wide ↦ elim (Bool-cases (is_empty (trim_space sp.id))) [
            | inl blank ↦ absurd (unset (refl {a = none}) (rw (x_wide, z_wide, blank) at h))
            | inr named ↦
                probe_rows-IsClear sp cells fractions fractions p (rw (x_wide, z_wide, named) at h)
          ]
        ]
      ]

  module _ {E : Type 0} where
    -- The catalog finds the child, or a deeper cell below it, at a clear point.
    pub record IsFound (resolve : F → F → Answer E F) (cells : List (CellSpec F))
        (sp : ChildCellSpec F) : Type 0 where
      pub x : F
      pub z : F
      pub clear : IsClear sp cells x z
      pub got : CellSpec F
      pub resolved : resolve x z ≡ ok (some got)
      pub within : IsWithin (trim_space sp.id) sp.level got

    child_reason-IsFound :
        (resolve : F → F → Answer E F) (cells : List (CellSpec F)) (sp : ChildCellSpec F)
        → is_empty (trim_space sp.id) ≡ false
        → child_reason resolve cells sp ≡ none
        → IsFound resolve cells sp
    child_reason-IsFound resolve cells sp named h =
        elim (Option-cases (pick_resolve_probe sp cells)) [
          | inl n ↦ absurd (unset (refl {a = none}) (sym (rw (named, n) at h)))
          | inr (p, at) ↦
              let (got, resolved, within) =
                answer_reason-none (trim_space sp.id) sp.level (resolve p.0 p.1)
                  (rw (named, at) at h) in
              record {
                x = p.0;
                z = p.1;
                clear = pick_resolve_probe-IsClear sp cells p at;
                got = got;
                resolved = resolved;
                within = within;
              }
        ]

    -- If the check of the children reports no reason, then for each child whose id is not blank
    -- there is a point within the bounds of the child, and in no deeper cell outside it, for which
    -- the catalog answers with this child or with a deeper cell below it.
    pub resolve_child_probe_reasons-IsFound :
        (resolve : F → F → Answer E F) (specs : List (ChildCellSpec F)) (cells : List (CellSpec F))
        (sp : ChildCellSpec F)
        → resolve_child_probe_reasons resolve specs cells ≡ []
        → In sp specs
        → is_empty (trim_space sp.id) ≡ false
        → IsFound resolve cells sp
    unfolding resolve_child_probe_reasons
    resolve_child_probe_reasons-IsFound resolve [] cells sp h i named = absurd i
    resolve_child_probe_reasons-IsFound resolve (s ∷ specs) cells sp h i named =
        let (none_here, none_later) =
          added-empty (child_reason resolve cells s)
            (resolve_child_probe_reasons resolve specs cells) h in
        elim (In-cons sp s specs i) [
          | inl same ↦ child_reason-IsFound resolve cells sp named (rw same none_here)
          | inr j ↦ resolve_child_probe_reasons-IsFound resolve specs cells sp none_later j named
        ]
