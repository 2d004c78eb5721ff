-- ===== src/Partition/Merge/RoundTrip.antt =====
-- What ChildSpecsForSplit plans, ValidateMergeChildren accepts.
use mmo.Prelude.{
  ℕ, suc, ◌+◌, ◌≤◌, ◌≡◌, ◌≢◌, length, refl, sym, ap, ◌∙◌, Bool, true, false, Option, some, List, [],
  ◌∷◌, ◌++◌, map, arith, text-Eq, eq_iff, ◌==◌,
}
use mmo.Prelude.Int.{ℤ, eqb_ℤ_iff}
use mmo.Prelude.Text.{Text, trim_space, is_empty}
use mmo.Prelude.Text.Trim.{trim_space-HasNoSpace}
use mmo.Prelude.Result.{ok}
use mmo.Prelude.Dict.{Set, put, has, get, has-put_ne}
use mmo.Prelude.Float.{Float}
use mmo.Cell.{Bounds, CellSpec, PlanSplitResponseChild}
use mmo.Partition.{split_four, bounds_equal, mid_x, mid_z}
use mmo.Partition.Path.{parse_cell_path_id}
use mmo.Partition.Path.Canonical.{
  IsPath, IsPath-append, path_id, path_id-HasNoSpace, parse-path_id, parse_canonical,
  child_id-path_id, ok_injective,
}
use mmo.Partition.Merge.Step.{validate_step, validate_end}
use mmo.Partition.Merge.{
  next_level, child_specs_from, child_specs_for_split, validate_merge_children, validate_loop,
  free_quadrant, mark,
}

module _ {F : Type 0} where
  -- The cell of a planned child, once it is registered under some endpoint.
  abbrev pub registered : Text → PlanSplitResponseChild F → Option (CellSpec F)
  registered endpoint ch =
      some
        (record { id = ch.id; bounds = some ch.bounds; level = ch.level; grpc_endpoint = endpoint })

different_steps : (path : List ℕ) (i j : ℕ) → path ++ i ∷ [] ≡ path ++ j ∷ [] → i ≡ j
different_steps [] i j e = ground arith
different_steps (p ∷ path) i j e = different_steps path i j (ground arith)

-- The bounds and the middle lines are numbers.
pub record HasNumbers {F : Type 0} ⦃fl : Float F⦄ (b : Bounds F) : Type 0 where
  pub x_min : fl.eq b.x_min b.x_min ≡ true
  pub x_max : fl.eq b.x_max b.x_max ≡ true
  pub z_min : fl.eq b.z_min b.z_min ≡ true
  pub z_max : fl.eq b.z_max b.z_max ≡ true
  pub x_mid : fl.eq (mid_x b) (mid_x b) ≡ true
  pub z_mid : fl.eq (mid_z b) (mid_z b) ≡ true

-- The id of a child of the cell with the path.
abbrev pub child : List ℕ → ℕ → Text
child path i = path_id (path ++ i ∷ [])

module _ (path : List ℕ) (known : IsPath path) where
  trim-child : (i : ℕ) → i ≤ 3 → trim_space (child path i) ≡ child path i
  trim-child i h =
      trim_space-HasNoSpace (child path i)
        (path_id-HasNoSpace (path ++ i ∷ []) (IsPath-append path (i ∷ []) known (h, tt)))

  read-child : (i : ℕ) → i ≤ 3 → parse_cell_path_id (child path i) ≡ ok (path ++ i ∷ [])
  read-child i h = parse-path_id (path ++ i ∷ []) (IsPath-append path (i ∷ []) known (h, tt))

  child_ne : (i j : ℕ) → i ≤ 3 → j ≤ 3 → i ≢ j → (child path i == child path j) ≡ false
  child_ne i j hi hj d = ground (arith, eq_iff (child path i) (child path j), same)
    where
      same : child path i ≢ child path j
      same e = d (
          different_steps path i j
            (ok_injective (sym (read-child i hi) ∙ ap parse_cell_path_id e ∙ read-child j hj)))

bounds_equal_refl :
    {F : Type 0} ⦃fl : Float F⦄ (b : Bounds F)
    → fl.eq b.x_min b.x_min ≡ true
    → fl.eq b.x_max b.x_max ≡ true
    → fl.eq b.z_min b.z_min ≡ true
    → fl.eq b.z_max b.z_max ≡ true
    → bounds_equal (some b) (some b) ≡ true
unfolding bounds_equal
bounds_equal_refl b p q r s = ground arith

is_empty-child : (path : List ℕ) (i : ℕ) → is_empty (child path i) ≡ false
is_empty-child [] i = refl
is_empty-child (p ∷ path) i = refl

module _ {F : Type 0} ⦃fl : Float F⦄ (parent_id : Text) (path : List ℕ) (b : Bounds F)
    (level : ℤ) where
  -- The plan for the quadrants from i on.
  abbrev plan : ℕ → List (Bounds F) → List (PlanSplitResponseChild F)
  plan i [] = []
  plan i (q ∷ qs) = record { id = child path i; bounds = q; level = level } ∷ plan (suc i) qs

  child_specs_from-plan :
      (i : ℕ) (quads : List (Bounds F))
      → parse_cell_path_id parent_id ≡ ok path
      → i + length quads ≤ 4
      → child_specs_from parent_id level i quads ≡ ok (plan i quads)
  unfolding child_specs_from
  child_specs_from-plan i [] h l = refl
  child_specs_from-plan i (q ∷ quads) h l =
      rw
        (
          child_id-path_id parent_id path i h (omega arith),
          child_specs_from-plan (suc i) quads h (omega arith),
        )
        refl

-- Each of the four children of the plan takes the quadrant that it was planned for.
module _ {F : Type 0} ⦃fl : Float F⦄ (parent_id endpoint : Text) (path : List ℕ) (b : Bounds F)
    (want : ℤ) (known : IsPath path) (n : HasNumbers b) where
  abbrev specs : ℕ → List (Bounds F) → List (Option (CellSpec F))
  specs i quads = map (registered endpoint) (plan parent_id path b want i quads)

  abbrev corner : F → F → F → F → Bounds F
  corner x x' z z' = record { x_min = x; x_max = x'; z_min = z; z_max = z' }

  loop-plan :
      validate_loop want
        (split_four b)
        (specs 0 (split_four b))
        (false ∷ false ∷ false ∷ false ∷ [])
        []
      ≡ ok (true ∷ true ∷ true ∷ true ∷ [])
  unfolding split_four free_quadrant get
  loop-plan =
      let used0 : List Bool = false ∷ false ∷ false ∷ false ∷ [] in
      let used1 : List Bool = true ∷ false ∷ false ∷ false ∷ [] in
      let used2 : List Bool = true ∷ true ∷ false ∷ false ∷ [] in
      let used3 : List Bool = true ∷ true ∷ true ∷ false ∷ [] in
      let seen0 : Set Text = [] in
      let seen1 : Set Text = put seen0 (child path 0) tt in
      let seen2 : Set Text = put seen1 (child path 1) tt in
      let seen3 : Set Text = put seen2 (child path 2) tt in
      step (corner b.x_min (mid_x b) b.z_min (mid_z b)) _ used0 seen0 0 (omega arith) refl
        (rw (bounds_equal_refl _ n.x_min n.x_mid n.z_min n.z_mid))
      ∙ step (corner (mid_x b) b.x_max b.z_min (mid_z b)) _ used1 seen1 1 (omega arith)
          (fresh 0 1 seen0 (omega arith) (omega arith) (omega arith) refl)
          (rw (bounds_equal_refl _ n.x_mid n.x_max n.z_min n.z_mid))
      ∙ step (corner b.x_min (mid_x b) (mid_z b) b.z_max) _ used2 seen2 2 (omega arith)
          (fresh 1 2 seen1 (omega arith) (omega arith) (omega arith)
            (fresh 0 2 seen0 (omega arith) (omega arith) (omega arith) refl))
          (rw (bounds_equal_refl _ n.x_min n.x_mid n.z_mid n.z_max))
      ∙ step (corner (mid_x b) b.x_max (mid_z b) b.z_max) _ used3 seen3 3 (omega arith)
          (fresh 2 3 seen2 (omega arith) (omega arith) (omega arith) (
            fresh 1 3 seen1 (omega arith) (omega arith) (omega arith)
              (fresh 0 3 seen0 (omega arith) (omega arith) (omega arith) refl)))
          (rw (bounds_equal_refl _ n.x_mid n.x_max n.z_mid n.z_max))
      ∙ validate_end want (split_four b) _ _
    where
      fresh :
          (i j : ℕ) (seen : Set Text)
          → i ≤ 3
          → j ≤ 3
          → i ≢ j
          → has seen (child path j) ≡ false
          → has (put seen (child path i) tt) (child path j) ≡ false
      fresh i j seen hi hj d h =
          has-put_ne seen (child path i) tt (child path j) (child_ne path known i j hi hj d) h

      step :
          (q : Bounds F) (rest : List (Option (CellSpec F))) (used : List Bool) (seen : Set Text)
          (i : ℕ)
          → i ≤ 3
          → has seen (child path i) ≡ false
          → free_quadrant used (split_four b) (some q) ≡ some i
          → validate_loop want
              (split_four b)
              (registered endpoint (record { id = child path i; bounds = q; level = want }) ∷ rest)
              used
              seen
            ≡ validate_loop want (split_four b) rest (mark used i) (put seen (child path i) tt)
      step q rest used seen i hi s f =
          let cell : CellSpec F = record {
            id = child path i;
            bounds = some q;
            level = want;
            grpc_endpoint = endpoint;
          } in
          let trimmed = trim-child path known i hi in
          validate_step want (split_four b) cell rest used seen i
            (rw trimmed (is_empty-child path i)) ((eqb_ℤ_iff want want).1 refl) refl (rw trimmed s)
            f
          ∙ ap (λ (t : Text). validate_loop want (split_four b) rest (mark used i) (put seen t tt))
              trimmed

module _ {F : Type 0} ⦃fl : Float F⦄ where
  -- For a cell with an accepted id, whose bounds and middle lines are numbers, the split is planned, and
  -- its children, registered under any endpoint and in the order of their quadrants, pass the check
  -- before a merge.
  pub validate-child_specs :
      (parent_id endpoint : Text) (path : List ℕ) (b : Bounds F) (parent_level : ℤ)
      → parse_cell_path_id parent_id ≡ ok path
      → HasNumbers b
      → (cs : List (PlanSplitResponseChild F)) × (child_specs_for_split parent_id
            (some b)
            parent_level
          ≡ ok cs)
        × (validate_merge_children (some b) parent_level (map (registered endpoint) cs) ≡ ok tt)
  unfolding child_specs_for_split validate_merge_children split_four
  validate-child_specs parent_id endpoint path b parent_level h n =
      let known = (parse_canonical parent_id path h).1 in
      let want = next_level parent_level in
      let quads = split_four b in
      let cs = plan parent_id path b want 0 quads in
      (
        cs,
        child_specs_from-plan parent_id path b want 0 quads h (omega arith),
        rw (loop-plan parent_id endpoint path b want known n) refl,
      )
