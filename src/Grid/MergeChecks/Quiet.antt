-- ===== src/Grid/MergeChecks/Quiet.antt =====
-- What the checks around a merge let through (cmd/grid-manager/merge_workflow.go: preflightGroup,
-- verifyResolveToParent).
use mathlib.Core.Path.{subst}
use mmo.Prelude.{
  ◌≡◌, refl, sym, ap, ◌∙◌, Bool, true, false, not, ◌&&◌, Option, none, some, List, [], ◌∷◌, text-Eq,
  ◌==◌, In, inl, inr, eq_iff, arith,
}
use mmo.Prelude.Int.{ℤ, pos, ◌+ℤ◌, ltb_ℤ}
use mmo.Prelude.Text.{Text}
use mmo.Prelude.Result.{Result, ok, err, fail_if, >>=-eq-ok, fail_if-eq-ok, ok_cancel}
use mmo.Prelude.Float.{Float}
use mmo.Cell.{Bounds, CellSpec, PlanSplitResponseChild}
use mmo.Partition.{mid_x, mid_z}
use mmo.Partition.Merge.{child_specs_for_split}
use mmo.Grid.MergeChecks.{
  with_bounds, verify_resolve_to_parent, parent_missing, path_invalid, CheckError, child_missing,
  child_ping_failed, child_has_players, catalog_failed, resolve_miss, resolve_mismatch,
  Surroundings, wrapped, or_err, find_in, check_child, count_children, verify_child,
  verify_children,
}

wrapped-eq-ok :
    {E X A : Type 0} (f : E → X) (r : Result E A) {a : A} → wrapped f r ≡ ok a → r ≡ ok a
unfolding wrapped
wrapped-eq-ok f (ok b) h = cc
wrapped-eq-ok f (err e) h = cc

or_err-eq-ok : {X A : Type 0} (x : X) (o : Option A) {a : A} → or_err x o ≡ ok a → o ≡ some a
unfolding or_err
or_err-eq-ok x none h = cc
or_err-eq-ok x (some b) h = cc

fail_if-passes : {X : Type 0} (t : Bool) (x : X) {u : Unit {0}} → fail_if t x ≡ ok u → t ≡ false
fail_if-passes true x h = cc
fail_if-passes false x h = refl

module _ {F E : Type 0} where
  -- The child is listed, and its server answers that it has no player.
  pub record IsQuiet (env : Surroundings F E) (id : Text) : Type 0 where
    pub spec : CellSpec F
    pub players : ℤ
    pub listed : find_in env (child_missing id) id ≡ ok spec
    pub answered : env.ping_players spec.grpc_endpoint ≡ ok players
    pub none_there : ltb_ℤ (pos 0) players ≡ false

  check_child-eq-ok :
      (env : Surroundings F E) (id : Text) (spec : CellSpec F) (n : ℤ)
      → env.player_handoff ≡ false
      → check_child env id spec ≡ ok n
      → (players : ℤ) × (env.ping_players spec.grpc_endpoint ≡ ok players)
        × (ltb_ℤ (pos 0) players ≡ false)
  unfolding check_child
  check_child-eq-ok env id spec n off h =
      let (players, answered, later) =
        >>=-eq-ok (wrapped (child_ping_failed id) (env.ping_players spec.grpc_endpoint)) _ h in
      let (allowed, _) =
        fail_if-eq-ok (not env.player_handoff && ltb_ℤ (pos 0) players)
          (child_has_players id players) (ok players) later in
      (
        players,
        wrapped-eq-ok (child_ping_failed id) (env.ping_players spec.grpc_endpoint) answered,
        rw off at allowed,
      )

  check_child-IsQuiet :
      (env : Surroundings F E) (id : Text) (spec : CellSpec F) (n : ℤ)
      → env.player_handoff ≡ false
      → find_in env (child_missing id) id ≡ ok spec
      → check_child env id spec ≡ ok n
      → IsQuiet env id
  check_child-IsQuiet env id spec n off listed h =
      let (players, answered, none_there) = check_child-eq-ok env id spec n off h in
      record {
        spec = spec;
        players = players;
        listed = listed;
        answered = answered;
        none_there = none_there;
      }

  -- If players are not handed over and the count of the children succeeds, then each child is listed
  -- and has no player.
  pub count_children-IsQuiet :
      (env : Surroundings F E) (ids : List Text) (start total : ℤ) (id : Text)
      → env.player_handoff ≡ false
      → count_children env ids start ≡ ok total
      → In id ids
      → IsQuiet env id
  unfolding count_children
  count_children-IsQuiet env [] start total id off h i = absurd i
  count_children-IsQuiet env (first ∷ ids) start total id off h (inl same) =
      let (spec, listed, checks) = >>=-eq-ok (find_in env (child_missing first) first) _ h in
      let (players, checked, _) = >>=-eq-ok (check_child env first spec) _ checks in
      subst (IsQuiet env) (sym same) (check_child-IsQuiet env first spec players off listed checked)
  count_children-IsQuiet env (first ∷ ids) start total id off h (inr i) =
      let (spec, listed, checks) = >>=-eq-ok (find_in env (child_missing first) first) _ h in
      let (players, checked, rest) = >>=-eq-ok (check_child env first spec) _ checks in
      count_children-IsQuiet env ids (start +ℤ players) total id off rest i

module _ {F E : Type 0} ⦃fl : Float F⦄ where
  -- The centre of the child resolves to the parent.
  abbrev pub IsBack : Surroundings F E → Text → PlanSplitResponseChild F → Type 0
  IsBack env parent_id ch =
      (got : CellSpec F) × (env.resolving (mid_x ch.bounds) (mid_z ch.bounds) ≡ ok (some got))
      × (got.id ≡ parent_id)

  verify_child-IsBack :
      (env : Surroundings F E) (parent_id : Text) (ch : PlanSplitResponseChild F) (u : Unit {0})
      → verify_child env parent_id ch ≡ ok u
      → IsBack env parent_id ch
  unfolding verify_child
  verify_child-IsBack env parent_id ch u h =
      let (answer, answered, later) =
        >>=-eq-ok (wrapped catalog_failed (env.resolving (mid_x ch.bounds) (mid_z ch.bounds))) _
          h in
      let (got, some_got, test) = >>=-eq-ok (or_err (resolve_miss ch.id) answer) _ later in
      (
        got,
        wrapped-eq-ok catalog_failed (env.resolving (mid_x ch.bounds) (mid_z ch.bounds)) answered
            ∙ ap ok (or_err-eq-ok (resolve_miss ch.id) answer some_got),
        (eq_iff got.id parent_id).0 (
            let passed =
              fail_if-passes (not (got.id == parent_id)) (resolve_mismatch ch.id got.id) test in
            ground (arith, passed)),
      )

  -- If the check of the children succeeds, then the centre of each of them resolves to the parent.
  pub verify_children-IsBack :
      (env : Surroundings F E) (parent_id : Text) (chs : List (PlanSplitResponseChild F))
      (ch : PlanSplitResponseChild F)
      → verify_children env parent_id chs ≡ ok tt
      → In ch chs
      → IsBack env parent_id ch
  unfolding verify_children
  verify_children-IsBack env parent_id [] ch h i = absurd i
  verify_children-IsBack env parent_id (first ∷ chs) ch h (inl same) =
      let (u, checked, _) = >>=-eq-ok (verify_child env parent_id first) _ h in
      subst (IsBack env parent_id) (sym same) (verify_child-IsBack env parent_id first u checked)
  verify_children-IsBack env parent_id (first ∷ chs) ch h (inr i) =
      let (_, _, rest) = >>=-eq-ok (verify_child env parent_id first) _ h in
      verify_children-IsBack env parent_id chs ch rest i

  with_bounds-eq-ok :
      (e : CheckError E) (c : CellSpec F) (p : CellSpec F × Bounds F)
      → with_bounds e c ≡ ok p
      → (c.bounds ≡ some p.1) × (p.0 ≡ c)
  unfolding with_bounds
  with_bounds-eq-ok e c p h =
      let (b, at, same) = >>=-eq-ok (or_err e c.bounds) _ h in
      let pair = ok_cancel same in
      (
        or_err-eq-ok e c.bounds at ∙ ap (λ (q : CellSpec F × Bounds F). some q.1) pair,
        sym (ap (λ (q : CellSpec F × Bounds F). q.0) pair),
      )

  -- The parent is listed with bounds, and the centre of each child that the split of its bounds gives
  -- resolves to the parent.
  pub record IsVerified (env : Surroundings F E) (parent_id : Text) : Type 0 where
    pub parent : CellSpec F
    pub b : Bounds F
    pub chs : List (PlanSplitResponseChild F)
    pub listed : find_in env parent_missing parent_id ≡ ok parent
    pub bounded : parent.bounds ≡ some b
    pub split : child_specs_for_split parent_id (some b) parent.level ≡ ok chs
    pub back : (ch : PlanSplitResponseChild F) → In ch chs → IsBack env parent_id ch

  -- If the check after a merge succeeds, then the parent is listed with bounds, and the catalog
  -- resolves the centre of each child that the split of these bounds gives to the parent.
  pub verify_resolve_to_parent-IsVerified :
      (env : Surroundings F E) (parent_id : Text)
      → verify_resolve_to_parent env parent_id ≡ ok tt
      → IsVerified env parent_id
  unfolding verify_resolve_to_parent
  verify_resolve_to_parent-IsVerified env parent_id h =
      let (found, listed, h1) = >>=-eq-ok (find_in env parent_missing parent_id) _ h in
      let (p, bounded, h2) = >>=-eq-ok (with_bounds parent_missing found) _ h1 in
      let (at, same) = with_bounds-eq-ok parent_missing found p bounded in
      let (chs, split, checked) =
        >>=-eq-ok (wrapped path_invalid (child_specs_for_split parent_id (some p.1) p.0.level)) _
          h2 in
      record {
        parent = found;
        b = p.1;
        chs = chs;
        listed = listed;
        bounded = at;
        split =
            ap (λ (c : CellSpec F). child_specs_for_split parent_id (some p.1) c.level) (sym same)
            ∙ wrapped-eq-ok path_invalid (child_specs_for_split parent_id (some p.1) p.0.level)
                split;
        back = λ ch i. verify_children-IsBack env parent_id chs ch checked i;
      }
