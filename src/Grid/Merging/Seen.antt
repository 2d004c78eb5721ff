-- ===== src/Grid/Merging/Seen.antt =====
-- The states that the merge policy keeps (cmd/grid-manager/cell_load_policy.go:
-- observeMergeCandidates).
use mmo.Prelude.{
  ℕ, ◌≡◌, refl, sym, true, not, ◌||◌, Option, none, some, List, [], ◌∷◌, text-Eq, ◌==◌, Bool-cases,
  inl, inr, arith, In, eq_iff,
}
use mmo.Prelude.Text.{Text, trim_space, is_empty}
use mmo.Prelude.Dict.{Dict, Set, get, put, has, is_some, get-put}
use mmo.Prelude.Float.{Float}
use mmo.Cell.{CellSpec}
use mmo.Grid.Policy.{LoadPolicyConfig, CellPolicyState, PolicySample}
use mmo.Grid.Merging.{drop_unseen, observe_parents, observe_merge_candidates}

has-drop_unseen :
    (seen : Set Text) (mg : Dict Text CellPolicyState) (id : Text)
    → has (drop_unseen seen mg) id ≡ true
    → has seen id ≡ true
unfolding drop_unseen get
has-drop_unseen seen [] id h = cc
has-drop_unseen seen ((k, st) ∷ mg) id h = elim (Bool-cases (has seen k)) [
  | inl e ↦ elim (Bool-cases (k == id)) [
    | inl same ↦ rw (sym ((eq_iff k id).0 same)) e
    | inr other ↦ has-drop_unseen seen mg id (rw other at (rw e at h))
  ]
  | inr e ↦ has-drop_unseen seen mg id (rw e at h)
]

none_seen : (id : Text) → has {V = Unit {0}} [] id ≡ true → ⊥
unfolding get
none_seen id h = cc

-- A listed cell with bounds has the id.
abbrev pub IsListed : {F : Type 0} → List (Option (CellSpec F)) → Text → Type 0
IsListed cells id =
    (parent : CellSpec _) × In (some parent) cells
    × (trim_space parent.id ≡ id)
    × (is_some parent.bounds ≡ true)

module _ {F : Type 0} ⦃fl : Float F⦄ (cfg : LoadPolicyConfig F)
    (samples : Dict Text (PolicySample F)) where
  seen-parents :
      (now : ℕ) (cells parents : List (Option (CellSpec F))) (id : Text)
      (mg : Dict Text CellPolicyState) (seen : Set Text)
      → ((c : Option (CellSpec F)) → In c parents → In c cells)
      → (has seen id ≡ true → IsListed cells id)
      → has (observe_parents cfg now cells samples parents mg seen).1 id ≡ true
      → IsListed cells id
  unfolding observe_parents
  seen-parents now cells [] id mg seen sub known h = known h
  seen-parents now cells (none ∷ parents) id mg seen sub known h =
      seen-parents now cells parents id mg seen (λ c i. sub c (inr i)) known h
  seen-parents now cells (some parent ∷ parents) id mg seen sub known h =
      let deeper = λ (c : Option (CellSpec F)) (i : In c parents). sub c (inr i) in
      elim (Bool-cases (not (is_some parent.bounds) || is_empty (trim_space parent.id))) [
        | inl e ↦ seen-parents now cells parents id mg seen deeper known (rw e at h)
        | inr e ↦
            seen-parents now cells parents id _ (put seen (trim_space parent.id) tt) deeper
              (λ put_has. elim (Bool-cases (trim_space parent.id == id)) [
                | inl same ↦ (
                  parent,
                  sub (some parent) (inl refl),
                  (eq_iff (trim_space parent.id) id).0 same,
                  ground (arith, e),
                )
                | inr other ↦ known (simp (get-put, other) at put_has)
              ])
              (rw e at h)
      ]

  -- After a round in which the merge policy runs it keeps the state of an id only where a listed cell
  -- with bounds has the id.
  pub observe_merge_candidates-IsListed :
      (now : ℕ) (mg : Dict Text CellPolicyState) (cells : List (Option (CellSpec F))) (id : Text)
      → cfg.auto_merge_workflow ≡ true
      → has (observe_merge_candidates cfg true now mg cells samples).0 id ≡ true
      → IsListed cells id
  unfolding observe_merge_candidates
  observe_merge_candidates-IsListed now mg cells id auto h =
      elim (Bool-cases (not cfg.auto_merge_workflow || not true)) [
        | inl e ↦ absurd (ground (arith, e, auto))
        | inr e ↦
            let round = observe_parents cfg now cells samples cells mg [] in
            seen-parents now cells cells id mg [] (λ c i. i) (λ old. absurd (none_seen id old))
              (has-drop_unseen round.1 round.0 id (rw e at h))
      ]
