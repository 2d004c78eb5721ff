-- ===== src/Grid/Policy/Window.antt =====
-- The window of breaches and the time of the last action over a history of samples
-- (cmd/grid-manager/cell_load_policy.go: observe). A history lists its samples with the newest first.
use mmo.Prelude.{
  ℕ, ◌≡◌, refl, ◌∙◌, ap, Bool, true, false, ◌&&◌, Option, none, some, List, [], ◌∷◌, text-Eq,
  if◌then◌else◌, ◌==◌, eq_iff, Bool-cases, inl, inr,
}
use mmo.Prelude.Text.{Text}
use mmo.Prelude.Dict.{Dict, get, get-put}
use mmo.Grid.Policy.{
  LoadPolicyConfig, CellPolicyState, PolicySample, Effect, state_or_zero, decide, observe, act,
  drain_with, LoadPolicyEvent,
}

pub record Observation (F : Type 0) : Type 0 where
  pub now : ℕ
  pub sample : PolicySample F
  pub within : Bool

abbrev pub is_action : {F : Type 0} → List (Effect F) → Bool
is_action [] = false
is_action (_ ∷ _) = true

module _ {F : Type 0} (cfg : LoadPolicyConfig F) (split : Option Bool) (fails : Text → Bool) where
  -- The result of a sample after the history.
  abbrev pub observe_next :
      Dict Text CellPolicyState → Observation F → Dict Text CellPolicyState × List (Effect F)
  observe_next state o = observe cfg split fails o.now state o.sample o.within

  unfoldable pub state_after :
      Dict Text CellPolicyState → List (Observation F) → Dict Text CellPolicyState
  state_after start [] = start
  state_after start (o ∷ h) = (observe_next (state_after start h) o).0

  -- Whether the last sample of the history is an action for the cell.
  abbrev pub acts_on :
      Dict Text CellPolicyState → Text → Observation F → List (Observation F) → Bool
  acts_on start c o h =
      (o.sample.cell_id == c) && is_action (observe_next (state_after start h) o).1

  -- The times of the actions for the cell.
  unfoldable pub actions : Dict Text CellPolicyState → Text → List (Observation F) → List ℕ
  unfolding state_after
  actions start c [] = []
  actions start c (o ∷ h) =
      let earlier = actions start c h in if acts_on start c o h then o.now ∷ earlier else earlier

  abbrev pub cell_state : Dict Text CellPolicyState → Text → List (Observation F) → CellPolicyState
  cell_state start c h = state_or_zero (get (state_after start h) c)

  drain_with-is_action :
      (s : Option Bool) (b : Bool) (sample : PolicySample F) (e : LoadPolicyEvent F)
      → is_action (drain_with s b sample e) ≡ true
  drain_with-is_action none b sample e = refl
  drain_with-is_action (some true) b sample e = refl
  drain_with-is_action (some false) true sample e = refl
  drain_with-is_action (some false) false sample e = refl

  act-is_action :
      (now : ℕ) (sample : PolicySample F) → is_action (act cfg split fails now sample) ≡ true
  unfolding act
  act-is_action now sample = elim (Bool-cases (cfg.auto_split_drain && sample.reachable)) [
    | inl e ↦ rw e (drain_with-is_action split (fails sample.endpoint) sample _)
    | inr e ↦ rw e refl
  ]

  abbrev decided :
      Dict Text CellPolicyState → Observation F → List (Observation F) → CellPolicyState × Bool
  decided start o h = decide cfg o.now (cell_state start o.sample.cell_id h) o.within

  acted :
      (start : Dict Text CellPolicyState) (o : Observation F) (h : List (Observation F))
      → is_action (observe_next (state_after start h) o).1 ≡ (decided start o h).1
  unfolding observe
  acted start o h = elim (Bool-cases (decided start o h).1) [
    | inl e ↦ rw e (act-is_action o.now o.sample)
    | inr e ↦ rw e refl
  ]

  -- A sample of another cell leaves the state of the cell and its actions.
  pub other_cell :
      (start : Dict Text CellPolicyState) (c : Text) (o : Observation F) (h : List (Observation F))
      → (o.sample.cell_id == c) ≡ false
      → (cell_state start c (o ∷ h) ≡ cell_state start c h)
        × (actions start c (o ∷ h) ≡ actions start c h)
  unfolding state_after actions observe
  other_cell start c o h e = (simp (get-put, e), simp e)

  -- A sample of the cell.
  pub own_cell :
      (start : Dict Text CellPolicyState) (c : Text) (o : Observation F) (h : List (Observation F))
      → (o.sample.cell_id == c) ≡ true
      → (cell_state start c (o ∷ h) ≡ (decide cfg o.now (cell_state start c h) o.within).0)
        × (acts_on start c o h ≡ (decide cfg o.now (cell_state start c h) o.within).1)
  unfolding state_after observe
  own_cell start c o h e =
      let same = (eq_iff o.sample.cell_id c).0 e in
      let start_state = ap (λ d. state_or_zero (get (state_after start h) d)) same in
      (
        simp (get-put, e) (ap (λ st. (decide cfg o.now st o.within).0) start_state),
        rw e (acted start o h ∙ ap (λ st. (decide cfg o.now st o.within).1) start_state),
      )
