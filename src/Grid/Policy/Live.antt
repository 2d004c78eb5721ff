-- ===== src/Grid/Policy/Live.antt =====
-- A breach that lasts makes the load policy act (cmd/grid-manager/cell_load_policy.go: observe).
use mmo.Prelude.{
  ℕ, ◌+◌, ◌≤◌, ◌<◌, ◌≡◌, refl, sym, ◌∙◌, Bool, true, false, Option, none, some, List, [], ◌∷◌, ◌++◌,
  text-Eq, length, if◌then◌else◌, ◌==◌, some_cancel, unset, Bool-cases, inl, inr, ◌⊎◌, arith, All,
}
use mmo.Prelude.Text.{Text}
use mmo.Prelude.Dict.{Dict}
use mmo.Grid.Policy.{LoadPolicyConfig, CellPolicyState, decide, recent}
use mmo.Grid.Policy.Window.{Observation, actions, cell_state, other_cell, own_cell}
use mmo.Grid.Policy.Sustained.{Outcome, recovered, started, waiting, acting, decide-Outcome}

-- The cell is over its limits in each sample of it.
abbrev pub NeverWithin : {F : Type 0} → Text → List (Observation F) → Type 0
NeverWithin c h = All (λ o. (o.sample.cell_id == c) ≡ true → o.within ≡ false) h

-- A time that is unset or not after another.
abbrev pub IsUntil : Option ℕ → ℕ → Type 0
IsUntil none t = Unit
IsUntil (some s) t = s ≤ t

module _ {F : Type 0} (cfg : LoadPolicyConfig F) where
  -- A breach that began by the time, with no action after it.
  record Open (begin : ℕ) (st : CellPolicyState) : Type 0 where
    since : ℕ
    breach : st.breach_since ≡ some since
    early : since ≤ begin
    last : IsUntil st.last_action begin

  abbrev Grown : ℕ → ℕ → CellPolicyState → List ℕ → Type 0
  Grown n begin st ts = (n < length ts) ⊎ ((length ts ≡ n) × Open begin st)

  recent-until :
      (d begin now : ℕ) (l : Option ℕ) → IsUntil l begin → begin + d ≤ now → recent d now l ≡ false
  recent-until d begin now none u b = refl
  recent-until d begin now (some s) u b = ground (arith, u, b)

  Outcome-begins :
      (now : ℕ) (st : CellPolicyState) (ts : List ℕ) (within : Bool) (r : CellPolicyState × Bool)
      → within ≡ false
      → ((since : ℕ) → st.breach_since ≡ some since → since ≤ now)
      → IsUntil st.last_action now
      → Outcome cfg now st within r
      → Grown (length ts) now r.0 (if r.1 then now ∷ ts else ts)
  Outcome-begins now st ts within _ w b l recovered = cc
  Outcome-begins now st ts within _ w b l (started e) =
      inr (refl, record { since = now; breach = refl; early = ground arith; last = l })
  Outcome-begins now st ts within _ w b l (waiting s e _) =
      inr (refl, record { since = s; breach = e; early = b s e; last = l })
  Outcome-begins now st ts within _ w b l (acting s e late cool) = inl (ground arith)

  Outcome-goes :
      (n begin now : ℕ) (st : CellPolicyState) (ts : List ℕ) (within : Bool)
      (r : CellPolicyState × Bool)
      → within ≡ false
      → Outcome cfg now st within r
      → Grown n begin st ts
      → Grown n begin r.0 (if r.1 then now ∷ ts else ts)
  Outcome-goes n begin now st ts within _ w recovered g = cc
  Outcome-goes n begin now st ts within _ w (started e) (inl g) = inl g
  Outcome-goes n begin now st ts within _ w (started e) (inr (q, o)) = absurd (unset e o.breach)
  Outcome-goes n begin now st ts within _ w (waiting s e _) g = g
  Outcome-goes n begin now st ts within _ w (acting s e late cool) (inl g) = inl (ground (arith, g))
  Outcome-goes n begin now st ts within _ w (acting s e late cool) (inr (q, o)) =
      inl (ground (arith, q))

  Outcome-acts :
      (begin now : ℕ) (st : CellPolicyState) (within : Bool) (r : CellPolicyState × Bool)
      → within ≡ false
      → begin + cfg.min_breach_duration + cfg.cooldown ≤ now
      → Outcome cfg now st within r
      → Open begin st
      → r.1 ≡ true
  Outcome-acts begin now st within _ w b recovered o = cc
  Outcome-acts begin now st within _ w b (started e) o = absurd (unset e o.breach)
  Outcome-acts begin now st within _ w b (waiting s e (inl early)) o =
      absurd (omega (arith, early, b, o.early, some_cancel (sym e ∙ o.breach)))
  Outcome-acts begin now st within _ w b (waiting s e (inr hot)) o =
      sym (recent-until cfg.cooldown begin now st.last_action o.last (omega (arith, b))) ∙ hot
  Outcome-acts begin now st within _ w b (acting s e late cool) o = refl

  until-since : (b : Option ℕ) (t since : ℕ) → IsUntil b t → b ≡ some since → since ≤ t
  until-since none t since u e = cc
  until-since (some s) t since u e = omega (arith, u, some_cancel e)

  module _ (split : Option Bool) (fails : Text → Bool) (start : Dict Text CellPolicyState)
      (c : Text) where
    -- What a sample of the cell does to its state and its actions.
    step_own :
        (P : CellPolicyState → List ℕ → Type 0) (o : Observation F) (h : List (Observation F))
        → (o.sample.cell_id == c) ≡ true
        → (let st = cell_state cfg split fails start c h in
            let ts = actions cfg split fails start c h in
            let r = decide cfg o.now st o.within in P r.0 (if r.1 then o.now ∷ ts else ts))
        → P (cell_state cfg split fails start c (o ∷ h)) (actions cfg split fails start c (o ∷ h))
    unfolding actions
    step_own P o h e p =
        let (state, acts) = own_cell cfg split fails start c o h e in rw (state, acts) p

    grows :
        (before : List (Observation F)) (first : Observation F) (h : List (Observation F))
        → (first.sample.cell_id == c) ≡ true
        → first.within ≡ false
        → IsUntil (cell_state cfg split fails start c before).breach_since first.now
        → IsUntil (cell_state cfg split fails start c before).last_action first.now
        → NeverWithin c h
        → Grown
            (length (actions cfg split fails start c before))
            first.now
            (cell_state cfg split fails start c (h ++ (first ∷ before)))
            (actions cfg split fails start c (h ++ (first ∷ before)))
    grows before first [] e w b l n =
        step_own (Grown (length (actions cfg split fails start c before)) first.now) first before e
          (Outcome-begins first.now (cell_state cfg split fails start c before)
            (actions cfg split fails start c before) first.within _ w
            (λ s. until-since _ first.now s b) l
            (decide-Outcome cfg first.now (cell_state cfg split fails start c before) first.within))
    grows before first (o ∷ h) e w b l n =
        let n0 = length (actions cfg split fails start c before) in
        let full = h ++ (first ∷ before) in
        let rest = grows before first h e w b l n.1 in
        elim (Bool-cases (o.sample.cell_id == c)) [
          | inl own ↦ step_own (Grown n0 first.now) o full own (
              Outcome-goes n0 first.now o.now (cell_state cfg split fails start c full)
                (actions cfg split fails start c full) o.within _ (n.0 own)
                (decide-Outcome cfg o.now (cell_state cfg split fails start c full) o.within) rest)
          | inr other ↦
              let (state, acts) = other_cell cfg split fails start c o full other in
              rw (state, acts) rest
        ]

    -- A cell that is over its limits in a sample, in each later one of it, and in one that is at
    -- least the minimal duration and the cooldown after the first, has more actions after that one
    -- than it had before the first, where the times that the policy has of the cell are not after the
    -- first sample.
    pub breach-acts :
        (before : List (Observation F)) (first : Observation F) (h : List (Observation F))
        (o : Observation F)
        → (first.sample.cell_id == c) ≡ true
        → first.within ≡ false
        → IsUntil (cell_state cfg split fails start c before).breach_since first.now
        → IsUntil (cell_state cfg split fails start c before).last_action first.now
        → NeverWithin c h
        → (o.sample.cell_id == c) ≡ true
        → o.within ≡ false
        → first.now + cfg.min_breach_duration + cfg.cooldown ≤ o.now
        → length (actions cfg split fails start c before)
          < length (actions cfg split fails start c (o ∷ (h ++ (first ∷ before))))
    breach-acts before first h o e w b l n eo wo late =
        let full = h ++ (first ∷ before) in
        let st = cell_state cfg split fails start c full in
        step_own (λ _ ts. length (actions cfg split fails start c before) < length ts) o full eo
          (last_grows (actions cfg split fails start c full) (decide cfg o.now st o.within)
            (grows before first h e w b l n)
            (Outcome-acts first.now o.now st o.within _ wo late
              (decide-Outcome cfg o.now st o.within)))
      where
        last_grows :
            (ts : List ℕ) (r : CellPolicyState × Bool)
            → Grown
                (length (actions cfg split fails start c before))
                first.now
                (cell_state cfg split fails start c (h ++ (first ∷ before)))
                ts
            → (Open first.now (cell_state cfg split fails start c (h ++ (first ∷ before)))
                → r.1 ≡ true)
            → length (actions cfg split fails start c before)
              < length (if r.1 then o.now ∷ ts else ts)
        last_grows ts r (inl more) acts = ground (arith, more)
        last_grows ts r (inr (same, open_)) acts = rw (acts open_) (omega (arith, same))
