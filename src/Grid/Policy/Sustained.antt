-- ===== src/Grid/Policy/Sustained.antt =====
-- The breaches before an action of the load policy, and the times between two actions
-- (cmd/grid-manager/cell_load_policy.go: observe).
use mmo.Prelude.{
  ℕ, ◌+◌, ◌≤◌, ◌<◌, ◌≡◌, refl, sym, ◌∙◌, Bool, true, false, Option, none, some, List, [], ◌∷◌,
  text-Eq, if◌then◌else◌, ltb, ◌==◌, Bool-cases, inl, inr, ◌⊎◌, arith,
}
use mmo.Prelude.Text.{Text}
use mmo.Prelude.Dict.{Dict, get}
use mmo.Grid.Policy.{LoadPolicyConfig, CellPolicyState, decide, breached, recent}
use mmo.Grid.Policy.Window.{
  Observation, state_after, actions, acts_on, cell_state, other_cell, own_cell,
}

module _ {F : Type 0} where
  -- The history has a sample of the cell at the time, and the cell is over its limits in that sample
  -- and in each one after it.
  abbrev pub IsBreachedSince : Text → ℕ → List (Observation F) → Type 0
  IsBreachedSince c since [] = ⊥
  IsBreachedSince c since (o ∷ h) =
      (((o.sample.cell_id == c) ≡ false) × IsBreachedSince c since h)
      ⊎ (((o.sample.cell_id == c) ≡ true)
          × (o.within ≡ false)
          × ((o.now ≡ since) ⊎ IsBreachedSince c since h))

  abbrev IsSince : Text → Option ℕ → List (Observation F) → Type 0
  IsSince c none h = Unit
  IsSince c (some since) h = IsBreachedSince c since h

-- Each time is at least the duration after the next one of the list.
abbrev pub IsSpaced : ℕ → List ℕ → Type 0
IsSpaced duration [] = Unit
IsSpaced duration (t ∷ []) = Unit
IsSpaced duration (t ∷ s ∷ ts) = (s + duration ≤ t) × IsSpaced duration (s ∷ ts)

abbrev newest : List ℕ → Option ℕ
newest [] = none
newest (t ∷ ts) = some t

IsSpaced-cons :
    (duration t : ℕ) (ts : List ℕ)
    → recent duration t (newest ts) ≡ false
    → IsSpaced duration ts
    → IsSpaced duration (t ∷ ts)
IsSpaced-cons duration t [] h sp = tt
IsSpaced-cons duration t (s ∷ ts) h sp = (ground (arith, h), sp)

-- The four outcomes of a sample: the cell has recovered, its breach starts, the policy waits, or it
-- acts.
pub data Outcome {F : Type 0} (cfg : LoadPolicyConfig F) (now : ℕ) (st : CellPolicyState)
    : Bool → CellPolicyState × Bool → Type 0 where
  recovered : Outcome cfg now st true (record st { breach_since = none }, false)
  started :
      st.breach_since ≡ none
      → Outcome cfg now st false (record st { breach_since = some now }, false)
  waiting :
      (since : ℕ)
      → st.breach_since ≡ some since
      → (now < since + cfg.min_breach_duration) ⊎ (recent cfg.cooldown now st.last_action ≡ true)
      → Outcome cfg now st false (st, false)
  acting :
      (since : ℕ)
      → st.breach_since ≡ some since
      → since + cfg.min_breach_duration ≤ now
      → recent cfg.cooldown now st.last_action ≡ false
      → Outcome cfg now st false (record st { last_action = some now }, true)

module _ {F : Type 0} (cfg : LoadPolicyConfig F) where
  breached-Outcome :
      (now : ℕ) (st : CellPolicyState) (b : Option ℕ)
      → st.breach_since ≡ b
      → Outcome cfg now st false (breached cfg now st b)
  breached-Outcome now st none e = started e
  breached-Outcome now st (some since) e =
      elim (Bool-cases (ltb now (since + cfg.min_breach_duration))) [
        | inl early ↦ rw early (waiting since e (inl (ground (arith, early))))
        | inr late ↦ elim (Bool-cases (recent cfg.cooldown now st.last_action)) [
          | inl hot ↦ rw (late, hot) (waiting since e (inr hot))
          | inr cool ↦ rw (late, cool) (acting since e (ground (arith, late)) cool)
        ]
      ]

  pub decide-Outcome :
      (now : ℕ) (st : CellPolicyState) (within : Bool)
      → Outcome cfg now st within (decide cfg now st within)
  decide-Outcome now st true = recovered
  decide-Outcome now st false = breached-Outcome now st st.breach_since refl

  -- The state of the cell after a history and its actions in it.
  record Tracks (c : Text) (h : List (Observation F)) (st : CellPolicyState) (ts : List ℕ)
      : Type 0 where
    since : IsSince c st.breach_since h
    last : st.last_action ≡ newest ts
    spaced : IsSpaced cfg.cooldown ts

  Outcome-Tracks :
      (c : Text) (o : Observation F) (h : List (Observation F)) (st : CellPolicyState) (ts : List ℕ)
      (within : Bool) (r : CellPolicyState × Bool)
      → (o.sample.cell_id == c) ≡ true
      → o.within ≡ within
      → Outcome cfg o.now st within r
      → Tracks c h st ts
      → Tracks c (o ∷ h) r.0 (if r.1 then o.now ∷ ts else ts)
  Outcome-Tracks c o h st ts true _ e w recovered t = record {
    since = tt;
    last = t.last;
    spaced = t.spaced;
  }
  Outcome-Tracks c o h st ts false _ e w (started b) t = record {
    since = inr (e, w, inl refl);
    last = t.last;
    spaced = t.spaced;
  }
  Outcome-Tracks c o h st ts false _ e w (waiting s b _) t = record {
    since = rw b (inr (e, w, inr (rw b at t.since)));
    last = t.last;
    spaced = t.spaced;
  }
  Outcome-Tracks c o h st ts false _ e w (acting s b late cool) t = record {
    since = rw b (inr (e, w, inr (rw b at t.since)));
    last = refl;
    spaced = IsSpaced-cons cfg.cooldown o.now ts (rw (sym t.last) cool) t.spaced;
  }

  IsSince-skip :
      (c : Text) (o : Observation F) (h : List (Observation F)) (b : Option ℕ)
      → (o.sample.cell_id == c) ≡ false
      → IsSince c b h
      → IsSince c b (o ∷ h)
  IsSince-skip c o h none e s = tt
  IsSince-skip c o h (some t) e s = inl (e, s)

  module _ (split : Option Bool) (fails : Text → Bool) (start : Dict Text CellPolicyState)
      (c : Text) where
    history-Tracks :
        get start c ≡ none
        → (h : List (Observation F))
        → Tracks c h (cell_state cfg split fails start c h) (actions cfg split fails start c h)
    unfolding state_after actions
    history-Tracks new [] = rw new (record { since = tt; last = refl; spaced = tt })
    history-Tracks new (o ∷ h) = elim (Bool-cases (o.sample.cell_id == c)) [
      | inl e ↦
          let (state, acts) = own_cell cfg split fails start c o h e in
          rw (state, acts)
            (Outcome-Tracks c o h (cell_state cfg split fails start c h)
              (actions cfg split fails start c h) o.within _ e refl
              (decide-Outcome o.now (cell_state cfg split fails start c h) o.within)
              (history-Tracks new h))
      | inr e ↦
          let (state, acts) = other_cell cfg split fails start c o h e in
          let t = history-Tracks new h in
          rw (state, e)
            (record { since = IsSince-skip c o h _ e t.since; last = t.last; spaced = t.spaced })
    ]

    acting-since :
        (o : Observation F) (h : List (Observation F)) (st : CellPolicyState) (within : Bool)
        (r : CellPolicyState × Bool)
        → Outcome cfg o.now st within r
        → r.1 ≡ true
        → IsSince c st.breach_since h
        → (since : ℕ) × IsBreachedSince c since h
          × (since + cfg.min_breach_duration ≤ o.now)
          × (within ≡ false)
    acting-since o h st within _ recovered a s = cc
    acting-since o h st within _ (started b) a s = cc
    acting-since o h st within _ (waiting t b w) a s = cc
    acting-since o h st within _ (acting t b late cool) a s = (t, rw b at s, late, refl)

    -- The policy acts on a cell only in a sample in which it is over its limits, and only where the
    -- history of samples since the policy knows the cell has one that is at least the minimal
    -- duration older, and the cell is over its limits in that sample and in each one after it.
    pub action-IsBreachedSince :
        (o : Observation F) (h : List (Observation F))
        → get start c ≡ none
        → acts_on cfg split fails start c o h ≡ true
        → (since : ℕ) × IsBreachedSince c since h
          × (since + cfg.min_breach_duration ≤ o.now)
          × (o.within ≡ false)
    action-IsBreachedSince o h new a = elim (Bool-cases (o.sample.cell_id == c)) [
      | inl e ↦
          acting-since o h (cell_state cfg split fails start c h) o.within _
            (decide-Outcome o.now (cell_state cfg split fails start c h) o.within)
            (sym (own_cell cfg split fails start c o h e).1 ∙ a) (history-Tracks new h).since
      | inr e ↦ absurd (ground (arith, rw e at a))
    ]

    -- Two actions on a cell that follow each other, in any history since the policy knows the cell,
    -- are at least the cooldown apart.
    pub actions-IsSpaced :
        (h : List (Observation F))
        → get start c ≡ none
        → IsSpaced cfg.cooldown (actions cfg split fails start c h)
    actions-IsSpaced h new = (history-Tracks new h).spaced
