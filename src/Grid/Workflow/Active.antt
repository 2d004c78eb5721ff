-- ===== src/Grid/Workflow/Active.antt =====
-- The workflows that are active at one time (cmd/grid-manager/split_workflow.go: maybeStart, run).
use mmo.Prelude.{
  suc, ◌≤◌, ◌<◌, ◌≡◌, refl, sym, true, false, not, ◌&&◌, ◌||◌, List, [], ◌∷◌, text-Eq, ◌==◌, Eq,
  ltb, leb, Bool-cases, inl, inr, arith, clash,
}
use mmo.Prelude.Text.{Text, trim_space, is_empty}
use mmo.Prelude.Dict.{Dict, Set, has, put, remove, size, get-put_self}
use mmo.Partition.Path.{cell_path_level}
use mmo.Grid.Workflow.{SplitWorkflowConfig, too_deep, split_maybe_start, run_ended}

module _ {K V : Type 0} ⦃e : Eq K⦄ where
  size-remove : (m : Dict K V) (k : K) → size (remove m k) ≤ size m
  unfolding size remove
  size-remove [] k = omega arith
  size-remove ((j, v) ∷ m) k = elim (Bool-cases (j == k)) [
    | inl same ↦ rw same (omega (arith, size-remove m k))
    | inr other ↦ rw other (omega (arith, size-remove m k))
  ]

  size-put : (m : Dict K V) (k : K) (v : V) → size (put m k v) ≤ suc (size m)
  unfolding size put
  size-put m k v = omega (arith, size-remove m k)

-- An event of the workflows: a request to start one, or the end of a run.
pub data Event : Type 0 where
  asked : Text → Event
  ended : Text → Event

-- The active workflows after some events.
unfoldable pub after_events : SplitWorkflowConfig → List Event → Set Text
after_events cfg [] = []
after_events cfg (asked id ∷ events) = (split_maybe_start cfg (after_events cfg events) id).0
after_events cfg (ended id ∷ events) = run_ended (after_events cfg events) id

start-bounded :
    (cfg : SplitWorkflowConfig) (active : Set Text) (id : Text)
    → 0 < cfg.max_concurrent
    → size active ≤ cfg.max_concurrent
    → size (split_maybe_start cfg active id).0 ≤ cfg.max_concurrent
unfolding split_maybe_start
start-bounded cfg active id some_limit low =
    elim (Bool-cases (not cfg.enabled || is_empty (trim_space id))) [
      | inl e ↦ simp e low
      | inr e ↦
          elim (Bool-cases (
            has cfg.blocked_cells (trim_space id)
            || too_deep cfg (cell_path_level (trim_space id)))) [
              | inl b ↦ simp (e, b) low
              | inr b ↦
                  elim (Bool-cases
                    (ltb 0 cfg.max_concurrent && leb cfg.max_concurrent (size active))) [
                      | inl f ↦ simp (e, b, f) low
                      | inr f ↦ elim (Bool-cases (has active (trim_space id))) [
                        | inl g ↦ simp (e, b, f, g) low
                        | inr g ↦
                            simp (e, b, f, g)
                              (let room : size active < cfg.max_concurrent =
                                  ground (arith, f, some_limit) in
                                omega (arith, room, size-put active (trim_space id) tt))
                      ]
                    ]
            ]
    ]

-- With a limit that is set, there are never more active splits than the limit, whatever starts are
-- asked for and runs end, in any order.
pub after_events-bounded :
    (cfg : SplitWorkflowConfig) (events : List Event)
    → 0 < cfg.max_concurrent
    → size (after_events cfg events) ≤ cfg.max_concurrent
unfolding after_events run_ended size
after_events-bounded cfg [] limit = omega arith
after_events-bounded cfg (asked id ∷ events) limit =
    start-bounded cfg (after_events cfg events) id limit (after_events-bounded cfg events limit)
after_events-bounded cfg (ended id ∷ events) limit =
    let fewer = size-remove (after_events cfg events) id in
    omega (arith, fewer, after_events-bounded cfg events limit)

-- What a start says of the guards and does.
start_inv :
    (cfg : SplitWorkflowConfig) (active : Set Text) (id : Text)
    → (split_maybe_start cfg active id).1 ≡ true
    → ((not cfg.enabled || is_empty (trim_space id)) ≡ false)
      × ((has cfg.blocked_cells (trim_space id) || too_deep cfg (cell_path_level (trim_space id)))
          ≡ false)
      × ((split_maybe_start cfg active id).0 ≡ put active (trim_space id) tt)
unfolding split_maybe_start
start_inv cfg active id started = elim (Bool-cases (not cfg.enabled || is_empty (trim_space id))) [
  | inl e ↦ absurd (clash refl (sym (simp e at started)))
  | inr e ↦
      elim (Bool-cases
        (has cfg.blocked_cells (trim_space id) || too_deep cfg (cell_path_level (trim_space id)))) [
          | inl b ↦ absurd (clash refl (sym (simp (e, b) at started)))
          | inr b ↦
              elim (Bool-cases (ltb 0 cfg.max_concurrent && leb cfg.max_concurrent (size active))) [
                | inl f ↦ absurd (clash refl (sym (simp (e, b, f) at started)))
                | inr f ↦ elim (Bool-cases (has active (trim_space id))) [
                  | inl g ↦ absurd (clash refl (sym (simp (e, b, f, g) at started)))
                  | inr g ↦ (e, b, simp (e, b, f, g))
                ]
              ]
        ]
]

-- A cell that is active does not start.
busy :
    (cfg : SplitWorkflowConfig) (active : Set Text) (id : Text)
    → has active (trim_space id) ≡ true
    → split_maybe_start cfg active id ≡ (active, false)
unfolding split_maybe_start
busy cfg active id g = elim (Bool-cases (not cfg.enabled || is_empty (trim_space id))) [
  | inl e ↦ simp e
  | inr e ↦
      elim (Bool-cases
        (has cfg.blocked_cells (trim_space id) || too_deep cfg (cell_path_level (trim_space id)))) [
          | inl b ↦ simp (e, b)
          | inr b ↦
              elim (Bool-cases (ltb 0 cfg.max_concurrent && leb cfg.max_concurrent (size active))) [
                | inl f ↦ simp (e, b, f)
                | inr f ↦ simp (e, b, f, g)
              ]
        ]
]

-- A split that starts is active, and until its run ends no other split of the cell starts.
pub start_again :
    (cfg : SplitWorkflowConfig) (active : Set Text) (id : Text)
    → (split_maybe_start cfg active id).1 ≡ true
    → let after = (split_maybe_start cfg active id).0 in
      (has after (trim_space id) ≡ true) × (split_maybe_start cfg after id ≡ (after, false))
start_again cfg active id started =
    let (e, b, same) = start_inv cfg active id started in
    rw same (
      rw (get-put_self active (trim_space id) tt) refl,
      busy cfg (put active (trim_space id) tt) id
          (rw (get-put_self active (trim_space id) tt) refl),
    )
