-- ===== src/RegistrySvc/Merge/Drained.antt =====
-- The split drains that a merge sets and resets (internal/grpc/registrysvc/forward_merge.go:
-- ForwardMergeHandoff).
use mmo.Prelude.{
  ◌≡◌, ◌≢◌, refl, sym, ◌∙◌, ap, Bool, true, false, not, ◌&&◌, Option, none, some, List, [], ◌∷◌,
  ◌==◌, text-Eq, ℕ-Eq, inl, inr, if◌then◌else◌, Bool-cases, clash, All, some_cancel,
}
use mmo.Prelude.Int.{ℤ, pos}
use mmo.Prelude.Text.{Text, codes, trim_space, is_empty}
use mmo.Prelude.Dict.{Set}
use mmo.Prelude.Result.{Result, ok, err}
use mmo.Prelude.Float.{Float}
use mmo.Cell.{CellSpec}
use mmo.Registry.{find_cell_by_id}
use mmo.CellSvc.Admin.{set_split_drain}
use mmo.CellSvc.Npc.{CellUpdate, PersistCodec, admin_update}
use mmo.MergeLock.{try_acquire_merge}
use mmo.RegistrySvc.{
  Remote, History, Proc, Status, ◌>>-◌, continue, give, fail, guard, or_fail, list_call,
  update_call, dial_spec, dial_cell_client, call_update, do_forward_cell_update,
}
use mmo.RegistrySvc.Npc.{or_default}
use mmo.RegistrySvc.Merge.{
  MergeConfig, MergeRequest, set_drain, set_drains, merge_drained, merge_with_drains, merge_held,
  forward_merge_handoff, unique_cell_ids,
}
use mmo.RegistrySvc.Quiet.{last_drain_sent, IsQuiet, guard-IsQuiet}
use mmo.RegistrySvc.Merge.Quiet.{ping-IsQuiet, count-IsQuiet, merge_drained-IsQuiet, plan-IsQuiet}

module _ {F : Type 0} where
  -- The catalog lists the same cells at every time, and every cell can be dialled.
  pub record IsSteady (remote : Remote F) (cells : List (Option (CellSpec F))) : Type 0 where
    pub has_store : remote.has_store ≡ true
    pub listed : (h : History F) → remote.list h ≡ some cells
    pub dialled : (ep : Text) → remote.dials ep ≡ true

  abbrev spec_hits : Text → Option (CellSpec F) → Bool
  spec_hits ep none = false
  spec_hits ep (some spec) = not (is_empty spec.grpc_endpoint) && (spec.grpc_endpoint == ep)

  -- Whether the id names a cell at the endpoint.
  abbrev hits : List (Option (CellSpec F)) → Text → Text → Bool
  hits cells ep id = not (is_empty id) && spec_hits ep (find_cell_by_id cells id)

  or_fail-calls : {A : Type 0} (e : Status) (o : Option A) (h : History F) → (or_fail e o h).0 ≡ h
  unfolding or_fail
  or_fail-calls e none h = refl
  or_fail-calls e (some a) h = refl

  abbrev calls_after : CellUpdate F → Option (CellSpec F) → History F → History F
  calls_after upd none h = list_call ∷ h
  calls_after upd (some spec) h =
      if is_empty spec.grpc_endpoint
      then list_call ∷ h
      else update_call spec.grpc_endpoint upd ∷ list_call ∷ h

  dialled_calls :
      (remote : Remote F) (cells : List (Option (CellSpec F))) (upd : CellUpdate F)
      (o : Option (CellSpec F)) (h : History F)
      → IsSteady remote cells
      → ((dial_spec remote o >>- call_update remote upd) (list_call ∷ h)).0 ≡ calls_after upd o h
  unfolding ◌>>-◌ guard give fail or_fail
  dialled_calls remote cells upd none h s = refl
  dialled_calls remote cells upd (some spec) h s = elim (Bool-cases (is_empty spec.grpc_endpoint)) [
    | inl e ↦ rw e refl
    | inr e ↦ rw (e, s.dialled spec.grpc_endpoint) (or_fail-calls _ (remote.update _ _ upd) _)
  ]

  forward_calls :
      (remote : Remote F) (cells : List (Option (CellSpec F))) (id : Text) (upd : CellUpdate F)
      (h : History F)
      → IsSteady remote cells
      → (do_forward_cell_update remote id upd h).0
        ≡ (if is_empty id then h else calls_after upd (find_cell_by_id cells id) h)
  unfolding do_forward_cell_update dial_cell_client ◌>>-◌ guard give fail or_fail
  forward_calls remote cells id upd h s = elim (Bool-cases (is_empty id)) [
    | inl e ↦ rw e refl
    | inr e ↦
        rw (e, s.has_store, s.listed h)
          (dialled_calls (record remote { has_store = true }) cells upd (find_cell_by_id cells id) h
            (record { has_store = refl; listed = s.listed; dialled = s.dialled }))
  ]

  set_drain-hits :
      (remote : Remote F) (cells : List (Option (CellSpec F))) (on : Bool) (id ep : Text)
      (h : History F)
      → IsSteady remote cells
      → last_drain_sent ep (set_drain remote on id h)
        ≡ (if hits cells ep id then some on else last_drain_sent ep h)
  unfolding last_drain_sent
  set_drain-hits remote cells on id ep h s =
      ap (last_drain_sent ep)
        (forward_calls remote cells id (admin_update (set_split_drain on)) h s)
      ∙ last_hits (is_empty id) (find_cell_by_id cells id)
    where
      last_hits :
          (t : Bool) (o : Option (CellSpec F))
          → last_drain_sent ep
              (if t then h else calls_after (admin_update (set_split_drain on)) o h)
            ≡ (if not t && spec_hits ep o then some on else last_drain_sent ep h)
      last_hits true o = refl
      last_hits false none = refl
      last_hits false (some spec) = elim (Bool-cases (is_empty spec.grpc_endpoint)) [
        | inl e ↦ rw e refl
        | inr e ↦ rw e (elim (Bool-cases (spec.grpc_endpoint == ep)) [
          | inl same ↦ rw same refl
          | inr other ↦ rw other refl
        ])
      ]

  -- No id of the list names a cell at the endpoint.
  abbrev Missed : List (Option (CellSpec F)) → Text → List Text → Type 0
  Missed cells ep ids = All (λ id. hits cells ep id ≡ false) ids

  drains_on :
      (remote : Remote F) (cells : List (Option (CellSpec F))) (ids : List Text) (ep : Text)
      (h : History F)
      → IsSteady remote cells
      → Missed cells ep ids
      → last_drain_sent ep (set_drains remote true ids h) ≡ last_drain_sent ep h
  unfolding set_drains
  drains_on remote cells [] ep h s missed = refl
  drains_on remote cells (id ∷ ids) ep h s missed =
      drains_on remote cells ids ep (set_drain remote true id h) s missed.1
      ∙ (set_drain-hits remote cells true id ep h s ∙ rw missed.0 refl)

  drain_off :
      (remote : Remote F) (cells : List (Option (CellSpec F))) (id ep : Text) (h : History F)
      → IsSteady remote cells
      → last_drain_sent ep (set_drain remote false id h) ≡ some true
      → (last_drain_sent ep h ≡ some true) × (hits cells ep id ≡ false)
  drain_off remote cells id ep h s on =
      let now = sym (set_drain-hits remote cells false id ep h s) ∙ on in
      elim (Bool-cases (hits cells ep id)) [
        | inl e ↦ absurd (clash refl (sym (some_cancel (rw e at now))))
        | inr e ↦ (rw e at now, e)
      ]

  drains_off :
      (remote : Remote F) (cells : List (Option (CellSpec F))) (ids : List Text) (ep : Text)
      (h : History F)
      → IsSteady remote cells
      → last_drain_sent ep (set_drains remote false ids h) ≡ some true
      → (last_drain_sent ep h ≡ some true) × Missed cells ep ids
  unfolding set_drains
  drains_off remote cells [] ep h s on = (on, tt)
  drains_off remote cells (id ∷ ids) ep h s on =
      let (before, missed) = drains_off remote cells ids ep (set_drain remote false id h) s on in
      let (first, miss) = drain_off remote cells id ep h s before in (first, (miss, missed))

module _ {F : Type 0} where
  -- The drain at an endpoint is not left on by the handler.
  Keeps : {A : Type 0} → Proc F A → Type 0
  Keeps m =
      (h : History F) (ep : Text)
      → last_drain_sent ep (m h).0 ≡ some true
      → last_drain_sent ep h ≡ some true

  continue-Keeps :
      {A B : Type 0} (k : A → Proc F B) (r : History F × Result Status A) (ep : Text)
      → ((a : A) → Keeps (k a))
      → last_drain_sent ep (continue k r).0 ≡ some true
      → last_drain_sent ep r.0 ≡ some true
  unfolding Keeps
  continue-Keeps k (h, ok a) ep q on = q a h ep on
  continue-Keeps k (h, err e) ep q on = on

  bind-Keeps :
      {A B : Type 0} (m : Proc F A) (k : A → Proc F B)
      → IsQuiet m
      → ((a : A) → Keeps (k a))
      → Keeps (m >>- k)
  unfolding Keeps IsQuiet ◌>>-◌
  bind-Keeps m k qm qk h ep on = sym (qm h ep) ∙ continue-Keeps k (m h) ep qk on

module _ {F : Type 0} ⦃fl : Float F⦄ (remote : Remote F) (codec : PersistCodec F)
    (cfg : MergeConfig) where
  merge_with_drains-last :
      (cells : List (Option (CellSpec F))) (parent_id : Text) (ids : List Text) (reason : Text)
      (total : ℤ) (h : History F) (ep : Text)
      → IsSteady remote cells
      → last_drain_sent ep (merge_with_drains remote codec cfg parent_id ids reason total h).0
        ≡ some true
      → last_drain_sent ep h ≡ some true
  unfolding merge_with_drains IsQuiet
  merge_with_drains-last cells parent_id ids reason total h ep s on =
      let start = set_drain remote true parent_id h in
      let drained = set_drains remote true ids start in
      let ran = merge_drained remote codec cfg parent_id ids reason total drained in
      let (after, parent_missed) =
        drain_off remote cells parent_id ep (set_drains remote false ids ran.0) s on in
      let (before, missed) = drains_off remote cells ids ep ran.0 s after in
      let at_start =
        sym (drains_on remote cells ids ep start s missed)
        ∙ (sym (merge_drained-IsQuiet remote codec cfg parent_id ids reason total drained ep)
            ∙ before) in
      sym (set_drain-hits remote cells true parent_id ep h s ∙ rw parent_missed refl) ∙ at_start

  merge_held-Keeps :
      (cells : List (Option (CellSpec F))) (parent_id : Text) (child_ids : List Text)
      (reason : Text)
      → IsSteady remote cells
      → Keeps (merge_held remote codec cfg parent_id child_ids reason)
  unfolding merge_held Keeps
  merge_held-Keeps cells parent_id child_ids reason s = bind-Keeps _ _ (guard-IsQuiet F _ _) (λ u.
      bind-Keeps _ _ (guard-IsQuiet F _ _) (λ v.
        bind-Keeps _ _ (plan-IsQuiet remote codec cfg parent_id child_ids) (λ ids.
          bind-Keeps _ _ (ping-IsQuiet remote parent_id) (λ players.
            bind-Keeps _ _ (guard-IsQuiet F _ _) (λ w.
              bind-Keeps _ _ (count-IsQuiet remote cfg ids (pos 0)) (λ total.
                bind-Keeps _ _ (guard-IsQuiet F _ _)
                  (λ x h ep. merge_with_drains-last cells parent_id ids reason total h ep s)))))))

  forward_merge_handoff-last_on :
      (cells : List (Option (CellSpec F))) (in_flight : Set Text) (h : History F)
      (req : Option MergeRequest) (ep : Text)
      → IsSteady remote cells
      → last_drain_sent ep (forward_merge_handoff remote codec cfg in_flight h req).1 ≡ some true
      → last_drain_sent ep h ≡ some true
  unfolding forward_merge_handoff Keeps
  forward_merge_handoff-last_on cells in_flight h none ep s on = on
  forward_merge_handoff-last_on cells in_flight h (some req) ep s on =
      let id = trim_space req.parent_cell_id in
      elim (Bool-cases (is_empty id)) [
        | inl e ↦ rw e at on
        | inr e ↦ elim (Bool-cases (try_acquire_merge in_flight id).1) [
          | inl got ↦
              merge_held-Keeps cells id (unique_cell_ids req.child_cell_ids)
                (or_default (codes "ForwardMergeHandoff") (trim_space req.reason)) s h ep
                (rw (e, got) at on)
          | inr busy ↦ rw (e, busy) at on
        ]
      ]

  -- Where the catalog lists the same cells at every time and each cell can be dialled, on whatever path
  -- a merge ends: if the last SetSplitDrain request sent to an endpoint before the call did not turn
  -- the drain on, neither does the last one sent to it after the call. A request counts as sent whether
  -- or not the cell answers it, so a cell whose last request was lost may still be drained.
  pub forward_merge_handoff-last_drain :
      (cells : List (Option (CellSpec F))) (in_flight : Set Text) (h : History F)
      (req : Option MergeRequest) (ep : Text)
      → IsSteady remote cells
      → last_drain_sent ep h ≢ some true
      → last_drain_sent ep (forward_merge_handoff remote codec cfg in_flight h req).1 ≢ some true
  forward_merge_handoff-last_drain cells in_flight h req ep s off on =
      off (forward_merge_handoff-last_on cells in_flight h req ep s on)
