-- ===== src/RegistrySvc/Quiet.antt =====
-- Handlers of the registry service that set no split drain (internal/grpc/registrysvc).
use mmo.Prelude.{
  ◌≡◌, refl, ◌∙◌, Bool, true, false, Option, none, some, [], ◌∷◌, ◌==◌, text-Eq, ℕ-Eq, inl, inr,
  Bool-cases,
}
use mmo.Prelude.Text.{Text, is_empty}
use mmo.Prelude.Result.{Result, ok, err}
use mmo.Cell.{CellSpec}
use mmo.CellSvc.Admin.{
  set_split_drain, nil_request, noop, set_target_tps, split_prepare, merge_prepare,
}
use mmo.CellSvc.Npc.{CellUpdate, export_npc_persist, import_npc_persist, admin_update}
use mmo.RegistrySvc.{
  Remote, History, Proc, Status, ◌>>-◌, continue, give, fail, guard, or_fail, list_call,
  update_call, ping_call, candidates_call, player_call, save_call, list_cells_call, find_cell,
  dial_spec, dial_cell_client, call_update, do_forward_cell_update,
}

abbrev pub set_last : Bool → Option Bool → Option Bool → Option Bool
set_last false now before = before
set_last true none before = before
set_last true (some on) before = some on

module _ {F : Type 0} where
  -- The drain that an update sets.
  abbrev pub drain_of : CellUpdate F → Option Bool
  drain_of (admin_update (set_split_drain on)) = some on
  drain_of (admin_update nil_request) = none
  drain_of (admin_update noop) = none
  drain_of (admin_update (set_target_tps tps)) = none
  drain_of (admin_update (split_prepare reason)) = none
  drain_of (admin_update (merge_prepare children reason)) = none
  drain_of (export_npc_persist reason) = none
  drain_of (import_npc_persist json reason) = none

  -- The value of the last SetSplitDrain request that the calls sent to an endpoint, answered or not.
  unfoldable pub last_drain_sent : Text → History F → Option Bool
  last_drain_sent ep [] = none
  last_drain_sent ep (update_call at upd ∷ h) =
      set_last (at == ep) (drain_of upd) (last_drain_sent ep h)
  last_drain_sent ep (list_call ∷ h) = last_drain_sent ep h
  last_drain_sent ep (ping_call at ∷ h) = last_drain_sent ep h
  last_drain_sent ep (candidates_call at ∷ h) = last_drain_sent ep h
  last_drain_sent ep (player_call req ∷ h) = last_drain_sent ep h
  last_drain_sent ep (save_call id ids n b ∷ h) = last_drain_sent ep h

  -- The handler sets no drain.
  unfoldable pub IsQuiet : {A : Type 0} → Proc F A → Type 0
  IsQuiet m = (h : History F) (ep : Text) → last_drain_sent ep (m h).0 ≡ last_drain_sent ep h

  pub continue-IsQuiet :
      {A B : Type 0} (k : A → Proc F B) (r : History F × Result Status A) (ep : Text)
      → ((a : A) → IsQuiet (k a))
      → last_drain_sent ep (continue k r).0 ≡ last_drain_sent ep r.0
  unfolding IsQuiet
  continue-IsQuiet k (h, ok a) ep q = q a h ep
  continue-IsQuiet k (h, err e) ep q = refl

  pub bind-IsQuiet :
      {A B : Type 0} (m : Proc F A) (k : A → Proc F B)
      → IsQuiet m
      → ((a : A) → IsQuiet (k a))
      → IsQuiet (m >>- k)
  unfolding IsQuiet ◌>>-◌
  bind-IsQuiet m k qm qk h ep = continue-IsQuiet k (m h) ep qk ∙ qm h ep

module _ (F : Type 0) where
  pub give-IsQuiet : {A : Type 0} (a : A) → IsQuiet {F = F} (give a)
  unfolding IsQuiet give
  give-IsQuiet a h ep = refl

  pub fail-IsQuiet : (A : Type 0) (e : Status) → IsQuiet {F = F} (fail {A = A} e)
  unfolding IsQuiet fail
  fail-IsQuiet A e h ep = refl

  pub guard-IsQuiet : (t : Bool) (e : Status) → IsQuiet {F = F} (guard t e)
  unfolding IsQuiet guard
  guard-IsQuiet true e h ep = refl
  guard-IsQuiet false e h ep = refl

  pub or_fail-IsQuiet : {A : Type 0} (e : Status) (o : Option A) → IsQuiet {F = F} (or_fail e o)
  unfolding IsQuiet or_fail
  or_fail-IsQuiet e none h ep = refl
  or_fail-IsQuiet e (some a) h ep = refl

module _ {F : Type 0} where
  module _ (remote : Remote F) where
    pub list-IsQuiet : IsQuiet (list_cells_call remote)
    unfolding IsQuiet last_drain_sent
    list-IsQuiet h ep = or_fail-IsQuiet F _ (remote.list h) (list_call ∷ h) ep

    pub find-IsQuiet : (id : Text) → IsQuiet (find_cell remote id)
    find-IsQuiet id = elim (Bool-cases (is_empty id)) [
      | inl e ↦ rw e (give-IsQuiet F none)
      | inr e ↦ rw e (bind-IsQuiet _ _ list-IsQuiet (λ cells. give-IsQuiet F _))
    ]

    pub dial_spec-IsQuiet : (o : Option (CellSpec F)) → IsQuiet (dial_spec remote o)
    dial_spec-IsQuiet none = fail-IsQuiet F _ _
    dial_spec-IsQuiet (some spec) =
        bind-IsQuiet _ _ (guard-IsQuiet F _ _)
          (λ u. bind-IsQuiet _ _ (guard-IsQuiet F _ _) (λ v. give-IsQuiet F spec))

    pub dial-IsQuiet : (id : Text) → IsQuiet (dial_cell_client remote id)
    unfolding dial_cell_client
    dial-IsQuiet id =
        bind-IsQuiet _ _ (guard-IsQuiet F _ _)
          (λ u. bind-IsQuiet _ _ (find-IsQuiet id) dial_spec-IsQuiet)

    pub call-IsQuiet :
        (upd : CellUpdate F) (spec : CellSpec F)
        → drain_of upd ≡ none
        → IsQuiet (call_update remote upd spec)
    unfolding IsQuiet last_drain_sent
    call-IsQuiet upd spec none_set h ep =
        or_fail-IsQuiet F _ (remote.update h spec.grpc_endpoint upd) _ ep
        ∙ rw none_set (quiet_set (spec.grpc_endpoint == ep) (last_drain_sent ep h))
      where
        quiet_set : (b : Bool) (o : Option Bool) → set_last b none o ≡ o
        quiet_set true o = refl
        quiet_set false o = refl

    pub forward-IsQuiet :
        (id : Text) (upd : CellUpdate F)
        → drain_of upd ≡ none
        → IsQuiet (do_forward_cell_update remote id upd)
    unfolding do_forward_cell_update
    forward-IsQuiet id upd none_set =
        bind-IsQuiet _ _ (guard-IsQuiet F _ _)
          (λ u. bind-IsQuiet _ _ (dial-IsQuiet id) (λ spec. call-IsQuiet upd spec none_set))
