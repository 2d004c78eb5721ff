-- ===== src/CellSvc/Handoff/Tokens.antt =====
-- Repeated calls with one token, and calls with a token that is new
-- (internal/grpc/cellsvc/server.go).
use mmo.Prelude.{
  ℕ, ◌≡◌, refl, ◌∙◌, true, false, ◌||◌, Option, none, some, [], ◌∷◌, arith, ℕ-Eq, text-Eq, ◌==◌,
  Bool-cases, Option-cases, inl, inr,
}
use mmo.Prelude.Text.{Text, codes, trim_space, is_empty}
use mmo.Prelude.Dict.{Dict, get, get-put_self, get-remove}
use mmo.Prelude.Float.{Float}
use mmo.Ecs.{Entity, Position}
use mmo.Ecs.World.{destroy_entity}
use mmo.CellSvc.{Sim, Server, accept, PlayerHandoffState, PreparedPlayerHandoff}
use mmo.CellSvc.Handoff.{
  Clock, prunable, prune_entry, prune_entries, prune_stale_prepared, freeze, prepare_reserve,
  prepare_capture, prepare_player_handoff, accept_place, accept_player_handoff, finish_tables,
  finish_player, finalize_prepared, finalize_player_handoff,
}
use mmo.CellSvc.Invariant.Handoff.{prune_entries-SameRoster}
use mmo.CellSvc.Handoff.Effects.{prune_entries_forget}

module _ {F : Type 0} ⦃fl : Float F⦄ where
  pub accept_known :
      (t : Server F) (sim : Sim F) (payload : PlayerHandoffState F) (e : Entity)
      → (is_empty (trim_space payload.player_id) || is_empty (trim_space payload.handoff_token))
        ≡ false
      → t.sim ≡ some sim
      → get t.accepted_by_tk (trim_space payload.handoff_token) ≡ some e
      → accept_player_handoff t (some payload)
        ≡ (t, record { ok = true; message = codes "already_accepted"; entity_id = e })
  unfolding accept_player_handoff
  accept_known t sim payload e given here known = simp (given, here, known)

  pub accept_unknown :
      (s : Server F) (sim : Sim F) (payload : PlayerHandoffState F)
      → (is_empty (trim_space payload.player_id) || is_empty (trim_space payload.handoff_token))
        ≡ false
      → s.sim ≡ some sim
      → get s.accepted_by_tk (trim_space payload.handoff_token) ≡ none
      → accept_player_handoff s (some payload)
        ≡ accept_place s sim payload
            (trim_space payload.player_id)
            (trim_space payload.handoff_token)
  unfolding accept_player_handoff
  accept_unknown s sim payload given here new = simp (given, here, new)

  -- An Accept that succeeds on a server with a simulation leaves the token there with the entity that it
  -- replied.
  pub accept_good :
      (s : Server F) (sim : Sim F) (payload : PlayerHandoffState F)
      → s.sim ≡ some sim
      → (accept_player_handoff s (some payload)).1.ok ≡ true
      → ((is_empty (trim_space payload.player_id) || is_empty (trim_space payload.handoff_token))
          ≡ false)
        × ((sim' : Sim F) × ((accept_player_handoff s (some payload)).0.sim ≡ some sim'))
        × (get
              (accept_player_handoff s (some payload)).0.accepted_by_tk
              (trim_space payload.handoff_token)
            ≡ some (accept_player_handoff s (some payload)).1.entity_id)
  unfolding accept_player_handoff accept_place
  accept_good s sim payload here good =
      let token = trim_space payload.handoff_token in
      elim (Bool-cases (is_empty (trim_space payload.player_id) || is_empty token)) [
        | inl e ↦ absurd (ground (arith, e, good))
        | inr given ↦ elim (Option-cases (get s.accepted_by_tk token)) [
          | inr (e, known) ↦
              rw (accept_known s sim payload e given here known) (given, (sim, here), known)
          | inl new ↦
              rw (accept_unknown s sim payload given here new)
                (given, (_, refl), get-put_self s.accepted_by_tk token _)
        ]
      ]

  prune_entry_leaves :
      (now : ℕ) (s : Server F) (pid other token : Text)
      → get s.prepared_by_id pid ≡ none
      → get (prune_entry now s other token).prepared_by_id pid ≡ none
  unfolding prune_entry
  prune_entry_leaves now s pid other token h =
      elim (Bool-cases (prunable now (get s.prepared_by_tk token))) [
        | inr keep ↦ rw keep h
        | inl drop ↦ rw drop (ground (arith, get-remove s.prepared_by_id other pid, h))
      ]

  prune_entries_leave :
      (now : ℕ) (m : Dict Text Text) (s : Server F) (pid : Text)
      → get s.prepared_by_id pid ≡ none
      → get (prune_entries now m s).prepared_by_id pid ≡ none
  unfolding prune_entries
  prune_entries_leave now [] s pid h = h
  prune_entries_leave now ((other, token) ∷ m) s pid h =
      prune_entries_leave now m (prune_entry now s other token) pid
        (prune_entry_leaves now s pid other token h)

  -- Prepare for a player who is there with a position and is in no handoff, with a new token.
  pub prepare_new :
      (s : Server F) (sim : Sim F) (now : Clock) (player_id target_cell_id handoff_token : Text)
      (e : Entity) (pos : Position F)
      → (is_empty (trim_space player_id)
          || is_empty (trim_space target_cell_id)
          || is_empty (trim_space handoff_token))
        ≡ false
      → s.sim ≡ some sim
      → get s.player_by_id (trim_space player_id) ≡ some e
      → get sim.world.positions e ≡ some pos
      → get s.prepared_by_id (trim_space player_id) ≡ none
      → get s.prepared_by_tk (trim_space handoff_token) ≡ none
      → prepare_player_handoff s now player_id target_cell_id handoff_token
        ≡ prepare_capture
            (freeze
              (prune_stale_prepared now.pruned_at s)
              (trim_space player_id)
              (trim_space handoff_token))
            sim
            now.prepared_at
            (trim_space player_id)
            (trim_space target_cell_id)
            (trim_space handoff_token)
            e
            (some pos)
  unfolding prepare_player_handoff prepare_reserve prune_stale_prepared
  prepare_new s sim now player_id target_cell_id handoff_token e pos given here there placed idle
        new =
      let pid = trim_space player_id in
      let kept = prune_entries-SameRoster now.pruned_at s.prepared_by_id s in
      let forgot =
        prune_entries_forget now.pruned_at s.prepared_by_id s (trim_space handoff_token) new in
      let left = prune_entries_leave now.pruned_at s.prepared_by_id s pid idle in
      let still_there : get (prune_entries now.pruned_at s.prepared_by_id s).player_by_id pid
          ≡ some e =
        rw kept.player_by_id there in
      simp (given, here, forgot, left, still_there, placed)

module _ {F : Type 0} where
  pub finalize_known :
      (t : Server F) (sim : Sim F) (player_id handoff_token : Text) (pp : PreparedPlayerHandoff F)
      → (is_empty (trim_space player_id) || is_empty (trim_space handoff_token)) ≡ false
      → t.sim ≡ some sim
      → get t.prepared_by_tk (trim_space handoff_token) ≡ some pp
      → finalize_player_handoff t player_id handoff_token
        ≡ finalize_prepared t sim (trim_space player_id) (trim_space handoff_token) (some pp)
  unfolding finalize_player_handoff
  finalize_known t sim player_id handoff_token pp given here known = simp (given, here, known)

  finish_player-prepared :
      (s : Server F) (sim : Sim F) (pid : Text) (prepared : Entity) (found : Option Entity)
      → s.sim ≡ some sim
      → ((t : Sim F) × ((finish_player s sim pid prepared found).sim ≡ some t))
        × ((finish_player s sim pid prepared found).prepared_by_tk ≡ s.prepared_by_tk)
  finish_player-prepared s sim pid prepared none here = elim (Bool-cases (prepared == 0)) [
    | inl zero_id ↦ rw zero_id ((sim, here), refl)
    | inr e ↦ rw e ((record sim { world = destroy_entity sim.world prepared }, refl), refl)
  ]
  finish_player-prepared s sim pid prepared (some cur) here =
      ((record sim { world = destroy_entity sim.world cur }, refl), refl)

  finalize_done :
      (t : Server F) (sim : Sim F) (player_id handoff_token : Text) (pp : PreparedPlayerHandoff F)
      → (is_empty (trim_space player_id) || is_empty (trim_space handoff_token)) ≡ false
      → t.sim ≡ some sim
      → get t.prepared_by_tk (trim_space handoff_token) ≡ some pp
      → (pp.player_id == trim_space player_id) ≡ true
      → pp.finalized ≡ true
      → finalize_player_handoff t player_id handoff_token ≡ (t, accept (codes "already_finalized"))
  unfolding finalize_prepared
  finalize_done t sim player_id handoff_token pp given here known own done =
      finalize_known t sim player_id handoff_token pp given here known ∙ simp (own, done)

  pub finalize_going :
      (t : Server F) (sim : Sim F) (player_id handoff_token : Text) (pp : PreparedPlayerHandoff F)
      → (is_empty (trim_space player_id) || is_empty (trim_space handoff_token)) ≡ false
      → t.sim ≡ some sim
      → get t.prepared_by_tk (trim_space handoff_token) ≡ some pp
      → (pp.player_id == trim_space player_id) ≡ true
      → pp.finalized ≡ false
      → finalize_player_handoff t player_id handoff_token ≡ (
        finish_player
            (finish_tables t (trim_space player_id) (trim_space handoff_token) pp)
            sim
            (trim_space player_id)
            pp.entity_id
            (get t.player_by_id (trim_space player_id)),
        accept (codes "finalized"),
      )
  unfolding finalize_prepared
  finalize_going t sim player_id handoff_token pp given here known own going =
      finalize_known t sim player_id handoff_token pp given here known ∙ simp (own, going)

  -- After a Finalize that succeeds on a server with a simulation, the same Finalize repeated at once
  -- succeeds and changes nothing.
  pub finalize_again :
      (s : Server F) (sim : Sim F) (player_id handoff_token : Text)
      → s.sim ≡ some sim
      → (finalize_player_handoff s player_id handoff_token).1.ok ≡ true
      → finalize_player_handoff
          (finalize_player_handoff s player_id handoff_token).0
          player_id
          handoff_token
        ≡ (
          (finalize_player_handoff s player_id handoff_token).0,
          accept (codes "already_finalized"),
        )
  unfolding finalize_player_handoff finalize_prepared
  finalize_again s sim player_id handoff_token here good =
      let pid = trim_space player_id in
      let token = trim_space handoff_token in
      elim (Bool-cases (is_empty pid || is_empty token)) [
        | inl e ↦ absurd (ground (arith, e, good))
        | inr given ↦ elim (Option-cases (get s.prepared_by_tk token)) [
          | inl unknown ↦ absurd (ground (arith, given, here, unknown, good))
          | inr (pp, known) ↦ elim (Bool-cases (pp.player_id == pid)) [
            | inr other ↦ absurd (ground (arith, given, here, known, other, good))
            | inl own ↦ elim (Bool-cases pp.finalized) [
              | inl done ↦
                  let step =
                    finalize_done s sim player_id handoff_token pp given here known own done in
                  rw step step
              | inr going ↦
                  let s' = finish_tables s pid token pp in
                  let found = get s.player_by_id pid in
                  let kept = finish_player-prepared s' sim pid pp.entity_id found here in
                  rw (finalize_going s sim player_id handoff_token pp given here known own going) (
                    finalize_done (finish_player s' sim pid pp.entity_id found) kept.0.0 player_id
                      handoff_token (record pp { finalized = true }) given kept.0.1
                      (rw kept.1
                        (get-put_self s.prepared_by_tk token (record pp { finalized = true })))
                      own refl)
            ]
          ]
        ]
      ]
