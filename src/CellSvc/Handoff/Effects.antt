-- ===== src/CellSvc/Handoff/Effects.antt =====
-- What one call of the handoff handlers changes (internal/grpc/cellsvc/server.go).
use mmo.Prelude.{
  ℕ, ◌≡◌, refl, ◌∙◌, true, ◌||◌, Option, none, some, [], ◌∷◌, arith, ℕ-Eq, text-Eq, Bool-cases,
  Option-cases, inl, inr,
}
use mmo.Prelude.Text.{Text, trim_space, is_empty}
use mmo.Prelude.Dict.{Dict, get, get-put_self, get-remove}
use mmo.Prelude.Float.{Float}
use mmo.CellSvc.{Sim, Server, PlayerHandoffState}
use mmo.CellSvc.Handoff.{
  Clock, Reserved, replied, reserved, prunable, prune_entry, prune_entries, prune_stale_prepared,
  in_flight_check, reserve_checked, prepare_reserve, prepare_capture, prepare_rest, prepare_sim,
  prepare_player_handoff, accept_place, accept_player_handoff,
}
use mmo.CellSvc.Invariant.Handoff.{prepare_reserve-SameRoster}

module _ {F : Type 0} where
  prune_entry_forgets :
      (now : ℕ) (s : Server F) (pid other token : Text)
      → get s.prepared_by_tk token ≡ none
      → get (prune_entry now s pid other).prepared_by_tk token ≡ none
  unfolding prune_entry
  prune_entry_forgets now s pid other token h =
      elim (Bool-cases (prunable now (get s.prepared_by_tk other))) [
        | inr keep ↦ rw keep h
        | inl drop ↦ elim (Bool-cases (is_empty other)) [
          | inl blank ↦ rw (drop, blank) h
          | inr given ↦
              rw (drop, given) (ground (arith, get-remove s.prepared_by_tk other token, h))
        ]
      ]

  -- Pruning brings no token back.
  pub prune_entries_forget :
      (now : ℕ) (m : Dict Text Text) (s : Server F) (token : Text)
      → get s.prepared_by_tk token ≡ none
      → get (prune_entries now m s).prepared_by_tk token ≡ none
  unfolding prune_entries
  prune_entries_forget now [] s token h = h
  prune_entries_forget now ((pid, other) ∷ m) s token h =
      prune_entries_forget now m (prune_entry now s pid other) token
        (prune_entry_forgets now s pid other token h)

  -- What the caller of Prepare may learn: nothing, or a payload of the player.
  abbrev pub IsFor : Text → Option (PlayerHandoffState F) → Type 0
  IsFor pid none = Unit
  IsFor pid (some payload) = payload.player_id ≡ pid

  abbrev RepliesFor : Text → Reserved F → Type 0
  RepliesFor pid (replied r) = IsFor pid r.payload
  RepliesFor pid (reserved e) = Unit

  reserve_checked-RepliesFor :
      (s : Server F) (pid token : Text) (o : Option (Server F))
      → RepliesFor pid (reserve_checked s pid token o).1
  reserve_checked-RepliesFor s pid token none = tt
  reserve_checked-RepliesFor s pid token (some t) = elim (Option-cases (get t.player_by_id pid)) [
    | inl absent ↦ rw absent tt
    | inr (e, there) ↦ rw there tt
  ]

  prepare_reserve-RepliesFor :
      (s : Server F) (now : Clock) (pid token : Text)
      → get s.prepared_by_tk token ≡ none
      → RepliesFor pid (prepare_reserve s now pid token).1
  unfolding prepare_reserve prune_stale_prepared
  prepare_reserve-RepliesFor s now pid token new =
      let t = prune_stale_prepared now.pruned_at s in
      rw (prune_entries_forget now.pruned_at s.prepared_by_id s token new) (
        reserve_checked-RepliesFor t pid token
          (in_flight_check t pid token (get t.prepared_by_id pid) now.checked_at))

module _ {F : Type 0} ⦃fl : Float F⦄ where
  prepare_rest-IsFor :
      (s : Server F) (r : Reserved F) (sim : Sim F) (now : Clock) (pid target token : Text)
      → RepliesFor pid r
      → IsFor pid (prepare_rest sim now pid target token (s, r)).1.payload
  unfolding prepare_capture
  prepare_rest-IsFor s (replied r) sim now pid target token h = h
  prepare_rest-IsFor s (reserved e) sim now pid target token h =
      elim (Option-cases (get sim.world.positions e)) [
        | inl gone ↦ rw gone tt
        | inr (pos, here) ↦ rw here refl
      ]

  prepare_sim-IsFor :
      (s : Server F) (o : Option (Sim F)) (now : Clock) (pid target token : Text)
      → get s.prepared_by_tk token ≡ none
      → IsFor pid (prepare_sim s o now pid target token).1.payload
  prepare_sim-IsFor s none now pid target token new = tt
  prepare_sim-IsFor s (some sim) now pid target token new =
      let (t, r) = prepare_reserve s now pid token in
      prepare_rest-IsFor t r sim now pid target token
        (prepare_reserve-RepliesFor s now pid token new)

  -- With a token that is new, Prepare gives out no payload but the player's.
  pub prepare_player_handoff-IsFor :
      (s : Server F) (now : Clock) (player_id target_cell_id handoff_token : Text)
      → get s.prepared_by_tk (trim_space handoff_token) ≡ none
      → IsFor
          (trim_space player_id)
          (prepare_player_handoff s now player_id target_cell_id handoff_token).1.payload
  unfolding prepare_player_handoff
  prepare_player_handoff-IsFor s now player_id target_cell_id handoff_token new =
      let pid = trim_space player_id in
      let target = trim_space target_cell_id in
      let token = trim_space handoff_token in
      elim (Bool-cases (is_empty pid || is_empty target || is_empty token)) [
        | inl e ↦ rw e tt
        | inr e ↦ rw e (prepare_sim-IsFor s s.sim now pid target token new)
      ]

  prepare_rest-player_by_id :
      (s : Server F) (r : Reserved F) (sim : Sim F) (now : Clock) (pid target token : Text)
      → (prepare_rest sim now pid target token (s, r)).0.player_by_id ≡ s.player_by_id
  unfolding prepare_capture
  prepare_rest-player_by_id s (replied r) sim now pid target token = refl
  prepare_rest-player_by_id s (reserved e) sim now pid target token =
      elim (Option-cases (get sim.world.positions e)) [
        | inl gone ↦ rw gone refl
        | inr (pos, here) ↦ rw here refl
      ]

  prepare_sim-player_by_id :
      (s : Server F) (o : Option (Sim F)) (now : Clock) (pid target token : Text)
      → (prepare_sim s o now pid target token).0.player_by_id ≡ s.player_by_id
  prepare_sim-player_by_id s none now pid target token = refl
  prepare_sim-player_by_id s (some sim) now pid target token =
      let (t, r) = prepare_reserve s now pid token in
      prepare_rest-player_by_id t r sim now pid target token
      ∙ (prepare_reserve-SameRoster s now pid token).player_by_id

  -- Prepare removes no player.
  pub prepare_player_handoff-player_by_id :
      (s : Server F) (now : Clock) (player_id target_cell_id handoff_token : Text)
      → (prepare_player_handoff s now player_id target_cell_id handoff_token).0.player_by_id
        ≡ s.player_by_id
  unfolding prepare_player_handoff
  prepare_player_handoff-player_by_id s now player_id target_cell_id handoff_token =
      let pid = trim_space player_id in
      let target = trim_space target_cell_id in
      let token = trim_space handoff_token in
      elim (Bool-cases (is_empty pid || is_empty target || is_empty token)) [
        | inl e ↦ rw e refl
        | inr e ↦ rw e (prepare_sim-player_by_id s s.sim now pid target token)
      ]

  -- With a token that is new, an Accept that succeeds leaves the player in the server, as the entity
  -- of the reply.
  pub accept_player_handoff_joins :
      (s : Server F) (payload : PlayerHandoffState F)
      → get s.accepted_by_tk (trim_space payload.handoff_token) ≡ none
      → (accept_player_handoff s (some payload)).1.ok ≡ true
      → get (accept_player_handoff s (some payload)).0.player_by_id (trim_space payload.player_id)
        ≡ some (accept_player_handoff s (some payload)).1.entity_id
  unfolding accept_player_handoff accept_place
  accept_player_handoff_joins s payload new =
      let pid = trim_space payload.player_id in
      let token = trim_space payload.handoff_token in
      elim (Bool-cases (is_empty pid || is_empty token)) [
        | inl e ↦ rw e (λ h. ground arith)
        | inr e ↦ elim (Option-cases s.sim) [
          | inl dark ↦ rw (e, dark) (λ h. ground arith)
          | inr (sim, here) ↦ elim (Option-cases (get s.player_by_id pid)) [
            | inl absent ↦ rw (e, here, new, absent) (λ h. get-put_self s.player_by_id pid _)
            | inr (cur, there) ↦ rw (e, here, new, there) (λ h. get-put_self s.player_by_id pid cur)
          ]
        ]
      ]
