-- ===== src/CellSvc/Invariant/Lasting/Placing.antt =====
-- What PreparePlayerHandoff and AcceptPlayerHandoff keep (internal/grpc/cellsvc/server.go).
use mmo.Prelude.{
  ℕ, ◌≡◌, refl, ap, some_cancel, ◌∙◌, Option, none, some, ℕ-Eq, text-Eq, ◌==◌, eq_iff, arith,
  Bool-cases, inl, inr,
}
use mmo.Prelude.Text.{Text}
use mmo.Prelude.Dict.{get, get-put}
use mmo.Prelude.Float.{Float}
use mmo.Ecs.{Entity, Position}
use mmo.Ecs.World.{World}
use mmo.CellSvc.{Sim, Server, PlayerHandoffState}
use mmo.CellSvc.Handoff.{
  Clock, Reserved, replied, reserved, prepare_reserve, prepare_capture, prepare_rest, prepare_sim,
  entity_for, accept_place, accept_new, accept_sim,
}
use mmo.CellSvc.Invariant.Handoff.{prepare_reserve-SameRoster}
use mmo.CellSvc.Invariant.Lasting.{Lasts, Lasts-refl, SameRoster-Lasts, Lasts-trans}

module _ {F : Type 0} ⦃fl : Float F⦄ where
  prepare_capture-Lasts :
      (s : Server F) (sim : Sim F) (now : ℕ) (pid target token : Text) (e : Entity)
      (o : Option (Position F))
      → Lasts none s (prepare_capture s sim now pid target token e o).0
  unfolding prepare_capture
  prepare_capture-Lasts s sim now pid target token e none = record {
    lit = λ sim h. (sim, h);
    accepted = λ token e h. h;
    joined = λ pid e other h. h;
  }
  prepare_capture-Lasts s sim now pid target token e (some p) = record {
    lit = λ sim h. (_, refl);
    accepted = λ token e h. h;
    joined = λ pid e other h. h;
  }

  prepare_rest-Lasts :
      (s : Server F) (sim : Sim F) (r : Reserved F) (now : Clock) (pid target token : Text)
      → Lasts none s (prepare_rest sim now pid target token (s, r)).0
  prepare_rest-Lasts s sim (replied reply) now pid target token = Lasts-refl none s
  prepare_rest-Lasts s sim (reserved e) now pid target token =
      prepare_capture-Lasts s sim now.prepared_at pid target token e (get sim.world.positions e)

  pub prepare_sim-Lasts :
      (s : Server F) (o : Option (Sim F)) (now : Clock) (pid target token : Text)
      → Lasts none s (prepare_sim s o now pid target token).0
  prepare_sim-Lasts s none now pid target token = Lasts-refl none s
  prepare_sim-Lasts s (some sim) now pid target token =
      let (t, r) = prepare_reserve s now pid token in
      Lasts-trans none s t (prepare_rest sim now pid target token (t, r)).0
        (SameRoster-Lasts none s t (prepare_reserve-SameRoster s now pid token))
        (prepare_rest-Lasts t sim r now pid target token)

  entity_for-there :
      (w : World F) (o : Option Entity) (e : Entity) → o ≡ some e → (entity_for w o).1 ≡ e
  entity_for-there w none e h = cc
  entity_for-there w (some x) e h = some_cancel h

  accept_new-Lasts :
      (s : Server F) (sim : Sim F) (payload : PlayerHandoffState F) (pid token : Text)
      (known : Option Entity)
      → get s.accepted_by_tk token ≡ known
      → Lasts none s (accept_new s sim payload pid token known).0
  unfolding accept_place
  accept_new-Lasts s sim payload pid token (some e) is_known = Lasts-refl none s
  accept_new-Lasts s sim payload pid token none unknown =
      let placed = (entity_for sim.world (get s.player_by_id pid)).1 in
      record {
        lit = λ sim h. (_, refl);
        accepted = λ other e h.
            ground
              (arith, get-put s.accepted_by_tk token placed other, eq_iff token other, unknown, h);
        joined = λ q e other h. elim (Bool-cases (pid == q)) [
          | inl same ↦
              get-put s.player_by_id pid placed q
              ∙ rw same (
                  ap some (
                    entity_for-there sim.world (get s.player_by_id pid) e
                      (rw ((eq_iff pid q).0 same) h)))
          | inr differs ↦ get-put s.player_by_id pid placed q ∙ rw differs h
        ];
      }

  pub accept_sim-Lasts :
      (s : Server F) (o : Option (Sim F)) (payload : PlayerHandoffState F) (pid token : Text)
      → Lasts none s (accept_sim s o payload pid token).0
  accept_sim-Lasts s none payload pid token = Lasts-refl none s
  accept_sim-Lasts s (some sim) payload pid token =
      accept_new-Lasts s sim payload pid token (get s.accepted_by_tk token) refl
