-- ===== src/CellSvc/Invariant/Lasting/Finishing.antt =====
-- What FinalizePlayerHandoff and Leave keep (internal/grpc/cellsvc/server.go).
use mmo.Prelude.{refl, Option, none, some, ℕ-Eq, text-Eq, ◌==◌, arith, Bool-cases, inl, inr}
use mmo.Prelude.Text.{Text}
use mmo.Prelude.Dict.{get, get-remove}
use mmo.Prelude.Float.{Float}
use mmo.Ecs.{Entity}
use mmo.CellSvc.{Sim, Server, PreparedPlayerHandoff}
use mmo.CellSvc.Players.{leave_locked, leave_world, leave_sim}
use mmo.CellSvc.Handoff.{
  unknown_token, finish_tables, finish_player, finalize_prepared, finalize_sim,
}
use mmo.CellSvc.Invariant.Lasting.{Lasts, Lasts-refl, Lasts-trans}

module _ {F : Type 0} where
  finish_player-Lasts :
      (s : Server F) (sim : Sim F) (pid : Text) (prepared : Entity) (found : Option Entity)
      → Lasts (some pid) s (finish_player s sim pid prepared found)
  finish_player-Lasts s sim pid prepared none = elim (Bool-cases (prepared == 0)) [
    | inl e ↦ rw e (Lasts-refl (some pid) s)
    | inr e ↦ rw e (record {
      lit = λ sim h. (_, refl);
      accepted = λ token e h. h;
      joined = λ pid e other h. h;
    })
  ]
  finish_player-Lasts s sim pid prepared (some cur) = record {
    lit = λ sim h. (_, refl);
    accepted = λ token e h. h;
    joined = λ q e other h. ground (arith, get-remove s.player_by_id pid q, other, h);
  }

  unknown_token-Lasts :
      (s : Server F) (pid token : Text) (active : Option Text)
      → Lasts (some pid) s (unknown_token s pid token active)
  unknown_token-Lasts s pid token none = Lasts-refl (some pid) s
  unknown_token-Lasts s pid token (some active) = elim (Bool-cases (active == token)) [
    | inl e ↦
        rw e (record {
          lit = λ sim h. (sim, h);
          accepted = λ token e h. h;
          joined = λ pid e other h. h;
        })
    | inr e ↦ rw e (Lasts-refl (some pid) s)
  ]

  finalize_prepared-Lasts :
      (s : Server F) (sim : Sim F) (pid token : Text) (known : Option (PreparedPlayerHandoff F))
      → Lasts (some pid) s (finalize_prepared s sim pid token known).0
  unfolding finalize_prepared
  finalize_prepared-Lasts s sim pid token none =
      unknown_token-Lasts s pid token (get s.prepared_by_id pid)
  finalize_prepared-Lasts s sim pid token (some pp) = elim (Bool-cases (pp.player_id == pid)) [
    | inr other ↦ rw other (Lasts-refl (some pid) s)
    | inl own ↦ elim (Bool-cases pp.finalized) [
      | inl done ↦ rw (own, done) (Lasts-refl (some pid) s)
      | inr going ↦
          let s' = finish_tables s pid token pp in
          let found = get s.player_by_id pid in
          rw (own, going)
            (Lasts-trans (some pid) s s' (finish_player s' sim pid pp.entity_id found)
              (record {
                lit = λ sim h. (sim, h);
                accepted = λ token e h. h;
                joined = λ pid e other h. h;
              })
              (finish_player-Lasts s' sim pid pp.entity_id found))
    ]
  ]

  pub finalize_sim-Lasts :
      (s : Server F) (o : Option (Sim F)) (pid token : Text)
      → Lasts (some pid) s (finalize_sim s o pid token).0
  finalize_sim-Lasts s none pid token = Lasts-refl (some pid) s
  finalize_sim-Lasts s (some sim) pid token =
      finalize_prepared-Lasts s sim pid token (get s.prepared_by_tk token)

module _ {F : Type 0} ⦃fl : Float F⦄ where
  leave_world-Lasts :
      (but : Option Text) (s : Server F) (sim : Sim F) (o : Option Entity)
      → Lasts but s (leave_world s sim o).0
  leave_world-Lasts but s sim none = Lasts-refl but s
  leave_world-Lasts but s sim (some e) = record {
    lit = λ sim h. (_, refl);
    accepted = λ token e h. h;
    joined = λ pid e other h. h;
  }

  pub leave_sim-Lasts :
      (s : Server F) (o : Option (Sim F)) (pid : Text) → Lasts (some pid) s (leave_sim s o pid).0
  unfolding leave_locked
  leave_sim-Lasts s none pid = Lasts-refl (some pid) s
  leave_sim-Lasts s (some sim) pid =
      let found = get s.player_by_id pid in
      Lasts-trans (some pid) s (leave_locked s pid) (leave_world (leave_locked s pid) sim found).0
        (record {
          lit = λ sim h. (sim, h);
          accepted = λ token e h. h;
          joined = λ q e other h. ground (arith, get-remove s.player_by_id pid q, other, h);
        })
        (leave_world-Lasts (some pid) (leave_locked s pid) sim found)
