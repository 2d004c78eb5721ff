-- ===== src/CellSvc/Invariant/Lasting/Joining.antt =====
-- What Join and ApplyInput keep (internal/grpc/cellsvc/server.go, input.go).
use mmo.Prelude.{
  ◌≡◌, refl, Bool, true, false, Option, none, some, ℕ-Eq, text-Eq, eq_iff, arith, Bool-cases, inl,
  inr,
}
use mmo.Prelude.Text.{Text}
use mmo.Prelude.Dict.{get, get-put, has}
use mmo.Prelude.Float.{Float}
use mmo.Ecs.{Entity, Velocity}
use mmo.CellSvc.{Sim, Server}
use mmo.CellSvc.Players.{
  ClientInput, reply_for, join_check, join_after, join_sim, join_commit, spawn_player, apply_to,
  apply_sim, velocity_from_client_input,
}
use mmo.CellSvc.Invariant.Lasting.{Lasts, Lasts-refl}

module _ {F : Type 0} ⦃fl : Float F⦄ where
  join_after-Lasts :
      (s : Server F) (sim : Sim F) (pid : Text) (found : Option Entity) (drain : Bool)
      → get s.player_by_id pid ≡ found
      → Lasts none s (join_after s sim pid (reply_for found drain)).0
  unfolding join_commit
  join_after-Lasts s sim pid (some e) drain there = Lasts-refl none s
  join_after-Lasts s sim pid none true absent = Lasts-refl none s
  join_after-Lasts s sim pid none false absent = record {
    lit = λ sim h. (_, refl);
    accepted = λ token e h. h;
    joined = λ q e other h.
        ground
          (arith, get-put s.player_by_id pid (spawn_player sim.world).1 q, eq_iff pid q, absent, h);
  }

  pub join_sim-Lasts :
      (s : Server F) (o : Option (Sim F)) (pid : Text) → Lasts none s (join_sim s o pid).0
  unfolding join_check
  join_sim-Lasts s none pid = Lasts-refl none s
  join_sim-Lasts s (some sim) pid =
      join_after-Lasts s sim pid (get s.player_by_id pid) s.split_drain refl

  apply_to-Lasts :
      (s : Server F) (sim : Sim F) (found : Option Entity) (frozen : Bool) (vel : Velocity F)
      → Lasts none s (apply_to s sim found frozen vel).0
  apply_to-Lasts s sim none frozen vel = Lasts-refl none s
  apply_to-Lasts s sim (some e) true vel = Lasts-refl none s
  apply_to-Lasts s sim (some e) false vel = elim (Bool-cases (has sim.world.positions e)) [
    | inr gone ↦ rw gone (Lasts-refl none s)
    | inl there ↦ rw there (record {
      lit = λ sim h. (_, refl);
      accepted = λ token e h. h;
      joined = λ pid e other h. h;
    })
  ]

  pub apply_sim-Lasts :
      (s : Server F) (o : Option (Sim F)) (pid : Text) (input : ClientInput F)
      → Lasts none s (apply_sim s o pid input).0
  apply_sim-Lasts s none pid input = Lasts-refl none s
  apply_sim-Lasts s (some sim) pid input =
      apply_to-Lasts s sim (get s.player_by_id pid) (has s.frozen_by_id pid)
        (velocity_from_client_input input)
