-- ===== src/CellSvc/Admin/Drain.antt =====
-- The preparations of a split and a merge, and the drain before a split
-- (internal/grpc/cellsvc/server.go: Update, PlanSplit, Join).
use mmo.Prelude.{◌≡◌, true, false, none, some, ℕ-Eq, text-Eq}
use mmo.Prelude.Text.{Text, codes, trim_space, is_empty}
use mmo.Prelude.Dict.{get}
use mmo.Prelude.Float.{Float}
use mmo.CellSvc.{Sim, Server, refuse}
use mmo.CellSvc.Players.{join, join_check}
use mmo.CellSvc.Admin.{set_split_drain, update}

module _ {F : Type 0} ⦃fl : Float F⦄ where
  -- While the drain is on, a player who is not on the server cannot join it, and nothing changes;
  -- once it is off, the server answers a Join as if it had never been on.
  pub join-update_drain :
      (s : Server F) (sim : Sim F) (player_id : Text)
      → s.sim ≡ some sim
      → is_empty (trim_space player_id) ≡ false
      → get s.player_by_id (trim_space player_id) ≡ none
      → s.split_drain ≡ false
      → let drained = (update s (set_split_drain true)).0 in
        (join drained player_id ≡ (drained, refuse (codes "split_drain: new joins disabled")))
        × (join (update drained (set_split_drain false)).0 player_id ≡ join s player_id)
  unfolding update join join_check
  join-update_drain s sim player_id here given absent off =
      (simp (given, here, absent), simp (given, here, absent, off))
