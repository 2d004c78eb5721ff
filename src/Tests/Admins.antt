-- ===== src/Tests/Admins.antt =====
-- Examples for the theorems about the administration of a cell server.
use mmo.Prelude.{ℕ, ◌≡◌, refl, true, false, some, In, ℕ-Eq, text-Eq}
use mmo.Prelude.Text.{codes, trim_space}
use mmo.Prelude.Dict.{get, has}
use mmo.Ecs.{Entity, Position}
use mmo.CellSvc.{refuse}
use mmo.CellSvc.Players.{join}
use mmo.CellSvc.Admin.{set_split_drain, update, MigrationCandidate, list_migration_candidates}
use mmo.CellSvc.Admin.Drain.{join-update_drain}
use mmo.CellSvc.Admin.Migration.{IsCandidate, list_migration_candidates-IsCandidate}
use mmo.Tests.{whole, small_world, sim_of, busy}

join-update_drain_example :
    let drained = (update busy (set_split_drain true)).0 in
    (join drained (codes "bob") ≡ (drained, refuse (codes "split_drain: new joins disabled")))
    × (join (update drained (set_split_drain false)).0 (codes "bob") ≡ join busy (codes "bob"))
unfolding trim_space get
join-update_drain_example =
    join-update_drain busy (sim_of small_world) (codes "bob") refl refl refl refl

list_migration_candidates-IsCandidate_example :
    ((c : MigrationCandidate ℕ)
      → In c (list_migration_candidates busy)
      → IsCandidate busy small_world c)
    × ((e : Entity) (p : Position ℕ)
        → has small_world.alive e ≡ true
        → get small_world.positions e ≡ some p
        → (c : MigrationCandidate ℕ) × (c.entity_id ≡ e) × In c (list_migration_candidates busy))
list_migration_candidates-IsCandidate_example =
    list_migration_candidates-IsCandidate busy (sim_of small_world) refl
