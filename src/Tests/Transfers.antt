-- ===== src/Tests/Transfers.antt =====
-- Examples for the theorems about persisted cells.
use mmo.Prelude.{
  ℕ, ◌≡◌, refl, Bool, true, false, Option, none, some, List, [], ◌∷◌, ◌++◌, ltb, if◌then◌else◌,
}
use mmo.Prelude.Text.{codes, trim_space}
use mmo.Prelude.Result.{ok}
use mmo.CellSvc.{Sim, Server, is_player}
use mmo.CellSvc.Npc.{PersistCodec, export_npc_persist, import_npc_persist, update_cell}
use mmo.CellSvc.Npc.Transfer.{import-export}
use mmo.Snapshot.{CellPersist, encode, decode}
use mmo.Snapshot.Collide.{merged_collision}
use mmo.Ecs.World.{World}
use mmo.Snapshot.Restore.{held}
use mmo.Snapshot.RoundTrip.{carried, decode-encode}
use mmo.Tests.{whole, whole_laws, root_id, small_world, empty_world, sim_of, server_of, idle}

decode-encode_example :
    (out : Sim ℕ) × (decode (sim_of empty_world) (encode (some (sim_of small_world)) (λ e. false))
      ≡ ok out)
    × (held out.world 1 ≡ carried small_world (λ e. false) 1)
    × (out.tick_count ≡ 7)
    × (out.tps ≡ 20)
unfolding held mmo.Prelude.Dict.get
decode-encode_example =
    decode-encode whole_laws (sim_of small_world) (sim_of empty_world) (λ e. false) 1 (λ e h. refl)

abbrev npc_server : Server ℕ
npc_server = server_of root_id small_world [] []

-- A codec of the one form that the example prints.
abbrev codec : PersistCodec ℕ
codec = record {
  marshal = λ p. some (codes "{}");
  unmarshal = λ raw. some (encode (some (sim_of small_world)) (λ e. false));
}

import-export_example :
    let (s', sent) = update_cell codec npc_server (export_npc_persist (codes "split")) in
    let (t', reply) =
      update_cell codec idle (import_npc_persist sent.npc_export_json (codes "split")) in
    (s' ≡ npc_server)
    × (reply.good ≡ true)
    × ((after : Sim ℕ) × (t'.sim ≡ some after)
        × (held after.world 1 ≡ carried small_world (is_player npc_server) 1))
unfolding mmo.CellSvc.player_count mmo.Prelude.Dict.size held mmo.Prelude.Dict.get trim_space
    is_player
import-export_example =
    import-export whole_laws codec npc_server idle (sim_of small_world) (sim_of empty_world)
      (codes "{}") (codes "split") (codes "split") 1 refl refl refl (λ e h. refl) refl refl refl

-- A world where entity 1 stands elsewhere.
abbrev other_world : World ℕ
other_world = record small_world { positions = (1, record { x = 70; y = 0; z = 80 }) ∷ [] }

abbrev joined : CellPersist ℕ
joined = record {
  schema_version = 1;
  tick = 0;
  loop_tps = 0;
  entities =
      (encode (some (sim_of small_world)) (λ e. false)).entities
      ++ (encode (some (sim_of other_world)) (λ e. false)).entities;
}

merged_collision_example :
    (out : Sim ℕ) × (decode (sim_of empty_world) joined ≡ ok out)
    × (held out.world 1 ≡ carried other_world (λ e. false) 1)
unfolding mmo.Prelude.Dict.get
merged_collision_example =
    merged_collision whole_laws (sim_of small_world) (sim_of other_world) (sim_of empty_world)
      (λ e. false) (λ e. false) joined 1 (record { x = 70; y = 0; z = 80 }) refl refl refl refl refl
      refl
