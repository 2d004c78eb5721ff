-- ===== src/CellSvc/Npc/Transfer.antt =====
-- NPCs that one cell exports and another imports (internal/grpc/cellsvc/server.go: Update).
use mmo.Prelude.{◌≡◌, refl, true, false, some, length, ltb}
use mmo.Prelude.Text.{Text, trim_space, is_empty}
use mmo.Prelude.Result.{ok}
use mmo.Prelude.Float.{Float, FloatLaws}
use mmo.Ecs.{Entity}
use mmo.CellSvc.{Sim, Server, player_count, is_player}
use mmo.CellSvc.Npc.{
  PersistCodec, export_npc_persist, import_npc_persist, update_cell, export_reply, import_decoded,
}
use mmo.Snapshot.{CellPersist, encode, decode}
use mmo.Snapshot.Restore.{held, IsOwned}
use mmo.Snapshot.RoundTrip.{carried, decode-encode}

module _ {F : Type 0} ⦃fl : Float F⦄ (laws : FloatLaws fl) (codec : PersistCodec F) where
  update-export :
      (s : Server F) (sim : Sim F) (raw reason : Text)
      → s.sim ≡ some sim
      → codec.marshal (encode (some sim) (is_player s)) ≡ some raw
      → update_cell codec s (export_npc_persist reason)
        ≡ (s, export_reply (length (encode (some sim) (is_player s)).entities) reason (some raw))
  unfolding update_cell
  update-export s sim raw reason s_sim prints = simp (s_sim, prints)

  update-import :
      (t : Server F) (there after : Sim F) (persist : CellPersist F) (raw why : Text)
      → t.sim ≡ some there
      → ltb 0 (player_count t) ≡ false
      → is_empty (trim_space raw) ≡ false
      → codec.unmarshal (trim_space raw) ≡ some persist
      → decode there persist ≡ ok after
      → update_cell codec t (import_npc_persist raw why)
        ≡ import_decoded codec t (length persist.entities) why (ok after)
  unfolding update_cell
  update-import t there after persist raw why t_sim free full reads decodes =
      simp (t_sim, free, full, reads, decodes)

  -- Take two cells with a simulation, the second without players and with a world in which only living
  -- entities have components, a codec that prints the exported form of the first as a text that is
  -- not blank and reads it back, and a float64 with the laws of Prelude/Float. Then the export changes
  -- nothing in the first cell, an import of the printed text by the second succeeds, and it leaves in
  -- the second one's world of each entity what the first one's world carries of it, with the players
  -- passed by.
  pub import-export :
      (s t : Server F) (sim there : Sim F) (raw reason why : Text) (e : Entity)
      → s.sim ≡ some sim
      → t.sim ≡ some there
      → ltb 0 (player_count t) ≡ false
      → IsOwned there.world
      → codec.marshal (encode (some sim) (is_player s)) ≡ some raw
      → is_empty (trim_space raw) ≡ false
      → codec.unmarshal (trim_space raw) ≡ some (encode (some sim) (is_player s))
      → let (s', sent) = update_cell codec s (export_npc_persist reason) in
        let (t', reply) = update_cell codec t (import_npc_persist sent.npc_export_json why) in
        (s' ≡ s)
        × (reply.good ≡ true)
        × ((after : Sim F) × (t'.sim ≡ some after)
            × (held after.world e ≡ carried sim.world (is_player s) e))
  import-export s t sim there raw reason why e s_sim t_sim free owned prints full reads =
      let (after, decodes, holds, ticks, rate) =
        decode-encode laws sim there (is_player s) e owned in
      rw (update-export s sim raw reason s_sim prints) (
        rw (update-import t there after _ raw why t_sim free full reads decodes)
          (refl, refl, (after, refl, holds)))
