-- ===== src/CellSvc/Npc.antt =====
-- The export and the import of NPCs within Update (internal/grpc/cellsvc/server.go). The JSON codec of
-- the protobuf library is a parameter; none stands for its error.
pub mod Transfer
use mmo.Prelude.{
  ℕ, Bool, true, false, ◌||◌, not, Option, none, some, List, [], ◌∷◌, length, ltb, if◌then◌else◌,
}
use mmo.Prelude.Text.{Text, codes, trim_space, is_empty}
use mmo.Prelude.Result.{Result, ok, err}
use mmo.Prelude.Float.{Float}
use mmo.CellSvc.{Sim, Server, player_count, is_player}
use mmo.CellSvc.Admin.{UpdateRequest, UpdateMessage, UpdateReply, update}
use mmo.Snapshot.{CellPersist, DecodeError, encode, decode}

pub record PersistCodec (F : Type 0) : Type 0 where
  pub marshal : CellPersist F → Option Text
  pub unmarshal : Text → Option (CellPersist F)

-- The payloads of UpdateRequest.
pub data CellUpdate (F : Type 0) : Type 0 where
  export_npc_persist : Text → CellUpdate F
  import_npc_persist : Text → Text → CellUpdate F
  admin_update : UpdateRequest F → CellUpdate F

pub data CellMessage : Type 0 where
  fixed : Text → CellMessage
  exported : ℕ → Text → CellMessage
  imported : ℕ → Text → CellMessage
  decode_failed : DecodeError → CellMessage
  of_admin : UpdateMessage → CellMessage

-- UpdateResponse
pub record CellReply : Type 0 where
  pub good : Bool
  pub message : CellMessage
  pub npc_export_json : Text

abbrev pub failed : CellMessage → CellReply
failed message = record { good = false; message = message; npc_export_json = [] }

abbrev pub export_reply : ℕ → Text → Option Text → CellReply
export_reply n reason none = failed (fixed (codes "marshal"))
export_reply n reason (some raw) = record {
  good = true;
  message = exported n (trim_space reason);
  npc_export_json = raw;
}

module _ {F : Type 0} ⦃fl : Float F⦄ (codec : PersistCodec F) where
  abbrev pub export_sim : Server F → Option (Sim F) → Text → CellReply
  export_sim s none reason = failed (fixed (codes "no_sim"))
  export_sim s (some sim) reason =
      let persist = encode (some sim) (is_player s) in
      export_reply (length persist.entities) reason (codec.marshal persist)

  abbrev pub import_decoded :
      Server F → ℕ → Text → Result DecodeError (Sim F) → Server F × CellReply
  import_decoded s n reason (err e) = (s, failed (decode_failed e))
  import_decoded s n reason (ok sim) = (
    record s { sim = some sim },
    record { good = true; message = imported n (trim_space reason); npc_export_json = [] },
  )

  abbrev pub import_persist :
      Server F → Sim F → Text → Option (CellPersist F) → Server F × CellReply
  import_persist s sim reason none = (s, failed (fixed (codes "json")))
  import_persist s sim reason (some persist) =
      import_decoded s (length persist.entities) reason (decode sim persist)

  abbrev pub import_sim : Server F → Option (Sim F) → Text → Text → Server F × CellReply
  import_sim s none json reason = (s, failed (fixed (codes "no_sim")))
  import_sim s (some sim) json reason =
      let raw = trim_space json in
      if ltb 0 (player_count s)
      then (s, failed (fixed (codes "import_npc_persist blocked: players connected")))
      else if is_empty raw
      then (s, failed (fixed (codes "empty npc_import_json")))
      else import_persist s sim reason (codec.unmarshal raw)

  abbrev pub admin_reply : Server F × UpdateReply → Server F × CellReply
  admin_reply (s, r) =
      (s, record { good = r.good; message = of_admin r.message; npc_export_json = [] })

  -- Update with all its payloads.
  unfoldable pub update_cell : Server F → CellUpdate F → Server F × CellReply
  update_cell s (export_npc_persist reason) = (s, export_sim s s.sim reason)
  update_cell s (import_npc_persist json reason) = import_sim s s.sim json reason
  update_cell s (admin_update req) = admin_reply (update s req)
