-- ===== src/Forward/Moves.antt =====
-- The whole handoff of a player (internal/grpc/registrysvc/forward_player.go,
-- internal/grpc/cellsvc/server.go).
use mmo.Prelude.{
  ◌+◌, ◌^◌, ◌<◌, ◌≡◌, refl, ◌∙◌, ap, true, false, ◌||◌, none, some, arith, ℕ-Eq, text-Eq, ◌==◌,
  eq_refl,
}
use mmo.Prelude.Result.{ok}
use mmo.Prelude.Text.{Text, codes, trim_space, is_empty}
use mmo.Prelude.Dict.{get, has, get-put_self, get-remove_self}
use mmo.Prelude.Float.{Float}
use mmo.Ecs.{Entity, Position}
use mmo.Ecs.World.{create_entity, destroy_entity, set_position, set_velocity, set_health, u64}
use mmo.Cell.{CellSpec}
use mmo.CellSvc.{Sim, Server, Reply, accept, PlayerHandoffState, PreparedPlayerHandoff}
use mmo.CellSvc.Handoff.{
  Clock, PrepareReply, prune_stale_prepared, freeze, prepare_capture, payload_of,
  prepare_player_handoff, accept_place, accept_player_handoff, finish_tables, finish_player,
  finalize_player_handoff,
}
use mmo.CellSvc.Players.{still}
use mmo.CellSvc.Handoff.Tokens.{prepare_new, accept_unknown, finalize_going}
use mmo.CellSvc.Invariant.Handoff.{prune_entries-SameRoster}
use mmo.Forward.{answered, Net, ForwardRequest, Forwarded, after_accept, forward_player_handoff}

-- The ids of a request that passes the checks, and have no space around them.
pub record IsClean (req : ForwardRequest) : Type 0 where
  pub child_id : trim_space req.child_cell_id ≡ req.child_cell_id
  pub player_id : trim_space req.player_id ≡ req.player_id
  pub token : trim_space req.handoff_token ≡ req.handoff_token
  pub given :
      (is_empty (trim_space req.parent_cell_id)
        || is_empty req.child_cell_id
        || is_empty req.player_id
        || is_empty req.handoff_token)
      ≡ false
  pub apart : (trim_space req.parent_cell_id == req.child_cell_id) ≡ false

module _ {F : Type 0} where
  -- Both cells can be dialled, and every call is answered.
  pub record IsUp (net : Net F) (pspec cspec : CellSpec F) : Type 0 where
    pub parent : net.parent_spec ≡ some pspec
    pub child : net.child_spec ≡ some cspec
    pub preparing : net.preparing ≡ answered
    pub accepting : net.accepting ≡ answered
    pub finalizing : net.finalizing ≡ answered

  -- The player is an entity of the parent's world with a position, and in no handoff, and the token
  -- is new there.
  pub record IsReady (s : Server F) (sim : Sim F) (pid token : Text) (e : Entity) (pos : Position F)
      : Type 0 where
    pub here : s.sim ≡ some sim
    pub there : get s.player_by_id pid ≡ some e
    pub placed : get sim.world.positions e ≡ some pos
    pub idle : get s.prepared_by_id pid ≡ none
    pub new : get s.prepared_by_tk token ≡ none

  -- The child does not know the player or the token, and its world has an id left.
  pub record IsOpen (s : Server F) (sim : Sim F) (pid token : Text) : Type 0 where
    pub here : s.sim ≡ some sim
    pub absent : get s.player_by_id pid ≡ none
    pub new : get s.accepted_by_tk token ≡ none
    pub room : sim.world.next_id + 1 < 2 ^ 64

module _ {F : Type 0} ⦃fl : Float F⦄ where
  finalize-accepted :
      (net : Net F) (p c : Server F) (sim : Sim F) (pid token : Text) (pp : PreparedPlayerHandoff F)
      (e : Entity) (r : Reply)
      → net.finalizing ≡ answered
      → trim_space pid ≡ pid
      → trim_space token ≡ token
      → (is_empty pid || is_empty token) ≡ false
      → p.sim ≡ some sim
      → get p.prepared_by_tk token ≡ some pp
      → pp.player_id ≡ pid
      → pp.finalized ≡ false
      → get p.player_by_id pid ≡ some e
      → r.ok ≡ true
      → (r.entity_id == 0) ≡ false
      → after_accept net p c pid token (some r) ≡ (
        (finish_player (finish_tables p pid token pp) sim pid pp.entity_id (some e), c),
        ok r.entity_id,
      )
  finalize-accepted net p c sim pid token pp e r up trim trim_token given here known own going there
        good id =
      let step : finalize_player_handoff p pid token ≡ (
        finish_player (finish_tables p pid token pp) sim pid pp.entity_id (some e),
        accept (codes "finalized"),
      ) =
        finalize_going p sim pid token pp (rw (trim, trim_token) given) here (rw trim_token known)
          (rw (trim, own) (eq_refl pid)) going
        ∙ simp (trim, trim_token, there) in
      simp (good, id, up, step)

  -- The payload that the parent hands out, as the registry sends it on.
  abbrev sent :
      Server F
      → Sim F
      → CellSpec F
      → CellSpec F
      → ForwardRequest
      → Entity
      → Position F
      → PlayerHandoffState F
  sent s sim pspec cspec req e pos =
      record (payload_of s sim req.player_id req.child_cell_id req.handoff_token e pos) {
        source_cell_id = pspec.id;
        target_cell_id = cspec.id;
        handoff_token = req.handoff_token;
      }

  -- The parent after Prepare.
  abbrev prepared :
      Server F → Sim F → Clock → ForwardRequest → Entity → Position F → Server F × PrepareReply F
  prepared s sim now req e pos =
      prepare_capture
        (freeze (prune_stale_prepared now.pruned_at s) req.player_id req.handoff_token) sim
        now.prepared_at req.player_id req.child_cell_id req.handoff_token e (some pos)

  forward-accepted :
      (net : Net F) (pspec cspec : CellSpec F) (now : Clock) (p c : Server F) (sim csim : Sim F)
      (req : ForwardRequest) (e : Entity) (pos : Position F)
      → IsUp net pspec cspec
      → IsClean req
      → IsReady p sim req.player_id req.handoff_token e pos
      → IsOpen c csim req.player_id req.handoff_token
      → let p1 = (prepared p sim now req e pos).0 in
        let c1 =
          accept_place c csim
            (sent (prune_stale_prepared now.pruned_at p) sim pspec cspec req e pos)
            req.player_id
            req.handoff_token in
        forward_player_handoff net now p c req
        ≡ after_accept net p1 c1.0 req.player_id req.handoff_token (some c1.1)
  unfolding forward_player_handoff prepare_capture
  forward-accepted net pspec cspec now p c sim csim req e pos up clean ready open_child =
      let payload = sent (prune_stale_prepared now.pruned_at p) sim pspec cspec req e pos in
      let blank : (is_empty req.player_id
            || is_empty req.child_cell_id
            || is_empty req.handoff_token)
          ≡ false =
        ground (arith, clean.given) in
      let step : prepare_player_handoff p now req.player_id req.child_cell_id req.handoff_token
          ≡ prepared p sim now req e pos =
        prepare_new p sim now req.player_id req.child_cell_id req.handoff_token e pos
          (rw (clean.player_id, clean.child_id, clean.token) blank) ready.here
          (rw clean.player_id ready.there) ready.placed (rw clean.player_id ready.idle)
          (rw clean.token ready.new)
        ∙ simp (clean.child_id, clean.player_id, clean.token) in
      let next : accept_player_handoff c (some payload)
          ≡ accept_place c csim payload req.player_id req.handoff_token =
        accept_unknown c csim payload
          (rw (clean.player_id, clean.token) (ground (arith, clean.given))) open_child.here
          (rw clean.token open_child.new)
        ∙ simp (clean.player_id, clean.token) in
      simp (
        clean.child_id, clean.player_id, clean.token, clean.given, clean.apart, up.parent, up.child,
        up.preparing, up.accepting, step, next,
      )

  -- The result of a handoff that went through.
  pub record IsMoved (result : Forwarded F) (pid : Text) (e new : Entity) (pos : Position F)
      : Type 0 where
    pub replied : result.1 ≡ ok new
    pub gone : get result.0.0.player_by_id pid ≡ none
    pub thawed : has result.0.0.frozen_by_id pid ≡ false
    pub there : get result.0.1.player_by_id pid ≡ some new
    pub placed :
        (sim : Sim F) × (result.0.1.sim ≡ some sim)
        × (get sim.world.positions new
            ≡ some (record { x = fl.round32 pos.x; y = fl.round32 pos.y; z = fl.round32 pos.z }))
    pub destroyed : (sim : Sim F) × (result.0.0.sim ≡ some sim) × (has sim.world.alive e ≡ false)

  -- With every call answered and ids that have no space around them, the handoff of a player who is
  -- in the parent's world and in no other handoff, under a token that neither cell has seen and to a
  -- child that does not have the player, succeeds: the player is gone from the parent, its entity
  -- destroyed, and is in the child as a new entity, at the position rounded to 32 bits.
  pub forward_player_handoff-IsMoved :
      (net : Net F) (pspec cspec : CellSpec F) (now : Clock) (p c : Server F) (sim csim : Sim F)
      (req : ForwardRequest) (e : Entity) (pos : Position F)
      → IsUp net pspec cspec
      → IsClean req
      → IsReady p sim req.player_id req.handoff_token e pos
      → IsOpen c csim req.player_id req.handoff_token
      → IsMoved
          (forward_player_handoff net now p c req)
          req.player_id
          e
          (csim.world.next_id + 1)
          pos
  unfolding prepare_capture accept_place prune_stale_prepared create_entity set_position
      set_velocity set_health destroy_entity
  forward_player_handoff-IsMoved net pspec cspec now p c sim csim req e pos up clean ready
        open_child =
      let pid = req.player_id in
      let token = req.handoff_token in
      let t = prune_stale_prepared now.pruned_at p in
      let kept = prune_entries-SameRoster now.pruned_at p.prepared_by_id p in
      let p1 = (prepared p sim now req e pos).0 in
      let c1 = accept_place c csim (sent t sim pspec cspec req e pos) pid token in
      let pp : PreparedPlayerHandoff F = record {
        player_id = pid;
        token = token;
        entity_id = e;
        finalized = false;
        created_at = now.prepared_at;
        payload = payload_of (freeze t pid token) sim pid req.child_cell_id token e pos;
      } in
      let new : u64 (csim.world.next_id + 1) ≡ csim.world.next_id + 1 =
        omega (arith, open_child.room) in
      let id : c1.1.entity_id ≡ csim.world.next_id + 1 = rw open_child.absent new in
      let first =
        forward-accepted net pspec cspec now p c sim csim req e pos up clean ready open_child in
      let last =
        finalize-accepted net p1 c1.0 (record sim { world = set_velocity sim.world e still }) pid
          token pp e c1.1 up.finalizing clean.player_id clean.token (ground (arith, clean.given))
          refl (get-put_self t.prepared_by_tk token pp) refl refl (rw kept.player_by_id ready.there)
          refl (rw id (ground arith)) in
      rw (first ∙ last) (record {
        replied = ap ok id;
        gone = get-remove_self p1.player_by_id pid;
        thawed = rw (get-remove_self p1.frozen_by_id pid) refl;
        there = rw (open_child.absent, new) (get-put_self c.player_by_id pid _);
        placed = rw (open_child.absent, new) (_, refl, get-put_self csim.world.positions _ _);
        destroyed = (_, refl, rw (get-remove_self sim.world.alive e) refl);
      })
