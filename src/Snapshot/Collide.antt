-- ===== src/Snapshot/Collide.antt =====
-- Two exports that are restored one after the other, as in the merge of cells
-- (internal/cellsim/snapshot/snapshot.go: Decode; internal/grpc/registrysvc/forward_merge.go:
-- ForwardMergeHandoff).
use mmo.Prelude.{
  ◌≡◌, refl, ◌∙◌, ap, Bool, true, false, Option, some, List, [], ◌∷◌, ◌++◌, ℕ-Eq, ◌==◌,
  if◌then◌else◌,
}
use mmo.Prelude.Dict.{get, keys, has}
use mmo.Prelude.Result.{ok}
use mmo.Prelude.Float.{Float, FloatLaws}
use mmo.Ecs.{Entity, Position}
use mmo.Ecs.World.{World}
use mmo.CellSvc.{Sim}
use mmo.Snapshot.{
  CellPersist, CellPersistEntity, destroy_all, persisted, encode, encode_entities, restore_one,
  restore_all, decode, schema_version_now,
}
use mmo.Snapshot.Restore.{held, restored, restore_all-sets}
use mmo.Snapshot.RoundTrip.{
  carried, encode_entities-IsOnly, encode_entities-In, restored-persisted, same_restored, living,
}

module _ {F : Type 0} ⦃fl : Float F⦄ where
  restore_all-append :
      (w : World F) (xs ys : List (Option (CellPersistEntity F)))
      → restore_all w (xs ++ ys) ≡ restore_all (restore_all w xs) ys
  unfolding restore_all
  restore_all-append w [] ys = refl
  restore_all-append w (x ∷ xs) ys = restore_all-append (restore_one w x) xs ys

  module _ (laws : FloatLaws fl) where
    -- Where the exports of two cells are joined and restored in a third one, and the second cell has
    -- an NPC under an id, the third one holds that NPC of the second cell under the id, whatever NPC
    -- the first cell has under the same id.
    pub merged_collision :
        (r r' there : Sim F) (skip skip' : Entity → Bool) (joined : CellPersist F) (e : Entity)
        (p : Position F)
        → joined.schema_version ≡ schema_version_now
        → joined.entities ≡ (encode (some r) skip).entities ++ (encode (some r') skip').entities
        → (e == 0) ≡ false
        → has r'.world.alive e ≡ true
        → skip' e ≡ false
        → get r'.world.positions e ≡ some p
        → (out : Sim F) × (decode there joined ≡ ok out)
          × (held out.world e ≡ carried r'.world skip' e)
    unfolding decode encode
    merged_collision r r' there skip skip' joined e p now parts nz lives kept at =
        let w = r'.world in
        let start =
          restore_all (destroy_all there.world (keys there.world.alive))
            (encode_entities r.world skip (keys r.world.alive)) in
        let ents = encode_entities w skip' (keys w.alive) in
        let set =
          restore_all-sets start ents e (restored (persisted w e p)) (persisted w e p)
            (encode_entities-IsOnly laws w skip' (keys w.alive) e (restored (persisted w e p))
              (λ d q i s d_at dz same. same_restored w d e q p same d_at at))
            nz refl (encode_entities-In laws w skip' (keys w.alive) e p (living w e lives) kept at)
          ∙ restored-persisted laws w e p in
        let after : Sim F = record {
          world = restore_all (destroy_all there.world (keys there.world.alive)) joined.entities;
          tps = if fl.lt (fl.num 0) joined.loop_tps then joined.loop_tps else there.tps;
          tick_count = joined.tick;
        } in
        (
          after,
          rw now refl,
          rw (parts, nz, lives, kept, at) (ap (λ x. held x e) (restore_all-append _ _ ents) ∙ set),
        )
