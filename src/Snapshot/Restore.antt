-- ===== src/Snapshot/Restore.antt =====
-- What the loops of Decode leave in the world (internal/cellsim/snapshot/snapshot.go).
use mmo.Prelude.{
  ◌≡◌, refl, sym, ◌∙◌, ap, Bool, true, false, Option, none, some, some_cancel, List, [], ◌∷◌, ℕ-Eq,
  ◌==◌, if◌then◌else◌, In, inl, inr, Bool-cases, Option-cases, eq_refl,
}
use mmo.Prelude.Dict.{get, keys, get-put, get-remove, has, In-keys}
use mmo.Prelude.Float.{Float}
use mmo.Ecs.{Entity, Position, Velocity, Health}
use mmo.Ecs.World.{World, destroy_entity, restore_persist_entity}
use mmo.Snapshot.{
  CellPersistEntity, destroy_all, restore_one, restore_all, read_position, read_velocity,
}

-- What the world holds of an entity.
pub record Held (F : Type 0) : Type 0 where
  pub alive : Bool
  pub position : Option (Position F)
  pub velocity : Option (Velocity F)
  pub health : Option (Health F)

module _ {F : Type 0} where
  unfoldable pub held : World F → Entity → Held F
  held w e = record {
    alive = has w.alive e;
    position = get w.positions e;
    velocity = get w.velocities e;
    health = get w.healths e;
  }

  abbrev pub nothing : Held F
  nothing = record { alive = false; position = none; velocity = none; health = none }

  held-destroy :
      (w : World F) (d e : Entity)
      → held (destroy_entity w d) e ≡ (if d == e then nothing else held w e)
  unfolding held destroy_entity
  held-destroy w d e = elim (Bool-cases (d == e)) [
    | inl same ↦ simp (get-remove, same)
    | inr other ↦ simp (get-remove, other)
  ]

  destroy_all-nothing :
      (w : World F) (es : List Entity) (e : Entity)
      → held w e ≡ nothing
      → held (destroy_all w es) e ≡ nothing
  unfolding destroy_all
  destroy_all-nothing w [] e h = h
  destroy_all-nothing w (d ∷ es) e h =
      destroy_all-nothing (destroy_entity w d) es e
        (held-destroy w d e ∙ elim (Bool-cases (d == e)) [ inl s ↦ rw s refl | inr o ↦ rw o h ])

  -- An entity of the list is gone.
  destroy_all-In :
      (w : World F) (es : List Entity) (e : Entity) → In e es → held (destroy_all w es) e ≡ nothing
  unfolding destroy_all
  destroy_all-In w [] e i = absurd i
  destroy_all-In w (d ∷ es) e (inl same) =
      destroy_all-nothing (destroy_entity w d) es e
        (held-destroy w d e ∙ rw (sym same, eq_refl e) refl)
  destroy_all-In w (d ∷ es) e (inr i) = destroy_all-In (destroy_entity w d) es e i

  -- A component belongs to a living entity.
  abbrev pub IsOwned : World F → Type 0
  IsOwned w = (e : Entity) → has w.alive e ≡ false → held w e ≡ nothing

  pub destroy_all-empty :
      (w : World F) (e : Entity) → IsOwned w → held (destroy_all w (keys w.alive)) e ≡ nothing
  destroy_all-empty w e owned = elim (Option-cases (get w.alive e)) [
    | inl gone ↦ destroy_all-nothing w (keys w.alive) e (owned e (rw gone refl))
    | inr (u, there) ↦ destroy_all-In w (keys w.alive) e (In-keys w.alive e u there)
  ]

module _ {F : Type 0} ⦃fl : Float F⦄ where
  -- What Decode makes of a persisted entity.
  unfoldable pub restored : CellPersistEntity F → Held F
  restored ent = record {
    alive = true;
    position = some (read_position ent.position);
    velocity = some (read_velocity ent.velocity);
    health =
        if fl.lt (fl.num 0) ent.hp_max
        then some (record { hp = ent.hp_cur; max_hp = ent.hp_max })
        else none;
  }

  pub held-restore_one :
      (w : World F) (ent : CellPersistEntity F) (e : Entity)
      → (ent.entity_id == 0) ≡ false
      → held (restore_one w (some ent)) e ≡ (if ent.entity_id == e then restored ent else held w e)
  unfolding held restored restore_persist_entity
  held-restore_one w ent e nonzero = elim (Bool-cases (ent.entity_id == e)) [
    | inl s ↦ elim (Bool-cases (fl.lt (fl.num 0) ent.hp_max)) [
      | inl p ↦ simp (nonzero, get-put, s, p)
      | inr p ↦ simp (nonzero, get-put, get-remove, s, p)
    ]
    | inr s ↦ elim (Bool-cases (fl.lt (fl.num 0) ent.hp_max)) [
      | inl p ↦ simp (nonzero, get-put, s, p)
      | inr p ↦ simp (nonzero, get-put, get-remove, s, p)
    ]
  ]

  -- Each entry of the entity restores the same.
  abbrev pub IsOnly : Entity → Held F → List (Option (CellPersistEntity F)) → Type 0
  IsOnly e v [] = Unit
  IsOnly e v (none ∷ ents) = IsOnly e v ents
  IsOnly e v (some ent ∷ ents) =
      ((ent.entity_id == 0) ≡ false → (ent.entity_id == e) ≡ true → restored ent ≡ v)
      × IsOnly e v ents

  pub restore_all-keeps :
      (w : World F) (ents : List (Option (CellPersistEntity F))) (e : Entity) (v : Held F)
      → IsOnly e v ents
      → held w e ≡ v
      → held (restore_all w ents) e ≡ v
  unfolding restore_all
  restore_all-keeps w [] e v only h = h
  restore_all-keeps w (none ∷ ents) e v only h = restore_all-keeps w ents e v only h
  restore_all-keeps w (some ent ∷ ents) e v only h =
      restore_all-keeps (restore_one w (some ent)) ents e v only.1
        (elim (Bool-cases (ent.entity_id == 0)) [
          | inl z ↦ rw z h
          | inr nz ↦ held-restore_one w ent e nz ∙ elim (Bool-cases (ent.entity_id == e)) [
            | inl s ↦ rw s (only.0 nz s)
            | inr o ↦ rw o h
          ]
        ])

  pub restore_all-sets :
      (w : World F) (ents : List (Option (CellPersistEntity F))) (e : Entity) (v : Held F)
      (ent : CellPersistEntity F)
      → IsOnly e v ents
      → (e == 0) ≡ false
      → ent.entity_id ≡ e
      → In (some ent) ents
      → held (restore_all w ents) e ≡ v
  unfolding restore_all
  restore_all-sets w [] e v ent only nz same i = absurd i
  restore_all-sets w (none ∷ ents) e v ent only nz same (inl c) = cc
  restore_all-sets w (none ∷ ents) e v ent only nz same (inr i) =
      restore_all-sets w ents e v ent only nz same i
  restore_all-sets w (some first ∷ ents) e v ent only nz same (inl c) =
      let id = ap (λ (x : CellPersistEntity F). x.entity_id) (sym (some_cancel c)) ∙ same in
      let here : (first.entity_id == e) ≡ true = rw id (eq_refl e) in
      let nonzero : (first.entity_id == 0) ≡ false = rw id nz in
      restore_all-keeps (restore_one w (some first)) ents e v only.1
        (held-restore_one w first e nonzero ∙ rw here (only.0 nonzero here))
  restore_all-sets w (some first ∷ ents) e v ent only nz same (inr i) =
      restore_all-sets (restore_one w (some first)) ents e v ent only.1 nz same i
