-- ===== src/Snapshot/RoundTrip.antt =====
-- Decode after Encode (internal/cellsim/snapshot/snapshot.go).
use mmo.Prelude.{
  ◌≡◌, refl, sym, ◌∙◌, ap, Bool, true, false, not, ◌&&◌, ◌||◌, Option, none, some, some_cancel,
  List, [], ◌∷◌, ℕ-Eq, ◌==◌, if◌then◌else◌, In, inl, inr, clash, unset, Bool-cases, Option-cases,
  eq_iff,
}
use mmo.Prelude.Dict.{get, keys, has, In-keys, keys-In}
use mmo.Prelude.Result.{ok}
use mmo.Prelude.Float.{Float, FloatLaws}
use mmo.Ecs.{Entity, Position, Velocity, Health}
use mmo.Ecs.World.{World}
use mmo.CellSvc.{Sim}
use mmo.Snapshot.{
  destroy_all, persisted, encode_entities, restore_all, encode, decode, velocity32, health32,
  read_velocity,
}
use mmo.Snapshot.Restore.{
  Held, held, nothing, restored, IsOwned, IsOnly, destroy_all-empty, restore_all-keeps,
  restore_all-sets,
}

module _ {F : Type 0} ⦃fl : Float F⦄ where
  abbrev pub rounded_velocity : Option (Velocity F) → Velocity F
  rounded_velocity none = record {
    vx = fl.round32 (fl.num 0);
    vy = fl.round32 (fl.num 0);
    vz = fl.round32 (fl.num 0);
  }
  rounded_velocity (some v) = record {
    vx = fl.round32 v.vx;
    vy = fl.round32 v.vy;
    vz = fl.round32 v.vz;
  }

  -- A health is carried where its maximum is positive, also after rounding.
  abbrev pub rounded_health : Option (Health F) → Option (Health F)
  rounded_health none = none
  rounded_health (some h) =
      if fl.lt (fl.num 0) h.max_hp && fl.lt (fl.num 0) (fl.round32 h.max_hp)
      then some (record { hp = fl.round32 h.hp; max_hp = fl.round32 h.max_hp })
      else none

  abbrev pub carried_at : World F → Entity → Option (Position F) → Held F
  carried_at w e none = nothing
  carried_at w e (some p) = record {
    alive = true;
    position = some (record { x = fl.round32 p.x; y = fl.round32 p.y; z = fl.round32 p.z });
    velocity = some (rounded_velocity (get w.velocities e));
    health = rounded_health (get w.healths e);
  }

  -- What a world restored from the encoded one holds of an entity: nothing where the entity is 0,
  -- dead, passed by or without a position, and else its components, rounded.
  abbrev pub carried : World F → (Entity → Bool) → Entity → Held F
  carried w skip e =
      if e == 0 || not (has w.alive e) || skip e
      then nothing
      else carried_at w e (get w.positions e)

  held_eq :
      (p : Option (Position F)) {v v' : Velocity F} {h h' : Option (Health F)}
      → v ≡ v'
      → h ≡ h'
      → ◌≡◌ {A = Held F}
          (record { alive = true; position = p; velocity = some v; health = h })
          (record { alive = true; position = p; velocity = some v'; health = h' })
  held_eq p a b = cc

  pub living : (w : World F) (e : Entity) → has w.alive e ≡ true → In e (keys w.alive)
  living w e h = elim (Option-cases (get w.alive e)) [
    | inl gone ↦ absurd (clash h (rw gone refl))
    | inr (u, there) ↦ In-keys w.alive e u there
  ]

  pub same_restored :
      (w : World F) (d e : Entity) (q p : Position F)
      → (d == e) ≡ true
      → get w.positions d ≡ some q
      → get w.positions e ≡ some p
      → restored (persisted w d q) ≡ restored (persisted w e p)
  same_restored w d e q p same d_at at =
      let eq = (eq_iff d e).0 same in
      let pos = some_cancel (sym (rw eq at d_at) ∙ at) in
      ap (λ (a : Entity × Position F). restored (persisted w a.0 a.1)) (rw (eq, pos) refl)

  module _ (laws : FloatLaws fl) where
    velocity-persisted :
        (v : Option (Velocity F)) → read_velocity (some (velocity32 v)) ≡ rounded_velocity v
    velocity-persisted none = refl
    velocity-persisted (some v) = refl

    health-persisted :
        (h : Option (Health F))
        → (if fl.lt (fl.num 0) (health32 h).1
            then some (record { hp = (health32 h).0; max_hp = (health32 h).1 })
            else none)
          ≡ rounded_health h
    health-persisted none = simp laws.lt_irrefl
    health-persisted (some h) = elim (Bool-cases (fl.lt (fl.num 0) h.max_hp)) [
      | inl e ↦ rw e refl
      | inr e ↦ rw e (simp laws.lt_irrefl)
    ]

    pub restored-persisted :
        (w : World F) (e : Entity) (p : Position F)
        → restored (persisted w e p) ≡ carried_at w e (some p)
    unfolding restored
    restored-persisted w e p =
        held_eq _ (velocity-persisted (get w.velocities e)) (health-persisted (get w.healths e))

    pub encode_entities-IsOnly :
        (w : World F) (skip : Entity → Bool) (es : List Entity) (e : Entity) (v : Held F)
        → ((d : Entity) (q : Position F)
            → In d es
            → skip d ≡ false
            → get w.positions d ≡ some q
            → (d == 0) ≡ false
            → (d == e) ≡ true
            → restored (persisted w d q) ≡ v)
        → IsOnly e v (encode_entities w skip es)
    unfolding encode_entities
    encode_entities-IsOnly w skip [] e v gives = tt
    encode_entities-IsOnly w skip (d ∷ es) e v gives =
        let rest = encode_entities-IsOnly w skip es e v (λ c q i. gives c q (inr i)) in
        elim (Bool-cases (skip d)) [
          | inl sk ↦ rw sk rest
          | inr sk ↦ elim (Option-cases (get w.positions d)) [
            | inl at ↦ rw (sk, at) rest
            | inr (q, at) ↦ rw (sk, at) ((λ nz same. gives d q (inl refl) sk at nz same), rest)
          ]
        ]

    pub encode_entities-In :
        (w : World F) (skip : Entity → Bool) (es : List Entity) (e : Entity) (p : Position F)
        → In e es
        → skip e ≡ false
        → get w.positions e ≡ some p
        → In (some (persisted w e p)) (encode_entities w skip es)
    unfolding encode_entities
    encode_entities-In w skip [] e p i s at = absurd i
    encode_entities-In w skip (d ∷ es) e p (inl same) s at = rw (sym same, s, at) (inl refl)
    encode_entities-In w skip (d ∷ es) e p (inr i) s at =
        let rest = encode_entities-In w skip es e p i s at in
        elim (Bool-cases (skip d)) [
          | inl sk ↦ rw sk rest
          | inr sk ↦ elim (Option-cases (get w.positions d)) [
            | inl none_at ↦ rw (sk, none_at) rest
            | inr (q, q_at) ↦ rw (sk, q_at) (inr rest)
          ]
        ]

    -- The world that Decode leaves holds of each entity what the encoded world carried of it.
    restore-encode :
        (w w0 : World F) (skip : Entity → Bool) (e : Entity)
        → IsOwned w0
        → held
            (restore_all (destroy_all w0 (keys w0.alive)) (encode_entities w skip (keys w.alive)))
            e
          ≡ carried w skip e
    restore-encode w w0 skip e owned =
        let start = destroy_all w0 (keys w0.alive) in
        let ents = encode_entities w skip (keys w.alive) in
        let stays =
          λ (out : (q : Position F)
              → In e (keys w.alive)
              → skip e ≡ false
              → get w.positions e ≡ some q
              → (e == 0) ≡ false
              → ⊥).
            restore_all-keeps start ents e nothing
              (encode_entities-IsOnly w skip (keys w.alive) e nothing (λ d q i s at nz same.
                let eq = (eq_iff d e).0 same in
                absurd (out q (rw eq at i) (rw eq at s) (rw eq at at) (rw eq at nz))))
              (destroy_all-empty w0 e owned) in
        elim (Bool-cases (e == 0)) [
          | inl z ↦ rw z (stays (λ q i s at nz. clash z nz))
          | inr nz ↦ elim (Bool-cases (has w.alive e)) [
            | inr dead ↦ rw (nz, dead) (stays (λ q i s at dz. clash (keys-In w.alive e i) dead))
            | inl lives ↦ elim (Bool-cases (skip e)) [
              | inl sk ↦ rw (nz, lives, sk) (stays (λ q i s at dz. clash sk s))
              | inr sk ↦ elim (Option-cases (get w.positions e)) [
                | inl no_p ↦ rw (nz, lives, sk, no_p) (stays (λ q i s at dz. unset no_p at))
                | inr (p, at) ↦
                    rw (nz, lives, sk, at)
                      (restore_all-sets start ents e (restored (persisted w e p)) (persisted w e p)
                          (encode_entities-IsOnly w skip (keys w.alive) e
                            (restored (persisted w e p))
                            (λ d q i s d_at dz same. same_restored w d e q p same d_at at))
                          nz refl
                          (encode_entities-In w skip (keys w.alive) e p (living w e lives) sk at)
                        ∙ restored-persisted w e p)
              ]
            ]
          ]
        ]

    -- A cell restored from the encoded form of another has the tick counter of the other, its rate
    -- rounded where the rounded rate is positive, and of each entity what the encoded world carries
    -- of it: a living entity that is not passed by and has a position keeps it, its velocity and a
    -- health with a positive maximum, all rounded, and no other entity is in the world. The cell's
    -- own entities are gone, where each of its components belonged to a living entity.
    pub decode-encode :
        (r r0 : Sim F) (skip : Entity → Bool) (e : Entity)
        → IsOwned r0.world
        → (out : Sim F) × (decode r0 (encode (some r) skip) ≡ ok out)
          × (held out.world e ≡ carried r.world skip e)
          × (out.tick_count ≡ r.tick_count)
          × (out.tps ≡ (if fl.lt (fl.num 0) (fl.round32 r.tps) then fl.round32 r.tps else r0.tps))
    unfolding decode encode
    decode-encode r r0 skip e owned =
        (_, refl, restore-encode r.world r0.world skip e owned, refl, refl)
