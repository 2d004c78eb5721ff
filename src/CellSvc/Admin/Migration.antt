-- ===== src/CellSvc/Admin/Migration.antt =====
-- ListMigrationCandidates (internal/grpc/cellsvc/server.go).
use mathlib.Core.Path.{subst}
use mmo.Prelude.{
  ◌≡◌, refl, sym, ◌∙◌, ap, Bool, true, false, if◌then◌else◌, Option, none, some, List, [], ◌∷◌, In,
  ℕ-Eq, text-Eq, arith, ◌⊎◌, inl, inr, Option-cases, eq_iff, clash, ◌==◌,
}
use mmo.Prelude.Dict.{Dict, get, has, keys, keys-In, In-keys}
use mmo.Prelude.Float.{Float}
use mmo.Ecs.{Entity, Position}
use mmo.Ecs.World.{World}
use mmo.Prelude.Text.{Text}
use mmo.CellSvc.{Sim, Server, is_player, player_id_of, player_id_by_entity}
use mmo.CellSvc.Admin.{
  MigrationCandidate, candidate_at, add_candidate, candidates, list_migration_candidates,
}

-- The text is the id of a player with the entity, or it is empty and no player has the entity.
abbrev pub IsNamed : Dict Text Entity → Entity → Text → Type 0
IsNamed m e id = In (id, e) m ⊎ (id ≡ []) × ((pid : Text) → In (pid, e) m → ⊥)

first_differs :
    (pid q : Text) (x e : Entity) (m : Dict Text Entity)
    → (x == e) ≡ false
    → (In (q, e) m → ⊥)
    → In (q, e) ((pid, x) ∷ m)
    → ⊥
first_differs pid q x e m other absent (inl same) =
    clash ((eq_iff x e).1 (sym (ap (λ (a : Text × Entity). a.1) same))) other
first_differs pid q x e m other absent (inr i) = absent i

player_id_of-first :
    (pid : Text) (x e : Entity) (m : Dict Text Entity)
    → player_id_of ((pid, x) ∷ m) e ≡ (if x == e then pid else player_id_of m e)
unfolding player_id_of
player_id_of-first pid x e m = refl

player_id_of-none : (e : Entity) → player_id_of [] e ≡ []
unfolding player_id_of
player_id_of-none e = refl

player_id_of-IsNamed : (m : Dict Text Entity) (e : Entity) → IsNamed m e (player_id_of m e)
player_id_of-IsNamed [] e = inr (player_id_of-none e, λ pid i. i)
player_id_of-IsNamed ((pid, x) ∷ m) e =
    subst (IsNamed ((pid, x) ∷ m) e) (sym (player_id_of-first pid x e m))
      (choose (x == e) refl (player_id_of-IsNamed m e))
  where
    choose :
        (t : Bool)
        → (x == e) ≡ t
        → IsNamed m e (player_id_of m e)
        → IsNamed ((pid, x) ∷ m) e (if t then pid else player_id_of m e)
    choose true same n = inl (inl (ap (λ a. (pid, a)) (sym ((eq_iff x e).0 same))))
    choose false other (inl i) = inl (inr i)
    choose false other (inr (empty, absent)) =
        inr (empty, λ q. first_differs pid q x e m other (absent q))

module _ {F : Type 0} ⦃fl : Float F⦄ where
  abbrev IsAt : Server F → World F → MigrationCandidate F → Type 0
  IsAt s w c =
      (p : Position F) × (get w.positions c.entity_id ≡ some p) × (c ≡ candidate_at s c.entity_id p)

  add_candidate_sound :
      (s : Server F) (w : World F) (e : Entity) (o : Option (Position F))
      (rest : List (MigrationCandidate F)) (c : MigrationCandidate F)
      → get w.positions e ≡ o
      → In c (add_candidate s e o rest)
      → ((c.entity_id ≡ e) × IsAt s w c) ⊎ In c rest
  add_candidate_sound s w e none rest c at h = inr h
  add_candidate_sound s w e (some p) rest c at (inl same) =
      let id : c.entity_id ≡ e = ap (λ (x : MigrationCandidate F). x.entity_id) same in
      inl (id, (p, ap (get w.positions) id ∙ at, same ∙ ap (λ x. candidate_at s x p) (sym id)))
  add_candidate_sound s w e (some p) rest c at (inr h) = inr h

  candidates_sound :
      (s : Server F) (w : World F) (es : List Entity) (c : MigrationCandidate F)
      → In c (candidates s w es)
      → In c.entity_id es × IsAt s w c
  unfolding candidates
  candidates_sound s w [] c h = absurd h
  candidates_sound s w (e ∷ es) c h =
      elim (add_candidate_sound s w e (get w.positions e) (candidates s w es) c refl h) [
        | inl here ↦ (inl here.0, here.1)
        | inr there ↦ let (k, found) = candidates_sound s w es c there in (inr k, found)
      ]

  add_candidate_keeps :
      (s : Server F) (e : Entity) (o : Option (Position F)) (rest : List (MigrationCandidate F))
      (c : MigrationCandidate F)
      → In c rest
      → In c (add_candidate s e o rest)
  add_candidate_keeps s e none rest c h = h
  add_candidate_keeps s e (some p) rest c h = inr h

  candidates_complete :
      (s : Server F) (w : World F) (es : List Entity) (e : Entity) (p : Position F)
      → In e es
      → get w.positions e ≡ some p
      → In (candidate_at s e p) (candidates s w es)
  unfolding candidates
  candidates_complete s w [] e p h at = absurd h
  candidates_complete s w (k ∷ es) e p (inl same) at =
      rw (ap (get w.positions) (sym same) ∙ at) (inl (ap (λ x. candidate_at s x p) same))
  candidates_complete s w (k ∷ es) e p (inr h) at =
      add_candidate_keeps s k (get w.positions k) (candidates s w es) (candidate_at s e p)
        (candidates_complete s w es e p h at)

  -- The candidate stands for a living entity with a position. It carries the three coordinates
  -- rounded to float32, whether the entity is marked as a player's, and the player's id or no text.
  pub record IsCandidate (s : Server F) (w : World F) (c : MigrationCandidate F) : Type 0 where
    pub p : Position F
    pub alive : has w.alive c.entity_id ≡ true
    pub placed : get w.positions c.entity_id ≡ some p
    pub x : c.position.x ≡ fl.round32 p.x
    pub y : c.position.y ≡ fl.round32 p.y
    pub z : c.position.z ≡ fl.round32 p.z
    pub marked : c.is_player ≡ has s.players c.entity_id
    pub named : IsNamed s.player_by_id c.entity_id c.player_id

  at-IsCandidate :
      (s : Server F) (w : World F) (c : MigrationCandidate F)
      → has w.alive c.entity_id ≡ true
      → IsAt s w c
      → IsCandidate s w c
  unfolding is_player player_id_by_entity
  at-IsCandidate s w c alive (p, placed, same) = record {
    p = p;
    alive = alive;
    placed = placed;
    x = ap (λ (d : MigrationCandidate F). d.position.x) same;
    y = ap (λ (d : MigrationCandidate F). d.position.y) same;
    z = ap (λ (d : MigrationCandidate F). d.position.z) same;
    marked = ap (λ (d : MigrationCandidate F). d.is_player) same;
    named =
        subst (IsNamed s.player_by_id c.entity_id)
          (sym (ap (λ (d : MigrationCandidate F). d.player_id) same))
          (player_id_of-IsNamed s.player_by_id c.entity_id);
  }

  -- On a server with a simulation, each candidate stands for a living entity with a position, and
  -- carries that position rounded to float32, whether the entity is marked as a player's, and the id
  -- of a player who has the entity, or no text where none has. And each living entity with a position
  -- has a candidate.
  pub list_migration_candidates-IsCandidate :
      (s : Server F) (sim : Sim F)
      → s.sim ≡ some sim
      → ((c : MigrationCandidate F)
          → In c (list_migration_candidates s)
          → IsCandidate s sim.world c)
        × ((e : Entity) (p : Position F)
            → has sim.world.alive e ≡ true
            → get sim.world.positions e ≡ some p
            → (c : MigrationCandidate F) × (c.entity_id ≡ e) × In c (list_migration_candidates s))
  unfolding list_migration_candidates
  list_migration_candidates-IsCandidate s sim here = simp here (
    (λ c h.
        let (k, found) = candidates_sound s sim.world (keys sim.world.alive) c h in
        at-IsCandidate s sim.world c (keys-In sim.world.alive c.entity_id k) found),
    (λ e p live at. elim (Option-cases (get sim.world.alive e)) [
      | inl dead ↦ absurd (ground (arith, dead, live))
      | inr (u, here') ↦ (
        candidate_at s e p,
        refl,
        candidates_complete s sim.world (keys sim.world.alive) e p
            (In-keys sim.world.alive e u here') at,
      )
    ]),
  )
