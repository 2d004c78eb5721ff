-- ===== src/CellSvc/Roster.antt =====
-- The tables of joined players (internal/grpc/cellsvc/server.go: players, playerByID), and what the
-- handlers keep true of them.
use mmo.Prelude.{
  ℕ, ◌≤◌, ◌<◌, ◌≡◌, true, none, some, arith, ℕ-Eq, text-Eq, eq_iff, ◌==◌, Bool-cases, inl, inr,
}
use mmo.Prelude.Text.{Text}
use mmo.Prelude.Dict.{Dict, Set, get, put, remove, has, get-put, get-remove}
use mmo.Ecs.{Entity}

-- Each player's entity is marked as a player's, no two players share one, none is above the last id
-- that the world handed out, and every marked entity is some player's.
pub record IsRoster (m : Dict Text Entity) (ps : Set Entity) (last : ℕ) : Type 0 where
  pub marked : (pid : Text) (e : Entity) → get m pid ≡ some e → has ps e ≡ true
  pub injective : (p q : Text) (e : Entity) → get m p ≡ some e → get m q ≡ some e → p ≡ q
  pub bounded : (pid : Text) (e : Entity) → get m pid ≡ some e → e ≤ last
  pub owned : (e : Entity) → has ps e ≡ true → (pid : Text) × (get m pid ≡ some e)

module _ {m : Dict Text Entity} {ps : Set Entity} {last : ℕ} (r : IsRoster m ps last) where
  -- A player who was not there gets an entity above all others.
  pub join-IsRoster :
      (pid : Text) (e : Entity)
      → get m pid ≡ none
      → last < e
      → IsRoster (put m pid e) (put ps e tt) e
  join-IsRoster pid e absent new = record {
    marked = λ p f h. ground (arith, get-put m pid e p, get-put ps e tt f, r.marked p f);
    injective = λ p q f hp hq. ground (
      arith,
      get-put m pid e p,
      get-put m pid e q,
      eq_iff pid p,
      eq_iff pid q,
      r.bounded p f,
      r.bounded q f,
      r.injective p q f,
    );
    bounded = λ p f h. ground (arith, get-put m pid e p, r.bounded p f);
    owned = λ f h. elim (Bool-cases (e == f)) [
      | inl same ↦ (pid, ground (arith, get-put m pid e pid, eq_iff pid pid))
      | inr other ↦
          let (p, hp) = r.owned f (ground (arith, get-put ps e tt f)) in
          (p, ground (arith, get-put m pid e p, eq_iff pid p))
    ];
  }

  -- A player who is there keeps the entity.
  pub keep-IsRoster :
      (pid : Text) (e : Entity) → get m pid ≡ some e → IsRoster (put m pid e) (put ps e tt) last
  keep-IsRoster pid e there = record {
    marked = λ p f h. ground (arith, get-put m pid e p, get-put ps e tt f, r.marked p f);
    injective = λ p q f hp hq.
        r.injective p q f (ground (arith, get-put m pid e p, eq_iff pid p))
          (ground (arith, get-put m pid e q, eq_iff pid q));
    bounded = λ p f h. r.bounded p f (ground (arith, get-put m pid e p, eq_iff pid p));
    owned = λ f h. elim (Bool-cases (e == f)) [
      | inl same ↦ (pid, ground (arith, get-put m pid e pid, eq_iff pid pid))
      | inr other ↦
          let (p, hp) = r.owned f (ground (arith, get-put ps e tt f)) in
          (p, ground (arith, get-put m pid e p, eq_iff pid p))
    ];
  }

  -- A player who leaves takes the mark along.
  pub leave-IsRoster :
      (pid : Text) (e : Entity) → get m pid ≡ some e → IsRoster (remove m pid) (remove ps e) last
  leave-IsRoster pid e there = record {
    marked = λ p f h. ground (
      arith,
      get-remove m pid p,
      get-remove ps e f,
      eq_iff pid p,
      r.marked p f,
      r.injective p pid f,
    );
    injective = λ p q f hp hq.
        r.injective p q f (ground (arith, get-remove m pid p)) (ground (arith, get-remove m pid q));
    bounded = λ p f h. r.bounded p f (ground (arith, get-remove m pid p));
    owned = λ f h.
        let (p, hp) = r.owned f (ground (arith, get-remove ps e f)) in
        (p, ground (arith, get-remove m pid p, get-remove ps e f, eq_iff pid p));
  }

  pub absent-IsRoster : (pid : Text) → get m pid ≡ none → IsRoster (remove m pid) ps last
  absent-IsRoster pid absent = record {
    marked = λ p f h. r.marked p f (ground (arith, get-remove m pid p));
    injective = λ p q f hp hq.
        r.injective p q f (ground (arith, get-remove m pid p)) (ground (arith, get-remove m pid q));
    bounded = λ p f h. r.bounded p f (ground (arith, get-remove m pid p));
    owned =
        λ f h. let (p, hp) = r.owned f h in (p, ground (arith, get-remove m pid p, eq_iff pid p));
  }
