-- ===== src/Ecs/Aoi/Query.antt =====
-- What the queries of a grid find (internal/ecs/aoi/grid.go: RebuildFromWorld, QueryRadius).
use mathlib.Core.Path.{subst}
use mmo.Prelude.{
  ◌≡◌, ◌↔◌, refl, sym, ◌∙◌, true, false, Option, none, some, List, [], ◌∷◌, ℕ-Eq, ◌==◌, In,
  In-append_left, In-append_right, inl, inr, ◌⊎◌, Bool-cases, Option-cases, eq_iff, eq_refl, clash,
}
use mmo.Prelude.Dict.{Set, get, put, has, keys, get-put, In-keys}
use mmo.Prelude.Float.{Float}
use mmo.Ecs.{Entity, Position}
use mmo.Ecs.World.{World}
use mmo.Ecs.Aoi.{
  Key, Key-Eq, SpatialGrid, entities_or_nil, int_range, key_pairs, bucket, insert_at, gather, key,
  index_at, index_all, rebuild_from_world, in_circle, is_near, near_from, square_keys, query_radius,
}
use mmo.Ecs.Aoi.Range.{Between, FitsInt, square-In}

In-cons : (e d : Entity) (es : List Entity) → In e (d ∷ es) → (e ≡ d) ⊎ In e es
In-cons e d es i = i

later : (d : Entity) (es : List Entity) (e : Entity) → (d == e) ≡ false → In e (d ∷ es) → In e es
later d es e other (inl same) = absurd (clash (rw same (eq_refl d)) other)
later d es e other (inr i) = i

unseen : (e : Entity) → has {V = Unit {0}} [] e ≡ false
unfolding get
unseen e = refl

-- No entity stands twice.
abbrev pub IsUnique : List Entity → Type 0
IsUnique [] = Unit
IsUnique (e ∷ es) = (In e es → ⊥) × IsUnique es

has-put_self : (s : Set Entity) (k : Entity) → has (put s k tt) k ≡ true
has-put_self s k = simp (get-put, eq_refl)

not_put :
    (seen : Set Entity) (k e : Entity)
    → has seen k ≡ false
    → has (put seen k tt) e ≡ false
    → has seen e ≡ false
not_put seen k e new h = elim (Bool-cases (k == e)) [
  | inl same ↦ rw (sym ((eq_iff k e).0 same)) new
  | inr other ↦ simp (get-put, other) at h
]

module _ {F : Type 0} where
  gather-In :
      (g : SpatialGrid F) (ks : List Key) (k : Key) (e : Entity)
      → In k ks
      → In e (bucket g k)
      → In e (gather g ks)
  unfolding gather
  gather-In g [] k e i j = absurd i
  gather-In g (x ∷ ks) k e (inl same) j = In-append_left e (bucket g x) (gather g ks) (rw same at j)
  gather-In g (x ∷ ks) k e (inr i) j =
      In-append_right e (bucket g x) (gather g ks) (gather-In g ks k e i j)

  insert_at-In : (g : SpatialGrid F) (e : Entity) (k : Key) → In e (bucket (insert_at g e k) k)
  unfolding bucket insert_at
  insert_at-In g e k =
      simp (get-put, eq_refl)
        (In-append_right e (entities_or_nil (get g.buckets k)) (e ∷ []) (inl refl))

  insert_at-keeps :
      (g : SpatialGrid F) (d : Entity) (at k : Key) (e : Entity)
      → In e (bucket g k)
      → In e (bucket (insert_at g d at) k)
  unfolding bucket insert_at
  insert_at-keeps g d at k e i = elim (Bool-cases (at == k)) [
    | inl same ↦
        simp (get-put, same) (In-append_left e (bucket g at) (d ∷ []) (rw ((eq_iff at k).0 same) i))
    | inr other ↦ simp (get-put, other) i
  ]

module _ {F : Type 0} ⦃fl : Float F⦄ where
  index_all-keeps :
      (g : SpatialGrid F) (w : World F) (es : List Entity) (k : Key) (e : Entity)
      → In e (bucket g k)
      → In e (bucket (index_all g w es) k)
  unfolding index_all
  index_all-keeps g w [] k e i = i
  index_all-keeps g w (d ∷ es) k e i = elim (Option-cases (get w.positions d)) [
    | inl n ↦ rw n (index_all-keeps g w es k e i)
    | inr (p, at) ↦ rw at (
        index_all-keeps (insert_at g d (key g p.x p.z)) w es k e
          (insert_at-keeps g d (key g p.x p.z) k e i))
  ]

  -- An entity of the list that has a position stands in the bucket of its key.
  index_all-In :
      (g : SpatialGrid F) (w : World F) (es : List Entity) (e : Entity) (p : Position F)
      → In e es
      → get w.positions e ≡ some p
      → In e (bucket (index_all g w es) (key g p.x p.z))
  unfolding index_all key insert_at
  index_all-In g w [] e p i at = absurd i
  index_all-In g w (d ∷ es) e p (inl same) at =
      rw (sym same, at)
        (index_all-keeps (insert_at g e (key g p.x p.z)) w es (key g p.x p.z) e
          (insert_at-In g e (key g p.x p.z)))
  index_all-In g w (d ∷ es) e p (inr i) at = elim (Option-cases (get w.positions d)) [
    | inl n ↦ rw n (index_all-In g w es e p i at)
    | inr (q, d_at) ↦ rw d_at (index_all-In (insert_at g d (key g q.x q.z)) w es e p i at)
  ]

  near_from-In :
      (w : World F) (cx cz r : F) (es : List Entity) (seen : Set Entity) (e : Entity)
      → In e es
      → is_near cx cz r (get w.positions e) ≡ true
      → has seen e ≡ false
      → In e (near_from w cx cz r es seen)
  unfolding near_from
  near_from-In w cx cz r [] seen e i near new = absurd i
  near_from-In w cx cz r (d ∷ es) seen e i near new = elim (Bool-cases (d == e)) [
    | inl same ↦ rw ((eq_iff d e).0 same, new, near) (inl refl)
    | inr other ↦ elim (Bool-cases (has seen d)) [
      | inl old ↦ rw old (near_from-In w cx cz r es seen e (later d es e other i) near new)
      | inr fresh ↦ elim (Bool-cases (is_near cx cz r (get w.positions d))) [
        | inl hit ↦
            rw (fresh, hit)
              (inr (
                near_from-In w cx cz r es (put seen d tt) e (later d es e other i) near
                  (simp (get-put, other) new)))
        | inr miss ↦
            rw (fresh, miss) (near_from-In w cx cz r es seen e (later d es e other i) near new)
      ]
    ]
  ]

  near_from-near :
      (w : World F) (cx cz r : F) (es : List Entity) (seen : Set Entity) (e : Entity)
      → In e (near_from w cx cz r es seen)
      → is_near cx cz r (get w.positions e) ≡ true
  unfolding near_from
  near_from-near w cx cz r [] seen e i = absurd i
  near_from-near w cx cz r (d ∷ es) seen e i = elim (Bool-cases (has seen d)) [
    | inl old ↦ near_from-near w cx cz r es seen e (rw old at i)
    | inr fresh ↦ elim (Bool-cases (is_near cx cz r (get w.positions d))) [
      | inl hit ↦
          elim (In-cons e d (near_from w cx cz r es (put seen d tt)) (rw (fresh, hit) at i)) [
            | inl same ↦ rw same hit
            | inr j ↦ near_from-near w cx cz r es (put seen d tt) e j
          ]
      | inr miss ↦ near_from-near w cx cz r es seen e (rw (fresh, miss) at i)
    ]
  ]

  cell_size-index_at :
      (g : SpatialGrid F) (e : Entity) (o : Option (Position F))
      → (index_at g e o).cell_size ≡ g.cell_size
  unfolding insert_at
  cell_size-index_at g e none = refl
  cell_size-index_at g e (some p) = refl

  cell_size-index_all :
      (g : SpatialGrid F) (w : World F) (es : List Entity)
      → (index_all g w es).cell_size ≡ g.cell_size
  unfolding index_all
  cell_size-index_all g w [] = refl
  cell_size-index_all g w (e ∷ es) =
      cell_size-index_all (index_at g e (get w.positions e)) w es
      ∙ cell_size-index_at g e (get w.positions e)

  near_from-fresh :
      (w : World F) (cx cz r : F) (es : List Entity) (seen : Set Entity) (e : Entity)
      → In e (near_from w cx cz r es seen)
      → has seen e ≡ false
  unfolding near_from
  near_from-fresh w cx cz r [] seen e i = absurd i
  near_from-fresh w cx cz r (d ∷ es) seen e i = elim (Bool-cases (has seen d)) [
    | inl old ↦ near_from-fresh w cx cz r es seen e (rw old at i)
    | inr fresh ↦ elim (Bool-cases (is_near cx cz r (get w.positions d))) [
      | inl hit ↦
          elim (In-cons e d (near_from w cx cz r es (put seen d tt)) (rw (fresh, hit) at i)) [
            | inl same ↦ rw same fresh
            | inr j ↦ not_put seen d e fresh (near_from-fresh w cx cz r es (put seen d tt) e j)
          ]
      | inr miss ↦ near_from-fresh w cx cz r es seen e (rw (fresh, miss) at i)
    ]
  ]

  near_from-IsUnique :
      (w : World F) (cx cz r : F) (es : List Entity) (seen : Set Entity)
      → IsUnique (near_from w cx cz r es seen)
  unfolding near_from
  near_from-IsUnique w cx cz r [] seen = tt
  near_from-IsUnique w cx cz r (d ∷ es) seen = elim (Bool-cases (has seen d)) [
    | inl old ↦ rw old (near_from-IsUnique w cx cz r es seen)
    | inr fresh ↦ elim (Bool-cases (is_near cx cz r (get w.positions d))) [
      | inl hit ↦
          rw (fresh, hit)
            (
              (λ i. clash (has-put_self seen d) (near_from-fresh w cx cz r es (put seen d tt) d i)),
              near_from-IsUnique w cx cz r es (put seen d tt),
            )
      | inr miss ↦ rw (fresh, miss) (near_from-IsUnique w cx cz r es seen)
    ]
  ]

  -- The query of a circle gives no entity twice.
  pub query_radius-IsUnique :
      (g : SpatialGrid F) (w : World F) (cx cz r : F) → IsUnique (query_radius g w cx cz r)
  unfolding query_radius
  query_radius-IsUnique g w cx cz r = elim (Bool-cases (fl.lt r (fl.num 0))) [
    | inl l ↦ rw l tt
    | inr l ↦ rw l (near_from-IsUnique w cx cz r (gather g (square_keys g cx cz r)) [])
  ]

  rebuilt-In :
      (g : SpatialGrid F) (w : World F) (cx cz r : F) (e : Entity) (p : Position F)
      → get w.alive e ≡ some tt
      → get w.positions e ≡ some p
      → FitsInt (key g (fl.add cx r) (fl.add cz r))
      → Between
          (key g (fl.sub cx r) (fl.sub cz r))
          (key g (fl.add cx r) (fl.add cz r))
          (key g p.x p.z)
      → In e (gather (rebuild_from_world g w) (square_keys (rebuild_from_world g w) cx cz r))
  unfolding rebuild_from_world square_keys key
  rebuilt-In g w cx cz r e p alive at fits between =
      let g' = record g { buckets = []; entity_cell = [] } in
      let k = key g p.x p.z in
      gather-In (index_all g' w (keys w.alive)) _ k e
        (subst
          (λ s. In k (
            key_pairs
              (int_range (fl.floor (fl.div (fl.sub cx r) s)) (fl.floor (fl.div (fl.add cx r) s)))
              (int_range (fl.floor (fl.div (fl.sub cz r) s)) (fl.floor (fl.div (fl.add cz r) s)))))
          (sym (cell_size-index_all g' w (keys w.alive)))
          (square-In (key g (fl.sub cx r) (fl.sub cz r)) (key g (fl.add cx r) (fl.add cz r)) k fits
            between))
        (index_all-In g' w (keys w.alive) e p (In-keys w.alive e tt alive) at)

  -- After a rebuild, take an entity that is alive, has a position and whose key lies between the
  -- keys of the corners of the square around a circle, where the keys of both corners lie strictly
  -- between the least and the greatest int64. If the radius is not below zero, then the query of the
  -- circle gives this entity exactly when its position lies in the circle.
  pub query_radius-In :
      (g : SpatialGrid F) (w : World F) (cx cz r : F) (e : Entity) (p : Position F)
      → fl.lt r (fl.num 0) ≡ false
      → get w.alive e ≡ some tt
      → get w.positions e ≡ some p
      → FitsInt (key g (fl.sub cx r) (fl.sub cz r))
      → FitsInt (key g (fl.add cx r) (fl.add cz r))
      → Between
          (key g (fl.sub cx r) (fl.sub cz r))
          (key g (fl.add cx r) (fl.add cz r))
          (key g p.x p.z)
      → In e (query_radius (rebuild_from_world g w) w cx cz r) ↔ (in_circle cx cz r p ≡ true)
  unfolding query_radius
  query_radius-In g w cx cz r e p l alive at low fits between =
      let g' = rebuild_from_world g w in
      let es = gather g' (square_keys g' cx cz r) in
      rw l (
        (λ i. rw at at (near_from-near w cx cz r es [] e i)),
        (λ c.
            near_from-In w cx cz r es [] e (rebuilt-In g w cx cz r e p alive at fits between)
              (rw at c) (unseen e)),
      )
