-- ===== src/Ecs/Aoi.antt =====
-- The uniform grid over the positions of a world (internal/ecs/aoi/grid.go). An int has 64 bits. What
-- int(math.Floor(x)) gives for a number out of that range is left open: it is part of the parameter
-- Float. The loop over the ints up to the greatest int never ends in Go, and here it stops, so a
-- theorem about a query asks for corners below the greatest int. The sums of NeighborCellKeys are
-- taken not to overflow.
pub mod Range
pub mod Query
use mmo.Prelude.{
  ℕ, zero, suc, ◌+◌, ◌-◌, ◌^◌, Bool, true, false, not, ◌&&◌, ◌||◌, Option, none, some, List, [],
  ◌∷◌, ◌++◌, ℕ-Eq, ◌==◌, ◌≡◌, ◌↔◌, refl, Eq, if◌then◌else◌, arith,
}
use mmo.Prelude.Int.{
  ℤ, pos, negsuc, pos_part, ◌+ℤ◌, ◌-ℤ◌, ◌*ℤ◌, ltb_ℤ, leb_ℤ, eqb_ℤ, eqb_ℤ_iff, ℤ-Eq,
}
use mmo.Prelude.Dict.{Dict, Set, get, put, remove, has, keys}
use mmo.Prelude.Float.{Float}
use mmo.Ecs.{Entity, Position}
use mmo.Ecs.World.{World}

-- [2]int
abbrev pub Key : Type 0
Key = ℤ × ℤ

abbrev pub key_eq : Key → Key → Bool
key_eq a b = eqb_ℤ a.0 b.0 && eqb_ℤ a.1 b.1

pub key_eq_iff : (a b : Key) → (key_eq a b ≡ true) ↔ (a ≡ b)
key_eq_iff (a, a') (b, b') = ground (arith, eqb_ℤ_iff a b, eqb_ℤ_iff a' b')

instance abbrev pub Key-Eq : Eq Key
Key-Eq = record { test = key_eq; test_iff = key_eq_iff }

pub record SpatialGrid (F : Type 0) : Type 0 where
  pub cell_size : F
  pub buckets : Dict Key (List Entity)
  pub entity_cell : Dict Entity Key

abbrev pub entities_or_nil : Option (List Entity) → List Entity
entities_or_nil none = []
entities_or_nil (some es) = es

-- sl[i] = sl[last], and the slice without its last item, for what stands from i on without its first
-- item.
abbrev pub last_first : List Entity → List Entity
last_first [] = []
last_first (x ∷ xs) = go x xs
  where
    go : Entity → List Entity → List Entity
    go x [] = x ∷ []
    go x (y ∷ ys) = let moved = go y ys in front moved x
      where
        front : List Entity → Entity → List Entity
        front [] x = x ∷ []
        front (l ∷ rest) x = l ∷ x ∷ rest

unfoldable pub take_out : Entity → List Entity → List Entity
take_out e [] = []
take_out e (id ∷ sl) = let rest = take_out e sl in if id == e then last_first sl else id ∷ rest

abbrev pub max_int : ℤ
max_int = pos (2 ^ 63 - 1)

abbrev pub min_int : ℤ
min_int = negsuc (2 ^ 63 - 1)

-- ix++
abbrev pub next_int : ℤ → ℤ
next_int ix = if eqb_ℤ ix max_int then min_int else ix +ℤ pos 1

-- The loop of NeighborCellKeys and QueryRadius over so many ints.
unfoldable pub ints_from : ℤ → ℕ → List ℤ
ints_from lo zero = []
ints_from lo (suc n) = lo ∷ ints_from (next_int lo) n

unfoldable pub int_range : ℤ → ℤ → List ℤ
unfolding ints_from
int_range lo hi = ints_from lo (pos_part (hi +ℤ pos 1 -ℤ lo))

unfoldable pub pair_with : ℤ → List ℤ → List Key
pair_with ix [] = []
pair_with ix (iz ∷ izs) = (ix, iz) ∷ pair_with ix izs

unfoldable pub key_pairs : List ℤ → List ℤ → List Key
unfolding pair_with
key_pairs [] izs = []
key_pairs (ix ∷ ixs) izs = pair_with ix izs ++ key_pairs ixs izs

unfoldable pub neighbor_cell_keys : ℤ → ℤ → ℤ → List Key
unfolding key_pairs int_range
neighbor_cell_keys ix iz ring =
    let r = if ltb_ℤ ring (pos 0) then pos 0 else ring in
    key_pairs (int_range (ix -ℤ r) (ix +ℤ r)) (int_range (iz -ℤ r) (iz +ℤ r))

abbrev pub same_key : Option Key → Key → Bool
same_key none k = false
same_key (some old) k = old == k

module _ {F : Type 0} where
  unfoldable pub bucket : SpatialGrid F → Key → List Entity
  bucket g k = entities_or_nil (get g.buckets k)

  abbrev emptied : SpatialGrid F → Key → List Entity → SpatialGrid F
  emptied g k [] = record g { buckets = remove g.buckets k }
  emptied g k (e ∷ es) = record g { buckets = put g.buckets k (e ∷ es) }

  abbrev pub remove_at : SpatialGrid F → Entity → Option Key → SpatialGrid F
  remove_at g e none = g
  remove_at g e (some old) =
      emptied (record g { entity_cell = remove g.entity_cell e }) old (take_out e (bucket g old))

  unfoldable pub remove_entity : SpatialGrid F → Entity → SpatialGrid F
  remove_entity g e = remove_at g e (get g.entity_cell e)

  -- entityCell[e] = k, and e at the end of its bucket
  unfoldable pub insert_at : SpatialGrid F → Entity → Key → SpatialGrid F
  insert_at g e k = record g {
    entity_cell = put g.entity_cell e k;
    buckets = put g.buckets k (bucket g k ++ (e ∷ []));
  }

  unfoldable pub gather : SpatialGrid F → List Key → List Entity
  gather g [] = []
  gather g (k ∷ ks) = bucket g k ++ gather g ks

module _ {F : Type 0} ⦃fl : Float F⦄ where
  unfoldable pub new_spatial_grid : F → SpatialGrid F
  new_spatial_grid cell_size = record {
    cell_size = if fl.le cell_size (fl.num 0) then fl.num 50 else cell_size;
    buckets = [];
    entity_cell = [];
  }

  unfoldable pub key : SpatialGrid F → F → F → Key
  key g x z = (fl.floor (fl.div x g.cell_size), fl.floor (fl.div z g.cell_size))

  abbrev pub update_at : SpatialGrid F → Entity → Option (Position F) → SpatialGrid F
  update_at g e none = remove_entity g e
  update_at g e (some p) =
      let k = key g p.x p.z in
      if same_key (get g.entity_cell e) k then g else insert_at (remove_entity g e) e k

  unfoldable pub update_entity : SpatialGrid F → World F → Entity → SpatialGrid F
  update_entity g w e = update_at g e (get w.positions e)

  abbrev pub index_at : SpatialGrid F → Entity → Option (Position F) → SpatialGrid F
  index_at g e none = g
  index_at g e (some p) = insert_at g e (key g p.x p.z)

  -- The loop over the living entities.
  unfoldable pub index_all : SpatialGrid F → World F → List Entity → SpatialGrid F
  index_all g w [] = g
  index_all g w (e ∷ es) = index_all (index_at g e (get w.positions e)) w es

  unfoldable pub rebuild_from_world : SpatialGrid F → World F → SpatialGrid F
  rebuild_from_world g w = index_all (record g { buckets = []; entity_cell = [] }) w (keys w.alive)

  abbrev pub in_circle : F → F → F → Position F → Bool
  in_circle cx cz r p =
      let dx = fl.sub p.x cx in
      let dz = fl.sub p.z cz in fl.le (fl.add (fl.mul dx dx) (fl.mul dz dz)) (fl.mul r r)

  abbrev pub is_near : F → F → F → Option (Position F) → Bool
  is_near cx cz r none = false
  is_near cx cz r (some p) = in_circle cx cz r p

  -- The inner loop, over the entities of the buckets in a row.
  unfoldable pub near_from : World F → F → F → F → List Entity → Set Entity → List Entity
  near_from w cx cz r [] seen = []
  near_from w cx cz r (e ∷ es) seen =
      let skip = near_from w cx cz r es seen in
      let keep = near_from w cx cz r es (put seen e tt) in
      if has seen e then skip else if is_near cx cz r (get w.positions e) then e ∷ keep else skip

  -- The keys of the square around the circle.
  unfoldable pub square_keys : SpatialGrid F → F → F → F → List Key
  square_keys g cx cz r =
      let lo = key g (fl.sub cx r) (fl.sub cz r) in
      let hi = key g (fl.add cx r) (fl.add cz r) in
      key_pairs (int_range lo.0 hi.0) (int_range lo.1 hi.1)

  unfoldable pub query_radius : SpatialGrid F → World F → F → F → F → List Entity
  query_radius g w cx cz r =
      if fl.lt r (fl.num 0) then [] else near_from w cx cz r (gather g (square_keys g cx cz r)) []
