-- ===== src/Ecs/Aoi/Range.antt =====
-- The ints and the keys that the loops of QueryRadius visit (internal/ecs/aoi/grid.go).
use mmo.Prelude.{
  ℕ, zero, suc, ◌<◌, ◌≡◌, sym, ◌∙◌, ap, true, false, Bool-cases, clash, List, [], ◌∷◌, ℕ-Eq, arith,
  In, In-append_left, In-append_right, inl, inr,
}
use mmo.Prelude.Int.{ℤ, pos, negsuc, pos_part, ◌+ℤ◌, ◌-ℤ◌, leb_ℤ, ltb_ℤ, eqb_ℤ, eqb_ℤ_iff}
use mmo.Ecs.Aoi.{Key, Key-Eq, max_int, min_int, ints_from, int_range, pair_with, key_pairs}

plus_zero : (a : ℤ) → (a +ℤ pos 0) ≡ a
unfolding ◌+ℤ◌
plus_zero (pos n) = ground arith
plus_zero (negsuc n) = ground arith

plus_suc : (a : ℤ) (i : ℕ) → (a +ℤ pos (suc i)) ≡ (a +ℤ pos 1 +ℤ pos i)
unfolding ◌+ℤ◌
plus_suc (pos n) i = ground arith
plus_suc (negsuc zero) i = ground arith
plus_suc (negsuc (suc n)) i = ground arith

range_few :
    (lo hi k : ℤ)
    → leb_ℤ lo k ≡ true
    → leb_ℤ k hi ≡ true
    → pos_part (k -ℤ lo) < pos_part (hi +ℤ pos 1 -ℤ lo)
unfolding ◌+ℤ◌ ◌-ℤ◌
range_few (pos a) (pos b) (pos c) p q = ground (arith, p, q)
range_few (pos a) (pos b) (negsuc c) p q = ground (arith, p, q)
range_few (pos a) (negsuc b) (pos c) p q = ground (arith, p, q)
range_few (pos a) (negsuc b) (negsuc c) p q = ground (arith, p, q)
range_few (negsuc a) (pos b) (pos c) p q = ground (arith, p, q)
range_few (negsuc a) (pos b) (negsuc c) p q = ground (arith, p, q)
range_few (negsuc a) (negsuc b) (pos c) p q = ground (arith, p, q)
range_few (negsuc a) (negsuc b) (negsuc c) p q = ground (arith, p, q)

range_at : (lo k : ℤ) → leb_ℤ lo k ≡ true → k ≡ (lo +ℤ pos (pos_part (k -ℤ lo)))
unfolding ◌+ℤ◌ ◌-ℤ◌
range_at (pos a) (pos c) p = ground (arith, p)
range_at (pos a) (negsuc c) p = ground (arith, p)
range_at (negsuc a) (pos c) p = ground (arith, p)
range_at (negsuc a) (negsuc c) p = ground (arith, p)

past_max : (i : ℕ) → ltb_ℤ (max_int +ℤ pos (suc i)) max_int ≡ false
unfolding ◌+ℤ◌
past_max i = ground arith

next_int-below :
    (lo k : ℤ) (i : ℕ) → k ≡ (lo +ℤ pos (suc i)) → ltb_ℤ k max_int ≡ true → eqb_ℤ lo max_int ≡ false
next_int-below lo k i at few = elim (Bool-cases (eqb_ℤ lo max_int)) [
  | inl top ↦ absurd (
      clash (rw (at ∙ ap (λ a. a +ℤ pos (suc i)) ((eqb_ℤ_iff lo max_int).0 top)) at few)
        (past_max i))
  | inr e ↦ e
]

ints_from-In :
    (n i : ℕ) (lo k : ℤ)
    → i < n
    → k ≡ (lo +ℤ pos i)
    → ltb_ℤ k max_int ≡ true
    → In k (ints_from lo n)
unfolding ints_from
ints_from-In zero i lo k few at below = absurd (omega (arith, few))
ints_from-In (suc n) zero lo k few at below = inl (at ∙ plus_zero lo)
ints_from-In (suc n) (suc i) lo k few at below = inr (
    rw (next_int-below lo k i at below)
      (ints_from-In n i (lo +ℤ pos 1) k (omega (arith, few)) (at ∙ plus_suc lo i) below))

ltb_ℤ-leb : (k hi top : ℤ) → leb_ℤ k hi ≡ true → ltb_ℤ hi top ≡ true → ltb_ℤ k top ≡ true
ltb_ℤ-leb (pos a) (pos b) (pos c) p q = ground (arith, p, q)
ltb_ℤ-leb (pos a) (pos b) (negsuc c) p q = ground (arith, p, q)
ltb_ℤ-leb (pos a) (negsuc b) c p q = ground (arith, p, q)
ltb_ℤ-leb (negsuc a) b (pos c) p q = ground arith
ltb_ℤ-leb (negsuc a) (pos b) (negsuc c) p q = ground (arith, p, q)
ltb_ℤ-leb (negsuc a) (negsuc b) (negsuc c) p q = ground (arith, p, q)

-- An int between the bounds of a loop is one of its ints, where the upper bound is below the greatest
-- int.
int_range-In :
    (lo hi k : ℤ)
    → ltb_ℤ hi max_int ≡ true
    → leb_ℤ lo k ≡ true
    → leb_ℤ k hi ≡ true
    → In k (int_range lo hi)
unfolding int_range
int_range-In lo hi k top above below =
    ints_from-In (pos_part (hi +ℤ pos 1 -ℤ lo)) (pos_part (k -ℤ lo)) lo k
      (range_few lo hi k above below) (range_at lo k above) (ltb_ℤ-leb k hi max_int below top)

pair_with-In : (ix iz : ℤ) (izs : List ℤ) → In iz izs → In (ix, iz) (pair_with ix izs)
unfolding pair_with
pair_with-In ix iz [] i = absurd i
pair_with-In ix iz (z ∷ izs) (inl same) = inl (ap (λ a. (ix, a)) same)
pair_with-In ix iz (z ∷ izs) (inr i) = inr (pair_with-In ix iz izs i)

key_pairs-In : (ixs izs : List ℤ) (k : Key) → In k.0 ixs → In k.1 izs → In k (key_pairs ixs izs)
unfolding key_pairs
key_pairs-In [] izs k i j = absurd i
key_pairs-In (x ∷ ixs) izs k (inl same) j =
    In-append_left k (pair_with x izs) (key_pairs ixs izs)
      (rw (sym same) (pair_with-In k.0 k.1 izs j))
key_pairs-In (x ∷ ixs) izs k (inr i) j =
    In-append_right k (pair_with x izs) (key_pairs ixs izs) (key_pairs-In ixs izs k i j)

-- A key between two corners.
abbrev pub Between : Key → Key → Key → Type 0
Between lo hi k =
    (leb_ℤ lo.0 k.0 ≡ true)
    × (leb_ℤ k.0 hi.0 ≡ true)
    × (leb_ℤ lo.1 k.1 ≡ true)
    × (leb_ℤ k.1 hi.1 ≡ true)

-- Each part of the key is above the least int and below the greatest.
abbrev pub FitsInt : Key → Type 0
FitsInt k =
    (ltb_ℤ min_int k.0 ≡ true)
    × (ltb_ℤ k.0 max_int ≡ true)
    × (ltb_ℤ min_int k.1 ≡ true)
    × (ltb_ℤ k.1 max_int ≡ true)

pub square-In :
    (lo hi k : Key)
    → FitsInt hi
    → Between lo hi k
    → In k (key_pairs (int_range lo.0 hi.0) (int_range lo.1 hi.1))
square-In lo hi k (low_x, high_x, low_z, high_z) (a, b, c, d) =
    key_pairs-In (int_range lo.0 hi.0) (int_range lo.1 hi.1) k
      (int_range-In lo.0 hi.0 k.0 high_x a b) (int_range-In lo.1 hi.1 k.1 high_z c d)
