-- ===== src/Prelude/Dict.antt =====
-- Go maps. The order of the entries stands for the order in which `range` visits a map, which Go
-- leaves open: a theorem about every dictionary holds for every order. A nil map reads as an empty
-- one. A `map[K]struct{}` is a `Dict` to the unit type.
use Prim.Native.Nat.{ℕ, suc}
use mathlib.Core.Path.{◌≡◌, refl, sym, ap, ◌∙◌}
use mathlib.Core.Logic.{inl, inr}
use mathlib.Core.Bool.{Bool, true, false}
use mathlib.Core.Option.{Option, none, some}
use mathlib.Core.List.{List, [], ◌∷◌}
use native.Mathlib.Omega.{arith}
use mmo.Prelude.Tests.{if◌then◌else◌, Eq, ◌==◌, eq_iff, eq_refl, Bool-cases, unset}
use mmo.Prelude.Lists.{In}

abbrev pub Dict : Type 0 → Type 0 → Type 0
Dict K V = List (K × V)

abbrev pub Set : Type 0 → Type 0
Set K = Dict K (Unit {0})

abbrev pub is_some {ℓ} : {A : Type ℓ} → Option A → Bool
is_some none = false
is_some (some _) = true

module _ {K V : Type 0} where
  unfoldable pub keys : Dict K V → List K
  keys [] = []
  keys ((k, v) ∷ m) = k ∷ keys m

  unfoldable pub values : Dict K V → List V
  values [] = []
  values ((k, v) ∷ m) = v ∷ values m

  -- len(m)
  unfoldable pub size : Dict K V → ℕ
  size [] = 0
  size (p ∷ m) = suc (size m)

module _ {K V : Type 0} ⦃e : Eq K⦄ where
  -- m[k], with the Boolean of the second result
  unfoldable pub get : Dict K V → K → Option V
  get [] k = none
  get ((j, v) ∷ m) k = if j == k then some v else get m k

  -- delete(m, k)
  unfoldable pub remove : Dict K V → K → Dict K V
  remove [] k = []
  remove ((j, v) ∷ m) k = let rest = remove m k in if j == k then rest else (j, v) ∷ rest

  -- m[k] = v
  unfoldable pub put : Dict K V → K → V → Dict K V
  unfolding remove
  put m k v = (k, v) ∷ remove m k

  abbrev pub has : Dict K V → K → Bool
  has m k = is_some (get m k)

  pub get-remove :
      (m : Dict K V) (k j : K) → get (remove m k) j ≡ (if k == j then none else get m j)
  unfolding get remove
  get-remove [] k j = ground arith
  get-remove ((i, v) ∷ m) k j = ground (arith, get-remove m k j, eq_iff i k, eq_iff i j, eq_iff k j)

  pub get-put :
      (m : Dict K V) (k : K) (v : V) (j : K)
      → get (put m k v) j ≡ (if k == j then some v else get m j)
  unfolding get put
  get-put m k v j = simp get-remove (ground arith)

  pub has-put_ne :
      (m : Dict K V) (k : K) (v : V) (j : K)
      → (k == j) ≡ false
      → has m j ≡ false
      → has (put m k v) j ≡ false
  has-put_ne m k v j d h = simp (get-put, d) h

  pub get-put_self : (m : Dict K V) (k : K) (v : V) → get (put m k v) k ≡ some v
  get-put_self m k v = simp (get-put, eq_refl)

  pub get-remove_self : (m : Dict K V) (k : K) → get (remove m k) k ≡ none
  get-remove_self m k = simp (get-remove, eq_refl)

  pub In-keys : (m : Dict K V) (k : K) (v : V) → get m k ≡ some v → In k (keys m)
  unfolding get keys
  In-keys [] k v h = cc
  In-keys ((j, w) ∷ m) k v h = elim (Bool-cases (j == k)) [
    | inl p ↦ inl (sym ((eq_iff j k).0 p))
    | inr n ↦ inr (In-keys m k v (rw n at h))
  ]

  pub keys-In : (m : Dict K V) (k : K) → In k (keys m) → has m k ≡ true
  unfolding get keys
  keys-In [] k h = absurd h
  keys-In ((j, w) ∷ m) k (inl p) = ground (arith, eq_iff j k)
  keys-In ((j, w) ∷ m) k (inr h) = ground (arith, keys-In m k h)

  -- No key stands twice, as in every Go map.
  abbrev pub Distinct : Dict K V → Type 0
  Distinct [] = Unit
  Distinct ((k, v) ∷ m) = (get m k ≡ none) × Distinct m

  pub remove-Distinct : (m : Dict K V) (k : K) → Distinct m → Distinct (remove m k)
  unfolding remove
  remove-Distinct [] k h = tt
  remove-Distinct ((j, v) ∷ m) k h = elim (Bool-cases (j == k)) [
    | inl e ↦ rw e (remove-Distinct m k h.1)
    | inr e ↦ rw e (simp get-remove (ground (arith, h.0)), remove-Distinct m k h.1)
  ]

  pub put-Distinct : (m : Dict K V) (k : K) (v : V) → Distinct m → Distinct (put m k v)
  unfolding put
  put-Distinct m k v h = (get-remove_self m k, remove-Distinct m k h)

  pub remove-absent : (m : Dict K V) (k : K) → get m k ≡ none → remove m k ≡ m
  unfolding get remove
  remove-absent [] k h = refl
  remove-absent ((j, v) ∷ m) k h = elim (Bool-cases (j == k)) [
    | inl same ↦ absurd (unset (rw same at h) refl)
    | inr other ↦ rw other (ap (λ r. (j, v) ∷ r) (remove-absent m k (rw other at h)))
  ]

  -- A key that is put in and removed again.
  pub remove-put : (m : Dict K V) (k : K) (v : V) → get m k ≡ none → remove (put m k v) k ≡ m
  unfolding put remove
  remove-put m k v h =
      rw (eq_refl k) (ap (λ r. remove r k) (remove-absent m k h) ∙ remove-absent m k h)
