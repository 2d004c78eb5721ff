-- ===== src/MergeLock.antt =====
-- The guard against two merges of one parent at a time (internal/grpc/registrysvc/server.go:
-- tryAcquireMerge, releaseMerge).
use mmo.Prelude.{◌≡◌, refl, Bool, true, false, text-Eq, arith, if◌then◌else◌, Bool-cases, inl, inr}
use mmo.Prelude.Text.{Text, trim_space, is_empty}
use mmo.Prelude.Dict.{Set, put, remove, has, get-put_self, get-remove_self}

-- mergeInFlight after a call, and its result.
unfoldable pub try_acquire_merge : Set Text → Text → Set Text × Bool
try_acquire_merge in_flight parent_cell_id =
    let id = trim_space parent_cell_id in
    if is_empty id
    then (in_flight, false)
    else if has in_flight id
    then (in_flight, false)
    else (put in_flight id tt, true)

unfoldable pub release_merge : Set Text → Text → Set Text
release_merge in_flight parent_cell_id =
    let id = trim_space parent_cell_id in if is_empty id then in_flight else remove in_flight id

acquired :
    (m : Set Text) (id : Text)
    → (try_acquire_merge m id).1 ≡ true
    → (is_empty (trim_space id) ≡ false) × ((try_acquire_merge m id).0 ≡ put m (trim_space id) tt)
unfolding try_acquire_merge
acquired m id h = elim (Bool-cases (is_empty (trim_space id))) [
  | inl e ↦ absurd (ground (arith, e, h))
  | inr e ↦ elim (Bool-cases (has m (trim_space id))) [
    | inl held ↦ absurd (ground (arith, e, held, h))
    | inr free ↦ rw (e, free) (refl, refl)
  ]
]

-- After a merge of a parent is acquired it cannot be acquired again and nothing changes, and after it
-- is released it can be.
pub try_acquire_merge_exclusive :
    (m : Set Text) (id : Text)
    → (try_acquire_merge m id).1 ≡ true
    → let held = (try_acquire_merge m id).0 in
      (try_acquire_merge held id ≡ (held, false))
      × ((try_acquire_merge (release_merge held id) id).1 ≡ true)
unfolding try_acquire_merge release_merge
try_acquire_merge_exclusive m id h =
    let (given, same) = acquired m id h in
    let pid = trim_space id in
    rw same (simp (given, get-put_self m pid tt), simp (given, get-remove_self (put m pid tt) pid))
