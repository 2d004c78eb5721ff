-- ===== src/RegistrySvc/Merge/Ids.antt =====
-- The child ids of a merge request, and the merges in flight
-- (internal/grpc/registrysvc/forward_merge.go: uniqueCellIDs, ForwardMergeHandoff).
use mmo.Prelude.{
  ◌≡◌, ◌↔◌, refl, sym, ◌∙◌, true, false, Option, none, List, [], ◌∷◌, ◌==◌, text-Eq, In, inl, inr,
  ◌⊎◌, if◌then◌else◌, Bool-cases, Option-cases, clash, eq_iff, eq_refl, some,
}
use mmo.Prelude.Text.{Text, trim_space, is_empty}
use mmo.Prelude.Dict.{Set, get, put, has, get-put, remove-put}
use mmo.Prelude.Float.{Float}
use mmo.CellSvc.Npc.{PersistCodec}
use mmo.MergeLock.{try_acquire_merge, release_merge}
use mmo.RegistrySvc.{Remote, History}
use mmo.RegistrySvc.Merge.{
  MergeConfig, MergeRequest, unique_from, unique_cell_ids, forward_merge_handoff,
}

-- No id stands twice.
abbrev pub IsUnique : List Text → Type 0
IsUnique [] = Unit
IsUnique (id ∷ ids) = (In id ids → ⊥) × IsUnique ids

-- The id is one of the list without the space around it, and is not blank.
abbrev pub IsAsked : List Text → Text → Type 0
IsAsked ids id = (raw : Text) × In raw ids × (trim_space raw ≡ id) × (is_empty id ≡ false)

IsAsked-cons :
    (first : Text) (ids : List Text) (id : Text) → IsAsked ids id → IsAsked (first ∷ ids) id
IsAsked-cons first ids id (raw, i, same, full) = (raw, inr i, same, full)

In-cons : (id first : Text) (ids : List Text) → In id (first ∷ ids) → (id ≡ first) ⊎ In id ids
In-cons id first ids i = i

not_put :
    (seen : Set Text) (k id : Text)
    → has seen k ≡ false
    → has (put seen k tt) id ≡ false
    → has seen id ≡ false
not_put seen k id new h = elim (Bool-cases (k == id)) [
  | inl same ↦ rw (sym ((eq_iff k id).0 same)) new
  | inr other ↦ simp (get-put, other) at h
]

unique_from-fresh :
    (ids : List Text) (seen : Set Text) (id : Text)
    → In id (unique_from ids seen)
    → has seen id ≡ false
unfolding unique_from
unique_from-fresh [] seen id i = absurd i
unique_from-fresh (raw ∷ ids) seen id i = elim (Bool-cases (is_empty (trim_space raw))) [
  | inl e ↦ unique_from-fresh ids seen id (rw e at i)
  | inr e ↦ elim (Bool-cases (has seen (trim_space raw))) [
    | inl old ↦ unique_from-fresh ids seen id (rw (e, old) at i)
    | inr new ↦
        let seen' = put seen (trim_space raw) tt in
        elim (In-cons id (trim_space raw) (unique_from ids seen') (rw (e, new) at i)) [
          | inl same ↦ rw same new
          | inr j ↦ not_put seen (trim_space raw) id new (unique_from-fresh ids seen' id j)
        ]
  ]
]

unique_from-IsUnique : (ids : List Text) (seen : Set Text) → IsUnique (unique_from ids seen)
unfolding unique_from
unique_from-IsUnique [] seen = tt
unique_from-IsUnique (raw ∷ ids) seen = elim (Bool-cases (is_empty (trim_space raw))) [
  | inl e ↦ rw e (unique_from-IsUnique ids seen)
  | inr e ↦ elim (Bool-cases (has seen (trim_space raw))) [
    | inl old ↦ rw (e, old) (unique_from-IsUnique ids seen)
    | inr new ↦
        let id = trim_space raw in
        rw (e, new)
          (
            (λ i. clash (put_has seen id) (unique_from-fresh ids (put seen id tt) id i)),
            unique_from-IsUnique ids (put seen id tt),
          )
  ]
]
  where
    put_has : (s : Set Text) (k : Text) → has (put s k tt) k ≡ true
    put_has s k = simp (get-put, eq_refl)

unique_from-In :
    (ids : List Text) (seen : Set Text) (raw : Text)
    → In raw ids
    → is_empty (trim_space raw) ≡ false
    → has seen (trim_space raw) ≡ false
    → In (trim_space raw) (unique_from ids seen)
unfolding unique_from
unique_from-In [] seen raw i full new = absurd i
unique_from-In (first ∷ ids) seen raw (inl same) full new = rw (sym same, full, new) (inl refl)
unique_from-In (first ∷ ids) seen raw (inr i) full new =
    let id = trim_space first in
    elim (Bool-cases (is_empty id)) [
      | inl e ↦ rw e (unique_from-In ids seen raw i full new)
      | inr e ↦ elim (Bool-cases (has seen id)) [
        | inl old ↦ rw (e, old) (unique_from-In ids seen raw i full new)
        | inr fresh ↦ elim (Bool-cases (id == trim_space raw)) [
          | inl same ↦ rw (e, fresh) (inl (sym ((eq_iff id (trim_space raw)).0 same)))
          | inr other ↦
              rw (e, fresh)
                (inr (unique_from-In ids (put seen id tt) raw i full (simp (get-put, other) new)))
        ]
      ]
    ]

unique_from-IsAsked :
    (ids : List Text) (seen : Set Text) (id : Text) → In id (unique_from ids seen) → IsAsked ids id
unfolding unique_from
unique_from-IsAsked [] seen id i = absurd i
unique_from-IsAsked (raw ∷ ids) seen id i = elim (Bool-cases (is_empty (trim_space raw))) [
  | inl e ↦ IsAsked-cons raw ids id (unique_from-IsAsked ids seen id (rw e at i))
  | inr e ↦ elim (Bool-cases (has seen (trim_space raw))) [
    | inl old ↦ IsAsked-cons raw ids id (unique_from-IsAsked ids seen id (rw (e, old) at i))
    | inr new ↦
        let seen' = put seen (trim_space raw) tt in
        elim (In-cons id (trim_space raw) (unique_from ids seen') (rw (e, new) at i)) [
          | inl same ↦ (raw, inl refl, sym same, rw same e)
          | inr j ↦ IsAsked-cons raw ids id (unique_from-IsAsked ids seen' id j)
        ]
  ]
]

-- The ids that a merge works with are all different, and they are exactly the requested ids that are
-- not blank, without the space around them.
pub unique_cell_ids-In :
    (ids : List Text) (id : Text)
    → IsUnique (unique_cell_ids ids) × (In id (unique_cell_ids ids) ↔ IsAsked ids id)
unfolding unique_cell_ids get
unique_cell_ids-In ids id = (
  unique_from-IsUnique ids [],
  (
    (λ i. unique_from-IsAsked ids [] id i),
    (λ (raw, i, same, full).
        rw (sym same) (unique_from-In ids [] raw i (rw (sym same) at full) refl)),
  ),
)

released :
    (m : Set Text) (id : Text)
    → release_merge (try_acquire_merge m id).0 id
      ≡ (if (try_acquire_merge m id).1 then m else release_merge m id)
unfolding try_acquire_merge release_merge
released m id = elim (Bool-cases (is_empty (trim_space id))) [
  | inl e ↦ simp e
  | inr e ↦ elim (Option-cases (get m (trim_space id))) [
    | inr (u, held) ↦ simp (e, held)
    | inl none_held ↦ simp (e, none_held) (remove-put m (trim_space id) tt none_held)
  ]
]

refused :
    (m : Set Text) (id : Text) → (try_acquire_merge m id).1 ≡ false → (try_acquire_merge m id).0 ≡ m
unfolding try_acquire_merge
refused m id busy = elim (Bool-cases (is_empty (trim_space id))) [
  | inl e ↦ simp e
  | inr e ↦ elim (Bool-cases (has m (trim_space id))) [
    | inl held ↦ simp (e, held)
    | inr free ↦ absurd (clash refl (simp (e, free) at busy))
  ]
]

module _ {F : Type 0} ⦃fl : Float F⦄ (remote : Remote F) (codec : PersistCodec F)
    (cfg : MergeConfig) where
  -- On every path, errors included, a merge leaves the merges in flight as they were before it.
  pub forward_merge_handoff-in_flight :
      (in_flight : Set Text) (h : History F) (req : Option MergeRequest)
      → (forward_merge_handoff remote codec cfg in_flight h req).0 ≡ in_flight
  unfolding forward_merge_handoff
  forward_merge_handoff-in_flight in_flight h none = refl
  forward_merge_handoff-in_flight in_flight h (some req) =
      let id = trim_space req.parent_cell_id in
      elim (Bool-cases (is_empty id)) [
        | inl e ↦ simp e
        | inr e ↦ elim (Bool-cases (try_acquire_merge in_flight id).1) [
          | inl got ↦ simp (e, got) (released in_flight id ∙ rw got refl)
          | inr busy ↦ simp (e, busy) (refused in_flight id busy)
        ]
      ]
