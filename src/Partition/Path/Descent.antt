-- ===== src/Partition/Path/Descent.antt =====
-- IsDescendantPath is the order of the quad tree (internal/partition/split.go).
use mmo.Prelude.{
  ℕ, ◌≤◌, ◌<◌, ◌≡◌, ◌↔◌, refl, true, List, [], ◌∷◌, ◌++◌, arith, length, length-append,
}
use mmo.Prelude.Int.{pos}
use mmo.Prelude.Text.{Text}
use mmo.Prelude.Result.{ok}
use mmo.Partition.Path.{same_start, is_descendant_path, parse_cell_path_id, child_id_for_quadrant}
use mmo.Partition.Path.Canonical.{
  path_id, parse-path_id, parse_canonical, child_id-path_id, IsPath-append,
}

-- One path goes on below another.
abbrev pub IsBelow : List ℕ → List ℕ → Type 0
IsBelow ps cs = (t : ℕ) × (ts : List ℕ) × (cs ≡ ps ++ (t ∷ ts))

same_start_sound :
    (ps cs : List ℕ) → same_start ps cs ≡ true → length ps < length cs → IsBelow ps cs
unfolding same_start
same_start_sound [] [] h l = absurd (omega arith)
same_start_sound [] (c ∷ cs) h l = (c, cs, refl)
same_start_sound (p ∷ ps) [] h l = cc
same_start_sound (p ∷ ps) (c ∷ cs) h l =
    let (t, ts, e) = same_start_sound ps cs (ground arith) (omega arith) in
    (t, ts, ground (arith, e))

same_start_complete : (ps cs : List ℕ) → same_start ps (ps ++ cs) ≡ true
unfolding same_start
same_start_complete [] cs = refl
same_start_complete (p ∷ ps) cs = ground (arith, same_start_complete ps cs)

-- Of two accepted ids, the second is a descendant exactly when its path goes on below the first's.
pub is_descendant_path_iff :
    (parent_id child_id : Text) (ps cs : List ℕ)
    → parse_cell_path_id parent_id ≡ ok ps
    → parse_cell_path_id child_id ≡ ok cs
    → (is_descendant_path parent_id child_id ≡ true) ↔ IsBelow ps cs
unfolding is_descendant_path
is_descendant_path_iff parent_id child_id ps cs hp hc =
    rw (hp, hc)
      (
        λ h. same_start_sound ps cs (ground arith) (ground arith),
        λ (t, ts, e).
            rw e (ground (arith, same_start_complete ps (t ∷ ts), length-append {0} ps (t ∷ ts))),
      )

-- A quadrant of an accepted cell gets an id that is accepted, whose path is the parent's with the
-- quadrant behind it, and that is a descendant of the parent.
pub parse-child_id :
    (parent_id : Text) (path : List ℕ) (q : ℕ)
    → parse_cell_path_id parent_id ≡ ok path
    → q ≤ 3
    → (child_id : Text) × (child_id_for_quadrant parent_id (pos q) ≡ ok child_id)
      × (parse_cell_path_id child_id ≡ ok (path ++ q ∷ []))
      × (is_descendant_path parent_id child_id ≡ true)
parse-child_id parent_id path q h small =
    let child = path_id (path ++ q ∷ []) in
    let known = IsPath-append path (q ∷ []) (parse_canonical parent_id path h).1 (small, tt) in
    let read = parse-path_id (path ++ q ∷ []) known in
    (
      child,
      child_id-path_id parent_id path q h small,
      read,
      (is_descendant_path_iff parent_id child path (path ++ q ∷ []) h read).1 (q, [], refl),
    )
