-- ===== src/Partition/Path/Canonical.antt =====
-- The ids that ParseCellPathID accepts, and the paths that it returns, correspond one to one up to
-- spaces around the id; ChildIDForQuadrant adds one step to the path.
use mathlib.Core.List.{map-append}
use mathlib.Core.Path.{subst}
use mmo.Prelude.{
  ℕ, ◌-◌, ◌≤◌, ◌≡◌, refl, sym, ap, ◌∙◌, true, false, List, [], ◌∷◌, ◌++◌, map, All, arith,
  Bool-cases, inl, inr, text_eq, text_eq_iff, if◌then◌else◌,
}
use mmo.Prelude.Int.{pos}
use mmo.Prelude.Text.{Text, codes, trim_space, has_prefix, after, split_on, join}
use mmo.Prelude.Text.Trim.{HasNoSpace, HasNoSpace-append, trim_space-HasNoSpace}
use mmo.Prelude.Result.{Result, ok}
use mmo.Partition.Path.{
  root_cell_id, matches_quads, path_cell_id_re, segment, parse_segment, parse_segments,
  parse_cell_path_id, parse_trimmed, child_id_for_quadrant, PathError,
}

abbrev pub IsPath : List ℕ → Type 0
IsPath = All (λ q. q ≤ 3)

-- The steps of a path, as the id writes them.
abbrev pub steps : ℕ → List ℕ → Text
steps q qs = join (codes "_") (map segment (q ∷ qs))

-- The id of a path.
abbrev pub path_id : List ℕ → Text
path_id [] = root_cell_id
path_id (q ∷ qs) = codes "cell_" ++ steps q qs

matches_quads-steps : (q : ℕ) (qs : List ℕ) → IsPath (q ∷ qs) → matches_quads (steps q qs) ≡ true
unfolding matches_quads join
matches_quads-steps q [] h = ground arith
matches_quads-steps q (r ∷ qs) h = ground (arith, matches_quads-steps r qs h.1)

split_on-steps :
    (q : ℕ) (qs : List ℕ) → IsPath (q ∷ qs) → split_on b'_' (steps q qs) ≡ map segment (q ∷ qs)
unfolding split_on join
split_on-steps q [] h = ground arith
split_on-steps q (r ∷ qs) h = ground (arith, split_on-steps r qs h.1)

parse_segment-segment : (q : ℕ) → q ≤ 3 → parse_segment (segment q) ≡ ok q
unfolding parse_segment
parse_segment-segment q h = ground arith

parse_segments-steps : (qs : List ℕ) → IsPath qs → parse_segments (map segment qs) ≡ ok qs
unfolding parse_segments
parse_segments-steps [] h = refl
parse_segments-steps (q ∷ qs) h =
    ground (arith, parse_segment-segment q h.0, parse_segments-steps qs h.1)

steps-HasNoSpace : (q : ℕ) (qs : List ℕ) → IsPath (q ∷ qs) → HasNoSpace (steps q qs)
unfolding join
steps-HasNoSpace q [] h = ground arith
steps-HasNoSpace q (r ∷ qs) h = (refl, (ground arith, (refl, steps-HasNoSpace r qs h.1)))

pub path_id-HasNoSpace : (qs : List ℕ) → IsPath qs → HasNoSpace (path_id qs)
path_id-HasNoSpace [] h = ground arith
path_id-HasNoSpace (q ∷ qs) h =
    HasNoSpace-append (codes "cell_") (steps q qs) (ground arith) (steps-HasNoSpace q qs h)

steps_ne_root : (q : ℕ) (qs : List ℕ) → text_eq (steps q qs) (codes "root") ≡ false
unfolding join
steps_ne_root q [] = refl
steps_ne_root q (r ∷ qs) = refl

parse_trimmed-path_id : (qs : List ℕ) → IsPath qs → parse_trimmed (path_id qs) ≡ ok qs
unfolding parse_trimmed path_cell_id_re
parse_trimmed-path_id [] h = refl
parse_trimmed-path_id (q ∷ qs) h =
    rw (steps_ne_root q qs) (
      rw (matches_quads-steps q qs h)
        (rw (split_on-steps q qs h) (parse_segments-steps (q ∷ qs) h)))

-- The id of a path of quadrants 0 to 3 is accepted, and read as that path.
pub parse-path_id : (qs : List ℕ) → IsPath qs → parse_cell_path_id (path_id qs) ≡ ok qs
unfolding parse_cell_path_id
parse-path_id qs h =
    rw (trim_space-HasNoSpace (path_id qs) (path_id-HasNoSpace qs h)) (parse_trimmed-path_id qs h)

-- What the expression accepts behind "cell_" is the root or the steps of a path.
matches_quads_inv :
    (s : Text)
    → matches_quads s ≡ true
    → (q : ℕ) × (qs : List ℕ) × (s ≡ steps q qs) × IsPath (q ∷ qs)
unfolding matches_quads join
matches_quads_inv [] h = cc
matches_quads_inv (a ∷ []) h = cc
matches_quads_inv (a ∷ d ∷ []) h = (d - b'0', [], ground arith, ground arith)
matches_quads_inv (a ∷ d ∷ u ∷ rest) h =
    let (r, rs, e, p) = matches_quads_inv rest (ground arith) in
    (d - b'0', r ∷ rs, ground (arith, e), (ground arith, p))

has_prefix_inv : (p s : Text) → has_prefix p s ≡ true → s ≡ p ++ after p s
has_prefix_inv [] s h = refl
has_prefix_inv (p ∷ ps) [] h = cc
has_prefix_inv (p ∷ ps) (c ∷ s) h = ground (arith, has_prefix_inv ps s)

-- What stands behind "cell_" in an accepted id makes it the id of a path.
body_inv :
    (body : Text)
    → (if text_eq body (codes "root") then true else matches_quads body) ≡ true
    → (qs : List ℕ) × (codes "cell_" ++ body ≡ path_id qs) × IsPath qs
body_inv body h = elim (Bool-cases (text_eq body (codes "root"))) [
  | inl e ↦ ([], ap (λ (s : Text). codes "cell_" ++ s) ((text_eq_iff body (codes "root")).0 e), tt)
  | inr e ↦
      let (q, qs, eq, p) = matches_quads_inv body (ground arith) in
      (q ∷ qs, ap (λ (s : Text). codes "cell_" ++ s) eq, p)
]

path_cell_id_re_inv :
    (id : Text) → path_cell_id_re id ≡ true → (qs : List ℕ) × (id ≡ path_id qs) × IsPath qs
unfolding path_cell_id_re
path_cell_id_re_inv id h =
    let (qs, e, p) = body_inv (after (codes "cell_") id) (ground arith) in
    (qs, has_prefix_inv (codes "cell_") id (ground arith) ∙ e, p)

parse_trimmed_accepts :
    (id : Text) (qs : List ℕ) → parse_trimmed id ≡ ok qs → path_cell_id_re id ≡ true
unfolding parse_trimmed
parse_trimmed_accepts id qs h = ground arith

pub ok_injective : {a b : List ℕ} → ◌≡◌ {A = Result PathError (List ℕ)} (ok a) (ok b) → a ≡ b
ok_injective h = cc

parse_trimmed_inv :
    (id : Text) (qs : List ℕ) → parse_trimmed id ≡ ok qs → (id ≡ path_id qs) × IsPath qs
parse_trimmed_inv id qs h =
    let (rs, e, p) = path_cell_id_re_inv id (parse_trimmed_accepts id qs h) in
    let same : rs ≡ qs =
      ok_injective (sym (parse_trimmed-path_id rs p) ∙ ap parse_trimmed (sym e) ∙ h) in
    (e ∙ ap path_id same, subst IsPath same p)

-- An accepted id is, up to spaces around it, the id of the path that it is read as.
pub parse_canonical :
    (raw : Text) (qs : List ℕ)
    → parse_cell_path_id raw ≡ ok qs
    → (trim_space raw ≡ path_id qs) × IsPath qs
unfolding parse_cell_path_id
parse_canonical raw qs h = parse_trimmed_inv (trim_space raw) qs h

pub IsPath-append : (qs rs : List ℕ) → IsPath qs → IsPath rs → IsPath (qs ++ rs)
IsPath-append [] rs hq hr = hr
IsPath-append (q ∷ qs) rs hq hr = (hq.0, IsPath-append qs rs hq.1 hr)

path_id-snoc :
    (path : List ℕ) (q : ℕ)
    → codes "cell_" ++ join (codes "_") (map segment path ++ segment q ∷ [])
      ≡ path_id (path ++ q ∷ [])
path_id-snoc [] q = refl
path_id-snoc (p ∷ path) q = rw (map-append segment path (q ∷ []))

-- The child id of quadrant q is the id of the parent's path with q behind it.
pub child_id-path_id :
    (parent_id : Text) (path : List ℕ) (q : ℕ)
    → parse_cell_path_id parent_id ≡ ok path
    → q ≤ 3
    → child_id_for_quadrant parent_id (pos q) ≡ ok (path_id (path ++ q ∷ []))
unfolding child_id_for_quadrant
child_id-path_id parent_id path q h small = rw h (ground (arith, path_id-snoc path q))
