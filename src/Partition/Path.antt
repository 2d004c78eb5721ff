-- ===== src/Partition/Path.antt =====
-- Ids of cells as paths in the quad tree (internal/partition/split.go).
pub mod Canonical
pub mod Descent
use mmo.Prelude.{
  ℕ, ◌+◌, ◌-◌, Bool, true, false, ◌&&◌, not, Option, none, some, List, [], ◌∷◌, ◌++◌, map, length,
  leb, ltb, nat_eq, ◌||◌, ◌≡◌, refl, text_eq, if◌then◌else◌,
}
use mmo.Prelude.Int.{ℤ, pos, pos_part, ltb_ℤ, wrap32}
use mmo.Prelude.Text.{Text, codes, trim_space, has_prefix, after, trim_prefix, split_on, join}
use mmo.Prelude.Result.{Result, ok, err, ◌>>=◌, ◌>>◌, fail_if}

pub data PathError : Type 0 where
  invalid_id : Text → PathError
  invalid_segment : Text → PathError
  invalid_quadrant : Text → PathError
  quadrant_out_of_range : ℤ → PathError

abbrev pub root_cell_id : Text
root_cell_id = codes "cell_root"

abbrev pub is_quad : ℕ → Bool
is_quad c = leb b'0' c && leb c b'3'

-- The expression q[0-3](?:_q[0-3])* up to the end of the text.
unfoldable pub matches_quads : Text → Bool
matches_quads (q ∷ d ∷ []) = nat_eq q b'q' && is_quad d
matches_quads (q ∷ d ∷ u ∷ rest) = nat_eq q b'q' && is_quad d && nat_eq u b'_' && matches_quads rest
matches_quads _ = false

-- pathCellIDRe, ^cell_(root|q[0-3](?:_q[0-3])*)$
unfoldable pub path_cell_id_re : Text → Bool
unfolding matches_quads
path_cell_id_re id =
    has_prefix (codes "cell_") id
    && (let body = after (codes "cell_") id in
        if text_eq body (codes "root") then true else matches_quads body)

-- strconv.Atoi of a text of one character
abbrev pub atoi_digit : ℕ → Option ℕ
atoi_digit c = if leb b'0' c && leb c b'9' then some (c - b'0') else none

abbrev pub check_quad : Text → Option ℕ → Result PathError ℕ
check_quad p none = err (invalid_quadrant p)
check_quad p (some q) = if ltb 3 q then err (invalid_quadrant p) else ok q

unfoldable pub parse_segment : Text → Result PathError ℕ
parse_segment (q ∷ d ∷ []) =
    if nat_eq q b'q'
    then check_quad (q ∷ d ∷ []) (atoi_digit d)
    else err (invalid_segment (q ∷ d ∷ []))
parse_segment p = err (invalid_segment p)

unfoldable pub parse_segments : List Text → Result PathError (List ℕ)
unfolding parse_segment
parse_segments [] = ok []
parse_segments (p ∷ parts) =
    let rest = parse_segments parts in parse_segment p >>= λ q. rest >>= λ qs. ok (q ∷ qs)

-- ParseCellPathID behind its first line.
unfoldable pub parse_trimmed : Text → Result PathError (List ℕ)
unfolding parse_segments
parse_trimmed id =
    let body = trim_prefix (codes "cell_") id in
    if not (path_cell_id_re id)
    then err (invalid_id id)
    else if text_eq body (codes "root")
    then ok []
    else parse_segments (split_on b'_' body)

unfoldable pub parse_cell_path_id : Text → Result PathError (List ℕ)
unfolding parse_trimmed
parse_cell_path_id id = parse_trimmed (trim_space id)

abbrev pub level_of : Result PathError (List ℕ) → Option ℤ
level_of (err e) = none
level_of (ok path) = some (wrap32 (pos (length path)))

unfoldable pub cell_path_level : Text → Option ℤ
unfolding parse_cell_path_id
cell_path_level id = level_of (parse_cell_path_id id)

-- fmt.Sprintf("q%d", q), for q below 10
abbrev pub segment : ℕ → Text
segment q = b'q' ∷ (b'0' + q) ∷ []

unfoldable pub child_id_for_quadrant : Text → ℤ → Result PathError Text
unfolding parse_cell_path_id
child_id_for_quadrant parent_id q =
    if ltb_ℤ q (pos 0) || ltb_ℤ (pos 3) q then err (quadrant_out_of_range q) else do
      path ← parse_cell_path_id parent_id
      let parts = map segment path ++ segment (pos_part q) ∷ []
      ok (codes "cell_" ++ join (codes "_") parts)

-- The loop over the parent's path. It runs only where the child's path is longer.
unfoldable pub same_start : List ℕ → List ℕ → Bool
same_start [] cs = true
same_start (p ∷ ps) [] = false
same_start (p ∷ ps) (c ∷ cs) = nat_eq p c && same_start ps cs

abbrev pub descends : Result PathError (List ℕ) → Result PathError (List ℕ) → Bool
descends (ok parent) (ok child) =
    if leb (length child) (length parent) then false else same_start parent child
descends (ok parent) (err e) = false
descends (err e) _ = false

unfoldable pub is_descendant_path : Text → Text → Bool
unfolding parse_cell_path_id same_start
is_descendant_path parent_id child_id =
    descends (parse_cell_path_id parent_id) (parse_cell_path_id child_id)

samples :
    (parse_cell_path_id (codes " cell_q0_q3 ") ≡ ok (0 ∷ 3 ∷ []))
    × (parse_cell_path_id (codes "cell_root") ≡ ok [])
    × (child_id_for_quadrant (codes "cell_q2") (pos 1) ≡ ok (codes "cell_q2_q1"))
    × (is_descendant_path (codes "cell_root") (codes "cell_q0_q3") ≡ true)
    × (parse_cell_path_id (codes "cell_q4") ≡ err (invalid_id (codes "cell_q4")))
unfolding parse_cell_path_id child_id_for_quadrant is_descendant_path path_cell_id_re split_on join
    trim_space
samples = (refl, refl, refl, refl, refl)
