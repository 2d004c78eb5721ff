-- ===== src/Grid/Thresholds.antt =====
-- The load thresholds of a cell (cmd/grid-manager/cell_thresholds.go: loadThresholds,
-- evalLoadThresholds; cell_probe.go: cellThresholdViolationKinds; cell_load_policy.go:
-- violationKinds). The flags 0 and 1 are Booleans, and so is the result withinLimits.
use mmo.Prelude.{
  ◌≡◌, refl, Bool, true, false, ◌&&◌, not, List, [], ◌∷◌, text-Eq, ◌==◌, if◌then◌else◌, none, some,
  Option,
}
use mmo.Prelude.Int.{ℤ, pos, pos_part, ltb_ℤ}
use mmo.Prelude.Text.{Text, codes, join, is_empty}
use mmo.Prelude.Dict.{Dict, get}
use mmo.Prelude.Float.{Float}

pub record LoadThresholds (F : Type 0) : Type 0 where
  pub max_players : ℤ
  pub max_entities : ℤ
  pub max_tick_sec : F

abbrev pub cell_threshold_violation_kinds : List Text
cell_threshold_violation_kinds =
    codes "players" ∷ codes "entities" ∷ codes "tick" ∷ codes "unreachable" ∷ []

abbrev pub flag : Option Bool → Bool
flag none = false
flag (some v) = v

-- The kinds of the list that the map flags.
unfoldable pub kinds_of : List Text → Dict Text Bool → List Text
unfolding get
kinds_of [] v = []
kinds_of (k ∷ ks) v = let rest = kinds_of ks v in if flag (get v k) then k ∷ rest else rest

unfoldable pub violation_kinds : Dict Text Bool → Text
unfolding kinds_of join
violation_kinds v = join (codes ",") (kinds_of cell_threshold_violation_kinds v)

-- The loop over the map: no kind but "unreachable" is flagged.
unfoldable pub none_over : Dict Text Bool → Bool
none_over [] = true
none_over ((k, v) ∷ rest) =
    let others = none_over rest in
    if k == codes "unreachable" then others else if v then false else others

module _ {F : Type 0} ⦃fl : Float F⦄ where
  abbrev pub over_count : ℤ → F → Bool
  over_count limit n = ltb_ℤ (pos 0) limit && fl.lt (fl.num (pos_part limit)) n

  abbrev pub over_tick : F → F → Bool
  over_tick limit t = fl.lt (fl.num 0) limit && fl.lt limit t

  unfoldable pub eval_load_thresholds : Bool → F → F → F → LoadThresholds F → Bool × Dict Text Bool
  unfolding none_over
  eval_load_thresholds reachable players entities tick_sec th =
      if not reachable
      then (
        false,
        (codes "players", false)
            ∷ (codes "entities", false)
            ∷ (codes "tick", false)
            ∷ (codes "unreachable", true)
            ∷ [],
      )
      else let violation =
          (codes "players", over_count th.max_players players)
          ∷ (codes "entities", over_count th.max_entities entities)
          ∷ (codes "tick", over_tick th.max_tick_sec tick_sec)
          ∷ (codes "unreachable", false)
          ∷ [] in
        (none_over violation, violation)

  -- A cell is within its limits exactly where no kind of violation is reported for it.
  pub eval_load_thresholds-violation_kinds :
      (reachable : Bool) (players entities tick_sec : F) (th : LoadThresholds F)
      → let (within, violation) = eval_load_thresholds reachable players entities tick_sec th in
        within ≡ is_empty (violation_kinds violation)
  unfolding eval_load_thresholds violation_kinds none_over kinds_of get join
  eval_load_thresholds-violation_kinds false players entities tick_sec th = refl
  eval_load_thresholds-violation_kinds true players entities tick_sec th =
      cases (over_count th.max_players players) (over_count th.max_entities entities)
        (over_tick th.max_tick_sec tick_sec)
    where
      cases :
          (a b c : Bool)
          → none_over (
              (codes "players", a)
              ∷ (codes "entities", b)
              ∷ (codes "tick", c)
              ∷ (codes "unreachable", false)
              ∷ [])
            ≡ is_empty (
                violation_kinds (
                  (codes "players", a)
                  ∷ (codes "entities", b)
                  ∷ (codes "tick", c)
                  ∷ (codes "unreachable", false)
                  ∷ []))
      cases true true true = refl
      cases true true false = refl
      cases true false true = refl
      cases true false false = refl
      cases false true true = refl
      cases false true false = refl
      cases false false true = refl
      cases false false false = refl
