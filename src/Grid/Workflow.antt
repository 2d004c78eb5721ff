-- ===== src/Grid/Workflow.antt =====
-- The workflows that split and merge cells (cmd/grid-manager/split_workflow.go and
-- merge_workflow.go: maybeStart, run). One attempt (runOnce) is a parameter of the retry loop, and so
-- is whether the context ends during the wait after an attempt. A duration is an int64 in nanoseconds.
pub mod Retry
pub mod Active
use mmo.Prelude.{
  ℕ, zero, suc, ◌+◌, ◌-◌, ◌%◌, ◌^◌, Bool, true, false, not, ◌&&◌, ◌||◌, Option, none, some, List,
  [], ◌∷◌, ltb, leb, text-Eq, ◌==◌, if◌then◌else◌,
}
use mmo.Prelude.Int.{ℤ, pos, negsuc, pos_part, neg_part, ◌+ℤ◌, ltb_ℤ, leb_ℤ}
use mmo.Prelude.Text.{Text, trim_space, is_empty}
use mmo.Prelude.Dict.{Set, has, put, remove, size}
use mmo.Prelude.Result.{Result, ok, err}
use mmo.Partition.Path.{cell_path_level}

pub record SplitWorkflowConfig : Type 0 where
  pub enabled : Bool
  pub max_retries : ℕ
  pub initial_backoff : ℤ
  pub max_backoff : ℤ
  pub max_level : ℤ  -- int32
  pub max_concurrent : ℕ
  pub blocked_cells : Set Text

pub record MergeWorkflowConfig : Type 0 where
  pub enabled : Bool
  pub max_retries : ℕ
  pub initial_backoff : ℤ
  pub max_backoff : ℤ
  pub blocked_parents : Set Text

-- The int64 that the integer wraps to.
abbrev pub wrap64 : ℤ → ℤ
wrap64 a =
    let r = (pos_part a + (2 ^ 64 - neg_part a % 2 ^ 64)) % 2 ^ 64 in
    if ltb r (2 ^ 63) then pos r else negsuc (2 ^ 64 - r - 1)

-- backoff *= 2, and the cap
unfoldable pub next_backoff : ℤ → ℤ → ℤ
next_backoff max_backoff backoff =
    let doubled = wrap64 (backoff +ℤ backoff) in
    if ltb_ℤ max_backoff doubled then max_backoff else doubled

-- How a run ends: in which attempt it succeeds or is cancelled, or that no attempt is left.
pub data RunEnd : Type 0 where
  done : ℕ → RunEnd
  cancelled : ℕ → RunEnd
  out_of_retries : RunEnd

-- The state, the end, and the waits between the attempts.
abbrev pub Run : Type 0 → Type 0
Run S = S × RunEnd × List ℤ

abbrev pub after_attempt : {S E : Type 0} → Bool → ℕ → ℤ → S → Result E (Unit {0}) → Run S → Run S
after_attempt stopped attempt backoff s (ok u) rest = (s, done attempt, [])
after_attempt true attempt backoff s (err e) rest = (s, cancelled attempt, [])
after_attempt false attempt backoff s (err e) (s', end, waits) = (s', end, backoff ∷ waits)

module _ {S E : Type 0} (run_once : ℕ → S → S × Result E (Unit {0})) (stopped : ℕ → Bool)
    (max_backoff : ℤ) where
  -- The loop over the attempts, of which so many are left.
  unfoldable pub attempts : ℕ → ℕ → ℤ → S → Run S
  attempts zero attempt backoff s = (s, out_of_retries, [])
  attempts (suc left) attempt backoff s =
      let (s', result) = run_once attempt s in
      let rest = attempts left (suc attempt) (next_backoff max_backoff backoff) s' in
      after_attempt (stopped attempt) attempt backoff s' result rest

  unfoldable pub run : ℕ → ℤ → S → Run S
  unfolding attempts
  run max_retries initial_backoff s = attempts max_retries 1 initial_backoff s

abbrev pub too_deep : SplitWorkflowConfig → Option ℤ → Bool
too_deep cfg none = false
too_deep cfg (some level) = ltb_ℤ (pos 0) cfg.max_level && leb_ℤ cfg.max_level level

-- The active workflows after the call, and whether it starts one.
unfoldable pub split_maybe_start : SplitWorkflowConfig → Set Text → Text → Set Text × Bool
split_maybe_start cfg active cell =
    let cell_id = trim_space cell in
    if not cfg.enabled || is_empty cell_id
    then (active, false)
    else if has cfg.blocked_cells cell_id || too_deep cfg (cell_path_level cell_id)
    then (active, false)
    else if ltb 0 cfg.max_concurrent && leb cfg.max_concurrent (size active)
    then (active, false)
    else if has active cell_id
    then (active, false)
    else (put active cell_id tt, true)

unfoldable pub merge_maybe_start : MergeWorkflowConfig → Set Text → Text → Set Text × Bool
merge_maybe_start cfg active parent =
    let parent_id = trim_space parent in
    if not cfg.enabled || is_empty parent_id
    then (active, false)
    else if has cfg.blocked_parents parent_id
    then (active, false)
    else if has active parent_id
    then (active, false)
    else (put active parent_id tt, true)

-- The deferred end of a run.
unfoldable pub run_ended : Set Text → Text → Set Text
run_ended active cell_id = remove active cell_id
