-- ===== src/Grid/Workflow/Retry.antt =====
-- The retry loop of a workflow (cmd/grid-manager/split_workflow.go, merge_workflow.go: run).
use mmo.Prelude.{
  ℕ, zero, suc, ◌+◌, ◌≤◌, ◌<◌, ◌≡◌, refl, sym, ◌∙◌, Bool, true, false, List, [], ◌∷◌, All, length,
  arith, Bool-cases, inl, inr, ◌==◌, ℕ-Eq, eq_iff,
}
use mmo.Prelude.Int.{ℤ, leb_ℤ, ltb_ℤ, ◌+ℤ◌}
use mmo.Prelude.Result.{Result, ok, err}
use mmo.Grid.Workflow.{
  RunEnd, done, cancelled, out_of_retries, Run, after_attempt, attempts, run, next_backoff, wrap64,
}

-- The end of a loop over so many attempts from the first on, with so many waits.
abbrev pub IsEnd : ℕ → ℕ → RunEnd → ℕ → Type 0
IsEnd first left (done k) waits = (first + waits ≡ k) × (waits < left)
IsEnd first left (cancelled k) waits = (first + waits ≡ k) × (waits < left)
IsEnd first left out_of_retries waits = waits ≡ left

-- All waits but the first are at most the cap.
abbrev pub IsCapped : ℤ → List ℤ → Type 0
IsCapped cap [] = Unit
IsCapped cap (w ∷ ws) = All (λ v. leb_ℤ v cap ≡ true) ws

next_backoff-capped : (cap b : ℤ) → leb_ℤ (next_backoff cap b) cap ≡ true
unfolding next_backoff
next_backoff-capped cap b = elim (Bool-cases (ltb_ℤ cap (wrap64 (b +ℤ b)))) [
  | inl e ↦ rw e (ground arith)
  | inr e ↦ rw e (ground (arith, e))
]

-- The run ends with a success by the attempt.
abbrev pub IsDoneBy : ℕ → RunEnd → Type 0
IsDoneBy n (done k) = k ≤ n
IsDoneBy n (cancelled k) = ⊥
IsDoneBy n out_of_retries = ⊥

module _ {S E : Type 0} (run_once : ℕ → S → S × Result E (Unit {0})) (stopped : ℕ → Bool)
    (cap : ℤ) where
  IsEnd-after_attempt :
      (first left : ℕ) (b : ℤ) (s : S) (r : Result E (Unit {0})) (rest : Run S) (t : Bool)
      → IsEnd (suc first) left rest.1 (length rest.2)
      → IsEnd first
          (suc left)
          (after_attempt t first b s r rest).1
          (length (after_attempt t first b s r rest).2)
  IsEnd-after_attempt first left b s (ok u) rest t e = (omega arith, omega arith)
  IsEnd-after_attempt first left b s (err x) rest true e = (omega arith, omega arith)
  IsEnd-after_attempt first left b s (err x) (s', done k, ws) false (at, few) =
      (omega (arith, at), omega (arith, few))
  IsEnd-after_attempt first left b s (err x) (s', cancelled k, ws) false (at, few) =
      (omega (arith, at), omega (arith, few))
  IsEnd-after_attempt first left b s (err x) (s', out_of_retries, ws) false e = omega (arith, e)

  attempts-IsEnd :
      (left first : ℕ) (b : ℤ) (s : S)
      → IsEnd first left
          (attempts run_once stopped cap left first b s).1
          (length (attempts run_once stopped cap left first b s).2)
  unfolding attempts
  attempts-IsEnd zero first b s = refl
  attempts-IsEnd (suc left) first b s =
      let (s', r) = run_once first s in
      IsEnd-after_attempt first left b s' r
        (attempts run_once stopped cap left (suc first) (next_backoff cap b) s') (stopped first)
        (attempts-IsEnd left (suc first) (next_backoff cap b) s')

  after-capped :
      (first : ℕ) (b : ℤ) (s : S) (r : Result E (Unit {0})) (rest : Run S) (t : Bool)
      → leb_ℤ b cap ≡ true
      → All (λ v. leb_ℤ v cap ≡ true) rest.2
      → All (λ v. leb_ℤ v cap ≡ true) (after_attempt t first b s r rest).2
  after-capped first b s (ok u) rest t low caps = tt
  after-capped first b s (err x) rest true low caps = tt
  after-capped first b s (err x) (s', e, ws) false low caps = (low, caps)

  attempts-capped :
      (left first : ℕ) (b : ℤ) (s : S)
      → leb_ℤ b cap ≡ true
      → All (λ v. leb_ℤ v cap ≡ true) (attempts run_once stopped cap left first b s).2
  unfolding attempts
  attempts-capped zero first b s low = tt
  attempts-capped (suc left) first b s low =
      let (s', r) = run_once first s in
      after-capped first b s' r
        (attempts run_once stopped cap left (suc first) (next_backoff cap b) s') (stopped first) low
        (attempts-capped left (suc first) (next_backoff cap b) s' (next_backoff-capped cap b))

  after-IsCapped :
      (first : ℕ) (b : ℤ) (s : S) (r : Result E (Unit {0})) (rest : Run S) (t : Bool)
      → All (λ v. leb_ℤ v cap ≡ true) rest.2
      → IsCapped cap (after_attempt t first b s r rest).2
  after-IsCapped first b s (ok u) rest t caps = tt
  after-IsCapped first b s (err x) rest true caps = tt
  after-IsCapped first b s (err x) (s', e, ws) false caps = caps

  attempts-IsCapped :
      (left first : ℕ) (b : ℤ) (s : S)
      → IsCapped cap (attempts run_once stopped cap left first b s).2
  unfolding attempts
  attempts-IsCapped zero first b s = tt
  attempts-IsCapped (suc left) first b s =
      let (s', r) = run_once first s in
      after-IsCapped first b s' r
        (attempts run_once stopped cap left (suc first) (next_backoff cap b) s') (stopped first)
        (attempts-capped left (suc first) (next_backoff cap b) s' (next_backoff-capped cap b))

  -- A workflow ends after at most the configured number of attempts, whatever each attempt does: it
  -- succeeds or is cancelled in an attempt k after k - 1 waits, or it gives up after as many waits as
  -- there are attempts. Every wait but the first is at most the largest backoff, also where doubling
  -- it overflows.
  pub run-IsEnd :
      (max_retries : ℕ) (initial_backoff : ℤ) (s : S)
      → let (s', end, waits) = run run_once stopped cap max_retries initial_backoff s in
        IsEnd 1 max_retries end (length waits) × IsCapped cap waits
  unfolding run
  run-IsEnd max_retries initial_backoff s = (
    attempts-IsEnd max_retries 1 initial_backoff s,
    attempts-IsCapped max_retries 1 initial_backoff s,
  )

  after-IsDoneBy :
      (n first : ℕ) (b : ℤ) (s : S) (r : Result E (Unit {0})) (rest : Run S) (t : Bool)
      → t ≡ false
      → first ≤ n
      → ((x : E) → r ≡ err x → IsDoneBy n rest.1)
      → IsDoneBy n (after_attempt t first b s r rest).1
  after-IsDoneBy n first b s (ok u) rest t go early later = early
  after-IsDoneBy n first b s (err x) rest true go early later = cc
  after-IsDoneBy n first b s (err x) (s', e, ws) false go early later = later x refl

  attempts-IsDoneBy :
      (n left first : ℕ) (b : ℤ) (s : S)
      → ((k : ℕ) → stopped k ≡ false)
      → ((s : S) → (run_once n s).1 ≡ ok tt)
      → first ≤ n
      → n < first + left
      → IsDoneBy n (attempts run_once stopped cap left first b s).1
  unfolding attempts
  attempts-IsDoneBy n zero first b s go good early soon = absurd (omega (arith, early, soon))
  attempts-IsDoneBy n (suc left) first b s go good early soon =
      let (s', r) = run_once first s in
      after-IsDoneBy n first b s' r
        (attempts run_once stopped cap left (suc first) (next_backoff cap b) s') (stopped first)
        (go first) early
        (λ x failed. elim (Bool-cases (first == n)) [
          | inl same ↦ absurd (refuted (sym (rw ((eq_iff first n).0 same) at failed) ∙ good s))
          | inr differ ↦
              attempts-IsDoneBy n left (suc first) (next_backoff cap b) s' go good
                (ground (arith, differ, early)) (omega (arith, soon))
        ])
    where
      refuted : {x : E} → ◌≡◌ {A = Result E (Unit {0})} (err x) (ok tt) → ⊥
      refuted h = cc

  -- Where the attempt of some number within the retries always succeeds, and the context does not
  -- end, the workflow succeeds, in that attempt or an earlier one.
  pub run-IsDoneBy :
      (n max_retries : ℕ) (initial_backoff : ℤ) (s : S)
      → ((k : ℕ) → stopped k ≡ false)
      → ((s : S) → (run_once n s).1 ≡ ok tt)
      → 1 ≤ n
      → n ≤ max_retries
      → IsDoneBy n (run run_once stopped cap max_retries initial_backoff s).1
  unfolding run
  run-IsDoneBy n max_retries initial_backoff s go good first last =
      attempts-IsDoneBy n max_retries 1 initial_backoff s go good first (omega (arith, last))
