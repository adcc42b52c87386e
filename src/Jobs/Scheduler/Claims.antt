-- ===== src/Jobs/Scheduler/Claims.antt =====
-- The runs that a claim of retries selects.
use capere_ai.Base.{
  ℕ, ◌≡◌, refl, ap, Bool, true, ◌&&◌, not, List, [], ◌∷◌, map, arith, All, All-take, All-select,
  All-order_by,
}
use capere_ai.Jobs.Scheduler.{JobRun, ClaimedRun, is_retryable, run_ids, retry_rows, reclaimed}

abbrev pub claimed_ids : List ClaimedRun → List ℕ
claimed_ids = map (λ c. c.run_id)

pub claimed_ids-reclaimed : (rs : List JobRun) → claimed_ids (map reclaimed rs) ≡ run_ids rs
claimed_ids-reclaimed [] = refl
claimed_ids-reclaimed (r ∷ rs) = ap (λ l. r.id ∷ l) (claimed_ids-reclaimed rs)

-- What all runs have that the query can select, all runs that it selects have.
pub retry_rows-All {κ} :
    (P Q : JobRun → Type κ) (locked : ℕ → Bool) (now : ℕ) (runs : List JobRun)
    → ((r : JobRun) → P r → is_retryable now r ≡ true → Q r)
    → All P runs
    → All Q (retry_rows locked now runs)
unfolding retry_rows
retry_rows-All P Q locked now runs f h = All-take Q 20 _ (
    All-order_by Q _ _ (
      All-select P Q (λ r. is_retryable now r && not (locked r.id)) (λ r p e. f r p (ground arith))
        runs h))
