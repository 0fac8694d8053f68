-- ===== src/Arena/Tallies.antt =====
-- tau/db/duel_resolver.py: `_tally`, `_pool_token_totals` and `_usage_total_tokens`.
pub mod Judged
use ninja_validator.Base.{
  ℕ, ◌+◌, String, Bool, true, false, not, ◌&&◌, ◌||◌, Option, none, some, List, [], ◌∷◌, map, ltb,
  eqb, ◌==◌, string_key, count_if, length, is_some, if◌then◌else◌,
}
use ninja_validator.Base.Dict.{Dict, insert, lookup_or}
use ninja_validator.Floats.{Floats}
use ninja_validator.Duel.Snapshot.{PoolType, Tally}
use ninja_validator.Duel.Tokens.{
  TokenCount, missing, count, TokenEfficiencyConfig, TokenEfficiencyRound, TokenEfficiencyStats,
  calculate_token_efficiency,
}
use ninja_validator.Arena.Tables.{
  Scalar, int, Usage, scalar, mapping, Task, Judgement, DuelTaskSolution, Arena,
}
use ninja_validator.Arena.Queries.{same_pool}

-- The last two lines of `_usage_total_tokens`.
abbrev pub scalar_tokens : Scalar → Option ℕ
scalar_tokens (int n) = some n
scalar_tokens _ = none

-- `_usage_total_tokens`
unfoldable pub usage_total_tokens : Usage → Option ℕ
usage_total_tokens (scalar v) = scalar_tokens v
usage_total_tokens (mapping v) = scalar_tokens v

abbrev token_count : Option ℕ → TokenCount
token_count none = missing
token_count (some n) = count n

-- The outer join on a side's solution; the primary key leaves at most one row.
unfoldable pub solution_tokens : String → String → String → List DuelTaskSolution → Option ℕ
unfolding usage_total_tokens
solution_tokens task challenger side [] = none
solution_tokens task challenger side (s ∷ ss) =
    let rest = solution_tokens task challenger side ss in
    if s.task_id == task && (s.challenger_submission_id == challenger && s.submission_id == side)
    then usage_total_tokens s.total_tokens
    else rest

-- The local variables of `_pool_token_totals`.
pub record PoolTotals : Type 0 where
  pub totals : Dict String ℕ
  pub counts : Dict String ℕ
  pub complete : Dict String Bool

-- The body of its loop.
unfoldable pub add_solution : DuelTaskSolution → PoolTotals → PoolTotals
unfolding usage_total_tokens
add_solution row t =
    let counts' = insert row.submission_id (lookup_or 0 row.submission_id t.counts + 1) t.counts in
    elim (usage_total_tokens row.total_tokens) [
      | none ↦ record t { counts = counts'; complete = insert row.submission_id false t.complete }
      | some n ↦ record t {
        counts = counts';
        totals = insert row.submission_id (lookup_or 0 row.submission_id t.totals + n) t.totals;
      }
    ]

unfoldable pub add_solutions : List DuelTaskSolution → PoolTotals → PoolTotals
add_solutions [] t = t
add_solutions (row ∷ rows) t = add_solutions rows (add_solution row t)

-- The inner function `total`.
unfoldable pub side_total : ℕ → PoolTotals → String → Option ℕ
side_total minimum_rows t side =
    if ltb (lookup_or 0 side t.counts) minimum_rows || not (lookup_or false side t.complete)
    then none
    else some (lookup_or 0 side t.totals)

module _ (fl : Floats) where
  open fl use {Float, nought, of_int, sub, div, sum}

  -- `Task.king_id == king_id` and `Task.pool_type == pool`, for the task with this id.
  unfoldable pub has_pool_task : String → PoolType → String → List Task → Bool
  has_pool_task king pool task [] = false
  has_pool_task king pool task (t ∷ ts) =
      let rest = has_pool_task king pool task ts in
      if t.task_id == task && (t.king_id == king && same_pool t.pool_type pool) then true else rest

  -- The judgements that meet `conditions`; a task's id is its primary key, so the join is a test.
  unfoldable pub pool_judgements :
      Arena fl → String → String → PoolType → List (Judgement fl) → List (Judgement fl)
  pool_judgements db king challenger pool [] = []
  pool_judgements db king challenger pool (j ∷ js) =
      let rest = pool_judgements db king challenger pool js in
      if has_pool_task king pool j.task_id db.tasks
        && (j.king_submission_id == king && j.challenger_submission_id == challenger)
      then j ∷ rest
      else rest

  abbrev pub is_winner : String → Judgement fl → Bool
  is_winner name j = elim j.llm_winner [ none ↦ false | some w ↦ w == name ]

  -- Anything that is not a win of one side.
  abbrev pub is_tie : Judgement fl → Bool
  is_tie j = not (is_winner "king" j || is_winner "challenger" j)

  -- `scored_rows`
  unfoldable pub scored_rows : List (Judgement fl) → List (Float × Float)
  scored_rows [] = []
  scored_rows (j ∷ js) = elim j.king_score [
    | none ↦ scored_rows js
    | some k ↦ elim j.challenger_score [ none ↦ scored_rows js | some c ↦ (k, c) ∷ scored_rows js ]
  ]

  -- `sum(…) / scored if scored else 0.0`
  abbrev pub mean_of : List Float → Float
  mean_of xs = if eqb (length xs) 0 then nought else div (sum xs) (of_int (length xs))

  abbrev pub efficiency_round : Arena fl → String → String → Judgement fl → TokenEfficiencyRound fl
  efficiency_round db king challenger j = record {
    king_score = j.king_score;
    challenger_score = j.challenger_score;
    king_tokens = token_count (solution_tokens j.task_id challenger king db.solutions);
    challenger_tokens = token_count (solution_tokens j.task_id challenger challenger db.solutions);
    judgement_valid = not (is_some j.error);
  }

  -- The rows of `_pool_token_totals`.
  unfoldable pub pool_solutions :
      Arena fl → String → String → PoolType → List DuelTaskSolution → List DuelTaskSolution
  unfolding has_pool_task
  pool_solutions db king challenger pool [] = []
  pool_solutions db king challenger pool (s ∷ ss) =
      let rest = pool_solutions db king challenger pool ss in
      if has_pool_task king pool s.task_id db.tasks
        && (s.challenger_submission_id == challenger
            && (s.submission_id == king || s.submission_id == challenger))
      then s ∷ rest
      else rest

  -- `_pool_token_totals`
  unfoldable pub pool_token_totals : Arena fl → String → String → PoolType → ℕ → Option ℕ × Option ℕ
  unfolding add_solutions side_total pool_solutions
  pool_token_totals db king challenger pool minimum_rows =
      let start : PoolTotals = record {
        totals = insert challenger 0 ((king, 0) ∷ []);
        counts = insert challenger 0 ((king, 0) ∷ []);
        complete = insert challenger true ((king, true) ∷ []);
      } in
      let t = add_solutions (pool_solutions db king challenger pool db.solutions) start in
      (side_total minimum_rows t king, side_total minimum_rows t challenger)

  -- The `Tally` that `_tally` returns, from the rows, the token statistics and the totals.
  unfoldable pub tally_of :
      List (Judgement fl) → TokenEfficiencyStats fl → Option ℕ × Option ℕ → Tally fl
  unfolding scored_rows
  tally_of rows stats (king_total, challenger_total) =
      let scored = scored_rows rows in
      let king_mean = mean_of (map (λ p. p.0) scored) in
      let challenger_mean = mean_of (map (λ p. p.1) scored) in
      record {
        wins = count_if (is_winner "challenger") rows;
        losses = count_if (is_winner "king") rows;
        ties = count_if is_tie rows;
        king_score_mean = king_mean;
        challenger_score_mean = challenger_mean;
        score_mean_delta = sub challenger_mean king_mean;
        score_mean_rounds = length scored;
        king_total_tokens = king_total;
        challenger_total_tokens = challenger_total;
        token_comparison_rounds = stats.token_comparison_rounds;
        king_token_savings_mean = stats.king_savings_mean;
        challenger_token_savings_mean = stats.challenger_savings_mean;
        king_token_boost = stats.king_boost;
        challenger_token_boost = stats.challenger_boost;
      }

  -- `_tally`; `none` is the `ValueError` of the token calculation.
  unfoldable pub tally :
      Arena fl → String → String → PoolType → ℕ → TokenEfficiencyConfig fl → Option (Tally fl)
  unfolding pool_judgements pool_token_totals tally_of
  tally db king challenger pool pool_target config =
      let rows = pool_judgements db king challenger pool db.judgements in
      elim (calculate_token_efficiency fl (map (efficiency_round db king challenger) rows)
        pool_target config) [
          | none ↦ none
          | some stats ↦
              some (tally_of rows stats (pool_token_totals db king challenger pool (length rows)))
        ]
