-- ===== src/Arena/Writes.antt =====
-- tau/db/duel_resolver.py: the guarded writes. Each one is a transaction: it gives the new tables and
-- whether it applied. `now` is the database's clock when a king is inserted.
pub mod Status
pub mod Rank
use ninja_validator.Base.{
  ℕ, String, Bool, true, false, not, ◌&&◌, ◌||◌, List, [], ◌∷◌, ◌++◌, eqb, ◌==◌, string_key,
  contains, if◌then◌else◌,
}
use ninja_validator.Floats.{Floats}
use ninja_validator.Duel.Snapshot.{
  PoolType, pool_int, DuelScoringMethod, is_mean, round_wins, mean, ActiveChallenge,
}
use ninja_validator.Duel.Tokens.{TokenEfficiencyConfig}
use ninja_validator.Arena.Tables.{
  King, Challenge, ChallengeStatus, status_int, DuelOutcome, challenger_won, DuelResolution, Arena,
}
use ninja_validator.Arena.Queries.{king_ids, challenger_ids, same_pool}

-- The `where` of `_set_status`.
abbrev pub in_pool : String → PoolType → Challenge → Bool
in_pool id pool c = c.challenger_submission_id == id && eqb (status_int c.status) (pool_int pool)

-- The `update` of `_set_status`: the rows, and whether one of them fitted.
unfoldable pub set_status :
    String → PoolType → ChallengeStatus → List Challenge → List Challenge × Bool
set_status id pool new [] = ([], false)
set_status id pool new (c ∷ cs) =
    let (cs', changed) = set_status id pool new cs in
    if in_pool id pool c then (record c { status = new } ∷ cs', true) else (c ∷ cs', changed)

-- The rule settings that a verdict is recorded with.
pub record Rules (fl : Floats) : Type 0 where
  pub scoring_method : DuelScoringMethod
  pub round_win_margin : ℕ
  pub mean_score_margin : fl.Float
  pub token_efficiency : TokenEfficiencyConfig fl

-- `insert into kings … on conflict do nothing`
abbrev pub insert_king : ℕ → String → List King → List King
insert_king now id kings =
    if contains id (king_ids kings)
    then kings
    else kings ++ record { king_id = id; king_from = now } ∷ []

module _ (fl : Floats) where
  open fl use {Float, nought, add, sub}

  -- The row that `_record_resolution` writes.
  unfoldable pub resolution_row : ActiveChallenge fl → DuelOutcome → Rules fl → DuelResolution fl
  resolution_row challenge outcome rules =
      let t = challenge.tally in
      let applied = rules.token_efficiency.enabled && is_mean rules.scoring_method in
      let king_boost = if applied then t.king_token_boost else nought in
      let challenger_boost = if applied then t.challenger_token_boost else nought in
      record {
        challenger_submission_id = challenge.challenger_submission_id;
        pool_type = challenge.pool;
        outcome = outcome;
        challenger_wins = t.wins;
        challenger_losses = t.losses;
        ties = t.ties;
        best_of = challenge.pool_target;
        scoring_method = rules.scoring_method;
        round_win_margin = rules.round_win_margin;
        mean_score_margin = rules.mean_score_margin;
        king_score_mean = t.king_score_mean;
        challenger_score_mean = t.challenger_score_mean;
        score_mean_delta = t.score_mean_delta;
        score_mean_rounds = t.score_mean_rounds;
        token_bonus_enabled = applied;
        token_score_tolerance = rules.token_efficiency.score_tolerance;
        token_min_score = rules.token_efficiency.min_score;
        token_bonus_multiplier = rules.token_efficiency.bonus_multiplier;
        king_total_tokens = t.king_total_tokens;
        challenger_total_tokens = t.challenger_total_tokens;
        token_comparison_rounds = t.token_comparison_rounds;
        king_token_savings_mean = if applied then t.king_token_savings_mean else nought;
        challenger_token_savings_mean = if applied then t.challenger_token_savings_mean else nought;
        king_token_boost = king_boost;
        challenger_token_boost = challenger_boost;
        king_combined_score = add t.king_score_mean king_boost;
        challenger_combined_score = add t.challenger_score_mean challenger_boost;
        combined_score_delta = sub (add t.score_mean_delta challenger_boost) king_boost;
      }

  abbrev pub same_key : String → PoolType → DuelResolution fl → Bool
  same_key id pool r = r.challenger_submission_id == id && same_pool r.pool_type pool

  abbrev pub has_resolution : String → PoolType → List (DuelResolution fl) → Bool
  has_resolution id pool [] = false
  has_resolution id pool (r ∷ rs) = same_key id pool r || has_resolution id pool rs

  -- `_record_resolution`, with its `on conflict do nothing`
  unfoldable pub record_resolution :
      ActiveChallenge fl
      → DuelOutcome
      → Rules fl
      → List (DuelResolution fl)
      → List (DuelResolution fl)
  record_resolution challenge outcome rules rs =
      if has_resolution challenge.challenger_submission_id challenge.pool rs
      then rs
      else rs ++ resolution_row challenge outcome rules ∷ []

  unfoldable pub open_challenge : String → String → Arena fl → Arena fl × Bool
  open_challenge king challenger db =
      let row : Challenge = record {
        challenger_submission_id = challenger;
        king_id = king;
        status = ChallengeStatus.pool_one;
      } in
      if contains challenger (challenger_ids db.challenges)
      then (db, false)
      else (record db { challenges = db.challenges ++ row ∷ [] }, true)

  -- What `advance_pool`, `close_challenge` and `promote` share: the status under its guard, then
  -- the verdict.
  unfoldable pub resolve :
      ChallengeStatus → ActiveChallenge fl → DuelOutcome → Rules fl → Arena fl → Arena fl × Bool
  resolve new challenge outcome rules db =
      let (cs, changed) =
        set_status challenge.challenger_submission_id challenge.pool new db.challenges in
      if not changed then (db, false) else (
        record db {
          challenges = cs;
          resolutions = record_resolution challenge outcome rules db.resolutions;
        },
        true,
      )

  unfoldable pub advance_pool : ActiveChallenge fl → Rules fl → Arena fl → Arena fl × Bool
  advance_pool challenge rules db =
      resolve ChallengeStatus.pool_two challenge challenger_won rules db

  unfoldable pub close_challenge :
      ActiveChallenge fl → DuelOutcome → Rules fl → Arena fl → Arena fl × Bool
  close_challenge challenge outcome rules db =
      resolve ChallengeStatus.closed challenge outcome rules db

  unfoldable pub promote : ℕ → ActiveChallenge fl → Rules fl → Arena fl → Arena fl × Bool
  promote now challenge rules db =
      let (db', applied) = resolve ChallengeStatus.closed challenge challenger_won rules db in
      if not applied then (db, false) else (
        record db' { kings = insert_king now challenge.challenger_submission_id db'.kings },
        true,
      )
