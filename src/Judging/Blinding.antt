-- ===== src/Judging/Blinding.antt =====
-- tau/judging/blinding.py and the verdicts of tau/judging/parsing.py, from the fields of the JSON
-- object on. The first byte of SHA-256 is a parameter, `first_byte`.
pub mod Fair
use ninja_validator.Base.{
  ℕ, ◌%◌, String, Bool, true, false, Option, none, some, eqb, ◌==◌, string_key, if◌then◌else◌,
}
use ninja_validator.Floats.{Floats}

pub data CandidateWinner : Type 0 where
  candidate_a candidate_b tie : CandidateWinner

pub data Winner : Type 0 where
  king challenger tie : Winner

pub record Blinded : Type 0 where
  pub candidate_a_patch : String
  pub candidate_b_patch : String
  pub a_is_king : Bool

unfoldable pub blind : (String → ℕ) → (seed king_patch challenger_patch : String) → Blinded
blind first_byte seed king_patch challenger_patch =
    if eqb (first_byte seed % 2) 0
    then record {
      candidate_a_patch = king_patch;
      candidate_b_patch = challenger_patch;
      a_is_king = true;
    }
    else record {
      candidate_a_patch = challenger_patch;
      candidate_b_patch = king_patch;
      a_is_king = false;
    }

-- `_candidate_to_role`
abbrev pub candidate_to_role : CandidateWinner → (a b : Winner) → Winner
candidate_to_role candidate_a a b = a
candidate_to_role candidate_b a b = b
candidate_to_role CandidateWinner.tie a b = Winner.tie

module _ (fl : Floats) where
  open fl use {Float, nought, unit, of_int, div, ratio, lt}

  pub record RawVerdict : Type 0 where
    pub winner : CandidateWinner
    pub score_a : Float
    pub score_b : Float
    pub rationale : String

  pub record Unblinded : Type 0 where
    pub winner : Winner
    pub king_score : Float
    pub challenger_score : Float

  unfoldable pub unblind : Blinded → RawVerdict → Unblinded
  unblind blinded verdict =
      if blinded.a_is_king
      then record {
        winner = candidate_to_role verdict.winner Winner.king Winner.challenger;
        king_score = verdict.score_a;
        challenger_score = verdict.score_b;
      }
      else record {
        winner = candidate_to_role verdict.winner Winner.challenger Winner.king;
        king_score = verdict.score_b;
        challenger_score = verdict.score_a;
      }

  -- `_clamp01`: Python's `min(1.0, x)` and `max(0.0, x)` keep the first of two equal values.
  abbrev pub clamp01 : Float → Float
  clamp01 value =
      let low = if lt value unit then value else unit in if lt nought low then low else nought

  -- `_score_0_to_1`, of what `float` made of the field
  abbrev pub score_0_to_1 : Option Float → Option Float
  score_0_to_1 none = none
  score_0_to_1 (some value) = some (clamp01 (div value (of_int 100)))

  -- `_scores_from_winner`; 0.5 is 1 / 2.
  unfoldable pub scores_from_winner : String → Float × Float
  scores_from_winner winner =
      if winner == "candidate_a"
      then (unit, nought)
      else if winner == "candidate_b"
      then (nought, unit)
      else (ratio 1 2, ratio 1 2)

  -- `_declared_winner`
  unfoldable pub declared_winner : String → Float → Float → CandidateWinner
  declared_winner winner_token score_a score_b =
      if winner_token == "candidate_a"
      then candidate_a
      else if winner_token == "candidate_b"
      then candidate_b
      else if winner_token == "tie"
      then CandidateWinner.tie
      else if lt score_b score_a
      then candidate_a
      else if lt score_a score_b
      then candidate_b
      else CandidateWinner.tie

  -- The scores that `parse_verdict` uses: both as stated, or both from the winner.
  unfoldable pub scores_of : String → Option Float → Option Float → Float × Float
  scores_of winner_token (some score_a) (some score_b) = (score_a, score_b)
  scores_of winner_token _ _ = scores_from_winner winner_token

  -- `parse_verdict`, from the payload's winner token, scores and rationale.
  unfoldable pub parse_fields : String → Option Float → Option Float → String → RawVerdict
  parse_fields winner_token raw_a raw_b rationale =
      let (a, b) = scores_of winner_token (score_0_to_1 raw_a) (score_0_to_1 raw_b) in
      record {
        winner = declared_winner winner_token a b;
        score_a = a;
        score_b = b;
        rationale = rationale;
      }
