-- ===== src/Judging/Blinding/Fair.antt =====
-- Blinding does not tell on the outcome.
use ninja_validator.Base.{ℕ, ◌%◌, ◌≡◌, refl, String, arith, eqb, inl, inr, Bool-cases}
use ninja_validator.Floats.{Floats}
use ninja_validator.Judging.Blinding.{
  CandidateWinner, candidate_a, candidate_b, Winner, blind, candidate_to_role, RawVerdict,
  Unblinded, unblind,
}

-- The same verdict with the candidates exchanged.
abbrev pub swap_winner : CandidateWinner → CandidateWinner
swap_winner candidate_a = candidate_b
swap_winner candidate_b = candidate_a
swap_winner CandidateWinner.tie = CandidateWinner.tie

swap_winner-role :
    (w : CandidateWinner) (a b : Winner)
    → candidate_to_role (swap_winner w) b a ≡ candidate_to_role w a b
swap_winner-role w a b = ground arith

-- The verdict on the king's patch as candidate a, by roles.
abbrev pub role_of : CandidateWinner → Winner
role_of candidate_a = Winner.king
role_of candidate_b = Winner.challenger
role_of CandidateWinner.tie = Winner.tie

role_of_winner :
    (w : CandidateWinner) → candidate_to_role w Winner.king Winner.challenger ≡ role_of w
role_of_winner w = ground arith

module _ (fl : Floats) where
  abbrev pub swap_verdict : RawVerdict fl → RawVerdict fl
  swap_verdict v = record v {
    winner = swap_winner v.winner;
    score_a = v.score_b;
    score_b = v.score_a;
  }

  -- The outcome of a judge that is shown the blinded patches.
  abbrev pub outcome :
      (String → ℕ)
      → (String → String → RawVerdict fl)
      → (seed king challenger : String) → Unblinded fl
  outcome first_byte judge seed king challenger =
      let b = blind first_byte seed king challenger in
      unblind fl b (judge b.candidate_a_patch b.candidate_b_patch)

  -- If the judge treats its two candidates alike, the unblinded outcome does not depend on the seed: the role that wins, or the
  -- tie, and the score of each role are those that the judge gives to the two patches when it is shown the king's as candidate a.
  pub unblind-blind :
      (first_byte : String → ℕ) (judge : String → String → RawVerdict fl)
      (seed king challenger : String)
      → judge challenger king ≡ swap_verdict (judge king challenger)
      → outcome first_byte judge seed king challenger ≡ record {
        winner = role_of (judge king challenger).winner;
        king_score = (judge king challenger).score_a;
        challenger_score = (judge king challenger).score_b;
      }
  unfolding blind unblind
  unblind-blind first_byte judge seed king challenger h =
      let w = (judge king challenger).winner in
      elim (Bool-cases (eqb (first_byte seed % 2) 0)) [
        | inl e ↦ rw e (rw (role_of_winner w) refl)
        | inr e ↦
            rw (e, h, swap_winner-role w Winner.king Winner.challenger) (rw (role_of_winner w) refl)
      ]
