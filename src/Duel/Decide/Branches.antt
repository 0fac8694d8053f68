-- ===== src/Duel/Decide/Branches.antt =====
-- What each answer of `decide` says of the snapshot, and mean scoring.
use ninja_validator.Base.{
  ℕ, ◌<◌, ◌≡◌, ◌≢◌, refl, ◌↔◌, Bool, true, false, none, some, arith, String, ◌⊎◌, inl, inr,
  Bool-cases, Option-cases,
}
use ninja_validator.Floats.{Floats}
use ninja_validator.Duel.Snapshot.{
  DuelScoringMethod, PoolType, round_wins, mean, ActiveChallenge, ChallengeSnapshot, pool_one,
  pool_two, remaining, combined_score_delta,
}
use ninja_validator.Duel.Actions.{
  Action, nothing, open_challenge, advance_pool, promote, close_challenge, king_defended,
  challenger_deregistered, no_king, new_challenges_paused, pools_not_ready, no_challenger,
  duel_in_progress,
}
use ninja_validator.Duel.Decide.{
  decide, decide_by_method, decide_idle, decide_active, decide_with_mean_scoring_method,
}
use ninja_validator.Duel.Decide.RoundWins.{cleared}

module _ (fl : Floats) where
  open fl use {Float, le}

  -- A challenge that the snapshot shows as running, with its challenger still registered.
  abbrev Running : ChallengeSnapshot fl → ActiveChallenge fl → Type 0
  Running s a =
      (s.reigning_king_submission_id ≢ none)
      × (s.active_challenge ≡ some a)
      × (a.challenger_registered ≡ true)

  -- What each action asks of the snapshot and of the operator's pause.
  abbrev pub Justified : Bool → ChallengeSnapshot fl → Action fl → Type 0
  Justified paused s (nothing no_king) = s.reigning_king_submission_id ≡ none
  Justified paused s (nothing new_challenges_paused) = (paused ≡ true) × (s.active_challenge ≡ none)
  Justified paused s (nothing pools_not_ready) =
      (paused ≡ false) × (s.active_challenge ≡ none) × (s.task_pools_ready ≡ false)
  Justified paused s (nothing no_challenger) =
      (paused ≡ false) × (s.active_challenge ≡ none) × (s.next_challenger_submission_id ≡ none)
  Justified paused s (nothing duel_in_progress) = (a : ActiveChallenge fl) × Running s a
  Justified paused s (open_challenge king challenger) =
      (paused ≡ false)
      × (s.reigning_king_submission_id ≡ some king)
      × (s.active_challenge ≡ none)
      × (s.task_pools_ready ≡ true)
      × (s.next_challenger_submission_id ≡ some challenger)
  Justified paused s (advance_pool a) = Running s a × (a.pool ≡ pool_one)
  Justified paused s (promote a) = Running s a × (a.pool ≡ pool_two)
  Justified paused s (close_challenge a king_defended) = Running s a
  Justified paused s (close_challenge a challenger_deregistered) =
      (s.active_challenge ≡ some a) × (a.challenger_registered ≡ false)

  by_method-cases :
      (method : DuelScoringMethod) (m : ℕ) (mm : Float) (a : ActiveChallenge fl)
      → let action = decide_by_method fl method m mm a in
        (action ≡ cleared fl a.pool a)
        ⊎ (action ≡ close_challenge a king_defended)
        ⊎ (action ≡ nothing duel_in_progress)
  unfolding decide_by_method
  by_method-cases round_wins m mm a = ground arith
  by_method-cases mean m mm a = ground arith

  cleared-Justified :
      (p : PoolType) (paused : Bool) (s : ChallengeSnapshot fl) (a : ActiveChallenge fl)
      → Running s a
      → a.pool ≡ p
      → Justified paused s (cleared fl p a)
  cleared-Justified pool_one paused s a h e = (h, e)
  cleared-Justified pool_two paused s a h e = (h, e)

  active-Justified :
      (method : DuelScoringMethod) (m : ℕ) (mm : Float) (paused : Bool) (s : ChallengeSnapshot fl)
      (a : ActiveChallenge fl)
      → s.reigning_king_submission_id ≢ none
      → s.active_challenge ≡ some a
      → Justified paused s (decide_active fl method m mm a)
  unfolding decide_active
  active-Justified method m mm paused s a k e = elim (Bool-cases a.challenger_registered) [
    | inr gone ↦ simp gone (e, refl)
    | inl here ↦ simp here (elim (by_method-cases method m mm a) [
      | inl won ↦ simp won (cleared-Justified a.pool paused s a (k, e, here) refl)
      | inr (inl lost) ↦ simp lost (k, e, here)
      | inr (inr open_yet) ↦ simp open_yet (a, (k, e, here))
    ])
  ]

  idle-Justified :
      (king : String) (paused : Bool) (s : ChallengeSnapshot fl)
      → s.reigning_king_submission_id ≡ some king
      → s.active_challenge ≡ none
      → Justified paused s (decide_idle fl king s paused)
  unfolding decide_idle
  idle-Justified king true s k e = (refl, e)
  idle-Justified king false s k e = elim (Bool-cases s.task_pools_ready) [
    | inr wait ↦ simp wait (refl, e, refl)
    | inl ready ↦ simp ready (elim (Option-cases s.next_challenger_submission_id) [
      | inl nobody ↦ simp nobody (refl, e, refl)
      | inr (c, next) ↦ simp next (refl, k, e, ready, refl)
    ])
  ]

  module _ (method : DuelScoringMethod) (m : ℕ) (mm : Float) (paused : Bool)
      (s : ChallengeSnapshot fl) where
    decide_vacant :
        s.reigning_king_submission_id ≡ none → decide fl method m mm paused s ≡ nothing no_king
    unfolding decide
    decide_vacant k = ground arith

    decide_without_challenge :
        (king : String)
        → s.reigning_king_submission_id ≡ some king
        → s.active_challenge ≡ none
        → decide fl method m mm paused s ≡ decide_idle fl king s paused
    unfolding decide
    decide_without_challenge king k e = ground arith

    decide_with_challenge :
        {king : String} {a : ActiveChallenge fl}
        → s.reigning_king_submission_id ≡ some king
        → s.active_challenge ≡ some a
        → decide fl method m mm paused s ≡ decide_active fl method m mm a
    unfolding decide
    decide_with_challenge k e = ground arith

    -- Whatever `decide` answers, the snapshot and the pause call for it: it waits for the reason
    -- that it names; it opens the next challenger against the reigning king, when it is not paused,
    -- no challenge is active and the pools are ready; it advances the active challenge in pool one
    -- only and crowns in pool two only, with the challenger registered; and it closes the active
    -- challenge.
    pub decide-Justified : Justified paused s (decide fl method m mm paused s)
    decide-Justified = elim (Option-cases s.reigning_king_submission_id) [
      | inl vacant ↦ rw (decide_vacant vacant) vacant
      | inr (king, k) ↦ elim (Option-cases s.active_challenge) [
        | inl e ↦ rw (decide_without_challenge king k e) (idle-Justified king paused s k e)
        | inr (a, e) ↦
            rw (decide_with_challenge k e) (active-Justified method m mm paused s a (λ v. cc) e)
      ]
    ]

  -- Under mean scoring no pool is decided before its last round. Then the challenger clears it just
  -- when some round was scored and the delta, token boosts included, reaches the margin.
  pub mean_decides_at_end :
      (a : ActiveChallenge fl) (mm : Float)
      → let action = decide_with_mean_scoring_method fl a mm in
        ((action ≡ nothing duel_in_progress) ↔ (0 < remaining fl a))
        × ((action ≡ cleared fl a.pool a) ↔ (
            (remaining fl a ≡ 0)
            × (0 < a.tally.score_mean_rounds)
            × (le mm (combined_score_delta fl a.tally) ≡ true)))
  unfolding decide_with_mean_scoring_method
  mean_decides_at_end a mm = (
    (λ h. ground arith, λ h. ground arith),
    (λ h. (ground arith, ground arith, ground arith), λ h. ground arith),
  )
