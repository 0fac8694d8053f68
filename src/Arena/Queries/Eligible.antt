-- ===== src/Arena/Queries/Eligible.antt =====
-- Whom `_next_challenger` picks.
use ninja_validator.Base.{
  ◌≤◌, ◌≡◌, refl, String, Bool, true, false, none, some, Option, List, [], ◌∷◌, arith, inl, inr,
  Bool-cases, Option-cases, contains, string_key, keep, ltb, subst, sym, ◌↔◌,
}
use mathlib.Core.List.{Memᴰ}
use native.Mathlib.Nat.{le_refl}
use ninja_validator.Arena.Tables.{King, Challenge, Submission, SubmissionStatus, Registration}
use ninja_validator.Arena.Queries.{
  king_ids, challenger_ids, on_current_registration, can_challenge, oldest, next_challenger,
}

module _ (p : Submission → Bool) where
  -- Every submission that passes is at least as young as `s`.
  abbrev pub NoOlder : Submission → List Submission → Type 0
  NoOlder s [] = Unit
  NoOlder s (x ∷ xs) = (p x ≡ true → s.block ≤ x.block) × NoOlder s xs

  abbrev pub NonePasses : List Submission → Type 0
  NonePasses [] = Unit
  NonePasses (x ∷ xs) = (p x ≡ false) × NonePasses xs

  NoOlder-mono :
      (s t : Submission) (xs : List Submission) → t.block ≤ s.block → NoOlder s xs → NoOlder t xs
  NoOlder-mono s t [] le h = tt
  NoOlder-mono s t (x ∷ xs) le h = (λ e. omega (arith, h.0 e), NoOlder-mono s t xs le h.1)

  NoOlder-of_none : (s : Submission) (xs : List Submission) → NonePasses xs → NoOlder s xs
  NoOlder-of_none s [] h = tt
  NoOlder-of_none s (x ∷ xs) h = (λ e. cc, NoOlder-of_none s xs h.1)

  pub none_passes : (xs : List Submission) → oldest (keep p xs) ≡ none → NonePasses xs
  unfolding oldest
  none_passes [] h = tt
  none_passes (x ∷ xs) h = (ground arith, none_passes xs (ground arith))

  oldest_passes :
      (s : Submission) (xs : List Submission)
      → oldest (keep p xs) ≡ some s
      → (p s ≡ true) × NoOlder s xs × Memᴰ s xs
  unfolding oldest
  oldest_passes s [] h = absurd (ground arith)
  oldest_passes s (x ∷ xs) h = elim (Bool-cases (p x)) [
    | inr e ↦
        let (passes, least, mem) = oldest_passes s xs (ground arith) in
        (passes, ((λ e'. cc), least), Memᴰ.tail mem)
    | inl e ↦ elim (Option-cases (oldest (keep p xs))) [
      | inl n ↦
          let here : x ≡ s = ground arith in
          subst (λ z. (p z ≡ true) × NoOlder z (x ∷ xs) × Memᴰ z (x ∷ xs)) here
            (e, (λ e'. le_refl _, NoOlder-of_none x xs (none_passes xs n)), Memᴰ.head refl)
      | inr (t, o) ↦
          let (passes, least, mem) = oldest_passes t xs o in
          elim (Bool-cases (ltb t.block x.block)) [
            | inl younger ↦
                let there : t ≡ s = ground arith in
                subst (λ z. (p z ≡ true) × NoOlder z (x ∷ xs) × Memᴰ z (x ∷ xs)) there
                  (passes, (λ e'. ground arith, least), Memᴰ.tail mem)
            | inr not_younger ↦
                let here : x ≡ s = ground arith in
                subst (λ z. (p z ≡ true) × NoOlder z (x ∷ xs) × Memᴰ z (x ∷ xs)) here
                  (e, (λ e'. le_refl _, NoOlder-mono t x xs (ground arith) least), Memᴰ.head refl)
          ]
    ]
  ]

module _ (meta : List Registration) (kings : List King) (challenges : List Challenge)
    (submissions : List Submission) where
  -- A submission that may be called to challenge.
  pub record MayChallenge (s : Submission) : Type 0 where
    pub eligible : s.status_id ≡ some SubmissionStatus.eligible
    pub registered : on_current_registration meta s ≡ true
    pub no_king : contains s.submission_id (king_ids kings) ≡ false
    pub no_challenger : contains s.submission_id (challenger_ids challenges) ≡ false

  can_challenge_iff :
      (s : Submission) → (can_challenge meta kings challenges s ≡ true) ↔ MayChallenge s
  unfolding can_challenge
  can_challenge_iff s = (λ h. ground arith, λ m. ground arith)

  abbrev passes : Submission → Bool
  passes = can_challenge meta kings challenges

  -- What an answer of `_next_challenger` says of the table.
  abbrev pub IsCall : Option String → Type 0
  IsCall none = NonePasses passes submissions
  IsCall (some id) =
      (s : Submission) × Memᴰ s submissions
      × (s.submission_id ≡ id)
      × MayChallenge s
      × NoOlder passes s submissions

  -- The challenger that is called is a submission of the table that is eligible, is on a current
  -- registration, and was never a king or a challenger, and no other such submission has a lower
  -- block. Where none is called, no submission passes.
  pub next_challenger_exact : IsCall (next_challenger meta kings challenges submissions)
  unfolding next_challenger
  next_challenger_exact = elim (Option-cases (oldest (keep passes submissions))) [
    | inl n ↦
        let e : next_challenger meta kings challenges submissions ≡ none = ground (arith, n) in
        subst IsCall (sym e) (none_passes passes submissions n)
    | inr (s, o) ↦
        let (ok, least, mem) = oldest_passes passes s submissions o in
        let e : next_challenger meta kings challenges submissions ≡ some s.submission_id =
          ground (arith, o) in
        subst IsCall (sym e) (s, mem, refl, (can_challenge_iff s).0 ok, least)
  ]

  pub called :
      (id : String) → next_challenger meta kings challenges submissions ≡ some id → IsCall (some id)
  called id h = subst IsCall h next_challenger_exact
