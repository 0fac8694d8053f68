-- ===== src/Qualification/Worker/Head.antt =====
-- A candidate whose qualification cannot be run.
use ninja_validator.Base.{
  ℕ, ◌≡◌, refl, ◌∙◌, String, Bool, true, false, Option, some, List, [], ◌∷◌, All, arith,
}
use ninja_validator.Floats.{Floats}
use ninja_validator.Arena.Tables.{Arena}
use ninja_validator.Tasks.Qualification.{
  QualificationCandidate, has_unverified, next_candidate, save_qualification_error,
}
use ninja_validator.Qualification.Worker.{raised, run_once, Poll, poll_repeatedly}

module _ (fl : Floats) (lower : List ℕ → List ℕ) (is_space : ℕ → Bool)
    (text_le : String → String → Bool) (window_size : ℕ) where
  abbrev next : Arena fl → Option QualificationCandidate
  next = next_candidate fl text_le window_size

  -- An error leaves the queue as it is.
  next-error :
      (id error : String) (available : Bool) (db : Arena fl)
      → next (save_qualification_error fl id error available db).0 ≡ next db
  unfolding next_candidate save_qualification_error
  next-error id error available db =
      elim (has_unverified id db.submissions)
          as (λ b.
            has_unverified id db.submissions ≡ b
            → next (save_qualification_error fl id error available db).0 ≡ next db) [
              | true ↦ λ e. ground arith
              | false ↦ λ e. ground arith
            ]
        refl

  submissions-error :
      (id error : String) (available : Bool) (db : Arena fl)
      → (save_qualification_error fl id error available db).0.submissions ≡ db.submissions
  unfolding save_qualification_error
  submissions-error id error available db = ground arith

  -- The qualification of this candidate raises in the poll.
  abbrev pub RaisesOn : QualificationCandidate → Poll → Type 0
  RaisesOn c poll = (error : String) × (poll.0 c ≡ raised error)

  raise_stays :
      (c : QualificationCandidate) (poll : Poll) (db : Arena fl)
      → next db ≡ some c
      → RaisesOn c poll
      → (next (run_once fl lower is_space text_le window_size poll.0 poll.1 db).0 ≡ some c)
        × ((run_once fl lower is_space text_le window_size poll.0 poll.1 db).0.submissions
            ≡ db.submissions)
  unfolding run_once
  raise_stays c poll db h (error, r) = (
    ground (arith, next-error c.submission_id error poll.1 db),
    ground (arith, submissions-error c.submission_id error poll.1 db),
  )

  -- While the qualification of the candidate at the head of the queue raises in each poll (its bundle is missing, say), and nothing
  -- else is written: after any number of polls it is still the candidate, and no submission's status has changed.
  pub poll_repeatedly-starves :
      (c : QualificationCandidate) (polls : List Poll) (db : Arena fl)
      → next_candidate fl text_le window_size db ≡ some c
      → All (RaisesOn c) polls
      → (next_candidate fl text_le window_size
            (poll_repeatedly fl lower is_space text_le window_size polls db)
          ≡ some c)
        × ((poll_repeatedly fl lower is_space text_le window_size polls db).submissions
            ≡ db.submissions)
  unfolding poll_repeatedly
  poll_repeatedly-starves c [] db h r = (h, refl)
  poll_repeatedly-starves c (poll ∷ polls) db h (a, r) =
      let db' = (run_once fl lower is_space text_le window_size poll.0 poll.1 db).0 in
      let (stays, same) = raise_stays c poll db h a in
      let (later, kept) = poll_repeatedly-starves c polls db' stays r in (later, kept ∙ same)
