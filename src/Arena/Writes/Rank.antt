-- ===== src/Arena/Writes/Rank.antt =====
-- How far each challenge has come, and the verdicts recorded on the way.
use ninja_validator.Base.{
  ℕ, ◌≤◌, ◌<◌, ◌≡◌, refl, String, true, false, List, [], ◌∷◌, ◌++◌, arith, contains, ◌==◌,
  string_key, if◌then◌else◌,
}
use ninja_validator.Floats.{Floats}
use ninja_validator.Duel.Snapshot.{PoolType, pool_int}
use ninja_validator.Arena.Tables.{Challenge, ChallengeStatus, DuelResolution}
use ninja_validator.Arena.Queries.{challenger_ids}
use ninja_validator.Arena.Writes.{set_status, has_resolution}
use ninja_validator.Arena.Writes.Status.{Unique}

abbrev pub rank : ChallengeStatus → ℕ
rank ChallengeStatus.pool_one = 1
rank ChallengeStatus.pool_two = 2
rank ChallengeStatus.closed = 3

-- The rank of a submission's challenge, 0 if it has none.
abbrev pub status_rank : String → List Challenge → ℕ
status_rank id [] = 0
status_rank id (c ∷ cs) =
    if c.challenger_submission_id == id then rank c.status else status_rank id cs

pub status_rank_of_absent :
    (id : String) (cs : List Challenge)
    → contains id (challenger_ids cs) ≡ false
    → status_rank id cs ≡ 0
status_rank_of_absent id [] h = refl
status_rank_of_absent id (c ∷ cs) h = ground (arith, status_rank_of_absent id cs)

pub status_rank-append :
    (i : String) (cs : List Challenge) (c : Challenge)
    → status_rank i cs ≤ status_rank i (cs ++ c ∷ [])
status_rank-append i [] c = omega arith
status_rank-append i (x ∷ cs) c = ground (arith, status_rank-append i cs c)

module _ (id : String) (pool : PoolType) (new : ChallengeStatus) where
  pub status_rank-set_status_mono :
      (i : String) (cs : List Challenge)
      → pool_int pool ≤ rank new
      → status_rank i cs ≤ status_rank i (set_status id pool new cs).0
  unfolding set_status
  status_rank-set_status_mono i [] h = omega arith
  status_rank-set_status_mono i (c ∷ cs) h = ground (arith, status_rank-set_status_mono i cs h)

  set_status_of_absent :
      (cs : List Challenge)
      → contains id (challenger_ids cs) ≡ false
      → (set_status id pool new cs).1 ≡ false
  unfolding set_status
  set_status_of_absent [] h = refl
  set_status_of_absent (c ∷ cs) h = ground (arith, set_status_of_absent cs)

  -- The guarded update goes through just when the challenge is in the observed pool.
  pub set_status_iff :
      (cs : List Challenge)
      → Unique cs
      → ((set_status id pool new cs).1 ≡ true → status_rank id cs ≡ pool_int pool)
        × (status_rank id cs ≡ pool_int pool → (set_status id pool new cs).1 ≡ true)
  unfolding set_status
  set_status_iff [] u = (λ h. cc, λ h. ground arith)
  set_status_iff (c ∷ cs) u =
      let (to, from) = set_status_iff cs u.1 in
      (λ h. ground (arith, to, set_status_of_absent cs), λ h. ground (arith, from))

  pub status_rank-set_status :
      (cs : List Challenge)
      → Unique cs
      → (set_status id pool new cs).1 ≡ true
      → status_rank id (set_status id pool new cs).0 ≡ rank new
  unfolding set_status
  status_rank-set_status [] u h = cc
  status_rank-set_status (c ∷ cs) u h =
      ground (arith, status_rank-set_status cs u.1, set_status_of_absent cs)

  pub set_status_unchanged :
      (cs : List Challenge)
      → (set_status id pool new cs).1 ≡ false
      → (set_status id pool new cs).0 ≡ cs
  unfolding set_status
  set_status_unchanged [] h = refl
  set_status_unchanged (c ∷ cs) h = ground (arith, set_status_unchanged cs)

module _ (fl : Floats) where
  -- Every recorded verdict is of a pool that its challenge has left.
  abbrev pub Settled : List Challenge → List (DuelResolution fl) → Type 0
  Settled cs [] = Unit
  Settled cs (r ∷ rs) =
      (pool_int r.pool_type < status_rank r.challenger_submission_id cs) × Settled cs rs

  -- A challenge that is still in a pool has no verdict of it.
  pub no_verdict_yet :
      (id : String) (pool : PoolType) (cs : List Challenge) (rs : List (DuelResolution fl))
      → Settled cs rs
      → status_rank id cs ≤ pool_int pool
      → has_resolution fl id pool rs ≡ false
  no_verdict_yet id pool cs [] h e = refl
  no_verdict_yet id pool cs (r ∷ rs) h e = ground (arith, no_verdict_yet id pool cs rs h.1 e)

  pub Settled-mono :
      (cs ds : List Challenge) (rs : List (DuelResolution fl))
      → ((i : String) → status_rank i cs ≤ status_rank i ds)
      → Settled cs rs
      → Settled ds rs
  Settled-mono cs ds [] le h = tt
  Settled-mono cs ds (r ∷ rs) le h =
      (omega (arith, le r.challenger_submission_id, h.0), Settled-mono cs ds rs le h.1)

  pub Settled-append :
      (cs : List Challenge) (rs : List (DuelResolution fl)) (r : DuelResolution fl)
      → Settled cs rs
      → pool_int r.pool_type < status_rank r.challenger_submission_id cs
      → Settled cs (rs ++ r ∷ [])
  Settled-append cs [] r h e = (e, tt)
  Settled-append cs (x ∷ rs) r h e = (h.0, Settled-append cs rs r h.1 e)
