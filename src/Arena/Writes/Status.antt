-- ===== src/Arena/Writes/Status.antt =====
-- What the guarded update does to the rows: how many challenges stay active, whom they face, and who
-- is listed.
use ninja_validator.Base.{
  ℕ, ◌+◌, ◌≤◌, ◌<◌, ◌≡◌, ◌≢◌, refl, String, Bool, true, false, ◌⊎◌, inr, Option, none, some, List,
  [], ◌∷◌, ◌++◌, arith, is_some, count_if, contains, string_key,
}
use ninja_validator.Duel.Snapshot.{PoolType}
use ninja_validator.Arena.Tables.{Challenge, ChallengeStatus}
use ninja_validator.Arena.Queries.{active_pool, active_row, challenger_ids}
use ninja_validator.Arena.Writes.{set_status}

abbrev pub is_active : Challenge → Bool
is_active c = is_some (active_pool c.status)

abbrev pub active_count : List Challenge → ℕ
active_count cs = count_if is_active cs

-- Every active challenge is against the king `k`.
abbrev pub Faces : Option String → List Challenge → Type 0
Faces k [] = Unit
Faces k (c ∷ cs) = ((is_active c ≡ false) ⊎ (k ≡ some c.king_id)) × Faces k cs

-- No submission has two challenges.
abbrev pub Unique : List Challenge → Type 0
Unique [] = Unit
Unique (c ∷ cs) = (contains c.challenger_submission_id (challenger_ids cs) ≡ false) × Unique cs

module _ (id : String) (pool : PoolType) where
  pub active_count-close :
      (cs : List Challenge)
      → let (cs', changed) = set_status id pool ChallengeStatus.closed cs in
        (active_count cs' ≤ active_count cs) × (changed ≡ true → active_count cs' < active_count cs)
  unfolding set_status
  active_count-close [] = (omega arith, λ h. cc)
  active_count-close (c ∷ cs) =
      let (le, lt) = active_count-close cs in (ground arith, λ h. ground (arith, lt))

  pub active_count-advance :
      (cs : List Challenge)
      → active_count (set_status id pool ChallengeStatus.pool_two cs).0 ≡ active_count cs
  unfolding set_status
  active_count-advance [] = refl
  active_count-advance (c ∷ cs) = ground (arith, active_count-advance cs)

  pub Faces-set_status :
      (new : ChallengeStatus) (k : Option String) (cs : List Challenge)
      → Faces k cs
      → Faces k (set_status id pool new cs).0
  unfolding set_status
  Faces-set_status new k [] h = tt
  Faces-set_status new k (c ∷ cs) h = ground (arith, Faces-set_status new k cs h.1)

  pub challenger_ids-set_status :
      (new : ChallengeStatus) (cs : List Challenge)
      → challenger_ids (set_status id pool new cs).0 ≡ challenger_ids cs
  unfolding set_status
  challenger_ids-set_status new [] = refl
  challenger_ids-set_status new (c ∷ cs) = ground (arith, challenger_ids-set_status new cs)

  pub Unique-set_status :
      (new : ChallengeStatus) (cs : List Challenge)
      → Unique cs
      → Unique (set_status id pool new cs).0
  unfolding set_status
  Unique-set_status new [] h = tt
  Unique-set_status new (c ∷ cs) h =
      ground (arith, Unique-set_status new cs h.1, challenger_ids-set_status new cs)

pub Faces-of_none : (k : Option String) (cs : List Challenge) → active_count cs ≡ 0 → Faces k cs
Faces-of_none k [] h = tt
Faces-of_none k (c ∷ cs) h = ground (arith, Faces-of_none k cs)

pub active_count_of_no_row :
    (king : String) (cs : List Challenge)
    → Faces (some king) cs
    → active_row king cs ≡ none
    → active_count cs ≡ 0
unfolding active_row
active_count_of_no_row king [] h e = refl
active_count_of_no_row king (c ∷ cs) h e = ground (arith, active_count_of_no_row king cs h.1)

pub active_count-append :
    (cs : List Challenge) (c : Challenge) → active_count (cs ++ c ∷ []) ≤ active_count cs + 1
active_count-append [] c = ground arith
active_count-append (x ∷ cs) c = ground (arith, active_count-append cs c)

pub Faces-append :
    (k : Option String) (cs : List Challenge) (c : Challenge)
    → Faces k cs
    → k ≡ some c.king_id
    → Faces k (cs ++ c ∷ [])
Faces-append k [] c h e = (inr e, tt)
Faces-append k (x ∷ cs) c h e = (h.0, Faces-append k cs c h.1 e)

contains-append :
    (a : String) (cs : List Challenge) (c : Challenge)
    → contains a (challenger_ids cs) ≡ false
    → a ≢ c.challenger_submission_id
    → contains a (challenger_ids (cs ++ c ∷ [])) ≡ false
contains-append a [] c h n = ground arith
contains-append a (x ∷ cs) c h n = ground (arith, contains-append a cs c)

pub Unique-append :
    (cs : List Challenge) (c : Challenge)
    → Unique cs
    → contains c.challenger_submission_id (challenger_ids cs) ≡ false
    → Unique (cs ++ c ∷ [])
Unique-append [] c h e = (refl, tt)
Unique-append (x ∷ cs) c h e =
    ground (arith, Unique-append cs c h.1, contains-append x.challenger_submission_id cs c h.0)
