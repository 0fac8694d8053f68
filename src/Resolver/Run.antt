-- ===== src/Resolver/Run.antt =====
-- The resolver's loop among the other workers: what a tick reads may be out of date when it writes.
pub mod Progress
pub mod Uninterrupted
use ninja_validator.Base.{
  ℕ, ◌≤◌, ◌≡◌, ◌≢◌, refl, ◌∙◌, sym, ap, String, Bool, true, false, Option, none, some, List, arith,
  inl, inr, Option-cases, Bool-cases, subst,
}
use ninja_validator.Floats.{Floats}
use ninja_validator.Duel.Snapshot.{ActiveChallenge, ChallengeSnapshot, pool_one}
use ninja_validator.Duel.Actions
use ninja_validator.Duel.Actions.{Action}
use ninja_validator.Duel.Decide.{decide}
use ninja_validator.Duel.Decide.Branches.{Justified, decide-Justified}
use ninja_validator.Duel.Tokens.{TokenEfficiencyConfig}
use ninja_validator.Arena.Tables.{Arena, ChallengeStatus}
use ninja_validator.Arena.Queries.{PoolTargets, reigning_king, active_row}
use ninja_validator.Arena.Snapshot.{snapshot}
use ninja_validator.Arena.Writes.{open_challenge, advance_pool, close_challenge, promote}
use ninja_validator.Arena.Writes.Status.{active_count, active_count_of_no_row}
use ninja_validator.Arena.Writes.Rank.{status_rank}
use ninja_validator.Arena.Invariant.{IsValid}
use ninja_validator.Arena.Invariant.Keeps.{
  close-IsValid, advance-IsValid, promote-IsValid, open_challenge-IsValid,
}
use ninja_validator.Resolver.Tick.{
  DuelResolverConfig, token_efficiency, rules, close_outcome, may_promote, apply, next_action,
}

module _ (fl : Floats) where
  none≢some : {A : Type 0} {x : A} → none ≢ some x
  none≢some e = cc

  -- What a snapshot shows of the kings and challenges.
  snapshot_reads :
      (db : Arena fl) (targets : PoolTargets) (config : TokenEfficiencyConfig fl)
      (s : ChallengeSnapshot fl) (king : String)
      → snapshot fl db targets config ≡ some s
      → s.reigning_king_submission_id ≡ some king
      → s.active_challenge ≡ none
      → (reigning_king db.kings ≡ some king) × (active_row king db.challenges ≡ none)
  unfolding snapshot
  snapshot_reads db targets config s king h k e = (ground arith, ground arith)

  -- What still holds of an opening or an advance when it comes to be written; nothing is said of the other actions.
  abbrev pub IsFresh : Arena fl → Action fl → Type 0
  IsFresh db (Action.nothing r) = Unit
  IsFresh db (Action.open_challenge king challenger) =
      (reigning_king db.kings ≡ some king) × (active_count db.challenges ≡ 0)
  IsFresh db (Action.advance_pool a) = a.pool ≡ pool_one
  IsFresh db (Action.promote a) = Unit
  IsFresh db (Action.close_challenge a r) = Unit

  IsFresh-of_Justified :
      (db : Arena fl) (targets : PoolTargets) (config : TokenEfficiencyConfig fl) (paused : Bool)
      (s : ChallengeSnapshot fl) (act : Action fl)
      → IsValid fl db
      → snapshot fl db targets config ≡ some s
      → Justified fl paused s act
      → IsFresh db act
  IsFresh-of_Justified db targets config paused s (Action.nothing r) v h j = tt
  IsFresh-of_Justified db targets config paused s (Action.open_challenge king c) v h
        (p, k, e, r, n) =
      let (reigns, no_row) = snapshot_reads db targets config s king h k e in
      (reigns, active_count_of_no_row king db.challenges (rw reigns at v.faces) no_row)
  IsFresh-of_Justified db targets config paused s (Action.advance_pool a) v h j = j.1
  IsFresh-of_Justified db targets config paused s (Action.promote a) v h j = tt
  IsFresh-of_Justified db targets config paused s (Action.close_challenge a r) v h j = tt

  next_action-IsFresh :
      (c : DuelResolverConfig fl) (targets : PoolTargets) (paused : Bool) (db : Arena fl)
      (act : Action fl)
      → IsValid fl db
      → next_action fl c targets paused db ≡ some act
      → IsFresh db act
  unfolding next_action
  next_action-IsFresh c targets paused db act v h =
      elim (Option-cases (snapshot fl db targets (token_efficiency fl c))) [
        | inl e ↦ absurd (ground arith)
        | inr (s, e) ↦
            let decided : decide fl c.scoring_method c.round_win_margin c.mean_score_margin paused s
                ≡ act =
              ground arith in
            subst (IsFresh db) decided (
              IsFresh-of_Justified db targets (token_efficiency fl c) paused s _ v e (
                decide-Justified fl c.scoring_method c.round_win_margin c.mean_score_margin paused
                  s))
      ]

  apply-IsValid :
      (c : DuelResolverConfig fl) (publisher : Option (String → Bool)) (now : ℕ) (act : Action fl)
      (db : Arena fl)
      → IsValid fl db
      → IsFresh db act
      → IsValid fl (apply fl c publisher now act db).0
  unfolding apply advance_pool close_challenge
  apply-IsValid c publisher now (Action.nothing r) db v f = v
  apply-IsValid c publisher now (Action.open_challenge king ch) db v f =
      open_challenge-IsValid fl king ch db v f.0 f.1
  apply-IsValid c publisher now (Action.advance_pool a) db v f =
      advance-IsValid fl a (rules fl c) db v f
  apply-IsValid c publisher now (Action.promote a) db v f =
      elim (Bool-cases (may_promote fl c publisher a.challenger_submission_id)) [
        | inl go ↦ rw go (promote-IsValid fl a (rules fl c) db now v)
        | inr stay ↦ rw stay v
      ]
  apply-IsValid c publisher now (Action.close_challenge a r) db v f =
      close-IsValid fl a (rules fl c) db (close_outcome r) v

  -- The worker between its steps: the database, and an action that it decided on and has yet to
  -- write.
  pub record System : Type 0 where
    pub db : Arena fl
    pub pending : Option (Action fl)

  -- Other workers write any table but the kings, the challenges and the verdicts, of which the
  -- resolver is the only writer.
  pub record SameDuels (db db' : Arena fl) : Type 0 where
    pub kings : db'.kings ≡ db.kings
    pub challenges : db'.challenges ≡ db.challenges
    pub resolutions : db'.resolutions ≡ db.resolutions

  -- A tick is two steps, a read and a write, and other workers' writes may come between them.
  pub data Step (c : DuelResolverConfig fl) (targets : PoolTargets) (s u : System) : Type 0 where
    others : (db' : Arena fl) → SameDuels s.db db' → u ≡ record s { db = db' } → Step c targets s u
    read :
        (paused : Bool)
        → u ≡ record s { pending = next_action fl c targets paused s.db }
        → Step c targets s u
    write :
        (publisher : Option (String → Bool)) (now : ℕ) (act : Action fl)
        → s.pending ≡ some act
        → u ≡ record { db = (apply fl c publisher now act s.db).0; pending = none }
        → Step c targets s u

  pub data Reach (c : DuelResolverConfig fl) (targets : PoolTargets) (s : System)
      : System → Type 0 where
    here : Reach c targets s s
    next : {t u : System} → Reach c targets s t → Step c targets t u → Reach c targets s u

  -- The tables are valid; a pending opening is against the reigning king with no challenge active, and a pending advance is from pool one.
  pub record IsSound (s : System) : Type 0 where
    pub valid : IsValid fl s.db
    pub fresh : (act : Action fl) → s.pending ≡ some act → IsFresh s.db act

  SameDuels-IsValid : (db db' : Arena fl) → SameDuels db db' → IsValid fl db → IsValid fl db'
  SameDuels-IsValid db db' e v = record {
    one_active = rw e.challenges v.one_active;
    faces = rw (e.challenges, e.kings) v.faces;
    unique = rw e.challenges v.unique;
    settled = rw (e.challenges, e.resolutions) v.settled;
  }

  SameDuels-IsFresh :
      (db db' : Arena fl) (act : Action fl) → SameDuels db db' → IsFresh db act → IsFresh db' act
  SameDuels-IsFresh db db' (Action.nothing r) e f = tt
  SameDuels-IsFresh db db' (Action.open_challenge king ch) e f =
      (rw e.kings f.0, rw e.challenges f.1)
  SameDuels-IsFresh db db' (Action.advance_pool a) e f = f
  SameDuels-IsFresh db db' (Action.promote a) e f = tt
  SameDuels-IsFresh db db' (Action.close_challenge a r) e f = tt

  Step-IsSound :
      (c : DuelResolverConfig fl) (targets : PoolTargets) (s u : System)
      → Step c targets s u
      → IsSound s
      → IsSound u
  Step-IsSound c targets s u (others db' same e) h = subst IsSound (sym e) (record {
    valid = SameDuels-IsValid s.db db' same h.valid;
    fresh = λ act p. SameDuels-IsFresh s.db db' act same (h.fresh act p);
  })
  Step-IsSound c targets s u (read paused e) h = subst IsSound (sym e) (record {
    valid = h.valid;
    fresh = λ act p. next_action-IsFresh c targets paused s.db act h.valid p;
  })
  Step-IsSound c targets s u (write publisher now act p e) h = subst IsSound (sym e) (record {
    valid = apply-IsValid c publisher now act s.db h.valid (h.fresh act p);
    fresh = λ act' q. absurd (none≢some q);
  })

  -- From valid tables where a pending opening names the reigning king while no challenge is active, and a pending advance is
  -- from pool one, however the resolver's reads and writes interleave with other workers' writes of other tables: at most one challenge is active, an
  -- active one is against the reigning king, no submission has two challenges, a verdict stands only for a pool that its
  -- challenge has left, and the same holds of a pending opening and a pending advance.
  pub Reach-IsValid :
      (c : DuelResolverConfig fl) (targets : PoolTargets) {s u : System}
      → IsSound s
      → Reach c targets s u
      → IsSound u
  Reach-IsValid c targets h here = h
  Reach-IsValid c targets h (next {t = t} {u = u} r st) =
      Step-IsSound c targets t u st (Reach-IsValid c targets h r)
