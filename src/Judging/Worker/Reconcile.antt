-- ===== src/Judging/Worker/Reconcile.antt =====
-- What a poll leaves in flight.
use ninja_validator.Base.{
  ℕ, ◌≤◌, ◌≡◌, refl, sym, ◌∙◌, Bool, if◌then◌else◌, true, false, not, ◌||◌, List, [], ◌∷◌, ◌++◌,
  arith, leb, length, All, string_key, Bool-cases, inl, inr, ap,
}
use mathlib.Core.List.{append-nil, append_assoc}
use ninja_validator.Tasks.Judgments.{JudgeRequest}
use ninja_validator.Judging.Worker.{
  JudgeKey, key, same_judge_key, valid_from, is_valid_key, Inflight, is_inflight, cancel_obsolete,
  spawn, start_wanted, reconcile,
}
use ninja_validator.Judging.Worker.Copies.{
  same_judge_key-eq, copies, is_valid_key-valid_from, length-cancel, copies-cancel,
  length-start_wanted, copies-start_wanted,
}

is_inflight-append :
    (k : JudgeKey) (x : Inflight) (xs : List Inflight)
    → is_inflight k (xs ++ x ∷ []) ≡ (is_inflight k xs || same_judge_key k x.key)
unfolding is_inflight same_judge_key
is_inflight-append k x [] = ground arith
is_inflight-append k x (y ∷ xs) = ground (arith, is_inflight-append k x xs)

-- Starting takes nothing away.
is_inflight-start_wanted :
    (k : JudgeKey) (n : ℕ) (rs : List JudgeRequest) (xs : List Inflight)
    → is_inflight k xs ≡ true
    → is_inflight k (start_wanted n rs xs) ≡ true
unfolding start_wanted
is_inflight-start_wanted k n [] xs h = h
is_inflight-start_wanted k n (r ∷ rs) xs h = ground (
  arith,
  is_inflight-start_wanted k n rs xs,
  is_inflight-append k (spawn r) xs,
  is_inflight-start_wanted k n rs (xs ++ spawn r ∷ []),
)

-- Each wanted key is in flight, or every slot is taken.
start_wanted-serves :
    (k : JudgeKey) (n : ℕ) (rs : List JudgeRequest) (xs : List Inflight)
    → is_valid_key k rs ≡ true
    → (is_inflight k (start_wanted n rs xs) || leb n (length (start_wanted n rs xs))) ≡ true
unfolding start_wanted is_valid_key
start_wanted-serves k n [] xs h = absurd (ground arith)
start_wanted-serves k n (r ∷ rs) xs h = elim (Bool-cases (same_judge_key k (key r))) [
  | inl same ↦
      let here : is_inflight k xs ≡ is_inflight (key r) xs =
        ap (λ j. is_inflight j xs) (same_judge_key-eq k (key r) same) in
      ground (
        arith,
        is_inflight-start_wanted k n rs xs,
        is_inflight-append k (spawn r) xs,
        is_inflight-start_wanted k n rs (xs ++ spawn r ∷ []),
      )
  | inr other ↦
      ground (arith, start_wanted-serves k n rs xs, start_wanted-serves k n rs (xs ++ spawn r ∷ []))
]

-- The entries in flight, each one cancelled where no request has its key and as it was otherwise.
abbrev pub marked : List JudgeRequest → List Inflight → List Inflight
marked requests [] = []
marked requests (x ∷ xs) =
    record x { cancelled = x.cancelled || not (is_valid_key x.key requests) } ∷ marked requests xs

cancel_obsolete-marked :
    (requests : List JudgeRequest) (xs : List Inflight)
    → cancel_obsolete (valid_from [] requests) xs ≡ marked requests xs
unfolding cancel_obsolete is_valid_key
cancel_obsolete-marked requests [] = refl
cancel_obsolete-marked requests (x ∷ xs) = elim (Bool-cases (is_valid_key x.key requests)) [
  | inl h ↦
      ground (arith, is_valid_key-valid_from x.key [] requests, cancel_obsolete-marked requests xs)
  | inr h ↦
      ground (arith, is_valid_key-valid_from x.key [] requests, cancel_obsolete-marked requests xs)
]

-- A judgment that was just started for one of the requests.
abbrev pub IsStarted : List JudgeRequest → Inflight → Type 0
IsStarted requests x =
    (x.cancelled ≡ false) × (x.key ≡ key x.request) × (is_valid_key x.key requests ≡ true)

-- Starting adds to what is in flight.
abbrev Adds : List JudgeRequest → List Inflight → List Inflight → Type 0
Adds requests xs ys =
    (started : List Inflight) × (ys ≡ xs ++ started) × All (IsStarted requests) started

Adds-if :
    (requests : List JudgeRequest) (b : Bool) (xs ys zs : List Inflight)
    → Adds requests xs ys
    → Adds requests xs zs
    → Adds requests xs (if b then ys else zs)
Adds-if requests true xs ys zs h k = h
Adds-if requests false xs ys zs h k = k

start_wanted-Adds :
    (requests : List JudgeRequest) (n : ℕ) (rs : List JudgeRequest) (xs : List Inflight)
    → All (λ r. is_valid_key (key r) requests ≡ true) rs
    → Adds requests xs (start_wanted n rs xs)
unfolding start_wanted
start_wanted-Adds requests n [] xs h = ([], sym (append-nil xs), tt)
start_wanted-Adds requests n (r ∷ rs) xs h =
    let skip = start_wanted-Adds requests n rs xs h.1 in
    let (more, e, all) = start_wanted-Adds requests n rs (xs ++ spawn r ∷ []) h.1 in
    Adds-if requests (is_inflight (key r) xs) xs _ _ skip (
      Adds-if requests (leb n (length xs)) xs _ _ ([], sym (append-nil xs), tt)
        (spawn r ∷ more, e ∙ append_assoc xs (spawn r ∷ []) more, ((refl, refl, h.0), all)))

is_valid_key_self :
    (valid rs : List JudgeRequest)
    → ((k : JudgeKey) → is_valid_key k rs ≡ true → is_valid_key k valid ≡ true)
    → All (λ r. is_valid_key (key r) valid ≡ true) rs
unfolding is_valid_key same_judge_key
is_valid_key_self valid [] f = tt
is_valid_key_self valid (r ∷ rs) f =
    (f (key r) (ground arith), is_valid_key_self valid rs (λ k h. f k (ground (arith, h))))

-- No key is in flight twice, and the slots suffice.
pub record IsBounded (n : ℕ) (xs : List Inflight) : Type 0 where
  pub few : length xs ≤ n
  pub once : (k : JudgeKey) → copies k xs ≤ 1

-- What a poll that began with these judgments in flight leaves.
abbrev pub IsReconciled : ℕ → List JudgeRequest → List Inflight → List Inflight → Type 0
IsReconciled n requests xs ys =
    ((started : List Inflight) × (ys ≡ marked requests xs ++ started)
      × All (IsStarted requests) started)
    × ((k : JudgeKey)
        → (not (is_valid_key k requests) || (is_inflight k ys || leb n (length ys))) ≡ true)

-- A poll that begins with at most `concurrency` judgments in flight, none twice, ends so too. The judgments in flight
-- stay, in their order, where just those that the database no longer asks for are cancelled now and the others keep running as they were; after them
-- come judgments that are started, none cancelled, each for a pair that the database asks for; and each pair that it asks for is in flight
-- unless every slot is taken.
pub reconcile_exact :
    (n : ℕ) (requests : List JudgeRequest) (xs : List Inflight)
    → IsBounded n xs
    → IsBounded n (reconcile n requests xs) × IsReconciled n requests xs (reconcile n requests xs)
unfolding reconcile is_valid_key
reconcile_exact n requests xs b =
    let valid = valid_from [] requests in
    let kept = cancel_obsolete valid xs in
    let asked : All (λ r. is_valid_key (key r) requests ≡ true) valid =
      is_valid_key_self requests valid (λ k h. sym (is_valid_key-valid_from k [] requests) ∙ h) in
    let (started, e, all) = start_wanted-Adds requests n valid kept asked in
    (
      record {
        few = length-start_wanted n valid kept (omega (arith, length-cancel valid xs, b.few));
        once = λ k.
            copies-start_wanted k n valid kept (omega (arith, copies-cancel k valid xs, b.once k));
      },
      (
        (started, e ∙ ap (λ x. x ++ started) (cancel_obsolete-marked requests xs), all),
        λ k. elim (Bool-cases (is_valid_key k requests)) [
          | inl h ↦
              let served =
                start_wanted-serves k n valid kept (is_valid_key-valid_from k [] requests ∙ h) in
              ground (arith, served)
          | inr h ↦ ground arith
        ],
      ),
    )
