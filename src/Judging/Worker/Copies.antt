-- ===== src/Judging/Worker/Copies.antt =====
-- The keys of the dict, and the entries in flight with a key.
use ninja_validator.Base.{
  ℕ, ◌+◌, ◌≤◌, ◌≡◌, refl, ◌∙◌, true, false, ◌||◌, List, [], ◌∷◌, ◌++◌, arith, length, count_if,
  length-append, if◌then◌else◌, string_key, Bool-cases, inl, inr, ap,
}
use ninja_validator.Tasks.Judgments.{JudgeRequest}
use ninja_validator.Judging.Worker.{
  JudgeKey, key, same_judge_key, put_valid, valid_from, is_valid_key, Inflight, is_inflight,
  cancel_obsolete, spawn, start_wanted,
}

-- The entries with a key.
abbrev pub copies : JudgeKey → List Inflight → ℕ
copies k xs = count_if (λ x. same_judge_key k x.key) xs

pub is_valid_key-put_valid :
    (k : JudgeKey) (r : JudgeRequest) (rs : List JudgeRequest)
    → is_valid_key k (put_valid r rs) ≡ (same_judge_key k (key r) || is_valid_key k rs)
unfolding is_valid_key put_valid same_judge_key
is_valid_key-put_valid k r [] = refl
is_valid_key-put_valid k r (x ∷ rs) = ground (arith, is_valid_key-put_valid k r rs)

-- The dict has the keys of the requests.
pub is_valid_key-valid_from :
    (k : JudgeKey) (valid rs : List JudgeRequest)
    → is_valid_key k (valid_from valid rs) ≡ (is_valid_key k valid || is_valid_key k rs)
unfolding is_valid_key valid_from same_judge_key
is_valid_key-valid_from k valid [] = ground arith
is_valid_key-valid_from k valid (r ∷ rs) =
    ground
      (arith, is_valid_key-valid_from k (put_valid r valid) rs, is_valid_key-put_valid k r valid)

pub length-cancel :
    (valid : List JudgeRequest) (xs : List Inflight) → length (cancel_obsolete valid xs) ≡ length xs
unfolding cancel_obsolete
length-cancel valid [] = refl
length-cancel valid (x ∷ xs) = ground (arith, length-cancel valid xs)

pub copies-cancel :
    (k : JudgeKey) (valid : List JudgeRequest) (xs : List Inflight)
    → copies k (cancel_obsolete valid xs) ≡ copies k xs
unfolding cancel_obsolete same_judge_key
copies-cancel k valid [] = refl
copies-cancel k valid (x ∷ xs) = ground (arith, copies-cancel k valid xs)

pub length-start_wanted :
    (n : ℕ) (rs : List JudgeRequest) (xs : List Inflight)
    → length xs ≤ n
    → length (start_wanted n rs xs) ≤ n
unfolding start_wanted
length-start_wanted n [] xs h = h
length-start_wanted n (r ∷ rs) xs h = ground (
  arith,
  length-start_wanted n rs xs,
  length-append xs (spawn r ∷ []),
  length-start_wanted n rs (xs ++ spawn r ∷ []),
)

pub copies-append :
    (k : JudgeKey) (x : Inflight) (xs : List Inflight)
    → copies k (xs ++ x ∷ []) ≡ copies k xs + (if same_judge_key k x.key then 1 else 0)
unfolding same_judge_key
copies-append k x [] = ground arith
copies-append k x (y ∷ xs) = ground (arith, copies-append k x xs)

pub copies-is_inflight :
    (k : JudgeKey) (xs : List Inflight) → is_inflight k xs ≡ false → copies k xs ≡ 0
unfolding is_inflight same_judge_key
copies-is_inflight k [] h = refl
copies-is_inflight k (x ∷ xs) h = ground (arith, copies-is_inflight k xs)

pub same_judge_key-eq : (a b : JudgeKey) → same_judge_key a b ≡ true → a ≡ b
unfolding same_judge_key
same_judge_key-eq a b h = ground arith

pub copies-spawn :
    (k : JudgeKey) (r : JudgeRequest) (xs : List Inflight)
    → is_inflight (key r) xs ≡ false
    → copies k xs ≤ 1
    → copies k (xs ++ spawn r ∷ []) ≤ 1
copies-spawn k r xs h d = elim (Bool-cases (same_judge_key k (key r))) [
  | inl same ↦
      let none_yet : copies k xs ≡ 0 =
        ap (λ j. copies j xs) (same_judge_key-eq k (key r) same)
        ∙ copies-is_inflight (key r) xs h in
      ground (arith, copies-append k (spawn r) xs)
  | inr other ↦ ground (arith, copies-append k (spawn r) xs)
]

pub copies-start_wanted :
    (k : JudgeKey) (n : ℕ) (rs : List JudgeRequest) (xs : List Inflight)
    → copies k xs ≤ 1
    → copies k (start_wanted n rs xs) ≤ 1
unfolding start_wanted
copies-start_wanted k n [] xs d = d
copies-start_wanted k n (r ∷ rs) xs d = ground (
  arith,
  copies-start_wanted k n rs xs,
  copies-spawn k r xs,
  copies-start_wanted k n rs (xs ++ spawn r ∷ []),
)
