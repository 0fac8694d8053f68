-- ===== src/Weights/Setter/Recent.antt =====
-- The recent kings start with the one that the duel resolver sees reign.
use ninja_validator.Base.{
  ℕ, suc, zero, ◌≤◌, ◌≡◌, refl, ◌∙◌, String, Option, none, some, List, [], ◌∷◌, arith, inl, inr,
  Option-cases, take, string_key,
}
use ninja_validator.Arena.Tables.{King, Submission}
use ninja_validator.Arena.Queries.{latest_king, reigning_king}
use ninja_validator.Weights.Setter.{place_king, latest_first, hotkey_of, king_rows, recent_kings}

abbrev pub first_of : {A : Type 0} → List A → Option A
first_of [] = none
first_of (x ∷ xs) = some x

latest_first-head : (ks : List King) → first_of (latest_first ks) ≡ latest_king ks
unfolding latest_first latest_king place_king
latest_first-head [] = refl
latest_first-head (k ∷ ks) = ground (arith, latest_first-head ks)

rows-first :
    (window : ℕ) (submissions : List Submission) (hotkey : String) (k : King) (ks : List King)
    → 1 ≤ window
    → first_of ks ≡ some k
    → hotkey_of k.king_id submissions ≡ some hotkey
    → first_of (take window (king_rows submissions ks))
      ≡ some (record { king_id = k.king_id; hotkey = hotkey })
unfolding king_rows
rows-first zero submissions hotkey k ks w f h = absurd (omega arith)
rows-first (suc n) submissions hotkey k [] w f h = absurd (ground arith)
rows-first (suc n) submissions hotkey k (x ∷ xs) w f h =
    let same : x ≡ k = ground arith in
    let found : hotkey_of x.king_id submissions ≡ some hotkey = rw same h in
    ground (arith, found, same)

-- With a window of at least one, the most recent king of the weights is the one that reigns, if its
-- submission is in the table.
pub recent_kings-first :
    (window : ℕ) (kings : List King) (submissions : List Submission) (king hotkey : String)
    → 1 ≤ window
    → reigning_king kings ≡ some king
    → hotkey_of king submissions ≡ some hotkey
    → first_of (recent_kings window kings submissions)
      ≡ some (record { king_id = king; hotkey = hotkey })
unfolding recent_kings reigning_king
recent_kings-first window kings submissions king hotkey w r h =
    elim (Option-cases (latest_king kings)) [
      | inl n ↦ absurd (ground arith)
      | inr (k, e) ↦
          let same : k.king_id ≡ king = ground arith in
          ground (
            arith,
            rows-first window submissions hotkey k (latest_first kings) w
                (latest_first-head kings ∙ e) (rw same h),
          )
    ]
