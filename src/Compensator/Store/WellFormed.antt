-- ===== src/Compensator/Store/WellFormed.antt =====
-- What holds of every row of the table of pkg/compensator/storage.go.
use kc.Prelude.{
  ℕ, suc, ◌≤◌, ◌≡◌, ◌≢◌, refl, ap, ◌∙◌, Bool, true, false, Option, none, some, [], ◌∷◌, ◌++◌,
  if◌then◌else◌, ◌||◌, All, arith, if_elim, Bool-cases, inl, inr,
}
use kc.Compensator.Store.{
  Status, pending, running, succeeded, failed, is_running, Row, Settings, Table, has_id,
  update_rows, is_exhausted, claim_row,
}
use kc.Compensator.Store.Steps.{Step, claims, finishes, retries}

-- The token, the attempts and the time of completion that go with a status.
abbrev pub Fits : Settings → Status → ℕ → ℕ → Option ℕ → Type 0
Fits settings pending token attempts completed =
    (token ≡ 0) × (completed ≡ none) × (attempts ≤ suc settings.retries)
Fits settings running token attempts completed =
    (token ≢ 0) × (completed ≡ none) × (attempts ≤ suc settings.retries) × (1 ≤ attempts)
Fits settings succeeded token attempts completed =
    (token ≡ 0) × ((t : ℕ) × (completed ≡ some t)) × (attempts ≤ suc settings.retries)
Fits settings failed token attempts completed =
    (token ≡ 0) × ((t : ℕ) × (completed ≡ some t)) × (attempts ≤ suc settings.retries)

abbrev pub IsWell : Settings → Row → Type 0
IsWell settings row = Fits settings row.status row.lease_token row.attempts row.completed_at

-- No two rows share an ID.
abbrev pub IsDistinct : Table → Type 0
IsDistinct [] = Unit
IsDistinct (row ∷ rest) = (has_id rest row.id ≡ false) × IsDistinct rest

abbrev pub IsWellFormed : Settings → Table → Type 0
IsWellFormed settings t = All (IsWell settings) t × IsDistinct t

-- The tokens of claims are not 0, and a result is not that the task still runs.
abbrev pub IsFair : Step × ℕ → Type 0
IsFair (claims locked limit token types, now) = token ≢ 0
IsFair (finishes c status last_error delay, now) = is_running status ≡ false
IsFair (step, now) = Unit

pub All-update_rows {ℓ} :
    (P : Row → Type ℓ) (fits : Row → Bool) (f : Row → Row)
    → ((row : Row) → fits row ≡ true → P row → P (f row))
    → (t : Table) → All P t
    → All P (update_rows fits f t)
All-update_rows P fits f keep [] all = tt
All-update_rows P fits f keep (row ∷ rest) (h, all) =
    (if_elim P (fits row) (λ e. keep row e h) (λ e. h), All-update_rows P fits f keep rest all)

pub has_id-update_rows :
    (fits : Row → Bool) (f : Row → Row)
    → ((row : Row) → (f row).id ≡ row.id)
    → (t : Table) (id : ℕ) → has_id (update_rows fits f t) id ≡ has_id t id
has_id-update_rows fits f keep [] id = refl
has_id-update_rows fits f keep (row ∷ rest) id = elim (Bool-cases (fits row)) [
  | inl e ↦ ground (arith, e, keep row, has_id-update_rows fits f keep rest id)
  | inr e ↦ ground (arith, e, has_id-update_rows fits f keep rest id)
]

pub IsDistinct-update_rows :
    (fits : Row → Bool) (f : Row → Row)
    → ((row : Row) → (f row).id ≡ row.id)
    → (t : Table) → IsDistinct t
    → IsDistinct (update_rows fits f t)
IsDistinct-update_rows fits f keep [] h = tt
IsDistinct-update_rows fits f keep (row ∷ rest) (fresh, h) = (
  has_id-update_rows fits f keep rest (if fits row then f row else row).id
      ∙ ap (has_id rest)
          (if_elim (λ (r : Row). r.id ≡ row.id) (fits row) (λ e. keep row) (λ e. refl))
      ∙ fresh,
  IsDistinct-update_rows fits f keep rest h,
)

pub has_id-append : (t u : Table) (id : ℕ) → has_id (t ++ u) id ≡ (has_id t id || has_id u id)
has_id-append [] u id = refl
has_id-append (row ∷ rest) u id = ground (arith, has_id-append rest u id)

pub All-append_one {ℓ} :
    (P : Row → Type ℓ) (t : Table) (row : Row) → All P t → P row → All P (t ++ row ∷ [])
All-append_one P [] row all h = (h, tt)
All-append_one P (first ∷ rest) row (k, all) h = (k, All-append_one P rest row all h)

module _ (settings : Settings) where
  pub claim_row-id : (token now : ℕ) (row : Row) → (claim_row settings token now row).id ≡ row.id
  claim_row-id token now row =
      if_elim (λ (r : Row). r.id ≡ row.id) (is_exhausted settings row) (λ e. refl) (λ e. refl)
