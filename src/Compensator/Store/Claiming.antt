-- ===== src/Compensator/Store/Claiming.antt =====
-- What a claim on the table of pkg/compensator/storage.go hands out.
use kc.Prelude.{
  ℕ, ◌+◌, ◌≤◌, ◌≡◌, ◌≢◌, refl, sym, subst, Bool, true, false, List, [], ◌∷◌, map, All, arith,
  if_elim,
}
use kc.Prelude.Names.{String}
use kc.Prelude.Selecting.{contains, filter, All-filter, All-map}
use kc.Compensator.Store.{
  is_running, Row, Claimed, Settings, Table, has_id, update_rows, is_exhausted, claim_row, claimed,
  picked, claim,
}
use kc.Compensator.Store.WellFormed.{IsDistinct, IsDistinct-update_rows, claim_row-id}
use kc.Compensator.Store.Held.{IsLeased, IsHeld}

-- Where IDs are distinct, the rows with the ID of a row are that row.
IsOnly : Table → Row → Type 0
IsOnly t row = All (λ (other : Row). other.id ≡ row.id → other ≡ row) t × (has_id t row.id ≡ true)

All-apart : (t : Table) (id : ℕ) → has_id t id ≡ false → All (λ row. row.id ≢ id) t
All-apart [] id h = tt
All-apart (row ∷ rest) id h =
    ((λ own. ground (arith, h, own)), All-apart rest id (ground (arith, h)))

IsOnly-cons :
    (first : Row) (t : Table) (row : Row)
    → first.id ≢ row.id
    → IsOnly t row
    → IsOnly (first ∷ t) row
unfolding IsOnly
IsOnly-cons first t row apart (all, there) =
    (((λ own. absurd (apart own)), all), ground (arith, there))

All-IsOnly_cons :
    (first : Row) (t u : Table)
    → All (λ row. row.id ≢ first.id) u
    → All (IsOnly t) u
    → All (IsOnly (first ∷ t)) u
All-IsOnly_cons first t [] apart all = tt
All-IsOnly_cons first t (row ∷ rest) (x, apart) (y, all) =
    (IsOnly-cons first t row (λ own. x (sym own)) y, All-IsOnly_cons first t rest apart all)

distinct-IsOnly : (t : Table) → IsDistinct t → All (IsOnly t) t
unfolding IsOnly
distinct-IsOnly [] h = tt
distinct-IsOnly (row ∷ rest) (fresh, h) = (
  (
    (
      (λ own. refl),
      All-map (λ (o : Row). o.id ≢ row.id) (λ (o : Row). o.id ≡ row.id → o ≡ row)
          (λ o apart own. absurd (apart own)) rest (All-apart rest row.id fresh),
    ),
    ground arith,
  ),
  All-IsOnly_cons row rest rest (All-apart rest row.id fresh) (distinct-IsOnly rest h),
)

All-updated {ℓ} :
    (Q : Row → Type ℓ) (fits : Row → Bool) (f : Row → Row)
    → ((row : Row) → fits row ≡ true → Q (f row))
    → ((row : Row) → fits row ≡ false → Q row)
    → (t : Table) → All Q (update_rows fits f t)
All-updated Q fits f new old [] = tt
All-updated Q fits f new old (row ∷ rest) =
    (if_elim Q (fits row) (new row) (old row), All-updated Q fits f new old rest)

All-pair {ℓ κ} :
    (P : Row → Type ℓ) (Q : Row → Type κ) (t : Table)
    → All P t
    → All Q t
    → All (λ row. P row × Q row) t
All-pair P Q [] a b = tt
All-pair P Q (row ∷ rest) (x, a) (y, b) = ((x, y), All-pair P Q rest a b)

All-claimed {ℓ} :
    (P : Claimed → Type ℓ) (token : ℕ) (u : Table)
    → All (λ row. P (claimed token row)) u
    → All P (map (claimed token) u)
All-claimed P token [] all = tt
All-claimed P token (row ∷ rest) (h, all) = (h, All-claimed P token rest all)

-- A row that the claim has picked, if its task is to run, has the new lease.
IsMarked : List ℕ → ℕ → ℕ → Row → Type 0
IsMarked ids token until row =
    contains ids row.id ≡ true
    → is_running row.status ≡ true
    → (row.lease_token ≡ token) × (row.next_run_at ≡ until) × (1 ≤ row.attempts)

claim_row-IsMarked :
    (settings : Settings) (ids : List ℕ) (token now : ℕ) (row : Row)
    → IsMarked ids token (now + settings.lease_duration) (claim_row settings token now row)
unfolding IsMarked
claim_row-IsMarked settings ids token now row =
    if_elim (IsMarked ids token (now + settings.lease_duration)) (is_exhausted settings row)
      (λ e c runs. absurd (ground (arith, runs))) (λ e c runs. (refl, refl, omega arith))

-- The claim hands its running tasks out under their leases.
pub claim-AllHeld :
    (settings : Settings) (t : Table) (locked : ℕ → Bool) (limit token : ℕ) (types : String → Bool)
    (now : ℕ)
    → IsDistinct t
    → let r = claim settings t locked limit token types now in
      All
        (λ c.
          c.exhausted ≡ false → (1 ≤ c.task.attempt) × IsHeld c (now + settings.lease_duration) r.0)
        r.1
unfolding claim IsOnly IsMarked
claim-AllHeld settings t locked limit token types now distinct =
    All-claimed
      (λ c.
        c.exhausted ≡ false → (1 ≤ c.task.attempt) × IsHeld c (now + settings.lease_duration) t')
      token (filter in_claim t')
      (All-filter (λ row. IsOnly t' row × IsMarked ids token (now + settings.lease_duration) row)
        (λ row.
          (claimed token row).exhausted ≡ false
          → (1 ≤ row.attempts) × IsHeld (claimed token row) (now + settings.lease_duration) t')
        in_claim held t'
        (All-pair (IsOnly t') (IsMarked ids token (now + settings.lease_duration)) t'
          (distinct-IsOnly t' unique) marked))
  where
    ids : List ℕ
    ids = picked t locked limit types now

    in_claim : Row → Bool
    in_claim row = contains (picked t locked limit types now) row.id

    t' : Table
    t' =
        update_rows (λ row. contains (picked t locked limit types now) row.id)
          (claim_row settings token now) t

    unique : IsDistinct t'
    unique =
        IsDistinct-update_rows (λ row. contains (picked t locked limit types now) row.id)
          (claim_row settings token now) (claim_row-id settings token now) t distinct

    marked : All (IsMarked ids token (now + settings.lease_duration)) t'
    marked =
        All-updated (IsMarked ids token (now + settings.lease_duration))
          (λ row. contains (picked t locked limit types now) row.id) (claim_row settings token now)
          (λ row e. claim_row-IsMarked settings ids token now row)
          (λ row e c. absurd (ground (arith, e, c))) t

    held :
        (row : Row)
        → IsOnly t' row × IsMarked ids token (now + settings.lease_duration) row
        → in_claim row ≡ true
        → (claimed token row).exhausted ≡ false
        → (1 ≤ row.attempts) × IsHeld (claimed token row) (now + settings.lease_duration) t'
    held row ((only, there), mark) e runs =
        let runs' : is_running row.status ≡ true = ground (arith, runs) in
        let lease = mark e runs' in
        (
          lease.2,
          (
            All-map (λ (o : Row). o.id ≡ row.id → o ≡ row)
                (λ (o : Row).
                  o.id ≡ row.id → IsLeased (claimed token row) (now + settings.lease_duration) o)
                (λ o same own.
                  subst (IsLeased (claimed token row) (now + settings.lease_duration))
                    (sym (same own)) (runs', lease.0, refl, lease.1))
                t' only,
            there,
          ),
        )
