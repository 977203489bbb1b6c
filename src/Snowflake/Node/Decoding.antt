-- ===== src/Snowflake/Node/Decoding.antt =====
-- What an ID of node.go gives back, and IDs of several workers.
use kc.Prelude.{
  ℕ, ◌-◌, ◌/◌, ◌%◌, ◌<◌, ◌≡◌, ◌≢◌, sym, ap, ◌∙◌, some, List, All, Result, err, ok, arith,
}
use kc.Prelude.Int.{ℤ, pos, two63}
use kc.Snowflake.Node.{Node, Error, generate, get_time_from_id}
use kc.Snowflake.Node.Layout.{IsValid, start, id_at}
use kc.Snowflake.Node.Draws.{Draws, refused, behind, early, late, drawn, IsInt64, generate-Draws}

-- An ID gives back its time, its worker and its sequence.
abbrev pub Decodes : Node → Node × Result Error ℕ → Type 0
Decodes n (n', err e) = Unit {0}
Decodes n (n', ok id) =
    (get_time_from_id n (pos id) ≡ pos n'.timestamp)
    × (id / 4096 % 1024 ≡ n.worker_id)
    × (id % 4096 ≡ n'.sequence)
    × (id < two63)

pub Draws-Decodes :
    {n : Node} {out : Node × Result Error ℕ} → IsValid n → Draws n out → Decodes n out
unfolding get_time_from_id
Draws-Decodes v (refused r) = tt
Draws-Decodes v (behind r) = tt
Draws-Decodes v (early c s r f h) = tt
Draws-Decodes v (late c s r f h) = tt
Draws-Decodes {n} v (drawn c s r f h k i) =
    let parts : (id_at n c s / 4194304 ≡ c - start n)
        × (id_at n c s / 4096 % 1024 ≡ n.worker_id)
        × (id_at n c s % 4096 ≡ s)
        × (id_at n c s < two63) =
      ground arith in
    (ground (arith, v.epoch), parts.1, parts.2, parts.3)

-- An ID that `generate` returns gives back, by `GetTimeFromID` and by its bits, the millisecond
-- and the sequence that the node is left at and the worker ID of the node; its sign bit is clear.
pub generate-decodes :
    (n : Node) (readings : List ℤ) {n' : Node} {id : ℕ}
    → IsValid n
    → All IsInt64 readings
    → generate n readings ≡ some (n', ok id)
    → (get_time_from_id n (pos id) ≡ pos n'.timestamp)
      × (id / 4096 % 1024 ≡ n.worker_id)
      × (id % 4096 ≡ n'.sequence)
      × (id < two63)
generate-decodes n readings v a e = Draws-Decodes v (generate-Draws n readings v a e)

-- Two nodes with different worker IDs never compose the same ID, whatever their clocks and epochs.
pub generate_workers_disjoint :
    (n m : Node) (readings others : List ℤ) {n' m' : Node} {a b : ℕ}
    → IsValid n
    → IsValid m
    → n.worker_id ≢ m.worker_id
    → All IsInt64 readings
    → All IsInt64 others
    → generate n readings ≡ some (n', ok a)
    → generate m others ≡ some (m', ok b)
    → a ≢ b
generate_workers_disjoint n m readings others {a} {b} v w h i j e f = λ same.
    let p = (generate-decodes n readings v i e).1 in
    let q = (generate-decodes m others w j f).1 in
    h (sym p ∙ ap (λ (x : ℕ). x / 4096 % 1024) same ∙ q)
