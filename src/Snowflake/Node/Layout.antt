-- ===== src/Snowflake/Node/Layout.antt =====
-- The 64 bits of an ID: 41 of time, 10 of worker, 12 of sequence (node.go).
use kc.Prelude.Bits.{bit_or-shifted}
use kc.Prelude.{ℕ, ◌+◌, ◌-◌, ◌*◌, ◌^◌, ◌≤◌, ◌<◌, ◌≡◌, ◌⊎◌, err, ok, arith, ltb, if◌then◌else◌}
use kc.Prelude.Int.{pos, negsuc, pos_part, wrap64, ◌-ℤ◌, two63}
use kc.Snowflake.Node.{
  Node, invalid_config, timestamp_overflow, max_worker_id, max_sequence, max_timestamp, shl, pack,
  issue,
}

-- The epoch as a number, where it is one.
abbrev pub start : Node → ℕ
start n = pos_part n.epoch

-- The fields fit, and the epoch is one that `resolveConfig` lets through.
pub record IsValid (n : Node) : Type 0 where
  pub epoch : n.epoch ≡ pos (start n)
  pub epoch_fits : start n < two63
  pub worker : n.worker_id ≤ max_worker_id
  pub sequence : n.sequence ≤ max_sequence

-- The ID of a time, a worker and a sequence, as a sum.
abbrev pub id_at : Node → ℕ → ℕ → ℕ
id_at n c s = (c - start n) * 4194304 + n.worker_id * 4096 + s

pub pack-sum :
    (e w s : ℕ)
    → e ≤ max_timestamp
    → w ≤ max_worker_id
    → s ≤ max_sequence
    → pack e w s ≡ e * 4194304 + w * 4096 + s
unfolding pack
pack-sum e w s he hw hs =
    let inner : shl w 12 ≡ w * 4096 = omega arith in
    let outer : shl e 22 ≡ e * 2 ^ 22 = omega arith in
    let one = bit_or-shifted 22 e (w * 4096) (omega arith) in
    let two = bit_or-shifted 12 (e * 1024 + w) s (omega arith) in ground arith

elapsed-valid :
    (epoch current : ℕ)
    → epoch < two63
    → current < two63
    → wrap64 (pos current -ℤ pos epoch)
      ≡ (if ltb current epoch then negsuc (epoch - current - 1) else pos (current - epoch))
unfolding ◌-ℤ◌
elapsed-valid epoch current he hc = ground arith

-- What the end of `generate` does, at each side of the 41 bits of time.
pub issue_cases :
    (n : Node) (s c : ℕ)
    → IsValid n
    → c < two63
    → s ≤ max_sequence
    → ((c < start n) × (issue n s c ≡ (record n { sequence = s }, err invalid_config)))
      ⊎ ((start n + max_timestamp < c)
          × (issue n s c ≡ (record n { sequence = s }, err timestamp_overflow)))
      ⊎ ((start n ≤ c)
          × (c ≤ start n + max_timestamp)
          × (issue n s c ≡ (record n { timestamp = c; sequence = s }, ok (id_at n c s))))
unfolding issue
issue_cases n s c v hc hs =
    ground (arith, elapsed-valid (start n) c v.epoch_fits hc, pack-sum (c - start n) n.worker_id s)
