-- ===== src/Outbox/Shards.antt =====
-- The leases on shards of pkg/outbox/storage.go: lockShard, coordinate, assignment, release. The
-- two transactions of coordinate are two steps, so that other nodes can come between them.
pub mod Fencing
pub mod Sorting
pub mod Partition
use kc.Prelude.{
  ℕ, zero, suc, ◌+◌, ◌-◌, Bool, true, false, Option, some, none, List, [], ◌∷◌, ◌++◌, if◌then◌else◌,
  ltb, leb, ◌==◌, length, not, ◌&&◌, ◌||◌, Result, ok, err, get_elem?, refuse, ◌>>=◌,
}
use kc.Prelude.Names.{String, same}
use kc.Outbox.Names.{before}
use kc.Outbox.Store.{
  Error, lease_lost, Settings, Table, Task, holds, claim_shard_rows, cleanup_rows,
}

abbrev pub shard_count : ℕ
shard_count = 64

pub record Shard : Type 0 where
  pub owner : String
  pub token : String
  pub until : ℕ

abbrev pub free_shard : Shard
free_shard = record { owner = ""; token = ""; until = 0 }

pub record ShardLease : Type 0 where
  pub shard_id : ℕ
  pub owner_id : String
  pub token : String

-- The shard table and the node table.
pub record Cluster : Type 0 where
  pub shards : ℕ → Option Shard
  pub nodes : List (String × ℕ)

unfoldable pub lock_shard : Cluster → ShardLease → ℕ → Result Error (Unit {0})
lock_shard c lease now = elim (c.shards lease.shard_id) [
  | none ↦ err lease_lost
  | some current ↦
      refuse
        (not (same current.owner lease.owner_id)
          || not (same current.token lease.token)
          || leb current.until now)
        lease_lost
]

unfoldable pub claim_shard :
    Settings
    → Cluster
    → Table
    → (ℕ → Bool)
    → ShardLease
    → ℕ
    → ℕ
    → String
    → Table × Result Error (List Task)
claim_shard settings c t locked lease limit now token =
    if limit == 0 then (t, ok []) else (elim (lock_shard c lease now) [
      | err e ↦ (t, err e)
      | ok held ↦
          (let r = claim_shard_rows settings t locked lease.shard_id limit now token in
            (r.0, ok r.1))
    ])

unfoldable pub cleanup :
    Settings → Cluster → Table → (ℕ → Bool) → ShardLease → ℕ → Table × Result Error ℕ
cleanup settings c t locked lease now = elim (lock_shard c lease now) [
  | err e ↦ (t, err e)
  | ok held ↦ (let r = cleanup_rows settings t locked lease.shard_id now in (r.0, ok r.1))
]

-- `sort.Strings`
abbrev pub insert_name : String → List String → List String
insert_name x [] = x ∷ []
insert_name x (y ∷ rest) =
    let later = insert_name x rest in if before y x then y ∷ later else x ∷ y ∷ rest

unfoldable pub sort_names : List String → List String
sort_names [] = []
sort_names (x ∷ rest) = insert_name x (sort_names rest)

-- `sort.SearchStrings`: the first index whose name does not come before the given one.
unfoldable pub search_names : List String → String → ℕ
search_names [] node = 0
search_names (x ∷ rest) node =
    let later = search_names rest node in if before x node then suc later else 0

-- The loop `for shard := index; shard < shardCount; shard += n`, of at most `fuel` rounds.
unfoldable pub stride : ℕ → ℕ → ℕ → List ℕ
stride zero shard n = []
stride (suc fuel) shard n =
    let rest = stride fuel (shard + n) n in if ltb shard shard_count then shard ∷ rest else []

unfoldable pub assignment : List String → String → List ℕ
assignment nodes node =
    let sorted = sort_names nodes in
    let index = search_names sorted node in
    elim (get_elem? sorted index) [
      | none ↦ []
      | some found ↦ (if same found node then stride shard_count index (length sorted) else [])
    ]

abbrev pub update_shards : (ℕ → Option Shard) → (ℕ → Shard → Shard) → ℕ → Option Shard
update_shards shards f = λ id. elim (shards id) [ none ↦ none | some shard ↦ some (f id shard) ]

-- The node registers itself, or extends its own lease.
abbrev pub upsert_node : List (String × ℕ) → String → ℕ → List (String × ℕ)
upsert_node [] node until = (node, until) ∷ []
upsert_node ((other, lease) ∷ rest) node until =
    let later = upsert_node rest node until in
    if same other node then (node, until) ∷ rest else (other, lease) ∷ later

abbrev pub live_nodes : List (String × ℕ) → ℕ → List String
live_nodes [] now = []
live_nodes ((node, until) ∷ rest) now =
    let others = live_nodes rest now in if ltb now until then node ∷ others else others

abbrev pub expire_nodes : List (String × ℕ) → ℕ → List (String × ℕ)
expire_nodes [] now = []
expire_nodes ((node, until) ∷ rest) now =
    let others = expire_nodes rest now in if leb until now then others else (node, until) ∷ others

abbrev pub delete_node : List (String × ℕ) → String → List (String × ℕ)
delete_node [] node = []
delete_node ((other, until) ∷ rest) node =
    let others = delete_node rest node in
    if same other node then others else (other, until) ∷ others

-- A shard of the node that it should not have is given up.
abbrev pub give_up : String → List ℕ → ℕ → Shard → Shard
give_up node desired id shard =
    if same shard.owner node && not (holds desired id) then free_shard else shard

-- The first transaction: the node registers, reads who is alive and gives up what it should not
-- have. The result is the shards that it should have.
unfoldable pub coordinate_release : ℕ → Cluster → String → ℕ → Cluster × List ℕ
coordinate_release shard_lease c node now =
    let nodes = upsert_node c.nodes node (now + shard_lease) in
    let desired = assignment (live_nodes nodes now) node in
    (record { shards = update_shards c.shards (give_up node desired); nodes = nodes }, desired)

-- A live lease of the node on a shard that it should have is extended.
abbrev pub renew : ℕ → String → List ℕ → ℕ → ℕ → Shard → Shard
renew until node desired now id shard =
    if same shard.owner node && ltb now shard.until && holds desired id
    then record shard { until = until }
    else shard

-- A shard that the node should have and whose lease is over is taken.
abbrev pub take_over : ℕ → String → String → List ℕ → ℕ → ℕ → Shard → Shard
take_over until node token desired now id shard =
    if leb shard.until now && holds desired id
    then record { owner = node; token = token; until = until }
    else shard

abbrev pub lease_of : ℕ → Option Shard → String → ℕ → List ShardLease
lease_of id none node now = []
lease_of id (some shard) node now =
    if same shard.owner node && ltb now shard.until
    then record { shard_id = id; owner_id = shard.owner; token = shard.token } ∷ []
    else []

unfoldable pub leases_below : (ℕ → Option Shard) → String → ℕ → ℕ → List ShardLease
leases_below shards node now zero = []
leases_below shards node now (suc n) =
    leases_below shards node now n ++ lease_of n (shards n) node now

-- The second transaction: the node extends and takes its shards, reads its leases, and clears the
-- nodes that are gone.
unfoldable pub coordinate_acquire :
    ℕ → Cluster → String → String → List ℕ → ℕ → Cluster × List ShardLease
coordinate_acquire shard_lease c node token desired now =
    let until = now + shard_lease in
    let shards =
      update_shards (update_shards c.shards (renew until node desired now))
        (take_over until node token desired now) in
    (
      record { shards = shards; nodes = expire_nodes c.nodes now },
      leases_below shards node now shard_count,
    )

abbrev pub freed : String → ℕ → Shard → Shard
freed node id shard = if same shard.owner node then free_shard else shard

unfoldable pub release : Cluster → String → Cluster
release c node = record {
  shards = update_shards c.shards (freed node);
  nodes = delete_node c.nodes node;
}
