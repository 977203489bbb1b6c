-- ===== src/Outbox/Config.antt =====
-- The settings of pkg/outbox/types.go: defaults and checks of resolveConfig. Durations are
-- nanoseconds. Whether the names are safe (regular expressions) and whether the options of
-- PostgreSQL are in range (floats) are answers that the model takes.
pub mod Consistent
use kc.Prelude.{
  ℕ, ◌+◌, ◌-◌, ◌*◌, ◌/◌, ◌≤◌, ◌<◌, ◌≡◌, refl, Bool, true, false, Option, some, none, if◌then◌else◌,
  ltb, leb, not, ◌||◌, Result, ok, err, ◌>>=◌, ◌>>◌, refuse, arith, Bool-cases, inl, inr,
}
use kc.Prelude.Int.{ℤ, pos, negsuc, ltb_ℤ}

pub data Error : Type 0 where
  unsafe_name negative_count short_duration inconsistent_durations bad_retries bad_postgres : Error

pub record Durations : Type 0 where
  pub scan_interval : ℤ
  pub handler_timeout : ℤ
  pub task_lease : ℤ
  pub heartbeat_interval : ℤ
  pub shard_lease : ℤ
  pub retry_min : ℤ
  pub retry_max : ℤ
  pub retention : ℤ
  pub cleanup_interval : ℤ
  pub operation_timeout : ℤ
  pub close_timeout : ℤ

pub record Config : Type 0 where
  pub names_safe : Bool
  pub worker_count : ℤ
  pub batch_size : ℤ
  pub cleanup_batch_size : ℤ
  pub durations : Durations
  pub max_retries : Option ℤ
  pub postgres_fits : Bool

pub record ResolvedConfig : Type 0 where
  pub worker_count : ℕ
  pub batch_size : ℕ
  pub cleanup_batch_size : ℕ
  pub scan_interval : ℕ
  pub handler_timeout : ℕ
  pub task_lease : ℕ
  pub heartbeat_interval : ℕ
  pub shard_lease : ℕ
  pub retry_min : ℕ
  pub retry_max : ℕ
  pub retention : ℕ
  pub cleanup_interval : ℕ
  pub operation_timeout : ℕ
  pub close_timeout : ℕ
  pub retries : ℕ

abbrev pub count_or : ℕ → ℤ → Result Error ℕ
count_or default (pos n) = ok (if leb n 0 then default else n)
count_or default (negsuc n) = err negative_count

abbrev pub millisecond : ℕ
millisecond = 1000000

abbrev pub duration_or : ℕ → ℤ → Result Error ℕ
duration_or default (negsuc n) = err short_duration
duration_or default (pos n) =
    let d = if leb n 0 then default * millisecond else n in
    if ltb d millisecond then err short_duration else ok d

abbrev pub retries_of : Option ℤ → Result Error ℕ
retries_of none = ok 20
retries_of (some (negsuc n)) = err bad_retries
retries_of (some (pos n)) = if leb 2147483647 n then err bad_retries else ok n

abbrev pub is_inconsistent : ResolvedConfig → Bool
is_inconsistent c =
    leb c.task_lease c.handler_timeout
    || ltb (c.task_lease - c.handler_timeout) c.operation_timeout
    || ltb (c.shard_lease / 3) c.heartbeat_interval
    || ltb c.retry_max c.retry_min

-- The settings with their defaults, before the checks that relate them.
unfoldable pub with_defaults : Config → Result Error ResolvedConfig
with_defaults c = count_or 4 c.worker_count >>= λ worker_count.
    count_or 100 c.batch_size >>= λ batch_size.
    count_or 1000 c.cleanup_batch_size >>= λ cleanup_batch_size.
    duration_or 1000 c.durations.scan_interval >>= λ scan_interval.
    duration_or 30000 c.durations.handler_timeout >>= λ handler_timeout.
    duration_or 60000 c.durations.task_lease >>= λ task_lease.
    duration_or 5000 c.durations.heartbeat_interval >>= λ heartbeat_interval.
    duration_or 30000 c.durations.shard_lease >>= λ shard_lease.
    duration_or 1000 c.durations.retry_min >>= λ retry_min.
    duration_or 300000 c.durations.retry_max >>= λ retry_max.
    duration_or 86400000 c.durations.retention >>= λ retention.
    duration_or 60000 c.durations.cleanup_interval >>= λ cleanup_interval.
    duration_or 5000 c.durations.operation_timeout >>= λ operation_timeout.
    duration_or 35000 c.durations.close_timeout >>= λ close_timeout. ok (record {
      worker_count = worker_count;
      batch_size = batch_size;
      cleanup_batch_size = cleanup_batch_size;
      scan_interval = scan_interval;
      handler_timeout = handler_timeout;
      task_lease = task_lease;
      heartbeat_interval = heartbeat_interval;
      shard_lease = shard_lease;
      retry_min = retry_min;
      retry_max = retry_max;
      retention = retention;
      cleanup_interval = cleanup_interval;
      operation_timeout = operation_timeout;
      close_timeout = close_timeout;
      retries = 20;
    })

unfoldable pub checked : Config → ResolvedConfig → Result Error ResolvedConfig
checked c r =
    refuse (is_inconsistent r) inconsistent_durations
    >> (retries_of c.max_retries >>= λ retries.
        refuse (not c.postgres_fits) bad_postgres >> ok (record r { retries = retries }))

unfoldable pub resolve_config : Config → Result Error ResolvedConfig
resolve_config c = refuse (not c.names_safe) unsafe_name >> (with_defaults c >>= checked c)
