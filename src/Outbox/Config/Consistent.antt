-- ===== src/Outbox/Config/Consistent.antt =====
-- What the settings that resolveConfig of pkg/outbox/types.go lets through have in common.
use kc.Prelude.{
  ℕ, ◌+◌, ◌*◌, ◌≤◌, ◌<◌, ◌≡◌, refl, subst, Bool, true, false, Option, some, none, if◌then◌else◌,
  ltb, leb, not, Result, ok, err, ◌>>=◌, ◌>>◌, refuse, arith, Bool-cases, inl, inr,
}
use kc.Prelude.Int.{ℤ, pos, negsuc}
use kc.Outbox.Config.{
  Error, Config, ResolvedConfig, count_or, duration_or, millisecond, retries_of, is_inconsistent,
  with_defaults, checked, resolve_config, unsafe_name, inconsistent_durations, bad_postgres,
}

-- The result, if there is one, has the property.
abbrev Post : {A : Type 0} → (A → Type 0) → Result Error A → Type 0
Post P (ok a) = P a
Post P (err e) = Unit

bind-Post :
    {A B : Type 0} (Q : A → Type 0) (P : B → Type 0) (m : Result Error A) (f : A → Result Error B)
    → Post Q m
    → ((a : A) → Q a → Post P (f a))
    → Post P (m >>= f)
bind-Post Q P (ok a) f q h = h a q
bind-Post Q P (err e) f q h = tt

abbrev IsPositive : ℕ → Type 0
IsPositive n = 1 ≤ n

abbrev IsLong : ℕ → Type 0
IsLong d = millisecond ≤ d

count_or-Post : (default : ℕ) (v : ℤ) → 1 ≤ default → Post IsPositive (count_or default v)
count_or-Post default (pos n) h = ground arith
count_or-Post default (negsuc n) h = tt

duration_or-Post : (default : ℕ) (v : ℤ) → Post IsLong (duration_or default v)
duration_or-Post default (negsuc n) = tt
duration_or-Post default (pos n) =
    elim (Bool-cases (ltb (if leb n 0 then default * millisecond else n) millisecond)) [
      | inl short ↦
          subst (Post IsLong) {x = err Error.short_duration} {y = duration_or default (pos n)}
            (simp short) tt
      | inr long ↦
          subst (Post IsLong) {x = ok (if leb n 0 then default * millisecond else n)}
            {y = duration_or default (pos n)} (simp long) (ground (arith, long))
    ]

pub record AreLong (c : ResolvedConfig) : Type 0 where
  pub workers : 1 ≤ c.worker_count
  pub batches : 1 ≤ c.batch_size
  pub cleanups : 1 ≤ c.cleanup_batch_size
  pub scan : millisecond ≤ c.scan_interval
  pub handler : millisecond ≤ c.handler_timeout
  pub task : millisecond ≤ c.task_lease
  pub shard : millisecond ≤ c.shard_lease
  pub longest : millisecond ≤ c.retry_max
  pub heartbeat : millisecond ≤ c.heartbeat_interval
  pub shortest : millisecond ≤ c.retry_min
  pub retention : millisecond ≤ c.retention
  pub cleanup : millisecond ≤ c.cleanup_interval
  pub operation : millisecond ≤ c.operation_timeout
  pub close : millisecond ≤ c.close_timeout

with_defaults-Post : (c : Config) → Post AreLong (with_defaults c)
unfolding with_defaults
with_defaults-Post c =
    bind-Post IsPositive AreLong (count_or 4 c.worker_count) _
      (count_or-Post 4 c.worker_count (omega arith))
      λ worker_count h1.
        bind-Post IsPositive AreLong (count_or 100 c.batch_size) _
          (count_or-Post 100 c.batch_size (omega arith))
          λ batch_size h2.
            bind-Post IsPositive AreLong (count_or 1000 c.cleanup_batch_size) _
              (count_or-Post 1000 c.cleanup_batch_size (omega arith))
              λ cleanup_batch_size h3.
                bind-Post IsLong AreLong (duration_or 1000 c.durations.scan_interval) _
                  (duration_or-Post 1000 c.durations.scan_interval)
                  λ d1 k1.
                    bind-Post IsLong AreLong (duration_or 30000 c.durations.handler_timeout) _
                      (duration_or-Post 30000 c.durations.handler_timeout)
                      λ d2 k2.
                        bind-Post IsLong AreLong (duration_or 60000 c.durations.task_lease) _
                          (duration_or-Post 60000 c.durations.task_lease)
                          λ d3 k3.
                            bind-Post IsLong AreLong
                              (duration_or 5000 c.durations.heartbeat_interval) _
                              (duration_or-Post 5000 c.durations.heartbeat_interval)
                              λ d4 k4.
                                bind-Post IsLong AreLong (duration_or 30000 c.durations.shard_lease)
                                  _ (duration_or-Post 30000 c.durations.shard_lease)
                                  λ d5 k5.
                                    bind-Post IsLong AreLong
                                      (duration_or 1000 c.durations.retry_min) _
                                      (duration_or-Post 1000 c.durations.retry_min)
                                      λ d6 k6.
                                        bind-Post IsLong AreLong
                                          (duration_or 300000 c.durations.retry_max) _
                                          (duration_or-Post 300000 c.durations.retry_max)
                                          λ d7 k7.
                                            bind-Post IsLong AreLong
                                              (duration_or 86400000 c.durations.retention) _
                                              (duration_or-Post 86400000 c.durations.retention)
                                              λ d8 k8.
                                                bind-Post IsLong AreLong
                                                  (duration_or 60000 c.durations.cleanup_interval) _
                                                  (duration_or-Post 60000
                                                    c.durations.cleanup_interval)
                                                  λ d9 k9.
                                                    bind-Post IsLong AreLong
                                                      (duration_or 5000
                                                        c.durations.operation_timeout)
                                                      _
                                                      (duration_or-Post 5000
                                                        c.durations.operation_timeout)
                                                      λ d10 k10.
                                                        bind-Post IsLong AreLong
                                                          (duration_or 35000
                                                            c.durations.close_timeout)
                                                          _
                                                          (duration_or-Post 35000
                                                            c.durations.close_timeout)
                                                          λ d11 k11. record {
                                                            workers = h1;
                                                            batches = h2;
                                                            cleanups = h3;
                                                            scan = k1;
                                                            handler = k2;
                                                            task = k3;
                                                            shard = k5;
                                                            longest = k7;
                                                            heartbeat = k4;
                                                            shortest = k6;
                                                            retention = k8;
                                                            cleanup = k9;
                                                            operation = k10;
                                                            close = k11;
                                                          }

refuse-Post :
    {A : Type 0} (P : A → Type 0) (b : Bool) (e : Error) (m : Result Error A)
    → (b ≡ false → Post P m)
    → Post P (refuse b e >> m)
refuse-Post P true e m h = tt
refuse-Post P false e m h = h refl

pub record IsConsistent (c : ResolvedConfig) : Type 0 where
  pub long : AreLong c
  pub handled_in_lease : c.handler_timeout + c.operation_timeout ≤ c.task_lease
  pub handler_in_lease : c.handler_timeout < c.task_lease
  pub heartbeats_in_lease : 3 * c.heartbeat_interval ≤ c.shard_lease
  pub retry_order : c.retry_min ≤ c.retry_max
  pub few_retries : c.retries < 2147483647

retries_of-Post : (o : Option ℤ) → Post (λ n. n < 2147483647) (retries_of o)
retries_of-Post none = omega arith
retries_of-Post (some (negsuc n)) = tt
retries_of-Post (some (pos n)) = elim (Bool-cases (leb 2147483647 n)) [
  | inl many ↦
      subst (Post (λ n. n < 2147483647)) {x = err Error.bad_retries} {y = retries_of (some (pos n))}
        (simp many) tt
  | inr few ↦
      subst (Post (λ n. n < 2147483647)) {x = ok n} {y = retries_of (some (pos n))} (simp few)
        (ground (arith, few))
]

checked-Post : (c : Config) (r : ResolvedConfig) → AreLong r → Post IsConsistent (checked c r)
unfolding checked
checked-Post c r long =
    refuse-Post IsConsistent (is_inconsistent r) inconsistent_durations _ λ fits.
      bind-Post (λ n. n < 2147483647) IsConsistent (retries_of c.max_retries) _
        (retries_of-Post c.max_retries)
        λ n few. refuse-Post IsConsistent (not c.postgres_fits) bad_postgres _ λ in_range. record {
          long = record {
            workers = long.workers;
            batches = long.batches;
            cleanups = long.cleanups;
            scan = long.scan;
            handler = long.handler;
            task = long.task;
            shard = long.shard;
            longest = long.longest;
            heartbeat = long.heartbeat;
            shortest = long.shortest;
            retention = long.retention;
            cleanup = long.cleanup;
            operation = long.operation;
            close = long.close;
          };
          handled_in_lease = ground (arith, fits);
          handler_in_lease = ground (arith, fits);
          heartbeats_in_lease = ground (arith, fits);
          retry_order = ground (arith, fits);
          few_retries = few;
        }

-- Settings that resolveConfig lets through are consistent: each count is at least one and each
-- duration that is given or a default is at least a millisecond; a delivery and the report of its
-- result fit in the lease of a task, three heartbeats fit in the lease of a shard, the shortest wait
-- is no longer than the longest, and the retries are fewer than the largest 32-bit number.
pub resolve_config-IsConsistent :
    (c : Config) (r : ResolvedConfig) → resolve_config c ≡ ok r → IsConsistent r
unfolding resolve_config
resolve_config-IsConsistent c r e = subst (Post IsConsistent) e (
    refuse-Post IsConsistent (not c.names_safe) unsafe_name (with_defaults c >>= checked c) (λ safe.
      bind-Post AreLong IsConsistent (with_defaults c) (checked c) (with_defaults-Post c)
        (checked-Post c)))
