-- ===== src/Cache/Reaching.antt =====
-- A key that Delete of pkg/cache/cache.go drops in all instances.
use kc.Prelude.{
  ℕ, ◌+◌, ◌-◌, ◌≡◌, ◌≢◌, refl, sym, ap, ◌∙◌, subst, ◌⊎◌, inl, inr, Bool, true, false, Option, some,
  none, List, [], ◌∷◌, ◌++◌, if◌then◌else◌, ◌==◌, arith, if_elim, Bool-cases, length, ok, All,
}
use kc.Prelude.Names.{String, same}
use kc.Cache.{
  Local, Codec, InvalidationMessage, cache_message_version, Cache, get, delete, receive, Move, sets,
  sets_for, deletes, receives, arrives, closes, put_at, broadcast, apply, apply_all, message_for,
}
use kc.Cache.Invalidation.{
  drop_message, Drops, set-Drops, set_with_ttl-Drops, delete-Drops, enqueue-Drops, receive-Drops,
}

module _ {K V : Type 0} (local : Local K V) (codec : Codec K) (key : K) (namespace encoded : String)
    (j : ℕ) where
  abbrev Awaits : ℕ → Cache local codec → Type 0
  Awaits n c = Drops local codec key namespace encoded n c

  -- The instance does not set the key itself.
  abbrev pub Spares : Move local codec → Type 0
  Spares (sets i now key' v) = (i ≢ j) ⊎ (key ≢ key')
  Spares (sets_for i now key' v ttl) = (i ≢ j) ⊎ (key ≢ key')
  Spares (deletes i key' fails reached) = Unit
  Spares (receives i) = Unit
  Spares (arrives i payload) = Unit
  Spares (closes i) = Unit

  -- What is left of so many rounds of its subscriber.
  abbrev pub left : ℕ → Move local codec → ℕ
  left n (receives i) = if j == i then n - 1 else n
  left n (sets i now key' v) = n
  left n (sets_for i now key' v ttl) = n
  left n (deletes i key' fails reached) = n
  left n (arrives i payload) = n
  left n (closes i) = n

  abbrev pub left_after : ℕ → List (Move local codec) → ℕ
  left_after n [] = n
  left_after n (m ∷ rest) = left_after (left n m) rest

  placed :
      (n : ℕ) (caches : ℕ → Cache local codec) (i : ℕ) (c : Cache local codec)
      → (i ≡ j → Awaits n (caches i) → Awaits n c)
      → Awaits n (caches j)
      → Awaits n (put_at local codec caches i c j)
  placed n caches i c at h =
      if_elim (Awaits n) (j == i)
        (λ e.
          let same : j ≡ i = ground (arith, e) in
          at (sym same) (subst (λ k. Awaits n (caches k)) same h))
        (λ e. h)

  apart_from : (i : ℕ) (key' : K) → (i ≢ j) ⊎ (key ≢ key') → i ≡ j → key ≢ key'
  apart_from i key' (inl elsewhere) same = absurd (elsewhere same)
  apart_from i key' (inr apart) same = apart

  broadcast-Drops :
      (n : ℕ) (caches : ℕ → Cache local codec) (o : Option InvalidationMessage) (reached : ℕ → Bool)
      → Awaits n (caches j)
      → Awaits n (broadcast local codec caches o reached j)
  broadcast-Drops n caches none reached h = h
  broadcast-Drops n caches (some message) reached h =
      if_elim (Awaits n) (reached j)
        (λ e. enqueue-Drops local codec key namespace encoded n (caches j) (some message) h)
        (λ e. h)

  apply-Drops :
      (n : ℕ) (caches : ℕ → Cache local codec) (m : Move local codec)
      → codec.decode encoded ≡ some key
      → Spares m
      → Awaits n (caches j)
      → Awaits (left n m) (apply local codec caches m j)
  unfolding apply
  apply-Drops n caches (sets i now key' v) decodes spare h =
      placed n caches i _
        (λ same.
          set-Drops local codec key namespace encoded n (caches i) now key' v
            (apart_from i key' spare same))
        h
  apply-Drops n caches (sets_for i now key' v ttl) decodes spare h =
      placed n caches i _
        (λ same.
          set_with_ttl-Drops local codec key namespace encoded n (caches i) now key' v ttl
            (apart_from i key' spare same))
        h
  apply-Drops n caches (deletes i key' fails reached) decodes spare h =
      let r = delete local codec (caches i) key' fails in
      broadcast-Drops n (put_at local codec caches i r.0) r.1 reached (
        placed n caches i r.0
          (λ same. delete-Drops local codec key namespace encoded n (caches i) key' fails) h)
  apply-Drops n caches (arrives i payload) decodes spare h =
      placed n caches i _
        (λ same. enqueue-Drops local codec key namespace encoded n (caches i) payload) h
  apply-Drops n caches (closes i) decodes spare h =
      placed n caches i _ (λ same d. (d.0, inl refl)) h
  apply-Drops n caches (receives i) decodes spare h = elim (Bool-cases (j == i)) [
    | inl own ↦
        let same : j ≡ i = ground (arith, own) in
        subst
          (λ b.
            Awaits (if b then n - 1 else n)
              (if b then receive local codec (caches i) else caches j))
          (sym own)
          (receive-Drops local codec key namespace encoded n (caches i) decodes
            (subst (λ k. Awaits n (caches k)) same h))
    | inr other ↦
        subst
          (λ b.
            Awaits (if b then n - 1 else n)
              (if b then receive local codec (caches i) else caches j))
          (sym other) h
  ]

  apply_all-Drops :
      (moves : List (Move local codec)) (n : ℕ) (caches : ℕ → Cache local codec)
      → codec.decode encoded ≡ some key
      → All Spares moves
      → Awaits n (caches j)
      → Awaits (left_after n moves) (apply_all local codec caches moves j)
  apply_all-Drops [] n caches decodes all h = h
  apply_all-Drops (m ∷ rest) n caches decodes (spare, all) h =
      apply_all-Drops rest (left n m) (apply local codec caches m) decodes all
        (apply-Drops n caches m decodes spare h)

  Drops-get : (c : Cache local codec) (now : ℕ) → Awaits 0 c → get local codec c now key ≡ none
  Drops-get c now (named, inl ended) = ground (arith, ended)
  Drops-get c now (named, inr (inl gone)) =
      if_elim (λ o. o ≡ none) c.closed (λ e. refl) (λ e. gone now)
  Drops-get c now (named, inr (inr (before, after, at, near))) = absurd (omega arith)

  -- An instance that only loses entries keeps its messages.
  same_message :
      (A : Type 0) (field : Cache local codec → A) (caches : ℕ → Cache local codec) (i : ℕ)
      (store : local.Store)
      → field (record (caches i) { store = store }) ≡ field (caches i)
      → field (put_at local codec caches i (record (caches i) { store = store }) j)
        ≡ field (caches j)
  same_message A field caches i store same =
      if_elim (λ c. field c ≡ field (caches j)) (j == i)
        (λ e. same ∙ ap (λ k. field (caches k)) (ground (arith, e))) (λ e. refl)

  deleted-Drops :
      (caches : ℕ → Cache local codec) (i : ℕ) (reached : ℕ → Bool)
      → codec.encode key ≡ some encoded
      → codec.through_json encoded ≡ encoded
      → codec.through_json namespace ≡ namespace
      → (caches i).closed ≡ false
      → (caches i).has_redis ≡ true
      → (caches i).namespace ≡ namespace
      → (caches j).namespace ≡ namespace
      → reached j ≡ true
      → Awaits
          (length (caches j).inbox + 1)
          (apply local codec caches (deletes i key false reached) j)
  unfolding apply delete
  deleted-Drops caches i reached encodes plain plain_name opened redis named_i named_j reaches =
      subst
        (λ r.
          Awaits (length (caches j).inbox + 1)
            (broadcast local codec (put_at local codec caches i r.0) r.1 reached j))
        {x = (dropped, (drop_message local codec key namespace encoded), ok tt)} (sym published)
        (if_elim (Awaits (length (caches j).inbox + 1)) (reached j)
          (λ e. (
            same_message String (λ c. c.namespace) caches i dropped.store refl ∙ named_j,
            inr (
                inr (
                  (caches j).inbox,
                  [],
                  ap (λ l. l ++ ((drop_message local codec key namespace encoded) ∷ []))
                      (same_message (List (Option InvalidationMessage)) (λ c. c.inbox) caches i
                        dropped.store refl),
                  omega arith,
                )),
          ))
          (λ e. absurd (ground (arith, e, reaches))))
    where
      dropped : Cache local codec
      dropped = record (caches i) { store = local.invalidate (caches i).store key }

      sent :
          delete local codec (caches i) key false
          ≡ (dropped, some (message_for local codec (caches i) encoded), ok tt)
      sent = ground (arith, opened, redis, encodes)

      published :
          delete local codec (caches i) key false
          ≡ (dropped, (drop_message local codec key namespace encoded), ok tt)
      published =
          sent
          ∙ ap (λ m. (dropped, some m, ok tt))
              (λ t. record {
                version = cache_message_version;
                namespace = (ap codec.through_json named_i ∙ plain_name) t;
                key = plain t;
              })

  -- Let an open instance with Redis delete a key whose encoding the codec takes back, where the
  -- encoding and the namespace are valid UTF-8, so that JSON keeps them. When Redis takes the
  -- message and it reaches an instance of the same namespace, that one or another, then, whatever
  -- the instances do and whatever else arrives, once that instance has gone through the messages
  -- it had and this one, it has no value under the key, at any time, as long as it does not set the
  -- key again itself.
  pub delete_reaches :
      (caches : ℕ → Cache local codec) (i : ℕ) (reached : ℕ → Bool)
      (moves : List (Move local codec)) (now : ℕ)
      → codec.encode key ≡ some encoded
      → codec.decode encoded ≡ some key
      → codec.through_json encoded ≡ encoded
      → codec.through_json namespace ≡ namespace
      → (caches i).closed ≡ false
      → (caches i).has_redis ≡ true
      → (caches i).namespace ≡ namespace
      → (caches j).namespace ≡ namespace
      → reached j ≡ true
      → All Spares moves
      → left_after (length (caches j).inbox + 1) moves ≡ 0
      → get local codec
          (apply_all local codec (apply local codec caches (deletes i key false reached)) moves j)
          now
          key
        ≡ none
  delete_reaches caches i reached moves now encodes decodes plain plain_name opened redis named_i
        named_j reaches all done =
      Drops-get last now (
        subst
          (λ n. Awaits n (
            apply_all local codec (apply local codec caches (deletes i key false reached)) moves j))
          done
          (apply_all-Drops moves (length (caches j).inbox + 1) _ decodes all (
            deleted-Drops caches i reached encodes plain plain_name opened redis named_i named_j
              reaches)))
    where
      last : Cache local codec
      last = apply_all local codec (apply local codec caches (deletes i key false reached)) moves j
