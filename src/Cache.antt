-- ===== src/Cache.antt =====
-- The local cache of pkg/cache/cache.go, and the messages by which its instances drop a key.
pub mod Invalidation
pub mod Reaching
mod Examples
use kc.Prelude.{
  ℕ, ◌+◌, ◌≤◌, ◌≡◌, ◌≢◌, ◌⊎◌, Bool, true, false, not, ◌&&◌, ◌||◌, Option, some, none, List, [], ◌∷◌,
  ◌++◌, if◌then◌else◌, ◌==◌, Result, ok, err,
}
use kc.Prelude.Names.{String, same}

pub data Error : Type 0 where
  err_closed err_invalid_ttl err_invalid_argument : Error
  err_encode err_publish : Error

-- The store of otter, whose entries expire, and may be evicted at any time. Its promises.
pub record Local (K V : Type 0) : Type 1 where
  pub Store : Type 0
  pub get_if_present : Store → ℕ → K → Option V
  pub set : Store → ℕ → K → V → Store
  pub set_expires_after : Store → ℕ → K → ℕ → Store
  pub invalidate : Store → K → Store
  pub invalidate_drops :
      (s : Store) (k : K) (now : ℕ) → get_if_present (invalidate s k) now k ≡ none
  pub invalidate_keeps_out :
      (s : Store) (k k' : K) (now : ℕ)
      → get_if_present s now k ≡ none
      → get_if_present (invalidate s k') now k ≡ none
  pub set_keeps_out :
      (s : Store) (k k' : K) (v : V) (at now : ℕ)
      → k ≢ k'
      → get_if_present s now k ≡ none
      → get_if_present (set s at k' v) now k ≡ none
  pub expires_keeps_out :
      (s : Store) (k k' : K) (ttl at now : ℕ)
      → k ≢ k'
      → get_if_present s now k ≡ none
      → get_if_present (set_expires_after s at k' ttl) now k ≡ none

-- KeyCodec, with a failure as `none`; and what JSON makes of a string, where it replaces bytes that
-- are not UTF-8.
pub record Codec (K : Type 0) : Type 0 where
  pub encode : K → Option String
  pub decode : String → Option K
  pub through_json : String → String

pub record InvalidationMessage : Type 0 where
  pub version : ℕ
  pub namespace : String
  pub key : String

abbrev pub cache_message_version : ℕ
cache_message_version = 1

module _ {K V : Type 0} (local : Local K V) (codec : Codec K) where
  -- An instance; `has_redis` tells whether it has a Redis client, and `inbox` holds what the
  -- subscription has received: a message, or a payload that is none.
  pub record Cache : Type 0 where
    pub store : local.Store
    pub has_redis : Bool
    pub namespace : String
    pub closed : Bool
    pub inbox : List (Option InvalidationMessage)

  abbrev pub get : Cache → ℕ → K → Option V
  get c now key = if c.closed then none else local.get_if_present c.store now key

  abbrev pub is_some : Option String → Bool
  is_some none = false
  is_some (some encoded) = true

  -- validateKey, without its error.
  abbrev pub validate_key : Cache → K → Bool
  validate_key c key = not c.has_redis || is_some (codec.encode key)

  unfoldable pub set : Cache → ℕ → K → V → Cache × Result Error (Unit {0})
  set c now key value =
      if c.closed
      then (c, err err_closed)
      else if validate_key c key
      then (record c { store = local.set c.store now key value }, ok tt)
      else (c, err err_encode)

  unfoldable pub set_with_ttl : Cache → ℕ → K → V → ℕ → Cache × Result Error (Unit {0})
  set_with_ttl c now key value ttl =
      if ttl == 0
      then (c, err err_invalid_ttl)
      else if c.closed
      then (c, err err_closed)
      else if validate_key c key
      then (
        record c { store = local.set_expires_after (local.set c.store now key value) now key ttl },
        ok tt,
      )
      else (c, err err_encode)

  -- What Delete publishes, as it arrives.
  abbrev pub message_for : Cache → String → InvalidationMessage
  message_for c encoded = record {
    version = cache_message_version;
    namespace = codec.through_json c.namespace;
    key = codec.through_json encoded;
  }

  abbrev pub publish :
      Cache → Option String → Bool → Option InvalidationMessage × Result Error (Unit {0})
  publish c none fails = (none, err err_encode)
  publish c (some encoded) fails =
      if fails then (none, err err_publish) else (some (message_for c encoded), ok tt)

  -- Delete, the message that it has published, and its result; `fails` tells whether Redis does.
  unfoldable pub delete :
      Cache → K → Bool → Cache × Option InvalidationMessage × Result Error (Unit {0})
  delete c key fails =
      if c.closed
      then (c, none, err err_closed)
      else let dropped = record c { store = local.invalidate c.store key } in
        let sent = publish c (codec.encode key) fails in
        if c.has_redis then (dropped, sent.0, sent.1) else (dropped, none, ok tt)

  abbrev pub invalidate_decoded : Cache → Option K → Cache
  invalidate_decoded c none = c
  invalidate_decoded c (some key) = record c { store = local.invalidate c.store key }

  abbrev pub handle_invalidation : Cache → Option InvalidationMessage → Cache
  handle_invalidation c none = c
  handle_invalidation c (some message) =
      if (message.version == cache_message_version) && same message.namespace c.namespace
      then invalidate_decoded c (codec.decode message.key)
      else c

  abbrev pub received : Cache → List (Option InvalidationMessage) → Cache
  received c [] = c
  received c (payload ∷ rest) = handle_invalidation (record c { inbox = rest }) payload

  -- A round of runSubscriber, which stops when the cache is closed.
  abbrev pub receive : Cache → Cache
  receive c = if c.closed then c else received c c.inbox

  abbrev pub close : Cache → Cache
  close c = record c { closed = true }

  -- What the instances do; `reached` tells which subscriptions a message reaches, and `arrives` is
  -- what others send on the channel.
  pub data Move : Type 0 where
    sets : ℕ → ℕ → K → V → Move
    sets_for : ℕ → ℕ → K → V → ℕ → Move
    deletes : ℕ → K → Bool → (ℕ → Bool) → Move
    receives : ℕ → Move
    arrives : ℕ → Option InvalidationMessage → Move
    closes : ℕ → Move

  abbrev pub enqueue : Option InvalidationMessage → Cache → Cache
  enqueue payload c = record c { inbox = c.inbox ++ (payload ∷ []) }

  abbrev pub put_at : (ℕ → Cache) → ℕ → Cache → ℕ → Cache
  put_at caches i c = λ j. if j == i then c else caches j

  abbrev pub broadcast : (ℕ → Cache) → Option InvalidationMessage → (ℕ → Bool) → ℕ → Cache
  broadcast caches none reached = caches
  broadcast caches (some message) reached =
      λ j. if reached j then enqueue (some message) (caches j) else caches j

  unfoldable pub apply : (ℕ → Cache) → Move → ℕ → Cache
  apply caches (sets i now key value) = put_at caches i (set (caches i) now key value).0
  apply caches (sets_for i now key value ttl) =
      put_at caches i (set_with_ttl (caches i) now key value ttl).0
  apply caches (deletes i key fails reached) =
      let r = delete (caches i) key fails in broadcast (put_at caches i r.0) r.1 reached
  apply caches (receives i) = put_at caches i (receive (caches i))
  apply caches (arrives i payload) = put_at caches i (enqueue payload (caches i))
  apply caches (closes i) = put_at caches i (close (caches i))

  abbrev pub apply_all : (ℕ → Cache) → List Move → ℕ → Cache
  apply_all caches [] = caches
  apply_all caches (m ∷ rest) = apply_all (apply caches m) rest
