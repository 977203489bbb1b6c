-- ===== src/Cache/Invalidation.antt =====
-- The invalidation of a key by Delete of pkg/cache/cache.go.
use kc.Prelude.{
  ℕ, ◌+◌, ◌-◌, ◌≤◌, ◌≡◌, ◌≢◌, refl, sym, ap, ◌∙◌, subst, ◌⊎◌, inl, inr, Bool, true, Option, some,
  none, List, [], ◌∷◌, ◌++◌, if◌then◌else◌, ◌==◌, arith, if_elim, length, Result,
}
use mathlib.Core.List.{append_assoc}
use kc.Prelude.Names.{String, same, same_self}
use kc.Cache.{
  Error, Local, Codec, InvalidationMessage, cache_message_version, Cache, set, set_with_ttl, delete,
  invalidate_decoded, handle_invalidation, received, receive, enqueue,
}

module _ {K V : Type 0} (local : Local K V) (codec : Codec K) (key : K)
    (namespace encoded : String) where
  -- The message that drops the key.
  abbrev pub drop_message : Option InvalidationMessage
  drop_message =
      some (record { version = cache_message_version; namespace = namespace; key = encoded })

  abbrev pub IsOut : Cache local codec → Type 0
  IsOut c = (now : ℕ) → local.get_if_present c.store now key ≡ none

  -- The message is among the next n that the instance receives.
  abbrev pub IsNear : ℕ → Cache local codec → Type 0
  IsNear n c =
      (before after : List (Option InvalidationMessage)) × (c.inbox
        ≡ before ++ (drop_message ∷ after))
      × (length before + 1 ≤ n)

  -- The instance has dropped the key, will never use it again, or has the message before it.
  abbrev pub Drops : ℕ → Cache local codec → Type 0
  Drops n c = (c.namespace ≡ namespace) × ((c.closed ≡ true) ⊎ (IsOut c ⊎ IsNear n c))

  -- A step that changes the store alone.
  restored :
      (n : ℕ) (c : Cache local codec) (store : local.Store)
      → (IsOut c → IsOut (record c { store = store }))
      → Drops n c
      → Drops n (record c { store = store })
  restored n c store out (named, inl ended) = (named, inl ended)
  restored n c store out (named, inr (inl gone)) = (named, inr (inl (out gone)))
  restored n c store out (named, inr (inr near)) = (named, inr (inr near))

  pub set-Drops :
      (n : ℕ) (c : Cache local codec) (now : ℕ) (key' : K) (v : V)
      → key ≢ key'
      → Drops n c
      → Drops n (set local codec c now key' v).0
  unfolding set
  set-Drops n c now key' v apart h =
      if_elim (λ (r : Cache local codec × _). Drops n r.0) c.closed (λ e. h)
        (λ e.
          if_elim (λ (r : Cache local codec × _). Drops n r.0) _
            (λ valid.
              restored n c (local.set c.store now key' v)
                (λ gone later. local.set_keeps_out c.store key key' v now later apart (gone later))
                h)
            (λ invalid. h))

  pub set_with_ttl-Drops :
      (n : ℕ) (c : Cache local codec) (now : ℕ) (key' : K) (v : V) (ttl : ℕ)
      → key ≢ key'
      → Drops n c
      → Drops n (set_with_ttl local codec c now key' v ttl).0
  unfolding set_with_ttl
  set_with_ttl-Drops n c now key' v ttl apart h =
      if_elim (λ (r : Cache local codec × _). Drops n r.0) (ttl == 0) (λ e. h)
        (λ positive.
          if_elim (λ (r : Cache local codec × _). Drops n r.0) c.closed (λ e. h)
            (λ e.
              if_elim (λ (r : Cache local codec × _). Drops n r.0) _
                (λ valid.
                  restored n c (local.set_expires_after (local.set c.store now key' v) now key' ttl)
                    (λ gone later.
                      local.expires_keeps_out (local.set c.store now key' v) key key' ttl now later
                        apart (local.set_keeps_out c.store key key' v now later apart (gone later)))
                    h)
                (λ invalid. h)))

  invalidate-Drops :
      (n : ℕ) (c : Cache local codec) (key' : K)
      → Drops n c
      → Drops n (record c { store = local.invalidate c.store key' })
  invalidate-Drops n c key' =
      restored n c (local.invalidate c.store key')
        (λ gone now. local.invalidate_keeps_out c.store key key' now (gone now))

  abbrev Deleted : Type 0
  Deleted = Cache local codec × Option InvalidationMessage × Result Error (Unit {0})

  pub delete-Drops :
      (n : ℕ) (c : Cache local codec) (key' : K) (fails : Bool)
      → Drops n c
      → Drops n (delete local codec c key' fails).0
  unfolding delete
  delete-Drops n c key' fails h =
      if_elim (λ (r : Deleted). Drops n r.0) c.closed (λ e. h)
        (λ e.
          if_elim (λ (r : Deleted). Drops n r.0) c.has_redis (λ redis. invalidate-Drops n c key' h)
            (λ none_there. invalidate-Drops n c key' h))

  pub enqueue-Drops :
      (n : ℕ) (c : Cache local codec) (payload : Option InvalidationMessage)
      → Drops n c
      → Drops n (enqueue local codec payload c)
  enqueue-Drops n c payload (named, inl ended) = (named, inl ended)
  enqueue-Drops n c payload (named, inr (inl gone)) = (named, inr (inl gone))
  enqueue-Drops n c payload (named, inr (inr (before, after, at, near))) = (
    named,
    inr (
        inr (
          before,
          after ++ (payload ∷ []),
          ap (λ l. l ++ (payload ∷ [])) at
              ∙ append_assoc before (drop_message ∷ after) (payload ∷ []),
          near,
        )),
  )

  decoded-Drops :
      (n : ℕ) (c : Cache local codec) (o : Option K)
      → Drops n c
      → Drops n (invalidate_decoded local codec c o)
  decoded-Drops n c none h = h
  decoded-Drops n c (some key') h = invalidate-Drops n c key' h

  handle-Drops :
      (n : ℕ) (c : Cache local codec) (payload : Option InvalidationMessage)
      → Drops n c
      → Drops n (handle_invalidation local codec c payload)
  handle-Drops n c none h = h
  handle-Drops n c (some message) h =
      if_elim (Drops n) _ (λ own. decoded-Drops n c (codec.decode message.key) h) (λ other. h)

  received-Drops :
      (n : ℕ) (c : Cache local codec) (inbox : List (Option InvalidationMessage))
      → codec.decode encoded ≡ some key
      → c.inbox ≡ inbox
      → Drops n c
      → Drops (n - 1) (received local codec c inbox)
  received-Drops n c inbox decodes e (named, inl ended) = ends inbox
    where
      ends : (l : List (Option InvalidationMessage)) → Drops (n - 1) (received local codec c l)
      ends [] = (named, inl ended)
      ends (payload ∷ rest) =
          handle-Drops (n - 1) (record c { inbox = rest }) payload (named, inl ended)
  received-Drops n c inbox decodes e (named, inr (inl gone)) = goes inbox
    where
      goes : (l : List (Option InvalidationMessage)) → Drops (n - 1) (received local codec c l)
      goes [] = (named, inr (inl gone))
      goes (payload ∷ rest) =
          handle-Drops (n - 1) (record c { inbox = rest }) payload (named, inr (inl gone))
  received-Drops n c inbox decodes e (named, inr (inr ([], after, at, near))) =
      subst (λ l. Drops (n - 1) (received local codec c l)) (sym at ∙ e)
        (subst (Drops (n - 1)) (sym handled)
          (named, inr (inl (λ now. local.invalidate_drops c.store key now))))
    where
      handled :
          received local codec c (drop_message ∷ after)
          ≡ record c { inbox = after; store = local.invalidate c.store key }
      handled =
          ap
            (λ (b : Bool).
              if b
              then invalidate_decoded local codec (record c { inbox = after })
                  (codec.decode encoded)
              else record c { inbox = after })
            {y = true} (ap (same namespace) named ∙ same_self namespace)
          ∙ ap (invalidate_decoded local codec (record c { inbox = after })) decodes
  received-Drops n c inbox decodes e (named, inr (inr (payload ∷ before, after, at, near))) =
      subst (λ l. Drops (n - 1) (received local codec c l)) (sym at ∙ e)
        (handle-Drops (n - 1) (record c { inbox = before ++ (drop_message ∷ after) }) payload
          (named, inr (inr (before, after, refl, omega arith))))

  pub receive-Drops :
      (n : ℕ) (c : Cache local codec)
      → codec.decode encoded ≡ some key
      → Drops n c
      → Drops (n - 1) (receive local codec c)
  receive-Drops n c decodes h =
      if_elim (Drops (n - 1)) c.closed (λ ended. (h.0, inl ended))
        (λ running. received-Drops n c c.inbox decodes refl h)
