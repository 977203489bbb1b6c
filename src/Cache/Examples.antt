-- ===== src/Cache/Examples.antt =====
-- Three instances of the cache of pkg/cache/cache.go on a channel.
use kc.Prelude.{
  ℕ, ◌+◌, ◌≡◌, ◌≢◌, refl, ap, true, false, Option, some, none, List, [], ◌∷◌, ltb, ◌==◌, if_elim,
  inl, inr, if◌then◌else◌, arith,
}
use kc.Prelude.Names.{String, same, same→eq, same_self, Map, empty, insert, delete}
use kc.Cache.{Local, Codec, Cache, get, Move, sets, deletes, receives, arrives, apply, apply_all}
use kc.Cache.Reaching.{delete_reaches}

-- A store whose entries, with the ends of their times, stand in a map; none is evicted.
abbrev Entries : Type 0
Entries = Map (ℕ × ℕ)

abbrev fresh_value : Option (ℕ × ℕ) → ℕ → Option ℕ
fresh_value none now = none
fresh_value (some (v, end)) now = if ltb now end then some v else none

abbrev prolonged : Entries → ℕ → String → ℕ → Option (ℕ × ℕ) → Entries
prolonged s at key ttl none = s
prolonged s at key ttl (some (v, end)) = insert s key (v, at + ttl)

insert_keeps_out :
    (s : Entries) (k k' : String) (entry : ℕ × ℕ) (now : ℕ)
    → k ≢ k'
    → fresh_value (s k) now ≡ none
    → fresh_value (insert s k' entry k) now ≡ none
insert_keeps_out s k k' entry now apart out =
    if_elim (λ o. fresh_value o now ≡ none) (same k k') (λ e. absurd (apart (same→eq k k' e)))
      (λ e. out)

prolonged_keeps_out :
    (s : Entries) (k k' : String) (ttl at now : ℕ) (o : Option (ℕ × ℕ))
    → k ≢ k'
    → fresh_value (s k) now ≡ none
    → fresh_value (prolonged s at k' ttl o k) now ≡ none
prolonged_keeps_out s k k' ttl at now none apart out = out
prolonged_keeps_out s k k' ttl at now (some (v, end)) apart out =
    insert_keeps_out s k k' (v, at + ttl) now apart out

delete_drops : (s : Entries) (k : String) (now : ℕ) → fresh_value (delete s k k) now ≡ none
delete_drops s k now =
    if_elim (λ o. fresh_value o now ≡ none) (same k k) (λ e. refl)
      (λ e. absurd (ground (arith, e, same_self k)))

abbrev entries : Local String ℕ
entries = record {
  Store = Entries;
  get_if_present = λ s now key. fresh_value (s key) now;
  set = λ s at key v. insert s key (v, at + 60);
  set_expires_after = λ s at key ttl. prolonged s at key ttl (s key);
  invalidate = delete;
  invalidate_drops = λ s k now. delete_drops s k now;
  invalidate_keeps_out =
      λ s k k' now out. if_elim (λ o. fresh_value o now ≡ none) (same k k') (λ e. refl) (λ e. out);
  set_keeps_out = λ s k k' v at now. insert_keeps_out s k k' (v, at + 60) now;
  expires_keeps_out = λ s k k' ttl at now. prolonged_keeps_out s k k' ttl at now (s k');
}

abbrev plain : Codec String
plain = record { encode = some; decode = some; through_json = λ s. s }

abbrev instance_of : Entries → Cache entries plain
instance_of s = record {
  store = s;
  has_redis = true;
  namespace = "users";
  closed = false;
  inbox = none ∷ [];
}

abbrev caches : ℕ → Cache entries plain
caches j = if j == 0 then instance_of empty else instance_of (insert empty "ann" (7, 100))

abbrev moves : List (Move entries plain)
moves =
    arrives 1 none ∷ receives 1 ∷ sets 0 3 "ann" 8 ∷ sets 1 4 "bob" 9 ∷ receives 1 ∷ receives 0 ∷ []

different : ◌≢◌ {A = String} "ann" "bob"
unfolding same
different = λ e. ground (arith, ap (same "ann") e)

delete_reaches_example :
    get entries plain
      (apply_all entries plain
        (apply entries plain caches (deletes 0 "ann" false (λ j. true)))
        moves
        1)
      5
      "ann"
    ≡ none
delete_reaches_example =
    delete_reaches entries plain "ann" "users" "ann" 1 caches 0 (λ j. true) moves 5 refl refl refl
      refl refl refl refl refl refl
      (tt, (tt, (inl (λ e. absurd (omega arith)), (inr different, (tt, (tt, tt)))))) refl
