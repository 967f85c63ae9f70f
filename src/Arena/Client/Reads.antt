-- ===== src/Arena/Client/Reads.antt =====
-- internal/arena/lane/redis_client.py: what a client without a memory limit reads back.
use mini_redis_test_app.Prelude.{
  ◌+◌, ◌≡◌, ◌⊎◌, inl, inr, refl, ap, ◌∙◌, true, Option, none, some, List, [], ◌∷◌, if◌then◌else◌,
  if_intro, Bool-cases, Option-cases,
}
use mini_redis_test_app.Arena.Client.{
  is_hash, RedisEntry, Client, delete, is_past, purge_entries, purge_expired, touch,
  enforce_max_memory, enforcing,
}
use mini_redis_test_app.Arena.Client.Losses.{touch-entries}
use mini_redis_test_app.Arena.Client.Methods
use mini_redis_test_app.Arena.Client.Methods.{new_string, new_hash, put, live, write_field}
use mini_redis_test_app.Arena.Client.Shapes.{entry_of}
use mini_redis_test_app.Dict
use mini_redis_test_app.Dict.{Dict, get-set, get-set_self}
use mini_redis_test_app.Platform.{Platform}
use mini_redis_test_app.Result.{Result, ok, raise, type_error}
use mini_redis_test_app.Text.{Text, text_eq}

module _ ⦃P : Platform⦄ where
  delete-limit : (key : Text) (c : Client) → (delete key c).1.max_memory_bytes ≡ c.max_memory_bytes
  unfolding delete
  delete-limit key c = elim (Option-cases (Dict.get c.entries key)) [
    | inl missing ↦ rw (delete, missing) refl
    | inr (e, found) ↦ rw (delete, found) refl
  ]

  purge_entries-limit :
      (now : P.Float) (d : Dict RedisEntry) (c : Client)
      → (purge_entries now d c).max_memory_bytes ≡ c.max_memory_bytes
  unfolding purge_entries
  purge_entries-limit now [] c = refl
  purge_entries-limit now ((key, e) ∷ rest) c =
      if_intro (λ c'. (purge_entries now rest c').max_memory_bytes ≡ c.max_memory_bytes)
        (is_past now e) (λ _. purge_entries-limit now rest (delete key c).1 ∙ delete-limit key c)
        (λ _. purge_entries-limit now rest c)

  touch-limit : (key : Text) (c : Client) → (touch key c).max_memory_bytes ≡ c.max_memory_bytes
  unfolding touch
  touch-limit key c = elim (Option-cases (Dict.get c.entries key)) [
    | inl missing ↦ rw (touch, missing) refl
    | inr (e, found) ↦ rw (touch, found) refl
  ]

  enforcing_free :
      (protected : List Text) (c : Client)
      → c.max_memory_bytes ≡ none
      → enforcing protected c ≡ (ok tt, c)
  unfolding enforcing enforce_max_memory
  enforcing_free protected c free = rw (enforcing, free, enforce_max_memory, free) refl

  -- How every write ends without a limit.
  abbrev written : Text → RedisEntry → Client → Client
  written key e c = touch key (put key e (purge_expired c))

  written_free :
      (key : Text) (e : RedisEntry) (c : Client)
      → c.max_memory_bytes ≡ none
      → enforcing (key ∷ []) (written key e c) ≡ (ok tt, written key e c)
  unfolding purge_expired
  written_free key e c free = enforcing_free (key ∷ []) (written key e c) (
      touch-limit key (put key e (purge_expired c))
      ∙ purge_entries-limit (c.readings c.reads) c.entries (record c { reads = c.reads + 1 })
      ∙ free)

  -- The entries of other keys are as the purge of expired ones leaves them.
  abbrev pub KeepsOthers : Text → Client → Client → Type 0
  KeepsOthers key c c' =
      (j : Text)
      → (text_eq key j ≡ true) ⊎ (Dict.get c'.entries j ≡ Dict.get (purge_expired c).entries j)

  written-get :
      (key : Text) (e : RedisEntry) (c : Client) → Dict.get (written key e c).entries key ≡ some e
  written-get key e c =
      rw (touch-entries key (put key e (purge_expired c)))
        (get-set_self (purge_expired c).entries key e)

  written-KeepsOthers :
      (key : Text) (e : RedisEntry) (c : Client) → KeepsOthers key c (written key e c)
  written-KeepsOthers key e c j = elim (Bool-cases (text_eq key j)) [
    | inl same ↦ inl same
    | inr other ↦ inr (
        rw (touch-entries key (put key e (purge_expired c)))
          (get-set (purge_expired c).entries key j e ∙ rw other refl))
  ]

  live-found :
      (key : Text) (e : RedisEntry) (c : Client)
      → Dict.get c.entries key ≡ some e
      → e.expires_at ≡ none
      → live key c ≡ (some e, c)
  unfolding live
  live-found key e c found lasting = simp (live, found, lasting)

  -- In an in-memory client without a memory limit, whatever a key holds: SET succeeds, GET then
  -- answers the value, HGET of any field raises TypeError, and all other keys are as the purge of
  -- expired entries leaves them.
  pub set-get :
      (key value field : Text) (c : Client)
      → c.max_memory_bytes ≡ none
      → let (r, c') = Methods.set key value c in
        (r ≡ ok tt)
        × ((Methods.get key c').0 ≡ ok (some value))
        × ((Methods.hget key field c').0 ≡ raise type_error)
        × KeepsOthers key c c'
  unfolding Methods.set Methods.get Methods.hget
  set-get key value field c free =
      let e = new_string value in
      let found = live-found key e (written key e c) (written-get key e c) refl in
      rw (written_free key e c free) (
        refl,
        rw (Methods.get, found) refl,
        rw (Methods.hget, found) refl,
        written-KeepsOthers key e c,
      )

  -- The key holds these fields for as long as it is not written, or nothing, and then none.
  abbrev pub HasFields : Text → Dict Text → Client → Type 0
  HasFields key fields c =
      ((Dict.get (purge_expired c).entries key ≡ none) × (fields ≡ []))
      ⊎ ((v : Option Text) × (Dict.get (purge_expired c).entries key
            ≡ some (entry_of is_hash v fields none)))

  -- What HSET and the reads behind it do.
  abbrev pub Reads :
      Text → Text → Text → Text → Dict Text → Client → Result (Unit {0}) × Client → Type 0
  Reads key field value other fields c (r, c') =
      (r ≡ ok tt)
      × ((Methods.hget key other c').0
          ≡ ok (if text_eq field other then some value else Dict.get fields other))
      × ((Methods.hgetall key c').0 ≡ ok (some (Dict.set fields field value)))
      × ((Methods.get key c').0 ≡ raise type_error)
      × KeepsOthers key c c'

  written-Reads :
      (key field value other : Text) (fields : Dict Text) (v : Option Text) (c : Client)
      → c.max_memory_bytes ≡ none
      → let e = entry_of is_hash v (Dict.set fields field value) none in
        Reads key field value other fields c (enforcing (key ∷ []) (written key e c))
  unfolding Methods.hget Methods.hgetall Methods.get
  written-Reads key field value other fields v c free =
      let e = entry_of is_hash v (Dict.set fields field value) none in
      let found = live-found key e (written key e c) (written-get key e c) refl in
      rw (written_free key e c free) (
        refl,
        rw (Methods.hget, found) (ap ok (get-set fields field other value)),
        rw (Methods.hgetall, found) refl,
        rw (Methods.get, found) refl,
        written-KeepsOthers key e c,
      )

  -- In an in-memory client without a memory limit, if a key, once expired entries are purged, has
  -- no entry or a hash without an expiration time: HSET of a field succeeds, HGET then answers the
  -- new value for that field and the old answer for any other, HGETALL answers the old fields with
  -- that one set, GET raises TypeError, and all other keys are as the purge leaves them.
  pub hset-hget :
      (key field value other : Text) (fields : Dict Text) (c : Client)
      → c.max_memory_bytes ≡ none
      → HasFields key fields c
      → Reads key field value other fields c (Methods.hset key field value c)
  unfolding Methods.hset Dict.set
  hset-hget key field value other fields c free held = elim held [
    | inl (missing, empty) ↦
        rw (Methods.hset, missing, empty) (written-Reads key field value other [] none c free)
    | inr (v, found) ↦
        rw (Methods.hset, found) (written-Reads key field value other fields v c free)
  ]
