-- ===== src/Arena/Client/Methods.antt =====
-- internal/arena/lane/redis_client.py: the methods that the lanes call.
use mini_redis_test_app.Prelude.{
  ℕ, ◌+◌, Bool, true, false, Option, none, some, [], ◌∷◌, length, if◌then◌else◌,
}
use mini_redis_test_app.Prelude.Int.{ℤ, pos, leb_ℤ}
use mini_redis_test_app.Arena.Client.{
  is_string, is_hash, RedisEntry, Client, delete, touch, purge_expired, used_memory_bytes,
  enforcing, is_unsized,
}
use mini_redis_test_app.Dict
use mini_redis_test_app.Dict.{Dict}
use mini_redis_test_app.Platform.{Platform}
use mini_redis_test_app.Result.{Result, ok, raise, type_error, unicode_encode_error}
use mini_redis_test_app.Service.Admin.{max_memory_or_zero, normalize_max_memory_bytes}
use mini_redis_test_app.Text.{Text, codes}

module _ ⦃P : Platform⦄ where
  abbrev pub new_string : Text → RedisEntry
  new_string v = record { kind = is_string; value = some v; fields = []; expires_at = none }

  abbrev pub new_hash : Text → Text → RedisEntry
  new_hash field v = record {
    kind = is_hash;
    value = none;
    fields = (field, v) ∷ [];
    expires_at = none;
  }

  abbrev pub put : Text → RedisEntry → Client → Client
  put key e c = record c { entries = Dict.set c.entries key e }

  unfoldable pub set : Text → Text → Client → Result (Unit {0}) × Client
  unfolding purge_expired touch enforcing
  set key v c = enforcing (key ∷ []) (touch key (put key (new_string v) (purge_expired c)))

  -- The entry that `get`, `hget` and `hgetall` go on with: `monotonic` is read only if the entry has
  -- an expiration time.
  unfoldable pub live : Text → Client → Option RedisEntry × Client
  unfolding delete
  live key c = elim (Dict.get c.entries key) [
    | none ↦ (none, c)
    | some e ↦ elim e.expires_at [
      | none ↦ (some e, c)
      | some t ↦
          let c' = record c { reads = c.reads + 1 } in
          if P.float_le t (c.readings c.reads) then (none, (delete key c').1) else (some e, c')
    ]
  ]

  abbrev pub read_string : Text → Option RedisEntry → Client → Result (Option Text) × Client
  read_string key none c = (ok none, c)
  read_string key (some e) c = elim e.kind [
    | is_string ↦ (ok e.value, touch key c)
    | is_hash ↦ (raise type_error, c)
  ]

  unfoldable pub get : Text → Client → Result (Option Text) × Client
  unfolding live touch
  get key c = let (found, c') = live key c in read_string key found c'

  abbrev pub read_fields : Text → Option RedisEntry → Client → Result (Option (Dict Text)) × Client
  read_fields key none c = (ok none, c)
  read_fields key (some e) c = elim e.kind [
    | is_hash ↦ (ok (some e.fields), touch key c)
    | is_string ↦ (raise type_error, c)
  ]

  unfoldable pub hgetall : Text → Client → Result (Option (Dict Text)) × Client
  unfolding live touch
  hgetall key c = let (found, c') = live key c in read_fields key found c'

  abbrev pub read_field : Text → Text → Option RedisEntry → Client → Result (Option Text) × Client
  read_field key field none c = (ok none, c)
  read_field key field (some e) c = elim e.kind [
    | is_hash ↦ (ok (Dict.get e.fields field), touch key c)
    | is_string ↦ (raise type_error, c)
  ]

  unfoldable pub hget : Text → Text → Client → Result (Option Text) × Client
  unfolding live touch
  hget key field c = let (found, c') = live key c in read_field key field found c'

  abbrev pub write_field :
      Text → Text → Text → Option RedisEntry → Client → Result (Unit {0}) × Client
  write_field key field v none c = enforcing (key ∷ []) (touch key (put key (new_hash field v) c))
  write_field key field v (some e) c = elim e.kind [
    | is_hash ↦
        enforcing (key ∷ [])
          (touch key (put key (record e { fields = Dict.set e.fields field v }) c))
    | is_string ↦ (raise type_error, c)
  ]

  unfoldable pub hset : Text → Text → Text → Client → Result (Unit {0}) × Client
  unfolding purge_expired touch enforcing
  hset key field v c =
      let c' = purge_expired c in write_field key field v (Dict.get c'.entries key) c'

  unfoldable pub expire : Text → P.Float → Client → Bool × Client
  unfolding touch
  expire key ttl_seconds c = elim (Dict.get c.entries key) [
    | none ↦ (false, c)
    | some e ↦
        let expires_at = P.float_add (c.readings c.reads) ttl_seconds in
        (
          true,
          touch key (
              put key (record e { expires_at = some expires_at })
                (record c { reads = c.reads + 1 })),
        )
  ]

  abbrev remaining : Text → Result ℤ → Client → Result (Option ℤ) × Client
  remaining key (raise e) c = (raise e, c)
  remaining key (ok n) c = if leb_ℤ n (pos 0) then (ok none, (delete key c).1) else (ok (some n), c)

  unfoldable pub ttl : Text → Client → Result (Option ℤ) × Client
  unfolding delete
  ttl key c = elim (Dict.get c.entries key) [
    | none ↦ (ok none, c)
    | some e ↦ elim e.expires_at [
      | none ↦ (ok none, c)
      | some t ↦
          remaining key (P.ceil (P.float_sub t (c.readings c.reads)))
            (record c { reads = c.reads + 1 })
    ]
  ]

  unfoldable pub flushdb : Client → Client
  flushdb c = record c { entries = []; access_order = []; evicted_keys = 0 }

  unfoldable pub dbsize : Client → ℕ × Client
  unfolding purge_expired
  dbsize c = let c' = purge_expired c in (length c'.entries, c')

  unfoldable pub info_memory : Client → Result (Dict ℕ) × Client
  unfolding purge_expired used_memory_bytes max_memory_or_zero
  info_memory c =
      let c' = purge_expired c in
      if is_unsized c'.entries then (raise unicode_encode_error, c') else (
        ok (
            (codes "used_memory", used_memory_bytes c')
            ∷ (codes "maxmemory", max_memory_or_zero c'.max_memory_bytes)
            ∷ (codes "keys", length c'.entries)
            ∷ (codes "evicted_keys", c'.evicted_keys)
            ∷ []),
        c',
      )

  unfoldable pub config_set_maxmemory : ℤ → Client → Result (Unit {0}) × Client
  unfolding enforcing normalize_max_memory_bytes
  config_set_maxmemory max_memory_bytes c =
      enforcing []
        (record c { max_memory_bytes = normalize_max_memory_bytes (some max_memory_bytes) })

  unfoldable pub config_get_maxmemory : Client → ℕ
  unfolding max_memory_or_zero
  config_get_maxmemory c = max_memory_or_zero c.max_memory_bytes
