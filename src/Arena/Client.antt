-- ===== src/Arena/Client.antt =====
-- internal/arena/lane/redis_client.py: `InMemoryMiniRedisClient`.
pub mod Methods
pub mod Room
pub mod Shapes
pub mod Lawful
pub mod Losses
pub mod Reads
use mini_redis_test_app.Prelude.{
  ℕ, zero, suc, ◌+◌, Bool, true, false, Option, none, some, List, [], ◌∷◌, length, leb, ltb, ◌&&◌,
  ◌||◌, if◌then◌else◌,
}
use mini_redis_test_app.Prelude.Int.{ℤ, pos, leb_ℤ}
use mini_redis_test_app.Dict
use mini_redis_test_app.Dict.{Dict, contains, keys}
use mini_redis_test_app.Platform.{Platform}
use mini_redis_test_app.Result.{Result, ok, raise, type_error, unicode_encode_error}
use mini_redis_test_app.Service.Admin.{max_memory_or_zero, normalize_max_memory_bytes}
use mini_redis_test_app.Service.Memory.{byte_length, sum_fields, access_of, is_older}
use mini_redis_test_app.Text.{Text}

pub data Kind : Type 0 where
  is_string is_hash : Kind

module _ ⦃P : Platform⦄ where
  pub record RedisEntry : Type 0 where
    pub kind : Kind
    pub value : Option Text
    pub fields : Dict Text
    pub expires_at : Option P.Float

  -- The client, and the readings of `monotonic` that it will see.
  pub record Client : Type 0 where
    pub entries : Dict RedisEntry
    pub max_memory_bytes : Option ℕ
    pub evicted_keys : ℕ
    pub access_clock : ℕ
    pub access_order : Dict ℕ
    pub readings : ℕ → P.Float
    pub reads : ℕ

  unfoldable pub delete : Text → Client → Bool × Client
  delete key c = elim (Dict.get c.entries key) [
    | none ↦ (false, c)
    | some _ ↦ (
      true,
      record c {
        entries = Dict.remove c.entries key;
        access_order = Dict.remove c.access_order key;
      },
    )
  ]

  -- `entry.expires_at is not None and now >= entry.expires_at`
  unfoldable pub is_past : P.Float → RedisEntry → Bool
  is_past now e = elim e.expires_at [ none ↦ false | some t ↦ P.float_le t now ]

  unfoldable pub purge_entries : P.Float → Dict RedisEntry → Client → Client
  unfolding is_past delete
  purge_entries now [] c = c
  purge_entries now ((key, e) ∷ rest) c =
      purge_entries now rest (if is_past now e then (delete key c).1 else c)

  unfoldable pub purge_expired : Client → Client
  unfolding purge_entries
  purge_expired c = purge_entries (c.readings c.reads) c.entries (record c { reads = c.reads + 1 })

  unfoldable pub touch : Text → Client → Client
  touch key c = elim (Dict.get c.entries key) [
    | none ↦ record c { access_order = Dict.remove c.access_order key }
    | some _ ↦ record c {
      access_clock = c.access_clock + 1;
      access_order = Dict.set c.access_order key (c.access_clock + 1);
    }
  ]

  -- `(entry.value or "")`
  unfoldable pub value_bytes : RedisEntry → ℕ
  value_bytes e = elim e.value [ none ↦ 0 | some s ↦ byte_length s ]

  unfoldable pub payload_bytes : Kind → RedisEntry → ℕ
  unfolding value_bytes
  payload_bytes is_string e = value_bytes e
  payload_bytes is_hash e = sum_fields e.fields

  unfoldable pub entry_size_bytes : Text → RedisEntry → ℕ
  unfolding payload_bytes
  entry_size_bytes key e = byte_length key + payload_bytes e.kind e

  unfoldable pub sum_sizes : Dict RedisEntry → ℕ
  unfolding entry_size_bytes
  sum_sizes [] = 0
  sum_sizes ((key, e) ∷ rest) = entry_size_bytes key e + sum_sizes rest

  unfoldable pub used_memory_bytes : Client → ℕ
  unfolding sum_sizes
  used_memory_bytes c = sum_sizes c.entries

  -- The loop's `oldest_key` and `oldest_access` are set together.
  unfoldable pub oldest_of : List Text → Dict ℕ → List Text → Option (Text × ℕ) → Option Text
  oldest_of protected order [] none = none
  oldest_of protected order [] (some (key, access)) = some key
  oldest_of protected order (key ∷ rest) best = oldest_of protected order rest (
      if contains protected key
      then best
      else (if is_older (access_of order key) best then some (key, access_of order key) else best))

  unfoldable pub candidate : List Text → Client → Option Text
  unfolding oldest_of
  candidate protected c = oldest_of protected c.access_order (keys c.entries) none

  unfoldable pub evict_key : Text → Client → Client
  unfolding delete
  evict_key key c = let c' = (delete key c).1 in record c' { evicted_keys = c'.evicted_keys + 1 }

  -- `while self._used_memory_bytes() > self._max_memory_bytes`. Each round deletes an entry, so one
  -- round more than there are entries is enough fuel.
  unfoldable pub enforce_while : ℕ → ℕ → List Text → Client → Client
  unfolding used_memory_bytes candidate evict_key
  enforce_while zero limit protected c = c
  enforce_while (suc fuel) limit protected c = elim (ltb limit (used_memory_bytes c)) [
    | false ↦ c
    | true ↦ elim (candidate protected c) [
      | none ↦ c
      | some key ↦ enforce_while fuel limit protected (evict_key key c)
    ]
  ]

  -- `if self.delete(key): self._evicted_keys += 1`
  unfoldable pub delete_protected : Text → Client → Client
  unfolding evict_key
  delete_protected key c = elim (Dict.get c.entries key) [ none ↦ c | some _ ↦ evict_key key c ]

  unfoldable pub enforce_protected : ℕ → List Text → Client → Client
  unfolding used_memory_bytes delete_protected
  enforce_protected limit [] c = c
  enforce_protected limit (key ∷ rest) c = elim (leb (used_memory_bytes c) limit) [
    | true ↦ c
    | false ↦ enforce_protected limit rest (delete_protected key c)
  ]

  unfoldable pub enforce_limit : ℕ → List Text → Client → Client
  unfolding purge_expired enforce_while enforce_protected
  enforce_limit limit protected c =
      let c1 = purge_expired c in
      let c2 = enforce_while (suc (length c1.entries)) limit protected c1 in
      if leb (used_memory_bytes c2) limit then c2 else enforce_protected limit protected c2

  -- `encode("utf-8")` raises on a text with a surrogate.
  abbrev pub is_unencodable : Text → Bool
  is_unencodable [] = false
  is_unencodable (c ∷ s) = (leb 0xD800 c && leb c 0xDFFF) || is_unencodable s

  abbrev pub has_unencodable : Dict Text → Bool
  has_unencodable [] = false
  has_unencodable ((field, v) ∷ fields) =
      is_unencodable field || is_unencodable v || has_unencodable fields

  abbrev pub is_unencodable_value : Option Text → Bool
  is_unencodable_value none = false
  is_unencodable_value (some v) = is_unencodable v

  -- Whether `_used_memory_bytes` raises.
  abbrev pub is_unsized : Dict RedisEntry → Bool
  is_unsized [] = false
  is_unsized ((key, e) ∷ rest) =
      is_unencodable key
      || (elim e.kind [
        | is_string ↦ is_unencodable_value e.value
        | is_hash ↦ has_unencodable e.fields
      ])
      || is_unsized rest

  -- `_enforce_max_memory` where it raises nothing: the sizes are those of encodable texts.
  unfoldable pub enforce_max_memory : List Text → Client → Client
  unfolding enforce_limit
  enforce_max_memory protected c = elim c.max_memory_bytes [
    | none ↦ c
    | some limit ↦ enforce_limit limit protected c
  ]

  abbrev pub is_limited : Client → Bool
  is_limited c = elim c.max_memory_bytes [ none ↦ false | some _ ↦ true ]

  -- `_enforce_max_memory`. If there is a limit, the sizes of all entries are added up right behind
  -- the purge; evictions only take entries away, so it raises there or never.
  unfoldable pub enforcing : List Text → Client → Result (Unit {0}) × Client
  unfolding purge_expired enforce_max_memory
  enforcing protected c =
      if is_limited c && is_unsized (purge_expired c).entries
      then (raise unicode_encode_error, purge_expired c)
      else (ok tt, enforce_max_memory protected c)
