-- ===== src/Service/Hashes.antt =====
-- command_service.py: HSET, HGET, HDEL and HGETALL.
use mini_redis_test_app.Prelude.{ℕ, Bool, Option, none, some, List, [], ◌∷◌, if◌then◌else◌}
use mini_redis_test_app.Dict
use mini_redis_test_app.Dict.{Dict}
use mini_redis_test_app.Platform.{Platform}
use mini_redis_test_app.Repository.{hash_entry}
use mini_redis_test_app.Resp.{RespValue, RespEntries, map, end, entry, blob_string}
use mini_redis_test_app.Service.{Exec, maybe, pure, ◌>>=◌, ◌>>◌}
use mini_redis_test_app.Service.Entries.{as_hash, get_typed_entry, get_or_create, put_entry}
use mini_redis_test_app.Service.Memory.{touch_key, delete_entry_and_ttl}
use mini_redis_test_app.Text.{Text, text_eq}
use mini_redis_test_app.Text.Order.{text_lt, sorted}

-- `1 if key in d else 0`
unfoldable pub present {ℓ} : {V : Type ℓ} → Dict V → Text → ℕ
present d key = elim (Dict.get d key) [ none ↦ 0 | some _ ↦ 1 ]

unfoldable pub absent {ℓ} : {V : Type ℓ} → Dict V → Text → ℕ
absent d key = elim (Dict.get d key) [ none ↦ 1 | some _ ↦ 0 ]

-- `a < b` on pairs of texts.
unfoldable pub field_lt : Text × Text → Text × Text → Bool
unfolding text_lt
field_lt (f, v) (g, w) = if text_eq f g then text_lt v w else text_lt f g

unfoldable pub field_entries : List (Text × Text) → RespEntries
field_entries [] = end
field_entries ((f, v) ∷ rest) = entry (blob_string f) (blob_string v) (field_entries rest)

module _ ⦃P : Platform⦄ where
  -- `if not entry.value: self._delete_entry_and_ttl(key)`
  unfoldable pub drop_if_empty : {A : Type 0} → List A → Text → Exec (Unit {0})
  unfolding delete_entry_and_ttl
  drop_if_empty [] key = delete_entry_and_ttl key
  drop_if_empty (_ ∷ _) key = pure tt

  unfoldable pub hset : Text → Text → Text → Exec ℕ
  unfolding get_or_create absent put_entry touch_key
  hset key field value = do
    hash_value ← get_or_create as_hash (hash_entry []) [] key
    let created = absent hash_value field
    put_entry key (hash_entry (Dict.set hash_value field value))
    touch_key key
    pure created

  unfoldable pub hget : Text → Text → Exec (Option Text)
  unfolding get_typed_entry
  hget key field = do
    found ← get_typed_entry as_hash key
    maybe found (pure none) (λ hash_value. pure (Dict.get hash_value field))

  unfoldable pub hdel : Text → Text → Exec ℕ
  unfolding get_typed_entry present put_entry drop_if_empty
  hdel key field = do
    found ← get_typed_entry as_hash key
    maybe found (pure 0) (λ hash_value. do
      let removed = present hash_value field
      let left = Dict.remove hash_value field
      put_entry key (hash_entry left)
      drop_if_empty left key
      pure removed)

  unfoldable pub hgetall : Text → Exec RespValue
  unfolding get_typed_entry field_entries field_lt
  hgetall key = do
    found ← get_typed_entry as_hash key
    maybe found (pure (map end))
        (λ hash_value. pure (map (field_entries (sorted field_lt hash_value))))
