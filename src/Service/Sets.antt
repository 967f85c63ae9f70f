-- ===== src/Service/Sets.antt =====
-- command_service.py: SADD, SREM, SMEMBERS and SISMEMBER.
use mini_redis_test_app.Prelude.{ℕ, ◌+◌, List, [], ◌∷◌, if◌then◌else◌}
use mini_redis_test_app.Dict.{contains}
use mini_redis_test_app.Platform.{Platform}
use mini_redis_test_app.Repository.{set_entry, add, discard}
use mini_redis_test_app.Resp.{RespValue, nil, array}
use mini_redis_test_app.Service.{Exec, maybe, pure, ◌>>=◌, ◌>>◌}
use mini_redis_test_app.Service.Entries.{as_set, get_typed_entry, get_or_create, put_entry}
use mini_redis_test_app.Service.Hashes.{drop_if_empty}
use mini_redis_test_app.Service.Lists.{blobs}
use mini_redis_test_app.Service.Memory.{touch_key}
use mini_redis_test_app.Text.{Text}
use mini_redis_test_app.Text.Order.{text_lt, sorted}

-- The loops of SADD and SREM: the set, and the count.
unfoldable pub add_all : List Text → ℕ → List Text → List Text × ℕ
unfolding contains add
add_all members created [] = (members, created)
add_all members created (m ∷ ms) =
    add_all (add members m) (if contains members m then created else created + 1) ms

unfoldable pub discard_all : List Text → ℕ → List Text → List Text × ℕ
unfolding contains discard
discard_all members removed [] = (members, removed)
discard_all members removed (m ∷ ms) =
    discard_all (discard members m) (if contains members m then removed + 1 else removed) ms

module _ ⦃P : Platform⦄ where
  unfoldable pub get_or_create_set : Text → Exec (List Text)
  unfolding get_or_create as_set
  get_or_create_set key = get_or_create as_set (set_entry []) [] key

  unfoldable pub sadd : Text → List Text → Exec ℕ
  unfolding get_or_create_set add_all put_entry touch_key
  sadd key members = do
    set_value ← get_or_create_set key
    let added = add_all set_value 0 members
    put_entry key (set_entry added.0)
    touch_key key
    pure added.1

  unfoldable pub srem : Text → List Text → Exec ℕ
  unfolding get_typed_entry as_set discard_all put_entry drop_if_empty
  srem key members = do
    found ← get_typed_entry as_set key
    maybe found (pure 0) (λ set_value. do
      let left = discard_all set_value 0 members
      put_entry key (set_entry left.0)
      drop_if_empty left.0 key
      pure left.1)

  unfoldable pub smembers : Text → Exec RespValue
  unfolding get_typed_entry as_set blobs text_lt
  smembers key = do
    found ← get_typed_entry as_set key
    maybe found (pure (array nil)) (λ members. pure (array (blobs (sorted text_lt members))))

  unfoldable pub sismember : Text → Text → Exec ℕ
  unfolding get_typed_entry as_set contains
  sismember key member = do
    found ← get_typed_entry as_set key
    maybe found (pure 0) (λ members. pure (if contains members member then 1 else 0))
