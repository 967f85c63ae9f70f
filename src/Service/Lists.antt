-- ===== src/Service/Lists.antt =====
-- command_service.py: LPUSH, RPUSH, LPOP, RPOP and LRANGE.
use mini_redis_test_app.Prelude.{ℕ, Option, none, some, List, [], ◌∷◌, ◌++◌, length}
use mini_redis_test_app.Prelude.Int.{ℤ}
use mini_redis_test_app.Platform.{Platform}
use mini_redis_test_app.Repository.{list_entry}
use mini_redis_test_app.Resp.{RespValue, RespItems, nil, cons, array, blob_string}
use mini_redis_test_app.Service.{Exec, maybe, pure, ◌>>=◌, ◌>>◌}
use mini_redis_test_app.Service.Entries.{
  as_list, get_typed_entry, get_or_create, put_entry, slice_sequence,
}
use mini_redis_test_app.Service.Hashes.{drop_if_empty}
use mini_redis_test_app.Service.Memory.{touch_key}
use mini_redis_test_app.Text.{Text}

-- `for value in values: list_value.insert(0, value)`
unfoldable pub push_front : List Text → List Text → List Text
push_front list_value [] = list_value
push_front list_value (value ∷ values) = push_front (value ∷ list_value) values

-- `list_value.pop()`: what is left, and the last item.
unfoldable pub pop_last : Text → List Text → List Text × Text
pop_last x [] = ([], x)
pop_last x (y ∷ ys) = let (rest, last) = pop_last y ys in (x ∷ rest, last)

unfoldable pub blobs : List Text → RespItems
blobs [] = nil
blobs (s ∷ texts) = cons (blob_string s) (blobs texts)

module _ ⦃P : Platform⦄ where
  unfoldable pub get_or_create_list : Text → Exec (List Text)
  unfolding get_or_create as_list
  get_or_create_list key = get_or_create as_list (list_entry []) [] key

  unfoldable pub lpush : Text → List Text → Exec ℕ
  unfolding get_or_create_list push_front put_entry touch_key
  lpush key values = do
    list_value ← get_or_create_list key
    let pushed = push_front list_value values
    put_entry key (list_entry pushed)
    touch_key key
    pure (length pushed)

  unfoldable pub rpush : Text → List Text → Exec ℕ
  unfolding get_or_create_list put_entry touch_key
  rpush key values = do
    list_value ← get_or_create_list key
    let pushed = list_value ++ values
    put_entry key (list_entry pushed)
    touch_key key
    pure (length pushed)

  -- The writes behind a pop.
  unfoldable pub keep_rest : Text → List Text → Text → Exec (Option Text)
  unfolding put_entry drop_if_empty
  keep_rest key left value = do
    put_entry key (list_entry left)
    drop_if_empty left key
    pure (some value)

  unfoldable pub pop_front_of : Text → Option (List Text) → Exec (Option Text)
  unfolding keep_rest
  pop_front_of key (some (value ∷ left)) = keep_rest key left value
  pop_front_of key _ = pure none

  unfoldable pub pop_back_of : Text → Option (List Text) → Exec (Option Text)
  unfolding keep_rest pop_last
  pop_back_of key (some (x ∷ xs)) = let (left, value) = pop_last x xs in keep_rest key left value
  pop_back_of key _ = pure none

  unfoldable pub lpop : Text → Exec (Option Text)
  unfolding get_typed_entry as_list pop_front_of
  lpop key = do found ← get_typed_entry as_list key; pop_front_of key found

  unfoldable pub rpop : Text → Exec (Option Text)
  unfolding get_typed_entry as_list pop_back_of
  rpop key = do found ← get_typed_entry as_list key; pop_back_of key found

  unfoldable pub lrange : Text → ℤ → ℤ → Exec RespValue
  unfolding get_typed_entry as_list slice_sequence blobs
  lrange key start stop = do
    found ← get_typed_entry as_list key
    maybe found (pure (array nil))
        (λ values. pure (array (blobs (slice_sequence values start stop))))
