-- ===== src/Service/Execute.antt =====
-- `CommandService.execute`: one method for each command name.
use mini_redis_test_app.Prelude.{ℕ, Option, none, some, List, [], ◌∷◌, drop, ◌==◌, if◌then◌else◌}
use mini_redis_test_app.Prelude.Int.{ℤ, pos}
use mini_redis_test_app.Command.{Command, named, argument}
use mini_redis_test_app.Platform.{Platform}
use mini_redis_test_app.Repository.{ValueEntry}
use mini_redis_test_app.Resp.{
  RespValue, simple_string, blob_string, number, null, resp_ok, err_unsupported_auth,
  err_unsupported_command,
}
use mini_redis_test_app.Service.{Exec, maybe, pure, throw, lift, ◌>>=◌, ◌>>◌}
use mini_redis_test_app.Service.Admin.{
  refused, int_of, float_of, ping, select, client, dbsize, flushdb, info, config,
}
use mini_redis_test_app.Service.Basic.{
  set_service, get_service, del_service, expire_service, ttl_service,
}
use mini_redis_test_app.Service.Entries.{as_string, wrong_type}
use mini_redis_test_app.Service.Hashes.{hset, hget, hdel, hgetall}
use mini_redis_test_app.Service.Lists.{lpush, rpush, lpop, rpop, lrange}
use mini_redis_test_app.Service.Memory.{touch_key, forget_key, ensure_max_memory}
use mini_redis_test_app.Service.Sets.{sadd, srem, smembers, sismember}
use mini_redis_test_app.Service.ZSets.{zadd, zrem, zrange, zscore}
use mini_redis_test_app.Text.{Text, codes}

-- `RespNull()` for `None`, else a blob.
unfoldable pub blob_or_null : Option Text → RespValue
blob_or_null none = null
blob_or_null (some s) = blob_string s

module _ ⦃P : Platform⦄ where
  -- `command.arguments[i]`
  abbrev pub arg : Command → ℕ → Exec Text
  arg c i = lift (argument c.arguments i)

  unfoldable pub execute_set : Command → Exec RespValue
  execute_set c = do
    key ← arg c 0
    value ← arg c 1
    response ← set_service key value
    touch_key key
    ensure_max_memory (key ∷ [])
    pure (simple_string response)

  -- `_require_string`, behind the touch.
  unfoldable pub get_reply : Text → Option ValueEntry → Exec RespValue
  get_reply key none = do forget_key key; pure null
  get_reply key (some e) = do
    touch_key key
    maybe (as_string e) (throw wrong_type) (λ value. pure (blob_string value))

  unfoldable pub execute_get : Command → Exec RespValue
  unfolding get_reply
  execute_get c = do key ← arg c 0; found ← get_service key; get_reply key found

  unfoldable pub execute_del : Command → Exec RespValue
  execute_del c = do
    key ← arg c 0
    deleted ← del_service key
    forget_key key
    pure (number (pos deleted))

  unfoldable pub execute_expire : Command → Exec RespValue
  execute_expire c = do
    key ← arg c 0
    ttl_text ← arg c 1
    ttl_seconds ← lift (float_of ttl_text)
    applied ← expire_service key ttl_seconds
    if applied == 0
        then pure (number (pos applied))
        else (do touch_key key; pure (number (pos applied)))

  -- The commands that write and then make room: HSET, LPUSH, RPUSH, SADD and ZADD.
  unfoldable pub then_make_room : Text → Exec ℕ → Exec RespValue
  then_make_room key m = do n ← m; ensure_max_memory (key ∷ []); pure (number (pos n))

  unfoldable pub execute_hset : Command → Exec RespValue
  unfolding then_make_room
  execute_hset c = do
    key ← arg c 0
    field ← arg c 1
    value ← arg c 2
    then_make_room key (hset key field value)

  -- LPUSH, RPUSH, SADD and ZADD take the arguments behind the key.
  unfoldable pub execute_write : (Text → List Text → Exec ℕ) → Command → Exec RespValue
  unfolding then_make_room
  execute_write method c = do key ← arg c 0; then_make_room key (method key (drop 1 c.arguments))

  -- SREM and ZREM
  unfoldable pub execute_remove : (Text → List Text → Exec ℕ) → Command → Exec RespValue
  execute_remove method c = do
    key ← arg c 0
    n ← method key (drop 1 c.arguments)
    pure (number (pos n))

  -- LRANGE and ZRANGE
  unfoldable pub execute_range : (Text → ℤ → ℤ → Exec RespValue) → Command → Exec RespValue
  execute_range method c = do
    key ← arg c 0
    start_text ← arg c 1
    start ← lift (int_of start_text)
    stop_text ← arg c 2
    stop ← lift (int_of stop_text)
    method key start stop

  -- Methods of a key and a further argument that return a number, and that may return nothing.
  unfoldable pub execute_number : (Text → Text → Exec ℕ) → Command → Exec RespValue
  execute_number method c = do key ← arg c 0; a ← arg c 1; n ← method key a; pure (number (pos n))

  unfoldable pub execute_blob : (Text → Text → Exec (Option Text)) → Command → Exec RespValue
  unfolding blob_or_null
  execute_blob method c = do key ← arg c 0; a ← arg c 1; r ← method key a; pure (blob_or_null r)

  -- LPOP and RPOP
  unfoldable pub execute_pop : (Text → Exec (Option Text)) → Command → Exec RespValue
  unfolding blob_or_null
  execute_pop method c = do key ← arg c 0; r ← method key; pure (blob_or_null r)

  -- The commands on the key space and on the server.
  unfoldable pub execute_keys : Command → Exec RespValue → Exec RespValue
  execute_keys c other =
      if named c "SET"
      then execute_set c
      else if named c "GET"
      then execute_get c
      else if named c "DEL"
      then execute_del c
      else if named c "EXPIRE"
      then execute_expire c
      else if named c "TTL"
      then (do key ← arg c 0; n ← ttl_service key; pure (number n))
      else if named c "DBSIZE"
      then (do n ← dbsize; pure (number (pos n)))
      else if named c "FLUSHDB"
      then (do flushdb; pure (simple_string (codes resp_ok)))
      else if named c "INFO"
      then (do s ← info c.arguments; pure (blob_string s))
      else if named c "CONFIG"
      then config c.arguments
      else other

  unfoldable pub execute_hashes : Command → Exec RespValue → Exec RespValue
  execute_hashes c other =
      if named c "HSET"
      then execute_hset c
      else if named c "HGET"
      then execute_blob hget c
      else if named c "HDEL"
      then execute_number hdel c
      else if named c "HGETALL"
      then (do key ← arg c 0; hgetall key)
      else other

  unfoldable pub execute_lists : Command → Exec RespValue → Exec RespValue
  execute_lists c other =
      if named c "LPUSH"
      then execute_write lpush c
      else if named c "RPUSH"
      then execute_write rpush c
      else if named c "LPOP"
      then execute_pop lpop c
      else if named c "RPOP"
      then execute_pop rpop c
      else if named c "LRANGE"
      then execute_range lrange c
      else other

  unfoldable pub execute_sets : Command → Exec RespValue → Exec RespValue
  execute_sets c other =
      if named c "SADD"
      then execute_write sadd c
      else if named c "SREM"
      then execute_remove srem c
      else if named c "SMEMBERS"
      then (do key ← arg c 0; smembers key)
      else if named c "SISMEMBER"
      then execute_number sismember c
      else other

  unfoldable pub execute_zsets : Command → Exec RespValue → Exec RespValue
  execute_zsets c other =
      if named c "ZADD"
      then execute_write zadd c
      else if named c "ZREM"
      then execute_remove zrem c
      else if named c "ZRANGE"
      then execute_range zrange c
      else if named c "ZSCORE"
      then execute_blob zscore c
      else other

  -- The ladder of `execute`, in the order of the source.
  unfoldable pub execute : Command → Exec RespValue
  execute c =
      if named c "AUTH"
      then throw (refused err_unsupported_auth)
      else if named c "PING"
      then pure (ping c.arguments)
      else if named c "SELECT"
      then (do db_index ← arg c 0; select db_index)
      else if named c "CLIENT"
      then client c.arguments
      else execute_keys c (
          execute_hashes c (
            execute_lists c
              (execute_sets c (execute_zsets c (throw (refused err_unsupported_command))))))
