-- ===== src/Service/Invariant.antt =====
-- The invariant rule of the service: what the primitive writes keep, every command keeps.
mod Methods
mod Admins
use mini_redis_test_app.Prelude.{
  ℕ, zero, suc, ◌+◌, ◌≡◌, Bool, true, false, Option, none, some, List, [], ◌∷◌, if◌then◌else◌,
  String,
}
use mini_redis_test_app.Prelude.Int.{ℤ}
use mini_redis_test_app.Platform.{Platform}
use mini_redis_test_app.Command.{Command}
use mini_redis_test_app.Repository.{ValueEntry}
use mini_redis_test_app.Resp.{RespValue}
use mini_redis_test_app.Service.{State, Exec, pure, throw, gets, lift, modify, maybe, ◌>>=◌}
use mini_redis_test_app.Service.Admin.{
  select, client, dbsize, flushdb, info, config, config_set, delete_each,
}
use mini_redis_test_app.Service.Execute.{
  execute, execute_set, execute_get, get_reply, execute_del, execute_expire, then_make_room,
  execute_hset, execute_write, execute_remove, execute_range, execute_number, execute_blob,
  execute_pop, execute_keys, execute_hashes, execute_lists, execute_sets, execute_zsets,
}
use mini_redis_test_app.Service.Entries.{put_entry, get_typed_entry, get_or_create}
use mini_redis_test_app.Service.Memory.{
  touch_key, forget_key, delete_entry_and_ttl, ensure_max_memory, purge_all_expired_keys,
  current_memory_bytes,
}
use mini_redis_test_app.Service.Basic.{
  set_service, get_service, del_service, expire_service, ttl_service,
}
use mini_redis_test_app.Service.Hashes.{drop_if_empty, hset, hget, hdel, hgetall}
use mini_redis_test_app.Service.Keeps.{
  Keeps, keeps_rules, Keeps-bind, Keeps-if, Keeps-lift, Keeps-pure, Keeps-throw,
}
use mini_redis_test_app.Service.Lists.{
  pop_last, lpush, rpush, lpop, rpop, lrange, keep_rest, pop_front_of, pop_back_of,
  get_or_create_list,
}
use mini_redis_test_app.Service.Sets.{sadd, srem, smembers, sismember, get_or_create_set}
use mini_redis_test_app.Service.ZSets.{zadd, zrem, zrange, zscore, get_or_create_zset}
use mini_redis_test_app.Service.Stable.{
  IsStable, purge_all-Keeps, touch_key-Keeps, get_service-Keeps, ttl_service-Keeps,
  get_typed_entry-Keeps, get_or_create-Keeps, drop_if_empty-Keeps, delete_entry_and_ttl-Keeps,
  current_memory_bytes-Keeps, ensure_max_memory-Keeps,
}
use mini_redis_test_app.Text.{Text}
use mini_redis_test_app.Service.Invariant.Methods.{
  hset-Keeps, hget-Keeps, hdel-Keeps, hgetall-Keeps, lpush-Keeps, rpush-Keeps, lpop-Keeps,
  rpop-Keeps, lrange-Keeps, sadd-Keeps, srem-Keeps, smembers-Keeps, sismember-Keeps, zadd-Keeps,
  zrem-Keeps, zrange-Keeps, zscore-Keeps,
}
use mini_redis_test_app.Service.Invariant.Admins.{
  flushdb-Keeps, dbsize-Keeps, select-Keeps, client-Keeps, info-Keeps, config-Keeps,
}

module _ ⦃P : Platform⦄ {I : State → Type 0} (st : IsStable I) where
  touched-Keeps : (key : Text) → Keeps I (touch_key key)
  touched-Keeps = touch_key-Keeps st

  ensured-Keeps : (protected : List Text) → Keeps I (ensure_max_memory protected)
  ensured-Keeps = ensure_max_memory-Keeps st

  set-Keeps : (key value : Text) → Keeps I (set_service key value)
  set-Keeps = st.kept_by_set

  get-Keeps : (key : Text) → Keeps I (get_service key)
  get-Keeps = get_service-Keeps st

  del-Keeps : (key : Text) → Keeps I (del_service key)
  del-Keeps = st.kept_by_del

  expire-Keeps : (key : Text) (ttl_seconds : P.Float) → Keeps I (expire_service key ttl_seconds)
  expire-Keeps = st.kept_by_expire

  ttl-Keeps : (key : Text) → Keeps I (ttl_service key)
  ttl-Keeps = ttl_service-Keeps st

  forget-Keeps : (key : Text) → Keeps I (forget_key key)
  forget-Keeps = st.kept_by_forget

  ruleset command_rules = (
    keeps_rules, touched-Keeps, ensured-Keeps, set-Keeps, get-Keeps, del-Keeps, expire-Keeps,
    ttl-Keeps, forget-Keeps,
  )

  execute_set-Keeps : (c : Command) → Keeps I (execute_set c)
  unfolding execute_set
  execute_set-Keeps c = search command_rules depth 12

  get_reply-Keeps : (key : Text) (o : Option ValueEntry) → Keeps I (get_reply key o)
  unfolding get_reply
  get_reply-Keeps key none = search command_rules
  get_reply-Keeps key (some e) = search command_rules

  execute_get-Keeps : (c : Command) → Keeps I (execute_get c)
  unfolding execute_get
  execute_get-Keeps c = search (keeps_rules, get-Keeps, get_reply-Keeps)

  execute_del-Keeps : (c : Command) → Keeps I (execute_del c)
  unfolding execute_del
  execute_del-Keeps c = search command_rules depth 8

  execute_expire-Keeps : (c : Command) → Keeps I (execute_expire c)
  unfolding execute_expire
  execute_expire-Keeps c = search command_rules depth 12

  make_room-Keeps : (key : Text) (m : Exec ℕ) → Keeps I m → Keeps I (then_make_room key m)
  unfolding then_make_room
  make_room-Keeps key m k = Keeps-bind _ _ k λ n. search (keeps_rules, ensured-Keeps)

  stored-Keeps : (key field value : Text) → Keeps I (hset key field value)
  stored-Keeps = hset-Keeps st

  execute_hset-Keeps : (c : Command) → Keeps I (execute_hset c)
  unfolding execute_hset
  execute_hset-Keeps c = search (keeps_rules, make_room-Keeps, stored-Keeps) depth 12

  execute_write-Keeps :
      (method : Text → List Text → Exec ℕ) (c : Command)
      → ((key : Text) (values : List Text) → Keeps I (method key values))
      → Keeps I (execute_write method c)
  unfolding execute_write
  execute_write-Keeps method c k =
      Keeps-bind _ _ (search keeps_rules) λ key. make_room-Keeps key _ (k key _)

  execute_remove-Keeps :
      (method : Text → List Text → Exec ℕ) (c : Command)
      → ((key : Text) (values : List Text) → Keeps I (method key values))
      → Keeps I (execute_remove method c)
  unfolding execute_remove
  execute_remove-Keeps method c k = search (keeps_rules, k)

  execute_range-Keeps :
      (method : Text → ℤ → ℤ → Exec RespValue) (c : Command)
      → ((key : Text) (start stop : ℤ) → Keeps I (method key start stop))
      → Keeps I (execute_range method c)
  unfolding execute_range
  execute_range-Keeps method c k = search (keeps_rules, k) depth 14

  execute_number-Keeps :
      (method : Text → Text → Exec ℕ) (c : Command)
      → ((key a : Text) → Keeps I (method key a))
      → Keeps I (execute_number method c)
  unfolding execute_number
  execute_number-Keeps method c k = search (keeps_rules, k) depth 9

  execute_blob-Keeps :
      (method : Text → Text → Exec (Option Text)) (c : Command)
      → ((key a : Text) → Keeps I (method key a))
      → Keeps I (execute_blob method c)
  unfolding execute_blob
  execute_blob-Keeps method c k = search (keeps_rules, k) depth 9

  execute_pop-Keeps :
      (method : Text → Exec (Option Text)) (c : Command)
      → ((key : Text) → Keeps I (method key))
      → Keeps I (execute_pop method c)
  unfolding execute_pop
  execute_pop-Keeps method c k = search (keeps_rules, k)

  execute_keys-Keeps :
      (c : Command) (other : Exec RespValue) → Keeps I other → Keeps I (execute_keys c other)
  unfolding execute_keys
  execute_keys-Keeps c other k = Keeps-if _ _ _ (execute_set-Keeps c) (
      Keeps-if _ _ _ (execute_get-Keeps c) (
        Keeps-if _ _ _ (execute_del-Keeps c) (
          Keeps-if _ _ _ (execute_expire-Keeps c) (
            Keeps-if _ _ _
              (Keeps-bind _ _ (Keeps-lift _)
                λ key. Keeps-bind _ _ (ttl-Keeps key) λ n. Keeps-pure _)
              (Keeps-if _ _ _ (Keeps-bind _ _ (dbsize-Keeps st) λ n. Keeps-pure _) (
                Keeps-if _ _ _ (Keeps-bind _ _ (flushdb-Keeps st) λ n. Keeps-pure _) (
                  Keeps-if _ _ _ (Keeps-bind _ _ ((info-Keeps st) c.arguments) λ n. Keeps-pure _)
                    (Keeps-if _ _ _ ((config-Keeps st) c.arguments) k))))))))

  execute_hashes-Keeps :
      (c : Command) (other : Exec RespValue) → Keeps I other → Keeps I (execute_hashes c other)
  unfolding execute_hashes
  execute_hashes-Keeps c other k = Keeps-if _ _ _ (execute_hset-Keeps c) (
      Keeps-if _ _ _ (execute_blob-Keeps hget c (hget-Keeps st)) (
        Keeps-if _ _ _ (execute_number-Keeps hdel c (hdel-Keeps st))
          (Keeps-if _ _ _ (Keeps-bind _ _ (Keeps-lift _) (hgetall-Keeps st)) k)))

  execute_lists-Keeps :
      (c : Command) (other : Exec RespValue) → Keeps I other → Keeps I (execute_lists c other)
  unfolding execute_lists
  execute_lists-Keeps c other k = Keeps-if _ _ _ (execute_write-Keeps lpush c (lpush-Keeps st)) (
      Keeps-if _ _ _ (execute_write-Keeps rpush c (rpush-Keeps st)) (
        Keeps-if _ _ _ (execute_pop-Keeps lpop c (lpop-Keeps st)) (
          Keeps-if _ _ _ (execute_pop-Keeps rpop c (rpop-Keeps st))
            (Keeps-if _ _ _ (execute_range-Keeps lrange c (lrange-Keeps st)) k))))

  execute_sets-Keeps :
      (c : Command) (other : Exec RespValue) → Keeps I other → Keeps I (execute_sets c other)
  unfolding execute_sets
  execute_sets-Keeps c other k = Keeps-if _ _ _ (execute_write-Keeps sadd c (sadd-Keeps st)) (
      Keeps-if _ _ _ (execute_remove-Keeps srem c (srem-Keeps st)) (
        Keeps-if _ _ _ (Keeps-bind _ _ (Keeps-lift _) (smembers-Keeps st))
          (Keeps-if _ _ _ (execute_number-Keeps sismember c (sismember-Keeps st)) k)))

  execute_zsets-Keeps :
      (c : Command) (other : Exec RespValue) → Keeps I other → Keeps I (execute_zsets c other)
  unfolding execute_zsets
  execute_zsets-Keeps c other k = Keeps-if _ _ _ (execute_write-Keeps zadd c (zadd-Keeps st)) (
      Keeps-if _ _ _ (execute_remove-Keeps zrem c (zrem-Keeps st)) (
        Keeps-if _ _ _ (execute_range-Keeps zrange c (zrange-Keeps st))
          (Keeps-if _ _ _ (execute_blob-Keeps zscore c (zscore-Keeps st)) k)))

  -- Every command, whatever its name and arguments, keeps what the primitive writes keep.
  pub execute-Keeps : (c : Command) → Keeps I (execute c)
  unfolding execute
  execute-Keeps c = Keeps-if _ _ _ (Keeps-throw _) (
      Keeps-if _ _ _ (Keeps-pure _) (
        Keeps-if _ _ _ (Keeps-bind _ _ (Keeps-lift _) (select-Keeps st)) (
          Keeps-if _ _ _ ((client-Keeps st) c.arguments) (
            execute_keys-Keeps c _ (
              execute_hashes-Keeps c _ (
                execute_lists-Keeps c _
                  (execute_sets-Keeps c _ (execute_zsets-Keeps c _ (Keeps-throw _)))))))))
