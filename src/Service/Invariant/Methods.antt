-- ===== src/Service/Invariant/Methods.antt =====
-- The rule for the methods of the hashes, lists, sets and sorted sets (internal/service).
use mini_redis_test_app.Prelude.{Option, none, some, List, [], ◌∷◌}
use mini_redis_test_app.Prelude.Int.{ℤ}
use mini_redis_test_app.Platform.{Platform}
use mini_redis_test_app.Repository.{ValueEntry}
use mini_redis_test_app.Service.{State}
use mini_redis_test_app.Service.Entries.{put_entry, get_typed_entry, get_or_create}
use mini_redis_test_app.Service.Memory.{touch_key}
use mini_redis_test_app.Service.Hashes.{drop_if_empty, hset, hget, hdel, hgetall}
use mini_redis_test_app.Service.Keeps.{Keeps, keeps_rules}
use mini_redis_test_app.Service.Lists.{
  pop_last, lpush, rpush, lpop, rpop, lrange, keep_rest, pop_front_of, pop_back_of,
  get_or_create_list,
}
use mini_redis_test_app.Service.Sets.{sadd, srem, smembers, sismember, get_or_create_set}
use mini_redis_test_app.Service.ZSets.{zadd, zrem, zrange, zscore, get_or_create_zset}
use mini_redis_test_app.Service.Stable.{
  IsStable, touch_key-Keeps, get_typed_entry-Keeps, get_or_create-Keeps, drop_if_empty-Keeps,
}
use mini_redis_test_app.Text.{Text}

module _ ⦃P : Platform⦄ {I : State → Type 0} (st : IsStable I) where
  put-Keeps : (key : Text) (e : ValueEntry) → Keeps I (put_entry key e)
  put-Keeps = st.kept_by_put

  typed-Keeps :
      {A : Type 0} (view : ValueEntry → Option A) (key : Text) → Keeps I (get_typed_entry view key)
  typed-Keeps = get_typed_entry-Keeps st

  created-Keeps :
      {A : Type 0} (view : ValueEntry → Option A) (fresh : ValueEntry) (empty : A) (key : Text)
      → Keeps I (get_or_create view fresh empty key)
  created-Keeps = get_or_create-Keeps st

  touched-Keeps : (key : Text) → Keeps I (touch_key key)
  touched-Keeps = touch_key-Keeps st

  dropped-Keeps : {A : Type 0} (l : List A) (key : Text) → Keeps I (drop_if_empty l key)
  dropped-Keeps = drop_if_empty-Keeps st

  ruleset entry_rules =
      (keeps_rules, put-Keeps, typed-Keeps, created-Keeps, touched-Keeps, dropped-Keeps)

  pub hset-Keeps : (key field value : Text) → Keeps I (hset key field value)
  unfolding hset
  hset-Keeps key field value = search entry_rules depth 9

  pub hget-Keeps : (key field : Text) → Keeps I (hget key field)
  unfolding hget
  hget-Keeps key field = search entry_rules depth 9

  pub hdel-Keeps : (key field : Text) → Keeps I (hdel key field)
  unfolding hdel
  hdel-Keeps key field = search entry_rules depth 9

  pub hgetall-Keeps : (key : Text) → Keeps I (hgetall key)
  unfolding hgetall
  hgetall-Keeps key = search entry_rules depth 9

  pub lpush-Keeps : (key : Text) (values : List Text) → Keeps I (lpush key values)
  unfolding lpush get_or_create_list
  lpush-Keeps key values = search entry_rules depth 9

  pub rpush-Keeps : (key : Text) (values : List Text) → Keeps I (rpush key values)
  unfolding rpush get_or_create_list
  rpush-Keeps key values = search entry_rules depth 9

  keep_rest-Keeps :
      (key : Text) (left : List Text) (value : Text) → Keeps I (keep_rest key left value)
  unfolding keep_rest
  keep_rest-Keeps key left value = search entry_rules

  pop_front_of-Keeps : (key : Text) (found : Option (List Text)) → Keeps I (pop_front_of key found)
  unfolding pop_front_of
  pop_front_of-Keeps key none = search keeps_rules
  pop_front_of-Keeps key (some []) = search keeps_rules
  pop_front_of-Keeps key (some (x ∷ xs)) = keep_rest-Keeps key xs x

  pop_back_of-Keeps : (key : Text) (found : Option (List Text)) → Keeps I (pop_back_of key found)
  unfolding pop_back_of
  pop_back_of-Keeps key none = search keeps_rules
  pop_back_of-Keeps key (some []) = search keeps_rules
  pop_back_of-Keeps key (some (x ∷ xs)) = keep_rest-Keeps key (pop_last x xs).0 (pop_last x xs).1

  pub lpop-Keeps : (key : Text) → Keeps I (lpop key)
  unfolding lpop
  lpop-Keeps key = search (keeps_rules, typed-Keeps, pop_front_of-Keeps)

  pub rpop-Keeps : (key : Text) → Keeps I (rpop key)
  unfolding rpop
  rpop-Keeps key = search (keeps_rules, typed-Keeps, pop_back_of-Keeps)

  pub lrange-Keeps : (key : Text) (start stop : ℤ) → Keeps I (lrange key start stop)
  unfolding lrange
  lrange-Keeps key start stop = search entry_rules depth 9

  pub sadd-Keeps : (key : Text) (members : List Text) → Keeps I (sadd key members)
  unfolding sadd get_or_create_set
  sadd-Keeps key members = search entry_rules depth 9

  pub srem-Keeps : (key : Text) (members : List Text) → Keeps I (srem key members)
  unfolding srem
  srem-Keeps key members = search entry_rules depth 9

  pub smembers-Keeps : (key : Text) → Keeps I (smembers key)
  unfolding smembers
  smembers-Keeps key = search entry_rules depth 9

  pub sismember-Keeps : (key member : Text) → Keeps I (sismember key member)
  unfolding sismember
  sismember-Keeps key member = search entry_rules depth 9

  pub zadd-Keeps : (key : Text) (arguments : List Text) → Keeps I (zadd key arguments)
  unfolding zadd get_or_create_zset
  zadd-Keeps key arguments = search entry_rules depth 9

  pub zrem-Keeps : (key : Text) (members : List Text) → Keeps I (zrem key members)
  unfolding zrem
  zrem-Keeps key members = search entry_rules depth 9

  pub zrange-Keeps : (key : Text) (start stop : ℤ) → Keeps I (zrange key start stop)
  unfolding zrange
  zrange-Keeps key start stop = search entry_rules depth 9

  pub zscore-Keeps : (key member : Text) → Keeps I (zscore key member)
  unfolding zscore
  zscore-Keeps key member = search entry_rules depth 9
