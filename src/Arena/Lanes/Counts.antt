-- ===== src/Arena/Lanes/Counts.antt =====
-- internal/arena/lane: the counts of the reads of Mongo in the two adapters.
use mini_redis_test_app.Prelude.{ℕ, Bool, true, Option, none, some, List, [], ◌∷◌, String}
use mini_redis_test_app.Arena.Interfaces.{Method, MiniRedisClient, ArenaRepository}
use mini_redis_test_app.Arena.Lanes.{
  Progress, Outside, Step, pass, follow, change, preview, answer, ◌>>=◌, ◌>>◌, then_do,
}
use mini_redis_test_app.Arena.Lanes.RedisDb.{
  redis, mongo, record_hit, record_miss, apply_ttl, ttl_of, fill_fields, expire_filled, fill_hash,
  run_set, fill_string, after_get, run_get, run_hset,
}
use mini_redis_test_app.Arena.Lanes.RedisDb.Execute.{
  note_ttl, fill_missing, read_missing, after_field_missing, after_hget, run_hget, after_hgetall,
  run_hgetall, run_del, run_command,
}
use mini_redis_test_app.Arena.Models.{
  CommandName, set_command, get_command, del_command, hset_command, hget_command, hgetall_command,
  ArenaRequest,
}
use mini_redis_test_app.Dict.{Dict}
use mini_redis_test_app.Platform.{Platform}
use mini_redis_test_app.Result.{Result, ok, raise}
use mini_redis_test_app.Text.{Text}

-- A property of the miss and of the count.
abbrev Count : Type 1
Count = Bool → ℕ → Type 0

abbrev Holds : Count → Progress → Type 0
Holds Q p = Q p.miss p.mongo_reads

-- A part of `execute` keeps the property, whether it returns or raises.
pub record KeepsCount {S A : Type 0} (Q : Count) (m : Step S A) : Type 0 where
  pub at_end : (w : S) (p : Progress) → Holds Q p → Holds Q (m (w, p)).1.1

module _ {S : Type 0} {Q : Count} where
  KeepsCount-pass : KeepsCount Q (pass {S = S})
  unfolding pass
  KeepsCount-pass = record { at_end = λ w p h. h }

  KeepsCount-follow : (names : List String) → KeepsCount Q (follow {S = S} names)
  unfolding follow
  KeepsCount-follow names = record { at_end = λ w p h. h }

  KeepsCount-change : (changes : List Text) → KeepsCount Q (change {S = S} changes)
  unfolding change
  KeepsCount-change changes = record { at_end = λ w p h. h }

  KeepsCount-preview : (value : Option Text) → KeepsCount Q (preview {S = S} value)
  unfolding preview
  KeepsCount-preview value = record { at_end = λ w p h. h }

  KeepsCount-answer : (a : Text × Text) → KeepsCount Q (answer {S = S} a)
  unfolding answer
  KeepsCount-answer a = record { at_end = λ w p h. h }

  module _ {A B : Type 0} where
    then_do-Holds :
        (r : Result A) (f : A → Step S B) (w : S) (p : Progress)
        → ((a : A) → KeepsCount Q (f a))
        → Holds Q p
        → Holds Q (then_do r f (w, p)).1.1
    then_do-Holds (ok a) f w p keeps h = (keeps a).at_end w p h
    then_do-Holds (raise e) f w p keeps h = h

    KeepsCount-bind :
        (m : Step S A) (f : A → Step S B)
        → KeepsCount Q m
        → ((a : A) → KeepsCount Q (f a))
        → KeepsCount Q (m >>= f)
    unfolding ◌>>=◌
    KeepsCount-bind m f m_keeps f_keeps = record {
      at_end = λ w p h.
          then_do-Holds (m (w, p)).0 f (m (w, p)).1.0 (m (w, p)).1.1 f_keeps (m_keeps.at_end w p h);
    }

    KeepsCount-then :
        (m : Step S A) (k : Step S B) → KeepsCount Q m → KeepsCount Q k → KeepsCount Q (m >> k)
    unfolding ◌>>◌
    KeepsCount-then m k m_keeps k_keeps = KeepsCount-bind m (λ _. k) m_keeps (λ _. k_keeps)

module _ ⦃P : Platform⦄ (C : MiniRedisClient) (R : ArenaRepository) (outside : Outside)
    {Q : Count} where
  KeepsCount-redis : {A : Type 0} (m : Method C.Cache A) → KeepsCount Q (redis C R outside m)
  unfolding redis
  KeepsCount-redis m = record { at_end = λ w p h. h }

  KeepsCount-mongo : {A : Type 0} (m : Method R.Store A) → KeepsCount Q (mongo C R outside m)
  unfolding mongo
  KeepsCount-mongo m = record { at_end = λ w p h. h }

  KeepsCount-record_hit : KeepsCount Q (record_hit C R outside)
  unfolding record_hit
  KeepsCount-record_hit = record { at_end = λ w p h. h }

  KeepsCount-ttl_of : (request : ArenaRequest) → KeepsCount Q (ttl_of C R outside request)
  unfolding ttl_of
  KeepsCount-ttl_of request = record { at_end = λ w p h. h }

ruleset count_rules = (
  KeepsCount-pass, KeepsCount-follow, KeepsCount-change, KeepsCount-preview, KeepsCount-answer,
  KeepsCount-bind, KeepsCount-then, KeepsCount-redis, KeepsCount-mongo, KeepsCount-record_hit,
  KeepsCount-ttl_of,
)

module _ ⦃P : Platform⦄ (C : MiniRedisClient) (R : ArenaRepository) (outside : Outside)
    {Q : Count} where
  apply_ttl-KeepsCount :
      (key : Text) (o : Option P.Float) → KeepsCount Q (apply_ttl C R outside key o)
  unfolding apply_ttl
  apply_ttl-KeepsCount key none = search count_rules
  apply_ttl-KeepsCount key (some s) = search count_rules depth 20

  pub run_set-KeepsCount : (request : ArenaRequest) → KeepsCount Q (run_set C R outside request)
  unfolding run_set
  run_set-KeepsCount request = search (count_rules, apply_ttl-KeepsCount) depth 40

  pub run_hset-KeepsCount : (request : ArenaRequest) → KeepsCount Q (run_hset C R outside request)
  unfolding run_hset
  run_hset-KeepsCount request = search (count_rules, apply_ttl-KeepsCount) depth 40

  pub run_del-KeepsCount : (request : ArenaRequest) → KeepsCount Q (run_del C R outside request)
  unfolding run_del
  run_del-KeepsCount request = search count_rules depth 40

  fill_fields-KeepsCount :
      (key : Text) (fields : Dict Text) → KeepsCount Q (fill_fields C R outside key fields)
  unfolding fill_fields
  fill_fields-KeepsCount key [] = search count_rules
  fill_fields-KeepsCount key ((f, v) ∷ fields) =
      let rest = fill_fields-KeepsCount key fields in search count_rules depth 10

  fill_hash-KeepsCount :
      (key : Text) (fields : Dict Text) (o : Option P.Float)
      → KeepsCount Q (fill_hash C R outside key fields o)
  unfolding fill_hash expire_filled
  fill_hash-KeepsCount key fields none = search (count_rules, fill_fields-KeepsCount) depth 10
  fill_hash-KeepsCount key fields (some s) = search (count_rules, fill_fields-KeepsCount) depth 10

  note_ttl-KeepsCount : (o : Option P.Float) → KeepsCount Q (note_ttl C R outside o)
  unfolding note_ttl
  note_ttl-KeepsCount none = search count_rules
  note_ttl-KeepsCount (some s) = search count_rules

  fill_missing-KeepsCount :
      (request : ArenaRequest) (shown : Dict Text → Option Text) (found : Option (Dict Text))
      → KeepsCount Q (fill_missing C R outside request shown found)
  unfolding fill_missing
  fill_missing-KeepsCount request shown none = search count_rules
  fill_missing-KeepsCount request shown (some fields) =
      search (count_rules, fill_hash-KeepsCount, note_ttl-KeepsCount) depth 40

  fill_string-KeepsCount :
      (request : ArenaRequest) (found : Option Text)
      → KeepsCount Q (fill_string C R outside request found)
  unfolding fill_string
  fill_string-KeepsCount request none = search count_rules
  fill_string-KeepsCount request (some v) = search (count_rules, apply_ttl-KeepsCount) depth 40

  module _ (one : Q true 1) where
    record_miss-KeepsCount : KeepsCount Q (record_miss C R outside)
    unfolding record_miss
    record_miss-KeepsCount = record { at_end = λ w p h. one }

    after_get-KeepsCount :
        (request : ArenaRequest) (cached : Option Text)
        → KeepsCount Q (after_get C R outside request cached)
    unfolding after_get
    after_get-KeepsCount request none =
        search (count_rules, record_miss-KeepsCount, fill_string-KeepsCount) depth 20
    after_get-KeepsCount request (some v) = search count_rules depth 20

    run_get-KeepsCount : (request : ArenaRequest) → KeepsCount Q (run_get C R outside request)
    unfolding run_get
    run_get-KeepsCount request = search (count_rules, after_get-KeepsCount) depth 20

    read_missing-KeepsCount :
        (request : ArenaRequest) (shown : Dict Text → Option Text)
        → KeepsCount Q (read_missing C R outside request shown)
    unfolding read_missing
    read_missing-KeepsCount request shown =
        search (count_rules, record_miss-KeepsCount, fill_missing-KeepsCount) depth 20

    after_field_missing-KeepsCount :
        (request : ArenaRequest) (found : Option (Dict Text))
        → KeepsCount Q (after_field_missing C R outside request found)
    unfolding after_field_missing
    after_field_missing-KeepsCount request none = read_missing-KeepsCount request _
    after_field_missing-KeepsCount request (some fields) = search count_rules depth 20

    after_hget-KeepsCount :
        (request : ArenaRequest) (cached : Option Text)
        → KeepsCount Q (after_hget C R outside request cached)
    unfolding after_hget
    after_hget-KeepsCount request none =
        search (count_rules, after_field_missing-KeepsCount) depth 20
    after_hget-KeepsCount request (some v) = search count_rules depth 20

    after_hgetall-KeepsCount :
        (request : ArenaRequest) (cached : Option (Dict Text))
        → KeepsCount Q (after_hgetall C R outside request cached)
    unfolding after_hgetall
    after_hgetall-KeepsCount request none = read_missing-KeepsCount request _
    after_hgetall-KeepsCount request (some fields) = search count_rules depth 20

    run_hget-KeepsCount : (request : ArenaRequest) → KeepsCount Q (run_hget C R outside request)
    unfolding run_hget
    run_hget-KeepsCount request = search (count_rules, after_hget-KeepsCount) depth 20

    run_hgetall-KeepsCount :
        (request : ArenaRequest) → KeepsCount Q (run_hgetall C R outside request)
    unfolding run_hgetall
    run_hgetall-KeepsCount request = search (count_rules, after_hgetall-KeepsCount) depth 20

    pub run_command-KeepsCount :
        (command : CommandName) (request : ArenaRequest)
        → KeepsCount Q (run_command C R outside command request)
    unfolding run_command
    run_command-KeepsCount set_command request = run_set-KeepsCount request
    run_command-KeepsCount get_command request = run_get-KeepsCount request
    run_command-KeepsCount hset_command request = run_hset-KeepsCount request
    run_command-KeepsCount hget_command request = run_hget-KeepsCount request
    run_command-KeepsCount hgetall_command request = run_hgetall-KeepsCount request
    run_command-KeepsCount del_command request = run_del-KeepsCount request
