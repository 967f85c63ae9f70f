-- ===== src/Arena/Lanes/RedisDb/Execute.antt =====
-- internal/arena/lane/redis_db_adapter.py: HGET, HGETALL and DEL, the dispatch of `execute`, and
-- the other methods of the lane.
use mini_redis_test_app.Prelude.{Bool, ◌||◌, Option, none, some, List, [], ◌∷◌, if◌then◌else◌}
use mini_redis_test_app.Arena.Interfaces.{ArenaRepository, MiniRedisClient}
use mini_redis_test_app.Arena.Lanes.{
  no_progress, Step, pass, follow, change, preview, answer, ◌>>=◌, ◌>>◌, get_answer, delete_answer,
  or_empty, Outside, serialize_hash, Measured, lane_result,
}
use mini_redis_test_app.Arena.Lanes.RedisDb.{
  Stores, redis, mongo, record_hit, record_miss, ttl_of, fill_hash, ttl_applied_change, run_set,
  run_get, run_hset,
}
use mini_redis_test_app.Arena.Models.{
  set_command, get_command, del_command, hset_command, hget_command, hgetall_command, redis_db,
  CommandName, ArenaRequest, LaneResult,
}
use mini_redis_test_app.Dict
use mini_redis_test_app.Dict.{Dict, keys}
use mini_redis_test_app.Platform.{Platform}
use mini_redis_test_app.Text.{Text, codes}

module _ ⦃P : Platform⦄ (C : MiniRedisClient) (R : ArenaRepository) (outside : Outside) where
  -- The notes of a filled hash about its expiration.
  unfoldable pub note_ttl : Option P.Float → Step (Stores C R outside) (Unit {0})
  unfolding pass follow change ◌>>◌
  note_ttl none = pass
  note_ttl (some ttl_seconds) = do
    follow ("redis_expire" ∷ [])
    change (ttl_applied_change ttl_seconds ∷ [])

  -- The miss of HGET and of HGETALL: the whole hash is read and filled in.
  unfoldable pub fill_missing :
      ArenaRequest
      → (Dict Text → Option Text)
      → Option (Dict Text)
      → Step (Stores C R outside) (Unit {0})
  unfolding follow change preview answer ttl_of fill_hash note_ttl ◌>>=◌ ◌>>◌
  fill_missing request shown none = do
    change (codes "Redis miss" ∷ codes "Mongo hash missing" ∷ [])
    answer (get_answer none)
  fill_missing request shown (some fields) = do
    ttl_seconds ← ttl_of C R outside request
    fill_hash C R outside request.key fields ttl_seconds
    follow ("redis_fill" ∷ [])
    note_ttl ttl_seconds
    preview (shown fields)
    change (codes "Mongo hash read" ∷ codes "Redis hash filled" ∷ [])
    answer (get_answer (shown fields))

  abbrev hit : List Text → Option Text → Step (Stores C R outside) (Unit {0})
  hit changes value = do
    record_hit C R outside
    preview value
    follow ("redis_hit" ∷ [])
    change changes
    answer (get_answer value)

  unfoldable pub read_missing :
      ArenaRequest → (Dict Text → Option Text) → Step (Stores C R outside) (Unit {0})
  unfolding mongo record_miss fill_missing ◌>>=◌ ◌>>◌
  read_missing request shown = do
    record_miss C R outside
    fields ← mongo C R outside (R.hgetall request.key)
    fill_missing request shown fields

  -- A cached hash without the field is a hit too.
  unfoldable pub after_field_missing :
      ArenaRequest → Option (Dict Text) → Step (Stores C R outside) (Unit {0})
  unfolding record_hit follow change preview answer read_missing ◌>>=◌ ◌>>◌
  after_field_missing request (some fields) =
      hit (codes "Redis hash field missing" ∷ codes "Mongo unchanged" ∷ []) none
  after_field_missing request none =
      read_missing request (λ fields. Dict.get fields (or_empty request.field))

  unfoldable pub after_hget : ArenaRequest → Option Text → Step (Stores C R outside) (Unit {0})
  unfolding redis record_hit follow change preview answer after_field_missing ◌>>=◌ ◌>>◌
  after_hget request (some cached) =
      hit (codes "Redis hash field returned" ∷ codes "Mongo unchanged" ∷ []) (some cached)
  after_hget request none = do
    fields ← redis C R outside (C.hgetall request.key)
    after_field_missing request fields

  unfoldable pub run_hget : ArenaRequest → Step (Stores C R outside) (Unit {0})
  unfolding redis follow after_hget ◌>>=◌ ◌>>◌
  run_hget request = do
    follow ("redis_read" ∷ [])
    cached ← redis C R outside (C.hget request.key (or_empty request.field))
    after_hget request cached

  unfoldable pub after_hgetall :
      ArenaRequest → Option (Dict Text) → Step (Stores C R outside) (Unit {0})
  unfolding record_hit follow change preview answer read_missing serialize_hash ◌>>=◌ ◌>>◌
  after_hgetall request (some cached) =
      hit (codes "Redis hash returned" ∷ codes "Mongo unchanged" ∷ [])
        (serialize_hash outside (some cached))
  after_hgetall request none = read_missing request (λ fields. serialize_hash outside (some fields))

  unfoldable pub run_hgetall : ArenaRequest → Step (Stores C R outside) (Unit {0})
  unfolding redis follow after_hgetall ◌>>=◌ ◌>>◌
  run_hgetall request = do
    follow ("redis_read" ∷ [])
    fields ← redis C R outside (C.hgetall request.key)
    after_hgetall request fields

  abbrev deleted_changes : Bool → Bool → List Text
  deleted_changes redis_deleted mongo_deleted =
      codes (if redis_deleted then "Redis key deleted" else "Redis unchanged")
      ∷ codes (if mongo_deleted then "Mongo document deleted" else "Mongo unchanged")
      ∷ []

  unfoldable pub run_del : ArenaRequest → Step (Stores C R outside) (Unit {0})
  unfolding redis mongo follow change answer ◌>>=◌ ◌>>◌
  run_del request = do
    follow ("redis_delete" ∷ "mongo_delete" ∷ [])
    redis_deleted ← redis C R outside (C.delete request.key)
    mongo_deleted ← mongo C R outside (R.delete request.key)
    change (deleted_changes redis_deleted mongo_deleted)
    answer (delete_answer (redis_deleted || mongo_deleted))

  -- The body of `execute`.
  unfoldable pub run_command : CommandName → ArenaRequest → Step (Stores C R outside) (Unit {0})
  run_command set_command request = run_set C R outside request
  run_command get_command request = run_get C R outside request
  run_command hset_command request = run_hset C R outside request
  run_command hget_command request = run_hget request
  run_command hgetall_command request = run_hgetall request
  run_command del_command request = run_del request

  unfoldable pub execute :
      ArenaRequest → Measured → Stores C R outside → LaneResult × Stores C R outside
  execute request measured w =
      let (r, (w', p)) = run_command request.command request (w, no_progress) in
      (
        lane_result outside redis_db (codes "Redis + DB lane execution failed") request measured r
            p,
        w',
      )
