-- ===== src/Arena/Lanes/RedisDb.antt =====
-- internal/arena/lane/redis_db_adapter.py, over any client and any repository: the commands.
pub mod Execute
pub mod Control
use mini_redis_test_app.Prelude.{
  ℕ, Bool, true, false, Option, none, some, List, [], ◌∷◌, ◌++◌, String, if◌then◌else◌,
}
use mini_redis_test_app.Arena.Interfaces.{Method, ArenaRepository, MiniRedisClient}
use mini_redis_test_app.Arena.Lanes.{
  Progress, Step, pass, lift, follow, change, preview, answer, note, ◌>>=◌, ◌>>◌, set_answer,
  get_answer, or_empty, Outside, serialize_hash, redis_ttl_for_request,
}
use mini_redis_test_app.Arena.Models.{ArenaRequest}
use mini_redis_test_app.Dict
use mini_redis_test_app.Dict.{Dict}
use mini_redis_test_app.Platform.{Platform}
use mini_redis_test_app.Text.{Text, codes}

module _ ⦃P : Platform⦄ where
  -- `_ttl_label`
  abbrev ttl_label : P.Float → Text
  ttl_label ttl_seconds = P.format_g ttl_seconds ++ codes "s"

  abbrev pub ttl_applied_change : P.Float → Text
  ttl_applied_change ttl_seconds =
      codes "Redis TTL applied (ttl=" ++ ttl_label ttl_seconds ++ codes ")"

  module _ (C : MiniRedisClient) (R : ArenaRepository) (outside : Outside) where
    abbrev pub Stores : Type 0
    Stores = C.Cache × R.Store

    -- A call of the client, and one of the repository.
    unfoldable pub redis : {A : Type 0} → Method C.Cache A → Step Stores A
    redis m ((c, s), p) = let (r, c') = m c in (r, ((c', s), p))

    unfoldable pub mongo : {A : Type 0} → Method R.Store A → Step Stores A
    mongo m ((c, s), p) = let (r, s') = m s in (r, ((c, s'), p))

    unfoldable pub record_hit : Step Stores (Unit {0})
    unfolding note
    record_hit = note (λ p. record p { hit = true })

    -- `cache.miss = True`, the step to Mongo, and its count.
    unfoldable pub record_miss : Step Stores (Unit {0})
    unfolding note follow ◌>>◌
    record_miss = do
      note (λ p. record p { miss = true })
      follow ("mongo_read" ∷ [])
      note (λ p. record p { mongo_reads = 1 })

    -- `if ttl_seconds is not None:` the call of `expire` and what is noted of it.
    unfoldable pub apply_ttl : Text → Option P.Float → Step Stores (Unit {0})
    unfolding pass redis follow change ◌>>=◌ ◌>>◌
    apply_ttl key none = pass
    apply_ttl key (some ttl_seconds) = do
      ttl_applied ← redis (C.expire key ttl_seconds)
      follow ("redis_expire" ∷ [])
      change (
          (if ttl_applied then ttl_applied_change ttl_seconds else codes "Redis TTL apply failed")
          ∷ [])

    unfoldable pub ttl_of : ArenaRequest → Step Stores (Option P.Float)
    unfolding lift redis_ttl_for_request
    ttl_of request = lift (redis_ttl_for_request outside request.ttl_enabled request.ttl_seconds)

    unfoldable pub fill_fields : Text → Dict Text → Step Stores (Unit {0})
    unfolding pass redis ◌>>◌
    fill_fields key [] = pass
    fill_fields key ((field_name, value) ∷ fields) =
        redis (C.hset key field_name value) >> fill_fields key fields

    unfoldable pub expire_filled : Text → Option P.Float → Step Stores (Unit {0})
    unfolding pass redis ◌>>=◌
    expire_filled key none = pass
    expire_filled key (some ttl_seconds) = redis (C.expire key ttl_seconds) >>= λ _. pass

    unfoldable pub fill_hash : Text → Dict Text → Option P.Float → Step Stores (Unit {0})
    unfolding fill_fields expire_filled ◌>>◌
    fill_hash key fields ttl_seconds = fill_fields key fields >> expire_filled key ttl_seconds

    unfoldable pub run_set : ArenaRequest → Step Stores (Unit {0})
    unfolding redis mongo follow change preview answer apply_ttl ttl_of ◌>>=◌ ◌>>◌
    run_set request = do
      state ← mongo (R.write request.key (or_empty request.value))
      ttl_seconds ← ttl_of request
      redis (C.set request.key (or_empty request.value))
      follow ("mongo_write" ∷ "redis_set" ∷ [])
      change ((codes "Mongo document " ++ state) ∷ codes "Redis key upserted" ∷ [])
      apply_ttl request.key ttl_seconds
      preview request.value
      answer set_answer

    unfoldable pub fill_string : ArenaRequest → Option Text → Step Stores (Unit {0})
    unfolding redis follow change preview answer apply_ttl ttl_of ◌>>=◌ ◌>>◌
    fill_string request none = do
      change (codes "Redis miss" ∷ codes "Mongo document missing" ∷ [])
      answer (get_answer none)
    fill_string request (some mongo_value) = do
      preview (some mongo_value)
      ttl_seconds ← ttl_of request
      redis (C.set request.key mongo_value)
      follow ("redis_fill" ∷ [])
      change (codes "Mongo document read" ∷ codes "Redis key filled" ∷ [])
      apply_ttl request.key ttl_seconds
      answer (get_answer (some mongo_value))

    -- A hit: the value is in the cache.
    abbrev hit_value : List Text → Option Text → Step Stores (Unit {0})
    hit_value changes value = do
      record_hit
      preview value
      follow ("redis_hit" ∷ [])
      change changes
      answer (get_answer value)

    unfoldable pub after_get : ArenaRequest → Option Text → Step Stores (Unit {0})
    unfolding mongo record_hit record_miss follow change preview answer fill_string ◌>>=◌ ◌>>◌
    after_get request (some cached) =
        hit_value (codes "Redis value returned" ∷ codes "Mongo unchanged" ∷ []) (some cached)
    after_get request none = do
      record_miss
      mongo_value ← mongo (R.read request.key)
      fill_string request mongo_value

    unfoldable pub run_get : ArenaRequest → Step Stores (Unit {0})
    unfolding redis follow after_get ◌>>=◌ ◌>>◌
    run_get request = do
      follow ("redis_read" ∷ [])
      cached ← redis (C.get request.key)
      after_get request cached

    unfoldable pub run_hset : ArenaRequest → Step Stores (Unit {0})
    unfolding redis mongo follow change preview answer apply_ttl ttl_of ◌>>=◌ ◌>>◌
    run_hset request = do
      state ← mongo (R.hset request.key (or_empty request.field) (or_empty request.value))
      ttl_seconds ← ttl_of request
      redis (C.hset request.key (or_empty request.field) (or_empty request.value))
      follow ("mongo_write" ∷ "redis_set" ∷ [])
      change ((codes "Mongo hash field " ++ state) ∷ codes "Redis hash field upserted" ∷ [])
      apply_ttl request.key ttl_seconds
      preview request.value
      answer set_answer
