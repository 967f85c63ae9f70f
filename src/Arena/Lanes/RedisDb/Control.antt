-- ===== src/Arena/Lanes/RedisDb/Control.antt =====
-- internal/arena/lane/redis_db_adapter.py: `clear`, `configure_memory` and `seed`.
use mini_redis_test_app.Prelude.{ℕ, Bool, Option, none, some, List, [], ◌∷◌, if◌then◌else◌}
use mini_redis_test_app.Prelude.Int.{ℤ}
use mini_redis_test_app.Arena.Interfaces.{Method, ArenaRepository, MiniRedisClient}
use mini_redis_test_app.Arena.Lanes.{
  no_progress, Step, pass, lift, ◌>>=◌, ◌>>◌, Outside, redis_ttl_for_request,
}
use mini_redis_test_app.Arena.Lanes.RedisDb.{Stores, redis, mongo}
use mini_redis_test_app.Arena.Models.{SeedStateInput}
use mini_redis_test_app.Dict.{Dict, keys}
use mini_redis_test_app.Platform.{Platform}
use mini_redis_test_app.Result.{ok}
use mini_redis_test_app.Text.{Text}

-- A method that keeps no record of its progress.
abbrev pub quietly : {S A : Type 0} → Step S A → Method S A
quietly m s = let (r, (s', _)) = m (s, no_progress) in (r, s')

module _ ⦃P : Platform⦄ where
  -- The answer of `configure_memory`.
  pub record MemoryReport : Type 0 where
    pub profile_key : Text
    pub max_memory_bytes : ℤ
    pub redis : Dict ℕ

  module _ (C : MiniRedisClient) (R : ArenaRepository) (outside : Outside) where
    abbrev pub delete_each : List Text → Step (Stores C R outside) (Unit {0})
    delete_each [] = pass
    delete_each (key ∷ rest) = redis C R outside (C.delete key) >> delete_each rest

    unfoldable pub clear : List Text → Bool → Method (Stores C R outside) (Unit {0})
    unfolding pass redis mongo ◌>>◌
    clear listed full_reset = quietly (
        if full_reset
        then (redis C R outside C.flushdb >> mongo C R outside R.clear)
        else (delete_each listed >> mongo C R outside (R.delete_many listed)))

    unfoldable pub configure_memory : Text → ℤ → Method (Stores C R outside) MemoryReport
    unfolding lift redis ◌>>=◌ ◌>>◌
    configure_memory profile_key max_memory_bytes = quietly (do
      redis C R outside (C.config_set_maxmemory max_memory_bytes)
      info ← redis C R outside C.info_memory
      lift (
          ok (record {
            profile_key = profile_key;
            max_memory_bytes = max_memory_bytes;
            redis = info;
          })))

    abbrev pub expire_warm : Text → Option P.Float → Step (Stores C R outside) (Unit {0})
    expire_warm key none = pass
    expire_warm key (some ttl_seconds) = do redis C R outside (C.expire key ttl_seconds); pass

    abbrev pub warm : Option P.Float → Dict Text → Step (Stores C R outside) (Unit {0})
    warm ttl_seconds [] = pass
    warm ttl_seconds ((key, value) ∷ documents) = do
      redis C R outside (C.set key value)
      expire_warm key ttl_seconds
      warm ttl_seconds documents

    abbrev pub warm_cache : SeedStateInput → Step (Stores C R outside) (Unit {0})
    warm_cache input = do
      ttl_seconds ← lift (redis_ttl_for_request outside input.ttl_enabled input.ttl_seconds)
      warm ttl_seconds input.documents

    abbrev pub seed_documents : Dict Text → Step (Stores C R outside) (Unit {0})
    seed_documents [] = pass
    seed_documents ((key, value) ∷ documents) =
        mongo C R outside (R.seed ((key, value) ∷ documents))

    unfoldable pub seed : SeedStateInput → Method (Stores C R outside) (Unit {0})
    unfolding pass lift redis mongo redis_ttl_for_request ◌>>=◌ ◌>>◌
    seed input = quietly (do
      seed_documents input.documents
      delete_each (keys input.documents)
      if input.warm_cache then warm_cache input else pass)
