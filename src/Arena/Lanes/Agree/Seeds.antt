-- ===== src/Arena/Lanes/Agree/Seeds.antt =====
-- internal/arena/lane/redis_db_adapter.py: `seed` and the coherence of the cache.
use mini_redis_test_app.Prelude.{◌≡◌, false, Option, some, List, [], ◌∷◌}
use mini_redis_test_app.Arena.Interfaces.{ArenaRepository, MiniRedisClient, in_memory_repository}
use mini_redis_test_app.Arena.Lanes.{Outside, default_ttl_seconds}
use mini_redis_test_app.Arena.Lanes.Agree.{after_ttl}
use mini_redis_test_app.Arena.Lanes.RedisDb.Control
use mini_redis_test_app.Arena.Lawful.{View, string_shape, IsLawful, view_of}
use mini_redis_test_app.Arena.Mongo
use mini_redis_test_app.Arena.Mongo.{Documents}
use mini_redis_test_app.Dict
use mini_redis_test_app.Dict.{Dict, contains, keys}
use mini_redis_test_app.Platform.{Platform}
use mini_redis_test_app.Result.{ok}
use mini_redis_test_app.Text.{Text}

-- The keys of a dictionary of Python are distinct.
abbrev pub IsDistinct : Dict Text → Type 0
IsDistinct [] = Unit
IsDistinct ((key, value) ∷ rest) = (contains (keys rest) key ≡ false) × IsDistinct rest

-- The documents hold what was seeded.
abbrev IsSeeded : Documents → Dict Text → Type 0
IsSeeded d [] = Unit
IsSeeded d ((key, value) ∷ rest) =
    (view_of d key ≡ some (string_shape (some value))) × IsSeeded d rest

module _ ⦃P : Platform⦄ (C : MiniRedisClient) (sees : C.Cache → View) (outside : Outside)
    (lawful : IsLawful C sees) (t : P.Float) (parsed : default_ttl_seconds outside ≡ ok t) where
  abbrev R : ArenaRepository
  R = in_memory_repository

  abbrev deleted : List Text → C.Cache → C.Cache
  deleted [] c = c
  deleted (key ∷ rest) c = deleted rest (C.delete key c).1

  abbrev expired : Text → Option P.Float → C.Cache → C.Cache
  expired = after_ttl C sees outside lawful t parsed

  abbrev warmed : Option P.Float → Dict Text → C.Cache → C.Cache
  warmed o [] c = c
  warmed o ((key, value) ∷ rest) c = warmed o rest (expired key o (C.set key value c).1)
