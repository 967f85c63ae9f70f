-- ===== src/Arena/Routes/LaneA.antt =====
-- internal/arena/lane_a/api/routes.py: the executor, the repository and the client share the stores;
-- `known_keys` is a set.
use mini_redis_test_app.Prelude.{Bool, false, List, [], if◌then◌else◌}
use mini_redis_test_app.Arena.Gateway.{add_key, add_keys}
use mini_redis_test_app.Arena.Interfaces.{Method, ArenaRepository, MiniRedisClient}
use mini_redis_test_app.Arena.Lanes.{Outside, Measured, Step, pass, ◌>>◌}
use mini_redis_test_app.Arena.Lanes.RedisDb.{Stores, redis, mongo}
use mini_redis_test_app.Arena.Lanes.RedisDb.Control
use mini_redis_test_app.Arena.Lanes.RedisDb.Control.{
  quietly, delete_each, seed_documents, warm_cache,
}
use mini_redis_test_app.Arena.Lanes.RedisDb.Execute
use mini_redis_test_app.Arena.Models.{ArenaRequest, LaneResult, SeedStateInput}
use mini_redis_test_app.Arena.Runner.{discard}
use mini_redis_test_app.Dict.{keys}
use mini_redis_test_app.Platform.{Platform}
use mini_redis_test_app.Result.{ok, raise}
use mini_redis_test_app.Text.{Text}
use mini_redis_test_app.Arena.Routes.{keys_or_known, discard_each, if_ok, reply}

module _ ⦃P : Platform⦄ (C : MiniRedisClient) (R : ArenaRepository) (outside : Outside) where
  abbrev pub LaneApp : Type 0
  LaneApp = Stores C R outside × List Text

  unfoldable pub execute : ArenaRequest → Measured → LaneApp → LaneResult × LaneApp
  unfolding Execute.execute add_key
  execute payload measured (w, known) =
      let (result, w') = Execute.execute C R outside payload measured w in
      (result, (w', add_key payload.key known))

  -- The answer is the list of the deleted keys.
  unfoldable pub reset_lane : List Text → Bool → Method LaneApp (List Text)
  unfolding redis mongo ◌>>◌ Control.clear discard
  reset_lane listed full_reset (w, known) =
      let targets = keys_or_known listed known in
      let (all, w_all) = quietly (mongo C R outside R.clear >> redis C R outside C.flushdb) w in
      let (some', w_some) = Control.clear C R outside targets false w in
      if full_reset
      then (reply [] all, (w_all, if_ok all [] known))
      else (reply targets some', (w_some, if_ok some' (discard_each targets known) known))

  abbrev seed_caches : SeedStateInput → Step (Stores C R outside) (Unit {0})
  seed_caches input =
      delete_each C R outside (keys input.documents)
      >> (if input.warm_cache then warm_cache C R outside input else pass)

  -- The answer is the list of the seeded keys.
  unfoldable pub seed_lane : SeedStateInput → Method LaneApp (List Text)
  unfolding pass ◌>>◌ mongo redis add_keys
  seed_lane input (w, known) =
      let (stored, w1) = quietly (seed_documents C R outside input.documents) w in
      let (cached, w2) = quietly (seed_caches input) w1 in
      let known' = add_keys (keys input.documents) known in
      elim stored [
        | raise e ↦ (raise e, (w1, known))
        | ok _ ↦ (reply (keys input.documents) cached, (w2, known'))
      ]
