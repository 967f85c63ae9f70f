-- ===== src/Tests/Seeds.antt =====
-- The theorem on the seeding of the arena's cached lane at a concrete input.
use mini_redis_test_app.Prelude.{true, none, [], ◌∷◌}
use mini_redis_test_app.Arena.Lanes.RedisDb.Control
use mini_redis_test_app.Arena.Models.{SeedStateInput}
use mini_redis_test_app.Arena.Mongo
use mini_redis_test_app.Samples.{sample}
use mini_redis_test_app.Text.{codes}

abbrev warm_input : SeedStateInput
warm_input = record {
  documents = (codes "a", codes "1") ∷ (codes "b", codes "2") ∷ [];
  warm_cache = true;
  ttl_enabled = true;
  ttl_seconds = none;
}
