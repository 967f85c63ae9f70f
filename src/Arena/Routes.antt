-- ===== src/Arena/Routes.antt =====
-- internal/arena/lane_a/api/routes.py and lane_b/api/routes.py: the payloads and the services of
-- the two lanes.
pub mod Payloads
pub mod LaneA
pub mod LaneB
use mini_redis_test_app.Prelude.{
  ℕ, Bool, true, false, ◌&&◌, ◌||◌, not, Option, none, some, List, [], ◌∷◌, length, if◌then◌else◌,
}
use mini_redis_test_app.Prelude.Int.{ℤ}
use mini_redis_test_app.Arena.Gateway.{add_key, add_keys}
use mini_redis_test_app.Arena.Interfaces.{Method, ArenaRepository, MiniRedisClient}
use mini_redis_test_app.Arena.Lanes.{Outside, Measured, Step, pass, ◌>>◌, redis_ttl_for_request}
use mini_redis_test_app.Arena.Lanes.DbOnly
use mini_redis_test_app.Arena.Lanes.RedisDb.{Stores, redis, mongo}
use mini_redis_test_app.Arena.Lanes.RedisDb.Control
use mini_redis_test_app.Arena.Lanes.RedisDb.Control.{
  quietly, delete_each, seed_documents, warm_cache,
}
use mini_redis_test_app.Arena.Lanes.RedisDb.Execute
use mini_redis_test_app.Arena.Models.{
  CommandName, set_command, hset_command, hget_command, ArenaRequest, LaneResult, SeedStateInput,
}
use mini_redis_test_app.Arena.Runner.{discard}
use mini_redis_test_app.Dict.{Dict, keys}
use mini_redis_test_app.Platform.{Platform}
use mini_redis_test_app.Result.{Result, Error, ok, raise, value_error, ◌>>=◌}
use mini_redis_test_app.Text.{Text}

unfoldable pub requires_field : CommandName → Bool
requires_field hset_command = true
requires_field hget_command = true
requires_field _ = false

unfoldable pub requires_value : CommandName → Bool
requires_value set_command = true
requires_value hset_command = true
requires_value _ = false

-- `not field`
abbrev pub is_blank : Option Text → Bool
is_blank none = true
is_blank (some []) = true
is_blank (some (c ∷ s)) = false

abbrev pub is_none : Option Text → Bool
is_none none = true
is_none (some _) = false

-- `payload.keys or list(known_keys)`
abbrev pub keys_or_known : List Text → List Text → List Text
keys_or_known [] known = known
keys_or_known (key ∷ rest) known = key ∷ rest

abbrev pub discard_each : List Text → List Text → List Text
discard_each [] known = known
discard_each (key ∷ rest) known = discard_each rest (discard key known)

-- What a state becomes if the call before it has returned.
abbrev pub if_ok {ℓ} : {X : Type 0} {A : Type ℓ} → Result X → A → A → A
if_ok (ok _) x y = x
if_ok (raise _) x y = y

abbrev pub reply {ℓ} : {X : Type 0} {A : Type ℓ} → A → Result X → Result A
reply a (ok _) = ok a
reply a (raise e) = raise e

module _ ⦃P : Platform⦄ where
  -- `validate_payload`; the payload has the fields of a request. pydantic answers a ValueError with
  -- status 422.
  unfoldable pub validate_payload : ArenaRequest → Result ArenaRequest
  unfolding requires_field requires_value
  validate_payload p =
      if requires_field p.command && is_blank p.field
      then raise value_error
      else (if requires_value p.command && is_none p.value
          then raise value_error
          else ok (record p {
            field = if requires_field p.command then p.field else none;
            value = if requires_value p.command then p.value else none;
          }))
