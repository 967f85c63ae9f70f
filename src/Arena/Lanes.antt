-- ===== src/Arena/Lanes.antt =====
-- internal/arena/lane: what the two lane adapters share, and cache_policy.py.
pub mod DbOnly
pub mod RedisDb
pub mod Agree
pub mod Counts
pub mod Misses
use mini_redis_test_app.Prelude.{
  ℕ, Bool, true, false, Option, none, some, List, [], ◌∷◌, ◌++◌, String, map, if◌then◌else◌,
}
use mini_redis_test_app.Arena.Interfaces.{Method}
use mini_redis_test_app.Arena.Models.{
  CacheResult, LaneName, LaneStatus, ok_status, error_status, ArenaRequest, LaneMetrics, LaneResult,
  wrong_type_message,
}
use mini_redis_test_app.Dict.{Dict}
use mini_redis_test_app.Platform.{Platform}
use mini_redis_test_app.Protocol.{message_of}
use mini_redis_test_app.Result.{Result, Error, ok, raise, command_error, type_error, value_error}
use mini_redis_test_app.Text.{Text, codes}

-- The local variables of `execute`. They keep their values when an exception is raised.
pub record Progress : Type 0 where
  pub path : List Text
  pub storage_changes : List Text
  pub hit : Bool
  pub miss : Bool
  pub mongo_reads : ℕ
  pub value_preview : Option Text
  pub answer_text : Option Text
  pub answer_kind : Option Text

abbrev pub no_progress : Progress
no_progress = record {
  path = [];
  storage_changes = [];
  hit = false;
  miss = false;
  mongo_reads = 0;
  value_preview = none;
  answer_text = none;
  answer_kind = none;
}

-- A part of the body of `execute`, for a lane whose stores are in the state `S`.
abbrev pub Step : Type 0 → Type 0 → Type 0
Step S A = Method (S × Progress) A

module _ {S : Type 0} where
  abbrev pub then_do : {A B : Type 0} → Result A → (A → Step S B) → Step S B
  then_do (ok a) f w = f a w
  then_do (raise e) f w = (raise e, w)

  unfoldable pub pass : Step S (Unit {0})
  pass w = (ok tt, w)

  unfoldable pub lift : {A : Type 0} → Result A → Step S A
  lift r w = (r, w)

  unfoldable pub note : (Progress → Progress) → Step S (Unit {0})
  note f (s, p) = (ok tt, (s, f p))

  -- `path.extend(names)`, `storage_changes.extend(changes)`, `value_preview = value` and
  -- `answer_text, answer_kind = answer`
  unfoldable pub follow : List String → Step S (Unit {0})
  unfolding note
  follow names = note (λ p. record p { path = p.path ++ map codes names })

  unfoldable pub change : List Text → Step S (Unit {0})
  unfolding note
  change changes = note (λ p. record p { storage_changes = p.storage_changes ++ changes })

  unfoldable pub preview : Option Text → Step S (Unit {0})
  unfolding note
  preview value = note (λ p. record p { value_preview = value })

  unfoldable pub answer : Text × Text → Step S (Unit {0})
  unfolding note
  answer (text, kind) = note (λ p. record p { answer_text = some text; answer_kind = some kind })

  infixl 5 ◌>>=◌ ◌>>◌
  -- Unfolding the bind unfolds the actions above with it.
  unfoldable pub ◌>>=◌ : {A B : Type 0} → Step S A → (A → Step S B) → Step S B
  unfolding pass lift follow change preview answer
  ◌>>=◌ m f w = let (r, w') = m w in then_do r f w'

  unfoldable pub ◌>>◌ : {A B : Type 0} → Step S A → Step S B → Step S B
  unfolding ◌>>=◌
  m >> k = m >>= λ _. k

abbrev pub set_answer : Text × Text
set_answer = (codes "OK", codes "ok")

abbrev pub get_answer : Option Text → Text × Text
get_answer none = (codes "(nil)", codes "nil")
get_answer (some value) = (value, codes "value")

abbrev pub delete_answer : Bool → Text × Text
delete_answer true = (codes "deleted", codes "deleted")
delete_answer false = (codes "not found", codes "not_found")

-- `value or ""`
abbrev pub or_empty : Option Text → Text
or_empty none = []
or_empty (some s) = s

-- What the lanes take from outside the program: `json.dumps` with sorted keys and no spaces,
-- `str(exc)` of the exceptions with a text of Python's own, and the environment variable
-- ARENA_DEFAULT_TTL_SECONDS.
pub record Outside : Type 0 where
  pub dumps : Dict Text → Text
  pub exception_text : Error → Text
  pub default_ttl_text : Option Text

-- `str(exc)`
unfoldable pub str_exception : Outside → Error → Text
str_exception outside type_error = wrong_type_message
str_exception outside (command_error e) = codes (message_of e)
str_exception outside e = outside.exception_text e

unfoldable pub serialize_hash : Outside → Option (Dict Text) → Option Text
serialize_hash outside none = none
serialize_hash outside (some fields) = some (outside.dumps fields)

module _ ⦃P : Platform⦄ where
  abbrev pub or_five : Option Text → Text
  or_five none = codes "5"
  or_five (some text) = text

  abbrev pub float_or_raise : Option P.Float → Result P.Float
  float_or_raise none = raise value_error
  float_or_raise (some x) = ok x

  unfoldable pub default_ttl_seconds : Outside → Result P.Float
  default_ttl_seconds outside = float_or_raise (P.parse_float (or_five outside.default_ttl_text))

  abbrev pub some_result : Result P.Float → Result (Option P.Float)
  some_result (ok x) = ok (some x)
  some_result (raise e) = raise e

  unfoldable pub redis_ttl_for_request : Outside → Bool → Option P.Float → Result (Option P.Float)
  unfolding default_ttl_seconds
  redis_ttl_for_request outside false ttl_seconds = ok none
  redis_ttl_for_request outside true (some ttl_seconds) = ok (some ttl_seconds)
  redis_ttl_for_request outside true none = some_result (default_ttl_seconds outside)

  -- What `perf_counter` measures in a run, rounded.
  pub record Measured : Type 0 where
    pub service_time_ms : P.Float
    pub db_time_ms : P.Float
    pub redis_time_ms : P.Float
    pub started_at_ns : ℕ
    pub finished_at_ns : ℕ

  abbrev pub metrics_of : Measured → LaneMetrics
  metrics_of m = record {
    service_time_ms = m.service_time_ms;
    db_time_ms = m.db_time_ms;
    redis_time_ms = m.redis_time_ms;
    started_at_ns = m.started_at_ns;
    finished_at_ns = m.finished_at_ns;
    gateway_round_trip_ms = none;
  }

  -- `storage_changes or [failure]`
  abbrev or_failure : Text → List Text → List Text
  or_failure failure [] = failure ∷ []
  or_failure failure (c ∷ changes) = c ∷ changes

  -- The two `return LaneResult(…)` of `execute`: at the end of the body, and for an exception.
  unfoldable pub lane_result :
      Outside
      → LaneName
      → Text
      → ArenaRequest
      → Measured
      → Result (Unit {0})
      → Progress
      → LaneResult
  unfolding str_exception
  lane_result outside lane failure request m (ok _) p = record {
    request_id = request.request_id;
    lane = lane;
    status = ok_status;
    latency_ms = m.service_time_ms;
    answer_text = p.answer_text;
    answer_kind = p.answer_kind;
    value_preview = p.value_preview;
    path = p.path;
    storage_changes = p.storage_changes;
    cache = record { hit = p.hit; miss = p.miss };
    mongo_reads = p.mongo_reads;
    metrics = metrics_of m;
  }
  lane_result outside lane failure request m (raise e) p = record {
    request_id = request.request_id;
    lane = lane;
    status = error_status;
    latency_ms = m.service_time_ms;
    answer_text = some (codes "error: " ++ str_exception outside e);
    answer_kind = some (codes "error");
    value_preview = some (str_exception outside e);
    path = p.path;
    storage_changes = or_failure failure p.storage_changes;
    cache = record { hit = p.hit; miss = p.miss };
    mongo_reads = p.mongo_reads;
    metrics = metrics_of m;
  }
