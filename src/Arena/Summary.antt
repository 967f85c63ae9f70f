-- ===== src/Arena/Summary.antt =====
-- internal/arena/gateway/result_normalizer.py
use mini_redis_test_app.Prelude.{ℕ, ◌-◌, Option, none, some, ltb, if◌then◌else◌}
use mini_redis_test_app.Arena.Models.{
  LaneName, redis_db, db_only, ArenaRequest, LaneResult, ExecutionSummary, ExecutionResult,
}
use mini_redis_test_app.Platform.{Platform}

module _ ⦃P : Platform⦄ where
  -- `result.metrics.service_time_ms or result.latency_ms`
  unfoldable pub latency : LaneResult → P.Float
  latency result =
      if P.float_eq result.metrics.service_time_ms P.float_zero
      then result.latency_ms
      else result.metrics.service_time_ms

  unfoldable pub faster_lane_of : P.Float → P.Float → Option LaneName
  faster_lane_of redis db =
      if P.float_lt redis db
      then some redis_db
      else (if P.float_lt db redis then some db_only else none)

  unfoldable pub fewer_reads_lane_of : ℕ → ℕ → Option LaneName
  fewer_reads_lane_of redis db =
      if ltb redis db then some redis_db else (if ltb db redis then some db_only else none)

  -- `abs(redis - db)`
  unfoldable pub read_gap : ℕ → ℕ → ℕ
  read_gap redis db = if ltb redis db then db - redis else redis - db

  -- `rounded_gap a b` stands for `round(abs(a - b), 3)`.
  module _ (rounded_gap : P.Float → P.Float → P.Float) where
    unfoldable pub build_summary : LaneResult → LaneResult → ExecutionSummary
    unfolding latency faster_lane_of fewer_reads_lane_of read_gap
    build_summary redis_result db_only_result =
        let redis_latency_ms = latency redis_result in
        let db_only_latency_ms = latency db_only_result in
        record {
          faster_lane = faster_lane_of redis_latency_ms db_only_latency_ms;
          latency_gap_ms = some (rounded_gap redis_latency_ms db_only_latency_ms);
          fewer_mongo_reads_lane =
              fewer_reads_lane_of redis_result.mongo_reads db_only_result.mongo_reads;
          mongo_read_gap = some (read_gap redis_result.mongo_reads db_only_result.mongo_reads);
        }

    unfoldable pub build_execution : ArenaRequest → LaneResult → LaneResult → ExecutionResult
    unfolding build_summary
    build_execution request redis_result db_only_result = record {
      request = request;
      redis_db_result = redis_result;
      db_only_result = db_only_result;
      summary = build_summary redis_result db_only_result;
    }
