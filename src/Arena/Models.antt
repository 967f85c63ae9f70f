-- ===== src/Arena/Models.antt =====
-- internal/arena/common/models.py: the requests, the results and the messages of the arena.
use mini_redis_test_app.Prelude.{ℕ, Bool, Option, List}
use mini_redis_test_app.Dict.{Dict}
use mini_redis_test_app.Platform.{Platform}
use mini_redis_test_app.Text.{Text, codes}

abbrev pub wrong_type_message : Text
wrong_type_message = codes "WRONGTYPE Operation against a key holding the wrong kind of value"

pub data CommandName : Type 0 where
  set_command get_command del_command hset_command hget_command hgetall_command : CommandName

pub data LaneName : Type 0 where
  redis_db db_only : LaneName

pub data RequestMode : Type 0 where
  manual scenario : RequestMode

pub data LaneStatus : Type 0 where
  ok_status error_status : LaneStatus

pub record CacheResult : Type 0 where
  pub hit : Bool
  pub miss : Bool

module _ ⦃P : Platform⦄ where
  pub record ManualCommandInput : Type 0 where
    pub command : CommandName
    pub key : Text
    pub field : Option Text
    pub value : Option Text
    pub ttl_enabled : Bool
    pub ttl_seconds : Option P.Float

  pub record ArenaRequest : Type 0 where
    pub request_id : Text
    pub mode : RequestMode
    pub command : CommandName
    pub key : Text
    pub field : Option Text
    pub value : Option Text
    pub ttl_enabled : Bool
    pub ttl_seconds : Option P.Float

  pub record LaneMetrics : Type 0 where
    pub service_time_ms : P.Float
    pub db_time_ms : P.Float
    pub redis_time_ms : P.Float
    pub started_at_ns : ℕ
    pub finished_at_ns : ℕ
    pub gateway_round_trip_ms : Option P.Float

  pub record LaneResult : Type 0 where
    pub request_id : Text
    pub lane : LaneName
    pub status : LaneStatus
    pub latency_ms : P.Float
    pub answer_text : Option Text
    pub answer_kind : Option Text
    pub value_preview : Option Text
    pub path : List Text
    pub storage_changes : List Text
    pub cache : CacheResult
    pub mongo_reads : ℕ
    pub metrics : LaneMetrics

  pub record ExecutionSummary : Type 0 where
    pub faster_lane : Option LaneName
    pub latency_gap_ms : Option P.Float
    pub fewer_mongo_reads_lane : Option LaneName
    pub mongo_read_gap : Option ℕ

  pub record ExecutionResult : Type 0 where
    pub request : ArenaRequest
    pub redis_db_result : LaneResult
    pub db_only_result : LaneResult
    pub summary : ExecutionSummary

  pub record SeedStateInput : Type 0 where
    pub documents : Dict Text
    pub warm_cache : Bool
    pub ttl_enabled : Bool
    pub ttl_seconds : Option P.Float
