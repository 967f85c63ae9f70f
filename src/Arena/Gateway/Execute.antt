-- ===== src/Arena/Gateway/Execute.antt =====
-- internal/arena/gateway/service.py: the requests, their execution, the TTL profile and the health
-- report.
use mini_redis_test_app.Prelude.{
  ℕ, Bool, true, false, ◌&&◌, Option, none, some, length, if◌then◌else◌,
}
use mini_redis_test_app.Arena.Events.{snapshot}
use mini_redis_test_app.Arena.Gateway.{
  ArenaLaneExecutor, Gateway, execution_payload, add_key, publish, lock_memory_profile, both,
  status_of,
}
use mini_redis_test_app.Arena.Interfaces.{Method}
use mini_redis_test_app.Arena.Models.{
  RequestMode, manual, scenario, ManualCommandInput, ArenaRequest, ExecutionResult,
}
use mini_redis_test_app.Arena.Profiles.{TtlProfile, ttl_profiles}
use mini_redis_test_app.Arena.Summary.{build_execution}
use mini_redis_test_app.Dict
use mini_redis_test_app.Platform.{Platform}
use mini_redis_test_app.Result.{Result, ok, raise, value_error, index_error}
use mini_redis_test_app.Text.{Text, codes, text_eq}

module _ ⦃P : Platform⦄ (A : ArenaLaneExecutor) (B : ArenaLaneExecutor) (literal : Text → P.Float)
    (rounded_gap : P.Float → P.Float → P.Float) where
  abbrev seconds_of : Option TtlProfile → Result (Option P.Float)
  seconds_of none = raise index_error
  seconds_of (some profile) = ok (some profile.ttl_seconds)

  -- A missing key of the dictionary of profiles raises KeyError, here `index_error`.
  unfoldable pub selected_ttl_seconds : Gateway A B → Result (Option P.Float)
  unfolding ttl_profiles
  selected_ttl_seconds g = elim g.selected_ttl_profile [
    | none ↦ ok none
    | some profile_key ↦ seconds_of (Dict.get (ttl_profiles literal) profile_key)
  ]

  -- The answer is the number of seconds of the profile.
  unfoldable pub set_ttl_profile : Option Text → Method (Gateway A B) (Option P.Float)
  unfolding ttl_profiles
  set_ttl_profile none g = (ok none, record g { selected_ttl_profile = none })
  set_ttl_profile (some profile_key) g = elim (Dict.get (ttl_profiles literal) profile_key) [
    | none ↦ (raise value_error, g)
    | some profile ↦
        (ok (some profile.ttl_seconds), record g { selected_ttl_profile = some profile_key })
  ]

  -- `request_id` stands for the new identifier of `uuid4`.
  abbrev request_with :
      Text → RequestMode → ManualCommandInput → Bool → Option P.Float → ArenaRequest
  request_with request_id mode input ttl_enabled ttl_seconds = record {
    request_id = request_id;
    mode = mode;
    command = input.command;
    key = input.key;
    field = input.field;
    value = input.value;
    ttl_enabled = ttl_enabled;
    ttl_seconds = ttl_seconds;
  }

  -- The selected seconds, where the input wants some and names none.
  abbrev with_selected :
      Text → RequestMode → ManualCommandInput → Result (Option P.Float) → Result ArenaRequest
  with_selected request_id mode input (raise e) = raise e
  with_selected request_id mode input (ok none) = ok (request_with request_id mode input false none)
  with_selected request_id mode input (ok (some seconds)) =
      ok (request_with request_id mode input true (some seconds))

  unfoldable pub build_request :
      Text → RequestMode → ManualCommandInput → Gateway A B → Result ArenaRequest
  unfolding selected_ttl_seconds
  build_request request_id mode input g = elim input.ttl_seconds [
    | some seconds ↦ ok (request_with request_id mode input input.ttl_enabled (some seconds))
    | none ↦
        if input.ttl_enabled
        then with_selected request_id mode input (selected_ttl_seconds g)
        else ok (request_with request_id mode input false none)
  ]

  -- `_execute_request`: both lanes run, whatever the other does.
  unfoldable pub execute_request : ArenaRequest → Text → Method (Gateway A B) ExecutionResult
  unfolding add_key publish build_execution
  execute_request request event_type g =
      let (r, a) = A.execute request g.redis_lane in
      let (r', b) = B.execute request g.db_only_lane in
      let g' = record g {
        known_keys = add_key request.key g.known_keys;
        redis_lane = a;
        db_only_lane = b;
      } in
      elim (both A B r r') [
        | raise e ↦ (raise e, g')
        | ok results ↦
            let execution = build_execution rounded_gap request results.0 results.1 in
            (
              ok execution,
              publish A B
                  (record { event_type = event_type; payload = execution_payload execution }) g',
            )
      ]

  abbrev pub execute_built : Result ArenaRequest → Text → Method (Gateway A B) ExecutionResult
  execute_built (raise e) event_type g = (raise e, g)
  execute_built (ok request) event_type g = execute_request request event_type g

  unfoldable pub execute_manual_command :
      Text → ManualCommandInput → Method (Gateway A B) ExecutionResult
  unfolding lock_memory_profile build_request execute_request
  execute_manual_command request_id input g =
      let g' = lock_memory_profile A B g in
      execute_built (build_request request_id manual input g') (codes "manual_command_completed") g'

  unfoldable pub execute_scenario_command :
      Text → ManualCommandInput → Method (Gateway A B) ExecutionResult
  unfolding lock_memory_profile build_request execute_request
  execute_scenario_command request_id input g =
      let g' = lock_memory_profile A B g in
      execute_built (build_request request_id scenario input g')
        (codes "scenario_execution_completed") g'

  pub record HealthReport : Type 0 where
    pub is_degraded : Bool
    pub tracked_keys : ℕ
    pub retained_events : ℕ
    pub memory_selected : Text
    pub memory_is_locked : Bool
    pub ttl_selected : Option Text
    pub ttl_seconds : Option P.Float

  abbrev is_ok : Option Text → Bool
  is_ok none = false
  is_ok (some status) = text_eq status (codes "ok")

  unfoldable pub healthcheck : Method (Gateway A B) HealthReport
  unfolding selected_ttl_seconds snapshot
  healthcheck g =
      let (a_status, a) = status_of A B A.health g.redis_lane in
      let (b_status, b) = status_of A B B.health g.db_only_lane in
      let g' = record g { redis_lane = a; db_only_lane = b } in
      elim (selected_ttl_seconds g') [
        | raise e ↦ (raise e, g')
        | ok seconds ↦ (
          ok (record {
            is_degraded = if is_ok a_status && is_ok b_status then false else true;
            tracked_keys = length g'.known_keys;
            retained_events = length (snapshot g'.event_history);
            memory_selected = g'.selected_memory_profile;
            memory_is_locked = g'.memory_locked;
            ttl_selected = g'.selected_ttl_profile;
            ttl_seconds = seconds;
          }),
          g',
        )
      ]
