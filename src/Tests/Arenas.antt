-- ===== src/Tests/Arenas.antt =====
-- The theorems on the arena at concrete inputs.
use mini_redis_test_app.Prelude.{
  ℕ, ◌+◌, ◌*◌, ◌-◌, ◌≤◌, ◌≡◌, inl, refl, true, false, Option, none, some, List, [], ◌∷◌, map,
  String, length, ltb, arith, if◌then◌else◌,
}
use mini_redis_test_app.Prelude.Int.{pos}
use mini_redis_test_app.Arena.Client.{Client}
use mini_redis_test_app.Arena.Client.Methods
use mini_redis_test_app.Arena.Client.Lawful.{catching_client}
use mini_redis_test_app.Arena.Client.Shapes.{sees}
use mini_redis_test_app.Arena.Events.{EventHistory, append_all, last_events, append_all-last_events}
use mini_redis_test_app.Arena.Gateway.{ArenaLaneExecutor, Gateway, new_gateway, set_memory_profile}
use mini_redis_test_app.Arena.Gateway.Execute.{selected_ttl_seconds}
use mini_redis_test_app.Arena.Gateway.Locked.{
  Call, manual_call, scenario_call, memory_call, ttl_call, reset_call, calls, command-IsLocked,
}
use mini_redis_test_app.Arena.Gateway.Sound.{no_events, calls-new_gateway}
use mini_redis_test_app.Arena.Interfaces.{in_memory_client, in_memory_repository}
use mini_redis_test_app.Arena.Lanes.{Outside, Measured, default_ttl_seconds}
use mini_redis_test_app.Arena.Lanes.Agree.{IsCoherent}
use mini_redis_test_app.Arena.Lanes.Agree.Traces.{Timed, serve_db_only, serve_redis_db}
use mini_redis_test_app.Arena.Lanes.DbOnly
use mini_redis_test_app.Arena.Lanes.Misses.{one_if, execute-miss, build_summary-fewer_reads}
use mini_redis_test_app.Arena.Lanes.RedisDb
use mini_redis_test_app.Arena.Lanes.RedisDb.Execute
use mini_redis_test_app.Arena.Models.{
  CommandName, set_command, get_command, del_command, hset_command, hgetall_command, redis_db,
  manual, ArenaRequest, LaneResult, ManualCommandInput,
}
use mini_redis_test_app.Arena.Mongo
use mini_redis_test_app.Arena.Mongo.{Documents, hash_document}
use mini_redis_test_app.Arena.Profiles.{memory_profiles}
use mini_redis_test_app.Arena.Scenario.{
  range_from, is_read_level, build_read_plan, build_mixed_plan,
}
use mini_redis_test_app.Arena.Scenario.Hot.{count_hot, count_hot-block}
use mini_redis_test_app.Arena.Scenario.Plans.{
  IsPlan, IsRead, IsMixed, build_read_plan-IsPlan, build_mixed_plan-IsPlan,
}
use mini_redis_test_app.Arena.Summary.{build_summary}
use mini_redis_test_app.Dict
use mini_redis_test_app.Dict.{contains, keys}
use mini_redis_test_app.Result.{ok, raise, runtime_error}
use mini_redis_test_app.Samples.{sample, Seconds, finite}
use mini_redis_test_app.Service.Memory
use mini_redis_test_app.Text.{Text, codes, text_eq}
use mini_redis_test_app.Text.Utf8

abbrev pub no_cache : Client
no_cache = record {
  entries = [];
  max_memory_bytes = some 20;
  evicted_keys = 0;
  access_clock = 0;
  access_order = [];
  readings = λ n. finite (pos n);
  reads = 0;
}

abbrev pub outside : Outside
outside = record {
  dumps = λ fields. codes "{}";
  exception_text = λ e. codes "failed";
  default_ttl_text = none;
}

abbrev times : Measured
times = record {
  service_time_ms = finite (pos 2);
  db_time_ms = finite (pos 1);
  redis_time_ms = finite (pos 1);
  started_at_ns = 5;
  finished_at_ns = 9;
}

abbrev pub request : CommandName → String → Option String → ArenaRequest
request command key value = record {
  request_id = codes "req-1";
  mode = manual;
  command = command;
  key = codes key;
  field = some (codes "f");
  value = elim value [ none ↦ none | some v ↦ some (codes v) ];
  ttl_enabled = true;
  ttl_seconds = none;
}

abbrev timed : CommandName → String → Option String → Timed
timed command key value = record {
  request = request command key value;
  redis_times = times;
  db_times = times;
}

abbrev requests : List Timed
requests =
    timed set_command "a" (some "1")
    ∷ timed get_command "a" none
    ∷ timed hset_command "h" (some "2")
    ∷ timed hgetall_command "h" none
    ∷ timed get_command "h" none
    ∷ timed del_command "a" none
    ∷ timed get_command "a" none
    ∷ []

pub five_seconds : default_ttl_seconds outside ≡ ok (finite (pos 5))
unfolding default_ttl_seconds
five_seconds = refl

pub nothing_cached : IsCoherent catching_client sees no_cache []
unfolding Dict.get
nothing_cached j = inl refl

execute-miss_example :
    (Execute.execute in_memory_client in_memory_repository outside
      (request get_command "a" none)
      times
      (no_cache, [])).0.mongo_reads
    ≡ one_if
        (Execute.execute in_memory_client in_memory_repository outside
          (request get_command "a" none)
          times
          (no_cache, [])).0.cache.miss
execute-miss_example =
    execute-miss in_memory_client in_memory_repository outside (request get_command "a" none) times
      (no_cache, [])

abbrev pub no_gap : Seconds → Seconds → Seconds
no_gap a b = finite (pos 0)

build_summary-fewer_reads_example :
    let a =
      (Execute.execute in_memory_client in_memory_repository outside
        (request set_command "a" (some "1"))
        times
        (no_cache, [])).0 in
    let b =
      (DbOnly.execute in_memory_repository outside
        (request set_command "a" (some "1"))
        times
        []).0 in
    let summary = build_summary no_gap a b in
    (summary.fewer_mongo_reads_lane
      ≡ (if ltb a.mongo_reads b.mongo_reads then some redis_db else none))
    × (summary.mongo_read_gap ≡ some (b.mongo_reads - a.mongo_reads))
build_summary-fewer_reads_example =
    build_summary-fewer_reads in_memory_client in_memory_repository outside no_gap
      (request set_command "a" (some "1")) times times (no_cache, []) []

abbrev two_events : EventHistory ℕ
two_events = record { max_events = pos 2; events = 1 ∷ 2 ∷ [] }

abbrev more_events : List ℕ
more_events = 3 ∷ 4 ∷ []

append_all-last_events_example :
    (append_all more_events two_events).events ≡ last_events (pos 2) (1 ∷ 2 ∷ more_events)
append_all-last_events_example = append_all-last_events 1 more_events two_events refl (omega arith)

is_read_level-forty : is_read_level 40 ≡ true
unfolding is_read_level
is_read_level-forty = refl

count_hot-block_example : count_hot 40 (range_from (100 * 3) 100) ≡ 40
count_hot-block_example = count_hot-block 40 3 is_read_level-forty

abbrev pub delay : Seconds
delay = finite (pos 0)

build_read_plan-IsPlan_example : IsPlan IsRead 2 3 (build_read_plan delay 2 3 40)
build_read_plan-IsPlan_example = build_read_plan-IsPlan delay 2 3 40 is_read_level-forty

build_mixed_plan-IsPlan_example : IsPlan IsMixed 4 5 (build_mixed_plan delay 4 5)
build_mixed_plan-IsPlan_example = build_mixed_plan-IsPlan delay 4 5

-- A lane that counts its requests.
abbrev pub counting : ArenaLaneExecutor
counting = record {
  Lane = ℕ;
  Report = Unit;
  execute = λ r n. (ok ((DbOnly.execute in_memory_repository outside r times []).0), n + 1);
  clear = λ ks full n. (ok tt, 0);
  seed = λ input n. (ok tt, n);
  configure_memory = some (λ profile bytes n. (ok tt, n));
  health = none;
}

abbrev pub literal : Text → Seconds
literal s = finite (pos 1)

abbrev pub gateway : Gateway counting counting
gateway = record {
  redis_lane = 0;
  db_only_lane = 0;
  known_keys = [];
  selected_memory_profile = codes "small";
  selected_ttl_profile = none;
  memory_locked = false;
  event_history = record { max_events = pos 2; events = [] };
  queues = [] ∷ [];
}

abbrev get_input : ManualCommandInput
get_input = record {
  command = get_command;
  key = codes "a";
  field = none;
  value = none;
  ttl_enabled = true;
  ttl_seconds = none;
}

abbrev later : List (Call counting counting literal no_gap)
later =
    memory_call (codes "large")
    ∷ ttl_call (some (codes "short"))
    ∷ scenario_call (codes "req-2") get_input
    ∷ []

large_profile : contains (keys memory_profiles) (codes "large") ≡ true
unfolding memory_profiles contains keys text_eq
large_profile = refl

command-IsLocked_example :
    let g =
      calls counting counting literal no_gap
        (manual_call (codes "req-1") get_input ∷ later)
        gateway in
    (g.selected_memory_profile ≡ codes "small")
    × (set_memory_profile counting counting (codes "large") g ≡ (raise runtime_error, g))
command-IsLocked_example =
    command-IsLocked counting counting literal no_gap (codes "req-1") get_input later
      (codes "large") gateway (refl, (refl, (refl, tt))) large_profile

calls-new_gateway_example :
    let g =
      calls counting counting literal no_gap
        (reset_call ∷ later)
        (new_gateway counting counting 0 0 (no_events counting counting literal no_gap 1) []) in
    (contains (keys memory_profiles) g.selected_memory_profile ≡ true)
    × ((seconds : Option Seconds) × (selected_ttl_seconds counting counting literal no_gap g
          ≡ ok seconds))
    × (length g.event_history.events ≤ 2)
calls-new_gateway_example =
    calls-new_gateway counting counting literal no_gap 1 (reset_call ∷ later) 0 0 []

-- A hash that is in Mongo and no longer in the cache: HSET writes the new field alone to the cache,
-- and HGETALL then answers with one field from the cache, with two from Mongo.
abbrev stored_hash : Documents
stored_hash = (codes "h", hash_document ((codes "e", codes "1") ∷ [])) ∷ []

abbrev hash_requests : List Timed
hash_requests = timed hset_command "h" (some "2") ∷ timed hgetall_command "h" none ∷ []

abbrev texts : List LaneResult → List (Option Text)
texts = map (λ result. result.answer_text)

abbrev counting_fields : Outside
counting_fields = record outside { dumps = λ fields. (b'0' + length fields) ∷ [] }

partial_hash :
    (texts (serve_redis_db in_memory_client counting_fields hash_requests (no_cache, stored_hash)).0
      ≡ some (codes "OK") ∷ some (codes "1") ∷ [])
    × (texts (serve_db_only counting_fields hash_requests stored_hash).0
        ≡ some (codes "OK") ∷ some (codes "2") ∷ [])
unfolding serve_redis_db serve_db_only Execute.run_command RedisDb.run_hset Mongo.hset Dict.get
    text_eq Methods.hset Execute.run_hgetall Methods.hgetall Methods.expire Dict.set
    Memory.byte_length Utf8.encode Memory.sum_fields Mongo.hgetall
partial_hash = (refl, refl)
