-- ===== src/Tests/Services.antt =====
-- The theorems on the scenario runner and on the payloads at concrete inputs.
use mini_redis_test_app.Prelude.{ℕ, ◌<◌, ◌≡◌, ◌⊎◌, refl, true, none, [], ◌∷◌, length}
use mini_redis_test_app.Arena.Models.{get_command, ArenaRequest}
use mini_redis_test_app.Arena.Routes.{validate_payload}
use mini_redis_test_app.Arena.Routes.Payloads.{
  IsIncomplete, IsAccepted, validate_payload-IsAccepted,
}
use mini_redis_test_app.Arena.Runner.{
  ScenarioRunInput, mixed_scenario, new_runner, Runner, start, finish, status, plan_for, run_plan,
}
use mini_redis_test_app.Arena.Runner.Active.{fresh, started, finished, IsTracked, status-tasks}
use mini_redis_test_app.Arena.Runner.Calls.{IsRun, plan_calls, run_plan-IsRun}
use mini_redis_test_app.Arena.Scenario.{ScenarioPlan}
use mini_redis_test_app.Dict.{contains}
use mini_redis_test_app.Result.{Error, ok, raise, value_error}
use mini_redis_test_app.Samples.{sample}
use mini_redis_test_app.Tests.Arenas.{counting, literal, no_gap, gateway, delay, request}
use mini_redis_test_app.Text.{Text, codes, text_eq}

abbrev one_left : Runner
one_left = finish 0 (start (codes "write") (start (codes "read 60%") new_runner))

status-tasks_example :
    IsTracked one_left × ((status one_left).running ≡ true → 0 < length one_left.tasks)
status-tasks_example = status-tasks one_left (
    finished 0 (start (codes "write") (start (codes "read 60%") new_runner)) (
      started (codes "write") (start (codes "read 60%") new_runner)
        (started (codes "read 60%") new_runner fresh)))

-- Two runs with one label: the first that ends takes the label of the other away.
abbrev one_of_two : Runner
one_of_two = finish 0 (start (codes "write") (start (codes "write") new_runner))

lost_label : (one_of_two.active_labels ≡ []) × (one_of_two.tasks ≡ codes "write" ∷ [])
unfolding start finish text_eq contains
lost_label = (refl, refl)

abbrev mixed_input : ScenarioRunInput
mixed_input = record {
  scenario_id = mixed_scenario;
  users = 2;
  duration_seconds = 3;
  read_hot_percent = none;
  ttl_enabled = true;
  ttl_seconds = none;
}

abbrev one_id : ℕ → Text
one_id n = codes "req-1"

run_plan-IsRun_example :
    ((e : Error) × (plan_for delay mixed_scenario mixed_input ≡ raise e)
      × (run_plan counting counting literal no_gap delay one_id mixed_input gateway
          ≡ (raise e, gateway)))
    ⊎ ((plan : ScenarioPlan) × (plan_for delay mixed_scenario mixed_input ≡ ok plan)
        × IsRun counting counting literal no_gap
            (plan_calls counting counting literal no_gap one_id mixed_input plan)
            gateway
            (run_plan counting counting literal no_gap delay one_id mixed_input gateway))
run_plan-IsRun_example =
    run_plan-IsRun counting counting literal no_gap delay one_id mixed_input gateway

abbrev get_a : ArenaRequest
get_a = request get_command "a" none

validate_payload-IsAccepted_example :
    ((validate_payload get_a ≡ raise value_error) × IsIncomplete get_a)
    ⊎ ((r : ArenaRequest) × (validate_payload get_a ≡ ok r) × IsAccepted get_a r)
validate_payload-IsAccepted_example = validate_payload-IsAccepted get_a
