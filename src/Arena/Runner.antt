-- ===== src/Arena/Runner.antt =====
-- internal/arena/scenario/runner.py: the labels, the tasks and the run of a plan.
pub mod Active
pub mod Calls
use mini_redis_test_app.Prelude.{
  ℕ, zero, suc, ◌+◌, Bool, true, false, Option, none, some, List, [], ◌∷◌, ◌++◌, length,
  if◌then◌else◌,
}
use mini_redis_test_app.Arena.Events
use mini_redis_test_app.Arena.Gateway.{
  ArenaLaneExecutor, Gateway, add_key, publish_message, reset_state, seed_state,
}
use mini_redis_test_app.Arena.Gateway.Execute.{execute_scenario_command}
use mini_redis_test_app.Arena.Interfaces.{Method}
use mini_redis_test_app.Arena.Models.{ManualCommandInput, SeedStateInput}
use mini_redis_test_app.Arena.Scenario.{
  ScenarioAction, ScenarioPlan, build_read_plan, build_write_plan, build_mixed_plan,
}
use mini_redis_test_app.Dict.{Dict}
use mini_redis_test_app.Platform.{Platform}
use mini_redis_test_app.Result.{Result, Error, ok, raise}
use mini_redis_test_app.Text.{Text, codes, text_eq}
use mini_redis_test_app.Text.Decimal.{print_nat}
use mini_redis_test_app.Text.Order.{sorted, text_lt}

pub data ScenarioId : Type 0 where
  read_scenario write_scenario mixed_scenario : ScenarioId

-- `read_hot_percent or 60`
abbrev pub hot_or_sixty : Option ℕ → ℕ
hot_or_sixty none = 60
hot_or_sixty (some zero) = 60
hot_or_sixty (some (suc n)) = suc n

abbrev label_of : ScenarioId → Option ℕ → Text
label_of read_scenario hot_percent =
    codes "read " ++ print_nat (hot_or_sixty hot_percent) ++ codes "%"
label_of write_scenario hot_percent = codes "write"
label_of mixed_scenario hot_percent = codes "mixed"

-- `_active_labels` and the labels of `_tasks`, which are the tasks that have not ended.
pub record Runner : Type 0 where
  pub active_labels : List Text
  pub tasks : List Text

abbrev pub new_runner : Runner
new_runner = record { active_labels = []; tasks = [] }

-- `discard` of a set of texts.
unfoldable pub discard : Text → List Text → List Text
discard label [] = []
discard label (x ∷ xs) = let rest = discard label xs in if text_eq x label then rest else x ∷ rest

-- The task at an index, out of the list.
unfoldable pub without : ℕ → List Text → List Text
without n [] = []
without zero (x ∷ xs) = xs
without (suc n) (x ∷ xs) = x ∷ without n xs

abbrev pub label_at : ℕ → List Text → Option Text
label_at n [] = none
label_at zero (x ∷ xs) = some x
label_at (suc n) (x ∷ xs) = label_at n xs

-- `run` starts a task for a label.
unfoldable pub start : Text → Runner → Runner
unfolding add_key
start label r = record {
  active_labels = add_key label r.active_labels;
  tasks = r.tasks ++ label ∷ [];
}

abbrev pub finish_label : Option Text → ℕ → Runner → Runner
finish_label none n r = r
finish_label (some label) n r = record {
  active_labels = discard label r.active_labels;
  tasks = without n r.tasks;
}

-- The end of a task: its `finally`, and the callback that forgets it.
unfoldable pub finish : ℕ → Runner → Runner
unfolding discard without
finish n r = finish_label (label_at n r.tasks) n r

unfoldable pub reset_tasks : Runner → Runner
reset_tasks r = record { active_labels = []; tasks = [] }

pub record RunnerStatus : Type 0 where
  pub running : Bool
  pub active_label : Option Text
  pub active_count : ℕ

abbrev first_label : List Text → Option Text
first_label [] = none
first_label (label ∷ labels) = some label

abbrev pub is_some_label : List Text → Bool
is_some_label [] = false
is_some_label (label ∷ labels) = true

unfoldable pub status : Runner → RunnerStatus
unfolding sorted text_lt
status r = record {
  running = is_some_label r.active_labels;
  active_label = first_label (sorted text_lt r.active_labels);
  active_count = length r.active_labels;
}

module _ ⦃P : Platform⦄ where
  pub record ScenarioRunInput : Type 0 where
    pub scenario_id : ScenarioId
    pub users : ℕ
    pub duration_seconds : ℕ
    pub read_hot_percent : Option ℕ
    pub ttl_enabled : Bool
    pub ttl_seconds : Option P.Float

  unfoldable pub scenario_label : ScenarioRunInput → Text
  unfolding print_nat
  scenario_label input = label_of input.scenario_id input.read_hot_percent

  abbrev pub plan_for : P.Float → ScenarioId → ScenarioRunInput → Result ScenarioPlan
  plan_for delay read_scenario input =
      build_read_plan delay input.users input.duration_seconds (hot_or_sixty input.read_hot_percent)
  plan_for delay write_scenario input = build_write_plan delay input.users input.duration_seconds
  plan_for delay mixed_scenario input = build_mixed_plan delay input.users input.duration_seconds

  abbrev pub scenario_input : ScenarioRunInput → ScenarioAction → ManualCommandInput
  scenario_input input action = record {
    command = action.command;
    key = action.key;
    field = none;
    value = action.value;
    ttl_enabled = input.ttl_enabled;
    ttl_seconds = input.ttl_seconds;
  }

  abbrev pub cold_seed : Dict Text → SeedStateInput
  cold_seed documents = record {
    documents = documents;
    warm_cache = false;
    ttl_enabled = false;
    ttl_seconds = none;
  }

  module _ (A : ArenaLaneExecutor) (B : ArenaLaneExecutor) (literal : Text → P.Float)
      (rounded_gap : P.Float → P.Float → P.Float) where
    -- The commands in order, until one raises. `ids n` is the identifier that `uuid4` gives the
    -- n-th of them; the pauses between them are left out.
    unfoldable pub run_actions :
        (ℕ → Text) → ScenarioRunInput → ℕ → List ScenarioAction → Method (Gateway A B) (Unit {0})
    unfolding execute_scenario_command
    run_actions ids input n [] g = (ok tt, g)
    run_actions ids input n (action ∷ actions) g =
        let (r, g') =
          execute_scenario_command A B literal rounded_gap (ids n) (scenario_input input action)
            g in
        let rest = run_actions ids input (n + 1) actions g' in
        elim r [ raise e ↦ (raise e, g') | ok _ ↦ rest ]

    -- `if plan.seed_documents:`
    abbrev pub seed_plan : Dict Text → Method (Gateway A B) (Unit {0})
    seed_plan [] g = (ok tt, g)
    seed_plan (document ∷ documents) g = seed_state A B (cold_seed (document ∷ documents)) g

    abbrev pub finished_message : ScenarioRunInput → Text
    finished_message input = codes "Scenario finished: " ++ scenario_label input

    abbrev pub after_actions :
        ScenarioRunInput → Result (Unit {0}) → Gateway A B → Result (Unit {0}) × Gateway A B
    after_actions input (raise e) g = (raise e, g)
    after_actions input (ok _) g =
        (ok tt, publish_message A B (codes "scenario_finished") (finished_message input) g)

    abbrev pub after_seed :
        (ℕ → Text)
        → ScenarioRunInput
        → List ScenarioAction
        → Result (Unit {0})
        → Gateway A B
        → Result (Unit {0}) × Gateway A B
    after_seed ids input actions (raise e) g = (raise e, g)
    after_seed ids input actions (ok _) g =
        let (r, g') = run_actions ids input 0 actions g in after_actions input r g'

    abbrev pub run_built :
        (ℕ → Text) → ScenarioRunInput → Result ScenarioPlan → Method (Gateway A B) (Unit {0})
    run_built ids input (raise e) g = (raise e, g)
    run_built ids input (ok plan) g =
        let (r, g') = seed_plan plan.seed_documents g in after_seed ids input plan.actions r g'

    -- The body of a task, on the gateway; `delay` stands for 0.05.
    unfoldable pub run_plan :
        P.Float → (ℕ → Text) → ScenarioRunInput → Method (Gateway A B) (Unit {0})
    unfolding build_read_plan build_write_plan build_mixed_plan seed_state run_actions
        publish_message scenario_label
    run_plan delay ids input g = run_built ids input (plan_for delay input.scenario_id input) g

    unfoldable pub run : ScenarioRunInput → Runner × Gateway A B → Runner × Gateway A B
    unfolding start publish_message scenario_label
    run input (r, g) = (
      start (scenario_label input) r,
      publish_message A B (codes "scenario_accepted")
          (codes "Scenario accepted: " ++ scenario_label input) g,
    )

    abbrev after_reset : Result (Unit {0}) → Gateway A B → Result (Unit {0}) × Gateway A B
    after_reset (raise e) g = (raise e, g)
    after_reset (ok _) g = (
      ok tt,
      publish_message A B (codes "scenario_reset") (codes "Arena state reset.")
          (record g { event_history = Events.clear g.event_history }),
    )

    unfoldable pub reset : Method (Runner × Gateway A B) (Unit {0})
    unfolding reset_tasks reset_state Events.clear publish_message
    reset (r, g) =
        let (cleared, g') = reset_state A B g in
        let (result, g'') = after_reset cleared g' in (result, (reset_tasks r, g''))
