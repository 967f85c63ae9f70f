-- ===== src/Arena/Runner/Calls.antt =====
-- internal/arena/scenario/runner.py: a plan as a sequence of calls of the gateway.
use mini_redis_test_app.Prelude.{ℕ, ◌+◌, ◌≡◌, ◌⊎◌, inl, inr, refl, false, none, List, [], ◌∷◌, ◌++◌}
use mini_redis_test_app.Arena.Gateway.{
  ArenaLaneExecutor, Gateway, reset_state, seed_state, set_memory_profile,
}
use mini_redis_test_app.Arena.Gateway.Execute.{
  execute_manual_command, execute_scenario_command, healthcheck, set_ttl_profile,
}
use mini_redis_test_app.Arena.Gateway.Locked.{
  Call, manual_call, scenario_call, publish_call, reset_call, health_call, seed_call, memory_call,
  ttl_call, call,
}
use mini_redis_test_app.Arena.Runner.{
  ScenarioRunInput, run_actions, seed_plan, after_actions, after_seed, plan_for, run_plan,
  scenario_input, scenario_label, cold_seed,
}
use mini_redis_test_app.Arena.Scenario.{ScenarioAction, ScenarioPlan}
use mini_redis_test_app.Dict.{Dict}
use mini_redis_test_app.Platform.{Platform}
use mini_redis_test_app.Result.{Result, Error, Result-either, ok, raise}
use mini_redis_test_app.Text.{Text, codes}

module _ ⦃P : Platform⦄ (A : ArenaLaneExecutor) (B : ArenaLaneExecutor) (literal : Text → P.Float)
    (rounded_gap : P.Float → P.Float → P.Float) where
  -- What the calls of a scenario return or raise.
  abbrev pub forget : {X : Type 0} → Result X → Result (Unit {0})
  forget (ok _) = ok tt
  forget (raise e) = raise e

  abbrev pub outcome : Call A B literal rounded_gap → Gateway A B → Result (Unit {0})
  outcome (manual_call i input) g =
      forget (execute_manual_command A B literal rounded_gap i input g).0
  outcome (scenario_call i input) g =
      forget (execute_scenario_command A B literal rounded_gap i input g).0
  outcome (publish_call _ _) g = ok tt
  outcome reset_call g = forget (reset_state A B g).0
  outcome health_call g = forget (healthcheck A B literal rounded_gap g).0
  outcome (seed_call input) g = forget (seed_state A B input g).0
  outcome (memory_call profile_key) g = forget (set_memory_profile A B profile_key g).0
  outcome (ttl_call profile_key) g =
      forget (set_ttl_profile A B literal rounded_gap profile_key g).0

  -- The calls one after another, until one raises, whose exception is the result.
  abbrev pub IsRun :
      List (Call A B literal rounded_gap) → Gateway A B → Result (Unit {0}) × Gateway A B → Type 0
  IsRun [] g (r, g') = (r ≡ ok tt) × (g' ≡ g)
  IsRun (c ∷ cs) g (r, g') =
      ((e : Error) × (outcome c g ≡ raise e)
        × (r ≡ raise e)
        × (g' ≡ call A B literal rounded_gap c g))
      ⊎ ((outcome c g ≡ ok tt) × IsRun cs (call A B literal rounded_gap c g) (r, g'))

  -- The command of each action, the n-th with the n-th identifier.
  abbrev pub command_calls :
      (ℕ → Text) → ScenarioRunInput → ℕ → List ScenarioAction → List (Call A B literal rounded_gap)
  command_calls ids input n [] = []
  command_calls ids input n (action ∷ actions) =
      scenario_call (ids n) (record {
        command = action.command;
        key = action.key;
        field = none;
        value = action.value;
        ttl_enabled = input.ttl_enabled;
        ttl_seconds = input.ttl_seconds;
      })
      ∷ command_calls ids input (n + 1) actions

  -- A cold seed of the documents, if there are any.
  abbrev pub seed_calls : Dict Text → List (Call A B literal rounded_gap)
  seed_calls [] = []
  seed_calls (document ∷ documents) =
      seed_call (record {
        documents = document ∷ documents;
        warm_cache = false;
        ttl_enabled = false;
        ttl_seconds = none;
      })
      ∷ []

  -- The seed, the commands and the message of the end.
  abbrev pub plan_calls :
      (ℕ → Text) → ScenarioRunInput → ScenarioPlan → List (Call A B literal rounded_gap)
  plan_calls ids input plan =
      seed_calls plan.seed_documents
      ++ command_calls ids input 0 plan.actions
      ++ publish_call (codes "scenario_finished")
          (codes "Scenario finished: " ++ scenario_label input)
        ∷ []

  run_actions-IsRun :
      (ids : ℕ → Text) (input : ScenarioRunInput) (n : ℕ) (actions : List ScenarioAction)
      (g : Gateway A B)
      → let (r, g') = run_actions A B literal rounded_gap ids input n actions g in
        IsRun
          (command_calls ids input n actions
            ++ publish_call
                (codes "scenario_finished")
                (codes "Scenario finished: " ++ scenario_label input)
              ∷ [])
          g
          (after_actions A B literal rounded_gap input r g')
  unfolding run_actions call
  run_actions-IsRun ids input n [] g = inr (refl, (refl, refl))
  run_actions-IsRun ids input n (action ∷ actions) g =
      let (r, g') =
        execute_scenario_command A B literal rounded_gap (ids n) (scenario_input input action) g in
      elim (Result-either r) [
        | inl (done, h) ↦
            rw (run_actions, h) (inr (refl, run_actions-IsRun ids input (n + 1) actions g'))
        | inr (e, h) ↦ rw (run_actions, h) (inl (e, refl, refl, refl))
      ]

  after_seed-IsRun :
      (ids : ℕ → Text) (input : ScenarioRunInput) (plan : ScenarioPlan) (documents : Dict Text)
      (g : Gateway A B)
      → let (r, g') = seed_plan A B literal rounded_gap documents g in
        IsRun
          (seed_calls documents
            ++ command_calls ids input 0 plan.actions
            ++ publish_call
                (codes "scenario_finished")
                (codes "Scenario finished: " ++ scenario_label input)
              ∷ [])
          g
          (after_seed A B literal rounded_gap ids input plan.actions r g')
  unfolding call
  after_seed-IsRun ids input plan [] g = run_actions-IsRun ids input 0 plan.actions g
  after_seed-IsRun ids input plan (document ∷ documents) g =
      let (r, g') = seed_state A B (cold_seed (document ∷ documents)) g in
      elim (Result-either r) [
        | inl (done, h) ↦ rw h (inr (refl, run_actions-IsRun ids input 0 plan.actions g'))
        | inr (e, h) ↦ rw h (inl (e, refl, refl, refl))
      ]

  -- For all lanes, also such as raise, and every scenario: if its plan cannot be built, the run
  -- raises that exception and leaves the gateway as it was. Else it calls the gateway to seed the
  -- documents of the plan cold, if there are any, to execute the command of each action in order,
  -- under its identifier and with the TTL of the scenario, and to publish that the scenario has
  -- finished. It returns if every call does, and at the first that raises it stops and raises the
  -- same.
  pub run_plan-IsRun :
      (delay : P.Float) (ids : ℕ → Text) (input : ScenarioRunInput) (g : Gateway A B)
      → ((e : Error) × (plan_for delay input.scenario_id input ≡ raise e)
          × (run_plan A B literal rounded_gap delay ids input g ≡ (raise e, g)))
        ⊎ ((plan : ScenarioPlan) × (plan_for delay input.scenario_id input ≡ ok plan)
            × IsRun
                (plan_calls ids input plan)
                g
                (run_plan A B literal rounded_gap delay ids input g))
  unfolding run_plan
  run_plan-IsRun delay ids input g = elim (Result-either (plan_for delay input.scenario_id input)) [
    | inl (plan, h) ↦
        inr (plan, h, rw (run_plan, h) (after_seed-IsRun ids input plan plan.seed_documents g))
    | inr (e, h) ↦ inl (e, h, rw (run_plan, h) refl)
  ]
