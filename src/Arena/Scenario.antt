-- ===== src/Arena/Scenario.antt =====
-- internal/arena/scenario: models.py and workloads.py.
pub mod Plans
pub mod Hot
use mini_redis_test_app.Prelude.{
  ℕ, zero, suc, ◌+◌, ◌*◌, ◌%◌, Bool, true, false, ◌||◌, Option, none, some, List, [], ◌∷◌, ◌++◌,
  String, map, length, get_elem?, take, drop, ltb, leb, ◌==◌, if◌then◌else◌,
}
use mini_redis_test_app.Arena.Models.{CommandName, set_command, get_command, del_command}
use mini_redis_test_app.Dict.{Dict, keys}
use mini_redis_test_app.Platform.{Platform}
use mini_redis_test_app.Result.{Result, ok, raise, value_error, index_error, ◌>>=◌}
use mini_redis_test_app.Text.{Text, codes}
use mini_redis_test_app.Text.Decimal.{print_nat}

-- `f"{n:0{width}d}"` for the widths two and three.
unfoldable pub pad_two : ℕ → Text
unfolding print_nat
pad_two n = if ltb n 10 then b'0' ∷ print_nat n else print_nat n

unfoldable pub pad_three : ℕ → Text
unfolding pad_two
pad_three n = if ltb n 100 then b'0' ∷ pad_two n else print_nat n

-- `_value_for_index`
unfoldable pub value_for_index : ℕ → String → Text
unfolding pad_two pad_three print_nat
value_for_index index tag =
    codes "{\"tag\":\""
    ++ codes tag
    ++ codes "\",\"id\":"
    ++ print_nat index
    ++ codes ",\"title\":\"arena-"
    ++ codes tag
    ++ b'-' ∷ pad_three index
    ++ codes "\",\"body\":\"payload-"
    ++ pad_two (index % 7 + 1)
    ++ codes "-abcdefghij\"}"

abbrev pub catalog_size : ℕ
catalog_size = 24

abbrev pub hotset_size : ℕ
hotset_size = 4

-- `range(start, start + count)`
abbrev pub range_from : ℕ → ℕ → List ℕ
range_from start zero = []
range_from start (suc count) = start ∷ range_from (start + 1) count

-- The keys are distinct, so the comprehension only appends.
abbrev catalog_entry : ℕ → Text × Text
catalog_entry index = (codes "s:r:" ++ pad_three index, value_for_index index "read")

unfoldable pub build_catalog_documents : Dict Text
build_catalog_documents = map catalog_entry (range_from 0 catalog_size)

-- `users` and `duration_seconds` are natural numbers: the API wants at least one.
unfoldable pub total_actions : ℕ → ℕ → ℕ
total_actions users duration_seconds =
    if ltb (users * duration_seconds) 1 then 1 else users * duration_seconds

-- `pool[index % len(pool)]`
unfoldable pub pick : List Text → ℕ → Result Text
pick pool index = elim (get_elem? pool (index % length pool)) [
  | none ↦ raise index_error
  | some key ↦ ok key
]

unfoldable pub is_hot : ℕ → ℕ → Bool
is_hot hot_percent index = ltb ((index * 37) % 100) hot_percent

unfoldable pub is_read_level : ℕ → Bool
is_read_level n = n == 0 || n == 20 || n == 40 || n == 60 || n == 80 || n == 100

module _ ⦃P : Platform⦄ where
  pub record ScenarioAction : Type 0 where
    pub command : CommandName
    pub key : Text
    pub value : Option Text
    pub delay_seconds : P.Float

  pub record ScenarioPlan : Type 0 where
    pub actions : List ScenarioAction
    pub seed_documents : Dict Text

  -- `for index in range(total): actions.append(…)`
  unfoldable pub collect : (ℕ → Result ScenarioAction) → List ℕ → Result (List ScenarioAction)
  collect action [] = ok []
  collect action (index ∷ indices) = do
    first ← action index
    rest ← collect action indices
    ok (first ∷ rest)

  -- `delay` stands for `ACTION_DELAY_SECONDS`, which is 0.05.
  module _ (delay : P.Float) where
    unfoldable pub read_action : List Text → List Text → ℕ → ℕ → Result ScenarioAction
    unfolding is_hot pick
    read_action hot_keys cold_keys hot_percent index = do
      key ← pick (if is_hot hot_percent index then hot_keys else cold_keys) index
      ok (record { command = get_command; key = key; value = none; delay_seconds = delay })

    unfoldable pub build_read_plan : ℕ → ℕ → ℕ → Result ScenarioPlan
    unfolding is_read_level build_catalog_documents total_actions collect read_action
    build_read_plan users duration_seconds hot_percent =
        let documents = build_catalog_documents in
        let listed = keys documents in
        if is_read_level hot_percent
        then (do
          actions ←
              collect (read_action (take hotset_size listed) (drop hotset_size listed) hot_percent)
                (range_from 0 (total_actions users duration_seconds))
          ok (record { actions = actions; seed_documents = documents }))
        else raise value_error

    unfoldable pub write_action : ℕ → Result ScenarioAction
    unfolding value_for_index pad_three
    write_action index = ok (record {
      command = set_command;
      key = codes "s:w:" ++ pad_three index;
      value = some (value_for_index index "write");
      delay_seconds = delay;
    })

    unfoldable pub build_write_plan : ℕ → ℕ → Result ScenarioPlan
    unfolding total_actions collect write_action
    build_write_plan users duration_seconds = do
      actions ← collect write_action (range_from 0 (total_actions users duration_seconds))
      ok (record { actions = actions; seed_documents = [] })

    -- The action of `index`, whose phase is `index % 10`.
    unfoldable pub mixed_action : List Text → List Text → ℕ → Result ScenarioAction
    unfolding pick value_for_index pad_three
    mixed_action hot_keys cold_keys index =
        let phase = index % 10 in
        if leb phase 5
        then (do
          key ← pick (if leb phase 3 then hot_keys else cold_keys) index
          ok (record { command = get_command; key = key; value = none; delay_seconds = delay }))
        else (if phase == 6 || phase == 7
            then (do
              key ←
                  if phase == 6 then pick hot_keys index else ok (codes "s:m:w:" ++ pad_three index)
              ok (record {
                command = set_command;
                key = key;
                value = some (value_for_index index "mixed");
                delay_seconds = delay;
              }))
            else (do
              key ← pick (if phase == 8 then cold_keys else hot_keys) index
              ok (record {
                command = del_command;
                key = key;
                value = none;
                delay_seconds = delay;
              })))

    unfoldable pub build_mixed_plan : ℕ → ℕ → Result ScenarioPlan
    unfolding build_catalog_documents total_actions collect mixed_action
    build_mixed_plan users duration_seconds =
        let documents = build_catalog_documents in
        let listed = keys documents in
        (do
          actions ←
              collect (mixed_action (take hotset_size listed) (drop hotset_size listed))
                (range_from 0 (total_actions users duration_seconds))
          ok (record { actions = actions; seed_documents = documents }))
