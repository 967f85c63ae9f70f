-- ===== src/Arena/Scenario/Plans.antt =====
-- internal/arena/scenario/workloads.py: the plans.
use mini_redis_test_app.Prelude.{
  ℕ, zero, suc, ◌+◌, ◌*◌, ◌%◌, ◌<◌, ltb, ◌≡◌, ◌∙◌, ◌⊎◌, inl, inr, refl, Bool, true, false, none,
  some, List, [], ◌∷◌, length, get_elem?, take, drop, arith, leb, ◌||◌, ap, ◌++◌, All-weaken, ◌==◌,
  if◌then◌else◌, All, Bool-cases,
}
use mini_redis_test_app.Arena.Models.{CommandName, get_command, set_command, del_command}
use mini_redis_test_app.Arena.Scenario.{
  hotset_size, value_for_index, pad_three, is_hot, is_read_level, pick, range_from, ScenarioAction,
  ScenarioPlan, collect, read_action, build_read_plan, build_mixed_plan, mixed_action,
  total_actions, build_catalog_documents,
}
use mini_redis_test_app.Dict.{keys, contains}
use mini_redis_test_app.Platform.{Platform}
use mini_redis_test_app.Result.{Result, ok}
use mini_redis_test_app.Text.{Text, codes, text_eq_refl}

get_elem?-All {ℓ κ} :
    {A : Type ℓ} (Q : A → Type κ) (xs : List A) (i : ℕ)
    → All Q xs
    → i < length xs
    → (x : A) × (get_elem? xs i ≡ some x) × Q x
get_elem?-All Q [] i hs h = absurd (omega arith)
get_elem?-All Q (x ∷ xs) zero hs h = (x, refl, hs.0)
get_elem?-All Q (x ∷ xs) (suc i) hs h = get_elem?-All Q xs i hs.1 (omega arith)

-- A pool that is not empty has a key for every index.
pick-All {κ} :
    (Q : Text → Type κ) (pool : List Text) (index : ℕ)
    → All Q pool
    → 0 < length pool
    → (key : Text) × (pick pool index ≡ ok key) × Q key
unfolding pick
pick-All Q pool index hs h =
    let (key, found, q) = get_elem?-All Q pool (index % length pool) hs (omega arith) in
    (key, rw (pick, found) refl, q)

All-take {ℓ κ} : {A : Type ℓ} (Q : A → Type κ) (n : ℕ) (xs : List A) → All Q xs → All Q (take n xs)
All-take Q zero xs h = tt
All-take Q (suc n) [] h = tt
All-take Q (suc n) (x ∷ xs) h = (h.0, All-take Q n xs h.1)

All-drop {ℓ κ} : {A : Type ℓ} (Q : A → Type κ) (n : ℕ) (xs : List A) → All Q xs → All Q (drop n xs)
All-drop Q zero xs h = h
All-drop Q (suc n) [] h = tt
All-drop Q (suc n) (x ∷ xs) h = All-drop Q n xs h.1

ltb_zero : (n : ℕ) → ltb n 1 ≡ true → n ≡ 0
ltb_zero n h = ground arith

ltb_positive : (n : ℕ) → ltb n 1 ≡ false → 0 < n
ltb_positive n h = ground arith

phase_reads : (p : ℕ) → leb p 5 ≡ true → p < 6
phase_reads p h = ground arith

phase_old : (p : ℕ) → (p == 6) ≡ true → p ≡ 6
phase_old p h = ground arith

phase_new : (p : ℕ) → (p == 6 || p == 7) ≡ true → (p == 6) ≡ false → p ≡ 7
phase_new p h k = ground arith

phase_deletes : (p : ℕ) → leb p 5 ≡ false → (p == 6 || p == 7) ≡ false → 7 < p
phase_deletes p h k = ground arith

abbrev catalog_keys : List Text
catalog_keys = keys build_catalog_documents

abbrev IsCatalog : Text → Type 0
IsCatalog key = contains catalog_keys key ≡ true

All-contains : (ks : List Text) → All (λ key. contains ks key ≡ true) ks
unfolding contains
All-contains [] = tt
All-contains (k ∷ ks) =
    (rw (text_eq_refl k) refl, All-weaken (λ key h. ground arith) ks (All-contains ks))

-- The two pools: all their keys are in the catalog, and neither is empty.
abbrev IsPool : List Text → Type 0
IsPool pool = All IsCatalog pool × (0 < length pool)

hot-IsPool : IsPool (take hotset_size catalog_keys)
unfolding build_catalog_documents keys
hot-IsPool = (All-take IsCatalog hotset_size catalog_keys (All-contains catalog_keys), omega arith)

cold-IsPool : IsPool (drop hotset_size catalog_keys)
unfolding build_catalog_documents keys
cold-IsPool = (All-drop IsCatalog hotset_size catalog_keys (All-contains catalog_keys), omega arith)

either-IsPool :
    (b : Bool) (xs ys : List Text) → IsPool xs → IsPool ys → IsPool (if b then xs else ys)
either-IsPool true xs ys hx hy = hx
either-IsPool false xs ys hx hy = hy

module _ ⦃P : Platform⦄ where
  -- The actions from an index on.
  abbrev pub AllFrom : (ℕ → ScenarioAction → Type 0) → ℕ → List ScenarioAction → Type 0
  AllFrom Q index [] = Unit
  AllFrom Q index (a ∷ actions) = Q index a × AllFrom Q (index + 1) actions

  abbrev Collected : (ℕ → ScenarioAction → Type 0) → (ℕ → Result ScenarioAction) → ℕ → ℕ → Type 0
  Collected Q action start count =
      (actions : List ScenarioAction) × (collect action (range_from start count) ≡ ok actions)
      × (length actions ≡ count)
      × AllFrom Q start actions

  collect-AllFrom :
      (Q : ℕ → ScenarioAction → Type 0) (action : ℕ → Result ScenarioAction) (start count : ℕ)
      → ((index : ℕ) → (a : ScenarioAction) × (action index ≡ ok a) × Q index a)
      → Collected Q action start count
  unfolding collect
  collect-AllFrom Q action start zero each = ([], refl, refl, tt)
  collect-AllFrom Q action start (suc count) each =
      let (a, done, q) = each start in
      let (rest, done', size, qs) = collect-AllFrom Q action (start + 1) count each in
      (a ∷ rest, rw (collect, done, done') refl, ap suc size, (q, qs))

  -- The action reads a key of the catalog.
  abbrev pub IsRead : ℕ → ScenarioAction → Type 0
  IsRead index a = (a.command ≡ get_command) × (a.value ≡ none) × IsCatalog a.key

  -- Of ten actions in turn six read, one writes a key of the catalog, one writes some key, and two
  -- delete.
  abbrev pub IsMixed : ℕ → ScenarioAction → Type 0
  IsMixed index a =
      ((index % 10 < 6) × (a.command ≡ get_command) × IsCatalog a.key × (a.value ≡ none))
      ⊎ (((index % 10 ≡ 6)
            × (a.command ≡ set_command)
            × IsCatalog a.key
            × ((v : Text) × (a.value ≡ some v)))
          ⊎ (((index % 10 ≡ 7) × (a.command ≡ set_command) × ((v : Text) × (a.value ≡ some v)))
              ⊎ ((7 < index % 10)
                  × (a.command ≡ del_command)
                  × IsCatalog a.key
                  × (a.value ≡ none))))

  -- As many as users times seconds, but one at least.
  abbrev pub IsTotal : ℕ → ℕ → ℕ → Type 0
  IsTotal users duration_seconds n =
      ((0 < users * duration_seconds) × (n ≡ users * duration_seconds))
      ⊎ ((users * duration_seconds ≡ 0) × (n ≡ 1))

  -- The plan is built, of actions for as many indices.
  abbrev pub IsPlan : (ℕ → ScenarioAction → Type 0) → ℕ → ℕ → Result ScenarioPlan → Type 0
  IsPlan Q users duration_seconds result =
      (plan : ScenarioPlan) × (result ≡ ok plan)
      × IsTotal users duration_seconds (length plan.actions)
      × AllFrom Q 0 plan.actions
      × (keys plan.seed_documents ≡ catalog_keys)

  total_actions-IsTotal :
      (users duration_seconds n : ℕ)
      → n ≡ total_actions users duration_seconds
      → IsTotal users duration_seconds n
  unfolding total_actions
  total_actions-IsTotal users duration_seconds n h =
      elim (Bool-cases (ltb (users * duration_seconds) 1)) [
        | inl less ↦ inr (ltb_zero _ less, h ∙ rw (total_actions, less) refl)
        | inr more ↦ inl (ltb_positive _ more, h ∙ rw (total_actions, more) refl)
      ]

  module _ (delay : P.Float) where
    -- An action without a value.
    abbrev plain : CommandName → Text → ScenarioAction
    plain command key = record { command = command; key = key; value = none; delay_seconds = delay }

    abbrev writing : Text → ℕ → ScenarioAction
    writing key index = record {
      command = set_command;
      key = key;
      value = some (value_for_index index "mixed");
      delay_seconds = delay;
    }

    read_action-IsRead :
        (hot_keys cold_keys : List Text) (h index : ℕ)
        → IsPool hot_keys
        → IsPool cold_keys
        → (a : ScenarioAction) × (read_action delay hot_keys cold_keys h index ≡ ok a)
          × IsRead index a
    unfolding read_action
    read_action-IsRead hot_keys cold_keys h index hot cold =
        let (in_catalog, some_key) = either-IsPool (is_hot h index) hot_keys cold_keys hot cold in
        let (key, picked, q) =
          pick-All IsCatalog (if is_hot h index then hot_keys else cold_keys) index in_catalog
            some_key in
        (plain get_command key, rw (read_action, picked) refl, (refl, refl, q))

    -- For all users, durations and supported percentages the read plan is built: it has as many
    -- actions as users times seconds, or one if that is 0, all of them GET without a value of a
    -- key of the catalog, which the plan seeds.
    pub build_read_plan-IsPlan :
        (users duration_seconds hot_percent : ℕ)
        → is_read_level hot_percent ≡ true
        → IsPlan IsRead users duration_seconds
            (build_read_plan delay users duration_seconds hot_percent)
    unfolding build_read_plan
    build_read_plan-IsPlan users duration_seconds hot_percent level =
        let total = total_actions users duration_seconds in
        let action =
          read_action delay (take hotset_size catalog_keys) (drop hotset_size catalog_keys)
            hot_percent in
        let (actions, done, size, reads) =
          collect-AllFrom IsRead action 0 total
            (λ index. read_action-IsRead _ _ hot_percent index hot-IsPool cold-IsPool) in
        (
          record { actions = actions; seed_documents = build_catalog_documents },
          rw (build_read_plan, level, done) refl,
          total_actions-IsTotal users duration_seconds _ size,
          reads,
          refl,
        )

    mixed_action-IsMixed :
        (hot_keys cold_keys : List Text) (index : ℕ)
        → IsPool hot_keys
        → IsPool cold_keys
        → (a : ScenarioAction) × (mixed_action delay hot_keys cold_keys index ≡ ok a)
          × IsMixed index a
    unfolding mixed_action
    mixed_action-IsMixed hot_keys cold_keys index hot cold =
        let phase = index % 10 in
        elim (Bool-cases (leb phase 5)) [
          | inl reads ↦
              let (in_catalog, some_key) =
                either-IsPool (leb phase 3) hot_keys cold_keys hot cold in
              let (key, picked, q) =
                pick-All IsCatalog (if leb phase 3 then hot_keys else cold_keys) index in_catalog
                  some_key in
              (
                plain get_command key,
                rw (mixed_action, reads, picked) refl,
                inl (phase_reads phase reads, refl, q, refl),
              )
          | inr more ↦ elim (Bool-cases (phase == 6 || phase == 7)) [
            | inr deletes ↦
                let (in_catalog, some_key) =
                  either-IsPool (phase == 8) cold_keys hot_keys cold hot in
                let (key, picked, q) =
                  pick-All IsCatalog (if phase == 8 then cold_keys else hot_keys) index in_catalog
                    some_key in
                (
                  plain del_command key,
                  rw (mixed_action, more, deletes, picked) refl,
                  inr (inr (inr (phase_deletes phase more deletes, refl, q, refl))),
                )
            | inl writes ↦ elim (Bool-cases (phase == 6)) [
              | inl old ↦
                  let (key, picked, q) = pick-All IsCatalog hot_keys index hot.0 hot.1 in
                  (
                    writing key index,
                    rw (mixed_action, more, writes, old, picked) refl,
                    inr (inl (phase_old phase old, refl, q, (_, refl))),
                  )
              | inr new ↦ (
                writing (codes "s:m:w:" ++ pad_three index) index,
                rw (mixed_action, more, writes, new) refl,
                inr (inr (inl (phase_new phase writes new, refl, (_, refl)))),
              )
            ]
          ]
        ]

    -- For all users and durations the mixed plan is built: it has as many actions as users times
    -- seconds, or one if that is 0. Of every ten actions, counted from 0, those up to the fifth
    -- are GET of a key of the catalog, the sixth is SET of such a key with a value, the seventh
    -- SET of some key with a value, and the others DEL of a key of the catalog, which the plan
    -- seeds.
    pub build_mixed_plan-IsPlan :
        (users duration_seconds : ℕ)
        → IsPlan IsMixed users duration_seconds (build_mixed_plan delay users duration_seconds)
    unfolding build_mixed_plan
    build_mixed_plan-IsPlan users duration_seconds =
        let total = total_actions users duration_seconds in
        let action =
          mixed_action delay (take hotset_size catalog_keys) (drop hotset_size catalog_keys) in
        let (actions, done, size, mixed) =
          collect-AllFrom IsMixed action 0 total
            (λ index. mixed_action-IsMixed _ _ index hot-IsPool cold-IsPool) in
        (
          record { actions = actions; seed_documents = build_catalog_documents },
          rw (build_mixed_plan, done) refl,
          total_actions-IsTotal users duration_seconds _ size,
          mixed,
          refl,
        )
