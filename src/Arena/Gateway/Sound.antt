-- ===== src/Arena/Gateway/Sound.antt =====
-- internal/arena/gateway/service.py: what holds of a gateway after any calls.
use mini_redis_test_app.Prelude.{
  ℕ, suc, ◌≤◌, ◌≡◌, inl, inr, refl, ◌∙◌, Bool, true, false, Option, none, some, List, [], ◌∷◌,
  arith, length, Bool-cases, Option-cases, if◌then◌else◌,
}
use mini_redis_test_app.Prelude.Int.{pos}
use mini_redis_test_app.Arena.Events.{EventHistory, append, append-short, append-max_events}
use mini_redis_test_app.Arena.Gateway.{
  ArenaLaneExecutor, Gateway, EventEnvelope, both, status_of, new_gateway, publish, publish_message,
  apply_selected_memory_profile, set_memory_profile, reset_state, seed_state, lock_memory_profile,
}
use mini_redis_test_app.Arena.Gateway.Execute.{
  execute_request, execute_built, set_ttl_profile, selected_ttl_seconds, healthcheck,
}
use mini_redis_test_app.Arena.Gateway.Locked.{
  Call, manual_call, scenario_call, publish_call, reset_call, health_call, seed_call, memory_call,
  ttl_call, call, calls,
}
use mini_redis_test_app.Arena.Models.{ArenaRequest, SeedStateInput}
use mini_redis_test_app.Arena.Profiles.{
  memory_profiles, ttl_profiles, default_memory_profile, default_ttl_profile,
}
use mini_redis_test_app.Dict
use mini_redis_test_app.Dict.{contains, keys, contains-keys}
use mini_redis_test_app.Platform.{Platform}
use mini_redis_test_app.Result.{Result, Result-either, ok, raise}
use mini_redis_test_app.Text.{Text, text_eq}

module _ ⦃P : Platform⦄ (A : ArenaLaneExecutor) (B : ArenaLaneExecutor) (literal : Text → P.Float)
    (rounded_gap : P.Float → P.Float → P.Float) (n : ℕ) where
  -- No profile, or one of the dictionary.
  abbrev IsTtlChoice : Option Text → Type 0
  IsTtlChoice none = Unit
  IsTtlChoice (some profile_key) = contains (keys (ttl_profiles literal)) profile_key ≡ true

  abbrev IsShort : EventHistory EventEnvelope → Type 0
  IsShort h = (h.max_events ≡ pos (suc n)) × (length h.events ≤ suc n)

  -- The selected profiles are in the dictionaries, and the history is no longer than allowed.
  abbrev pub IsSound : Gateway A B → Type 0
  IsSound g =
      (contains (keys memory_profiles) g.selected_memory_profile ≡ true)
      × IsTtlChoice g.selected_ttl_profile
      × IsShort g.event_history

  append-IsShort :
      (envelope : EventEnvelope) (h : EventHistory EventEnvelope)
      → IsShort h
      → IsShort (append envelope h)
  append-IsShort envelope h (size, short) =
      (append-max_events envelope h ∙ size, append-short n envelope h size)

  execute_request-IsSound :
      (request : ArenaRequest) (event_type : Text) (g : Gateway A B)
      → IsSound g
      → IsSound (execute_request A B literal rounded_gap request event_type g).1
  unfolding execute_request publish
  execute_request-IsSound request event_type g (memory, ttl, short) =
      elim (Result-either
        (both A B (A.execute request g.redis_lane).0 (B.execute request g.db_only_lane).0)) [
          | inl (results, h) ↦
              rw (execute_request, h) (memory, ttl, append-IsShort _ g.event_history short)
          | inr (e, h) ↦ rw (execute_request, h) (memory, ttl, short)
        ]

  execute_built-IsSound :
      (built : Result ArenaRequest) (event_type : Text) (g : Gateway A B)
      → IsSound g
      → IsSound (execute_built A B literal rounded_gap built event_type g).1
  execute_built-IsSound (ok request) event_type g sound =
      execute_request-IsSound request event_type g sound
  execute_built-IsSound (raise e) event_type g sound = sound

  seed_state-IsSound :
      (input : SeedStateInput) (g : Gateway A B) → IsSound g → IsSound (seed_state A B input g).1
  unfolding seed_state
  seed_state-IsSound input g sound =
      elim (Result-either
        (both A B (A.seed input g.redis_lane).0 (B.seed input g.db_only_lane).0)) [
          | inl (results, h) ↦ rw (seed_state, h) sound
          | inr (e, h) ↦ rw (seed_state, h) sound
        ]

  apply-IsSound : (g : Gateway A B) → IsSound g → IsSound (apply_selected_memory_profile A B g).1
  unfolding apply_selected_memory_profile
  apply-IsSound g sound = elim (Option-cases A.configure_memory) [
    | inl absent ↦ rw (apply_selected_memory_profile, absent) sound
    | inr (method, there) ↦
        elim (Option-cases (Dict.get memory_profiles g.selected_memory_profile)) [
          | inl unknown ↦ rw (apply_selected_memory_profile, there, unknown) sound
          | inr (profile, known) ↦ rw (apply_selected_memory_profile, there, known) sound
        ]
  ]

  reset_state-IsSound : (g : Gateway A B) → IsSound g → IsSound (reset_state A B g).1
  unfolding reset_state
  reset_state-IsSound g sound =
      let g' = record g {
        redis_lane = (A.clear [] true g.redis_lane).1;
        db_only_lane = (B.clear [] true g.db_only_lane).1;
        known_keys = [];
        memory_locked = false;
      } in
      elim (Result-either
        (both A B (A.clear [] true g.redis_lane).0 (B.clear [] true g.db_only_lane).0)) [
          | inl (cleared, h) ↦ rw (reset_state, h) (apply-IsSound g' sound)
          | inr (e, h) ↦ rw (reset_state, h) sound
        ]

  either-IsSound :
      (b : Bool) (x y : Result (Option A.Report) × Gateway A B)
      → IsSound x.1
      → IsSound y.1
      → IsSound (if b then x else y).1
  either-IsSound true x y hx hy = hx
  either-IsSound false x y hx hy = hy

  set_memory_profile-IsSound :
      (profile_key : Text) (g : Gateway A B)
      → IsSound g
      → IsSound (set_memory_profile A B profile_key g).1
  unfolding set_memory_profile
  set_memory_profile-IsSound profile_key g (memory, ttl, short) =
      elim (Bool-cases (contains (keys memory_profiles) profile_key)) [
        | inl known ↦
            rw (set_memory_profile, known)
              (either-IsSound g.memory_locked _ _ (memory, ttl, short)
                (apply-IsSound (record g { selected_memory_profile = profile_key })
                  (known, ttl, short)))
        | inr unknown ↦ rw (set_memory_profile, unknown) (memory, ttl, short)
      ]

  set_ttl_profile-IsSound :
      (profile_key : Option Text) (g : Gateway A B)
      → IsSound g
      → IsSound (set_ttl_profile A B literal rounded_gap profile_key g).1
  unfolding set_ttl_profile
  set_ttl_profile-IsSound none g (memory, ttl, short) = (memory, tt, short)
  set_ttl_profile-IsSound (some profile_key) g (memory, ttl, short) =
      elim (Option-cases (Dict.get (ttl_profiles literal) profile_key)) [
        | inl unknown ↦ rw (set_ttl_profile, unknown) (memory, ttl, short)
        | inr (profile, known) ↦
            let listed : contains (keys (ttl_profiles literal)) profile_key ≡ true =
              rw (contains-keys (ttl_profiles literal) profile_key, known) refl in
            rw (set_ttl_profile, known) (memory, listed, short)
      ]

  healthcheck-IsSound :
      (g : Gateway A B) → IsSound g → IsSound (healthcheck A B literal rounded_gap g).1
  unfolding healthcheck
  healthcheck-IsSound g sound =
      let g' = record g {
        redis_lane = (status_of A B A.health g.redis_lane).1;
        db_only_lane = (status_of A B B.health g.db_only_lane).1;
      } in
      elim (Result-either (selected_ttl_seconds A B literal rounded_gap g')) [
        | inl (seconds, h) ↦ rw (healthcheck, h) sound
        | inr (e, h) ↦ rw (healthcheck, h) sound
      ]

  call-IsSound :
      (c : Call A B literal rounded_gap) (g : Gateway A B)
      → IsSound g
      → IsSound (call A B literal rounded_gap c g)
  unfolding call publish_message publish
  call-IsSound (manual_call request_id input) g sound =
      execute_built-IsSound _ _ (lock_memory_profile A B g) sound
  call-IsSound (scenario_call request_id input) g sound =
      execute_built-IsSound _ _ (lock_memory_profile A B g) sound
  call-IsSound (publish_call event_type message) g (memory, ttl, short) =
      (memory, ttl, append-IsShort _ g.event_history short)
  call-IsSound reset_call g sound = reset_state-IsSound g sound
  call-IsSound health_call g sound = healthcheck-IsSound g sound
  call-IsSound (seed_call input) g sound = seed_state-IsSound input g sound
  call-IsSound (memory_call profile_key) g sound = set_memory_profile-IsSound profile_key g sound
  call-IsSound (ttl_call profile_key) g sound = set_ttl_profile-IsSound profile_key g sound

  calls-IsSound :
      (cs : List (Call A B literal rounded_gap)) (g : Gateway A B)
      → IsSound g
      → IsSound (calls A B literal rounded_gap cs g)
  unfolding calls
  calls-IsSound [] g sound = sound
  calls-IsSound (c ∷ cs) g sound =
      calls-IsSound cs (call A B literal rounded_gap c g) (call-IsSound c g sound)

  choice-listed :
      (choice : Option Text) (profile_key : Text)
      → IsTtlChoice choice
      → choice ≡ some profile_key
      → contains (keys (ttl_profiles literal)) profile_key ≡ true
  choice-listed none profile_key h e = absurd (ground arith)
  choice-listed (some chosen) profile_key h e = ground arith

  seconds-ok :
      (g : Gateway A B)
      → IsTtlChoice g.selected_ttl_profile
      → (seconds : Option P.Float) × (selected_ttl_seconds A B literal rounded_gap g ≡ ok seconds)
  unfolding selected_ttl_seconds
  seconds-ok g choice = elim (Option-cases g.selected_ttl_profile) [
    | inl none' ↦ (none, rw (selected_ttl_seconds, none') refl)
    | inr (profile_key, chosen) ↦
        elim (Option-cases (Dict.get (ttl_profiles literal) profile_key)) [
          | inl unknown ↦
              let listed : contains (keys (ttl_profiles literal)) profile_key ≡ true =
                choice-listed g.selected_ttl_profile profile_key choice chosen in
              absurd (ground (arith, contains-keys (ttl_profiles literal) profile_key))
          | inr (profile, known) ↦
              (some profile.ttl_seconds, rw (selected_ttl_seconds, chosen, known) refl)
        ]
  ]

  abbrev pub no_events : EventHistory EventEnvelope
  no_events = record { max_events = pos (suc n); events = [] }

  default_memory_profile-listed : contains (keys memory_profiles) default_memory_profile ≡ true
  unfolding memory_profiles contains keys text_eq
  default_memory_profile-listed = refl

  default_ttl_profile-listed : contains (keys (ttl_profiles literal)) default_ttl_profile ≡ true
  unfolding ttl_profiles contains keys text_eq
  default_ttl_profile-listed = refl

  -- After any calls on a new gateway whose history keeps at least one event, the selected memory
  -- profile is known, the seconds of the selected TTL profile are found, and the history is no
  -- longer than it may be.
  pub calls-new_gateway :
      (cs : List (Call A B literal rounded_gap)) (a : A.Lane) (b : B.Lane)
      (queues : List (List EventEnvelope))
      → let g = calls A B literal rounded_gap cs (new_gateway A B a b no_events queues) in
        (contains (keys memory_profiles) g.selected_memory_profile ≡ true)
        × ((seconds : Option P.Float) × (selected_ttl_seconds A B literal rounded_gap g
              ≡ ok seconds))
        × (length g.event_history.events ≤ suc n)
  unfolding new_gateway
  calls-new_gateway cs a b queues =
      let start : IsSound (new_gateway A B a b no_events queues) =
        (default_memory_profile-listed, default_ttl_profile-listed, (refl, omega arith)) in
      let g = calls A B literal rounded_gap cs (new_gateway A B a b no_events queues) in
      let (memory, ttl, (size, short)) =
        calls-IsSound cs (new_gateway A B a b no_events queues) start in
      (memory, seconds-ok g ttl, short)
