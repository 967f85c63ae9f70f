-- ===== src/Arena/Gateway/Locked.antt =====
-- internal/arena/gateway/service.py: the life of a gateway as a sequence of calls.
use mini_redis_test_app.Prelude.{
  ◌≡◌, inl, inr, refl, Bool, true, false, Option, none, some, List, [], ◌∷◌, All, arith, Bool-cases,
  Option-cases,
}
use mini_redis_test_app.Arena.Gateway.{
  ArenaLaneExecutor, Gateway, both, status_of, publish_message, lock_memory_profile,
  set_memory_profile, reset_state, seed_state,
}
use mini_redis_test_app.Arena.Gateway.Execute.{
  execute_request, execute_built, execute_manual_command, execute_scenario_command, set_ttl_profile,
  selected_ttl_seconds, healthcheck,
}
use mini_redis_test_app.Arena.Models.{ManualCommandInput, ArenaRequest, SeedStateInput}
use mini_redis_test_app.Arena.Profiles.{memory_profiles, ttl_profiles}
use mini_redis_test_app.Dict
use mini_redis_test_app.Dict.{contains, keys, contains-keys}
use mini_redis_test_app.Platform.{Platform}
use mini_redis_test_app.Result.{Result, Result-either, ok, raise, runtime_error}
use mini_redis_test_app.Text.{Text}

module _ ⦃P : Platform⦄ (A : ArenaLaneExecutor) (B : ArenaLaneExecutor) (literal : Text → P.Float)
    (rounded_gap : P.Float → P.Float → P.Float) where
  -- The calls of the gateway's methods; the first text of a command is the new identifier.
  pub data Call : Type 0 where
    manual_call scenario_call : Text → ManualCommandInput → Call
    publish_call : Text → Text → Call
    reset_call health_call : Call
    seed_call : SeedStateInput → Call
    memory_call : Text → Call
    ttl_call : Option Text → Call

  unfoldable pub call : Call → Gateway A B → Gateway A B
  unfolding execute_manual_command execute_scenario_command publish_message reset_state healthcheck
      seed_state set_memory_profile set_ttl_profile
  call (manual_call request_id input) g =
      (execute_manual_command A B literal rounded_gap request_id input g).1
  call (scenario_call request_id input) g =
      (execute_scenario_command A B literal rounded_gap request_id input g).1
  call (publish_call event_type message) g = publish_message A B event_type message g
  call reset_call g = (reset_state A B g).1
  call health_call g = (healthcheck A B literal rounded_gap g).1
  call (seed_call input) g = (seed_state A B input g).1
  call (memory_call profile_key) g = (set_memory_profile A B profile_key g).1
  call (ttl_call profile_key) g = (set_ttl_profile A B literal rounded_gap profile_key g).1

  unfoldable pub calls : List Call → Gateway A B → Gateway A B
  unfolding call
  calls [] g = g
  calls (c ∷ cs) g = calls cs (call c g)

  -- The calls that cannot unlock the profile.
  abbrev pub is_reset : Call → Bool
  is_reset reset_call = true
  is_reset _ = false

  abbrev IsLocked : Text → Gateway A B → Type 0
  IsLocked profile g = (g.memory_locked ≡ true) × (g.selected_memory_profile ≡ profile)

  execute_request-IsLocked :
      (request : ArenaRequest) (event_type profile : Text) (g : Gateway A B)
      → IsLocked profile g
      → IsLocked profile (execute_request A B literal rounded_gap request event_type g).1
  unfolding execute_request
  execute_request-IsLocked request event_type profile g locked =
      elim (Result-either
        (both A B (A.execute request g.redis_lane).0 (B.execute request g.db_only_lane).0)) [
          | inl (results, h) ↦ rw (execute_request, h) locked
          | inr (e, h) ↦ rw (execute_request, h) locked
        ]

  execute_built-IsLocked :
      (built : Result ArenaRequest) (event_type profile : Text) (g : Gateway A B)
      → IsLocked profile g
      → IsLocked profile (execute_built A B literal rounded_gap built event_type g).1
  execute_built-IsLocked (ok request) event_type profile g locked =
      execute_request-IsLocked request event_type profile g locked
  execute_built-IsLocked (raise e) event_type profile g locked = locked

  seed_state-IsLocked :
      (input : SeedStateInput) (profile : Text) (g : Gateway A B)
      → IsLocked profile g
      → IsLocked profile (seed_state A B input g).1
  unfolding seed_state
  seed_state-IsLocked input profile g locked =
      elim (Result-either
        (both A B (A.seed input g.redis_lane).0 (B.seed input g.db_only_lane).0)) [
          | inl (results, h) ↦ rw (seed_state, h) locked
          | inr (e, h) ↦ rw (seed_state, h) locked
        ]

  set_memory_profile-IsLocked :
      (profile_key profile : Text) (g : Gateway A B)
      → IsLocked profile g
      → IsLocked profile (set_memory_profile A B profile_key g).1
  unfolding set_memory_profile
  set_memory_profile-IsLocked profile_key profile g locked =
      elim (Bool-cases (contains (keys memory_profiles) profile_key)) [
        | inl known ↦ rw (set_memory_profile, known, locked.0) (refl, locked.1)
        | inr unknown ↦ rw (set_memory_profile, unknown) locked
      ]

  refused :
      (profile_key : Text) (g : Gateway A B)
      → contains (keys memory_profiles) profile_key ≡ true
      → g.memory_locked ≡ true
      → set_memory_profile A B profile_key g ≡ (raise runtime_error, g)
  unfolding set_memory_profile
  refused profile_key g known locked = simp (set_memory_profile, known, locked)

  set_ttl_profile-IsLocked :
      (profile_key : Option Text) (profile : Text) (g : Gateway A B)
      → IsLocked profile g
      → IsLocked profile (set_ttl_profile A B literal rounded_gap profile_key g).1
  unfolding set_ttl_profile
  set_ttl_profile-IsLocked none profile g locked = locked
  set_ttl_profile-IsLocked (some profile_key) profile g locked =
      elim (Option-cases (Dict.get (ttl_profiles literal) profile_key)) [
        | inl unknown ↦ rw (set_ttl_profile, unknown) locked
        | inr (ttl, known) ↦ rw (set_ttl_profile, known) locked
      ]

  healthcheck-IsLocked :
      (profile : Text) (g : Gateway A B)
      → IsLocked profile g
      → IsLocked profile (healthcheck A B literal rounded_gap g).1
  unfolding healthcheck
  healthcheck-IsLocked profile g locked =
      let g' = record g {
        redis_lane = (status_of A B A.health g.redis_lane).1;
        db_only_lane = (status_of A B B.health g.db_only_lane).1;
      } in
      elim (Result-either (selected_ttl_seconds A B literal rounded_gap g')) [
        | inl (seconds, h) ↦ rw (healthcheck, h) locked
        | inr (e, h) ↦ rw (healthcheck, h) locked
      ]

  call-IsLocked :
      (c : Call) (profile : Text) (g : Gateway A B)
      → is_reset c ≡ false
      → IsLocked profile g
      → IsLocked profile (call c g)
  unfolding call
  call-IsLocked (manual_call request_id input) profile g h locked =
      execute_built-IsLocked _ _ profile (lock_memory_profile A B g) (refl, locked.1)
  call-IsLocked (scenario_call request_id input) profile g h locked =
      execute_built-IsLocked _ _ profile (lock_memory_profile A B g) (refl, locked.1)
  call-IsLocked (publish_call event_type message) profile g h locked = locked
  call-IsLocked reset_call profile g h locked = absurd (ground arith)
  call-IsLocked health_call profile g h locked = healthcheck-IsLocked profile g locked
  call-IsLocked (seed_call input) profile g h locked = seed_state-IsLocked input profile g locked
  call-IsLocked (memory_call profile_key) profile g h locked =
      set_memory_profile-IsLocked profile_key profile g locked
  call-IsLocked (ttl_call profile_key) profile g h locked =
      set_ttl_profile-IsLocked profile_key profile g locked

  calls-IsLocked :
      (cs : List Call) (profile : Text) (g : Gateway A B)
      → All (λ c. is_reset c ≡ false) cs
      → IsLocked profile g
      → IsLocked profile (calls cs g)
  unfolding calls
  calls-IsLocked [] profile g h locked = locked
  calls-IsLocked (c ∷ cs) profile g h locked =
      calls-IsLocked cs profile (call c g) h.1 (call-IsLocked c profile g h.0 locked)

  -- Behind a manual command the memory profile stays as it was, whatever is called before the next
  -- reset, and an attempt to select a known profile then raises RuntimeError and changes nothing.
  pub command-IsLocked :
      (request_id : Text) (input : ManualCommandInput) (cs : List Call) (profile_key : Text)
      (g : Gateway A B)
      → All (λ c. is_reset c ≡ false) cs
      → contains (keys memory_profiles) profile_key ≡ true
      → let g' = calls (manual_call request_id input ∷ cs) g in
        (g'.selected_memory_profile ≡ g.selected_memory_profile)
        × (set_memory_profile A B profile_key g' ≡ (raise runtime_error, g'))
  unfolding calls call
  command-IsLocked request_id input cs profile_key g h known =
      let g1 = call (manual_call request_id input) g in
      let locked : IsLocked g.selected_memory_profile g1 =
        execute_built-IsLocked _ _ g.selected_memory_profile (lock_memory_profile A B g)
          (refl, refl) in
      let (still, same) = calls-IsLocked cs g.selected_memory_profile g1 h locked in
      (same, refused profile_key (calls cs g1) known still)
