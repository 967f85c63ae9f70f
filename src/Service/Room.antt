-- ===== src/Service/Room.antt =====
-- Writes under a memory limit: command_service.py.
use mini_redis_test_app.Prelude.{ℕ, ◌≤◌, ◌≡◌, refl, some, [], ◌∷◌}
use mini_redis_test_app.Command.{argument}
use mini_redis_test_app.Dict.{get-set_self}
use mini_redis_test_app.Platform.{Platform}
use mini_redis_test_app.Repository.{string_entry}
use mini_redis_test_app.Resp.{simple_string, resp_ok}
use mini_redis_test_app.Result.{ok}
use mini_redis_test_app.Service.{State, pure, ◌>>=◌}
use mini_redis_test_app.Service.Basic.{set_service}
use mini_redis_test_app.Service.Bound.{ensure_max_memory-fits}
use mini_redis_test_app.Service.Execute.{execute, execute_set, execute_keys}
use mini_redis_test_app.Service.Measure.{used_bytes}
use mini_redis_test_app.Service.Memory.{touch_key, mark_access, ensure_max_memory}
use mini_redis_test_app.Service.Strings.{request_of, after_set}
use mini_redis_test_app.Text.{Text, codes, text_eq}

module _ ⦃P : Platform⦄ where
  execute_set-room :
      (k v : Text) (s : State)
      → execute (request_of "SET" (k ∷ v ∷ [])) s
        ≡ (ensure_max_memory (k ∷ []) >>= λ _. pure (simple_string (codes resp_ok)))
            (after_set k v s)
  unfolding execute execute_keys execute_set text_eq argument set_service touch_key ◌>>=◌
  execute_set-room k v s = rw (get-set_self s.store k (string_entry v)) refl

  -- Under a memory limit, SET of any key and value in any state replies OK, even if the value
  -- alone is larger than the limit, and afterwards the data have at most the size allowed.
  pub execute_set-fits :
      (k v : Text) (s : State) (limit : ℕ)
      → s.max_memory_bytes ≡ some limit
      → ((execute (request_of "SET" (k ∷ v ∷ [])) s).0 ≡ ok (simple_string (codes resp_ok)))
        × (used_bytes (execute (request_of "SET" (k ∷ v ∷ [])) s).1 ≤ limit)
  unfolding ◌>>=◌ mark_access
  execute_set-fits k v s limit bounded =
      let (e, fits) = ensure_max_memory-fits (k ∷ []) (after_set k v s) limit bounded in
      rw (execute_set-room k v s, e) (refl, fits)
