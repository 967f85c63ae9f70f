-- ===== src/Service/Expiration.antt =====
-- internal/expiration: the calculator and the manager, over the state of the service.
use mini_redis_test_app.Prelude.{◌+◌, Bool, true, false, Option, none, some, if◌then◌else◌}
use mini_redis_test_app.Prelude.Int.{ℤ, pos, ltb_ℤ}
use mini_redis_test_app.Dict
use mini_redis_test_app.Platform.{Platform}
use mini_redis_test_app.Repository.{delete}
use mini_redis_test_app.Result.{Result, ok, raise}
use mini_redis_test_app.Service.{Exec, maybe, pure, lift, gets, modify, ◌>>=◌, ◌>>◌}
use mini_redis_test_app.Text.{Text}

module _ ⦃P : Platform⦄ where
  -- ttl_calculator.py
  unfoldable pub calculate_expires_at : P.Float → P.Float → P.Float
  calculate_expires_at now ttl_seconds = P.float_add now ttl_seconds

  -- `now >= expires_at`
  unfoldable pub is_expired : P.Float → P.Float → Bool
  is_expired now expires_at = P.float_le expires_at now

  unfoldable pub at_least_zero : ℤ → ℤ
  at_least_zero n = if ltb_ℤ n (pos 0) then pos 0 else n

  -- `max(0, ceil(expires_at - now))`
  unfoldable pub calculate_remaining_seconds : P.Float → P.Float → Result ℤ
  unfolding at_least_zero
  calculate_remaining_seconds now expires_at = elim (P.ceil (P.float_sub expires_at now)) [
    | ok n ↦ ok (at_least_zero n)
    | raise e ↦ raise e
  ]

  -- `clock.now()`
  unfoldable pub now : Exec P.Float
  now s = (ok (s.readings s.reads), record s { reads = s.reads + 1 })

  -- expiration_manager.py, `_delete_key`
  unfoldable pub delete_key : Text → Exec (Unit {0})
  delete_key key =
      modify λ s. record s { store = (delete s.store key).1; ttl = Dict.remove s.ttl key }

  -- `is_expired`: the clock is read only if the key has an expiration time.
  unfoldable pub is_key_expired : Text → Exec Bool
  unfolding now is_expired
  is_key_expired key = do
    expires_at ← gets (λ s. Dict.get s.ttl key)
    maybe expires_at (pure false) (λ t. do current ← now; pure (is_expired current t))

  unfoldable pub purge_if_expired : Text → Exec Bool
  unfolding is_key_expired delete_key
  purge_if_expired key = do
    expired ← is_key_expired key
    if expired then (do delete_key key; pure true) else pure false

  unfoldable pub remaining_seconds : Text → Exec (Option ℤ)
  unfolding now calculate_remaining_seconds
  remaining_seconds key = do
    expires_at ← gets (λ s. Dict.get s.ttl key)
    maybe expires_at (pure none) (λ t. do
      current ← now
      seconds ← lift (calculate_remaining_seconds current t)
      pure (some seconds))
