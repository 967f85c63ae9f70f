-- ===== src/Service/Sweeper.antt =====
-- internal/expiration/expiration_sweeper.py
pub mod Removal
use mini_redis_test_app.Prelude.{
  ℕ, zero, suc, ◌+◌, Bool, true, false, Option, none, some, List, [], ◌∷◌, take, if◌then◌else◌,
}
use mini_redis_test_app.Dict
use mini_redis_test_app.Dict.{keys}
use mini_redis_test_app.Platform.{Platform}
use mini_redis_test_app.Service.{State, Exec, maybe, pure, gets, ◌>>=◌, ◌>>◌}
use mini_redis_test_app.Service.Expiration.{now, delete_key}
use mini_redis_test_app.Text.{Text}

module _ ⦃P : Platform⦄ where
  -- The sweeper's own `_is_expired`.
  abbrev pub sweeper_is_expired : P.Float → P.Float → Bool
  sweeper_is_expired current expires_at = P.float_le expires_at current

  -- The loop over the batch, with the one reading of the clock.
  unfoldable pub sweep_keys : P.Float → List Text → ℕ → Exec ℕ
  unfolding delete_key
  sweep_keys current [] removed_count = pure removed_count
  sweep_keys current (key ∷ rest) removed_count = do
    expires_at ← gets (λ s. Dict.get s.ttl key)
    maybe expires_at (sweep_keys current rest removed_count) (λ t.
        if sweeper_is_expired current t
        then (do delete_key key; sweep_keys current rest (removed_count + 1))
        else sweep_keys current rest removed_count)

  -- The argument is `sweep_batch_size`.
  unfoldable pub sweep_once : ℕ → Exec ℕ
  unfolding now sweep_keys
  sweep_once batch_size = do
    current ← now
    ttl_keys ← gets (λ s. keys s.ttl)
    sweep_keys current (take batch_size ttl_keys) 0
