-- ===== src/Service/Basic.antt =====
-- internal/service: SET, GET, DEL, EXPIRE and TTL.
use mini_redis_test_app.Prelude.{ℕ, Bool, Option, if◌then◌else◌}
use mini_redis_test_app.Prelude.Int.{ℤ, negsuc}
use mini_redis_test_app.Dict
use mini_redis_test_app.Platform.{Platform}
use mini_redis_test_app.Repository.{ValueEntry, string_entry, delete}
use mini_redis_test_app.Resp.{resp_ok}
use mini_redis_test_app.Service.{Exec, maybe, pure, gets, modify, ◌>>=◌, ◌>>◌}
use mini_redis_test_app.Service.Expiration.{
  now, purge_if_expired, remaining_seconds, calculate_expires_at,
}
use mini_redis_test_app.Text.{Text, codes}

module _ ⦃P : Platform⦄ where
  -- set_service.py
  unfoldable pub set_service : Text → Text → Exec Text
  set_service key value = do
    modify (λ s. record s {
      store = Dict.set s.store key (string_entry value);
      ttl = Dict.remove s.ttl key;
    })
    pure (codes resp_ok)

  -- get_service.py
  unfoldable pub get_service : Text → Exec (Option ValueEntry)
  unfolding purge_if_expired
  get_service key = do purge_if_expired key; gets (λ s. Dict.get s.store key)

  -- `self._store_repository.delete(key)`
  unfoldable pub delete_stored : Text → Exec Bool
  unfolding delete
  delete_stored key s =
      gets (λ _. (delete s.store key).0) (record s { store = (delete s.store key).1 })

  -- del_service.py
  unfoldable pub del_service : Text → Exec ℕ
  unfolding purge_if_expired delete_stored
  del_service key = do
    purged ← purge_if_expired key
    if purged then pure 0 else (do
      deleted ← delete_stored key
      if deleted
          then (do modify (λ s. record s { ttl = Dict.remove s.ttl key }); pure 1)
          else pure 0)

  -- expire_service.py
  unfoldable pub expire_service : Text → P.Float → Exec ℕ
  unfolding purge_if_expired now calculate_expires_at
  expire_service key ttl_seconds = do
    purged ← purge_if_expired key
    if purged then pure 0 else (do
      entry ← gets (λ s. Dict.get s.store key)
      maybe entry (pure 0) (λ _. do
        current ← now
        let expires_at = calculate_expires_at current ttl_seconds
        modify (λ s. record s { ttl = Dict.set s.ttl key expires_at })
        pure 1))

  -- ttl_service.py: -2 without a key, -1 without an expiration time.
  unfoldable pub ttl_service : Text → Exec ℤ
  unfolding purge_if_expired remaining_seconds
  ttl_service key = do
    purged ← purge_if_expired key
    if purged then pure (negsuc 1) else (do
      entry ← gets (λ s. Dict.get s.store key)
      expires_at ← gets (λ s. Dict.get s.ttl key)
      maybe entry (pure (negsuc 1)) (λ _.
          maybe expires_at (pure (negsuc 0)) (λ _. do
            seconds ← remaining_seconds key
            maybe seconds (pure (negsuc 0)) (λ n. pure n))))
