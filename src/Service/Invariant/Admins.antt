-- ===== src/Service/Invariant/Admins.antt =====
-- The rule for the administration commands (internal/service).
use mini_redis_test_app.Prelude.{List, [], ◌∷◌}
use mini_redis_test_app.Platform.{Platform}
use mini_redis_test_app.Service.{State, modify}
use mini_redis_test_app.Service.Admin.{
  select, client, dbsize, flushdb, info, config, config_set, delete_each,
}
use mini_redis_test_app.Service.Memory.{
  ensure_max_memory, purge_all_expired_keys, current_memory_bytes,
}
use mini_redis_test_app.Service.Keeps.{Keeps, keeps_rules, Keeps-bind}
use mini_redis_test_app.Service.Stable.{
  IsStable, purge_all-Keeps, delete_entry_and_ttl-Keeps, current_memory_bytes-Keeps,
  ensure_max_memory-Keeps,
}
use mini_redis_test_app.Text.{Text}

module _ ⦃P : Platform⦄ {I : State → Type 0} (st : IsStable I) where
  ensured-Keeps : (protected : List Text) → Keeps I (ensure_max_memory protected)
  ensured-Keeps = ensure_max_memory-Keeps st

  purged-Keeps : Keeps I purge_all_expired_keys
  purged-Keeps = purge_all-Keeps st

  measured-Keeps : Keeps I current_memory_bytes
  measured-Keeps = current_memory_bytes-Keeps st

  delete_each-Keeps : (l : List Text) → Keeps I (delete_each l)
  unfolding delete_each
  delete_each-Keeps [] = search keeps_rules
  delete_each-Keeps (key ∷ rest) =
      Keeps-bind _ _ (delete_entry_and_ttl-Keeps st key) λ _. delete_each-Keeps rest

  reset-Keeps : Keeps I (modify λ s. record s { access_order = []; evicted_keys = 0 })
  reset-Keeps = st.kept_by_reset

  pub flushdb-Keeps : Keeps I flushdb
  unfolding flushdb
  flushdb-Keeps = search (keeps_rules, delete_each-Keeps, reset-Keeps)

  pub dbsize-Keeps : Keeps I dbsize
  unfolding dbsize
  dbsize-Keeps = search (keeps_rules, purged-Keeps)

  pub select-Keeps : (db_index : Text) → Keeps I (select db_index)
  unfolding select
  select-Keeps db_index = search keeps_rules

  pub client-Keeps : (arguments : List Text) → Keeps I (client arguments)
  unfolding client
  client-Keeps arguments = search keeps_rules

  pub info-Keeps : (arguments : List Text) → Keeps I (info arguments)
  unfolding info
  info-Keeps arguments = search (keeps_rules, purged-Keeps, measured-Keeps) depth 8

  config_set-Keeps : (value : Text) → Keeps I (config_set value)
  unfolding config_set
  config_set-Keeps value =
      Keeps-bind _ _ (search keeps_rules)
        λ n. Keeps-bind _ _ (st.kept_by_limit _) λ _. search (keeps_rules, ensured-Keeps)

  pub config-Keeps : (arguments : List Text) → Keeps I (config arguments)
  unfolding config
  config-Keeps arguments = search (keeps_rules, config_set-Keeps) depth 12
