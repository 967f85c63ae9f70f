-- ===== src/Service/Admin.antt =====
-- command_service.py: PING, SELECT, CLIENT, DBSIZE, FLUSHDB, INFO and CONFIG.
use mini_redis_test_app.Prelude.{
  ℕ, suc, String, Bool, false, ◌||◌, not, Option, none, some, List, [], ◌∷◌, ◌++◌, length,
  if◌then◌else◌,
}
use mini_redis_test_app.Prelude.Int.{ℤ, pos, ltb_ℤ}
use mini_redis_test_app.Command.{argument}
use mini_redis_test_app.Dict.{keys}
use mini_redis_test_app.Platform.{Platform}
use mini_redis_test_app.Resp.{
  RespValue, simple_string, blob_string, array, nil, cons, resp_ok, err_invalid_db,
  err_unsupported_command,
}
use mini_redis_test_app.Result.{
  Result, Error, ok, raise, command_error, validation_error, value_error,
}
use mini_redis_test_app.Service.{Exec, pure, throw, lift, gets, modify, ◌>>=◌, ◌>>◌}
use mini_redis_test_app.Service.Memory.{
  delete_entry_and_ttl, purge_all_expired_keys, current_memory_bytes, ensure_max_memory,
}
use mini_redis_test_app.Text.{Text, codes, text_eq}
use mini_redis_test_app.Text.Casing.{upper, lower}
use mini_redis_test_app.Text.Decimal.{parse_int, print_nat}

abbrev pub refused : String → Error
refused message = command_error (validation_error message)

-- `"\r\n".join(lines)`
unfoldable pub join_lines : List Text → Text
join_lines [] = []
join_lines (line ∷ []) = line
join_lines (line ∷ next ∷ rest) = line ++ 13 ∷ 10 ∷ join_lines (next ∷ rest)

-- `_normalize_max_memory_bytes`
unfoldable pub normalize_max_memory_bytes : Option ℤ → Option ℕ
normalize_max_memory_bytes (some (pos (suc n))) = some (suc n)
normalize_max_memory_bytes _ = none

-- `self._max_memory_bytes or 0`
unfoldable pub max_memory_or_zero : Option ℕ → ℕ
max_memory_or_zero none = 0
max_memory_or_zero (some n) = n

module _ ⦃P : Platform⦄ where
  -- `int(text)`
  unfoldable pub int_of : Text → Result ℤ
  int_of s = elim (parse_int s) [ none ↦ raise value_error | some n ↦ ok n ]

  -- `float(text)`
  unfoldable pub float_of : Text → Result P.Float
  float_of s = elim (P.parse_float s) [ none ↦ raise value_error | some x ↦ ok x ]

  unfoldable pub ping : List Text → RespValue
  ping [] = simple_string (codes "PONG")
  ping (message ∷ _) = blob_string message

  unfoldable pub select : Text → Exec RespValue
  unfolding int_of
  select db_index = do
    n ← lift (int_of db_index)
    if ltb_ℤ n (pos 0) then throw (refused err_invalid_db) else pure (simple_string (codes "OK"))

  unfoldable pub client : List Text → Exec RespValue
  client arguments = do
    a ← lift (argument arguments 0)
    let subcommand = upper a
    if text_eq subcommand (codes "SETNAME")
          || text_eq subcommand (codes "SETINFO")
          || text_eq subcommand (codes "MAINT_NOTIFICATIONS")
        then pure (simple_string (codes "OK"))
        else throw (refused err_unsupported_command)

  unfoldable pub dbsize : Exec ℕ
  unfolding purge_all_expired_keys
  dbsize = do purge_all_expired_keys; gets (λ s. length (keys s.store))

  unfoldable pub delete_each : List Text → Exec (Unit {0})
  unfolding delete_entry_and_ttl
  delete_each [] = pure tt
  delete_each (key ∷ rest) = do delete_entry_and_ttl key; delete_each rest

  unfoldable pub flushdb : Exec (Unit {0})
  unfolding delete_each
  flushdb = do
    store_keys ← gets (λ s. keys s.store)
    delete_each store_keys
    modify (λ s. record s { access_order = []; evicted_keys = 0 })

  -- `arguments and arguments[0].upper() not in {"ALL", "MEMORY"}`
  unfoldable pub is_other_section : List Text → Bool
  is_other_section [] = false
  is_other_section (a ∷ _) =
      not (text_eq (upper a) (codes "ALL") || text_eq (upper a) (codes "MEMORY"))

  unfoldable pub info_text : ℕ → ℕ → ℕ → ℕ → Text
  unfolding join_lines
  info_text used_memory max_memory key_count evicted_keys = join_lines (
      codes "# Memory"
      ∷ (codes "used_memory:" ++ print_nat used_memory)
      ∷ (codes "maxmemory:" ++ print_nat max_memory)
      ∷ (codes "keys:" ++ print_nat key_count)
      ∷ (codes "evicted_keys:" ++ print_nat evicted_keys)
      ∷ [])

  unfoldable pub info : List Text → Exec Text
  unfolding is_other_section purge_all_expired_keys current_memory_bytes info_text
      max_memory_or_zero
  info arguments =
      if is_other_section arguments then throw (refused err_unsupported_command) else (do
        purge_all_expired_keys
        used_memory ← current_memory_bytes
        s ← gets (λ s. s)
        pure (
            info_text used_memory (max_memory_or_zero s.max_memory_bytes) (length (keys s.store))
              s.evicted_keys))

  unfoldable pub config_set : Text → Exec RespValue
  unfolding int_of normalize_max_memory_bytes ensure_max_memory
  config_set value = do
    n ← lift (int_of value)
    modify (λ s. record s { max_memory_bytes = normalize_max_memory_bytes (some n) })
    ensure_max_memory []
    pure (simple_string (codes resp_ok))

  unfoldable pub config : List Text → Exec RespValue
  unfolding config_set max_memory_or_zero
  config arguments = do
    a ← lift (argument arguments 0)
    b ← lift (argument arguments 1)
    let subcommand = upper a
    let parameter = lower b
    if not (text_eq parameter (codes "maxmemory"))
        then throw (refused err_unsupported_command)
        else if text_eq subcommand (codes "GET")
        then (do
          limit ← gets (λ s. max_memory_or_zero s.max_memory_bytes)
          pure (
              array (
                cons (blob_string (codes "maxmemory")) (cons (blob_string (print_nat limit)) nil))))
        else if text_eq subcommand (codes "SET")
        then (do value ← lift (argument arguments 2); config_set value)
        else throw (refused err_unsupported_command)
