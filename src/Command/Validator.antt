-- ===== src/Command/Validator.antt =====
-- internal/command/validator.py
use mini_redis_test_app.Prelude.{
  ℕ, String, ◌%◌, Bool, none, some, List, [], ◌∷◌, drop, length, ◌==◌, ltb, not, if◌then◌else◌,
}
use mini_redis_test_app.Prelude.Int.{ℤ, pos, ltb_ℤ}
use mini_redis_test_app.Platform.{Platform}
use mini_redis_test_app.Result.{Result, ok, raise, command_error, validation_error, ◌>>=◌, ◌>>◌}
use mini_redis_test_app.Command.{Command, named, argument}
use mini_redis_test_app.Dict.{Dict, get}
use mini_redis_test_app.Resp.{
  err_invalid_db, err_invalid_float, err_invalid_integer, err_invalid_ttl,
  err_unsupported_client_subcommand, err_unsupported_command, err_wrong_number_of_arguments,
}
use mini_redis_test_app.Text.{Text, codes, text_eq}
use mini_redis_test_app.Text.Casing.{upper}
use mini_redis_test_app.Text.Decimal.{parse_int}

abbrev pub invalid {ℓ} : {A : Type ℓ} → String → Result A
invalid message = raise (command_error (validation_error message))

abbrev pub done : Result (Unit {0})
done = ok tt

-- `if test: raise CommandValidationError(message)`
abbrev pub refuse_if : Bool → String → Result (Unit {0})
refuse_if test message = if test then invalid message else done

unfoldable pub supported_arity : Dict ℕ
supported_arity =
    (codes "HELLO", 1)
    ∷ (codes "AUTH", 1)
    ∷ (codes "SELECT", 1)
    ∷ (codes "SET", 2)
    ∷ (codes "GET", 1)
    ∷ (codes "DEL", 1)
    ∷ (codes "EXPIRE", 2)
    ∷ (codes "TTL", 1)
    ∷ (codes "DBSIZE", 0)
    ∷ (codes "FLUSHDB", 0)
    ∷ (codes "HSET", 3)
    ∷ (codes "HGET", 2)
    ∷ (codes "HDEL", 2)
    ∷ (codes "HGETALL", 1)
    ∷ (codes "LPOP", 1)
    ∷ (codes "RPOP", 1)
    ∷ (codes "LRANGE", 3)
    ∷ (codes "SMEMBERS", 1)
    ∷ (codes "SISMEMBER", 2)
    ∷ (codes "ZRANGE", 3)
    ∷ (codes "ZSCORE", 2)
    ∷ []

unfoldable pub min_arity : Dict ℕ
min_arity =
    (codes "PING", 0)
    ∷ (codes "INFO", 0)
    ∷ (codes "CLIENT", 1)
    ∷ (codes "CONFIG", 2)
    ∷ (codes "LPUSH", 2)
    ∷ (codes "RPUSH", 2)
    ∷ (codes "SADD", 2)
    ∷ (codes "SREM", 2)
    ∷ (codes "ZADD", 3)
    ∷ (codes "ZREM", 2)
    ∷ []

-- The exact arity of the name if it has one, else its least arity.
unfoldable pub check_arity : Command → Result (Unit {0})
unfolding supported_arity min_arity get
check_arity c = elim (get supported_arity c.name) [
  | some n ↦ refuse_if (not (length c.arguments == n)) err_wrong_number_of_arguments
  | none ↦ elim (get min_arity c.name) [
    | some n ↦ refuse_if (ltb (length c.arguments) n) err_wrong_number_of_arguments
    | none ↦ invalid err_unsupported_command
  ]
]

module _ ⦃P : Platform⦄ where
  unfoldable pub integer_argument : Text → Result ℤ
  integer_argument s = elim (parse_int s) [ none ↦ invalid err_invalid_integer | some n ↦ ok n ]

  unfoldable pub float_argument : Text → Result P.Float
  float_argument s = elim (P.parse_float s) [ none ↦ invalid err_invalid_float | some x ↦ ok x ]

  -- `arguments[i]` checked as an integer.
  unfoldable pub integer_at : List Text → ℕ → Result ℤ
  unfolding integer_argument
  integer_at arguments i = do a ← argument arguments i; integer_argument a

  unfoldable pub check_hello : Command → Result (Unit {0})
  unfolding integer_at
  check_hello c = do integer_at c.arguments 0; done

  unfoldable pub check_expire : Command → Result (Unit {0})
  unfolding float_argument
  check_expire c = do
    a ← argument c.arguments 1
    seconds ← float_argument a
    refuse_if (P.float_le seconds P.float_zero) err_invalid_ttl

  unfoldable pub check_select : Command → Result (Unit {0})
  unfolding integer_at
  check_select c = do
    db_index ← integer_at c.arguments 0
    refuse_if (ltb_ℤ db_index (pos 0)) err_invalid_db

  -- LRANGE and ZRANGE
  unfoldable pub check_range : Command → Result (Unit {0})
  unfolding integer_at
  check_range c = do integer_at c.arguments 1; integer_at c.arguments 2; done

  -- `for index in range(1, len(arguments), 2)`, from the argument at index 1 on
  unfoldable pub check_scores : List Text → Result (Unit {0})
  unfolding float_argument
  check_scores [] = done
  check_scores (score ∷ []) = do float_argument score; done
  check_scores (score ∷ member ∷ rest) = do float_argument score; check_scores rest

  unfoldable pub check_zadd : Command → Result (Unit {0})
  unfolding check_scores
  check_zadd c = do
    refuse_if (length c.arguments % 2 == 0) err_wrong_number_of_arguments
    check_scores (drop 1 c.arguments)

  -- PING and INFO
  unfoldable pub check_at_most_one : Command → Result (Unit {0})
  check_at_most_one c = refuse_if (ltb 1 (length c.arguments)) err_wrong_number_of_arguments

  unfoldable pub check_config : Command → Result (Unit {0})
  unfolding integer_at
  check_config c = do
    a ← argument c.arguments 0
    let subcommand = upper a
    if text_eq subcommand (codes "GET")
        then refuse_if (not (length c.arguments == 2)) err_wrong_number_of_arguments
        else if text_eq subcommand (codes "SET")
        then (do
          refuse_if (not (length c.arguments == 3)) err_wrong_number_of_arguments
          value ← integer_at c.arguments 2
          refuse_if (ltb_ℤ value (pos 0)) err_invalid_integer)
        else invalid err_unsupported_command

  unfoldable pub check_client : Command → Result (Unit {0})
  check_client c = do
    a ← argument c.arguments 0
    let subcommand = upper a
    if text_eq subcommand (codes "SETNAME")
        then refuse_if (not (length c.arguments == 2)) err_wrong_number_of_arguments
        else if text_eq subcommand (codes "SETINFO")
        then refuse_if (not (length c.arguments == 3)) err_wrong_number_of_arguments
        else if text_eq subcommand (codes "MAINT_NOTIFICATIONS")
        then refuse_if (ltb (length c.arguments) 2) err_wrong_number_of_arguments
        else invalid err_unsupported_client_subcommand

  -- The checks behind the arity, one for each name: each test on the name is exclusive.
  unfoldable pub check_arguments : Command → Result (Unit {0})
  unfolding check_hello check_expire check_select check_range check_zadd check_at_most_one
      check_config check_client
  check_arguments c =
      if named c "HELLO"
      then check_hello c
      else if named c "AUTH"
      then done
      else if named c "EXPIRE"
      then check_expire c
      else if named c "SELECT"
      then check_select c
      else if named c "LRANGE"
      then check_range c
      else if named c "ZRANGE"
      then check_range c
      else if named c "ZADD"
      then check_zadd c
      else if named c "PING"
      then check_at_most_one c
      else if named c "INFO"
      then check_at_most_one c
      else if named c "CONFIG"
      then check_config c
      else if named c "CLIENT"
      then check_client c
      else done

  unfoldable pub validate : Command → Result (Unit {0})
  unfolding check_arity check_arguments
  validate c = do check_arity c; check_arguments c
