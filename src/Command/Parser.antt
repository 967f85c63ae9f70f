-- ===== src/Command/Parser.antt =====
-- internal/command/parser.py
use mini_redis_test_app.Prelude.{List, [], ◌∷◌}
use mini_redis_test_app.Platform.{Platform}
use mini_redis_test_app.Result.{Result, ok, raise, command_error, parse_error, ◌>>=◌}
use mini_redis_test_app.Command.{Command}
use mini_redis_test_app.Resp.{
  RespValue, RespItems, simple_string, blob_string, number, nil, cons, err_empty_command,
  err_protocol_error,
}
use mini_redis_test_app.Text.{Text, strip}
use mini_redis_test_app.Text.Casing.{upper}
use mini_redis_test_app.Text.Decimal.{print_int}

coerce_token : RespValue → Result Text
coerce_token (blob_string s) = ok s
coerce_token (simple_string s) = ok s
coerce_token (number n) = ok (print_int n)
coerce_token _ = raise (command_error (parse_error err_protocol_error))

coerce_tokens : RespItems → Result (List Text)
unfolding coerce_token
coerce_tokens nil = ok []
coerce_tokens (cons item items) = do
  part ← coerce_token item
  parts ← coerce_tokens items
  ok (part ∷ parts)

module _ ⦃P : Platform⦄ where
  name_command : Text → List Text → Result Command
  name_command [] arguments = raise (command_error (parse_error err_empty_command))
  name_command (c ∷ s) arguments = ok (record { name = upper (c ∷ s); arguments = arguments })

  from_parts : List Text → Result Command
  unfolding name_command
  from_parts [] = raise (command_error (parse_error err_empty_command))
  from_parts (first ∷ arguments) = name_command (strip first) arguments

  unfoldable pub parse : RespItems → Result Command
  unfolding coerce_tokens from_parts
  parse items = do parts ← coerce_tokens items; from_parts parts
