-- ===== src/Protocol.antt =====
-- internal/protocol/resp/protocol_handler.py
use mini_redis_test_app.Prelude.{Option, none, some, if◌then◌else◌, String, Bool, true, false}
use mini_redis_test_app.Prelude.Int.{ℤ}
use mini_redis_test_app.Platform.{Platform}
use mini_redis_test_app.Result.{
  Result, CommandError, ok, raise, command_error, validation_error, parse_error, value_error, ◌>>=◌,
  ◌>>◌,
}
use mini_redis_test_app.Command.{Command, named, argument}
use mini_redis_test_app.Command.Parser
use mini_redis_test_app.Command.Validator
use mini_redis_test_app.Resp.{RespValue, simple_error}
use mini_redis_test_app.Resp.Decoder
use mini_redis_test_app.Resp.Hello
use mini_redis_test_app.Text.{codes}
use mini_redis_test_app.Text.Decimal.{parse_int}
use mini_redis_test_app.Text.Utf8.{Bytes}

pub record ProtocolHandlerResult : Type 0 where
  pub command : Option Command
  pub response : Option RespValue
  pub protocol_version : Option ℤ

unfoldable pub has_immediate_response : ProtocolHandlerResult → Bool
has_immediate_response r = elim r.response [ none ↦ false | some _ ↦ true ]

-- The message of a `CommandError`.
abbrev pub message_of : CommandError → String
message_of (validation_error message) = message
message_of (parse_error message) = message

module _ ⦃P : Platform⦄ where
  hello_version : Command → Result ℤ
  hello_version c = do
    a ← argument c.arguments 0
    elim (parse_int a) [ none ↦ raise value_error | some n ↦ ok n ]

  unfoldable pub handle : Bytes → Result ProtocolHandlerResult
  unfolding hello_version
  handle frame = do
    request ← Decoder.decode frame
    c ← Parser.parse request
    Validator.validate c
    if named c "HELLO"
        then (do
          version ← hello_version c
          ok (record {
            command = none;
            response = some (Hello.handle version);
            protocol_version = some version;
          }))
        else ok (record { command = some c; response = none; protocol_version = none })

  unfoldable pub handle_with_error_response : Bytes → Result ProtocolHandlerResult
  handle_with_error_response frame = elim (handle frame) [
    | raise (command_error e) ↦ ok (record {
      command = none;
      response = some (simple_error (codes (message_of e)));
      protocol_version = none;
    })
    | r ↦ r
  ]
