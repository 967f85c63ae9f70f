-- ===== src/Server/Session.antt =====
-- internal/server/session_handler.py and session_context.py. The socket is the list of what its
-- reads return and the list of what is written to it.
pub mod Backed
pub mod Counts
use mini_redis_test_app.Prelude.{
  ℕ, Bool, true, false, Option, none, some, List, [], ◌∷◌, ◌++◌, length, if◌then◌else◌, not,
}
use mini_redis_test_app.Prelude.Int.{ℤ, pos}
use mini_redis_test_app.Command.{Command, named, argument}
use mini_redis_test_app.Dict
use mini_redis_test_app.Dict.{Dict}
use mini_redis_test_app.Platform.{Platform}
use mini_redis_test_app.Protocol
use mini_redis_test_app.Protocol.{ProtocolHandlerResult, message_of}
use mini_redis_test_app.Resp.{RespValue, simple_error}
use mini_redis_test_app.Resp.Encoder
use mini_redis_test_app.Result.{Result, Error, ok, raise, command_error, value_error, ◌>>=◌, ◌>>◌}
use mini_redis_test_app.Service
use mini_redis_test_app.Service.{State}
use mini_redis_test_app.Service.Admin.{int_of}
use mini_redis_test_app.Service.Execute.{execute}
use mini_redis_test_app.Text.{Text, codes, text_eq}
use mini_redis_test_app.Text.Casing.{upper}
use mini_redis_test_app.Text.Utf8.{Bytes}
use mini_redis_test_app.Server.{
  Metrics, ResourceLimits, is_request_size_allowed, increment_errors, increment_requests,
}

-- session_context.py
pub record SessionContext : Type 0 where
  pub protocol_version : ℤ
  pub selected_db : ℤ
  pub client_name : Option Text
  pub client_info : Dict Text

abbrev pub new_context : SessionContext
new_context = record {
  protocol_version = pos 2;
  selected_db = pos 0;
  client_name = none;
  client_info = [];
}

-- What one read and one write of the socket do. `received []` is the end of the stream.
pub data Read : Type 0 where
  received : Bytes → Read
  read_timeout read_failure : Read

pub data Write : Type 0 where
  sent write_timeout write_failure : Write

module _ ⦃P : Platform⦄ where
  -- What the handler of one connection sees and changes.
  pub record Session : Type 0 where
    pub context : SessionContext
    pub service : State
    pub metrics : Metrics
    pub written : List Bytes
    pub closed : Bool

  -- `_apply_session_state`
  unfoldable pub apply_client : List Text → SessionContext → Result SessionContext
  apply_client arguments ctx = do
    a ← argument arguments 0
    let subcommand = upper a
    if text_eq subcommand (codes "SETNAME")
        then (do name ← argument arguments 1; ok (record ctx { client_name = some name }))
        else if text_eq subcommand (codes "SETINFO")
        then (do
          field ← argument arguments 1
          value ← argument arguments 2
          ok (record ctx { client_info = Dict.set ctx.client_info field value }))
        else ok ctx

  unfoldable pub apply_session_state : Command → SessionContext → Result SessionContext
  unfolding apply_client
  apply_session_state c ctx =
      if named c "SELECT"
      then (do a ← argument c.arguments 0; n ← int_of a; ok (record ctx { selected_db = n }))
      else if named c "CLIENT"
      then apply_client c.arguments ctx
      else ok ctx

  -- `except CommandError as error`: other exceptions go on.
  unfoldable pub reply_of : Result RespValue → Result RespValue
  reply_of (raise (command_error e)) = ok (simple_error (codes (message_of e)))
  reply_of r = r

  -- The end of a request: the bytes to write, or an exception, and what it left.
  pub record Outcome : Type 0 where
    pub response : Result Bytes
    pub context : SessionContext
    pub service : State

  finish_command : Command → Result RespValue → SessionContext → State → Outcome
  finish_command c (raise e) ctx s = record { response = raise e; context = ctx; service = s }
  finish_command c (ok value) ctx s = elim (apply_session_state c ctx) [
    | raise e ↦ record { response = raise e; context = ctx; service = s }
    | ok ctx' ↦ record {
      response = ok (Encoder.encode ctx'.protocol_version value);
      context = ctx';
      service = s;
    }
  ]

  unfoldable pub run_command : Command → SessionContext → State → Outcome
  unfolding finish_command apply_session_state reply_of
  run_command c ctx s = let (r, s') = execute c s in finish_command c (reply_of r) ctx s'

  with_version : Option ℤ → SessionContext → SessionContext
  with_version none ctx = ctx
  with_version (some version) ctx = record ctx { protocol_version = version }

  immediate : RespValue → Option ℤ → SessionContext → State → Outcome
  unfolding with_version
  immediate value version ctx s =
      let ctx' = with_version version ctx in
      record {
        response = ok (Encoder.encode ctx'.protocol_version value);
        context = ctx';
        service = s;
      }

  -- `_process_request`, behind the protocol handler.
  after_protocol : Result ProtocolHandlerResult → SessionContext → State → Outcome
  unfolding immediate run_command
  after_protocol (raise e) ctx s = record { response = raise e; context = ctx; service = s }
  after_protocol (ok r) ctx s = elim r.response [
    | some value ↦ immediate value r.protocol_version ctx s
    | none ↦ elim r.command [
      | none ↦ record { response = raise value_error; context = ctx; service = s }
      | some c ↦ run_command c ctx s
    ]
  ]

  unfoldable pub process_request : Bytes → SessionContext → State → Outcome
  unfolding after_protocol
  process_request frame ctx s = after_protocol (Protocol.handle_with_error_response frame) ctx s

  close_session : Session → Session
  close_session h = record h { closed = true }

  fail : Session → Session
  unfolding close_session
  fail h = close_session (record h { metrics = increment_errors h.metrics })

  -- `_write_response`
  write_response : Result Bytes → Write → Session → Session
  unfolding fail
  write_response (raise e) w h = fail h
  write_response (ok response) sent h = record h { written = h.written ++ response ∷ [] }
  write_response (ok response) write_timeout h = close_session h
  write_response (ok response) write_failure h = fail h

  answer : Bytes → Write → Session → Session
  unfolding process_request write_response
  answer request w h =
      let out = process_request request h.context h.service in
      write_response out.response w (record h {
        context = out.context;
        service = out.service;
        metrics = increment_requests h.metrics;
      })

  -- One round of the loop of `handle`.
  unfoldable pub round : ResourceLimits → Read → Write → Session → Session
  unfolding answer fail
  round limits (received []) w h = close_session h
  round limits (received (b ∷ bytes)) w h =
      if is_request_size_allowed limits (length (b ∷ bytes)) then answer (b ∷ bytes) w h else fail h
  round limits read_timeout w h = close_session h
  round limits read_failure w h = fail h

  -- `handle`: rounds until the session is closed, or the socket has no more to show.
  unfoldable pub handle : ResourceLimits → List (Read × Write) → Session → Session
  unfolding round
  handle limits [] h = h
  handle limits ((r, w) ∷ rest) h = elim h.closed [
    | true ↦ h
    | false ↦ handle limits rest (round limits r w h)
  ]
