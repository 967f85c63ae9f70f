-- ===== src/Server/Session/Backed.antt =====
-- A session keeps the invariants of the service.
use mini_redis_test_app.Prelude.{◌≡◌, refl, arith, Option-cases, inl, inr}
use mini_redis_test_app.Command.{Command}
use mini_redis_test_app.Platform.{Platform}
use mini_redis_test_app.Protocol.{ProtocolHandlerResult}
use mini_redis_test_app.Protocol
use mini_redis_test_app.Resp.{RespValue}
use mini_redis_test_app.Result.{Result, ok, raise}
use mini_redis_test_app.Server.Session.{
  SessionContext, finish_command, immediate, run_command, after_protocol, process_request, reply_of,
}
use mini_redis_test_app.Service.{State}
use mini_redis_test_app.Service.Execute.{execute}
use mini_redis_test_app.Service.Backed.{IsBacked, execute-IsBacked}
use mini_redis_test_app.Text.Utf8.{Bytes}

module _ ⦃P : Platform⦄ where
  finish_command-service :
      (c : Command) (r : Result RespValue) (ctx : SessionContext) (s : State)
      → (finish_command c r ctx s).service ≡ s
  unfolding finish_command
  finish_command-service c (raise e) ctx s = refl
  finish_command-service c (ok value) ctx s = ground arith

  -- A frame leaves the state as it is, or runs one command on it.
  after_protocol-service :
      (I : State → Type 0) (r : Result ProtocolHandlerResult) (ctx : SessionContext) (s : State)
      → ((c : Command) → I (execute c s).1)
      → I s
      → I (after_protocol r ctx s).service
  unfolding after_protocol immediate run_command
  after_protocol-service I (raise e) ctx s run h = h
  after_protocol-service I (ok r) ctx s run h = elim (Option-cases r.response) [
    | inr (value, e) ↦ rw e h
    | inl none' ↦ rw none' (elim (Option-cases r.command) [
      | inl missing ↦ rw missing h
      | inr (c, e) ↦
          rw (e, finish_command-service c (reply_of (execute c s).0) ctx (execute c s).1) (run c)
    ])
  ]

  -- Whatever bytes arrive and whatever the session's context: handling a request keeps the
  -- invariant that each key with an expiration time is stored.
  pub process_request-IsBacked :
      (frame : Bytes) (ctx : SessionContext) (s : State)
      → IsBacked s
      → IsBacked (process_request frame ctx s).service
  unfolding process_request
  process_request-IsBacked frame ctx s h =
      after_protocol-service IsBacked (Protocol.handle_with_error_response frame) ctx s
        (λ c. execute-IsBacked c s h) h
