-- ===== src/Server/Accept.antt =====
-- internal/server/server.py: the accept loop, and shutdown.py. Sessions run in the loop, one after
-- another.
pub mod Idle
use mini_redis_test_app.Prelude.{
  ℕ, Bool, true, false, Option, none, some, List, [], ◌∷◌, if◌then◌else◌,
}
use mini_redis_test_app.Config.{RuntimeConfig}
use mini_redis_test_app.Platform.{Platform}
use mini_redis_test_app.Result.{Result, ok, raise, connection_error}
use mini_redis_test_app.Server.{
  Metrics, ResourceLimits, is_connection_allowed, increment_connections,
  increment_active_connections, decrement_active_connections, increment_errors,
}
use mini_redis_test_app.Server.Session.{Session, Read, Write, new_context, handle}
use mini_redis_test_app.Service.{State}

-- What one call of `accept` may do: return a connection, with what its socket will show, run into
-- the timeout, fail with an OSError, or meet an interrupt from the keyboard. In `interrupted` that
-- interrupt comes behind the requests of the session that is open, in `shutdown` another thread
-- calls `stop` while `accept` waits, whose socket it closes.
pub data Arrival : Type 0 where
  connection interrupted : List (Read × Write) → Arrival
  timed_out os_error keyboard_interrupt shutdown : Arrival

-- The limits that the server gives its guard.
unfoldable pub limits_of : RuntimeConfig → ResourceLimits
limits_of config = record {
  max_connections = config.max_connections;
  max_request_size_bytes = config.max_request_size_bytes;
  max_array_items = config.max_array_items;
  max_resp_depth = config.max_resp_depth;
  max_blob_size_bytes = config.max_blob_size_bytes;
}

module _ ⦃P : Platform⦄ where
  pub record Server : Type 0 where
    pub config : RuntimeConfig
    pub metrics : Metrics
    pub service : State
    pub shutdown_requested : Bool
    pub sweeper_running : Bool

  -- `stop`: the first call counts.
  unfoldable pub stop : Server → Server
  stop v = if v.shutdown_requested then v else record v { shutdown_requested = true }

  unfoldable pub open_session : Server → Session
  open_session v = record {
    context = new_context;
    service = v.service;
    metrics = increment_active_connections (increment_connections v.metrics);
    written = [];
    closed = false;
  }

  -- The session of one connection, and `finally` behind it.
  unfoldable pub serve : List (Read × Write) → Server → Server
  unfolding limits_of open_session
  serve io v =
      let h = handle (limits_of v.config) io (open_session v) in
      record v { metrics = decrement_active_connections h.metrics; service = h.service }

  unfoldable pub admit : List (Read × Write) → Server → Server
  unfolding serve limits_of
  admit io v =
      if is_connection_allowed (limits_of v.config) v.metrics.active_connections
      then serve io v
      else record v { metrics = increment_errors v.metrics }

  -- The loop, until a shutdown is requested or there is nothing more to accept.
  unfoldable pub accept_loop : List Arrival → Server → Result Server
  unfolding admit stop
  accept_loop [] v = ok v
  accept_loop (connection io ∷ rest) v =
      let next = accept_loop rest (admit io v) in if v.shutdown_requested then ok v else next
  accept_loop (interrupted io ∷ rest) v =
      if v.shutdown_requested then ok v else ok (stop (admit io v))
  accept_loop (timed_out ∷ rest) v =
      let next = accept_loop rest v in if v.shutdown_requested then ok v else next
  accept_loop (os_error ∷ rest) v = if v.shutdown_requested then ok v else raise connection_error
  accept_loop (keyboard_interrupt ∷ rest) v = if v.shutdown_requested then ok v else ok (stop v)
  accept_loop (shutdown ∷ rest) v = if v.shutdown_requested then ok v else ok (stop v)

  -- `run`, from the start of the sweeper to the `finally` that stops it.
  unfoldable pub run : List Arrival → Server → Result Server
  unfolding accept_loop
  run arrivals v =
      let started =
        if v.config.expiration_sweep_enabled then record v { sweeper_running = true } else v in
      elim (accept_loop arrivals started) [
        | ok v' ↦ ok (record v' { sweeper_running = false })
        | raise e ↦ raise e
      ]
