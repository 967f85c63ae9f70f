-- ===== src/Server/Steps.antt =====
-- The server as a whole: the requests of its sessions, one after another, and the sweeps of the
-- background thread between them. internal/server/server.py, internal/expiration/expiration_sweeper.py.
use mini_redis_test_app.Prelude.{ℕ, arith}
use mini_redis_test_app.Platform.{Platform}
use mini_redis_test_app.Server.Session.{SessionContext, process_request}
use mini_redis_test_app.Server.Session.Backed.{process_request-IsBacked}
use mini_redis_test_app.Service.{State}
use mini_redis_test_app.Service.Backed.{IsBacked}
use mini_redis_test_app.Service.Sweeper.{sweep_once}
use mini_redis_test_app.Service.Sweeper.Removal.{sweep_once-swept}
use mini_redis_test_app.Text.Utf8.{Bytes}

module _ ⦃P : Platform⦄ where
  -- One step: a session processes a frame, or a sweep runs.
  pub data Step : State → State → Type 0 where
    served :
        {s : State} (frame : Bytes) (ctx : SessionContext)
        → Step s (process_request frame ctx s).service
    swept_once : {s : State} (batch_size : ℕ) → Step s (sweep_once batch_size s).1

  -- The states that steps lead to from a state.
  pub data Reachable : State → State → Type 0 where
    start : {s : State} → Reachable s s
    step : {s t u : State} → Reachable s t → Step t u → Reachable s u

  pub sweep_once-IsBacked :
      (batch_size : ℕ) (s : State) → IsBacked s → IsBacked (sweep_once batch_size s).1
  sweep_once-IsBacked batch_size s h = record {
    at_key = λ k gone.
        let (a, b, _, _, _) = sweep_once-swept batch_size s k in ground (arith, h.at_key k);
  }

  Step-IsBacked : {s t : State} → Step s t → IsBacked s → IsBacked t
  Step-IsBacked (served frame ctx) h = process_request-IsBacked frame ctx _ h
  Step-IsBacked (swept_once batch_size) h = sweep_once-IsBacked batch_size _ h

  -- From a state in which each key with an expiration time is stored, requests of any bytes and
  -- sweeps of any size, in any order, lead only to states in which that holds.
  pub Reachable-IsBacked : {s t : State} → Reachable s t → IsBacked s → IsBacked t
  Reachable-IsBacked start h = h
  Reachable-IsBacked (step r one) h = Step-IsBacked one (Reachable-IsBacked r h)
