-- ===== src/Server/Session/Counts.antt =====
-- The counters of a session against what it wrote.
use mini_redis_test_app.Prelude.{
  ◌+◌, ◌≤◌, ◌≡◌, refl, false, List, [], ◌∷◌, length, length-append, arith, if◌then◌else◌, if_intro,
  Bool-cases, inl, inr,
}
use mini_redis_test_app.Platform.{Platform}
use mini_redis_test_app.Result.{Result, ok, raise}
use mini_redis_test_app.Server.{
  Metrics, ResourceLimits, is_request_size_allowed, increment_errors, increment_requests,
}
use mini_redis_test_app.Server.Session.{
  Session, Read, Write, received, read_timeout, read_failure, sent, write_timeout, write_failure,
  close_session, fail, write_response, answer, round, handle, process_request,
}
use mini_redis_test_app.Text.Utf8.{Bytes}

module _ ⦃P : Platform⦄ where
  -- With the counters that the session found: an open session has answered each request that it
  -- counted and met no error; a closed one may lack the answer to one request, and has counted at
  -- most one error.
  abbrev pub IsCounted : Metrics → Session → Type 0
  IsCounted m h =
      (m.requests_total + length h.written ≤ h.metrics.requests_total)
      × (h.metrics.requests_total
          ≤ m.requests_total + length h.written + (if h.closed then 1 else 0))
      × (m.errors_total ≤ h.metrics.errors_total)
      × (h.metrics.errors_total ≤ m.errors_total + (if h.closed then 1 else 0))

  write_response-IsCounted :
      (m : Metrics) (r : Result Bytes) (w : Write) (h : Session)
      → h.closed ≡ false
      → h.metrics.requests_total ≡ m.requests_total + length h.written + 1
      → h.metrics.errors_total ≡ m.errors_total
      → IsCounted m (write_response r w h)
  unfolding write_response fail close_session increment_errors
  write_response-IsCounted m (raise e) w h open' r e' =
      (omega arith, omega arith, omega arith, omega arith)
  write_response-IsCounted m (ok response) sent h open' r e' =
      let more = length-append h.written (response ∷ []) in
      rw open' (omega (arith, more), omega (arith, more), omega arith, omega arith)
  write_response-IsCounted m (ok response) write_timeout h open' r e' =
      (omega arith, omega arith, omega arith, omega arith)
  write_response-IsCounted m (ok response) write_failure h open' r e' =
      (omega arith, omega arith, omega arith, omega arith)

  -- The counters of an open session.
  counters_of_open :
      (m : Metrics) (h : Session)
      → h.closed ≡ false
      → IsCounted m h
      → (h.metrics.requests_total ≡ m.requests_total + length h.written)
        × (h.metrics.errors_total ≡ m.errors_total)
  counters_of_open m h open' (a, b, c, d) =
      let b' = rw open' at b in let d' = rw open' at d in (omega arith, omega arith)

  round-IsCounted :
      (m : Metrics) (limits : ResourceLimits) (r : Read) (w : Write) (h : Session)
      → h.closed ≡ false
      → IsCounted m h
      → IsCounted m (round limits r w h)
  unfolding round answer fail close_session increment_errors increment_requests
  round-IsCounted m limits (received []) w h open' c =
      let (a, b) = counters_of_open m h open' c in
      (omega arith, omega arith, omega arith, omega arith)
  round-IsCounted m limits (received (x ∷ bytes)) w h open' c =
      let (a, b) = counters_of_open m h open' c in
      elim (Bool-cases (is_request_size_allowed limits (length (x ∷ bytes)))) [
        | inl allowed ↦ rw allowed (
            write_response-IsCounted m (process_request (x ∷ bytes) h.context h.service).response w
              _ open' (omega arith) (omega arith))
        | inr large ↦ rw large (omega arith, omega arith, omega arith, omega arith)
      ]
  round-IsCounted m limits read_timeout w h open' c =
      let (a, b) = counters_of_open m h open' c in
      (omega arith, omega arith, omega arith, omega arith)
  round-IsCounted m limits read_failure w h open' c =
      let (a, b) = counters_of_open m h open' c in
      (omega arith, omega arith, omega arith, omega arith)

  write_response-connections :
      (r : Result Bytes) (w : Write) (h : Session)
      → ((write_response r w h).metrics.active_connections ≡ h.metrics.active_connections)
        × ((write_response r w h).metrics.connections_total ≡ h.metrics.connections_total)
  unfolding write_response fail close_session increment_errors
  write_response-connections (raise e) w h = (refl, refl)
  write_response-connections (ok response) sent h = (refl, refl)
  write_response-connections (ok response) write_timeout h = (refl, refl)
  write_response-connections (ok response) write_failure h = (refl, refl)

  -- A round counts no connections.
  pub round-connections :
      (limits : ResourceLimits) (r : Read) (w : Write) (h : Session)
      → ((round limits r w h).metrics.active_connections ≡ h.metrics.active_connections)
        × ((round limits r w h).metrics.connections_total ≡ h.metrics.connections_total)
  unfolding round answer fail close_session increment_errors increment_requests
  round-connections limits (received []) w h = (refl, refl)
  round-connections limits (received (x ∷ bytes)) w h =
      if_intro
        (λ (h' : Session).
          (h'.metrics.active_connections ≡ h.metrics.active_connections)
          × (h'.metrics.connections_total ≡ h.metrics.connections_total))
        (is_request_size_allowed limits (length (x ∷ bytes)))
        (λ allowed.
          write_response-connections (process_request (x ∷ bytes) h.context h.service).response w _)
        (λ large. (refl, refl))
  round-connections limits read_timeout w h = (refl, refl)
  round-connections limits read_failure w h = (refl, refl)

  pub handle-round :
      (limits : ResourceLimits) (r : Read) (w : Write) (io : List (Read × Write)) (h : Session)
      → handle limits ((r, w) ∷ io) h
        ≡ (if h.closed then h else handle limits io (round limits r w h))
  unfolding handle
  handle-round limits r w io h = ground arith

  -- For all limits and all that a socket may show: from a session whose counters agree with what
  -- it wrote, `handle` ends in one whose counters do. Each counted request but the last was
  -- answered, and at most one error is counted.
  pub handle-IsCounted :
      (m : Metrics) (limits : ResourceLimits) (io : List (Read × Write)) (h : Session)
      → IsCounted m h
      → IsCounted m (handle limits io h)
  unfolding handle
  handle-IsCounted m limits [] h c = c
  handle-IsCounted m limits ((r, w) ∷ io) h c = rw (handle-round limits r w io h) (
      if_intro (IsCounted m) h.closed (λ done. c)
        (λ open'.
          handle-IsCounted m limits io (round limits r w h)
            (round-IsCounted m limits r w h open' c)))
