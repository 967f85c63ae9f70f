-- ===== src/Server/Accept/Idle.antt =====
-- Between two connections the server has none.
use mini_redis_test_app.Prelude.{
  ℕ, suc, ◌+◌, ◌≤◌, ◌<◌, ◌≡◌, refl, ◌∙◌, List, [], ◌∷◌, arith, if_intro,
}
use mini_redis_test_app.Platform.{Platform}
use mini_redis_test_app.Result.{Result, ok, raise}
use mini_redis_test_app.Server.{
  ResourceLimits, is_connection_allowed, increment_connections, increment_active_connections,
  decrement_active_connections,
}
use mini_redis_test_app.Server.Accept.{
  Server, Arrival, connection, interrupted, shutdown, timed_out, os_error, keyboard_interrupt,
  open_session, limits_of, serve, admit, accept_loop, stop,
}
use mini_redis_test_app.Server.Session.{Session, Read, Write, handle, round}
use mini_redis_test_app.Server.Session.Counts.{round-connections, handle-round}

module _ ⦃P : Platform⦄ where
  -- The session counts no connections of its own.
  handle-connections :
      (limits : ResourceLimits) (io : List (Read × Write)) (h : Session)
      → ((handle limits io h).metrics.active_connections ≡ h.metrics.active_connections)
        × ((handle limits io h).metrics.connections_total ≡ h.metrics.connections_total)
  unfolding handle
  handle-connections limits [] h = (refl, refl)
  handle-connections limits ((r, w) ∷ io) h = rw (handle-round limits r w io h) (
      if_intro
        (λ (h' : Session).
          (h'.metrics.active_connections ≡ h.metrics.active_connections)
          × (h'.metrics.connections_total ≡ h.metrics.connections_total))
        h.closed (λ done. (refl, refl))
        (λ open'.
          let (a, b) = round-connections limits r w h in
          let (c, d) = handle-connections limits io (round limits r w h) in (c ∙ a, d ∙ b)))

  -- The connections that arrive.
  abbrev pub arrived : List Arrival → ℕ
  arrived [] = 0
  arrived (connection io ∷ rest) = suc (arrived rest)
  arrived (interrupted io ∷ rest) = suc (arrived rest)
  arrived (_ ∷ rest) = arrived rest

  serve-idle :
      (io : List (Read × Write)) (v : Server)
      → v.metrics.active_connections ≡ 0
      → ((serve io v).metrics.active_connections ≡ 0)
        × ((serve io v).metrics.connections_total ≡ v.metrics.connections_total + 1)
  unfolding serve open_session decrement_active_connections increment_active_connections
      increment_connections
  serve-idle io v idle =
      let (a, b) = handle-connections (limits_of v.config) io (open_session v) in
      (ground arith, ground arith)

  -- The server has no connection, and has counted at most the given number.
  abbrev pub IsIdle : ℕ → Result Server → Type 0
  IsIdle n (raise e) = Unit
  IsIdle n (ok v) = (v.metrics.active_connections ≡ 0) × (v.metrics.connections_total ≡ n)

  admit_idle :
      (io : List (Read × Write)) (v : Server)
      → 0 < v.config.max_connections
      → v.metrics.active_connections ≡ 0
      → admit io v ≡ serve io v
  unfolding admit is_connection_allowed limits_of
  admit_idle io v room idle = ground arith

  serve-config : (io : List (Read × Write)) (v : Server) → (serve io v).config ≡ v.config
  unfolding serve
  serve-config io v = refl

  -- A result of the loop that has counted at most the given number.
  abbrev pub HasCounted : ℕ → Result Server → Type 0
  HasCounted most r = (n : ℕ) × (n ≤ most) × IsIdle n r

  HasCounted-weaken : (r : Result Server) {a b : ℕ} → HasCounted a r → a ≤ b → HasCounted b r
  HasCounted-weaken r (n, h, idle) le = (n, omega arith, idle)

  idle_counts :
      (v : Server) (more : ℕ)
      → v.metrics.active_connections ≡ 0
      → HasCounted (v.metrics.connections_total + more) (ok v)
  idle_counts v more idle = (v.metrics.connections_total, omega arith, (idle, refl))

  stop-HasCounted :
      (v : Server) (more : ℕ)
      → v.metrics.active_connections ≡ 0
      → HasCounted (v.metrics.connections_total + more) (ok (stop v))
  unfolding stop
  stop-HasCounted v more idle =
      if_intro (λ (v' : Server). HasCounted (v.metrics.connections_total + more) (ok v'))
        v.shutdown_requested (λ down. idle_counts v more idle)
        (λ up. (v.metrics.connections_total, omega arith, (idle, refl)))

  -- From a server without connections whose limit on them is not 0, whatever arrives: when the
  -- loop ends, except by an OSError, the server has no connection again, and it has counted at
  -- most those that arrived.
  pub accept_loop-HasCounted :
      (arrivals : List Arrival) (v : Server)
      → 0 < v.config.max_connections
      → v.metrics.active_connections ≡ 0
      → HasCounted (v.metrics.connections_total + arrived arrivals) (accept_loop arrivals v)
  unfolding accept_loop stop
  accept_loop-HasCounted [] v room idle = idle_counts v 0 idle
  accept_loop-HasCounted (connection io ∷ rest) v room idle =
      if_intro (HasCounted (v.metrics.connections_total + suc (arrived rest))) v.shutdown_requested
        (λ down. idle_counts v (suc (arrived rest)) idle)
        (λ up.
          let (none_left, one_more) = serve-idle io v idle in
          rw (admit_idle io v room idle) (
            HasCounted-weaken (accept_loop rest (serve io v))
              (accept_loop-HasCounted rest (serve io v) (rw (serve-config io v) room) none_left)
              (omega arith)))
  accept_loop-HasCounted (timed_out ∷ rest) v room idle =
      if_intro (HasCounted (v.metrics.connections_total + arrived rest)) v.shutdown_requested
        (λ down. idle_counts v (arrived rest) idle) (λ up. accept_loop-HasCounted rest v room idle)
  accept_loop-HasCounted (os_error ∷ rest) v room idle =
      if_intro (HasCounted (v.metrics.connections_total + arrived rest)) v.shutdown_requested
        (λ down. idle_counts v (arrived rest) idle) (λ up. (0, omega arith, tt))
  accept_loop-HasCounted (keyboard_interrupt ∷ rest) v room idle =
      if_intro (HasCounted (v.metrics.connections_total + arrived rest)) v.shutdown_requested
        (λ down. idle_counts v (arrived rest) idle) (λ up. stop-HasCounted v (arrived rest) idle)
  accept_loop-HasCounted (shutdown ∷ rest) v room idle =
      if_intro (HasCounted (v.metrics.connections_total + arrived rest)) v.shutdown_requested
        (λ down. idle_counts v (arrived rest) idle) (λ up. stop-HasCounted v (arrived rest) idle)
  accept_loop-HasCounted (interrupted io ∷ rest) v room idle =
      if_intro (HasCounted (v.metrics.connections_total + suc (arrived rest))) v.shutdown_requested
        (λ down. idle_counts v (suc (arrived rest)) idle)
        (λ up.
          let (none_left, one_more) = serve-idle io v idle in
          rw (admit_idle io v room idle) (
            HasCounted-weaken (ok (stop (serve io v)))
              (stop-HasCounted (serve io v) (arrived rest) none_left) (omega arith)))
