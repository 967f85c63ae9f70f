-- ===== src/Server.antt =====
-- internal/server, internal/guard and internal/observability: the counters, the limits and the
-- session.
pub mod Session
pub mod Accept
pub mod Steps
use mini_redis_test_app.Prelude.{ℕ, zero, suc, ◌+◌, ◌-◌, Bool, true, leb, ltb, if◌then◌else◌}

-- metrics.py
pub record Metrics : Type 0 where
  pub connections_total : ℕ
  pub active_connections : ℕ
  pub requests_total : ℕ
  pub errors_total : ℕ

unfoldable pub increment_connections : Metrics → Metrics
increment_connections m = record m { connections_total = m.connections_total + 1 }

unfoldable pub increment_active_connections : Metrics → Metrics
increment_active_connections m = record m { active_connections = m.active_connections + 1 }

unfoldable pub decrement_active_connections : Metrics → Metrics
decrement_active_connections m =
    if ltb 0 m.active_connections
    then record m { active_connections = m.active_connections - 1 }
    else m

unfoldable pub increment_requests : Metrics → Metrics
increment_requests m = record m { requests_total = m.requests_total + 1 }

unfoldable pub increment_errors : Metrics → Metrics
increment_errors m = record m { errors_total = m.errors_total + 1 }

-- limits.py
pub record ResourceLimits : Type 0 where
  pub max_connections : ℕ
  pub max_request_size_bytes : ℕ
  pub max_array_items : ℕ
  pub max_resp_depth : ℕ
  pub max_blob_size_bytes : ℕ

-- resource_guard.py
unfoldable pub is_request_size_allowed : ResourceLimits → ℕ → Bool
is_request_size_allowed limits size_bytes = leb size_bytes limits.max_request_size_bytes

unfoldable pub validate_request_size : ResourceLimits → ℕ → Bool
unfolding is_request_size_allowed
validate_request_size limits size_bytes = is_request_size_allowed limits size_bytes

unfoldable pub is_connection_allowed : ResourceLimits → ℕ → Bool
is_connection_allowed limits active_connections = ltb active_connections limits.max_connections
