-- ===== src/Config.antt =====
-- internal/config: defaults.py and runtime_config.py.
use mini_redis_test_app.Prelude.{ℕ, ◌*◌, Bool, true}
use mini_redis_test_app.Text.{Text, codes}

pub record RuntimeConfig : Type 0 where
  pub host : Text
  pub port : ℕ
  pub connect_timeout_seconds : ℕ
  pub read_timeout_seconds : ℕ
  pub write_timeout_seconds : ℕ
  pub idle_timeout_seconds : ℕ
  pub max_connections : ℕ
  pub max_request_size_bytes : ℕ
  pub max_array_items : ℕ
  pub max_resp_depth : ℕ
  pub max_blob_size_bytes : ℕ
  pub max_memory_bytes : ℕ
  pub expiration_sweep_interval_seconds : ℕ
  pub expiration_sweep_batch_size : ℕ
  pub expiration_sweep_enabled : Bool
  pub log_level : Text
  pub graceful_shutdown_seconds : ℕ

-- `RuntimeConfig.default()`, with the constants of defaults.py.
unfoldable pub default_config : RuntimeConfig
default_config = record {
  host = codes "127.0.0.1";
  port = 6379;
  connect_timeout_seconds = 3;
  read_timeout_seconds = 5;
  write_timeout_seconds = 5;
  idle_timeout_seconds = 5;
  max_connections = 100;
  max_request_size_bytes = 4 * 1024;
  max_array_items = 64;
  max_resp_depth = 8;
  max_blob_size_bytes = 4 * 1024;
  max_memory_bytes = 0;
  expiration_sweep_interval_seconds = 10;
  expiration_sweep_batch_size = 100;
  expiration_sweep_enabled = true;
  log_level = codes "INFO";
  graceful_shutdown_seconds = 10;
}

unfoldable pub with_connection_target : Text → ℕ → RuntimeConfig → RuntimeConfig
with_connection_target host port config = record config { host = host; port = port }
