-- ===== src/Resp/Hello.antt =====
-- internal/protocol/resp/hello_handler.py
use mini_redis_test_app.Prelude.{Bool, false, ◌||◌, ◌==◌, if◌then◌else◌}
use mini_redis_test_app.Prelude.Int.{ℤ, pos, negsuc}
use mini_redis_test_app.Resp.{
  RespValue, simple_string, simple_error, number, map, end, entry, err_unsupported_protocol_version,
}
use mini_redis_test_app.Text.{codes}

-- `version in {2, 3}`
unfoldable pub is_supported : ℤ → Bool
is_supported (pos n) = n == 2 || n == 3
is_supported (negsuc n) = false

unfoldable pub handle : ℤ → RespValue
unfolding is_supported
handle version =
    if is_supported version
    then map (
        entry (simple_string (codes "server")) (simple_string (codes "mini-redis")) (
          entry (simple_string (codes "version")) (simple_string (codes "1.0"))
            (entry (simple_string (codes "proto")) (number version) end)))
    else simple_error (codes err_unsupported_protocol_version)
