-- ===== src/Resp.antt =====
-- internal/protocol/resp: the RESP values, the messages, the decoder and the encoder.
pub mod Decoder
pub mod Encoder
pub mod Hello
use mini_redis_test_app.Prelude.{ℕ, suc, String, Bool, List, [], ◌∷◌}
use mini_redis_test_app.Prelude.Int.{ℤ}
use mini_redis_test_app.Text.{Text}

-- types.py; the tuples inside `RespArray` and `RespMap` are types of the block.
mutual
  pub data RespValue : Type 0 where
    simple_string blob_string simple_error : Text → RespValue
    number : ℤ → RespValue
    null : RespValue
    array : RespItems → RespValue
    map : RespEntries → RespValue
    boolean : Bool → RespValue

  pub data RespItems : Type 0 where
    nil : RespItems
    cons : RespValue → RespItems → RespItems

  pub data RespEntries : Type 0 where
    end : RespEntries
    entry : RespValue → RespValue → RespEntries → RespEntries

-- A tuple of values, and `len` of it.
abbrev pub items_of : List RespValue → RespItems
items_of [] = nil
items_of (v ∷ vs) = cons v (items_of vs)

abbrev pub list_of : RespItems → List RespValue
list_of nil = []
list_of (cons v vs) = v ∷ list_of vs

abbrev pub count_items : RespItems → ℕ
count_items nil = 0
count_items (cons v vs) = suc (count_items vs)

abbrev pub count_entries : RespEntries → ℕ
count_entries end = 0
count_entries (entry k v es) = suc (count_entries es)

-- messages.py
abbrev pub resp_ok : String
resp_ok = "OK"

abbrev pub resp_err_prefix : String
resp_err_prefix = "ERR"

abbrev pub err_empty_command : String
err_empty_command = "empty command"

abbrev pub err_protocol_error : String
err_protocol_error = "protocol error"

abbrev pub err_unsupported_command : String
err_unsupported_command = "unsupported command"

abbrev pub err_wrong_number_of_arguments : String
err_wrong_number_of_arguments = "wrong number of arguments"

abbrev pub err_invalid_integer : String
err_invalid_integer = "invalid integer"

abbrev pub err_invalid_float : String
err_invalid_float = "invalid float"

abbrev pub err_invalid_ttl : String
err_invalid_ttl = "invalid ttl"

abbrev pub err_invalid_db : String
err_invalid_db = "DB index is out of range"

abbrev pub err_unsupported_protocol_version : String
err_unsupported_protocol_version = "unsupported protocol version"

abbrev pub err_unsupported_auth : String
err_unsupported_auth = "AUTH is not configured"

abbrev pub err_unsupported_client_subcommand : String
err_unsupported_client_subcommand = "unsupported CLIENT subcommand"

abbrev pub err_wrong_type : String
err_wrong_type = "WRONGTYPE Operation against a key holding the wrong kind of value"
