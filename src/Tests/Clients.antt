-- ===== src/Tests/Clients.antt =====
-- The theorems on the clients and on the accept loop at concrete inputs.
use mini_redis_test_app.Prelude.{
  ◌≤◌, ◌<◌, ◌≡◌, refl, inl, inr, false, none, some, List, [], ◌∷◌, ◌++◌, All, length, arith,
}
use mini_redis_test_app.Prelude.Int.{pos}
use mini_redis_test_app.Arena.Client.{
  RedisEntry, Client, is_string, is_hash, purge_expired, used_memory_bytes, candidate,
  enforce_max_memory,
}
use mini_redis_test_app.Arena.Client.Methods
use mini_redis_test_app.Arena.Client.Reads.{KeepsOthers, HasFields, Reads, set-get, hset-hget}
use mini_redis_test_app.Arena.Client.Room.{enforce_max_memory-le, eviction_candidate-candidate}
use mini_redis_test_app.Arena.Client.Shapes.{entry_of}
use mini_redis_test_app.Cli.Responses.{blob_string, text, read_response}
use mini_redis_test_app.Cli.Responses.Blobs.{read_response-encode}
use mini_redis_test_app.Config.{default_config}
use mini_redis_test_app.Dict
use mini_redis_test_app.Dict.{keys}
use mini_redis_test_app.Repository.{string_entry}
use mini_redis_test_app.Resp
use mini_redis_test_app.Resp.Encoder
use mini_redis_test_app.Result.{ok, raise, type_error}
use mini_redis_test_app.Samples.{sample, empty_state, finite}
use mini_redis_test_app.Server.Accept.{
  Server, Arrival, connection, timed_out, keyboard_interrupt, accept_loop,
}
use mini_redis_test_app.Server.Accept.Idle.{HasCounted, accept_loop-HasCounted}
use mini_redis_test_app.Server.Session.{Read, Write, received, sent}
use mini_redis_test_app.Service.{State}
use mini_redis_test_app.Service.Memory.{eviction_candidate}
use mini_redis_test_app.Text.{Text, codes, text_eq}
use mini_redis_test_app.Text.Decimal.{print_nat, max_str_digits}
use mini_redis_test_app.Text.Utf8
use mini_redis_test_app.Text.Utf8.{IsScalar}

abbrev plain_entry : Text → RedisEntry
plain_entry v = record { kind = is_string; value = some v; fields = []; expires_at = none }

abbrev cached : Client
cached = record {
  entries = (codes "a", plain_entry (codes "xyz")) ∷ (codes "b", plain_entry (codes "q")) ∷ [];
  max_memory_bytes = some 3;
  evicted_keys = 0;
  access_clock = 2;
  access_order = (codes "b", 1) ∷ (codes "a", 2) ∷ [];
  readings = λ n. finite (pos n);
  reads = 0;
}

abbrev same_keys : State
same_keys = record empty_state {
  store = (codes "a", string_entry (codes "1")) ∷ (codes "b", string_entry (codes "2")) ∷ [];
  access_order = (codes "b", 1) ∷ (codes "a", 2) ∷ [];
}

enforce_max_memory-le_example : used_memory_bytes (enforce_max_memory (codes "a" ∷ []) cached) ≤ 3
enforce_max_memory-le_example = enforce_max_memory-le (codes "a" ∷ []) cached 3 refl

keys-same : keys same_keys.store ≡ keys cached.entries
unfolding keys
keys-same = refl

eviction_candidate-candidate_example :
    (eviction_candidate (codes "a" ∷ []) same_keys).0 ≡ ok (candidate (codes "a" ∷ []) cached)
eviction_candidate-candidate_example =
    eviction_candidate-candidate (codes "a" ∷ []) cached same_keys keys-same refl

abbrev accent : Text
accent = 99 ∷ 0xE9 ∷ []

accent-IsScalar : All IsScalar accent
accent-IsScalar = (inl (omega arith), (inl (omega arith), tt))

accent-fits : length (print_nat (length (Utf8.encode accent))) ≤ max_str_digits
unfolding print_nat Utf8.encode
accent-fits = ground arith

read_response-encode_example :
    read_response (λ v. []) 1 (Encoder.encode (pos 2) (Resp.blob_string accent) ++ codes "+OK\r\n")
    ≡ ok (record { kind = blob_string; value = text accent }, codes "+OK\r\n")
read_response-encode_example =
    read_response-encode (λ v. []) 0 (pos 2) accent (codes "+OK\r\n") accent-IsScalar accent-fits

abbrev server : Server
server = record {
  config = default_config;
  metrics = record {
    connections_total = 0;
    active_connections = 0;
    requests_total = 0;
    errors_total = 0;
  };
  service = empty_state;
  shutdown_requested = false;
  sweeper_running = false;
}

abbrev arrivals : List Arrival
arrivals =
    connection ((received (codes "*1\r\n$4\r\nPING\r\n"), sent) ∷ [])
    ∷ timed_out
    ∷ keyboard_interrupt
    ∷ []

some_room : 0 < default_config.max_connections
unfolding default_config
some_room = omega arith

accept_loop-HasCounted_example : HasCounted 1 (accept_loop arrivals server)
accept_loop-HasCounted_example = accept_loop-HasCounted arrivals server some_room refl

abbrev greeting : List (Read × Write)
greeting = (received (codes "*1\r\n$4\r\nPING\r\n"), sent) ∷ []

-- A client without a limit that stores a hash.
abbrev hashes : Client
hashes = record cached {
  entries = (codes "h", entry_of is_hash none ((codes "f", codes "1") ∷ []) none) ∷ cached.entries;
  max_memory_bytes = none;
}

set-get_example :
    let (r, c') = Methods.set (codes "a") (codes "new") hashes in
    (r ≡ ok tt)
    × ((Methods.get (codes "a") c').0 ≡ ok (some (codes "new")))
    × ((Methods.hget (codes "a") (codes "f") c').0 ≡ raise type_error)
    × KeepsOthers (codes "a") hashes c'
set-get_example = set-get (codes "a") (codes "new") (codes "f") hashes refl

hashes-HasFields : HasFields (codes "h") ((codes "f", codes "1") ∷ []) hashes
unfolding purge_expired Dict.get text_eq
hashes-HasFields = inr (none, refl)

hset-hget_example :
    Reads
      (codes "h")
      (codes "g")
      (codes "2")
      (codes "f")
      ((codes "f", codes "1") ∷ [])
      hashes
      (Methods.hset (codes "h") (codes "g") (codes "2") hashes)
hset-hget_example =
    hset-hget (codes "h") (codes "g") (codes "2") (codes "f") ((codes "f", codes "1") ∷ []) hashes
      refl hashes-HasFields
