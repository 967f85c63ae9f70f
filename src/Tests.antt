-- ===== src/Tests.antt =====
-- The theorems at concrete inputs, and runs of the model.
mod Clients
mod Arenas
mod Seeds
mod Services
use mini_redis_test_app.Prelude.{
  ℕ, ◌+◌, ◌≤◌, ◌≡◌, ◌⊎◌, inl, refl, false, none, some, List, [], ◌∷◌, map, length, take, get_elem?,
  All, arith, if◌then◌else◌,
}
use mini_redis_test_app.Prelude.Int.{pos, negsuc}
use mini_redis_test_app.Cli.{build_command_frame}
use mini_redis_test_app.Cli.Requests.{decode-build_command_frame, decode-build_command_frame_wide}
use mini_redis_test_app.Cli.Requests.Texts.{IsPlain, IsPrintable}
use mini_redis_test_app.Dict
use mini_redis_test_app.Dict.{contains, keys}
use mini_redis_test_app.Repository.{string_entry}
use mini_redis_test_app.Resp.{simple_string, blob_string, number, null, resp_ok, items_of}
use mini_redis_test_app.Resp.Decoder.{decode, protocol_error}
use mini_redis_test_app.Result.{ok}
use mini_redis_test_app.Samples.{sample, empty_state, request, finite}
use mini_redis_test_app.Server.{ResourceLimits, Metrics}
use mini_redis_test_app.Server.Session.{
  Session, Read, Write, new_context, handle, process_request, received, read_timeout, sent,
  write_timeout,
}
use mini_redis_test_app.Server.Session.Counts.{IsCounted, handle-IsCounted}
use mini_redis_test_app.Server.Steps.{start, step, served, swept_once, Reachable-IsBacked}
use mini_redis_test_app.Service.{State}
use mini_redis_test_app.Service.Backed.{IsBacked, execute-IsBacked}
use mini_redis_test_app.Service.Bound.{ensure_max_memory-fits}
use mini_redis_test_app.Service.Entries.{slice_sequence}
use mini_redis_test_app.Service.Execute.{execute}
use mini_redis_test_app.Service.Lru.{IsLru, eviction_candidate-IsLru}
use mini_redis_test_app.Service.Measure.{used_bytes}
use mini_redis_test_app.Service.Memory.{ensure_max_memory, eviction_candidate}
use mini_redis_test_app.Service.Room.{execute_set-fits}
use mini_redis_test_app.Service.Slices.{is_within, first_index, slice_sequence-at}
use mini_redis_test_app.Service.Strings.{
  execute_set-get, execute_get-eq, execute_del-get, string_reply, live_entry, count_live,
}
use mini_redis_test_app.Service.Sweeper.{sweep_once}
use mini_redis_test_app.Service.Sweeper.Removal.{swept, sweep_once-swept}
use mini_redis_test_app.Service.Ttl.{ttl_reply, number_reply, execute_ttl-eq}
use mini_redis_test_app.Text.{codes}
use mini_redis_test_app.Text.Decimal.{print_nat, max_str_digits}
use mini_redis_test_app.Text.Utf8

-- Two strings, one of which expires at second 9, and a limit of 3 bytes.
abbrev stored : State
stored = record empty_state {
  store = (codes "a", string_entry (codes "xyz")) ∷ (codes "b", string_entry (codes "q")) ∷ [];
  ttl = (codes "b", finite (pos 9)) ∷ [];
}

abbrev limited : State
limited = record stored { max_memory_bytes = some 3 }

empty-IsBacked : IsBacked empty_state
empty-IsBacked = unfold Dict.get in record { at_key = λ k e. refl }

stored-IsBacked : IsBacked stored
stored-IsBacked = unfold Dict.get in record { at_key = λ k e. ground arith }

ensure_max_memory-fits_example :
    ((ensure_max_memory (codes "a" ∷ []) limited).0 ≡ ok tt)
    × (used_bytes (ensure_max_memory (codes "a" ∷ []) limited).1 ≤ 3)
ensure_max_memory-fits_example = ensure_max_memory-fits (codes "a" ∷ []) limited 3 refl

Reachable-IsBacked_example :
    IsBacked
      (sweep_once 5
        (process_request (codes "*2\r\n$3\r\nDEL\r\n$1\r\nb\r\n") new_context stored).service).1
Reachable-IsBacked_example =
    Reachable-IsBacked
      (step (step start (served (codes "*2\r\n$3\r\nDEL\r\n$1\r\nb\r\n") new_context))
        (swept_once 5))
      stored-IsBacked

execute-IsBacked_example : IsBacked (execute (request "EXPIRE" ("a" ∷ "5" ∷ [])) stored).1
execute-IsBacked_example =
    execute-IsBacked (request "EXPIRE" ("a" ∷ "5" ∷ [])) stored stored-IsBacked

execute_set-fits_example :
    ((execute (request "SET" ("k" ∷ "hello" ∷ [])) limited).0 ≡ ok (simple_string (codes resp_ok)))
    × (used_bytes (execute (request "SET" ("k" ∷ "hello" ∷ [])) limited).1 ≤ 3)
execute_set-fits_example = execute_set-fits (codes "k") (codes "hello") limited 3 refl

execute_set-get_example :
    ((execute (request "SET" ("b" ∷ "hello" ∷ [])) stored).0 ≡ ok (simple_string (codes resp_ok)))
    × ((execute
          (request "GET" ("b" ∷ []))
          (execute (request "SET" ("b" ∷ "hello" ∷ [])) stored).1).0
        ≡ ok (blob_string (codes "hello")))
    × (Dict.get (execute (request "SET" ("b" ∷ "hello" ∷ [])) stored).1.ttl (codes "b") ≡ none)
    × ((codes "b" ≡ codes "a")
        ⊎ (Dict.get (execute (request "SET" ("b" ∷ "hello" ∷ [])) stored).1.store (codes "a")
            ≡ Dict.get stored.store (codes "a")))
    × ((codes "b" ≡ codes "a")
        ⊎ (Dict.get (execute (request "SET" ("b" ∷ "hello" ∷ [])) stored).1.ttl (codes "a")
            ≡ Dict.get stored.ttl (codes "a")))
execute_set-get_example = execute_set-get (codes "b") (codes "hello") (codes "a") stored refl

execute_get-eq_example :
    (execute (request "GET" ("b" ∷ [])) stored).0 ≡ string_reply (live_entry stored (codes "b"))
execute_get-eq_example = execute_get-eq (codes "b") stored

execute_ttl-eq_example :
    (execute (request "TTL" ("b" ∷ [])) stored).0 ≡ number_reply (ttl_reply stored (codes "b"))
execute_ttl-eq_example = execute_ttl-eq (codes "b") stored

execute_del-get_example :
    ((execute (request "DEL" ("b" ∷ [])) stored).0
      ≡ ok (number (pos (count_live (live_entry stored (codes "b"))))))
    × ((execute (request "GET" ("b" ∷ [])) (execute (request "DEL" ("b" ∷ [])) stored).1).0
        ≡ ok null)
    × ((codes "b" ≡ codes "a")
        ⊎ (Dict.get (execute (request "DEL" ("b" ∷ [])) stored).1.store (codes "a")
            ≡ Dict.get stored.store (codes "a")))
execute_del-get_example = execute_del-get (codes "b") (codes "a") stored

sweep_once-swept_example :
    (Dict.get (sweep_once 5 stored).1.store (codes "b")
      ≡ swept
          (finite (pos 0))
          (take 5 (keys stored.ttl))
          stored
          (codes "b")
          (Dict.get stored.store (codes "b")))
    × (Dict.get (sweep_once 5 stored).1.ttl (codes "b")
        ≡ swept
            (finite (pos 0))
            (take 5 (keys stored.ttl))
            stored
            (codes "b")
            (Dict.get stored.ttl (codes "b")))
    × (m : ℕ) × ((sweep_once 5 stored).0 ≡ ok m)
    × (m ≤ 5)
sweep_once-swept_example = sweep_once-swept 5 stored (codes "b")

eviction_candidate-IsLru_example :
    ((eviction_candidate (codes "a" ∷ []) stored).1 ≡ stored)
    × IsLru (codes "a" ∷ []) stored (eviction_candidate (codes "a" ∷ []) stored).0
eviction_candidate-IsLru_example = eviction_candidate-IsLru (codes "a" ∷ []) stored

abbrev three : List ℕ
three = 1 ∷ 2 ∷ 3 ∷ []

slice_sequence-at_example : get_elem? (slice_sequence three (negsuc 1) (negsuc 0)) 1 ≡ (
    if is_within 3 (1 + first_index 3 (negsuc 1)) (negsuc 0)
    then get_elem? three (1 + first_index 3 (negsuc 1))
    else none)
slice_sequence-at_example = slice_sequence-at three (negsuc 1) (negsuc 0) 1

abbrev limits : ResourceLimits
limits = record {
  max_connections = 100;
  max_request_size_bytes = 4096;
  max_array_items = 64;
  max_resp_depth = 8;
  max_blob_size_bytes = 4096;
}

abbrev no_requests : Metrics
no_requests = record {
  connections_total = 1;
  active_connections = 1;
  requests_total = 0;
  errors_total = 0;
}

abbrev opened : Session
opened = record {
  context = new_context;
  service = stored;
  metrics = no_requests;
  written = [];
  closed = false;
}

-- A request that is answered, and one whose answer cannot be written in time.
abbrev socket : List (Read × Write)
socket =
    (received (codes "*1\r\n$4\r\nPING\r\n"), sent)
    ∷ (received (codes "*2\r\n$3\r\nGET\r\n$1\r\na\r\n"), write_timeout)
    ∷ (read_timeout, sent)
    ∷ []

handle-IsCounted_example : IsCounted no_requests (handle limits socket opened)
handle-IsCounted_example =
    handle-IsCounted no_requests limits socket opened
      (omega arith, omega arith, omega arith, omega arith)

command-IsPlain : All IsPlain (codes "SET" ∷ codes "k" ∷ [])
unfolding print_nat Utf8.encode
command-IsPlain = (
  ((omega arith, (omega arith, (omega arith, tt))), ground arith),
  (((omega arith, tt), ground arith), tt),
)

frame_parts : All IsPlain (codes "SET" ∷ codes "k" ∷ codes "hi" ∷ [])
unfolding print_nat Utf8.encode
frame_parts = (
  command-IsPlain.0,
  (command-IsPlain.1.0, (((omega arith, (omega arith, tt)), ground arith), tt)),
)

three-IsPrintable : length (print_nat 3) ≤ max_str_digits
unfolding print_nat
three-IsPrintable = ground arith

decode-build_command_frame_example :
    decode (build_command_frame (codes "SET") (codes "k" ∷ codes "hi" ∷ []))
    ≡ ok (items_of (map blob_string (codes "SET" ∷ codes "k" ∷ codes "hi" ∷ [])))
decode-build_command_frame_example =
    decode-build_command_frame (codes "SET") (codes "k" ∷ codes "hi" ∷ []) refl frame_parts
      three-IsPrintable

wide-IsPrintable : IsPrintable (99 ∷ 0xE9 ∷ [])
unfolding print_nat Utf8.encode
wide-IsPrintable = ground arith

-- SET k with the value of two characters, c and e with an acute accent.
decode-build_command_frame_wide_example :
    decode (build_command_frame (codes "SET") (codes "k" ∷ (99 ∷ 0xE9 ∷ []) ∷ [])) ≡ protocol_error
decode-build_command_frame_wide_example =
    decode-build_command_frame_wide (codes "SET") (codes "k" ∷ []) (99 ∷ []) [] 0xE9 refl
      command-IsPlain (inl (omega arith), (inl (omega arith), tt)) (omega arith) wide-IsPrintable
      three-IsPrintable
