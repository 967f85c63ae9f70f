-- ===== src/Arena/Gateway.antt =====
-- internal/arena/gateway/service.py: the state, the profiles and the control of the lanes, over any two lanes; the protocol of the lanes is
-- `ArenaLaneExecutor` of internal/arena/gateway/lane_client.py.
pub mod Execute
pub mod Locked
pub mod Sound
use mini_redis_test_app.Prelude.{
  ℕ, Bool, true, false, ◌&&◌, not, Option, none, some, List, [], ◌∷◌, ◌++◌, map, length,
  if◌then◌else◌,
}
use mini_redis_test_app.Arena.Events.{EventHistory, append, snapshot}
use mini_redis_test_app.Arena.Interfaces.{Method}
use mini_redis_test_app.Arena.Models.{
  RequestMode, manual, scenario, ManualCommandInput, ArenaRequest, LaneResult, ExecutionResult,
  SeedStateInput,
}
use mini_redis_test_app.Arena.Profiles.{
  MemoryProfile, TtlProfile, memory_profiles, ttl_profiles, default_memory_profile,
  default_ttl_profile,
}
use mini_redis_test_app.Arena.Summary.{build_execution}
use mini_redis_test_app.Dict
use mini_redis_test_app.Dict.{Dict, contains, keys}
use mini_redis_test_app.Platform.{Platform}
use mini_redis_test_app.Result.{Result, ok, raise, value_error, index_error, runtime_error}
use mini_redis_test_app.Text.{Text, codes, text_eq}

-- `add` of a set of texts.
unfoldable pub add_key : Text → List Text → List Text
add_key key known = if contains known key then known else known ++ key ∷ []

unfoldable pub add_keys : List Text → List Text → List Text
unfolding add_key
add_keys [] known = known
add_keys (key ∷ rest) known = add_keys rest (add_key key known)

module _ ⦃P : Platform⦄ where
  -- A lane may lack `configure_memory` and `health`. Of a health report only the status is read.
  pub record ArenaLaneExecutor : Type 1 where
    pub Lane : Type 0
    pub Report : Type 0
    pub execute : ArenaRequest → Method Lane LaneResult
    pub clear : List Text → Bool → Method Lane (Unit {0})
    pub seed : SeedStateInput → Method Lane (Unit {0})
    pub configure_memory : Option (Text → ℕ → Method Lane Report)
    pub health : Option (Method Lane (Option Text))

  pub data Payload : Type 0 where
    execution_payload : ExecutionResult → Payload
    message_payload : Text → Payload

  pub record EventEnvelope : Type 0 where
    pub event_type : Text
    pub payload : Payload

  module _ (A : ArenaLaneExecutor) (B : ArenaLaneExecutor) where
    -- The queues are those of the subscribers of the event bus.
    pub record Gateway : Type 0 where
      pub redis_lane : A.Lane
      pub db_only_lane : B.Lane
      pub known_keys : List Text
      pub selected_memory_profile : Text
      pub selected_ttl_profile : Option Text
      pub memory_locked : Bool
      pub event_history : EventHistory EventEnvelope
      pub queues : List (List EventEnvelope)

    unfoldable pub new_gateway :
        A.Lane → B.Lane → EventHistory EventEnvelope → List (List EventEnvelope) → Gateway
    new_gateway redis db history queues = record {
      redis_lane = redis;
      db_only_lane = db;
      known_keys = [];
      selected_memory_profile = default_memory_profile;
      selected_ttl_profile = some default_ttl_profile;
      memory_locked = false;
      event_history = history;
      queues = queues;
    }

    -- `_publish`
    unfoldable pub publish : EventEnvelope → Gateway → Gateway
    unfolding append
    publish envelope g = record g {
      event_history = append envelope g.event_history;
      queues = map (λ queue. queue ++ envelope ∷ []) g.queues;
    }

    unfoldable pub publish_message : Text → Text → Gateway → Gateway
    unfolding publish
    publish_message event_type message g =
        publish (record { event_type = event_type; payload = message_payload message }) g

    unfoldable pub lock_memory_profile : Gateway → Gateway
    lock_memory_profile g = record g { memory_locked = true }

    abbrev missing_profile {ℓ} : {V : Type ℓ} → Option V → Result V
    missing_profile none = raise index_error
    missing_profile (some profile) = ok profile

    abbrev configure :
        Option (Text → ℕ → Method A.Lane A.Report)
        → Result MemoryProfile
        → Method Gateway (Option A.Report)
    configure none _ g = (ok none, g)
    configure (some _) (raise e) g = (raise e, g)
    configure (some method) (ok profile) g =
        let (r, lane) = method profile.key profile.max_memory_bytes g.redis_lane in
        (
          elim r [ ok report ↦ ok (some report) | raise e ↦ raise e ],
          record g { redis_lane = lane },
        )

    -- A missing key of the dictionary of profiles raises KeyError, here `index_error`.
    unfoldable pub apply_selected_memory_profile : Method Gateway (Option A.Report)
    unfolding memory_profiles
    apply_selected_memory_profile g =
        configure A.configure_memory
          (missing_profile (Dict.get memory_profiles g.selected_memory_profile)) g

    unfoldable pub initialize : Method Gateway (Option A.Report)
    unfolding apply_selected_memory_profile
    initialize g = apply_selected_memory_profile g

    unfoldable pub set_memory_profile : Text → Method Gateway (Option A.Report)
    unfolding memory_profiles apply_selected_memory_profile
    set_memory_profile profile_key g =
        if not (contains (keys memory_profiles) profile_key)
        then (raise value_error, g)
        else (if g.memory_locked
            then (raise runtime_error, g)
            else apply_selected_memory_profile (record g { selected_memory_profile = profile_key }))

    -- The exception of a lane ends the call; when both lanes raise, that of the first is taken.
    abbrev pub both : {X Y : Type 0} → Result X → Result Y → Result (X × Y)
    both (ok x) (ok y) = ok (x, y)
    both (ok x) (raise e) = raise e
    both (raise e) _ = raise e

    unfoldable pub reset_state : Method Gateway (Unit {0})
    unfolding apply_selected_memory_profile
    reset_state g =
        let (r, a) = A.clear [] true g.redis_lane in
        let (r', b) = B.clear [] true g.db_only_lane in
        let g' = record g { redis_lane = a; db_only_lane = b } in
        elim (both r r') [
          | raise e ↦ (raise e, g')
          | ok _ ↦
              let (applied, g'') =
                apply_selected_memory_profile
                  (record g' { known_keys = []; memory_locked = false }) in
              (elim applied [ raise e ↦ raise e | ok _ ↦ ok tt ], g'')
        ]

    unfoldable pub seed_state : SeedStateInput → Method Gateway (Unit {0})
    unfolding add_keys
    seed_state input g =
        let (r, a) = A.seed input g.redis_lane in
        let (r', b) = B.seed input g.db_only_lane in
        let g' = record g { redis_lane = a; db_only_lane = b } in
        elim (both r r') [
          | raise e ↦ (raise e, g')
          | ok _ ↦ (ok tt, record g' { known_keys = add_keys (keys input.documents) g'.known_keys })
        ]

    -- `_lane_health`: the status of a lane.
    abbrev pub status_of : {L : Type 0} → Option (Method L (Option Text)) → L → Option Text × L
    status_of none lane = (some (codes "unknown"), lane)
    status_of (some health) lane =
        let (r, lane') = health lane in
        (elim r [ ok status ↦ status | raise _ ↦ some (codes "error") ], lane')
