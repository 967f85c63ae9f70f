-- ===== src/Arena/Lanes/Agree/Traces.antt =====
-- internal/arena/lane: the two adapters on the same sequence of requests.
use mini_redis_test_app.Prelude.{◌≡◌, Bool, true, false, List, [], ◌∷◌}
use mini_redis_test_app.Arena.Interfaces.{ArenaRepository, MiniRedisClient, in_memory_repository}
use mini_redis_test_app.Arena.Lanes.{Progress, no_progress, Outside, default_ttl_seconds, Measured}
use mini_redis_test_app.Arena.Lanes.Agree.{IsCoherent}
use mini_redis_test_app.Arena.Lanes.DbOnly
use mini_redis_test_app.Arena.Lanes.RedisDb.{Stores}
use mini_redis_test_app.Arena.Lanes.RedisDb.Execute
use mini_redis_test_app.Arena.Lawful.{View, IsLawful}
use mini_redis_test_app.Arena.Models.{
  CommandName, hget_command, hgetall_command, ArenaRequest, LaneResult,
}
use mini_redis_test_app.Arena.Mongo
use mini_redis_test_app.Arena.Mongo.{Documents}
use mini_redis_test_app.Platform.{Platform}
use mini_redis_test_app.Result.{Result, ok}
use mini_redis_test_app.Text.{Text}

module _ ⦃P : Platform⦄ where
  -- What the user sees of a result: all but the times, the path and the counts.
  abbrev pub IsSameAnswer : LaneResult → LaneResult → Type 0
  IsSameAnswer a b =
      (a.status ≡ b.status)
      × (a.answer_text ≡ b.answer_text)
      × (a.answer_kind ≡ b.answer_kind)
      × (a.value_preview ≡ b.value_preview)

  -- HGET and HGETALL.
  abbrev pub is_lookup : CommandName → Bool
  is_lookup hget_command = true
  is_lookup hgetall_command = true
  is_lookup _ = false

  abbrev pub AnswersAgree : ArenaRequest → LaneResult → LaneResult → Type 0
  AnswersAgree request a b = is_lookup request.command ≡ false → IsSameAnswer a b

  abbrev R : ArenaRepository
  R = in_memory_repository

  -- A request and what the clock measures of it in the two lanes.
  pub record Timed : Type 0 where
    pub request : ArenaRequest
    pub redis_times : Measured
    pub db_times : Measured

  -- The answers to a sequence of requests, pair by pair.
  abbrev pub AllAgree : List Timed → List LaneResult → List LaneResult → Type 0
  AllAgree [] [] [] = Unit
  AllAgree (x ∷ xs) (a ∷ answers) (b ∷ others) =
      AnswersAgree x.request a b × AllAgree xs answers others
  AllAgree _ _ _ = ⊥

  unfoldable pub serve_db_only : Outside → List Timed → Documents → List LaneResult × Documents
  unfolding DbOnly.execute
  serve_db_only outside [] d = ([], d)
  serve_db_only outside (x ∷ xs) d =
      let (b, d') = DbOnly.execute R outside x.request x.db_times d in
      let (others, d'') = serve_db_only outside xs d' in (b ∷ others, d'')

  module _ (C : MiniRedisClient) (outside : Outside) where
    unfoldable pub serve_redis_db :
        List Timed → Stores C R outside → List LaneResult × Stores C R outside
    unfolding Execute.execute
    serve_redis_db [] w = ([], w)
    serve_redis_db (x ∷ xs) w =
        let (a, w') = Execute.execute C R outside x.request x.redis_times w in
        let (answers, w'') = serve_redis_db xs w' in (a ∷ answers, w'')

module _ ⦃P : Platform⦄ (C : MiniRedisClient) (sees : C.Cache → View) (outside : Outside)
    (lawful : IsLawful C sees) (t : P.Float) (parsed : default_ttl_seconds outside ≡ ok t) where
  abbrev RunsAgree :
      CommandName
      → Result (Unit {0}) × (Stores C R outside × Progress)
      → Result (Unit {0}) × (Documents × Progress)
      → Type 0
  RunsAgree command (r, ((c, d), p)) (r', (d', p')) =
      (d ≡ d')
      × IsCoherent C sees c d
      × (is_lookup command ≡ false
          → (r ≡ r')
            × (p.value_preview ≡ p'.value_preview)
            × (p.answer_text ≡ p'.answer_text)
            × (p.answer_kind ≡ p'.answer_kind))

  abbrev cached :
      CommandName
      → ArenaRequest
      → C.Cache
      → Documents
      → Result (Unit {0}) × (Stores C R outside × Progress)
  cached command request c d = Execute.run_command C R outside command request ((c, d), no_progress)

  abbrev direct :
      CommandName → ArenaRequest → Documents → Result (Unit {0}) × (Documents × Progress)
  direct command request d = DbOnly.run_command R outside command request (d, no_progress)
