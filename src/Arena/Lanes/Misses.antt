-- ===== src/Arena/Lanes/Misses.antt =====
-- internal/arena/lane: how often the two adapters read Mongo, for any stores behind them.
use mini_redis_test_app.Prelude.{
  ℕ, ◌≡◌, inl, inr, ◌-◌, ltb, refl, sym, ap, ◌∙◌, Bool, none, some, if◌then◌else◌, arith, ◌≤◌,
}
use mini_redis_test_app.Arena.Interfaces.{MiniRedisClient, ArenaRepository}
use mini_redis_test_app.Arena.Lanes.{
  Progress, no_progress, Outside, or_empty, Measured, lane_result,
}
use mini_redis_test_app.Arena.Lanes.RedisDb.{Stores}
use mini_redis_test_app.Arena.Lanes.RedisDb.Execute
use mini_redis_test_app.Arena.Lanes.RedisDb.Execute.{
  note_ttl, fill_missing, read_missing, after_field_missing, after_hget, run_hget, after_hgetall,
  run_hgetall, run_del, run_command,
}
use mini_redis_test_app.Arena.Models.{
  CommandName, set_command, get_command, del_command, hset_command, hget_command, hgetall_command,
  ArenaRequest, LaneName, redis_db, db_only,
}
use mini_redis_test_app.Platform.{Platform}
use mini_redis_test_app.Result.{Result, Result-either, ok, raise}
use mini_redis_test_app.Text.{Text}
use mini_redis_test_app.Arena.Lanes.Counts.{
  run_command-KeepsCount, run_set-KeepsCount, run_hset-KeepsCount, run_del-KeepsCount,
}
use mini_redis_test_app.Arena.Lanes.DbOnly
use mini_redis_test_app.Arena.Summary.{build_summary}

abbrev pub one_if : Bool → ℕ
one_if b = if b then 1 else 0

lane_result-counts :
    ⦃P : Platform⦄ (outside : Outside) (lane : LaneName) (failure : Text) (request : ArenaRequest)
    (m : Measured) (r : Result (Unit {0})) (p : Progress)
    → ((lane_result outside lane failure request m r p).mongo_reads ≡ p.mongo_reads)
      × ((lane_result outside lane failure request m r p).cache.miss ≡ p.miss)
unfolding lane_result
lane_result-counts outside lane failure request m (ok _) p = (refl, refl)
lane_result-counts outside lane failure request m (raise e) p = (refl, refl)

module _ ⦃P : Platform⦄ (C : MiniRedisClient) (R : ArenaRepository) (outside : Outside) where
  -- Whatever the client and the repository do, raise included, and whatever the request: the
  -- cached lane reports one read of Mongo if it reports a miss, and none otherwise.
  pub execute-miss :
      (request : ArenaRequest) (m : Measured) (w : Stores C R outside)
      → (Execute.execute C R outside request m w).0.mongo_reads
        ≡ one_if (Execute.execute C R outside request m w).0.cache.miss
  unfolding Execute.execute
  execute-miss request m w =
      let run = run_command C R outside request.command request (w, no_progress) in
      let counted =
        (run_command-KeepsCount C R outside {Q = λ b n. n ≡ one_if b} refl request.command
            request).at_end
          w no_progress refl in
      let (reads, missed) = lane_result-counts outside redis_db _ request m run.0 run.1.1 in
      reads ∙ counted ∙ ap one_if (sym missed)

abbrev No : Bool → ℕ → Type 0
No b n = n ≡ 0

abbrev AtMostOne : Bool → ℕ → Type 0
AtMostOne b n = n ≤ 1

-- The reads of Mongo in a run of the second lane.
abbrev reads_for : CommandName → ℕ
reads_for get_command = 1
reads_for hget_command = 1
reads_for hgetall_command = 1
reads_for _ = 0

module _ ⦃P : Platform⦄ (R : ArenaRepository) (outside : Outside) where
  abbrev db_reads : CommandName → ArenaRequest → R.Store → ℕ
  db_reads command request s =
      (DbOnly.run_command R outside command request (s, no_progress)).1.1.mongo_reads

  run_command-reads_for :
      (command : CommandName) (request : ArenaRequest) (s : R.Store)
      → db_reads command request s ≡ reads_for command
  unfolding DbOnly.run_command
  run_command-reads_for set_command request s =
      elim (Result-either (R.write request.key (or_empty request.value) s).0) [
        | inl (a, h) ↦ rw (db_reads, DbOnly.run_command, h) refl
        | inr (e, h) ↦ rw (db_reads, DbOnly.run_command, h) refl
      ]
  run_command-reads_for get_command request s = elim (Result-either (R.read request.key s).0) [
    | inl (a, h) ↦ rw (db_reads, DbOnly.run_command, h) refl
    | inr (e, h) ↦ rw (db_reads, DbOnly.run_command, h) refl
  ]
  run_command-reads_for hset_command request s =
      elim (Result-either
        (R.hset request.key (or_empty request.field) (or_empty request.value) s).0) [
          | inl (a, h) ↦ rw (db_reads, DbOnly.run_command, h) refl
          | inr (e, h) ↦ rw (db_reads, DbOnly.run_command, h) refl
        ]
  run_command-reads_for hget_command request s =
      elim (Result-either (R.hget request.key (or_empty request.field) s).0) [
        | inl (a, h) ↦ rw (db_reads, DbOnly.run_command, h) refl
        | inr (e, h) ↦ rw (db_reads, DbOnly.run_command, h) refl
      ]
  run_command-reads_for hgetall_command request s =
      elim (Result-either (R.hgetall request.key s).0) [
        | inl (a, h) ↦ rw (db_reads, DbOnly.run_command, h) refl
        | inr (e, h) ↦ rw (db_reads, DbOnly.run_command, h) refl
      ]
  run_command-reads_for del_command request s = elim (Result-either (R.delete request.key s).0) [
    | inl (a, h) ↦ rw (db_reads, DbOnly.run_command, h) refl
    | inr (e, h) ↦ rw (db_reads, DbOnly.run_command, h) refl
  ]

module _ ⦃P : Platform⦄ (C : MiniRedisClient) (R : ArenaRepository) (outside : Outside) where
  abbrev redis_reads : CommandName → ArenaRequest → Stores C R outside → ℕ
  redis_reads command request w =
      (run_command C R outside command request (w, no_progress)).1.1.mongo_reads

  run_command-le :
      (command : CommandName) (request : ArenaRequest) (w : Stores C R outside)
      → redis_reads command request w ≤ 1
  run_command-le command request w =
      (run_command-KeepsCount C R outside {Q = AtMostOne} (omega arith) command request).at_end w
        no_progress (omega arith)

  redis_reads-le :
      (command : CommandName) (request : ArenaRequest) (w : Stores C R outside)
      → redis_reads command request w ≤ reads_for command
  unfolding run_command
  redis_reads-le set_command request w =
      ground (arith, (run_set-KeepsCount C R outside {Q = No} request).at_end w no_progress refl)
  redis_reads-le hset_command request w =
      ground (arith, (run_hset-KeepsCount C R outside {Q = No} request).at_end w no_progress refl)
  redis_reads-le del_command request w =
      ground (arith, (run_del-KeepsCount C R outside {Q = No} request).at_end w no_progress refl)
  redis_reads-le get_command request w = run_command-le get_command request w
  redis_reads-le hget_command request w = run_command-le hget_command request w
  redis_reads-le hgetall_command request w = run_command-le hgetall_command request w

  pub execute-reads_le :
      (request : ArenaRequest) (m m' : Measured) (w : Stores C R outside) (s : R.Store)
      → (Execute.execute C R outside request m w).0.mongo_reads
        ≤ (DbOnly.execute R outside request m' s).0.mongo_reads
  unfolding Execute.execute DbOnly.execute
  execute-reads_le request m m' w s =
      let x = run_command C R outside request.command request (w, no_progress) in
      let y = DbOnly.run_command R outside request.command request (s, no_progress) in
      let x_reads : (Execute.execute C R outside request m w).0.mongo_reads ≡ x.1.1.mongo_reads =
        (lane_result-counts outside redis_db _ request m x.0 x.1.1).0 in
      let y_reads : (DbOnly.execute R outside request m' s).0.mongo_reads ≡ y.1.1.mongo_reads =
        (lane_result-counts outside db_only _ request _ y.0 y.1.1).0 in
      ground (
        arith,
        x_reads,
        y_reads,
        run_command-reads_for R outside request.command request s,
        redis_reads-le request.command request w,
      )

  -- Whatever the stores of the two lanes are, hold and raise: for the same request the summary
  -- never names the lane without a cache as the one with fewer reads of Mongo, it names the cached
  -- lane exactly if that read less, and the gap is how much less.
  pub build_summary-fewer_reads :
      (rounded_gap : P.Float → P.Float → P.Float) (request : ArenaRequest) (m m' : Measured)
      (w : Stores C R outside) (s : R.Store)
      → let a = (Execute.execute C R outside request m w).0 in
        let b = (DbOnly.execute R outside request m' s).0 in
        let summary = build_summary rounded_gap a b in
        (summary.fewer_mongo_reads_lane
          ≡ (if ltb a.mongo_reads b.mongo_reads then some redis_db else none))
        × (summary.mongo_read_gap ≡ some (b.mongo_reads - a.mongo_reads))
  unfolding build_summary
  build_summary-fewer_reads rounded_gap request m m' w s =
      ground (arith, execute-reads_le request m m' w s)
