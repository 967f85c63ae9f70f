-- ===== src/Arena/Lanes/DbOnly.antt =====
-- internal/arena/lane/db_only_adapter.py, over any repository.
use mini_redis_test_app.Prelude.{
  Bool, Option, none, some, List, [], ◌∷◌, ◌++◌, String, if◌then◌else◌,
}
use mini_redis_test_app.Arena.Interfaces.{Method, ArenaRepository}
use mini_redis_test_app.Arena.Lanes.{
  no_progress, Step, follow, change, preview, answer, ◌>>=◌, ◌>>◌, set_answer, get_answer,
  delete_answer, or_empty, Outside, serialize_hash, Measured, lane_result, note,
}
use mini_redis_test_app.Arena.Models.{
  set_command, get_command, del_command, hset_command, hget_command, hgetall_command, db_only,
  CommandName, ArenaRequest, LaneResult, SeedStateInput,
}
use mini_redis_test_app.Platform.{Platform}
use mini_redis_test_app.Result.{ok}
use mini_redis_test_app.Text.{Text, codes}

module _ (R : ArenaRepository) (outside : Outside) where
  -- A call of the repository.
  unfoldable pub mongo : {A : Type 0} → Method R.Store A → Step R.Store A
  mongo m (s, p) = let (r, s') = m s in (r, (s', p))

  unfoldable pub count_read : Step R.Store (Unit {0})
  unfolding note
  count_read = note (λ p. record p { mongo_reads = 1 })

  -- The change noted for a read that found nothing, or something.
  abbrev pub found_change {ℓ} : {A : Type ℓ} → String → String → Option A → List Text
  found_change missing found none = codes missing ∷ []
  found_change missing found (some _) = codes found ∷ []

  module _ ⦃P : Platform⦄ where
    abbrev run_set : ArenaRequest → Step R.Store (Unit {0})
    run_set request = do
      state ← mongo (R.write request.key (or_empty request.value))
      follow ("mongo_write" ∷ [])
      change ((codes "Mongo document " ++ state) ∷ [])
      preview request.value
      answer set_answer

    abbrev run_get : ArenaRequest → Step R.Store (Unit {0})
    run_get request = do
      follow ("mongo_read" ∷ [])
      count_read
      value ← mongo (R.read request.key)
      preview value
      change (found_change "Mongo document missing" "Mongo document read" value)
      answer (get_answer value)

    abbrev run_hset : ArenaRequest → Step R.Store (Unit {0})
    run_hset request = do
      state ← mongo (R.hset request.key (or_empty request.field) (or_empty request.value))
      follow ("mongo_write" ∷ [])
      change ((codes "Mongo hash field " ++ state) ∷ [])
      preview request.value
      answer set_answer

    abbrev run_hget : ArenaRequest → Step R.Store (Unit {0})
    run_hget request = do
      follow ("mongo_read" ∷ [])
      count_read
      value ← mongo (R.hget request.key (or_empty request.field))
      preview value
      change (found_change "Mongo hash field missing" "Mongo hash field read" value)
      answer (get_answer value)

    abbrev run_hgetall : ArenaRequest → Step R.Store (Unit {0})
    run_hgetall request = do
      follow ("mongo_read" ∷ [])
      count_read
      fields ← mongo (R.hgetall request.key)
      preview (serialize_hash outside fields)
      change (found_change "Mongo hash missing" "Mongo hash read" fields)
      answer (get_answer (serialize_hash outside fields))

    abbrev deleted_change : Bool → List Text
    deleted_change deleted =
        codes (if deleted then "Mongo document deleted" else "Mongo unchanged") ∷ []

    abbrev run_del : ArenaRequest → Step R.Store (Unit {0})
    run_del request = do
      follow ("mongo_delete" ∷ [])
      deleted ← mongo (R.delete request.key)
      change (deleted_change deleted)
      answer (delete_answer deleted)

    -- The body of `execute`.
    unfoldable pub run_command : CommandName → ArenaRequest → Step R.Store (Unit {0})
    unfolding mongo count_read follow change preview answer ◌>>=◌ ◌>>◌ serialize_hash
    run_command set_command request = run_set request
    run_command get_command request = run_get request
    run_command hset_command request = run_hset request
    run_command hget_command request = run_hget request
    run_command hgetall_command request = run_hgetall request
    run_command del_command request = run_del request

    unfoldable pub execute : ArenaRequest → Measured → R.Store → LaneResult × R.Store
    unfolding run_command lane_result
    execute request measured s =
        let (r, (s', p)) = run_command request.command request (s, no_progress) in
        (
          lane_result outside db_only (codes "DB only lane execution failed") request
              (record measured { redis_time_ms = P.float_zero }) r p,
          s',
        )

    unfoldable pub clear : List Text → Bool → Method R.Store (Unit {0})
    clear keys full_reset = if full_reset then R.clear else R.delete_many keys

    unfoldable pub seed : SeedStateInput → Method R.Store (Unit {0})
    seed input = elim input.documents [ [] ↦ λ s. (ok tt, s) | _ ∷ _ ↦ R.seed input.documents ]
