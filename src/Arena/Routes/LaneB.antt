-- ===== src/Arena/Routes/LaneB.antt =====
-- internal/arena/lane_b/api/routes.py: the executor and the repository share the documents.
use mini_redis_test_app.Prelude.{Bool, false, List, [], ◌∷◌, if◌then◌else◌}
use mini_redis_test_app.Arena.Gateway.{add_key, add_keys}
use mini_redis_test_app.Arena.Interfaces.{Method, ArenaRepository}
use mini_redis_test_app.Arena.Lanes.{Outside, Measured}
use mini_redis_test_app.Arena.Lanes.DbOnly
use mini_redis_test_app.Arena.Models.{ArenaRequest, LaneResult}
use mini_redis_test_app.Arena.Runner.{discard}
use mini_redis_test_app.Dict.{Dict, keys}
use mini_redis_test_app.Platform.{Platform}
use mini_redis_test_app.Result.{ok}
use mini_redis_test_app.Text.{Text}
use mini_redis_test_app.Arena.Routes.{keys_or_known, discard_each, if_ok, reply}

module _ ⦃P : Platform⦄ (R : ArenaRepository) (outside : Outside) where
  abbrev pub LaneApp : Type 0
  LaneApp = R.Store × List Text

  unfoldable pub execute : ArenaRequest → Measured → LaneApp → LaneResult × LaneApp
  unfolding DbOnly.execute add_key
  execute payload measured (s, known) =
      let (result, s') = DbOnly.execute R outside payload measured s in
      (result, (s', add_key payload.key known))

  -- The answer is the list of the deleted keys.
  unfoldable pub reset_lane : List Text → Bool → Method LaneApp (List Text)
  unfolding DbOnly.clear discard
  reset_lane listed full_reset (s, known) =
      let targets = keys_or_known listed known in
      let (all, s_all) = R.clear s in
      let (some', s_some) = DbOnly.clear R outside targets false s in
      if full_reset
      then (reply [] all, (s_all, if_ok all [] known))
      else (reply targets some', (s_some, if_ok some' (discard_each targets known) known))

  abbrev seed_documents : Dict Text → Method R.Store (Unit {0})
  seed_documents [] s = (ok tt, s)
  seed_documents (document ∷ documents) s = R.seed (document ∷ documents) s

  -- The answer is the list of the seeded keys.
  unfoldable pub seed_lane : Dict Text → Method LaneApp (List Text)
  unfolding add_keys
  seed_lane documents (s, known) =
      let (stored, s') = seed_documents documents s in
      (reply (keys documents) stored, (s', if_ok stored (add_keys (keys documents) known) known))
