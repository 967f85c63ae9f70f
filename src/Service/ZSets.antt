-- ===== src/Service/ZSets.antt =====
-- command_service.py: ZADD, ZREM, ZRANGE and ZSCORE.
use mini_redis_test_app.Prelude.{ℕ, ◌+◌, Bool, Option, none, some, List, [], ◌∷◌, if◌then◌else◌}
use mini_redis_test_app.Prelude.Int.{ℤ}
use mini_redis_test_app.Dict
use mini_redis_test_app.Dict.{Dict, keys}
use mini_redis_test_app.Platform.{Platform}
use mini_redis_test_app.Repository.{zset_entry}
use mini_redis_test_app.Resp.{RespValue, nil, array}
use mini_redis_test_app.Result.{Result, ok, raise, value_error, index_error}
use mini_redis_test_app.Service.{Exec, maybe, pure, lift, ◌>>=◌, ◌>>◌}
use mini_redis_test_app.Service.Entries.{
  as_zset, get_typed_entry, get_or_create, put_entry, slice_sequence,
}
use mini_redis_test_app.Service.Hashes.{absent, present, drop_if_empty}
use mini_redis_test_app.Service.Lists.{blobs}
use mini_redis_test_app.Service.Memory.{touch_key}
use mini_redis_test_app.Text.{Text}
use mini_redis_test_app.Text.Order.{text_lt, sorted}

module _ ⦃P : Platform⦄ where
  -- The loop of ZADD over pairs of a score and a member. It may raise in the middle: the scores
  -- that it wrote before stay written.
  unfoldable pub add_scores : Dict P.Float → ℕ → List Text → Result ℕ × Dict P.Float
  unfolding absent
  add_scores scores created [] = (ok created, scores)
  add_scores scores created (score ∷ []) = elim (P.parse_float score) [
    | none ↦ (raise value_error, scores)
    | some _ ↦ (raise index_error, scores)
  ]
  add_scores scores created (score ∷ member ∷ rest) = elim (P.parse_float score) [
    | none ↦ (raise value_error, scores)
    | some x ↦ add_scores (Dict.set scores member x) (created + absent scores member) rest
  ]

  unfoldable pub remove_all : Dict P.Float → ℕ → List Text → Dict P.Float × ℕ
  unfolding present
  remove_all scores removed [] = (scores, removed)
  remove_all scores removed (m ∷ ms) =
      remove_all (Dict.remove scores m) (removed + present scores m) ms

  unfoldable pub get_or_create_zset : Text → Exec (Dict P.Float)
  unfolding get_or_create as_zset
  get_or_create_zset key = get_or_create as_zset (zset_entry []) [] key

  unfoldable pub zadd : Text → List Text → Exec ℕ
  unfolding get_or_create_zset add_scores put_entry touch_key
  zadd key arguments = do
    zset_value ← get_or_create_zset key
    let added = add_scores zset_value 0 arguments
    put_entry key (zset_entry added.1)
    created ← lift added.0
    touch_key key
    pure created

  unfoldable pub zrem : Text → List Text → Exec ℕ
  unfolding get_typed_entry as_zset remove_all put_entry drop_if_empty
  zrem key members = do
    found ← get_typed_entry as_zset key
    maybe found (pure 0) (λ scores. do
      let left = remove_all scores 0 members
      put_entry key (zset_entry left.0)
      drop_if_empty left.0 key
      pure left.1)

  -- `(score, member)` in the order of pairs.
  unfoldable pub rank_lt : Text × P.Float → Text × P.Float → Bool
  unfolding text_lt
  rank_lt (m, x) (n, y) = if P.float_eq x y then text_lt m n else P.float_lt x y

  unfoldable pub zrange : Text → ℤ → ℤ → Exec RespValue
  unfolding get_typed_entry as_zset rank_lt blobs slice_sequence
  zrange key start stop = do
    found ← get_typed_entry as_zset key
    maybe found (pure (array nil))
        (λ scores. pure (array (blobs (slice_sequence (keys (sorted rank_lt scores)) start stop))))

  unfoldable pub zscore : Text → Text → Exec (Option Text)
  unfolding get_typed_entry as_zset
  zscore key member = do
    found ← get_typed_entry as_zset key
    maybe found (pure none) (λ scores.
        maybe (Dict.get scores member) (pure none) (λ score. pure (some (P.format_g score))))
