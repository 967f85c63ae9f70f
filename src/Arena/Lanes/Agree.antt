-- ===== src/Arena/Lanes/Agree.antt =====
-- internal/arena/lane: redis_db_adapter.py against db_only_adapter.py.
pub mod Reads
pub mod Hashes
pub mod Lookups
pub mod Traces
pub mod Seeds
use mini_redis_test_app.Prelude.{
  ◌≡◌, ◌⊎◌, inl, inr, refl, sym, ap, ◌∙◌, Bool, true, false, ◌||◌, Option, none, some, [], ◌∷◌,
  arith, Bool-cases, Option-cases,
}
use mini_redis_test_app.Arena.Interfaces.{MiniRedisClient, in_memory_repository}
use mini_redis_test_app.Arena.Lanes.{
  Progress, no_progress, Outside, redis_ttl_for_request, or_empty, default_ttl_seconds,
}
use mini_redis_test_app.Arena.Lanes.DbOnly
use mini_redis_test_app.Arena.Lanes.RedisDb
use mini_redis_test_app.Arena.Lanes.RedisDb.{Stores, apply_ttl, run_set, run_get, run_hset}
use mini_redis_test_app.Arena.Lanes.RedisDb.Execute
use mini_redis_test_app.Arena.Lawful.{
  View, string_shape, hash_shape, update, IsWithin, IsWithin-refl, IsWithin-trans, IsWithin-update,
  IsNoString, read_shape, IsLawful, same_shape, Shape, view_of, view_of-set, view_of-remove,
  shape_of,
}
use mini_redis_test_app.Arena.Models.{
  set_command, get_command, del_command, hset_command, hget_command, hgetall_command, ArenaRequest,
}
use mini_redis_test_app.Arena.Mongo
use mini_redis_test_app.Arena.Mongo.{
  ArenaDocument, Documents, Kind, string_kind, hash_kind, Kind-cases, is_there, read_document,
}
use mini_redis_test_app.Dict
use mini_redis_test_app.Dict.{Dict}
use mini_redis_test_app.Platform.{Platform}
use mini_redis_test_app.Result.{Result, Error, ok, raise, type_error}
use mini_redis_test_app.Text.{Text, codes}

module _ ⦃P : Platform⦄ (C : MiniRedisClient) (sees : C.Cache → View) where
  -- The cache has nothing but what the documents have.
  abbrev pub IsCoherent : C.Cache → Documents → Type 0
  IsCoherent c d = IsWithin (sees c) (view_of d)

  module _ (outside : Outside) where
    -- The runs of the two lanes end alike, and the cache is coherent.
    abbrev pub Matches :
        Result (Unit {0}) × (Stores C in_memory_repository outside × Progress)
        → Result (Unit {0}) × (Documents × Progress)
        → Type 0
    Matches (r, ((c, d), p)) (r', (d', p')) =
        (r ≡ r')
        × (d ≡ d')
        × IsCoherent c d
        × (p.value_preview ≡ p'.value_preview)
        × (p.answer_text ≡ p'.answer_text)
        × (p.answer_kind ≡ p'.answer_kind)

module _ ⦃P : Platform⦄ (C : MiniRedisClient) (sees : C.Cache → View) (outside : Outside)
    (lawful : IsLawful C sees) (t : P.Float) (parsed : default_ttl_seconds outside ≡ ok t) where
  pub ttl-ok :
      (enabled : Bool) (ttl_seconds : Option P.Float)
      → (o : Option P.Float) × (redis_ttl_for_request outside enabled ttl_seconds ≡ ok o)
  unfolding redis_ttl_for_request
  ttl-ok false ttl_seconds = (none, refl)
  ttl-ok true (some s) = (some s, refl)
  ttl-ok true none = (some t, rw parsed refl)

  abbrev pub after_ttl : Text → Option P.Float → C.Cache → C.Cache
  after_ttl key none c = c
  after_ttl key (some s) c = (C.expire key s c).1

  after_ttl-IsWithin :
      (key : Text) (o : Option P.Float) (c : C.Cache) → IsWithin (sees (after_ttl key o c)) (sees c)
  after_ttl-IsWithin key none c = IsWithin-refl (sees c)
  after_ttl-IsWithin key (some s) c = lawful.expire-IsWithin key s c

  pub ttl_progress : Text → Option P.Float → C.Cache → Progress → Progress
  unfolding apply_ttl
  ttl_progress key o c p = (apply_ttl C in_memory_repository outside key o ((c, []), p)).1.1

  pub apply_ttl-eq :
      (key : Text) (o : Option P.Float) (c : C.Cache) (d : Documents) (p : Progress)
      → apply_ttl C in_memory_repository outside key o ((c, d), p)
        ≡ (ok tt, ((after_ttl key o c, d), ttl_progress key o c p))
  unfolding apply_ttl ttl_progress
  apply_ttl-eq key none c d p = refl
  apply_ttl-eq key (some s) c d p =
      let (b, applied) = lawful.expire-ok key s c in rw (ttl_progress, apply_ttl, applied) refl

  -- The expiration changes neither the preview nor the answer.
  pub ttl_progress-preview :
      (key : Text) (o : Option P.Float) (c : C.Cache) (p : Progress)
      → (ttl_progress key o c p).value_preview ≡ p.value_preview
  unfolding apply_ttl ttl_progress
  ttl_progress-preview key none c p = refl
  ttl_progress-preview key (some s) c p =
      let (b, applied) = lawful.expire-ok key s c in rw (ttl_progress, apply_ttl, applied) refl

  -- A write to both stores keeps the cache coherent.
  pub write_both :
      (key : Text) (document : Mongo.ArenaDocument) (c c' : C.Cache) (d : Documents)
      → IsCoherent C sees c d
      → IsWithin (sees c') (update key (shape_of (some document)) (sees c))
      → IsCoherent C sees c' (Dict.set d key document)
  write_both key document c c' d coherent written =
      let shape = shape_of (some document) in
      IsWithin-trans (sees c') (update key shape (sees c)) (view_of (Dict.set d key document))
        written
        (IsWithin-trans (update key shape (sees c)) (update key shape (view_of d))
          (view_of (Dict.set d key document))
          (IsWithin-update key shape (sees c) (view_of d) coherent)
          (λ j. inr (sym (view_of-set d key document j))))

  pub then_ttl :
      (key : Text) (o : Option P.Float) (c : C.Cache) (d : Documents)
      → IsCoherent C sees c d
      → IsCoherent C sees (after_ttl key o c) d
  then_ttl key o c d coherent =
      IsWithin-trans (sees (after_ttl key o c)) (sees c) (view_of d) (after_ttl-IsWithin key o c)
        coherent

  -- What was read from the documents may be written to the cache.
  pub fill :
      (key : Text) (c c' : C.Cache) (d : Documents)
      → IsCoherent C sees c d
      → IsWithin (sees c') (update key (view_of d key) (sees c))
      → IsCoherent C sees c' d
  fill key c c' d coherent written =
      IsWithin-trans (sees c') (update key (view_of d key) (sees c)) (view_of d) written (
        IsWithin-trans (update key (view_of d key) (sees c))
          (update key (view_of d key) (view_of d)) (view_of d)
          (IsWithin-update key (view_of d key) (sees c) (view_of d) coherent)
          (same_shape key (view_of d key) (view_of d) refl))

  pub run_set-Matches :
      (request : ArenaRequest) (c : C.Cache) (d : Documents)
      → IsCoherent C sees c d
      → Matches C sees outside
          (run_set C in_memory_repository outside request ((c, d), no_progress))
          (DbOnly.run_command in_memory_repository outside set_command request (d, no_progress))
  unfolding run_set DbOnly.run_command Mongo.write
  run_set-Matches request c d coherent =
      let (o, ttl) = ttl-ok request.ttl_enabled request.ttl_seconds in
      let v = or_empty request.value in
      let c1 = (C.set request.key v c).1 in
      let d1 = (Mongo.write request.key v d).1 in
      rw (run_set, ttl, lawful.set-ok request.key v c, apply_ttl-eq request.key o _ _ _)
        (
          refl,
          refl,
          then_ttl request.key o c1 d1 (
              write_both request.key (Mongo.string_document v) c c1 d coherent
                (lawful.set-IsWithin request.key v c)),
          refl,
          refl,
          refl,
        )

  or_there :
      (shape : Option Shape) (document : Option ArenaDocument)
      → (shape ≡ none) ⊎ (shape ≡ shape_of document)
      → (is_there shape || is_there document) ≡ is_there document
  or_there none document h = refl
  or_there (some shape) none h = absurd (ground arith)
  or_there (some shape) (some document) h = refl

  pub run_del-Matches :
      (request : ArenaRequest) (c : C.Cache) (d : Documents)
      → IsCoherent C sees c d
      → Matches C sees outside
          (Execute.run_del C in_memory_repository outside request ((c, d), no_progress))
          (DbOnly.run_command in_memory_repository outside del_command request (d, no_progress))
  unfolding Execute.run_del DbOnly.run_command Mongo.delete
  run_del-Matches request c d coherent =
      let key = request.key in
      let c1 = (C.delete key c).1 in
      let within =
        IsWithin-trans (sees c1) (update key none (sees c)) (view_of (Dict.remove d key))
          (lawful.delete-IsWithin key c)
          (IsWithin-trans (update key none (sees c)) (update key none (view_of d))
            (view_of (Dict.remove d key)) (IsWithin-update key none (sees c) (view_of d) coherent)
            (λ j. inr (sym (view_of-remove d key j)))) in
      rw
        (
          Execute.run_del,
          lawful.delete-is_there key c,
          or_there (sees c key) (Dict.get d key) (coherent key),
        )
        (refl, refl, within, refl, refl, refl)
