-- ===== src/Arena/Lanes/Agree/Hashes.antt =====
-- internal/arena/lane: HSET in redis_db_adapter.py and in db_only_adapter.py.
use mini_redis_test_app.Prelude.{
  ◌≡◌, ◌⊎◌, inl, inr, refl, ap, Option, some, [], ◌∷◌, arith, Option-cases,
}
use mini_redis_test_app.Arena.Interfaces.{MiniRedisClient, in_memory_repository}
use mini_redis_test_app.Arena.Lanes.{no_progress, Outside, or_empty, default_ttl_seconds}
use mini_redis_test_app.Arena.Lanes.DbOnly
use mini_redis_test_app.Arena.Lanes.RedisDb.{run_hset}
use mini_redis_test_app.Arena.Lanes.Agree.{
  IsCoherent, Matches, ttl-ok, apply_ttl-eq, write_both, then_ttl,
}
use mini_redis_test_app.Arena.Lawful.{View, hash_shape, IsNoString, IsLawful, view_of, shape_of}
use mini_redis_test_app.Arena.Models.{hset_command, ArenaRequest}
use mini_redis_test_app.Arena.Mongo
use mini_redis_test_app.Arena.Mongo.{
  ArenaDocument, Documents, Kind, string_kind, hash_kind, Kind-cases, is_there, read_document,
}
use mini_redis_test_app.Dict
use mini_redis_test_app.Dict.{Dict}
use mini_redis_test_app.Platform.{Platform}
use mini_redis_test_app.Result.{Result, ok, raise, type_error}
use mini_redis_test_app.Text.{Text, codes}

abbrev document_of : Kind → Option Text → Dict Text → ArenaDocument
document_of kind value fields = record { kind = kind; value = value; fields = fields }

module _ ⦃P : Platform⦄ (C : MiniRedisClient) (sees : C.Cache → View) (outside : Outside)
    (lawful : IsLawful C sees) (t : P.Float) (parsed : default_ttl_seconds outside ≡ ok t) where
  -- The two ends of the repository's `hset`: the key has a string, or a hash is written and the
  -- cache has none but a hash for the key.
  abbrev HsetEnds : Text → Text → Text → C.Cache → Documents → Result Text × Documents → Type 0
  HsetEnds key f v c d (r, d') =
      ((r ≡ raise type_error) × (d' ≡ d))
      ⊎ ((state : Text) × (r ≡ ok state)
          × IsNoString (sees c key)
          × IsCoherent C sees (C.hset key f v c).1 d')

  hset_hash :
      (key f v : Text) (document : ArenaDocument) (c : C.Cache) (d : Documents)
      → IsCoherent C sees c d
      → IsNoString (view_of d key)
      → shape_of (some document) ≡ some hash_shape
      → IsNoString (sees c key) × IsCoherent C sees (C.hset key f v c).1 (Dict.set d key document)
  hset_hash key f v document c d coherent absent hash =
      let no_string : IsNoString (sees c key) = ground (arith, coherent key) in
      (
        no_string,
        write_both C sees outside lawful t parsed key document c (C.hset key f v c).1 d coherent
            (rw hash (lawful.hset-IsWithin key f v c no_string)),
      )

  hset_document :
      (key f v : Text) (c : C.Cache) (d : Documents) (kind : Kind) (value : Option Text)
      (fields : Dict Text)
      → IsCoherent C sees c d
      → view_of d key ≡ shape_of (some (document_of kind value fields))
      → HsetEnds key f v c d
          (Mongo.write_document_field key f v (some (document_of kind value fields)) d)
  hset_document key f v c d string_kind value fields coherent h = inl (refl, refl)
  hset_document key f v c d hash_kind value fields coherent h =
      let document = document_of hash_kind value (Dict.set fields f v) in
      let (no_string, written) = hset_hash key f v document c d coherent (inr h) refl in
      inr (_, refl, no_string, written)

  hset-HsetEnds :
      (key f v : Text) (c : C.Cache) (d : Documents)
      → IsCoherent C sees c d
      → HsetEnds key f v c d (Mongo.hset key f v d)
  unfolding Mongo.hset
  hset-HsetEnds key f v c d coherent = elim (Option-cases (Dict.get d key)) [
    | inl absent ↦
        let document = Mongo.hash_document ((f, v) ∷ []) in
        let (no_string, written) =
          hset_hash key f v document c d coherent (inl (ap shape_of absent)) refl in
        rw (Mongo.hset, absent) (inr (codes "created", refl, no_string, written))
    | inr (document, found) ↦
        rw (Mongo.hset, found)
          (hset_document key f v c d document.kind document.value document.fields coherent
            (ap shape_of found))
  ]

  pub run_hset-Matches :
      (request : ArenaRequest) (c : C.Cache) (d : Documents)
      → IsCoherent C sees c d
      → Matches C sees outside
          (run_hset C in_memory_repository outside request ((c, d), no_progress))
          (DbOnly.run_command in_memory_repository outside hset_command request (d, no_progress))
  unfolding run_hset DbOnly.run_command
  run_hset-Matches request c d coherent =
      let key = request.key in
      let f = or_empty request.field in
      let v = or_empty request.value in
      let d1 = (Mongo.hset key f v d).1 in
      let c1 = (C.hset key f v c).1 in
      elim (hset-HsetEnds key f v c d coherent) [
        | inl (raised, same) ↦ rw (run_hset, raised, same) (refl, refl, coherent, refl, refl, refl)
        | inr (state, stored, no_string, written) ↦
            let (o, ttl) =
              ttl-ok C sees outside lawful t parsed request.ttl_enabled request.ttl_seconds in
            rw
              (
                run_hset,
                stored,
                ttl,
                lawful.hset-ok key f v c no_string,
                apply_ttl-eq C sees outside lawful t parsed key o _ _ _,
              )
              (
                refl,
                refl,
                then_ttl C sees outside lawful t parsed key o c1 d1 written,
                refl,
                refl,
                refl,
              )
      ]
