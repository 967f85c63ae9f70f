-- ===== src/Arena/Lanes/Agree/Lookups.antt =====
-- internal/arena/lane/redis_db_adapter.py: HGET and HGETALL keep the documents, and the cache
-- coherent.
use mini_redis_test_app.Prelude.{◌≡◌, inl, inr, refl, Option, none, some, [], ◌∷◌, arith}
use mini_redis_test_app.Arena.Interfaces.{ArenaRepository, MiniRedisClient, in_memory_repository}
use mini_redis_test_app.Arena.Lanes.{
  Progress, no_progress, Outside, or_empty, redis_ttl_for_request, default_ttl_seconds,
}
use mini_redis_test_app.Arena.Lanes.Agree.{IsCoherent, ttl-ok, after_ttl, fill, then_ttl}
use mini_redis_test_app.Arena.Lanes.Agree.Reads.{Result-cases}
use mini_redis_test_app.Arena.Lanes.RedisDb.{Stores, fill_fields, expire_filled}
use mini_redis_test_app.Arena.Lanes.RedisDb.Execute.{
  fill_missing, read_missing, after_hget, run_hget, run_hgetall,
}
use mini_redis_test_app.Arena.Lawful.{
  View, hash_shape, IsWithin-trans, IsNoString, IsLawful, shape_of, view_of,
}
use mini_redis_test_app.Arena.Models.{ArenaRequest}
use mini_redis_test_app.Arena.Mongo
use mini_redis_test_app.Arena.Mongo.{ArenaDocument, Documents, Kind-cases, fields_of_document}
use mini_redis_test_app.Dict
use mini_redis_test_app.Dict.{Dict}
use mini_redis_test_app.Platform.{Platform}
use mini_redis_test_app.Result.{Result, ok}
use mini_redis_test_app.Text.{Text, codes}

fields-hash_shape :
    (document : Option ArenaDocument) (fields : Dict Text)
    → fields_of_document document ≡ ok (some fields)
    → shape_of document ≡ some hash_shape
fields-hash_shape none fields h = absurd (ground arith)
fields-hash_shape (some document) fields h = elim (Kind-cases document.kind) [
  | inl string ↦ absurd (ground (arith, rw string at h))
  | inr hash ↦ rw hash refl
]

hgetall-hash_shape :
    (key : Text) (d : Documents) (fields : Dict Text)
    → Mongo.hgetall key d ≡ ok (some fields)
    → view_of d key ≡ some hash_shape
unfolding Mongo.hgetall
hgetall-hash_shape key d fields h = fields-hash_shape (Dict.get d key) fields h

module _ ⦃P : Platform⦄ (C : MiniRedisClient) (sees : C.Cache → View) (outside : Outside)
    (lawful : IsLawful C sees) (t : P.Float) (parsed : default_ttl_seconds outside ≡ ok t) where
  -- A run that leaves the documents as they are, and the cache coherent with them.
  abbrev pub IsKept :
      Documents → Result (Unit {0}) × (Stores C in_memory_repository outside × Progress) → Type 0
  IsKept d (r, ((c, d'), p)) = (d' ≡ d) × IsCoherent C sees c d

  abbrev filled : Text → Dict Text → C.Cache → C.Cache
  filled key [] c = c
  filled key ((f, v) ∷ fields) c = filled key fields (C.hset key f v c).1

  hset_hash :
      (key f v : Text) (c : C.Cache) (d : Documents)
      → IsCoherent C sees c d
      → view_of d key ≡ some hash_shape
      → ((C.hset key f v c).0 ≡ ok tt) × IsCoherent C sees (C.hset key f v c).1 d
  hset_hash key f v c d coherent hash =
      let no_string : IsNoString (sees c key) = ground (arith, coherent key) in
      (
        lawful.hset-ok key f v c no_string,
        fill C sees outside lawful t parsed key c (C.hset key f v c).1 d coherent
            (rw hash (lawful.hset-IsWithin key f v c no_string)),
      )

  fill_fields-filled :
      (key : Text) (fields : Dict Text) (c : C.Cache) (d : Documents) (p : Progress)
      → IsCoherent C sees c d
      → view_of d key ≡ some hash_shape
      → (fill_fields C in_memory_repository outside key fields ((c, d), p)
          ≡ (ok tt, ((filled key fields c, d), p)))
        × IsCoherent C sees (filled key fields c) d
  unfolding fill_fields
  fill_fields-filled key [] c d p coherent hash = (refl, coherent)
  fill_fields-filled key ((f, v) ∷ fields) c d p coherent hash =
      let (written, coherent') = hset_hash key f v c d coherent hash in
      let (rest, coherent'') =
        fill_fields-filled key fields (C.hset key f v c).1 d p coherent' hash in
      (rw (fill_fields, written) rest, coherent'')

  expire_filled-eq :
      (key : Text) (o : Option P.Float) (c : C.Cache) (d : Documents) (p : Progress)
      → expire_filled C in_memory_repository outside key o ((c, d), p)
        ≡ (ok tt, ((after_ttl C sees outside lawful t parsed key o c, d), p))
  unfolding expire_filled
  expire_filled-eq key none c d p = refl
  expire_filled-eq key (some s) c d p =
      let (b, applied) = lawful.expire-ok key s c in rw (expire_filled, applied) refl

  abbrev R : ArenaRepository
  R = in_memory_repository

  fill_fields_then :
      (request : ArenaRequest) (shown : Dict Text → Option Text) (fields : Dict Text)
      (o : Option P.Float) (c : C.Cache) (d : Documents) (p : Progress)
      → IsCoherent C sees c d
      → view_of d request.key ≡ some hash_shape
      → redis_ttl_for_request outside request.ttl_enabled request.ttl_seconds ≡ ok o
      → IsKept d (fill_missing C R outside request shown (some fields) ((c, d), p))
  unfolding fill_missing
  fill_fields_then request shown fields none c d p coherent hash ttl =
      let (filling, coherent') = fill_fields-filled request.key fields c d p coherent hash in
      rw (fill_missing, ttl, filling) (refl, coherent')
  fill_fields_then request shown fields (some s) c d p coherent hash ttl =
      let (filling, coherent') = fill_fields-filled request.key fields c d p coherent hash in
      let c1 = filled request.key fields c in
      rw (fill_missing, ttl, filling, expire_filled-eq request.key (some s) c1 d p)
        (refl, then_ttl C sees outside lawful t parsed request.key (some s) c1 d coherent')

  read_missing-IsKept :
      (request : ArenaRequest) (shown : Dict Text → Option Text) (c : C.Cache) (d : Documents)
      (p : Progress)
      → IsCoherent C sees c d
      → IsKept d (read_missing C R outside request shown ((c, d), p))
  unfolding read_missing
  read_missing-IsKept request shown c d p coherent =
      let key = request.key in
      elim (Result-cases (Mongo.hgetall key d)) [
        | inl absent ↦ rw (read_missing, absent) (refl, coherent)
        | inr (inl (fields, found)) ↦
            let (o, ttl) =
              ttl-ok C sees outside lawful t parsed request.ttl_enabled request.ttl_seconds in
            let hash = hgetall-hash_shape key d fields found in
            rw (read_missing, found)
              (fill_fields_then request shown fields o c d _ coherent hash ttl)
        | inr (inr (e, raised)) ↦ rw (read_missing, raised) (refl, coherent)
      ]

  then_hgetall :
      (key : Text) (c : C.Cache) (d : Documents)
      → IsCoherent C sees c d
      → IsCoherent C sees (C.hgetall key c).1 d
  then_hgetall key c d coherent =
      IsWithin-trans (sees (C.hgetall key c).1) (sees c) (view_of d) (lawful.hgetall-IsWithin key c)
        coherent

  abbrev reading : Progress
  reading = record no_progress { path = codes "redis_read" ∷ [] }

  pub run_hgetall-IsKept :
      (request : ArenaRequest) (c : C.Cache) (d : Documents)
      → IsCoherent C sees c d
      → IsKept d (run_hgetall C R outside request ((c, d), no_progress))
  unfolding run_hgetall
  run_hgetall-IsKept request c d coherent =
      let key = request.key in
      let c1 = (C.hgetall key c).1 in
      let coherent' = then_hgetall key c d coherent in
      elim (Result-cases (C.hgetall key c).0) [
        | inl missed ↦
            rw (run_hgetall, missed) (read_missing-IsKept request _ c1 d reading coherent')
        | inr (inl (fields, found)) ↦ rw (run_hgetall, found) (refl, coherent')
        | inr (inr (e, raised)) ↦ rw (run_hgetall, raised) (refl, coherent')
      ]

  after_hget-IsKept :
      (request : ArenaRequest) (c : C.Cache) (d : Documents) (p : Progress)
      → IsCoherent C sees c d
      → IsKept d (after_hget C R outside request none ((c, d), p))
  unfolding after_hget
  after_hget-IsKept request c d p coherent =
      let key = request.key in
      let c1 = (C.hgetall key c).1 in
      let coherent' = then_hgetall key c d coherent in
      elim (Result-cases (C.hgetall key c).0) [
        | inl missed ↦ rw (after_hget, missed) (read_missing-IsKept request _ c1 d p coherent')
        | inr (inl (fields, found)) ↦ rw (after_hget, found) (refl, coherent')
        | inr (inr (e, raised)) ↦ rw (after_hget, raised) (refl, coherent')
      ]

  pub run_hget-IsKept :
      (request : ArenaRequest) (c : C.Cache) (d : Documents)
      → IsCoherent C sees c d
      → IsKept d (run_hget C R outside request ((c, d), no_progress))
  unfolding run_hget
  run_hget-IsKept request c d coherent =
      let key = request.key in
      let f = or_empty request.field in
      let c1 = (C.hget key f c).1 in
      let coherent' : IsCoherent C sees c1 d =
        IsWithin-trans (sees c1) (sees c) (view_of d) (lawful.hget-IsWithin key f c) coherent in
      elim (Result-cases (C.hget key f c).0) [
        | inl missed ↦ rw (run_hget, missed) (after_hget-IsKept request c1 d _ coherent')
        | inr (inl (v, found)) ↦ rw (run_hget, found) (refl, coherent')
        | inr (inr (e, raised)) ↦ rw (run_hget, raised) (refl, coherent')
      ]
