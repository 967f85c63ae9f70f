-- ===== src/Arena/Lanes/Agree/Reads.antt =====
-- internal/arena/lane: GET in redis_db_adapter.py and in db_only_adapter.py.
use mini_redis_test_app.Prelude.{◌≡◌, ◌⊎◌, inl, inr, refl, sym, ap, ◌∙◌, Option, none, some, arith}
use mini_redis_test_app.Arena.Interfaces.{MiniRedisClient, in_memory_repository}
use mini_redis_test_app.Arena.Lanes.{no_progress, Outside, default_ttl_seconds}
use mini_redis_test_app.Arena.Lanes.DbOnly
use mini_redis_test_app.Arena.Lanes.RedisDb.{run_get}
use mini_redis_test_app.Arena.Lanes.Agree.{
  IsCoherent, Matches, ttl-ok, apply_ttl-eq, ttl_progress-preview, fill, then_ttl,
}
use mini_redis_test_app.Arena.Lawful.{
  View, string_shape, hash_shape, IsWithin-trans, read_shape, IsLawful, Shape, view_of, shape_of,
}
use mini_redis_test_app.Arena.Models.{get_command, ArenaRequest}
use mini_redis_test_app.Arena.Mongo
use mini_redis_test_app.Arena.Mongo.{
  ArenaDocument, Documents, Kind, string_kind, hash_kind, Kind-cases, is_there, read_document,
}
use mini_redis_test_app.Dict
use mini_redis_test_app.Dict.{Dict}
use mini_redis_test_app.Platform.{Platform}
use mini_redis_test_app.Result.{Result, Error, ok, raise}
use mini_redis_test_app.Text.{Text}

pub Result-cases :
    {A : Type 0} (r : Result (Option A))
    → (r ≡ ok none) ⊎ (((a : A) × (r ≡ ok (some a))) ⊎ ((e : Error) × (r ≡ raise e)))
Result-cases (ok none) = inl refl
Result-cases (ok (some a)) = inr (inl (a, refl))
Result-cases (raise e) = inr (inr (e, refl))

read_document-read_shape :
    (document : Option ArenaDocument) → read_document document ≡ read_shape (shape_of document)
read_document-read_shape none = refl
read_document-read_shape (some document) = elim (Kind-cases document.kind) [
  | inl h ↦ rw h refl
  | inr h ↦ rw h refl
]

read-read_shape : (key : Text) (d : Documents) → Mongo.read key d ≡ read_shape (view_of d key)
unfolding Mongo.read
read-read_shape key d = read_document-read_shape (Dict.get d key)

string_of_shape :
    (shape : Option Shape) (v : Text)
    → read_shape shape ≡ ok (some v)
    → shape ≡ some (string_shape (some v))
string_of_shape none v h = absurd (ground arith)
string_of_shape (some (string_shape value)) v h = ground arith
string_of_shape (some hash_shape) v h = absurd (ground arith)

-- A key whose document is read as a string holds that string.
read_shape-string :
    (key : Text) (d : Documents) (v : Text)
    → Mongo.read key d ≡ ok (some v)
    → view_of d key ≡ some (string_shape (some v))
read_shape-string key d v h = string_of_shape (view_of d key) v (sym (read-read_shape key d) ∙ h)

module _ ⦃P : Platform⦄ (C : MiniRedisClient) (sees : C.Cache → View) (outside : Outside)
    (lawful : IsLawful C sees) (t : P.Float) (parsed : default_ttl_seconds outside ≡ ok t) where
  then_get :
      (key : Text) (c : C.Cache) (d : Documents)
      → IsCoherent C sees c d
      → IsCoherent C sees (C.get key c).1 d
  then_get key c d coherent =
      IsWithin-trans (sees (C.get key c).1) (sees c) (view_of d) (lawful.get-IsWithin key c)
        coherent

  -- The cache has nothing for a read, or what the documents have.
  get-read :
      (key : Text) (c : C.Cache) (d : Documents)
      → IsCoherent C sees c d
      → ((C.get key c).0 ≡ ok none) ⊎ ((C.get key c).0 ≡ Mongo.read key d)
  get-read key c d coherent = elim (lawful.get-read_shape key c) [
    | inl gone ↦ inl gone
    | inr found ↦ elim (coherent key) [
      | inl none' ↦ inl (found ∙ ap read_shape none')
      | inr same ↦ inr (found ∙ ap read_shape same ∙ sym (read-read_shape key d))
    ]
  ]

  get_miss :
      (request : ArenaRequest) (c : C.Cache) (d : Documents)
      → IsCoherent C sees c d
      → (C.get request.key c).0 ≡ ok none
      → Matches C sees outside
          (run_get C in_memory_repository outside request ((c, d), no_progress))
          (DbOnly.run_command in_memory_repository outside get_command request (d, no_progress))
  unfolding run_get DbOnly.run_command
  get_miss request c d coherent missed =
      let key = request.key in
      let c1 = (C.get key c).1 in
      let coherent' = then_get key c d coherent in
      elim (Result-cases (Mongo.read key d)) [
        | inl absent ↦ rw (run_get, missed, absent) (refl, refl, coherent', refl, refl, refl)
        | inr (inl (v, found)) ↦
            let (o, ttl) =
              ttl-ok C sees outside lawful t parsed request.ttl_enabled request.ttl_seconds in
            let c2 = (C.set key v c1).1 in
            let shape = read_shape-string key d v found in
            rw
              (
                run_get,
                missed,
                found,
                ttl,
                lawful.set-ok key v c1,
                apply_ttl-eq C sees outside lawful t parsed key o _ _ _,
              )
              (
                refl,
                refl,
                then_ttl C sees outside lawful t parsed key o c2 d (
                    fill C sees outside lawful t parsed key c1 c2 d coherent'
                      (rw shape (lawful.set-IsWithin key v c1))),
                ttl_progress-preview C sees outside lawful t parsed key o c2 _,
                refl,
                refl,
              )
        | inr (inr (e, raised)) ↦
            rw (run_get, missed, raised) (refl, refl, coherent', refl, refl, refl)
      ]

  pub run_get-Matches :
      (request : ArenaRequest) (c : C.Cache) (d : Documents)
      → IsCoherent C sees c d
      → Matches C sees outside
          (run_get C in_memory_repository outside request ((c, d), no_progress))
          (DbOnly.run_command in_memory_repository outside get_command request (d, no_progress))
  unfolding run_get DbOnly.run_command
  run_get-Matches request c d coherent =
      let key = request.key in
      let coherent' = then_get key c d coherent in
      elim (get-read key c d coherent) [
        | inl missed ↦ get_miss request c d coherent missed
        | inr same ↦ elim (Result-cases (Mongo.read key d)) [
          | inl absent ↦ get_miss request c d coherent (same ∙ absent)
          | inr (inl (v, found)) ↦
              rw (run_get, same ∙ found, found) (refl, refl, coherent', refl, refl, refl)
          | inr (inr (e, raised)) ↦
              rw (run_get, same ∙ raised, raised) (refl, refl, coherent', refl, refl, refl)
        ]
      ]
