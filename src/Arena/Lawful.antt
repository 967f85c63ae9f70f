-- ===== src/Arena/Lawful.antt =====
-- What the lanes may expect of a cache, whatever it evicts and whenever its entries expire: the
-- class `MiniRedisClient` of internal/arena/lane/redis_client.py.
use mini_redis_test_app.Prelude.{
  ◌≡◌, ◌⊎◌, inl, inr, refl, sym, ap, ◌∙◌, Bool, Option, none, some, arith, if◌then◌else◌,
  Bool-cases,
}
use mini_redis_test_app.Arena.Interfaces.{MiniRedisClient}
use mini_redis_test_app.Arena.Mongo.{ArenaDocument, Documents, string_kind, hash_kind, is_there}
use mini_redis_test_app.Dict
use mini_redis_test_app.Dict.{Dict, get-set, get-remove}
use mini_redis_test_app.Platform.{Platform}
use mini_redis_test_app.Result.{Result, ok, raise, type_error}
use mini_redis_test_app.Text.{Text, text_eq, text_eq_iff}

-- What a key holds: a string, with its text, or some hash.
pub data Shape : Type 0 where
  string_shape : Option Text → Shape
  hash_shape : Shape

abbrev pub View : Type 0
View = Text → Option Shape

abbrev pub update : Text → Option Shape → View → View
update key shape f j = if text_eq key j then shape else f j

-- Every key has nothing in the first view or the same in both.
abbrev pub IsWithin : View → View → Type 0
IsWithin f g = (j : Text) → (f j ≡ none) ⊎ (f j ≡ g j)

abbrev pub IsNoString : Option Shape → Type 0
IsNoString shape = (shape ≡ none) ⊎ (shape ≡ some hash_shape)

-- The reply to a read of a string.
abbrev pub read_shape : Option Shape → Result (Option Text)
read_shape none = ok none
read_shape (some (string_shape value)) = ok value
read_shape (some hash_shape) = raise type_error

-- A cache may lose entries at any call; it never has anything that was not written.
pub record IsLawful ⦃P : Platform⦄ (C : MiniRedisClient) (sees : C.Cache → View) : Type 0 where
  pub set-ok : (key value : Text) (c : C.Cache) → (C.set key value c).0 ≡ ok tt
  pub set-IsWithin :
      (key value : Text) (c : C.Cache)
      → IsWithin
          (sees (C.set key value c).1)
          (update key (some (string_shape (some value))) (sees c))
  pub get-read_shape :
      (key : Text) (c : C.Cache)
      → ((C.get key c).0 ≡ ok none) ⊎ ((C.get key c).0 ≡ read_shape (sees c key))
  pub get-IsWithin : (key : Text) (c : C.Cache) → IsWithin (sees (C.get key c).1) (sees c)
  pub hset-ok :
      (key field value : Text) (c : C.Cache)
      → IsNoString (sees c key)
      → (C.hset key field value c).0 ≡ ok tt
  pub hset-IsWithin :
      (key field value : Text) (c : C.Cache)
      → IsNoString (sees c key)
      → IsWithin (sees (C.hset key field value c).1) (update key (some hash_shape) (sees c))
  pub hget-IsWithin :
      (key field : Text) (c : C.Cache) → IsWithin (sees (C.hget key field c).1) (sees c)
  pub hgetall-IsWithin : (key : Text) (c : C.Cache) → IsWithin (sees (C.hgetall key c).1) (sees c)
  pub expire-ok :
      (key : Text) (ttl_seconds : P.Float) (c : C.Cache)
      → (b : Bool) × ((C.expire key ttl_seconds c).0 ≡ ok b)
  pub expire-IsWithin :
      (key : Text) (ttl_seconds : P.Float) (c : C.Cache)
      → IsWithin (sees (C.expire key ttl_seconds c).1) (sees c)
  pub delete-is_there : (key : Text) (c : C.Cache) → (C.delete key c).0 ≡ ok (is_there (sees c key))
  pub delete-IsWithin :
      (key : Text) (c : C.Cache) → IsWithin (sees (C.delete key c).1) (update key none (sees c))

-- What the documents hold.
abbrev pub shape_of : Option ArenaDocument → Option Shape
shape_of none = none
shape_of (some document) = elim document.kind [
  | string_kind ↦ some (string_shape document.value)
  | hash_kind ↦ some hash_shape
]

abbrev pub view_of : Documents → View
view_of d j = shape_of (Dict.get d j)

pub IsWithin-refl : (f : View) → IsWithin f f
IsWithin-refl f j = inr refl

pub IsWithin-trans : (f g h : View) → IsWithin f g → IsWithin g h → IsWithin f h
IsWithin-trans f g h fg gh j = ground (arith, fg j, gh j)

pub IsWithin-update :
    (key : Text) (shape : Option Shape) (f g : View)
    → IsWithin f g
    → IsWithin (update key shape f) (update key shape g)
IsWithin-update key shape f g fg j = ground (arith, fg j)

-- A value that is written over one of the same shape.
pub same_shape :
    (key : Text) (shape : Option Shape) (f : View) → f key ≡ shape → IsWithin (update key shape f) f
same_shape key shape f h j = elim (Bool-cases (text_eq key j)) [
  | inl same ↦ let eq = (text_eq_iff key j).0 same in inr (rw same (sym h ∙ ap f eq))
  | inr other ↦ inr (rw other refl)
]

pub view_of-set :
    (d : Documents) (key : Text) (document : ArenaDocument) (j : Text)
    → view_of (Dict.set d key document) j ≡ update key (shape_of (some document)) (view_of d) j
view_of-set d key document j = elim (Bool-cases (text_eq key j)) [
  | inl same ↦ rw (get-set d key j document, same) refl
  | inr other ↦ rw (get-set d key j document, other) refl
]

pub view_of-remove :
    (d : Documents) (key j : Text) → view_of (Dict.remove d key) j ≡ update key none (view_of d) j
view_of-remove d key j = elim (Bool-cases (text_eq key j)) [
  | inl same ↦ rw (get-remove d key j, same) refl
  | inr other ↦ rw (get-remove d key j, other) refl
]
