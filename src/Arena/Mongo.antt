-- ===== src/Arena/Mongo.antt =====
-- internal/arena/mongo/repository.py: `ArenaDocument` and `InMemoryMongoRepository`.
use mini_redis_test_app.Prelude.{
  ℕ, ◌+◌, ◌≡◌, ◌⊎◌, inl, inr, refl, Bool, true, false, Option, none, some, List, [], ◌∷◌, length,
}
use mini_redis_test_app.Dict
use mini_redis_test_app.Dict.{Dict}
use mini_redis_test_app.Result.{Result, ok, raise, type_error}
use mini_redis_test_app.Service.Memory.{byte_length, sum_fields}
use mini_redis_test_app.Text.{Text, codes}

pub data Kind : Type 0 where
  string_kind hash_kind : Kind

pub Kind-cases : (kind : Kind) → (kind ≡ string_kind) ⊎ (kind ≡ hash_kind)
Kind-cases string_kind = inl refl
Kind-cases hash_kind = inr refl

pub record ArenaDocument : Type 0 where
  pub kind : Kind
  pub value : Option Text
  pub fields : Dict Text

-- `_documents`; the name of the repository only appears in its health report.
abbrev pub Documents : Type 0
Documents = Dict ArenaDocument

abbrev pub string_document : Text → ArenaDocument
string_document v = record { kind = string_kind; value = some v; fields = [] }

abbrev pub hash_document : Dict Text → ArenaDocument
hash_document fields = record { kind = hash_kind; value = none; fields = fields }

-- "created" or "updated": for a document or a field that was there before, or not.
abbrev pub write_state {ℓ} : {A : Type ℓ} → Option A → Text
write_state none = codes "created"
write_state (some _) = codes "updated"

unfoldable pub write : Text → Text → Documents → Text × Documents
write key v d = (write_state (Dict.get d key), Dict.set d key (string_document v))

abbrev pub read_document : Option ArenaDocument → Result (Option Text)
read_document none = ok none
read_document (some document) = elim document.kind [
  | string_kind ↦ ok document.value
  | hash_kind ↦ raise type_error
]

unfoldable pub read : Text → Documents → Result (Option Text)
read key d = read_document (Dict.get d key)

abbrev pub fields_of_document : Option ArenaDocument → Result (Option (Dict Text))
fields_of_document none = ok none
fields_of_document (some document) = elim document.kind [
  | hash_kind ↦ ok (some document.fields)
  | string_kind ↦ raise type_error
]

unfoldable pub hgetall : Text → Documents → Result (Option (Dict Text))
hgetall key d = fields_of_document (Dict.get d key)

abbrev field_of_document : Text → Option ArenaDocument → Result (Option Text)
field_of_document field_name none = ok none
field_of_document field_name (some document) = elim document.kind [
  | hash_kind ↦ ok (Dict.get document.fields field_name)
  | string_kind ↦ raise type_error
]

unfoldable pub hget : Text → Text → Documents → Result (Option Text)
hget key field_name d = field_of_document field_name (Dict.get d key)

abbrev pub write_document_field :
    Text → Text → Text → Option ArenaDocument → Documents → Result Text × Documents
write_document_field key field_name v none d =
    (ok (codes "created"), Dict.set d key (hash_document ((field_name, v) ∷ [])))
write_document_field key field_name v (some document) d = elim document.kind [
  | hash_kind ↦ (
    ok (write_state (Dict.get document.fields field_name)),
    Dict.set d key (record document { fields = Dict.set document.fields field_name v }),
  )
  | string_kind ↦ (raise type_error, d)
]

unfoldable pub hset : Text → Text → Text → Documents → Result Text × Documents
hset key field_name v d = write_document_field key field_name v (Dict.get d key) d

abbrev pub is_there {ℓ} : {A : Type ℓ} → Option A → Bool
is_there none = false
is_there (some _) = true

unfoldable pub delete : Text → Documents → Bool × Documents
delete key d = (is_there (Dict.get d key), Dict.remove d key)

unfoldable pub delete_many : List Text → Documents → Documents
unfolding delete
delete_many [] d = d
delete_many (key ∷ keys) d = delete_many keys (delete key d).1

unfoldable pub seed : Dict Text → Documents → Documents
seed [] d = d
seed ((key, v) ∷ documents) d = seed documents (Dict.set d key (string_document v))

-- `(document.value or "")`
abbrev value_size : Option Text → ℕ
value_size none = 0
value_size (some v) = byte_length v

abbrev document_size : ArenaDocument → ℕ
document_size document = elim document.kind [
  | string_kind ↦ value_size document.value
  | hash_kind ↦ sum_fields document.fields
]

unfoldable pub logical_bytes : Documents → ℕ
unfolding byte_length sum_fields
logical_bytes [] = 0
logical_bytes ((key, document) ∷ d) = byte_length key + document_size document + logical_bytes d

unfoldable pub stats : Documents → Dict ℕ
unfolding logical_bytes
stats d = (codes "logical_bytes", logical_bytes d) ∷ (codes "document_count", length d) ∷ []
