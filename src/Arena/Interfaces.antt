-- ===== src/Arena/Interfaces.antt =====
-- The protocols between the lanes and their stores: `MiniRedisClient` of
-- internal/arena/lane/redis_client.py and `ArenaRepository` of internal/arena/mongo/repository.py,
-- with the in-memory classes as implementations.
use mini_redis_test_app.Prelude.{ℕ, Bool, Option, List, []}
use mini_redis_test_app.Prelude.Int.{ℤ}
use mini_redis_test_app.Arena.Client.{Client, delete}
use mini_redis_test_app.Arena.Client.Methods
use mini_redis_test_app.Arena.Mongo
use mini_redis_test_app.Arena.Mongo.{Documents}
use mini_redis_test_app.Dict.{Dict}
use mini_redis_test_app.Platform.{Platform}
use mini_redis_test_app.Result.{Result, ok}
use mini_redis_test_app.Text.{Text}

-- A method of an object with the state `S`, which may raise after it has changed the state.
abbrev pub Method : Type 0 → Type 0 → Type 0
Method S A = S → Result A × S

pub record ArenaRepository : Type 1 where
  pub Store : Type 0
  pub write : Text → Text → Method Store Text
  pub read : Text → Method Store (Option Text)
  pub hset : Text → Text → Text → Method Store Text
  pub hget : Text → Text → Method Store (Option Text)
  pub hgetall : Text → Method Store (Option (Dict Text))
  pub delete : Text → Method Store Bool
  pub delete_many : List Text → Method Store (Unit {0})
  pub clear : Method Store (Unit {0})
  pub seed : Dict Text → Method Store (Unit {0})

abbrev pub in_memory_repository : ArenaRepository
in_memory_repository = record {
  Store = Documents;
  write = λ key v d. let (state, d') = Mongo.write key v d in (ok state, d');
  read = λ key d. (Mongo.read key d, d);
  hset = Mongo.hset;
  hget = λ key field_name d. (Mongo.hget key field_name d, d);
  hgetall = λ key d. (Mongo.hgetall key d, d);
  delete = λ key d. let (deleted, d') = Mongo.delete key d in (ok deleted, d');
  delete_many = λ keys d. (ok tt, Mongo.delete_many keys d);
  clear = λ d. (ok tt, []);
  seed = λ documents d. (ok tt, Mongo.seed documents d);
}

module _ ⦃P : Platform⦄ where
  pub record MiniRedisClient : Type 1 where
    pub Cache : Type 0
    pub set : Text → Text → Method Cache (Unit {0})
    pub get : Text → Method Cache (Option Text)
    pub hset : Text → Text → Text → Method Cache (Unit {0})
    pub hget : Text → Text → Method Cache (Option Text)
    pub hgetall : Text → Method Cache (Option (Dict Text))
    pub delete : Text → Method Cache Bool
    pub expire : Text → P.Float → Method Cache Bool
    pub flushdb : Method Cache (Unit {0})
    pub info_memory : Method Cache (Dict ℕ)
    pub config_set_maxmemory : ℤ → Method Cache (Unit {0})

  abbrev pub in_memory_client : MiniRedisClient
  in_memory_client = record {
    Cache = Client;
    set = Methods.set;
    get = Methods.get;
    hset = Methods.hset;
    hget = Methods.hget;
    hgetall = Methods.hgetall;
    delete = λ key c. let (deleted, c') = delete key c in (ok deleted, c');
    expire = λ key ttl_seconds c.
        let (applied, c') = Methods.expire key ttl_seconds c in (ok applied, c');
    flushdb = λ c. (ok tt, Methods.flushdb c);
    info_memory = Methods.info_memory;
    config_set_maxmemory = Methods.config_set_maxmemory;
  }
