-- ===== src/Service.antt =====
-- internal/service/command_service.py and the services that it uses. This file has the state and
-- the monad; the children model the methods and prove them.
pub mod Expiration
pub mod Basic
pub mod Memory
pub mod Entries
pub mod Hashes
pub mod Lists
pub mod Sets
pub mod ZSets
pub mod Admin
pub mod Execute
pub mod Sweeper
pub mod Keeps
pub mod Raises
pub mod Backed
pub mod Stable
pub mod Invariant
pub mod Measure
pub mod Eviction
pub mod Bound
pub mod Lru
pub mod Strings
pub mod Ttl
pub mod Slices
pub mod Room
use mini_redis_test_app.Prelude.{ℕ, ◌+◌, Option, none, some}
use mini_redis_test_app.Dict.{Dict}
use mini_redis_test_app.Platform.{Platform}
use mini_redis_test_app.Repository.{ValueEntry}
use mini_redis_test_app.Result.{Result, Error, ok, raise}
use mini_redis_test_app.Text.{Text}

module _ ⦃P : Platform⦄ where
  -- The repositories, the clock and the fields of `CommandService`. The clock is the sequence of
  -- the values that `now()` will return, and the number of calls made so far: two calls in one
  -- command may return different times.
  pub record State : Type 0 where
    pub store : Dict ValueEntry
    pub ttl : Dict P.Float
    pub readings : ℕ → P.Float
    pub reads : ℕ
    pub max_memory_bytes : Option ℕ
    pub access_clock : ℕ
    pub access_order : Dict ℕ
    pub evicted_keys : ℕ

  -- A method: what was written before a raise stays written.
  abbrev pub Exec : Type 0 → Type 0
  Exec A = State → Result A × State

  unfoldable pub pure : {A : Type 0} → A → Exec A
  pure a s = (ok a, s)

  unfoldable pub throw : {A : Type 0} → Error → Exec A
  throw e s = (raise e, s)

  unfoldable pub lift : {A : Type 0} → Result A → Exec A
  lift r s = (r, s)

  unfoldable pub gets : {A : Type 0} → (State → A) → Exec A
  gets f s = (ok (f s), s)

  unfoldable pub modify : (State → State) → Exec (Unit {0})
  modify f s = (ok tt, f s)

  -- `if value is None: … else: …`
  unfoldable pub maybe : {A B : Type 0} → Option A → Exec B → (A → Exec B) → Exec B
  maybe none m f = m
  maybe (some a) m f = f a

  abbrev pub continue : {A B : Type 0} → Result A → (A → Exec B) → Exec B
  continue (ok a) f s = f a s
  continue (raise e) f s = (raise e, s)

  infixl 5 ◌>>=◌ ◌>>◌
  -- Unfolding the bind unfolds the actions above with it.
  unfoldable pub ◌>>=◌ : {A B : Type 0} → Exec A → (A → Exec B) → Exec B
  unfolding pure throw lift gets modify maybe
  ◌>>=◌ m f s = let (r, s') = m s in continue r f s'

  abbrev pub ◌>>◌ : {A B : Type 0} → Exec A → Exec B → Exec B
  m >> k = m >>= λ _. k
