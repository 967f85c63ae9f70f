-- ===== src/Service/Sweeper/Removal.antt =====
-- What one sweep removes: internal/expiration/expiration_sweeper.py, `sweep_once`.
use mini_redis_test_app.Prelude.{
  ℕ, ◌+◌, ◌≤◌, ◌≡◌, refl, Bool, false, ◌&&◌, Option, none, some, List, [], ◌∷◌, take, length,
  length-take_le, arith, if◌then◌else◌, Bool-cases, Option-cases, inl, inr,
}
use mini_redis_test_app.Dict
use mini_redis_test_app.Dict.{Dict, keys, contains, get-remove}
use mini_redis_test_app.Platform.{Platform}
use mini_redis_test_app.Repository.{delete}
use mini_redis_test_app.Result.{Result, ok}
use mini_redis_test_app.Service.{State, ◌>>=◌}
use mini_redis_test_app.Service.Expiration.{now, delete_key}
use mini_redis_test_app.Service.Sweeper.{sweeper_is_expired, sweep_keys, sweep_once}
use mini_redis_test_app.Text.{Text, text_eq_iff}

module _ ⦃P : Platform⦄ where
  -- The key has an expiration time that is past.
  abbrev pub is_due : P.Float → Option P.Float → Bool
  is_due current none = false
  is_due current (some t) = P.float_le t current

  -- What is left of a value under a key, if the key is among those swept and due.
  abbrev pub swept : {A : Type 0} → P.Float → List Text → State → Text → Option A → Option A
  swept current batch s k v =
      if contains batch k && is_due current (Dict.get s.ttl k) then none else v

  -- A state after the batch was swept.
  abbrev pub IsSwept : P.Float → List Text → State → State → Type 0
  IsSwept current batch s s' =
      (k : Text)
      → (Dict.get s'.store k ≡ swept current batch s k (Dict.get s.store k))
        × (Dict.get s'.ttl k ≡ swept current batch s k (Dict.get s.ttl k))

  sweep_keys-IsSwept :
      (current : P.Float) (batch : List Text) (n : ℕ) (s : State)
      → IsSwept current batch s (sweep_keys current batch n s).1
  unfolding sweep_keys contains delete_key delete ◌>>=◌
  sweep_keys-IsSwept current [] n s = λ k. (refl, refl)
  sweep_keys-IsSwept current (j ∷ batch) n s = elim (Option-cases (Dict.get s.ttl j)) [
    | inl free ↦ rw free λ k.
        let (a, b) = sweep_keys-IsSwept current batch n s k in
        (ground (arith, text_eq_iff j k), ground (arith, text_eq_iff j k))
    | inr (t, found) ↦ rw found (elim (Bool-cases (sweeper_is_expired current t)) [
      | inl past ↦ rw past λ k.
          let s' = record s { store = Dict.remove s.store j; ttl = Dict.remove s.ttl j } in
          let (a, b) = sweep_keys-IsSwept current batch (n + 1) s' k in
          (
            ground (arith, text_eq_iff j k, get-remove s.store j k, get-remove s.ttl j k),
            ground (arith, text_eq_iff j k, get-remove s.ttl j k),
          )
      | inr later ↦ rw later λ k.
          let (a, b) = sweep_keys-IsSwept current batch n s k in
          (ground (arith, text_eq_iff j k), ground (arith, text_eq_iff j k))
    ])
  ]

  abbrev IsCount : Result ℕ → ℕ → Type 0
  IsCount r bound = (m : ℕ) × (r ≡ ok m) × (m ≤ bound)

  wider : {r : Result ℕ} (a : ℕ) {b : ℕ} → IsCount r a → a ≤ b → IsCount r b
  wider a (m, e, h) le = (m, e, omega arith)

  -- The count is at most the size of the batch.
  sweep_keys-IsCount :
      (current : P.Float) (batch : List Text) (n : ℕ) (s : State)
      → IsCount (sweep_keys current batch n s).0 (n + length batch)
  unfolding sweep_keys delete_key ◌>>=◌
  sweep_keys-IsCount current [] n s = (n, refl, omega arith)
  sweep_keys-IsCount current (j ∷ batch) n s = elim (Option-cases (Dict.get s.ttl j)) [
    | inl free ↦
        rw free (wider (n + length batch) (sweep_keys-IsCount current batch n s) (omega arith))
    | inr (t, found) ↦ rw found (elim (Bool-cases (sweeper_is_expired current t)) [
      | inl past ↦
          rw past (
            wider (n + 1 + length batch) (sweep_keys-IsCount current batch (n + 1) _) (omega arith))
      | inr later ↦
          rw later (wider (n + length batch) (sweep_keys-IsCount current batch n s) (omega arith))
    ])
  ]

  -- For every batch size, state and key: with the time that the clock shows at the start, a sweep
  -- takes away the entry and the expiration time of the key if the key is among the first
  -- `batch_size` keys with an expiration time and that time has come, and otherwise leaves both as
  -- they are. It raises nothing and counts at most `batch_size` keys.
  pub sweep_once-swept :
      (batch_size : ℕ) (s : State) (k : Text)
      → (Dict.get (sweep_once batch_size s).1.store k
          ≡ swept (s.readings s.reads) (take batch_size (keys s.ttl)) s k (Dict.get s.store k))
        × (Dict.get (sweep_once batch_size s).1.ttl k
            ≡ swept (s.readings s.reads) (take batch_size (keys s.ttl)) s k (Dict.get s.ttl k))
        × (m : ℕ) × ((sweep_once batch_size s).0 ≡ ok m)
        × (m ≤ batch_size)
  unfolding sweep_once now ◌>>=◌
  sweep_once-swept batch_size s k =
      let batch = take batch_size (keys s.ttl) in
      let current = s.readings s.reads in
      let s' = record s { reads = s.reads + 1 } in
      let (store_swept, ttl_swept) = sweep_keys-IsSwept current batch 0 s' k in
      let (m, e, few) = sweep_keys-IsCount current batch 0 s' in
      (store_swept, ttl_swept, m, e, omega (arith, length-take_le batch_size (keys s.ttl)))
