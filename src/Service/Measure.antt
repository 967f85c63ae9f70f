-- ===== src/Service/Measure.antt =====
-- What the loops over the keys of the store compute: they meet stored keys only, so they change
-- nothing, and their results are plain functions of the state.
use mini_redis_test_app.Prelude.{
  ℕ, ◌+◌, ◌≡◌, refl, Option, none, some, List, [], ◌∷◌, All, All-weaken, arith, if◌then◌else◌,
  Bool-cases, inl, inr,
}
use native.Mathlib.Nat.{add_assoc, zero-add}
use mini_redis_test_app.Dict
use mini_redis_test_app.Dict.{Dict, keys, contains}
use mini_redis_test_app.Platform.{Platform}
use mini_redis_test_app.Repository.{ValueEntry}
use mini_redis_test_app.Result.{ok}
use mini_redis_test_app.Service.{State, ◌>>=◌}
use mini_redis_test_app.Service.Memory.{
  estimate_entry_bytes, sum_entries, current_memory_bytes, scan_candidates, eviction_candidate,
  access_of, is_older,
}
use mini_redis_test_app.Text.{Text, text_eq, text_eq_refl}

module _ ⦃P : Platform⦄ where
  abbrev pub Stored : Dict ValueEntry → Text → Type 0
  Stored d k = (e : ValueEntry) × (Dict.get d k ≡ some e)

  Stored-cons :
      (j : Text) (v : ValueEntry) (d : Dict ValueEntry) (k : Text)
      → Stored d k
      → Stored ((j, v) ∷ d) k
  unfolding Dict.get
  Stored-cons j v d k (e, h) = elim (Bool-cases (text_eq j k)) [
    | inl same ↦ (v, rw same)
    | inr other ↦ (e, rw other h)
  ]

  -- Every key that the store lists has an entry.
  pub keys-Stored : (d : Dict ValueEntry) → All (Stored d) (keys d)
  unfolding keys
  keys-Stored [] = tt
  keys-Stored ((j, v) ∷ d) = (
    (v, unfold Dict.get in rw (text_eq_refl j)),
    All-weaken (Stored-cons j v d) (keys d) (keys-Stored d),
  )

  -- The size of the entries under the given keys.
  unfoldable pub bytes_under : Dict ValueEntry → List Text → ℕ
  bytes_under d [] = 0
  bytes_under d (k ∷ ks) =
      elim (Dict.get d k) [ none ↦ 0 | some e ↦ estimate_entry_bytes k e ] + bytes_under d ks

  -- The size of the data, as the service estimates it.
  unfoldable pub used_bytes : State → ℕ
  unfolding bytes_under
  used_bytes s = bytes_under s.store (keys s.store)

  sum_entries-eq :
      (ks : List Text) (total : ℕ) (s : State)
      → All (Stored s.store) ks
      → sum_entries ks total s ≡ (ok (total + bytes_under s.store ks), s)
  unfolding sum_entries bytes_under ◌>>=◌
  sum_entries-eq [] total s h = ground arith
  sum_entries-eq (k ∷ ks) total s ((e, found), h) = rw (
    found,
    sum_entries-eq ks (total + estimate_entry_bytes k e) s h,
    add_assoc total (estimate_entry_bytes k e) (bytes_under s.store ks),
  )

  -- The measurement changes nothing.
  pub current_memory_bytes-eq : (s : State) → current_memory_bytes s ≡ (ok (used_bytes s), s)
  unfolding current_memory_bytes used_bytes ◌>>=◌
  current_memory_bytes-eq s = rw (sum_entries-eq (keys s.store) 0 s (keys-Stored s.store), zero-add)

  -- The better of a key and the best so far: the earlier one unless the key is older.
  unfoldable pub better : Text → ℕ → Option (Text × ℕ) → Option (Text × ℕ)
  better k access best = if is_older access best then some (k, access) else best

  -- The least recently used of the keys that are not protected; the first of several.
  unfoldable pub oldest : List Text → Dict ℕ → List Text → Option (Text × ℕ) → Option Text
  oldest protected order [] none = none
  oldest protected order [] (some (key, n)) = some key
  oldest protected order (k ∷ ks) best =
      oldest protected order ks
        (if contains protected k then best else better k (access_of order k) best)

  scan_candidates-eq :
      (protected ks : List Text) (best : Option (Text × ℕ)) (s : State)
      → All (Stored s.store) ks
      → scan_candidates protected ks best s ≡ (ok (oldest protected s.access_order ks best), s)
  unfolding scan_candidates oldest better ◌>>=◌
  scan_candidates-eq protected [] none s h = refl
  scan_candidates-eq protected [] (some (key, n)) s h = refl
  scan_candidates-eq protected (k ∷ ks) best s ((e, found), h) =
      elim (Bool-cases (contains protected k)) [
        | inl safe ↦ rw safe (scan_candidates-eq protected ks best s h)
        | inr open' ↦ rw (open', found) (scan_candidates-eq protected ks _ s h)
      ]

  pub eviction_candidate-eq :
      (protected : List Text) (s : State)
      → eviction_candidate protected s
        ≡ (ok (oldest protected s.access_order (keys s.store) none), s)
  unfolding eviction_candidate ◌>>=◌
  eviction_candidate-eq protected s =
      scan_candidates-eq protected (keys s.store) none s (keys-Stored s.store)
