-- ===== src/Service/Bound.antt =====
-- What `_ensure_max_memory` promises: it ends, raises nothing, and leaves data within the limit.
use mini_redis_test_app.Prelude.{
  ℕ, zero, suc, ◌+◌, ◌≤◌, ◌<◌, ◌≡◌, ◌⊎◌, ◌∙◌, refl, true, false, none, some, List, [], ◌∷◌, All,
  length, arith, ltb, leb, leb→le, if◌then◌else◌, Bool-cases, Option-cases, inl, inr,
}
use mathlib.Core.Path.{subst}
use mini_redis_test_app.Dict
use mini_redis_test_app.Dict.{Dict, keys, contains, get-remove, length-remove_lt}
use mini_redis_test_app.Platform.{Platform}
use mini_redis_test_app.Repository.{ValueEntry, delete}
use mini_redis_test_app.Result.{Result, ok}
use mini_redis_test_app.Service.{State, pure, gets, modify, maybe, ◌>>=◌}
use mini_redis_test_app.Service.Eviction.{oldest-none, oldest-mem}
use mini_redis_test_app.Service.Keeps.{run-bind, run-gets}
use mini_redis_test_app.Service.Measure.{
  Stored, keys-Stored, used_bytes, bytes_under, oldest, current_memory_bytes-eq,
  eviction_candidate-eq,
}
use mini_redis_test_app.Service.Memory.{
  evict, evict_while, evict_protected, ensure_max_memory, shrink_to, purge_all_expired_keys,
  forget_key, current_memory_bytes,
}
use mini_redis_test_app.Service.Raises.{returns, purge_all-Raises}
use mini_redis_test_app.Text.{Text, text_eq, text_eq_iff, text_eq_refl}

module _ ⦃P : Platform⦄ where
  -- The state behind the eviction of a key.
  unfoldable pub evicted : Text → State → State
  evicted key s = record s {
    store = Dict.remove s.store key;
    ttl = Dict.remove s.ttl key;
    access_order = Dict.remove s.access_order key;
    evicted_keys = s.evicted_keys + 1;
  }

  pub evict-eq : (key : Text) (s : State) → evict key s ≡ (ok tt, evicted key s)
  unfolding evict evicted delete ◌>>=◌
  evict-eq key s = refl

  module _ (limit : ℕ) where
    -- The rounds of the loop: it stops within the limit or without a candidate, else it evicts.
    evict_while-stop :
        (fuel : ℕ) (protected : List Text) (s : State)
        → ltb limit (used_bytes s) ≡ false
        → evict_while (suc fuel) limit protected s ≡ (ok tt, s)
    unfolding evict_while pure
    evict_while-stop fuel protected s h = run-bind _ _ s (current_memory_bytes-eq s) ∙ rw h

    evict_while-none :
        (fuel : ℕ) (protected : List Text) (s : State)
        → ltb limit (used_bytes s) ≡ true
        → oldest protected s.access_order (keys s.store) none ≡ none
        → evict_while (suc fuel) limit protected s ≡ (ok tt, s)
    unfolding evict_while pure maybe
    evict_while-none fuel protected s h e =
        run-bind _ _ s (current_memory_bytes-eq s)
        ∙ rw h (run-bind _ _ s (eviction_candidate-eq protected s) ∙ rw e)

    evict_while-some :
        (fuel : ℕ) (protected : List Text) (s : State) (key : Text)
        → ltb limit (used_bytes s) ≡ true
        → oldest protected s.access_order (keys s.store) none ≡ some key
        → evict_while (suc fuel) limit protected s
          ≡ evict_while fuel limit protected (evicted key s)
    unfolding evict_while pure maybe
    evict_while-some fuel protected s key h e =
        run-bind _ _ s (current_memory_bytes-eq s)
        ∙ rw h (
            run-bind _ _ s (eviction_candidate-eq protected s)
            ∙ rw e (run-bind _ _ s (evict-eq key s)))

    -- What the loop leaves: data within the limit, or protected keys only.
    abbrev IsShrunk : List Text → State → Type 0
    IsShrunk protected s =
        (used_bytes s ≤ limit) ⊎ All (λ k. contains protected k ≡ true) (keys s.store)

    evict_while-IsShrunk :
        (fuel : ℕ) (protected : List Text) (s : State)
        → length s.store < fuel
        → ((evict_while fuel limit protected s).0 ≡ ok tt)
          × IsShrunk protected (evict_while fuel limit protected s).1
    evict_while-IsShrunk zero protected s h = absurd (omega arith)
    evict_while-IsShrunk (suc fuel) protected s h = elim (Bool-cases (ltb limit (used_bytes s))) [
      | inr small ↦ rw (evict_while-stop fuel protected s small) (refl, inl (ground arith))
      | inl large ↦ elim (Option-cases (oldest protected s.access_order (keys s.store) none)) [
        | inl nobody ↦
            rw (evict_while-none fuel protected s large nobody)
              (refl, inr (oldest-none protected s.access_order (keys s.store) none nobody).1)
        | inr (key, found) ↦
            let (e, stored) =
              oldest-mem (Stored s.store) protected s.access_order (keys s.store) none key
                (keys-Stored s.store) (λ j n no. absurd (ground arith)) found in
            let shorter = length-remove_lt s.store key e stored in
            rw (evict_while-some fuel protected s key large found)
              (evict_while-IsShrunk fuel protected (evicted key s) (unfold evicted in omega arith))
      ]
    ]

  -- What holds of every listed key holds of every key with an entry.
  All-stored :
      (Q : Text → Type 0) (d : Dict ValueEntry) (k : Text) (e : ValueEntry)
      → All Q (keys d)
      → Dict.get d k ≡ some e
      → Q k
  unfolding keys Dict.get
  All-stored Q [] k e a h = absurd (ground arith)
  All-stored Q ((j, v) ∷ d) k e (q, a) h = elim (Bool-cases (text_eq j k)) [
    | inl same ↦ subst Q ((text_eq_iff j k).0 same) q
    | inr other ↦ All-stored Q d k e a (rw other at h)
  ]

  -- The state behind `_forget_key`.
  unfoldable pub forgotten : Text → State → State
  forgotten key s = record s { access_order = Dict.remove s.access_order key }

  -- Every stored key is in the list.
  abbrev Covers : List Text → State → Type 0
  Covers l s = (k : Text) (e : ValueEntry) → Dict.get s.store k ≡ some e → contains l k ≡ true

  used_bytes-empty : (s : State) → Covers [] s → used_bytes s ≡ 0
  unfolding used_bytes
  used_bytes-empty s h = go s.store h
    where
      go :
          (d : Dict ValueEntry)
          → ((k : Text) (e : ValueEntry) → Dict.get d k ≡ some e → contains [] k ≡ true)
          → bytes_under d (keys d) ≡ 0
      go [] c = unfold bytes_under keys in refl
      go ((j, v) ∷ d) c =
          let no : contains [] j ≡ true = c j v (unfold Dict.get in rw (text_eq_refl j)) in
          absurd (unfold contains in ground arith)

  Covers-evicted :
      (key : Text) (rest : List Text) (s : State)
      → Covers (key ∷ rest) s
      → Covers rest (evicted key s)
  unfolding evicted contains
  Covers-evicted key rest s h k e stored = ground (arith, get-remove s.store key k, h k e)

  Covers-skip :
      (key : Text) (rest : List Text) (s : State)
      → Dict.get s.store key ≡ none
      → Covers (key ∷ rest) s
      → Covers rest s
  unfolding contains
  Covers-skip key rest s missing h k e stored = ground (arith, text_eq_iff key k, h k e stored)

  module _ (limit : ℕ) where
    evict_protected-stop :
        (key : Text) (rest : List Text) (s : State)
        → leb (used_bytes s) limit ≡ true
        → evict_protected limit (key ∷ rest) s ≡ (ok tt, s)
    unfolding evict_protected pure
    evict_protected-stop key rest s h = run-bind _ _ s (current_memory_bytes-eq s) ∙ rw h

    evict_protected-skip :
        (key : Text) (rest : List Text) (s : State)
        → leb (used_bytes s) limit ≡ false
        → Dict.get s.store key ≡ none
        → evict_protected limit (key ∷ rest) s ≡ evict_protected limit rest (forgotten key s)
    unfolding evict_protected forgotten forget_key modify gets maybe
    evict_protected-skip key rest s h e =
        run-bind _ _ s (current_memory_bytes-eq s)
        ∙ rw h (run-bind _ _ s refl ∙ rw e (run-bind _ _ s refl))

    evict_protected-evict :
        (key : Text) (rest : List Text) (s : State) (e : ValueEntry)
        → leb (used_bytes s) limit ≡ false
        → Dict.get s.store key ≡ some e
        → evict_protected limit (key ∷ rest) s ≡ evict_protected limit rest (evicted key s)
    unfolding evict_protected gets maybe
    evict_protected-evict key rest s e h found =
        run-bind _ _ s (current_memory_bytes-eq s)
        ∙ rw h (run-bind _ _ s refl ∙ rw found (run-bind _ _ s (evict-eq key s)))

    abbrev Fits : Result (Unit {0}) × State → Type 0
    Fits r = (r.0 ≡ ok tt) × (used_bytes r.1 ≤ limit)

    -- The last loop ends within the limit if the protected keys are all that is left.
    evict_protected-Fits :
        (l : List Text) (s : State) → Covers l s → Fits (evict_protected limit l s)
    evict_protected-Fits [] s h =
        unfold evict_protected pure in (refl, omega (arith, used_bytes-empty s h))
    evict_protected-Fits (key ∷ rest) s h = elim (Bool-cases (leb (used_bytes s) limit)) [
      | inl small ↦ rw (evict_protected-stop key rest s small) (refl, leb→le _ _ small)
      | inr large ↦ elim (Option-cases (Dict.get s.store key)) [
        | inl missing ↦ rw (evict_protected-skip key rest s large missing) (
            evict_protected-Fits rest (forgotten key s)
              (unfold forgotten in Covers-skip key rest s missing h))
        | inr (e, found) ↦
            rw (evict_protected-evict key rest s e large found)
              (evict_protected-Fits rest (evicted key s) (Covers-evicted key rest s h))
      ]
    ]

    shrunk-Fits :
        (protected : List Text) (s : State)
        → IsShrunk limit protected s
        → Fits (
            (current_memory_bytes >>= λ used.
            if leb used limit then pure tt else evict_protected limit protected)
              s)
    unfolding pure
    shrunk-Fits protected s h =
        rw (run-bind _ _ s (current_memory_bytes-eq s))
          (elim (Bool-cases (leb (used_bytes s) limit)) [
            | inl small ↦ rw small (refl, leb→le _ _ small)
            | inr large ↦
                rw large
                  (evict_protected-Fits protected s (covered h (λ fits. absurd (ground arith))))
          ])
      where
        covered : IsShrunk limit protected s → (used_bytes s ≤ limit → ⊥) → Covers protected s
        covered (inl fits) large k e stored = absurd (large fits)
        covered (inr all) large k e stored =
            All-stored (λ k. contains protected k ≡ true) s.store k e all stored

    -- The state behind the purge is the one whose keys are the fuel.
    shrink_to-Fits : (protected : List Text) (s : State) → Fits (shrink_to limit protected s)
    unfolding shrink_to
    shrink_to-Fits protected s =
        let (u, purged) = returns purge_all_expired_keys purge_all-Raises s in
        let s1 = (purge_all_expired_keys s).1 in
        let fuel = suc (length s1.store) in
        let (ends, shrunk) = evict_while-IsShrunk limit fuel protected s1 (omega arith) in
        rw (run-bind _ _ s purged) (
          rw (run-gets _ _ s1) (
            rw
              (run-bind (evict_while fuel limit protected) _ s1
                (λ i. (ends i, (evict_while fuel limit protected s1).1)))
              (shrunk-Fits protected _ shrunk)))

  ensure_max_memory-eq :
      (protected : List Text) (s : State) (limit : ℕ)
      → s.max_memory_bytes ≡ some limit
      → ensure_max_memory protected s ≡ shrink_to limit protected s
  unfolding ensure_max_memory gets maybe
  ensure_max_memory-eq protected s limit h = run-bind _ _ s refl ∙ simp h

  -- For every limit, list of protected keys and state: making room raises nothing, and afterwards
  -- the data have at most the size allowed.
  pub ensure_max_memory-fits :
      (protected : List Text) (s : State) (limit : ℕ)
      → s.max_memory_bytes ≡ some limit
      → ((ensure_max_memory protected s).0 ≡ ok tt)
        × (used_bytes (ensure_max_memory protected s).1 ≤ limit)
  ensure_max_memory-fits protected s limit h =
      rw (ensure_max_memory-eq protected s limit h) (shrink_to-Fits limit protected s)
