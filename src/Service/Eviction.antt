-- ===== src/Service/Eviction.antt =====
-- Eviction: which key goes, that the loop ends, and the size that is left.
use mini_redis_test_app.Prelude.{
  ℕ, ◌≤◌, ◌≡◌, ◌≢◌, refl, true, false, Option, none, some, List, [], ◌∷◌, All, arith, ltb, if_intro,
  Bool-cases, inl, inr,
}
use mathlib.Core.Path.{subst}
use mini_redis_test_app.Dict.{Dict, contains}
use mini_redis_test_app.Platform.{Platform}
use mini_redis_test_app.Service.Measure.{oldest, better}
use mini_redis_test_app.Service.Memory.{access_of, is_older}
use mini_redis_test_app.Text.{Text}

module _ ⦃P : Platform⦄ where
  better-ne-none : (k : Text) (n : ℕ) (best : Option (Text × ℕ)) → better k n best ≢ none
  unfolding better is_older
  better-ne-none k n none e = ground arith
  better-ne-none k n (some b) e = ground arith

  -- Without a candidate every key is protected.
  pub oldest-none :
      (protected : List Text) (order : Dict ℕ) (ks : List Text) (best : Option (Text × ℕ))
      → oldest protected order ks best ≡ none
      → (best ≡ none) × All (λ k. contains protected k ≡ true) ks
  unfolding oldest
  oldest-none protected order [] none h = (refl, tt)
  oldest-none protected order [] (some b) h = absurd (ground arith)
  oldest-none protected order (k ∷ ks) best h = elim (Bool-cases (contains protected k)) [
    | inl safe ↦
        let (e, rest) = oldest-none protected order ks best (rw safe at h) in (e, (safe, rest))
    | inr open' ↦
        let (e, rest) =
          oldest-none protected order ks (better k (access_of order k) best) (rw open' at h) in
        absurd (better-ne-none k (access_of order k) best e)
  ]

  -- What is known of the best so far: it was accessed at its time, and it is not protected.
  abbrev IsCandidate : List Text → Dict ℕ → Option (Text × ℕ) → Type 0
  IsCandidate protected order none = Unit
  IsCandidate protected order (some (k, n)) =
      (access_of order k ≡ n) × (contains protected k ≡ false)

  abbrev IsNotOlder : ℕ → Option (Text × ℕ) → Type 0
  IsNotOlder n none = Unit
  IsNotOlder n (some (k, m)) = n ≤ m

  better-IsCandidate :
      (protected : List Text) (order : Dict ℕ) (k : Text) (best : Option (Text × ℕ))
      → contains protected k ≡ false
      → IsCandidate protected order best
      → IsCandidate protected order (better k (access_of order k) best)
  unfolding better is_older
  better-IsCandidate protected order k none open' h = (refl, open')
  better-IsCandidate protected order k (some (j, m)) open' h =
      if_intro (IsCandidate protected order) (ltb (access_of order k) m) (λ _. (refl, open'))
        (λ _. h)

  better-le :
      (n m : ℕ) (k : Text) (best : Option (Text × ℕ))
      → IsNotOlder n (better k m best)
      → (n ≤ m) × IsNotOlder n best
  unfolding better is_older
  better-le n m k none h = (h, tt)
  better-le n m k (some (j, l)) h = ground arith

  -- A candidate is not protected, and no key that is not protected was accessed before it.
  pub oldest-some :
      (protected : List Text) (order : Dict ℕ) (ks : List Text) (best : Option (Text × ℕ))
      (k : Text)
      → IsCandidate protected order best
      → oldest protected order ks best ≡ some k
      → (contains protected k ≡ false)
        × IsNotOlder (access_of order k) best
        × All (λ j. contains protected j ≡ false → access_of order k ≤ access_of order j) ks
  unfolding oldest
  oldest-some protected order [] none k c h = absurd (ground arith)
  oldest-some protected order [] (some (j, n)) k c h =
      let e : j ≡ k = ground arith in rw (← e) (c.1, omega arith, tt)
  oldest-some protected order (j ∷ ks) best k c h = elim (Bool-cases (contains protected j)) [
    | inl safe ↦
        let (open', older, rest) = oldest-some protected order ks best k c (rw safe at h) in
        (open', older, ((λ e. absurd (ground arith)), rest))
    | inr free ↦
        let n = access_of order j in
        let (open', older, rest) =
          oldest-some protected order ks (better j n best) k
            (better-IsCandidate protected order j best free c) (rw free at h) in
        let (first, others) = better-le (access_of order k) n j best older in
        (open', others, ((λ _. first), rest))
  ]

  pub oldest-mem :
      (P' : Text → Type 0) (protected : List Text) (order : Dict ℕ) (ks : List Text)
      (best : Option (Text × ℕ)) (k : Text)
      → All P' ks
      → ((j : Text) (n : ℕ) → best ≡ some (j, n) → P' j)
      → oldest protected order ks best ≡ some k
      → P' k
  unfolding oldest better
  oldest-mem P' protected order [] none k a b h = absurd (ground arith)
  oldest-mem P' protected order [] (some (j, n)) k a b h = subst P' (ground arith) (b j n refl)
  oldest-mem P' protected order (j ∷ ks) best k (pj, a) b h =
      oldest-mem P' protected order ks _ k a
        (λ i m e. elim (Bool-cases (contains protected j)) [
          | inl safe ↦ b i m (rw safe at e)
          | inr free ↦ elim (Bool-cases (is_older (access_of order j) best)) [
            | inl new ↦ subst P' (let e' = rw (free, new) at e in ground arith) pj
            | inr old ↦ b i m (rw (free, old) at e)
          ]
        ])
        h
