-- ===== src/Arena/Events.antt =====
-- internal/arena/events: history.py and bus.py.
use mini_redis_test_app.Prelude.{
  ℕ, zero, suc, ◌+◌, ◌-◌, ◌≤◌, ◌≡◌, refl, sym, ap, ◌∙◌, append-nil, List, [], ◌∷◌, ◌++◌,
  append_assoc, length, drop, length-append, length-drop, arith,
}
use mini_redis_test_app.Prelude.Int.{ℤ, pos, negsuc}

pub record EventHistory (E : Type 0) : Type 0 where
  pub max_events : ℤ
  pub events : List E

module _ {E : Type 0} where
  -- `events[-n:]`
  unfoldable pub last_events : ℤ → List E → List E
  last_events (pos zero) events = events
  last_events (pos (suc n)) events = drop (length events - suc n) events
  last_events (negsuc n) events = drop (suc n) events

  unfoldable pub append : E → EventHistory E → EventHistory E
  unfolding last_events
  append envelope h = record h { events = last_events h.max_events (h.events ++ envelope ∷ []) }

  unfoldable pub snapshot : EventHistory E → List E
  snapshot h = h.events

  unfoldable pub clear : EventHistory E → EventHistory E
  clear h = record h { events = [] }

  unfoldable pub append_all : List E → EventHistory E → EventHistory E
  unfolding append
  append_all [] h = h
  append_all (envelope ∷ rest) h = append_all rest (append envelope h)

  drop-drop_append :
      (k m : ℕ) (xs ys : List E)
      → k ≤ length xs
      → drop m (drop k xs ++ ys) ≡ drop (k + m) (xs ++ ys)
  drop-drop_append zero m xs ys h = let step : 0 + m ≡ m = omega arith in rw step refl
  drop-drop_append (suc k) m [] ys h = absurd (omega arith)
  drop-drop_append (suc k) m (x ∷ xs) ys h =
      let step : suc k + m ≡ suc (k + m) = omega arith in
      rw step (drop-drop_append k m xs ys (omega arith))

  -- The last `n` events, read off once more after others have come.
  last_events-append :
      (n : ℕ) (xs ys : List E)
      → last_events (pos (suc n)) (last_events (pos (suc n)) xs ++ ys)
        ≡ last_events (pos (suc n)) (xs ++ ys)
  unfolding last_events
  last_events-append n xs ys =
      let k = length xs - suc n in
      let m = length (drop k xs ++ ys) - suc n in
      let total : k + m ≡ length (xs ++ ys) - suc n =
        omega (arith, length-append xs ys, length-append (drop k xs) ys, length-drop k xs) in
      rw⁻¹ total (drop-drop_append k m xs ys (omega arith))

  length-last_events : (n : ℕ) (events : List E) → length (last_events (pos (suc n)) events) ≤ suc n
  unfolding last_events
  length-last_events n events = omega (arith, length-drop (length events - suc n) events)

  pub append-max_events :
      (envelope : E) (h : EventHistory E) → (append envelope h).max_events ≡ h.max_events
  unfolding append
  append-max_events envelope h = refl

  append-last_events :
      (n : ℕ) (envelope : E) (h : EventHistory E)
      → h.max_events ≡ pos (suc n)
      → (append envelope h).events ≡ last_events (pos (suc n)) (h.events ++ envelope ∷ [])
  unfolding append
  append-last_events n envelope h size =
      ap (λ max. last_events max (h.events ++ envelope ∷ [])) size

  pub append-short :
      (n : ℕ) (envelope : E) (h : EventHistory E)
      → h.max_events ≡ pos (suc n)
      → length (append envelope h).events ≤ suc n
  append-short n envelope h size =
      rw (append-last_events n envelope h size) (length-last_events n (h.events ++ envelope ∷ []))

  -- If a history keeps a positive number of events and has no more than that, then after any
  -- events are appended it has the last that many of those it had and the new ones, in order.
  pub append_all-last_events :
      (n : ℕ) (envelopes : List E) (h : EventHistory E)
      → h.max_events ≡ pos (suc n)
      → length h.events ≤ suc n
      → (append_all envelopes h).events ≡ last_events (pos (suc n)) (h.events ++ envelopes)
  unfolding append_all
  append_all-last_events n [] h size short =
      let none_left : length (h.events ++ []) - suc n ≡ 0 =
        omega (arith, length-append h.events []) in
      unfold last_events in rw (append_all, none_left) (sym (append-nil h.events))
  append_all-last_events n (envelope ∷ rest) h size short =
      let h' = append envelope h in
      let kept = append-last_events n envelope h size in
      let next =
        append_all-last_events n rest h' (append-max_events envelope h ∙ size)
          (rw kept (length-last_events n (h.events ++ envelope ∷ []))) in
      next
      ∙ ap (λ events. last_events (pos (suc n)) (events ++ rest)) kept
      ∙ last_events-append n (h.events ++ envelope ∷ []) rest
      ∙ ap (last_events (pos (suc n))) (append_assoc h.events (envelope ∷ []) rest)
