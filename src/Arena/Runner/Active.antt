-- ===== src/Arena/Runner/Active.antt =====
-- internal/arena/scenario/runner.py: the active labels against the tasks.
use mini_redis_test_app.Prelude.{
  ℕ, zero, suc, ◌<◌, ◌≡◌, ◌⊎◌, inl, inr, true, false, List, [], ◌∷◌, ◌++◌, some, length, arith,
  Option-cases, if◌then◌else◌,
}
use mini_redis_test_app.Arena.Gateway.{add_key}
use mini_redis_test_app.Arena.Runner.{
  Runner, new_runner, discard, without, label_at, start, finish, finish_label, reset_tasks,
  is_some_label, status,
}
use mini_redis_test_app.Dict.{contains}
use mini_redis_test_app.Text.{Text, text_eq, text_eq_iff, text_eq_refl}

-- What happens to a runner, in any order.
pub data Reachable : Runner → Type 0 where
  fresh : Reachable new_runner
  started : (label : Text) (r : Runner) → Reachable r → Reachable (start label r)
  finished : (n : ℕ) (r : Runner) → Reachable r → Reachable (finish n r)
  was_reset : (r : Runner) → Reachable r → Reachable (reset_tasks r)

-- Every active label is that of a task.
abbrev pub IsTracked : Runner → Type 0
IsTracked r = (label : Text) → contains r.active_labels label ≡ true → contains r.tasks label ≡ true

contains-append_one :
    (xs : List Text) (x label : Text)
    → contains (xs ++ x ∷ []) label ≡ (if contains xs label then true else text_eq x label)
unfolding contains
contains-append_one [] x label = ground arith
contains-append_one (y ∷ ys) x label = ground (arith, contains-append_one ys x label)

contains-add_key :
    (x label : Text) (xs : List Text)
    → contains (add_key x xs) label ≡ true
    → (contains xs label ≡ true) ⊎ (text_eq x label ≡ true)
unfolding add_key
contains-add_key x label xs h = ground (arith, contains-append_one xs x label)

contains-discard :
    (x label : Text) (xs : List Text)
    → contains (discard x xs) label ≡ true
    → (contains xs label ≡ true) × (text_eq x label ≡ false)
unfolding contains discard
contains-discard x label [] h = absurd (ground arith)
contains-discard x label (y ∷ ys) h =
    ground (
      arith,
      contains-discard x label ys,
      text_eq_iff y x,
      text_eq_iff x label,
      text_eq_iff y label,
    )

-- Taking a task out loses its own label alone.
contains-without :
    (n : ℕ) (x label : Text) (xs : List Text)
    → label_at n xs ≡ some x
    → contains xs label ≡ true
    → text_eq x label ≡ false
    → contains (without n xs) label ≡ true
unfolding contains without
contains-without n x label [] found h other = absurd (ground arith)
contains-without zero x label (y ∷ ys) found h other = ground arith
contains-without (suc n) x label (y ∷ ys) found h other =
    ground (arith, contains-without n x label ys found)

start-IsTracked : (label : Text) (r : Runner) → IsTracked r → IsTracked (start label r)
unfolding start
start-IsTracked x r tracked label h = ground (
  arith,
  contains-append_one r.tasks x label,
  contains-add_key x label r.active_labels h,
  tracked label,
)

finish_label-IsTracked :
    (n : ℕ) (x : Text) (r : Runner)
    → label_at n r.tasks ≡ some x
    → IsTracked r
    → IsTracked (finish_label (some x) n r)
finish_label-IsTracked n x r found tracked label h =
    let (active, other) = contains-discard x label r.active_labels h in
    contains-without n x label r.tasks found (tracked label active) other

finish-IsTracked : (n : ℕ) (r : Runner) → IsTracked r → IsTracked (finish n r)
unfolding finish
finish-IsTracked n r tracked = elim (Option-cases (label_at n r.tasks)) [
  | inl none' ↦ rw (finish, none') tracked
  | inr (x, found) ↦ rw (finish, found) (finish_label-IsTracked n x r found tracked)
]

Reachable-IsTracked : (r : Runner) → Reachable r → IsTracked r
unfolding contains reset_tasks
Reachable-IsTracked _ fresh label h = absurd (ground arith)
Reachable-IsTracked _ (started x r reached) label h =
    start-IsTracked x r (Reachable-IsTracked r reached) label h
Reachable-IsTracked _ (finished n r reached) label h =
    finish-IsTracked n r (Reachable-IsTracked r reached) label h
Reachable-IsTracked _ (was_reset r reached) label h = absurd (ground arith)

active-some :
    (active tasks : List Text)
    → ((label : Text) → contains active label ≡ true → contains tasks label ≡ true)
    → is_some_label active ≡ true
    → 0 < length tasks
unfolding contains
active-some [] tasks tracked h = absurd (ground arith)
active-some (x ∷ xs) [] tracked h =
    let e : contains [] x ≡ true = tracked x (ground (arith, text_eq_refl x)) in
    absurd (ground arith)
active-some (x ∷ xs) (t ∷ ts) tracked h = omega arith

-- After any starts, ends and resets of tasks, every active label is that of a task that has not
-- ended, and there is such a task if the status says that scenarios are running.
pub status-tasks :
    (r : Runner) → Reachable r → IsTracked r × ((status r).running ≡ true → 0 < length r.tasks)
unfolding status
status-tasks r reached =
    let tracked = Reachable-IsTracked r reached in
    (tracked, active-some r.active_labels r.tasks tracked)
