-- ===== src/Command.antt =====
-- internal/command: the command, and the parser and the validator below.
pub mod Parser
pub mod Validator
use mini_redis_test_app.Prelude.{
  ℕ, String, Bool, true, false, Option, none, some, List, get_elem?, if◌then◌else◌,
}
use mini_redis_test_app.Result.{Result, ok, raise, index_error}
use mini_redis_test_app.Text.{Text, codes, text_eq}

-- command.py
pub record Command : Type 0 where
  pub name : Text
  pub arguments : List Text

-- `command.name == name`
abbrev pub named : Command → String → Bool
named c name = text_eq c.name (codes name)

-- `arguments[i]`
unfoldable pub argument : List Text → ℕ → Result Text
argument arguments i = elim (get_elem? arguments i) [ none ↦ raise index_error | some a ↦ ok a ]
