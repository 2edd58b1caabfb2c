-- ===== src/Builtins/State.antt =====
-- The globals that the builtins here read and write, and the numbers that they read.
use tash.Base.{ℕ, Bool, true, false, List, ltb, Text}

-- `negsuc n` is -(n + 1).
pub data ℤ : Type 0 where
  pos : ℕ → ℤ
  negsuc : ℕ → ℤ

abbrev pub is_negative : ℤ → Bool
is_negative (pos n) = false
is_negative (negsuc n) = true

-- a > b for a natural number b.
abbrev pub exceeds : ℤ → ℕ → Bool
exceeds (pos a) b = ltb b a
exceeds (negsuc a) b = false

-- The ints `exit_status`, `break_depth`, `continue_depth`, `loop_depth`, `stack_depth`, the flags
-- `sigint_break`, `return_break`, and `_argc` and `_argv` as a list.
pub record Control : Type 0 where
  pub exit_status : ℤ
  pub break_depth : ℤ
  pub continue_depth : ℤ
  pub loop_depth : ℕ
  pub stack_depth : ℕ
  pub sigint_break : Bool
  pub return_break : Bool
  pub args : List Text

-- What `strtol(s, &end, 10)` gives, cut to an int: the number, and whether the whole string is a
-- number (`end != s && !*end`).
abbrev pub Strtol : Type 0
Strtol = Text → ℤ × Bool
