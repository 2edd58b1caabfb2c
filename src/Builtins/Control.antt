-- ===== src/Builtins/Control.antt =====
-- `break`, `continue`, `return` and `shift` (src/builtin.c). Each gives the state after it and the
-- status that it returns. The arguments are `argv[1]` and on.
use tash.Base.{ℕ, true, not, List, [], ◌∷◌, ◌==◌, ltb, if◌then◌else◌, Text, length, drop}
use tash.Builtins.State.{ℤ, pos, negsuc, exceeds, Control, Strtol}

abbrev pub Effect : Type 0
Effect = Control × ℤ

-- `if (break_depth > loop_depth) break_depth = loop_depth;`
abbrev clamp : ℤ → ℕ → ℤ
clamp n depth = if exceeds n depth then pos depth else n

module _ (strtol : Strtol) where
  break_with : List Text → Control → Effect
  break_with [] c = (record c { break_depth = pos 1 }, pos 0)
  break_with (arg ∷ []) c =
      let (n, valid) = strtol arg in
      if not valid
      then (record c { break_depth = n }, pos 1)
      else (record c { break_depth = clamp n c.loop_depth }, pos 0)
  break_with (_ ∷ _ ∷ _) c = (c, pos 1)

  unfoldable pub builtin_break : List Text → Control → Effect
  unfolding break_with
  builtin_break args c = if c.loop_depth == 0 then (c, pos 0) else break_with args c

  continue_with : List Text → Control → Effect
  continue_with [] c = (record c { continue_depth = pos 1 }, pos 0)
  continue_with (arg ∷ []) c =
      let (n, valid) = strtol arg in
      if not valid
      then (record c { continue_depth = n }, pos 1)
      else (record c { continue_depth = clamp n c.loop_depth }, pos 0)
  continue_with (_ ∷ _ ∷ _) c = (c, pos 1)

  unfoldable pub builtin_continue : List Text → Control → Effect
  unfolding continue_with
  builtin_continue args c = if c.loop_depth == 0 then (c, pos 0) else continue_with args c

  returning : Control → Effect
  returning c = (record c { return_break = true }, c.exit_status)

  -- A status that is not a number is reported, and used all the same.
  return_with : List Text → Control → Effect
  unfolding returning
  return_with [] c = returning c
  return_with (arg ∷ []) c = let (n, valid) = strtol arg in returning (record c { exit_status = n })
  return_with (_ ∷ _ ∷ _) c = (c, pos 1)

  unfoldable pub builtin_return : List Text → Control → Effect
  unfolding return_with
  builtin_return args c = if c.stack_depth == 0 then (c, pos 1) else return_with args c

  -- Behind the reading of the amount.
  shift_by : ℤ → Control → Effect
  shift_by (negsuc n) c = (c, pos 1)
  shift_by (pos n) c =
      if ltb (length c.args) n
      then (record c { args = [] }, pos 1)
      else (record c { args = drop n c.args }, pos 0)

  unfoldable pub builtin_shift : List Text → Control → Effect
  unfolding shift_by
  builtin_shift [] c = shift_by (pos 1) c
  builtin_shift (arg ∷ []) c =
      let (n, valid) = strtol arg in if not valid then (c, pos 1) else shift_by n c
  builtin_shift (_ ∷ _ ∷ _) c = (c, pos 1)
