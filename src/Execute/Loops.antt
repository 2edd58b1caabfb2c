-- ===== src/Execute/Loops.antt =====
-- `while` and `until` (src/execute.c). The condition and the body are any functions on the state,
-- which is the control state and the rest `W`.
use tash.Base.{
  ℕ, zero, suc, ◌+◌, ◌-◌, Bool, true, false, not, ◌||◌, List, Text, ◌==◌, if◌then◌else◌,
}
use tash.Builtins.Control.{Effect}
use tash.Builtins.State.{ℤ, pos, negsuc, exceeds, Control}
use tash.World.{Ended, finished, stuck, ◌>>=◌}

-- How the checks behind a command go on: to the next statement, to the next round, or behind the
-- loop.
pub data After : Type 0 where
  go_on next_round leave : After

-- depth--, where depth > 0.
unfoldable pub lower : ℤ → ℤ
lower (pos n) = pos (n - 1)
lower (negsuc n) = negsuc (suc n)

-- CONTINUE_CHECK and VARIOUS_BREAK_CHECK.
unfoldable pub continue_check : Control → After × Control
unfolding lower
continue_check c =
    if exceeds c.continue_depth 0
    then (let d = lower c.continue_depth in
        (if exceeds d 0 then leave else next_round, record c { continue_depth = d }))
    else (if c.sigint_break || c.return_break then leave else go_on, c)

-- BREAK_CHECK, and the other two.
unfoldable pub checks : Control → After × Control
unfolding lower continue_check
checks c =
    if exceeds c.break_depth 0
    then (leave, record c { break_depth = lower c.break_depth })
    else continue_check c

abbrev pub is_zero : ℤ → Bool
is_zero (pos n) = n == 0
is_zero (negsuc n) = false

-- The condition ends a `while` when it fails, and an `until` when it succeeds.
abbrev pub stops : Bool → ℤ → Bool
stops true n = is_zero n
stops false n = not (is_zero n)

abbrev pub with_status : ℤ → Control → Control
with_status n c = record c { exit_status = n }

abbrev pub Run : Type 0 → Type 0
Run W = Control × W → Ended (Control × W)

-- What follows the checks; behind the loop the status is that of the last body.
unfoldable pub proceed :
    {W : Type 0} → After × Control → W → ℤ → Run W → Run W → Ended (Control × W)
proceed (leave, c) w previous round on = finished (with_status previous c, w)
proceed (next_round, c) w previous round on = round (c, w)
proceed (go_on, c) w previous round on = on (c, w)

-- What follows the body; `again` are the next rounds.
unfoldable pub after_body : {W : Type 0} → (ℤ → Run W) → Ended (Control × W) → Ended (Control × W)
unfolding checks proceed
after_body again r =
    r >>= (λ (c, w). proceed (checks c) w c.exit_status (again c.exit_status) (again c.exit_status))

abbrev pub behind : {W : Type 0} → Ended (Control × W) → Ended (Control × W)
behind r = r >>= (λ (c, w). finished (record c { loop_depth = c.loop_depth - 1 }, w))

module _ {W : Type 0} (is_until : Bool) (condition body : Run W) where
  unfoldable pub after_condition : (ℤ → Run W) → ℤ → Ended (Control × W) → Ended (Control × W)
  unfolding checks proceed after_body
  after_condition again previous r = r >>= (λ (c, w).
      let tested =
        proceed (checks c) w previous (again previous) (λ s. after_body again (body s)) in
      if stops is_until c.exit_status then finished (with_status previous c, w) else tested)

  -- `for (;;)`, with `prev_exit_status`.
  unfoldable pub rounds : ℕ → ℤ → Run W
  unfolding after_condition
  rounds zero previous s = stuck
  rounds (suc f) previous (c, w) =
      after_condition (rounds f) previous (condition (with_status (pos 0) c, w))

  -- The whole case of `execute`, with the depth put up before the loop and down behind it.
  unfoldable pub execute_loop : ℕ → Run W
  unfolding rounds
  execute_loop f (c, w) = behind (rounds f (pos 0) (record c { loop_depth = c.loop_depth + 1 }, w))

-- A command that is a builtin, in `execute_cmd`: its status becomes `exit_status`.
unfoldable pub builtin_command : {W : Type 0} → (List Text → Control → Effect) → List Text → Run W
builtin_command builtin args (c, w) =
    let (after, status) = builtin args c in finished (with_status status after, w)
