-- ===== src/Execute/Depths.antt =====
-- The depth of the loops and what a `break` leaves of `break_depth` (src/execute.c).
use tash.Base.{
  ℕ, zero, suc, ◌+◌, ◌≡◌, ◌≢◌, refl, Bool, true, false, [], Bool-cases, inl, inr, if_intro, arith,
}
use tash.Builtins.State.{ℤ, pos, negsuc, exceeds, Control, Strtol}
use tash.Builtins.Control.{builtin_break}
use tash.World.{Ended, finished}
use tash.Execute.Loops.{
  After, go_on, next_round, leave, lower, continue_check, checks, stops, with_status, Run, proceed,
  after_body, behind, after_condition, rounds, execute_loop, builtin_command,
}

-- Inside `d` loops, no more than `n` of them to leave.
abbrev pub Inside : ℕ → ℕ → Control → Type 0
Inside d n c = (c.loop_depth ≡ d) × (exceeds c.break_depth n ≡ false)

lower-exceeds : (z : ℤ) (d : ℕ) → exceeds z (suc d) ≡ false → exceeds (lower z) d ≡ false
unfolding lower
lower-exceeds (pos n) d h = ground arith
lower-exceeds (negsuc n) d h = refl

exceeds-weaken : (z : ℤ) (d : ℕ) → exceeds z 0 ≡ false → exceeds z d ≡ false
exceeds-weaken (pos n) d h = ground arith
exceeds-weaken (negsuc n) d h = refl

continue_check-Inside : (d n : ℕ) (c : Control) → Inside d n c → Inside d n (continue_check c).1
unfolding continue_check
continue_check-Inside d n c h =
    if_intro (λ (r : After × Control). Inside d n r.1) (exceeds c.continue_depth 0) _ _ (λ _. h)
      (λ _. h)

-- Where the checks do not leave the loop, no loop is left to leave.
checks-calm : (c : Control) → (checks c).0 ≢ leave → exceeds (checks c).1.break_depth 0 ≡ false
unfolding checks continue_check
checks-calm c h = elim (Bool-cases (exceeds c.break_depth 0)) [
  | inl pending ↦ absurd (h (rw pending refl))
  | inr calm ↦ rw calm (
      if_intro (λ (r : After × Control). exceeds r.1.break_depth 0 ≡ false)
        (exceeds c.continue_depth 0) _ _ (λ _. calm) (λ _. calm))
]

-- The checks take off the loop that is left.
checks-Inside : (d : ℕ) (c : Control) → Inside (suc d) (suc d) c → Inside (suc d) d (checks c).1
unfolding checks
checks-Inside d c h =
    if_intro (λ (r : After × Control). Inside (suc d) d r.1) (exceeds c.break_depth 0) _ _
      (λ _. (h.0, lower-exceeds c.break_depth d h.1))
      (λ e. continue_check-Inside (suc d) d c (h.0, exceeds-weaken c.break_depth d e))

abbrev Ends : {W : Type 0} → ℕ → ℕ → Ended (Control × W) → Type 0
Ends d n (finished (c, w)) = Inside d n c
Ends d n _ = Unit

module _ {W : Type 0} (d : ℕ) where
  Ends-proceed :
      (a : After) (c : Control) (w : W) (previous : ℤ) (round on : Run W)
      → Inside (suc d) d c
      → (a ≢ leave → exceeds c.break_depth 0 ≡ false)
      → ((c : Control) (w : W) → Inside (suc d) 0 c → Ends (suc d) d (round (c, w)))
      → ((c : Control) (w : W) → Inside (suc d) 0 c → Ends (suc d) d (on (c, w)))
      → Ends (suc d) d (proceed (a, c) w previous round on)
  unfolding proceed
  Ends-proceed leave c w previous round on h q g k = h
  Ends-proceed next_round c w previous round on h q g k = g c w (h.0, q (λ e. ground arith))
  Ends-proceed go_on c w previous round on h q g k = k c w (h.0, q (λ e. ground arith))

  Ends-after_body :
      (again : ℤ → Run W) (r : Ended (Control × W))
      → ((n : ℤ) (c : Control) (w : W) → Inside (suc d) 0 c → Ends (suc d) d (again n (c, w)))
      → ((c : Control) (w : W) → r ≡ finished (c, w) → Inside (suc d) (suc d) c)
      → Ends (suc d) d (after_body again r)
  unfolding after_body
  Ends-after_body again (finished (c, w)) ih k =
      Ends-proceed (checks c).0 (checks c).1 w c.exit_status (again c.exit_status)
        (again c.exit_status) (checks-Inside d c (k c w refl)) (checks-calm c) (ih c.exit_status)
        (ih c.exit_status)
  Ends-after_body again _ ih k = tt

  Inside-behind :
      (r : Ended (Control × W)) (c : Control) (w : W)
      → Ends (suc d) d r
      → behind r ≡ finished (c, w)
      → Inside d d c
  Inside-behind (finished (e, v)) c w h q = ground arith
  Inside-behind _ c w h q = cc

module _ {W : Type 0} (is_until : Bool) (condition body : Run W) (d : ℕ)
    (condition_keeps : (c c' : Control) (w w' : W)
      → Inside (suc d) 0 c
      → condition (c, w) ≡ finished (c', w')
      → Inside (suc d) 0 c')
    (body_keeps : (c c' : Control) (w w' : W)
      → Inside (suc d) 0 c
      → body (c, w) ≡ finished (c', w')
      → Inside (suc d) (suc d) c') where
  Ends-after_condition :
      (again : ℤ → Run W) (previous : ℤ) (r : Ended (Control × W))
      → ((n : ℤ) (c : Control) (w : W) → Inside (suc d) 0 c → Ends (suc d) d (again n (c, w)))
      → ((c : Control) (w : W) → r ≡ finished (c, w) → Inside (suc d) 0 c)
      → Ends (suc d) d (after_condition is_until condition body again previous r)
  unfolding after_condition
  Ends-after_condition again previous (finished (c, w)) ih k =
      let (depth, bound) = k c w refl in
      if_intro (Ends (suc d) d) (stops is_until c.exit_status) _ _
        (λ _. (depth, exceeds-weaken c.break_depth d bound))
        (λ _.
          Ends-proceed d (checks c).0 (checks c).1 w previous _ _
            (checks-Inside d c (depth, exceeds-weaken c.break_depth (suc d) bound)) (checks-calm c)
            (ih previous)
            (λ e v h.
              Ends-after_body d again (body (e, v)) ih (λ e' v' q. body_keeps e e' v v' h q)))
  Ends-after_condition again previous _ ih k = tt

  rounds-Ends :
      (f : ℕ) (previous : ℤ) (c : Control) (w : W)
      → Inside (suc d) 0 c
      → Ends (suc d) d (rounds is_until condition body f previous (c, w))
  unfolding rounds
  rounds-Ends zero previous c w h = tt
  rounds-Ends (suc f) previous c w h =
      Ends-after_condition (rounds is_until condition body f) previous
        (condition (with_status (pos 0) c, w)) (rounds-Ends f)
        (λ c' w' e. condition_keeps (with_status (pos 0) c) c' w w' h e)

  -- A `while` or an `until` that starts with no `break` pending and ends leaves `loop_depth` as it
  -- was and no more loops to leave than there are around it. This holds where the body and the
  -- condition, started in the loop with no `break` pending, keep `loop_depth`, and where they end the
  -- body leaves as many loops at most as there are, this one counted, and the condition none.
  pub execute_loop-Inside :
      (f : ℕ) (c after : Control) (w w' : W)
      → Inside d 0 c
      → execute_loop is_until condition body f (c, w) ≡ finished (after, w')
      → Inside d d after
  unfolding execute_loop
  execute_loop-Inside f c after w w' h q =
      Inside-behind d
        (rounds is_until condition body f (pos 0) (record c { loop_depth = c.loop_depth + 1 }, w))
        after w'
        (rounds-Ends f (pos 0) (record c { loop_depth = c.loop_depth + 1 }) w
          (omega (arith, h.0), h.1))
        q

-- `until break; do …; done` ends with the `break` still pending: whatever the body, the state and
-- the number of loops around, `break_depth` is 1 behind it, and nothing else but the status changes.
pub execute_loop-builtin_break :
    {W : Type 0} (strtol : Strtol) (body : Run W) (f : ℕ) (c : Control) (w : W)
    → execute_loop true (builtin_command (builtin_break strtol) []) body (suc f) (c, w)
      ≡ finished (record c { break_depth = pos 1; exit_status = pos 0 }, w)
unfolding execute_loop rounds after_condition builtin_command builtin_break
execute_loop-builtin_break strtol body f c w = ground arith
