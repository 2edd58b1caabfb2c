-- ===== src/Execute/Balance/Loops.antt =====
-- `loop_depth` and `stack_depth` through `while` and `until` (src/execute.c).
use tash.Base.{ℕ, zero, suc, ◌+◌, ◌≡◌, ◌∙◌, Bool, if_intro, arith}
use tash.Builtins.State.{ℤ, pos, Control}
use tash.Builtins.Depth.{At, AtWith}
use tash.World.{Ended, finished, Rest, World}
use tash.Jobs.Isolation.{Holds, Holds-bind}
use tash.Execute.Loops.{
  After, go_on, next_round, leave, Run, continue_check, checks, stops, with_status, proceed,
  after_body, after_condition, rounds, execute_loop,
}

-- A property of the state that comes back, for a run that was given one with it.
abbrev pub Keeping : (World → Ended World) → Type 0
Keeping run = (l s : ℕ) (w : World) → At l s w → Holds (At l s) (run w)

abbrev pub KeepingWith : {A : Type 0} → (World → Ended (A × World)) → Type 0
KeepingWith run = (l s : ℕ) (w : World) → At l s w → Holds (AtWith l s) (run w)

continue_check-depths :
    (c : Control)
    → ((continue_check c).1.loop_depth ≡ c.loop_depth)
      × ((continue_check c).1.stack_depth ≡ c.stack_depth)
unfolding continue_check
continue_check-depths c = ground arith

checks-depths :
    (c : Control)
    → ((checks c).1.loop_depth ≡ c.loop_depth) × ((checks c).1.stack_depth ≡ c.stack_depth)
unfolding checks
checks-depths c = ground (arith, continue_check-depths c)

pub checks-At : (l s : ℕ) (c : Control) (r : Rest) → At l s (c, r) → At l s ((checks c).1, r)
checks-At l s c r h = ((checks-depths c).0 ∙ h.0, (checks-depths c).1 ∙ h.1)

module _ (l s : ℕ) where
  At-proceed :
      (a : After) (c : Control) (r : Rest) (previous : ℤ) (round on : Run Rest)
      → At l s (c, r)
      → Holds (At l s) (round (c, r))
      → Holds (At l s) (on (c, r))
      → Holds (At l s) (proceed (a, c) r previous round on)
  unfolding proceed
  At-proceed leave c r previous round on h g k = h
  At-proceed next_round c r previous round on h g k = g
  At-proceed go_on c r previous round on h g k = k

module _ (is_until : Bool) (condition body : Run Rest) (keeps_condition : Keeping condition)
    (keeps_body : Keeping body) where
  rounds-At : (f : ℕ) (previous : ℤ) → Keeping (rounds is_until condition body f previous)
  unfolding rounds after_condition after_body
  rounds-At zero previous l s w h = tt
  rounds-At (suc f) previous l s (c, r) h =
      Holds-bind (At l s) (At l s) (condition (with_status (pos 0) c, r)) _
        (keeps_condition l s (with_status (pos 0) c, r) h)
        (λ (c1, r1) k.
          let again = λ (n : ℤ). rounds is_until condition body f n in
          let rest =
            proceed (checks c1) r1 previous (again previous) (λ w. after_body again (body w)) in
          let k1 = checks-At l s c1 r1 k in
          if_intro (Holds (At l s)) (stops is_until c1.exit_status)
            (finished (with_status previous c1, r1)) rest (λ _. k)
            (λ _.
              At-proceed l s (checks c1).0 (checks c1).1 r1 previous (again previous)
                (λ w. after_body again (body w)) k1
                (rounds-At f previous l s ((checks c1).1, r1) k1)
                (Holds-bind (At l s) (At l s) (body ((checks c1).1, r1)) _
                  (keeps_body l s ((checks c1).1, r1) k1)
                  (λ (c2, r2) k2.
                    let k3 = checks-At l s c2 r2 k2 in
                    let more = rounds-At f c2.exit_status l s ((checks c2).1, r2) k3 in
                    At-proceed l s (checks c2).0 (checks c2).1 r2 c2.exit_status
                      (again c2.exit_status) (again c2.exit_status) k3 more more))))

  pub execute_loop-At : (f : ℕ) → Keeping (execute_loop is_until condition body f)
  unfolding execute_loop
  execute_loop-At f l s (c, r) h =
      Holds-bind (At (l + 1) s) (At l s)
        (rounds is_until condition body f (pos 0) (record c { loop_depth = c.loop_depth + 1 }, r)) _
        (rounds-At f (pos 0) (l + 1) s (record c { loop_depth = c.loop_depth + 1 }, r)
          (omega arith, h.1))
        (λ (c1, r1) k. (omega arith, k.1))
