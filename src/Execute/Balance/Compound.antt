-- ===== src/Execute/Balance/Compound.antt =====
-- `loop_depth` and `stack_depth` through `for`, `case`, pipelines and background commands
-- (src/execute.c), where what they call keeps them.
use tash.Base.{
  ℕ, suc, ◌+◌, Bool, true, false, not, ◌&&◌, ◌||◌, Option, none, some, List, [], ◌∷◌, if_intro,
  arith, Text,
}
use tash.Glob.Match.{Verdict, verdict, out_of_bounds, out_of_fuel, glob_match}
use tash.Builtins.State.{pos, Control}
use tash.Builtins.Depth.{At, AtWith}
use tash.Parser.Tree.{Word, Node, Cases, no_cases, one_case}
use tash.System.{System}
use tash.World.{Ended, finished, crashed, ◌>>=◌, Rest, World, set_status}
use tash.Jobs.{job_init_group, job_fork_async}
use tash.Jobs.Isolation.{SameBut, Holds, Holds-bind, Holds-weaken, SameForked, job_fork_async-Same}
use tash.Execute.Balance.Redirect.{At-SameBut}
use tash.Execute.Balance.Loops.{Keeping, KeepingWith, checks-At}
use tash.Execute.Balance.Commands.{RunnerKeeps, ExpansionKeeps, PatternKeeps}
use tash.Execute.Loops.{After, go_on, next_round, leave, checks}
use tash.Execute.Forked.{pipe_stages-Same}
use tash.Execute.Commands.{Runner, Expansion, assign_var}
use tash.Execute.Compound.{
  PatternExpansion, for_rounds, behind_for, execute_for, has_ctlesc, starts_alpha, of_verdict,
  match_patterns, match_cases, execute_case,
}
use tash.Execute.Pipes.{stages, pipe_stages, execute_pipe, execute_async, then_exit, detach_input}

module _ (name : Text) (body : Bool → World → Ended World)
    (body_keeps : (no_fork : Bool) → Keeping (body no_fork)) where
  for_rounds-At :
      (no_fork : Bool) (values : List Text) → Keeping (for_rounds name body no_fork values)
  unfolding for_rounds
  for_rounds-At no_fork [] l s w h = h
  for_rounds-At no_fork (value ∷ values) l s (c, r) h =
      let last : Bool = elim values [ [] ↦ true | _ ∷ _ ↦ false ] in
      let assigned = assign_var name value false (c, r) in
      Holds-bind (At l s) (At l s) (body (no_fork && last) assigned) _
        (body_keeps (no_fork && last) l s assigned h)
        (λ (c1, r1) k.
          behind (checks c1).0 (checks c1).1 r1 (checks-At l s c1 r1 k)
            (for_rounds-At no_fork values l s))
    where
      behind :
          (after : After) (c1 : Control) (r1 : Rest)
          → At l s (c1, r1)
          → ((w : World) → At l s w → Holds (At l s) (for_rounds name body no_fork values w))
          → Holds (At l s) (elim after as (λ x. Ended World) [
            | leave ↦ finished (c1, r1)
            | _ ↦ for_rounds name body no_fork values (c1, r1)
          ])
      behind leave c1 r1 k ih = k
      behind next_round c1 r1 k ih = ih (c1, r1) k
      behind go_on c1 r1 k ih = ih (c1, r1) k

module _ (sys : System) (run : Runner) (expand : Expansion) (expand_pattern : PatternExpansion)
    (run_keeps : RunnerKeeps run) (expand_keeps : ExpansionKeeps expand)
    (pattern_keeps : PatternKeeps expand_pattern) where
  pub execute_for-At :
      (var : Word) (words : List Word) (body : Bool → World → Ended World) (no_fork : Bool)
      → ((no_fork : Bool) → Keeping (body no_fork))
      → Keeping (execute_for expand var words body no_fork)
  unfolding execute_for
  execute_for-At var words body no_fork body_keeps l s w h =
      if_intro (Holds (At l s)) (var.quoted || has_ctlesc var.text || not (starts_alpha var.text))
        (finished (set_status (pos 1) w)) _ (λ _. h)
        (λ _.
          Holds-bind (AtWith l s) (At l s) (expand words true w) _ (expand_keeps words true l s w h)
            (λ (fields, w1) k. with_fields fields w1 k))
    where
      with_fields :
          (fields : Option (List Text)) (w1 : World)
          → At l s w1
          → Holds (At l s) (elim fields as (λ x. Ended World) [
            | none ↦ finished (set_status (pos 1) w1)
            | some strings ↦
                for_rounds var.text body no_fork strings
                  (record w1.0 { loop_depth = w1.0.loop_depth + 1; exit_status = pos 0 }, w1.1)
                >>= (λ w2. finished (behind_for w2))
          ])
      with_fields none w1 k = k
      with_fields (some strings) (c, r) k =
          let started : World =
            (record c { loop_depth = c.loop_depth + 1; exit_status = pos 0 }, r) in
          Holds-bind (At (l + 1) s) (At l s) (for_rounds var.text body no_fork strings started) _
            (for_rounds-At var.text body body_keeps no_fork strings (l + 1) s started
              (omega arith, k.1))
            (λ (c2, r2) k2. (omega arith, k2.1))

  of_verdict-At :
      (l s : ℕ) (v : Verdict) (w : World) → At l s w → Holds (AtWith l s) (of_verdict v w)
  of_verdict-At l s (verdict b) w h = h
  of_verdict-At l s out_of_bounds w h = tt
  of_verdict-At l s out_of_fuel w h = tt

  match_patterns-At :
      (patterns : List Word) (word : Text)
      → KeepingWith (match_patterns expand_pattern patterns word)
  unfolding match_patterns
  match_patterns-At [] word l s w h = h
  match_patterns-At (p ∷ patterns) word l s w h =
      Holds-bind (AtWith l s) (AtWith l s) (expand_pattern p w) _ (pattern_keeps p l s w h)
        (λ (pattern, w1) k. with_pattern pattern w1 k (match_patterns-At patterns word l s))
    where
      with_match :
          (matched : Bool) (w2 : World)
          → At l s w2
          → ((w : World)
              → At l s w
              → Holds (AtWith l s) (match_patterns expand_pattern patterns word w))
          → Holds (AtWith l s) (elim matched as (λ x. Ended (Bool × World)) [
            | true ↦ finished (true, w2)
            | false ↦ match_patterns expand_pattern patterns word w2
          ])
      with_match true w2 k ih = k
      with_match false w2 k ih = ih w2 k

      with_pattern :
          (pattern : Option Text) (w1 : World)
          → At l s w1
          → ((w : World)
              → At l s w
              → Holds (AtWith l s) (match_patterns expand_pattern patterns word w))
          → Holds (AtWith l s) (elim pattern as (λ x. Ended (Bool × World)) [
            | none ↦ crashed
            | some text ↦ of_verdict (glob_match text word) w1 >>= (λ (matched, w2). elim matched [
              | true ↦ finished (true, w2)
              | false ↦ match_patterns expand_pattern patterns word w2
            ])
          ])
      with_pattern none w1 k ih = tt
      with_pattern (some text) w1 k ih =
          Holds-bind (AtWith l s) (AtWith l s) (of_verdict (glob_match text word) w1) _
            (of_verdict-At l s (glob_match text word) w1 k)
            (λ (matched, w2) k2. with_match matched w2 k2 ih)

  match_cases-At :
      (cases : Cases) (i : ℕ) (place : List ℕ) (word : Text) (no_fork : Bool)
      → Keeping (match_cases expand_pattern run cases i place word no_fork)
  unfolding match_cases
  match_cases-At no_cases i place word no_fork l s w h = h
  match_cases-At (one_case patterns body cases) i place word no_fork l s w h =
      Holds-bind (AtWith l s) (At l s) (match_patterns expand_pattern patterns word w) _
        (match_patterns-At patterns word l s w h)
        (λ (matched, w1) k.
          with_match matched w1 k (match_cases-At cases (suc i) place word no_fork l s))
    where
      with_match :
          (matched : Bool) (w1 : World)
          → At l s w1
          → ((w : World)
              → At l s w
              → Holds (At l s) (match_cases expand_pattern run cases (suc i) place word no_fork w))
          → Holds (At l s) (elim matched as (λ x. Ended World) [
            | true ↦ run body (i ∷ place) no_fork w1
            | false ↦ match_cases expand_pattern run cases (suc i) place word no_fork w1
          ])
      with_match true w1 k ih = run_keeps body (i ∷ place) no_fork l s w1 k
      with_match false w1 k ih = ih w1 k

  pub execute_case-At :
      (word : Word) (cases : Cases) (place : List ℕ) (no_fork : Bool)
      → Keeping (execute_case expand expand_pattern run word cases place no_fork)
  unfolding execute_case
  execute_case-At word cases place no_fork l s w h =
      Holds-bind (AtWith l s) (At l s) (expand (word ∷ []) false w) _
        (expand_keeps (word ∷ []) false l s w h) (λ (fields, w1) k. with_fields fields w1 k)
    where
      with_fields :
          (fields : Option (List Text)) (w1 : World)
          → At l s w1
          → Holds (At l s) (elim fields as (λ x. Ended World) [
            | none ↦ finished (set_status (pos 1) w1)
            | some texts ↦ elim texts [
              | [] ↦ crashed
              | text ∷ _ ↦
                  match_cases expand_pattern run cases 0 place text no_fork (set_status (pos 0) w1)
            ]
          ])
      with_fields none w1 k = k
      with_fields (some []) w1 k = tt
      with_fields (some (text ∷ _)) w1 k =
          match_cases-At cases 0 place text no_fork l s (set_status (pos 0) w1) k

  pub execute_pipe-At : (n : Node) (place : List ℕ) → Keeping (execute_pipe sys run n place)
  unfolding execute_pipe
  execute_pipe-At n place l s w h =
      let commands = stages n place in
      Holds-weaken (SameBut w) (At l s) (pipe_stages sys run commands none job_init_group w)
        (pipe_stages-Same sys run commands none job_init_group w) (λ v k. At-SameBut l s w v h k)

  pub execute_async-At : (n : Node) (place : List ℕ) → Keeping (execute_async sys run n place)
  unfolding execute_async
  execute_async-At n place l s w h =
      let child = λ (w' : World). then_exit (run n place true (detach_input sys w')) in
      Holds-bind (SameForked w) (At l s) (job_fork_async sys child job_init_group w) _
        (job_fork_async-Same sys child job_init_group w)
        (λ (pid, group, (c1, r1)) k. At-SameBut l s w (c1, r1) h k)
