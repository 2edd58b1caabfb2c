-- ===== src/Execute/Balance/Commands.antt =====
-- `loop_depth` and `stack_depth` through simple commands, `for`, `case` and pipelines
-- (src/execute.c), where what they call keeps them.
use tash.Base.{
  ℕ, ◌+◌, Bool, true, false, not, Option, none, some, List, [], ◌∷◌, if◌then◌else◌, if_intro, arith,
  Text,
}
use tash.Vars.{setup_environ}
use tash.Funcs.{get_func}
use tash.Builtins.State.{ℤ, pos, is_negative}
use tash.Builtins.Tables.{Body}
use tash.Builtins.Depth.{At, AtWith}
use tash.Parser.Tree.{Word, Assign, Node}
use tash.System.{System, exec_program, exit_process}
use tash.World.{Ended, finished, exited, crashed, ◌>>=◌, World, set_status}
use tash.Jobs.{job_single}
use tash.Jobs.Isolation.{SameBut, Holds, Holds-bind, Holds-weaken, job_single-Same}
use tash.Execute.Balance.Redirect.{At-SameBut}
use tash.Execute.Balance.Loops.{Keeping, KeepingWith}
use tash.Execute.Commands.{
  Runner, Expansion, assign_var, apply_assignements, execute_func, run_program, execute_words,
  execute_cmd,
}
use tash.Execute.Compound.{PatternExpansion}

-- What the shell itself runs, not a child, keeps the depths.
abbrev pub RunnerKeeps : Runner → Type 0
RunnerKeeps run = (n : Node) (place : List ℕ) (no_fork : Bool) → Keeping (run n place no_fork)

abbrev pub ExpansionKeeps : Expansion → Type 0
ExpansionKeeps expand = (words : List Word) (split : Bool) → KeepingWith (expand words split)

abbrev pub PatternKeeps : PatternExpansion → Type 0
PatternKeeps expand = (word : Word) → KeepingWith (expand word)

abbrev pub BuiltinKeeps : (Text → List Text → World → Ended (ℤ × World)) → Type 0
BuiltinKeeps builtin = (name : Text) (args : List Text) → KeepingWith (builtin name args)

-- A run by name: the first result that comes back, by cases on an option.
by_cases_At :
    {A : Type 0} (l s : ℕ) (o : Option A) (absent : Ended World) (present : A → Ended World)
    → Holds (At l s) absent
    → ((a : A) → Holds (At l s) (present a))
    → Holds (At l s) (elim o as (λ x. Ended World) [ none ↦ absent | some a ↦ present a ])
by_cases_At l s none absent present h k = h
by_cases_At l s (some a) absent present h k = k a

pub job_single-At : (sys : System) (child : World → Ended World) → Keeping (job_single sys child)
job_single-At sys child l s w h =
    Holds-weaken (SameBut w) (At l s) (job_single sys child w) (job_single-Same sys child w)
      (λ v k. At-SameBut l s w v h k)

module _ (sys : System) (run : Runner) (expand : Expansion) (run_keeps : RunnerKeeps run)
    (expand_keeps : ExpansionKeeps expand) where
  apply_assignements-At :
      (assigns : List Assign) (export : Bool)
      → KeepingWith (apply_assignements expand assigns export)
  unfolding apply_assignements
  apply_assignements-At [] export l s w h = h
  apply_assignements-At (a ∷ assigns) export l s w h =
      Holds-bind (AtWith l s) (AtWith l s) (expand (a.value ∷ []) false w) _
        (expand_keeps (a.value ∷ []) false l s w h)
        (λ (fields, w1) k. with_fields fields w1 k (apply_assignements-At assigns export l s))
    where
      with_fields :
          (fields : Option (List Text)) (w1 : World)
          → At l s w1
          → ((w : World)
              → At l s w
              → Holds (AtWith l s) (apply_assignements expand assigns export w))
          → Holds (AtWith l s) (elim fields as (λ x. Ended (Bool × World)) [
            | none ↦ finished (false, set_status (pos 1) w1)
            | some vs ↦ elim vs [
              | [] ↦ crashed
              | v ∷ _ ↦ apply_assignements expand assigns export (assign_var a.var v export w1)
            ]
          ])
      with_fields none w1 k ih = k
      with_fields (some []) w1 k ih = tt
      with_fields (some (v ∷ _)) (c, r) k ih = ih (assign_var a.var v export (c, r)) k

  execute_func-At :
      (body : Body) (no_fork : Bool) (args : List Text)
      → Keeping (execute_func run body no_fork args)
  unfolding execute_func
  execute_func-At body no_fork args l s (c, r) h =
      Holds-bind (At l (s + 1)) (At l s)
        (run body.tree body.place no_fork
          (record c { args = args; stack_depth = c.stack_depth + 1 }, r))
        _
        (run_keeps body.tree body.place no_fork l (s + 1)
          (record c { args = args; stack_depth = c.stack_depth + 1 }, r) (h.0, omega arith))
        (λ (c1, r1) k. (k.0, omega arith))

  run_program-At :
      (assigns : List Assign) (args : List Text) (no_fork : Bool)
      → Keeping (run_program sys expand assigns args no_fork)
  unfolding run_program
  run_program-At assigns args no_fork l s w h =
      Holds-bind (AtWith l s) (At l s) (apply_assignements expand assigns true w) _
        (apply_assignements-At assigns true l s w h)
        (λ (fine, (c, r)) k.
          let environ = setup_environ r.tables.vars in
          let history = exec_program args environ ∷ r.history in
          let failed : Ended World =
            if no_fork
            then finished (c, record r { history = history })
            else exited (pos 127) (exit_process (pos 127) ∷ history) in
          let ran : Ended World = elim (sys.program r.history args environ) [
            | some code ↦ exited code history
            | none ↦ failed
          ] in
          if_intro (Holds (At l s)) (not fine) (finished (c, r)) ran (λ _. k)
            (λ _.
              by_cases_At l s (sys.program r.history args environ) failed
                (λ code. exited code history)
                (if_intro (Holds (At l s)) no_fork (finished (c, record r { history = history }))
                  (exited (pos 127) (exit_process (pos 127) ∷ history)) (λ _. k) (λ _. tt))
                (λ code. tt)))

  module _ (builtin : Text → List Text → World → Ended (ℤ × World))
      (builtin_keeps : BuiltinKeeps builtin) where
    execute_words-At :
        (name : Text) (args : List Text) (assigns : List Assign) (no_fork : Bool)
        → Keeping (execute_words sys run expand builtin name args assigns no_fork)
    unfolding execute_words
    execute_words-At name args assigns no_fork l s w h =
        Holds-bind (AtWith l s) (At l s) (builtin name args w) _ (builtin_keeps name args l s w h)
          (λ (status, (c, r)) k.
            let program = run_program sys expand assigns (name ∷ args) in
            let no_func : Ended World =
              if no_fork then program true (c, r) else job_single sys (program false) (c, r) in
            let called : Ended World = elim (get_func name r.tables.funcs) [
              | some (_, body) ↦ execute_func run body no_fork args (c, r)
              | none ↦ no_func
            ] in
            if_intro (Holds (At l s)) (not (is_negative status))
              (finished (set_status status (c, r))) called (λ _. k)
              (λ _.
                by_cases_At l s (get_func name r.tables.funcs) no_func
                  (λ f. execute_func run f.1 no_fork args (c, r))
                  (if_intro (Holds (At l s)) no_fork (program true (c, r))
                    (job_single sys (program false) (c, r))
                    (λ _. run_program-At assigns (name ∷ args) true l s (c, r) k)
                    (λ _. job_single-At sys (program false) l s (c, r) k))
                  (λ f. execute_func-At f.1 no_fork args l s (c, r) k)))

    pub execute_cmd-At :
        (words : List Word) (assigns : List Assign) (no_fork : Bool)
        → Keeping (execute_cmd sys run expand builtin words assigns no_fork)
    unfolding execute_cmd
    execute_cmd-At words assigns no_fork l s w h =
        Holds-bind (AtWith l s) (At l s) (expand words true w) _ (expand_keeps words true l s w h)
          (λ (fields, w1) k. with_fields fields w1 k)
      where
        with_fields :
            (fields : Option (List Text)) (w1 : World)
            → At l s w1
            → Holds (At l s) (elim fields as (λ x. Ended World) [
              | none ↦ finished (set_status (pos 1) w1)
              | some vs ↦ elim vs [
                | [] ↦
                    apply_assignements expand assigns false w1
                    >>= (λ (fine, w2). finished (if fine then set_status (pos 0) w2 else w2))
                | name ∷ args ↦ execute_words sys run expand builtin name args assigns no_fork w1
              ]
            ])
        with_fields none w1 k = k
        with_fields (some []) w1 k =
            Holds-bind (AtWith l s) (At l s) (apply_assignements expand assigns false w1) _
              (apply_assignements-At assigns false l s w1 k)
              (λ (fine, w2) k2.
                if_intro (At l s) fine (set_status (pos 0) w2) w2 (λ _. k2) (λ _. k2))
        with_fields (some (name ∷ args)) w1 k = execute_words-At name args assigns no_fork l s w1 k
