-- ===== src/Execute/Commands.antt =====
-- Simple commands (src/execute.c): assignments, functions and programs. What runs a tree is an
-- argument here; Execute.Tree ties the knot.
use tash.Base.{
  ℕ, ◌+◌, ◌-◌, Bool, true, false, not, Option, none, some, List, [], ◌∷◌, if◌then◌else◌, Text,
}
use tash.Vars.{putvar, export_var, setup_environ}
use tash.Funcs.{get_func}
use tash.Parser.Tree.{Word, Assign, Node}
use tash.Builtins.State.{ℤ, pos, is_negative}
use tash.Builtins.Tables.{Body}
use tash.System.{System, exit_process, exec_program}
use tash.World.{Ended, finished, exited, crashed, ◌>>=◌, World, record_call, set_status}
use tash.Jobs.{job_single}

-- A tree with its place, and what runs one; the flag is FLAG_NO_FORK.
abbrev pub Runner : Type 0
Runner = Node → List ℕ → Bool → World → Ended World

-- `word_expansion`, by its words and `split`.
abbrev pub Expansion : Type 0
Expansion = List Word → Bool → World → Ended (Option (List Text) × World)

abbrev pub assign_var : Text → Text → Bool → World → World
assign_var name value export (c, r) =
    let vars = putvar name value r.tables.vars in
    (
      c,
      record r {
        tables = record r.tables { vars = if export then export_var name vars else vars };
      },
    )

-- False is -1. A word that gives no field is stored through NULL.
unfoldable pub apply_assignements : Expansion → List Assign → Bool → World → Ended (Bool × World)
apply_assignements expand [] export w = finished (true, w)
apply_assignements expand (a ∷ assigns) export w =
    expand (a.value ∷ []) false w >>= (λ (fields, w1). elim fields [
      | none ↦ finished (false, set_status (pos 1) w1)
      | some [] ↦ crashed
      | some (v ∷ _) ↦ apply_assignements expand assigns export (assign_var a.var v export w1)
    ])

-- The parameters of the caller come back, `return` is over. (The code puts back a pointer: where it
-- points into the static array of `set`, and the function calls `set`, the strings there are new.)
abbrev pub behind_func : List Text → World → World
behind_func args (c, r) =
    (record c { args = args; stack_depth = c.stack_depth - 1; return_break = false }, r)

unfoldable pub execute_func : Runner → Body → Bool → List Text → World → Ended World
execute_func run body no_fork args (c, r) =
    run body.tree body.place no_fork (record c { args = args; stack_depth = c.stack_depth + 1 }, r)
    >>= (λ w. finished (behind_func c.args w))

-- From the assignments to the end of `execute_cmd`: `execvp`, and what follows where it fails. The
-- process that was forked for the program ends there; one that was not goes on, with the status it
-- had.
unfoldable pub run_program :
    System → Expansion → List Assign → List Text → Bool → World → Ended World
unfolding record_call
run_program sys expand assigns args no_fork w =
    apply_assignements expand assigns true w >>= (λ (fine, (c, r)).
      let environ = setup_environ r.tables.vars in
      let history = exec_program args environ ∷ r.history in
      if not fine then finished (c, r) else (elim (sys.program r.history args environ) [
        | some code ↦ exited code history
        | none ↦
            if no_fork
            then finished (c, record r { history = history })
            else exited (pos 127) (exit_process (pos 127) ∷ history)
      ]))

-- Behind the expansion of the words, from `try_builtin` on; `builtin` is `try_builtin`.
unfoldable pub execute_words :
    System
    → Runner
    → Expansion
    → (Text → List Text → World → Ended (ℤ × World))
    → Text
    → List Text
    → List Assign
    → Bool
    → World
    → Ended World
unfolding execute_func run_program job_single
execute_words sys run expand builtin name args assigns no_fork w =
    builtin name args w >>= (λ (status, (c, r)).
      if not (is_negative status)
      then finished (set_status status (c, r))
      else (elim (get_func name r.tables.funcs) [
        | some (_, body) ↦ execute_func run body no_fork args (c, r)
        | none ↦
            if no_fork
            then run_program sys expand assigns (name ∷ args) true (c, r)
            else job_single sys (run_program sys expand assigns (name ∷ args) false) (c, r)
      ]))

unfoldable pub execute_cmd :
    System
    → Runner
    → Expansion
    → (Text → List Text → World → Ended (ℤ × World))
    → List Word
    → List Assign
    → Bool
    → World
    → Ended World
unfolding execute_words apply_assignements
execute_cmd sys run expand builtin words assigns no_fork w =
    expand words true w >>= (λ (fields, w1). elim fields [
      | none ↦ finished (set_status (pos 1) w1)
      | some [] ↦
          apply_assignements expand assigns false w1
          >>= (λ (fine, w2). finished (if fine then set_status (pos 0) w2 else w2))
      | some (name ∷ args) ↦ execute_words sys run expand builtin name args assigns no_fork w1
    ])
