-- ===== src/Execute/Balance.antt =====
-- Every run that comes back leaves `loop_depth` and `stack_depth` as they were (src/execute.c and
-- `interpret` of src/parser.c): the decrements behind loops, functions and scripts are reached on
-- every path.
use tash.Base.{
  refl, ℕ, zero, suc, ◌≡◌, Bool, true, false, not, ◌&&◌, Option, none, some, List, [], ◌∷◌,
  if◌then◌else◌, if_intro, Text,
}
use tash.Lexer.Source.{Source, source_of}
use tash.Lexer.Next.{discard_line}
use tash.Parser.Tree.{
  Word, Redir, Node, missing, node, Content, cmd, pipe, or_else, and_then, sep, negate, bg,
  subshell, group, if_else, while, until, for_in, case, func,
}
use tash.Parser.State.{Outcome}
use tash.Parser.Descent.{parse_line}
use tash.Builtins.State.{ℤ, pos, Control}
use tash.Builtins.Depth.{At, AtWith, KeepsDepths, try_builtin-At}
use tash.Builtins.Dispatch.{try_builtin}
use tash.System.{System}
use tash.World.{Ended, finished, crashed, stuck, Rest, World, set_status}
use tash.Jobs.Isolation.{Holds, Holds-bind, held}
use tash.Execute.Loops.{is_zero}
use tash.Execute.Redirect.{SavedFd, apply_redirs, restore_fds}
use tash.Execute.Pipes.{then_exit}
use tash.Execute.Tree.{
  define_func, is_leaving, negated, within_redirs, after_line, fresh_line, ◌>>>◌, execute,
  execute_content, expand, expand_pattern, interpret_source, interpret,
}
use tash.Execute.Balance.Redirect.{At-SameBut, of_expanded-At, restore_fds-Same, apply_redirs-At}
use tash.Execute.Balance.Loops.{Keeping, KeepingWith, execute_loop-At}
use tash.Execute.Balance.Commands.{
  RunnerKeeps, ExpansionKeeps, PatternKeeps, execute_cmd-At, job_single-At,
}
use tash.Execute.Balance.Compound.{
  execute_for-At, execute_case-At, execute_pipe-At, execute_async-At,
}
pub mod Redirect
pub mod Loops
pub mod Commands
pub mod Compound

abbrev SourceKeeps : (Source → World → Ended World) → Type 0
SourceKeeps interpret = (src : Source) → Keeping (interpret src)

-- What is known of a fuel.
record KeepsAll (sys : System) (f : ℕ) : Type 0 where
  run : RunnerKeeps (execute sys f)
  content :
      (n : Content) (place : List ℕ) (no_fork : Bool)
      → Keeping (execute_content sys f n place no_fork)
  source : SourceKeeps (interpret_source sys f)
  texts : KeepsDepths (interpret sys f)

module _ (sys : System) where
  expand-Keeps : (f : ℕ) → ExpansionKeeps (expand sys f)
  unfolding expand
  expand-Keeps zero words split l s w h = tt
  expand-Keeps (suc f) words split l s w h = of_expanded-At l s w _ h

  expand_pattern-Keeps : (f : ℕ) → PatternKeeps (expand_pattern sys f)
  unfolding expand_pattern
  expand_pattern-Keeps zero word l s w h = tt
  expand_pattern-Keeps (suc f) word l s w h = of_expanded-At l s w _ h

  within_redirs-At :
      (inner : World → Ended World)
      → Keeping inner
      → (l s : ℕ) (o : Option (List SavedFd) × World) → AtWith l s o
      → Holds (At l s) (within_redirs sys inner o)
  within_redirs-At inner keeps l s (none, w) h = h
  within_redirs-At inner keeps l s (some saves, w) h =
      Holds-bind (At l s) (At l s) (inner w) _ (keeps l s w h)
        (λ w1 k. At-SameBut l s w1 (restore_fds sys saves w1) k (restore_fds-Same sys saves w1))

  after_line-At : (again : World → Ended World) → Keeping again → Keeping (after_line again)
  after_line-At again keeps l s (c, r) h =
      let more = again (c, r) in
      let unless_return : Ended World =
        if c.return_break then finished (record c { return_break = false }, r) else more in
      if_intro (Holds (At l s)) (not (is_zero c.exit_status) && r.flags.err_exit) (finished (c, r))
        unless_return (λ _. h)
        (λ _.
          if_intro (Holds (At l s)) c.return_break (finished (record c { return_break = false }, r))
            more (λ _. h) (λ _. keeps l s (c, r) h))

  module _ (f : ℕ) (known : KeepsAll sys f) where
    execute-Keeps : RunnerKeeps (execute sys (suc f))
    unfolding execute
    execute-Keeps missing place no_fork l s w h = h
    execute-Keeps (node content redirs) place no_fork l s (c, r) h =
        if_intro (Holds (At l s)) (is_leaving c) (finished (c, r)) _ (λ _. h)
          (λ _.
            Holds-bind (AtWith l s) (At l s)
              (apply_redirs sys (λ words. expand sys f words true) redirs [] (c, r)) _
              (apply_redirs-At l s sys (λ words. expand sys f words true)
                (λ words w k. expand-Keeps f words true l s w k) redirs [] (c, r) h)
              (λ o k.
                within_redirs-At (execute_content sys f content place no_fork)
                  (known.content content place no_fork) l s o k))

    -- Two nodes, one behind the other.
    both-At :
        (l s : ℕ) (n : Node) (place : List ℕ) (w : World) (k : World → Ended World)
        → At l s w
        → ((v : World) → At l s v → Holds (At l s) (k v))
        → Holds (At l s) (execute sys f n place false w >>> k)
    both-At l s n place w k h g =
        Holds-bind (At l s) (At l s) (execute sys f n place false w) k
          (known.run n place false l s w h) g

    either_At :
        (l s : ℕ) (b : Bool) (u v : Ended World)
        → Holds (At l s) u
        → Holds (At l s) v
        → Holds (At l s) (if b then u else v)
    either_At l s b u v h k = if_intro (Holds (At l s)) b u v (λ _. h) (λ _. k)

    content-Keeps :
        (n : Content) (place : List ℕ) (no_fork : Bool)
        → Keeping (execute_content sys (suc f) n place no_fork)
    unfolding execute_content define_func
    content-Keeps (cmd words assigns) place no_fork l s w h =
        execute_cmd-At sys (execute sys f) (expand sys f) known.run (expand-Keeps f)
          (try_builtin sys (interpret sys f) f)
          (λ name args l s w k.
            try_builtin-At sys (interpret sys f) known.texts f l s name args w k)
          words assigns no_fork l s w h
    content-Keeps (pipe left right) place no_fork l s w h =
        execute_pipe-At sys (execute sys f) (expand sys f) (expand_pattern sys f) known.run
          (expand-Keeps f) (expand_pattern-Keeps f) (node (pipe left right) []) place l s w h
    content-Keeps (sep left right) place no_fork l s w h =
        both-At l s left (0 ∷ place) w _ h (λ v k. known.run right (1 ∷ place) no_fork l s v k)
    content-Keeps (and_then left right) place no_fork l s w h =
        both-At l s left (0 ∷ place) w _ h (λ (c, r) k.
          either_At l s (is_zero c.exit_status) (execute sys f right (1 ∷ place) no_fork (c, r))
            (finished (c, r)) (known.run right (1 ∷ place) no_fork l s (c, r) k) k)
    content-Keeps (or_else left right) place no_fork l s w h =
        both-At l s left (0 ∷ place) w _ h (λ (c, r) k.
          either_At l s (is_zero c.exit_status) (finished (c, r))
            (execute sys f right (1 ∷ place) no_fork (c, r)) k
            (known.run right (1 ∷ place) no_fork l s (c, r) k))
    content-Keeps (for_in body words var) place no_fork l s w h =
        execute_for-At sys (execute sys f) (expand sys f) (expand_pattern sys f) known.run
          (expand-Keeps f) (expand_pattern-Keeps f) var words (execute sys f body (0 ∷ place))
          no_fork (known.run body (0 ∷ place)) l s w h
    content-Keeps (if_else condition body else_body) place no_fork l s w h =
        both-At l s condition (0 ∷ place) (set_status (pos 0) w) _ h (λ (c, r) k.
          either_At l s (is_zero c.exit_status)
            (execute sys f body (1 ∷ place) no_fork (set_status (pos 0) (c, r)))
            (execute sys f else_body (2 ∷ place) no_fork (set_status (pos 0) (c, r)))
            (known.run body (1 ∷ place) no_fork l s (set_status (pos 0) (c, r)) k)
            (known.run else_body (2 ∷ place) no_fork l s (set_status (pos 0) (c, r)) k))
    content-Keeps (while condition body) place no_fork l s w h =
        execute_loop-At false (execute sys f condition (0 ∷ place) false)
          (execute sys f body (1 ∷ place) false) (known.run condition (0 ∷ place) false)
          (known.run body (1 ∷ place) false) f l s w h
    content-Keeps (until condition body) place no_fork l s w h =
        execute_loop-At true (execute sys f condition (0 ∷ place) false)
          (execute sys f body (1 ∷ place) false) (known.run condition (0 ∷ place) false)
          (known.run body (1 ∷ place) false) f l s w h
    content-Keeps (negate child) place no_fork l s w h =
        both-At l s child (0 ∷ place) w _ h (λ (c, r) k. k)
    content-Keeps (group child) place no_fork l s w h = known.run child (0 ∷ place) no_fork l s w h
    content-Keeps (subshell child) place no_fork l s w h =
        either_At l s no_fork (execute sys f child (0 ∷ place) true w) _
          (known.run child (0 ∷ place) true l s w h)
          (job_single-At sys (λ v. then_exit (execute sys f child (0 ∷ place) true v)) l s w h)
    content-Keeps (bg child) place no_fork l s w h =
        execute_async-At sys (execute sys f) (expand sys f) (expand_pattern sys f) known.run
          (expand-Keeps f) (expand_pattern-Keeps f) child (0 ∷ place) l s w h
    content-Keeps (case word cases) place no_fork l s w h =
        execute_case-At sys (execute sys f) (expand sys f) (expand_pattern sys f) known.run
          (expand-Keeps f) (expand_pattern-Keeps f) word cases place no_fork l s w h
    content-Keeps (func name body) place no_fork l s (c, r) h = h

    source-Keeps : SourceKeeps (interpret_source sys (suc f))
    unfolding interpret_source
    source-Keeps src l s (c, r) h =
        by_outcome (parse_line f (record { src = src; parser_error = false; prompt = 1 }))
      where
        discarded :
            (o : Option Source)
            → Holds (At l s) (elim o as (λ x. Ended World) [
              | none ↦ stuck
              | some src' ↦ interpret_source sys f src' (set_status (pos 1) (c, r))
            ])
        discarded none = tt
        discarded (some src') = known.source src' l s (set_status (pos 1) (c, r)) h

        by_interactive :
            (interactive : Bool) (rest : Source)
            → Holds (At l s) (elim interactive as (λ x. Ended World) [
              | false ↦ finished (set_status (pos 1) (c, r))
              | true ↦ elim (discard_line f rest) [
                | none ↦ stuck
                | some src' ↦ interpret_source sys f src' (set_status (pos 1) (c, r))
              ]
            ])
        by_interactive false rest = h
        by_interactive true rest = discarded (discard_line f rest)

        by_outcome :
            (o : Outcome Node)
            → Holds (At l s) (elim o as (λ x. Ended World) [
              | Outcome.done missing p ↦ finished (c, r)
              | Outcome.done (node content redirs) p ↦
                  execute sys f (node content redirs) (r.roots ∷ []) false (fresh_line (c, r))
                  >>> after_line (interpret_source sys f p.src)
              | Outcome.failed p ↦ elim r.interactive [
                | false ↦ finished (set_status (pos 1) (c, r))
                | true ↦ elim (discard_line f p.src) [
                  | none ↦ stuck
                  | some src' ↦ interpret_source sys f src' (set_status (pos 1) (c, r))
                ]
              ]
              | Outcome.crashed ↦ crashed
              | Outcome.stuck ↦ stuck
            ])
        by_outcome (Outcome.done missing p) = h
        by_outcome (Outcome.done (node content redirs) p) =
            both-At l s (node content redirs) (r.roots ∷ []) (fresh_line (c, r)) _ h
              (λ v k. after_line-At (interpret_source sys f p.src) (known.source p.src) l s v k)
        by_outcome (Outcome.failed p) = by_interactive r.interactive p.src
        by_outcome Outcome.crashed = tt
        by_outcome Outcome.stuck = tt

    texts-Keeps : KeepsDepths (interpret sys (suc f))
    unfolding interpret
    texts-Keeps l s text w h = known.source (source_of text) l s w h

  keeps_all : (f : ℕ) → KeepsAll sys f
  unfolding execute execute_content interpret_source interpret
  keeps_all zero = record {
    run = λ n place no_fork l s w h. tt;
    content = λ n place no_fork l s w h. tt;
    source = λ src l s w h. tt;
    texts = λ l s text w h. tt;
  }
  keeps_all (suc f) = record {
    run = execute-Keeps f (keeps_all f);
    content = content-Keeps f (keeps_all f);
    source = source-Keeps f (keeps_all f);
    texts = texts-Keeps f (keeps_all f);
  }

-- Whatever tree is executed, with redirections, builtins, functions, scripts, loops that are left
-- by `break`, `continue`, `return` or an interrupt: where `execute` comes back, `loop_depth` and
-- `stack_depth` are what they were before.
pub execute-depths :
    (sys : System) (f : ℕ) (n : Node) (place : List ℕ) (no_fork : Bool) (w w' : World)
    → execute sys f n place no_fork w ≡ finished w'
    → (w'.0.loop_depth ≡ w.0.loop_depth) × (w'.0.stack_depth ≡ w.0.stack_depth)
execute-depths sys f n place no_fork w w' e =
    held (At w.0.loop_depth w.0.stack_depth) (execute sys f n place no_fork w) w'
      ((keeps_all sys f).run n place no_fork w.0.loop_depth w.0.stack_depth w (refl, refl)) e
