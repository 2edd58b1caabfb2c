-- ===== src/Execute/Tree.antt =====
-- `execute` (src/execute.c) and `interpret` (src/parser.c), with the expansion and the builtins
-- tied in. Every call between them spends one unit of fuel.
use tash.Base.{
  ℕ, zero, suc, Bool, true, false, not, ◌&&◌, ◌||◌, Option, none, some, List, [], ◌∷◌,
  if◌then◌else◌, Text, same_text,
}
use tash.Funcs.{register_func}
use tash.Lexer.Source.{Source, source_of}
use tash.Lexer.Next.{discard_line}
use tash.Parser.Tree.{
  Node, missing, node, Content, cmd, pipe, or_else, and_then, sep, negate, bg, subshell, group,
  if_else, while, until, for_in, case, func,
}
use tash.Parser.State.{Outcome}
use tash.Parser.Descent.{parse_line}
use tash.Expand.Split.{word_expansion}
use tash.Expand.Word.{expand_string_ctl}
use tash.Expand.Shell.{ok, ◌>>=◌}
use tash.Builtins.State.{pos, exceeds, Control}
use tash.Builtins.Dispatch.{try_builtin}
use tash.System.{System}
use tash.World
use tash.World.{
  Ended, finished, exited, crashed, stuck, runaway, Rest, World, set_status, shell_of, of_expanded,
}
use tash.Jobs.{job_single}
use tash.Execute.Redirect.{SavedFd, apply_redirs, restore_fds}
use tash.Execute.Loops.{execute_loop, is_zero}
use tash.Execute.Commands.{Runner, Expansion, execute_cmd}
use tash.Execute.Compound.{PatternExpansion, execute_for, execute_case}
use tash.Execute.Pipes.{execute_pipe, execute_async, substitution, then_exit}

infixl 1 ◌>>>◌
abbrev pub ◌>>>◌ : Ended World → (World → Ended World) → Ended World
e >>> k = World.◌>>=◌ e k

abbrev listed_place : List ℕ → List (List ℕ) → Bool
listed_place place [] = false
listed_place place (p ∷ ps) = same_text place p || listed_place place ps

-- The case NODE_FUNC: the body is taken out of the tree, so that a second run finds NULL there.
unfoldable pub define_func : Text → Node → List ℕ → World → World
define_func name body place (c, r) =
    let gone = listed_place place r.stolen in
    (
      c,
      record r {
        tables = record r.tables {
          funcs =
              register_func name
                (record { tree = if gone then missing else body; place = 0 ∷ place })
                r.tables.funcs;
        };
        stolen = if gone then r.stolen else place ∷ r.stolen;
      },
    )

-- The two tests at the head of `execute`.
abbrev pub is_leaving : Control → Bool
is_leaving c =
    exceeds c.break_depth 0 || exceeds c.continue_depth 0 || c.sigint_break || c.return_break

abbrev pub negated : World → World
negated (c, r) = (record c { exit_status = if is_zero c.exit_status then pos 1 else pos 0 }, r)

-- Behind `apply_redirs`.
abbrev pub within_redirs :
    System → (World → Ended World) → Option (List SavedFd) × World → Ended World
within_redirs sys inner (none, w) = finished w
within_redirs sys inner (some saves, w) = inner w >>> (λ w1. finished (restore_fds sys saves w1))

-- What `interpret` does once a line was executed: stop, or read on.
abbrev pub after_line : (World → Ended World) → World → Ended World
after_line again (c, r) =
    if not (is_zero c.exit_status) && r.flags.err_exit
    then finished (c, r)
    else if c.return_break
    then finished (record c { return_break = false }, r)
    else again (c, r)

abbrev pub fresh_line : World → World
fresh_line (c, r) = (record c { sigint_break = false }, record r { roots = suc r.roots })

module _ (sys : System) where
  unfoldable mutual
    unfolding apply_redirs restore_fds execute_cmd execute_for execute_case execute_pipe
        execute_async substitution execute_loop define_func job_single try_builtin of_expanded
        shell_of

    pub execute : ℕ → Runner
    execute zero n place no_fork w = stuck
    execute (suc f) missing place no_fork w = finished w
    execute (suc f) (node content redirs) place no_fork (c, r) =
        let run =
          World.◌>>=◌ (apply_redirs sys (λ words. expand f words true) redirs [] (c, r))
            (within_redirs sys (execute_content f content place no_fork)) in
        if is_leaving c then finished (c, r) else run

    -- The switch.
    pub execute_content : ℕ → Content → List ℕ → Bool → World → Ended World
    execute_content zero content place no_fork w = stuck
    execute_content (suc f) (cmd words assigns) place no_fork w =
        execute_cmd sys (execute f) (expand f) (try_builtin sys (interpret f) f) words assigns
          no_fork w
    execute_content (suc f) (pipe left right) place no_fork w =
        execute_pipe sys (execute f) (node (pipe left right) []) place w
    execute_content (suc f) (sep left right) place no_fork w =
        execute f left (0 ∷ place) false w >>> execute f right (1 ∷ place) no_fork
    execute_content (suc f) (and_then left right) place no_fork w =
        execute f left (0 ∷ place) false w >>> (λ (c, r).
          let second = execute f right (1 ∷ place) no_fork (c, r) in
          if is_zero c.exit_status then second else finished (c, r))
    execute_content (suc f) (or_else left right) place no_fork w =
        execute f left (0 ∷ place) false w >>> (λ (c, r).
          let second = execute f right (1 ∷ place) no_fork (c, r) in
          if is_zero c.exit_status then finished (c, r) else second)
    execute_content (suc f) (for_in body words var) place no_fork w =
        execute_for (expand f) var words (execute f body (0 ∷ place)) no_fork w
    execute_content (suc f) (if_else condition body else_body) place no_fork w =
        execute f condition (0 ∷ place) false (set_status (pos 0) w) >>> (λ (c, r).
          let yes_part = execute f body (1 ∷ place) no_fork (set_status (pos 0) (c, r)) in
          let no_part = execute f else_body (2 ∷ place) no_fork (set_status (pos 0) (c, r)) in
          if is_zero c.exit_status then yes_part else no_part)
    execute_content (suc f) (while condition body) place no_fork w =
        execute_loop false (execute f condition (0 ∷ place) false)
          (execute f body (1 ∷ place) false) f w
    execute_content (suc f) (until condition body) place no_fork w =
        execute_loop true (execute f condition (0 ∷ place) false) (execute f body (1 ∷ place) false)
          f w
    execute_content (suc f) (negate child) place no_fork w =
        execute f child (0 ∷ place) false w >>> (λ w1. finished (negated w1))
    execute_content (suc f) (group child) place no_fork w = execute f child (0 ∷ place) no_fork w
    execute_content (suc f) (subshell child) place no_fork w =
        let here = execute f child (0 ∷ place) true w in
        let forked = job_single sys (λ w'. then_exit (execute f child (0 ∷ place) true w')) w in
        if no_fork then here else forked
    execute_content (suc f) (bg child) place no_fork w =
        execute_async sys (execute f) child (0 ∷ place) w
    execute_content (suc f) (case word cases) place no_fork w =
        execute_case (expand f) (expand_pattern f) (execute f) word cases place no_fork w
    execute_content (suc f) (func name body) place no_fork w =
        finished (define_func name body place w)

    -- `word_expansion`. The files are those of its start.
    pub expand : ℕ → Expansion
    expand zero words split w = stuck
    expand (suc f) words split w = of_expanded w (
        word_expansion sys.number (substitution sys (execute f) w) (sys.files w.1.history) f words
          split (shell_of w))

    -- `expand_word_ctl`
    pub expand_pattern : ℕ → PatternExpansion
    expand_pattern zero word w = stuck
    expand_pattern (suc f) word w = of_expanded w (
        expand_string_ctl sys.number (substitution sys (execute f) w) f word.text false (shell_of w)
        >>= (λ (text, _) sh. ok text sh))

    -- The loop of `interpret`, on a source.
    pub interpret_source : ℕ → Source → World → Ended World
    interpret_source zero src w = stuck
    interpret_source (suc f) src (c, r) =
        elim (parse_line f (record { src = src; parser_error = false; prompt = 1 })) [
          | Outcome.done missing s ↦ finished (c, r)
          | Outcome.done (node content redirs) s ↦
              execute f (node content redirs) (r.roots ∷ []) false (fresh_line (c, r))
              >>> after_line (interpret_source f s.src)
          | Outcome.failed s ↦ elim r.interactive [
            | false ↦ finished (set_status (pos 1) (c, r))
            | true ↦ elim (discard_line f s.src) [
              | none ↦ stuck
              | some src' ↦ interpret_source f src' (set_status (pos 1) (c, r))
            ]
          ]
          | Outcome.crashed ↦ crashed
          | Outcome.stuck ↦ stuck
        ]

    -- `eval`, and `eval_script` of a script's bytes.
    pub interpret : ℕ → Text → World → Ended World
    interpret zero text w = stuck
    interpret (suc f) text w = interpret_source f (source_of text) w
