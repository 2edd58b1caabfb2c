-- ===== src/Expand/Command.antt =====
-- Command substitution: `execute_subshell`, `handle_backtick`, and the case `(` of `handle_var`
-- (src/expand.c).
use tash.Base.{
  ℕ, zero, suc, Bool, false, Option, none, some, List, [], ◌∷◌, ◌==◌, if◌then◌else◌, Text,
}
use tash.Lexer.Token.{t_close_paren}
use tash.Parser.Tree.{Node}
use tash.Parser.State.{Outcome, done}
use tash.Parser.Buffer.{parse_list_buf}
use tash.Expand.Quoting.{append_safe}
use tash.Expand.Shell.{Shell, Expanded, ok, expansion_error, ◌>>=◌}

-- A read's bytes without the newlines at their end, and how many those were.
unfoldable pub strip_newlines : Text → Text × ℕ
strip_newlines [] = ([], 0)
strip_newlines (c ∷ cs) = elim (strip_newlines cs).0 [
  | [] ↦ if c == b'\n' then ([], suc (strip_newlines cs).1) else (c ∷ [], (strip_newlines cs).1)
  | d ∷ ds ↦ (c ∷ d ∷ ds, (strip_newlines cs).1)
]

append_newlines : ℕ → Text → Bool → Text
unfolding append_safe
append_newlines zero dest in_quote = dest
append_newlines (suc n) dest in_quote =
    append_newlines n (append_safe dest (b'\n' ∷ []) in_quote) in_quote

-- The loop over the reads from the pipe.
unfoldable pub collect_output : Text → Bool → ℕ → List Text → Text
unfolding append_newlines strip_newlines append_safe
collect_output dest in_quote nl_count [] = dest
collect_output dest in_quote nl_count (buf ∷ bufs) =
    let (kept, stripped) = strip_newlines buf in
    collect_output (append_safe (append_newlines nl_count dest in_quote) kept in_quote) in_quote
      stripped bufs

-- The text up to a backquote and the text behind it; `none` where there is no backquote.
unfoldable pub split_backtick : Text → Option (Text × Text)
split_backtick [] = none
split_backtick (c ∷ cs) =
    if c == b'`'
    then some ([], cs)
    else (elim (split_backtick cs) [ none ↦ none | some (t, rest) ↦ some (c ∷ t, rest) ])

abbrev pub starts : ℕ → Text → Bool
starts c [] = false
starts c (d ∷ _) = d == c

abbrev pub behind : Text → Text
behind [] = []
behind (_ ∷ cs) = cs

-- `child` forks a shell that runs a list and waits for it: it gives the reads from its output, and
-- the state with the exit status and the system calls up to its end.
module _ (child : Node → Shell → Expanded (List Text)) where
  unfoldable pub execute_subshell : Text → Bool → Node → Shell → Expanded Text
  unfolding collect_output
  execute_subshell dest in_quote n sh =
      child n sh >>= (λ reads sh'. ok (collect_output dest in_quote 0 reads) sh')

  -- The command substitution `$(…)`, at the text behind the parenthesis.
  unfoldable pub command_substitution : ℕ → Text → Bool → Text → Shell → Expanded (Text × Text)
  unfolding execute_subshell
  command_substitution f dest in_quote src sh =
      elim (parse_list_buf f src (some (t_close_paren ∷ []))) [
        | Outcome.failed _ ↦ expansion_error sh
        | Outcome.crashed ↦ Expanded.crashed
        | Outcome.stuck ↦ Expanded.stuck
        | done (n, end) _ ↦
            if starts b')' end
            then execute_subshell dest in_quote n sh >>= (λ dest' sh'. ok (dest', behind end) sh')
            else expansion_error sh
      ]

  unfoldable pub handle_backtick : ℕ → Text → Bool → Text → Shell → Expanded (Text × Text)
  unfolding execute_subshell split_backtick
  handle_backtick f dest in_quote src sh = elim (split_backtick src) [
    | none ↦ Expanded.crashed
    | some (text, rest) ↦ elim (parse_list_buf f text none) [
      | Outcome.failed _ ↦ expansion_error sh
      | Outcome.crashed ↦ Expanded.crashed
      | Outcome.stuck ↦ Expanded.stuck
      | done (n, []) _ ↦ execute_subshell dest in_quote n sh >>= (λ dest' sh'. ok (dest', rest) sh')
      | done (n, _ ∷ _) _ ↦ expansion_error sh
    ]
  ]
