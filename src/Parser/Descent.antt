-- ===== src/Parser/Descent.antt =====
-- The recursive descent (src/parser.c), on fuel: each call and each round of a loop spends one
-- unit.
use tash.Base.{
  ℕ, zero, suc, Bool, true, false, ◌&&◌, ◌||◌, not, Option, none, some, List, [], ◌∷◌, ◌++◌, ◌==◌,
  if◌then◌else◌,
}
use tash.Glob.Pattern.{ctlquot}
use tash.Lexer.Token.{
  Token, token_is_word, t_word, t_and, t_or, t_eof, t_dsemi, t_pipe, t_bg, t_open_paren,
  t_close_paren, t_semi_colon, t_newline, t_if, t_then, t_else, t_elif, t_fi, t_for, t_in, t_do,
  t_done, t_while, t_until, t_case, t_esac, t_open_braces, t_close_braces, t_bang,
}
use tash.Parser.Tree.{
  Word, Node, missing, node, pipe, or_else, and_then, sep, negate, bg, subshell, group, if_else,
  while, until, for_in, case, func, Cases, no_cases, one_case, new_node,
}
use tash.Parser.State.{
  done, failed, crashed, stuck, Parser, pure, fail, ◌>>=◌, ◌>>◌, run, on_error, next, unget,
  set_prompt, expect_token, skip_newlines, next_word, word_from_token,
}
use tash.Parser.Command.{is_redir, is_valid_name, parse_simple_command, parse_redirs}

-- `{.flags = WORD_HAS_QUOTE, .text = {CTLQUOT, '$', '@', CTLQUOT}}`, the words of a `for` with no
-- `in`.
abbrev pub all_args : Word
all_args = record { text = ctlquot ∷ b'$' ∷ b'@' ∷ ctlquot ∷ []; quoted = true }

-- What `&` makes of the list read so far.
unfoldable pub in_background : Node → Node
in_background (node (sep l r) redirs) = node (sep l (new_node (bg r))) redirs
in_background n = new_node (bg n)

unfoldable pub mem_type : ℕ → List ℕ → Bool
mem_type t [] = false
mem_type t (u ∷ us) = t == u || mem_type t us

abbrev is_separator : Token → Bool
is_separator t = t.type == t_newline || t.type == t_semi_colon || t.type == t_bg

-- The words of `for name in …`, up to the separator.
unfoldable pub parse_for_words : ℕ → Token → List Word → Parser (List Word)
parse_for_words zero t words s = stuck
parse_for_words (suc f) t words s =
    if token_is_word t
    then run s (do t' ← next; parse_for_words f t' (words ++ (word_from_token t ∷ [])))
    else if t.type == t_semi_colon || t.type == t_newline
    then run s (pure words)
    else run s fail

-- The part of `parse_for` between the name and `do`, at the token behind the name.
unfoldable pub parse_for_in : ℕ → Token → Parser (List Word)
unfolding parse_for_words
parse_for_in f t =
    if t.type == t_in
    then (do t' ← next; parse_for_words f t' [])
    else if t.type == t_semi_colon || t.type == t_newline
    then pure (all_args ∷ [])
    else (do unget t; pure (all_args ∷ []))

-- The patterns of a case, from the token at hand.
unfoldable pub parse_patterns : ℕ → Token → List Word → Parser (List Word)
parse_patterns zero t patterns s = stuck
parse_patterns (suc f) t patterns s =
    let found = patterns ++ (word_from_token t ∷ []) in
    if token_is_word t
    then run s (do
      t' ← next
      if t'.type == t_pipe
          then (do t'' ← next; parse_patterns f t'' found)
          else (do unget t'; pure found))
    else run s fail

-- The optional `(` before the patterns, and the token behind it.
unfoldable pub after_open_paren : Token → Parser Token
after_open_paren t = if t.type == t_open_paren then next else pure t

abbrev pub ends_cases : Token → Bool
ends_cases t = not (t.type == t_open_paren) && (not (token_is_word t) || t.type == t_esac)

abbrev pub starts_compound : Token → Bool
starts_compound t =
    t.type == t_if
    || t.type == t_for
    || t.type == t_while
    || t.type == t_until
    || t.type == t_case
    || t.type == t_open_paren
    || t.type == t_open_braces

unfoldable mutual
  unfolding expect_token

  pub parse_list : ℕ → Bool → Option (List ℕ) → Parser Node
  parse_list zero multi terminators s = stuck
  parse_list (suc f) multi terminators s =
      run s do n ← parse_logic_list f; list_loop f multi terminators n

  -- The loop of `parse_list`, with the list read so far.
  pub list_loop : ℕ → Bool → Option (List ℕ) → Node → Parser Node
  list_loop zero multi terminators n s = stuck
  list_loop (suc f) multi terminators n s = run s do
    on_error do
      t ← next
      let n' = if t.type == t_bg then in_background n else n
      if not (is_separator t)
          then (do unget t; pure n)
          else if not multi
          then pure n'
          else list_next f terminators n'

  -- Its second half: a terminator, or one more logic list.
  pub list_next : ℕ → Option (List ℕ) → Node → Parser Node
  list_next zero terminators n s = stuck
  list_next (suc f) none n s =
      run s do child ← parse_logic_list f; list_loop f true none (new_node (sep n child))
  list_next (suc f) (some types) n s = run s do
    t ← skip_newlines f
    unget t
    if mem_type t.type types
        then pure n
        else (do child ← parse_logic_list f; list_loop f true (some types) (new_node (sep n child)))

  pub parse_logic_list : ℕ → Parser Node
  parse_logic_list zero s = stuck
  parse_logic_list (suc f) s = run s do n ← parse_pipeline f; logic_loop f n

  pub logic_loop : ℕ → Node → Parser Node
  logic_loop zero n s = stuck
  logic_loop (suc f) n s = run s do
    on_error do
      t ← next
      if not (t.type == t_and) && not (t.type == t_or) then (do unget t; pure n) else (do
        child ← parse_pipeline f
        logic_loop f (new_node (if t.type == t_and then and_then n child else or_else n child)))

  pub parse_pipeline : ℕ → Parser Node
  parse_pipeline zero s = stuck
  parse_pipeline (suc f) s = run s do
    on_error do
      t ← next
      if t.type == t_bang
          then (do child ← parse_simple_pipeline f; pure (new_node (negate child)))
          else (do unget t; parse_simple_pipeline f)

  pub parse_simple_pipeline : ℕ → Parser Node
  parse_simple_pipeline zero s = stuck
  parse_simple_pipeline (suc f) s = run s do
    on_error do
      left ← parse_command f
      t ← next
      if t.type == t_pipe
          then (do right ← parse_simple_pipeline f; pure (new_node (pipe left right)))
          else (do unget t; pure left)

  pub parse_command : ℕ → Parser Node
  parse_command zero s = stuck
  parse_command (suc f) s = run s do
    t ← on_error (skip_newlines f)
    set_prompt 2
    if starts_compound t
        then (do unget t; parse_compound_command f)
        else if t.type == t_word
        then (do
          t' ← on_error next
          unget t'
          if t'.type == t_open_paren then parse_func f t else parse_simple_command f t)
        else if is_redir t
        then parse_simple_command f t
        else on_error fail

  pub parse_compound_command : ℕ → Parser Node
  parse_compound_command zero s = stuck
  parse_compound_command (suc f) s = run s do
    t ← on_error (skip_newlines f)
    set_prompt 2
    n ← compound_of f t
    on_error do
      t' ← next
      (redirs, last) ← parse_redirs f t' []
      unget last
      pure (elim n [ missing ↦ missing | node c _ ↦ node c redirs ])

  -- The switch of `parse_compound_command`.
  pub compound_of : ℕ → Token → Parser Node
  compound_of zero t s = stuck
  compound_of (suc f) t s = run s (
      if t.type == t_if
      then parse_if f
      else if t.type == t_for
      then parse_for f
      else if t.type == t_while
      then parse_loop f true
      else if t.type == t_until
      then parse_loop f false
      else if t.type == t_case
      then parse_case f
      else if t.type == t_open_paren
      then parse_subshell f
      else if t.type == t_open_braces
      then parse_group f
      else on_error fail)

  -- `parse_loop`, of NODE_WHILE or NODE_UNTIL.
  pub parse_loop : ℕ → Bool → Parser Node
  parse_loop zero is_while s = stuck
  parse_loop (suc f) is_while s = run s do
    on_error do
      condition ← parse_list f true (some (t_do ∷ []))
      expect_token t_do
      body ← parse_list f true (some (t_done ∷ []))
      expect_token t_done
      pure (new_node (if is_while then while condition body else until condition body))

  pub parse_for : ℕ → Parser Node
  parse_for zero s = stuck
  parse_for (suc f) s = run s do
    on_error do
      name ← next_word
      t ← next
      words ← parse_for_in f t
      expect_token t_do
      body ← parse_list f true (some (t_done ∷ []))
      expect_token t_done
      pure (new_node (for_in body words (word_from_token name)))

  pub parse_case : ℕ → Parser Node
  parse_case zero s = stuck
  parse_case (suc f) s = run s do
    on_error do
      word ← next_word
      expect_token t_in
      cases ← case_loop f
      expect_token t_esac
      pure (new_node (case (word_from_token word) cases))

  -- The loop over the cases.
  pub case_loop : ℕ → Parser Cases
  case_loop zero s = stuck
  case_loop (suc f) s = run s do
    t ← skip_newlines f
    if ends_cases t then (do unget t; pure no_cases) else (do
      t' ← after_open_paren t
      patterns ← parse_patterns f t' []
      expect_token t_close_paren
      body ← case_body f
      t'' ← next
      if not (t''.type == t_dsemi)
          then (do unget t''; pure (one_case patterns body no_cases))
          else (do rest ← case_loop f; pure (one_case patterns body rest)))

  -- The body of a case, which may be missing.
  pub case_body : ℕ → Parser Node
  case_body zero s = stuck
  case_body (suc f) s = run s do
    t ← skip_newlines f
    unget t
    if not (t.type == t_dsemi) && not (t.type == t_esac)
        then parse_list f true (some (t_esac ∷ t_dsemi ∷ []))
        else pure missing

  pub parse_if : ℕ → Parser Node
  parse_if zero s = stuck
  parse_if (suc f) s = run s do
    condition ← parse_list f true (some (t_then ∷ []))
    on_error do
      expect_token t_then
      body ← parse_list f true (some (t_elif ∷ t_else ∷ t_fi ∷ []))
      else_body ← else_part f
      expect_token t_fi
      pure (new_node (if_else condition body else_body))

  -- The chain of `elif`, each one the `else` of the one before, and the `else` of the last.
  pub else_part : ℕ → Parser Node
  else_part zero s = stuck
  else_part (suc f) s = run s do
    t ← next
    if t.type == t_elif
        then (do
          condition ← parse_list f true (some (t_then ∷ []))
          expect_token t_then
          body ← parse_list f true (some (t_elif ∷ t_else ∷ t_fi ∷ []))
          else_body ← else_part f
          pure (new_node (if_else condition body else_body)))
        else if t.type == t_else
        then parse_list f true (some (t_fi ∷ []))
        else (do unget t; pure missing)

  pub parse_subshell : ℕ → Parser Node
  parse_subshell zero s = stuck
  parse_subshell (suc f) s = run s do
    content ← parse_list f true (some (t_close_paren ∷ []))
    on_error do
      t ← skip_newlines f
      unget t
      expect_token t_close_paren
      pure (new_node (subshell content))

  pub parse_group : ℕ → Parser Node
  parse_group zero s = stuck
  parse_group (suc f) s = run s do
    content ← parse_list f true (some (t_close_braces ∷ []))
    on_error do expect_token t_close_braces; pure (new_node (group content))

  pub parse_func : ℕ → Token → Parser Node
  parse_func zero name s = stuck
  parse_func (suc f) name s = run s do
    on_error do
      expect_token t_open_paren
      expect_token t_close_paren
      body ← parse_compound_command f
      if is_valid_name name then pure (new_node (func name.value body)) else fail

-- `parse_line`: an empty line at the end of the input is `missing`. A lexical error in the first
-- token is dereferenced as a token.
unfoldable pub parse_line : ℕ → Parser Node
unfolding skip_newlines parse_list
parse_line f s = elim (skip_newlines f s) [
  | done t s' ↦
      if t.type == t_eof then done missing s' else run s' (do unget t; parse_list f false none)
  | failed s' ↦ crashed
  | crashed ↦ crashed
  | stuck ↦ stuck
]
