-- ===== src/Parser/Command.antt =====
-- Redirections, assignments, names and simple commands (src/parser.c).
use tash.Base.{
  ℕ, zero, suc, Bool, true, false, ◌&&◌, ◌||◌, Option, none, some, List, [], ◌∷◌, ◌++◌, ◌==◌, leb,
  if◌then◌else◌, Text,
}
use tash.Lexer.Token.{Token, token_is_word, t_dup_in, t_dup_out, t_inferior, t_superior, t_append}
use tash.Parser.Tree.{Word, Redir, Assign, Node, node, cmd}
use tash.Parser.State.{
  stuck, Parser, pure, ◌>>=◌, ◌>>◌, run, on_error, next, unget, next_word, word_from_token,
}

abbrev pub is_redir : Token → Bool
is_redir t =
    t.type == t_dup_in
    || t.type == t_dup_out
    || t.type == t_inferior
    || t.type == t_superior
    || t.type == t_append

abbrev default_fd : Bool → Option ℕ → ℕ
default_fd input (some d) = d
default_fd true none = 0
default_fd false none = 1

-- The redirection that the operator `first` makes with its word.
unfoldable pub redir_of : Token → Word → Redir
redir_of first dest =
    let input = first.type == t_dup_in || first.type == t_inferior in
    record {
      fd = default_fd input first.digit;
      input = input;
      append = first.type == t_append;
      dup = first.type == t_dup_in || first.type == t_dup_out;
      dest = dest;
    }

unfoldable pub parse_redir : Token → Parser Redir
unfolding redir_of
parse_redir first = on_error do last ← next_word; pure (redir_of first (word_from_token last))

-- isalpha and isalnum of the C locale
abbrev pub is_alpha : ℕ → Bool
is_alpha c = (leb b'a' c && leb c b'z') || (leb b'A' c && leb c b'Z')

abbrev pub is_alnum : ℕ → Bool
is_alnum c = is_alpha c || (leb b'0' c && leb c b'9')

is_valid_name_char : ℕ → Bool
is_valid_name_char c = is_alnum c || c == b'_' || c == b'-'

are_valid_name_chars : Text → Bool
unfolding is_valid_name_char
are_valid_name_chars [] = true
are_valid_name_chars (c ∷ cs) = is_valid_name_char c && are_valid_name_chars cs

unfoldable pub is_valid_name : Token → Bool
unfolding are_valid_name_chars
is_valid_name t = token_is_word t && are_valid_name_chars t.value

-- From the first `=` on: what stands before it, if it consists of name characters, and behind it.
unfoldable pub split_assignement : Text → Option (Text × Text)
split_assignement [] = none
split_assignement (c ∷ cs) =
    let rest = split_assignement cs in
    if c == b'='
    then some ([], cs)
    else if is_alnum c || c == b'_'
    then (elim rest [ none ↦ none | some (var, value) ↦ some (c ∷ var, value) ])
    else none

starts_name : Text → Bool
starts_name [] = false
starts_name (c ∷ _) = is_alpha c || c == b'_'

unfoldable pub parse_assignement : Token → Option Assign
unfolding split_assignement starts_name
parse_assignement t =
    if token_is_word t && starts_name t.value
    then (elim (split_assignement t.value) [
      | none ↦ none
      | some (var, value) ↦
          some (record { value = record { text = value; quoted = t.quoted }; var = var })
    ])
    else none

-- The loop over the assignments, from the token at hand: they and the token behind them.
unfoldable pub parse_assigns : ℕ → Token → List Assign → Parser (List Assign × Token)
parse_assigns zero t assigns s = stuck
parse_assigns (suc f) t assigns s = elim (parse_assignement t) [
  | none ↦ run s (pure (assigns, t))
  | some a ↦ run s do t' ← next; parse_assigns f t' (assigns ++ (a ∷ []))
]

-- The loop over the arguments and redirections.
unfoldable pub parse_args :
    ℕ → Token → List Word → List Redir → Parser (List Word × List Redir × Token)
parse_args zero t args redirs s = stuck
parse_args (suc f) t args redirs s =
    if token_is_word t
    then run s (do t' ← next; parse_args f t' (args ++ (word_from_token t ∷ [])) redirs)
    else if is_redir t
    then run s (do r ← parse_redir t; t' ← next; parse_args f t' args (redirs ++ (r ∷ [])))
    else run s (pure (args, redirs, t))

unfoldable pub parse_simple_command : ℕ → Token → Parser Node
unfolding parse_assigns parse_args
parse_simple_command f t = on_error do
  (assigns, t') ← parse_assigns f t []
  (args, redirs, last) ← parse_args f t' [] []
  unget last
  pure (node (cmd args assigns) redirs)

-- The redirections behind a compound command.
unfoldable pub parse_redirs : ℕ → Token → List Redir → Parser (List Redir × Token)
parse_redirs zero t redirs s = stuck
parse_redirs (suc f) t redirs s =
    if is_redir t
    then run s (do r ← parse_redir t; t' ← next; parse_redirs f t' (redirs ++ (r ∷ [])))
    else run s (pure (redirs, t))
