-- ===== src/Parser/Tests.antt =====
-- Runs of the parser on small scripts.
use tash.Base.{◌≡◌, refl, codes, true, false, [], ◌∷◌, Text, List}
use tash.Lexer.Source.{source_of, get_char, peek_char, is_delimiter}
use tash.Lexer.Word.{get_word_helper}
use tash.Lexer.Next.{next_token, unget_token}
use tash.Lexer.Token.{token_is_word}
use tash.Parser.Tree.{Word, Node, missing, cmd, pipe, if_else, new_node}
use tash.Parser.State.{
  State, Outcome, done, failed, crashed, next, unget, expect_token, skip_newlines, set_prompt,
  word_from_token, next_word,
}
use tash.Parser.Command.{parse_simple_command, parse_assignement, parse_redirs}
use tash.Parser.Reports.{parse_line-parser_error}
use tash.Parser.Descent.{parse_list, parse_line, mem_type}

abbrev start : Text → State
start text = record { src = source_of text; parser_error = false; prompt = 1 }

abbrev result : Outcome Node → Node
result (done n s) = n
result _ = missing

abbrev plain : Text → Word
plain t = record { text = t; quoted = false }

abbrev words : List Text → Node
words ts = new_node (cmd (go ts) [])
  where
    go : List Text → List Word
    go [] = []
    go (t ∷ ts) = plain t ∷ go ts

abbrev parsed : Text → Node
parsed text = result (parse_line 60 (start text))

parse_if_run :
    parsed (codes "if a; then b | c; fi")
    ≡ new_node (
        if_else
          (words (codes "a" ∷ []))
          (new_node (pipe (words (codes "b" ∷ [])) (words (codes "c" ∷ []))))
          missing)
unfolding parse_line parse_list next get_char peek_char is_delimiter get_word_helper next_token
    parse_simple_command parse_assignement token_is_word unget mem_type unget_token set_prompt
    word_from_token next_word parse_redirs
parse_if_run = refl

parse_crash : parse_line 60 (start (codes "'a")) ≡ crashed
unfolding parse_line parse_list next get_char peek_char is_delimiter get_word_helper next_token
    parse_simple_command parse_assignement token_is_word unget mem_type unget_token set_prompt
    word_from_token next_word parse_redirs
parse_crash = refl

-- The state after the parse of a line that fails.
abbrev after_error : Text → State
after_error text = state_of (parse_line 40 (start text))
  where
    state_of : Outcome Node → State
    state_of (failed s) = s
    state_of _ = start text

parse_line-parser_error_example : (after_error (codes "(a")).parser_error ≡ true
unfolding parse_line parse_list next get_char peek_char is_delimiter get_word_helper next_token
    parse_simple_command parse_assignement token_is_word unget mem_type unget_token set_prompt
    word_from_token next_word parse_redirs expect_token skip_newlines
parse_line-parser_error_example =
    parse_line-parser_error 40 (start (codes "(a")) (after_error (codes "(a")) refl
