-- ===== src/Parser/Runs.antt =====
-- Lines of the grammar, and runs of the parser (src/parser.c) that read them.
use tash.Base.{◌<◌, ◌≡◌, refl, ◌⊎◌, codes, Bool, true, false, none, [], ◌∷◌, Text, List, arith}
use tash.Lexer.Source.{source_of, get_char, peek_char, is_delimiter}
use tash.Lexer.Word.{get_word_helper}
use tash.Lexer.Token.{Token, token_is_word, t_word, t_and, t_newline}
use tash.Lexer.Next.{operator, next_token, unget_token}
use tash.Parser.Tree.{Node, cmd, and_then, subshell, new_node}
use tash.Parser.State.{
  State, Outcome, done, failed, next, unget, expect_token, skip_newlines, set_prompt,
  word_from_token, next_word,
}
use tash.Parser.Command.{parse_simple_command, parse_assignement, parse_redirs}
use tash.Parser.Descent.{parse_list, parse_line, mem_type}
use tash.Parser.Streams.{Ready, Ends, at}
use tash.Parser.Phrases.{no_assigns, word_first, no_args, simple}
use tash.Parser.Grammar.{Line, a_line, logic, plain, unpiped, both, no_logic, words}
use tash.Parser.Lines.{line_cost, parse_line-Line}
use tash.Parser.SoundLines.{Line-parse_line}

abbrev start : Text → State
start text = record { src = source_of text; parser_error = false; prompt = 1 }

abbrev one_word : Text → Node
one_word t = new_node (cmd (record { text = t; quoted = false } ∷ []) [])

abbrev word_token : Text → Token
word_token t = record { value = t; type = t_word; digit = none; quoted = false }

-- `a && b` and a newline, as the lexer's tokens, and as a line of the grammar.
abbrev a_and_b : Text
a_and_b = codes "a && b\n"

abbrev a_and_b_tokens : List Token
a_and_b_tokens =
    word_token (codes "a")
    ∷ operator t_and none
    ∷ word_token (codes "b")
    ∷ operator t_newline none
    ∷ []

abbrev a_and_b_tree : Node
a_and_b_tree = new_node (and_then (one_word (codes "a")) (one_word (codes "b")))

a_and_b-Ready : Ready a_and_b_tokens (start a_and_b).src
unfolding next_token get_char peek_char is_delimiter get_word_helper
a_and_b-Ready = (_, refl, refl, (_, refl, refl, (_, refl, refl, (_, refl, refl, tt))))

unfoldable a_and_b-Line : Line a_and_b_tokens a_and_b_tree []
unfolding token_is_word parse_assignement word_from_token
a_and_b-Line =
    a_line (at refl) refl
      (logic
        (plain refl (
          unpiped
            (words (at refl) refl refl
              (simple (no_assigns refl) (word_first refl (no_args refl refl))))
            refl))
        (both refl
          (plain refl (
            unpiped
              (words (at refl) refl refl
                (simple (no_assigns refl) (word_first refl (no_args refl refl))))
              refl))
          (no_logic refl refl)))
      refl

a_and_b-below : line_cost a_and_b-Line < 60
unfolding a_and_b-Line
a_and_b-below = omega arith

parse_line-Line_example : Ends (parse_line 60 (start a_and_b)) a_and_b_tree (Ready [])
parse_line-Line_example =
    parse_line-Line a_and_b_tokens [] a_and_b_tree a_and_b-Line 60 (start a_and_b) a_and_b-below
      a_and_b-Ready

-- A subshell on a line, with one more word behind it, and the state there.
abbrev in_parentheses : Text
in_parentheses = codes "(a)\nb"

abbrev behind : State
behind = state_of (parse_line 40 (start in_parentheses))
  where
    state_of : Outcome Node → State
    state_of (done n s) = s
    state_of _ = start []

abbrev in_parentheses_tree : Node
in_parentheses_tree = new_node (subshell (one_word (codes "a")))

abbrev next_word_tokens : List Token
next_word_tokens = word_token (codes "b") ∷ []

Line-parse_line_example :
    (ts : List Token) × (rest : List Token) × Ready ts (start in_parentheses).src
    × Line ts in_parentheses_tree rest
    × Ready rest behind.src
    × ((next_word_tokens ≡ []) ⊎ (next_word_tokens ≡ rest))
unfolding parse_line parse_list next get_char peek_char is_delimiter get_word_helper next_token
    parse_simple_command parse_assignement token_is_word unget mem_type unget_token set_prompt
    word_from_token next_word parse_redirs expect_token skip_newlines
Line-parse_line_example =
    Line-parse_line 40 (start in_parentheses) behind in_parentheses_tree next_word_tokens refl
      (_, refl, refl, tt)

abbrev fails : Outcome Node → Bool
fails (failed _) = true
fails _ = false

-- `!` on a line of its own behind `&&`.
parse_bang_run : fails (parse_line 40 (start (codes "a &&\n! b\n"))) ≡ true
unfolding parse_line parse_list next get_char peek_char is_delimiter get_word_helper next_token
    parse_simple_command parse_assignement token_is_word unget mem_type unget_token set_prompt
    word_from_token next_word parse_redirs expect_token skip_newlines
parse_bang_run = refl
