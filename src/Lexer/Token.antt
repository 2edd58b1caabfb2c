-- ===== src/Lexer/Token.antt =====
-- The tokens of include/tash.h, and what src/lexer.c says of them.
use tash.Base.{ℕ, Bool, ◌||◌, Option, ◌==◌, leb, if◌then◌else◌, Text, codes, length}

-- `value` is empty where the C field is NULL (every token but a word), `digit` is `none` for -1,
-- and `quoted` is the flag WORD_HAS_QUOTE.
pub record Token : Type 0 where
  pub value : Text
  pub type : ℕ
  pub digit : Option ℕ
  pub quoted : Bool

abbrev pub t_null : ℕ
t_null = 0

abbrev pub t_word : ℕ
t_word = 1

abbrev pub t_and : ℕ
t_and = 2

abbrev pub t_or : ℕ
t_or = 3

abbrev pub t_eof : ℕ
t_eof = 4

abbrev pub t_append : ℕ
t_append = 5

abbrev pub t_dup_out : ℕ
t_dup_out = 6

abbrev pub t_dup_in : ℕ
t_dup_in = 7

abbrev pub t_dsemi : ℕ
t_dsemi = 8

abbrev pub t_pipe : ℕ
t_pipe = b'|'

abbrev pub t_bg : ℕ
t_bg = b'&'

abbrev pub t_open_paren : ℕ
t_open_paren = b'('

abbrev pub t_close_paren : ℕ
t_close_paren = b')'

abbrev pub t_semi_colon : ℕ
t_semi_colon = b';'

abbrev pub t_inferior : ℕ
t_inferior = b'<'

abbrev pub t_superior : ℕ
t_superior = b'>'

abbrev pub t_newline : ℕ
t_newline = b'\n'

abbrev pub t_keyword : ℕ
t_keyword = 255

abbrev pub t_if : ℕ
t_if = 256

abbrev pub t_then : ℕ
t_then = 257

abbrev pub t_else : ℕ
t_else = 258

abbrev pub t_elif : ℕ
t_elif = 259

abbrev pub t_fi : ℕ
t_fi = 260

abbrev pub t_for : ℕ
t_for = 261

abbrev pub t_in : ℕ
t_in = 262

abbrev pub t_do : ℕ
t_do = 263

abbrev pub t_done : ℕ
t_done = 264

abbrev pub t_while : ℕ
t_while = 265

abbrev pub t_until : ℕ
t_until = 266

abbrev pub t_case : ℕ
t_case = 267

abbrev pub t_esac : ℕ
t_esac = 268

abbrev pub t_open_braces : ℕ
t_open_braces = 269

abbrev pub t_close_braces : ℕ
t_close_braces = 270

abbrev pub t_bang : ℕ
t_bang = 271

unfoldable pub token_name : ℕ → Text
token_name t =
    if t == t_word
    then codes "<word>"
    else if t == t_newline
    then codes "<newline>"
    else if t == t_eof
    then codes "<eof>"
    else if t == t_bg
    then codes "&"
    else if t == t_pipe
    then codes "|"
    else if t == t_semi_colon
    then codes ";"
    else if t == t_and
    then codes "&&"
    else if t == t_or
    then codes "||"
    else if t == t_dsemi
    then codes ";;"
    else if t == t_inferior
    then codes "<"
    else if t == t_superior
    then codes ">"
    else if t == t_append
    then codes ">>"
    else if t == t_dup_in
    then codes "<&"
    else if t == t_dup_out
    then codes ">&"
    else if t == t_open_paren
    then codes "("
    else if t == t_close_paren
    then codes ")"
    else if t == t_if
    then codes "if"
    else if t == t_then
    then codes "then"
    else if t == t_elif
    then codes "elif"
    else if t == t_else
    then codes "else"
    else if t == t_fi
    then codes "fi"
    else if t == t_while
    then codes "while"
    else if t == t_until
    then codes "until"
    else if t == t_do
    then codes "do"
    else if t == t_done
    then codes "done"
    else if t == t_in
    then codes "in"
    else if t == t_case
    then codes "case"
    else if t == t_esac
    then codes "esac"
    else if t == t_open_braces
    then codes "{"
    else if t == t_close_braces
    then codes "}"
    else if t == t_bang
    then codes "!"
    else codes "unknow"

unfoldable pub token_len : Token → ℕ
unfolding token_name
token_len t =
    if t.type == t_word
    then length t.value
    else if t.type == t_newline
    then 1
    else if t.type == t_eof
    then 0
    else length (token_name t.type)

unfoldable pub token_is_word : Token → Bool
token_is_word t = leb t_keyword t.type || t.type == t_word
