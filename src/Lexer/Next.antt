-- ===== src/Lexer/Next.antt =====
-- `next_token`, `unget_token` and `discard_line` of src/lexer.c.
use tash.Base.{
  ℕ, zero, suc, ◌+◌, ◌-◌, Bool, true, false, ◌&&◌, ◌||◌, Option, none, some, [], ◌==◌, leb,
  if◌then◌else◌, Text, codes, same_text, length,
}
use tash.Lexer.Source.{Source, get_char, peek_char, is_char}
use tash.Lexer.Token.{
  Token, t_null, t_word, t_and, t_or, t_eof, t_append, t_dup_out, t_dup_in, t_dsemi, t_pipe, t_bg,
  t_open_paren, t_close_paren, t_semi_colon, t_inferior, t_superior, t_newline, t_if, t_then,
  t_else, t_elif, t_fi, t_for, t_in, t_do, t_done, t_while, t_until, t_case, t_esac, t_open_braces,
  t_close_braces, t_bang,
}
use tash.Lexer.Word.{Scan, get_word_helper}

-- A pointer to a token, or the NULL that a lexical error gives; `endless` is a call whose loop has
-- not ended within the fuel.
pub data Lexed : Type 0 where
  token : Token → Source → Lexed
  null : Source → Lexed
  endless : Lexed

-- The characters that are still to be read.
abbrev pub ungotten : Option ℕ → ℕ
ungotten none = 0
ungotten (some _) = 1

abbrev pub remaining : Source → ℕ
remaining src = length src.input + ungotten src.unget

-- `while (c == ' ' || c == '\t' || c == '#' || in_comment)`
unfoldable pub is_skipped : Option ℕ → Bool → Bool
is_skipped c in_comment = is_char c b' ' || is_char c b'\t' || is_char c b'#' || in_comment

-- The loop, at the character `c`.
unfoldable pub skip_spaces : ℕ → Option ℕ → Bool → Source → Option (Option ℕ × Source)
unfolding is_skipped
skip_spaces zero c in_comment src = none
skip_spaces (suc f) c in_comment src =
    let (next, src') = get_char src in
    let now = in_comment || is_char c b'#' in
    let rest = skip_spaces f next (if is_char next b'\n' then false else now) src' in
    if is_skipped c in_comment then rest else some (c, src)

-- The words that are reserved, and T_WORD for every other.
unfoldable pub reserved_word : Text → ℕ
reserved_word s =
    if same_text s (codes "if")
    then t_if
    else if same_text s (codes "then")
    then t_then
    else if same_text s (codes "else")
    then t_else
    else if same_text s (codes "elif")
    then t_elif
    else if same_text s (codes "fi")
    then t_fi
    else if same_text s (codes "for")
    then t_for
    else if same_text s (codes "in")
    then t_in
    else if same_text s (codes "do")
    then t_do
    else if same_text s (codes "done")
    then t_done
    else if same_text s (codes "while")
    then t_while
    else if same_text s (codes "until")
    then t_until
    else if same_text s (codes "case")
    then t_case
    else if same_text s (codes "esac")
    then t_esac
    else if same_text s (codes "{")
    then t_open_braces
    else if same_text s (codes "}")
    then t_close_braces
    else if same_text s (codes "!")
    then t_bang
    else t_word

-- An operator token.
abbrev pub operator : ℕ → Option ℕ → Token
operator type digit = record { value = []; type = type; digit = digit; quoted = false }

-- The operators of one character, which need no second one.
unfoldable pub single_operator : Option ℕ → ℕ
single_operator none = t_eof
single_operator (some c) =
    if c == b'('
    then t_open_paren
    else if c == b')'
    then t_close_paren
    else if c == b'\n'
    then t_newline
    else t_null

-- The other operators, by their character and the next: the type, and whether the next character
-- belongs to it; T_NULL where a word begins.
unfoldable pub double_operator : Option ℕ → Option ℕ → ℕ × Bool
double_operator c c2 =
    if is_char c b';'
    then (if is_char c2 b';' then (t_dsemi, true) else (t_semi_colon, false))
    else if is_char c b'&'
    then (if is_char c2 b'&' then (t_and, true) else (t_bg, false))
    else if is_char c b'|'
    then (if is_char c2 b'|' then (t_or, true) else (t_pipe, false))
    else if is_char c b'<'
    then (if is_char c2 b'&' then (t_dup_in, true) else (t_inferior, false))
    else if is_char c b'>'
    then (if is_char c2 b'>'
        then (t_append, true)
        else if is_char c2 b'&'
        then (t_dup_out, true)
        else (t_superior, false))
    else if is_char c b'\r'
    then (t_newline, is_char c2 b'\n')
    else (t_null, false)

-- The token of the word read.
unfoldable pub finish_word : Option ℕ → Option Scan → Lexed
unfolding reserved_word
finish_word digit none = endless
finish_word digit (some w) =
    if w.src.error
    then null w.src
    else token
        (record { value = w.buf; type = reserved_word w.buf; digit = digit; quoted = w.quoted })
        w.src

unfoldable pub word_token : Option ℕ → Option ℕ → Source → Lexed
unfolding finish_word
word_token digit c src =
    finish_word digit
      (get_word_helper (remaining src + 2) c 0 0 0 (record { src = src; buf = []; quoted = false }))

-- From the second switch on: an operator, or a word.
unfoldable pub operator_or_word : Option ℕ → Option ℕ → Option ℕ → Source → Lexed
unfolding double_operator word_token
operator_or_word digit c c2 src =
    let (type, takes) = double_operator c c2 in
    let src' = (get_char src).1 in
    if type == t_null
    then word_token digit c src
    else token (operator type digit) (if takes then src' else src)

unfoldable pub is_digit : Option ℕ → Bool
is_digit none = false
is_digit (some c) = leb b'0' c && leb c b'9'

abbrev pub digit_value : Option ℕ → Option ℕ
digit_value none = none
digit_value (some c) = some (c - b'0')

-- `c = get_char(src); c2 = peek_char(src);`
unfoldable pub after_digit : Option ℕ → Source → Lexed
unfolding operator_or_word
after_digit digit src =
    let (c, src') = get_char src in
    let (c2, src'') = peek_char src' in operator_or_word digit c c2 src''

-- From the first switch on, at the first character behind the spaces.
unfoldable pub token_at : Option ℕ → Source → Lexed
unfolding single_operator after_digit operator_or_word is_digit
token_at c src =
    let (c2, src') = peek_char src in
    let type = single_operator c in
    if type == t_null
    then (if is_digit c && (is_char c2 b'>' || is_char c2 b'<')
        then after_digit (digit_value c) src'
        else operator_or_word none c c2 src')
    else token (operator type none) src

unfoldable pub at_skipped : Option (Option ℕ × Source) → Lexed
unfolding token_at
at_skipped none = endless
at_skipped (some (c, src)) = token_at c src

unfoldable pub fresh_token : ℕ → Source → Lexed
unfolding at_skipped skip_spaces
fresh_token f src = let (c, src') = get_char src in at_skipped (skip_spaces f c false src')

-- `f` bounds the rounds of the loop that skips spaces and comments.
unfoldable pub next_token_within : ℕ → Source → Lexed
unfolding fresh_token
next_token_within f src = elim src.putback [
  | some t ↦ token t (record src { putback = none })
  | none ↦ fresh_token f src
]

-- Enough for every source whose comments end in a newline.
unfoldable pub next_token : Source → Lexed
unfolding next_token_within
next_token src = next_token_within (remaining src + 2) src

unfoldable pub unget_token : Source → Token → Source
unget_token src t = record src { putback = some t }

-- `while (get_char(src) != '\n');`, with `none` where it has not ended.
unfoldable pub skip_line : ℕ → Source → Option Source
skip_line zero src = none
skip_line (suc f) src =
    let (c, src') = get_char src in
    let rest = skip_line f src' in if is_char c b'\n' then some src' else rest

unfoldable pub discard_line : ℕ → Source → Option Source
unfolding skip_line
discard_line f src = skip_line f (record src { putback = none })
