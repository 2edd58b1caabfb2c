-- ===== src/Lexer/Source.antt =====
-- The character source (src/lexer.c, and `buf_getc` of src/parser.c). The end of the input, EOF, is
-- `none`. A byte 255 reads as EOF too, since `char` is signed and EOF is -1.
use tash.Base.{
  ℕ, Bool, true, false, ◌||◌, Option, none, some, [], ◌∷◌, ◌==◌, if◌then◌else◌, Text, codes,
}
use tash.Lexer.Token.{Token}

-- struct source over a buf_t: `input` is the part of the buffer that is not read yet.
pub record Source : Type 0 where
  pub input : Text
  pub unget : Option ℕ
  pub eof : Bool
  pub putback : Option Token
  pub error : Bool

-- A source over a string, as `eval` and `parse_list_buf` make it.
abbrev pub source_of : Text → Source
source_of text = record { input = text; unget = none; eof = false; putback = none; error = false }

-- src->get_char(src->data)
unfoldable pub buf_getc : Text → Option ℕ × Text
buf_getc [] = (none, [])
buf_getc (c ∷ cs) = (if c == 255 then none else some c, cs)

abbrev is_none : Option ℕ → Bool
is_none none = true
is_none (some _) = false

fresh_char : Source → Option ℕ × Source
unfolding buf_getc
fresh_char src =
    let (c, rest) = buf_getc src.input in (c, record src { input = rest; eof = is_none c })

ungotten_char : Option ℕ → Source → Option ℕ × Source
unfolding fresh_char
ungotten_char none src = fresh_char src
ungotten_char (some c) src = (some c, record src { unget = none })

unfoldable pub get_char : Source → Option ℕ × Source
unfolding ungotten_char
get_char src = if src.eof then (none, src) else ungotten_char src.unget src

unfoldable pub unget_char : Option ℕ → Source → Source
unget_char none src = src
unget_char (some c) src = record src { unget = some c }

unfoldable pub peek_char : Source → Option ℕ × Source
unfolding get_char unget_char
peek_char src = let (c, rest) = get_char src in (c, unget_char c rest)

-- Is the character this byte? No byte is EOF.
abbrev pub is_char : Option ℕ → ℕ → Bool
is_char none d = false
is_char (some c) d = c == d

abbrev mem_char : ℕ → Text → Bool
mem_char c [] = false
mem_char c (d ∷ ds) = c == d || mem_char c ds

-- `strchr` finds the terminator too: a NUL byte is a delimiter.
unfoldable pub is_delimiter : Option ℕ → Bool
is_delimiter none = true
is_delimiter (some c) = mem_char c (codes " \t&|<>()\n;") || c == 0
