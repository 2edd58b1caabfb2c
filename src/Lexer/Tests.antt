-- ===== src/Lexer/Tests.antt =====
-- Runs of the lexer on small scripts.
use tash.Base.{◌≡◌, refl, codes, Text, ◌≤◌, arith, false, none, some, [], ◌∷◌, ℕ, List, zero, suc}
use tash.Lexer.Source.{source_of, Source, get_char, peek_char, is_delimiter}
use tash.Lexer.Word.{Scan, get_word_helper}
use tash.Lexer.Token.{t_newline}
use tash.Lexer.Next.{
  token, null, endless, operator, next_token, next_token_within, remaining, discard_line,
}
use tash.Lexer.Progress.{get_word_helper-Terminates}
use tash.Lexer.Comments.{next_token-comment_at_end, next_token-comment, discard_line-line}

-- The types of the tokens of a source; 1000 stands for NULL and 2000 for a loop without an end.
abbrev types_of : ℕ → Source → List ℕ
types_of zero src = []
types_of (suc f) src = elim (next_token src) [
  | token t rest ↦ t.type ∷ types_of f rest
  | null rest ↦ 1000 ∷ []
  | endless ↦ 2000 ∷ []
]

tokens_of_a_line :
    types_of 9 (source_of (codes "if a'b c' && 2>x # foo\n$(a b)"))
    ≡ 256 ∷ 1 ∷ 2 ∷ 62 ∷ 1 ∷ 10 ∷ 1 ∷ 4 ∷ 4 ∷ []
unfolding next_token get_char peek_char is_delimiter get_word_helper
tokens_of_a_line = refl

comment_at_the_end : types_of 9 (source_of (codes "a # foo")) ≡ 1 ∷ 2000 ∷ []
unfolding next_token get_char peek_char is_delimiter get_word_helper
comment_at_the_end = refl

quote_at_the_end : types_of 9 (source_of (codes "a 'foo")) ≡ 1 ∷ 1000 ∷ []
unfolding next_token get_char peek_char is_delimiter get_word_helper
quote_at_the_end = refl

abbrev fresh : Text → Scan
fresh text = record { src = source_of text; buf = []; quoted = false }

get_word_helper-Terminates_example :
    (after : Scan) × (get_word_helper 7 (some b'a') 0 0 0 (fresh (codes "\"b\" c")) ≡ some after)
    × (remaining after.src ≤ 6)
get_word_helper-Terminates_example =
    get_word_helper-Terminates 7 (some b'a') 0 0 0 (fresh (codes "\"b\" c")) (omega arith)

next_token-comment_at_end_example : next_token_within 99 (source_of (codes "#a")) ≡ endless
next_token-comment_at_end_example = next_token-comment_at_end 99 (codes "a") ((refl, refl), tt)

next_token-comment_example :
    next_token (source_of (codes "#a\nb")) ≡ token (operator t_newline none) (source_of (codes "b"))
next_token-comment_example = next_token-comment (codes "a") (codes "b") ((refl, refl), tt)

discard_line-line_example : discard_line 99 (source_of (codes "a")) ≡ none
discard_line-line_example = discard_line-line 99 (codes "a") none ((refl, refl), tt)
