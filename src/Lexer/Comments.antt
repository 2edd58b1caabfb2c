-- ===== src/Lexer/Comments.antt =====
-- Comments, and the rest of a line after a syntax error (src/lexer.c).
use tash.Base.{
  ℕ, zero, suc, ◌+◌, ◌≤◌, ◌<◌, ◌≡◌, refl, true, false, Option, none, some, [], ◌∷◌, ◌++◌, ◌==◌,
  arith, length, length-append, All, Text,
}
use tash.Lexer.Source.{Source, source_of, get_char}
use tash.Lexer.Token.{Token, t_newline}
use tash.Lexer.Next.{
  token, endless, operator, skip_spaces, token_at, next_token_within, next_token, skip_line,
  discard_line,
}

-- A text on one line, with no byte that reads as EOF.
abbrev pub IsLine : Text → Type 0
IsLine s = All (λ c. ((c == b'\n') ≡ false) × ((c == 255) ≡ false)) s

-- A source that has come to its end.
abbrev pub ended : Source
ended = record (source_of []) { eof = true }

skip_spaces-ended : (f : ℕ) → skip_spaces f none true ended ≡ none
unfolding skip_spaces get_char
skip_spaces-ended zero = refl
skip_spaces-ended (suc f) = skip_spaces-ended f

skip_spaces-line :
    (f : ℕ) (c : ℕ) (s : Text) → IsLine s → skip_spaces f (some c) true (source_of s) ≡ none
unfolding skip_spaces get_char
skip_spaces-line zero c s h = refl
skip_spaces-line (suc f) c [] h = ground (arith, skip_spaces-ended f)
skip_spaces-line (suc f) c (d ∷ s) h = ground (arith, skip_spaces-line f d s h.1)

skip_spaces-comment :
    (f : ℕ) (c : ℕ) (s rest : Text)
    → IsLine s
    → length s + 2 ≤ f
    → skip_spaces f (some c) true (source_of (s ++ (b'\n' ∷ rest)))
      ≡ some (some b'\n', source_of rest)
unfolding skip_spaces get_char
skip_spaces-comment zero c s rest h l = absurd (omega arith)
skip_spaces-comment (suc zero) c s rest h l = absurd (omega arith)
skip_spaces-comment (suc (suc f)) c [] rest h l = ground arith
skip_spaces-comment (suc (suc f)) c (d ∷ s) rest h l =
    ground (arith, skip_spaces-comment (suc f) d s rest h.1)

skip_spaces-hash :
    (f : ℕ) (src : Source)
    → skip_spaces f (some b'#') false src ≡ skip_spaces f (some b'#') true src
unfolding skip_spaces
skip_spaces-hash zero src = refl
skip_spaces-hash (suc f) src = ground arith

-- On a comment with no newline and no byte 255 in it, up to the end of the input, `next_token` does
-- not return, however many rounds its loop is given.
pub next_token-comment_at_end :
    (f : ℕ) (s : Text) → IsLine s → next_token_within f (source_of (b'#' ∷ s)) ≡ endless
unfolding next_token_within get_char
next_token-comment_at_end f s h =
    ground (arith, skip_spaces-hash f (source_of s), skip_spaces-line f b'#' s h)

-- At a comment without byte 255 that a newline ends, `next_token` returns the token of that newline
-- and leaves the source right behind it.
pub next_token-comment :
    (s rest : Text)
    → IsLine s
    → next_token (source_of (b'#' ∷ (s ++ (b'\n' ∷ rest))))
      ≡ token (operator t_newline none) (source_of rest)
unfolding next_token get_char token_at
next_token-comment s rest h = ground (
  arith,
  skip_spaces-hash (length (s ++ (b'\n' ∷ rest)) + 1 + 0 + 2) (source_of (s ++ (b'\n' ∷ rest))),
  skip_spaces-comment (length (s ++ (b'\n' ∷ rest)) + 1 + 0 + 2) b'#' s rest h,
  length-append s (b'\n' ∷ rest),
)

skip_line-ended : (f : ℕ) → skip_line f ended ≡ none
unfolding skip_line get_char
skip_line-ended zero = refl
skip_line-ended (suc f) = skip_line-ended f

skip_line-line : (f : ℕ) (s : Text) → IsLine s → skip_line f (source_of s) ≡ none
unfolding skip_line get_char
skip_line-line zero s h = refl
skip_line-line (suc f) [] h = skip_line-ended f
skip_line-line (suc f) (d ∷ s) h = ground (arith, skip_line-line f s h.1)

-- Where the rest of the input has no newline and no byte 255, `discard_line` does not return,
-- however many rounds its loop is given, and whether or not a token was put back.
pub discard_line-line :
    (f : ℕ) (s : Text) (put : Option Token)
    → IsLine s
    → discard_line f (record (source_of s) { putback = put }) ≡ none
unfolding discard_line
discard_line-line f s put h = skip_line-line f s h

skip_line-newline :
    (f : ℕ) (s rest : Text)
    → IsLine s
    → length s < f
    → skip_line f (source_of (s ++ (b'\n' ∷ rest))) ≡ some (source_of rest)
unfolding skip_line get_char
skip_line-newline zero s rest h l = absurd (omega arith)
skip_line-newline (suc f) [] rest h l = refl
skip_line-newline (suc f) (d ∷ s) rest h l = ground (arith, skip_line-newline f s rest h.1)

-- On a line without byte 255 that a newline ends, `discard_line` returns, given more rounds than the
-- line is long: it forgets the token put back and leaves the source right behind that newline.
discard_line-newline :
    (f : ℕ) (s rest : Text) (put : Option Token)
    → IsLine s
    → length s < f
    → discard_line f (record (source_of (s ++ (b'\n' ∷ rest))) { putback = put })
      ≡ some (source_of rest)
unfolding discard_line
discard_line-newline f s rest put h l = skip_line-newline f s rest h l
