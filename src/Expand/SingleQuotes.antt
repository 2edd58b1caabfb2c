-- ===== src/Expand/SingleQuotes.antt =====
-- A single-quoted text from the lexer (src/lexer.c) through the expansion (src/expand.c).
use tash.Base.{
  ℕ, zero, suc, ◌+◌, ◌-◌, ◌≤◌, ◌≡◌, refl, sym, ap, ◌∙◌, Bool, true, false, ◌||◌, Option, none, some,
  List, [], ◌∷◌, ◌++◌, append_assoc, ◌==◌, if◌then◌else◌, Text, All, arith, length, length-append,
}
use tash.Builtins.State.{ℤ}
use tash.Glob.Pattern.{ctlesc, ctlquot}
use tash.Lexer.Source.{Source, source_of, get_char, peek_char, is_delimiter, unget_char}
use tash.Lexer.Token.{Token, t_word}
use tash.Lexer.Word.{Scan, append, append_if, onward, switch, read_on, Helper, get_word_helper}
use tash.Lexer.Next.{
  token, next_token, next_token_within, remaining, token_at, word_token, finish_word,
}
use tash.Lexer.Comments.{ended}
use tash.Parser.Tree.{Node}
use tash.Parser.State.{word_from_token}
use tash.Expand.Shell.{Expanded, Shell, ok}
use tash.Expand.Split.{word_expansion}
use tash.Expand.Marks.{mark, IsClean, Covers}
use tash.Expand.Quoted.{Guards, between_quotes, word_expansion-literal}

-- The bytes that the lexer marks between single quotes.
abbrev pub is_quoted_mark : ℕ → Bool
is_quoted_mark c =
    c == b'"'
    || c == b'$'
    || c == b'*'
    || c == b'?'
    || c == b' '
    || c == b'\t'
    || c == b'\n'
    || c == b'`'
    || c == ctlesc
    || c == ctlquot

-- A text that can stand between single quotes: no quote in it, and no byte that reads as EOF.
abbrev pub IsQuotable : Text → Type 0
IsQuotable s = All (λ c. ((c == b'\'') ≡ false) × ((c == 255) ≡ false)) s

-- What follows the word: nothing, or a delimiter.
abbrev pub IsBoundary : Text → Type 0
IsBoundary [] = Unit
IsBoundary (d ∷ _) = (is_delimiter (some d) ≡ true) × ((d == 255) ≡ false)

-- The source once a word was read up to there.
abbrev pub after_word : Text → Source
after_word [] = ended
after_word (d ∷ rest) = record (source_of rest) { unget = some d }

abbrev scan_of : Text → Text → Bool → Scan
scan_of input buf quoted = record { src = source_of input; buf = buf; quoted = quoted }

switch-quoted :
    (c : ℕ) (w : Scan)
    → (c == b'\'') ≡ false
    → switch c b'\'' 0 w ≡ onward b'\'' (append c (append_if (is_quoted_mark c) ctlesc w))
unfolding switch
switch-quoted c w h = ground arith

get_word_helper-quoted :
    (f c : ℕ) (w : Scan)
    → (c == b'\'') ≡ false
    → get_word_helper (suc f) (some c) b'\'' 0 0 w
      ≡ read_on (get_word_helper f) b'\'' 0 0 (append c (append_if (is_quoted_mark c) ctlesc w))
unfolding get_word_helper
get_word_helper-quoted f c w h = rw (switch-quoted c w h) refl

get_word_helper-open :
    (f : ℕ) (w : Scan)
    → get_word_helper (suc f) (some b'\'') 0 0 0 w
      ≡ read_on (get_word_helper f) b'\'' 0 0 (append ctlquot (record w { quoted = true }))
unfolding get_word_helper is_delimiter
get_word_helper-open f w = refl

get_word_helper-close :
    (f : ℕ) (w : Scan)
    → get_word_helper (suc f) (some b'\'') b'\'' 0 0 w
      ≡ read_on (get_word_helper f) 0 0 0 (append ctlquot (record w { quoted = true }))
unfolding get_word_helper
get_word_helper-close f w = refl

get_char-cons :
    (c : ℕ) (input : Text)
    → (c == 255) ≡ false
    → get_char (source_of (c ∷ input)) ≡ (some c, source_of input)
unfolding get_char
get_char-cons c input h = ground arith

read_on-cons :
    (helper : Helper) (quote c : ℕ) (input buf : Text) (quoted : Bool)
    → (c == 255) ≡ false
    → read_on helper quote 0 0 (scan_of (c ∷ input) buf quoted)
      ≡ helper (some c) quote 0 0 (scan_of input buf quoted)
read_on-cons helper quote c input buf quoted h =
    ap
      (λ (r : Option ℕ × Source).
        helper r.0 quote 0 0 (record { src = r.1; buf = buf; quoted = quoted }))
      (get_char-cons c input h)

append-mark :
    (b : Bool) (c : ℕ) (input buf rest : Text)
    → (append c (append_if b ctlesc (scan_of input buf true))).buf ++ rest
      ≡ buf ++ (if b then ctlesc ∷ c ∷ rest else c ∷ rest)
append-mark true c input buf rest =
    append_assoc (buf ++ (ctlesc ∷ [])) (c ∷ []) rest ∙ append_assoc buf (ctlesc ∷ []) (c ∷ rest)
append-mark false c input buf rest = append_assoc buf (c ∷ []) rest

mark_then :
    (b : Bool) (c : ℕ) (m : Text)
    → (if b then ctlesc ∷ c ∷ m else c ∷ m) ++ (ctlquot ∷ [])
      ≡ (if b then ctlesc ∷ c ∷ (m ++ (ctlquot ∷ [])) else c ∷ (m ++ (ctlquot ∷ [])))
mark_then true c m = refl
mark_then false c m = refl

scan_of-append :
    (b : Bool) (c : ℕ) (input buf : Text)
    → append c (append_if b ctlesc (scan_of input buf true))
      ≡ scan_of input (append c (append_if b ctlesc (scan_of input buf true))).buf true
scan_of-append true c input buf = refl
scan_of-append false c input buf = refl

read_on-quoted :
    (f g : ℕ) (s rest buf : Text)
    → IsQuotable s
    → f ≡ length s + suc g
    → read_on (get_word_helper f) b'\'' 0 0 (scan_of (s ++ (b'\'' ∷ rest)) buf true)
      ≡ read_on
          (get_word_helper g)
          0
          0
          0
          (scan_of rest (buf ++ (mark is_quoted_mark s ++ (ctlquot ∷ []))) true)
unfolding mark
read_on-quoted zero g s rest buf q e = absurd (omega arith)
read_on-quoted (suc f) g [] rest buf q e =
    let same : f ≡ g = omega arith in
    read_on-cons (get_word_helper (suc f)) b'\'' b'\'' rest buf true refl
    ∙ get_word_helper-close f (scan_of rest buf true)
    ∙ ap (λ n. read_on (get_word_helper n) 0 0 0 (scan_of rest (buf ++ (ctlquot ∷ [])) true)) same
read_on-quoted (suc f) g (c ∷ s) rest buf q e =
    let input = s ++ (b'\'' ∷ rest) in
    let w = append c (append_if (is_quoted_mark c) ctlesc (scan_of input buf true)) in
    read_on-cons (get_word_helper (suc f)) b'\'' c input buf true q.0.1
    ∙ get_word_helper-quoted f c (scan_of input buf true) q.0.0
    ∙ ap (read_on (get_word_helper f) b'\'' 0 0) (scan_of-append (is_quoted_mark c) c input buf)
    ∙ read_on-quoted f g s rest w.buf q.1 (omega arith)
    ∙ ap (λ b. read_on (get_word_helper g) 0 0 0 (scan_of rest b true))
        (append-mark (is_quoted_mark c) c input buf (mark is_quoted_mark s ++ (ctlquot ∷ []))
          ∙ ap (λ t. buf ++ t) (sym (mark_then (is_quoted_mark c) c (mark is_quoted_mark s))))

get_word_helper-delimiter :
    (g d : ℕ) (w : Scan)
    → is_delimiter (some d) ≡ true
    → get_word_helper (suc g) (some d) 0 0 0 w ≡ some (record w { src = unget_char (some d) w.src })
unfolding get_word_helper
get_word_helper-delimiter g d w h = rw h refl

read_on-boundary :
    (g : ℕ) (rest buf : Text)
    → IsBoundary rest
    → read_on (get_word_helper (suc g)) 0 0 0 (scan_of rest buf true)
      ≡ some (record { src = after_word rest; buf = buf; quoted = true })
unfolding get_word_helper get_char is_delimiter unget_char
read_on-boundary g [] buf h = refl
read_on-boundary g (d ∷ rest) buf h =
    read_on-cons (get_word_helper (suc g)) 0 d rest buf true h.1
    ∙ get_word_helper-delimiter g d (scan_of rest buf true) h.0

peek-get :
    (c : ℕ) (input : Text)
    → (c == 255) ≡ false
    → get_char (peek_char (source_of (c ∷ input))).1 ≡ get_char (source_of (c ∷ input))
unfolding peek_char get_char unget_char
peek-get c input h = ground arith

-- The text behind the opening quote, which a peek does not change.
peek-quoted :
    (s rest : Text)
    → IsQuotable s
    → get_char (peek_char (source_of (s ++ (b'\'' ∷ rest)))).1
      ≡ get_char (source_of (s ++ (b'\'' ∷ rest)))
peek-quoted [] rest q = peek-get b'\'' rest refl
peek-quoted (c ∷ s) rest q = peek-get c (s ++ (b'\'' ∷ rest)) q.0.1

remaining-quoted :
    (s rest : Text)
    → IsQuotable s
    → length s + 1 ≤ remaining (peek_char (source_of (s ++ (b'\'' ∷ rest)))).1
unfolding peek_char get_char unget_char
remaining-quoted [] rest q = omega arith
remaining-quoted (c ∷ s) rest q = ground (arith, length-append s (b'\'' ∷ rest))

get_word_helper-single :
    (f : ℕ) (s rest : Text) (src : Source)
    → IsQuotable s
    → IsBoundary rest
    → get_char src ≡ get_char (source_of (s ++ (b'\'' ∷ rest)))
    → length s + 3 ≤ f
    → get_word_helper f (some b'\'') 0 0 0 (record { src = src; buf = []; quoted = false })
      ≡ some (record {
        src = after_word rest;
        buf = between_quotes (mark is_quoted_mark s);
        quoted = true;
      })
get_word_helper-single zero s rest src q b e h = absurd (omega arith)
get_word_helper-single (suc f) s rest src q b e h =
    let g = f - length s - 2 in
    get_word_helper-open f (record { src = src; buf = []; quoted = false })
    ∙ ap
        (λ (r : Option ℕ × Source).
          get_word_helper f r.0 b'\'' 0 0 (record { src = r.1; buf = ctlquot ∷ []; quoted = true }))
        e
    ∙ read_on-quoted f (suc g) s rest (ctlquot ∷ []) q (omega arith)
    ∙ read_on-boundary g rest (between_quotes (mark is_quoted_mark s)) b

next_token-quote :
    (f : ℕ) (t : Text)
    → next_token_within (suc f) (source_of (b'\'' ∷ t))
      ≡ word_token none (some b'\'') (peek_char (source_of t)).1
unfolding next_token_within get_char token_at
next_token-quote f t = refl

-- The token of a single-quoted word.
abbrev pub quoted_token : Text → Token
quoted_token s = record {
  value = between_quotes (mark is_quoted_mark s);
  type = t_word;
  digit = none;
  quoted = true;
}

finish_quoted :
    (s rest : Text)
    → finish_word none (
        some (record {
          src = after_word rest;
          buf = between_quotes (mark is_quoted_mark s);
          quoted = true;
        }))
      ≡ token (quoted_token s) (after_word rest)
unfolding finish_word
finish_quoted s [] = refl
finish_quoted s (d ∷ rest) = refl

pub next_token-single :
    (s rest : Text)
    → IsQuotable s
    → IsBoundary rest
    → next_token (source_of (b'\'' ∷ (s ++ (b'\'' ∷ rest))))
      ≡ token (quoted_token s) (after_word rest)
unfolding next_token word_token
next_token-single s rest q b =
    let t = s ++ (b'\'' ∷ rest) in
    let n = remaining (source_of (b'\'' ∷ t)) in
    let fuel : n + 2 ≡ suc (n + 1) = omega arith in
    ap (λ f. next_token_within f (source_of (b'\'' ∷ t))) fuel
    ∙ next_token-quote (n + 1) t
    ∙ ap (finish_word none) (
        get_word_helper-single (remaining (peek_char (source_of t)).1 + 2) s rest
          (peek_char (source_of t)).1 q b (peek-quoted s rest q)
          (let h = remaining-quoted s rest q in omega arith))
    ∙ finish_quoted s rest

is_quoted_mark-Covers : Covers is_quoted_mark
is_quoted_mark-Covers c h = ground arith

is_quoted_mark-Guards : Guards is_quoted_mark
is_quoted_mark-Guards c h = ground arith

-- A text in single quotes, before a delimiter or at the end of the input, is one word token, with
-- the source left behind it; and that word expands to the text itself as the only field and leaves
-- the shell as it was, whatever the variables, flags and files are and whether fields are split or
-- not. The text holds no single quote, no byte 255 and no CTLESC, the delimiter is not byte 255,
-- and the fuel of the expansion is above the length of the text by four at least.
pub single_quotes_literal :
    (number : ℤ → Text) (child : Node → Shell → Expanded (List Text)) (files : Text → List Text)
    (f : ℕ) (s rest : Text) (split : Bool) (sh : Shell)
    → IsQuotable s
    → IsClean s
    → IsBoundary rest
    → length s + 4 ≤ f
    → (next_token (source_of (b'\'' ∷ (s ++ (b'\'' ∷ rest))))
        ≡ token (quoted_token s) (after_word rest))
      × (word_expansion number child files f (word_from_token (quoted_token s) ∷ []) split sh
          ≡ ok (s ∷ []) sh)
unfolding word_from_token
single_quotes_literal number child files f s rest split sh q clean b h = (
  next_token-single s rest q b,
  word_expansion-literal number child files is_quoted_mark f (word_from_token (quoted_token s)) s
      split sh is_quoted_mark-Covers is_quoted_mark-Guards refl refl clean h,
)
