-- ===== src/Lexer/Word.antt =====
-- `get_word_helper` of src/lexer.c: reads a word, turning quotes into CTLQUOT and CTLESC marks.
use tash.Base.{
  ℕ, zero, suc, ◌+◌, Bool, true, false, not, ◌&&◌, ◌||◌, Option, none, some, [], ◌∷◌, ◌++◌, ◌==◌,
  if◌then◌else◌, Text,
}
use tash.Glob.Pattern.{ctlesc, ctlquot}
use tash.Lexer.Source.{Source, get_char, unget_char, peek_char, is_char, is_delimiter}

-- What the helper works on: the source, the vector `buf`, and the flag WORD_HAS_QUOTE of `flags`.
pub record Scan : Type 0 where
  pub src : Source
  pub buf : Text
  pub quoted : Bool

-- APPEND(c)
abbrev pub append : ℕ → Scan → Scan
append c w = record w { buf = w.buf ++ (c ∷ []) }

abbrev pub append_if : Bool → ℕ → Scan → Scan
append_if true c w = append c w
append_if false c w = w

-- APPEND of what a read gave.
abbrev append_char : Option ℕ → Scan → Scan
append_char none w = w
append_char (some c) w = append c w

abbrev fail : Scan → Scan
fail w = record w { src = record w.src { error = true } }

-- What one round of the loop does: return, go on with this quote, or first read a nested part up
-- to `end` with this `is_subshell`, and then go on with this quote.
pub data Action : Type 0 where
  return : Scan → Action
  onward : ℕ → Scan → Action
  nested : ℕ → ℕ → ℕ → Scan → Action

-- A character that stands for itself inside quotes: `if (!is_subshell) APPEND(CTLESC); APPEND(c);`.
abbrev protect : ℕ → ℕ → Scan → Scan
protect c sub w = append c (append_if (sub == 0) ctlesc w)

-- The cases '\'' and '"', for the quotation mark `c`.
quote_mark : ℕ → ℕ → ℕ → Scan → Action
quote_mark c quote sub w =
    if not (quote == 0) && not (quote == c)
    then onward quote (protect c sub w)
    else onward (if quote == c then 0 else c)
        (if sub == 0 then append ctlquot (record w { quoted = true }) else append c w)

-- The end of the case '\\': the character behind it is taken as it is, a newline is dropped.
take_escaped : ℕ → ℕ → Scan → Action
take_escaped quote sub w =
    let (c, src) = get_char w.src in
    let w' : Scan = record w { src = src } in
    elim c [
      | none ↦ onward quote w'
      | some d ↦
          if d == b'\n'
          then onward quote w'
          else onward quote (append d (append (if sub == 0 then ctlesc else b'\\') w'))
    ]

-- The characters that a backslash quotes between double quotes.
is_escapable : Option ℕ → Bool
is_escapable c =
    is_char c b'$' || is_char c b'"' || is_char c b'`' || is_char c b'\\' || is_char c b'\n'

backslash : ℕ → ℕ → Scan → Action
unfolding take_escaped is_escapable
backslash quote sub w =
    let (c, src) = peek_char w.src in
    let w' : Scan = record w { src = src } in
    if quote == b'\''
    then onward quote (append b'\\' w)
    else if quote == b'"'
    then (if is_escapable c then take_escaped quote sub w' else onward quote (append b'\\' w'))
    else take_escaped quote sub w

dollar : ℕ → ℕ → Scan → Action
dollar quote sub w =
    let (next, src) = peek_char w.src in
    let w' : Scan = append b'$' (record w { src = src }) in
    let (c, src') = get_char w'.src in
    let taken : Scan = append_char c (record w' { src = src' }) in
    if quote == b'\''
    then onward quote (protect b'$' sub w)
    else if is_char next b'('
    then nested quote b')' 1 taken
    else if is_char next b'{'
    then nested quote b'}' (if sub == 0 then 0 else sub + 1) w'
    else if is_char next b'*' || is_char next b'?'
    then onward quote taken
    else onward quote w'

backtick : ℕ → ℕ → Scan → Action
backtick quote sub w =
    if quote == b'\''
    then onward quote (protect b'`' sub w)
    else nested quote b'`' 1 (append b'`' w)

open_paren : ℕ → ℕ → Scan → Action
open_paren quote sub w =
    if not (sub == 1) || not (quote == 0)
    then onward quote (append b'(' w)
    else nested quote b')' 1 (append b'(' w)

is_splitting : ℕ → Bool
is_splitting c = c == b'*' || c == b'?' || c == b' ' || c == b'\t' || c == b'\n'

-- The switch.
unfoldable pub switch : ℕ → ℕ → ℕ → Scan → Action
unfolding quote_mark backslash dollar backtick open_paren is_splitting
switch c quote sub w =
    if c == b'\'' || c == b'"'
    then quote_mark c quote sub w
    else if c == b'\\'
    then backslash quote sub w
    else if c == b'$'
    then dollar quote sub w
    else if is_splitting c
    then onward quote (append c (append_if (not (quote == 0) && sub == 0) ctlesc w))
    else if c == b'('
    then open_paren quote sub w
    else if c == b'`'
    then backtick quote sub w
    else if c == ctlesc || c == ctlquot
    then onward quote (protect c sub w)
    else onward quote (append c w)

-- A round of the loop, at the character `c`: the three tests above the switch, and the switch.
unfoldable pub round : Option ℕ → ℕ → ℕ → ℕ → Scan → Action
unfolding switch
round c quote end sub w =
    if quote == 0 && is_delimiter c && end == 0
    then return (record w { src = unget_char c w.src })
    else if quote == 0 && is_char c end
    then return (append end w)
    else (elim c [
      | none ↦ return (if not (quote == 0) || not (end == 0) then fail w else w)
      | some d ↦ switch d quote sub w
    ])

-- A run of the helper; `none` means that the fuel ran out.
abbrev pub Helper : Type 0
Helper = Option ℕ → ℕ → ℕ → ℕ → Scan → Option Scan

-- `c = get_char(src)`, and the loop or the nested call at that character.
abbrev pub read_on : Helper → ℕ → ℕ → ℕ → Scan → Option Scan
read_on helper quote end sub w =
    let (c, src) = get_char w.src in helper c quote end sub (record w { src = src })

unfoldable pub after_nested : Helper → ℕ → ℕ → ℕ → Option Scan → Option Scan
after_nested helper quote end sub none = none
after_nested helper quote end sub (some w) =
    if w.src.error then some w else read_on helper quote end sub w

unfoldable pub act : Action → ℕ → ℕ → Helper → Option Scan
unfolding after_nested
act (return w) end sub helper = some w
act (onward quote w) end sub helper = read_on helper quote end sub w
act (nested quote end' sub' w) end sub helper =
    after_nested helper quote end sub (read_on helper 0 end' sub' w)

-- `get_word_helper(src, buf, flags, c, end, is_subshell)` starts with the quote 0.
unfoldable pub get_word_helper : ℕ → Helper
unfolding round act
get_word_helper zero c quote end sub w = none
get_word_helper (suc f) c quote end sub w =
    act (round c quote end sub w) end sub (get_word_helper f)
