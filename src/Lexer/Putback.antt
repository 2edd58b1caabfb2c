-- ===== src/Lexer/Putback.antt =====
-- The token put back (src/lexer.c): only `unget_token` sets it, and behind `next_token` there is
-- none.
use tash.Base.{
  ℕ, zero, suc, ◌+◌, ◌≡◌, refl, subst, ◌∙◌, Bool, true, false, not, ◌&&◌, ◌||◌, Option, none, some,
  ◌==◌, [], if◌then◌else◌, if_intro, arith,
}
use tash.Lexer.Source.{Source, get_char, unget_char, peek_char, is_char, is_delimiter}
use tash.Lexer.Token.{Token, t_null}
use tash.Lexer.Word.{
  Scan, Action, return, onward, nested, switch, round, act, after_nested, read_on, Helper,
  get_word_helper,
}
use tash.Lexer.Next.{
  Lexed, token, null, endless, skip_spaces, finish_word, word_token, operator_or_word,
  double_operator, operator, single_operator, is_digit, digit_value, is_skipped, after_digit,
  token_at, at_skipped, fresh_token, next_token, remaining,
}

putback-get_char : (src : Source) → (get_char src).1.putback ≡ src.putback
unfolding get_char
putback-get_char src = ground arith

putback-peek_char : (src : Source) → (peek_char src).1.putback ≡ src.putback
unfolding peek_char
putback-peek_char src = ground arith

putback-unget_char : (c : Option ℕ) (src : Source) → (unget_char c src).putback ≡ src.putback
unfolding unget_char
putback-unget_char none src = refl
putback-unget_char (some c) src = refl

-- The token that is put back behind an action.
abbrev held : Action → Option Token
held (return w) = w.src.putback
held (onward _ w) = w.src.putback
held (nested _ _ _ w) = w.src.putback

held-switch : (c quote sub : ℕ) (w : Scan) → held (switch c quote sub w) ≡ w.src.putback
unfolding switch
held-switch c quote sub w =
    ground
      (arith, putback-get_char w.src, putback-peek_char w.src, putback-get_char (peek_char w.src).1)

held-round :
    (c : Option ℕ) (quote end sub : ℕ) (w : Scan) → held (round c quote end sub w) ≡ w.src.putback
unfolding round
held-round c quote end sub w =
    if_intro (λ (a : Action). held a ≡ w.src.putback) (quote == 0 && is_delimiter c && end == 0) _ _
      (λ _. putback-unget_char c w.src)
      (λ _.
        if_intro (λ (a : Action). held a ≡ w.src.putback) (quote == 0 && is_char c end) _ _
          (λ _. refl) (λ _. at_char c))
  where
    at_char :
        (c : Option ℕ)
        → held (elim c [
          | none ↦ return (
              if not (quote == 0) || not (end == 0)
              then record w { src = record w.src { error = true } }
              else w)
          | some d ↦ switch d quote sub w
        ])
          ≡ w.src.putback
    at_char none =
        if_intro (λ (v : Scan). v.src.putback ≡ w.src.putback) (not (quote == 0) || not (end == 0))
          _ _ (λ _. refl) (λ _. refl)
    at_char (some d) = held-switch d quote sub w

-- The helper, where it comes back, has this token put back.
abbrev Holds : Option Token → Option Scan → Type 0
Holds o none = Unit
Holds o (some w) = w.src.putback ≡ o

module _ (o : Option Token) (helper : Helper)
    (ih : (c : Option ℕ) (quote end sub : ℕ) (w : Scan)
      → w.src.putback ≡ o
      → Holds o (helper c quote end sub w)) where
  read_on-Holds :
      (quote end sub : ℕ) (w : Scan) → w.src.putback ≡ o → Holds o (read_on helper quote end sub w)
  read_on-Holds quote end sub w h = ih _ quote end sub _ (putback-get_char w.src ∙ h)

  after_nested-Holds :
      (quote end sub : ℕ) (r : Option Scan)
      → Holds o r
      → Holds o (after_nested helper quote end sub r)
  unfolding after_nested
  after_nested-Holds quote end sub none h = tt
  after_nested-Holds quote end sub (some w) h =
      if_intro (Holds o) w.src.error _ _ (λ _. h) (λ _. read_on-Holds quote end sub w h)

  act-Holds : (end sub : ℕ) (a : Action) → held a ≡ o → Holds o (act a end sub helper)
  unfolding act
  act-Holds end sub (return w) h = h
  act-Holds end sub (onward quote w) h = read_on-Holds quote end sub w h
  act-Holds end sub (nested quote end' sub' w) h =
      after_nested-Holds quote end sub _ (read_on-Holds 0 end' sub' w h)

helper-Holds :
    (f : ℕ) (o : Option Token) (c : Option ℕ) (quote end sub : ℕ) (w : Scan)
    → w.src.putback ≡ o
    → Holds o (get_word_helper f c quote end sub w)
unfolding get_word_helper
helper-Holds zero o c quote end sub w h = tt
helper-Holds (suc f) o c quote end sub w h =
    act-Holds o (get_word_helper f) (helper-Holds f o) end sub (round c quote end sub w)
      (held-round c quote end sub w ∙ h)

-- No token is put back.
unfoldable Clear : Lexed → Type 0
Clear (token t src) = src.putback ≡ none
Clear (null src) = Unit
Clear endless = Unit

finish_word-Clear :
    (digit : Option ℕ) (r : Option Scan) → Holds none r → Clear (finish_word digit r)
unfolding finish_word Clear
finish_word-Clear digit none h = tt
finish_word-Clear digit (some w) h = if_intro Clear w.src.error _ _ (λ _. tt) (λ _. h)

token-Clear : (t : Token) (src : Source) → src.putback ≡ none → Clear (token t src)
unfolding Clear
token-Clear t src h = h

operator_or_word-Clear :
    (digit c c2 : Option ℕ) (src : Source)
    → src.putback ≡ none
    → Clear (operator_or_word digit c c2 src)
unfolding operator_or_word word_token
operator_or_word-Clear digit c c2 src h =
    let (type, takes) = double_operator c c2 in
    let src' = if takes then (get_char src).1 else src in
    let scan : Scan = record { src = src; buf = []; quoted = false } in
    if_intro Clear (type == t_null) (word_token digit c src) (token (operator type digit) src')
      (λ _. finish_word-Clear digit _ (helper-Holds (remaining src + 2) none c 0 0 0 scan h))
      (λ _. token-Clear (operator type digit) src' (
        if_intro (λ (s : Source). s.putback ≡ none) takes (get_char src).1 src
          (λ _. putback-get_char src ∙ h) (λ _. h)))

after_digit-Clear :
    (digit : Option ℕ) (src : Source) → src.putback ≡ none → Clear (after_digit digit src)
unfolding after_digit
after_digit-Clear digit src h =
    let (c, src') = get_char src in
    let (c2, src'') = peek_char src' in
    operator_or_word-Clear digit c c2 src'' (putback-peek_char src' ∙ putback-get_char src ∙ h)

token_at-Clear : (c : Option ℕ) (src : Source) → src.putback ≡ none → Clear (token_at c src)
unfolding token_at
token_at-Clear c src h =
    let (c2, src') = peek_char src in
    let clear : src'.putback ≡ none = putback-peek_char src ∙ h in
    let type = single_operator c in
    if_intro Clear (type == t_null)
      (if is_digit c && (is_char c2 b'>' || is_char c2 b'<')
        then after_digit (digit_value c) src'
        else operator_or_word none c c2 src')
      (token (operator type none) src)
      (λ _.
        if_intro Clear (is_digit c && (is_char c2 b'>' || is_char c2 b'<'))
          (after_digit (digit_value c) src') (operator_or_word none c c2 src')
          (λ _. after_digit-Clear (digit_value c) src' clear)
          (λ _. operator_or_word-Clear none c c2 src' clear))
      (λ _. token-Clear (operator type none) src h)

skipped-Clear :
    (f : ℕ) (c : Option ℕ) (in_comment : Bool) (src : Source)
    → src.putback ≡ none
    → Clear (at_skipped (skip_spaces f c in_comment src))
unfolding skip_spaces at_skipped Clear
skipped-Clear zero c in_comment src h = tt
skipped-Clear (suc f) c in_comment src h =
    let (next, src') = get_char src in
    let now = in_comment || is_char c b'#' in
    let rest = skip_spaces f next (if is_char next b'\n' then false else now) src' in
    if_intro (λ (r : Option (Option ℕ × Source)). Clear (at_skipped r)) (is_skipped c in_comment)
      rest (some (c, src))
      (λ _.
        skipped-Clear f next (if is_char next b'\n' then false else now) src'
          (putback-get_char src ∙ h))
      (λ _. token_at-Clear c src h)

next_token-Clear : (src : Source) → Clear (next_token src)
unfolding next_token fresh_token Clear
next_token-Clear src = split src.putback refl
  where
    split :
        (o : Option Token)
        → src.putback ≡ o
        → Clear (elim o [
          | some t ↦ token t (record src { putback = none })
          | none ↦ fresh_token (remaining src + 2) src
        ])
    split (some t) e = refl
    split none e =
        skipped-Clear (remaining src + 2) (get_char src).0 false (get_char src).1
          (putback-get_char src ∙ e)

pub next_token-putback :
    (src src' : Source) (t : Token) → next_token src ≡ token t src' → src'.putback ≡ none
unfolding Clear
next_token-putback src src' t e = subst Clear e (next_token-Clear src)
