-- ===== src/Lexer/Progress.antt =====
-- `get_word_helper` (src/lexer.c) ends on every source: each round reads a character.
use tash.Base.{
  ℕ, zero, suc, ◌+◌, ◌≤◌, ◌<◌, ◌≡◌, refl, true, not, ◌&&◌, ◌||◌, Option, none, some, ◌==◌,
  if◌then◌else◌, if_intro, arith,
}
use tash.Lexer.Source.{Source, get_char, unget_char, peek_char, is_char, is_delimiter}
use tash.Lexer.Word.{
  Scan, Action, return, onward, nested, switch, round, act, after_nested, read_on, Helper,
  get_word_helper,
}
use tash.Lexer.Next.{ungotten, remaining}

pub remaining-get_char :
    (src : Source) → remaining (get_char src).1 + ungotten (get_char src).0 ≤ remaining src
unfolding get_char
remaining-get_char src = ground arith

pub remaining-peek_char : (src : Source) → remaining (peek_char src).1 ≤ remaining src
unfolding peek_char
remaining-peek_char src = ground arith

remaining-unget_char :
    (c : Option ℕ) (src : Source) → remaining (unget_char c src) ≤ remaining src + ungotten c
unfolding unget_char
remaining-unget_char c src = ground arith

-- The source that an action goes on with.
abbrev action_source : Action → Source
action_source (return w) = w.src
action_source (onward _ w) = w.src
action_source (nested _ _ _ w) = w.src

remaining-switch :
    (c quote sub : ℕ) (w : Scan)
    → remaining (action_source (switch c quote sub w)) ≤ remaining w.src
unfolding switch
remaining-switch c quote sub w = ground (
  arith,
  remaining-get_char w.src,
  remaining-peek_char w.src,
  remaining-get_char (peek_char w.src).1,
)

-- An action that goes on has read a character; one that returns may have given one back.
abbrev Within : ℕ → Action → Type 0
Within n (return w) = remaining w.src ≤ n
Within n (onward _ w) = remaining w.src < n
Within n (nested _ _ _ w) = remaining w.src < n

Within-switch : (n : ℕ) (a : Action) → remaining (action_source a) < n → Within n a
Within-switch n (return w) h = omega arith
Within-switch n (onward _ w) h = h
Within-switch n (nested _ _ _ w) h = h

round-Within :
    (c : Option ℕ) (quote end sub : ℕ) (w : Scan)
    → Within (remaining w.src + ungotten c) (round c quote end sub w)
unfolding round
round-Within c quote end sub w =
    if_intro (Within (remaining w.src + ungotten c)) (quote == 0 && is_delimiter c && end == 0) _ _
      (λ _. remaining-unget_char c w.src)
      (λ _.
        if_intro (Within (remaining w.src + ungotten c)) (quote == 0 && is_char c end) _ _
          (λ _. omega arith) (λ _. at_char c))
  where
    at_char :
        (c : Option ℕ)
        → Within (remaining w.src + ungotten c) (elim c [
          | none ↦ return (
              if not (quote == 0) || not (end == 0)
              then record w { src = record w.src { error = true } }
              else w)
          | some d ↦ switch d quote sub w
        ])
    at_char none =
        if_intro (λ (v : Scan). remaining v.src ≤ remaining w.src + 0)
          (not (quote == 0) || not (end == 0)) _ _ (λ _. omega arith) (λ _. omega arith)
    at_char (some d) = Within-switch _ (switch d quote sub w) (
        let h : remaining (action_source (switch d quote sub w)) ≤ remaining w.src =
          remaining-switch d quote sub w in
        omega arith)

-- The helper came back, with no more than `n` characters left.
abbrev Returns : ℕ → Option Scan → Type 0
Returns n none = ⊥
Returns n (some w) = remaining w.src ≤ n

abbrev Terminates : ℕ → Helper → Type 0
Terminates f helper =
    (c : Option ℕ) (quote end sub : ℕ) (w : Scan)
    → remaining w.src + ungotten c < f
    → Returns (remaining w.src + ungotten c) (helper c quote end sub w)

module _ (f : ℕ) (helper : Helper) (ih : Terminates f helper) where
  Returns-le : (n m : ℕ) (r : Option Scan) → n ≤ m → Returns n r → Returns m r
  Returns-le n m none h r = r
  Returns-le n m (some w) h r = omega arith

  read_on-Returns :
      (quote end sub : ℕ) (w : Scan)
      → remaining w.src < f
      → Returns (remaining w.src) (read_on helper quote end sub w)
  read_on-Returns quote end sub w h =
      let bound = remaining-get_char w.src in
      Returns-le _ _ (read_on helper quote end sub w) bound
        (ih (get_char w.src).0 quote end sub (record w { src = (get_char w.src).1 }) (omega arith))

  after_nested-Returns :
      (quote end sub n : ℕ) (r : Option Scan)
      → n < f
      → Returns n r
      → Returns n (after_nested helper quote end sub r)
  unfolding after_nested
  after_nested-Returns quote end sub n none h r = r
  after_nested-Returns quote end sub n (some w) h r =
      if_intro (Returns n) w.src.error _ _ (λ _. r)
        (λ _.
          Returns-le _ n (read_on helper quote end sub w) r
            (read_on-Returns quote end sub w (omega arith)))

  act-Returns :
      (n end sub : ℕ) (a : Action) → n < suc f → Within n a → Returns n (act a end sub helper)
  unfolding act
  act-Returns n end sub (return w) h a = a
  act-Returns n end sub (onward quote w) h a =
      Returns-le _ n (read_on helper quote end sub w) (omega arith)
        (read_on-Returns quote end sub w (omega arith))
  act-Returns n end sub (nested quote end' sub' w) h a = Returns-le _ n _ (omega arith) (
      after_nested-Returns quote end sub (remaining w.src) (read_on helper 0 end' sub' w)
        (omega arith) (read_on-Returns 0 end' sub' w (omega arith)))

helper-Terminates : (f : ℕ) → Terminates f (get_word_helper f)
unfolding get_word_helper
helper-Terminates zero c quote end sub w h = absurd (omega arith)
helper-Terminates (suc f) c quote end sub w h =
    act-Returns f (get_word_helper f) (helper-Terminates f) _ end sub (round c quote end sub w) h
      (round-Within c quote end sub w)

returned :
    (n : ℕ) (r : Option Scan)
    → Returns n r
    → (after : Scan) × (r ≡ some after) × (remaining after.src ≤ n)
returned n none h = absurd h
returned n (some w) h = (w, refl, h)

-- On every source, in every state of quoting and nesting, `get_word_helper` comes back when its
-- fuel is more than the number of characters that are left (the one in hand counted); and no more
-- of them are left behind it.
pub get_word_helper-Terminates :
    (f : ℕ) (c : Option ℕ) (quote end sub : ℕ) (w : Scan)
    → remaining w.src + ungotten c < f
    → (after : Scan) × (get_word_helper f c quote end sub w ≡ some after)
      × (remaining after.src ≤ remaining w.src + ungotten c)
get_word_helper-Terminates f c quote end sub w h =
    returned _ (get_word_helper f c quote end sub w) (helper-Terminates f c quote end sub w h)
