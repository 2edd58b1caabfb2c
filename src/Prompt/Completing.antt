-- ===== src/Prompt/Completing.antt =====
-- A completion puts what all possibilities have in common in the place of the word
-- (`handle_autocompletion` of src/prompt.c).
use tash.Base.{
  ℕ, suc, ◌+◌, ◌-◌, ◌≤◌, ◌<◌, ◌≡◌, refl, ap, sym, ◌∙◌, true, false, ◌&&◌, ◌||◌, [], ◌∷◌, ◌++◌, ◌==◌,
  ltb, leb, Text, take, drop, length, List, arith,
}
use tash.Prompt.Editor.{buffer_size, Editor, stored, shifted, memmove}
use tash.Prompt.Completion.{
  Terminal, contents, autocomplete, memcpy, copied, fill_in, with_fills, handle_autocompletion,
}
use tash.Prompt.View.{view, contents-ext, contents-append, take-contents, drop-contents}
use tash.Prompt.Keys.{Shows}
use tash.Prompt.Words.{Word, word_start-Word, word_end-Word}
use tash.Prompt.Fills.{LongestCommon, narrow-LongestCommon}

copied-before : (text : Text) (i k : ℕ) (cells : ℕ → ℕ) → k < i → copied i text cells k ≡ cells k
copied-before [] i k cells h = refl
copied-before (c ∷ cs) i k cells h =
    copied-before cs (suc i) k (stored i c cells) (omega arith) ∙ ground arith

copied-behind :
    (text : Text) (i k : ℕ) (cells : ℕ → ℕ) → i + length text ≤ k → copied i text cells k ≡ cells k
copied-behind [] i k cells h = refl
copied-behind (c ∷ cs) i k cells h =
    copied-behind cs (suc i) k (stored i c cells) (omega (arith, h)) ∙ ground arith

contents-copied :
    (text : Text) (i : ℕ) (cells : ℕ → ℕ) → contents (copied i text cells) i (length text) ≡ text
unfolding contents
contents-copied [] i cells = refl
contents-copied (c ∷ cs) i cells =
    let first : copied (suc i) cs (stored i c cells) i ≡ c =
      copied-before cs (suc i) i (stored i c cells) (omega arith) ∙ ground arith in
    ap (λ x. x ∷ contents (copied (suc i) cs (stored i c cells)) (suc i) (length cs)) first
    ∙ ap (λ t. c ∷ t) (contents-copied cs (suc i) (stored i c cells))

-- The cells behind a replacement.
unfoldable replaced : (ℕ → ℕ) → ℕ → ℕ → ℕ → Text → ℕ → ℕ
replaced cells start stop len text =
    copied start text (shifted (start + length text) stop (len - stop) cells)

contents-replaced :
    (cells : ℕ → ℕ) (start stop len : ℕ) (text : Text)
    → start ≤ stop
    → stop ≤ len
    → contents (replaced cells start stop len text) 0 (start + (length text + (len - stop)))
      ≡ take start (contents cells 0 len) ++ (text ++ drop stop (contents cells 0 len))
unfolding replaced
contents-replaced cells start stop len text h k =
    let new = replaced cells start stop len text in
    let base = shifted (start + length text) stop (len - stop) cells in
    let before : contents new 0 start ≡ contents cells 0 start =
      contents-ext new cells 0 0 start
        (λ j l. copied-before text start (0 + j) base (omega (arith, l)) ∙ ground arith) in
    let behind : contents new (start + length text) (len - stop)
        ≡ contents cells (0 + stop) (len - stop) =
      contents-ext new cells (start + length text) (0 + stop) (len - stop) (λ j l.
        copied-behind text start (start + length text + j) base (omega arith)
        ∙ shifted-inside cells (start + length text) stop (len - stop) j l) in
    let none : 0 + start ≡ start = omega arith in
    contents-append new 0 start (length text + (len - stop))
    ∙ ap (λ k. contents new 0 start ++ contents new k (length text + (len - stop))) none
    ∙ ap (λ t. t ++ contents new start (length text + (len - stop)))
        (before ∙ sym (take-contents cells 0 start len (omega arith)))
    ∙ ap (λ t. take start (contents cells 0 len) ++ t)
        (contents-append new start (length text) (len - stop)
          ∙ ap (λ t. t ++ contents new (start + length text) (len - stop))
              (contents-copied text start base)
          ∙ ap (λ t. text ++ t) (behind ∙ sym (drop-contents cells 0 stop len k)))
  where
    shifted-inside :
        (cells : ℕ → ℕ) (dst src n j : ℕ)
        → j < n
        → shifted dst src n cells (dst + j) ≡ cells (0 + src + j)
    shifted-inside cells dst src n j l =
        let same : src + (dst + j - dst) ≡ 0 + src + j = omega arith in
        let low : leb dst (dst + j) ≡ true = ground arith in
        let high : ltb (dst + j) (dst + n) ≡ true = ground arith in rw (low, high) (ap cells same)

fill_in-Shows :
    (start stop : ℕ) (text : Text) (e : Editor)
    → start ≤ stop
    → stop ≤ e.len
    → e.len ≤ buffer_size
    → start + length text + (e.len - stop) ≤ buffer_size
    → Shows
        (fill_in start stop text e)
        (record {
          text = take start (view e).text ++ (text ++ drop stop (view e).text);
          at = start + length text;
        })
        (start + length text + (e.len - stop))
unfolding fill_in memmove memcpy view replaced
fill_in-Shows start stop text e h k small room =
    let fits : (leb (start + length text + (e.len - stop)) buffer_size
          && leb (stop + (e.len - stop)) buffer_size)
        ≡ true =
      ground arith in
    let fits' : leb (start + length text) buffer_size ≡ true = ground arith in
    let len' = e.len + length text - (stop - start) in
    let size : len' ≡ start + (length text + (e.len - stop)) = omega arith in
    let cells' = replaced e.cells start stop e.len text in
    record {
      editor = record e { cells = cells'; len = len'; cursor = start + length text };
      done = rw (fits, fits') refl;
      shown =
          ap (λ t. record { text = t; at = start + length text })
            (ap (contents cells' 0) size ∙ contents-replaced e.cells start stop e.len text h k);
      inside = record { cursor_le = omega arith; len_le = omega arith };
      short = omega arith;
    }

-- Where the cursor is at or in the word from `start` to `stop`, the terminal has possibilities for
-- it, `p` is the longest text that all of them begin with, `p` is longer than the word, and the line
-- with it fits the buffer: the line that is shown then has `p` in place of the word and the rest as
-- it was, the cursor is right behind `p`, and both are in the buffer.
pub handle_autocompletion-Shows :
    (t : Terminal) (e : Editor) (start stop : ℕ) (first : Text) (more : List Text) (p : Text)
    → Word e start stop
    → autocomplete t (contents e.cells start (stop - start)) ≡ first ∷ more
    → LongestCommon (first ∷ more) p
    → stop - start < length p
    → e.len ≤ buffer_size
    → start + length p + (e.len - stop) ≤ buffer_size
    → Shows
        (handle_autocompletion t e)
        (record {
          text = take start (view e).text ++ (p ++ drop stop (view e).text);
          at = start + length p;
        })
        (start + length p + (e.len - stop))
unfolding handle_autocompletion with_fills
handle_autocompletion-Shows t e start stop first more p w found common longer small room =
    let (size, bytes) = narrow-LongestCommon first more p common in
    let adds : (leb (length p) (stop - start) || length p == 0) ≡ false = ground arith in
    rw (word_start-Word e start stop w, word_end-Word e start stop w, found, size, adds, bytes)
      (fill_in-Shows start stop p e (omega (arith, w.start_le, w.stop_ge)) w.stop_le small room)
