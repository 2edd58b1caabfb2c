-- ===== src/Prompt/View.antt =====
-- What the editor of src/prompt.c shows of its buffer: a text and a place in it. Each key does on
-- the buffer what it does on the text.
use tash.Base.{
  ℕ, zero, suc, ◌+◌, ◌-◌, ◌≤◌, ◌<◌, ◌≡◌, refl, ap, sym, ◌∙◌, [], ◌∷◌, ◌++◌, ◌==◌, leb,
  if◌then◌else◌, Text, take, drop, length, arith,
}
use tash.Prompt.Editor.{buffer_size, Editor, stored, shifted}
use tash.Prompt.Completion.{contents}

pub record Doc : Type 0 where
  pub text : Text
  pub at : ℕ

unfoldable pub view : Editor → Doc
unfolding contents
view e = record { text = contents e.cells 0 e.len; at = e.cursor }

-- The keys that edit, as a user thinks of them.
pub data Key : Type 0 where
  typed : ℕ → Key
  erase left right home to_end : Key

abbrev pub type_key : Key → Doc → Doc
type_key (typed c) d = record { text = take d.at d.text ++ (c ∷ drop d.at d.text); at = d.at + 1 }
type_key erase d =
    if d.at == 0
    then d
    else record { text = take (d.at - 1) d.text ++ drop d.at d.text; at = d.at - 1 }
type_key left d = record d { at = d.at - 1 }
type_key right d = if leb (length d.text) d.at then d else record d { at = d.at + 1 }
type_key home d = record d { at = 0 }
type_key to_end d = record d { at = length d.text }

-- The cursor is in the line, and the line in the buffer.
pub record Inside (e : Editor) : Type 0 where
  pub cursor_le : e.cursor ≤ e.len
  pub len_le : e.len ≤ buffer_size

pub contents-ext :
    (f g : ℕ → ℕ) (i j n : ℕ)
    → ((k : ℕ) → k < n → f (i + k) ≡ g (j + k))
    → contents f i n ≡ contents g j n
unfolding contents
contents-ext f g i j zero h = refl
contents-ext f g i j (suc n) h =
    let first : f i ≡ g j = ground (arith, h 0) in
    ap (λ t. f i ∷ t)
      (contents-ext f g (suc i) (suc j) n (λ k l.
        let left : suc i + k ≡ i + suc k = omega arith in
        let right : suc j + k ≡ j + suc k = omega arith in
        ap f left ∙ h (suc k) (omega arith) ∙ ap g (sym right)))
    ∙ ap (λ x. x ∷ contents g (suc j) n) first

pub contents-append :
    (f : ℕ → ℕ) (i m n : ℕ) → contents f i (m + n) ≡ contents f i m ++ contents f (i + m) n
unfolding contents
contents-append f i zero n =
    let e : i ≡ i + zero = omega arith in
    let e' : zero + n ≡ n = omega arith in ap (λ k. contents f i k) e' ∙ ap (λ k. contents f k n) e
contents-append f i (suc m) n =
    let e' : suc m + n ≡ suc (m + n) = omega arith in
    let e : suc i + m ≡ i + suc m = omega arith in
    ap (λ k. contents f i k) e'
    ∙ ap (λ t. f i ∷ t)
        (contents-append f (suc i) m n ∙ ap (λ k. contents f (suc i) m ++ contents f k n) e)

pub length-contents : (f : ℕ → ℕ) (i n : ℕ) → length (contents f i n) ≡ n
unfolding contents
length-contents f i zero = refl
length-contents f i (suc n) = ap suc (length-contents f (suc i) n)

pub take-contents : (f : ℕ → ℕ) (i k n : ℕ) → k ≤ n → take k (contents f i n) ≡ contents f i k
unfolding contents
take-contents f i zero n h = refl
take-contents f i (suc k) zero h = absurd (omega (arith, h))
take-contents f i (suc k) (suc n) h = ap (λ t. f i ∷ t) (take-contents f (suc i) k n (omega arith))

pub drop-contents :
    (f : ℕ → ℕ) (i k n : ℕ) → k ≤ n → drop k (contents f i n) ≡ contents f (i + k) (n - k)
unfolding contents
drop-contents f i zero n h =
    let e : i ≡ i + zero = omega arith in
    let e' : n ≡ n - zero = omega arith in
    ap (λ k. contents f k n) e ∙ ap (λ m. contents f (i + zero) m) e'
drop-contents f i (suc k) zero h = absurd (omega (arith, h))
drop-contents f i (suc k) (suc n) h =
    let e : suc i + k ≡ i + suc k = omega arith in
    let e' : n - k ≡ suc n - suc k = omega arith in
    drop-contents f (suc i) k n (omega arith)
    ∙ ap (λ m. contents f m (n - k)) e
    ∙ ap (λ m. contents f (i + suc k) m) e'

-- The cells behind an insertion and behind a removal.
unfoldable pub inserted : (ℕ → ℕ) → ℕ → ℕ → ℕ → ℕ → ℕ
inserted cells at len c = stored (len + 1) b' ' (stored at c (shifted (at + 1) at (len - at) cells))

pub contents-inserted :
    (cells : ℕ → ℕ) (at len c : ℕ)
    → at ≤ len
    → contents (inserted cells at len c) 0 (len + 1)
      ≡ take at (contents cells 0 len) ++ (c ∷ drop at (contents cells 0 len))
unfolding inserted contents
contents-inserted cells at len c h =
    let new = inserted cells at len c in
    let split : len + 1 ≡ at + suc (len - at) = omega arith in
    let before : contents new 0 at ≡ contents cells 0 at =
      contents-ext new cells 0 0 at (λ k l. ground arith) in
    let here : new at ≡ c = ground arith in
    let behind : contents new (suc at) (len - at) ≡ contents cells at (len - at) =
      contents-ext new cells (suc at) at (len - at) (λ k l. ground arith) in
    let start : 0 + at ≡ at = omega arith in
    ap (λ n. contents new 0 n) split
    ∙ contents-append new 0 at (suc (len - at))
    ∙ rw
        (
          before,
          start,
          here,
          behind,
          take-contents cells 0 at len h,
          drop-contents cells 0 at len h,
        )
        (ap (λ m. contents cells 0 at ++ (c ∷ contents cells m (len - at))) (sym start))

unfoldable pub erased : (ℕ → ℕ) → ℕ → ℕ → ℕ → ℕ
erased cells at len = stored (len - 1) b' ' (shifted at (at + 1) (len - at) cells)

pub contents-erased :
    (cells : ℕ → ℕ) (at len : ℕ)
    → at < len
    → contents (erased cells at len) 0 (len - 1)
      ≡ take at (contents cells 0 len) ++ drop (at + 1) (contents cells 0 len)
unfolding erased contents
contents-erased cells at len h =
    let new = erased cells at len in
    let next : 0 + (at + 1) ≡ at + 1 = omega arith in
    let split : len - 1 ≡ at + (len - (at + 1)) = omega arith in
    let before : contents new 0 at ≡ contents cells 0 at =
      contents-ext new cells 0 0 at (λ k l. ground arith) in
    let behind : contents new at (len - (at + 1)) ≡ contents cells (at + 1) (len - (at + 1)) =
      contents-ext new cells at (at + 1) (len - (at + 1)) (λ k l. ground arith) in
    let start : 0 + at ≡ at = omega arith in
    ap (λ n. contents new 0 n) split
    ∙ contents-append new 0 at (len - (at + 1))
    ∙ rw
        (
          before,
          start,
          behind,
          take-contents cells 0 at len (omega arith),
          drop-contents cells 0 (at + 1) len (omega arith),
        )
        (ap (λ m. contents cells 0 at ++ contents cells m (len - (at + 1))) (sym next))

pub contents-stored :
    (cells : ℕ → ℕ) (len c : ℕ)
    → contents (stored len c cells) 0 (len + 1) ≡ contents cells 0 len ++ (c ∷ [])
unfolding contents
contents-stored cells len c =
    let new = stored len c cells in
    let before : contents new 0 len ≡ contents cells 0 len =
      contents-ext new cells 0 0 len (λ k l. ground arith) in
    let here : new (0 + len) ≡ c = ground arith in
    contents-append new 0 len 1 ∙ rw before (ap (λ x. contents cells 0 len ++ (x ∷ [])) here)
