-- ===== src/Prompt/Ends.antt =====
-- How the loop of the line editor ends (src/prompt.c).
use tash.Base.{ℕ, zero, suc, ◌+◌, ◌≤◌, ◌≡◌, refl, [], ltb, Bool-cases, inl, inr, arith}
use tash.Prompt.Editor.{buffer_size, Editor, kept, overflow, store, memmove, redraw, insert_char}
use tash.Prompt.Completion.{Terminal}
use tash.Prompt.Loop.{overrun, next_round, edit_line}
use tash.Prompt.View.{Inside}
use tash.Prompt.Keys.{insert_char-Shows}

-- A full buffer.
insert_char-overflow :
    (c : ℕ) (e : Editor) → Inside e → buffer_size ≤ e.len + 1 → insert_char c e ≡ overflow
unfolding insert_char memmove store redraw
insert_char-overflow c e i full = ground arith

pub insert_char-len : (c : ℕ) (e e' : Editor) → insert_char c e ≡ kept e' → e'.len ≡ e.len + 1
unfolding insert_char memmove store redraw
insert_char-len c e e' q = ground arith

-- Where the input is at its end, as after a hangup, the loop does not end there: with enough fuel,
-- and the cursor in the line and the line in the buffer, it fills the buffer and writes beyond it.
pub edit_line-hangup :
    (f : ℕ) (t : Terminal) (e : Editor)
    → Inside e
    → buffer_size ≤ f + e.len
    → edit_line (suc f) t [] e ≡ overrun
unfolding edit_line next_round
edit_line-hangup zero t e i fuel = rw (insert_char-overflow 255 e i (omega arith)) refl
edit_line-hangup (suc f) t e i fuel = elim (Bool-cases (ltb (e.len + 1) buffer_size)) [
  | inl fits ↦
      let s = insert_char-Shows 255 e i (ground arith) in
      let longer = insert_char-len 255 e s.editor s.done in
      rw s.done (edit_line-hangup f t s.editor s.inside (omega arith))
  | inr full ↦ rw (insert_char-overflow 255 e i (ground arith)) refl
]
