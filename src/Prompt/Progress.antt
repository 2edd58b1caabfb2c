-- ===== src/Prompt/Progress.antt =====
-- The loop of the line editor comes to an end (src/prompt.c).
use tash.Base.{
  ℕ, zero, suc, ◌+◌, ◌≤◌, ◌<◌, ◌≡◌, refl, ap, subst, sym, ◌∙◌, Bool, true, false, not, ◌||◌, [],
  ◌∷◌, ◌++◌, ◌==◌, ltb, if◌then◌else◌, if_intro, append_assoc, Bool-cases, inl, inr, Text, length,
  arith,
}
use tash.Prompt.Editor.{
  buffer_size, Editor, stored, store, insert_char, erase_char, arrow, handle_escape,
}
use tash.Prompt.Completion.{Terminal}
use tash.Prompt.Loop.{
  Pressed, again, line, overrun, division, stuck, on_again, then_again, then_line, is_control,
  press, next_round, edit_line, do_prompt,
}
use tash.Prompt.View.{Inside}
use tash.Prompt.Keys.{insert_char-Shows, erase_char-Shows}
use tash.Prompt.Ends.{insert_char-len}

-- A round that leaves this input: a line, or an editor in the buffer with a line of at most `n`.
abbrev Settles : ℕ → Text → Pressed → Type 0
Settles n input (again i e) = (i ≡ input) × Inside e × (e.len ≤ n)
Settles n input (line i e) = (i ≡ input) × Inside e
Settles n input _ = ⊥

insert_char-Settles :
    (c : ℕ) (input : Text) (e : Editor)
    → Inside e
    → e.len + 1 < buffer_size
    → Settles (e.len + 1) input (then_again input (insert_char c e))
insert_char-Settles c input e i room =
    let s = insert_char-Shows c e i room in
    let longer = insert_char-len c e s.editor s.done in rw s.done (refl, s.inside, omega arith)

erase_char-Settles :
    (input : Text) (e : Editor)
    → Inside e
    → e.len + 1 < buffer_size
    → Settles (e.len + 1) input (then_again input (erase_char e))
erase_char-Settles input e i room =
    let s = erase_char-Shows e i (omega arith) in rw s.done (refl, s.inside, omega (arith, s.short))

store_line-Settles :
    (n at c : ℕ) (input : Text) (e : Editor)
    → Inside e
    → e.len ≤ at
    → at < buffer_size
    → Settles n input (then_line input (store at c e))
unfolding store
store_line-Settles n at c input e i h room = ground arith

-- The choice of a round, by what holds in both branches.
choose :
    (n : ℕ) (input : Text) (b : Bool) (p q : Pressed)
    → (b ≡ true → Settles n input p)
    → (b ≡ false → Settles n input q)
    → Settles n input (if b then p else q)
choose n input b p q h k = if_intro (Settles n input) b p q h k

-- Every character but the one that starts an escape sequence, and the tab.
press-Settles :
    (t : Terminal) (c : ℕ) (input : Text) (e : Editor)
    → Inside e
    → e.len + 1 < buffer_size
    → (c == t.eof_key || not (c == 27)) ≡ true
    → (c == 9) ≡ false
    → Settles (e.len + 1) input (press t c input e)
unfolding press
press-Settles t c input e i room plain no_tab =
    let n = e.len + 1 in
    let goes_on : Settles n input (again input e) = (refl, i, omega arith) in
    choose n input (c == t.eof_key) _ _
      (λ _.
        choose n input (ltb 0 e.len) _ _ (λ _. goes_on)
          (λ empty. store_line-Settles n 0 0 input e i (ground arith) (omega arith)))
      (λ other.
        choose n input (c == 27) _ _ (λ escape. absurd (ground (arith, plain)))
          (λ _.
            choose n input (c == 9) _ _ (λ tab. absurd (ground (arith, no_tab)))
              (λ _.
                choose n input (c == 10) _ _
                  (λ _. store_line-Settles n e.len 10 input e i (omega arith) (omega arith))
                  (λ _.
                    choose n input (c == 127) _ _ (λ _. erase_char-Settles input e i room)
                      (λ _.
                        choose n input (is_control c) _ _ (λ _. goes_on)
                          (λ _. insert_char-Settles c input e i room))))))

press-escape :
    (t : Terminal) (c : ℕ) (input : Text) (e : Editor)
    → (c == t.eof_key || not (c == 27)) ≡ false
    → press t c input e ≡ again (handle_escape input e).0 (handle_escape input e).1
unfolding press
press-escape t c input e h =
    let no_end : (c == t.eof_key) ≡ false = ground arith in
    let escape : (c == 27) ≡ true = ground arith in rw (no_end, escape) refl

-- The loop comes back with a line in the buffer, and the input `rest` was not read.
pub record Comes (p : Pressed) (rest : Text) : Type 0 where
  pub unread : Text
  pub editor : Editor
  pub done : p ≡ line (unread ++ rest) editor
  pub inside : Inside editor

abbrev pub NoTab : Text → Type 0
NoTab [] = Unit
NoTab (c ∷ cs) = ((c == 9) ≡ false) × NoTab cs

abbrev entered : Text → Text
entered rest = 10 ∷ 10 ∷ rest

arrow-Inside : (c : ℕ) (e : Editor) → Inside e → Inside (arrow c e) × ((arrow c e).len ≡ e.len)
unfolding arrow
arrow-Inside c e i = ground (arith, i.cursor_le, i.len_le)

module _ (t : Terminal) (eof : (10 == t.eof_key) ≡ false) where
  edit_line-newline :
      (f : ℕ) (unread rest : Text) (e : Editor)
      → Inside e
      → e.len < buffer_size
      → Comes (edit_line (suc f) t (10 ∷ unread ++ rest) e) rest
  unfolding edit_line next_round press store
  edit_line-newline f unread rest e i room =
      let fits : ltb e.len buffer_size ≡ true = ground arith in
      record {
        unread = unread;
        editor = record e { cells = stored e.len 10 e.cells; len = e.len + 1 };
        done = rw (eof, fits) refl;
        inside = record { cursor_le = omega (arith, i.cursor_le); len_le = omega arith };
      }

  Comes-Settles :
      (f n : ℕ) (s rest : Text) (p : Pressed)
      → Settles n (s ++ entered rest) p
      → ((e : Editor) → Inside e → e.len ≤ n → Comes (edit_line f t (s ++ entered rest) e) rest)
      → Comes (on_again (edit_line f t) p) rest
  Comes-Settles f n s rest (again input e) (same, i, h) k =
      subst (λ x. Comes (edit_line f t x e) rest) (sym same) (k e i h)
  Comes-Settles f n s rest (line input e) (same, i) k = record {
    unread = s ++ (10 ∷ 10 ∷ []);
    editor = e;
    done = ap (λ x. line x e) (same ∙ sym (append_assoc s (10 ∷ 10 ∷ []) rest));
    inside = i;
  }
  Comes-Settles f n s rest overrun h k = elim h [ ]
  Comes-Settles f n s rest division h k = elim h [ ]
  Comes-Settles f n s rest stuck h k = elim h [ ]

  -- What every shorter input is read as.
  abbrev ReadsAll : ℕ → Text → Type 0
  ReadsAll f rest =
      (s : Text) (e : Editor)
      → Inside e
      → NoTab s
      → length s < f
      → e.len + length s < 255
      → Comes (edit_line f t (s ++ entered rest) e) rest

  escape-Comes :
      (f : ℕ) (s rest : Text) (e : Editor)
      → Inside e
      → NoTab s
      → length s < f
      → e.len + length s < 255
      → ReadsAll f rest
      → (let r = handle_escape (s ++ entered rest) e in Comes (edit_line f t r.0 r.1) rest)
  unfolding handle_escape
  escape-Comes zero s rest e i h fuel room k = absurd (omega (arith, fuel))
  escape-Comes (suc f) [] rest e i h fuel room k = k [] e i tt fuel room
  escape-Comes (suc f) (d ∷ []) rest e i h fuel room k =
      if_intro (λ (r : Text × Editor). Comes (edit_line (suc f) t r.0 r.1) rest) (d == b'[') _ _
        (λ _. edit_line-newline f [] rest _ (arrow-Inside 10 e i).0 (omega arith))
        (λ _. k (d ∷ []) e i h fuel room)
  escape-Comes (suc f) (d ∷ g ∷ s) rest e i (h, hs) fuel room k =
      let (i', same) = arrow-Inside g e i in
      if_intro (λ (r : Text × Editor). Comes (edit_line (suc f) t r.0 r.1) rest) (d == b'[') _ _
        (λ _. k s (arrow g e) i' hs.1 (omega (arith, fuel)) (omega (arith, same, room)))
        (λ _. k (d ∷ g ∷ s) e i (h, hs) fuel room)

  edit_line-Comes : (f : ℕ) (rest : Text) → ReadsAll f rest
  unfolding edit_line next_round
  edit_line-Comes zero rest s e i h fuel room = absurd (omega (arith, fuel))
  edit_line-Comes (suc f) rest [] e i h fuel room =
      edit_line-newline f (10 ∷ []) rest e i (omega arith)
  edit_line-Comes (suc f) rest (c ∷ s) e i (no_tab, h) fuel room =
      elim (Bool-cases (c == t.eof_key || not (c == 27))) [
        | inl plain ↦
            Comes-Settles f (e.len + 1) s rest _
              (press-Settles t c (s ++ entered rest) e i (omega arith) plain no_tab)
              (λ e' i' l. edit_line-Comes f rest s e' i' h (omega arith) (omega arith))
        | inr escape ↦
            rw (press-escape t c (s ++ entered rest) e escape)
              (escape-Comes f s rest e i h (omega arith) (omega arith) (edit_line-Comes f rest))
      ]

  -- Any fewer than 255 bytes but tabs, among them control characters, erase and escape sequences,
  -- complete or not, and behind them two newlines, the first of which an escape sequence may take:
  -- with more fuel than there are bytes the prompt comes back with a line whose cursor and length are
  -- in the buffer, whatever was in it, and no input behind the newlines was read. The end of file key
  -- is any but the newline.
  pub do_prompt-Comes :
      (f : ℕ) (s rest : Text) (e : Editor)
      → NoTab s
      → length s < f
      → length s < 255
      → Comes (do_prompt f t (s ++ (10 ∷ 10 ∷ rest)) e) rest
  unfolding do_prompt
  do_prompt-Comes f s rest e h fuel room =
      edit_line-Comes f rest s (record { cells = e.cells; cursor = 0; len = 0; index = 0 })
        (record { cursor_le = omega arith; len_le = omega arith }) h fuel (omega arith)
