-- ===== src/Prompt/Keys.antt =====
-- Each key does on the buffer of the line editor (src/prompt.c) what it does on the text.
use tash.Base.{
  ℕ, ◌+◌, ◌-◌, ◌≤◌, ◌<◌, ◌≡◌, refl, ap, sym, ◌∙◌, true, false, ◌&&◌, [], ◌∷◌, ◌++◌, ◌==◌, ltb, leb,
  Bool-cases, inl, inr, Text, take, drop, arith,
}
use tash.Prompt.Editor.{
  buffer_size, Editor, Edited, kept, store, memmove, redraw, insert_char, erase_char, arrow,
}
use tash.Prompt.Completion.{contents}
use tash.Prompt.Loop.{is_control}
use tash.Prompt.View.{
  Doc, view, Key, typed, erase, left, right, home, to_end, type_key, Inside, inserted, erased,
  contents-inserted, contents-erased, length-contents,
}

-- What an operation has to do: the editor that is left shows this text and place, and its line is
-- not longer than `n`.
pub record Shows (r : Edited) (d : Doc) (n : ℕ) : Type 0 where
  pub editor : Editor
  pub done : r ≡ kept editor
  pub shown : view editor ≡ d
  pub inside : Inside editor
  pub short : editor.len ≤ n

pub insert_char-Shows :
    (c : ℕ) (e : Editor)
    → Inside e
    → e.len + 1 < buffer_size
    → Shows (insert_char c e) (type_key (typed c) (view e)) (e.len + 1)
unfolding insert_char memmove store redraw inserted view
insert_char-Shows c e i room =
    let moves : (leb (e.cursor + 1 + (e.len - e.cursor)) buffer_size
          && leb (e.cursor + (e.len - e.cursor)) buffer_size)
        ≡ true =
      ground arith in
    let stores : ltb e.cursor buffer_size ≡ true = ground arith in
    let draws : ltb (e.len + 1) buffer_size ≡ true = ground arith in
    record {
      editor = record e {
        cells = inserted e.cells e.cursor e.len c;
        cursor = e.cursor + 1;
        len = e.len + 1;
      };
      done = rw (moves, stores, draws) refl;
      shown =
          ap (λ (t : Text). record { text = t; at = e.cursor + 1 })
            (contents-inserted e.cells e.cursor e.len c i.cursor_le);
      inside = record { cursor_le = omega arith; len_le = omega arith };
      short = omega arith;
    }

pub erase_char-Shows :
    (e : Editor)
    → Inside e
    → e.len < buffer_size
    → Shows (erase_char e) (type_key erase (view e)) e.len
unfolding erase_char memmove store redraw erased view
erase_char-Shows e i room = elim (Bool-cases (e.cursor == 0)) [
  | inl start ↦ record {
    editor = e;
    done = rw start refl;
    shown = rw start refl;
    inside = i;
    short = omega arith;
  }
  | inr later ↦
      let at = e.cursor - 1 in
      let moves : (leb (at + (e.len - at)) buffer_size && leb (at + 1 + (e.len - at)) buffer_size)
          ≡ true =
        ground arith in
      let draws : ltb (e.len - 1) buffer_size ≡ true = ground arith in
      let back : at + 1 ≡ e.cursor = ground arith in
      record {
        editor = record e { cells = erased e.cells at e.len; cursor = at; len = e.len - 1 };
        done = rw (later, moves, draws) refl;
        shown = rw later (
            ap (λ (t : Text). record { text = t; at = at })
              (contents-erased e.cells at e.len (ground arith)
                ∙ ap (λ n. take at (contents e.cells 0 e.len) ++ drop n (contents e.cells 0 e.len))
                    back));
        inside = record { cursor_le = ground arith; len_le = omega arith };
        short = omega arith;
      }
]

-- The bytes that a terminal sends for a key.
abbrev pub key_bytes : Key → Text
key_bytes (typed c) = c ∷ []
key_bytes erase = 127 ∷ []
key_bytes left = 27 ∷ b'[' ∷ b'D' ∷ []
key_bytes right = 27 ∷ b'[' ∷ b'C' ∷ []
key_bytes home = 27 ∷ b'[' ∷ b'H' ∷ []
key_bytes to_end = 27 ∷ b'[' ∷ b'F' ∷ []

abbrev pub Typable : Key → Type 0
Typable (typed c) = is_control c ≡ false
Typable _ = Unit

abbrev pub outcome : Key → Editor → Edited
outcome (typed c) e = insert_char c e
outcome erase e = erase_char e
outcome left e = kept (arrow b'D' e)
outcome right e = kept (arrow b'C' e)
outcome home e = kept (arrow b'H' e)
outcome to_end e = kept (arrow b'F' e)

pub outcome-Shows :
    (k : Key) (e : Editor)
    → Inside e
    → e.len + 1 < buffer_size
    → Shows (outcome k e) (type_key k (view e)) (e.len + 1)
unfolding arrow view
outcome-Shows (typed c) e i room = insert_char-Shows c e i room
outcome-Shows erase e i room =
    let s = erase_char-Shows e i (omega arith) in
    record {
      editor = s.editor;
      done = s.done;
      shown = s.shown;
      inside = s.inside;
      short = omega (arith, s.short);
    }
outcome-Shows left e i room = elim (Bool-cases (e.cursor == 0)) [
  | inl start ↦
      let there : 0 ≡ e.cursor - 1 = ground arith in
      let here : e.cursor ≡ 0 = ground arith in
      record {
        editor = e;
        done = rw start refl;
        shown = ap (λ n. record { text = contents e.cells 0 e.len; at = n }) (here ∙ there);
        inside = i;
        short = omega arith;
      }
  | inr later ↦ record {
    editor = record e { cursor = e.cursor - 1 };
    done = rw later refl;
    shown = refl;
    inside = record { cursor_le = omega arith; len_le = omega arith };
    short = omega arith;
  }
]
outcome-Shows right e i room = elim (Bool-cases (leb e.len e.cursor)) [
  | inl last ↦ record {
    editor = e;
    done = rw last refl;
    shown = rw (length-contents e.cells 0 e.len, last) refl;
    inside = i;
    short = omega arith;
  }
  | inr later ↦ record {
    editor = record e { cursor = e.cursor + 1 };
    done = rw later refl;
    shown = rw (length-contents e.cells 0 e.len, later) refl;
    inside = record { cursor_le = ground arith; len_le = omega arith };
    short = omega arith;
  }
]
outcome-Shows home e i room = record {
  editor = record e { cursor = 0 };
  done = refl;
  shown = refl;
  inside = record { cursor_le = omega arith; len_le = omega arith };
  short = omega arith;
}
outcome-Shows to_end e i room = record {
  editor = record e { cursor = e.len };
  done = refl;
  shown =
      ap (λ n. record { text = contents e.cells 0 e.len; at = n })
        (sym (length-contents e.cells 0 e.len));
  inside = record { cursor_le = omega arith; len_le = omega arith };
  short = omega arith;
}
