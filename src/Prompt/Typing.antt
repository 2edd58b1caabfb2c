-- ===== src/Prompt/Typing.antt =====
-- A line that is typed at the prompt (src/prompt.c) is the text that its keys make.
use tash.Base.{
  ℕ, zero, suc, ◌+◌, ◌<◌, ◌≡◌, refl, ap, ◌∙◌, true, false, List, [], ◌∷◌, ◌++◌, ◌==◌, ltb, Text,
  length, arith, append_assoc,
}
use tash.Prompt.Editor.{buffer_size, Editor, kept, stored, store, handle_escape}
use tash.Prompt.Completion.{Terminal, contents}
use tash.Prompt.Loop.{Pressed, line, then_again, press, next_round, edit_line, do_prompt}
use tash.Prompt.View.{
  Doc, view, Key, typed, erase, left, right, home, to_end, type_key, Inside, contents-stored,
}
use tash.Prompt.Keys.{key_bytes, Typable, outcome, outcome-Shows}

module _ (t : Terminal) (eof : t.eof_key ≡ 4) where
  next_round-key :
      (k : Key) (input : Text) (e : Editor)
      → Typable k
      → next_round t (key_bytes k ++ input) e ≡ then_again input (outcome k e)
  unfolding next_round press handle_escape
  next_round-key (typed c) input e h =
      let e1 : (c == 4) ≡ false = ground arith in
      let e2 : (c == 27) ≡ false = ground arith in
      let e3 : (c == 9) ≡ false = ground arith in
      let e4 : (c == 10) ≡ false = ground arith in
      let e5 : (c == 127) ≡ false = ground arith in
      let e6 : ltb c 32 ≡ false = ground arith in rw (eof, e1, e2, e3, e4, e5, e6) refl
  next_round-key erase input e h = rw eof refl
  next_round-key left input e h = rw eof refl
  next_round-key right input e h = rw eof refl
  next_round-key home input e h = rw eof refl
  next_round-key to_end input e h = rw eof refl

-- The text behind a list of keys, and their bytes.
abbrev pub type_keys : List Key → Doc → Doc
type_keys [] d = d
type_keys (k ∷ ks) d = type_keys ks (type_key k d)

abbrev pub keys_bytes : List Key → Text
keys_bytes [] = []
keys_bytes (k ∷ ks) = key_bytes k ++ keys_bytes ks

abbrev pub AllTypable : List Key → Type 0
AllTypable [] = Unit
AllTypable (k ∷ ks) = Typable k × AllTypable ks

-- The loop comes back with a line that reads so, and with this input left.
pub record Reads (p : Pressed) (input text : Text) : Type 0 where
  pub editor : Editor
  pub done : p ≡ line input editor
  pub shown : contents editor.cells 0 editor.len ≡ text

module _ (t : Terminal) (eof : t.eof_key ≡ 4) where
  edit_line-enter :
      (f : ℕ) (input : Text) (e : Editor)
      → e.len < buffer_size
      → Reads (edit_line (suc f) t (10 ∷ input) e) input ((view e).text ++ (10 ∷ []))
  unfolding edit_line next_round press store view
  edit_line-enter f input e room =
      let fits : ltb e.len buffer_size ≡ true = ground arith in
      record {
        editor = record e { cells = stored e.len 10 e.cells; len = e.len + 1 };
        done = rw (eof, fits) refl;
        shown = contents-stored e.cells e.len 10;
      }

  edit_line-step :
      (f : ℕ) (k : Key) (input : Text) (e e' : Editor)
      → Typable k
      → outcome k e ≡ kept e'
      → edit_line (suc f) t (key_bytes k ++ input) e ≡ edit_line f t input e'
  unfolding edit_line
  edit_line-step f k input e e' h q = rw (next_round-key t eof k input e h, q) refl

  edit_line-keys :
      (f : ℕ) (ks : List Key) (input : Text) (e : Editor)
      → Inside e
      → AllTypable ks
      → length ks < f
      → e.len + length ks < 255
      → Reads
          (edit_line f t (keys_bytes ks ++ (10 ∷ input)) e)
          input
          ((type_keys ks (view e)).text ++ (10 ∷ []))
  edit_line-keys zero ks input e i h fuel room = absurd (omega (arith, fuel))
  edit_line-keys (suc f) [] input e i h fuel room = edit_line-enter f input e (omega arith)
  edit_line-keys (suc f) (k ∷ ks) input e i (h, hs) fuel room =
      let s = outcome-Shows k e i (omega arith) in
      let r =
        edit_line-keys f ks input s.editor s.inside hs (omega arith) (omega (arith, s.short)) in
      let bytes : (key_bytes k ++ keys_bytes ks) ++ (10 ∷ input)
          ≡ key_bytes k ++ (keys_bytes ks ++ (10 ∷ input)) =
        append_assoc (key_bytes k) (keys_bytes ks) (10 ∷ input) in
      record {
        editor = r.editor;
        done =
            ap (λ x. edit_line (suc f) t x e) bytes
            ∙ edit_line-step f k (keys_bytes ks ++ (10 ∷ input)) e s.editor h s.done
            ∙ r.done;
        shown = r.shown ∙ ap (λ d. (type_keys ks d).text ++ (10 ∷ [])) s.shown;
      }

  -- Fewer than 255 keys, each a character that is no control character, erase, an arrow to the left
  -- or the right, home or end, and then enter: with enough fuel the prompt comes back with the text
  -- that the keys make of an empty one, and a newline, whatever was in the buffer; the input behind
  -- is not touched. The end of file key is ^D.
  pub do_prompt-keys :
      (f : ℕ) (ks : List Key) (input : Text) (e : Editor)
      → AllTypable ks
      → length ks < f
      → length ks < 255
      → Reads
          (do_prompt f t (keys_bytes ks ++ (10 ∷ input)) e)
          input
          ((type_keys ks (record { text = []; at = 0 })).text ++ (10 ∷ []))
  unfolding do_prompt view contents
  do_prompt-keys f ks input e h fuel room =
      edit_line-keys f ks input (record { cells = e.cells; cursor = 0; len = 0; index = 0 })
        (record { cursor_le = omega arith; len_le = omega arith }) h fuel (omega arith)
