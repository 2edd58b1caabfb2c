-- ===== src/Prompt/Loop.antt =====
-- Reading a line with the editor, and handing it out byte by byte (`do_prompt` and `prompt_getc` of
-- src/prompt.c).
use tash.Base.{
  ℕ, zero, suc, ◌+◌, Bool, ◌||◌, Option, none, some, [], ◌∷◌, ◌==◌, ltb, leb, if◌then◌else◌, Text,
}
use tash.Prompt.Editor.{
  Editor, Edited, kept, overflow, divided, store, insert_char, erase_char, handle_escape,
}
use tash.Prompt.Completion.{Terminal, handle_autocompletion}

-- How a round of the loop, or the loop, ends: with the rest of the input.
pub data Pressed : Type 0 where
  again : Text → Editor → Pressed
  line : Text → Editor → Pressed
  overrun division stuck : Pressed

abbrev pub then_again : Text → Edited → Pressed
then_again input (kept e) = again input e
then_again input overflow = overrun
then_again input divided = division

abbrev pub then_line : Text → Edited → Pressed
then_line input (kept e) = line input (record e { len = e.len + 1 })
then_line input overflow = overrun
then_line input divided = division

-- iscntrl, in the C locale.
abbrev pub is_control : ℕ → Bool
is_control c = ltb c 32 || c == 127

-- One round, for a character that was read.
unfoldable pub press : Terminal → ℕ → Text → Editor → Pressed
unfolding handle_escape handle_autocompletion store insert_char erase_char
press t c input e =
    let (input1, e1) = handle_escape input e in
    if c == t.eof_key
    then (if ltb 0 e.len then again input e else then_line input (store 0 0 e))
    else if c == 27
    then again input1 e1
    else if c == 9
    then then_again input (handle_autocompletion t e)
    else if c == 10
    then then_line input (store e.len 10 e)
    else if c == 127
    then then_again input (erase_char e)
    else if is_control c
    then again input e
    else then_again input (insert_char c e)

-- At the end of the input `getchar` goes on giving EOF, which is -1: it is no end of file key and
-- no control character, and is inserted as the byte 255.
unfoldable pub next_round : Terminal → Text → Editor → Pressed
unfolding press insert_char
next_round t [] e = then_again [] (insert_char 255 e)
next_round t (c ∷ input) e = press t c input e

abbrev pub on_again : (Text → Editor → Pressed) → Pressed → Pressed
on_again k (again input e) = k input e
on_again k (line input e) = line input e
on_again k overrun = overrun
on_again k division = division
on_again k stuck = stuck

-- The `for (;;)` of `do_prompt`.
unfoldable pub edit_line : ℕ → Terminal → Text → Editor → Pressed
unfolding next_round
edit_line zero t input e = stuck
edit_line (suc f) t input e = on_again (edit_line f t) (next_round t input e)

-- The buffer keeps its old bytes.
unfoldable pub do_prompt : ℕ → Terminal → Text → Editor → Pressed
unfolding edit_line
do_prompt f t input e =
    edit_line f t input (record { cells = e.cells; cursor = 0; len = 0; index = 0 })

-- `none` is EOF, which a NUL in the buffer stands for.
abbrev pub hand_out : Editor → Option ℕ × Editor
hand_out e =
    let c = e.cells e.index in (if c == 0 then none else some c, record e { index = e.index + 1 })

-- What `prompt_getc` gives; `no_byte` where the prompt for a line does not come back with one.
pub data Byte : Type 0 where
  byte : Option ℕ → Text → Editor → Byte
  no_byte : Byte

abbrev of_line : Pressed → Byte
of_line (line input e) = let (c, e1) = hand_out e in byte c input e1
of_line _ = no_byte

unfoldable pub prompt_getc : ℕ → Terminal → Text → Editor → Byte
unfolding do_prompt
prompt_getc f t input e =
    let asked = of_line (do_prompt f t input e) in
    let (c, e1) = hand_out e in if leb e.len e.index then asked else byte c input e1
