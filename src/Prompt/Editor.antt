-- ===== src/Prompt/Editor.antt =====
-- The line buffer of the prompt (src/prompt.c): its 256 bytes, the cursor and the length. What is
-- printed is left out; the reads of `move` for the printing stand behind the writes of `redraw`.
use tash.Base.{ℕ, ◌+◌, ◌-◌, ◌&&◌, [], ◌∷◌, ◌==◌, ltb, leb, if◌then◌else◌, Text}

-- sizeof(prompt_buf)
abbrev pub buffer_size : ℕ
buffer_size = 256

-- prompt_buf, prompt_cursor, prompt_len and prompt_index.
pub record Editor : Type 0 where
  pub cells : ℕ → ℕ
  pub cursor : ℕ
  pub len : ℕ
  pub index : ℕ

-- `overflow` is an access beyond the buffer, `divided` the division by the zero cells of a line.
pub data Edited : Type 0 where
  kept : Editor → Edited
  overflow divided : Edited

infixl 1 ◌>>=◌
abbrev pub ◌>>=◌ : Edited → (Editor → Edited) → Edited
kept e >>= k = k e
overflow >>= k = overflow
divided >>= k = divided

abbrev pub stored : ℕ → ℕ → (ℕ → ℕ) → ℕ → ℕ
stored i c cells k = if k == i then c else cells k

-- prompt_buf[i] = c
unfoldable pub store : ℕ → ℕ → Editor → Edited
store i c e = if ltb i buffer_size then kept (record e { cells = stored i c e.cells }) else overflow

abbrev pub shifted : ℕ → ℕ → ℕ → (ℕ → ℕ) → ℕ → ℕ
shifted dst src n cells k =
    if leb dst k && ltb k (dst + n) then cells (src + (k - dst)) else cells k

-- memmove(&prompt_buf[dst], &prompt_buf[src], n)
unfoldable pub memmove : ℕ → ℕ → ℕ → Editor → Edited
memmove dst src n e =
    if leb (dst + n) buffer_size && leb (src + n) buffer_size
    then kept (record e { cells = shifted dst src n e.cells })
    else overflow

-- The space behind the end; the cursor comes back to where it was.
unfoldable pub redraw : Editor → Edited
unfolding store
redraw e = store e.len b' ' e

-- The default case of `do_prompt`, behind the test for control characters.
unfoldable pub insert_char : ℕ → Editor → Edited
unfolding memmove store redraw
insert_char c e =
    memmove (e.cursor + 1) e.cursor (e.len - e.cursor) e
    >>= store e.cursor c
    >>= (λ e1. redraw (record e1 { len = e1.len + 1 }))
    >>= (λ e2. kept (record e2 { cursor = e2.cursor + 1 }))

-- The case of 127.
unfoldable pub erase_char : Editor → Edited
unfolding memmove redraw
erase_char e =
    let at = e.cursor - 1 in
    if e.cursor == 0
    then kept e
    else (memmove at (at + 1) (e.len - at) (record e { cursor = at })
        >>= (λ e1. redraw (record e1 { len = e1.len - 1 })))

-- The switch on `c2` in `handle_escape`.
unfoldable pub arrow : ℕ → Editor → Editor
arrow c e =
    if c == b'D'
    then (if e.cursor == 0 then e else record e { cursor = e.cursor - 1 })
    else if c == b'C'
    then (if leb e.len e.cursor then e else record e { cursor = e.cursor + 1 })
    else if c == b'H'
    then record e { cursor = 0 }
    else if c == b'F'
    then record e { cursor = e.len }
    else e

abbrev behind_bracket : Text → Editor → Text × Editor
behind_bracket [] e = ([], e)
behind_bracket (c2 ∷ input) e = (input, arrow c2 e)

-- With what is left of the input; a first character that is no `[` is put back.
unfoldable pub handle_escape : Text → Editor → Text × Editor
unfolding arrow
handle_escape [] e = ([], e)
handle_escape (c1 ∷ input) e = if c1 == b'[' then behind_bracket input e else (c1 ∷ input, e)
