-- ===== src/Prompt/Completion.antt =====
-- The completion of file names at the prompt (src/prompt.c).
use tash.Base.{
  ℕ, zero, suc, ◌+◌, ◌-◌, ◌/◌, Bool, true, false, ◌&&◌, ◌||◌, Option, none, some, List, [], ◌∷◌,
  ◌++◌, length, ◌==◌, ltb, leb, if◌then◌else◌, Text, codes,
}
use tash.Prompt.Editor.{
  buffer_size, Editor, Edited, kept, overflow, divided, ◌>>=◌, stored, memmove, redraw,
}

-- `entries` are the names that `readdir` gives of a directory, or `none` where it cannot be opened;
-- `is_directory` is the answer of `stat`; `columns` the width of the terminal; `eof_key` is
-- c_cc[VEOF].
pub record Terminal : Type 0 where
  pub entries : Text → Option (List Text)
  pub is_directory : Text → Bool
  pub columns : ℕ
  pub eof_key : ℕ

abbrev pub is_blank : ℕ → Bool
is_blank c = c == b' ' || c == 9

-- `dir` and `file`: up to the last slash and from there.
abbrev pub join_head : ℕ → Text × Text → Text × Text
join_head c ([], file) = if c == b'/' then (c ∷ [], file) else ([], c ∷ file)
join_head c (d ∷ dir, file) = (c ∷ d ∷ dir, file)

unfoldable pub split_path : Text → Text × Text
split_path [] = ([], [])
split_path (c ∷ cs) = join_head c (split_path cs)

-- strncmp(name, file, strlen(file)) is 0.
unfoldable pub starts_with : Text → Text → Bool
starts_with name [] = true
starts_with [] (c ∷ cs) = false
starts_with (d ∷ ds) (c ∷ cs) = c == d && starts_with ds cs

abbrev pub fill_name : Terminal → Text → Text → Text
fill_name t dir name =
    let path = dir ++ name in if t.is_directory path then path ++ codes "/" else path

unfoldable pub fill_names : Terminal → Text → Text → List Text → List Text
unfolding starts_with
fill_names t dir file [] = []
fill_names t dir file (name ∷ names) =
    let rest = fill_names t dir file names in
    if starts_with name file then fill_name t dir name ∷ rest else rest

abbrev pub opened_dir : Text → Text
opened_dir [] = codes "."
opened_dir (c ∷ cs) = c ∷ cs

-- NULL is the empty list: both are left alone.
unfoldable pub autocomplete : Terminal → Text → List Text
unfolding split_path fill_names
autocomplete t str =
    let (dir, file) = split_path str in
    elim (t.entries (opened_dir dir)) [ none ↦ [] | some names ↦ fill_names t dir file names ]

-- The first place where two texts differ.
unfoldable pub common_length : Text → Text → ℕ
common_length [] b = 0
common_length (c ∷ cs) [] = 0
common_length (c ∷ cs) (d ∷ ds) = let n = common_length cs ds in if c == d then suc n else 0

abbrev pub smaller : ℕ → ℕ → ℕ
smaller a b = if ltb a b then a else b

-- The loop that brings `common` down to what all of them share with the first.
unfoldable pub narrow : Text → List Text → ℕ → ℕ
unfolding common_length
narrow first [] common = common
narrow first (name ∷ names) common = narrow first names (smaller (common_length first name) common)

unfoldable pub widest : List Text → ℕ
widest [] = 0
widest (name ∷ names) = let n = widest names in if ltb n (length name) then length name else n

-- The two loops that find the word at the cursor.
unfoldable pub back_to_blank : (ℕ → ℕ) → ℕ → ℕ
back_to_blank cells zero = 0
back_to_blank cells (suc k) =
    let rest = back_to_blank cells k in if is_blank (cells (suc k)) then suc k else rest

unfoldable pub word_start : Editor → ℕ
unfolding back_to_blank
word_start e =
    let s = back_to_blank e.cells (e.cursor - 1) in
    if is_blank (e.cells s) && ltb s e.cursor then s + 1 else s

unfoldable pub to_blank : (ℕ → ℕ) → ℕ → ℕ → ℕ
to_blank cells i zero = i
to_blank cells i (suc n) =
    let rest = to_blank cells (suc i) n in if is_blank (cells i) then i else rest

unfoldable pub word_end : Editor → ℕ
unfolding to_blank
word_end e = to_blank e.cells e.cursor (e.len - e.cursor)

unfoldable pub contents : (ℕ → ℕ) → ℕ → ℕ → Text
contents cells i zero = []
contents cells i (suc n) = cells i ∷ contents cells (suc i) n

abbrev pub copied : ℕ → Text → (ℕ → ℕ) → ℕ → ℕ
copied i [] cells = cells
copied i (c ∷ cs) cells = copied (suc i) cs (stored i c cells)

-- memcpy(&prompt_buf[i], text, strlen(text))
unfoldable pub memcpy : ℕ → Text → Editor → Edited
memcpy i text e =
    if leb (i + length text) buffer_size
    then kept (record e { cells = copied i text e.cells })
    else overflow

abbrev pub first_bytes : ℕ → Text → Text
first_bytes zero text = []
first_bytes (suc n) [] = []
first_bytes (suc n) (c ∷ cs) = c ∷ first_bytes n cs

-- The list of the possibilities: what is left of it is the division for its lines, and the redraw.
unfoldable pub show_fills : Terminal → List Text → Editor → Edited
unfolding widest redraw
show_fills t fills e = if t.columns / (widest fills + 1) == 0 then divided else redraw e

unfoldable pub fill_in : ℕ → ℕ → Text → Editor → Edited
unfolding memmove memcpy
fill_in start end text e =
    memmove (start + length text) end (e.len - end) e
    >>= (λ e1. memcpy start text (record e1 { len = e1.len + length text - (end - start) }))
    >>= (λ e2. kept (record e2 { cursor = start + length text }))

unfoldable pub with_fills : Terminal → ℕ → ℕ → List Text → Editor → Edited
unfolding narrow show_fills fill_in
with_fills t start end [] e = kept e
with_fills t start end (first ∷ more) e =
    let common = narrow first (first ∷ more) (length first) in
    if leb common (end - start) || common == 0
    then show_fills t (first ∷ more) e
    else fill_in start end (first_bytes common first) e

unfoldable pub handle_autocompletion : Terminal → Editor → Edited
unfolding word_start word_end contents autocomplete with_fills
handle_autocompletion t e =
    let start = word_start e in
    let end = word_end e in
    with_fills t start end (autocomplete t (contents e.cells start (end - start))) e
