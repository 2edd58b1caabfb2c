-- ===== src/Prompt/Show.antt =====
-- The printing of a prompt (`show_prompt` and `show_cwd` of src/prompt.c), built with
-- HAVE_GETHOSTNAME. The text comes back in place of being printed, with the HOME of the environment,
-- whose string show_cwd shortens in place.
use tash.Base.{
  ℕ, ◌%◌, ◌≡◌, refl, ap, sym, ◌∙◌, Bool-cases, inl, inr, append_assoc, Bool, false, ◌||◌, Option,
  none, some, List, [], ◌∷◌, ◌++◌, drop, length, ◌==◌, ltb, if◌then◌else◌, Text, codes, arith,
}
use tash.Vars.{Var, getvar}
use tash.Prompt.Completion.{starts_with}

-- What the system says; `decimal` is %d, and `directory` the answer of `getcwd`.
pub record Host : Type 0 where
  pub hour : ℕ
  pub minute : ℕ
  pub second : ℕ
  pub decimal : ℕ → Text
  pub version : Text
  pub directory : Text
  pub hostname : Text
  pub logname : Option Text
  pub superuser : Bool

-- A slash at the end is taken off.
unfoldable pub without_slash : Text → Text
without_slash [] = []
without_slash (c ∷ []) = if c == b'/' then [] else c ∷ []
without_slash (c ∷ d ∷ cs) = c ∷ without_slash (d ∷ cs)

-- `char *home` behind the removal of the slash.
abbrev pub home_of : Option Text → Text
unfolding without_slash
home_of none = codes "/home"
home_of (some home) = without_slash home

-- The NUL for the slash is written into the string of the environment, if HOME is set.
abbrev pub home_behind : Option Text → Option Text
unfolding without_slash
home_behind none = none
home_behind (some home) = some (without_slash home)

unfoldable pub show_cwd : Host → Option Text → Text × Option Text
unfolding starts_with without_slash
show_cwd h home =
    let dir = home_of home in
    if starts_with h.directory dir
    then (b'~' ∷ drop (length dir) h.directory, home_behind home)
    else (h.directory, home_behind home)

abbrev pub colon : Text → Text → Text
colon a b = a ++ codes ":" ++ b

abbrev pub clock : Host → ℕ → Text
clock h hour = colon (h.decimal hour) (colon (h.decimal h.minute) (h.decimal h.second))

abbrev pub name_or_nothing : Option Text → Text
name_or_nothing none = []
name_or_nothing (some t) = t

-- The switch on the character behind a backslash, but for W and w.
unfoldable pub escaped_text : Host → ℕ → Text
escaped_text h c =
    if c == b'a'
    then 7 ∷ []
    else if c == b'e'
    then 27 ∷ []
    else if c == b'n'
    then 10 ∷ []
    else if c == b'r'
    then 13 ∷ []
    else if c == b's'
    then codes "tash"
    else if c == b't'
    then clock h h.hour
    else if c == b'T'
    then clock h (if ltb 13 h.hour then h.hour % 12 else h.hour)
    else if c == b'@'
    then codes (if ltb 12 h.hour then "pm" else "am")
    else if c == b'A'
    then colon (h.decimal h.hour) (h.decimal h.minute)
    else if c == b'V' || c == b'v'
    then h.version
    else if c == b'h'
    then h.hostname
    else if c == b'u'
    then name_or_nothing h.logname
    else if c == b'$'
    then (if h.superuser then b'#' ∷ [] else b'$' ∷ [])
    else []

unfoldable pub escape : Host → Option Text → ℕ → Text × Option Text
unfolding show_cwd escaped_text
escape h home c = if c == b'W' || c == b'w' then show_cwd h home else (escaped_text h c, home)

-- What is printed, and HOME behind it; `past_end` is a read behind the NUL of the prompt.
pub data Shown : Type 0 where
  shown : Text → Option Text → Shown
  past_end : Shown

abbrev pub before : Text → Shown → Shown
before t (shown s home) = shown (t ++ s) home
before t past_end = past_end

-- Behind a backslash at the end the NUL is stepped over like any other character.
unfoldable pub show_prompt : Host → Option Text → Text → Shown
unfolding escape
show_prompt h home [] = shown [] home
show_prompt h home (c ∷ []) = if c == b'\\' then past_end else shown (c ∷ []) home
show_prompt h home (c ∷ d ∷ cs) =
    let (t, home') = escape h home d in
    let escaped = before t (show_prompt h home' cs) in
    let plain = before (c ∷ []) (show_prompt h home (d ∷ cs)) in
    if c == b'\\' then escaped else plain

-- PS1 or PS2, with their defaults.
abbrev pub or_default : Text → Option Text → Text
or_default t none = t
or_default t (some v) = v

-- `print_prompt`, for the 1 or 2 of `prompt`; the variables are those of the shell.
unfoldable pub print_prompt : Host → List Var → Option Text → ℕ → Shown
unfolding getvar show_prompt
print_prompt h vars home prompt =
    if prompt == 1
    then show_prompt h home (or_default (codes "\\$ ") (getvar (codes "PS1") vars))
    else if prompt == 2
    then show_prompt h home (or_default (codes "> ") (getvar (codes "PS2") vars))
    else shown [] home

before-before : (t u : Text) (s : Shown) → before t (before u s) ≡ before (t ++ u) s
before-before t u (shown s home) = ap (λ v. shown v home) (sym (append_assoc t u s))
before-before t u past_end = refl

before-nil : (s : Shown) → before [] s ≡ s
before-nil (shown s home) = refl
before-nil past_end = refl

before-shown :
    (t u : Text) (s : Shown) (home : Option Text)
    → before t s ≡ shown u home
    → (v : Text) × (s ≡ shown v home) × (u ≡ t ++ v)
before-shown t u (shown v home') home e = (v, ground arith, ground arith)
before-shown t u past_end home e = ground arith

-- A character that stands for itself.
plain_char :
    (h : Host) (home : Option Text) (c : ℕ) (s : Text)
    → (c == b'\\') ≡ false
    → show_prompt h home (c ∷ s) ≡ before (c ∷ []) (show_prompt h home s)
unfolding show_prompt
plain_char h home c [] e = rw e refl
plain_char h home c (d ∷ ds) e = rw e refl

-- What stands for the first piece, before a rest that is done.
behind_piece :
    (h : Host) (start home : Option Text) (w t u s : Text)
    → before w (show_prompt h start t) ≡ shown u home
    → ((v : Text)
        → show_prompt h start t ≡ shown v home
        → show_prompt h start (t ++ s) ≡ before v (show_prompt h home s))
    → before w (show_prompt h start (t ++ s)) ≡ before u (show_prompt h home s)
behind_piece h start home w t u s e ih =
    let (v, q, p) = before-shown w u (show_prompt h start t) home e in
    ap (before w) (ih v q)
    ∙ before-before w v (show_prompt h home s)
    ∙ ap (λ y. before y (show_prompt h home s)) (sym p)

show_prompt-before :
    (h : Host) (start home : Option Text) (t u s : Text)
    → show_prompt h start t ≡ shown u home
    → show_prompt h start (t ++ s) ≡ before u (show_prompt h home s)
unfolding show_prompt
show_prompt-before h start home [] u s e =
    let same : start ≡ home = ground arith in
    let empty : [] ≡ u = ground arith in
    sym (before-nil (show_prompt h start s))
    ∙ ap (λ y. before y (show_prompt h start s)) empty
    ∙ ap (λ z. before u (show_prompt h z s)) same
show_prompt-before h start home (c ∷ []) u s e = elim (Bool-cases (c == b'\\')) [
  | inl slash ↦ absurd (ground (arith, slash))
  | inr plain ↦
      let same : start ≡ home = ground (arith, plain) in
      let one : c ∷ [] ≡ u = ground (arith, plain) in
      plain_char h start c s plain
      ∙ ap (λ y. before y (show_prompt h start s)) one
      ∙ ap (λ z. before u (show_prompt h z s)) same
]
show_prompt-before h start home (c ∷ d ∷ cs) u s e = elim (Bool-cases (c == b'\\')) [
  | inl slash ↦
      let (t, next) = escape h start d in
      let piece : before t (show_prompt h next cs) ≡ shown u home = rw slash at e in
      rw slash
        (behind_piece h next home t cs u s piece (λ v q. show_prompt-before h next home cs v s q))
  | inr plain ↦
      let piece : before (c ∷ []) (show_prompt h start (d ∷ cs)) ≡ shown u home = rw plain at e in
      rw plain (
        behind_piece h start home (c ∷ []) (d ∷ cs) u s piece
          (λ v q. show_prompt-before h start home (d ∷ cs) v s q))
]

-- Where a prompt is printed as `u` and leaves the HOME `home`, the same prompt with more behind it is
-- printed as `u` and what is printed for the rest under that HOME; so with a single backslash behind
-- it, it is read beyond its end.
pub show_prompt-append :
    (h : Host) (start home : Option Text) (t u s : Text)
    → show_prompt h start t ≡ shown u home
    → (show_prompt h start (t ++ s) ≡ before u (show_prompt h home s))
      × (show_prompt h start (t ++ codes "\\") ≡ past_end)
unfolding show_prompt
show_prompt-append h start home t u s e =
    (show_prompt-before h start home t u s e, show_prompt-before h start home t u (codes "\\") e)
