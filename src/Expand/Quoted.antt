-- ===== src/Expand/Quoted.antt =====
-- Quoted words through the whole expansion (src/expand.c): a text between quotation marks whose
-- active bytes carry a CTLESC, and a variable in double quotes.
use tash.Base.{
  ℕ, zero, suc, ◌+◌, ◌-◌, ◌≤◌, ◌≡◌, refl, ap, ◌∙◌, Bool, true, false, not, ◌&&◌, ◌||◌, some, List,
  [], ◌∷◌, ◌++◌, append_assoc, append-nil, ◌==◌, Text, All, leb, arith, Bool-cases, inl, inr,
  length,
}
use tash.Builtins.State.{ℤ}
use tash.Vars.{getvar}
use tash.Glob.Pattern.{ctlesc, ctlquot}
use tash.Parser.Tree.{Node, Word}
use tash.Parser.Command.{is_alpha, is_alnum}
use tash.Expand.Quoting.{is_marked, append_safe}
use tash.Expand.Shell.{Expanded, Shell, ok, ◌>>=◌}
use tash.Expand.Param.{take_name, read_param, append_value}
use tash.Expand.Word.{expand_string_ctl, expansion_loop, handle_var}
use tash.Expand.Split.{expand_words, word_expansion, of_splitting}
use tash.Expand.Marks.{mark, IsClean, Covers, word_spliting-mark, append_safe-mark}

-- The bytes at which `first_expansion` does more than copy, outside braces.
abbrev pub is_expanding : ℕ → Bool
is_expanding c = c == ctlesc || c == ctlquot || c == b'$' || c == b'`'

abbrev pub Guards : (ℕ → Bool) → Type 0
Guards p = (c : ℕ) → p c ≡ false → is_expanding c ≡ false

-- A text between two CTLQUOT.
abbrev pub between_quotes : Text → Text
between_quotes t = ctlquot ∷ (t ++ (ctlquot ∷ []))

module _ (number : ℤ → Text) (child : Node → Shell → Expanded (List Text)) where
  expansion_loop-marked :
      (f : ℕ) (dest rest : Text) (c : ℕ) (in_quote : Bool) (sh : Shell)
      → expansion_loop number child (suc f) dest (ctlesc ∷ c ∷ rest) false in_quote sh
        ≡ expansion_loop number child f (dest ++ (ctlesc ∷ c ∷ [])) rest false in_quote sh
  unfolding expansion_loop
  expansion_loop-marked f dest rest c in_quote sh = refl

  expansion_loop-plain :
      (f : ℕ) (dest rest : Text) (c : ℕ) (in_quote : Bool) (sh : Shell)
      → is_expanding c ≡ false
      → expansion_loop number child (suc f) dest (c ∷ rest) false in_quote sh
        ≡ expansion_loop number child f (dest ++ (c ∷ [])) rest false in_quote sh
  unfolding expansion_loop
  expansion_loop-plain f dest rest c in_quote sh h = ground arith

  expansion_loop-quot :
      (f : ℕ) (dest rest : Text) (in_quote : Bool) (sh : Shell)
      → expansion_loop number child (suc f) dest (ctlquot ∷ rest) false in_quote sh
        ≡ expansion_loop number child f dest rest false (not in_quote) sh
  unfolding expansion_loop
  expansion_loop-quot f dest rest in_quote sh = refl

  expansion_loop-nil :
      (f : ℕ) (dest : Text) (in_quote : Bool) (sh : Shell)
      → expansion_loop number child (suc f) dest [] false in_quote sh ≡ ok (dest, []) sh
  unfolding expansion_loop
  expansion_loop-nil f dest in_quote sh = refl

  module _ (p : ℕ → Bool) (guards : Guards p) where
    expansion_loop-mark :
        (f g : ℕ) (dest s rest : Text) (in_quote : Bool) (sh : Shell)
        → f ≡ length s + g
        → expansion_loop number child f dest (mark p s ++ rest) false in_quote sh
          ≡ expansion_loop number child g (dest ++ mark p s) rest false in_quote sh
    unfolding mark
    expansion_loop-mark f g dest [] rest in_quote sh e =
        let e' : f ≡ g = omega arith in rw (append-nil, e')
    expansion_loop-mark zero g dest (c ∷ s) rest in_quote sh e = absurd (omega arith)
    expansion_loop-mark (suc f) g dest (c ∷ s) rest in_quote sh e = elim (Bool-cases (p c)) [
      | inl m ↦ rw m (
          expansion_loop-marked f dest (mark p s ++ rest) c in_quote sh
          ∙ expansion_loop-mark f g (dest ++ (ctlesc ∷ c ∷ [])) s rest in_quote sh (omega arith)
          ∙ ap (λ d. expansion_loop number child g d rest false in_quote sh)
              (append_assoc dest (ctlesc ∷ c ∷ []) (mark p s)))
      | inr m ↦ rw m (
          expansion_loop-plain f dest (mark p s ++ rest) c in_quote sh (guards c m)
          ∙ expansion_loop-mark f g (dest ++ (c ∷ [])) s rest in_quote sh (omega arith)
          ∙ ap (λ d. expansion_loop number child g d rest false in_quote sh)
              (append_assoc dest (c ∷ []) (mark p s)))
    ]

  -- A word that starts with a quotation mark is not a tilde.
  expand_string_ctl-quot :
      (f : ℕ) (rest : Text) (sh : Shell)
      → expand_string_ctl number child (suc (suc f)) (ctlquot ∷ rest) false sh
        ≡ expansion_loop number child f [] rest false true sh
  unfolding expand_string_ctl
  expand_string_ctl-quot f rest sh = refl

  expand_string_ctl-mark :
      (p : ℕ → Bool) (f : ℕ) (s : Text) (sh : Shell)
      → Guards p
      → length s + 4 ≤ f
      → expand_string_ctl number child f (between_quotes (mark p s)) false sh ≡ ok (mark p s, []) sh
  expand_string_ctl-mark p zero s sh guards h = absurd (omega arith)
  expand_string_ctl-mark p (suc zero) s sh guards h = absurd (omega arith)
  expand_string_ctl-mark p (suc (suc f)) s sh guards h =
      let g = f - length s - 2 in
      expand_string_ctl-quot f (mark p s ++ (ctlquot ∷ [])) sh
      ∙ expansion_loop-mark p guards f (suc (suc g)) [] s (ctlquot ∷ []) true sh (omega arith)
      ∙ expansion_loop-quot (suc g) (mark p s) [] true sh
      ∙ expansion_loop-nil g (mark p s) false sh

  module _ (files : Text → List Text) where
    -- A word of one part, from its expansion.
    word_expansion-one :
        (p : ℕ → Bool) (f : ℕ) (w : Word) (s : Text) (split : Bool) (sh : Shell)
        → Covers p
        → w.quoted ≡ true
        → IsClean s
        → expand_string_ctl number child f w.text false sh ≡ ok (mark p s, []) sh
        → word_expansion number child files f (w ∷ []) split sh ≡ ok (s ∷ []) sh
    unfolding word_expansion
    word_expansion-one p f w s split sh covers q clean e =
        rw (e, expand_words)
          (rw (word_spliting-mark files sh.no_globing p covers w [] s split q clean, of_splitting)
            refl)

    -- A word that holds a text between two quotation marks, whose bytes that are active anywhere
    -- in the expansion all carry a CTLESC, expands to that text as one field, and the shell stays
    -- as it is: whatever the variables, the files, the flags and the mode of splitting are. The
    -- text holds no CTLESC itself.
    pub word_expansion-literal :
        (p : ℕ → Bool) (f : ℕ) (w : Word) (s : Text) (split : Bool) (sh : Shell)
        → Covers p
        → Guards p
        → w.text ≡ between_quotes (mark p s)
        → w.quoted ≡ true
        → IsClean s
        → length s + 4 ≤ f
        → word_expansion number child files f (w ∷ []) split sh ≡ ok (s ∷ []) sh
    word_expansion-literal p f w s split sh covers guards e q clean h =
        word_expansion-one p f w s split sh covers q clean
          (rw e (expand_string_ctl-mark p f s sh guards h))

-- The bytes that `append_safe` marks between quotes.
is_marked-Covers : Covers (is_marked true)
is_marked-Covers c h = ground arith

abbrev pub is_name_byte : ℕ → Bool
is_name_byte c = is_alnum c || c == b'_'

-- A name of a variable.
abbrev pub IsName : Text → Type 0
IsName [] = ⊥
IsName (c ∷ cs) = ((is_alpha c || c == b'_') ≡ true) × All (λ d. is_name_byte d ≡ true) cs

-- The first byte of a name is none of those that `handle_var` tests for.
record IsStart (c : ℕ) : Type 0 where
  not_paren : (c == b'(') ≡ false
  not_brace : (c == b'{') ≡ false
  not_dollar : (c == b'$') ≡ false
  not_bang : (c == b'!') ≡ false
  not_question : (c == b'?') ≡ false
  not_hash : (c == b'#') ≡ false
  not_at : (c == b'@') ≡ false
  not_star : (c == b'*') ≡ false
  not_zero : (c == b'0') ≡ false
  not_digit : (leb b'1' c && leb c b'9') ≡ false
  name_byte : is_name_byte c ≡ true

IsStart-byte : (c : ℕ) → (is_alpha c || c == b'_') ≡ true → IsStart c
IsStart-byte c h = record {
  not_paren = ground arith;
  not_brace = ground arith;
  not_dollar = ground arith;
  not_bang = ground arith;
  not_question = ground arith;
  not_hash = ground arith;
  not_at = ground arith;
  not_star = ground arith;
  not_zero = ground arith;
  not_digit = ground arith;
  name_byte = ground arith;
}

take_name-quot :
    (cs : Text)
    → All (λ d. is_name_byte d ≡ true) cs
    → take_name (cs ++ (ctlquot ∷ [])) ≡ (cs, ctlquot ∷ [])
unfolding take_name
take_name-quot [] h = refl
take_name-quot (c ∷ cs) h = rw (take_name-quot cs h.1, take_name) (rw h.0)

take_name-cons :
    (c : ℕ) (cs : Text)
    → is_name_byte c ≡ true
    → All (λ d. is_name_byte d ≡ true) cs
    → take_name (c ∷ (cs ++ (ctlquot ∷ []))) ≡ (c ∷ cs, ctlquot ∷ [])
take_name-cons c cs h hs = take_name-quot (c ∷ cs) (h, hs)

module _ (number : ℤ → Text) (child : Node → Shell → Expanded (List Text)) where
  read_param-name :
      (dest : Text) (c : ℕ) (cs : Text) (sh : Shell)
      → IsName (c ∷ cs)
      → read_param number dest true false (c ∷ (cs ++ (ctlquot ∷ []))) sh
        ≡ some (record {
          value = getvar (c ∷ cs) sh.vars;
          var = some (c ∷ cs);
          handled = false;
          dest = dest;
          rest = ctlquot ∷ [];
        })
  unfolding read_param
  read_param-name dest c cs sh h =
      let t = IsStart-byte c h.0 in
      ground (
        arith,
        t.not_dollar,
        t.not_bang,
        t.not_question,
        t.not_hash,
        t.not_at,
        t.not_star,
        t.not_zero,
        t.not_digit,
        t.name_byte,
        take_name-cons c cs t.name_byte h.1,
      )

  handle_var-name :
      (f : ℕ) (dest : Text) (c : ℕ) (cs v : Text) (sh : Shell)
      → IsName (c ∷ cs)
      → getvar (c ∷ cs) sh.vars ≡ some v
      → handle_var number child (suc f) dest (c ∷ (cs ++ (ctlquot ∷ []))) true sh
        ≡ ok (append_safe dest v true, ctlquot ∷ []) sh
  unfolding handle_var append_value
  handle_var-name f dest c cs v sh h e =
      let t = IsStart-byte c h.0 in
      ground (arith, t.not_paren, t.not_brace, read_param-name dest c cs sh h, e)

  expansion_loop-var :
      (f : ℕ) (dest rest : Text) (in_quote : Bool) (sh : Shell)
      → expansion_loop number child (suc f) dest (b'$' ∷ rest) false in_quote sh ≡ (
          handle_var number child f dest rest in_quote sh
          >>= (λ (d, r) sh'. expansion_loop number child f d r false in_quote sh'))
  unfolding expansion_loop
  expansion_loop-var f dest rest in_quote sh = refl

  expansion_loop-name :
      (f : ℕ) (name v : Text) (sh : Shell)
      → IsName name
      → getvar name sh.vars ≡ some v
      → expansion_loop number child
          (suc (suc (suc f)))
          []
          (b'$' ∷ (name ++ (ctlquot ∷ [])))
          false
          true
          sh
        ≡ expansion_loop number child (suc f) (append_safe [] v true) [] false false sh
  unfolding expansion_loop
  expansion_loop-name f [] v sh h e = absurd h
  expansion_loop-name f (c ∷ cs) v sh h e =
      expansion_loop-var (suc (suc f)) [] (c ∷ (cs ++ (ctlquot ∷ []))) true sh
      ∙ rw (handle_var-name (suc f) [] c cs v sh h e)
          (expansion_loop-quot number child (suc f) (append_safe [] v true) [] true sh)

  expand_string_ctl-name :
      (f : ℕ) (name v : Text) (sh : Shell)
      → IsName name
      → getvar name sh.vars ≡ some v
      → 5 ≤ f
      → expand_string_ctl number child f (between_quotes (b'$' ∷ name)) false sh
        ≡ ok (mark (is_marked true) v, []) sh
  expand_string_ctl-name f name v sh h e le =
      let g = f - 5 in
      let fuel : f ≡ suc (suc (suc (suc (suc g)))) = omega arith in
      rw fuel (
        expand_string_ctl-quot number child (suc (suc (suc g))) (b'$' ∷ (name ++ (ctlquot ∷ []))) sh
        ∙ expansion_loop-name g name v sh h e
        ∙ expansion_loop-nil number child g (append_safe [] v true) false sh
        ∙ ap (λ d. ok (d, []) sh) (append_safe-mark [] v true))

  -- A word that is `$name` in double quotes, where the name is set, expands to the value as the only
  -- field, whatever blanks, wildcards, quotation marks, `$` or backquotes the value holds, and
  -- leaves the shell as it was, whether fields are split or not. The value holds no CTLESC, and the
  -- fuel is five at least.
  pub word_expansion-variable :
      (files : Text → List Text) (f : ℕ) (w : Word) (name v : Text) (split : Bool) (sh : Shell)
      → w.text ≡ between_quotes (b'$' ∷ name)
      → w.quoted ≡ true
      → IsName name
      → getvar name sh.vars ≡ some v
      → IsClean v
      → 5 ≤ f
      → word_expansion number child files f (w ∷ []) split sh ≡ ok (v ∷ []) sh
  word_expansion-variable files f w name v split sh e q h g clean le =
      word_expansion-one number child files (is_marked true) f w v split sh is_marked-Covers q clean
        (rw e (expand_string_ctl-name f name v sh h g le))
