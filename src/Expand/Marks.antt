-- ===== src/Expand/Marks.antt =====
-- A text whose active bytes all carry a CTLESC goes through field splitting (src/expand.c) as one
-- field, unchanged.
use tash.Base.{
  ℕ, ◌≡◌, refl, ap, ◌∙◌, Bool, true, false, ◌||◌, some, List, [], ◌∷◌, ◌++◌, append_assoc,
  append-nil, ◌==◌, if◌then◌else◌, Text, All, arith, Bool-cases, inl, inr,
}
use tash.Glob.Pattern.{ctlesc, ctlquot}
use tash.Parser.Tree.{Word}
use tash.Expand.Quoting.{is_marked, remove_ctlesc, append_safe}
use tash.Expand.Split.{Splitting, push, split_loop, finish_split, word_spliting, at_char, is_nil}

-- A CTLESC before every byte that `p` holds of.
unfoldable pub mark : (ℕ → Bool) → Text → Text
mark p [] = []
mark p (c ∷ cs) = if p c then ctlesc ∷ c ∷ mark p cs else c ∷ mark p cs

-- No byte is a CTLESC.
abbrev pub IsClean : Text → Type 0
IsClean s = All (λ c. (c == ctlesc) ≡ false) s

pub remove_ctlesc-mark : (p : ℕ → Bool) (s : Text) → IsClean s → remove_ctlesc (mark p s) ≡ s
unfolding remove_ctlesc mark
remove_ctlesc-mark p [] h = refl
remove_ctlesc-mark p (c ∷ s) h = ground (arith, remove_ctlesc-mark p s h.1)

abbrev marked_byte : Bool → ℕ → Text
marked_byte b c = if b then ctlesc ∷ c ∷ [] else c ∷ []

append-marked :
    (b : Bool) (dest rest : Text) (c : ℕ)
    → (dest ++ marked_byte b c) ++ rest ≡ dest ++ (if b then ctlesc ∷ c ∷ rest else c ∷ rest)
append-marked true dest rest c = append_assoc dest (ctlesc ∷ c ∷ []) rest
append-marked false dest rest c = append_assoc dest (c ∷ []) rest

-- What `append_safe` appends.
pub append_safe-mark :
    (dest s : Text) (in_quote : Bool)
    → append_safe dest s in_quote ≡ dest ++ mark (is_marked in_quote) s
unfolding append_safe mark
append_safe-mark dest [] in_quote = rw append-nil
append_safe-mark dest (c ∷ s) in_quote =
    append_safe-mark (dest ++ marked_byte (is_marked in_quote c) c) s in_quote
    ∙ append-marked (is_marked in_quote c) dest (mark (is_marked in_quote) s) c

-- The bytes at which `word_spliting` does more than copy.
abbrev pub is_active : ℕ → Bool
is_active c =
    c == ctlesc || c == ctlquot || c == b' ' || c == b'\t' || c == b'\n' || c == b'*' || c == b'?'

is_nil-mark :
    (files : Text → List Text) (no_globing : Bool) (p : ℕ → Bool) (c : ℕ) (s : Text)
    → is_nil files no_globing (mark p (c ∷ s)) ≡ false
unfolding is_nil mark
is_nil-mark files no_globing p c s = ground arith

finish_split-mark :
    (files : Text → List Text) (no_globing : Bool) (p : ℕ → Bool) (strings : List Text) (s : Text)
    (split : Bool)
    → IsClean s
    → finish_split files no_globing split true
        (record { strings = strings; v = mark p s; has_split = false; has_globing = false })
      ≡ strings ++ (s ∷ [])
unfolding finish_split mark
finish_split-mark files no_globing p strings [] true h = refl
finish_split-mark files no_globing p strings [] false h = refl
finish_split-mark files no_globing p strings (c ∷ s) split h =
    ground (arith, is_nil-mark files no_globing p c s, remove_ctlesc-mark p (c ∷ s) h)

-- `p` marks every active byte.
abbrev pub Covers : (ℕ → Bool) → Type 0
Covers p = (c : ℕ) → p c ≡ false → is_active c ≡ false

abbrev pushed : Text → Splitting → Splitting
pushed s st = record st { v = st.v ++ s }

module _ (files : Text → List Text) (no_globing : Bool) where
  split_loop-nil :
      (split : Bool) (st : Splitting)
      → split_loop files no_globing split [] st ≡ some (pushed [] st)
  unfolding split_loop
  split_loop-nil split st = rw append-nil

module _ (files : Text → List Text) (no_globing : Bool) (p : ℕ → Bool) (marks : Covers p) where
  at_char-plain :
      (split : Bool) (c : ℕ) (st : Splitting)
      → p c ≡ false
      → at_char files no_globing split c st ≡ push c st
  unfolding at_char
  at_char-plain split c st h = ground (arith, marks c h)

  split_loop-marked :
      (split : Bool) (c : ℕ) (rest : Text) (st : Splitting)
      → split_loop files no_globing split (ctlesc ∷ c ∷ rest) st
        ≡ split_loop files no_globing split rest (push c (push ctlesc st))
  unfolding split_loop
  split_loop-marked split c rest st = refl

  split_loop-plain :
      (split : Bool) (c : ℕ) (rest : Text) (st : Splitting)
      → p c ≡ false
      → split_loop files no_globing split (c ∷ rest) st
        ≡ split_loop files no_globing split rest (push c st)
  unfolding split_loop
  split_loop-plain split c rest st h = ground (arith, marks c h, at_char-plain split c st h)

  pub split_loop-mark :
      (split : Bool) (s : Text) (st : Splitting)
      → split_loop files no_globing split (mark p s) st ≡ some (pushed (mark p s) st)
  unfolding mark
  split_loop-mark split [] st = split_loop-nil files no_globing split st
  split_loop-mark split (c ∷ s) st = elim (Bool-cases (p c)) [
    | inl e ↦ rw e (
        split_loop-marked split c (mark p s) st
        ∙ split_loop-mark split s (push c (push ctlesc st))
        ∙ ap (λ v. some (record st { v = v }))
            (append_assoc (st.v ++ (ctlesc ∷ [])) (c ∷ []) (mark p s)
              ∙ append_assoc st.v (ctlesc ∷ []) (c ∷ mark p s)))
    | inr e ↦ rw e (
        split_loop-plain split c (mark p s) st e
        ∙ split_loop-mark split s (push c st)
        ∙ ap (λ v. some (record st { v = v })) (append_assoc st.v (c ∷ []) (mark p s)))
  ]

  -- Such a text, in a word with quotes, becomes one field, whether fields are split or not and
  -- whatever files there are.
  pub word_spliting-mark :
      (w : Word) (strings : List Text) (s : Text) (split : Bool)
      → w.quoted ≡ true
      → IsClean s
      → word_spliting files no_globing w strings (mark p s) split ≡ some (strings ++ (s ∷ []))
  unfolding word_spliting
  word_spliting-mark w strings s split q h =
      rw
        (
          split_loop-mark split s
              (record { strings = strings; v = []; has_split = false; has_globing = false }),
          word_spliting,
        )
        (rw q (ap some (finish_split-mark files no_globing p strings s split h)))
