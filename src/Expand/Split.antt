-- ===== src/Expand/Split.antt =====
-- Field splitting (`split_word`, `word_spliting` and `word_expansion` of src/expand.c).
use tash.Base.{
  ℕ, Bool, true, false, not, ◌&&◌, ◌||◌, Option, none, some, List, [], ◌∷◌, ◌++◌, ◌==◌,
  if◌then◌else◌, Text,
}
use tash.Builtins.State.{ℤ}
use tash.Glob.Pattern.{ctlesc, ctlquot}
use tash.Parser.Tree.{Node, Word}
use tash.Expand.Quoting.{remove_ctlesc}
use tash.Expand.Shell.{Shell, Expanded, ok, crashed, ◌>>=◌}
use tash.Expand.Word.{expand_string_ctl}

-- The state of `word_spliting`: the strings found, the vector `v`, `has_split` and `has_globing`.
pub record Splitting : Type 0 where
  pub strings : List Text
  pub v : Text
  pub has_split : Bool
  pub has_globing : Bool

abbrev is_blank : ℕ → Bool
is_blank c = c == b' ' || c == b'\t' || c == b'\n'

abbrev pub push : ℕ → Splitting → Splitting
push c st = record st { v = st.v ++ (c ∷ []) }

-- `files` is `glob_files`; `no_globing` the flag TASH_NO_GLOBING.
module _ (files : Text → List Text) (no_globing : Bool) where
  abbrev fields_of : List Text → Text → List Text
  fields_of [] v = remove_ctlesc v ∷ []
  fields_of (file ∷ more) v = file ∷ more

  unfoldable pub split_word : Splitting → Splitting
  unfolding remove_ctlesc
  split_word st = record {
    strings =
        st.strings
        ++ (if st.has_globing && not no_globing
            then fields_of (files st.v) st.v
            else remove_ctlesc st.v ∷ []);
    v = [];
    has_split = st.has_split;
    has_globing = false;
  }

  unfoldable pub is_nil : Text → Bool
  is_nil [] = true
  is_nil (_ ∷ _) = false

  -- A blank: a field ends, if there is one and fields are split.
  at_blank : Bool → ℕ → Splitting → Splitting
  unfolding split_word is_nil
  at_blank split c st =
      if not split
      then push c st
      else if is_nil st.v
      then st
      else record (split_word st) { has_split = true }

  unfoldable pub at_char : Bool → ℕ → Splitting → Splitting
  unfolding at_blank
  at_char split c st =
      if c == ctlquot
      then st
      else if is_blank c
      then at_blank split c st
      else if c == b'*' || c == b'?'
      then record (push c st) { has_globing = true }
      else push c st

  -- The loop; `none` is a CTLESC at the end, behind which it would read on.
  unfoldable mutual
    unfolding at_char

    pub split_loop : Bool → Text → Splitting → Option Splitting
    split_loop split [] st = some st
    split_loop split (c ∷ cs) st =
        let escaped = split_escaped split cs (push c st) in
        let on = split_loop split cs (at_char split c st) in if c == ctlesc then escaped else on

    pub split_escaped : Bool → Text → Splitting → Option Splitting
    split_escaped split [] st = none
    split_escaped split (c ∷ cs) st = split_loop split cs (push c st)

  -- Behind the loop: the last field, or the empty one of a word like `""`.
  unfoldable pub finish_split : Bool → Bool → Splitting → List Text
  unfolding split_word is_nil
  finish_split split quoted st =
      if not (is_nil st.v) || not split
      then (split_word st).strings
      else if not st.has_split && quoted
      then st.strings ++ ([] ∷ [])
      else st.strings

  -- `strings` is what the words before gave.
  unfoldable pub word_spliting : Word → List Text → Text → Bool → Option (List Text)
  unfolding split_loop finish_split
  word_spliting w strings expanded split =
      elim (split_loop split expanded
        (record { strings = strings; v = []; has_split = false; has_globing = false })) [
          | none ↦ none
          | some st ↦ some (finish_split split w.quoted st)
        ]

module _ (number : ℤ → Text) (child : Node → Shell → Expanded (List Text))
    (files : Text → List Text) where
  unfoldable pub of_splitting : Shell → Option (List Text) → Expanded (List Text)
  of_splitting sh none = crashed
  of_splitting sh (some strings) = ok strings sh

  -- The loop of `word_expansion` over the words; `f` is the fuel of each expansion.
  unfoldable pub expand_words : ℕ → List Word → List Text → Bool → Shell → Expanded (List Text)
  unfolding word_spliting of_splitting expand_string_ctl
  expand_words f [] strings split sh = ok strings sh
  expand_words f (w ∷ ws) strings split sh =
      expand_string_ctl number child f w.text false sh >>= (λ (expanded, _) sh'.
        of_splitting sh' (word_spliting files sh'.no_globing w strings expanded split)
        >>= (λ strings' sh''. expand_words f ws strings' split sh''))

  unfoldable pub word_expansion : ℕ → List Word → Bool → Shell → Expanded (List Text)
  unfolding expand_words
  word_expansion f ws split sh = expand_words f ws [] split sh
