-- ===== src/Expand/Tests.antt =====
-- Words through the expansion (src/expand.c), with concrete values for what is outside it.
use tash.Base.{ℕ, ◌+◌, ◌≡◌, refl, true, false, Option, List, [], ◌∷◌, Text, codes, arith}
use tash.Builtins.State.{ℤ, pos, negsuc}
use tash.Vars.{getvar}
use tash.Glob.Pattern.{item_of, items, well_escaped, ctlquot}
use tash.Lexer.Source.{source_of, is_delimiter}
use tash.Lexer.Next.{token, next_token}
use tash.Parser.Tree.{Node, Word}
use tash.Parser.State.{word_from_token}
use tash.Expand.Shell.{Expanded, Shell, ok, expansion_error}
use tash.Expand.Trim.{trimmed}
use tash.Expand.Split.{word_expansion}
use tash.Expand.Quoted.{word_expansion-variable}
use tash.Expand.SingleQuotes.{single_quotes_literal, quoted_token, after_word}
use tash.Expand.TrimLaws.{
  IsFirst, IsLast, suffix_matches, prefix_matches, without_suffix, without_prefix, trimmed_lem,
}

abbrev number : ℤ → Text
number (pos n) = (b'0' + n) ∷ []
number (negsuc n) = b'-' ∷ []

abbrev child : Node → Shell → Expanded (List Text)
child n sh = expansion_error sh

abbrev files : Text → List Text
files pattern = codes "found" ∷ []

abbrev shell : Shell
shell = record {
  vars = record { name = codes "v"; value = codes "a *"; exported = false } ∷ [];
  args = [];
  argv0 = codes "tash";
  exit_status = pos 0;
  shell_pid = pos 1;
  last_background = pos 0;
  unset_exit = false;
  no_globing = false;
  sigint_break = false;
  history = [];
}

single_quotes_literal_example :
    (next_token (source_of (codes "'a *' b"))
      ≡ token (quoted_token (codes "a *")) (after_word (codes " b")))
    × (word_expansion number child files 7
          (word_from_token (quoted_token (codes "a *")) ∷ [])
          true
          shell
        ≡ ok (codes "a *" ∷ []) shell)
unfolding is_delimiter
single_quotes_literal_example =
    single_quotes_literal number child files 7 (codes "a *") (codes " b") true shell
      ((refl, refl), ((refl, refl), ((refl, refl), tt))) (refl, (refl, (refl, tt))) (refl, refl)
      (omega arith)

abbrev quoted_variable : Word
quoted_variable = record { text = ctlquot ∷ b'$' ∷ b'v' ∷ ctlquot ∷ []; quoted = true }

word_expansion-variable_example :
    word_expansion number child files 5 (quoted_variable ∷ []) true shell
    ≡ ok (codes "a *" ∷ []) shell
unfolding getvar
word_expansion-variable_example =
    word_expansion-variable number child files 5 quoted_variable (codes "v") (codes "a *") true
      shell refl refl (refl, tt) refl (refl, (refl, (refl, tt))) (omega arith)

trimmed_lem_example :
    ((o : Option ℕ) × IsLast (suffix_matches (codes ".*") (codes "a.b.c")) 5 o
      × (trimmed (codes "a.b.c") (codes ".*") b'%' false ≡ without_suffix (codes "a.b.c") o))
    × ((o : Option ℕ) × IsFirst (suffix_matches (codes ".*") (codes "a.b.c")) 5 o
        × (trimmed (codes "a.b.c") (codes ".*") b'%' true ≡ without_suffix (codes "a.b.c") o))
    × ((o : Option ℕ) × IsFirst (prefix_matches (codes ".*") (codes "a.b.c")) 5 o
        × (trimmed (codes "a.b.c") (codes ".*") b'#' false ≡ without_prefix (codes "a.b.c") o))
    × ((o : Option ℕ) × IsLast (prefix_matches (codes ".*") (codes "a.b.c")) 5 o
        × (trimmed (codes "a.b.c") (codes ".*") b'#' true ≡ without_prefix (codes "a.b.c") o))
unfolding items well_escaped item_of
trimmed_lem_example = trimmed_lem (codes ".*") refl (codes "a.b.c")
