-- ===== src/Expand/Word.antt =====
-- `first_expansion` and `handle_var` (src/expand.c): parameter, command and tilde expansion. The
-- calls between them run on fuel.
use tash.Base.{
  ℕ, zero, suc, Bool, true, false, not, ◌&&◌, ◌||◌, Option, none, some, List, [], ◌∷◌, ◌++◌, ◌==◌,
  if◌then◌else◌, Text, codes,
}
use tash.Builtins.State.{ℤ}
use tash.Vars.{getvar}
use tash.Glob.Pattern.{ctlesc, ctlquot}
use tash.Parser.Tree.{Node}
use tash.Expand.Quoting.{append_home}
use tash.Expand.Trim.{remove_prefix_suffix}
use tash.Expand.Shell.{Shell, Expanded, ok, expansion_error, crashed, stuck, ◌>>=◌}
use tash.Expand.Command.{command_substitution, handle_backtick, starts, behind}
use tash.Expand.Param.{
  Param, UnsetAction, not_handled, already_handled, unset_variable, unset_error, unset_crash,
  handle_unset_action, read_param, append_value,
}

abbrev is_op : ℕ → Bool
is_op c = c == b'-' || c == b'=' || c == b'?' || c == b'+'

-- `is_unset`; behind a `:` an empty value counts as unset.
abbrev counts_unset : Bool → Option Text → Bool
counts_unset colon none = true
counts_unset colon (some []) = colon
counts_unset colon (some (_ ∷ _)) = false

-- `number` prints a number; `child` is a forked shell, as for command substitution.
module _ (number : ℤ → Text) (child : Node → Shell → Expanded (List Text)) where
  -- From the last `if (*src != '}')` on, with what was made of the value.
  close_braces : Bool → Bool → Param → Text → Text → Shell → Expanded (Text × Text)
  unfolding append_value
  close_braces in_quote hash p dest rest sh =
      if not (starts b'}' rest)
      then expansion_error sh
      else if p.handled
      then ok (dest, behind rest) sh
      else (append_value number dest in_quote hash p.value sh
          >>= (λ dest' sh'. ok (dest', behind rest) sh'))

  -- Behind the word of `-`, `=`, `?` and `+`.
  after_action : Bool → Param → Text → UnsetAction → Expanded (Text × Text)
  unfolding close_braces
  after_action in_quote p rest (not_handled dest sh) = close_braces in_quote false p dest rest sh
  after_action in_quote p rest (already_handled dest sh) =
      close_braces in_quote false (record p { handled = true }) dest rest sh
  after_action in_quote p rest (unset_variable sh) = expansion_error sh
  after_action in_quote p rest (unset_error sh) = expansion_error sh
  after_action in_quote p rest unset_crash = crashed

  -- Behind the pattern of `#` and `%`. An unset value is read through NULL.
  after_pattern : Bool → Param → ℕ → Bool → Text → Text → Shell → Expanded (Text × Text)
  unfolding close_braces remove_prefix_suffix
  after_pattern in_quote p op largest pattern rest sh = elim p.value [
    | none ↦ crashed
    | some v ↦
        close_braces in_quote false (record p { handled = true })
          (remove_prefix_suffix p.dest in_quote v pattern op largest) rest sh
  ]

  unfoldable mutual
    unfolding read_param append_home getvar handle_unset_action command_substitution handle_backtick
        close_braces after_action after_pattern append_value

    -- `expand_string_ctl`: the expanded text, and the rest of the source from its end on.
    pub expand_string_ctl : ℕ → Text → Bool → Shell → Expanded (Text × Text)
    expand_string_ctl zero src braces sh = stuck
    expand_string_ctl (suc f) [] braces sh = ok ([], []) sh
    expand_string_ctl (suc f) (c ∷ cs) braces sh =
        let home : Text = elim (getvar (codes "HOME") sh.vars) [ none ↦ codes "/" | some h ↦ h ] in
        let tilde = expansion_loop f (append_home [] home) cs braces false sh in
        let plain = expansion_loop f [] (c ∷ cs) braces false sh in
        if c == b'~' then tilde else plain

    -- The loop of `first_expansion`.
    pub expansion_loop : ℕ → Text → Text → Bool → Bool → Shell → Expanded (Text × Text)
    expansion_loop zero dest src braces in_quote sh = stuck
    expansion_loop (suc f) dest [] braces in_quote sh = ok (dest, []) sh
    expansion_loop (suc f) dest (c ∷ cs) braces in_quote sh =
        let escaped : Expanded (Text × Text) = elim cs [
          | [] ↦ crashed
          | d ∷ ds ↦ expansion_loop f (dest ++ (ctlesc ∷ d ∷ [])) ds braces in_quote sh
        ] in
        let toggled = expansion_loop f dest cs braces (not in_quote) sh in
        let var : Expanded (Text × Text) =
          handle_var f dest cs in_quote sh
          >>= (λ (d, rest) sh'. expansion_loop f d rest braces in_quote sh') in
        let backtick : Expanded (Text × Text) =
          handle_backtick child f dest in_quote cs sh
          >>= (λ (d, rest) sh'. expansion_loop f d rest braces in_quote sh') in
        let copied = expansion_loop f (dest ++ (c ∷ [])) cs braces in_quote sh in
        if c == ctlesc
        then escaped
        else if c == ctlquot
        then toggled
        else if c == b'$'
        then var
        else if c == b'}' && braces
        then ok (dest, c ∷ cs) sh
        else if c == b'`'
        then backtick
        else copied

    -- `handle_var`, at the text behind the `$`; it gives the text behind the parameter.
    pub handle_var : ℕ → Text → Text → Bool → Shell → Expanded (Text × Text)
    handle_var zero dest src in_quote sh = stuck
    handle_var (suc f) dest src in_quote sh =
        let braces = in_braces f dest (behind src) in_quote sh in
        if starts b'(' src
        then command_substitution child f dest in_quote (behind src) sh
        else if starts b'{' src
        then braces
        else (elim (read_param number dest in_quote false src sh) [
          | none ↦ ok (dest ++ (b'$' ∷ []), src) sh
          | some p ↦
              if p.handled
              then ok (p.dest, p.rest) sh
              else (append_value number p.dest in_quote false p.value sh
                  >>= (λ dest' sh'. ok (dest', p.rest) sh'))
        ])

    -- The same behind `${`.
    pub in_braces : ℕ → Text → Text → Bool → Shell → Expanded (Text × Text)
    in_braces zero dest src in_quote sh = stuck
    in_braces (suc f) dest src in_quote sh =
        let hash = starts b'#' src in
        let src' = if hash then behind src else src in
        elim (read_param number dest in_quote hash src' sh) [
          | none ↦ expansion_error sh
          | some p ↦
              let operator = at_operator f in_quote p p.rest sh in
              if hash then close_braces in_quote true p p.dest p.rest sh else operator
        ]

    -- The operator behind the parameter, if there is one.
    pub at_operator : ℕ → Bool → Param → Text → Shell → Expanded (Text × Text)
    at_operator zero in_quote p src sh = stuck
    at_operator (suc f) in_quote p [] sh = expansion_error sh
    at_operator (suc f) in_quote p (c ∷ cs) sh =
        let largest = starts c cs in
        let trim : Expanded (Text × Text) =
          expand_string_ctl f (if largest then behind cs else cs) true sh
          >>= (λ (pattern, end) sh'. after_pattern in_quote p c largest pattern end sh') in
        let colon = c == b':' in
        let unset_op = at_unset f in_quote p colon (if colon then cs else c ∷ cs) sh in
        if c == b'#' || c == b'%' then trim else unset_op

    -- `-`, `=`, `?` or `+`, behind an optional `:`.
    pub at_unset : ℕ → Bool → Param → Bool → Text → Shell → Expanded (Text × Text)
    at_unset zero in_quote p colon src sh = stuck
    at_unset (suc f) in_quote p colon [] sh = expansion_error sh
    at_unset (suc f) in_quote p colon (c ∷ cs) sh =
        let action : Expanded (Text × Text) = expand_string_ctl f cs true sh >>= (λ (word, end) sh'.
          if starts b'}' end
          then after_action in_quote p end
              (handle_unset_action p.dest in_quote word p.var c (counts_unset colon p.value) sh')
          else expansion_error sh') in
        if is_op c
        then action
        else if colon
        then expansion_error sh
        else close_braces in_quote false p p.dest (c ∷ cs) sh
