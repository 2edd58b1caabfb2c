-- ===== src/Expand/Param.antt =====
-- The parts of `handle_var` (src/expand.c) that do not expand any further text.
use tash.Base.{
  ℕ, ◌-◌, Bool, true, false, ◌&&◌, ◌||◌, Option, none, some, List, [], ◌∷◌, ◌++◌, ◌==◌, leb,
  if◌then◌else◌, Text, length, get_elem?,
}
use tash.Builtins.State.{ℤ, pos}
use tash.Vars.{putvar, getvar}
use tash.Glob.Pattern.{ctlesc}
use tash.Parser.Command.{is_alnum}
use tash.Expand.Quoting.{remove_ctlesc, append_safe}
use tash.Expand.Shell.{Shell, Expanded, ok, expansion_error}

-- What the switch on the parameter leaves: `value`, the name `var` of a variable, the text behind
-- the parameter; or `dest` when it is already handled.
pub record Param : Type 0 where
  pub value : Option Text
  pub var : Option Text
  pub handled : Bool
  pub dest : Text
  pub rest : Text

-- `while (isalnum(*src) || *src == '_')`
unfoldable pub take_name : Text → Text × Text
take_name [] = ([], [])
take_name (c ∷ cs) =
    let (name, rest) = take_name cs in
    if is_alnum c || c == b'_' then (c ∷ name, rest) else ([], c ∷ cs)

-- `$@`: a space that is not marked stands between the arguments, so they are cut in quotes too.
unfoldable pub append_args : Text → List Text → Bool → Text
unfolding append_safe
append_args dest [] in_quote = dest
append_args dest (a ∷ []) in_quote = append_safe dest a in_quote
append_args dest (a ∷ b ∷ as') in_quote =
    append_args (append_safe dest a in_quote ++ (b' ' ∷ [])) (b ∷ as') in_quote

-- `$*`: in quotes the space is marked.
unfoldable pub append_star : Text → List Text → Bool → Text
unfolding append_safe
append_star dest [] in_quote = dest
append_star dest (a ∷ []) in_quote = append_safe dest a in_quote
append_star dest (a ∷ b ∷ as') in_quote =
    append_star
      (append_safe dest a in_quote ++ (if in_quote then ctlesc ∷ b' ' ∷ [] else b' ' ∷ []))
      (b ∷ as') in_quote

-- What becomes of the expansion of an unset or set parameter by its operator.
pub data UnsetAction : Type 0 where
  not_handled already_handled : Text → Shell → UnsetAction
  unset_variable unset_error : Shell → UnsetAction
  unset_crash : UnsetAction

assign_default : Text → Bool → Text → Option Text → Shell → UnsetAction
unfolding remove_ctlesc append_safe putvar getvar
assign_default dest in_quote word none sh = unset_crash
assign_default dest in_quote word (some var) sh =
    let value = remove_ctlesc word in
    let vars' = putvar var value sh.vars in
    elim (getvar var vars') [
      | none ↦ unset_crash
      | some v ↦ already_handled (append_safe dest v in_quote) (record sh { vars = vars' })
    ]

is_empty : Text → Bool
is_empty [] = true
is_empty (_ ∷ _) = false

unfoldable pub handle_unset_action :
    Text → Bool → Text → Option Text → ℕ → Bool → Shell → UnsetAction
unfolding assign_default is_empty
handle_unset_action dest in_quote word var op is_unset sh =
    if op == b'-'
    then (if is_unset then already_handled (dest ++ word) sh else not_handled dest sh)
    else if op == b'='
    then (if is_unset then assign_default dest in_quote word var sh else not_handled dest sh)
    else if op == b'?'
    then (if is_unset
        then (if is_empty word then unset_variable sh else unset_error sh)
        else not_handled dest sh)
    else if op == b'+'
    then (if is_unset then not_handled dest sh else already_handled (dest ++ word) sh)
    else not_handled dest sh

-- `number` is `sprintf` of "%d", "%ld" or "%zu".
module _ (number : ℤ → Text) where
  abbrev special : Text → Option Text → Text → Param
  special dest value rest = record {
    value = value;
    var = none;
    handled = false;
    dest = dest;
    rest = rest;
  }

  abbrev handled : Text → Text → Param
  handled dest rest = record { value = none; var = none; handled = true; dest = dest; rest = rest }

  unfoldable pub variable : Text → Text → Text → Shell → Option Param
  unfolding getvar
  variable dest [] rest sh = none
  variable dest (c ∷ cs) rest sh = some (record {
    value = getvar (c ∷ cs) sh.vars;
    var = some (c ∷ cs);
    handled = false;
    dest = dest;
    rest = rest;
  })

  -- The switch; `none` is its way out at a `$` with no parameter behind it. `hash` says that a `#`
  -- stands before the parameter.
  unfoldable pub read_param : Text → Bool → Bool → Text → Shell → Option Param
  unfolding append_args append_star take_name variable
  read_param dest in_quote hash [] sh = none
  read_param dest in_quote hash (c ∷ cs) sh =
      if c == b'$'
      then some (special dest (some (number sh.shell_pid)) cs)
      else if c == b'!'
      then some (special dest (some (number sh.last_background)) cs)
      else if c == b'?'
      then some (special dest (some (number sh.exit_status)) cs)
      else if c == b'#'
      then some (special dest (some (number (pos (length sh.args)))) cs)
      else if c == b'@'
      then some (
          if hash
          then handled (append_safe dest (number (pos (length sh.args))) in_quote) cs
          else handled (append_args dest sh.args in_quote) cs)
      else if c == b'*'
      then some (handled (append_star dest sh.args in_quote) cs)
      else if c == b'0'
      then some (special dest (some sh.argv0) cs)
      else if leb b'1' c && leb c b'9'
      then some (special dest (get_elem? sh.args (c - b'1')) cs)
      else (let (name, rest) = take_name (c ∷ cs) in variable dest name rest sh)

  -- The end of `handle_var`: the value is appended, or its length after `${#`.
  unfoldable pub append_value : Text → Bool → Bool → Option Text → Shell → Expanded Text
  append_value dest in_quote hash none sh = if sh.unset_exit then expansion_error sh else ok dest sh
  append_value dest in_quote hash (some v) sh =
      ok (append_safe dest (if hash then number (pos (length v)) else v) in_quote) sh
