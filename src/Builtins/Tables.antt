-- ===== src/Builtins/Tables.antt =====
-- `export` and `unset` (src/builtin.c), which change the tables of variables and functions. The
-- listing by `export -p` is output only.
use tash.Base.{
  ℕ, Bool, true, false, not, ◌&&◌, ◌||◌, Option, none, some, List, [], ◌∷◌, ◌==◌, if◌then◌else◌,
  Text, codes, same_text,
}
use tash.Vars.{Var, putvar, export_var, unset_var, split_at_equal}
use tash.Funcs.{unregister_func}
use tash.Parser.Tree.{Node}

-- The body of a function, with its place: the path from the root of its tree, by which it is known
-- whether a definition inside it was run before.
pub record Body : Type 0 where
  pub tree : Node
  pub place : List ℕ

pub record Tables : Type 0 where
  pub vars : List Var
  pub funcs : List (Text × Body)

unfoldable pub export_argument : Text → List Var → List Var
unfolding split_at_equal putvar export_var
export_argument arg vs = elim (split_at_equal arg) [
  | none ↦ export_var arg vs
  | some (name, value) ↦ export_var name (putvar name value vs)
]

unfoldable pub export_all : List Text → List Var → List Var
unfolding export_argument
export_all [] vs = vs
export_all (arg ∷ args) vs = export_all args (export_argument arg vs)

unfoldable pub builtin_export : List Text → Tables → Tables × ℕ
unfolding export_all
builtin_export [] t = (t, 0)
builtin_export (first ∷ rest) t =
    if same_text first (codes "-p")
    then (t, 0)
    else (record t { vars = export_all (first ∷ rest) t.vars }, 0)

-- The letters of an option: `do_var` and `do_func` behind them, or an unknown one.
unfoldable pub unset_letters : Text → Bool → Bool → Option (Bool × Bool)
unset_letters [] do_var do_func = some (do_var, do_func)
unset_letters (c ∷ cs) do_var do_func =
    let v = unset_letters cs true do_func in
    let f = unset_letters cs do_var true in if c == b'v' then v else if c == b'f' then f else none

-- The loop over the options: the arguments behind them, with `do_var` and `do_func`.
unfoldable pub unset_options : List Text → Bool → Bool → Option (List Text × Bool × Bool)
unfolding unset_letters
unset_options [] do_var do_func = some ([], do_var, do_func)
unset_options ([] ∷ rest) do_var do_func = some ([] ∷ rest, do_var, do_func)
unset_options ((c ∷ cs) ∷ rest) do_var do_func =
    if not (c == b'-')
    then some ((c ∷ cs) ∷ rest, do_var, do_func)
    else if same_text cs (codes "-")
    then some (rest, do_var, do_func)
    else (elim (unset_letters cs do_var do_func) [
      | none ↦ none
      | some (v, f) ↦ unset_options rest v f
    ])

-- A name: as a function only where there was no such variable to unset.
unfoldable pub unset_name : Bool → Bool → Text → Tables → Tables
unfolding unset_var unregister_func
unset_name do_var do_func name t =
    let (vars, found) = unset_var name t.vars in
    if do_var && found
    then record t { vars = vars }
    else if do_func
    then record t { funcs = unregister_func name t.funcs }
    else t

unfoldable pub unset_all : Bool → Bool → List Text → Tables → Tables
unfolding unset_name
unset_all do_var do_func [] t = t
unset_all do_var do_func (name ∷ names) t =
    unset_all do_var do_func names (unset_name do_var do_func name t)

unfoldable pub builtin_unset : List Text → Tables → Tables × ℕ
unfolding unset_options unset_all
builtin_unset args t = elim (unset_options args false false) [
  | none ↦ (t, 1)
  | some (names, v, f) ↦ let both = not v && not f in (unset_all (v || both) (f || both) names t, 0)
]
