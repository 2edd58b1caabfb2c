-- ===== src/Vars/Table.antt =====
-- The operations of src/var.c.
use tash.Base.{
  ℕ, suc, ◌-◌, Bool, true, false, Option, none, some, List, [], ◌∷◌, ◌++◌, Text, codes, same_text,
  length, get_elem?, set, take, ◌==◌, if◌then◌else◌,
}

-- struct var
pub record Var : Type 0 where
  pub name : Text
  pub value : Text
  pub exported : Bool

-- The first entry of that name, as an index.
unfoldable pub var_from_name : Text → List Var → Option ℕ
var_from_name n [] = none
var_from_name n (v ∷ vs) =
    if same_text n v.name
    then some 0
    else (elim (var_from_name n vs) [ none ↦ none | some i ↦ some (suc i) ])

-- The entry itself.
unfoldable pub find_var : Text → List Var → Option Var
unfolding var_from_name
find_var n vs = elim (var_from_name n vs) [ none ↦ none | some i ↦ get_elem? vs i ]

abbrev pub with_value : Text → Var → Var
with_value value v = record v { value = value }

abbrev pub mark_exported : Var → Var
mark_exported v = record v { exported = true }

-- Write through the pointer `&vars[i]`.
abbrev modify_at : ℕ → (Var → Var) → List Var → List Var
modify_at i f vs = elim (get_elem? vs i) [ none ↦ vs | some v ↦ set vs i (f v) ]

unfoldable pub putvar : Text → Text → List Var → List Var
unfolding var_from_name
putvar n value vs = elim (var_from_name n vs) [
  | some i ↦ modify_at i (with_value value) vs
  | none ↦ vs ++ (record { name = n; value = value; exported = false } ∷ [])
]

unfoldable pub getvar : Text → List Var → Option Text
unfolding find_var
getvar n vs = elim (find_var n vs) [ none ↦ none | some v ↦ some v.value ]

-- The last entry takes the place of the one that goes; the flag says whether there was one.
unfoldable pub unset_var : Text → List Var → List Var × Bool
unfolding var_from_name
unset_var n vs = elim (var_from_name n vs) [
  | none ↦ (vs, false)
  | some i ↦
      let count = length vs - 1 in
      let moved : List Var =
        if i == count
        then vs
        else (elim (get_elem? vs count) [ none ↦ vs | some last ↦ set vs i last ]) in
      (take count moved, true)
]

unfoldable pub export_var : Text → List Var → List Var
unfolding var_from_name
export_var n vs = elim (var_from_name n vs) [
  | some i ↦ modify_at i mark_exported vs
  | none ↦ vs ++ (record { name = n; value = []; exported = true } ∷ [])
]

-- The strings handed to `putenv`, in order.
unfoldable pub setup_environ : List Var → List Text
setup_environ [] = []
setup_environ (v ∷ vs) =
    let rest = setup_environ vs in if v.exported then (v.name ++ (b'=' ∷ v.value)) ∷ rest else rest

-- strchr(name, '='), and the text on both sides of it.
unfoldable pub split_at_equal : Text → Option (Text × Text)
split_at_equal [] = none
split_at_equal (c ∷ cs) =
    if c == b'='
    then some ([], cs)
    else (elim (split_at_equal cs) [ none ↦ none | some (n, value) ↦ some (c ∷ n, value) ])

-- The body of the import loop; a string without `=` is reported and skipped.
unfoldable pub import_string : Text → List Var → List Var
unfolding split_at_equal putvar export_var
import_string s vs = elim (split_at_equal s) [
  | none ↦ vs
  | some (n, value) ↦ export_var n (putvar n value vs)
]

unfoldable pub import_all : List Text → List Var → List Var
unfolding import_string
import_all [] vs = vs
import_all (s ∷ ss) vs = import_all ss (import_string s vs)

-- `cwd` is the answer of `getcwd`.
unfoldable pub setup_var : List Text → Option Text → List Var → List Var
unfolding import_all putvar export_var
setup_var environ cwd vs =
    let imported = import_all environ vs in
    let located : List Var = elim cwd [
      | none ↦ imported
      | some path ↦ putvar (codes "PWD") path imported
    ] in
    export_var (codes "PWD") located
