-- ===== src/Vars/Environ.antt =====
-- The way of the variables into a child process: `setup_environ` in the parent, `setup_var` in
-- the child (src/var.c).
use tash.Base.{
  ◌≡◌, refl, true, false, Option, none, some, List, [], ◌∷◌, ◌++◌, arith, Text, codes, same_text,
  All, if◌then◌else◌, ◌==◌,
}
use tash.Vars.Table.{
  Var, find_var, putvar, export_var, setup_environ, split_at_equal, import_string, import_all,
  setup_var,
}
use tash.Vars.Laws.{Unique, names, find_var-cons, find_var-putvar, find_var-export_var}
use tash.Vars.Unset.{find_var-Fresh}

-- A name with no `=` in it.
abbrev pub IsPlain : Text → Type 0
IsPlain n = All (λ c. (c == b'=') ≡ false) n

split_at_equal-join :
    (n value : Text) → IsPlain n → split_at_equal (n ++ (b'=' ∷ value)) ≡ some (n, value)
unfolding split_at_equal
split_at_equal-join [] value h = refl
split_at_equal-join (c ∷ n) value h = rw (h.0, split_at_equal-join n value h.1)

import_string-join :
    (n value : Text) (ws : List Var)
    → IsPlain n
    → import_string (n ++ (b'=' ∷ value)) ws ≡ export_var n (putvar n value ws)
unfolding import_string
import_string-join n value ws h = rw (split_at_equal-join n value h, import_string)

-- The entry that a child sees for an entry of the parent's.
abbrev pub inherited : Option Var → Option Var → Option Var
inherited none old = old
inherited (some v) old = if v.exported then some v else old

import_all-cons :
    (v : Var) (vs ws : List Var)
    → IsPlain v.name
    → import_all (setup_environ (v ∷ vs)) ws ≡ (
        if v.exported
        then import_all (setup_environ vs) (export_var v.name (putvar v.name v.value ws))
        else import_all (setup_environ vs) ws)
unfolding import_all setup_environ
import_all-cons v vs ws h = ground (arith, import_string-join v.name v.value ws h)

find_var-imported :
    (k : Text) (v : Var) (ws : List Var)
    → find_var k (export_var v.name (putvar v.name v.value ws))
      ≡ (if same_text k v.name then some (record v { exported = true }) else find_var k ws)
find_var-imported k v ws = ground (
  arith,
  find_var-export_var k v.name (putvar v.name v.value ws),
  find_var-putvar v.name v.name v.value ws,
  find_var-putvar k v.name v.value ws,
  names k v.name v,
)

find_var-import_all :
    (k : Text) (vs ws : List Var)
    → Unique vs
    → All (λ v. IsPlain v.name) vs
    → find_var k (import_all (setup_environ vs) ws) ≡ inherited (find_var k vs) (find_var k ws)
unfolding import_all setup_environ find_var
find_var-import_all k [] ws u p = refl
find_var-import_all k (v ∷ vs) ws u p = ground (
  arith,
  import_all-cons v vs ws p.0,
  find_var-cons k v vs,
  find_var-imported k v ws,
  find_var-import_all k vs (export_var v.name (putvar v.name v.value ws)) u.1 p.1,
  find_var-import_all k vs ws u.1 p.1,
  find_var-Fresh v.name vs u.0,
  names k v.name v,
)

-- A shell that starts from the environment that another set up has the exported variables of that
-- one with their values, marked exported, and no others, as far as names but PWD go. In the other
-- shell no name stands twice and none holds a `=`.
pub setup_var-setup_environ :
    (k : Text) (cwd : Option Text) (vs : List Var)
    → Unique vs
    → All (λ v. IsPlain v.name) vs
    → same_text k (codes "PWD") ≡ false
    → find_var k (setup_var (setup_environ vs) cwd []) ≡ inherited (find_var k vs) none
unfolding setup_var find_var
setup_var-setup_environ k none vs u p h = ground (
  arith,
  find_var-import_all k vs [] u p,
  find_var-export_var k (codes "PWD") (import_all (setup_environ vs) []),
)
setup_var-setup_environ k (some path) vs u p h = ground (
  arith,
  find_var-import_all k vs [] u p,
  find_var-export_var k (codes "PWD")
      (putvar (codes "PWD") path (import_all (setup_environ vs) [])),
  find_var-putvar k (codes "PWD") path (import_all (setup_environ vs) []),
)
