-- ===== src/Vars/Tests.antt =====
-- The variables (src/var.c) on a small table.
use tash.Base.{◌≡◌, refl, true, false, some, List, [], ◌∷◌, codes}
use tash.Vars.Table.{Var, find_var, putvar, export_var, unset_var, setup_environ, setup_var}
use tash.Vars.Laws.{Unique, find_var-putvar}
use tash.Vars.Unset.{find_var-unset_var}
use tash.Vars.Invariant.{variables-Unique}
use tash.Vars.Environ.{setup_var-setup_environ}

abbrev home : Var
home = record { name = codes "HOME"; value = codes "/root"; exported = true }

abbrev count : Var
count = record { name = codes "n"; value = codes "3"; exported = false }

abbrev table : List Var
table = home ∷ count ∷ []

find_var-putvar_example :
    find_var (codes "HOME") (putvar (codes "HOME") (codes "/") table)
    ≡ some (record { name = codes "HOME"; value = codes "/"; exported = true })
unfolding find_var
find_var-putvar_example = find_var-putvar (codes "HOME") (codes "HOME") (codes "/") table

find_var-unset_var_example : find_var (codes "n") (unset_var (codes "HOME") table).0 ≡ some count
unfolding find_var
find_var-unset_var_example =
    find_var-unset_var (codes "n") (codes "HOME") table ((refl, tt), (tt, tt))

variables-Unique_example :
    Unique (putvar (codes "n") (codes "4") table)
    × Unique (export_var (codes "n") table)
    × Unique (unset_var (codes "n") table).0
variables-Unique_example = variables-Unique (codes "n") (codes "4") table ((refl, tt), (tt, tt))

setup_var-setup_environ_example :
    find_var (codes "HOME") (setup_var (setup_environ table) (some (codes "/tmp")) []) ≡ some home
unfolding find_var
setup_var-setup_environ_example =
    setup_var-setup_environ (codes "HOME") (some (codes "/tmp")) table ((refl, tt), (tt, tt))
      ((refl, (refl, (refl, (refl, tt)))), ((refl, tt), tt)) refl
