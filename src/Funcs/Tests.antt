-- ===== src/Funcs/Tests.antt =====
-- The functions (src/func.c) on a small table.
use tash.Base.{ℕ, ◌≡◌, some, List, [], ◌∷◌, Text, codes}
use tash.Funcs.{get_func, register_func}
use tash.Funcs.Laws.{get_func-register_func}

abbrev table : List (Text × ℕ)
table = (codes "f", 1) ∷ (codes "g", 2) ∷ []

get_func-register_func_example :
    get_func (codes "g") (register_func (codes "g") 7 table) ≡ some (codes "g", 7)
get_func-register_func_example = get_func-register_func (codes "g") (codes "g") 7 table
