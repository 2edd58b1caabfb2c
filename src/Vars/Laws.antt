-- ===== src/Vars/Laws.antt =====
-- src/var.c as a finite map: the table answers every name as the map does after each operation,
-- as long as no name stands twice.
use tash.Base.{
  ◌≡◌, Bool, true, false, Option, none, some, List, [], ◌∷◌, arith, Text, same_text, same_text_refl,
  same_text→eq, All, if◌then◌else◌,
}
use tash.Vars.Table.{Var, find_var, putvar, export_var, with_value, mark_exported}

-- No later entry has the name of `v`.
abbrev pub Fresh : Text → List Var → Type 0
Fresh n vs = All (λ w. same_text n w.name ≡ false) vs

-- No name stands twice.
abbrev pub Unique : List Var → Type 0
Unique [] = Unit
Unique (v ∷ vs) = Fresh v.name vs × Unique vs

pub find_var-cons :
    (n : Text) (v : Var) (vs : List Var)
    → find_var n (v ∷ vs) ≡ (if same_text n v.name then some v else find_var n vs)
unfolding find_var
find_var-cons n v vs = ground arith

pub putvar-cons :
    (n value : Text) (v : Var) (vs : List Var)
    → putvar n value (v ∷ vs)
      ≡ (if same_text n v.name then with_value value v ∷ vs else v ∷ putvar n value vs)
unfolding putvar
putvar-cons n value v vs = ground arith

pub export_var-cons :
    (n : Text) (v : Var) (vs : List Var)
    → export_var n (v ∷ vs)
      ≡ (if same_text n v.name then mark_exported v ∷ vs else v ∷ export_var n vs)
unfolding export_var
export_var-cons n v vs = ground arith

-- What the table says of a name's mark and value, where it says anything.
abbrev pub is_exported : Option Var → Bool
is_exported none = false
is_exported (some v) = v.exported

abbrev pub value_or_empty : Option Var → Text
value_or_empty none = []
value_or_empty (some v) = v.value

-- How two names and an entry's compare.
pub names :
    (k n : Text) (v : Var)
    → (same_text k n ≡ true → k ≡ n)
      × (same_text n v.name ≡ true → n ≡ v.name)
      × (same_text k v.name ≡ true → k ≡ v.name)
      × (same_text n n ≡ true)
      × (same_text k k ≡ true)
names k n v = (
  same_text→eq k n,
  same_text→eq n v.name,
  same_text→eq k v.name,
  same_text_refl n,
  same_text_refl k,
)

-- After `putvar` the name has the new value, with the mark of its entry if it had one and unmarked
-- otherwise, and every other name has the entry it had.
pub find_var-putvar :
    (k n value : Text) (vs : List Var)
    → find_var k (putvar n value vs) ≡ (
        if same_text k n
        then some (record { name = n; value = value; exported = is_exported (find_var n vs) })
        else find_var k vs)
unfolding find_var putvar
find_var-putvar k n value [] = ground arith
find_var-putvar k n value (v ∷ vs) = ground (
  arith,
  names k n v,
  find_var-putvar k n value vs,
  putvar-cons n value v vs,
  find_var-cons k v (putvar n value vs),
  find_var-cons k v vs,
  find_var-cons n v vs,
  find_var-cons k (with_value value v) vs,
)

-- After `export_var` the name is marked, with the value it had or else the empty one, and every
-- other name has the entry it had.
pub find_var-export_var :
    (k n : Text) (vs : List Var)
    → find_var k (export_var n vs) ≡ (
        if same_text k n
        then some (record { name = n; value = value_or_empty (find_var n vs); exported = true })
        else find_var k vs)
unfolding find_var export_var
find_var-export_var k n [] = ground arith
find_var-export_var k n (v ∷ vs) = ground (
  arith,
  names k n v,
  find_var-export_var k n vs,
  export_var-cons n v vs,
  find_var-cons k v (export_var n vs),
  find_var-cons k v vs,
  find_var-cons n v vs,
  find_var-cons k (mark_exported v) vs,
)
