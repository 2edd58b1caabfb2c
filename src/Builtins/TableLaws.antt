-- ===== src/Builtins/TableLaws.antt =====
-- What `export` and `unset` (src/builtin.c) do to the variables.
use tash.Base.{
  ◌≡◌, refl, sym, subst, Bool, true, false, ◌||◌, none, some, inl, inr, List, [], ◌∷◌,
  if◌then◌else◌, Text, codes, same_text, same_text_refl, All, arith, Bool-cases, Option-cases,
}
use tash.Vars.{Var, find_var, putvar, unset_var, var_from_name, split_at_equal}
use tash.Vars.Laws.{Unique, is_exported, find_var-putvar, find_var-export_var}
use tash.Vars.Unset.{find_var-unset_var}
use tash.Vars.Invariant.{unset_var-Unique}
use tash.Builtins.Tables.{
  Tables, export_argument, export_all, builtin_export, unset_options, unset_letters, unset_name,
  unset_all, builtin_unset,
}

-- The name that an argument of `export` is about.
abbrev pub target : Text → Text
target arg = elim (split_at_equal arg) [ none ↦ arg | some (name, value) ↦ name ]

export_argument-keeps :
    (k arg : Text) (vs : List Var)
    → is_exported (find_var k vs) ≡ true
    → is_exported (find_var k (export_argument arg vs)) ≡ true
unfolding export_argument
export_argument-keeps k arg vs h = elim (Option-cases (split_at_equal arg)) [
  | inl e ↦ rw (e, export_argument) (ground (arith, find_var-export_var k arg vs))
  | inr ((n, v), e) ↦
      rw (e, export_argument)
        (ground (arith, find_var-export_var k n (putvar n v vs), find_var-putvar k n v vs))
]

export_all-keeps :
    (k : Text) (args : List Text) (vs : List Var)
    → is_exported (find_var k vs) ≡ true
    → is_exported (find_var k (export_all args vs)) ≡ true
unfolding export_all
export_all-keeps k [] vs h = h
export_all-keeps k (arg ∷ args) vs h =
    export_all-keeps k args (export_argument arg vs) (export_argument-keeps k arg vs h)

export_argument-marks :
    (arg : Text) (vs : List Var)
    → is_exported (find_var (target arg) (export_argument arg vs)) ≡ true
unfolding export_argument
export_argument-marks arg vs = elim (Option-cases (split_at_equal arg)) [
  | inl e ↦
      rw (e, export_argument) (ground (arith, find_var-export_var arg arg vs, same_text_refl arg))
  | inr ((n, v), e) ↦
      rw (e, export_argument)
        (ground (arith, find_var-export_var n n (putvar n v vs), same_text_refl n))
]

export_all-marks :
    (args : List Text) (vs : List Var)
    → All (λ arg. is_exported (find_var (target arg) (export_all args vs)) ≡ true) args
unfolding export_all
export_all-marks [] vs = tt
export_all-marks (arg ∷ args) vs = (
  export_all-keeps (target arg) args (export_argument arg vs) (export_argument-marks arg vs),
  export_all-marks args (export_argument arg vs),
)

builtin_export-vars :
    (first : Text) (rest : List Text) (t : Tables)
    → same_text first (codes "-p") ≡ false
    → (builtin_export (first ∷ rest) t).0.vars ≡ export_all (first ∷ rest) t.vars
unfolding builtin_export
builtin_export-vars first rest t h = ground arith

-- After `export` with a first argument other than `-p` the name of every argument, with a value or
-- without, is marked exported.
pub builtin_export-marks :
    (first : Text) (rest : List Text) (t : Tables)
    → same_text first (codes "-p") ≡ false
    → All
        (λ arg. is_exported (find_var (target arg) (builtin_export (first ∷ rest) t).0.vars) ≡ true)
        (first ∷ rest)
builtin_export-marks first rest t h =
    subst (λ vs. All (λ arg. is_exported (find_var (target arg) vs) ≡ true) (first ∷ rest))
      (sym (builtin_export-vars first rest t h)) (export_all-marks (first ∷ rest) t.vars)

-- Is it one of the names?
abbrev pub listed : Text → List Text → Bool
listed k [] = false
listed k (n ∷ ns) = same_text k n || listed k ns

unset_var-found : (n : Text) (vs : List Var) → (unset_var n vs).1 ≡ false → (unset_var n vs).0 ≡ vs
unfolding unset_var
unset_var-found n vs h = elim (Option-cases (var_from_name n vs)) [
  | inl e ↦ rw (e, unset_var) refl
  | inr (i, e) ↦ ground arith
]

unset_name-variable :
    (n : Text) (t : Tables) → unset_name true false n t ≡ record t { vars = (unset_var n t.vars).0 }
unfolding unset_name
unset_name-variable n t = elim (Bool-cases (unset_var n t.vars).1) [
  | inl e ↦ rw e refl
  | inr e ↦ rw (e, unset_var-found n t.vars e) refl
]

unset_all-variables :
    (k : Text) (names : List Text) (t : Tables)
    → Unique t.vars
    → (find_var k (unset_all true false names t).vars
        ≡ (if listed k names then none else find_var k t.vars))
      × ((unset_all true false names t).funcs ≡ t.funcs)
unfolding unset_all
unset_all-variables k [] t u = (refl, refl)
unset_all-variables k (n ∷ names) t u =
    rw (unset_name-variable n t, unset_all)
      (let (v, f) =
          unset_all-variables k names (record t { vars = (unset_var n t.vars).0 })
            (unset_var-Unique n t.vars u) in
        (ground (arith, v, find_var-unset_var k n t.vars u), f))

-- `unset -v -- names` takes the entry of every name listed out of the variables and leaves all other
-- variables, and all functions, where no variable stands twice before.
pub builtin_unset-variables :
    (k : Text) (names : List Text) (t : Tables)
    → Unique t.vars
    → (find_var k (builtin_unset (codes "-v" ∷ codes "--" ∷ names) t).0.vars
        ≡ (if listed k names then none else find_var k t.vars))
      × ((builtin_unset (codes "-v" ∷ codes "--" ∷ names) t).0.funcs ≡ t.funcs)
unfolding builtin_unset unset_options unset_letters
builtin_unset-variables k names t u = unset_all-variables k names t u
