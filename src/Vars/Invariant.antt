-- ===== src/Vars/Invariant.antt =====
-- No operation of src/var.c lets a name stand twice.
use tash.Base.{
  ℕ, zero, suc, ◌≡◌, refl, ◌∙◌, inl, inr, Bool, false, Option, none, some, List, [], ◌∷◌, ◌++◌,
  Text, same_text, same_text_sym, set, snoc-cases, if_intro,
}
use tash.Vars.Table.{Var, var_from_name, putvar, export_var, unset_var}
use tash.Vars.Laws.{Fresh, Unique, putvar-cons, export_var-cons}
use tash.Vars.Unset.{unset_snoc, unset_var-snoc, Unique-snoc}

module _ (n value : Text) where
  Fresh-putvar :
      (m : Text) (vs : List Var) → same_text m n ≡ false → Fresh m vs → Fresh m (putvar n value vs)
  unfolding putvar
  Fresh-putvar m [] e f = (e, tt)
  Fresh-putvar m (v ∷ vs) e f =
      rw (putvar-cons n value v vs)
        (if_intro (Fresh m) (same_text n v.name) _ _ (λ _. f) (λ _. (f.0, Fresh-putvar m vs e f.1)))

  putvar-Unique : (vs : List Var) → Unique vs → Unique (putvar n value vs)
  unfolding putvar
  putvar-Unique [] u = (tt, tt)
  putvar-Unique (v ∷ vs) u = rw (putvar-cons n value v vs) (
      if_intro Unique (same_text n v.name) _ _ (λ _. u)
        (λ e. (Fresh-putvar v.name vs (same_text_sym v.name n ∙ e) u.0, putvar-Unique vs u.1)))

module _ (n : Text) where
  Fresh-export_var :
      (m : Text) (vs : List Var) → same_text m n ≡ false → Fresh m vs → Fresh m (export_var n vs)
  unfolding export_var
  Fresh-export_var m [] e f = (e, tt)
  Fresh-export_var m (v ∷ vs) e f = rw (export_var-cons n v vs) (
      if_intro (Fresh m) (same_text n v.name) _ _ (λ _. f)
        (λ _. (f.0, Fresh-export_var m vs e f.1)))

  export_var-Unique : (vs : List Var) → Unique vs → Unique (export_var n vs)
  unfolding export_var
  export_var-Unique [] u = (tt, tt)
  export_var-Unique (v ∷ vs) u = rw (export_var-cons n v vs) (
      if_intro Unique (same_text n v.name) _ _ (λ _. u)
        (λ e.
          (Fresh-export_var v.name vs (same_text_sym v.name n ∙ e) u.0, export_var-Unique vs u.1)))

Fresh-set :
    (m : Text) (vs : List Var) (i : ℕ) (l : Var)
    → same_text m l.name ≡ false
    → Fresh m vs
    → Fresh m (set vs i l)
Fresh-set m [] i l e f = tt
Fresh-set m (v ∷ vs) zero l e f = (e, f.1)
Fresh-set m (v ∷ vs) (suc i) l e f = (f.0, Fresh-set m vs i l e f.1)

Unique-set : (vs : List Var) (i : ℕ) (l : Var) → Fresh l.name vs → Unique vs → Unique (set vs i l)
Unique-set [] i l f u = tt
Unique-set (v ∷ vs) zero l f u = (f.1, u.1)
Unique-set (v ∷ vs) (suc i) l f u =
    (Fresh-set v.name vs i l (same_text_sym v.name l.name ∙ f.0) u.0, Unique-set vs i l f.1 u.1)

unset_snoc-Unique :
    (n : Text) (ys : List Var) (l : Var) → Unique (ys ++ (l ∷ [])) → Unique (unset_snoc n ys l).0
unfolding unset_snoc
unset_snoc-Unique n ys l u = split (var_from_name n ys) refl
  where
    split : (found : Option ℕ) → var_from_name n ys ≡ found → Unique (unset_snoc n ys l).0
    split none e =
        rw (e, unset_snoc)
          (if_intro (λ (r : List Var × Bool). Unique r.0) (same_text n l.name) _ _
            (λ _. (Unique-snoc ys l u).0) (λ _. u))
    split (some i) e =
        let (us, fresh) = Unique-snoc ys l u in rw (e, unset_snoc) (Unique-set ys i l fresh us)

unset_nil-Unique : (n : Text) → Unique (unset_var n []).0
unfolding unset_var
unset_nil-Unique n = tt

pub unset_var-Unique : (n : Text) (vs : List Var) → Unique vs → Unique (unset_var n vs).0
unset_var-Unique n vs u = elim (snoc-cases vs) [
  | inl e ↦ rw e (unset_nil-Unique n)
  | inr (ys, l, e) ↦ rw e (rw (unset_var-snoc n ys l) (unset_snoc-Unique n ys l (rw e at u)))
]

-- No name comes to stand twice in the table: `putvar`, `export_var` and `unset_var` keep every name
-- single where it was so before.
pub variables-Unique :
    (n value : Text) (vs : List Var)
    → Unique vs
    → Unique (putvar n value vs) × Unique (export_var n vs) × Unique (unset_var n vs).0
variables-Unique n value vs u =
    (putvar-Unique n value vs u, export_var-Unique n vs u, unset_var-Unique n vs u)
