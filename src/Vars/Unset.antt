-- ===== src/Vars/Unset.antt =====
-- `unset_var` of src/var.c moves the last entry into the place of the one that goes.
use tash.Base.{
  ℕ, zero, suc, ◌-◌, ◌<◌, ◌≡◌, refl, ap, ◌∙◌, inl, inr, Bool, true, false, Option, none, some, List,
  [], ◌∷◌, ◌++◌, arith, Text, same_text, same_text_sym, length, get_elem?, set, take, length-append,
  take-length, snoc-cases, if◌then◌else◌,
}
use tash.Vars.Table.{Var, var_from_name, find_var, unset_var}
use tash.Vars.Laws.{Fresh, Unique, find_var-cons, names}

-- What becomes of `ys ++ l ∷ []`.
unfoldable pub unset_snoc : Text → List Var → Var → List Var × Bool
unset_snoc n ys l = elim (var_from_name n ys) [
  | some i ↦ (set ys i l, true)
  | none ↦ if same_text n l.name then (ys, true) else (ys ++ (l ∷ []), false)
]

var_from_name-snoc :
    (n : Text) (ys : List Var) (l : Var)
    → var_from_name n (ys ++ (l ∷ [])) ≡ (elim (var_from_name n ys) [
      | some i ↦ some i
      | none ↦ if same_text n l.name then some (length ys) else none
    ])
unfolding var_from_name
var_from_name-snoc n [] l = ground arith
var_from_name-snoc n (y ∷ ys) l = ground (arith, var_from_name-snoc n ys l)

var_from_name-lt : (n : Text) (ys : List Var) (i : ℕ) → var_from_name n ys ≡ some i → i < length ys
unfolding var_from_name
var_from_name-lt n [] i h = ground arith
var_from_name-lt n (y ∷ ys) zero h = omega arith
var_from_name-lt n (y ∷ ys) (suc i) h = ground (arith, var_from_name-lt n ys i)

get_elem?-last : (ys : List Var) (l : Var) → get_elem? (ys ++ (l ∷ [])) (length ys) ≡ some l
get_elem?-last [] l = refl
get_elem?-last (y ∷ ys) l = get_elem?-last ys l

take-set-snoc :
    (ys : List Var) (l : Var) (i : ℕ)
    → i < length ys
    → take (length ys) (set (ys ++ (l ∷ [])) i l) ≡ set ys i l
take-set-snoc [] l i h = refl
take-set-snoc (y ∷ ys) l zero h = ap (λ t. l ∷ t) (take-length ys (l ∷ []))
take-set-snoc (y ∷ ys) l (suc i) h = ap (λ t. y ∷ t) (take-set-snoc ys l i (omega arith))

pub unset_var-snoc :
    (n : Text) (ys : List Var) (l : Var) → unset_var n (ys ++ (l ∷ [])) ≡ unset_snoc n ys l
unfolding unset_var unset_snoc
unset_var-snoc n ys l = split (var_from_name n ys) refl (omega (arith, length-append ys (l ∷ [])))
  where
    split :
        (found : Option ℕ)
        → var_from_name n ys ≡ found
        → length (ys ++ (l ∷ [])) - 1 ≡ length ys
        → unset_var n (ys ++ (l ∷ [])) ≡ unset_snoc n ys l
    split none e count = ground (arith, var_from_name-snoc n ys l, take-length ys (l ∷ []))
    split (some i) e count = ground (
      arith,
      var_from_name-snoc n ys l,
      get_elem?-last ys l,
      take-set-snoc ys l i (var_from_name-lt n ys i e),
      var_from_name-lt n ys i e,
    )

find_var-snoc :
    (k : Text) (ys : List Var) (l : Var)
    → find_var k (ys ++ (l ∷ [])) ≡ (elim (find_var k ys) [
      | some v ↦ some v
      | none ↦ if same_text k l.name then some l else none
    ])
unfolding find_var
find_var-snoc k [] l = ground arith
find_var-snoc k (y ∷ ys) l =
    ground (arith, find_var-snoc k ys l, find_var-cons k y (ys ++ (l ∷ [])), find_var-cons k y ys)

pub find_var-Fresh : (n : Text) (vs : List Var) → Fresh n vs → find_var n vs ≡ none
unfolding find_var
find_var-Fresh n [] h = refl
find_var-Fresh n (v ∷ vs) h = ground (arith, find_var-cons n v vs, find_var-Fresh n vs h.1)

pub Fresh-snoc :
    (n : Text) (ys : List Var) (l : Var)
    → Fresh n (ys ++ (l ∷ []))
    → Fresh n ys × (same_text n l.name ≡ false)
Fresh-snoc n [] l h = (tt, h.0)
Fresh-snoc n (y ∷ ys) l h = let (f, e) = Fresh-snoc n ys l h.1 in ((h.0, f), e)

pub Unique-snoc : (ys : List Var) (l : Var) → Unique (ys ++ (l ∷ [])) → Unique ys × Fresh l.name ys
Unique-snoc [] l h = (tt, tt)
Unique-snoc (y ∷ ys) l h =
    let (u, f) = Unique-snoc ys l h.1 in
    let (g, e) = Fresh-snoc y.name ys l h.0 in ((g, u), (same_text_sym l.name y.name ∙ e, f))

var_from_name-nil : (n : Text) (i : ℕ) → ¬ (var_from_name n [] ≡ some i)
unfolding var_from_name
var_from_name-nil n i h = cc

var_from_name-zero :
    (n : Text) (y : Var) (ys : List Var)
    → var_from_name n (y ∷ ys) ≡ some 0
    → same_text n y.name ≡ true
unfolding var_from_name
var_from_name-zero n y ys h = ground arith

var_from_name-suc :
    (n : Text) (y : Var) (ys : List Var) (i : ℕ)
    → var_from_name n (y ∷ ys) ≡ some (suc i)
    → (same_text n y.name ≡ false) × (var_from_name n ys ≡ some i)
unfolding var_from_name
var_from_name-suc n y ys i h = ground arith

unset_nil :
    (k n : Text) → find_var k (unset_var n []).0 ≡ (if same_text k n then none else find_var k [])
unfolding unset_var find_var
unset_nil k n = ground arith

-- The entry found gives way to `l`.
find_var-set :
    (k n : Text) (ys : List Var) (l : Var) (i : ℕ)
    → var_from_name n ys ≡ some i
    → Unique (ys ++ (l ∷ []))
    → find_var k (set ys i l) ≡ (if same_text k n then none else find_var k (ys ++ (l ∷ [])))
unfolding find_var
find_var-set k n [] l i h u = absurd (var_from_name-nil n i h)
find_var-set k n (y ∷ ys) l zero h u =
    let (fresh, e) = Fresh-snoc y.name ys l u.0 in
    ground (
      arith,
      var_from_name-zero n y ys h,
      names k n y,
      names k l.name l,
      find_var-cons k l ys,
      find_var-cons k y (ys ++ (l ∷ [])),
      find_var-snoc k ys l,
      find_var-Fresh y.name ys fresh,
      find_var-Fresh l.name ys (Unique-snoc ys l u.1).1,
      e,
    )
find_var-set k n (y ∷ ys) l (suc i) h u =
    let found = var_from_name-suc n y ys i h in
    ground (
      arith,
      found,
      names k n y,
      find_var-cons k y (set ys i l),
      find_var-cons k y (ys ++ (l ∷ [])),
      find_var-set k n ys l i found.1 u.1,
    )

find_var-none : (n : Text) (vs : List Var) → var_from_name n vs ≡ none → find_var n vs ≡ none
unfolding find_var
find_var-none n vs h = rw (h, find_var)

find_var-unset_snoc :
    (k n : Text) (ys : List Var) (l : Var)
    → Unique (ys ++ (l ∷ []))
    → find_var k (unset_snoc n ys l).0
      ≡ (if same_text k n then none else find_var k (ys ++ (l ∷ [])))
unfolding unset_snoc
find_var-unset_snoc k n ys l u = split (var_from_name n ys) refl
  where
    split :
        (found : Option ℕ)
        → var_from_name n ys ≡ found
        → find_var k (unset_snoc n ys l).0
          ≡ (if same_text k n then none else find_var k (ys ++ (l ∷ [])))
    split none e = ground (
      arith,
      names k n l,
      find_var-none n ys e,
      find_var-snoc k ys l,
      find_var-Fresh l.name ys (Unique-snoc ys l u).1,
    )
    split (some i) e = ground (arith, find_var-set k n ys l i e u)

-- In a table with no name twice, `unset_var` takes the entry of the name away and leaves that of
-- every other name.
pub find_var-unset_var :
    (k n : Text) (vs : List Var)
    → Unique vs
    → find_var k (unset_var n vs).0 ≡ (if same_text k n then none else find_var k vs)
find_var-unset_var k n vs u = elim (snoc-cases vs) [
  | inl e ↦ rw e (unset_nil k n)
  | inr (ys, l, e) ↦ rw e (rw (unset_var-snoc n ys l) (find_var-unset_snoc k n ys l (rw e at u)))
]
