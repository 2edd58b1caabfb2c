-- ===== src/Funcs.antt =====
-- The shell functions (src/func.c): a vector of names and bodies. What a body is does not matter
-- here. `unregister_func` moves the last entry into the place of the one that goes, as `unset_var`
-- does.
pub mod Laws
mod Tests
use tash.Base.{
  ℕ, zero, suc, ◌-◌, Bool, true, false, Option, none, some, List, [], ◌∷◌, ◌++◌, ◌==◌,
  if◌then◌else◌, Text, same_text, length, get_elem?, set, take,
}

module _ {ℓ} {A : Type ℓ} where
  -- The index of the entry that `get_func` points to.
  unfoldable pub func_index : Text → List (Text × A) → Option ℕ
  func_index n [] = none
  func_index n ((m, body) ∷ fs) =
      if same_text m n
      then some 0
      else (elim (func_index n fs) [ none ↦ none | some i ↦ some (suc i) ])

  unfoldable pub get_func : Text → List (Text × A) → Option (Text × A)
  unfolding func_index
  get_func n fs = elim (func_index n fs) [ none ↦ none | some i ↦ get_elem? fs i ]

  -- The body of a function that there is already is freed, and the new one takes its place.
  unfoldable pub register_func : Text → A → List (Text × A) → List (Text × A)
  unfolding func_index
  register_func n body fs = elim (func_index n fs) [
    | none ↦ fs ++ ((n, body) ∷ [])
    | some i ↦ elim (get_elem? fs i) [ none ↦ fs | some (m, _) ↦ set fs i (m, body) ]
  ]

  unfoldable pub unregister_func : Text → List (Text × A) → List (Text × A)
  unfolding func_index
  unregister_func n fs = elim (func_index n fs) [
    | none ↦ fs
    | some i ↦
        let last = length fs - 1 in
        let moved : List (Text × A) =
          if i == last
          then fs
          else (elim (get_elem? fs last) [ none ↦ fs | some f ↦ set fs i f ]) in
        take last moved
  ]
