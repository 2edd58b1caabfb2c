-- ===== src/Funcs/Laws.antt =====
-- src/func.c as a finite map.
use tash.Base.{
  ◌≡◌, some, List, [], ◌∷◌, Text, same_text, same_text_refl, same_text→eq, if◌then◌else◌, arith,
}
use tash.Funcs.{get_func, register_func}

module _ {A : Type 0} where
  get_func-cons :
      (k m : Text) (b : A) (fs : List (Text × A))
      → get_func k ((m, b) ∷ fs) ≡ (if same_text m k then some (m, b) else get_func k fs)
  unfolding get_func
  get_func-cons k m b fs = ground arith

  register_func-cons :
      (n m : Text) (body b : A) (fs : List (Text × A))
      → register_func n body ((m, b) ∷ fs)
        ≡ (if same_text m n then (m, body) ∷ fs else (m, b) ∷ register_func n body fs)
  unfolding register_func
  register_func-cons n m body b fs = ground arith

  -- After `register_func` the name has the new body, and every other name has what it had.
  pub get_func-register_func :
      (k n : Text) (body : A) (fs : List (Text × A))
      → get_func k (register_func n body fs)
        ≡ (if same_text n k then some (n, body) else get_func k fs)
  unfolding get_func register_func
  get_func-register_func k n body [] = ground arith
  get_func-register_func k n body ((m, b) ∷ fs) = ground (
    arith,
    register_func-cons n m body b fs,
    get_func-register_func k n body fs,
    get_func-cons k m b (register_func n body fs),
    get_func-cons k m b fs,
    get_func-cons k m body fs,
    same_text→eq n k,
    same_text→eq m n,
    same_text→eq m k,
    same_text_refl n,
    same_text_refl k,
  )
