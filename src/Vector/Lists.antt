-- ===== src/Vector/Lists.antt =====
-- A vector (include/vector.h) is the list of its elements.
use tash.Base.{
  ℕ, zero, suc, ◌+◌, ◌≤◌, ◌<◌, ◌≡◌, refl, ap, ◌∙◌, true, false, List, [], ◌∷◌, ◌++◌, length, ◌==◌,
  if◌then◌else◌, arith,
}
use tash.Vector.{Vector, Changed, changed, put_at}

module _ {A : Type 0} where
  unfoldable pub elements_from : (ℕ → A) → ℕ → ℕ → List A
  elements_from cells i zero = []
  elements_from cells i (suc n) = cells i ∷ elements_from cells (suc i) n

  unfoldable pub to_list : Vector A → List A
  unfolding elements_from
  to_list v = elements_from v.cells 0 v.count

  -- An initialised vector.
  pub record Valid (v : Vector A) : Type 0 where
    pub is_allocated : v.allocated ≡ true
    pub has_room : 1 ≤ v.capacity
    pub count_le : v.count ≤ v.capacity

  pub elements-ext :
      (f g : ℕ → A) (i n : ℕ)
      → ((k : ℕ) → i ≤ k → k < i + n → f k ≡ g k)
      → elements_from f i n ≡ elements_from g i n
  unfolding elements_from
  elements-ext f g i zero h = refl
  elements-ext f g i (suc n) h =
      ap (λ t. f i ∷ t) (elements-ext f g (suc i) n (λ k lo hi. h k (omega arith) (omega arith)))
      ∙ ap (λ x. x ∷ elements_from g (suc i) n) (h i (omega arith) (omega arith))

  pub elements-append :
      (f : ℕ → A) (i m n : ℕ)
      → elements_from f i (m + n) ≡ elements_from f i m ++ elements_from f (i + m) n
  unfolding elements_from
  elements-append f i zero n =
      let e : zero + n ≡ n = omega arith in
      let e' : i ≡ i + zero = omega arith in
      ap (elements_from f i) e ∙ ap (λ k. elements_from f k n) e'
  elements-append f i (suc m) n =
      let e : suc m + n ≡ suc (m + n) = omega arith in
      let e' : suc i + m ≡ i + suc m = omega arith in
      ap (elements_from f i) e
      ∙ ap (λ t. f i ∷ t) (elements-append f (suc i) m n)
      ∙ ap (λ k. f i ∷ (elements_from f (suc i) m ++ elements_from f k n)) e'

  pub put_at-below :
      (fresh : ℕ → A) (i : ℕ) (xs : List A) (cells : ℕ → A) (k : ℕ)
      → k < i
      → put_at fresh i xs cells k ≡ cells k
  put_at-below fresh i [] cells k h = refl
  put_at-below fresh i (x ∷ xs) cells k h =
      let other : (k == i) ≡ false = ground arith in
      put_at-below fresh (suc i) xs (λ k. if k == i then x else cells k) k (omega arith)
      ∙ rw other refl

  pub elements-put_at :
      (fresh : ℕ → A) (i : ℕ) (xs : List A) (cells : ℕ → A)
      → elements_from (put_at fresh i xs cells) i (length xs) ≡ xs
  unfolding elements_from
  elements-put_at fresh i [] cells = refl
  elements-put_at fresh i (x ∷ xs) cells =
      let next = λ (k : ℕ). if k == i then x else cells k in
      let same : (i == i) ≡ true = ground arith in
      let here : put_at fresh (suc i) xs next i ≡ x =
        put_at-below fresh (suc i) xs next i (omega arith) ∙ rw same refl in
      ap (λ t. put_at fresh (suc i) xs next i ∷ t) (elements-put_at fresh (suc i) xs next)
      ∙ ap (λ y. y ∷ xs) here

  -- The operation leaves a valid vector with these elements.
  pub record Holds (c : Changed A) (xs : List A) : Type 0 where
    pub vector : Vector A
    pub done : c ≡ changed vector
    pub holds : to_list vector ≡ xs
    pub valid : Valid vector
