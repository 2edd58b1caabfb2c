-- ===== src/Vector/Refines.antt =====
-- The operations of a vector (include/vector.h) are those of its list.
use tash.Base.{
  ℕ, zero, suc, ◌+◌, ◌-◌, ◌*◌, ◌≤◌, ◌≡◌, refl, ap, sym, ◌∙◌, true, false, Option, none, some, List,
  [], ◌∷◌, ◌++◌, length, get_elem?, ◌==◌, ltb, leb, if◌then◌else◌, Bool-cases, inl, inr, arith,
  append-nil,
}
use tash.Vector.{
  Vector, init_vector, free_vector, vector_at, grown, put_at, append_elements, vector_push_back,
  doubled, vector_push_multiple_back, vector_pop_back,
}
use tash.Vector.Lists.{
  elements_from, to_list, Valid, elements-ext, elements-append, put_at-below, elements-put_at,
  Holds,
}

module _ {A : Type 0} (fresh : ℕ → A) where
  append_elements-Holds :
      (xs : List A) (v : Vector A)
      → Valid v
      → v.count + length xs ≤ v.capacity
      → Holds (append_elements fresh xs v) (to_list v ++ xs)
  unfolding append_elements to_list
  append_elements-Holds xs v i room =
      let fits : leb (v.count + length xs) v.capacity ≡ true = ground arith in
      let new = put_at fresh v.count xs v.cells in
      let start : 0 + v.count ≡ v.count = omega arith in
      record {
        vector = record v { count = v.count + length xs; cells = new };
        done = rw (i.is_allocated, fits) refl;
        holds =
            elements-append new 0 v.count (length xs)
            ∙ ap (λ k. elements_from new 0 v.count ++ elements_from new k (length xs)) start
            ∙ ap (λ t. elements_from new 0 v.count ++ t) (elements-put_at fresh v.count xs v.cells)
            ∙ ap (λ t. t ++ xs)
                (elements-ext new v.cells 0 v.count
                  (λ k lo hi. put_at-below fresh v.count xs v.cells k (omega arith)));
        valid = record { is_allocated = i.is_allocated; has_room = i.has_room; count_le = room };
      }

  grown-list :
      (capacity : ℕ) (v : Vector A)
      → v.count ≤ v.capacity
      → to_list (grown fresh capacity v) ≡ to_list v
  unfolding to_list
  grown-list capacity v h =
      elements-ext (λ k. if ltb k v.capacity then v.cells k else fresh k) v.cells 0 v.count
        (λ k lo hi. let inside : ltb k v.capacity ≡ true = ground arith in rw inside refl)

  append_grown-Holds :
      (capacity : ℕ) (xs : List A) (v : Vector A)
      → Valid v
      → 1 ≤ capacity
      → v.count + length xs ≤ capacity
      → Holds (append_elements fresh xs (grown fresh capacity v)) (to_list v ++ xs)
  append_grown-Holds capacity xs v i positive room =
      let h =
        append_elements-Holds xs (grown fresh capacity v)
          (record { is_allocated = refl; has_room = positive; count_le = omega arith }) room in
      record {
        vector = h.vector;
        done = h.done;
        holds = h.holds ∙ ap (λ t. t ++ xs) (grown-list capacity v i.count_le);
        valid = h.valid;
      }

  pub vector_push_back-Holds :
      (x : A) (v : Vector A) → Valid v → Holds (vector_push_back fresh x v) (to_list v ++ (x ∷ []))
  unfolding vector_push_back
  vector_push_back-Holds x v i = elim (Bool-cases (v.count == v.capacity)) [
    | inl full ↦ rw full (
        append_grown-Holds (v.capacity * 2) (x ∷ []) v i (omega (arith, i.has_room))
          (ground (arith, i.has_room)))
    | inr space ↦ rw space (append_elements-Holds (x ∷ []) v i (ground (arith, i.count_le)))
  ]

  -- The doubling ends at a capacity that is enough.
  doubled_lem :
      (f need capacity : ℕ)
      → 1 ≤ capacity
      → need ≤ f + capacity
      → (c : ℕ) × (doubled fresh f need capacity ≡ some c) × (need ≤ c) × (1 ≤ c)
  unfolding doubled
  doubled_lem zero need capacity h k =
      let enough : ltb capacity need ≡ false = ground arith in
      (capacity, rw enough refl, omega arith, h)
  doubled_lem (suc f) need capacity h k = elim (Bool-cases (ltb capacity need)) [
    | inl short ↦
        let (c, e, big, positive) = doubled_lem f need (capacity * 2) (omega arith) (omega arith) in
        (c, rw short e, big, positive)
    | inr enough ↦ (capacity, rw enough refl, ground arith, h)
  ]

  pub vector_push_multiple_back-Holds :
      (xs : List A) (v : Vector A)
      → Valid v
      → Holds (vector_push_multiple_back fresh xs v) (to_list v ++ xs)
  unfolding vector_push_multiple_back
  vector_push_multiple_back-Holds xs v i =
      let need = v.count + length xs in
      let (c, e, big, positive) = doubled_lem need need v.capacity i.has_room (omega arith) in
      elim (Bool-cases (ltb v.capacity need)) [
        | inl short ↦ rw (short, e) (append_grown-Holds c xs v i positive big)
        | inr enough ↦ rw enough (append_elements-Holds xs v i (ground arith))
      ]

  get_elem?-elements :
      (f : ℕ → A) (i n k : ℕ)
      → get_elem? (elements_from f i n) k ≡ (if ltb k n then some (f (i + k)) else none)
  unfolding elements_from
  get_elem?-elements f i zero k = ground arith
  get_elem?-elements f i (suc n) zero =
      let e : i ≡ i + zero = omega arith in
      let first : ltb zero (suc n) ≡ true = ground arith in rw first (ap (λ j. some (f j)) e)
  get_elem?-elements f i (suc n) (suc k) =
      let e : suc i + k ≡ i + suc k = omega arith in
      let same : ltb k n ≡ ltb (suc k) (suc n) = ground arith in
      get_elem?-elements f (suc i) n k
      ∙ ap (λ j. if ltb k n then some (f j) else none) e
      ∙ ap (λ b. if b then some (f (i + suc k)) else none) same

  pub vector_at-list : (v : Vector A) (k : ℕ) → vector_at fresh v k ≡ get_elem? (to_list v) k
  unfolding vector_at to_list
  vector_at-list v k =
      let e : 0 + k ≡ k = omega arith in
      sym (
        get_elem?-elements v.cells 0 v.count k
        ∙ ap (λ j. if ltb k v.count then some (v.cells j) else none) e)

  abbrev pub taken : Option A → List A
  taken none = []
  taken (some x) = x ∷ []

  -- What a pop gives stood at the end, and nothing is given of an empty vector only.
  unfoldable pub Popped : Vector A → Option A × Vector A → Type 0
  Popped v (o, v') = (to_list v ≡ to_list v' ++ taken o) × Valid v' × (o ≡ none → to_list v ≡ [])

  vector_pop_back-Popped : (v : Vector A) → Valid v → Popped v (vector_pop_back fresh v)
  unfolding vector_pop_back to_list Popped elements_from
  vector_pop_back-Popped v i = elim (Bool-cases (v.count == 0)) [
    | inl empty ↦
        let e : v.count ≡ 0 = ground arith in
        let nothing = ap (elements_from v.cells 0) e in
        rw empty (sym (append-nil (to_list v)), i, λ q. nothing)
    | inr some_left ↦
        let e : v.count ≡ (v.count - 1) + 1 = ground arith in
        let start : 0 + (v.count - 1) ≡ v.count - 1 = omega arith in
        rw some_left (
          ap (elements_from v.cells 0) e
              ∙ elements-append v.cells 0 (v.count - 1) 1
              ∙ ap (λ k. elements_from v.cells 0 (v.count - 1) ++ (v.cells k ∷ [])) start,
          record {
            is_allocated = i.is_allocated;
            has_room = i.has_room;
            count_le = omega (arith, i.count_le);
          },
          λ q. absurd (ground (arith, q)),
        )
  ]

  -- The vector is its list: a fresh one is empty, the pushes append, with a block that grows as far
  -- as it has to and a doubling that ends, a read is the element at the place or NULL, and a pop
  -- takes the last element off. The vector stays valid.
  pub vector-list :
      (v : Vector A) (x : A) (xs : List A) (k : ℕ)
      → Valid v
      → (to_list (init_vector fresh (free_vector fresh v)) ≡ [])
        × Holds (vector_push_back fresh x v) (to_list v ++ (x ∷ []))
        × Holds (vector_push_multiple_back fresh xs v) (to_list v ++ xs)
        × (vector_at fresh v k ≡ get_elem? (to_list v) k)
        × Popped v (vector_pop_back fresh v)
  unfolding init_vector free_vector to_list elements_from
  vector-list v x xs k i = (
    rw i.is_allocated refl,
    vector_push_back-Holds x v i,
    vector_push_multiple_back-Holds xs v i,
    vector_at-list v k,
    vector_pop_back-Popped v i,
  )
