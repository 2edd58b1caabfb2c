-- ===== src/Vector/Tests.antt =====
-- A vector of two numbers in a block of two (include/vector.h).
use tash.Base.{ℕ, ◌≡◌, refl, true, [], ◌∷◌, ◌++◌, get_elem?, arith}
use tash.Vector.{
  Vector, init_vector, free_vector, vector_at, vector_push_back, vector_push_multiple_back,
  vector_pop_back,
}
use tash.Vector.Lists.{to_list, Holds}
use tash.Vector.Refines.{Popped, vector-list}

abbrev two : Vector ℕ
two = record { count = 2; capacity = 2; allocated = true; cells = λ k. k }

abbrev zeros : ℕ → ℕ
zeros k = 0

vector-list_example :
    (to_list (init_vector zeros (free_vector zeros two)) ≡ [])
    × Holds (vector_push_back zeros 7 two) (to_list two ++ (7 ∷ []))
    × Holds (vector_push_multiple_back zeros (5 ∷ 6 ∷ 7 ∷ []) two) (to_list two ++ (5 ∷ 6 ∷ 7 ∷ []))
    × (vector_at zeros two 1 ≡ get_elem? (to_list two) 1)
    × Popped zeros two (vector_pop_back zeros two)
vector-list_example =
    vector-list zeros two 7 (5 ∷ 6 ∷ 7 ∷ []) 1
      (record { is_allocated = refl; has_room = omega arith; count_le = omega arith })
