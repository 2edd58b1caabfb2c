-- ===== src/Vector.antt =====
-- The growing array of include/vector.h, over the elements. An allocation that fails ends the shell
-- (src/mem.c) and is left out.
use tash.Base.{
  ℕ, zero, suc, ◌+◌, ◌-◌, ◌*◌, Bool, true, false, Option, none, some, List, [], ◌∷◌, length, ◌==◌,
  ltb, leb, if◌then◌else◌,
}
pub mod Lists
pub mod Refines
mod Tests

-- The cells of the block are those below `capacity`; `allocated` is that `data` is not NULL.
pub record Vector (A : Type 0) : Type 0 where
  pub count : ℕ
  pub capacity : ℕ
  pub allocated : Bool
  pub cells : ℕ → A

-- An access beyond the block, or a loop that does not end.
pub data Changed (A : Type 0) : Type 0 where
  changed : Vector A → Changed A
  out_of_block endless : Changed A

-- `fresh` is what stands in memory that was just allocated.
module _ {A : Type 0} (fresh : ℕ → A) where
  unfoldable pub init_vector : Vector A → Vector A
  init_vector v =
      if v.allocated then v else record { count = 0; capacity = 1; allocated = true; cells = fresh }

  unfoldable pub free_vector : Vector A → Vector A
  free_vector v = if v.allocated then record v { count = 0; allocated = false } else v

  unfoldable pub vector_at : Vector A → ℕ → Option A
  vector_at v index = if ltb index v.count then some (v.cells index) else none

  -- xrealloc keeps the cells of the old block.
  abbrev pub grown : ℕ → Vector A → Vector A
  grown capacity v = record v {
    capacity = capacity;
    allocated = true;
    cells = λ k. if ltb k v.capacity then v.cells k else fresh k;
  }

  abbrev pub put_at : ℕ → List A → (ℕ → A) → ℕ → A
  put_at i [] cells = cells
  put_at i (x ∷ xs) cells = put_at (suc i) xs (λ k. if k == i then x else cells k)

  -- memcpy behind the last element.
  unfoldable pub append_elements : List A → Vector A → Changed A
  append_elements xs v =
      if v.allocated
      then (if leb (v.count + length xs) v.capacity
          then changed (record v { count = v.count + length xs; cells = put_at v.count xs v.cells })
          else out_of_block)
      else out_of_block

  unfoldable pub vector_push_back : A → Vector A → Changed A
  unfolding append_elements
  vector_push_back x v =
      append_elements (x ∷ []) (if v.count == v.capacity then grown (v.capacity * 2) v else v)

  -- The loop that doubles the capacity; `none` is that it does not end within the fuel.
  unfoldable pub doubled : ℕ → ℕ → ℕ → Option ℕ
  doubled zero need capacity = if ltb capacity need then none else some capacity
  doubled (suc f) need capacity =
      let more = doubled f need (capacity * 2) in if ltb capacity need then more else some capacity

  -- The doubling has as much fuel as elements are needed.
  unfoldable pub vector_push_multiple_back : List A → Vector A → Changed A
  unfolding append_elements doubled
  vector_push_multiple_back xs v =
      let need = v.count + length xs in
      if ltb v.capacity need
      then (elim (doubled need need v.capacity) [
        | none ↦ endless
        | some capacity ↦ append_elements xs (grown capacity v)
      ])
      else append_elements xs v

  -- The element that was taken off, or `none` for -1.
  unfoldable pub vector_pop_back : Vector A → Option A × Vector A
  vector_pop_back v =
      if v.count == 0
      then (none, v)
      else (some (v.cells (v.count - 1)), record v { count = v.count - 1 })
