-- ===== src/Structures/Vector.antt =====
-- The vector of include/data_structure/vector.h: the elements are what its pointers point at.
-- A failing `malloc` or `realloc` ends the program; that is left out. A write outside the allocated
-- memory has no meaning in C: `none`.
pub mod Contents
use cl_mem_regulation.Common.{
  ℕ, zero, suc, ◌+◌, ◌-◌, ◌*◌, ◌==◌, ltb, if◌then◌else◌, Bool, not, ◌||◌, Option, none, some, List,
  [], ◌++◌, length, get_elem?, get_or, set, take, drop, replicate, u64, two32, ◌%◌, ◌&&◌, is_neg32,
  sext64, min,
}

-- `data` is the allocated memory, of `capacity` pointers; a pointer that was not set is `none`.
pub record Vector {ℓ} (A : Type ℓ) : Type ℓ where
  pub data_ : List (Option A)
  pub size : ℕ
  pub capacity : ℕ

module _ {ℓ} {A : Type ℓ} where
  unfoldable pub vector__init : Vector A
  vector__init = record { data_ = replicate 4 none; size = 0; capacity = 4 }

  -- The size is an `int`, and the sum with 10 is one too.
  unfoldable pub vector__init_with_size : ℕ → Vector A
  vector__init_with_size n =
      let capacity = sext64 ((n + 10) % two32) in
      record { data_ = replicate capacity none; size = sext64 n; capacity = capacity }

  -- `realloc` keeps what was there; the new memory is not set.
  unfoldable pub vector__resize : Vector A → Vector A
  vector__resize v =
      let capacity = u64 (v.capacity * 2) in
      record v {
        capacity = capacity;
        data_ = take capacity v.data_ ++ replicate (capacity - v.capacity) none;
      }

  unfoldable pub vector__push_back : Vector A → A → Option (Vector A)
  unfolding vector__resize
  vector__push_back v element =
      let v' = if v.size == v.capacity then vector__resize v else v in
      if ltb v'.size (length v'.data_)
      then some
          (record v' { data_ = set v'.data_ v'.size (some element); size = u64 (v'.size + 1) })
      else none

  -- The test of the code on an index: the `int` is not negative, and below the size.
  unfoldable pub in_range : Vector A → ℕ → Bool
  in_range v index = not (is_neg32 index) && ltb (sext64 index) v.size

  unfoldable pub vector__get : Vector A → ℕ → Option A
  unfolding in_range
  vector__get v index = if in_range v index then get_or v.data_ index none else none

  unfoldable pub vector__update : Vector A → ℕ → A → Vector A
  unfolding in_range
  vector__update v index element =
      if in_range v index then record v { data_ = set v.data_ index (some element) } else v

  -- The loop of `vector__remove`, which still has `n` pointers to move, from `i` on.
  unfoldable pub move_down : ℕ → ℕ → List (Option A) → List (Option A)
  move_down zero i xs = xs
  move_down (suc n) i xs = move_down n (i + 1) (set xs i (get_or xs (i + 1) none))

  unfoldable pub vector__remove : Vector A → ℕ → Vector A
  unfolding in_range move_down
  vector__remove v index =
      if in_range v index
      then record v { data_ = move_down (v.size - 1 - index) index v.data_; size = v.size - 1 }
      else v

  -- The elements are freed.
  unfoldable pub vector__clear : Vector A → Vector A
  vector__clear v = record { data_ = []; size = 0; capacity = 0 }

  unfoldable pub vector__destroy : Vector A → Vector A
  unfolding vector__clear
  vector__destroy v = vector__clear v
