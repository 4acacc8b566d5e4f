-- ===== src/Structures/Queue.antt =====
-- The queue of include/data_structure/uint64_queue.h.
-- An access out of bounds has no meaning in C: here it reads 0 and writes nothing. A failing `assert`
-- ends the program: `none`.
pub mod Contents
pub mod Runs
use cl_mem_regulation.Common.{
  ℕ, ◌+◌, ◌-◌, ◌%◌, ◌==◌, ltb, leb, if◌then◌else◌, Bool, Option, none, some, List, get_or, set, u32,
  u64, sub64, sext64,
}

pub record Uint64Queue : Type 0 where
  pub push_idx : ℕ
  pub pop_idx : ℕ
  pub max_size : ℕ
  pub elements : List ℕ

-- `memory` is what `malloc` returns, with whatever it holds.
unfoldable pub uint64_queue__init : (memory : List ℕ) → ℕ → Uint64Queue
uint64_queue__init memory n = record {
  push_idx = 0;
  pop_idx = 0;
  max_size = u32 (n + 1);
  elements = memory;
}

unfoldable pub uint64_queue__is_empty : Uint64Queue → Bool
uint64_queue__is_empty q = q.push_idx == q.pop_idx

unfoldable pub uint64_queue__is_full : Uint64Queue → Bool
uint64_queue__is_full q = u64 (q.push_idx + 1) % sext64 q.max_size == q.pop_idx

unfoldable pub uint64_queue__size : Uint64Queue → ℕ
uint64_queue__size q =
    if leb q.pop_idx q.push_idx
    then u32 (q.push_idx - q.pop_idx)
    else u32 (sub64 (sext64 q.max_size) (q.pop_idx - q.push_idx))

unfoldable pub uint64_queue__push : Uint64Queue → ℕ → Uint64Queue
uint64_queue__push q value = record q {
  elements = set q.elements q.push_idx value;
  push_idx = u64 (q.push_idx + 1) % sext64 q.max_size;
}

unfoldable pub uint64_queue__pop : Uint64Queue → ℕ × Uint64Queue
uint64_queue__pop q =
    (get_or q.elements q.pop_idx 0, record q { pop_idx = u64 (q.pop_idx + 1) % sext64 q.max_size })

unfoldable pub uint64_queue__front : Uint64Queue → Option ℕ
unfolding uint64_queue__is_empty
uint64_queue__front q =
    if uint64_queue__is_empty q then none else some (get_or q.elements q.pop_idx 0)

unfoldable pub uint64_queue__back : Uint64Queue → Option ℕ
unfolding uint64_queue__is_empty
uint64_queue__back q =
    let index = u64 (sub64 q.push_idx 1 + sext64 q.max_size) % sext64 q.max_size in
    if uint64_queue__is_empty q then none else some (get_or q.elements index 0)

unfoldable pub uint64_queue__at : Uint64Queue → ℕ → Option ℕ
unfolding uint64_queue__size
uint64_queue__at q index =
    let real_index = u32 (u64 (q.pop_idx + index) % sext64 q.max_size) in
    if ltb index (uint64_queue__size q) then some (get_or q.elements real_index 0) else none

unfoldable pub uint64_queue__pop_count : Uint64Queue → ℕ
uint64_queue__pop_count q = q.pop_idx
