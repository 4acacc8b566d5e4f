-- ===== src/Structures/SessionQueue.antt =====
-- The queue of include/data_structure/session_queue.h, which counts its pushes and pops and reads the
-- slot off the counts. A failing `assert` ends the program: `none`. The queue never looks into a
-- session, so its type is a parameter, with the session that `session__init_with_args(…, 0, 0)` makes.
pub mod Contents
use cl_mem_regulation.Common.{
  ℕ, ◌+◌, ◌%◌, ◌==◌, ltb, if◌then◌else◌, Bool, Option, none, some, List, get_or, set, replicate,
  u32, u64, sub64, sext64,
}

pub record SessionQueue {ℓ} (A : Type ℓ) : Type ℓ where
  pub push_idx : ℕ
  pub pop_idx : ℕ
  pub elements : List A
  pub max_size : ℕ

module _ {ℓ} {A : Type ℓ} (blank : A) where
  unfoldable pub session_queue__init : ℕ → SessionQueue A
  session_queue__init n = record {
    push_idx = 0;
    pop_idx = 0;
    elements = replicate n blank;
    max_size = n;
  }

  unfoldable pub session_queue__is_empty : SessionQueue A → Bool
  session_queue__is_empty q = q.push_idx == q.pop_idx

  unfoldable pub session_queue__is_full : SessionQueue A → Bool
  session_queue__is_full q = sub64 q.push_idx q.pop_idx == sext64 q.max_size

  unfoldable pub session_queue__size : SessionQueue A → ℕ
  session_queue__size q = u32 (sub64 q.push_idx q.pop_idx)

  unfoldable pub session_queue__push : SessionQueue A → A → Option (SessionQueue A)
  unfolding session_queue__is_full
  session_queue__push q value =
      let index = q.push_idx % sext64 q.max_size in
      if session_queue__is_full q
      then none
      else some
          (record q { elements = set q.elements index value; push_idx = u64 (q.push_idx + 1) })

  unfoldable pub session_queue__pop : SessionQueue A → Option (A × SessionQueue A)
  unfolding session_queue__is_empty
  session_queue__pop q =
      let index = q.pop_idx % sext64 q.max_size in
      if session_queue__is_empty q
      then none
      else some (get_or q.elements index blank, record q { pop_idx = u64 (q.pop_idx + 1) })

  unfoldable pub session_queue__front : SessionQueue A → Option A
  unfolding session_queue__is_empty
  session_queue__front q =
      let index = q.pop_idx % sext64 q.max_size in
      if session_queue__is_empty q then none else some (get_or q.elements index blank)

  unfoldable pub session_queue__back : SessionQueue A → Option A
  unfolding session_queue__is_empty
  session_queue__back q =
      let index = sub64 q.push_idx 1 % sext64 q.max_size in
      if session_queue__is_empty q then none else some (get_or q.elements index blank)

  -- The index is compared as an `unsigned int`.
  unfoldable pub session_queue__at : SessionQueue A → ℕ → Option A
  unfolding session_queue__size
  session_queue__at q index =
      let real_index = u64 (q.pop_idx + index) % sext64 q.max_size in
      if ltb index (session_queue__size q) then some (get_or q.elements real_index blank) else none
