-- ===== src/Structures/Queue/Contents.antt =====
-- The queue is a list: what each operation does to the elements that wait in it, oldest first.
use cl_mem_regulation.Common.{
  ℕ, suc, ◌+◌, ◌%◌, ◌<◌, ◌≡◌, ◌⊎◌, inl, inr, sym, ap, ◌∙◌, arith, true, false, some, List, [], ◌∷◌,
  ◌++◌, length, length-set, get_or, get_or-set_self, get_elem?, set, dec_lt, two31, two32, u64,
  sext64, Bool-cases, ltb, if_rule, get_elem?_beyond, u32, ◌==◌,
}
use cl_mem_regulation.Structures.Ring.{
  window, window-snoc, window-set, get_elem?-window, length-window, next_slot, ahead, slot_zero,
}
use cl_mem_regulation.Structures.Queue.{
  Uint64Queue, uint64_queue__is_empty, uint64_queue__is_full, uint64_queue__size,
  uint64_queue__push, uint64_queue__pop, uint64_queue__front, uint64_queue__at,
}
use native.Mathlib.Nat.{mod-lt, mod-eq_of_lt, add-mod_right}

-- The indices are slots of the allocated elements.
pub record IsValidQueue (q : Uint64Queue) : Type 0 where
  pub small : q.max_size < two31
  pub memory : length q.elements ≡ q.max_size
  pub push_slot : q.push_idx < q.max_size
  pub pop_slot : q.pop_idx < q.max_size

abbrev pub count : Uint64Queue → ℕ
count q = ahead q.max_size q.pop_idx q.push_idx

-- The elements that wait in the queue, oldest first.
abbrev pub contents : Uint64Queue → List ℕ
contents q = window q.max_size 0 q.elements q.pop_idx (count q)

-- The index arithmetic of the code does not overflow.
next_lem :
    (q : Uint64Queue) (i : ℕ)
    → q.max_size < two31
    → i < q.max_size
    → u64 (i + 1) % sext64 q.max_size ≡ (i + 1) % q.max_size
next_lem q i small slot =
    ap (λ x. x % sext64 q.max_size) (mod-eq_of_lt (omega arith))
    ∙ ap (λ m. (i + 1) % m) (ground arith)

pub is_full_iff :
    (q : Uint64Queue)
    → IsValidQueue q
    → ((uint64_queue__is_full q ≡ true) × (count q + 1 ≡ q.max_size))
      ⊎ ((uint64_queue__is_full q ≡ false) × (count q + 1 < q.max_size))
unfolding uint64_queue__is_full
is_full_iff q valid = ground (
  arith,
  valid.small,
  valid.push_slot,
  valid.pop_slot,
  next_lem q q.push_idx valid.small valid.push_slot,
  next_slot q.max_size q.push_idx valid.push_slot,
)

pub push-IsValidQueue :
    (q : Uint64Queue) (value : ℕ) → IsValidQueue q → IsValidQueue (uint64_queue__push q value)
unfolding uint64_queue__push
push-IsValidQueue q value valid = record {
  small = valid.small;
  memory = length-set q.elements q.push_idx value ∙ valid.memory;
  push_slot =
      rw (next_lem q q.push_idx valid.small valid.push_slot)
        (mod-lt (q.push_idx + 1) (ground (arith, valid.push_slot)));
  pop_slot = valid.pop_slot;
}

-- The slot that is written is the one after the elements that wait.
last_slot : (q : Uint64Queue) → IsValidQueue q → (q.pop_idx + count q) % q.max_size ≡ q.push_idx
last_slot q valid = elim (dec_lt q.push_idx q.pop_idx) [
  | yes wrapped ↦
      ap (λ x. x % q.max_size) (ground (arith, valid.pop_slot))
      ∙ (add-mod_right q.push_idx q.max_size ∙ mod-eq_of_lt valid.push_slot)
  | no straight ↦ ap (λ x. x % q.max_size) (ground arith) ∙ mod-eq_of_lt valid.push_slot
]

push-count :
    (q : Uint64Queue) (value : ℕ)
    → IsValidQueue q
    → uint64_queue__is_full q ≡ false
    → count (uint64_queue__push q value) ≡ suc (count q)
unfolding uint64_queue__push
push-count q value valid room = ground (
  arith,
  is_full_iff q valid,
  valid.push_slot,
  valid.pop_slot,
  next_lem q q.push_idx valid.small valid.push_slot,
  next_slot q.max_size q.push_idx valid.push_slot,
)

-- A push on a queue that is not full adds the value behind the elements that wait, and keeps the
-- queue valid.
pub push-contents :
    (q : Uint64Queue) (value : ℕ)
    → IsValidQueue q
    → uint64_queue__is_full q ≡ false
    → IsValidQueue (uint64_queue__push q value)
      × (contents (uint64_queue__push q value) ≡ contents q ++ (value ∷ []))
unfolding uint64_queue__push
push-contents q value valid room = (
  push-IsValidQueue q value valid,
  ap (window q.max_size 0 written q.pop_idx) (push-count q value valid room)
      ∙ (window-snoc q.max_size 0 written q.pop_idx (count q) valid.pop_slot
          ∙ (ap (λ r. r ++ (get_or written ((q.pop_idx + count q) % q.max_size) 0 ∷ []))
                (window-set q.max_size 0 q.elements q.pop_idx (count q) q.push_idx value
                  valid.pop_slot valid.push_slot (omega arith))
              ∙ ap (λ x. contents q ++ (x ∷ []))
                  (ap (λ i. get_or written i 0) (last_slot q valid)
                    ∙ get_or-set_self q.elements q.push_idx value 0
                        (rw valid.memory valid.push_slot)))),
)
  where
    written : List ℕ
    written = set q.elements q.push_idx value

-- A push on a full queue, which the code does not refuse, leaves no element in it.
pub push-full :
    (q : Uint64Queue) (value : ℕ)
    → IsValidQueue q
    → uint64_queue__is_full q ≡ true
    → contents (uint64_queue__push q value) ≡ []
unfolding uint64_queue__push uint64_queue__is_full
push-full q value valid full =
    ap (window q.max_size 0 (set q.elements q.push_idx value) q.pop_idx) empty
  where
    empty : count (uint64_queue__push q value) ≡ 0
    empty = ground (arith, valid.pop_slot)

pop-IsValidQueue : (q : Uint64Queue) → IsValidQueue q → IsValidQueue (uint64_queue__pop q).1
unfolding uint64_queue__pop
pop-IsValidQueue q valid = record {
  small = valid.small;
  memory = valid.memory;
  push_slot = valid.push_slot;
  pop_slot =
      rw (next_lem q q.pop_idx valid.small valid.pop_slot)
        (mod-lt (q.pop_idx + 1) (ground (arith, valid.pop_slot)));
}

pop-count :
    (q : Uint64Queue)
    → IsValidQueue q
    → uint64_queue__is_empty q ≡ false
    → count q ≡ suc (count (uint64_queue__pop q).1)
unfolding uint64_queue__pop uint64_queue__is_empty
pop-count q valid some_wait = ground (
  arith,
  valid.push_slot,
  valid.pop_slot,
  next_lem q q.pop_idx valid.small valid.pop_slot,
  next_slot q.max_size q.pop_idx valid.pop_slot,
)

-- A pop of a queue that is not empty returns the oldest element and leaves the others, in a valid
-- queue.
pub pop-contents :
    (q : Uint64Queue)
    → IsValidQueue q
    → uint64_queue__is_empty q ≡ false
    → IsValidQueue (uint64_queue__pop q).1
      × (contents q ≡ (uint64_queue__pop q).0 ∷ contents (uint64_queue__pop q).1)
unfolding uint64_queue__pop
pop-contents q valid some_wait = (
  pop-IsValidQueue q valid,
  ap (window q.max_size 0 q.elements q.pop_idx) (pop-count q valid some_wait)
      ∙ ap
          (λ i.
            get_or q.elements q.pop_idx 0
            ∷ window q.max_size 0 q.elements i (count (uint64_queue__pop q).1))
          (sym (next_lem q q.pop_idx valid.small valid.pop_slot)),
)

pub size-count : (q : Uint64Queue) → IsValidQueue q → uint64_queue__size q ≡ count q
unfolding uint64_queue__size
size-count q valid = ground (arith, valid.small, valid.push_slot, valid.pop_slot)

-- Reading at an index gives the element at that place of the queue, and the assertion fails exactly
-- when there is none. The index is a `uint32_t`.
pub at-contents :
    (q : Uint64Queue) (index : ℕ)
    → IsValidQueue q
    → index < two32
    → uint64_queue__at q index ≡ get_elem? (contents q) index
unfolding uint64_queue__at
at-contents q index valid small =
    if_rule (λ o. o ≡ get_elem? (contents q) index) (ltb index (uint64_queue__size q))
      (λ lt.
        ap (λ i. some (get_or q.elements i 0)) (real (within lt))
        ∙ sym (
            get_elem?-window q.max_size 0 q.elements q.pop_idx (count q) index valid.pop_slot
              (within lt)))
      (λ ge. sym (
        get_elem?_beyond (contents q) index (
          rw (length-window q.max_size 0 q.elements q.pop_idx (count q))
            (ground (arith, size-count q valid)))))
  where
    within : ltb index (uint64_queue__size q) ≡ true → index < count q
    within lt = ground (arith, size-count q valid)

    real :
        index < count q
        → u32 (u64 (q.pop_idx + index) % sext64 q.max_size) ≡ (q.pop_idx + index) % q.max_size
    real lt =
        ap (λ x. u32 (x % sext64 q.max_size))
          (mod-eq_of_lt (ground (arith, valid.small, valid.push_slot, valid.pop_slot)))
        ∙ (ap (λ m. u32 ((q.pop_idx + index) % m)) (ground (arith, valid.small))
            ∙ mod-eq_of_lt (
                omega (
                  arith,
                  valid.small,
                  mod-lt (q.pop_idx + index) {m = q.max_size} (omega (arith, valid.pop_slot)),
                )))

-- The front is the oldest element, and its assertion fails exactly when none waits.
pub front-contents :
    (q : Uint64Queue) → IsValidQueue q → uint64_queue__front q ≡ get_elem? (contents q) 0
unfolding uint64_queue__front uint64_queue__is_empty
front-contents q valid = elim (Bool-cases (q.push_idx == q.pop_idx)) [
  | inl same ↦ rw same (
      sym (
        get_elem?_beyond (contents q) 0
          (rw (length-window q.max_size 0 q.elements q.pop_idx (count q)) (ground arith))))
  | inr differ ↦ rw differ (
      ap (λ i. some (get_or q.elements i 0)) (slot_zero valid.pop_slot)
      ∙ sym (
          get_elem?-window q.max_size 0 q.elements q.pop_idx (count q) 0 valid.pop_slot
            (ground (arith, valid.push_slot, valid.pop_slot))))
]
