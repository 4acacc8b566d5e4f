-- ===== src/Structures/Queue/Runs.antt =====
-- The queue of include/data_structure/uint64_queue.h against a list: any sequence of operations.
use cl_mem_regulation.Common.{
  ℕ, suc, ◌<◌, ◌≡◌, inl, inr, refl, sym, ap, ◌∙◌, arith, ltb, ◌==◌, Bool-cases, if◌then◌else◌,
  if_rule, false, Option, none, some, ◌>>=◌, bind_some, List, [], ◌∷◌, ◌++◌, length, get_elem?,
  two31, u32,
}
use cl_mem_regulation.Structures.Ring.{length-window}
use cl_mem_regulation.Structures.Queue.{
  Uint64Queue, uint64_queue__init, uint64_queue__is_empty, uint64_queue__size, uint64_queue__push,
  uint64_queue__pop, uint64_queue__front, uint64_queue__at,
}
use cl_mem_regulation.Structures.Queue.Contents.{
  IsValidQueue, count, contents, is_full_iff, push-IsValidQueue, push-contents, push-full,
  pop-contents, size-count, at-contents, front-contents,
}

pub data Operation : Type 0 where
  push at_index : (n : ℕ) → Operation
  pop front size : Operation

-- What an operation answers: nothing, a number, or what an assertion may refuse.
pub data Answer : Type 0 where
  done : Answer
  number : ℕ → Answer
  element : Option ℕ → Answer

-- The operations of the code; an index is a `uint32_t`.
unfoldable pub apply_to : Operation → Uint64Queue → Answer × Uint64Queue
apply_to (push n) q = (Answer.done, uint64_queue__push q n)
apply_to (at_index n) q = (Answer.element (uint64_queue__at q (u32 n)), q)
apply_to pop q = let (x, q') = uint64_queue__pop q in (Answer.number x, q')
apply_to front q = (Answer.element (uint64_queue__front q), q)
apply_to size q = (Answer.number (uint64_queue__size q), q)

unfoldable pub run : List Operation → Uint64Queue → List Answer
unfolding apply_to
run [] q = []
run (o ∷ os) q = let (a, q') = apply_to o q in a ∷ run os q'

-- The same on the list of the elements that wait, oldest first, of which there are at most `n`: a push on
-- `n` elements loses all of them, and a pop needs an element.
unfoldable pub apply_to_list : (n : ℕ) → Operation → List ℕ → Option (Answer × List ℕ)
apply_to_list n (push x) xs = some (Answer.done, if ltb (length xs) n then xs ++ (x ∷ []) else [])
apply_to_list n (at_index i) xs = some (Answer.element (get_elem? xs (u32 i)), xs)
apply_to_list n pop [] = none
apply_to_list n pop (x ∷ xs) = some (Answer.number x, xs)
apply_to_list n front xs = some (Answer.element (get_elem? xs 0), xs)
apply_to_list n size xs = some (Answer.number (length xs), xs)

unfoldable pub run_list : (n : ℕ) → List Operation → List ℕ → Option (List Answer)
unfolding apply_to_list
run_list n [] xs = some []
run_list n (o ∷ os) xs = do
  (a, xs') ← apply_to_list n o xs
  rest ← run_list n os xs'
  some (a ∷ rest)

length-contents : (q : Uint64Queue) → length (contents q) ≡ count q
length-contents q = length-window q.max_size 0 q.elements q.pop_idx (count q)

-- A valid queue of `n` elements that holds the list.
record HoldsList (n : ℕ) (q : Uint64Queue) (xs : List ℕ) : Type 0 where
  valid : IsValidQueue q
  room : q.max_size ≡ suc n
  elements : contents q ≡ xs

push-HoldsList :
    (n : ℕ) (q : Uint64Queue) (x : ℕ) (xs : List ℕ)
    → HoldsList n q xs
    → HoldsList n (uint64_queue__push q x) (if ltb (length xs) n then xs ++ (x ∷ []) else [])
unfolding uint64_queue__push
push-HoldsList n q x xs h =
    let long = length-contents q in
    let same : length xs ≡ length (contents q) = ap length (sym h.elements) in
    elim (is_full_iff q h.valid) [
      | inl (full, c) ↦ record {
        valid = push-IsValidQueue q x h.valid;
        room = h.room;
        elements =
            if_rule (λ ys. contents (uint64_queue__push q x) ≡ ys) (ltb (length xs) n)
              (λ lt. absurd (ground (arith, long, same, c, h.room)))
              (λ ge. push-full q x h.valid full);
      }
      | inr (room, c) ↦ record {
        valid = push-IsValidQueue q x h.valid;
        room = h.room;
        elements =
            if_rule (λ ys. contents (uint64_queue__push q x) ≡ ys) (ltb (length xs) n)
              (λ lt. (push-contents q x h.valid room).1 ∙ ap (λ ys. ys ++ (x ∷ [])) h.elements)
              (λ ge. absurd (ground (arith, long, same, c, h.room)));
      }
    ]

not_empty :
    (q : Uint64Queue) (x : ℕ) (xs : List ℕ) → contents q ≡ x ∷ xs → uint64_queue__is_empty q ≡ false
unfolding uint64_queue__is_empty
not_empty q x xs h = elim (Bool-cases (q.push_idx == q.pop_idx)) [
  | inl same ↦ absurd (ground (arith, same, length-contents q, ap length h))
  | inr differ ↦ differ
]

pop-HoldsList :
    (n : ℕ) (q : Uint64Queue) (x : ℕ) (xs : List ℕ)
    → HoldsList n q (x ∷ xs)
    → ((uint64_queue__pop q).0 ≡ x) × HoldsList n (uint64_queue__pop q).1 xs
unfolding uint64_queue__pop
pop-HoldsList n q x xs h =
    let waits : uint64_queue__is_empty q ≡ false = not_empty q x xs h.elements in
    let (valid, e) = pop-contents q h.valid waits in
    let split = sym h.elements ∙ e in (cc, record { valid = valid; room = h.room; elements = cc })

-- One operation: the same answer, and the queue holds the list again.
apply_to-HoldsList :
    (n : ℕ) (o : Operation) (q : Uint64Queue) (xs xs' : List ℕ) (a : Answer)
    → HoldsList n q xs
    → apply_to_list n o xs ≡ some (a, xs')
    → ((apply_to o q).0 ≡ a) × HoldsList n (apply_to o q).1 xs'
unfolding apply_to apply_to_list
apply_to-HoldsList n (push x) q xs xs' a h e =
    let q1 : Answer.done ≡ a = cc in
    let q2 : (if ltb (length xs) n then xs ++ (x ∷ []) else []) ≡ xs' = cc in
    (q1, rw q2 at (push-HoldsList n q x xs h))
apply_to-HoldsList n (at_index i) q xs xs' a h e =
    let q1 : Answer.element (get_elem? xs (u32 i)) ≡ a = cc in
    let q2 : xs ≡ xs' = cc in
    (
      ap Answer.element (
            at-contents q (u32 i) h.valid (omega arith)
            ∙ ap (λ ys. get_elem? ys (u32 i)) h.elements)
          ∙ q1,
      rw q2 at h,
    )
apply_to-HoldsList n pop q [] xs' a h e = absurd cc
apply_to-HoldsList n pop q (x ∷ xs) xs' a h e =
    let q1 : Answer.number x ≡ a = cc in
    let q2 : xs ≡ xs' = cc in
    let (first, rest) = pop-HoldsList n q x xs h in (ap Answer.number first ∙ q1, rw q2 at rest)
apply_to-HoldsList n front q xs xs' a h e =
    let q1 : Answer.element (get_elem? xs 0) ≡ a = cc in
    let q2 : xs ≡ xs' = cc in
    (
      ap Answer.element (front-contents q h.valid ∙ ap (λ ys. get_elem? ys 0) h.elements) ∙ q1,
      rw q2 at h,
    )
apply_to-HoldsList n size q xs xs' a h e =
    let q1 : Answer.number (length xs) ≡ a = cc in
    let q2 : xs ≡ xs' = cc in
    (
      ap Answer.number (size-count q h.valid ∙ sym (length-contents q) ∙ ap length h.elements) ∙ q1,
      rw q2 at h,
    )

run-HoldsList :
    (n : ℕ) (os : List Operation) (q : Uint64Queue) (xs : List ℕ) (answers : List Answer)
    → HoldsList n q xs
    → run_list n os xs ≡ some answers
    → run os q ≡ answers
unfolding run run_list
run-HoldsList n [] q xs answers h e = cc
run-HoldsList n (o ∷ os) q xs answers h e =
    let ((a, xs'), e1, e2) = bind_some (apply_to_list n o xs) _ answers e in
    let (rest, e3, e4) = bind_some (run_list n os xs') _ answers e2 in
    let (same, h') = apply_to-HoldsList n o q xs xs' a h e1 in
    let tail = run-HoldsList n os (apply_to o q).1 xs' rest h' e3 in
    ap (λ b. b ∷ run os (apply_to o q).1) same
    ∙ ap (λ t. a ∷ t) tail
    ∙ (let r : a ∷ rest ≡ answers = cc in r)

init-HoldsList :
    (memory : List ℕ) (n : ℕ)
    → suc n < two31
    → length memory ≡ suc n
    → HoldsList n (uint64_queue__init memory n) []
unfolding uint64_queue__init
init-HoldsList memory n small long = record {
  valid = record {
    small = omega (arith, small);
    memory = omega (arith, small, long);
    push_slot = omega (arith, small);
    pop_slot = omega (arith, small);
  };
  room = omega (arith, small);
  elements = refl;
}

-- A uint64 queue whose memory has `n` + 1 elements, fewer than 2 ^ 31, answers any sequence of pushes, pops
-- and reads as a list does, first in first out, where a push on `n` elements loses all of them, and as long
-- as nothing is popped of an empty queue.
pub run-run_list :
    (memory : List ℕ) (n : ℕ) (os : List Operation) (answers : List Answer)
    → suc n < two31
    → length memory ≡ suc n
    → run_list n os [] ≡ some answers
    → run os (uint64_queue__init memory n) ≡ answers
run-run_list memory n os answers small long =
    run-HoldsList n os (uint64_queue__init memory n) [] answers (init-HoldsList memory n small long)
