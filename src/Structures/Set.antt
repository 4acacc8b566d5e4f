-- ===== src/Structures/Set.antt =====
-- The set of include/data_structure/set.h, with `set_contains_counter` of include/tools.h: a list of
-- pointers to registered counters. A failing `malloc` ends the program; that is left out.
pub mod Members
use cl_mem_regulation.Common.{
  ℕ, ◌+◌, ◌==◌, if◌then◌else◌, Bool, true, false, ◌||◌, Option, none, some, List, [], ◌∷◌, u64,
  sub64,
}
use cl_mem_regulation.Counters.{RegisteredCounter}

-- `data_` is the pointer, and `registered` what it points at.
pub record SetNode : Type 0 where
  pub data_ : ℕ
  pub registered : RegisteredCounter

pub record CounterSet : Type 0 where
  pub head : List SetNode
  pub size : ℕ

unfoldable pub set__init : CounterSet
set__init = record { head = []; size = 0 }

-- The walks over the list: by counter, and by pointer.
unfoldable pub has_counter : List SetNode → ℕ → Bool
has_counter [] counter = false
has_counter (n ∷ ns) counter = n.registered.counter == counter || has_counter ns counter

unfoldable pub has_data : List SetNode → ℕ → Bool
has_data [] pointer = false
has_data (n ∷ ns) pointer = n.data_ == pointer || has_data ns pointer

-- `new_data` is the address of the copy, as `malloc` returns it.
unfoldable pub set__insert_registered_counter :
    (new_data : ℕ) → CounterSet → RegisteredCounter → CounterSet
unfolding has_counter
set__insert_registered_counter new_data s rc = if has_counter s.head rc.counter then s else record {
  head = record { data_ = new_data; registered = rc } ∷ s.head;
  size = u64 (s.size + 1);
}

-- The loop of `set__remove`: the list without the first node of the pointer, if there is one.
unfoldable pub unlink : List SetNode → ℕ → Option (List SetNode)
unlink [] pointer = none
unlink (n ∷ ns) pointer =
    let rest : Option (List SetNode) = elim (unlink ns pointer) [
      | none ↦ none
      | some r ↦ some (n ∷ r)
    ] in
    if n.data_ == pointer then some ns else rest

-- The size goes down when the loop ends without a match.
unfoldable pub set__remove : CounterSet → ℕ → CounterSet
unfolding unlink
set__remove s pointer = elim (unlink s.head pointer) [
  | none ↦ record s { size = sub64 s.size 1 }
  | some r ↦ record s { head = r }
]

unfoldable pub set__contains : CounterSet → ℕ → Bool
unfolding has_data
set__contains s pointer = has_data s.head pointer

-- `set__clear` leaves the size as it was.
unfoldable pub set__clear : CounterSet → CounterSet
set__clear s = record s { head = [] }

unfoldable pub set__destroy : CounterSet → CounterSet
unfolding set__clear
set__destroy s = set__clear s

unfoldable pub set_contains_counter : CounterSet → ℕ → Bool
unfolding has_counter
set_contains_counter s target_counter = has_counter s.head target_counter
