-- ===== src/Structures/Tests.antt =====
-- Runs of the data structures, and the theorems at concrete states.
use cl_mem_regulation.Common.{
  List, ℕ, zero, suc, ◌*◌, get_or, two31, ◌<◌, ◌≡◌, refl, arith, true, false, none, some, [], ◌∷◌,
  get_elem?, ◌==◌, ◌||◌,
}
use cl_mem_regulation.Counters.{RegisteredCounter, memory, hardware}
use cl_mem_regulation.Structures.Queue.{
  Uint64Queue, uint64_queue__init, uint64_queue__is_empty, uint64_queue__is_full,
  uint64_queue__push,
}
use cl_mem_regulation.Structures.Queue.Contents.{IsValidQueue}
use cl_mem_regulation.Structures.Queue.Runs.{
  Operation, push, at_index, pop, front, size, Answer, done, number, element, run, run_list,
  run-run_list,
}
use cl_mem_regulation.Structures.SessionQueue.{SessionQueue, session_queue__is_empty}
use cl_mem_regulation.Structures.SessionQueue.Contents.{IsValidSessions}
use cl_mem_regulation.Structures.Vector.{Vector, vector__push_back}
use cl_mem_regulation.Structures.Vector.Contents.{Holds, push_back-Holds}
use cl_mem_regulation.Structures.Hashmap.{
  Hashmap, hashmap__init, hashmap__put, hashmap__get, hashmap__rehash, hashmap__hash,
  hashmap__reserve, same_key, hash_from, move_all, move_bucket, cons_at, find,
}
use cl_mem_regulation.Structures.Hashmap.Moves.{last_find, bucket}
use cl_mem_regulation.Structures.Hashmap.Rehash.{IsPlaced, IsConsistent, rehash-last_find}
use cl_mem_regulation.Structures.Hashmap.Lookup.{init-IsPlaced, put-IsPlaced, put-IsConsistent}
use cl_mem_regulation.Structures.Set.{
  CounterSet, set__insert_registered_counter, set_contains_counter, has_counter,
}
use cl_mem_regulation.Structures.Set.Members.{IsValidSet, insert_lem, distinct_nil, distinct_cons}

-- A queue of three slots that holds 7, and one that holds 7 and 8 and is full.
abbrev one_waits : Uint64Queue
one_waits = record { push_idx = 0; pop_idx = 2; max_size = 3; elements = 5 ∷ 6 ∷ 7 ∷ [] }

abbrev two_wait : Uint64Queue
two_wait = record { push_idx = 1; pop_idx = 2; max_size = 3; elements = 8 ∷ 6 ∷ 7 ∷ [] }

one_waits-IsValidQueue : IsValidQueue one_waits
one_waits-IsValidQueue = record {
  small = omega arith;
  memory = refl;
  push_slot = omega arith;
  pop_slot = omega arith;
}

two_wait-IsValidQueue : IsValidQueue two_wait
two_wait-IsValidQueue = record {
  small = omega arith;
  memory = refl;
  push_slot = omega arith;
  pop_slot = omega arith;
}

one_waits_run :
    (uint64_queue__is_full one_waits ≡ false)
    × (uint64_queue__is_empty one_waits ≡ false)
    × (uint64_queue__push one_waits 8 ≡ two_wait)
    × (uint64_queue__is_full two_wait ≡ true)
unfolding uint64_queue__is_full uint64_queue__is_empty uint64_queue__push
one_waits_run = (refl, refl, refl, refl)

-- A queue of three elements: the fourth push loses the three that wait.
abbrev operations : List Operation
operations =
    push 7
    ∷ push 8
    ∷ at_index 1
    ∷ pop
    ∷ front
    ∷ push 9
    ∷ push 5
    ∷ size
    ∷ push 6
    ∷ size
    ∷ at_index 0
    ∷ []

abbrev expected : List Answer
expected =
    done
    ∷ done
    ∷ element (some 8)
    ∷ number 7
    ∷ element (some 8)
    ∷ done
    ∷ done
    ∷ number 3
    ∷ done
    ∷ number 0
    ∷ element none
    ∷ []

operations_run : run_list 3 operations [] ≡ some expected
unfolding run_list
operations_run = refl

run-run_list_example : run operations (uint64_queue__init (1 ∷ 2 ∷ 3 ∷ 4 ∷ []) 3) ≡ expected
run-run_list_example =
    run-run_list (1 ∷ 2 ∷ 3 ∷ 4 ∷ []) 3 operations expected (omega arith) refl operations_run

-- Sessions are numbers here, and 0 is the blank one.
abbrev sessions : SessionQueue ℕ
sessions = record { push_idx = 4; pop_idx = 3; elements = 0 ∷ 42 ∷ []; max_size = 2 }

sessions-IsValidSessions : IsValidSessions 0 sessions
sessions-IsValidSessions = record {
  positive = omega arith;
  small = omega arith;
  memory = refl;
  order = omega arith;
  bounded = omega arith;
  no_wrap = omega arith;
}

sessions_wait : session_queue__is_empty 0 sessions ≡ false
unfolding session_queue__is_empty
sessions_wait = refl

-- A vector of capacity 2 that is full.
abbrev full_vector : Vector ℕ
full_vector = record { data_ = some 5 ∷ some 6 ∷ []; size = 2; capacity = 2 }

full_vector-Holds : Holds full_vector (5 ∷ 6 ∷ [])
full_vector-Holds = record {
  memory = refl;
  small = omega arith;
  fits = omega arith;
  measured = refl;
  agrees = agrees;
}
  where
    agrees : (j : ℕ) → j < 2 → get_or full_vector.data_ j none ≡ get_elem? (5 ∷ 6 ∷ []) j
    agrees zero lt = refl
    agrees (suc zero) lt = refl
    agrees (suc (suc j)) lt = absurd (omega arith)

push_back-Holds_example :
    (v' : Vector ℕ) × (vector__push_back full_vector 7 ≡ some v')
    × Holds v' (5 ∷ 6 ∷ 7 ∷ [])
    × (v'.capacity ≡ 4)
push_back-Holds_example =
    push_back-Holds full_vector (5 ∷ 6 ∷ []) 7 full_vector-Holds (omega arith) (omega arith)

init_small : hashmap__init.capacity * 2 < two31
unfolding hashmap__init
init_small = omega arith

not_there : hashmap__get hashmap__init (1 ∷ []) ≡ none
unfolding hashmap__get hashmap__init hashmap__hash
not_there = refl

put-IsConsistent_example :
    IsPlaced (hashmap__put hashmap__init (1 ∷ []) (10 ∷ []))
    × IsConsistent (hashmap__put hashmap__init (1 ∷ []) (10 ∷ []))
put-IsConsistent_example =
    put-IsConsistent hashmap__init (1 ∷ []) (10 ∷ []) init-IsPlaced.0 init-IsPlaced.1 init_small
      not_there

-- A map with one key.
abbrev one_key : Hashmap
one_key = hashmap__put hashmap__init (1 ∷ []) (10 ∷ [])

-- A key that was put twice changes its value when the map is enlarged.
abbrev put_twice : Hashmap
put_twice = hashmap__put (hashmap__put hashmap__init (1 ∷ []) (10 ∷ [])) (1 ∷ []) (11 ∷ [])

put_twice_run :
    (hashmap__get put_twice (1 ∷ []) ≡ some (11 ∷ []))
    × (hashmap__get (hashmap__rehash put_twice) (1 ∷ []) ≡ some (10 ∷ []))
    × (hashmap__get (hashmap__reserve put_twice 13) (14 ∷ []) ≡ none)
unfolding hashmap__get hashmap__put hashmap__init hashmap__rehash hashmap__reserve hashmap__hash
    hash_from move_all move_bucket cons_at find same_key
put_twice_run = (refl, refl, refl)

one_key_lem : IsPlaced one_key × IsConsistent one_key
one_key_lem =
    put-IsConsistent hashmap__init (1 ∷ []) (10 ∷ []) init-IsPlaced.0 init-IsPlaced.1 init_small
      not_there

one_key_small : (one_key.capacity * 2 < two31) × (put_twice.capacity * 2 < two31)
unfolding hashmap__put hashmap__init
one_key_small = (omega arith, omega arith)

rehash-last_find_example :
    hashmap__get (hashmap__rehash put_twice) (1 ∷ [])
    ≡ last_find (bucket put_twice.nodes (hashmap__hash put_twice.capacity (1 ∷ []))) (1 ∷ []) none
rehash-last_find_example =
    rehash-last_find put_twice (1 ∷ [])
      (put-IsPlaced one_key (1 ∷ []) (11 ∷ []) one_key_lem.0 one_key_small.0) one_key_small.1

abbrev read_beats : RegisteredCounter
read_beats = record {
  counter = 12;
  definition = record {
    address = record { offset = 32; shift = 0; block_type = memory };
    tag = hardware;
  };
}

abbrev one_counter : CounterSet
one_counter = record { head = record { data_ = 4096; registered = read_beats } ∷ []; size = 1 }

one_counter-IsValidSet : IsValidSet one_counter
unfolding has_counter
one_counter-IsValidSet = record { counted = refl; distinct = distinct_cons refl distinct_nil }

insert_lem_example :
    IsValidSet (set__insert_registered_counter 8192 one_counter read_beats)
    × (set_contains_counter (set__insert_registered_counter 8192 one_counter read_beats) 13
        ≡ (12 == 13 || set_contains_counter one_counter 13))
insert_lem_example = insert_lem 8192 one_counter read_beats 13 one_counter-IsValidSet (omega arith)
