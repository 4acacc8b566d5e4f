-- ===== src/Structures/Hashmap.antt =====
-- The hash map of include/data_structure/hashmap.h. Keys and values are the bytes that are copied
-- into the nodes; the size of a key is the number of its bytes. A failing `malloc` ends the program;
-- that is left out.
pub mod Moves
pub mod Rehash
pub mod Lookup
use cl_mem_regulation.Common.{
  ℕ, ◌+◌, ◌*◌, ◌%◌, ◌==◌, leb, if◌then◌else◌, Bool, true, false, ◌&&◌, Option, none, some, List, [],
  ◌∷◌, get_or, set, replicate, u32, slt32, is_some,
}

pub record Node : Type 0 where
  pub key : List ℕ
  pub value : List ℕ

pub record Hashmap : Type 0 where
  pub nodes : List (List Node)
  pub capacity : ℕ
  pub size : ℕ

-- Keys of the same size for which `memcmp` is 0.
unfoldable pub same_key : List ℕ → List ℕ → Bool
same_key [] [] = true
same_key (a ∷ xs) (b ∷ ys) = a == b && same_key xs ys
same_key _ _ = false

unfoldable pub hash_from : ℕ → List ℕ → ℕ
hash_from h [] = h
hash_from h (b ∷ bs) = hash_from (u32 (31 * h + b)) bs

unfoldable pub hashmap__hash : ℕ → List ℕ → ℕ
unfolding hash_from
hashmap__hash capacity key = hash_from 0 key % capacity

unfoldable pub hashmap__init : Hashmap
hashmap__init = record { nodes = replicate 10 []; capacity = 10; size = 0 }

-- `node->next = nodes[index]; nodes[index] = node`
unfoldable pub cons_at : ℕ → Node → List (List Node) → List (List Node)
cons_at index node nodes = set nodes index (node ∷ get_or nodes index [])

-- The two loops that move every node to new buckets.
unfoldable pub move_bucket : ℕ → List Node → List (List Node) → List (List Node)
unfolding cons_at hashmap__hash
move_bucket capacity [] nodes = nodes
move_bucket capacity (n ∷ ns) nodes =
    move_bucket capacity ns (cons_at (hashmap__hash capacity n.key) n nodes)

unfoldable pub move_all : ℕ → List (List Node) → List (List Node) → List (List Node)
unfolding move_bucket
move_all capacity [] nodes = nodes
move_all capacity (b ∷ bs) nodes = move_all capacity bs (move_bucket capacity b nodes)

-- The nodes are hashed with the capacity that the map still has.
unfoldable pub hashmap__reserve : Hashmap → ℕ → Hashmap
unfolding move_all
hashmap__reserve map new_capacity =
    if slt32 map.capacity new_capacity
    then record map {
      nodes = move_all map.capacity map.nodes (replicate new_capacity []);
      capacity = new_capacity;
    }
    else map

unfoldable pub hashmap__rehash : Hashmap → Hashmap
unfolding move_all
hashmap__rehash map =
    let capacity = u32 (map.capacity * 2) in
    record map { nodes = move_all capacity map.nodes (replicate capacity []); capacity = capacity }

-- `(float)(size + 1) / capacity >= 0.75`. The quotient of `float`s is rounded, but below a capacity of
-- 2 ^ 22 that does not move it across three quarters.
unfoldable pub hashmap__put : Hashmap → List ℕ → List ℕ → Hashmap
unfolding hashmap__rehash cons_at hashmap__hash
hashmap__put map key value =
    let map' = if leb (3 * map.capacity) (4 * (map.size + 1)) then hashmap__rehash map else map in
    record map' {
      nodes =
          cons_at (hashmap__hash map'.capacity key) (record { key = key; value = value })
            map'.nodes;
      size = u32 (map'.size + 1);
    }

unfoldable pub find : List Node → List ℕ → Option (List ℕ)
unfolding same_key
find [] key = none
find (n ∷ ns) key = let rest = find ns key in if same_key n.key key then some n.value else rest

unfoldable pub hashmap__get : Hashmap → List ℕ → Option (List ℕ)
unfolding find hashmap__hash
hashmap__get map key = find (get_or map.nodes (hashmap__hash map.capacity key) []) key

unfoldable pub hashmap__contains : Hashmap → List ℕ → Bool
unfolding find hashmap__hash
hashmap__contains map key =
    is_some (find (get_or map.nodes (hashmap__hash map.capacity key) []) key)
