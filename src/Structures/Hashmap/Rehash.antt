-- ===== src/Structures/Hashmap/Rehash.antt =====
-- What a key finds in a hash map after it was enlarged.
use cl_mem_regulation.Common.{
  ℕ, ◌*◌, ◌<◌, ◌≡◌, refl, sym, ap, ◌∙◌, arith, true, false, none, some, Option, List, [], ◌∷◌,
  length, length-replicate, get_or-replicate, replicate, Bool-cases, Option-cases, inl, inr, two31,
  u32,
}
use cl_mem_regulation.Structures.Hashmap.{
  Node, Hashmap, same_key, hashmap__hash, find, hashmap__rehash, hashmap__get,
}
use cl_mem_regulation.Structures.Hashmap.Moves.{
  All, all_nil, all_cons, Every, bucket, same_key-eq, All-map, move_all-Every, last_find,
  look-moved,
}

-- Every node is in the bucket of its key's hash.
pub record IsPlaced (map : Hashmap) : Type 0 where
  pub positive : 0 < map.capacity
  pub small : map.capacity < two31
  pub memory : length map.nodes ≡ map.capacity
  pub placed : Every (λ i n. hashmap__hash map.capacity n.key ≡ i) map.nodes

-- Every key finds the value of each of its nodes: no key is in the map with two values.
abbrev pub IsConsistent : Hashmap → Type 0
IsConsistent map = Every (λ i n. hashmap__get map n.key ≡ some n.value) map.nodes

pub empty-Every : (P : ℕ → Node → Type 0) (capacity : ℕ) → Every P (replicate capacity [])
empty-Every P capacity i = rw (get_or-replicate {A = List Node} capacity i []) all_nil

pub rehash-IsPlaced :
    (map : Hashmap) → IsPlaced map → map.capacity * 2 < two31 → IsPlaced (hashmap__rehash map)
unfolding hashmap__rehash
rehash-IsPlaced map valid small =
    let capacity = u32 (map.capacity * 2) in
    let moved =
      move_all-Every (λ i n. hashmap__hash capacity n.key ≡ i) capacity
        (omega (arith, valid.positive)) map.nodes (replicate capacity [])
        (length-replicate capacity []) (all_refl capacity map.nodes)
        (empty-Every (λ i n. hashmap__hash capacity n.key ≡ i) capacity) in
    record {
      positive = omega (arith, valid.positive);
      small = omega arith;
      memory = moved.1;
      placed = moved.0;
    }
  where
    refl_at :
        (capacity : ℕ) (ns : List Node)
        → All (λ n. hashmap__hash capacity n.key ≡ hashmap__hash capacity n.key) ns
    refl_at capacity [] = all_nil
    refl_at capacity (n ∷ ns) = all_cons refl (refl_at capacity ns)

    all_refl :
        (capacity : ℕ) (bs : List (List Node))
        → Every (λ i n. hashmap__hash capacity n.key ≡ hashmap__hash capacity n.key) bs
    all_refl capacity bs i = refl_at capacity (bucket bs i)

-- In a map whose nodes are in the bucket of their hash, and whose capacity stays below 2 ^ 31 when it is
-- doubled, a key that has several nodes finds after a rehash the value of the last one in its bucket, where
-- it found that of the first one before: the order of the nodes of a key is reversed.
pub rehash-last_find :
    (map : Hashmap) (key : List ℕ)
    → IsPlaced map
    → map.capacity * 2 < two31
    → hashmap__get (hashmap__rehash map) key
      ≡ last_find (bucket map.nodes (hashmap__hash map.capacity key)) key none
unfolding hashmap__get hashmap__rehash
rehash-last_find map key valid small =
    look-moved (u32 (map.capacity * 2)) (omega (arith, valid.positive)) map.capacity map.nodes key
      valid.placed

-- If all nodes of the key have one value, it does not matter from which end the search starts.
last_find-find :
    (ns : List Node) (key : List ℕ) (o : Option (List ℕ))
    → All (λ n. same_key n.key key ≡ true → o ≡ some n.value) ns
    → last_find ns key o ≡ o
last_find-find [] key o all = refl
last_find-find (n ∷ ns) key o (all_cons agree all) = elim (Bool-cases (same_key n.key key)) [
  | inl same ↦ rw (same, sym (agree same)) (last_find-find ns key o all)
  | inr differ ↦ rw differ (last_find-find ns key o all)
]

last_find-some :
    (ns : List Node) (key : List ℕ) (v : List ℕ) (o : Option (List ℕ))
    → find ns key ≡ some v
    → All (λ n. same_key n.key key ≡ true → some v ≡ some n.value) ns
    → last_find ns key o ≡ some v
unfolding find
last_find-some [] key v o found all = absurd cc
last_find-some (n ∷ ns) key v o found (all_cons agree all) =
    elim (Bool-cases (same_key n.key key)) [
      | inl same ↦ rw (same, sym (agree same)) (last_find-find ns key (some v) all)
      | inr differ ↦ rw differ (last_find-some ns key v o (later differ) all)
    ]
  where
    later : same_key n.key key ≡ false → find ns key ≡ some v
    later differ = cc

last_find-found :
    (ns : List Node) (key : List ℕ)
    → All (λ n. same_key n.key key ≡ true → find ns key ≡ some n.value) ns
    → last_find ns key none ≡ find ns key
last_find-found ns key all = elim (Option-cases (find ns key)) [
  | inl e ↦ last_find-find ns key none (All-map ns (λ n g same. sym e ∙ g same) all) ∙ sym e
  | inr (v, e) ↦
      last_find-some ns key v none e (All-map ns (λ n g same. sym e ∙ g same) all) ∙ sym e
]

-- A rehash does not change what any key finds, if no key is in the map with two values, and it keeps
-- the map so.
pub rehash-get :
    (map : Hashmap) (key : List ℕ)
    → IsPlaced map
    → IsConsistent map
    → map.capacity * 2 < two31
    → hashmap__get (hashmap__rehash map) key ≡ hashmap__get map key
unfolding hashmap__get
rehash-get map key valid one_value small =
    rehash-last_find map key valid small
    ∙ last_find-found (bucket map.nodes i) key (
        All-map (bucket map.nodes i) (λ n found same. found_at n found (same_key-eq n.key key same))
          (one_value i))
  where
    i : ℕ
    i = hashmap__hash map.capacity key

    found_at :
        (n : Node)
        → hashmap__get map n.key ≡ some n.value
        → n.key ≡ key
        → find (bucket map.nodes i) key ≡ some n.value
    found_at n found e = ap (hashmap__get map) (sym e) ∙ found

pub rehash-IsConsistent :
    (map : Hashmap)
    → IsPlaced map
    → IsConsistent map
    → map.capacity * 2 < two31
    → IsConsistent (hashmap__rehash map)
unfolding hashmap__rehash
rehash-IsConsistent map valid one_value small = moved
  where
    moved :
        Every
          (λ i n. hashmap__get (hashmap__rehash map) n.key ≡ some n.value)
          (hashmap__rehash map).nodes
    moved =
        (move_all-Every (λ i n. hashmap__get (hashmap__rehash map) n.key ≡ some n.value)
          (u32 (map.capacity * 2)) (omega (arith, valid.positive)) map.nodes
          (replicate (u32 (map.capacity * 2)) []) (length-replicate (u32 (map.capacity * 2)) [])
          (λ i.
            All-map (bucket map.nodes i)
              (λ n found. rehash-get map n.key valid one_value small ∙ found) (one_value i))
          (empty-Every (λ i n. hashmap__get (hashmap__rehash map) n.key ≡ some n.value)
            (u32 (map.capacity * 2)))).0
