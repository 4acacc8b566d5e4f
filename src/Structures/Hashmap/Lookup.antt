-- ===== src/Structures/Hashmap/Lookup.antt =====
-- What a key finds in a hash map after a put.
use cl_mem_regulation.Common.{
  ℕ, ◌+◌, ◌*◌, ◌<◌, ◌≡◌, refl, ap, ◌∙◌, arith, none, some, List, if◌then◌else◌, Bool-cases, if_rule,
  inl, inr, two31, u32, leb,
}
use cl_mem_regulation.Structures.Hashmap.{
  Node, Hashmap, same_key, hashmap__hash, cons_at, hashmap__init, hashmap__rehash, hashmap__put,
  hashmap__get,
}
use cl_mem_regulation.Structures.Hashmap.Moves.{
  bucket, same_key_self, same_key-eq, All-map, cons_at-Every, length-cons_at, look-cons_at, hash-lt,
}
use cl_mem_regulation.Structures.Hashmap.Rehash.{
  IsPlaced, IsConsistent, empty-Every, rehash-IsPlaced, rehash-IsConsistent, rehash-get,
}

-- The map with a node added in front of its bucket.
abbrev added : Hashmap → List ℕ → List ℕ → Hashmap
added map key value = record map {
  nodes = cons_at (hashmap__hash map.capacity key) (record { key = key; value = value }) map.nodes;
  size = u32 (map.size + 1);
}

added-get :
    (map : Hashmap) (key value other_key : List ℕ)
    → IsPlaced map
    → hashmap__get (added map key value) other_key
      ≡ (if same_key key other_key then some value else hashmap__get map other_key)
unfolding hashmap__get
added-get map key value other_key valid =
    look-cons_at map.capacity valid.positive (record { key = key; value = value }) map.nodes
      other_key valid.memory

added-IsPlaced :
    (map : Hashmap) (key value : List ℕ) → IsPlaced map → IsPlaced (added map key value)
added-IsPlaced map key value valid = record {
  positive = valid.positive;
  small = valid.small;
  memory =
      length-cons_at P map.capacity i (record { key = key; value = value }) map.nodes
      ∙ valid.memory;
  placed =
      cons_at-Every P map.capacity i (record { key = key; value = value }) map.nodes
        (rw valid.memory (hash-lt P map.capacity valid.positive key)) refl valid.placed;
}
  where
    i : ℕ
    i = hashmap__hash map.capacity key

    P : ℕ → Node → Type 0
    P i n = hashmap__hash map.capacity n.key ≡ i

added-IsConsistent :
    (map : Hashmap) (key value : List ℕ)
    → IsPlaced map
    → IsConsistent map
    → hashmap__get map key ≡ none
    → IsConsistent (added map key value)
added-IsConsistent map key value valid one_value fresh =
    cons_at-Every (λ i n. hashmap__get (added map key value) n.key ≡ some n.value) map.capacity
      (hashmap__hash map.capacity key) (record { key = key; value = value }) map.nodes
      (rw valid.memory (
        hash-lt (λ i n. hashmap__get (added map key value) n.key ≡ some n.value) map.capacity
          valid.positive key))
      (added-get map key value key valid ∙ rw (same_key_self key) refl)
      λ i. All-map (bucket map.nodes i) keeps (one_value i)
  where
    keeps :
        (n : Node)
        → hashmap__get map n.key ≡ some n.value
        → hashmap__get (added map key value) n.key ≡ some n.value
    keeps n found = elim (Bool-cases (same_key key n.key)) [
      | inl same ↦ absurd (clash (ap (hashmap__get map) (same_key-eq key n.key same)))
      | inr differ ↦ added-get map key value n.key valid ∙ rw differ found
    ]
      where
        clash : hashmap__get map key ≡ hashmap__get map n.key → ⊥
        clash e = cc

pub put-IsPlaced :
    (map : Hashmap) (key value : List ℕ)
    → IsPlaced map
    → map.capacity * 2 < two31
    → IsPlaced (hashmap__put map key value)
unfolding hashmap__put
put-IsPlaced map key value valid small =
    if_rule (λ m. IsPlaced (added m key value)) (leb (3 * map.capacity) (4 * (map.size + 1)))
      (λ _. added-IsPlaced (hashmap__rehash map) key value (rehash-IsPlaced map valid small))
      (λ _. added-IsPlaced map key value valid)

-- A put of a key that is not in the map keeps the nodes in their places and one value for each key.
pub put-IsConsistent :
    (map : Hashmap) (key value : List ℕ)
    → IsPlaced map
    → IsConsistent map
    → map.capacity * 2 < two31
    → hashmap__get map key ≡ none
    → IsPlaced (hashmap__put map key value) × IsConsistent (hashmap__put map key value)
unfolding hashmap__put
put-IsConsistent map key value valid one_value small fresh =
    if_rule (λ m. IsPlaced (added m key value) × IsConsistent (added m key value))
      (leb (3 * map.capacity) (4 * (map.size + 1)))
      (λ _. (
        added-IsPlaced (hashmap__rehash map) key value (rehash-IsPlaced map valid small),
        added-IsConsistent (hashmap__rehash map) key value (rehash-IsPlaced map valid small)
            (rehash-IsConsistent map valid one_value small)
            (rehash-get map key valid one_value small ∙ fresh),
      ))
      (λ _. (
        added-IsPlaced map key value valid,
        added-IsConsistent map key value valid one_value fresh,
      ))

-- The new map is empty and valid.
pub init-IsPlaced : IsPlaced hashmap__init × IsConsistent hashmap__init
unfolding hashmap__init
init-IsPlaced = (
  record { positive = omega arith; small = omega arith; memory = refl; placed = empty-Every _ 10 },
  empty-Every _ 10,
)
