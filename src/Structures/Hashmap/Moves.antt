-- ===== src/Structures/Hashmap/Moves.antt =====
-- Moving nodes between buckets: which nodes are where, and what a key finds, afterwards.
use cl_mem_regulation.Common.{
  ℕ, zero, suc, ◌<◌, ◌≡◌, ◌≢◌, refl, sym, ap, ◌∙◌, arith, true, false, none, some, Option, List, [],
  ◌∷◌, length, length-set, length-replicate, get_or, get_or-set_self, get_or-set_ne,
  get_or-replicate, replicate, if◌then◌else◌, ℕ_discrete, Bool-cases, inl, inr, ◌==◌, ==_self,
  ==_iff,
}
use cl_mem_regulation.Structures.Hashmap.{
  Node, same_key, hashmap__hash, cons_at, move_bucket, move_all, find, hash_from,
}
use Prim.{Unit}
use native.Mathlib.Nat.{mod-lt}

pub data All (P : Node → Type 0) : List Node → Type 0 where
  all_nil : All P []
  all_cons : {n : Node} {ns : List Node} → P n → All P ns → All P (n ∷ ns)

pub All-map :
    {P Q : Node → Type 0} (ns : List Node) → ((n : Node) → P n → Q n) → All P ns → All Q ns
All-map [] f all = all_nil
All-map (n ∷ ns) f (all_cons p all) = all_cons (f n p) (All-map ns f all)

pub same_key_self : (k : List ℕ) → same_key k k ≡ true
unfolding same_key
same_key_self [] = refl
same_key_self (a ∷ xs) = rw (==_self a) (same_key_self xs)

pub same_key-eq : (a b : List ℕ) → same_key a b ≡ true → a ≡ b
unfolding same_key
same_key-eq [] [] h = refl
same_key-eq [] (b ∷ ys) h = absurd cc
same_key-eq (a ∷ xs) [] h = absurd cc
same_key-eq (a ∷ xs) (b ∷ ys) h = elim (Bool-cases (a == b)) [
  | inl e ↦ ap (λ x. x ∷ xs) ((==_iff a b).0 e) ∙ ap (λ r. b ∷ r) (same_key-eq xs ys (ground arith))
  | inr e ↦ absurd (ground arith)
]

abbrev pub bucket : List (List Node) → ℕ → List Node
bucket nodes i = get_or nodes i []

-- What holds of every node, with the number of its bucket.
abbrev pub Every : (ℕ → Node → Type 0) → List (List Node) → Type 0
Every P nodes = (i : ℕ) → All (P i) (bucket nodes i)

module _ (P : ℕ → Node → Type 0) (capacity : ℕ) where
  pub cons_at-Every :
      (i : ℕ) (n : Node) (nodes : List (List Node))
      → i < length nodes
      → P i n
      → Every P nodes
      → Every P (cons_at i n nodes)
  unfolding cons_at
  cons_at-Every i n nodes h p every j = elim (ℕ_discrete i j) [
    | yes e ↦ rw (sym e, get_or-set_self nodes i (n ∷ bucket nodes i) [] h) (all_cons p (every i))
    | no e ↦ rw (get_or-set_ne nodes i j (n ∷ bucket nodes i) [] e) (every j)
  ]

  pub length-cons_at :
      (i : ℕ) (n : Node) (nodes : List (List Node)) → length (cons_at i n nodes) ≡ length nodes
  unfolding cons_at
  length-cons_at i n nodes = length-set nodes i (n ∷ bucket nodes i)

  module _ (positive : 0 < capacity) where
    pub hash-lt : (key : List ℕ) → hashmap__hash capacity key < capacity
    unfolding hashmap__hash
    hash-lt key = mod-lt (hash_from 0 key) positive

    move_bucket-Every :
        (ns : List Node) (nodes : List (List Node))
        → length nodes ≡ capacity
        → All (λ n. P (hashmap__hash capacity n.key) n) ns
        → Every P nodes
        → Every P (move_bucket capacity ns nodes)
          × (length (move_bucket capacity ns nodes) ≡ capacity)
    unfolding move_bucket
    move_bucket-Every [] nodes h all every = (every, h)
    move_bucket-Every (n ∷ ns) nodes h (all_cons p all) every =
        let i = hashmap__hash capacity n.key in
        move_bucket-Every ns (cons_at i n nodes) (length-cons_at i n nodes ∙ h) all
          (cons_at-Every i n nodes (rw h (hash-lt n.key)) p every)

    -- Moving the nodes of all buckets keeps what holds of each node under its new number.
    pub move_all-Every :
        (bs nodes : List (List Node))
        → length nodes ≡ capacity
        → Every (λ i n. P (hashmap__hash capacity n.key) n) bs
        → Every P nodes
        → Every P (move_all capacity bs nodes) × (length (move_all capacity bs nodes) ≡ capacity)
    unfolding move_all
    move_all-Every [] nodes h old every = (every, h)
    move_all-Every (b ∷ bs) nodes h old every =
        let moved = move_bucket-Every b nodes h (old 0) every in
        move_all-Every bs (move_bucket capacity b nodes) moved.1 (λ i. old (suc i)) moved.0

-- What a search from the far end of the list finds, or else `o`.
abbrev pub last_find : List Node → List ℕ → Option (List ℕ) → Option (List ℕ)
last_find [] key o = o
last_find (n ∷ ns) key o = last_find ns key (if same_key n.key key then some n.value else o)

abbrev last_find_all : List (List Node) → List ℕ → Option (List ℕ) → Option (List ℕ)
last_find_all [] key o = o
last_find_all (b ∷ bs) key o = last_find_all bs key (last_find b key o)

-- A list in which the key does not occur.
abbrev pub Lacks : List ℕ → List Node → Type 0
Lacks key = All (λ n. same_key n.key key ≡ false)

last_find-Lacks :
    (ns : List Node) (key : List ℕ) (o : Option (List ℕ)) → Lacks key ns → last_find ns key o ≡ o
last_find-Lacks [] key o lacks = refl
last_find-Lacks (n ∷ ns) key o (all_cons e lacks) = rw e (last_find-Lacks ns key o lacks)

last_find_all-Lacks :
    (bs : List (List Node)) (key : List ℕ) (o : Option (List ℕ))
    → ((i : ℕ) → Lacks key (bucket bs i))
    → last_find_all bs key o ≡ o
last_find_all-Lacks [] key o lacks = refl
last_find_all-Lacks (b ∷ bs) key o lacks =
    ap (last_find_all bs key) (last_find-Lacks b key o (lacks 0))
    ∙ last_find_all-Lacks bs key o (λ i. lacks (suc i))

-- If the key occurs in one bucket only, the others do not matter.
last_find_all-bucket :
    (bs : List (List Node)) (j : ℕ) (key : List ℕ) (o : Option (List ℕ))
    → ((i : ℕ) → i ≢ j → Lacks key (bucket bs i))
    → last_find_all bs key o ≡ last_find (bucket bs j) key o
last_find_all-bucket [] j key o lacks = refl
last_find_all-bucket (b ∷ bs) zero key o lacks =
    last_find_all-Lacks bs key (last_find b key o) (λ i. lacks (suc i) (λ e. omega arith))
last_find_all-bucket (b ∷ bs) (suc j) key o lacks =
    ap (last_find_all bs key) (last_find-Lacks b key o (lacks 0 (λ e. omega arith)))
    ∙ last_find_all-bucket bs j key o (λ i h. lacks (suc i) (λ e. h (omega arith)))

module _ (capacity : ℕ) (positive : 0 < capacity) where
  -- What a key finds in these buckets.
  abbrev pub look : List (List Node) → List ℕ → Option (List ℕ)
  look nodes key = find (bucket nodes (hashmap__hash capacity key)) key

  pub look-cons_at :
      (n : Node) (nodes : List (List Node)) (key : List ℕ)
      → length nodes ≡ capacity
      → look (cons_at (hashmap__hash capacity n.key) n nodes) key
        ≡ (if same_key n.key key then some n.value else look nodes key)
  unfolding cons_at find
  look-cons_at n nodes key h =
      elim (ℕ_discrete (hashmap__hash capacity n.key) (hashmap__hash capacity key)) [
        | yes e ↦
            ap (λ b. find b key)
              (ap (bucket (cons_at i n nodes)) (sym e)
                ∙ get_or-set_self nodes i (n ∷ bucket nodes i) []
                    (rw h (hash-lt (λ i n. Unit) capacity positive n.key)))
            ∙ ap (λ j. if same_key n.key key then some n.value else find (bucket nodes j) key) e
        | no e ↦
            ap (λ b. find b key)
              (get_or-set_ne nodes i (hashmap__hash capacity key) (n ∷ bucket nodes i) [] e)
            ∙ elim (Bool-cases (same_key n.key key)) [
              | inl same ↦ absurd (e (ap (hashmap__hash capacity) (same_key-eq n.key key same)))
              | inr differ ↦ rw differ refl
            ]
      ]
    where
      i : ℕ
      i = hashmap__hash capacity n.key

  look-move_bucket :
      (ns : List Node) (nodes : List (List Node)) (key : List ℕ)
      → length nodes ≡ capacity
      → (look (move_bucket capacity ns nodes) key ≡ last_find ns key (look nodes key))
        × (length (move_bucket capacity ns nodes) ≡ capacity)
  unfolding move_bucket
  look-move_bucket [] nodes key h = (refl, h)
  look-move_bucket (n ∷ ns) nodes key h =
      let i = hashmap__hash capacity n.key in
      let rest =
        look-move_bucket ns (cons_at i n nodes) key
          (length-cons_at (λ i n. Unit) capacity i n nodes ∙ h) in
      (rest.0 ∙ ap (last_find ns key) (look-cons_at n nodes key h), rest.1)

  look-move_all :
      (bs nodes : List (List Node)) (key : List ℕ)
      → length nodes ≡ capacity
      → look (move_all capacity bs nodes) key ≡ last_find_all bs key (look nodes key)
  unfolding move_all
  look-move_all [] nodes key h = refl
  look-move_all (b ∷ bs) nodes key h =
      let moved = look-move_bucket b nodes key h in
      look-move_all bs (move_bucket capacity b nodes) key moved.1
      ∙ ap (last_find_all bs key) moved.0

  look-empty : (key : List ℕ) → look (replicate capacity []) key ≡ none
  unfolding find
  look-empty key = ap (λ b. find b key) (get_or-replicate capacity (hashmap__hash capacity key) [])

  -- Nodes that one hash placed, moved by another: a key finds its last_find node.
  pub look-moved :
      (old : ℕ) (bs : List (List Node)) (key : List ℕ)
      → Every (λ i n. hashmap__hash old n.key ≡ i) bs
      → look (move_all capacity bs (replicate capacity [])) key
        ≡ last_find (bucket bs (hashmap__hash old key)) key none
  look-moved old bs key placed =
      look-move_all bs (replicate capacity []) key (length-replicate capacity [])
      ∙ (ap (last_find_all bs key) (look-empty key)
          ∙ last_find_all-bucket bs (hashmap__hash old key) key none
              (λ i h. lacks i h (bucket bs i) (placed i)))
    where
      lacks :
          (i : ℕ)
          → i ≢ hashmap__hash old key
          → (ns : List Node) → All (λ n. hashmap__hash old n.key ≡ i) ns
          → Lacks key ns
      lacks i h [] all_nil = all_nil
      lacks i h (n ∷ ns) (all_cons e all) =
          all_cons
            (elim (Bool-cases (same_key n.key key)) [
              | inl same ↦ absurd (h (sym e ∙ ap (hashmap__hash old) (same_key-eq n.key key same)))
              | inr differ ↦ differ
            ])
            (lacks i h ns all)
