-- ===== src/Structures/Set/Members.antt =====
-- What the set contains after each operation, and whether its size counts it.
use cl_mem_regulation.Common.{
  ℕ, suc, ◌+◌, ◌<◌, ◌≡◌, ◌⊎◌, ==_iff, refl, sym, ap, ◌∙◌, arith, true, false, ◌||◌, ◌==◌, none,
  some, List, [], ◌∷◌, length, Bool-cases, inl, inr, sub64, two64,
}
use cl_mem_regulation.Counters.{RegisteredCounter}
use cl_mem_regulation.Structures.Set.{
  SetNode, CounterSet, set__insert_registered_counter, has_counter, has_data, unlink, set__remove,
  set__contains, set_contains_counter,
}

-- No two nodes have one counter.
pub data Distinct : List SetNode → Type 0 where
  distinct_nil : Distinct []
  distinct_cons :
      {n : SetNode} {ns : List SetNode}
      → has_counter ns n.registered.counter ≡ false
      → Distinct ns
      → Distinct (n ∷ ns)

-- The size is the number of nodes, and no counter stands in two of them.
pub record IsValidSet (s : CounterSet) : Type 0 where
  pub counted : s.size ≡ length s.head
  pub distinct : Distinct s.head

-- After inserting a counter the set contains it and what it contained; the set stays free of
-- duplicates, and its size counts it.
pub insert_lem :
    (new_data : ℕ) (s : CounterSet) (rc : RegisteredCounter) (c : ℕ)
    → IsValidSet s
    → s.size + 1 < two64
    → let s' = set__insert_registered_counter new_data s rc in
      IsValidSet s' × (set_contains_counter s' c ≡ (rc.counter == c || set_contains_counter s c))
unfolding set__insert_registered_counter set_contains_counter has_counter
insert_lem new_data s rc c valid small = elim (Bool-cases (has_counter s.head rc.counter)) [
  | inl found ↦ rw found (
    valid,
    elim (Bool-cases (rc.counter == c)) [
      | inl same ↦ rw same (ap (has_counter s.head) (sym ((==_iff rc.counter c).0 same)) ∙ found)
      | inr differ ↦ rw differ refl
    ],
  )
  | inr fresh ↦ rw fresh (
    record {
      counted = omega (arith, valid.counted);
      distinct = distinct_cons fresh valid.distinct;
    },
    refl,
  )
]

length-unlink :
    (ns : List SetNode) (pointer : ℕ)
    → ((unlink ns pointer ≡ none) × (has_data ns pointer ≡ false))
      ⊎ ((r : List SetNode) × (unlink ns pointer ≡ some r)
          × (has_data ns pointer ≡ true)
          × (suc (length r) ≡ length ns))
unfolding unlink has_data
length-unlink [] pointer = inl (refl, refl)
length-unlink (n ∷ ns) pointer = elim (Bool-cases (n.data_ == pointer)) [
  | inl same ↦ rw same (inr (ns, refl, refl, refl))
  | inr differ ↦ rw differ (elim (length-unlink ns pointer) [
    | inl (e, f) ↦ rw e (inl (refl, f))
    | inr (r, e, f, n_) ↦ rw e (inr (n ∷ r, refl, f, ap suc n_))
  ])
]

-- Removing counts the wrong way round: when the pointer is in the set a node goes and the size stays,
-- so that the size is one too many; when it is not, the nodes stay and the size goes down by one.
remove-size :
    (s : CounterSet) (pointer : ℕ)
    → s.size ≡ length s.head
    → s.size < two64
    → let s' = set__remove s pointer in
      ((set__contains s pointer ≡ true) × (s'.size ≡ length s'.head + 1))
      ⊎ ((set__contains s pointer ≡ false)
          × (s'.head ≡ s.head)
          × (s'.size ≡ sub64 (length s'.head) 1))
unfolding set__remove set__contains
remove-size s pointer counted small = elim (length-unlink s.head pointer) [
  | inl (e, f) ↦ rw (e, set__remove) (inr (f, refl, ap (λ n. sub64 n 1) counted))
  | inr (r, e, f, n) ↦ rw (e, set__remove) (inl (f, omega arith))
]
