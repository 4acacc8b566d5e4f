-- ===== src/Sampler/Values/Places.antt =====
-- include/sampler.h: `sampler__build_sample_buffer_mappings` gives each counter a place of its own.
use cl_mem_regulation.Common.{
  ℕ, zero, suc, ◌+◌, ◌<◌, ◌≤◌, ◌≡◌, ◌≢◌, refl, sym, ap, ◌∙◌, ◌==◌, ==_ne, ==_self, if◌then◌else◌,
  false, some, List, [], ◌∷◌, ◌++◌, length, length-append, get_elem?, update, update_self,
  update_ne, arith, Bool-cases, inl, inr, if_rule,
}
use mathlib.Core.Path.{subst}
use cl_mem_regulation.Counters.{BlockType, hardware, RegisteredCounter}
use cl_mem_regulation.Structures.Set.{SetNode, CounterSet, has_counter}
use cl_mem_regulation.Structures.Set.Members.{Distinct, distinct_cons}
use cl_mem_regulation.Device.Extents.{type_number}
use cl_mem_regulation.Sampler.Values.{
  OffsetToBufferPos, Values, add_place, add_places, append_place, build_sample_buffer_mappings,
}
use cl_mem_regulation.Sampler.Values.Sum.{AllPlaced, no_place, one_place, reads, share}

-- A counter of the hardware, whose shift has a meaning.
pub record IsHardware (rc : RegisteredCounter) : Type 0 where
  pub tagged : rc.definition.tag ≡ hardware
  pub shifted : rc.definition.address.shift < 32

abbrev pub place_of : RegisteredCounter → ℕ → OffsetToBufferPos
place_of rc p = record {
  block_offset = rc.definition.address.offset;
  buffer_pos = p;
  shift = rc.definition.address.shift;
}

-- The counter is found at `p`, and `p` takes what this counter reads of the blocks of its type, and
-- nothing else.
pub record Placed (v : Values) (rc : RegisteredCounter) (p : ℕ) : Type 0 where
  pub found : v.counter_to_buffer_pos_ rc.counter ≡ some p
  pub inside : p < length v.sample_buffer_
  pub alone :
      (word : ℕ → ℕ) (values : ℕ) (t : BlockType)
      → share word values p (v.counters_by_block_map_ t) ≡ (
          if type_number rc.definition.address.block_type == type_number t
          then reads word values (place_of rc p)
          else 0)

abbrev pub AllIn : Values → Type 0
AllIn v = (t : BlockType) → AllPlaced (length v.sample_buffer_) (v.counters_by_block_map_ t)

AllPlaced-snoc :
    (n : ℕ) (ms : List OffsetToBufferPos) (m : OffsetToBufferPos)
    → AllPlaced n ms
    → m.buffer_pos < n + 1
    → m.shift < 32
    → AllPlaced (n + 1) (ms ++ (m ∷ []))
AllPlaced-snoc n [] m h lt small = one_place m [] lt small no_place
AllPlaced-snoc n (x ∷ xs) m (AllPlaced.one_place _ _ l s h) lt small =
    one_place x (xs ++ (m ∷ [])) (omega arith) s (AllPlaced-snoc n xs m h lt small)

AllPlaced-more : (n : ℕ) (ms : List OffsetToBufferPos) → AllPlaced n ms → AllPlaced (n + 1) ms
AllPlaced-more n [] h = no_place
AllPlaced-more n (x ∷ xs) (AllPlaced.one_place _ _ l s h) =
    one_place x xs (omega arith) s (AllPlaced-more n xs h)

module _ (word : ℕ → ℕ) (values : ℕ) where
  share-snoc :
      (p : ℕ) (ms : List OffsetToBufferPos) (m : OffsetToBufferPos)
      → share word values p (ms ++ (m ∷ []))
        ≡ share word values p ms + (if m.buffer_pos == p then reads word values m else 0)
  unfolding share
  share-snoc p [] m = omega arith
  share-snoc p (x ∷ xs) m = omega (arith, share-snoc p xs m)

  share-beyond :
      (n p : ℕ) (ms : List OffsetToBufferPos) → AllPlaced n ms → n ≤ p → share word values p ms ≡ 0
  unfolding share
  share-beyond n p [] h le = refl
  share-beyond n p (m ∷ ms) (AllPlaced.one_place _ _ lt s h) le =
      rw (==_ne m.buffer_pos p (omega arith)) (omega (arith, share-beyond n p ms h le))

add_place-eq :
    (rc : RegisteredCounter) (v : Values)
    → IsHardware rc
    → add_place rc v ≡ record v {
      counter_to_buffer_pos_ =
          update v.counter_to_buffer_pos_ rc.counter (some (length v.sample_buffer_));
      sample_buffer_ = v.sample_buffer_ ++ (0 ∷ []);
      counters_by_block_map_ =
          append_place v.counters_by_block_map_ rc.definition.address.block_type
            (place_of rc (length v.sample_buffer_));
    }
unfolding add_place
add_place-eq rc v h = rw (h.tagged) refl

-- The values with the next place given to `rc`.
abbrev added : Values → RegisteredCounter → Values
added v rc = record v {
  counter_to_buffer_pos_ =
      update v.counter_to_buffer_pos_ rc.counter (some (length v.sample_buffer_));
  sample_buffer_ = v.sample_buffer_ ++ (0 ∷ []);
  counters_by_block_map_ =
      append_place v.counters_by_block_map_ rc.definition.address.block_type
        (place_of rc (length v.sample_buffer_));
}

one_longer : (xs : List ℕ) → length (xs ++ (0 ∷ [])) ≡ length xs + 1
one_longer xs = length-append xs (0 ∷ [])

added-AllIn : (v : Values) (rc : RegisteredCounter) → IsHardware rc → AllIn v → AllIn (added v rc)
added-AllIn v rc h all t = rw (one_longer v.sample_buffer_) (
    if_rule (λ ms. AllPlaced (length v.sample_buffer_ + 1) ms)
      (type_number rc.definition.address.block_type == type_number t)
      (λ e.
        AllPlaced-snoc _ _ (place_of rc (length v.sample_buffer_)) (all t) (omega arith) h.shifted)
      (λ e. AllPlaced-more _ _ (all t)))

added-new :
    (v : Values) (rc : RegisteredCounter)
    → IsHardware rc
    → AllIn v
    → Placed (added v rc) rc (length v.sample_buffer_)
added-new v rc h all = record {
  found = update_self v.counter_to_buffer_pos_ rc.counter (some (length v.sample_buffer_));
  inside = omega (arith, one_longer v.sample_buffer_);
  alone = λ word values t.
      let n = length v.sample_buffer_ in
      let zero_before =
        share-beyond word values n n (v.counters_by_block_map_ t) (all t) (omega arith) in
      elim (Bool-cases (type_number rc.definition.address.block_type == type_number t)) [
        | inl e ↦
            rw (e, share-snoc word values n (v.counters_by_block_map_ t) (place_of rc n), ==_self n)
              (omega (arith, zero_before))
        | inr e ↦ rw e zero_before
      ];
}

added-old :
    (v : Values) (rc rc' : RegisteredCounter) (p : ℕ)
    → rc'.counter ≢ rc.counter
    → Placed v rc' p
    → Placed (added v rc) rc' p
added-old v rc rc' p ne h = record {
  found =
      update_ne v.counter_to_buffer_pos_ rc.counter rc'.counter (some (length v.sample_buffer_)) ne
      ∙ h.found;
  inside = omega (arith, one_longer v.sample_buffer_, h.inside);
  alone = λ word values t.
      let n = length v.sample_buffer_ in
      elim (Bool-cases (type_number rc.definition.address.block_type == type_number t)) [
        | inl e ↦
            rw
              (
                e,
                share-snoc word values p (v.counters_by_block_map_ t) (place_of rc n),
                ==_ne n p (omega (arith, h.inside)),
              )
              (omega (arith, h.alone word values t))
        | inr e ↦ rw e (h.alone word values t)
      ];
}

abbrev pub AllHardware : List SetNode → Type 0
AllHardware ns = (i : ℕ) (n : SetNode) → get_elem? ns i ≡ some n → IsHardware n.registered

abbrev pub PlacedSomewhere : Values → RegisteredCounter → Type 0
PlacedSomewhere v rc = (p : ℕ) × Placed v rc p

member_cases :
    (P : SetNode → Type 0) (n : SetNode) (ns : List SetNode)
    → P n
    → ((i : ℕ) (m : SetNode) → get_elem? ns i ≡ some m → P m)
    → (i : ℕ) (m : SetNode) → get_elem? (n ∷ ns) i ≡ some m
    → P m
member_cases P n ns first rest zero m e = let q : n ≡ m = cc in rw q at first
member_cases P n ns first rest (suc i) m e = rest i m e

-- A property of the values after all counters follows from that of the values after the first one.
after_first :
    (P : Values → Type 0) (n : SetNode) (ns : List SetNode) (v : Values)
    → IsHardware n.registered
    → P (add_places ns (added v n.registered))
    → P (add_places (n ∷ ns) v)
unfolding add_places
after_first P n ns v h = subst P (sym (ap (add_places ns) (add_place-eq n.registered v h)))

add_places-old :
    (ns : List SetNode) (v : Values) (rc : RegisteredCounter) (p : ℕ)
    → AllHardware ns
    → has_counter ns rc.counter ≡ false
    → Placed v rc p
    → Placed (add_places ns v) rc p
unfolding add_places has_counter
add_places-old [] v rc p hw fresh h = h
add_places-old (n ∷ ns) v rc p hw fresh h =
    after_first (λ v'. Placed v' rc p) n ns v (hw 0 n refl)
      (add_places-old ns (added v n.registered) rc p (λ i m e. hw (suc i) m e) (ground arith)
        (added-old v n.registered rc p (λ e. ground arith) h))

add_places-all :
    (ns : List SetNode) (v : Values)
    → AllHardware ns
    → Distinct ns
    → AllIn v
    → AllIn (add_places ns v)
      × ((i : ℕ) (n : SetNode)
          → get_elem? ns i ≡ some n
          → PlacedSomewhere (add_places ns v) n.registered)
unfolding add_places
add_places-all [] v hw d all = (all, λ i n e. absurd cc)
add_places-all (n ∷ ns) v hw (distinct_cons fresh d) all =
    let h = hw 0 n refl in
    let v1 = added v n.registered in
    let (all2, rest) =
      add_places-all ns v1 (λ i m e. hw (suc i) m e) d (added-AllIn v n.registered h all) in
    (
      after_first AllIn n ns v h all2,
      after_first
          (λ v'.
            (i : ℕ) (m : SetNode) → get_elem? (n ∷ ns) i ≡ some m → PlacedSomewhere v' m.registered)
          n ns v h
          (member_cases (λ m. PlacedSomewhere (add_places ns v1) m.registered) n ns
            (
              length v.sample_buffer_,
              add_places-old ns v1 n.registered (length v.sample_buffer_) (λ i m e. hw (suc i) m e)
                  fresh (added-new v n.registered h all),
            )
            rest),
    )

-- Every counter of a set of hardware counters gets a place of its own: the place is found by the counter,
-- it lies in the buffer, and it takes what this counter reads of the blocks of its type and nothing else.
pub build-Placed :
    (v : Values) (counters : CounterSet)
    → AllHardware counters.head
    → Distinct counters.head
    → let v' = build_sample_buffer_mappings v counters in
      AllIn v'
      × ((i : ℕ) (n : SetNode)
          → get_elem? counters.head i ≡ some n
          → PlacedSomewhere v' n.registered)
unfolding build_sample_buffer_mappings
build-Placed v counters hw d = add_places-all counters.head _ hw d (λ t. no_place)
