-- ===== src/Structures/Vector/Contents.antt =====
-- The vector is a list: its operations on the elements.
use cl_mem_regulation.Common.{
  ℕ, zero, suc, ◌+◌, ◌-◌, ◌*◌, ◌≤◌, ◌<◌, ◌≡◌, ◌≢◌, ◌⊎◌, inl, inr, refl, sym, ap, ◌∙◌, arith, true,
  false, none, some, Option, List, [], ◌∷◌, ◌++◌, length, length-append, length-set,
  length-replicate, take_beyond, get_or, get_or-set_self, get_or-set_ne, get_or-append, get_elem?,
  get_elem?-snoc, get_elem?-snoc_last, get_elem?_beyond, set, take, replicate, two31, two63, u64,
  ◌==◌, ltb, if◌then◌else◌, dec_lt, ℕ_discrete, Bool-cases,
}
use cl_mem_regulation.Structures.Vector.{
  Vector, vector__resize, vector__push_back, vector__get, vector__remove, vector__clear, in_range,
  move_down,
}

module _ {ℓ} {A : Type ℓ} where
  -- The vector holds these elements: its first `size` pointers point at them in this order.
  pub record Holds (v : Vector A) (xs : List A) : Type ℓ where
    pub memory : length v.data_ ≡ v.capacity
    pub small : v.capacity < two63
    pub fits : v.size ≤ v.capacity
    pub measured : length xs ≡ v.size
    pub agrees : (j : ℕ) → j < v.size → get_or v.data_ j none ≡ get_elem? xs j

  resize-Holds :
      (v : Vector A) (xs : List A)
      → Holds v xs
      → v.capacity * 2 < two63
      → Holds (vector__resize v) xs
  unfolding vector__resize
  resize-Holds v xs holds small = record {
    memory =
        length-append (take (u64 (v.capacity * 2)) v.data_)
          (replicate (u64 (v.capacity * 2) - v.capacity) none)
        ∙ omega (
          arith,
          ap length kept,
          length-replicate (u64 (v.capacity * 2) - v.capacity) unset,
          holds.memory,
        );
    small = omega arith;
    fits = omega (arith, holds.fits);
    measured = holds.measured;
    agrees = λ j lt.
        rw kept (
          get_or-append v.data_ (replicate (u64 (v.capacity * 2) - v.capacity) none) j none
            (omega (arith, holds.memory, holds.fits)))
        ∙ holds.agrees j lt;
  }
    where
      unset : Option A
      unset = none

      kept : take (u64 (v.capacity * 2)) v.data_ ≡ v.data_
      kept = take_beyond (u64 (v.capacity * 2)) v.data_ (omega (arith, holds.memory))

  -- What is written behind the elements is the new last one.
  append-Holds :
      (v : Vector A) (xs : List A) (x : A)
      → Holds v xs
      → v.size < v.capacity
      → Holds
          (record v { data_ = set v.data_ v.size (some x); size = u64 (v.size + 1) })
          (xs ++ (x ∷ []))
  append-Holds v xs x holds room = record {
    memory = length-set v.data_ v.size (some x) ∙ holds.memory;
    small = holds.small;
    fits = omega (arith, holds.small);
    measured = omega (arith, length-append xs (x ∷ []), holds.measured, holds.small);
    agrees = λ j lt. elim (ℕ_discrete j v.size) [
      | yes last ↦ rw last (
          get_or-set_self v.data_ v.size (some x) none (omega (arith, holds.memory))
          ∙ sym (ap (get_elem? (xs ++ (x ∷ []))) (sym holds.measured) ∙ get_elem?-snoc_last xs x))
      | no before ↦
          get_or-set_ne v.data_ v.size j (some x) none (λ e. before (sym e))
          ∙ (holds.agrees j (inside j before lt)
              ∙ sym (get_elem?-snoc xs x j (omega (arith, inside j before lt, holds.measured))))
    ];
  }
    where
      inside : (j : ℕ) → j ≢ v.size → j < u64 (v.size + 1) → j < v.size
      inside j before lt = omega (arith, holds.small)

  -- A push on a vector whose capacity is not 0, and stays below 2 ^ 63 when it is doubled, succeeds, and adds
  -- the element at the end. The capacity is doubled when the vector was full, and stays otherwise.
  pub push_back-Holds :
      (v : Vector A) (xs : List A) (x : A)
      → Holds v xs
      → 0 < v.capacity
      → v.capacity * 2 < two63
      → (v' : Vector A) × (vector__push_back v x ≡ some v')
        × Holds v' (xs ++ (x ∷ []))
        × (v'.capacity ≡ (if v.size == v.capacity then v.capacity * 2 else v.capacity))
  unfolding vector__push_back vector__resize
  push_back-Holds v xs x holds positive small = elim (Bool-cases (v.size == v.capacity)) [
    | inl full ↦
        let (v', e, h, c) =
          pushed (vector__resize v) (resize-Holds v xs holds small)
            (ground (arith, holds.memory)) in
        rw full (v', e, h, c ∙ omega arith)
    | inr room ↦ rw room (pushed v holds (ground (arith, holds.fits)))
  ]
    where
      pushed :
          (w : Vector A)
          → Holds w xs
          → w.size < w.capacity
          → (v' : Vector A) × ((if ltb w.size (length w.data_)
                then some
                    (record w { data_ = set w.data_ w.size (some x); size = u64 (w.size + 1) })
                else none)
              ≡ some v')
            × Holds v' (xs ++ (x ∷ []))
            × (v'.capacity ≡ w.capacity)
      pushed w held room = (
        record w { data_ = set w.data_ w.size (some x); size = u64 (w.size + 1) },
        ground (arith, held.memory),
        append-Holds w xs x held room,
        refl,
      )

  -- The test on an index, as an order.
  in_range_iff :
      (v : Vector A) (i : ℕ)
      → i < two31
      → ((in_range v i ≡ true) × (i < v.size)) ⊎ ((in_range v i ≡ false) × (v.size ≤ i))
  unfolding in_range
  in_range_iff v i small = ground arith

  -- Reading gives the element at the index, and a null pointer outside of the vector; the index is
  -- not negative.
  pub get-Holds :
      (v : Vector A) (xs : List A) (i : ℕ)
      → Holds v xs
      → i < two31
      → vector__get v i ≡ get_elem? xs i
  unfolding vector__get
  get-Holds v xs i holds small = elim (in_range_iff v i small) [
    | inl (yes_, lt) ↦ rw yes_ (holds.agrees i lt)
    | inr (no_, ge) ↦ rw no_ (sym (get_elem?_beyond xs i (omega (arith, holds.measured))))
  ]

  -- The list without its element at an index.
  abbrev pub remove_at : List A → ℕ → List A
  remove_at [] i = []
  remove_at (x ∷ xs) zero = xs
  remove_at (x ∷ xs) (suc i) = x ∷ remove_at xs i

  length-remove_at :
      (xs : List A) (i : ℕ) → i < length xs → suc (length (remove_at xs i)) ≡ length xs
  length-remove_at [] i h = absurd (omega arith)
  length-remove_at (x ∷ xs) zero h = refl
  length-remove_at (x ∷ xs) (suc i) h = ap suc (length-remove_at xs i (omega arith))

  get_elem?-remove_at :
      (xs : List A) (i j : ℕ)
      → get_elem? (remove_at xs i) j ≡ (if ltb j i then get_elem? xs j else get_elem? xs (suc j))
  get_elem?-remove_at [] i j = ground arith
  get_elem?-remove_at (x ∷ xs) zero j = ground arith
  get_elem?-remove_at (x ∷ xs) (suc i) zero = ground arith
  get_elem?-remove_at (x ∷ xs) (suc i) (suc j) = get_elem?-remove_at xs i j ∙ ground arith

  length-move_down : (n i : ℕ) (l : List (Option A)) → length (move_down n i l) ≡ length l
  unfolding move_down
  length-move_down zero i l = refl
  length-move_down (suc n) i l =
      length-move_down n (i + 1) (set l i (get_or l (i + 1) none))
      ∙ length-set l i (get_or l (i + 1) none)

  get_or-move_down :
      (n i j : ℕ) (l : List (Option A))
      → i + n < length l
      → j < i + n
      → get_or (move_down n i l) j none
        ≡ (if ltb j i then get_or l j none else get_or l (suc j) none)
  unfolding move_down
  get_or-move_down zero i j l h lt = ground arith
  get_or-move_down (suc n) i j l h lt =
      get_or-move_down n (i + 1) j moved (omega (arith, length-set l i next)) (omega arith)
      ∙ elim (ℕ_discrete i j) [
        | yes here ↦
            rw (sym here, ltb_next) (get_or-set_self l i next none (omega arith) ∙ ground arith)
        | no away ↦ elim (dec_lt j i) [
          | yes below ↦ ground (arith, get_or-set_ne l i j next none away)
          | no above ↦
              ground (arith, get_or-set_ne l i (suc j) next none (λ e. above (omega arith)))
        ]
      ]
    where
      next : Option A
      next = get_or l (i + 1) none

      moved : List (Option A)
      moved = set l i next

      ltb_next : ltb i (i + 1) ≡ true
      ltb_next = ground arith

  remove-Holds-agrees :
      (v : Vector A) (xs : List A) (i j : ℕ)
      → Holds v xs
      → i < v.size
      → j < v.size - 1
      → get_or (move_down (v.size - 1 - i) i v.data_) j none ≡ get_elem? (remove_at xs i) j
  remove-Holds-agrees v xs i j holds lt inside =
      get_or-move_down (v.size - 1 - i) i j v.data_ (omega (arith, holds.memory, holds.fits))
        (omega arith)
      ∙ (elim (dec_lt j i) [
        | yes below ↦ ground (arith, holds.agrees j (omega arith))
        | no above ↦ ground (arith, holds.agrees (suc j) (omega arith))
      ]
          ∙ sym (get_elem?-remove_at xs i j))

  -- Removing takes out the element at the index and closes the gap; an index outside of the vector
  -- changes nothing. The index is not negative.
  remove-Holds :
      (v : Vector A) (xs : List A) (i : ℕ)
      → Holds v xs
      → i < two31
      → ((i < v.size) × Holds (vector__remove v i) (remove_at xs i))
        ⊎ ((v.size ≤ i) × (vector__remove v i ≡ v))
  unfolding vector__remove
  remove-Holds v xs i holds small = elim (in_range_iff v i small) [
    | inl (yes_, lt) ↦ inl (
      lt,
      rw yes_ (record {
        memory = length-move_down (v.size - 1 - i) i v.data_ ∙ holds.memory;
        small = holds.small;
        fits = omega (arith, holds.fits);
        measured =
            omega (arith, length-remove_at xs i (omega (arith, holds.measured)), holds.measured);
        agrees = λ j inside. remove-Holds-agrees v xs i j holds lt inside;
      }),
    )
    | inr (no_, ge) ↦ inr (ge, rw no_ refl)
  ]

  -- A cleared vector is empty, and can not be used again: a push fails.
  clear-push :
      (v : Vector A) (x : A)
      → Holds (vector__clear v) [] × (vector__push_back (vector__clear v) x ≡ none)
  unfolding vector__clear vector__push_back vector__resize
  clear-push v x = (
    record {
      memory = refl;
      small = omega arith;
      fits = omega arith;
      measured = refl;
      agrees = λ j lt. refl;
    },
    refl,
  )
