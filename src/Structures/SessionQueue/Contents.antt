-- ===== src/Structures/SessionQueue/Contents.antt =====
-- The session queue is a list of bounded length: its operations on the sessions that wait.
use cl_mem_regulation.Common.{
  ℕ, suc, ◌+◌, ◌-◌, ◌%◌, ◌≤◌, ◌<◌, ◌≡◌, ◌⊎◌, ◌↔◌, inl, inr, refl, sym, ap, ◌∙◌, arith, true, false,
  none, some, List, [], ◌∷◌, ◌++◌, length, length-set, length-replicate, get_or, get_or-set_self,
  set, two31, two64, u64, sext64, dec_lt,
}
use cl_mem_regulation.Structures.Ring.{
  window, window-snoc, window-set, length-window, ahead, mod-eq_sub,
}
use cl_mem_regulation.Structures.SessionQueue.{
  SessionQueue, session_queue__init, session_queue__is_empty, session_queue__is_full,
  session_queue__push, session_queue__pop,
}
use native.Mathlib.Nat.{mod-lt, mod-eq_of_lt, mod-add-mod}

ahead-add : (m p n : ℕ) → p < m → n < m → n ≤ ahead m p ((p + n) % m)
ahead-add m p n hp hn = elim (dec_lt (p + n) m) [
  | yes lt ↦ rw (mod-eq_of_lt lt) (ground arith)
  | no ge ↦ rw (mod-eq_sub {a = p + n} {m = m} (omega arith) (omega arith)) (ground arith)
]

module _ {ℓ} {A : Type ℓ} (blank : A) where
  -- At most `max_size` sessions wait, in a memory of that many, and the counts have not wrapped.
  pub record IsValidSessions (q : SessionQueue A) : Type ℓ where
    pub positive : 0 < q.max_size
    pub small : q.max_size < two31
    pub memory : length q.elements ≡ q.max_size
    pub order : q.pop_idx ≤ q.push_idx
    pub bounded : q.push_idx - q.pop_idx ≤ q.max_size
    pub no_wrap : q.push_idx < two64

  -- The sessions that wait in the queue, oldest first.
  abbrev pub contents : SessionQueue A → List A
  contents q = window q.max_size blank q.elements (q.pop_idx % q.max_size) (q.push_idx - q.pop_idx)

  slot_lem :
      (q : SessionQueue A) (i : ℕ) → IsValidSessions q → i % sext64 q.max_size ≡ i % q.max_size
  slot_lem q i valid = ap (λ m. i % m) (ground (arith, valid.small))

  last_slot :
      (q : SessionQueue A)
      → IsValidSessions q
      → (q.pop_idx % q.max_size + (q.push_idx - q.pop_idx)) % q.max_size ≡ q.push_idx % q.max_size
  last_slot q valid =
      mod-add-mod q.pop_idx q.max_size (q.push_idx - q.pop_idx)
      ∙ ap (λ x. x % q.max_size) (omega (arith, valid.order))

  full_lem :
      (q : SessionQueue A)
      → IsValidSessions q
      → ((session_queue__is_full blank q ≡ true) × (q.push_idx - q.pop_idx ≡ q.max_size))
        ⊎ ((session_queue__is_full blank q ≡ false) × (q.push_idx - q.pop_idx < q.max_size))
  unfolding session_queue__is_full
  full_lem q valid = ground (arith, valid.small, valid.order, valid.no_wrap, valid.bounded)

  -- The assertion of a push fails exactly when the queue holds as many sessions as it has slots.
  push-none :
      (q : SessionQueue A) (value : A)
      → IsValidSessions q
      → (session_queue__push blank q value ≡ none) ↔ (length (contents q) ≡ q.max_size)
  unfolding session_queue__push
  push-none q value valid =
      rw
        (length-window q.max_size blank q.elements (q.pop_idx % q.max_size)
          (q.push_idx - q.pop_idx))
        (ground (arith, full_lem q valid))

  -- A push on a queue with a free slot, whose count does not wrap, succeeds: the session is added
  -- behind those that wait, and the queue stays valid.
  push-some :
      (q : SessionQueue A) (value : A)
      → IsValidSessions q
      → length (contents q) < q.max_size
      → q.push_idx + 1 < two64
      → (q' : SessionQueue A) × (session_queue__push blank q value ≡ some q')
        × IsValidSessions q'
        × (contents q' ≡ contents q ++ (value ∷ []))
  unfolding session_queue__push
  push-some q value valid room no_wrap = (
    record q { elements = set q.elements slot value; push_idx = u64 (q.push_idx + 1) },
    elim (full_lem q valid) [
      | inl (full, n) ↦ absurd (omega (arith, free))
      | inr (not_full, n) ↦ rw not_full refl
    ],
    record {
      positive = valid.positive;
      small = valid.small;
      memory = length-set q.elements slot value ∙ valid.memory;
      order = omega (arith, valid.order);
      bounded = omega (arith, valid.order, free);
      no_wrap = omega arith;
    },
    ap (window q.max_size blank written first) grown
        ∙ (window-snoc q.max_size blank written first waiting first_slot
            ∙ (ap (λ r. r ++ (get_or written ((first + waiting) % q.max_size) blank ∷ [])) unchanged
                ∙ ap (λ x. contents q ++ (x ∷ [])) read)),
  )
    where
      slot : ℕ
      slot = q.push_idx % sext64 q.max_size

      written : List A
      written = set q.elements slot value

      first : ℕ
      first = q.pop_idx % q.max_size

      waiting : ℕ
      waiting = q.push_idx - q.pop_idx

      free : waiting < q.max_size
      free = omega (arith, room, length-window q.max_size blank q.elements first waiting)

      grown : u64 (q.push_idx + 1) - q.pop_idx ≡ suc waiting
      grown = omega (arith, valid.order)

      first_slot : first < q.max_size
      first_slot = mod-lt q.pop_idx valid.positive

      same : (first + waiting) % q.max_size ≡ slot
      same = last_slot q valid ∙ sym (slot_lem q q.push_idx valid)

      unchanged : window q.max_size blank written first waiting ≡ contents q
      unchanged =
          window-set q.max_size blank q.elements first waiting slot value first_slot
            (rw (slot_lem q q.push_idx valid) (mod-lt q.push_idx valid.positive))
            (rw (sym same) (ahead-add q.max_size first waiting first_slot free))

      read : get_or written ((first + waiting) % q.max_size) blank ≡ value
      read =
          ap (λ i. get_or written i blank) same
          ∙ get_or-set_self q.elements slot value blank
              (rw (valid.memory, slot_lem q q.push_idx valid) (mod-lt q.push_idx valid.positive))

  -- A pop of a queue that is not empty succeeds: it returns the oldest session and leaves the others,
  -- in a valid queue.
  pop-some :
      (q : SessionQueue A)
      → IsValidSessions q
      → session_queue__is_empty blank q ≡ false
      → (x : A) × (q' : SessionQueue A) × (session_queue__pop blank q ≡ some (x, q'))
        × IsValidSessions q'
        × (contents q ≡ x ∷ contents q')
  unfolding session_queue__pop session_queue__is_empty
  pop-some q valid some_wait = (
    get_or q.elements (q.pop_idx % sext64 q.max_size) blank,
    record q { pop_idx = u64 (q.pop_idx + 1) },
    rw some_wait refl,
    record {
      positive = valid.positive;
      small = valid.small;
      memory = valid.memory;
      order = ground (arith, valid.order, valid.no_wrap);
      bounded = ground (arith, valid.order, valid.no_wrap, valid.bounded);
      no_wrap = valid.no_wrap;
    },
    ap (window q.max_size blank q.elements (q.pop_idx % q.max_size)) waiting
        ∙ (ap
              (λ i.
                get_or q.elements i blank
                ∷ window q.max_size blank q.elements ((q.pop_idx % q.max_size + 1) % q.max_size)
                    (q.push_idx - u64 (q.pop_idx + 1)))
              (sym (slot_lem q q.pop_idx valid))
            ∙ ap
                (λ i.
                  get_or q.elements (q.pop_idx % sext64 q.max_size) blank
                  ∷ window q.max_size blank q.elements i (q.push_idx - u64 (q.pop_idx + 1)))
                next),
  )
    where
      small_pop : u64 (q.pop_idx + 1) ≡ q.pop_idx + 1
      small_pop = ground (arith, valid.order, valid.no_wrap)

      waiting : q.push_idx - q.pop_idx ≡ suc (q.push_idx - u64 (q.pop_idx + 1))
      waiting = ground (arith, valid.order, valid.no_wrap)

      next : (q.pop_idx % q.max_size + 1) % q.max_size ≡ u64 (q.pop_idx + 1) % q.max_size
      next = mod-add-mod q.pop_idx q.max_size 1 ∙ ap (λ x. x % q.max_size) (sym small_pop)

  -- The queue that is made for `n` sessions is valid and empty.
  pub init-contents :
      (n : ℕ)
      → 0 < n
      → n < two31
      → IsValidSessions (session_queue__init blank n)
        × (contents (session_queue__init blank n) ≡ [])
  unfolding session_queue__init
  init-contents n positive small = (
    record {
      positive = positive;
      small = small;
      memory = length-replicate n blank;
      order = omega arith;
      bounded = omega arith;
      no_wrap = omega arith;
    },
    refl,
  )
