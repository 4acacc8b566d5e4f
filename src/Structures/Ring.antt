-- ===== src/Structures/Ring.antt =====
-- A ring buffer read from one slot on, as both queues of include/data_structure keep their elements.
use cl_mem_regulation.Common.{
  ℕ, zero, suc, ◌+◌, ◌-◌, ◌%◌, ◌≤◌, ◌<◌, ◌≡◌, ◌⊎◌, inl, inr, refl, sym, ap, ◌∙◌, arith, some, List,
  [], ◌∷◌, ◌++◌, length, get_or, get_elem?, set, get_or-set_ne, ltb, if◌then◌else◌, dec_lt,
}
use native.Mathlib.Nat.{mod-add-mod, add-mod_right, mod-lt, mod-eq_of_lt, mod_self}

pub mod-eq_sub : {a m : ℕ} → m ≤ a → a < m + m → a % m ≡ a - m
mod-eq_sub {a} {m} le lt =
    ap (λ x. x % m) split ∙ (add-mod_right (a - m) m ∙ mod-eq_of_lt (omega arith))
  where
    split : a ≡ (a - m) + m
    split = omega arith

-- The next slot of a ring is the next number, or 0 after the last one.
pub next_slot :
    (m p : ℕ) → p < m → ((p + 1 < m) × ((p + 1) % m ≡ p + 1)) ⊎ ((p + 1 ≡ m) × ((p + 1) % m ≡ 0))
next_slot m p h = elim (dec_lt (p + 1) m) [
  | yes lt ↦ inl (lt, mod-eq_of_lt lt)
  | no ge ↦ inr (omega arith, ap (λ x. x % m) (omega arith) ∙ mod_self m)
]

pub slot_zero : {m p : ℕ} → p < m → p ≡ (p + 0) % m
slot_zero {m} {p} h = sym (ap (λ x. x % m) (omega arith) ∙ mod-eq_of_lt h)

-- How many steps slot `j` is ahead of slot `p`.
abbrev pub ahead : ℕ → ℕ → ℕ → ℕ
ahead m p j = if ltb j p then j + m - p else j - p

module _ {ℓ} {A : Type ℓ} (m : ℕ) (d : A) where
  -- The `n` elements from slot `p` on, in a ring of `m` slots.
  abbrev pub window : List A → ℕ → ℕ → List A
  window e p zero = []
  window e p (suc n) = get_or e p d ∷ window e ((p + 1) % m) n

  pub window-snoc :
      (e : List A) (p n : ℕ)
      → p < m
      → window e p (suc n) ≡ window e p n ++ (get_or e ((p + n) % m) d ∷ [])
  window-snoc e p zero h = ap (λ i. get_or e i d ∷ []) (slot_zero h)
  window-snoc e p (suc n) h =
      ap (λ r. get_or e p d ∷ r)
        (window-snoc e ((p + 1) % m) n (mod-lt (p + 1) (omega arith))
          ∙ ap (λ i. window e ((p + 1) % m) n ++ (get_or e i d ∷ [])) step)
    where
      step : ((p + 1) % m + n) % m ≡ (p + suc n) % m
      step = mod-add-mod (p + 1) m n ∙ ap (λ x. x % m) (omega arith)

  pub window-set :
      (e : List A) (p n j : ℕ) (v : A)
      → p < m
      → j < m
      → n ≤ ahead m p j
      → window (set e j v) p n ≡ window e p n
  window-set e p zero j v hp hj far = refl
  window-set e p (suc n) j v hp hj far =
      ap (λ x. x ∷ window (set e j v) ((p + 1) % m) n)
        (get_or-set_ne e j p v d (λ same. ground arith))
      ∙ ap (λ r. get_or e p d ∷ r)
          (window-set e ((p + 1) % m) n j v (mod-lt (p + 1) (omega arith)) hj
            (ground (arith, next_slot m p hp)))

  pub get_elem?-window :
      (e : List A) (p n i : ℕ)
      → p < m
      → i < n
      → get_elem? (window e p n) i ≡ some (get_or e ((p + i) % m) d)
  get_elem?-window e p zero i hp hi = absurd (omega arith)
  get_elem?-window e p (suc n) zero hp hi = ap (λ x. some (get_or e x d)) (slot_zero hp)
  get_elem?-window e p (suc n) (suc i) hp hi =
      get_elem?-window e ((p + 1) % m) n i (mod-lt (p + 1) (omega arith)) (omega arith)
      ∙ ap (λ x. some (get_or e x d)) (mod-add-mod (p + 1) m i ∙ ap (λ x. x % m) (omega arith))

  pub length-window : (e : List A) (p n : ℕ) → length (window e p n) ≡ n
  length-window e p zero = refl
  length-window e p (suc n) = ap suc (length-window e ((p + 1) % m) n)
