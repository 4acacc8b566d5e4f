-- ===== src/Sampler/Layout/Packing.antt =====
-- include/sample_layout.h: blocks that do not overlap.
use cl_mem_regulation.Common.{
  ℕ, zero, suc, ◌+◌, ◌<◌, ◌≤◌, ◌≡◌, refl, ap, some, List, [], ◌∷◌, ◌++◌, length, get_elem?, arith,
  ◌⊎◌, inl, inr,
}
use cl_mem_regulation.Sampler.Layout.{Entry}

-- The blocks of 256 bytes stand one behind the other, and all of them before `o`.
pub data Packed : ℕ → List Entry → Type 0 where
  no_block : (o : ℕ) → Packed o []
  one_more :
      (o o' : ℕ) (es : List Entry) (e : Entry)
      → Packed o es
      → o ≤ e.offset
      → e.offset + 256 ≤ o'
      → Packed o' (es ++ (e ∷ []))

pub widen : (o o' : ℕ) (es : List Entry) → o ≤ o' → Packed o es → Packed o' es
widen o o' es le (Packed.no_block _) = Packed.no_block o'
widen o o' es le (Packed.one_more p _ fs e h low high) =
    Packed.one_more p o' fs e h low (omega arith)

-- An element of a list with one more at its end is the last one, or it stands in the list.
snoc_cases :
    (es : List Entry) (e b : Entry) (j : ℕ)
    → get_elem? (es ++ (e ∷ [])) j ≡ some b
    → ((j < length es) × (get_elem? es j ≡ some b)) ⊎ ((j ≡ length es) × (e ≡ b))
snoc_cases [] e b zero h = inr (refl, cc)
snoc_cases [] e b (suc j) h = absurd cc
snoc_cases (x ∷ xs) e b zero h = inl (omega arith, h)
snoc_cases (x ∷ xs) e b (suc j) h = elim (snoc_cases xs e b j h) [
  | inl (lt, q) ↦ inl (omega arith, q)
  | inr (q, r) ↦ inr (ap suc q, r)
]

pub Packed-bound :
    (o j : ℕ) (es : List Entry) (b : Entry)
    → Packed o es
    → get_elem? es j ≡ some b
    → b.offset + 256 ≤ o
Packed-bound o j es b (Packed.no_block _) h = absurd cc
Packed-bound o j fs b (Packed.one_more p _ es e rest low high) h = elim (snoc_cases es e b j h) [
  | inl (lt, q) ↦ omega (arith, Packed-bound p j es b rest q)
  | inr (q, r) ↦ omega (arith, ap (λ (x : Entry). x.offset) r)
]

-- Two entries of a layout: the earlier block ends before the later one begins.
pub Packed-order :
    (o i j : ℕ) (es : List Entry) (a b : Entry)
    → Packed o es
    → i < j
    → get_elem? es i ≡ some a
    → get_elem? es j ≡ some b
    → a.offset + 256 ≤ b.offset
Packed-order o i j es a b (Packed.no_block _) lt h h' = absurd cc
Packed-order o i j fs a b (Packed.one_more p _ es e rest low high) lt h h' =
    elim (snoc_cases es e a i h) [
      | inl (ia, qa) ↦ elim (snoc_cases es e b j h') [
        | inl (jb, qb) ↦ Packed-order p i j es a b rest lt qa qb
        | inr (jb, qb) ↦
            omega (arith, Packed-bound p i es a rest qa, ap (λ (x : Entry). x.offset) qb)
      ]
      | inr (ia, qa) ↦ elim (snoc_cases es e b j h') [
        | inl (jb, qb) ↦ absurd (omega arith)
        | inr (jb, qb) ↦ absurd (omega arith)
      ]
    ]
