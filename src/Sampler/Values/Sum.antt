-- ===== src/Sampler/Values/Sum.antt =====
-- include/sampler.h: what `sampler__fill_sample_buffer` adds to each place of the buffer.
use cl_mem_regulation.Common.{
  ℕ, ◌+◌, ◌*◌, ◌^◌, ◌<◌, ◌≡◌, refl, ◌∙◌, ◌==◌, ==_ne, ==_self, lt→ltb, if◌then◌else◌, false, Option,
  some, List, [], ◌∷◌, length, length-set, get_elem?-get_or, get_or, get_or-set_self, get_or-set_ne,
  set, u32, u64, two64, finished, arith, ℕ_discrete,
}
use cl_mem_regulation.Counters.{BlockType}
use cl_mem_regulation.Sampler.Layout.{Entry}
use cl_mem_regulation.Sampler.Blocks.{Reader}
use cl_mem_regulation.Sampler.Blocks.Walk.{IsCounted, block_of, each, walk-each}
use cl_mem_regulation.Sampler.Values.{
  OffsetToBufferPos, Values, add_value, add_values, add_block, fill_sample_buffer,
}

-- The places are in a buffer of `n` elements, and their shifts have a meaning.
pub data AllPlaced (n : ℕ) : List OffsetToBufferPos → Type 0 where
  no_place : AllPlaced n []
  one_place :
      (m : OffsetToBufferPos) (ms : List OffsetToBufferPos)
      → m.buffer_pos < n
      → m.shift < 32
      → AllPlaced n ms
      → AllPlaced n (m ∷ ms)

-- The layout of a reader counts its entries, and its memory is mapped.
pub record IsReadable (r : Reader) : Type 0 where
  pub counted : IsCounted r
  pub mapped : (r.memory_ == 0) ≡ false

abbrev pub Fits : List ℕ → Type 0
Fits buffer = (p : ℕ) → get_or buffer p 0 < two64

module _ (word : ℕ → ℕ) where
  -- What a place reads of a block.
  abbrev pub reads : ℕ → OffsetToBufferPos → ℕ
  reads values m = u32 (word (u64 (values + 4 * m.block_offset)) * 2 ^ m.shift)

  -- The sum of what the places at `p` read of one block, and of all blocks.
  unfoldable pub share : ℕ → ℕ → List OffsetToBufferPos → ℕ
  share values p [] = 0
  share values p (m ∷ ms) = (if m.buffer_pos == p then reads values m else 0) + share values p ms

  unfoldable pub total : Reader → ℕ → (BlockType → List OffsetToBufferPos) → ℕ → List Entry → ℕ
  unfolding share
  total r b places p [] = 0
  total r b places p (e ∷ es) =
      share (block_of r b e).values p (places e.type_) + total r b places p es

  abbrev Added : Option (List ℕ) → List ℕ → (ℕ → ℕ) → Type 0
  Added o buffer more =
      (buffer' : List ℕ) × (o ≡ some buffer')
      × (length buffer' ≡ length buffer)
      × Fits buffer'
      × ((p : ℕ) → get_or buffer' p 0 ≡ u64 (get_or buffer p 0 + more p))

  add_value-Added :
      (values : ℕ) (m : OffsetToBufferPos) (buffer : List ℕ)
      → m.buffer_pos < length buffer
      → m.shift < 32
      → Fits buffer
      → Added
          (add_value word values m buffer)
          buffer
          (λ p. if m.buffer_pos == p then reads values m else 0)
  unfolding add_value
  add_value-Added values m buffer lt small fits =
      let new = u64 (get_or buffer m.buffer_pos 0 + reads values m) in
      let at_self = get_or-set_self buffer m.buffer_pos new 0 lt in
      (
        set buffer m.buffer_pos new,
        rw (get_elem?-get_or buffer m.buffer_pos 0 lt, lt→ltb m.shift 32 small) refl,
        length-set buffer m.buffer_pos new,
        λ p. elim (ℕ_discrete m.buffer_pos p) [
          | yes e ↦ rw (← e, at_self) (omega arith)
          | no n ↦ rw (get_or-set_ne buffer m.buffer_pos p new 0 n) (fits p)
        ],
        λ p. elim (ℕ_discrete m.buffer_pos p) [
          | yes e ↦ rw (← e, at_self, ==_self m.buffer_pos) refl
          | no n ↦
              rw (==_ne m.buffer_pos p n, get_or-set_ne buffer m.buffer_pos p new 0 n)
                (omega (arith, fits p))
        ],
      )

  add_values-Added :
      (values : ℕ) (ms : List OffsetToBufferPos) (buffer : List ℕ)
      → AllPlaced (length buffer) ms
      → Fits buffer
      → Added (add_values word values ms buffer) buffer (λ p. share values p ms)
  unfolding add_values share
  add_values-Added values [] buffer h fits = (buffer, refl, refl, fits, λ p. omega (arith, fits p))
  add_values-Added values (m ∷ ms) buffer (AllPlaced.one_place _ _ lt small h) fits =
      let (b1, e1, l1, f1, s1) = add_value-Added values m buffer lt small fits in
      let (b2, e2, l2, f2, s2) = add_values-Added values ms b1 (rw l1 h) f1 in
      rw e1 (b2, e2, l2 ∙ l1, f2, λ p. omega (arith, s1 p, s2 p))

  each-Added :
      (r : Reader) (b : ℕ) (v : Values) (es : List Entry) (buffer : List ℕ)
      → (r.memory_ == 0) ≡ false
      → ((t : BlockType) → AllPlaced (length buffer) (v.counters_by_block_map_ t))
      → Fits buffer
      → Added
          (each r b (add_block word r.memory_ v) es buffer)
          buffer
          (λ p. total r b v.counters_by_block_map_ p es)
  unfolding each total add_block
  each-Added r b v [] buffer mapped h fits = (buffer, refl, refl, fits, λ p. omega (arith, fits p))
  each-Added r b v (e ∷ es) buffer mapped h fits =
      let values = (block_of r b e).values in
      let (b1, e1, l1, f1, s1) =
        add_values-Added values (v.counters_by_block_map_ e.type_) buffer (h e.type_) fits in
      let (b2, e2, l2, f2, s2) = each-Added r b v es b1 mapped (λ t. rw l1 (h t)) f1 in
      rw (mapped, e1) (b2, e2, l2 ∙ l1, f2, λ p. omega (arith, s1 p, s2 p))

  -- With as many rounds as there are blocks, the fill ends and changes the buffer alone: each place goes up
  -- by what its counters read of all the blocks, with the wrap of 64 bits.
  pub fill-total :
      (r : Reader) (b : ℕ) (v : Values)
      → IsReadable r
      → ((t : BlockType) → AllPlaced (length v.sample_buffer_) (v.counters_by_block_map_ t))
      → Fits v.sample_buffer_
      → (buffer : List ℕ) × (fill_sample_buffer (length r.sample_layout_.layout_) word r b v
          ≡ finished (record v { sample_buffer_ = buffer }))
        × (length buffer ≡ length v.sample_buffer_)
        × ((p : ℕ)
            → get_or buffer p 0
              ≡ u64 (
                  get_or v.sample_buffer_ p 0
                  + total r b v.counters_by_block_map_ p r.sample_layout_.layout_))
  unfolding fill_sample_buffer
  fill-total r b v h placed fits =
      let (buffer, e, l, f, s) =
        each-Added r b v r.sample_layout_.layout_ v.sample_buffer_ h.mapped placed fits in
      let (it, e1, e2) = walk-each r b (add_block word r.memory_ v) v.sample_buffer_ h.counted in
      (buffer, rw (e1, e2, e, fill_sample_buffer) refl, l, s)
