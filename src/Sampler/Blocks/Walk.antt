-- ===== src/Sampler/Blocks/Walk.antt =====
-- include/hwcnt/block_iterator.h: the loop over a sample's blocks meets each entry of the layout once.
use cl_mem_regulation.Common.{
  ℕ, zero, suc, ◌+◌, ◌*◌, ◌<◌, ◌≤◌, ◌≡◌, refl, ==_ne, ==_iff, drop_cons, drop-nil, drop-some,
  Option-cases, inl, inr, Option, none, some, List, [], ◌∷◌, length, drop, u64, two64, ◌>>=◌,
  Outcome, finished, undefined, arith,
}
use cl_mem_regulation.Counters.{PrfcntSet}
use cl_mem_regulation.Sampler.Layout.{Entry}
use cl_mem_regulation.Sampler.Blocks.{
  Reader, BlockMetadata, no_metadata, last_block, next_block, backend__next, BlockIterator, advance,
  block_iterator__increment, block_iterator__equals, block_iterator__init,
  block_iterator__init_with_args, blocks_view__init, blocks_view__begin, blocks_view__end, walk,
}

-- The metadata of an entry.
abbrev pub block_of : Reader → (buffer_idx : ℕ) → Entry → BlockMetadata
block_of r buffer_idx e = record {
  type_ = e.type_;
  index = e.index;
  set_ = PrfcntSet.primary;
  values = u64 (r.memory_ + r.buffer_size_ * buffer_idx + e.offset);
}

-- The entries taken one by one.
unfoldable pub each {ℓ} :
    {S : Type ℓ} → Reader → ℕ → (BlockMetadata → S → Option S) → List Entry → S → Option S
each r buffer_idx body [] s = some s
each r buffer_idx body (e ∷ es) s = do
  s' ← body (block_of r buffer_idx e) s
  each r buffer_idx body es s'

abbrev pub outcome {ℓ} : {S : Type ℓ} → Option S → Outcome S
outcome none = undefined
outcome (some s) = finished s

-- The iterator that stands at the first of the entries `es`, which are the last ones of the layout.
abbrev stands : Reader → ℕ → ℕ → List Entry → BlockMetadata → BlockIterator
stands r buffer_idx i [] m = record {
  reader_ = none;
  sample_hndl_ = buffer_idx;
  block_hndl_ = i;
  metadata_ = m;
}
stands r buffer_idx i (e ∷ es) m = record {
  reader_ = some r;
  sample_hndl_ = buffer_idx;
  block_hndl_ = i + 1;
  metadata_ = block_of r buffer_idx e;
}

-- The layout of a reader counts the entries that it has.
pub record IsCounted (r : Reader) : Type 0 where
  pub counted : r.sample_layout_.num_blocks_ ≡ length r.sample_layout_.layout_
  pub fits : r.sample_layout_.num_blocks_ < two64

next-nil :
    (r : Reader) (b i : ℕ)
    → IsCounted r
    → i ≤ length r.sample_layout_.layout_
    → drop i r.sample_layout_.layout_ ≡ []
    → backend__next r b i ≡ some last_block
unfolding backend__next
next-nil r b i h le e =
    let q : i ≡ r.sample_layout_.num_blocks_ =
      omega (arith, h.counted, drop-nil i r.sample_layout_.layout_ e) in
    rw ((==_iff i r.sample_layout_.num_blocks_).1 q) refl

next-cons :
    (r : Reader) (b i : ℕ) (e : Entry) (es : List Entry)
    → IsCounted r
    → drop i r.sample_layout_.layout_ ≡ e ∷ es
    → backend__next r b i ≡ some (next_block (block_of r b e) (i + 1))
unfolding backend__next
next-cons r b i e es h d =
    let lt = drop-some i e r.sample_layout_.layout_ es d in
    let up : u64 (i + 1) ≡ i + 1 = omega (arith, lt, h.counted, h.fits) in
    rw
      (
        ==_ne i r.sample_layout_.num_blocks_ (omega (arith, lt, h.counted)),
        (drop_cons i e r.sample_layout_.layout_ es d).0,
        up,
      )
      refl

advance-stands :
    (r : Reader) (it : BlockIterator) (es : List Entry)
    → IsCounted r
    → it.block_hndl_ ≤ length r.sample_layout_.layout_
    → drop it.block_hndl_ r.sample_layout_.layout_ ≡ es
    → advance r it ≡ some (stands r it.sample_hndl_ it.block_hndl_ es it.metadata_)
unfolding advance
advance-stands r it [] h le d = rw (next-nil r it.sample_hndl_ it.block_hndl_ h le d) refl
advance-stands r it (e ∷ es) h le d = rw (next-cons r it.sample_hndl_ it.block_hndl_ e es h d) refl

module _ {ℓ} {S : Type ℓ} (r : Reader) (b : ℕ) (body : BlockMetadata → S → Option S) where
  walk-stands :
      (fuel i : ℕ) (es : List Entry) (m : BlockMetadata) (s : S)
      → IsCounted r
      → drop i r.sample_layout_.layout_ ≡ es
      → length es ≤ fuel
      → walk fuel (stands r b i es m) block_iterator__init body s ≡ outcome (each r b body es s)
  unfolding walk block_iterator__equals block_iterator__init each block_iterator__increment
  walk-stands zero i [] m s h d le = refl
  walk-stands (suc fuel) i [] m s h d le = refl
  walk-stands zero i (e ∷ es) m s h d le = absurd (omega arith)
  walk-stands (suc fuel) i (e ∷ es) m s h d le = elim (Option-cases (body (block_of r b e) s)) [
    | inl n ↦ rw n refl
    | inr (s', q) ↦
        let lt : i + 1 ≤ length r.sample_layout_.layout_ =
          omega (arith, drop-some i e r.sample_layout_.layout_ es d) in
        rw
          (
            q,
            advance-stands r (stands r b i (e ∷ es) m) es h lt
                (drop_cons i e r.sample_layout_.layout_ es d).1,
          )
          (walk-stands fuel (i + 1) es (block_of r b e) s' h
            (drop_cons i e r.sample_layout_.layout_ es d).1 (omega arith))
  ]

  -- The loop from `begin` to `end` ends within as many rounds as there are blocks: its body runs on each
  -- entry of the layout, in order and once.
  pub walk-each :
      (s : S)
      → IsCounted r
      → (it : BlockIterator) × (blocks_view__begin (blocks_view__init r b) ≡ some it)
        × (walk
              (length r.sample_layout_.layout_)
              it
              (blocks_view__end (blocks_view__init r b))
              body
              s
            ≡ outcome (each r b body r.sample_layout_.layout_ s))
  unfolding blocks_view__begin blocks_view__init blocks_view__end block_iterator__init_with_args
      block_iterator__init
  walk-each s h =
      let layout = r.sample_layout_.layout_ in
      let start : BlockIterator = record block_iterator__init {
        reader_ = some r;
        sample_hndl_ = b;
      } in
      (
        stands r b 0 layout no_metadata,
        advance-stands r start layout h (omega arith) refl,
        walk-stands (length layout) 0 layout no_metadata s h refl (omega arith),
      )
