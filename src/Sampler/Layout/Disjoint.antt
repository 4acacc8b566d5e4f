-- ===== src/Sampler/Layout/Disjoint.antt =====
-- include/sample_layout.h: the layout fits the memory of its entries and of a sample.
use cl_mem_regulation.Common.{
  ℕ, zero, suc, ◌+◌, ◌*◌, ◌<◌, ◌≤◌, ◌≡◌, refl, ◌==◌, lt→ltb, if◌then◌else◌, Bool, not, Option, some,
  [], ◌∷◌, ◌++◌, length, length-append, get_elem?, get_or, get_elem?, u8, u64, two64, ◌>>=◌, arith,
  if_rule,
}
use cl_mem_regulation.Counters.{BlockType}
use cl_mem_regulation.Structures.Bitset.{Bitset}
use cl_mem_regulation.Structures.Bitset.Bits.{Holds, get_bit-Holds}
use cl_mem_regulation.Device.Extents.{BlockExtents, type_number}
use cl_mem_regulation.Sampler.Layout.Packing.{Packed, widen, Packed-bound, Packed-order}
use cl_mem_regulation.Sampler.Layout.{
  Entry, SampleLayout, SampleLayoutType, non_v4, sample_layout__init, sample_layout__push_back,
  push_if, push_memory, push_cores, sample_layout_non_v4, sample_layout__init_with_args,
}

-- A layout with at most `n` blocks, all before `o`.
pub record IsLayout (n o : ℕ) (sl : SampleLayout) : Type 0 where
  pub room : sl.max_blocks ≡ 82
  pub sized : sl.block_size ≡ 256
  pub counted : sl.num_blocks_ ≡ length sl.layout_
  pub few : sl.num_blocks_ ≤ n
  pub packed : Packed o sl.layout_

relax : (n n' o o' : ℕ) (sl : SampleLayout) → n ≤ n' → o ≤ o' → IsLayout n o sl → IsLayout n' o' sl
relax n n' o o' sl le le' h = record {
  room = h.room;
  sized = h.sized;
  counted = h.counted;
  few = omega (arith, h.few);
  packed = widen o o' sl.layout_ le' h.packed;
}

abbrev Becomes : Option SampleLayout → ℕ → ℕ → Type 0
Becomes r n o = (sl : SampleLayout) × (r ≡ some sl) × IsLayout n o sl

then_Becomes :
    (r : Option SampleLayout) (g : SampleLayout → Option SampleLayout) (n o n' o' : ℕ)
    → Becomes r n o
    → ((sl : SampleLayout) → IsLayout n o sl → Becomes (g sl) n' o')
    → Becomes (r >>= g) n' o'
then_Becomes r g n o n' o' (sl, e, h) next = rw e (next sl h)

push_back-IsLayout :
    (n o o' : ℕ) (sl : SampleLayout) (e : Entry)
    → n < 82
    → o ≤ e.offset
    → e.offset + 256 ≤ o'
    → IsLayout n o sl
    → Becomes (sample_layout__push_back sl e) (n + 1) o'
unfolding sample_layout__push_back
push_back-IsLayout n o o' sl e small low high h = (
  record sl { layout_ = sl.layout_ ++ (e ∷ []); num_blocks_ = u64 (sl.num_blocks_ + 1) },
  rw (lt→ltb sl.num_blocks_ sl.max_blocks (omega (arith, h.few, h.room))) refl,
  record {
    room = h.room;
    sized = h.sized;
    counted = omega (arith, h.counted, h.few, length-append sl.layout_ (e ∷ []));
    few = omega (arith, h.few);
    packed = Packed.one_more o o' sl.layout_ e h.packed low high;
  },
)

push_if-IsLayout :
    (n o o' : ℕ) (extents : BlockExtents) (sl : SampleLayout) (e : Entry)
    → n < 82
    → o ≤ e.offset
    → e.offset + 256 ≤ o'
    → IsLayout n o sl
    → Becomes (push_if extents sl e) (n + 1) o'
unfolding push_if
push_if-IsLayout n o o' extents sl e small low high h =
    if_rule (λ r. Becomes r (n + 1) o') _
      (λ b. (sl, refl, relax n (n + 1) o o' sl (omega arith) (omega arith) h))
      (λ b. push_back-IsLayout n o o' sl e small low high h)

push_memory-IsLayout :
    (k i n om : ℕ) (sl : SampleLayout)
    → n + k ≤ 82
    → om + (i + k) * 256 < two64
    → IsLayout n (om + i * 256) sl
    → Becomes (push_memory k i om sl) (n + k) (om + (i + k) * 256)
unfolding push_memory
push_memory-IsLayout zero i n om sl small fits h =
    (sl, refl, relax n (n + 0) _ _ sl (omega arith) (omega arith) h)
push_memory-IsLayout (suc k) i n om sl small fits h =
    let (sl1, e1, h1) =
      push_back-IsLayout n (om + i * 256) (om + (i + 1) * 256) sl
        (record { type_ = BlockType.memory; index = i; offset = u64 (om + i * sl.block_size) })
        (omega arith) (rw h.sized (omega arith)) (rw h.sized (omega arith)) h in
    let (sl2, e2, h2) =
      push_memory-IsLayout k (i + 1) (n + 1) om sl1 (omega arith) (omega arith) h1 in
    rw e1 (sl2, e2, relax _ _ _ _ sl2 (omega arith) (omega arith) h2)

push_cores-IsLayout :
    (k i c n os : ℕ) (sc_mask : Bitset) (f : ℕ → ℕ) (sl : SampleLayout)
    → Holds sc_mask f
    → i + k ≤ sc_mask.size
    → n + k ≤ 82
    → os + (i + k) * 256 < two64
    → IsLayout n (os + i * 256) sl
    → Becomes (push_cores k i c os sc_mask sl) (n + k) (os + (i + k) * 256)
unfolding push_cores
push_cores-IsLayout zero i c n os m f sl hm sz small fits h =
    (sl, refl, relax n (n + 0) _ _ sl (omega arith) (omega arith) h)
push_cores-IsLayout (suc k) i c n os m f sl hm sz small fits h =
    let entry : Entry = record {
      type_ = BlockType.core;
      index = c;
      offset = u64 (os + sl.block_size * i);
    } in
    let (sl0, e0, h0) =
      push_cores-IsLayout k (i + 1) c n os m f sl hm (omega arith) (omega arith) (omega arith)
        (relax n n (os + i * 256) (os + (i + 1) * 256) sl (omega arith) (omega arith) h) in
    let (sl1, e1, h1) =
      push_back-IsLayout n (os + i * 256) (os + (i + 1) * 256) sl entry (omega arith)
        (rw h.sized (omega arith)) (rw h.sized (omega arith)) h in
    let (sl2, e2, h2) =
      push_cores-IsLayout k (i + 1) (u8 (c + 1)) (n + 1) os m f sl1 hm (omega arith) (omega arith)
        (omega arith) h1 in
    rw (get_bit-Holds m f i hm (omega arith), e1)
      (if_rule (λ r. Becomes r (n + suc k) (os + (i + suc k) * 256)) (f i == 0)
        (λ b. (sl0, e0, relax _ _ _ _ sl0 (omega arith) (omega arith) h0))
        (λ b. (sl2, e2, relax _ _ _ _ sl2 (omega arith) (omega arith) h2)))

init-IsLayout : IsLayout 0 0 (sample_layout__init SampleLayoutType.non_v4)
unfolding sample_layout__init
init-IsLayout = record {
  room = refl;
  sized = refl;
  counted = refl;
  few = omega arith;
  packed = Packed.no_block 0;
}

memory_part :
    (b : Bool) (l2 : ℕ) (sl : SampleLayout)
    → l2 ≤ 16
    → IsLayout 2 512 sl
    → Becomes (if b then push_memory (u8 l2) 0 512 sl else some sl) 18 (512 + l2 * 256)
memory_part b l2 sl small h =
    let e : u8 l2 ≡ l2 = omega arith in
    let (sl', e', h') = push_memory-IsLayout l2 0 2 512 sl (omega arith) (omega arith) h in
    if_rule (λ r. Becomes r 18 (512 + l2 * 256)) b
      (λ t. rw e (sl', e', relax _ _ _ _ sl' (omega arith) (omega arith) h'))
      (λ t. (sl, refl, relax _ _ _ _ sl (omega arith) (omega arith) h))

core_part :
    (b : Bool) (os : ℕ) (sc_mask : Bitset) (f : ℕ → ℕ) (sl : SampleLayout)
    → sc_mask.size ≡ 64
    → Holds sc_mask f
    → os ≤ 4608
    → IsLayout 18 os sl
    → Becomes
        (if b then push_cores (u8 sc_mask.size) 0 0 os sc_mask sl else some sl)
        82
        (os + 64 * 256)
core_part b os m f sl z hm small h =
    let e : u8 m.size ≡ 64 = omega (arith, z) in
    let (sl', e', h') =
      push_cores-IsLayout 64 0 0 18 os m f sl hm (omega arith) (omega arith) (omega arith)
        (relax _ _ _ _ sl (omega arith) (omega arith) h) in
    if_rule (λ r. Becomes r 82 (os + 64 * 256)) b
      (λ t. rw e (sl', e', relax _ _ _ _ sl' (omega arith) (omega arith) h'))
      (λ t. (sl, refl, relax _ _ _ _ sl (omega arith) (omega arith) h))

-- With at most 16 slices and a mask of 64 cores, the blocks fit the allocated entries, and they stand one
-- behind the other in the bytes of two blocks, the slices and the cores.
pub with_args-IsLayout :
    (extents : BlockExtents) (num_l2_slices : ℕ) (sc_mask : Bitset) (f : ℕ → ℕ)
    → num_l2_slices ≤ 16
    → sc_mask.size ≡ 64
    → Holds sc_mask f
    → (sl : SampleLayout) × (sample_layout__init_with_args extents num_l2_slices sc_mask non_v4
        ≡ some sl)
      × IsLayout 82 ((2 + num_l2_slices + 64) * 256) sl
unfolding sample_layout__init_with_args sample_layout_non_v4 sample_layout__init
with_args-IsLayout extents l2 m f small z hm =
    let has = λ (t : BlockType). not (get_or extents.num_blocks_of_type_ (type_number t) 0 == 0) in
    let os : u64 (512 + 256 * l2) ≡ 512 + l2 * 256 = omega arith in
    let front : Entry = record { type_ = BlockType.fe; index = 0; offset = 0 } in
    let tile : Entry = record { type_ = BlockType.tiler; index = 0; offset = 256 } in
    rw os (
      then_Becomes _ _ 1 256 82 _
        (push_if-IsLayout 0 0 256 extents (sample_layout__init non_v4) front (omega arith)
          (omega arith) (omega arith) init-IsLayout)
        (λ sl1 h1.
          then_Becomes _ _ 2 512 82 _
            (push_if-IsLayout 1 256 512 extents sl1 tile (omega arith) (omega arith) (omega arith)
              h1)
            (λ sl2 h2.
              then_Becomes _ _ 18 (512 + l2 * 256) 82 _
                (memory_part (has BlockType.memory) l2 sl2 small h2)
                (λ sl3 h3.
                  let (sl4, e4, h4) =
                    core_part (has BlockType.core) (512 + l2 * 256) m f sl3 z hm (omega arith) h3 in
                  (sl4, e4, relax _ _ _ _ sl4 (omega arith) (omega arith) h4)))))

-- For at most 16 slices and a mask of 64 cores the layout is made, no two blocks of it share a byte, they
-- stand in the order of its entries, and all of them lie in the bytes of the front end, the tiler, the
-- slices and 64 cores.
pub layout-disjoint :
    (extents : BlockExtents) (num_l2_slices : ℕ) (sc_mask : Bitset) (f : ℕ → ℕ)
    → num_l2_slices ≤ 16
    → sc_mask.size ≡ 64
    → Holds sc_mask f
    → (sl : SampleLayout) × (sample_layout__init_with_args extents num_l2_slices sc_mask non_v4
        ≡ some sl)
      × (sl.num_blocks_ ≡ length sl.layout_)
      × ((i j : ℕ) (a b : Entry)
          → i < j
          → get_elem? sl.layout_ i ≡ some a
          → get_elem? sl.layout_ j ≡ some b
          → (a.offset + 256 ≤ b.offset) × (b.offset + 256 ≤ (2 + num_l2_slices + 64) * 256))
layout-disjoint extents l2 m f small z hm =
    let (sl, e, h) = with_args-IsLayout extents l2 m f small z hm in
    (
      sl,
      e,
      h.counted,
      λ i j a b lt qa qb. (
        Packed-order _ i j sl.layout_ a b h.packed lt qa qb,
        Packed-bound _ j sl.layout_ b h.packed qb,
      ),
    )
