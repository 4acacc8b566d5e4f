-- ===== src/Sampler/Layout/Counted.antt =====
-- include/sample_layout.h: the number of entries of a layout.
use cl_mem_regulation.Common.{
  ℕ, zero, suc, ◌+◌, ◌*◌, ◌≤◌, ◌≡◌, refl, ◌==◌, ltb, if◌then◌else◌, if_rule, Bool, not, Option,
  none, some, [], ◌∷◌, length, length-append, get_or, u8, u64, ◌>>=◌, arith,
}
use cl_mem_regulation.Counters.{BlockType}
use cl_mem_regulation.Structures.Bitset.{Bitset, bitset__get_bit}
use cl_mem_regulation.Device.Extents.{BlockExtents, type_number}
use cl_mem_regulation.Sampler.Layout.{
  Entry, SampleLayout, SampleLayoutType, v4, non_v4, sample_layout__init, sample_layout__push_back,
  push_if, push_memory, push_cores, sample_layout_non_v4, sample_layout__init_with_args,
}

-- The layout counts its entries, and they are in the memory of the layout.
pub record IsShort (sl : SampleLayout) : Type 0 where
  pub room : sl.max_blocks ≡ 82
  pub counted : sl.num_blocks_ ≡ length sl.layout_
  pub few : sl.num_blocks_ ≤ 82

-- What comes of an operation, if anything does, is such a layout.
pub record Keeps (r : Option SampleLayout) : Type 0 where
  pub keep : (sl : SampleLayout) → r ≡ some sl → IsShort sl

some-Keeps : (sl : SampleLayout) → IsShort sl → Keeps (some sl)
some-Keeps sl h = record { keep = λ sl' e. let q : sl ≡ sl' = cc in rw q at h }

then_Keeps {ℓ} :
    {A : Type ℓ} (P : A → Type 0) (r : Option A) (g : A → Option SampleLayout)
    → ((a : A) → r ≡ some a → P a)
    → ((a : A) → P a → Keeps (g a))
    → Keeps (r >>= g)
then_Keeps P none g h next = record { keep = λ sl e. absurd cc }
then_Keeps P (some a) g h next = next a (h a refl)

push_back-IsShort :
    (sl : SampleLayout) (e : Entry) → IsShort sl → Keeps (sample_layout__push_back sl e)
unfolding sample_layout__push_back
push_back-IsShort sl e h =
    if_rule Keeps (ltb sl.num_blocks_ sl.max_blocks)
      (λ lt. some-Keeps _ (record {
        room = h.room;
        counted = ground (arith, h.counted, h.few, h.room, length-append sl.layout_ (e ∷ []));
        few = ground (arith, h.few, h.room);
      }))
      (λ ge. record { keep = λ sl' q. absurd cc })

push_if-IsShort :
    (extents : BlockExtents) (sl : SampleLayout) (e : Entry)
    → IsShort sl
    → Keeps (push_if extents sl e)
unfolding push_if
push_if-IsShort extents sl e h =
    if_rule Keeps _ (λ b. some-Keeps sl h) (λ b. push_back-IsShort sl e h)

push_memory-IsShort : (k i om : ℕ) (sl : SampleLayout) → IsShort sl → Keeps (push_memory k i om sl)
unfolding push_memory
push_memory-IsShort zero i om sl h = some-Keeps sl h
push_memory-IsShort (suc k) i om sl h =
    then_Keeps IsShort _ _ (push_back-IsShort sl _ h).keep
      (λ sl' h'. push_memory-IsShort k (i + 1) om sl' h')

push_cores-IsShort :
    (k i c os : ℕ) (m : Bitset) (sl : SampleLayout) → IsShort sl → Keeps (push_cores k i c os m sl)
unfolding push_cores
push_cores-IsShort zero i c os m sl h = some-Keeps sl h
push_cores-IsShort (suc k) i c os m sl h =
    then_Keeps (λ (present : ℕ). IsShort sl) (bitset__get_bit m i) _ (λ present e. h)
      (λ present h'.
        if_rule Keeps (present == 0) (λ b. push_cores-IsShort k (i + 1) c os m sl h)
          (λ b.
            then_Keeps IsShort _ _ (push_back-IsShort sl _ h).keep
              (λ sl' h''. push_cores-IsShort k (i + 1) (u8 (c + 1)) os m sl' h'')))

init-IsShort : (t : SampleLayoutType) → IsShort (sample_layout__init t)
unfolding sample_layout__init
init-IsShort t = record { room = refl; counted = refl; few = omega arith }

memory_part :
    (b : Bool) (n om : ℕ) (sl : SampleLayout)
    → IsShort sl
    → Keeps (if b then push_memory n 0 om sl else some sl)
memory_part b n om sl h =
    if_rule Keeps b (λ t. push_memory-IsShort n 0 om sl h) (λ t. some-Keeps sl h)

core_part :
    (b : Bool) (n os : ℕ) (m : Bitset) (sl : SampleLayout)
    → IsShort sl
    → Keeps (if b then push_cores n 0 0 os m sl else some sl)
core_part b n os m sl h =
    if_rule Keeps b (λ t. push_cores-IsShort n 0 0 os m sl h) (λ t. some-Keeps sl h)

-- A layout that was made counts its entries, of which there are at most 82.
pub with_args-IsShort :
    (extents : BlockExtents) (l2 : ℕ) (m : Bitset) (t : SampleLayoutType)
    → Keeps (sample_layout__init_with_args extents l2 m t)
unfolding sample_layout__init_with_args sample_layout_non_v4
with_args-IsShort extents l2 m v4 = some-Keeps _ (init-IsShort v4)
with_args-IsShort extents l2 m non_v4 =
    let has = λ (t : BlockType). not (get_or extents.num_blocks_of_type_ (type_number t) 0 == 0) in
    let made = sample_layout__init non_v4 in
    let front : Entry = record { type_ = BlockType.fe; index = 0; offset = 0 } in
    let tile : Entry = record { type_ = BlockType.tiler; index = 0; offset = made.block_size } in
    let om = made.block_size + made.block_size in
    then_Keeps IsShort _ _ (push_if-IsShort extents made front (init-IsShort non_v4)).keep
      (λ sl1 h1. then_Keeps IsShort _ _ (push_if-IsShort extents sl1 tile h1).keep (λ sl2 h2.
        then_Keeps IsShort _ _ (memory_part (has BlockType.memory) (u8 l2) om sl2 h2).keep
          (λ sl3 h3.
            core_part (has BlockType.core) (u8 m.size) (u64 (om + made.block_size * l2)) m sl3 h3)))
