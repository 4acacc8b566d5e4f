-- ===== src/Device/Properties/Reading.antt =====
-- include/instance.h: the reader and the decoder stay inside the buffer.
use cl_mem_regulation.Common.{
  ℕ, zero, suc, ◌+◌, ◌*◌, ◌/◌, ◌%◌, ◌^◌, ◌<◌, ◌≤◌, ◌≡◌, refl, ltb, some, List, length, get_or,
  get_elem?-get_or, drop, length-drop, bit_or, sub64, two64, arith, Bool-cases, inl, inr,
}
use cl_mem_regulation.Device.Properties.{
  PropReader, le_bytes, le_read_bytes, prop_reader_le_read_bytes_uint8_t,
  prop_reader_le_read_bytes_uint16_t, prop_reader_le_read_bytes_uint32_t,
  prop_reader_le_read_bytes_uint64_t, read_value, prop_decoder__to_prop_metadata,
  prop_decoder__next,
}

-- The size counts what is left of the buffer.
pub record IsReader (r : PropReader) : Type 0 where
  pub counted : length r.data_ ≡ r.size_
  pub fits : r.size_ < two64

abbrev pub advanced : ℕ → PropReader → PropReader
advanced n r = record { data_ = drop n r.data_; size_ = sub64 r.size_ n }

advanced-IsReader : (n : ℕ) (r : PropReader) → IsReader r → n ≤ r.size_ → IsReader (advanced n r)
advanced-IsReader n r h le = record {
  counted = omega (arith, length-drop n r.data_, h.counted, h.fits);
  fits = omega (arith, h.fits);
}

le_bytes_total :
    (n b : ℕ) (xs : List ℕ) (ret : ℕ) → b + n ≤ length xs → (v : ℕ) × (le_bytes n b xs ret ≡ some v)
unfolding le_bytes
le_bytes_total zero b xs ret h = (ret, refl)
le_bytes_total (suc n) b xs ret h =
    rw (get_elem?-get_or xs b 0 (omega arith))
      (le_bytes_total n (b + 1) xs (bit_or ret (get_or xs b 0 * 2 ^ (8 * b))) (omega arith))

le_read_bytes_total :
    (n ret : ℕ) (r : PropReader)
    → IsReader r
    → n ≤ r.size_
    → (v : ℕ) × (le_read_bytes n ret r ≡ some (v, advanced n r))
unfolding le_read_bytes
le_read_bytes_total n ret r h le =
    let (v, e) = le_bytes_total n 0 r.data_ ret (omega (arith, h.counted)) in rw e (v, refl)

read_value_total :
    (garbage k : ℕ) (r : PropReader)
    → IsReader r
    → k < 4
    → 2 ^ k ≤ r.size_
    → (v : ℕ) × (read_value garbage k r ≡ some (v, advanced (2 ^ k) r))
unfolding read_value prop_reader_le_read_bytes_uint8_t prop_reader_le_read_bytes_uint16_t
    prop_reader_le_read_bytes_uint32_t prop_reader_le_read_bytes_uint64_t
read_value_total garbage zero r h lt le = le_read_bytes_total 1 _ r h le
read_value_total garbage (suc zero) r h lt le = le_read_bytes_total 2 _ r h le
read_value_total garbage (suc (suc zero)) r h lt le = le_read_bytes_total 4 _ r h le
read_value_total garbage (suc (suc (suc zero))) r h lt le = le_read_bytes_total 8 _ r h le
read_value_total garbage (suc (suc (suc (suc k)))) r h lt le = absurd (omega arith)

-- With less than a header left, nothing is read and nothing changes.
pub next_short :
    (garbage : ℕ) (r : PropReader) → r.size_ < 4 → prop_decoder__next garbage r ≡ some (0, 0, r)
unfolding prop_decoder__next
next_short garbage r h = ground arith

-- The decoder with a header and a value left.
pub next_full :
    (garbage v w : ℕ) (r r1 r2 : PropReader)
    → 4 ≤ r.size_
    → prop_reader_le_read_bytes_uint32_t r ≡ some (v, r1)
    → 2 ^ (v % 4 % 256) ≤ r1.size_
    → read_value garbage (v % 4 % 256) r1 ≡ some (w, r2)
    → prop_decoder__next garbage r ≡ some (v / 4 % 256, w, r2)
unfolding prop_decoder__next prop_decoder__to_prop_metadata
next_full garbage v w r r1 r2 le e fits e' = ground (arith, e, e')

abbrev pub Progress : ℕ → PropReader → Type 0
Progress garbage r =
    (id : ℕ) × (value : ℕ) × (r' : PropReader) × (prop_decoder__next garbage r
      ≡ some (id, value, r'))
    × IsReader r'
    × (r'.size_ + 4 ≤ r.size_)

-- With a header left, the decoder reads inside the buffer, and takes four bytes at least.
pub next-Progress : (garbage : ℕ) (r : PropReader) → IsReader r → 4 ≤ r.size_ → Progress garbage r
unfolding prop_decoder__next prop_decoder__to_prop_metadata prop_reader_le_read_bytes_uint32_t
next-Progress garbage r h le =
    let (v, e) = le_read_bytes_total 4 0 r h le in
    let r1 = advanced 4 r in
    let h1 = advanced-IsReader 4 r h le in
    elim (Bool-cases (ltb r1.size_ (2 ^ (v % 4 % 256)))) [
      | inl t ↦ (0, 0, r1, ground (arith, e), h1, omega (arith, h.fits))
      | inr t ↦
          let fits : 2 ^ (v % 4 % 256) ≤ r1.size_ = ground arith in
          let (w, e') = read_value_total garbage (v % 4 % 256) r1 h1 (omega arith) fits in
          (
            v / 4 % 256,
            w,
            advanced (2 ^ (v % 4 % 256)) r1,
            next_full garbage v w r r1 _ le e fits e',
            advanced-IsReader (2 ^ (v % 4 % 256)) r1 h1 fits,
            omega (arith, h.fits, fits),
          )
    ]
