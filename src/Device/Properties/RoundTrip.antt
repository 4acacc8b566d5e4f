-- ===== src/Device/Properties/RoundTrip.antt =====
-- include/instance.h: the decoder on a buffer of properties in the format that its comment describes.
use cl_mem_regulation.Common.{
  ℕ, zero, suc, ◌+◌, ◌*◌, ◌/◌, ◌%◌, ◌^◌, ◌<◌, ◌≤◌, ◌≡◌, refl, sym, ap, ◌∙◌, none, some, List, [],
  ◌∷◌, ◌++◌, length, length-append, get_elem?, drop, drop_cons, bit_or_fields, ◌>>=◌, sub64, two64,
  arith, Outcome, finished, undefined, Option-cases, inl, inr,
}
use cl_mem_regulation.Device.Properties.{
  PropReader, Locals, le_bytes, le_read_bytes, prop_reader_le_read_bytes_uint8_t,
  prop_reader_le_read_bytes_uint16_t, prop_reader_le_read_bytes_uint32_t,
  prop_reader_le_read_bytes_uint64_t, read_value, prop_decoder__next, take_property, one_round,
  decode_loop,
}
use cl_mem_regulation.Device.Properties.Reading.{next_full}
use cl_mem_regulation.Device.Properties.Ending.{decode_loop-none, decode_loop-some}
use mathlib.Core.List.{append_assoc}
use native.Mathlib.Nat.{pow-succ', div-add-mod, mul-le-mul_right}

-- A property: its code, the code of its size (2 ^ size_code bytes), and its value.
pub record Property : Type 0 where
  pub code : ℕ
  pub size_code : ℕ
  pub value : ℕ

pub record IsProperty (p : Property) : Type 0 where
  pub code_fits : p.code < 256
  pub size_known : p.size_code < 4
  pub value_fits : p.value < 2 ^ (8 * 2 ^ p.size_code)

-- `n` bytes, the lowest first.
unfoldable pub encode_value : ℕ → ℕ → List ℕ
encode_value zero v = []
encode_value (suc n) v = (v % 256) ∷ encode_value n (v / 256)

unfoldable pub encode : Property → List ℕ
encode p = encode_value 4 (p.code * 4 + p.size_code) ++ encode_value (2 ^ p.size_code) p.value

unfoldable pub encode_all : List Property → List ℕ
encode_all [] = []
encode_all (p ∷ ps) = encode p ++ encode_all ps

pub data AllValid : List Property → Type 0 where
  none_left : AllValid []
  one_more : (p : Property) (ps : List Property) → IsProperty p → AllValid ps → AllValid (p ∷ ps)

byte_up : (b : ℕ) → 2 ^ (8 * (b + 1)) ≡ 256 * 2 ^ (8 * b)
byte_up b =
    let e : 8 * (b + 1) ≡ suc (suc (suc (suc (suc (suc (suc (suc (8 * b)))))))) = omega arith in
    rw e (
      omega (
        arith,
        pow-succ' 2 (8 * b),
        pow-succ' 2 (suc (8 * b)),
        pow-succ' 2 (suc (suc (8 * b))),
        pow-succ' 2 (suc (suc (suc (8 * b)))),
        pow-succ' 2 (suc (suc (suc (suc (8 * b))))),
        pow-succ' 2 (suc (suc (suc (suc (suc (8 * b)))))),
        pow-succ' 2 (suc (suc (suc (suc (suc (suc (8 * b))))))),
        pow-succ' 2 (suc (suc (suc (suc (suc (suc (suc (8 * b)))))))),
      ))

byte_fits : (d p r : ℕ) → d < 256 → r < p → r + d * p < 256 * p
byte_fits d p r h lt =
    let le : d * p ≤ 255 * p = mul-le-mul_right p (omega arith) in omega (arith, le)

suc-add_one : (n : ℕ) → suc n ≡ n + 1
suc-add_one n = omega arith

-- The lowest byte of `v` and the rest, both `b` bytes up.
split_byte : (v b : ℕ) → v % 256 * 2 ^ (8 * b) + v / 256 * 2 ^ (8 * (b + 1)) ≡ v * 2 ^ (8 * b)
split_byte v b = omega (
  arith,
  ap (λ (t : ℕ). t * 2 ^ (8 * b)) (div-add-mod v 256),
  ap (λ (t : ℕ). v / 256 * t) (byte_up b),
)

length-encode_value : (n v : ℕ) → length (encode_value n v) ≡ n
unfolding encode_value
length-encode_value zero v = refl
length-encode_value (suc n) v = ap suc (length-encode_value n (v / 256))

drop-encode_value : (n v : ℕ) (ys : List ℕ) → drop n (encode_value n v ++ ys) ≡ ys
unfolding encode_value
drop-encode_value zero v ys = refl
drop-encode_value (suc n) v ys = drop-encode_value n (v / 256) ys

-- The bytes of `v` stand in `xs` from `b` on.
pub data Stand (xs : List ℕ) : ℕ → ℕ → ℕ → Type 0 where
  end : (b v : ℕ) → Stand xs zero b v
  byte :
      (n b v : ℕ)
      → get_elem? xs b ≡ some (v % 256)
      → Stand xs n (b + 1) (v / 256)
      → Stand xs (suc n) b v

le_bytes-Stand :
    (n b v ret : ℕ) (xs : List ℕ)
    → Stand xs n b v
    → ret < 2 ^ (8 * b)
    → v < 2 ^ (8 * n)
    → le_bytes n b xs ret ≡ some (ret + v * 2 ^ (8 * b))
unfolding le_bytes
le_bytes-Stand zero b v ret xs s hr hv =
    let z : v ≡ 0 = omega arith in
    let e : ret ≡ ret + 0 * 2 ^ (8 * b) = omega arith in rw z (ap some e)
le_bytes-Stand (suc n) b v ret xs (Stand.byte _ _ _ e s) hr hv =
    let top = 2 ^ (8 * b) in
    let up : 2 ^ (8 * suc n) ≡ 256 * 2 ^ (8 * n) =
      ap (λ m. 2 ^ (8 * m)) (suc-add_one n) ∙ byte_up n in
    let sum : ret + v % 256 * top + v / 256 * 2 ^ (8 * (b + 1)) ≡ ret + v * top =
      omega (arith, split_byte v b) in
    rw (e, bit_or_fields (8 * b) (v % 256) ret hr)
      (le_bytes-Stand n (b + 1) (v / 256) (ret + v % 256 * top) xs s
          (omega (arith, byte_up b, byte_fits (v % 256) top ret (omega arith) hr))
          (omega (arith, up))
        ∙ ap some sum)

encode_value-Stand :
    (n b v : ℕ) (xs ys : List ℕ) → drop b xs ≡ encode_value n v ++ ys → Stand xs n b v
unfolding encode_value
encode_value-Stand zero b v xs ys e = Stand.end b v
encode_value-Stand (suc n) b v xs ys e =
    let (first, rest) = drop_cons b (v % 256) xs (encode_value n (v / 256) ++ ys) e in
    Stand.byte n b v first (encode_value-Stand n (b + 1) (v / 256) xs ys rest)

abbrev pub reader_of : List ℕ → PropReader
reader_of xs = record { data_ = xs; size_ = length xs }

le_read_bytes-encode :
    (n v : ℕ) (ys : List ℕ)
    → v < 2 ^ (8 * n)
    → n + length ys < two64
    → le_read_bytes n 0 (reader_of (encode_value n v ++ ys)) ≡ some (v, reader_of ys)
unfolding le_read_bytes
le_read_bytes-encode n v ys fits small =
    let xs = encode_value n v ++ ys in
    let size : sub64 (length xs) n ≡ length ys =
      omega (arith, length-append (encode_value n v) ys, length-encode_value n v) in
    let value : 0 + v * 1 ≡ v = omega arith in
    rw
      (
        le_bytes-Stand n 0 v 0 xs (encode_value-Stand n 0 v xs ys refl) (omega arith) fits,
        value,
        drop-encode_value n v ys,
        size,
      )
      refl

read_value-encode :
    (k v : ℕ) (ys : List ℕ)
    → k < 4
    → v < 2 ^ (8 * 2 ^ k)
    → 2 ^ k + length ys < two64
    → read_value 0 k (reader_of (encode_value (2 ^ k) v ++ ys)) ≡ some (v, reader_of ys)
unfolding read_value prop_reader_le_read_bytes_uint8_t prop_reader_le_read_bytes_uint16_t
    prop_reader_le_read_bytes_uint32_t prop_reader_le_read_bytes_uint64_t
read_value-encode zero v ys lt fits small = le_read_bytes-encode 1 v ys fits small
read_value-encode (suc zero) v ys lt fits small = le_read_bytes-encode 2 v ys fits small
read_value-encode (suc (suc zero)) v ys lt fits small = le_read_bytes-encode 4 v ys fits small
read_value-encode (suc (suc (suc zero))) v ys lt fits small = le_read_bytes-encode 8 v ys fits small
read_value-encode (suc (suc (suc (suc k)))) v ys lt fits small = absurd (omega arith)

-- The decoder reads one property back, and stands behind it.
pub next-encode :
    (p : Property) (ys : List ℕ)
    → IsProperty p
    → length (encode p ++ ys) < two64
    → prop_decoder__next 0 (reader_of (encode p ++ ys)) ≡ some (p.code, p.value, reader_of ys)
unfolding encode prop_reader_le_read_bytes_uint32_t encode_value
next-encode p ys h small =
    let header = p.code * 4 + p.size_code in
    let body = encode_value (2 ^ p.size_code) p.value ++ ys in
    let assoc : encode p ++ ys ≡ encode_value 4 header ++ body =
      append_assoc (encode_value 4 header) _ ys in
    let sizes : length body ≡ 2 ^ p.size_code + length ys = omega (
      arith,
      length-append (encode_value (2 ^ p.size_code) p.value) ys,
      length-encode_value (2 ^ p.size_code) p.value,
    ) in
    let total : length (encode_value 4 header ++ body) ≡ 4 + length body =
      omega (arith, length-append (encode_value 4 header) body, length-encode_value 4 header) in
    let id : header / 4 % 256 ≡ p.code = omega (arith, h.code_fits, h.size_known) in
    let kind : header % 4 % 256 ≡ p.size_code = omega (arith, h.code_fits, h.size_known) in
    let value =
      read_value-encode p.size_code p.value ys h.size_known h.value_fits
        (omega (arith, sizes, total, small, ap (λ xs. length xs) assoc)) in
    let read =
      next_full 0 header p.value (reader_of (encode_value 4 header ++ body)) (reader_of body)
        (reader_of ys) (omega (arith, total))
        (le_read_bytes-encode 4 header body (omega (arith, h.code_fits, h.size_known))
          (omega (arith, total, small)))
        (rw kind (omega (arith, sizes))) (rw kind value) in
    rw assoc (rw id at read)

-- What the loop does with properties that are all there.
unfoldable pub take_all : List Property → Locals → Outcome Locals
take_all [] l = finished l
take_all (p ∷ ps) l = elim (take_property p.code p.value l) [
  | none ↦ undefined
  | some l' ↦ take_all ps l'
]

take_all-none :
    (p : Property) (ps : List Property) (l : Locals)
    → take_property p.code p.value l ≡ none
    → take_all (p ∷ ps) l ≡ undefined
unfolding take_all
take_all-none p ps l e = rw (e, take_all) refl

take_all-some :
    (p : Property) (ps : List Property) (l l' : Locals)
    → take_property p.code p.value l ≡ some l'
    → take_all (p ∷ ps) l ≡ take_all ps l'
unfolding take_all
take_all-some p ps l l' e = rw (e, take_all) refl

length-encode : (p : Property) (ys : List ℕ) → 4 + length ys ≤ length (encode p ++ ys)
unfolding encode
length-encode p ys =
    let header = encode_value 4 (p.code * 4 + p.size_code) in
    let body = encode_value (2 ^ p.size_code) p.value in
    omega (
      arith,
      length-append (header ++ body) ys,
      length-append header body,
      length-encode_value 4 (p.code * 4 + p.size_code),
    )

module _ (garbage : PropReader → ℕ) (clean : (r : PropReader) → garbage r ≡ 0) where
  round-encode :
      (p : Property) (ys : List ℕ) (l : Locals)
      → IsProperty p
      → length (encode p ++ ys) < two64
      → one_round garbage (reader_of (encode p ++ ys)) l
        ≡ (take_property p.code p.value l >>= λ l'. some (reader_of ys, l'))
  unfolding one_round
  round-encode p ys l h small =
      rw (clean (reader_of (encode p ++ ys)), next-encode p ys h small) refl

  done : (l : Locals) → decode_loop garbage 0 (reader_of []) l ≡ take_all [] l
  unfolding decode_loop take_all
  done l = refl

  -- Where the words that values are read into, which the code does not initialise, are 0: the loop on a buffer
  -- of valid properties, shorter than 2 ^ 64, takes as many rounds as there are, and takes each once, in order.
  pub decode_loop-encode :
      (ps : List Property) (l : Locals)
      → AllValid ps
      → length (encode_all ps) < two64
      → decode_loop garbage (length ps) (reader_of (encode_all ps)) l ≡ take_all ps l
  unfolding encode_all
  decode_loop-encode [] l h small = done l
  decode_loop-encode (p ∷ ps) l (AllValid.one_more _ _ hp h) small =
      let ys = encode_all ps in
      let long = length-encode p ys in
      elim (Option-cases (take_property p.code p.value l)) [
        | inl n ↦
            decode_loop-none garbage (length ps) (reader_of (encode p ++ ys)) l
              (omega (arith, long))
              (round-encode p ys l hp small ∙ ap (λ o. o >>= λ l'. some (reader_of ys, l')) n)
            ∙ sym (take_all-none p ps l n)
        | inr (l', s) ↦
            decode_loop-some garbage (length ps) (reader_of (encode p ++ ys)) (reader_of ys) l l'
              (omega (arith, long))
              (round-encode p ys l hp small ∙ ap (λ o. o >>= λ l'. some (reader_of ys, l')) s)
            ∙ decode_loop-encode ps l' h (omega (arith, long, small))
            ∙ sym (take_all-some p ps l l' s)
      ]
