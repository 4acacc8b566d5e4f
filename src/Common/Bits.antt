-- ===== src/Common/Bits.antt =====
-- The bits of a native number: what the bit operations and shifts do to each of them.
use Prim.Native.Nat.{
  ℕ, zero, suc, ◌+◌, ◌-◌, ◌*◌, ◌/◌, ◌%◌, ◌^◌, ◌≤◌, ◌<◌, min, max, bit_and, bit_or, bit_and-bitwise,
  bit_or-bitwise,
}
use mathlib.Core.Path.{◌≡◌, refl, ap, sym, ◌∙◌}
use mathlib.Core.Logic.{◌≢◌}
use native.Mathlib.Nat.{pow-succ', one-le-pow, pow-le-pow_right, div-div-eq-div-mul}
use native.Mathlib.Omega.{arith}
use cl_mem_regulation.Common.Digits.{bit_or_step, bit_and_step}

-- `(n >> i) & 1`
abbrev pub bit : ℕ → ℕ → ℕ
bit n i = n / 2 ^ i % 2

pub halve : (n i : ℕ) → n / 2 ^ suc i ≡ n / 2 / 2 ^ i
halve n i = rw (pow-succ' 2 i, div-div-eq-div-mul n 2 (2 ^ i)) refl

pub bit-suc : (n i : ℕ) → bit n (suc i) ≡ bit (n / 2) i
bit-suc n i = ap (λ t. t % 2) (halve n i)

bit_or_half : (a b : ℕ) → bit_or a b / 2 ≡ bit_or (a / 2) (b / 2)
bit_or_half a b = omega (arith, bit_or_step a b)

bit_and_half : (a b : ℕ) → bit_and a b / 2 ≡ bit_and (a / 2) (b / 2)
bit_and_half a b = omega (arith, bit_and_step a b)

pub bit-bit_or : (i a b : ℕ) → bit (bit_or a b) i ≡ max (bit a i) (bit b i)
bit-bit_or zero a b = omega (arith, bit_or_step a b)
bit-bit_or (suc i) a b =
    rw (bit-suc (bit_or a b) i, bit-suc a i, bit-suc b i, bit_or_half a b)
      (bit-bit_or i (a / 2) (b / 2))

pub bit-bit_and : (i a b : ℕ) → bit (bit_and a b) i ≡ min (bit a i) (bit b i)
bit-bit_and zero a b = omega (arith, bit_and_step a b)
bit-bit_and (suc i) a b =
    rw (bit-suc (bit_and a b) i, bit-suc a i, bit-suc b i, bit_and_half a b)
      (bit-bit_and i (a / 2) (b / 2))

pub pow-lt : (k w : ℕ) → k < w → 2 ^ k < 2 ^ w
pow-lt k w h =
    let step : 2 ^ suc k ≤ 2 ^ w = pow-le-pow_right (omega arith) (omega arith) in
    omega (arith, step, pow-succ' 2 k, one-le-pow k 2)

-- The complement of a word of `w` bits.
abbrev pub complement : ℕ → ℕ → ℕ
complement w n = 2 ^ w - 1 - n

complement_half : (w n : ℕ) → n < 2 ^ suc w → complement (suc w) n / 2 ≡ complement w (n / 2)
complement_half w n h = omega (arith, pow-succ' 2 w)

pub bit-complement : (w i n : ℕ) → n < 2 ^ w → i < w → bit (complement w n) i ≡ 1 - bit n i
bit-complement zero i n h lt = absurd (omega arith)
bit-complement (suc w) zero n h lt = omega (arith, pow-succ' 2 w, one-le-pow w 2)
bit-complement (suc w) (suc i) n h lt =
    rw (bit-suc (complement (suc w) n) i, bit-suc n i, complement_half w n h)
      (bit-complement w i (n / 2) (omega (arith, pow-succ' 2 w)) (omega arith))

pub bit-zero : (i : ℕ) → bit 0 i ≡ 0
bit-zero zero = refl
bit-zero (suc i) = rw (bit-suc 0 i) (bit-zero i)

pow_half : (i : ℕ) → 2 ^ suc i / 2 ≡ 2 ^ i
pow_half i = omega (arith, pow-succ' 2 i)

pub bit-pow_self : (i : ℕ) → bit (2 ^ i) i ≡ 1
bit-pow_self zero = refl
bit-pow_self (suc i) = rw (bit-suc (2 ^ suc i) i, pow_half i) (bit-pow_self i)

pub bit-pow_ne : (i j : ℕ) → i ≢ j → bit (2 ^ i) j ≡ 0
bit-pow_ne zero zero h = absurd (h refl)
bit-pow_ne zero (suc j) h = rw (bit-suc 1 j) (bit-zero j)
bit-pow_ne (suc i) zero h = omega (arith, pow-succ' 2 i)
bit-pow_ne (suc i) (suc j) h =
    rw (bit-suc (2 ^ suc i) j, pow_half i) (bit-pow_ne i j (λ e. h (ap suc e)))

-- A number is what its bits say.
pub bits_determine :
    (w a b : ℕ) → a < 2 ^ w → b < 2 ^ w → ((i : ℕ) → i < w → bit a i ≡ bit b i) → a ≡ b
bits_determine zero a b p q h = omega arith
bits_determine (suc w) a b p q h =
    let halves : a / 2 ≡ b / 2 =
      bits_determine w (a / 2) (b / 2) (omega (arith, pow-succ' 2 w)) (omega (arith, pow-succ' 2 w))
        (λ i lt. sym (bit-suc a i) ∙ h (suc i) (omega arith) ∙ bit-suc b i) in
    omega (arith, halves, h 0 (omega arith))

pub bit_or-le : (w a b : ℕ) → a < 2 ^ w → b < 2 ^ w → bit_or a b < 2 ^ w
bit_or-le zero a b p q =
    let e : a ≡ 0 = omega arith in let e' : b ≡ 0 = omega arith in rw (e, e') (omega arith)
bit_or-le (suc w) a b p q = omega (
  arith,
  bit_or_step a b,
  pow-succ' 2 w,
  bit_or-le w (a / 2) (b / 2) (omega (arith, pow-succ' 2 w)) (omega (arith, pow-succ' 2 w)),
)

pub bit_and-le : (w a b : ℕ) → a < 2 ^ w → bit_and a b < 2 ^ w
bit_and-le zero a b p = let e : a ≡ 0 = omega arith in rw (e, bit_and-bitwise 0 b) (omega arith)
bit_and-le (suc w) a b p = omega (
  arith,
  bit_and_step a b,
  pow-succ' 2 w,
  bit_and-le w (a / 2) (b / 2) (omega (arith, pow-succ' 2 w)),
)

double_pow : (q k : ℕ) → q * 2 ^ suc k ≡ 2 * (q * 2 ^ k)
double_pow q k = omega (arith, ap (λ (t : ℕ). q * t) (pow-succ' 2 k))

double_half : (q k : ℕ) → q * 2 ^ suc k / 2 ≡ q * 2 ^ k
double_half q k = omega (arith, double_pow q k)

-- The disjoint fields of a word: what is above digit `k`, and what is below.
pub bit_or_fields : (k q r : ℕ) → r < 2 ^ k → bit_or r (q * 2 ^ k) ≡ r + q * 2 ^ k
bit_or_fields zero q r fits =
    let e : r ≡ 0 = omega arith in rw e (omega (arith, bit_or-bitwise 0 (q * 1)))
bit_or_fields (suc k) q r fits = omega (
  arith,
  bit_or_step r (q * 2 ^ suc k),
  ap (λ t. bit_or (r / 2) t) (double_half q k),
  double_pow q k,
  bit_or_fields k q (r / 2) (omega (arith, pow-succ' 2 k)),
)

pub bit-lt : (n i : ℕ) → bit n i < 2
bit-lt n i = omega arith

-- How many of the digits below `w` are 1.
unfoldable pub ones : ℕ → ℕ → ℕ
ones zero n = 0
ones (suc w) n = ones w n + bit n w

pub ones-none : (n : ℕ) → ones 0 n ≡ 0
unfolding ones
ones-none n = refl

pub ones-suc : (w n : ℕ) → ones (suc w) n ≡ ones w n + bit n w
unfolding ones
ones-suc w n = refl

pub ones-half : (w n : ℕ) → ones (suc w) n ≡ n % 2 + ones w (n / 2)
unfolding ones
ones-half zero n = omega arith
ones-half (suc w) n = omega (arith, ones-half w n, bit-suc n w)

pub ones-le : (w n : ℕ) → ones w n ≤ w
unfolding ones
ones-le zero n = omega arith
ones-le (suc w) n = omega (arith, ones-le w n, bit-lt n w)

pub ones-zero : (w : ℕ) → ones w 0 ≡ 0
unfolding ones
ones-zero zero = refl
ones-zero (suc w) = omega (arith, ones-zero w, bit-zero w)
