-- ===== src/Common/Words.antt =====
-- Machine words as native numbers below 2 ^ w: a signed word is its two's complement pattern.
use Prim.Native.Nat.{ℕ, ◌+◌, ◌-◌, ◌/◌, ◌%◌, compare, Ordering}
use mathlib.Core.Bool.{Bool, true, false}

abbrev pub two31 : ℕ
two31 = 0x8000_0000

abbrev pub two32 : ℕ
two32 = 0x1_0000_0000

abbrev pub two63 : ℕ
two63 = 0x8000_0000_0000_0000

abbrev pub two64 : ℕ
two64 = 0x1_0000_0000_0000_0000

abbrev pub u8 : ℕ → ℕ
u8 n = n % 256

abbrev pub u16 : ℕ → ℕ
u16 n = n % 65536

abbrev pub u32 : ℕ → ℕ
u32 n = n % two32

abbrev pub u64 : ℕ → ℕ
u64 n = n % two64

-- a - b on words of 64 bits
abbrev pub sub64 : ℕ → ℕ → ℕ
sub64 a b = (a + two64 - b) % two64

-- `-1` as an `int`
abbrev pub minus_one32 : ℕ
minus_one32 = 0xffff_ffff

-- `a < b` on two `int`s, given by their patterns
abbrev pub slt32 : ℕ → ℕ → Bool
slt32 a b = elim (compare ((a + two31) % two32) ((b + two31) % two32)) [
  | Ordering.lt ↦ true
  | _ ↦ false
]

-- An `int` converted to a type of 64 bits.
abbrev pub sext64 : ℕ → ℕ
sext64 a = elim (compare a two31) [ Ordering.lt ↦ a | _ ↦ a + (two64 - two32) ]

-- the magnitude of an `int`
abbrev pub abs32 : ℕ → ℕ
abs32 a = elim (compare a two31) [ Ordering.lt ↦ a | _ ↦ two32 - a ]

abbrev pub is_neg32 : ℕ → Bool
is_neg32 a = elim (compare a two31) [ Ordering.lt ↦ false | _ ↦ true ]

-- Division of `int`s truncates towards zero: the quotient of the magnitudes, with its sign.
abbrev pub with_sign : Bool → Bool → ℕ → ℕ
with_sign true false q = (two32 - q) % two32
with_sign false true q = (two32 - q) % two32
with_sign _ _ q = q

abbrev pub sdiv32 : ℕ → ℕ → ℕ
sdiv32 a b = with_sign (is_neg32 a) (is_neg32 b) (abs32 a / abs32 b)
