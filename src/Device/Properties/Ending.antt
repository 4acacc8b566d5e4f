-- ===== src/Device/Properties/Ending.antt =====
-- include/instance.h: when the loop of `prop_decoder__run` ends.
use cl_mem_regulation.Common.{
  ℕ, zero, suc, ◌+◌, ◌<◌, ◌≤◌, ◌≡◌, refl, sym, ◌∙◌, none, some, arith, undefined, out_of_fuel,
  Option-cases, ◌⊎◌, inl, inr, dec_lt, ==_ne,
}
use cl_mem_regulation.Device.Properties.{PropReader, Locals, one_round, decode_loop, take_property}
use cl_mem_regulation.Device.Properties.Reading.{IsReader, next_short, next-Progress}

module _ (garbage : PropReader → ℕ) where
  -- One to three bytes are no header: a round leaves them where they are.
  round_short : (r : PropReader) (l : Locals) → r.size_ < 4 → one_round garbage r l ≡ some (r, l)
  unfolding one_round take_property
  round_short r l h = rw (next_short (garbage r) r h) refl

  -- The loop never ends once one to three bytes are left.
  pub decode_loop-stuck :
      (fuel : ℕ) (r : PropReader) (l : Locals)
      → 0 < r.size_
      → r.size_ < 4
      → decode_loop garbage fuel r l ≡ out_of_fuel
  unfolding decode_loop
  decode_loop-stuck zero r l pos h = ground arith
  decode_loop-stuck (suc fuel) r l pos h =
      rw (==_ne r.size_ 0 (omega arith), round_short r l h) (decode_loop-stuck fuel r l pos h)

  abbrev Advances : PropReader → Locals → Type 0
  Advances r l =
      (r' : PropReader) × (l' : Locals) × (one_round garbage r l ≡ some (r', l'))
      × IsReader r'
      × (r'.size_ + 4 ≤ r.size_)

  -- With a header left, a round has no meaning, or it takes four bytes at least.
  pub round_long :
      (r : PropReader) (l : Locals)
      → IsReader r
      → 4 ≤ r.size_
      → (one_round garbage r l ≡ none) ⊎ Advances r l
  unfolding one_round
  round_long r l h le =
      let (id, value, r', e, h', p) = next-Progress (garbage r) r h le in
      elim (Option-cases (take_property id value l)) [
        | inl n ↦ inl (rw (e, n) refl)
        | inr (l', s) ↦ inr (r', l', rw (e, s) refl, h', p)
      ]

  not_done :
      (n : ℕ) (r : PropReader) (l : Locals) → decode_loop garbage n r l ≡ out_of_fuel → 0 < r.size_
  unfolding decode_loop
  not_done zero r l e = ground arith
  not_done (suc n) r l e = ground arith

  decode_loop-out :
      (r : PropReader) (l : Locals) → 0 < r.size_ → decode_loop garbage 0 r l ≡ out_of_fuel
  unfolding decode_loop
  decode_loop-out r l pos = ground arith

  pub decode_loop-none :
      (n : ℕ) (r : PropReader) (l : Locals)
      → 0 < r.size_
      → one_round garbage r l ≡ none
      → decode_loop garbage (suc n) r l ≡ undefined
  unfolding decode_loop
  decode_loop-none n r l pos q = rw (==_ne r.size_ 0 (omega arith), q) refl

  pub decode_loop-some :
      (n : ℕ) (r r' : PropReader) (l l' : Locals)
      → 0 < r.size_
      → one_round garbage r l ≡ some (r', l')
      → decode_loop garbage (suc n) r l ≡ decode_loop garbage n r' l'
  unfolding decode_loop
  decode_loop-some n r r' l l' pos q = rw (==_ne r.size_ 0 (omega arith), q) refl

  -- As many rounds as there are bytes decide: when they do not end the loop, no number of rounds does.
  pub decode_loop-enough :
      (n k : ℕ) (r : PropReader) (l : Locals)
      → IsReader r
      → r.size_ ≤ n
      → decode_loop garbage n r l ≡ out_of_fuel
      → decode_loop garbage k r l ≡ out_of_fuel
  decode_loop-enough n zero r l h le e = decode_loop-out r l (not_done n r l e)
  decode_loop-enough zero (suc k) r l h le e = absurd (omega (arith, not_done zero r l e))
  decode_loop-enough (suc n) (suc k) r l h le e = elim (dec_lt r.size_ 4) [
    | yes short ↦ decode_loop-stuck (suc k) r l (not_done (suc n) r l e) short
    | no long ↦ elim (round_long r l h (omega arith)) [
      | inl q ↦ cc (e, decode_loop-none n r l (omega arith) q)
      | inr (r', l', q, h', p) ↦
          decode_loop-some k r r' l l' (omega arith) q
          ∙ decode_loop-enough n k r' l' h' (omega arith)
              (sym (decode_loop-some n r r' l l' (omega arith) q) ∙ e)
    ]
  ]
