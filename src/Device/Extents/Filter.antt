-- ===== src/Device/Extents/Filter.antt =====
-- include/filter_block_extents.h: which counts the filter keeps.
use cl_mem_regulation.Common.{
  ℕ, ◌<◌, ◌≡◌, refl, ap, ◌∙◌, ◌==◌, if◌then◌else◌, Bool, true, false, ◌||◌, replicate, none, some,
  List, [], ◌∷◌, length, get_or, set, length-set, get_or-set_self, get_or-set_ne, arith, ℕ_discrete,
  ==_iff, lt→ltb, ==_ne, get_or-replicate,
}
use cl_mem_regulation.Counters.{Configuration}
use cl_mem_regulation.Device.Extents.{
  BlockExtents, type_number, block_extents__init, filter_types, filter_block_extents,
}

-- Whether some configuration has the type of this number.
unfoldable pub configured : List Configuration → ℕ → Bool
configured [] t = false
configured (c ∷ cs) t = type_number c.type_ == t || configured cs t

if_same : (b : Bool) (x : ℕ) → (if b then x else x) ≡ x
if_same true x = refl
if_same false x = refl

filter_types-get :
    (input output : List ℕ) (configs : List Configuration) (t : ℕ)
    → length output ≡ 4
    → t < 4
    → get_or (filter_types input output configs) t 0
      ≡ (if configured configs t then get_or input t 0 else get_or output t 0)
unfolding filter_types configured
filter_types-get input output [] t h lt = refl
filter_types-get input output (c ∷ cs) t h lt =
    let i = type_number c.type_ in
    let ih =
      filter_types-get input (set output i (get_or input i 0)) cs t
        (length-set output i (get_or input i 0) ∙ h) lt in
    elim (ℕ_discrete i t) [
      | yes e ↦
          let got : get_or (set output i (get_or input i 0)) t 0 ≡ get_or input t 0 =
            rw (← e) (get_or-set_self output i (get_or input i 0) 0 (omega arith)) in
          rw ((==_iff i t).1 e)
            (ih ∙ ap (λ o. if configured cs t then get_or input t 0 else o) got ∙ if_same _ _)
      | no n ↦ rw (==_ne i t n) (
          ih
          ∙ ap (λ o. if configured cs t then get_or input t 0 else o)
              (get_or-set_ne output i t _ 0 n))
    ]

kept :
    (input : List ℕ) (configs : List Configuration) (t : ℕ)
    → t < 4
    → get_or (filter_types input (replicate 4 0) configs) t 0
      ≡ (if configured configs t then get_or input t 0 else 0)
kept input configs t lt =
    filter_types-get input (replicate 4 0) configs t refl lt
    ∙ ap (λ o. if configured configs t then get_or input t 0 else o)
        (get_or-replicate {A = ℕ} 4 t 0)

-- When the memory behind the configurations does not end the program, the filter keeps the count of each
-- type that some configuration has, and makes every other count 0.
filter_block_extents-get :
    (input out : BlockExtents) (configs : List Configuration) (end_type t : ℕ)
    → t < 4
    → filter_block_extents input configs end_type ≡ some out
    → get_or out.num_blocks_of_type_ t 0
      ≡ (if configured configs t then get_or input.num_blocks_of_type_ t 0 else 0)
unfolding filter_block_extents block_extents__init
filter_block_extents-get input out [] end_type t lt e =
    ground (arith, kept input.num_blocks_of_type_ [] t lt)
filter_block_extents-get input out (c ∷ cs) end_type t lt e =
    ground (arith, kept input.num_blocks_of_type_ (c ∷ cs) t lt)

-- The type behind the configurations ends the program when it is below that of the first one.
pub filter_block_extents-none :
    (input : BlockExtents) (c : Configuration) (cs : List Configuration) (end_type : ℕ)
    → end_type < type_number c.type_
    → filter_block_extents input (c ∷ cs) end_type ≡ none
unfolding filter_block_extents
filter_block_extents-none input c cs end_type lt =
    rw (lt→ltb end_type (type_number c.type_) lt) refl
