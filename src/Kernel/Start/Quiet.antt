-- ===== src/Kernel/Start/Quiet.antt =====
-- The cores after the module has begun to unload.
use cl_mem_regulation.Common.{
  ℕ, ◌≡◌, inl, inr, refl, sym, ==_iff, arith, true, false, none, List, [], ◌∷◌, ◌==◌, ◌||◌,
  Bool-cases, Bool,
}
use cl_mem_regulation.Kernel.State.{System, cluster}
use cl_mem_regulation.Kernel.Throttle.{Env}
use cl_mem_regulation.Kernel.Timer.{Tick, aggregation_period_func}
use cl_mem_regulation.Kernel.Start.{stop_counter, stop_all, begin_exit}

-- No throttling, and no timer.
pub record IsQuiet (s : System) (i : ℕ) : Type 0 where
  pub free : (s.core i).throttled_task ≡ none
  pub no_timer : (s.core i).hr_timer ≡ none

-- The core is in the mask of its cluster, under its own number.
abbrev pub InMask : System → ℕ → Type 0
InMask s i = (cluster s (s.core i).cluster_info).cpu_mask (s.core i).cpu ≡ true

stop_counter-InMask :
    (events cpu : ℕ) (s : System) (i : ℕ) → InMask s i → InMask (stop_counter events cpu s) i
unfolding stop_counter
stop_counter-InMask events cpu s i m = ground arith

stop_counter-keeps :
    (events cpu : ℕ) (s : System) (i : ℕ) → IsQuiet s i → IsQuiet (stop_counter events cpu s) i
unfolding stop_counter
stop_counter-keeps events cpu s i quiet = record {
  free = ground (arith, quiet.free);
  no_timer = ground (arith, quiet.no_timer);
}

stop_counter-IsQuiet :
    (events cpu : ℕ) (s : System) → InMask s cpu → IsQuiet (stop_counter events cpu s) cpu
unfolding stop_counter
stop_counter-IsQuiet events cpu s m = record { free = ground arith; no_timer = ground arith }

stop_all-keeps :
    (runs : List (ℕ × ℕ)) (s : System) (i : ℕ) → IsQuiet s i → IsQuiet (stop_all runs s) i
unfolding stop_all
stop_all-keeps [] s i quiet = quiet
stop_all-keeps (run ∷ runs) s i quiet =
    stop_all-keeps runs (stop_counter run.1 run.0 s) i (stop_counter-keeps run.1 run.0 s i quiet)

abbrev pub stops : ℕ → List (ℕ × ℕ) → Bool
stops i [] = false
stops i (run ∷ runs) = i == run.0 || stops i runs

pub stop_all-IsQuiet :
    (runs : List (ℕ × ℕ)) (s : System) (i : ℕ)
    → stops i runs ≡ true
    → InMask s i
    → IsQuiet (stop_all runs s) i
unfolding stop_all
stop_all-IsQuiet [] s i h m = absurd cc
stop_all-IsQuiet ((cpu, events) ∷ runs) s i h m = elim (Bool-cases (i == cpu)) [
  | inl same ↦ stop_all-keeps runs (stop_counter events cpu s) i (
      rw ((==_iff i cpu).0 same)
        (stop_counter-IsQuiet events cpu s (rw (sym ((==_iff i cpu).0 same)) m)))
  | inr differ ↦
      stop_all-IsQuiet runs (stop_counter events cpu s) i (ground arith)
        (stop_counter-InMask events cpu s i m)
]

pub stop_all-unloading :
    (runs : List (ℕ × ℕ)) (s : System)
    → s.module_unloading ≡ true
    → (stop_all runs s).module_unloading ≡ true
unfolding stop_all stop_counter
stop_all-unloading [] s h = h
stop_all-unloading (run ∷ runs) s h =
    stop_all-unloading runs (stop_counter run.1 run.0 s) (ground arith)

-- Once the module has begun to unload, a core that was stopped is not throttled and has no timer, and
-- an aggregation period of any core does nothing more. The core is in the mask of its cluster.
pub begin_exit-IsQuiet :
    (runs : List (ℕ × ℕ)) (s : System) (i : ℕ) (env : Env) (t : Tick) (cpu : ℕ)
    → stops i runs ≡ true
    → InMask s i
    → let s' = begin_exit runs s in IsQuiet s' i × (aggregation_period_func env t cpu s' ≡ s')
unfolding begin_exit aggregation_period_func
begin_exit-IsQuiet runs s i env t cpu h m = (
  stop_all-IsQuiet runs (record s { logging = false; module_unloading = true }) i h
      (ground (arith, m)),
  rw (stop_all-unloading runs (record s { logging = false; module_unloading = true }) refl) refl,
)
