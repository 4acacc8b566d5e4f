-- ===== src/Kernel/Start/Tests.antt =====
-- Cores that start and stop, and the theorems at such runs.
use cl_mem_regulation.Common.{ℕ, ◌≡◌, refl, arith, true, inl, List, [], ◌∷◌}
use cl_mem_regulation.Kernel.State.{cl1, cl2, cluster}
use cl_mem_regulation.Kernel.Throttle.{Env}
use cl_mem_regulation.Kernel.Timer.{Tick}
use cl_mem_regulation.Kernel.Start.{Boot, ktime_max, start_counter, start_all, elect}
use cl_mem_regulation.Kernel.Start.Leader.{IsElected}
use cl_mem_regulation.Kernel.Start.All.{IsWired, Fresh, fresh_cons, fresh_nil, start_all-IsElected}
use cl_mem_regulation.Kernel.Tests.{boot}

abbrev loaded : Boot
loaded = record {
  system = boot;
  hrtimer_start = λ i. ktime_max;
  leader_cl1 = ktime_max;
  leader_cl2 = ktime_max;
  start_time = 1000;
}

-- CPU 2 starts before CPU 0, which was faster to read the clock.
abbrev starts : List (ℕ × ℕ)
starts = (2, 50) ∷ (0, 40) ∷ (5, 70) ∷ []

loaded-IsWired : IsWired boot
loaded-IsWired = record { own = λ i lt. refl; place = λ i lt. refl; in_mask = λ i lt. ground arith }

starts-Fresh : Fresh loaded.hrtimer_start starts
starts-Fresh = fresh_cons (omega arith) (omega arith) refl (
    fresh_cons (omega arith) (omega arith) refl
      (fresh_cons (omega arith) (omega arith) refl fresh_nil))

loaded-IsElected : IsElected loaded cl1
loaded-IsElected = record { least = λ c m. omega arith; chosen = inl refl }

start_all-IsElected_example : IsElected (start_all starts loaded) cl1
start_all-IsElected_example =
    start_all-IsElected starts loaded cl1 loaded-IsWired starts-Fresh loaded-IsElected

starts_run :
    ((start_all starts loaded).leader_cl1 ≡ 40)
    × ((cluster (start_all starts loaded).system cl1).leader_core ≡ 0)
    × ((cluster (start_all starts loaded).system cl2).leader_core ≡ 5)
unfolding start_all start_counter elect
starts_run = (refl, refl, refl)

abbrev quiet_env : Env
quiet_env = record { now = 0; current = 1; online = 2 ∷ 5 ∷ [] }

abbrev late_tick : Tick
late_tick = record { events = 900; alive = true; kmalloc = true }
