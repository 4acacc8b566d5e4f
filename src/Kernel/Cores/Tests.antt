-- ===== src/Kernel/Cores/Tests.antt =====
-- The set-up of the eight cores at the parameters that the module has by default.
use cl_mem_regulation.Common.{ℕ, ◌≡◌, refl, arith, true, false, Option, none, some, List, [], ◌∷◌}
use cl_mem_regulation.Kernel.State.{ClusterId, PerfEvent}
use cl_mem_regulation.Kernel.Start.{Boot, ktime_max, start_all}
use cl_mem_regulation.Kernel.Start.Leader.{IsElected}
use cl_mem_regulation.Kernel.Start.All.{Fresh, fresh_nil, fresh_cons}
use cl_mem_regulation.Kernel.Tests.{boot}
use cl_mem_regulation.Kernel.Cores.{
  Args, CpuCalls, Created, init_counter, receiver_of, init_core, init_cores, booted, init_boot,
}
use cl_mem_regulation.Kernel.Cores.Ready.{IsReady, init_boot-start}

abbrev defaults : Args
defaults = record {
  regulation_period_us = 5300;
  bandwidth_budget_cl1 = 204800;
  bandwidth_budget_cl2 = 204800;
  profiling_cl1 = true;
  profiling_cl2 = true;
  profiling_core_cl1 = 3;
  profiling_core_cl2 = 7;
  read_counter_id = 0x2a;
  logging = false;
}

abbrev new_event : PerfEvent
new_event = record { count = 0; child_count = 0; period_left = 0; running = false }

abbrev all_made : CpuCalls
all_made = record {
  create = λ attr cpu. Created.event new_event;
  throttle_thread = true;
  receiver_thread = true;
}

abbrev eight : List ℕ
eight = 0 ∷ 1 ∷ 2 ∷ 3 ∷ 4 ∷ 5 ∷ 6 ∷ 7 ∷ []

abbrev loaded : Option Boot
loaded =
    init_boot defaults (λ i. all_made) eight boot.core boot.gpu1 boot.gpu2 (λ i. false) false 77

loaded-some : (b : Boot) × (loaded ≡ some b) × ((i : ℕ) → b.hrtimer_start i ≡ ktime_max)
unfolding init_boot booted init_cores init_core init_counter receiver_of
loaded-some = (_, refl, λ i. refl)

abbrev starts : List (ℕ × ℕ)
starts = (2, 50) ∷ (0, 40) ∷ []

starts-Fresh : Fresh (loaded-some.0).hrtimer_start starts
starts-Fresh =
    fresh_cons (omega arith) (omega arith) (loaded-some.2 2)
      (fresh_cons (omega arith) (omega arith) (loaded-some.2 0) fresh_nil)

init_boot-start_example :
    IsReady defaults (start_all starts loaded-some.0).system
    × ((k : ClusterId) → IsElected (start_all starts loaded-some.0) k)
init_boot-start_example =
    init_boot-start defaults (λ i. all_made) eight boot.core boot.gpu1 boot.gpu2 (λ i. false) false
      77 loaded-some.0 starts loaded-some.1 (λ i lt. ground arith) starts-Fresh

-- A CPU without its counter ends the set-up.
without_counter :
    init_boot defaults
      (λ i. record all_made { create = λ attr cpu. Created.error_event 95 })
      eight
      boot.core
      boot.gpu1
      boot.gpu2
      (λ i. false)
      false
      77
    ≡ none
unfolding init_boot init_cores init_core init_counter receiver_of
without_counter = refl
