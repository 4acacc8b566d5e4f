-- ===== src/Kernel/Exit/Tests.antt =====
-- The exit of the module at a concrete system.
use cl_mem_regulation.Common.{◌≡◌, refl, true, false, some, none, [], ◌∷◌, ◌++◌, slt32, ltb}
use cl_mem_regulation.Kernel.State.{System, cl1, cluster}
use cl_mem_regulation.Kernel.Throttle.Calls.{WillThrottle}
use cl_mem_regulation.Kernel.Gpu.{gpu_beats, beats_to_events}
use cl_mem_regulation.Kernel.Gpu.Decode.{le_bytes}
use cl_mem_regulation.Kernel.Init.Resources.{nothing}
use cl_mem_regulation.Kernel.Logging.{null_file}
use cl_mem_regulation.Kernel.Tests.{boot, env}
use cl_mem_regulation.Kernel.Exit.{ExitArgs, cl_mem_reg_exit}
use cl_mem_regulation.Kernel.Exit.Last.{last_usage}
use cl_mem_regulation.Kernel.Exit.Ends.{exit-ends, exit-throttles}

-- The timers run, and the last beats of the first cluster's GPU have not been taken.
abbrev busy : System
busy = record boot {
  core = λ i. record (boot.core i) { hr_timer = some 9000 };
  gpu1 = record boot.gpu1 { beats_memory = le_bytes 4000 ++ le_bytes 4000 };
}

abbrev args : ExitArgs
args = record {
  runs = (0, 3) ∷ (1, 4) ∷ (2, 0) ∷ (3, 0) ∷ (4, 0) ∷ [];
  env = env;
  workqueue = true;
  receiver = λ k. some 3;
  last_rounds = λ k. 1;
  log = record {
    profiling1 = true;
    profiling2 = true;
    online = env.online;
    in_cluster = λ i. ltb i 8;
    cpu_opens = λ i. true;
    gpu1_opens = true;
    gpu2_opens = true;
  };
  files = record { cpu_files = λ i. null_file; gpu_file1 = null_file; gpu_file2 = null_file };
}

over_run : slt32 (cluster busy cl1).cur_bandwidth_budget (last_usage cl1 busy) ≡ true
unfolding gpu_beats beats_to_events
over_run = refl

exit-throttles_example :
    let s' = (cl_mem_reg_exit args nothing busy).system in
    WillThrottle s' 1 × ((s'.core 1).hr_timer ≡ none)
exit-throttles_example =
    exit-throttles args nothing busy 1 3 0 cl1 refl refl over_run refl refl refl refl

exit-ends_example :
    let s' = (cl_mem_reg_exit args nothing busy).system in
    (s'.logging ≡ false)
    × (s'.module_unloading ≡ true)
    × (s'.work ≡ [])
    × ((s'.core 1).hr_timer ≡ none)
exit-ends_example = exit-ends args nothing busy 1 refl refl refl
