-- ===== src/Kernel/Tests.antt =====
-- Runs of the kernel module on concrete states, and the theorems at such states.
use cl_mem_regulation.Common.{
  ℕ, ◌+◌, ◌*◌, ◌/◌, ◌%◌, ◌≤◌, ◌<◌, ◌≡◌, update, ◌++◌, refl, arith, ltb, leb, Bool, true, false,
  none, some, [], ◌∷◌, replicate, u32, ◌==◌,
}
use cl_mem_regulation.Kernel.Units.{convert_mb_to_events}
use cl_mem_regulation.Kernel.Units.Bounds.{convert_mb_to_events_bounds}
use cl_mem_regulation.Kernel.State.{
  System, CoreInfo, ClusterInfo, PerfEvent, Gpu, Params, ClusterId, cl1, cl2, cluster_of_cpu,
  cluster, gpu, perf_event_count,
}
use cl_mem_regulation.Kernel.Throttle.{Env, throttle_core, on_each_cpu_mask, smp_call_function_many}
use cl_mem_regulation.Kernel.Throttle.Calls.{WillThrottle}
use cl_mem_regulation.Kernel.Timer.{
  Tick, timer_callback, timer_callback_master, aggregation_period_func, count_period,
  regulation_period_func, account_cpu, request_gpu_beats, log_cpu, check_budget,
  get_read_event_used,
}
use cl_mem_regulation.Kernel.Timer.Budget.{
  aggregation_enforces, aggregation_within, aggregation_no_memory, NoThrottle,
}
use cl_mem_regulation.Kernel.Timer.Usage.{tick_usage, TickUsage}
use cl_mem_regulation.Kernel.Timer.Counting.{MovesOn, tick_progress}
use cl_mem_regulation.Kernel.Timer.Rules.{callback-some}
use cl_mem_regulation.Kernel.Gpu.{
  UserCopy, WriteResult, Receiver, profiling_write, account_gpu, receive,
}
use cl_mem_regulation.Kernel.Gpu.Decode.{le_bytes, write-account}
use cl_mem_regulation.Kernel.Gpu.Receive.{Received, receive-again}
use cl_mem_regulation.Kernel.Steps.{Step, here, next}
use cl_mem_regulation.Kernel.Steps.Throttled.{
  IsThrottled, quiet, then_quiet, stays-IsThrottled, interval_one-stays-IsThrottled,
}
use cl_mem_regulation.Kernel.Steps.Rounds.{Rounds, start, own, Freed, Rounds-Freed}

abbrev fresh_event : PerfEvent
fresh_event = record { count = 0; child_count = 0; period_left = 0; running = true }

abbrev fresh_core : ℕ → CoreInfo
fresh_core i = record {
  cpu = i;
  cluster_info = cluster_of_cpu i;
  throttled_task = none;
  throttled_time = 0;
  read_event = fresh_event;
  wake_ups = 0;
  aggregation_period_cnt = 0;
  old_read_val = 0;
  hr_timer = none;
  profile_gpu_bandwidth = i == 3;
  start_time = 1000;
}

-- A cluster that may use ten events in a regulation period.
abbrev small_cluster : ClusterId → ℕ → ClusterInfo
small_cluster k leader = record {
  size = 4;
  regulation_period_cnt = 0;
  bandwidth_budget = 10;
  cur_bandwidth_budget = 10;
  bandwidth_usage = 0;
  throttled_time = 0;
  leader_core = leader;
  cpu_mask = λ i. in_cluster k i;
  is_throttled = false;
}
  where
    in_cluster : ClusterId → ℕ → Bool
    in_cluster cl1 i = ltb i 4
    in_cluster cl2 i = leb 4 i

abbrev idle_gpu : Gpu
idle_gpu = record {
  profiler_task = some 77;
  beats_memory = replicate 16 0;
  beats_ready = false;
  log_file = false;
}

abbrev pub boot : System
boot = record {
  core = fresh_core;
  cluster1 = small_cluster cl1 0;
  cluster2 = small_cluster cl2 4;
  gpu1 = idle_gpu;
  gpu2 = idle_gpu;
  count = 0;
  module_unloading = false;
  logging = false;
  cpu_log_file = λ _. false;
  calls = λ _. 0;
  signals = [];
  work = [];
  debug_cnt = 0;
}

abbrev params : Params
params = record {
  regulation_period_us = 300;
  aggregation_period_us = 100;
  manage_period_interval = 3;
}

abbrev pub env : Env
env = record { now = 5000; current = 9; online = 0 ∷ 1 ∷ 2 ∷ 3 ∷ 4 ∷ 5 ∷ 6 ∷ 7 ∷ [] }

abbrev busy : Tick
busy = record { events = 11; alive = true; kmalloc = true }

-- A tick and an aggregation period of these parameters, with all handlers open.
tick_of : Tick → ℕ → System → System
unfolding timer_callback count_period regulation_period_func aggregation_period_func account_cpu
    request_gpu_beats log_cpu check_budget on_each_cpu_mask throttle_core smp_call_function_many
    get_read_event_used perf_event_count convert_mb_to_events
tick_of = timer_callback params env

-- Eleven events on CPU 3, which the first tick leaves unread and the second adds to the usage: over
-- the budget, so CPU 3 is throttled, CPUs 0 to 2 are called, and the profiler is asked for beats.
over_budget :
    let s = tick_of busy 3 (tick_of busy 3 boot) in
    ((s.core 3).throttled_task ≡ some 9)
    × (s.calls 0 ≡ 1)
    × (s.calls 4 ≡ 0)
    × (s.cluster1.bandwidth_usage ≡ 22)
    × (s.signals ≡ 77 ∷ [])
unfolding tick_of
over_budget = (refl, refl, refl, refl, refl)

-- CPU 3 has eleven events that it has not read.
abbrev counted : System
counted = record boot {
  core =
      update fresh_core 3
        (record (fresh_core 3) { read_event = record fresh_event { count = 11 } });
}

aggregation_enforces_example : WillThrottle (aggregation_period_func env busy 3 counted) 1
unfolding tick_of
aggregation_enforces_example =
    aggregation_enforces env busy 3 counted 1 refl refl refl refl refl refl

abbrev calm : Tick
calm = record { events = 0; alive = true; kmalloc = true }

aggregation_within_example : NoThrottle boot (aggregation_period_func env calm 3 boot)
unfolding tick_of
aggregation_within_example = aggregation_within env calm 3 boot refl

abbrev logging : System
logging = record counted { logging = true; cpu_log_file = λ _. true }

abbrev short_of_memory : Tick
short_of_memory = record busy { kmalloc = false }

aggregation_no_memory_example :
    NoThrottle logging (aggregation_period_func env short_of_memory 3 logging)
aggregation_no_memory_example = aggregation_no_memory env short_of_memory 3 logging refl refl refl

-- The others are two periods in.
abbrev late_boot : System
late_boot = record boot { count = 2 }

tick_usage_example :
    (s' : System) × (timer_callback_master params env busy 3 late_boot ≡ some s')
    × TickUsage (s'.count % 3 == 1) 3 11 late_boot s'
unfolding tick_of
tick_usage_example = tick_usage params env busy 3 late_boot (λ e. cc) refl (omega arith)

tick_progress_example :
    (s' : System) × (timer_callback_master params env busy 3 boot ≡ some s')
    × MovesOn params 3 boot s'
tick_progress_example = tick_progress params env busy 3 boot (λ e. cc) (omega arith) (omega arith)

-- An interval of 0 has no meaning.
no_interval :
    timer_callback_master (record params { manage_period_interval = 0 }) env busy 3 boot ≡ none
unfolding timer_callback_master
no_interval = refl

-- CPU 3 throttled, and then CPU 0 ticks.
abbrev throttled_boot : System
throttled_boot = record boot {
  core = update fresh_core 3 (record (fresh_core 3) { throttled_task = some 9 });
}

stays-IsThrottled_example : IsThrottled 3 (timer_callback params env busy 0 throttled_boot)
unfolding tick_of
stays-IsThrottled_example =
    stays-IsThrottled {p = params} 3 {s = throttled_boot}
      (then_quiet quiet
        (Step.tick env busy 0 (callback-some params env busy 0 throttled_boot (λ e. cc)))
        (λ r. omega (arith, r.0)) (λ r. r))
      (λ e. cc e)

abbrev one_period : Params
one_period = record params { manage_period_interval = 1 }

interval_one-stays-IsThrottled_example :
    IsThrottled 3 (timer_callback one_period env busy 3 throttled_boot)
interval_one-stays-IsThrottled_example =
    interval_one-stays-IsThrottled {p = one_period} 3 refl
      (next here
        (Step.tick env busy 3 (callback-some one_period env busy 3 throttled_boot (λ e. cc)))
        (λ r. r))
      (λ e. cc e)

-- Three ticks of CPU 3: as many as the interval has periods.
abbrev after : System → System
after s = timer_callback params env busy 3 s

ticked : (s : System) → timer_callback_master params env busy 3 s ≡ some (after s)
ticked s = callback-some params env busy 3 s (λ e. cc)

abbrev three_rounds : Rounds params 3 throttled_boot 3 (after (after (after throttled_boot)))
unfolding tick_of
three_rounds =
    own env busy
      (own env busy
        (own env busy start (omega arith) (omega arith) (omega arith) (ticked throttled_boot))
        (omega arith) (omega arith) (omega arith) (ticked (after throttled_boot)))
      (omega arith) (omega arith) (omega arith) (ticked (after (after throttled_boot)))

Rounds-Freed_example : Freed three_rounds
unfolding tick_of
Rounds-Freed_example = Rounds-Freed 3 three_rounds (omega arith) (omega arith)

write-account_example :
    let (r, s1) = profiling_write cl1 8 (UserCopy.copied (le_bytes 40 ++ le_bytes 60)) boot in
    let s2 = account_gpu cl1 s1 in
    (r ≡ WriteResult.written 8)
    × ((gpu s1 cl1).beats_ready ≡ true)
    × ((cluster s2 cl1).bandwidth_usage ≡ u32 (0 + (40 + 60) / 4))
write-account_example = write-account cl1 40 60 boot (omega arith)

receive-again_example :
    (s' : System) × (receive env true cl1 3 boot ≡ Receiver.again s') × Received env cl1 boot s'
receive-again_example = receive-again env true cl1 3 boot refl

convert_mb_to_events_bounds_example :
    (convert_mb_to_events 5300 7500 * (64 * (1000000 / 5300)) ≤ 7500 * 1048576)
    × (7500 * 1048576 < (convert_mb_to_events 5300 7500 + 1) * (64 * (1000000 / 5300)))
convert_mb_to_events_bounds_example =
    convert_mb_to_events_bounds 5300 7500 (omega arith) (omega arith) (omega arith)
