-- ===== src/Kernel/Cores.antt =====
-- The second half of `cl_mem_reg_init` (cl_mem_reg.c): the clusters, the cores with their counters and
-- threads, and what `__start_counter` finds when it is called at the end.
pub mod Ready
mod Tests
use cl_mem_regulation.Common.{
  ℕ, ◌+◌, ◌-◌, ◌*◌, ◌==◌, ltb, leb, if◌then◌else◌, Bool, true, false, ◌&&◌, ◌||◌, not, Option, none,
  some, is_some, ◌>>=◌, List, [], ◌∷◌, update, u32, u64, sext64, two32, minus_one32,
}
use cl_mem_regulation.Kernel.State.{
  CoreInfo, ClusterInfo, ClusterId, cl1, cl2, PerfEvent, Params, Gpu, System, cluster_of_cpu,
}
use cl_mem_regulation.Kernel.Units.{convert_mb_to_events}
use cl_mem_regulation.Kernel.Start.{Boot, ktime_max}

-- The module's parameters that the set-up reads, as patterns of `int`s, and the flags that the checks
-- of the cores have set.
pub record Args : Type 0 where
  pub regulation_period_us : ℕ
  pub bandwidth_budget_cl1 : ℕ
  pub bandwidth_budget_cl2 : ℕ
  pub profiling_cl1 : Bool
  pub profiling_cl2 : Bool
  pub profiling_core_cl1 : ℕ
  pub profiling_core_cl2 : ℕ
  pub read_counter_id : ℕ
  pub logging : Bool

-- `struct perf_event_attr`, in the fields that the module sets; `exclude` stands for its seven `exclude_*`
-- flags, of which none is set.
pub record PerfEventAttr : Type 0 where
  pub type_ : ℕ
  pub pinned : Bool
  pub disabled : Bool
  pub config : ℕ
  pub sample_period : ℕ
  pub exclude : Bool

-- What `perf_event_create_kernel_counter` returns: null, an error pointer, or an event.
pub data Created : Type 0 where
  no_event : Created
  error_event : (errno : ℕ) → Created
  event : PerfEvent → Created

abbrev perf_type_raw : ℕ
perf_type_raw = 4

abbrev pub counter_attr : (budget counter_id : ℕ) → PerfEventAttr
counter_attr budget counter_id = record {
  type_ = perf_type_raw;
  pinned = true;
  disabled = true;
  config = sext64 counter_id;
  sample_period = sext64 budget;
  exclude = false;
}

-- An error differs from null in its message alone.
unfoldable pub init_counter :
    (create : PerfEventAttr → (cpu : ℕ) → Created) → (cpu budget counter_id : ℕ) → Option PerfEvent
init_counter create cpu budget counter_id = elim (create (counter_attr budget counter_id) cpu) [
  | no_event ↦ none
  | error_event errno ↦ none
  | event e ↦ some e
]

abbrev pub int_max : ℕ
int_max = 0x7fff_ffff

-- What the kernel's calls do for a CPU: how they make its counter, and whether the threads of throttling and
-- of the receiver are made.
pub record CpuCalls : Type 0 where
  pub create : PerfEventAttr → (cpu : ℕ) → Created
  pub throttle_thread : Bool
  pub receiver_thread : Bool

-- The cluster of the four CPUs from `first` on.
unfoldable pub init_cluster : (regulation_period_us budget : ℕ) → (first : ℕ) → ClusterInfo
unfolding convert_mb_to_events
init_cluster period_us budget first =
    let events = u32 (convert_mb_to_events period_us budget) in
    record {
      size = 4;
      regulation_period_cnt = 0;
      bandwidth_budget = events;
      cur_bandwidth_budget = events;
      bandwidth_usage = 0;
      throttled_time = 0;
      leader_core = minus_one32;
      cpu_mask = λ i. leb first i && ltb i (first + 4);
      is_throttled = false;
    }

-- The cluster whose receiver thread the CPU gets: one at most, where both clusters name it.
unfoldable pub receiver_of : Args → ℕ → Option ClusterId
receiver_of a i =
    if i == a.profiling_core_cl1 && a.profiling_cl1
    then some cl1
    else if i == a.profiling_core_cl2 && a.profiling_cl2
    then some cl2
    else none

-- `perf_event_enable` starts the counter.
abbrev enable : PerfEvent → PerfEvent
enable e = record e { running = true }

-- The body of the loop over the online CPUs. A CPU whose counter is missing, whose thread is an error,
-- or that is of neither cluster, so that its `cluster_info` stays null for `__start_counter`, has none.
unfoldable pub init_core : Args → ℕ → CpuCalls → Option CoreInfo
unfolding receiver_of init_counter
init_core a i calls =
    let made : Option CoreInfo = elim (init_counter calls.create i int_max a.read_counter_id) [
      | none ↦ none
      | some e ↦ some (record {
        cpu = i;
        cluster_info = cluster_of_cpu i;
        throttled_task = none;
        throttled_time = 0;
        read_event = enable e;
        wake_ups = 0;
        aggregation_period_cnt = 0;
        old_read_val = 0;
        hr_timer = none;
        profile_gpu_bandwidth = is_some (receiver_of a i);
        start_time = 0;
      })
    ] in
    if ltb i 8
      && calls.throttle_thread
      && (calls.receiver_thread || not (is_some (receiver_of a i)))
    then made
    else none

unfoldable pub init_cores :
    Args → (ℕ → CpuCalls) → (online : List ℕ) → (ℕ → CoreInfo) → Option (ℕ → CoreInfo)
unfolding init_core
init_cores a calls [] core = some core
init_cores a calls (i ∷ online) core = do
  c ← init_core a i (calls i)
  init_cores a calls online (update core i c)

-- The system at the call of `__start_counter`, where `ktime_get` returned `now`: the cores that the loop
-- has set up, and the globals at what they are when the module is loaded. The GPUs are those of the
-- set-up of the devices, and `files` tells the log files.
unfoldable pub booted :
    Args → (core : ℕ → CoreInfo) → (gpu1 gpu2 : Gpu) → (files : ℕ → Bool) → (now : ℕ) → Boot
unfolding init_cluster
booted a core gpu1 gpu2 files now = record {
  system = record {
    core = core;
    cluster1 = init_cluster a.regulation_period_us a.bandwidth_budget_cl1 0;
    cluster2 = init_cluster a.regulation_period_us a.bandwidth_budget_cl2 4;
    gpu1 = gpu1;
    gpu2 = gpu2;
    count = 0;
    module_unloading = false;
    logging = a.logging;
    cpu_log_file = files;
    calls = λ i. 0;
    signals = [];
    work = [];
    debug_cnt = 0;
  };
  hrtimer_start = λ i. ktime_max;
  leader_cl1 = ktime_max;
  leader_cl2 = ktime_max;
  start_time = now + 1000000000;
}

-- `memory` is what `alloc_percpu` gives. The work queue is made for the log files alone, and without it the
-- set-up fails.
unfoldable pub init_boot :
    Args
    → (ℕ → CpuCalls)
    → (online : List ℕ) → (memory : ℕ → CoreInfo) → (gpu1 gpu2 : Gpu) → (files : ℕ → Bool)
    → (workqueue : Bool) → (now : ℕ) → Option Boot
unfolding init_cores booted
init_boot a calls online memory gpu1 gpu2 files workqueue now = do
  core ← init_cores a calls online memory
  if a.logging && not workqueue then none else some (booted a core gpu1 gpu2 files now)
