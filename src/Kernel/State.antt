-- ===== src/Kernel/State.antt =====
-- The state of the kernel module (cl_mem_reg.c): `struct core_info`, `struct cluster_info`,
-- `struct global_info` and the globals that the handlers share.
use cl_mem_regulation.Common.{ℕ, ◌+◌, ltb, if◌then◌else◌, Bool, Option, List, update, u64}

-- The two clusters that `cluster_info` may point at.
pub data ClusterId : Type 0 where
  cl1 cl2 : ClusterId

-- What the module reads and writes of `struct perf_event`.
pub record PerfEvent : Type 0 where
  pub count : ℕ
  pub child_count : ℕ
  pub period_left : ℕ
  pub running : Bool

-- A task is its pid. `hr_timer` is the time at which it fires next, and `wake_ups` counts the calls
-- of `wake_up_interruptible` on `throttle_evt`.
pub record CoreInfo : Type 0 where
  pub cpu : ℕ
  pub cluster_info : ClusterId
  pub throttled_task : Option ℕ
  pub throttled_time : ℕ
  pub read_event : PerfEvent
  pub wake_ups : ℕ
  pub aggregation_period_cnt : ℕ
  pub old_read_val : ℕ
  pub hr_timer : Option ℕ
  pub profile_gpu_bandwidth : Bool
  pub start_time : ℕ

-- Every `int` is its pattern of 32 bits.
pub record ClusterInfo : Type 0 where
  pub size : ℕ
  pub regulation_period_cnt : ℕ
  pub bandwidth_budget : ℕ
  pub cur_bandwidth_budget : ℕ
  pub bandwidth_usage : ℕ
  pub throttled_time : ℕ
  pub leader_core : ℕ
  pub cpu_mask : ℕ → Bool
  pub is_throttled : Bool

-- The GPU of a cluster: its profiler, and the memory that the profiler writes (16 bytes).
pub record Gpu : Type 0 where
  pub profiler_task : Option ℕ
  pub beats_memory : List ℕ
  pub beats_ready : Bool
  pub log_file : Bool

-- A line of the log: a CPU's (period, usage, throttled), or a GPU's with its beats.
pub data LogLine : Type 0 where
  cpu_line : (cpu period usage : ℕ) → Bool → LogLine
  gpu_line : ClusterId → (period usage rd wr : ℕ) → Bool → LogLine

-- The module parameters; `manage_period_interval` is derived from two of them.
pub record Params : Type 0 where
  pub regulation_period_us : ℕ
  pub aggregation_period_us : ℕ
  pub manage_period_interval : ℕ

-- The memory that the handlers share. `calls` counts the cross calls of `__throttle_core` that a
-- CPU has been sent and has not run, `signals` lists the tasks that SIGUSR1 was sent to, newest
-- first, and `work` the queued log lines, newest first.
pub record System : Type 0 where
  pub core : ℕ → CoreInfo
  pub cluster1 : ClusterInfo
  pub cluster2 : ClusterInfo
  pub gpu1 : Gpu
  pub gpu2 : Gpu
  pub count : ℕ
  pub module_unloading : Bool
  pub logging : Bool
  pub cpu_log_file : ℕ → Bool
  pub calls : ℕ → ℕ
  pub signals : List ℕ
  pub work : List LogLine
  pub debug_cnt : ℕ

abbrev pub cluster : System → ClusterId → ClusterInfo
cluster s ClusterId.cl1 = s.cluster1
cluster s ClusterId.cl2 = s.cluster2

abbrev pub put_cluster : System → ClusterId → ClusterInfo → System
put_cluster s ClusterId.cl1 c = record s { cluster1 = c }
put_cluster s ClusterId.cl2 c = record s { cluster2 = c }

abbrev pub gpu : System → ClusterId → Gpu
gpu s ClusterId.cl1 = s.gpu1
gpu s ClusterId.cl2 = s.gpu2

abbrev pub put_gpu : System → ClusterId → Gpu → System
put_gpu s ClusterId.cl1 g = record s { gpu1 = g }
put_gpu s ClusterId.cl2 g = record s { gpu2 = g }

abbrev pub put_core : System → ℕ → CoreInfo → System
put_core s cpu c = record s { core = update s.core cpu c }

-- CPUs 0 to 3 are cluster 1's, the others cluster 2's.
abbrev pub cluster_of_cpu : ℕ → ClusterId
cluster_of_cpu cpu = if ltb cpu 4 then ClusterId.cl1 else ClusterId.cl2

-- `perf_event_count`
unfoldable pub perf_event_count : PerfEvent → ℕ
perf_event_count e = u64 (e.count + e.child_count)
