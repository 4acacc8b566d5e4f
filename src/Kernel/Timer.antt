-- ===== src/Kernel/Timer.antt =====
-- The timer of a core (cl_mem_reg.c): `timer_callback_master` and the work of the two periods.
pub mod Rules
pub mod Same
pub mod Counting
pub mod Budget
pub mod Usage
use cl_mem_regulation.Common.{
  ℕ, ◌+◌, ◌*◌, ◌%◌, ltb, ◌==◌, if◌then◌else◌, Bool, true, false, not, ◌&&◌, none, some, Option, ◌∷◌,
  u32, u64, sub64, slt32, sext64, abs32, is_some,
}
use cl_mem_regulation.Kernel.Units.{convert_mb_to_events}
use cl_mem_regulation.Kernel.State.{
  System, CoreInfo, ClusterInfo, PerfEvent, Params, Gpu, LogLine, ClusterId, cluster, put_cluster,
  gpu, put_core, cluster_of_cpu, perf_event_count,
}
use cl_mem_regulation.Kernel.Throttle.{Env, throttle_core, on_each_cpu_mask}

-- What a tick meets: the events that the counter has counted since it was last read, whether the
-- profiler is alive, and whether `kmalloc` gives memory for a log line.
pub record Tick : Type 0 where
  pub events : ℕ
  pub alive : Bool
  pub kmalloc : Bool

abbrev pub default_rd_budget_mb : ℕ
default_rd_budget_mb = 204800

-- `pmu->stop(event, PERF_EF_UPDATE)` adds what was counted to `count`.
unfoldable pub pmu_stop : ℕ → PerfEvent → PerfEvent
pmu_stop events e = record e { count = u64 (e.count + events); running = false }

unfoldable pub pmu_start : PerfEvent → PerfEvent
pmu_start e = record e { running = true }

unfoldable pub get_read_event_used : CoreInfo → ℕ
unfolding perf_event_count
get_read_event_used c = sub64 (perf_event_count c.read_event) c.old_read_val

unfoldable pub timer_callback_slave : Params → CoreInfo → CoreInfo
timer_callback_slave p c =
    let e = c.read_event in
    record c {
      read_event = record e {
        period_left = convert_mb_to_events p.regulation_period_us default_rd_budget_mb;
      };
    }

unfoldable pub regulation_period_func : ℕ → System → System
regulation_period_func cpu s =
    let c = s.core cpu in
    let k = record (cluster s c.cluster_info) { is_throttled = false } in
    let s' = put_core s cpu (record c { throttled_task = none }) in
    put_cluster s' c.cluster_info (
      if c.cpu == k.leader_core
      then record k {
        bandwidth_usage = 0;
        regulation_period_cnt = u64 (k.regulation_period_cnt + 1);
      }
      else k)

-- The events of the core since its last reading go to the cluster's usage, an `int`.
unfoldable pub account_cpu : ℕ → System → System
unfolding get_read_event_used
account_cpu cpu s =
    let c = s.core cpu in
    let used = get_read_event_used c in
    let k = cluster s c.cluster_info in
    put_cluster (put_core s cpu (record c { old_read_val = u64 (c.old_read_val + used) }))
      c.cluster_info (record k { bandwidth_usage = u32 (k.bandwidth_usage + used) })

unfoldable pub request_gpu_beats : Tick → ℕ → System → System
request_gpu_beats t cpu s =
    let c = s.core cpu in
    let asked : System = elim (gpu s (cluster_of_cpu c.cpu)).profiler_task [
      | none ↦ s
      | some task ↦ if t.alive then record s { signals = task ∷ s.signals } else s
    ] in
    if c.profile_gpu_bandwidth then asked else s

-- `none` when there is no memory for the log line: the handler returns at once.
unfoldable pub log_cpu : Tick → ℕ → ℕ → System → Option System
log_cpu t used cpu s =
    let c = s.core cpu in
    let k = cluster s c.cluster_info in
    let line = LogLine.cpu_line c.cpu k.regulation_period_cnt used k.is_throttled in
    if s.logging && s.cpu_log_file c.cpu
    then (if t.kmalloc then some (record s { work = line ∷ s.work }) else none)
    else some s

unfoldable pub check_budget : Env → ℕ → System → System
check_budget env cpu s =
    let c = s.core cpu in
    let k = cluster s c.cluster_info in
    let marked =
      if c.cpu == k.leader_core
      then put_cluster s c.cluster_info (record k { is_throttled = true })
      else s in
    let checked =
      if slt32 k.cur_bandwidth_budget k.bandwidth_usage
      then on_each_cpu_mask env k.cpu_mask cpu marked
      else s in
    if is_some c.throttled_task then s else record checked { debug_cnt = u32 (s.debug_cnt + 1) }

unfoldable pub aggregation_period_func : Env → Tick → ℕ → System → System
aggregation_period_func env t cpu s =
    let used = get_read_event_used (s.core cpu) in
    let profiled = request_gpu_beats t cpu (account_cpu cpu s) in
    if s.module_unloading then s else elim (log_cpu t used cpu profiled) [
      | none ↦ profiled
      | some logged ↦ check_budget env cpu logged
    ]

-- The part of the callback before the choice between the two periods, for the core's own data.
-- `hrtimer_start` arms the timer for the next aggregation period.
unfoldable pub count_core : Params → Tick → ℕ → CoreInfo → CoreInfo
unfolding pmu_stop pmu_start timer_callback_slave
count_core p t count c =
    let next_time = u64 (c.start_time + count * sext64 p.aggregation_period_us * 1000) in
    let c' = timer_callback_slave p (record c {
      read_event = pmu_stop t.events c.read_event;
      aggregation_period_cnt = count;
      hr_timer = some next_time;
    }) in
    record c' { read_event = pmu_start c'.read_event }

-- `atomic64_cmpxchg` moves the shared count on only if it is the core's own.
unfoldable pub count_period : Params → Tick → ℕ → System → System
unfolding count_core
count_period p t cpu s =
    let c = s.core cpu in
    let count = if s.count == c.aggregation_period_cnt then u64 (s.count + 1) else s.count in
    put_core (record s { count = count }) cpu (count_core p t count c)

-- The callback, for an interval that is not 0.
unfoldable pub timer_callback : Params → Env → Tick → ℕ → System → System
timer_callback p env t cpu s =
    let s' = count_period p t cpu s in
    if s'.count % abs32 p.manage_period_interval == 1
    then regulation_period_func cpu s'
    else aggregation_period_func env t cpu s'

-- The remainder by an interval of 0 has no meaning.
unfoldable pub timer_callback_master : Params → Env → Tick → ℕ → System → Option System
timer_callback_master p env t cpu s =
    if abs32 p.manage_period_interval == 0 then none else some (timer_callback p env t cpu s)
