-- ===== src/Kernel/Start.antt =====
-- Starting and stopping a core (cl_mem_reg.c): `__start_counter` with the election of the leaders,
-- and `__stop_counter`. Both run on every online CPU, one whole run after the other here.
pub mod Leader
pub mod All
pub mod Quiet
mod Tests
use cl_mem_regulation.Common.{
  ℕ, ◌+◌, ◌-◌, ltb, if◌then◌else◌, Bool, true, false, none, some, List, [], ◌∷◌, update, u64, two64,
}
use cl_mem_regulation.Kernel.State.{
  System, ClusterId, cl1, cl2, cluster, put_cluster, put_core, cluster_of_cpu,
}
use cl_mem_regulation.Kernel.Timer.{pmu_stop}

abbrev pub ktime_max : ℕ
ktime_max = 0x7fff_ffff_ffff_ffff

-- The system, with `g_hrtimer_start`, the two `g_leader_hrtimer_start` and the start time that
-- `struct global_info` has. Times are not negative.
pub record Boot : Type 0 where
  pub system : System
  pub hrtimer_start : ℕ → ℕ
  pub leader_cl1 : ℕ
  pub leader_cl2 : ℕ
  pub start_time : ℕ

abbrev pub leader_start : Boot → ClusterId → ℕ
leader_start b cl1 = b.leader_cl1
leader_start b cl2 = b.leader_cl2

abbrev put_leader_start : Boot → ClusterId → ℕ → Boot
put_leader_start b cl1 t = record b { leader_cl1 = t }
put_leader_start b cl2 t = record b { leader_cl2 = t }

-- From `min_cpu` to `max_cpu`.
abbrev pub cpus_of : ClusterId → List ℕ
cpus_of cl1 = 0 ∷ 1 ∷ 2 ∷ 3 ∷ []
cpus_of cl2 = 4 ∷ 5 ∷ 6 ∷ 7 ∷ []

-- The loop of the election, on the leader's start time and the leader.
unfoldable pub elect : (ℕ → ℕ) → List ℕ → ℕ × ℕ → ℕ × ℕ
elect start [] leader = leader
elect start (cpu ∷ cpus) leader =
    elect start cpus (if ltb (start cpu) leader.0 then (start cpu, cpu) else leader)

-- `__start_counter` on `cpu`, where `ktime_get` returns `now`.
unfoldable pub start_counter : (now : ℕ) → ℕ → Boot → Boot
unfolding elect
start_counter now cpu b =
    let s = b.system in
    let c = record (s.core cpu) { start_time = b.start_time } in
    let k = cluster_of_cpu cpu in
    let start = update b.hrtimer_start cpu now in
    let leader =
      if (cluster s k).cpu_mask c.cpu
      then elect start (cpus_of k) (leader_start b k, (cluster s k).leader_core)
      else (leader_start b k, (cluster s k).leader_core) in
    let started = put_cluster s k (record (cluster s k) { leader_core = leader.1 }) in
    let c' = record c {
      hr_timer = some b.start_time;
      aggregation_period_cnt = 0;
      throttled_task = none;
    } in
    if (cluster s c.cluster_info).cpu_mask cpu
    then put_leader_start (record b { system = put_core started cpu c'; hrtimer_start = start }) k
        leader.0
    else record b {
      system = put_core s cpu c;
      hrtimer_start = update b.hrtimer_start cpu ktime_max;
    }

-- `__stop_counter` on `cpu`: the counter has counted `events` more; -1 is the count of a stopped core.
unfoldable pub stop_counter : (events : ℕ) → ℕ → System → System
unfolding pmu_stop
stop_counter events cpu s =
    let c = s.core cpu in
    if (cluster s c.cluster_info).cpu_mask c.cpu
    then put_core s cpu (record c {
      throttled_task = none;
      aggregation_period_cnt = two64 - 1;
      read_event = pmu_stop events c.read_event;
      hr_timer = none;
    })
    else s

-- `on_each_cpu(__start_counter)`: the CPUs and their times, in the order of the runs.
unfoldable pub start_all : List (ℕ × ℕ) → Boot → Boot
unfolding start_counter
start_all [] b = b
start_all (run ∷ runs) b = start_all runs (start_counter run.1 run.0 b)

-- `on_each_cpu(__stop_counter)`: the CPUs and what their counters have counted.
unfoldable pub stop_all : List (ℕ × ℕ) → System → System
unfolding stop_counter
stop_all [] s = s
stop_all (run ∷ runs) s = stop_all runs (stop_counter run.1 run.0 s)

-- The first part of `cl_mem_reg_exit`: logging ends, the module unloads, the cores stop.
unfoldable pub begin_exit : List (ℕ × ℕ) → System → System
unfolding stop_all
begin_exit runs s = stop_all runs (record s { logging = false; module_unloading = true })
