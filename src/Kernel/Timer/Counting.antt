-- ===== src/Kernel/Timer/Counting.antt =====
-- How a tick counts the aggregation periods, and when the timer fires next.
use cl_mem_regulation.Common.{
  ℕ, ◌+◌, ◌*◌, ◌≤◌, ◌<◌, ◌≡◌, ◌≢◌, abs32, refl, ◌∙◌, arith, Bool, some, u64, sext64, two64,
}
use cl_mem_regulation.Kernel.State.{System, Params, ClusterId, ClusterInfo, put_cluster}
use cl_mem_regulation.Kernel.Throttle.{Env, throttle_core, on_each_cpu_mask}
use cl_mem_regulation.Kernel.Timer.{
  Tick, count_period, timer_callback, timer_callback_master, regulation_period_func,
  aggregation_period_func, account_cpu, request_gpu_beats, log_cpu, check_budget,
  get_read_event_used,
}
use cl_mem_regulation.Kernel.Timer.Rules.{
  profiled, check_budget_rule, aggregation_rule, timer_rule, callback-some,
}

-- What the work of a period leaves alone: the shared count, and the clock of each core.
pub record SameClock (s s' : System) : Type 0 where
  pub count : s'.count ≡ s.count
  pub cores :
      (i : ℕ)
      → ((s'.core i).aggregation_period_cnt ≡ (s.core i).aggregation_period_cnt)
        × ((s'.core i).hr_timer ≡ (s.core i).hr_timer)
        × ((s'.core i).cluster_info ≡ (s.core i).cluster_info)
        × ((s'.core i).start_time ≡ (s.core i).start_time)

SameClock-refl : (s : System) → SameClock s s
SameClock-refl s = record { count = refl; cores = λ i. (refl, refl, refl, refl) }

SameClock-trans : {s t u : System} → SameClock s t → SameClock t u → SameClock s u
SameClock-trans a b = record {
  count = b.count ∙ a.count;
  cores = λ i. ground (arith, a.cores i, b.cores i);
}

regulation-SameClock : (cpu : ℕ) (s : System) → SameClock s (regulation_period_func cpu s)
unfolding regulation_period_func
regulation-SameClock cpu s = record { count = ground arith; cores = λ i. ground arith }

account_cpu-SameClock : (cpu : ℕ) (s : System) → SameClock s (account_cpu cpu s)
unfolding account_cpu
account_cpu-SameClock cpu s = record { count = ground arith; cores = λ i. ground arith }

request-SameClock : (t : Tick) (cpu : ℕ) (s : System) → SameClock s (request_gpu_beats t cpu s)
unfolding request_gpu_beats
request-SameClock t cpu s = record { count = ground arith; cores = λ i. ground arith }

log_cpu-SameClock :
    (t : Tick) (used cpu : ℕ) (s : System) {s' : System}
    → log_cpu t used cpu s ≡ some s'
    → SameClock s s'
unfolding log_cpu
log_cpu-SameClock t used cpu s e = record { count = ground arith; cores = λ i. ground arith }

put_cluster-SameClock :
    (s : System) (k : ClusterId) (c : ClusterInfo) → SameClock s (put_cluster s k c)
put_cluster-SameClock s k c = record { count = ground arith; cores = λ i. ground arith }

on_each_cpu_mask-SameClock :
    (env : Env) (mask : ℕ → Bool) (cpu : ℕ) (s : System)
    → SameClock s (on_each_cpu_mask env mask cpu s)
unfolding on_each_cpu_mask throttle_core
on_each_cpu_mask-SameClock env mask cpu s = record {
  count = ground arith;
  cores = λ i. ground arith;
}

check_budget-SameClock : (env : Env) (cpu : ℕ) (s : System) → SameClock s (check_budget env cpu s)
check_budget-SameClock env cpu s =
    check_budget_rule (SameClock s) env cpu s (SameClock-refl s) (put_cluster-SameClock s _ _)
      (λ mask s' same. SameClock-trans same (on_each_cpu_mask-SameClock env mask cpu s'))
      (λ n s' same. record { count = same.count; cores = same.cores })

aggregation-SameClock :
    (env : Env) (t : Tick) (cpu : ℕ) (s : System)
    → SameClock s (aggregation_period_func env t cpu s)
unfolding aggregation_period_func
aggregation-SameClock env t cpu s =
    aggregation_rule (SameClock s) env t cpu s (λ _. SameClock-refl s) (λ _ _. kept)
      λ s' _ f. SameClock-trans kept (
        SameClock-trans (log_cpu-SameClock t (get_read_event_used (s.core cpu)) cpu _ f)
          (check_budget-SameClock env cpu s'))
  where
    kept : SameClock s (profiled t cpu s)
    kept =
        SameClock-trans (account_cpu-SameClock cpu s) (request-SameClock t cpu (account_cpu cpu s))

pub timer-SameClock :
    (p : Params) (env : Env) (t : Tick) (cpu : ℕ) (s : System)
    → SameClock (count_period p t cpu s) (timer_callback p env t cpu s)
timer-SameClock p env t cpu s =
    timer_rule (SameClock (count_period p t cpu s)) env t cpu p s
      (λ _. regulation-SameClock cpu (count_period p t cpu s))
      (λ _. aggregation-SameClock env t cpu (count_period p t cpu s))

-- What `count_period` itself does to the clocks.
count_period_lem :
    (p : Params) (t : Tick) (cpu : ℕ) (s : System)
    → s.count + 1 < two64
    → (s.core cpu).aggregation_period_cnt ≤ s.count
    → let s' = count_period p t cpu s in
      let c = s'.core cpu in
      ((s.core cpu).aggregation_period_cnt < c.aggregation_period_cnt)
      × (c.aggregation_period_cnt ≡ s'.count)
      × (s.count ≤ s'.count)
      × (s'.count ≤ s.count + 1)
      × (c.hr_timer ≡ some (u64 (c.start_time + s'.count * sext64 p.aggregation_period_us * 1000)))
unfolding count_period
count_period_lem p t cpu s small behind = ground arith

-- The progress of core `cpu` from `s` to `s'`: the core takes over the shared count, which goes up by at
-- most one, and its timer fires next when that many aggregation periods have passed since the start.
abbrev pub MovesOn : Params → ℕ → System → System → Type 0
MovesOn p cpu s s' =
    let c = s'.core cpu in
    ((s.core cpu).aggregation_period_cnt < c.aggregation_period_cnt)
    × (c.aggregation_period_cnt ≡ s'.count)
    × (s.count ≤ s'.count)
    × (s'.count ≤ s.count + 1)
    × (c.hr_timer ≡ some (u64 (c.start_time + s'.count * sext64 p.aggregation_period_us * 1000)))

pub callback-MovesOn :
    (p : Params) (env : Env) (t : Tick) (cpu : ℕ) (s : System)
    → s.count + 1 < two64
    → (s.core cpu).aggregation_period_cnt ≤ s.count
    → MovesOn p cpu s (timer_callback p env t cpu s)
callback-MovesOn p env t cpu s small behind = ground (
  arith,
  count_period_lem p t cpu s small behind,
  (timer-SameClock p env t cpu s).count,
  (timer-SameClock p env t cpu s).cores cpu,
)

-- When the interval is not 0, the shared count is below its last value and not behind the core's own, a tick
-- ends: the core moves on to the shared count, which goes up by at most one, and its timer fires next when
-- that many aggregation periods have passed since the start.
pub tick_progress :
    (p : Params) (env : Env) (t : Tick) (cpu : ℕ) (s : System)
    → abs32 p.manage_period_interval ≢ 0
    → s.count + 1 < two64
    → (s.core cpu).aggregation_period_cnt ≤ s.count
    → (s' : System) × (timer_callback_master p env t cpu s ≡ some s') × MovesOn p cpu s s'
tick_progress p env t cpu s ne small behind = (
  timer_callback p env t cpu s,
  callback-some p env t cpu s ne,
  callback-MovesOn p env t cpu s small behind,
)
