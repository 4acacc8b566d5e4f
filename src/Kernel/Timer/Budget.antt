-- ===== src/Kernel/Timer/Budget.antt =====
-- What the budget check at the end of an aggregation period does.
use cl_mem_regulation.Common.{
  ℕ, ◌≡◌, ◌≢◌, refl, ap, ◌∙◌, arith, ◌==◌, if◌then◌else◌, true, false, none, some, mem, slt32,
}
use cl_mem_regulation.Kernel.State.{System, ClusterId, cluster, put_cluster}
use cl_mem_regulation.Kernel.Throttle.{Env}
use cl_mem_regulation.Kernel.Timer.{Tick, aggregation_period_func, log_cpu, check_budget}
use cl_mem_regulation.Kernel.Throttle.Calls.{WillThrottle, on_each_cpu_mask-WillThrottle}
use cl_mem_regulation.Kernel.Timer.Usage.{check_budget-SameUsage}
use cl_mem_regulation.Kernel.Timer.Same.{SameThrottle, profiled-SameThrottle, logged-SameThrottle}
use cl_mem_regulation.Kernel.Timer.Rules.{profiled, aggregation_rule}

-- The check itself, over and within the budget.
check_budget-over :
    (env : Env) (cpu : ℕ) (s : System) (i : ℕ)
    → let k = cluster s (s.core cpu).cluster_info in
      slt32 k.cur_bandwidth_budget k.bandwidth_usage ≡ true
      → (s.core cpu).throttled_task ≡ none
      → k.cpu_mask i ≡ true
      → mem i env.online ≡ true
      → WillThrottle (check_budget env cpu s) i
unfolding check_budget
check_budget-over env cpu s i over free m on =
    let k = cluster s (s.core cpu).cluster_info in
    let marked =
      if (s.core cpu).cpu == k.leader_core
      then put_cluster s (s.core cpu).cluster_info (record k { is_throttled = true })
      else s in
    ground (arith, on_each_cpu_mask-WillThrottle env k.cpu_mask cpu marked i on m)

check_budget-within :
    (env : Env) (cpu : ℕ) (s : System) (i : ℕ)
    → let k = cluster s (s.core cpu).cluster_info in
      slt32 k.cur_bandwidth_budget k.bandwidth_usage ≡ false
      → ((check_budget env cpu s).calls i ≡ s.calls i)
        × (((check_budget env cpu s).core i).throttled_task ≡ (s.core i).throttled_task)
unfolding check_budget
check_budget-within env cpu s i within = ground arith

log_cpu-ne-none :
    (t : Tick) (used cpu : ℕ) (s : System) → t.kmalloc ≡ true → log_cpu t used cpu s ≢ none
unfolding log_cpu
log_cpu-ne-none t used cpu s memory = ground arith

-- When the core was not throttled yet, the module is not unloading, and there is memory for a log line, an
-- aggregation period that ends with the usage of its cluster over the budget leaves every online CPU of the
-- cluster's mask throttled, or with a call still to take that throttles it.
pub aggregation_enforces :
    (env : Env) (t : Tick) (cpu : ℕ) (s : System) (i : ℕ)
    → s.module_unloading ≡ false
    → t.kmalloc ≡ true
    → (s.core cpu).throttled_task ≡ none
    → let s' = aggregation_period_func env t cpu s in
      let k = (s.core cpu).cluster_info in
      slt32 (cluster s k).cur_bandwidth_budget (cluster s' k).bandwidth_usage ≡ true
      → (cluster s k).cpu_mask i ≡ true
      → mem i env.online ≡ true
      → WillThrottle s' i
aggregation_enforces env t cpu s i loaded memory free over m on =
    aggregation_rule (λ s'. Over s' → WillThrottle s' i) env t cpu s (λ e. cc)
      (λ _ f _. absurd (log_cpu-ne-none t _ cpu (profiled t cpu s) memory f))
      (λ s' _ f o. logged s' (logged-SameThrottle t cpu s f) o) over
  where
    k : ClusterId
    k = (s.core cpu).cluster_info

    Over : System → Type 0
    Over s' = slt32 (cluster s k).cur_bandwidth_budget (cluster s' k).bandwidth_usage ≡ true

    logged :
        (s' : System)
        → SameThrottle s s'
        → Over (check_budget env cpu s')
        → WillThrottle (check_budget env cpu s') i
    logged s' same o =
        check_budget-over env cpu s' i
          (ground (
            arith,
            same.cores cpu,
            (same.clusters k).0,
            (check_budget-SameUsage env cpu s').usages k,
          ))
          ((same.cores cpu).0 ∙ free)
          (rw (same.cores cpu).1 (ap (λ f. f i) (same.clusters k).1 ∙ m)) on

-- Nothing was throttled between two states, and no call sent.
abbrev pub NoThrottle : System → System → Type 0
NoThrottle s s' =
    (i : ℕ) → (s'.calls i ≡ s.calls i) × ((s'.core i).throttled_task ≡ (s.core i).throttled_task)

-- An aggregation period that ends with the usage of its cluster within the budget throttles no CPU
-- and sends no call.
pub aggregation_within :
    (env : Env) (t : Tick) (cpu : ℕ) (s : System)
    → let s' = aggregation_period_func env t cpu s in
      let k = (s.core cpu).cluster_info in
      slt32 (cluster s k).cur_bandwidth_budget (cluster s' k).bandwidth_usage ≡ false
      → NoThrottle s s'
aggregation_within env t cpu s within =
    aggregation_rule (λ s'. Within s' → NoThrottle s s') env t cpu s (λ _ _ i. (refl, refl))
      (λ _ _ _ i.
        ground
          (arith, (profiled-SameThrottle t cpu s).calls, (profiled-SameThrottle t cpu s).cores i))
      (λ s' _ f w. logged s' (logged-SameThrottle t cpu s f) w) within
  where
    k : ClusterId
    k = (s.core cpu).cluster_info

    Within : System → Type 0
    Within s' = slt32 (cluster s k).cur_bandwidth_budget (cluster s' k).bandwidth_usage ≡ false

    logged :
        (s' : System)
        → SameThrottle s s'
        → Within (check_budget env cpu s')
        → NoThrottle s (check_budget env cpu s')
    logged s' same w i = ground (
      arith,
      same.cores i,
      ap (λ f. f i) same.calls,
      check_budget-within env cpu s' i (
          ground (
            arith,
            same.cores cpu,
            (same.clusters k).0,
            (check_budget-SameUsage env cpu s').usages k,
          )),
    )

log_cpu-ne-some :
    (t : Tick) (used cpu : ℕ) (s : System) {s' : System}
    → s.logging ≡ true
    → s.cpu_log_file (s.core cpu).cpu ≡ true
    → t.kmalloc ≡ false
    → log_cpu t used cpu s ≢ some s'
unfolding log_cpu
log_cpu-ne-some t used cpu s logging file memory f = ground arith

-- If a log line is due and there is no memory for it, an aggregation period throttles no CPU and
-- sends no call, whatever the usage and the budget are.
pub aggregation_no_memory :
    (env : Env) (t : Tick) (cpu : ℕ) (s : System)
    → s.logging ≡ true
    → s.cpu_log_file (s.core cpu).cpu ≡ true
    → t.kmalloc ≡ false
    → NoThrottle s (aggregation_period_func env t cpu s)
aggregation_no_memory env t cpu s logging file memory =
    aggregation_rule (NoThrottle s) env t cpu s (λ _ i. (refl, refl))
      (λ _ _ i. ground (arith, same.calls, same.cores i))
      (λ s' _ f. absurd (
        log_cpu-ne-some t _ cpu (profiled t cpu s) (same.files.0 ∙ logging)
          (ground (arith, same.cores cpu, same.files.1)) memory f))
  where
    same : SameThrottle s (profiled t cpu s)
    same = profiled-SameThrottle t cpu s
