-- ===== src/Kernel/Timer/Usage.antt =====
-- What a tick does to the usage of the cluster: no event is lost, and none is counted twice.
use cl_mem_regulation.Common.{
  ℕ, ◌+◌, ◌%◌, ◌<◌, ◌≡◌, ◌≢◌, refl, ap, sym, ◌∙◌, update_self, update_ne, arith, ◌==◌,
  if◌then◌else◌, Bool, true, false, some, u32, u64, abs32, two64,
}
use mathlib.Core.Path.{subst}
use cl_mem_regulation.Kernel.State.{System, Params, ClusterId, CoreInfo, cluster, put_cluster}
use cl_mem_regulation.Kernel.Throttle.{Env, throttle_core, on_each_cpu_mask}
use cl_mem_regulation.Kernel.Timer.{
  Tick, count_core, count_period, timer_callback, timer_callback_master, regulation_period_func,
  aggregation_period_func, account_cpu, request_gpu_beats, log_cpu, check_budget,
  get_read_event_used,
}
use cl_mem_regulation.Kernel.Timer.Rules.{
  profiled, check_budget_rule, aggregation_rule, timer_rule, callback-some,
}
use cl_mem_regulation.Kernel.Timer.Counting.{timer-SameClock}

-- The events that a core has counted and not yet added to the usage of its cluster.
abbrev pub unread : System → ℕ → ℕ
unread s cpu = get_read_event_used (s.core cpu)

abbrev pub usage : System → ClusterId → ℕ
usage s k = (cluster s k).bandwidth_usage

-- The later work of an aggregation period leaves alone what was counted.
pub record SameUsage (s s' : System) : Type 0 where
  pub usages : (k : ClusterId) → usage s' k ≡ usage s k
  pub reads :
      (i : ℕ)
      → ((s'.core i).read_event ≡ (s.core i).read_event)
        × ((s'.core i).old_read_val ≡ (s.core i).old_read_val)
        × ((s'.core i).cluster_info ≡ (s.core i).cluster_info)

SameUsage-trans : {s t u : System} → SameUsage s t → SameUsage t u → SameUsage s u
SameUsage-trans a b = record {
  usages = λ k. b.usages k ∙ a.usages k;
  reads = λ i. ground (arith, a.reads i, b.reads i);
}

request-SameUsage : (t : Tick) (cpu : ℕ) (s : System) → SameUsage s (request_gpu_beats t cpu s)
unfolding request_gpu_beats
request-SameUsage t cpu s = record { usages = λ k. ground arith; reads = λ i. ground arith }

log_cpu-SameUsage :
    (t : Tick) (used cpu : ℕ) (s : System) {s' : System}
    → log_cpu t used cpu s ≡ some s'
    → SameUsage s s'
unfolding log_cpu
log_cpu-SameUsage t used cpu s e = record { usages = λ k. ground arith; reads = λ i. ground arith }

mark-SameUsage :
    (s : System) (k : ClusterId)
    → SameUsage s (put_cluster s k (record (cluster s k) { is_throttled = true }))
mark-SameUsage s k = record { usages = λ j. ground arith; reads = λ i. ground arith }

on_each_cpu_mask-SameUsage :
    (env : Env) (mask : ℕ → Bool) (cpu : ℕ) (s : System)
    → SameUsage s (on_each_cpu_mask env mask cpu s)
unfolding on_each_cpu_mask throttle_core
on_each_cpu_mask-SameUsage env mask cpu s = record {
  usages = λ k. ground arith;
  reads = λ i. ground arith;
}

pub check_budget-SameUsage :
    (env : Env) (cpu : ℕ) (s : System) → SameUsage s (check_budget env cpu s)
check_budget-SameUsage env cpu s =
    check_budget_rule (SameUsage s) env cpu s
      (record { usages = λ k. refl; reads = λ i. (refl, refl, refl) }) (mark-SameUsage s _)
      (λ mask s' same. SameUsage-trans same (on_each_cpu_mask-SameUsage env mask cpu s'))
      (λ n s' same. record { usages = λ k. ground (arith, same.usages k); reads = same.reads })

-- All that an aggregation period does to the counts.
record Accounted (cpu : ℕ) (s s' : System) : Type 0 where
  here : usage s' (s.core cpu).cluster_info ≡ u32 (usage s (s.core cpu).cluster_info + unread s cpu)
  elsewhere : (k : ClusterId) → k ≢ (s.core cpu).cluster_info → usage s' k ≡ usage s k
  read : unread s' cpu ≡ 0
  unread_elsewhere : (i : ℕ) → i ≢ cpu → unread s' i ≡ unread s i

account_cpu-Accounted :
    (cpu : ℕ) (s : System) → (s.core cpu).old_read_val < two64 → Accounted cpu s (account_cpu cpu s)
unfolding account_cpu
account_cpu-Accounted cpu s small = record {
  here = ground arith;
  elsewhere = λ k h. ground arith;
  read = ground arith;
  unread_elsewhere = λ i h. ground arith;
}

Accounted-SameUsage :
    {cpu : ℕ} {s t u : System} → Accounted cpu s t → SameUsage t u → Accounted cpu s u
unfolding get_read_event_used
Accounted-SameUsage {cpu} {s} {t} {u} a b = record {
  here = b.usages _ ∙ a.here;
  elsewhere = λ k h. b.usages k ∙ a.elsewhere k h;
  read = ground (arith, a.read, b.reads cpu);
  unread_elsewhere = λ i h. ground (arith, a.unread_elsewhere i h, b.reads i);
}

-- An aggregation period adds exactly the unread events of the core, and leaves none unread.
aggregation-Accounted :
    (env : Env) (t : Tick) (cpu : ℕ) (s : System)
    → s.module_unloading ≡ false
    → (s.core cpu).old_read_val < two64
    → Accounted cpu s (aggregation_period_func env t cpu s)
aggregation-Accounted env t cpu s loaded small =
    aggregation_rule (Accounted cpu s) env t cpu s (λ e. cc) (λ _ _. kept)
      λ s' _ f. Accounted-SameUsage kept (
        SameUsage-trans (log_cpu-SameUsage t (get_read_event_used (s.core cpu)) cpu _ f)
          (check_budget-SameUsage env cpu s'))
  where
    kept : Accounted cpu s (profiled t cpu s)
    kept =
        Accounted-SameUsage (account_cpu-Accounted cpu s small)
          (request-SameUsage t cpu (account_cpu cpu s))

-- Counting a period adds the events of the tick to what the core has not yet read.
unread-count_core :
    (p : Params) (t : Tick) (count : ℕ) (c : CoreInfo)
    → c.old_read_val < two64
    → get_read_event_used (count_core p t count c) ≡ u64 (get_read_event_used c + t.events)
unfolding count_core get_read_event_used
unread-count_core p t count c small = omega arith

count_period-usage :
    (p : Params) (t : Tick) (cpu : ℕ) (s : System)
    → (s.core cpu).old_read_val < two64
    → let s' = count_period p t cpu s in
      ((k : ClusterId) → usage s' k ≡ usage s k)
      × (unread s' cpu ≡ u64 (unread s cpu + t.events))
      × ((i : ℕ) → i ≢ cpu → unread s' i ≡ unread s i)
unfolding count_period
count_period-usage p t cpu s small = (
  λ k. ground arith,
  rw (update_self s.core cpu _) (unread-count_core p t _ (s.core cpu) small),
  λ i h. ap get_read_event_used (update_ne s.core cpu i _ h),
)

count_period-fields :
    (p : Params) (t : Tick) (cpu : ℕ) (s : System)
    → let s' = count_period p t cpu s in
      (s'.module_unloading ≡ s.module_unloading)
      × ((s'.core cpu).cluster_info ≡ (s.core cpu).cluster_info)
      × ((s'.core cpu).old_read_val ≡ (s.core cpu).old_read_val)
      × ((s'.core cpu).cpu ≡ (s.core cpu).cpu)
      × ((k : ClusterId) → cluster s' k ≡ cluster s k)
unfolding count_period
count_period-fields p t cpu s = (refl, ground arith, ground arith, ground arith, λ k. ground arith)

-- A regulation period empties the usage if the core is the leader, and reads no counter.
regulation-usage :
    (cpu : ℕ) (s : System)
    → let s' = regulation_period_func cpu s in
      let c = s.core cpu in
      let k = c.cluster_info in
      (usage s' k ≡ (if c.cpu == (cluster s k).leader_core then 0 else usage s k))
      × ((j : ClusterId) → j ≢ k → usage s' j ≡ usage s j)
      × ((i : ℕ) → unread s' i ≡ unread s i)
unfolding regulation_period_func get_read_event_used
regulation-usage cpu s = (ground arith, λ j h. ground arith, λ i. ground arith)

-- What one tick with `all` unread events, those of the tick included, does to the counts.
pub record TickUsage (regulation : Bool) (cpu all : ℕ) (s s' : System) : Type 0 where
  pub here : usage s' (s.core cpu).cluster_info ≡ (
      if regulation
      then (if (s.core cpu).cpu == (cluster s (s.core cpu).cluster_info).leader_core
          then 0
          else usage s (s.core cpu).cluster_info)
      else u32 (usage s (s.core cpu).cluster_info + all))
  pub elsewhere : (k : ClusterId) → k ≢ (s.core cpu).cluster_info → usage s' k ≡ usage s k
  pub read : unread s' cpu ≡ (if regulation then all else 0)
  pub unread_elsewhere : (i : ℕ) → i ≢ cpu → unread s' i ≡ unread s i

regulation-TickUsage :
    (p : Params) (t : Tick) (cpu : ℕ) (s : System)
    → (s.core cpu).old_read_val < two64
    → TickUsage true cpu
        (u64 (unread s cpu + t.events))
        s
        (regulation_period_func cpu (count_period p t cpu s))
regulation-TickUsage p t cpu s small =
    let s1 = count_period p t cpu s in
    let f = count_period-fields p t cpu s in
    let u = count_period-usage p t cpu s small in
    let r = regulation-usage cpu s1 in
    let k = (s.core cpu).cluster_info in
    record {
      here = ground (arith, f.4 k, u.0 k);
      elsewhere = λ j h. ground (arith, u.0 j, r.1 j);
      read = r.2 cpu ∙ u.1;
      unread_elsewhere = λ i h. r.2 i ∙ u.2 i h;
    }

aggregation-TickUsage :
    (p : Params) (env : Env) (t : Tick) (cpu : ℕ) (s : System)
    → s.module_unloading ≡ false
    → (s.core cpu).old_read_val < two64
    → TickUsage false cpu
        (u64 (unread s cpu + t.events))
        s
        (aggregation_period_func env t cpu (count_period p t cpu s))
aggregation-TickUsage p env t cpu s loaded small =
    let s1 = count_period p t cpu s in
    let f = count_period-fields p t cpu s in
    let u = count_period-usage p t cpu s small in
    let k = (s.core cpu).cluster_info in
    let a = aggregation-Accounted env t cpu s1 (f.0 ∙ loaded) (ground (arith, f)) in
    record {
      here = ground (arith, a.here, u.0 k);
      elsewhere = λ j h. ground (arith, a.elsewhere j, u.0 j);
      read = a.read;
      unread_elsewhere = λ i h. a.unread_elsewhere i h ∙ u.2 i h;
    }

callback-TickUsage :
    (p : Params) (env : Env) (t : Tick) (cpu : ℕ) (s : System)
    → s.module_unloading ≡ false
    → (s.core cpu).old_read_val < two64
    → let s' = timer_callback p env t cpu s in
      TickUsage
        (s'.count % abs32 p.manage_period_interval == 1)
        cpu
        (u64 (unread s cpu + t.events))
        s
        s'
callback-TickUsage p env t cpu s loaded small =
    subst
      (λ n.
        TickUsage (n % abs32 p.manage_period_interval == 1) cpu all s
          (timer_callback p env t cpu s))
      (sym (timer-SameClock p env t cpu s).count)
      (timer_rule (TickUsage (s1.count % abs32 p.manage_period_interval == 1) cpu all s) env t cpu p
        s (λ e. rw e (regulation-TickUsage p t cpu s small))
        (λ e. rw e (aggregation-TickUsage p env t cpu s loaded small)))
  where
    s1 : System
    s1 = count_period p t cpu s

    all : ℕ
    all = u64 (unread s cpu + t.events)

-- One tick of a core, on every branch but unloading, when the interval is not 0. A regulation period sets the usage of the
-- cluster to 0 if the core is its leader, and leaves the events of the tick unread; an aggregation
-- period adds all unread events of the core, those of the tick included, and leaves none. The other
-- cluster's usage and the other cores' unread events stay.
pub tick_usage :
    (p : Params) (env : Env) (t : Tick) (cpu : ℕ) (s : System)
    → abs32 p.manage_period_interval ≢ 0
    → s.module_unloading ≡ false
    → (s.core cpu).old_read_val < two64
    → (s' : System) × (timer_callback_master p env t cpu s ≡ some s')
      × TickUsage
          (s'.count % abs32 p.manage_period_interval == 1)
          cpu
          (u64 (unread s cpu + t.events))
          s
          s'
tick_usage p env t cpu s ne loaded small = (
  timer_callback p env t cpu s,
  callback-some p env t cpu s ne,
  callback-TickUsage p env t cpu s loaded small,
)
