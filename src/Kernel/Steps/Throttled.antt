-- ===== src/Kernel/Steps/Throttled.antt =====
-- A throttled core stays throttled until its own timer starts a regulation period.
use cl_mem_regulation.Common.{ℕ, ◌≡◌, ◌≢◌, ◌%◌, ◌==◌, sym, arith, abs32, Bool, true, false, none}
use mathlib.Core.Path.{subst}
use cl_mem_regulation.Kernel.State.{System, ClusterId, cl1, cl2, Params}
use cl_mem_regulation.Kernel.Throttle.{Env, throttle_core, run_call, on_each_cpu_mask}
use cl_mem_regulation.Kernel.Start.{Boot, start_counter, stop_counter}
use cl_mem_regulation.Kernel.Exit.{flush_workqueue}
use cl_mem_regulation.Kernel.Timer.{
  Tick, timer_callback, count_period, regulation_period_func, aggregation_period_func, check_budget,
}
use cl_mem_regulation.Kernel.Timer.Same.{profiled-SameThrottle, logged-SameThrottle}
use cl_mem_regulation.Kernel.Timer.Counting.{timer-SameClock}
use cl_mem_regulation.Kernel.Timer.Rules.{aggregation_rule, timer_rule, callback-made}
use cl_mem_regulation.Kernel.Gpu.{
  UserCopy, profiling_write, receive, receiver_system, sysfs_store, account_gpu, finish_round,
}
use cl_mem_regulation.Kernel.Steps.{
  Step, Running, Regulates, Restarts, here, next, tick, call, write, round, store, started, stopped,
  unloaded, flushed, woken,
}

abbrev pub IsThrottled : ℕ → System → Type 0
IsThrottled i s = (s.core i).throttled_task ≢ none

check_budget-IsThrottled :
    (env : Env) (cpu i : ℕ) (s : System) → IsThrottled i s → IsThrottled i (check_budget env cpu s)
unfolding check_budget on_each_cpu_mask throttle_core
check_budget-IsThrottled env cpu i s h = ground arith

aggregation-IsThrottled :
    (env : Env) (t : Tick) (cpu i : ℕ) (s : System)
    → IsThrottled i s
    → IsThrottled i (aggregation_period_func env t cpu s)
aggregation-IsThrottled env t cpu i s h =
    aggregation_rule (IsThrottled i) env t cpu s (λ _. h)
      (λ _ _. ground (arith, (profiled-SameThrottle t cpu s).cores i))
      λ s' _ f.
        check_budget-IsThrottled env cpu i s'
          (ground (arith, (logged-SameThrottle t cpu s f).cores i))

count_period-IsThrottled :
    (p : Params) (t : Tick) (cpu i : ℕ) (s : System)
    → IsThrottled i s
    → IsThrottled i (count_period p t cpu s)
unfolding count_period
count_period-IsThrottled p t cpu i s h = ground arith

regulation-IsThrottled :
    (cpu i : ℕ) (s : System)
    → cpu ≢ i
    → IsThrottled i s
    → IsThrottled i (regulation_period_func cpu s)
unfolding regulation_period_func
regulation-IsThrottled cpu i s ne h = ground arith

round-IsThrottled :
    (env : Env) (kmalloc : Bool) (k : ClusterId) (cpu i : ℕ) (s : System)
    → IsThrottled i s
    → IsThrottled i (receiver_system (receive env kmalloc k cpu s))
unfolding receive account_gpu finish_round on_each_cpu_mask throttle_core
round-IsThrottled env kmalloc k cpu i s h = ground arith

start-IsThrottled :
    (now cpu i : ℕ) (b : Boot)
    → cpu ≢ i
    → IsThrottled i b.system
    → IsThrottled i (start_counter now cpu b).system
unfolding start_counter
start-IsThrottled now cpu i b ne h = ground arith

stop-IsThrottled :
    (events cpu i : ℕ) (s : System)
    → cpu ≢ i
    → IsThrottled i s
    → IsThrottled i (stop_counter events cpu s)
unfolding stop_counter
stop-IsThrottled events cpu i s ne h = ground arith

callback-IsThrottled :
    (p : Params) (env : Env) (x : Tick) (cpu i : ℕ) (s : System)
    → ¬ (
        (cpu ≡ i)
        × (((timer_callback p env x cpu s).count % abs32 p.manage_period_interval == 1) ≡ true))
    → IsThrottled i s
    → IsThrottled i (timer_callback p env x cpu s)
callback-IsThrottled p env x cpu i s quiet h =
    timer_rule (IsThrottled i) env x cpu p s
      (λ e.
        regulation-IsThrottled cpu i _
          (λ same. quiet (same, rw (timer-SameClock p env x cpu s).count e))
          (count_period-IsThrottled p x cpu i s h))
      (λ _. aggregation-IsThrottled env x cpu i _ (count_period-IsThrottled p x cpu i s h))

Step-IsThrottled :
    {p : Params} {s t : System} (i : ℕ) (st : Step p s t)
    → ¬ (Regulates i st)
    → ¬ (Restarts i st)
    → IsThrottled i s
    → IsThrottled i t
unfolding run_call throttle_core profiling_write sysfs_store flush_workqueue
Step-IsThrottled {p} {s} i (tick {u} env x cpu e) quiet own h =
    let made = callback-made p env x cpu s e in
    subst (IsThrottled i) made (
      callback-IsThrottled p env x cpu i s
        (subst (λ v. ¬ ((cpu ≡ i) × ((v.count % abs32 p.manage_period_interval == 1) ≡ true)))
          (sym made) quiet)
        h)
Step-IsThrottled i (call env cpu _) quiet own h = ground arith
Step-IsThrottled i (write k count (UserCopy.copied bytes)) quiet own h = ground arith
Step-IsThrottled i (write k count (UserCopy.faulted bytes)) quiet own h = ground arith
Step-IsThrottled {s = s} i (round env kmalloc k cpu _) quiet own h =
    round-IsThrottled env kmalloc k cpu i s h
Step-IsThrottled i (store k buf count) quiet own h = ground arith
Step-IsThrottled i (started now cpu b e) quiet own h =
    start-IsThrottled now cpu i b own (subst (IsThrottled i) (sym e) h)
Step-IsThrottled {s = s} i (stopped events cpu) quiet own h = stop-IsThrottled events cpu i s own h
Step-IsThrottled i unloaded quiet own h = h
Step-IsThrottled i (flushed true) quiet own h = h
Step-IsThrottled i (flushed false) quiet own h = h
Step-IsThrottled i (woken cl1) quiet own h = h
Step-IsThrottled i (woken cl2) quiet own h = h

-- Steps of which none is a tick of core `i` that starts a regulation period, and none starts or stops it.
pub data QuietSteps (p : Params) (i : ℕ) (s : System) : System → Type 0 where
  quiet : QuietSteps p i s s
  then_quiet :
      {t u : System}
      → QuietSteps p i s t
      → (st : Step p t u) → ¬ (Regulates i st)
      → ¬ (Restarts i st)
      → QuietSteps p i s u

-- Whatever the handlers of all cores, the receivers, the profiler, the sysfs switch, and the starts and stops of
-- other cores do, in any order, a core that is throttled stays so until its own timer starts a regulation
-- period, or it is started or stopped itself.
pub stays-IsThrottled :
    {p : Params} (i : ℕ) {s t : System} → QuietSteps p i s t → IsThrottled i s → IsThrottled i t
stays-IsThrottled i quiet h = h
stays-IsThrottled i (then_quiet r st q own) h =
    Step-IsThrottled i st q own (stays-IsThrottled i r h)

interval_one-no_regulation :
    {p : Params} {s t : System} (i : ℕ) (st : Step p s t)
    → p.manage_period_interval ≡ 1
    → ¬ (Regulates i st)
interval_one-no_regulation {p = p} {t = t} i (tick env x cpu _) one r = ground arith
interval_one-no_regulation i (call env cpu _) one r = r
interval_one-no_regulation i (write k count c) one r = r
interval_one-no_regulation i (round env kmalloc k cpu _) one r = r
interval_one-no_regulation i (store k buf count) one r = r
interval_one-no_regulation i (started now cpu b _) one r = r
interval_one-no_regulation i (stopped events cpu) one r = r
interval_one-no_regulation i unloaded one r = r
interval_one-no_regulation i (flushed w) one r = r
interval_one-no_regulation i (woken k) one r = r

-- With an interval of one aggregation period, which `ceiling` gives whenever the regulation period
-- is not longer than the aggregation period, no tick ever starts a regulation period: a core that
-- is throttled stays so in every later state, as long as it is not started or stopped.
pub interval_one-stays-IsThrottled :
    {p : Params} (i : ℕ) {s t : System}
    → p.manage_period_interval ≡ 1
    → Running p i s t
    → IsThrottled i s
    → IsThrottled i t
interval_one-stays-IsThrottled i one here h = h
interval_one-stays-IsThrottled i one (next r st own) h =
    Step-IsThrottled i st (interval_one-no_regulation i st one) own
      (interval_one-stays-IsThrottled i one r h)
