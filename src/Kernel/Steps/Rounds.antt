-- ===== src/Kernel/Steps/Rounds.antt =====
-- A core that keeps step with the shared count is unthrottled within one regulation period.
use cl_mem_regulation.Common.{
  ℕ, zero, suc, ◌+◌, ◌%◌, ◌<◌, ◌≤◌, ◌≡◌, ◌≢◌, refl, sym, ap, ◌∙◌, arith, ◌==◌, Bool, true, false,
  none, some, abs32, two64, ==_iff, ℕ_discrete, ◌⊎◌, inl, inr,
}
use native.Mathlib.Nat.{mod-eq_of_lt, add-mod_right}
use cl_mem_regulation.Kernel.State.{System, ClusterId, cl1, cl2, Params}
use cl_mem_regulation.Kernel.Throttle.{Env, throttle_core, run_call, on_each_cpu_mask}
use cl_mem_regulation.Kernel.Timer.{
  Tick, timer_callback, timer_callback_master, count_period, regulation_period_func,
}
use cl_mem_regulation.Kernel.Timer.Counting.{timer-SameClock, callback-MovesOn}
use cl_mem_regulation.Kernel.Timer.Rules.{timer_rule, callback-made}
use cl_mem_regulation.Kernel.Gpu.{
  UserCopy, profiling_write, receive, receiver_system, sysfs_store, account_gpu, finish_round,
}
use cl_mem_regulation.Kernel.Steps.{
  Step, tick, call, write, round, store, started, stopped, unloaded, flushed, woken,
}
use cl_mem_regulation.Kernel.Start.{Boot, start_counter, stop_counter}
use cl_mem_regulation.Kernel.Exit.{flush_workqueue}
use mathlib.Core.Path.{subst}

abbrev pub own_count : ℕ → System → ℕ
own_count i s = (s.core i).aggregation_period_cnt

-- A step of something else than core `i`'s timer, start or stop.
abbrev IsOther : {p : Params} {s t : System} → ℕ → Step p s t → Type 0
IsOther i (tick env x cpu _) = cpu ≢ i
IsOther i (started now cpu b _) = cpu ≢ i
IsOther i (stopped events cpu) = cpu ≢ i
IsOther i _ = Unit {0}

round-own_count :
    (env : Env) (kmalloc : Bool) (k : ClusterId) (cpu i : ℕ) (s : System)
    → own_count i (receiver_system (receive env kmalloc k cpu s)) ≡ own_count i s
unfolding receive account_gpu finish_round on_each_cpu_mask throttle_core
round-own_count env kmalloc k cpu i s = ground arith

count_period-own_count :
    (p : Params) (t : Tick) (cpu i : ℕ) (s : System)
    → cpu ≢ i
    → own_count i (count_period p t cpu s) ≡ own_count i s
unfolding count_period
count_period-own_count p t cpu i s ne = ground arith

start-own_count :
    (now cpu i : ℕ) (b : Boot)
    → cpu ≢ i
    → own_count i (start_counter now cpu b).system ≡ own_count i b.system
unfolding start_counter
start-own_count now cpu i b ne = ground arith

stop-own_count :
    (events cpu i : ℕ) (s : System)
    → cpu ≢ i
    → own_count i (stop_counter events cpu s) ≡ own_count i s
unfolding stop_counter
stop-own_count events cpu i s ne = ground arith

Step-own_count :
    {p : Params} {s t : System} (i : ℕ) (st : Step p s t)
    → IsOther i st
    → own_count i t ≡ own_count i s
unfolding run_call throttle_core profiling_write sysfs_store flush_workqueue
Step-own_count {p} {s} i (tick env x cpu e) ne =
    ap (own_count i) (sym (callback-made p env x cpu s e))
    ∙ ((timer-SameClock p env x cpu s).cores i).0
    ∙ count_period-own_count p x cpu i s ne
Step-own_count i (call env cpu _) o = ground arith
Step-own_count i (write k count (UserCopy.copied bytes)) o = ground arith
Step-own_count i (write k count (UserCopy.faulted bytes)) o = ground arith
Step-own_count {s = s} i (round env kmalloc k cpu _) o = round-own_count env kmalloc k cpu i s
Step-own_count i (store k buf count) o = ground arith
Step-own_count i (started now cpu b e) o = start-own_count now cpu i b o ∙ ap (own_count i) e
Step-own_count {s = s} i (stopped events cpu) o = stop-own_count events cpu i s o
Step-own_count i unloaded o = refl
Step-own_count i (flushed true) o = refl
Step-own_count i (flushed false) o = refl
Step-own_count i (woken cl1) o = refl
Step-own_count i (woken cl2) o = refl

-- `n` ticks of core `i`, with any steps of the others between them, each while the shared count is
-- at most one ahead of the core's own: no core runs away, and core `i` misses no period.
pub data Rounds (p : Params) (i : ℕ) (s : System) : ℕ → System → Type 0 where
  start : Rounds p i s 0 s
  other :
      {n : ℕ} {t u : System}
      → Rounds p i s n t
      → (st : Step p t u) → IsOther i st
      → Rounds p i s n u
  own :
      {n : ℕ} {t u : System} (env : Env) (x : Tick)
      → Rounds p i s n t
      → own_count i t ≤ t.count
      → t.count ≤ own_count i t + 1
      → t.count + 1 < two64
      → timer_callback_master p env x i t ≡ some u
      → Rounds p i s (suc n) u

count_period-own_count_self :
    (p : Params) (x : Tick) (i : ℕ) (s : System)
    → own_count i s ≤ s.count
    → s.count ≤ own_count i s + 1
    → s.count + 1 < two64
    → own_count i (count_period p x i s) ≡ own_count i s + 1
unfolding count_period
count_period-own_count_self p x i s lo hi small = ground arith

own_count_tick :
    (p : Params) (env : Env) (x : Tick) (i : ℕ) (s : System)
    → own_count i s ≤ s.count
    → s.count ≤ own_count i s + 1
    → s.count + 1 < two64
    → {u : System} → timer_callback_master p env x i s ≡ some u
    → (own_count i u ≡ own_count i s + 1) × (u.count ≡ own_count i s + 1)
own_count_tick p env x i s lo hi small made =
    let self = count_period-own_count_self p x i s lo hi small in
    let t = callback-MovesOn p env x i s small lo in
    let e = ((timer-SameClock p env x i s).cores i).0 ∙ self in
    subst (λ u. (own_count i u ≡ own_count i s + 1) × (u.count ≡ own_count i s + 1))
      (callback-made p env x i s made) (e, omega (arith, t.1, e))

-- After `n` rounds the core has counted `n` periods.
own_count-Rounds :
    {p : Params} (i : ℕ) {s : System} {n : ℕ} {t : System}
    → Rounds p i s n t
    → own_count i t ≡ own_count i s + n
own_count-Rounds i start = omega arith
own_count-Rounds i (other r st o) = Step-own_count i st o ∙ own_count-Rounds i r
own_count-Rounds {p} i (own {t = t} env x r lo hi small made) =
    omega (arith, (own_count_tick p env x i t lo hi small made).0, own_count-Rounds i r)

regulation-frees :
    (cpu : ℕ) (s : System) → ((regulation_period_func cpu s).core cpu).throttled_task ≡ none
unfolding regulation_period_func
regulation-frees cpu s = ground arith

callback_frees :
    (p : Params) (env : Env) (x : Tick) (i : ℕ) (s : System)
    → ((timer_callback p env x i s).count % abs32 p.manage_period_interval == 1) ≡ true
    → ((timer_callback p env x i s).core i).throttled_task ≡ none
callback_frees p env x i s h =
    timer_rule (λ t. (t.core i).throttled_task ≡ none) env x i p s
      (λ _. regulation-frees i (count_period p x i s))
      (λ e. absurd (ground (arith, h, e, (timer-SameClock p env x i s).count)))

-- A tick at which the core's count comes to 1 modulo the interval unthrottles the core.
tick_frees :
    (p : Params) (env : Env) (x : Tick) (i : ℕ) (s : System)
    → {u : System} → timer_callback_master p env x i s ≡ some u
    → (u.count % abs32 p.manage_period_interval == 1) ≡ true
    → (u.core i).throttled_task ≡ none
tick_frees p env x i s made =
    subst
      (λ u.
        (u.count % abs32 p.manage_period_interval == 1) ≡ true → (u.core i).throttled_task ≡ none)
      (callback-made p env x i s made) (callback_frees p env x i s)

-- Every stretch of `d` counts holds one that is 1 modulo `d`.
next_one : (d n : ℕ) → 2 ≤ d → (c : ℕ) × (n < c) × (c ≤ n + d) × (c % d ≡ 1)
next_one d zero h = (1, omega arith, omega arith, mod-eq_of_lt h)
next_one d (suc n) h =
    let (c, lo, hi, e) = next_one d n h in
    elim (ℕ_discrete c (suc n)) [
      | yes same ↦ (c + d, omega arith, omega arith, add-mod_right c d ∙ e)
      | no apart ↦ (c, omega arith, omega arith, e)
    ]

-- At some tick of the rounds the core is left unthrottled.
abbrev pub Freed :
    {p : Params} {i : ℕ} {s : System} {n : ℕ} {t : System} → Rounds p i s n t → Type 0
Freed start = ⊥
Freed (other r st o) = Freed r
Freed {i = i} (own {u = u} env x r lo hi small made) = Freed r ⊎ ((u.core i).throttled_task ≡ none)

Freed-of_count :
    {p : Params} (i : ℕ) {s : System} (c : ℕ) {n : ℕ} {t : System} (r : Rounds p i s n t)
    → own_count i s < c
    → c ≤ own_count i s + n
    → c % abs32 p.manage_period_interval ≡ 1
    → Freed r
Freed-of_count i c start lo hi e = absurd (omega arith)
Freed-of_count i c (other r st o) lo hi e = Freed-of_count i c r lo hi e
Freed-of_count {p} i {s} c (own {n = n} {t = t} {u = u} env x r a b small made) lo hi e =
    elim (ℕ_discrete c (own_count i s + suc n)) [
      | yes last ↦ inr (tick_frees p env x i t made (rw (reached last) ((==_iff _ _).1 e)))
      | no before ↦ inl (Freed-of_count i c r lo (omega arith) e)
    ]
  where
    reached : c ≡ own_count i s + suc n → u.count ≡ c
    reached last =
        omega (arith, (own_count_tick p env x i t a b small made).1, own_count-Rounds i r)

-- When the interval is at least 2, a core that keeps step with the shared count is unthrottled at least once
-- in every regulation period: in as many ticks as the interval has aggregation periods, one leaves it
-- unthrottled, whatever the other cores, the receivers and the profiler do between them.
pub Rounds-Freed :
    {p : Params} (i : ℕ) {s : System} {n : ℕ} {t : System} (r : Rounds p i s n t)
    → 2 ≤ abs32 p.manage_period_interval
    → abs32 p.manage_period_interval ≤ n
    → Freed r
Rounds-Freed {p} i {s} r two long =
    let (c, lo, hi, e) = next_one (abs32 p.manage_period_interval) (own_count i s) two in
    Freed-of_count i c r lo (omega arith) e
