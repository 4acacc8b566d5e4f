-- ===== src/Kernel/Steps.antt =====
-- The kernel module as a system of interleaved steps: each handler of cl_mem_reg.c is one step, and
-- the environment chooses which comes next.
pub mod Throttled
pub mod Rounds
use cl_mem_regulation.Common.{ℕ, ◌≢◌, ◌≡◌, ◌==◌, ◌%◌, true, false, Bool, some, List, abs32}
use cl_mem_regulation.Kernel.State.{System, ClusterId, Params, Gpu, gpu, put_gpu}
use cl_mem_regulation.Kernel.Start.{Boot, start_counter, stop_counter}
use cl_mem_regulation.Kernel.Exit.{flush_workqueue}
use cl_mem_regulation.Kernel.Throttle.{Env, run_call}
use cl_mem_regulation.Kernel.Timer.{Tick, timer_callback_master}
use cl_mem_regulation.Kernel.Gpu.{UserCopy, profiling_write, receive, receiver_system, sysfs_store}

-- A tick of a core's timer, a pending call that a CPU takes, a write of the profiler, a round of a
-- receiver whose beats are ready, and a write to the sysfs switch; `__start_counter` and `__stop_counter` on a
-- CPU; and what `cl_mem_reg_exit` does by itself: it sets its flags, flushes the work queue and wakes a
-- receiver.
pub data Step (p : Params) (s : System) : System → Type 0 where
  tick :
      {u : System} (env : Env) (t : Tick) (cpu : ℕ)
      → timer_callback_master p env t cpu s ≡ some u
      → Step p s u
  call : (env : Env) (cpu : ℕ) → s.calls cpu ≢ 0 → Step p s (run_call env cpu s)
  write : (k : ClusterId) (count : ℕ) (c : UserCopy) → Step p s (profiling_write k count c s).1
  round :
      (env : Env) (kmalloc : Bool) (k : ClusterId) (cpu : ℕ)
      → (gpu s k).beats_ready ≡ true
      → Step p s (receiver_system (receive env kmalloc k cpu s))
  store : (k : ClusterId) (buf : List ℕ) (count : ℕ) → Step p s (sysfs_store k buf count s).1
  started : (now cpu : ℕ) (b : Boot) → b.system ≡ s → Step p s (start_counter now cpu b).system
  stopped : (events cpu : ℕ) → Step p s (stop_counter events cpu s)
  unloaded : Step p s (record s { logging = false; module_unloading = true })
  flushed : (workqueue : Bool) → Step p s (flush_workqueue workqueue s)
  woken : (k : ClusterId) → Step p s (put_gpu s k (record (gpu s k) { beats_ready = true }))

-- The step is a tick of core `i` that starts a regulation period.
abbrev pub Regulates : {p : Params} {s t : System} → ℕ → Step p s t → Type 0
Regulates {p} {t = t} i (Step.tick env x cpu _) =
    (cpu ≡ i) × ((t.count % abs32 p.manage_period_interval == 1) ≡ true)
Regulates i _ = ⊥

-- The step starts or stops core `i`.
abbrev pub Restarts : {p : Params} {s t : System} → ℕ → Step p s t → Type 0
Restarts i (Step.started now cpu b _) = cpu ≡ i
Restarts i (Step.stopped events cpu) = cpu ≡ i
Restarts i _ = ⊥

-- Any number of steps of which none starts or stops core `i`.
pub data Running (p : Params) (i : ℕ) (s : System) : System → Type 0 where
  here : Running p i s s
  next : {t u : System} → Running p i s t → (st : Step p t u) → ¬ (Restarts i st) → Running p i s u
