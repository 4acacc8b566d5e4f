-- ===== src/Kernel/Exit/Ends.antt =====
-- What `cl_mem_reg_exit` (cl_mem_reg.c) ends with.
use cl_mem_regulation.Common.{
  ℕ, suc, ◌≡◌, refl, ap, ◌∙◌, arith, true, false, Bool, none, some, List, [], ◌∷◌, mem, slt32,
}
use cl_mem_regulation.Kernel.State.{System, ClusterId, cl1, cl2, cluster, gpu}
use cl_mem_regulation.Kernel.Throttle.Calls.{WillThrottle}
use cl_mem_regulation.Kernel.Init.{Devices}
use cl_mem_regulation.Kernel.Start.{begin_exit, stop_all, stop_counter}
use cl_mem_regulation.Kernel.Start.Quiet.{InMask, stops, stop_all-IsQuiet, stop_all-unloading}
use cl_mem_regulation.Kernel.Exit.{
  ExitArgs, flush_workqueue, stop_receiver, exit_system, cl_mem_reg_exit,
}
use cl_mem_regulation.Kernel.Exit.Last.{
  Kept, Kept-then, last_usage, stop_receiver-other, stop_receiver-Kept, stop_receiver-WillThrottle,
  stop_receiver-throttles,
}

-- Both clusters and GPUs are those of before.
record SameClusters (s s' : System) : Type 0 where
  clusters : (k : ClusterId) → cluster s' k ≡ cluster s k
  gpus : (k : ClusterId) → gpu s' k ≡ gpu s k
  off : s'.logging ≡ s.logging

stop_counter-SameClusters :
    (events cpu : ℕ) (s : System) → SameClusters s (stop_counter events cpu s)
unfolding stop_counter
stop_counter-SameClusters events cpu s = record {
  clusters = λ k. ground arith;
  gpus = λ k. ground arith;
  off = ground arith;
}

stop_all-SameClusters : (runs : List (ℕ × ℕ)) (s : System) → SameClusters s (stop_all runs s)
unfolding stop_all
stop_all-SameClusters [] s = record { clusters = λ k. refl; gpus = λ k. refl; off = refl }
stop_all-SameClusters (run ∷ runs) s =
    let one = stop_counter-SameClusters run.1 run.0 s in
    let rest = stop_all-SameClusters runs (stop_counter run.1 run.0 s) in
    record {
      clusters = λ k. rest.clusters k ∙ one.clusters k;
      gpus = λ k. rest.gpus k ∙ one.gpus k;
      off = rest.off ∙ one.off;
    }

-- The system before the receivers are stopped.
abbrev before : ExitArgs → System → System
before a s = flush_workqueue a.workqueue (begin_exit a.runs s)

record IsBefore (s s' : System) : Type 0 where
  cluster1 : s'.cluster1 ≡ s.cluster1
  cluster2 : s'.cluster2 ≡ s.cluster2
  gpu1 : s'.gpu1 ≡ s.gpu1
  gpu2 : s'.gpu2 ≡ s.gpu2
  off : s'.logging ≡ false
  unloading : s'.module_unloading ≡ true

stop_all-IsBefore :
    (runs : List (ℕ × ℕ)) (s : System)
    → IsBefore s (stop_all runs (record s { logging = false; module_unloading = true }))
stop_all-IsBefore runs s =
    let s0 : System = record s { logging = false; module_unloading = true } in
    let same = stop_all-SameClusters runs s0 in
    record {
      cluster1 = same.clusters cl1;
      cluster2 = same.clusters cl2;
      gpu1 = same.gpus cl1;
      gpu2 = same.gpus cl2;
      off = same.off;
      unloading = stop_all-unloading runs s0 refl;
    }

flush-IsBefore : (w : Bool) (s t : System) → IsBefore s t → IsBefore s (flush_workqueue w t)
unfolding flush_workqueue
flush-IsBefore true s t h = record {
  cluster1 = h.cluster1;
  cluster2 = h.cluster2;
  gpu1 = h.gpu1;
  gpu2 = h.gpu2;
  off = h.off;
  unloading = h.unloading;
}
flush-IsBefore false s t h = h

before-IsBefore : (a : ExitArgs) (s : System) → IsBefore s (before a s)
unfolding begin_exit
before-IsBefore a s = flush-IsBefore a.workqueue s _ (stop_all-IsBefore a.runs s)

flush-no_timer :
    (w : Bool) (s : System) (i : ℕ)
    → (s.core i).hr_timer ≡ none
    → ((flush_workqueue w s).core i).hr_timer ≡ none
unfolding flush_workqueue
flush-no_timer true s i h = h
flush-no_timer false s i h = h

before-no_timer :
    (a : ExitArgs) (s : System) (i : ℕ)
    → stops i a.runs ≡ true
    → InMask s i
    → ((before a s).core i).hr_timer ≡ none
unfolding begin_exit
before-no_timer a s i stopped m = flush-no_timer a.workqueue _ i (
    (stop_all-IsQuiet a.runs (record s { logging = false; module_unloading = true }) i stopped
      (ground (arith, m))).no_timer)

-- The receivers change neither the timers nor the flags, and queue nothing.
exit_system-Kept : (a : ExitArgs) (s : System) → Kept (before a s) (exit_system a s)
unfolding exit_system
exit_system-Kept a s =
    let off = (before-IsBefore a s).off in
    let one = stop_receiver-Kept a.env cl1 (a.last_rounds cl1) (a.receiver cl1) (before a s) off in
    Kept-then _ _ _ one
      (stop_receiver-Kept a.env cl2 (a.last_rounds cl2) (a.receiver cl2) _ (one.off ∙ off))

queue_empty : (s : System) → (flush_workqueue true s).work ≡ []
unfolding flush_workqueue
queue_empty s = refl

-- Whatever the receivers still do when they are stopped, the exit ends with logging off and the module
-- unloading, with no line left for the work queue that it destroyed, and without a timer on a core that it
-- stopped, if that is in the mask of its cluster.
pub exit-ends :
    (a : ExitArgs) (d : Devices) (s : System) (i : ℕ)
    → a.workqueue ≡ true
    → stops i a.runs ≡ true
    → InMask s i
    → let s' = (cl_mem_reg_exit a d s).system in
      (s'.logging ≡ false)
      × (s'.module_unloading ≡ true)
      × (s'.work ≡ [])
      × ((s'.core i).hr_timer ≡ none)
unfolding cl_mem_reg_exit
exit-ends a d s i queue stopped m =
    let b = before-IsBefore a s in
    let k = exit_system-Kept a s in
    (
      k.off ∙ b.off,
      k.unloading ∙ b.unloading,
      k.queue
          ∙ ap (λ w. (flush_workqueue w (begin_exit a.runs s)).work) queue
          ∙ queue_empty (begin_exit a.runs s),
      k.timers i ∙ before-no_timer a s i stopped m,
    )

module _ (a : ExitArgs) (d : Devices) (s : System) (i cpu n : ℕ) where
  abbrev first : System
  first = stop_receiver a.env cl1 (a.last_rounds cl1) (a.receiver cl1) (before a s)

  first-Kept : Kept (before a s) first
  first-Kept =
      stop_receiver-Kept a.env cl1 (a.last_rounds cl1) (a.receiver cl1) (before a s)
        (before-IsBefore a s).off

  -- A cluster that the beats in its memory bring over its budget is throttled by its receiver.
  exit_system-throttles :
      (k : ClusterId)
      → a.receiver k ≡ some cpu
      → a.last_rounds k ≡ suc n
      → slt32 (cluster s k).cur_bandwidth_budget (last_usage k s) ≡ true
      → (cluster s k).cpu_mask i ≡ true
      → mem i a.env.online ≡ true
      → WillThrottle (exit_system a s) i
  unfolding exit_system
  exit_system-throttles cl1 there more over m on =
      let b = before-IsBefore a s in
      stop_receiver-WillThrottle a.env cl2 (a.last_rounds cl2) (a.receiver cl2) first i
        (first-Kept.off ∙ b.off)
        (rw (there, more)
          (stop_receiver-throttles a.env cl1 n cpu (before a s) i b.off
            (rw (b.cluster1, b.gpu1) over) (rw (b.cluster1) m) on))
  exit_system-throttles cl2 there more over m on =
      let b = before-IsBefore a s in
      let o = stop_receiver-other a.env (a.last_rounds cl1) (a.receiver cl1) (before a s) b.off in
      rw (there, more)
        (stop_receiver-throttles a.env cl2 n cpu first i (first-Kept.off ∙ b.off)
          (rw (o.0, o.1, b.cluster2, b.gpu2) over) (rw (o.0, b.cluster2) m) on)

  -- If the beats that still lie in the memory of a cluster bring it over its budget, its receiver, when it goes
  -- through at least one more round before it stops, throttles every online CPU of the cluster: a core that was stopped before is
  -- throttled again, now without a timer that would end it, or has a call to take that will.
  pub exit-throttles :
      (k : ClusterId)
      → a.receiver k ≡ some cpu
      → a.last_rounds k ≡ suc n
      → slt32 (cluster s k).cur_bandwidth_budget (last_usage k s) ≡ true
      → (cluster s k).cpu_mask i ≡ true
      → mem i a.env.online ≡ true
      → stops i a.runs ≡ true
      → InMask s i
      → let s' = (cl_mem_reg_exit a d s).system in WillThrottle s' i × ((s'.core i).hr_timer ≡ none)
  unfolding cl_mem_reg_exit
  exit-throttles k there more over m on stopped own = (
    exit_system-throttles k there more over m on,
    (exit_system-Kept a s).timers i ∙ before-no_timer a s i stopped own,
  )
