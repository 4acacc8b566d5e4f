-- ===== src/Kernel/Exit.antt =====
-- The whole of `cl_mem_reg_exit` (cl_mem_reg.c): the stop of the cores, the work queue, the receivers, the
-- log files, the threads and counters of the cores, and the GPU devices.
pub mod Last
pub mod Ends
mod Tests
use cl_mem_regulation.Common.{
  ℕ, zero, suc, if◌then◌else◌, Bool, true, false, not, ◌&&◌, Option, none, some, List, [], ◌∷◌,
}
use cl_mem_regulation.Kernel.State.{System, ClusterId, cl1, cl2, gpu, put_gpu}
use cl_mem_regulation.Kernel.Throttle.{Env}
use cl_mem_regulation.Kernel.Gpu.{receive, receiver_system}
use cl_mem_regulation.Kernel.Init.{Devices, exit_gpus}
use cl_mem_regulation.Kernel.Logging.{LogArgs, LogFiles, LogFile, stop_logging}
use cl_mem_regulation.Kernel.Start.{begin_exit}

-- What the exit meets: the CPUs in the order in which they stop, with what their counters have counted;
-- whether there is a work queue; and the receiver of each cluster, by its CPU, if there is one.
-- `last_rounds` is how many rounds a receiver goes through before it sees that it is to stop: none at the
-- head of its loop, one in its wait, and two when it comes back to its wait before `kthread_stop` wakes it.
pub record ExitArgs : Type 0 where
  pub runs : List (ℕ × ℕ)
  pub env : Env
  pub workqueue : Bool
  pub receiver : ClusterId → Option ℕ
  pub last_rounds : ClusterId → ℕ
  pub log : LogArgs
  pub files : LogFiles

pub record Exited : Type 0 where
  pub system : System
  pub closed : Option (List LogFile)
  pub released : List ℕ
  pub devices : Devices

-- The queued lines are written.
unfoldable pub flush_workqueue : (workqueue : Bool) → System → System
flush_workqueue workqueue s = if workqueue then record s { work = [] } else s

-- With logging off a round asks for no memory.
unfoldable pub repeat_rounds : Env → ClusterId → (cpu : ℕ) → (rounds : ℕ) → System → System
unfolding receive
repeat_rounds env k cpu zero s = s
repeat_rounds env k cpu (suc n) s =
    repeat_rounds env k cpu n (receiver_system (receive env true k cpu s))

-- The flag is set by hand, and the receiver goes through its last rounds.
unfoldable pub stop_receiver : Env → ClusterId → (rounds : ℕ) → Option ℕ → System → System
unfolding repeat_rounds
stop_receiver env k rounds none s = s
stop_receiver env k rounds (some cpu) s =
    repeat_rounds env k cpu rounds (put_gpu s k (record (gpu s k) { beats_ready = true }))

-- The CPUs whose thread is stopped and whose counter is released, in order.
unfoldable pub release_cores : System → (online : List ℕ) → List ℕ
release_cores s [] = []
release_cores s (i ∷ online) =
    let rest = release_cores s online in
    if not (s.cluster1.cpu_mask i) && not (s.cluster2.cpu_mask i) then rest else i ∷ rest

-- The system without the files and devices.
unfoldable pub exit_system : ExitArgs → System → System
unfolding begin_exit flush_workqueue stop_receiver
exit_system a s =
    let flushed = flush_workqueue a.workqueue (begin_exit a.runs s) in
    stop_receiver a.env cl2 (a.last_rounds cl2) (a.receiver cl2)
      (stop_receiver a.env cl1 (a.last_rounds cl1) (a.receiver cl1) flushed)

unfoldable pub cl_mem_reg_exit : ExitArgs → Devices → System → Exited
unfolding exit_system stop_logging release_cores exit_gpus
cl_mem_reg_exit a d s =
    let s' = exit_system a s in
    record {
      system = s';
      closed = if s.logging then stop_logging a.log a.files else some [];
      released = release_cores s' a.env.online;
      devices = exit_gpus a.log.profiling1 a.log.profiling2 d;
    }
