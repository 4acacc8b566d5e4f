-- ===== src/Kernel/Thread.antt =====
-- The throttle thread of a core (cl_mem_reg.c, `throttle_thread_func`): it waits for the core to be
-- throttled, and then spins at a higher priority than the work of the core, until it is not.
pub mod Follows
mod Tests
use cl_mem_regulation.Common.{if◌then◌else◌, Bool, true, false, ◌&&◌, ◌||◌, not, List, [], ◌∷◌}

-- Where the thread stands: in `wait_event_interruptible`, in the inner loop, or at its end.
pub data Thread : Type 0 where
  waiting spinning ended : Thread

-- What the thread sees when it looks: `throttled_task`, `kthread_should_stop` and `cpu_online`.
pub record Seen : Type 0 where
  pub throttled : Bool
  pub should_stop : Bool
  pub online : Bool

-- The head of the outer loop.
abbrev pub loop_head : Seen → Thread
loop_head o = if not o.should_stop && o.online then Thread.waiting else Thread.ended

-- One look. The wait ends when the core is throttled or the thread is to stop, and a thread that is to
-- stop leaves the loop.
unfoldable pub look : Seen → Thread → Thread
look o waiting =
    if o.throttled || o.should_stop
    then (if o.should_stop then Thread.ended else Thread.spinning)
    else Thread.waiting
look o spinning = if o.throttled && not o.should_stop then Thread.spinning else loop_head o
look o ended = Thread.ended

unfoldable pub throttle_thread : List Seen → Thread → Thread
unfolding look
throttle_thread [] t = t
throttle_thread (o ∷ os) t = throttle_thread os (look o t)
