-- ===== src/Profiler/Run.antt =====
-- gpu_profiler.c with the GPU side of cl_mem_reg.c: the profiler that is asked for its beats again and
-- again, and the receiver in the kernel that takes them.
pub mod Ready
pub mod Account
pub mod Late
use cl_mem_regulation.Common.{
  ℕ, ◌+◌, ◌/◌, ◌^◌, ◌<◌, ◌≤◌, ◌≡◌, ◌≢◌, refl, sym, ap, ◌∙◌, ◌==◌, if◌then◌else◌, if_rule, Bool,
  true, false, Option, Option-cases, inl, inr, none, some, List, [], ◌∷◌, ◌++◌, length, u32, two31,
  two32, is_neg32, ltb, ==_ne, Bool-cases, arith,
}
use mathlib.Core.Path.{subst}
use cl_mem_regulation.Counters.{RegisteredCounter}
use cl_mem_regulation.Kernel.State.{System, ClusterId, cl1, cl2, cluster}
use cl_mem_regulation.Kernel.Throttle.{Env}
use cl_mem_regulation.Kernel.Gpu.{UserCopy, profiling_write, receive, Receiver, sysfs_store}
use cl_mem_regulation.Kernel.Gpu.Receive.{Received, receive-again}
use cl_mem_regulation.Sampler.Session.{Session, session__update_ts}
use cl_mem_regulation.Structures.Queue.{uint64_queue__push}
use cl_mem_regulation.Structures.SessionQueue.{session_queue__front}
use cl_mem_regulation.Sampler.Backend.{
  Backend, VinstrSample, blank, backend__request_sample, backend__request_sample_no_lock,
  backend__get_sample, sample__init,
}
use cl_mem_regulation.Sampler.Blocks.{Reader}
use cl_mem_regulation.Sampler.Values.{Values}
use cl_mem_regulation.Sampler.Values.Sum.{Fits, IsReadable}
use cl_mem_regulation.Sampler.Values.Places.{AllIn, Placed}
use cl_mem_regulation.Sampler.Values.Reading.{Sampled}
use cl_mem_regulation.Profiler.{
  Profiler, World, Effect, device_opened, beats_written, Handled, returned, ended, lost, sigusr1,
  counter1, counter2, not_started, terminated, take_beats, profile_gpu_bandwidth,
}
use cl_mem_regulation.Profiler.Beats.{registered, IsReady, sum_of, sent, take_beats-sent}

-- The device file of a cluster, and its switch.
abbrev pub device_of : (cluster : ℕ) → Option ClusterId
device_of cluster = if cluster == 1 then some cl1 else if cluster == 2 then some cl2 else none

-- The kernel, with the device that the profiler has opened, and whether the receiver of that device still
-- runs.
pub record Machine : Type 0 where
  pub device : Option ClusterId
  pub receiving : Bool
  pub system : System

-- The receiver takes the beats that are ready, and ends when it has no memory for its log line.
unfoldable pub take_round :
    Env → (kmalloc : Bool) → ClusterId → (cpu : ℕ) → System → Machine → Machine
take_round env kmalloc k cpu sys m =
    let taken : Machine = elim (receive env kmalloc k cpu sys) [
      | Receiver.again sys' ↦ record m { system = sys' }
      | Receiver.returned sys' ↦ record m { system = sys'; receiving = false }
    ] in
    if m.receiving then taken else record m { system = sys }

-- What the profiler does to the world, one after the other: it opens the device of a cluster, writes beats to
-- the device that is open, closes it, and writes 0 to the switch of a cluster.
unfoldable pub deliver : Env → (kmalloc : Bool) → (cpu : ℕ) → List Effect → Machine → Machine
unfolding take_round
deliver env kmalloc cpu [] m = m
deliver env kmalloc cpu (Effect.device_opened cluster ∷ es) m =
    deliver env kmalloc cpu es (record m { device = device_of cluster })
deliver env kmalloc cpu (Effect.beats_written bytes ∷ es) m =
    let taken : Machine = elim m.device [
      | none ↦ m
      | some k ↦
          take_round env kmalloc k cpu
            (profiling_write k (length bytes) (UserCopy.copied bytes) m.system).1 m
    ] in
    deliver env kmalloc cpu es taken
deliver env kmalloc cpu (Effect.device_closed fd ∷ es) m =
    deliver env kmalloc cpu es (record m { device = none })
deliver env kmalloc cpu (Effect.stop_written cluster ∷ es) m =
    let switched : System = elim (device_of cluster) [
      | none ↦ m.system
      | some k ↦ (sysfs_store k (b'0' ∷ 10 ∷ []) 2 m.system).1
    ] in
    deliver env kmalloc cpu es (record m { system = switched })

-- What a SIGUSR1 meets: what the profiler is answered, the CPUs, and whether the receiver gets memory for its
-- log line.
pub record Meets : Type 0 where
  pub world : World
  pub env : Env
  pub kmalloc : Bool

-- How a sequence of SIGUSR1s leaves the profiler, with the kernel.
pub data Rounds : Type 0 where
  waiting : Profiler → Machine → Rounds
  over : (success : Bool) → Machine → Rounds
  broken : Rounds

unfoldable pub rounds : (cpu : ℕ) → List Meets → Profiler → Machine → Rounds
unfolding deliver
rounds cpu [] s m = Rounds.waiting s m
rounds cpu (x ∷ xs) s m = elim (profile_gpu_bandwidth x.world sigusr1 s) [
  | returned s' effects ↦ rounds cpu xs s' (deliver x.env x.kmalloc cpu effects m)
  | ended success effects ↦ Rounds.over success (deliver x.env x.kmalloc cpu effects m)
  | lost ↦ Rounds.broken
]

-- The profiler is one of cluster `k`: the device that it opens, or has open, is that of `k`, whose receiver
-- runs.
pub record IsConnected (k : ClusterId) (s : Profiler) (m : Machine) : Type 0 where
  pub target : device_of s.target_cluster ≡ some k
  pub linked : s.fd ≢ not_started → m.device ≡ some k
  pub receiving : m.receiving ≡ true

-- A profiler that waits for signals, whose sampling began at `begun`.
pub record IsStarted (r : Reader) (begun : ℕ) (s : Profiler) : Type 0 where
  pub readable : IsReadable r
  pub all_in : AllIn s.values
  pub fits : Fits s.values.sample_buffer_
  pub short : length s.values.sample_buffer_ ≤ two31
  pub p1 : ℕ
  pub first : Placed s.values (registered counter1) p1
  pub p2 : ℕ
  pub second : Placed s.values (registered counter2) p2
  pub started : s.values.sampling_in_progress_ ≡ true
  pub alive : s.fd ≢ terminated
  pub period : s.backend.period_ns_ ≡ 0
  pub features : s.backend.reader_features_ ≡ 0
  pub active : s.backend.active_ ≡ true
  pub session : Session
  pub front : session_queue__front blank s.backend.sessions_ ≡ some session
  pub since : session.last_ts_ns_ ≡ begun

-- The device can be opened, and the driver answers with a sample that ended at `time`.
pub record Answered (r : Reader) (time : ℕ) (w : World) : Type 0 where
  pub reader : w.reader ≡ r
  pub rounds : w.fuel ≡ length r.sample_layout_.layout_
  pub opens : is_neg32 w.opened ≡ false
  pub dump : w.answers.dump ≡ true
  pub put_back : w.answers.put_back ≡ true
  pub taken : w.answers.taken ≡ some time
