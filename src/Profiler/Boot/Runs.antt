-- ===== src/Profiler/Boot/Runs.antt =====
-- gpu_profiler.c with cl_mem_reg.c, from the start of the profiler to its last signal.
use cl_mem_regulation.Common.{
  some, ℕ, ◌+◌, ◌<◌, ◌≡◌, ap, ◌∙◌, true, List, ◌∷◌, ◌++◌, u32, two32, finished,
}
use cl_mem_regulation.Kernel.State.{ClusterId, cluster}
use cl_mem_regulation.Device.Properties.{Locals, PropReader}
use cl_mem_regulation.Sampler.Blocks.{Reader}
use cl_mem_regulation.Sampler.Session.{timespec_to_uint64}
use cl_mem_regulation.Profiler.{Profiler}
use cl_mem_regulation.Profiler.Boot.{Startup, main}
use cl_mem_regulation.Profiler.Boot.Started.{IsServed, main-IsStarted}
use cl_mem_regulation.Profiler.Run.{
  device_of, Machine, Meets, Rounds, rounds, IsConnected, IsStarted, Answered,
}
use cl_mem_regulation.Profiler.Run.Account.{AllInTime, all_events, run-account}
use cl_mem_regulation.Profiler.Run.Late.{run-late}

-- A profiler whose `main` came to wait, with the clock at (`sec`, `nsec`) when its sampling began and the
-- memory of the counters mapped.
module _ (garbage : PropReader → ℕ) (stack : Locals) (fuel : ℕ) (m : Startup) (sec nsec : ℕ)
    (s : Profiler) (r : Reader) (served : IsServed m sec nsec)
    (waits : main garbage stack fuel m ≡ finished (s, r)) where
  -- The profiler of `main` is connected to the receiver of its cluster, if that runs.
  main-IsConnected :
      (k : ClusterId) (machine : Machine)
      → device_of m.target_cluster ≡ some k
      → machine.receiving ≡ true
      → IsConnected k s machine
  main-IsConnected k machine target runs =
      let (h, same, closed) = main-IsStarted garbage stack fuel m sec nsec s r served waits in
      record {
        target = ap device_of same ∙ target;
        linked = λ e. absurd (e closed);
        receiving = runs;
      }

  -- When `main` came to wait for the cluster `k`, the clock answered, the reader has no features and its memory
  -- is mapped, the receiver of `k` runs, and the usage of `k` has 32 bits: however many SIGUSR1s come, as long
  -- as each is answered, its sample ends no later than the sampling began, its beats are below 2 ^ 27, and the
  -- receiver has memory for its log line, the profiler waits for the next one, ready as before, and the usage of
  -- `k` has grown by a quarter of the beats of each round, with the wrap of 32 bits.
  pub main-run :
      (k : ClusterId) (cpu : ℕ) (xs : List Meets) (machine : Machine)
      → device_of m.target_cluster ≡ some k
      → machine.receiving ≡ true
      → (cluster machine.system k).bandwidth_usage < two32
      → AllInTime r (timespec_to_uint64 sec nsec) xs
      → (s' : Profiler) × (machine' : Machine) × (rounds cpu xs s machine
          ≡ Rounds.waiting s' machine')
        × IsStarted r (timespec_to_uint64 sec nsec) s'
        × IsConnected k s' machine'
        × ((cluster machine'.system k).bandwidth_usage
            ≡ u32 ((cluster machine.system k).bandwidth_usage + all_events xs))
  main-run k cpu xs machine target runs lt all =
      run-account r (timespec_to_uint64 sec nsec) k cpu xs s machine
        (main-IsStarted garbage stack fuel m sec nsec s r served waits).0
        (main-IsConnected k machine target runs) lt all

  -- When `main` came to wait for the cluster `k`, the clock answered, the reader has no features and its memory
  -- is mapped, the receiver of `k` runs, and the usage of `k` has 32 bits: after any rounds that are answered in
  -- time, with beats below 2 ^ 27 and memory for the log line, the first answered sample that ends after the
  -- sampling began ends the profiler, by a success. The usage of `k` has grown by the rounds before it, and the
  -- signals after it do nothing.
  pub main-late :
      (k : ClusterId) (cpu : ℕ) (xs ys : List Meets) (x : Meets) (time : ℕ) (machine : Machine)
      → device_of m.target_cluster ≡ some k
      → machine.receiving ≡ true
      → (cluster machine.system k).bandwidth_usage < two32
      → AllInTime r (timespec_to_uint64 sec nsec) xs
      → Answered r time x.world
      → timespec_to_uint64 sec nsec < time
      → (machine' : Machine) × (rounds cpu (xs ++ (x ∷ ys)) s machine ≡ Rounds.over true machine')
        × ((cluster machine'.system k).bandwidth_usage
            ≡ u32 ((cluster machine.system k).bandwidth_usage + all_events xs))
  main-late k cpu xs ys x time machine target runs lt all a late =
      run-late r (timespec_to_uint64 sec nsec) k cpu xs ys x time s machine
        (main-IsStarted garbage stack fuel m sec nsec s r served waits).0
        (main-IsConnected k machine target runs) lt all a late
