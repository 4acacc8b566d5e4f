-- ===== src/Profiler/Run/Account.antt =====
-- gpu_profiler.c with cl_mem_reg.c: what the kernel adds to the usage of a cluster for the beats that a
-- profiler sends, and when it throttles for them.
use cl_mem_regulation.Common.{
  ℕ, ◌+◌, ◌/◌, ◌^◌, ◌<◌, ◌≤◌, ◌≡◌, refl, sym, ◌∙◌, ◌==◌, if_rule, some, true, List, [], ◌∷◌, ◌++◌,
  u32, two32, slt32, mem, arith,
}
use cl_mem_regulation.Kernel.State.{System, ClusterId, cluster}
use cl_mem_regulation.Kernel.Throttle.{Env}
use cl_mem_regulation.Kernel.Throttle.Calls.{WillThrottle}
use cl_mem_regulation.Kernel.Gpu.{UserCopy, profiling_write}
use cl_mem_regulation.Kernel.Gpu.Decode.{write-account}
use cl_mem_regulation.Kernel.Gpu.Receive.{receive-again, account_gpu-fields}
use cl_mem_regulation.Sampler.Blocks.{Reader}
use cl_mem_regulation.Profiler.{
  Profiler, World, not_started, Effect, beats_written, Handled, sigusr1, counter1, counter2,
  profile_gpu_bandwidth,
}
use cl_mem_regulation.Profiler.Beats.{sum_of, sent, take_beats-sent}
use cl_mem_regulation.Profiler.Run.{
  deliver, take_round, device_of, Machine, Meets, Rounds, rounds, IsConnected, IsStarted, Answered,
}
use cl_mem_regulation.Profiler.Run.Ready.{
  opened_by, opening, profile-takes, opened_by-IsStarted, connected, deliver-opening, ready,
  after_sample-IsStarted,
}

write-cluster :
    (k : ClusterId) (n : ℕ) (bytes : List ℕ) (sys : System)
    → cluster (profiling_write k n (UserCopy.copied bytes) sys).1 k ≡ cluster sys k
unfolding profiling_write
write-cluster k n bytes sys = ground arith

-- A quarter of the beats of both counters.
abbrev pub events_of : World → ℕ
events_of w = (sum_of w counter1 + sum_of w counter2) / 4

-- What the beats of a sample do to the kernel: the usage of the cluster goes up, and when it passes the
-- budget every online CPU of the cluster is told to throttle.
pub record Accounted (env : Env) (k : ClusterId) (events : ℕ) (sys sys' : System) : Type 0 where
  pub usage : (cluster sys' k).bandwidth_usage ≡ u32 ((cluster sys k).bandwidth_usage + events)
  pub enforced :
      slt32 (cluster sys k).cur_bandwidth_budget (cluster sys' k).bandwidth_usage ≡ true
      → (i : ℕ) → (cluster sys k).cpu_mask i ≡ true
      → mem i env.online ≡ true
      → WillThrottle sys' i

abbrev Small : World → Type 0
Small w = sum_of w counter1 + sum_of w counter2 < 2 ^ 27

-- The beats that are written to the open device are taken by its receiver.
deliver-Accounted :
    (env : Env) (k : ClusterId) (cpu : ℕ) (w : World) (m : Machine)
    → m.receiving ≡ true
    → Small w
    → let m' = deliver env true cpu (beats_written (sent w) ∷ []) (connected k m) in
      (m'.device ≡ some k)
      × (m'.receiving ≡ true)
      × Accounted env k (events_of w) m.system m'.system
unfolding deliver take_round
deliver-Accounted env k cpu w m runs small =
    let sys = m.system in
    let c1 = sum_of w counter1 in
    let c2 = sum_of w counter2 in
    let sys1 = (profiling_write k 8 (UserCopy.copied (sent w)) sys).1 in
    let same = write-cluster k 8 (sent w) sys in
    let (sys', e, got) = receive-again env true k cpu sys1 (ground arith) in
    let counted = (write-account k (u32 c2) (u32 c1) sys (omega arith)).2 in
    let used = (cluster sys k).bandwidth_usage in
    let swapped : u32 (used + (u32 c2 + u32 c1) / 4) ≡ u32 (used + (c1 + c2) / 4) = omega arith in
    rw (runs, e)
      (
        refl,
        runs,
        record {
          usage = got.usage ∙ sym ((account_gpu-fields k sys1).0) ∙ counted ∙ swapped;
          enforced = λ over i m on. got.enforced (rw same over) i (rw same m) on;
        },
      )

-- A started profiler of cluster `k`, whose receiver runs and has memory for its log line, gets a SIGUSR1, is
-- answered with a sample that ends no later than its sampling began, and counts less than 2 ^ 27 beats in it.
-- Then it is a started profiler of the cluster again, and the receiver accounts for the beats: the usage of
-- `k` goes up by a quarter of them, and a usage over the budget leaves every online CPU of the cluster
-- throttled, or with a call still to take that throttles it.
pub sigusr1-Accounted :
    (r : Reader) (begun time : ℕ) (k : ClusterId) (cpu : ℕ) (w : World) (env : Env) (s : Profiler)
    (m : Machine)
    → IsStarted r begun s
    → IsConnected k s m
    → Answered r time w
    → time ≤ begun
    → Small w
    → (s' : Profiler) × (effects : List Effect) × (profile_gpu_bandwidth w sigusr1 s
        ≡ Handled.returned s' effects)
      × IsStarted r begun s'
      × (let m' = deliver env true cpu effects m in
          IsConnected k s' m' × Accounted env k (events_of w) m.system m'.system)
sigusr1-Accounted r begun time k cpu w env s m h conn a le small =
    let s1 = opened_by w s in
    let h1 = opened_by-IsStarted r begun w s a.opens h in
    let is = ready r begun time w s1 h1 a le in
    let (v, e, c) = take_beats-sent w s1 h1.p1 h1.p2 (opening s) is in
    let (device, runs, accounted) = deliver-Accounted env k cpu w m conn.receiving small in
    (
      record s1 { backend = is.asked; values = v },
      opening s ++ (beats_written (sent w) ∷ []),
      profile-takes w s h.alive a.opens ∙ e,
      after_sample-IsStarted r begun time w s1 h1 a le v c,
      rw (deliver-opening env true k cpu s (beats_written (sent w) ∷ []) m conn) (
        record {
          target =
              if_rule (λ (t : Profiler). device_of t.target_cluster ≡ some k) (s.fd == not_started)
                {x = record s { fd = w.opened }} {y = s} (λ q. conn.target) (λ q. conn.target);
          linked = λ q. device;
          receiving = runs;
        },
        accounted,
      ),
    )

pub rounds-returned :
    (cpu : ℕ) (x : Meets) (xs : List Meets) (s s' : Profiler) (effects : List Effect) (m : Machine)
    → profile_gpu_bandwidth x.world sigusr1 s ≡ Handled.returned s' effects
    → x.kmalloc ≡ true
    → rounds cpu (x ∷ xs) s m ≡ rounds cpu xs s' (deliver x.env true cpu effects m)
unfolding rounds
rounds-returned cpu x xs s s' effects m e memory = rw (e, memory, rounds) refl

-- The rounds that are answered in time, one after the other, with few enough beats in each of them, and memory
-- for the log line of the receiver.
pub data AllInTime (r : Reader) (begun : ℕ) : List Meets → Type 0 where
  no_round : AllInTime r begun []
  next_round :
      {x : Meets} {xs : List Meets} (time : ℕ)
      → Answered r time x.world
      → time ≤ begun
      → Small x.world
      → x.kmalloc ≡ true
      → AllInTime r begun xs
      → AllInTime r begun (x ∷ xs)

-- The events of all rounds.
unfoldable pub all_events : List Meets → ℕ
all_events [] = 0
all_events (x ∷ xs) = events_of x.world + all_events xs

-- After rounds that were answered in time the profiler waits again, and the usage has grown.
abbrev pub Waits : Reader → ℕ → ClusterId → ℕ → Machine → Rounds → Type 0
Waits r begun k events m end =
    (s' : Profiler) × (m' : Machine) × (end ≡ Rounds.waiting s' m')
    × IsStarted r begun s'
    × IsConnected k s' m'
    × ((cluster m'.system k).bandwidth_usage ≡ u32 ((cluster m.system k).bandwidth_usage + events))

module _ (r : Reader) (begun : ℕ) (k : ClusterId) (cpu : ℕ) where
  pub run-account :
      (xs : List Meets) (s : Profiler) (m : Machine)
      → IsStarted r begun s
      → IsConnected k s m
      → (cluster m.system k).bandwidth_usage < two32
      → AllInTime r begun xs
      → Waits r begun k (all_events xs) m (rounds cpu xs s m)
  unfolding rounds all_events
  run-account [] s m h conn lt all = (s, m, refl, h, conn, omega arith)
  run-account (x ∷ xs) s m h conn lt (AllInTime.next_round time a le small memory all) =
      let (s1, effects, e, h1, (conn1, c)) =
        sigusr1-Accounted r begun time k cpu x.world x.env s m h conn a le small in
      let m1 = deliver x.env true cpu effects m in
      let (s', m', e', h', conn', u) = run-account xs s1 m1 h1 conn1 (omega (arith, c.usage)) all in
      (
        s',
        m',
        rounds-returned cpu x xs s s1 effects m e memory ∙ e',
        h',
        conn',
        omega (arith, u, c.usage),
      )
