-- ===== src/Kernel/Gpu/Receive.antt =====
-- What a round of a receiver does, on each of its branches.
use cl_mem_regulation.Common.{
  ℕ, ◌+◌, ◌≡◌, refl, ap, ◌∙◌, not, if_rule, arith, true, false, Bool, ◌&&◌, u32, slt32, mem,
}
use cl_mem_regulation.Kernel.State.{System, ClusterId, ClusterInfo, gpu, cluster, put_gpu}
use cl_mem_regulation.Kernel.Throttle.{Env, on_each_cpu_mask, throttle_core}
use cl_mem_regulation.Kernel.Throttle.Calls.{WillThrottle, on_each_cpu_mask-WillThrottle}
use cl_mem_regulation.Kernel.Gpu.{
  Receiver, gpu_beats, beats_to_events, account_gpu, cleaned, overwrite, finish_round, receive,
}

finish_round-clears :
    (env : Env) (k : ClusterId) (cpu : ℕ) (s : System)
    → let s' = finish_round env k cpu s in
      ((gpu s' k).beats_ready ≡ false)
      × ((gpu s' k).beats_memory ≡ overwrite cleaned (gpu s k).beats_memory)
      × ((cluster s' k).bandwidth_usage ≡ (cluster s k).bandwidth_usage)
      × ((cluster s' k).cur_bandwidth_budget ≡ (cluster s k).cur_bandwidth_budget)
unfolding finish_round on_each_cpu_mask throttle_core
finish_round-clears env k cpu s = ground arith

finish_round-enforces :
    (env : Env) (k : ClusterId) (cpu : ℕ) (s : System) (i : ℕ)
    → slt32 (cluster s k).cur_bandwidth_budget (cluster s k).bandwidth_usage ≡ true
    → (cluster s k).cpu_mask i ≡ true
    → mem i env.online ≡ true
    → WillThrottle (finish_round env k cpu s) i
unfolding finish_round
finish_round-enforces env k cpu s i over m on =
    let g = gpu s k in
    let s' =
      put_gpu s k
        (record g { beats_memory = overwrite cleaned g.beats_memory; beats_ready = false }) in
    ground (arith, on_each_cpu_mask-WillThrottle env (cluster s k).cpu_mask cpu s' i on m)

pub account_gpu-fields :
    (k : ClusterId) (s : System)
    → let s' = account_gpu k s in
      let m = (gpu s k).beats_memory in
      ((cluster s' k).bandwidth_usage
        ≡ u32 ((cluster s k).bandwidth_usage + beats_to_events (gpu_beats m 0) (gpu_beats m 1)))
      × ((cluster s' k).cur_bandwidth_budget ≡ (cluster s k).cur_bandwidth_budget)
      × ((cluster s' k).cpu_mask ≡ (cluster s k).cpu_mask)
      × (gpu s' k ≡ gpu s k)
      × (s'.logging ≡ s.logging)
unfolding account_gpu
account_gpu-fields k s = (ground arith, ground arith, ground arith, ground arith, ground arith)

-- What a round that goes on leaves behind.
pub record Received (env : Env) (k : ClusterId) (s s' : System) : Type 0 where
  pub ready : (gpu s' k).beats_ready ≡ false
  pub memory : (gpu s' k).beats_memory ≡ overwrite cleaned (gpu s k).beats_memory
  pub usage :
      (cluster s' k).bandwidth_usage
      ≡ u32 (
          (cluster s k).bandwidth_usage
          + beats_to_events
              (gpu_beats (gpu s k).beats_memory 0)
              (gpu_beats (gpu s k).beats_memory 1))
  pub enforced :
      slt32 (cluster s k).cur_bandwidth_budget (cluster s' k).bandwidth_usage ≡ true
      → (i : ℕ) → (cluster s k).cpu_mask i ≡ true
      → mem i env.online ≡ true
      → WillThrottle s' i

finish_round-Received :
    (env : Env) (k : ClusterId) (cpu : ℕ) (s s1 : System)
    → (gpu s1 k ≡ gpu s k)
    → (cluster s1 k ≡ cluster (account_gpu k s) k)
    → Received env k s (finish_round env k cpu s1)
finish_round-Received env k cpu s s1 g c =
    let f = finish_round-clears env k cpu s1 in
    let a = account_gpu-fields k s in
    record {
      ready = f.0;
      memory = ground (arith, f.1);
      usage = ground (arith, f.2, a.0);
      enforced = λ over i m on.
          finish_round-enforces env k cpu s1 i (ground (arith, f.2, c, a.1))
            (ap (λ (x : ClusterInfo). x.cpu_mask i) c ∙ ap (λ f. f i) a.2 ∙ m) on;
    }

-- A round goes on, and does all of its work, unless a log line is due and there is no memory for it.
pub receive-again :
    (env : Env) (kmalloc : Bool) (k : ClusterId) (cpu : ℕ) (s : System)
    → (s.logging && (gpu s k).log_file && not kmalloc) ≡ false
    → (s' : System) × (receive env kmalloc k cpu s ≡ Receiver.again s') × Received env k s s'
unfolding receive
receive-again env kmalloc k cpu s h =
    let a = account_gpu-fields k s in
    if_rule Result (s1.logging && (gpu s1 k).log_file)
      (λ due.
        if_rule Result kmalloc
          (λ _. round (record s1 { work = _ }) (ground (arith, a.3)) (ground arith))
          (λ lost. absurd (ground (arith, a.3, a.4))))
      (λ _. round s1 a.3 refl)
  where
    s1 : System
    s1 = account_gpu k s

    Result : Receiver → Type 0
    Result r = (s' : System) × (r ≡ Receiver.again s') × Received env k s s'

    round :
        (s2 : System)
        → (gpu s2 k ≡ gpu s k)
        → (cluster s2 k ≡ cluster s1 k)
        → Result (Receiver.again (finish_round env k cpu s2))
    round s2 g c = (_, refl, finish_round-Received env k cpu s s2 g c)
