-- ===== src/Kernel/Exit/Last.antt =====
-- What the last rounds of the receivers do to a system that is being unloaded (cl_mem_reg.c).
use cl_mem_regulation.Common.{
  ℕ, zero, suc, ◌+◌, ◌≡◌, refl, ◌∙◌, arith, true, false, none, some, Option, mem, slt32, u32,
  if_rule,
}
use cl_mem_regulation.Kernel.State.{System, Gpu, ClusterId, cl1, cl2, cluster, gpu, put_gpu}
use cl_mem_regulation.Kernel.Throttle.{Env, on_each_cpu_mask, throttle_core}
use cl_mem_regulation.Kernel.Throttle.Calls.{WillThrottle, on_each_cpu_mask-keeps}
use cl_mem_regulation.Kernel.Gpu.{
  receive, receiver_system, Receiver, account_gpu, finish_round, gpu_beats, beats_to_events,
  cleaned, overwrite,
}
use cl_mem_regulation.Kernel.Gpu.Receive.{receive-again, account_gpu-fields}
use cl_mem_regulation.Kernel.Exit.{repeat_rounds, stop_receiver}

-- What a step of the exit leaves alone.
pub record Kept (s s' : System) : Type 0 where
  pub timers : (i : ℕ) → (s'.core i).hr_timer ≡ (s.core i).hr_timer
  pub off : s'.logging ≡ s.logging
  pub queue : s'.work ≡ s.work
  pub unloading : s'.module_unloading ≡ s.module_unloading

receive-Kept :
    (env : Env) (k : ClusterId) (cpu : ℕ) (s : System)
    → s.logging ≡ false
    → Kept s (receiver_system (receive env true k cpu s))
unfolding receive account_gpu finish_round on_each_cpu_mask throttle_core
receive-Kept env k cpu s off = record {
  timers = λ i. ground (arith, off);
  off = ground (arith, off);
  queue = ground (arith, off);
  unloading = ground (arith, off);
}

-- With logging off, a round always goes on.
receive-off :
    (env : Env) (k : ClusterId) (cpu : ℕ) (s : System)
    → s.logging ≡ false
    → receive env true k cpu s ≡ Receiver.again (finish_round env k cpu (account_gpu k s))
unfolding receive
receive-off env k cpu s off = let still = (account_gpu-fields k s).4 ∙ off in rw still refl

account_gpu-WillThrottle :
    (k : ClusterId) (s : System) (i : ℕ) → WillThrottle s i → WillThrottle (account_gpu k s) i
unfolding account_gpu
account_gpu-WillThrottle cl1 s i will = will
account_gpu-WillThrottle cl2 s i will = will

put_gpu-WillThrottle :
    (k : ClusterId) (s : System) (g : Gpu) (i : ℕ)
    → WillThrottle s i
    → WillThrottle (put_gpu s k g) i
put_gpu-WillThrottle cl1 s g i will = will
put_gpu-WillThrottle cl2 s g i will = will

finish_round-WillThrottle :
    (env : Env) (k : ClusterId) (cpu : ℕ) (s : System) (i : ℕ)
    → WillThrottle s i
    → WillThrottle (finish_round env k cpu s) i
unfolding finish_round
finish_round-WillThrottle env k cpu s i will =
    let g = gpu s k in
    let g' : Gpu = record g {
      beats_memory = overwrite cleaned g.beats_memory;
      beats_ready = false;
    } in
    let s' = put_gpu s k g' in
    let c = cluster s' k in
    let will' = put_gpu-WillThrottle k s g' i will in
    if_rule (λ t. WillThrottle t i) (slt32 c.cur_bandwidth_budget c.bandwidth_usage)
      {x = on_each_cpu_mask env c.cpu_mask cpu s'} {y = s'}
      (λ over. on_each_cpu_mask-keeps env c.cpu_mask cpu s' i will') (λ within. will')

receive-WillThrottle :
    (env : Env) (k : ClusterId) (cpu : ℕ) (s : System) (i : ℕ)
    → s.logging ≡ false
    → WillThrottle s i
    → WillThrottle (receiver_system (receive env true k cpu s)) i
receive-WillThrottle env k cpu s i off will =
    rw (receive-off env k cpu s off) (
      finish_round-WillThrottle env k cpu (account_gpu k s) i (account_gpu-WillThrottle k s i will))

pub receive-other :
    (env : Env) (cpu : ℕ) (s : System)
    → s.logging ≡ false
    → let s' = receiver_system (receive env true cl1 cpu s) in
      (cluster s' cl2 ≡ cluster s cl2) × (gpu s' cl2 ≡ gpu s cl2)
unfolding receive account_gpu finish_round on_each_cpu_mask throttle_core
receive-other env cpu s off = (ground (arith, off), ground (arith, off))

receive-clusters :
    (env : Env) (k : ClusterId) (cpu : ℕ) (s : System)
    → s.logging ≡ false
    → let s' = receiver_system (receive env true k cpu s) in
      ((cluster s' k).cur_bandwidth_budget ≡ (cluster s k).cur_bandwidth_budget)
      × ((cluster s' k).cpu_mask ≡ (cluster s k).cpu_mask)
unfolding receive account_gpu finish_round on_each_cpu_mask throttle_core
receive-clusters env k cpu s off = (ground (arith, off), ground (arith, off))

-- The wake-up of a receiver, and its rounds.
abbrev woken : ClusterId → System → System
woken k s = put_gpu s k (record (gpu s k) { beats_ready = true })

-- What a cluster's usage is after the beats that lie in its memory.
abbrev pub last_usage : ClusterId → System → ℕ
last_usage k s =
    let m = (gpu s k).beats_memory in
    u32 ((cluster s k).bandwidth_usage + beats_to_events (gpu_beats m 0) (gpu_beats m 1))

pub Kept-then : (a b c : System) → Kept a b → Kept b c → Kept a c
Kept-then a b c one two = record {
  timers = λ i. two.timers i ∙ one.timers i;
  off = two.off ∙ one.off;
  queue = two.queue ∙ one.queue;
  unloading = two.unloading ∙ one.unloading;
}

woken-Kept : (k : ClusterId) (s : System) → Kept s (woken k s)
woken-Kept cl1 s = record { timers = λ i. refl; off = refl; queue = refl; unloading = refl }
woken-Kept cl2 s = record { timers = λ i. refl; off = refl; queue = refl; unloading = refl }

woken-same :
    (k : ClusterId) (s : System)
    → (cluster (woken k s) k ≡ cluster s k)
      × ((gpu (woken k s) k).beats_memory ≡ (gpu s k).beats_memory)
woken-same cl1 s = (refl, refl)
woken-same cl2 s = (refl, refl)

-- The rounds of a receiver, with logging off.
repeat_rounds-Kept :
    (env : Env) (k : ClusterId) (cpu n : ℕ) (s : System)
    → s.logging ≡ false
    → Kept s (repeat_rounds env k cpu n s)
unfolding repeat_rounds
repeat_rounds-Kept env k cpu zero s off = record {
  timers = λ i. refl;
  off = refl;
  queue = refl;
  unloading = refl;
}
repeat_rounds-Kept env k cpu (suc n) s off =
    let one = receive-Kept env k cpu s off in
    let s' = receiver_system (receive env true k cpu s) in
    Kept-then s s' _ one (repeat_rounds-Kept env k cpu n s' (one.off ∙ off))

repeat_rounds-WillThrottle :
    (env : Env) (k : ClusterId) (cpu n : ℕ) (s : System) (i : ℕ)
    → s.logging ≡ false
    → WillThrottle s i
    → WillThrottle (repeat_rounds env k cpu n s) i
unfolding repeat_rounds
repeat_rounds-WillThrottle env k cpu zero s i off will = will
repeat_rounds-WillThrottle env k cpu (suc n) s i off will =
    repeat_rounds-WillThrottle env k cpu n (receiver_system (receive env true k cpu s)) i
      ((receive-Kept env k cpu s off).off ∙ off) (receive-WillThrottle env k cpu s i off will)

-- The rounds of the first cluster's receiver leave the second cluster alone.
abbrev SameSecond : System → System → Type 0
SameSecond s s' = (s'.cluster2 ≡ s.cluster2) × (s'.gpu2 ≡ s.gpu2)

repeat_rounds-other :
    (env : Env) (cpu n : ℕ) (s : System)
    → s.logging ≡ false
    → SameSecond s (repeat_rounds env cl1 cpu n s)
unfolding repeat_rounds
repeat_rounds-other env cpu zero s off = (refl, refl)
repeat_rounds-other env cpu (suc n) s off =
    let one = receive-other env cpu s off in
    let rest =
      repeat_rounds-other env cpu n (receiver_system (receive env true cl1 cpu s))
        ((receive-Kept env cl1 cpu s off).off ∙ off) in
    (rest.0 ∙ one.0, rest.1 ∙ one.1)

pub stop_receiver-other :
    (env : Env) (n : ℕ) (r : Option ℕ) (s : System)
    → s.logging ≡ false
    → SameSecond s (stop_receiver env cl1 n r s)
unfolding stop_receiver
stop_receiver-other env n none s off = (refl, refl)
stop_receiver-other env n (some cpu) s off = repeat_rounds-other env cpu n (woken cl1 s) off

pub stop_receiver-Kept :
    (env : Env) (k : ClusterId) (n : ℕ) (r : Option ℕ) (s : System)
    → s.logging ≡ false
    → Kept s (stop_receiver env k n r s)
unfolding stop_receiver
stop_receiver-Kept env k n none s off = record {
  timers = λ i. refl;
  off = refl;
  queue = refl;
  unloading = refl;
}
stop_receiver-Kept env k n (some cpu) s off =
    let w = woken-Kept k s in
    Kept-then s (woken k s) _ w (repeat_rounds-Kept env k cpu n (woken k s) (w.off ∙ off))

pub stop_receiver-WillThrottle :
    (env : Env) (k : ClusterId) (n : ℕ) (r : Option ℕ) (s : System) (i : ℕ)
    → s.logging ≡ false
    → WillThrottle s i
    → WillThrottle (stop_receiver env k n r s) i
unfolding stop_receiver
stop_receiver-WillThrottle env k n none s i off will = will
stop_receiver-WillThrottle env k n (some cpu) s i off will =
    repeat_rounds-WillThrottle env k cpu n (woken k s) i ((woken-Kept k s).off ∙ off)
      (put_gpu-WillThrottle k s (record (gpu s k) { beats_ready = true }) i will)

-- A receiver that goes through a round throttles a cluster that is over its budget.
pub stop_receiver-throttles :
    (env : Env) (k : ClusterId) (n cpu : ℕ) (s : System) (i : ℕ)
    → s.logging ≡ false
    → slt32 (cluster s k).cur_bandwidth_budget (last_usage k s) ≡ true
    → (cluster s k).cpu_mask i ≡ true
    → mem i env.online ≡ true
    → WillThrottle (stop_receiver env k (suc n) (some cpu) s) i
unfolding stop_receiver repeat_rounds
stop_receiver-throttles env k n cpu s i off over m on =
    let (c, b) = woken-same k s in
    let woke = (woken-Kept k s).off ∙ off in
    let (s', e, got) = receive-again env true k cpu (woken k s) (ground arith) in
    let round = receiver_system (receive env true k cpu (woken k s)) in
    let one : WillThrottle round i =
      rw e (got.enforced (rw (got.usage, c, b) over) i (rw c m) on) in
    repeat_rounds-WillThrottle env k cpu n round i
      ((receive-Kept env k cpu (woken k s) woke).off ∙ woke) one
